-- ===== src/Monitor/Threads/Written.antt =====
-- Goroutines in `UpdateDatabase` on the same checks: what they leave in the database and in the file.
use gonit.Base.{
  ℕ, ◌==◌, String, ◌≡◌, ◌⊎◌, subst, Bool, true, false, some, none, List, [], ◌∷◌, map, same_text,
  is_some, any, arith, eq_iff, Bool-cases, Option-cases, inl, inr, refl,
}
use gonit.Base.Sort.{sort_strings}
use gonit.Base.Table.{Table, keys, lookup, erase}
use gonit.Monitor.Threads.Orderly.{After}
use gonit.Monitor.Threads.Recorded.{
  pending, to_visit, has_saved, IsRecorded, IsWritten, saved_world, with_new, stays, itself, added,
}
use gonit.Monitor.Threads.{
  Saving, written, refused, broken_off, file_after, has_failed, Given, Held, World, Pc, checking,
  adding, waiting, writing, listing, pruning, saving, releasing, finished, advance, put_pc,
  put_entry,
}

-- The file of `Serialize` has the flag of the entry.
lookup-saved :
    (id : String) (f : String → ℕ → Bool) (m : Table ℕ) (a : ℕ)
    → lookup id m ≡ some a
    → lookup id (map (λ p. (p.0, f p.0 p.1)) m) ≡ some (f id a)
unfolding lookup
lookup-saved id f [] a e = absurd (ground (arith, e))
lookup-saved id f ((k, b) ∷ m) a e = elim (Bool-cases (same_text k id)) [
  | inl here ↦ ground (arith, here, e, eq_iff k id)
  | inr other ↦ rw (lookup, other) (lookup-saved id f m a (rw (lookup, other) at e))
]

pending-unsaved : (id : String) (a : ℕ) (p : Pc) → pending id a p ≡ true → has_saved id p ≡ false
pending-unsaved id a (waiting k b ids h) e = refl
pending-unsaved id a (writing k b ids h) e = refl
pending-unsaved id a (checking ids h) e = refl
pending-unsaved id a (adding k ids h) e = refl
pending-unsaved id a (listing h) e = refl
pending-unsaved id a (pruning ks h) e = refl
pending-unsaved id a (saving h) e = refl
pending-unsaved id a (releasing h) e = absurd (ground (arith, e))
pending-unsaved id a finished e = absurd (ground (arith, e))

pub file_after-written :
    (s : Saving) (w : World)
    → has_failed s ≡ false
    → file_after s w ≡ map (λ p. (p.0, w.monitored p.0 p.1)) w.db
file_after-written written w e = refl
file_after-written refused w e = absurd (ground (arith, e))
file_after-written broken_off w e = absurd (ground (arith, e))

module _ (id : String) (given : Given) (i : ℕ) (white : ℕ → List String) (w : World)
    (f : ℕ → Pc) where
  -- A goroutine that is to look the check up still is after a step, or has found its entry.
  pub advance-visits :
      (p : Pc)
      → f i ≡ p
      → to_visit id p ≡ true
      → After
          (λ w' p'. (to_visit id p' ≡ true) ⊎ IsRecorded id given w' (put_pc i p' f))
          (advance given i (white i) w p)
  unfolding advance
  advance-visits (checking [] h) at e = absurd (ground (arith, e))
  advance-visits (checking (k ∷ ids) h) at e = elim (Option-cases (lookup k w.db)) [
    | inl missing ↦ rw missing (inl e)
    | inr (a, there) ↦ elim (Bool-cases (same_text k id)) [
      | inr other ↦ rw there (inl (ground (arith, other, e)))
      | inl here ↦
          let same : k ≡ id = ground (arith, eq_iff k id, here) in
          rw there (
            inr (
              a,
              subst (λ x. lookup x w.db ≡ some a) same there,
              inr (
                  itself id given i (white i) w f (pending id a) true (waiting k a ids h)
                    (ground (arith, here))),
            ))
    ]
  ]
  advance-visits (adding k ids h) at e = elim (Bool-cases (same_text k id)) [
    | inr other ↦ inl (ground (arith, other, e))
    | inl here ↦ inr (added id given i (white i) w f k ids h here)
  ]
  advance-visits (waiting k a ids h) at e = elim (Bool-cases (is_some (w.owner k a))) [
    | inl busy ↦ rw busy tt
    | inr free ↦ rw free (inl e)
  ]
  advance-visits (writing k a ids h) at e = inl e
  advance-visits (listing h) at e = absurd (ground (arith, e))
  advance-visits (pruning ks h) at e = absurd (ground (arith, e))
  advance-visits (saving h) at e = absurd (ground (arith, e))
  advance-visits (releasing h) at e = absurd (ground (arith, e))
  advance-visits finished at e = absurd (ground (arith, e))

  -- The file after a step.
  abbrev pub Saves : Pc → World → Pc → Type 0
  Saves p w' p' =
      (IsWritten id given white w f → IsWritten id given white w' (put_pc i p' f))
      × (has_saved id p' ≡ true
          → (has_saved id p ≡ true) ⊎ IsWritten id given white w' (put_pc i p' f))

  same_file :
      (p p' : Pc) (w' : World)
      → f i ≡ p
      → w'.file ≡ w.file
      → has_saved id p' ≡ has_saved id p
      → Saves p w' p'
  same_file p p' w' at file saved = (
    λ r. elim r [
      | inl e ↦ inl (rw file e)
      | inr (inl q) ↦ inr (
          inl (
            stays id given i (white i) w f (has_saved id) false p p' at
              (λ e. ground (arith, e, saved)) q))
      | inr (inr failed) ↦ inr (inr failed)
    ],
    λ e. inl (ground (arith, e, saved)),
  )

  -- The one who saves has the check's entry before it.
  saving_writes :
      (h : Held)
      → f i ≡ saving h
      → any (λ j. same_text j id) (white i) ≡ true
      → IsRecorded id given w f
      → IsWritten id given white (saved_world (given.saves i) w) (put_pc i (releasing h) f)
  saving_writes h at listed (a, there, inl e) = elim (Bool-cases (has_failed (given.saves i))) [
    | inl failed ↦ inr (inr (i, listed, failed))
    | inr fine ↦ inl (
        rw (file_after-written (given.saves i) w fine, lookup-saved id w.monitored w.db a there, e)
          refl)
  ]
  saving_writes h at listed (a, there, inr (m, q)) = inr (
      inl (
        m,
        elim (Bool-cases (m == i)) [
          | inl here ↦
              let same : m ≡ i = ground (arith, here) in
              absurd (
                ground (
                  arith,
                  subst (λ p. pending id a p ≡ true) at
                      (subst (λ x. pending id a (f x) ≡ true) same q),
                ))
          | inr other ↦ rw other (pending-unsaved id a (f m) q)
        ],
      ))

  pub advance-Saves :
      (p : Pc)
      → f i ≡ p
      → any (λ j. same_text j id) (white i) ≡ true
      → (to_visit id p ≡ true) ⊎ IsRecorded id given w f
      → After (λ w' p'. Saves p w' p') (advance given i (white i) w p)
  unfolding advance
  advance-Saves (checking [] h) at l r = same_file (checking [] h) (listing h) w at refl refl
  advance-Saves (checking (k ∷ ids) h) at l r = elim (Option-cases (lookup k w.db)) [
    | inl missing ↦ rw missing (same_file (checking (k ∷ ids) h) (adding k ids h) w at refl refl)
    | inr (a, there) ↦
        rw there (same_file (checking (k ∷ ids) h) (waiting k a ids h) w at refl refl)
  ]
  advance-Saves (adding k ids h) at l r =
      same_file (adding k ids h) (waiting k w.next ids h) (with_new id given i (white i) w f k) at
        refl refl
  advance-Saves (waiting k a ids h) at l r = elim (Bool-cases (is_some (w.owner k a))) [
    | inl busy ↦ rw busy tt
    | inr free ↦ rw free (
        same_file (waiting k a ids h) (writing k a ids h)
          (record w { owner = put_entry k a (some i) w.owner }) at refl refl)
  ]
  advance-Saves (writing k a ids h) at l r =
      same_file (writing k a ids h) (checking ids ((k, a) ∷ h))
        (record w { monitored = put_entry k a (given.on k) w.monitored }) at refl refl
  advance-Saves (listing h) at l r =
      same_file (listing h) (pruning (sort_strings (keys w.db)) h) w at refl refl
  advance-Saves (pruning [] h) at l r = same_file (pruning [] h) (saving h) w at refl refl
  advance-Saves (pruning (k ∷ ks) h) at l r =
      elim (Bool-cases (any (λ j. same_text j k) (white i))) [
        | inl kept ↦ rw kept (same_file (pruning (k ∷ ks) h) (pruning ks h) w at refl refl)
        | inr stale ↦ rw stale (
            same_file (pruning (k ∷ ks) h) (pruning ks h) (record w { db = erase k w.db }) at refl
              refl)
      ]
  advance-Saves (saving h) at l (inl e) = absurd (ground (arith, e))
  advance-Saves (saving h) at l (inr r) =
      let done = saving_writes h at l r in (λ _. done, λ _. inr done)
  advance-Saves (releasing []) at l r = same_file (releasing []) finished w at refl refl
  advance-Saves (releasing ((k, a) ∷ h)) at l r =
      same_file (releasing ((k, a) ∷ h)) (releasing h)
        (record w { owner = put_entry k a none w.owner }) at refl refl
  advance-Saves finished at l r = tt
