-- ===== src/Monitor/Threads/Recorded.antt =====
-- Goroutines in `UpdateDatabase` on the same checks: how the flag of a check comes into the database and
-- into the file.
use gonit.Base.{
  ℕ, ◌+◌, ◌==◌, String, ◌≡◌, ◌⊎◌, subst, Bool, true, false, ◌&&◌, ◌||◌, some, none, List, [], ◌∷◌,
  same_text, is_some, any, arith, eq_iff, Bool-cases, Option-cases, inl, inr, refl,
}
use gonit.Base.Sort.{sort_strings}
use gonit.Base.Table.{keys, lookup, insert, erase, lookup-insert, lookup-erase}
use gonit.Monitor.Threads.{
  Given, Held, World, Pc, checking, adding, waiting, writing, listing, pruning, saving, releasing,
  finished, advance, Saving, file_after, has_failed, put_pc, put_entry,
}
use gonit.Monitor.Threads.Orderly.{After}

-- The world after `Serialize`.
abbrev pub saved_world : Saving → World → World
saved_world s w = record w { file = file_after s w }

-- The check `id`, whose flag is `flag`.
module _ (id : String) where
  -- A goroutine is about to write the entry with a number for the check.
  abbrev pub pending : ℕ → Pc → Bool
  pending a (waiting k b ids h) = same_text k id && b == a
  pending a (writing k b ids h) = same_text k id && b == a
  pending a _ = false

  -- It is still to look the check up.
  abbrev pub to_visit : Pc → Bool
  to_visit (checking ids h) = any (λ j. same_text j id) ids
  to_visit (adding k ids h) = same_text k id || any (λ j. same_text j id) ids
  to_visit (waiting k a ids h) = any (λ j. same_text j id) ids
  to_visit (writing k a ids h) = any (λ j. same_text j id) ids
  to_visit _ = false

  -- It has written the file.
  abbrev pub has_saved : Pc → Bool
  has_saved (releasing h) = true
  has_saved finished = true
  has_saved _ = false

  module _ (given : Given) where
    -- The entry of the check has its flag, or a goroutine is about to write it.
    abbrev pub IsRecorded : World → (ℕ → Pc) → Type 0
    IsRecorded w f =
        (a : ℕ) × (lookup id w.db ≡ some a)
        × ((w.monitored id a ≡ given.on id) ⊎ ((m : ℕ) × (pending a (f m) ≡ true)))

    -- A goroutine that has the check in its list gets an error from `Serialize`.
    abbrev pub HasFailed : (ℕ → List String) → Type 0
    HasFailed lists =
        (m : ℕ) × (any (λ j. same_text j id) (lists m) ≡ true) × (has_failed (given.saves m) ≡ true)

    -- The file has the flag, or a goroutine is still to write the file, or has failed in it.
    abbrev pub IsWritten : (ℕ → List String) → World → (ℕ → Pc) → Type 0
    IsWritten lists w f =
        (lookup id w.file ≡ some (given.on id))
        ⊎ ((m : ℕ) × (has_saved (f m) ≡ false))
        ⊎ HasFailed lists

    module _ (i : ℕ) (white : List String) (w : World) (f : ℕ → Pc) where
      -- A key that is pruned is not the check's.
      other_key :
          (k : String)
          → any (λ j. same_text j k) white ≡ false
          → any (λ j. same_text j id) white ≡ true
          → same_text k id ≡ false
      other_key k stale listed = elim (Bool-cases (same_text k id)) [
        | inr other ↦ other
        | inl here ↦
            let same : k ≡ id = ground (arith, eq_iff k id, here) in
            absurd (ground (arith, rw same at stale, listed))
      ]

      -- A goroutine that satisfies a test still does so after a step of goroutine `i` that keeps it.
      pub stays :
          (test : Pc → Bool) (b : Bool) (p p' : Pc)
          → f i ≡ p
          → (test p ≡ b → test p' ≡ b)
          → (m : ℕ) × (test (f m) ≡ b)
          → (m : ℕ) × (test (put_pc i p' f m) ≡ b)
      stays test b p p' at keeps (m, e) = elim (Bool-cases (m == i)) [
        | inr other ↦ (m, rw other e)
        | inl here ↦
            let same : m ≡ i = ground (arith, here) in
            (m, rw here (keeps (subst (λ q. test q ≡ b) at (subst (λ x. test (f x) ≡ b) same e))))
      ]

      pub itself :
          (test : Pc → Bool) (b : Bool) (p' : Pc)
          → test p' ≡ b
          → (m : ℕ) × (test (put_pc i p' f m) ≡ b)
      itself test b p' e = let here : i == i ≡ true = ground arith in (i, rw here e)

      -- A step that leaves the entry of the check as it is.
      same_entry :
          (p p' : Pc) (w' : World)
          → f i ≡ p
          → ((a : ℕ) → lookup id w.db ≡ some a → pending a p ≡ true → pending a p' ≡ true)
          → lookup id w'.db ≡ lookup id w.db
          → ((a : ℕ) → w'.monitored id a ≡ w.monitored id a)
          → IsRecorded w f
          → IsRecorded w' (put_pc i p' f)
      same_entry p p' w' at keeps db flags (a, there, inl e) =
          (a, rw (db, there) refl, inl (rw flags e))
      same_entry p p' w' at keeps db flags (a, there, inr q) =
          (a, rw (db, there) refl, inr (stays (pending a) true p p' at (keeps a there) q))

      -- The world after `AddEntry`.
      abbrev pub with_new : String → World
      with_new k = record w {
        db = insert k w.next w.db;
        next = w.next + 1;
        monitored = put_entry k w.next true w.monitored;
      }

      pub added :
          (k : String) (ids : List String) (h : Held)
          → same_text k id ≡ true
          → IsRecorded (with_new k) (put_pc i (waiting k w.next ids h) f)
      added k ids h here = (
        w.next,
        rw (lookup-insert id k w.next w.db, here) refl,
        inr (itself (pending w.next) true (waiting k w.next ids h) (ground (arith, here))),
      )

      pub advance-IsRecorded :
          (p : Pc)
          → f i ≡ p
          → any (λ j. same_text j id) white ≡ true
          → IsRecorded w f
          → After (λ w' p'. IsRecorded w' (put_pc i p' f)) (advance given i white w p)
      unfolding advance
      advance-IsRecorded (checking [] h) at listed r =
          same_entry (checking [] h) (listing h) w at (λ a _ e. absurd (ground (arith, e))) refl
            (λ a. refl) r
      advance-IsRecorded (checking (k ∷ ids) h) at listed r = elim (Option-cases (lookup k w.db)) [
        | inl missing ↦ rw missing (
            same_entry (checking (k ∷ ids) h) (adding k ids h) w at
              (λ a _ e. absurd (ground (arith, e))) refl (λ a. refl) r)
        | inr (b, there) ↦ rw there (
            same_entry (checking (k ∷ ids) h) (waiting k b ids h) w at
              (λ a _ e. absurd (ground (arith, e))) refl (λ a. refl) r)
      ]
      advance-IsRecorded (adding k ids h) at listed r = elim (Bool-cases (same_text k id)) [
        | inl here ↦ added k ids h here
        | inr other ↦
            same_entry (adding k ids h) (waiting k w.next ids h) (with_new k) at
              (λ a _ e. absurd (ground (arith, e)))
              (rw (lookup-insert id k w.next w.db, other) refl)
              (λ a. ground (arith, other, eq_iff id k, eq_iff k id)) r
      ]
      advance-IsRecorded (waiting k b ids h) at listed r =
          elim (Bool-cases (is_some (w.owner k b))) [
            | inl busy ↦ rw busy tt
            | inr free ↦ rw free (
                same_entry (waiting k b ids h) (writing k b ids h)
                  (record w { owner = put_entry k b (some i) w.owner }) at (λ a _ e. e) refl
                  (λ a. refl) r)
          ]
      advance-IsRecorded (writing k b ids h) at listed (a, there, inl e) =
          (a, there, inl (ground (arith, e, eq_iff id k)))
      advance-IsRecorded (writing k b ids h) at listed (a, there, inr (m, q)) =
          elim (Bool-cases (same_text k id && b == a)) [
            | inl mine ↦ (a, there, inl (ground (arith, mine, eq_iff id k, eq_iff k id)))
            | inr theirs ↦ (
              a,
              there,
              inr (
                  stays (pending a) true (writing k b ids h) (checking ids ((k, b) ∷ h)) at
                    (λ e. absurd (ground (arith, theirs, e))) (m, q)),
            )
          ]
      advance-IsRecorded (listing h) at listed r =
          same_entry (listing h) (pruning (sort_strings (keys w.db)) h) w at
            (λ a _ e. absurd (ground (arith, e))) refl (λ a. refl) r
      advance-IsRecorded (pruning [] h) at listed r =
          same_entry (pruning [] h) (saving h) w at (λ a _ e. absurd (ground (arith, e))) refl
            (λ a. refl) r
      advance-IsRecorded (pruning (k ∷ ks) h) at listed r =
          elim (Bool-cases (any (λ j. same_text j k) white)) [
            | inl kept ↦ rw kept (
                same_entry (pruning (k ∷ ks) h) (pruning ks h) w at
                  (λ a _ e. absurd (ground (arith, e))) refl (λ a. refl) r)
            | inr stale ↦ rw stale (
                same_entry (pruning (k ∷ ks) h) (pruning ks h) (record w { db = erase k w.db }) at
                  (λ a _ e. absurd (ground (arith, e)))
                  (rw (lookup-erase id k w.db, other_key k stale listed) refl) (λ a. refl) r)
          ]
      advance-IsRecorded (saving h) at listed r =
          same_entry (saving h) (releasing h) (saved_world (given.saves i) w) at
            (λ a _ e. absurd (ground (arith, e))) refl (λ a. refl) r
      advance-IsRecorded (releasing []) at listed r =
          same_entry (releasing []) finished w at (λ a _ e. absurd (ground (arith, e))) refl
            (λ a. refl) r
      advance-IsRecorded (releasing ((k, b) ∷ h)) at listed r =
          same_entry (releasing ((k, b) ∷ h)) (releasing h)
            (record w { owner = put_entry k b none w.owner }) at
            (λ a _ e. absurd (ground (arith, e))) refl (λ a. refl) r
      advance-IsRecorded finished at listed r = tt
