-- ===== src/Monitor/Threads/Owners.antt =====
-- Goroutines in `UpdateDatabase`: who has locked what, and what every schedule keeps.
use gonit.Base.{
  ℕ, ◌==◌, String, ◌≡◌, ◌≢◌, ◌↔◌, subst, true, some, List, [], ◌∷◌, same_text, is_some, any, arith,
  eq_iff, Bool-cases, Option-cases, inl, inr,
}
use gonit.Base.Table.{lookup}
use gonit.Monitor.Threads.{
  Given, Held, World, Pc, checking, adding, waiting, writing, listing, pruning, saving, releasing,
  finished, advance, System, put_pc, step, run,
}
use gonit.Monitor.Threads.Orderly.{held_of, holds, Owns, After, Fits, advance-Fits, advance-Owns}

module _ (given : Given) (i : ℕ) (white : List String) (w : World) where
  -- A goroutine holds every entry that it has locked.
  advance-holds :
      (p : Pc)
      → ((k : String) (a : ℕ) → w.owner k a ≡ some i → holds k a (held_of p) ≡ true)
      → After
          (λ w' p'. (k : String) (a : ℕ) → w'.owner k a ≡ some i → holds k a (held_of p') ≡ true)
          (advance given i white w p)
  unfolding advance
  advance-holds (checking [] h) own = own
  advance-holds (checking (id ∷ ids) h) own = elim (Option-cases (lookup id w.db)) [
    | inl missing ↦ rw missing own
    | inr (a, there) ↦ rw there own
  ]
  advance-holds (adding id ids h) own = own
  advance-holds (waiting id a ids h) own = elim (Bool-cases (is_some (w.owner id a))) [
    | inl busy ↦ rw busy tt
    | inr free ↦ rw free (λ k b mine. ground (arith, mine, own k b, eq_iff k id, eq_iff id k))
  ]
  advance-holds (writing id a ids h) own = own
  advance-holds (listing h) own = own
  advance-holds (pruning [] h) own = own
  advance-holds (pruning (k ∷ ks) h) own = elim (Bool-cases (any (λ j. same_text j k) white)) [
    | inl kept ↦ rw kept own
    | inr stale ↦ rw stale own
  ]
  advance-holds (saving h) own = own
  advance-holds (releasing []) own = own
  advance-holds (releasing ((k, a) ∷ h)) own =
      λ j b mine. ground (arith, mine, own j b, eq_iff k j, eq_iff j k)
  advance-holds finished own = tt

  -- A step does not change what the other goroutines have locked.
  abbrev Leaves : World → Type 0
  Leaves w' =
      (j : ℕ) → j ≢ i → (k : String) (a : ℕ) → (w'.owner k a ≡ some j) ↔ (w.owner k a ≡ some j)

  same_owner : Leaves w
  same_owner j other k a = (λ e. e, λ e. e)

  advance-Leaves :
      (p : Pc) → Owns w i (held_of p) → After (λ w' p'. Leaves w') (advance given i white w p)
  unfolding advance
  advance-Leaves (checking [] h) o = same_owner
  advance-Leaves (checking (id ∷ ids) h) o = same_owner
  advance-Leaves (adding id ids h) o = same_owner
  advance-Leaves (waiting id a ids h) o = elim (Bool-cases (is_some (w.owner id a))) [
    | inl busy ↦ rw busy tt
    | inr free ↦ rw free (λ j other k b. (
      λ e. ground (arith, e, other, free, eq_iff k id),
      λ e. ground (arith, e, other, free, eq_iff k id),
    ))
  ]
  advance-Leaves (writing id a ids h) o = same_owner
  advance-Leaves (listing h) o = same_owner
  advance-Leaves (pruning [] h) o = same_owner
  advance-Leaves (pruning (k ∷ ks) h) o = elim (Bool-cases (any (λ j. same_text j k) white)) [
    | inl kept ↦ rw kept same_owner
    | inr stale ↦ rw stale same_owner
  ]
  advance-Leaves (saving h) o = same_owner
  advance-Leaves (releasing []) o = same_owner
  advance-Leaves (releasing ((k, a) ∷ h)) o = λ j other k' b. (
    λ e. ground (arith, e, other, o.0, eq_iff k' k),
    λ e. ground (arith, e, other, o.0, eq_iff k' k),
  )
  advance-Leaves finished o = tt

module _ (rank : String → ℕ) where
  -- Every goroutine takes the entries in the order of their ranks, and the mutexes that are locked
  -- are those that the goroutines hold.
  pub record IsOrderly (s : System) : Type 0 where
    pub fits : (i : ℕ) → Fits rank (s.pc i)
    pub owns : (i : ℕ) → Owns s.world i (held_of (s.pc i))
    pub holding :
        (i : ℕ) (k : String) (a : ℕ)
        → s.world.owner k a ≡ some i
        → holds k a (held_of (s.pc i)) ≡ true

Owns-other :
    (w w' : World) (j : ℕ) (h : Held)
    → ((k : String) (a : ℕ) → (w'.owner k a ≡ some j) ↔ (w.owner k a ≡ some j))
    → Owns w j h
    → Owns w' j h
Owns-other w w' j [] same o = tt
Owns-other w w' j (q ∷ h) same o = ((same q.0 q.1).1 o.0, Owns-other w w' j h same o.1)

module _ (rank : String → ℕ) (given : Given) (white : ℕ → List String) where
  moved :
      (i : ℕ) (s : System) (w : World) (p : Pc)
      → IsOrderly rank s
      → advance given i (white i) s.world (s.pc i) ≡ some (w, p)
      → IsOrderly rank (record { world = w; pc = put_pc i p s.pc })
  moved i s w p o e =
      let fits : Fits rank p =
        rw e at (advance-Fits rank given i (white i) s.world (s.pc i) (o.fits i)) in
      let owns : Owns w i (held_of p) =
        rw e at (advance-Owns rank given i (white i) s.world (s.pc i) (o.fits i) (o.owns i)) in
      let holding : (k : String) (a : ℕ) → w.owner k a ≡ some i → holds k a (held_of p) ≡ true =
        rw e at (advance-holds given i (white i) s.world (s.pc i) (o.holding i)) in
      let others : (j : ℕ)
          → j ≢ i
          → (k : String) (a : ℕ) → (w.owner k a ≡ some j) ↔ (s.world.owner k a ≡ some j) =
        rw e at (advance-Leaves given i (white i) s.world (s.pc i) (o.owns i)) in
      record {
        fits = λ j. elim (Bool-cases (j == i)) [
          | inl here ↦ rw here fits
          | inr other ↦ rw other (o.fits j)
        ];
        owns = λ j. elim (Bool-cases (j == i)) [
          | inl here ↦
              let same : i ≡ j = ground (arith, here) in
              rw here (subst (λ x. Owns w x (held_of p)) same owns)
          | inr other ↦ rw other (
              Owns-other s.world w j (held_of (s.pc j)) (others j (ground (arith, other)))
                (o.owns j))
        ];
        holding = λ j k a mine. elim (Bool-cases (j == i)) [
          | inl here ↦
              let same : j ≡ i = ground (arith, here) in rw here (holding k a (rw same at mine))
          | inr other ↦ rw other (o.holding j k a ((others j (ground (arith, other)) k a).0 mine))
        ];
      }

  pub step-IsOrderly :
      (i : ℕ) (s : System) → IsOrderly rank s → IsOrderly rank (step given white i s)
  unfolding step
  step-IsOrderly i s o = elim (Option-cases (advance given i (white i) s.world (s.pc i))) [
    | inl waits ↦ rw (step, waits) o
    | inr ((w, p), goes) ↦ rw (step, goes) (moved i s w p o goes)
  ]

  pub run-IsOrderly :
      (is : List ℕ) (s : System) → IsOrderly rank s → IsOrderly rank (run given white is s)
  unfolding run
  run-IsOrderly [] s o = o
  run-IsOrderly (i ∷ is) s o = run-IsOrderly is (step given white i s) (step-IsOrderly i s o)
