-- ===== src/Monitor/Threads/Orders.antt =====
-- Goroutines in `UpdateDatabase` that take two mutexes in opposite orders.
use gonit.Base.{
  ℕ, zero, suc, String, ◌≡◌, ◌≢◌, refl, true, false, none, some, List, [], ◌∷◌, same_text, arith,
  eq_iff,
}
use gonit.Base.Table.{lookup}
use gonit.Monitor.Threads.{
  Given, World, Pc, checking, waiting, writing, advance, put_entry, put_pc, System, step, run,
  white_of, is_finished, start_pc,
}
use gonit.Monitor.Threads.Progress.{AreFree, start}

-- The lists of checks before and after a reload that swaps two of them.
abbrev pub swapped : String → String → List (List String)
swapped a b = (a ∷ b ∷ []) ∷ (b ∷ a ∷ []) ∷ []

-- Each of the two takes its first mutex and comes to its second one.
abbrev pub crossing : List ℕ
crossing = 0 ∷ 0 ∷ 0 ∷ 0 ∷ 1 ∷ 1 ∷ 1 ∷ 1 ∷ []

-- The world in which goroutine `i` has locked and written an entry.
abbrev taken : Given → ℕ → String → ℕ → World → World
taken given i k x w = record w {
  owner = put_entry k x (some i) w.owner;
  monitored = put_entry k x (given.on k) w.monitored;
}

module _ (given : Given) (white : ℕ → List String) (i : ℕ) where
  step_lem :
      (w w' : World) (f : ℕ → Pc) (p p' : Pc)
      → f i ≡ p
      → advance given i (white i) w p ≡ some (w', p')
      → step given white i (record { world = w; pc = f })
        ≡ record { world = w'; pc = put_pc i p' f }
  unfolding step
  step_lem w w' f p p' at goes = rw (step, at, goes) refl

  put_pc_self : (p : Pc) (f : ℕ → Pc) → put_pc i p f i ≡ p
  put_pc_self p f = ground arith

  -- The program counters of a goroutine that has taken its first mutex.
  abbrev came : String → String → ℕ → ℕ → (ℕ → Pc) → ℕ → Pc
  came k j x y f = put_pc i (waiting j y [] ((k, x) ∷ [])) (
      put_pc i (checking (j ∷ []) ((k, x) ∷ []))
        (put_pc i (writing k x (j ∷ []) []) (put_pc i (waiting k x (j ∷ []) []) f)))

  takes :
      (w : World) (f : ℕ → Pc) (k j : String) (x y : ℕ)
      → f i ≡ checking (k ∷ j ∷ []) []
      → lookup k w.db ≡ some x
      → lookup j w.db ≡ some y
      → w.owner k x ≡ none
      → run given white (i ∷ i ∷ i ∷ i ∷ []) (record { world = w; pc = f })
        ≡ record { world = taken given i k x w; pc = came k j x y f }
  unfolding run advance
  takes w f k j x y at at_k at_j free =
      let f1 : ℕ → Pc = put_pc i (waiting k x (j ∷ []) []) f in
      let f2 : ℕ → Pc = put_pc i (writing k x (j ∷ []) []) f1 in
      let f3 : ℕ → Pc = put_pc i (checking (j ∷ []) ((k, x) ∷ [])) f2 in
      let w2 : World = record w { owner = put_entry k x (some i) w.owner } in
      let s1 =
        step_lem w w f (checking (k ∷ j ∷ []) []) (waiting k x (j ∷ []) []) at (rw at_k refl) in
      let s2 =
        step_lem w w2 f1 (waiting k x (j ∷ []) []) (writing k x (j ∷ []) [])
          (put_pc_self (waiting k x (j ∷ []) []) f) (rw free refl) in
      let s3 =
        step_lem w2 (taken given i k x w) f2 (writing k x (j ∷ []) [])
          (checking (j ∷ []) ((k, x) ∷ [])) (put_pc_self (writing k x (j ∷ []) []) f1) refl in
      let s4 =
        step_lem (taken given i k x w) (taken given i k x w) f3 (checking (j ∷ []) ((k, x) ∷ []))
          (waiting j y [] ((k, x) ∷ [])) (put_pc_self (checking (j ∷ []) ((k, x) ∷ [])) f2)
          (rw at_j refl) in
      rw (s1, s2, s3, s4) refl

-- Nobody can take a step.
abbrev pub IsStuck : Given → (ℕ → List String) → System → Type 0
IsStuck given white s = (j : ℕ) → advance given j (white j) s.world (s.pc j) ≡ none

-- Two goroutines run `UpdateDatabase`, one on the checks `a` and `b` as they were, one on the same
-- checks in the opposite order, as a reload may leave them. The database has an entry for each, and
-- no entry is locked. Then they can come to a state in which neither has finished and neither can
-- take a step.
pub opposite_orders_deadlock :
    (given : Given) (a b : String) (x y : ℕ) (w : World)
    → a ≢ b
    → lookup a w.db ≡ some x
    → lookup b w.db ≡ some y
    → AreFree w
    → IsStuck given
        (white_of (swapped a b))
        (run given (white_of (swapped a b)) crossing (start (swapped a b) w))
      × (is_finished ((run given (white_of (swapped a b)) crossing (start (swapped a b) w)).pc 0)
          ≡ false)
      × (is_finished ((run given (white_of (swapped a b)) crossing (start (swapped a b) w)).pc 1)
          ≡ false)
unfolding run advance
opposite_orders_deadlock given a b x y w differ at_a at_b free =
    rw (first, second) (stuck, refl, refl)
  where
    white : ℕ → List String
    white = white_of (swapped a b)

    w1 : World
    w1 = taken given 0 a x w

    f1 : ℕ → Pc
    f1 = came given white 0 a b x y (start_pc (swapped a b))

    other : same_text b a ≡ false
    other = ground (arith, differ, eq_iff b a)

    same : (k : String) → same_text k k ≡ true
    same k = ground (arith, eq_iff k k)

    first :
        run given white (0 ∷ 0 ∷ 0 ∷ 0 ∷ []) (start (swapped a b) w)
        ≡ record { world = w1; pc = f1 }
    first = takes given white 0 w (start_pc (swapped a b)) a b x y refl at_a at_b (free a x)

    second :
        run given white (1 ∷ 1 ∷ 1 ∷ 1 ∷ []) (record { world = w1; pc = f1 })
        ≡ record { world = taken given 1 b y w1; pc = came given white 1 b a y x f1 }
    second = takes given white 1 w1 f1 b a y x refl at_b at_a (rw other (free b y))

    stuck :
        IsStuck given white
          (record { world = taken given 1 b y w1; pc = came given white 1 b a y x f1 })
    stuck zero = rw (same b) (ground arith)
    stuck (suc zero) = rw (same a) (ground arith)
    stuck (suc (suc j)) = ground arith
