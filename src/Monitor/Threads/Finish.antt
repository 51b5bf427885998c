-- ===== src/Monitor/Threads/Finish.antt =====
-- The end of goroutines in `UpdateDatabase` that take the mutexes in one order.
use gonit.Base.{
  ℕ, zero, suc, ◌<◌, ◌≤◌, ◌==◌, String, ◌≡◌, ◌⊎◌, refl, true, false, none, some, List, [], ◌∷◌,
  ◌++◌, is_some, arith, Bool-cases, Option-cases, inl, inr, length, ltb,
}
use gonit.Monitor.Threads.{
  Given, World, Pc, advance, System, step, run, white_of, start_pc, is_finished,
}
use gonit.Monitor.Threads.Owners.{IsOrderly, step-IsOrderly, run-IsOrderly}
use gonit.Monitor.Threads.Progress.{
  AreFree, InOrder, start, start-IsOrderly, index_of, index_of-le, someone_goes, holds-unfinished,
}
use gonit.Monitor.Threads.Steps.{
  steps, rounds, Fewer, advance-Fewer, goes-unfinished, total, total-put_pc, find_unfinished,
}

module _ (given : Given) (order : List String) (white : ℕ → List String) (n : ℕ) where
  -- Goroutines from `n` on have finished.
  record Goes (s : System) : Type 0 where
    orderly : IsOrderly (index_of order) s
    above : (i : ℕ) → n ≤ i → is_finished (s.pc i) ≡ true

  abbrev Left : System → System → Type 0
  Left s s' =
      Fewer (total steps n s.pc) (total rounds n s.pc) (total steps n s'.pc) (total rounds n s'.pc)

  stepped :
      (j : ℕ) (s : System) (w : World) (p : Pc)
      → Goes s
      → j < n
      → advance given j (white j) s.world (s.pc j) ≡ some (w, p)
      → Left s (step given white j s)
        × ((i : ℕ) → n ≤ i → is_finished ((step given white j s).pc i) ≡ true)
  unfolding step
  stepped j s w p g lt goes =
      let fewer : Fewer (steps (s.pc j)) (rounds (s.pc j)) (steps p) (rounds p) =
        rw goes at (advance-Fewer given j (white j) s.world (s.pc j)) in
      rw (step, goes)
        (
          ground
              (arith, fewer, total-put_pc steps n j p s.pc lt, total-put_pc rounds n j p s.pc lt),
          λ i le. let other : (i == j) ≡ false = ground arith in rw other (g.above i le),
        )

  picked :
      (j : ℕ) (s : System)
      → Goes s
      → is_some (advance given j (white j) s.world (s.pc j)) ≡ true
      → j < n
  picked j s g can = elim (Bool-cases (ltb j n)) [
    | inl lt ↦ ground (arith, lt)
    | inr ge ↦
        let over = g.above j (ground (arith, ge)) in
        let going = goes-unfinished given j (white j) s.world (s.pc j) can in
        absurd (ground (arith, over, going))
  ]

  next_state :
      (s : System)
      → Goes s
      → ((i : ℕ) → is_finished (s.pc i) ≡ true)
        ⊎ ((j : ℕ) × Goes (step given white j s) × Left s (step given white j s))
  next_state s g = elim (find_unfinished n s.pc) [
    | inl all ↦ inl (λ i. elim (Bool-cases (ltb i n)) [
      | inl lt ↦ all i (ground (arith, lt))
      | inr ge ↦ g.above i (ground (arith, ge))
    ])
    | inr (i, going) ↦
        let (j, can) =
          someone_goes (index_of order) given white s g.orderly (length order) (index_of-le order) i
            going in
        elim (Option-cases (advance given j (white j) s.world (s.pc j))) [
          | inl waits ↦ absurd (ground (arith, rw waits at can))
          | inr ((w, p), goes) ↦
              let (left, above) = stepped j s w p g (picked j s g can) goes in
              inr (
                j,
                record {
                  orderly = step-IsOrderly (index_of order) given white j s g.orderly;
                  above = above;
                },
                left,
              )
        ]
  ]

  -- Every run of such goroutines can be continued to their end.
  abbrev Ends : System → Type 0
  Ends s = (is : List ℕ) × ((i : ℕ) → is_finished ((run given white is s).pc i) ≡ true)

  after :
      (a b : ℕ)
      → ((s : System) → Goes s → total steps n s.pc < a → Ends s)
      → (s : System) → Goes s
      → total steps n s.pc ≤ a
      → total rounds n s.pc ≤ b
      → Ends s
  unfolding run
  after a zero earlier s g le le' = elim (next_state s g) [
    | inl all ↦ ([], all)
    | inr (j, g', left) ↦ elim left [
      | inl fewer ↦ let (is, all) = earlier (step given white j s) g' (omega arith) in (j ∷ is, all)
      | inr (same, fewer) ↦ absurd (omega arith)
    ]
  ]
  after a (suc b) earlier s g le le' = elim (next_state s g) [
    | inl all ↦ ([], all)
    | inr (j, g', left) ↦ elim left [
      | inl fewer ↦ let (is, all) = earlier (step given white j s) g' (omega arith) in (j ∷ is, all)
      | inr (same, fewer) ↦
          let (is, all) = after a b earlier (step given white j s) g' (omega arith) (omega arith) in
          (j ∷ is, all)
    ]
  ]

  ends : (a : ℕ) (s : System) → Goes s → total steps n s.pc ≤ a → Ends s
  ends zero s g le =
      after zero (total rounds n s.pc) (λ s' g' lt. absurd (omega arith)) s g le (omega arith)
  ends (suc a) s g le =
      after (suc a) (total rounds n s.pc) (λ s' g' lt. ends a s' g' (omega arith)) s g le
        (omega arith)

  run-above : (is : List ℕ) (s : System) → Goes s → Goes (run given white is s)
  unfolding run step
  run-above [] s g = g
  run-above (j ∷ is) s g =
      run-above is (step given white j s)
        (kept (Option-cases (advance given j (white j) s.world (s.pc j))))
    where
      kept :
          (advance given j (white j) s.world (s.pc j) ≡ none)
            ⊎ ((r : World × Pc) × (advance given j (white j) s.world (s.pc j) ≡ some r))
          → Goes (step given white j s)
      kept (inl waits) = rw (step, waits) g
      kept (inr ((w, p), goes)) =
          let lt = picked j s g (rw goes refl) in
          record {
            orderly = step-IsOrderly (index_of order) given white j s g.orderly;
            above = (stepped j s w p g lt goes).1;
          }

run-append :
    (given : Given) (white : ℕ → List String) (is js : List ℕ) (s : System)
    → run given white (is ++ js) s ≡ run given white js (run given white is s)
unfolding run
run-append given white [] js s = refl
run-append given white (i ∷ is) js s = run-append given white is js (step given white i s)

start_pc-above :
    (lists : List (List String)) (i : ℕ) → length lists ≤ i → is_finished (start_pc lists i) ≡ true
start_pc-above [] i le = refl
start_pc-above (ids ∷ rest) zero le = absurd (omega arith)
start_pc-above (ids ∷ rest) (suc i) le = start_pc-above rest i (omega arith)

-- When all have finished no entry is locked.
finished-AreFree :
    (order : List String) (s : System)
    → IsOrderly (index_of order) s
    → ((i : ℕ) → is_finished (s.pc i) ≡ true)
    → AreFree s.world
finished-AreFree order s o all k a = elim (Option-cases (s.world.owner k a)) [
  | inl free ↦ free
  | inr (i, mine) ↦
      absurd (ground (arith, holds-unfinished k a (s.pc i) (o.holding i k a mine), all i))
]

-- Goroutines run `UpdateDatabase` on lists of checks that all stand in one order, and no entry is
-- locked before: whatever steps they have taken, in any order, they can go on until all of them have
-- finished, and then no entry is locked.
pub all_finish :
    (given : Given) (order : List String) (lists : List (List String)) (w : World) (is : List ℕ)
    → InOrder order lists
    → AreFree w
    → (js : List ℕ) × ((i : ℕ)
        → is_finished ((run given (white_of lists) (is ++ js) (start lists w)).pc i) ≡ true)
      × AreFree (run given (white_of lists) (is ++ js) (start lists w)).world
all_finish given order lists w is all free =
    let white = white_of lists in
    let n : ℕ = length lists in
    let g : Goes given order white n (start lists w) = record {
      orderly = start-IsOrderly order lists w all free;
      above = start_pc-above lists;
    } in
    let s = run given white is (start lists w) in
    let g' = run-above given order white n is (start lists w) g in
    let (js, over) = ends given order white n (total steps n s.pc) s g' (omega arith) in
    let o : IsOrderly (index_of order) (run given white js s) =
      run-IsOrderly (index_of order) given white js s (g'.orderly) in
    (js, rw run-append over, rw run-append (finished-AreFree order (run given white js s) o over))
