-- ===== src/Monitor/Threads/Agreed.antt =====
-- Goroutines that run `UpdateDatabase` on the same checks, to the end: the checks that they have, and
-- the keys that none of them has.
use gonit.Base.{
  All, ℕ, zero, suc, ◌==◌, String, ◌≡◌, ◌⊎◌, true, false, some, none, List, [], ◌∷◌, ◌++◌, arith,
  Bool-cases, Option-cases, inl, inr, refl,
}
use gonit.Base.Table.{lookup}
use gonit.Monitor.Threads.Finish.{all_finish}
use gonit.Monitor.Threads.Progress.{AreFree, InOrder, start}
use gonit.Monitor.Threads.Pruned.{IsPast, IsPast-later, Prunes, advance-Prunes}
use gonit.Monitor.Threads.Recorded.{to_visit, has_saved, HasFailed}
use gonit.Monitor.Threads.Steps.{goes-unfinished}
use gonit.Monitor.Threads.Settled.{
  mentions, IsSettling, step-IsSettling, start-IsSettling, start-visits, finished-HasFlag,
  finished-settled, HasFlag,
}
use gonit.Monitor.Threads.{
  Given, World, Pc, System, advance, put_pc, step, run, is_finished, finished, white_of, start_pc,
}

-- All goroutines have the check `id`, and none has the key `k`.
module _ (id k : String) (given : Given) (white : ℕ → List String) where
  record IsClearing (s : System) : Type 0 where
    settling : IsSettling id given white s
    clear : (j : ℕ) → to_visit k (s.pc j) ≡ false
    past : (j : ℕ) → mentions id (white j) ≡ true → IsPast k s.world (s.pc j)
    file :
        (j : ℕ)
        → mentions id (white j) ≡ true
        → has_saved k (s.pc j) ≡ true
        → (lookup k s.world.file ≡ none) ⊎ HasFailed id given white

  module _ (stale : (j : ℕ) → mentions k (white j) ≡ false) where
    moved :
        (i : ℕ) (s : System) (w : World) (p : Pc)
        → IsClearing s
        → IsSettling id given white (record { world = w; pc = put_pc i p s.pc })
        → advance given i (white i) s.world (s.pc i) ≡ some (w, p)
        → IsClearing (record { world = w; pc = put_pc i p s.pc })
    moved i s w p o settled e =
        let there : mentions id (white i) ≡ true = elim (o.settling.listed i) [
          | inl over ↦
              absurd (
                ground
                  (arith, over, goes-unfinished given i (white i) s.world (s.pc i) (rw e refl)))
          | inr there ↦ there
        ] in
        let prunes : Prunes k given i (white i) s.world (s.pc i) w p =
          rw e at (advance-Prunes k given i (white i) s.world (s.pc i) (o.clear i) (stale i)) in
        let here_past : IsPast k s.world (s.pc i) = o.past i there in
        let later : (lookup k s.world.file ≡ none) ⊎ HasFailed id given white
            → (lookup k w.file ≡ none) ⊎ HasFailed id given white =
          λ o. elim o [ inl e ↦ inl (prunes.file here_past e) | inr failed ↦ inr failed ] in
        record {
          settling = settled;
          clear = λ j. elim (Bool-cases (j == i)) [
            | inl here ↦ rw here prunes.clear
            | inr other ↦ rw other (o.clear j)
          ];
          past = λ j l. elim (Bool-cases (j == i)) [
            | inl here ↦ rw here (prunes.past here_past)
            | inr other ↦ rw other (IsPast-later k s.world w (s.pc j) prunes.keeps (o.past j l))
          ];
          file = λ j l saved. elim (Bool-cases (j == i)) [
            | inr other ↦ later (o.file j l (rw other at saved))
            | inl here ↦ elim (prunes.saved here_past (rw here at saved)) [
              | inr (inl done) ↦ inl done
              | inr (inr failed) ↦ inr (i, there, failed)
              | inl before ↦ later (o.file i there before)
            ]
          ];
        }

    step-IsClearing : (i : ℕ) (s : System) → IsClearing s → IsClearing (step given white i s)
    unfolding step
    step-IsClearing i s o = elim (Option-cases (advance given i (white i) s.world (s.pc i))) [
      | inl waits ↦ rw (step, waits) o
      | inr ((w, p), goes) ↦
          let settled = step-IsSettling id given white i s o.settling in
          rw (step, goes) (moved i s w p o (rw (step, goes) at settled) goes)
    ]

    run-IsClearing : (is : List ℕ) (s : System) → IsClearing s → IsClearing (run given white is s)
    unfolding run
    run-IsClearing [] s o = o
    run-IsClearing (i ∷ is) s o = run-IsClearing is (step given white i s) (step-IsClearing i s o)

start-clear :
    (k : String) (lists : List (List String)) (j : ℕ)
    → All (λ ids. mentions k ids ≡ false) lists
    → (to_visit k (start_pc lists j) ≡ false) × (mentions k (white_of lists j) ≡ false)
start-clear k [] j all = (refl, refl)
start-clear k (ids ∷ rest) zero all = (all.0, all.0)
start-clear k (ids ∷ rest) (suc j) all = start-clear k rest j all.1

start-IsPast :
    (id k : String) (w : World) (lists : List (List String)) (j : ℕ)
    → mentions id (white_of lists j) ≡ true
    → IsPast k w (start_pc lists j)
start-IsPast id k w [] j e = absurd (ground (arith, e))
start-IsPast id k w (ids ∷ rest) zero e = tt
start-IsPast id k w (ids ∷ rest) (suc j) e = start-IsPast id k w rest j e

finished-IsPast :
    (k : String) (w : World) (p : Pc) → is_finished p ≡ true → IsPast k w p → lookup k w.db ≡ none
finished-IsPast k w finished e q = q
finished-IsPast k w p e q = absurd (ground (arith, e))

start-IsClearing :
    (id k : String) (given : Given) (lists : List (List String)) (w : World)
    → All (λ ids. mentions id ids ≡ true) lists
    → All (λ ids. mentions k ids ≡ false) lists
    → IsClearing id k given (white_of lists) (start lists w)
start-IsClearing id k given lists w all absent = record {
  settling = start-IsSettling id given lists w all;
  clear = λ j. (start-clear k lists j absent).0;
  past = λ j l. start-IsPast id k w lists j l;
  file = λ j l saved. absurd (ground (arith, saved, (start-visits id lists j l).1));
}

-- The file has the flag of the check, and has not the key.
abbrev pub IsSaved : Given → String → String → World → Type 0
IsSaved given id k w = (lookup id w.file ≡ some (given.on id)) × (lookup k w.file ≡ none)

-- A key that is in none of the lists is gone when all have finished.
finished-gone :
    (given : Given) (ids : List String) (rest : List (List String)) (w : World) (is : List ℕ)
    (id k : String)
    → All (λ ids. mentions id ids ≡ true) (ids ∷ rest)
    → All (λ ids. mentions k ids ≡ false) (ids ∷ rest)
    → ((i : ℕ)
        → is_finished ((run given (white_of (ids ∷ rest)) is (start (ids ∷ rest) w)).pc i) ≡ true)
    → (lookup k (run given (white_of (ids ∷ rest)) is (start (ids ∷ rest) w)).world.db ≡ none)
      × ((lookup k (run given (white_of (ids ∷ rest)) is (start (ids ∷ rest) w)).world.file ≡ none)
          ⊎ HasFailed id given (white_of (ids ∷ rest)))
finished-gone given ids rest w is id k all absent over =
    let lists : List (List String) = ids ∷ rest in
    let s = run given (white_of lists) is (start lists w) in
    let o =
      run-IsClearing id k given (white_of lists) (λ j. (start-clear k lists j absent).1) is
        (start lists w) (start-IsClearing id k given lists w all absent) in
    (
      finished-IsPast k s.world (s.pc 0) (over 0) (o.past 0 all.0),
      o.file 0 all.0 (finished-settled k (s.pc 0) (over 0)).1,
    )

both : {A B C : Type 0} → A ⊎ C → B ⊎ C → (A × B) ⊎ C
both (inl a) (inl b) = inl (a, b)
both (inl a) (inr c) = inr c
both (inr c) o = inr c

-- Goroutines run `UpdateDatabase` on lists of checks, one at least, that all stand in one order and
-- have a check in common; no entry is locked before. Whatever steps they have taken, in any order,
-- they can go on until all of them have finished. Then no entry is locked; the entry of the common
-- check has its flag; a key that no list has is not in the database; and, unless a goroutine has got
-- an error from `Serialize`, the file has the flag of the check, and has not the key.
pub eventually_recorded :
    (given : Given) (order ids : List String) (rest : List (List String)) (w : World) (is : List ℕ)
    (id k : String)
    → InOrder order (ids ∷ rest)
    → AreFree w
    → All (λ ids. mentions id ids ≡ true) (ids ∷ rest)
    → All (λ ids. mentions k ids ≡ false) (ids ∷ rest)
    → (js : List ℕ) × ((i : ℕ)
        → is_finished ((run given (white_of (ids ∷ rest)) (is ++ js) (start (ids ∷ rest) w)).pc i)
          ≡ true)
      × AreFree (run given (white_of (ids ∷ rest)) (is ++ js) (start (ids ∷ rest) w)).world
      × HasFlag given id (run given (white_of (ids ∷ rest)) (is ++ js) (start (ids ∷ rest) w)).world
      × (lookup k (run given (white_of (ids ∷ rest)) (is ++ js) (start (ids ∷ rest) w)).world.db
          ≡ none)
      × (IsSaved given id k
            (run given (white_of (ids ∷ rest)) (is ++ js) (start (ids ∷ rest) w)).world
          ⊎ HasFailed id given (white_of (ids ∷ rest)))
eventually_recorded given order ids rest w is id k sorted free all absent =
    let (js, over, released) = all_finish given order (ids ∷ rest) w is sorted free in
    let (flag, saved) = finished-HasFlag given ids rest w (is ++ js) id all over in
    let (gone, dropped) = finished-gone given ids rest w (is ++ js) id k all absent over in
    (js, over, released, flag, gone, both saved dropped)
