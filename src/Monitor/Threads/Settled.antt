-- ===== src/Monitor/Threads/Settled.antt =====
-- What goroutines that run `UpdateDatabase` on the same checks have done when all of them have finished.
use gonit.Base.{
  All, ℕ, zero, suc, ◌==◌, String, ◌≡◌, ◌⊎◌, subst, Bool, true, false, some, List, [], ◌∷◌,
  same_text, any, arith, Bool-cases, Option-cases, inl, inr, refl,
}
use gonit.Base.Table.{lookup}
use gonit.Monitor.Threads.Progress.{start}
use gonit.Monitor.Threads.Recorded.{
  pending, to_visit, has_saved, IsRecorded, IsWritten, HasFailed, advance-IsRecorded,
}
use gonit.Monitor.Threads.Steps.{goes-unfinished}
use gonit.Monitor.Threads.Written.{Saves, advance-visits, advance-Saves}
use gonit.Monitor.Threads.{
  Given, World, Pc, checking, adding, waiting, writing, listing, pruning, saving, releasing,
  finished, advance, System, put_pc, step, run, is_finished, white_of, start_pc,
}

abbrev pub mentions : String → List String → Bool
mentions id ids = any (λ j. same_text j id) ids

module _ (id : String) (given : Given) (white : ℕ → List String) where
  -- Every goroutine that has the check in its list is to look it up, or the check is recorded; and if
  -- it is past `Serialize`, the check is written, or one of these goroutines fails there.
  pub record IsSettling (s : System) : Type 0 where
    pub listed : (j : ℕ) → (is_finished (s.pc j) ≡ true) ⊎ (mentions id (white j) ≡ true)
    visits :
        (j : ℕ)
        → mentions id (white j) ≡ true
        → (to_visit id (s.pc j) ≡ true) ⊎ IsRecorded id given s.world s.pc
    keeps :
        (j : ℕ)
        → mentions id (white j) ≡ true
        → has_saved id (s.pc j) ≡ true
        → IsWritten id given white s.world s.pc

  moved :
      (i : ℕ) (s : System) (w : World) (p : Pc)
      → IsSettling s
      → advance given i (white i) s.world (s.pc i) ≡ some (w, p)
      → IsSettling (record { world = w; pc = put_pc i p s.pc })
  moved i s w p o e =
      let there : mentions id (white i) ≡ true = elim (o.listed i) [
        | inl over ↦
            absurd
              (ground (arith, over, goes-unfinished given i (white i) s.world (s.pc i) (rw e refl)))
        | inr there ↦ there
      ] in
      let recorded : IsRecorded id given s.world s.pc → IsRecorded id given w (put_pc i p s.pc) =
        λ r. rw e at (advance-IsRecorded id given i (white i) s.world s.pc (s.pc i) refl there r) in
      let saves : Saves id given i white s.world s.pc (s.pc i) w p =
        rw e at
          (advance-Saves id given i white s.world s.pc (s.pc i) refl there (o.visits i there)) in
      record {
        listed = λ j. elim (Bool-cases (j == i)) [
          | inl here ↦
              let same : i ≡ j = ground (arith, here) in
              inr (subst (λ x. mentions id (white x) ≡ true) same there)
          | inr other ↦ rw other (o.listed j)
        ];
        visits = λ j l. elim (o.visits j l) [
          | inr r ↦ inr (recorded r)
          | inl ahead ↦ elim (Bool-cases (j == i)) [
            | inr other ↦ rw other (inl ahead)
            | inl here ↦
                let same : j ≡ i = ground (arith, here) in
                let ahead' : to_visit id (s.pc i) ≡ true =
                  subst (λ x. to_visit id (s.pc x) ≡ true) same ahead in
                rw here
                  (rw e at (advance-visits id given i white s.world s.pc (s.pc i) refl ahead'))
          ]
        ];
        keeps = λ j l saved. elim (Bool-cases (j == i)) [
          | inr other ↦ saves.0 (o.keeps j l (rw other at saved))
          | inl here ↦ elim (saves.1 (rw here at saved)) [
            | inr done ↦ done
            | inl before ↦ saves.0 (o.keeps i there before)
          ]
        ];
      }

  pub step-IsSettling : (i : ℕ) (s : System) → IsSettling s → IsSettling (step given white i s)
  unfolding step
  step-IsSettling i s o = elim (Option-cases (advance given i (white i) s.world (s.pc i))) [
    | inl waits ↦ rw (step, waits) o
    | inr ((w, p), goes) ↦ rw (step, goes) (moved i s w p o goes)
  ]

  run-IsSettling : (is : List ℕ) (s : System) → IsSettling s → IsSettling (run given white is s)
  unfolding run
  run-IsSettling [] s o = o
  run-IsSettling (i ∷ is) s o = run-IsSettling is (step given white i s) (step-IsSettling i s o)

start-listed :
    (id : String) (lists : List (List String)) (j : ℕ)
    → All (λ ids. mentions id ids ≡ true) lists
    → (is_finished (start_pc lists j) ≡ true) ⊎ (mentions id (white_of lists j) ≡ true)
start-listed id [] j all = inl refl
start-listed id (ids ∷ rest) zero all = inr all.0
start-listed id (ids ∷ rest) (suc j) all = start-listed id rest j all.1

pub start-visits :
    (id : String) (lists : List (List String)) (j : ℕ)
    → mentions id (white_of lists j) ≡ true
    → (to_visit id (start_pc lists j) ≡ true) × (has_saved id (start_pc lists j) ≡ false)
start-visits id [] j e = absurd (ground (arith, e))
start-visits id (ids ∷ rest) zero e = (e, refl)
start-visits id (ids ∷ rest) (suc j) e = start-visits id rest j e

pub start-IsSettling :
    (id : String) (given : Given) (lists : List (List String)) (w : World)
    → All (λ ids. mentions id ids ≡ true) lists
    → IsSettling id given (white_of lists) (start lists w)
start-IsSettling id given lists w all = record {
  listed = λ j. start-listed id lists j all;
  visits = λ j l. inl (start-visits id lists j l).0;
  keeps = λ j l saved. absurd (ground (arith, saved, (start-visits id lists j l).1));
}

pub finished-settled :
    (id : String) (p : Pc)
    → is_finished p ≡ true
    → (to_visit id p ≡ false) × (has_saved id p ≡ true) × ((a : ℕ) → pending id a p ≡ false)
finished-settled id finished e = (refl, refl, λ a. refl)
finished-settled id (checking ids h) e = absurd (ground (arith, e))
finished-settled id (adding k ids h) e = absurd (ground (arith, e))
finished-settled id (waiting k a ids h) e = absurd (ground (arith, e))
finished-settled id (writing k a ids h) e = absurd (ground (arith, e))
finished-settled id (listing h) e = absurd (ground (arith, e))
finished-settled id (pruning ks h) e = absurd (ground (arith, e))
finished-settled id (saving h) e = absurd (ground (arith, e))
finished-settled id (releasing h) e = absurd (ground (arith, e))

-- The entry of a check has its flag.
abbrev pub HasFlag : Given → String → World → Type 0
HasFlag given id w = (a : ℕ) × (lookup id w.db ≡ some a) × (w.monitored id a ≡ given.on id)

-- Goroutines run `UpdateDatabase` on lists of checks, one at least, that all have a check, and all of
-- them have finished: the entry has the flag of the check, and so has the file unless a goroutine has
-- got an error from `Serialize`.
pub finished-HasFlag :
    (given : Given) (ids : List String) (rest : List (List String)) (w : World) (is : List ℕ)
    (id : String)
    → All (λ ids. mentions id ids ≡ true) (ids ∷ rest)
    → ((i : ℕ)
        → is_finished ((run given (white_of (ids ∷ rest)) is (start (ids ∷ rest) w)).pc i) ≡ true)
    → HasFlag given id (run given (white_of (ids ∷ rest)) is (start (ids ∷ rest) w)).world
      × ((lookup id (run given (white_of (ids ∷ rest)) is (start (ids ∷ rest) w)).world.file
            ≡ some (given.on id))
          ⊎ HasFailed id given (white_of (ids ∷ rest)))
finished-HasFlag given ids rest w is id all over =
    let s = run given (white_of (ids ∷ rest)) is (start (ids ∷ rest) w) in
    let o =
      run-IsSettling id given (white_of (ids ∷ rest)) is (start (ids ∷ rest) w)
        (start-IsSettling id given (ids ∷ rest) w all) in
    let (visited, saved, _) = finished-settled id (s.pc 0) (over 0) in
    let file : (lookup id s.world.file ≡ some (given.on id))
        ⊎ HasFailed id given (white_of (ids ∷ rest)) =
      elim (o.keeps 0 all.0 saved) [
        | inl e ↦ inl e
        | inr (inr failed) ↦ inr failed
        | inr (inl (m, e)) ↦ absurd (ground (arith, e, (finished-settled id (s.pc m) (over m)).1))
      ] in
    elim (o.visits 0 all.0) [
      | inl e ↦ absurd (ground (arith, e, visited))
      | inr (a, there, inl e) ↦ ((a, there, e), file)
      | inr (a, there, inr (m, e)) ↦
          absurd (ground (arith, e, (finished-settled id (s.pc m) (over m)).2 a))
    ]
