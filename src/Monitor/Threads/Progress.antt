-- ===== src/Monitor/Threads/Progress.antt =====
-- Goroutines in `UpdateDatabase` that take the mutexes in one order: who can take a step.
use gonit.Base.{
  ℕ, zero, suc, ◌+◌, ◌<◌, ◌≤◌, String, ◌≡◌, ◌⊎◌, refl, true, false, none, some, List, [], ◌∷◌,
  if◌then◌else◌, same_text, is_some, All, arith, ap, eq_iff, Bool-cases, Option-cases, inl, inr,
  length,
}
use gonit.Monitor.Threads.{
  Given, Held, World, Pc, checking, adding, waiting, writing, listing, pruning, saving, releasing,
  finished, advance, System, run, white_of, start_pc, is_finished,
}
use gonit.Monitor.Threads.Orderly.{held_of, holds, Owns, Fits, Ascends}
use gonit.Monitor.Threads.Owners.{IsOrderly, run-IsOrderly}

-- A goroutine can take its next step.
abbrev pub CanGo : Given → (ℕ → List String) → System → ℕ → Type 0
CanGo given white s j = is_some (advance given j (white j) s.world (s.pc j)) ≡ true

abbrev WaitsFor : World → Pc → Type 0
WaitsFor w p =
    (k : String) × (a : ℕ) × (ids : List String) × (h : Held) × (p ≡ waiting k a ids h)
    × ((j : ℕ) × (w.owner k a ≡ some j))

goes_or_waits :
    (given : Given) (i : ℕ) (white : List String) (w : World) (p : Pc)
    → is_finished p ≡ false
    → (is_some (advance given i white w p) ≡ true) ⊎ WaitsFor w p
unfolding advance
goes_or_waits given i white w (checking [] h) e = inl refl
goes_or_waits given i white w (checking (id ∷ ids) h) e = inl refl
goes_or_waits given i white w (adding id ids h) e = inl refl
goes_or_waits given i white w (waiting id a ids h) e = elim (Option-cases (w.owner id a)) [
  | inl free ↦ inl (rw free refl)
  | inr (j, busy) ↦ inr (id, a, ids, h, refl, (j, busy))
]
goes_or_waits given i white w (writing id a ids h) e = inl refl
goes_or_waits given i white w (listing h) e = inl refl
goes_or_waits given i white w (pruning [] h) e = inl refl
goes_or_waits given i white w (pruning (k ∷ ks) h) e = inl refl
goes_or_waits given i white w (saving h) e = inl refl
goes_or_waits given i white w (releasing []) e = inl refl
goes_or_waits given i white w (releasing ((k, a) ∷ h)) e = inl refl
goes_or_waits given i white w finished e = absurd (cc)

-- A goroutine that has finished holds nothing.
pub holds-unfinished :
    (k : String) (a : ℕ) (p : Pc) → holds k a (held_of p) ≡ true → is_finished p ≡ false
holds-unfinished k a (checking ids h) e = refl
holds-unfinished k a (adding id ids h) e = refl
holds-unfinished k a (waiting id b ids h) e = refl
holds-unfinished k a (writing id b ids h) e = refl
holds-unfinished k a (listing h) e = refl
holds-unfinished k a (pruning ks h) e = refl
holds-unfinished k a (saving h) e = refl
holds-unfinished k a (releasing h) e = refl
holds-unfinished k a finished e = absurd (cc)

module _ (rank : String → ℕ) where
  held-before :
      (k j : String) (a : ℕ) (js : List String) (h : Held)
      → holds k a h ≡ true
      → All (λ (q : String × ℕ). All (λ x. rank q.0 < rank x) (j ∷ js)) h
      → rank k < rank j
  held-before k j a js [] e b = absurd (cc)
  held-before k j a js (q ∷ h) e b = elim (Bool-cases (same_text q.0 k)) [
    | inl same ↦
        let here : q.0 ≡ k = ground (arith, same, eq_iff q.0 k) in
        omega (arith, ap rank here, b.0.0)
    | inr other ↦ held-before k j a js h (ground (arith, e, other)) b.1
  ]

  module _ (given : Given) (white : ℕ → List String) (s : System) (o : IsOrderly rank s) (top : ℕ)
      (bounded : (k : String) → rank k ≤ top) where
    -- Whoever holds the entry that a goroutine waits for can go, or waits for a later one.
    owner_goes :
        (fuel : ℕ) (k : String) (a j : ℕ)
        → s.world.owner k a ≡ some j
        → top < rank k + fuel
        → (i : ℕ) × CanGo given white s i
    owner_goes zero k a j busy deep = absurd (omega (arith, bounded k))
    owner_goes (suc fuel) k a j busy deep =
        let held = o.holding j k a busy in
        elim (goes_or_waits given j (white j) s.world (s.pc j)
          (holds-unfinished k a (s.pc j) held)) [
            | inl goes ↦ (j, goes)
            | inr (k', a', ids, h, at, (j', busy')) ↦
                let b : All (λ (q : String × ℕ). All (λ x. rank q.0 < rank x) (k' ∷ ids)) h =
                  rw at at ((o.fits j).before) in
                let lt = held-before k k' a ids h (rw at at held) b in
                owner_goes fuel k' a' j' busy' (omega (arith, lt, deep))
          ]

    pub someone_goes : (i : ℕ) → is_finished (s.pc i) ≡ false → (j : ℕ) × CanGo given white s j
    someone_goes i e = elim (goes_or_waits given i (white i) s.world (s.pc i) e) [
      | inl goes ↦ (i, goes)
      | inr (k, a, ids, h, at, (j, busy)) ↦ owner_goes (suc top) k a j busy (omega arith)
    ]

-- The place of a key in a list; one that is not there comes behind.
abbrev pub index_of : List String → String → ℕ
index_of [] k = 0
index_of (j ∷ js) k = if same_text j k then 0 else suc (index_of js k)

pub index_of-le : (js : List String) (k : String) → index_of js k ≤ length js
index_of-le [] k = omega arith
index_of-le (j ∷ js) k = ground (arith, index_of-le js k)

-- No entry is locked.
abbrev pub AreFree : World → Type 0
AreFree w = (k : String) (a : ℕ) → w.owner k a ≡ none

-- The goroutines before their first step.
abbrev pub start : List (List String) → World → System
start lists w = record { world = w; pc = start_pc lists }

-- Each goroutine has its checks in the order in which they stand in one list.
abbrev pub InOrder : List String → List (List String) → Type 0
InOrder order lists = All (Ascends (index_of order)) lists

start_pc-Fits :
    (rank : String → ℕ) (lists : List (List String)) (i : ℕ)
    → All (Ascends rank) lists
    → Fits rank (start_pc lists i)
start_pc-Fits rank [] i all = record { ascends = tt; descends = tt; before = tt }
start_pc-Fits rank (ids ∷ rest) zero all = record { ascends = all.0; descends = tt; before = tt }
start_pc-Fits rank (ids ∷ rest) (suc i) all = start_pc-Fits rank rest i all.1

start_pc-Owns :
    (lists : List (List String)) (w : World) (i j : ℕ) → Owns w j (held_of (start_pc lists i))
start_pc-Owns [] w i j = tt
start_pc-Owns (ids ∷ rest) w zero j = tt
start_pc-Owns (ids ∷ rest) w (suc i) j = start_pc-Owns rest w i j

pub start-IsOrderly :
    (order : List String) (lists : List (List String)) (w : World)
    → InOrder order lists
    → AreFree w
    → IsOrderly (index_of order) (start lists w)
start-IsOrderly order lists w all free = record {
  fits = λ i. start_pc-Fits (index_of order) lists i all;
  owns = λ i. start_pc-Owns lists w i i;
  holding = λ i k a mine. ground (arith, mine, free k a);
}

-- Goroutines run `UpdateDatabase` on lists of checks that all stand in one order, and no entry is
-- locked before: whatever steps they have taken, in any order, while one of them has not finished
-- one of them can take its next step.
pub no_deadlock :
    (given : Given) (order : List String) (lists : List (List String)) (w : World) (is : List ℕ)
    (i : ℕ)
    → InOrder order lists
    → AreFree w
    → is_finished ((run given (white_of lists) is (start lists w)).pc i) ≡ false
    → (j : ℕ) × CanGo given (white_of lists) (run given (white_of lists) is (start lists w)) j
no_deadlock given order lists w is i all free e =
    someone_goes (index_of order) given (white_of lists)
      (run given (white_of lists) is (start lists w))
      (run-IsOrderly (index_of order) given (white_of lists) is (start lists w)
        (start-IsOrderly order lists w all free))
      (length order) (index_of-le order) i e
