-- ===== src/Monitor/Threads/Steps.antt =====
-- The steps that goroutines in `UpdateDatabase` have before them.
use gonit.Base.{
  ℕ, zero, suc, ◌+◌, ◌*◌, ◌<◌, ◌≤◌, ◌==◌, String, ◌≡◌, ◌⊎◌, refl, true, false, List, [], ◌∷◌,
  is_some, arith, ap, Bool-cases, Option-cases, inl, inr, length,
}
use gonit.Base.Table.{lookup}
use gonit.Monitor.Threads.{
  Given, World, Pc, checking, adding, waiting, writing, listing, pruning, saving, releasing,
  finished, advance, put_pc, is_finished,
}
use gonit.Monitor.Threads.Orderly.{After}

-- The steps that a goroutine has before it, less those of its second loop, and these.
abbrev pub steps : Pc → ℕ
steps (checking ids h) = 5 * length ids + length h + 5
steps (adding id ids h) = 5 * length ids + length h + 9
steps (waiting id a ids h) = 5 * length ids + length h + 8
steps (writing id a ids h) = 5 * length ids + length h + 7
steps (listing h) = length h + 4
steps (pruning ks h) = length h + 3
steps (saving h) = length h + 2
steps (releasing h) = length h + 1
steps finished = 0

abbrev pub rounds : Pc → ℕ
rounds (pruning ks h) = length ks
rounds _ = 0

-- A step leaves fewer of the former, or as many and fewer of the latter.
abbrev pub Fewer : ℕ → ℕ → ℕ → ℕ → Type 0
Fewer a b a' b' = (a' < a) ⊎ ((a' ≡ a) × (b' < b))

pub advance-Fewer :
    (given : Given) (i : ℕ) (white : List String) (w : World) (p : Pc)
    → After (λ w' p'. Fewer (steps p) (rounds p) (steps p') (rounds p')) (advance given i white w p)
unfolding advance
advance-Fewer given i white w (checking [] h) = inl (omega arith)
advance-Fewer given i white w (checking (id ∷ ids) h) = elim (Option-cases (lookup id w.db)) [
  | inl missing ↦ rw missing (inl (omega arith))
  | inr (a, there) ↦ rw there (inl (omega arith))
]
advance-Fewer given i white w (adding id ids h) = inl (omega arith)
advance-Fewer given i white w (waiting id a ids h) = elim (Bool-cases (is_some (w.owner id a))) [
  | inl busy ↦ rw busy tt
  | inr free ↦ rw free (inl (omega arith))
]
advance-Fewer given i white w (writing id a ids h) = inl (omega arith)
advance-Fewer given i white w (listing h) = inl (omega arith)
advance-Fewer given i white w (pruning [] h) = inl (omega arith)
advance-Fewer given i white w (pruning (k ∷ ks) h) = inr (refl, omega arith)
advance-Fewer given i white w (saving h) = inl (omega arith)
advance-Fewer given i white w (releasing []) = inl (omega arith)
advance-Fewer given i white w (releasing ((k, a) ∷ h)) = inl (omega arith)
advance-Fewer given i white w finished = tt

pub goes-unfinished :
    (given : Given) (i : ℕ) (white : List String) (w : World) (p : Pc)
    → is_some (advance given i white w p) ≡ true
    → is_finished p ≡ false
unfolding advance
goes-unfinished given i white w (checking [] h) e = refl
goes-unfinished given i white w (checking (id ∷ ids) h) e = refl
goes-unfinished given i white w (adding id ids h) e = refl
goes-unfinished given i white w (waiting id a ids h) e = refl
goes-unfinished given i white w (writing id a ids h) e = refl
goes-unfinished given i white w (listing h) e = refl
goes-unfinished given i white w (pruning ks h) e = refl
goes-unfinished given i white w (saving h) e = refl
goes-unfinished given i white w (releasing h) e = refl
goes-unfinished given i white w finished e = absurd (cc)

-- The sum of a measure over the first `n` goroutines.
unfoldable pub total : (Pc → ℕ) → ℕ → (ℕ → Pc) → ℕ
total m zero f = 0
total m (suc n) f = m (f n) + total m n f

total-put_pc_above :
    (m : Pc → ℕ) (n i : ℕ) (p : Pc) (f : ℕ → Pc) → n ≤ i → total m n (put_pc i p f) ≡ total m n f
unfolding total
total-put_pc_above m zero i p f le = refl
total-put_pc_above m (suc n) i p f le =
    let other : (n == i) ≡ false = ground arith in
    rw other (omega (arith, total-put_pc_above m n i p f (omega arith)))

pub total-put_pc :
    (m : Pc → ℕ) (n i : ℕ) (p : Pc) (f : ℕ → Pc)
    → i < n
    → total m n (put_pc i p f) + m (f i) ≡ total m n f + m p
unfolding total
total-put_pc m zero i p f lt = absurd (omega arith)
total-put_pc m (suc n) i p f lt = elim (Bool-cases (n == i)) [
  | inl here ↦
      let same : n ≡ i = ground (arith, here) in
      rw here
        (omega (arith, total-put_pc_above m n i p f (omega arith), ap (λ (x : ℕ). m (f x)) same))
  | inr other ↦
      let ne : i < n = ground (arith, other) in rw other (omega (arith, total-put_pc m n i p f ne))
]

pub find_unfinished :
    (n : ℕ) (f : ℕ → Pc)
    → ((i : ℕ) → i < n → is_finished (f i) ≡ true) ⊎ ((i : ℕ) × (is_finished (f i) ≡ false))
find_unfinished zero f = inl (λ i lt. absurd (omega arith))
find_unfinished (suc n) f = elim (Bool-cases (is_finished (f n))) [
  | inr going ↦ inr (n, going)
  | inl over ↦ elim (find_unfinished n f) [
    | inr (i, going) ↦ inr (i, going)
    | inl all ↦ inl (λ i lt. elim (Bool-cases (i == n)) [
      | inl here ↦ let same : i ≡ n = ground (arith, here) in rw same over
      | inr other ↦ all i (ground (arith, other))
    ])
  ]
]
