-- ===== src/Monitor/Threads/Orderly.antt =====
-- Goroutines in `UpdateDatabase` that take the mutexes of the entries in one order: what each step
-- keeps.
use gonit.Base.{
  ℕ, ◌<◌, ◌==◌, String, ◌≡◌, Bool, ◌&&◌, Option, none, some, List, [], ◌∷◌, same_text, is_some, any,
  All, arith, ap, eq_iff, Bool-cases, Option-cases, inl, inr,
}
use gonit.Base.Table.{lookup}
use gonit.Monitor.Threads.{
  Given, Held, World, Pc, checking, adding, waiting, writing, listing, pruning, saving, releasing,
  finished, put_entry, advance,
}

-- The entries that a goroutine has locked.
abbrev pub held_of : Pc → Held
held_of (checking ids h) = h
held_of (adding id ids h) = h
held_of (waiting id a ids h) = h
held_of (writing id a ids h) = (id, a) ∷ h
held_of (listing h) = h
held_of (pruning ks h) = h
held_of (saving h) = h
held_of (releasing h) = h
held_of finished = []

-- The keys of those that it is still to lock.
abbrev pub ahead_of : Pc → List String
ahead_of (checking ids h) = ids
ahead_of (adding id ids h) = id ∷ ids
ahead_of (waiting id a ids h) = id ∷ ids
ahead_of (writing id a ids h) = ids
ahead_of _ = []

abbrev pub holds : String → ℕ → Held → Bool
holds k a h = any (λ q. same_text q.0 k && q.1 == a) h

abbrev pub Owns : World → ℕ → Held → Type 0
Owns w i h = All (λ q. w.owner q.0 q.1 ≡ some i) h

-- What holds of the state that a step leads to, if there is one.
abbrev pub After : (World → Pc → Type 0) → Option (World × Pc) → Type 0
After P none = Unit
After P (some (w, p)) = P w p

module _ (rank : String → ℕ) where
  abbrev pub Ascends : List String → Type 0
  Ascends [] = Unit
  Ascends (k ∷ ks) = All (λ j. rank k < rank j) ks × Ascends ks

  abbrev Descends : Held → Type 0
  Descends [] = Unit
  Descends ((k, a) ∷ h) = All (λ q. rank q.0 < rank k) h × Descends h

  -- What is held comes before what is ahead, each in order.
  pub record Fits (p : Pc) : Type 0 where
    pub ascends : Ascends (ahead_of p)
    pub descends : Descends (held_of p)
    pub before : All (λ (q : String × ℕ). All (λ j. rank q.0 < rank j) (ahead_of p)) (held_of p)

  heads :
      (k : String) (ks : List String) (h : Held)
      → All (λ (q : String × ℕ). All (λ j. rank q.0 < rank j) (k ∷ ks)) h
      → All (λ (q : String × ℕ). rank q.0 < rank k) h
        × All (λ (q : String × ℕ). All (λ j. rank q.0 < rank j) ks) h
  heads k ks [] b = (tt, tt)
  heads k ks (q ∷ h) b = let (hs, ts) = heads k ks h b.1 in ((b.0.0, hs), (b.0.1, ts))

  nothing_ahead : (h : Held) → All (λ (q : String × ℕ). All (λ j. rank q.0 < rank j) []) h
  nothing_ahead [] = tt
  nothing_ahead (q ∷ h) = (tt, nothing_ahead h)

module _ (rank : String → ℕ) (given : Given) (i : ℕ) (white : List String) (w : World) where
  pub advance-Fits :
      (p : Pc) → Fits rank p → After (λ w' p'. Fits rank p') (advance given i white w p)
  unfolding advance
  advance-Fits (checking [] h) f = record {
    ascends = tt;
    descends = f.descends;
    before = nothing_ahead rank h;
  }
  advance-Fits (checking (id ∷ ids) h) f = elim (Option-cases (lookup id w.db)) [
    | inl missing ↦
        rw missing (record { ascends = f.ascends; descends = f.descends; before = f.before })
    | inr (a, there) ↦
        rw there (record { ascends = f.ascends; descends = f.descends; before = f.before })
  ]
  advance-Fits (adding id ids h) f = record {
    ascends = f.ascends;
    descends = f.descends;
    before = f.before;
  }
  advance-Fits (waiting id a ids h) f = elim (Bool-cases (is_some (w.owner id a))) [
    | inl busy ↦ rw busy tt
    | inr free ↦
        let (below, later) = heads rank id ids h f.before in
        rw free (record {
          ascends = f.ascends.1;
          descends = (below, f.descends);
          before = (f.ascends.0, later);
        })
  ]
  advance-Fits (writing id a ids h) f = record {
    ascends = f.ascends;
    descends = f.descends;
    before = f.before;
  }
  advance-Fits (listing h) f = record {
    ascends = tt;
    descends = f.descends;
    before = nothing_ahead rank h;
  }
  advance-Fits (pruning [] h) f = record {
    ascends = tt;
    descends = f.descends;
    before = nothing_ahead rank h;
  }
  advance-Fits (pruning (k ∷ ks) h) f = record {
    ascends = tt;
    descends = f.descends;
    before = nothing_ahead rank h;
  }
  advance-Fits (saving h) f = record {
    ascends = tt;
    descends = f.descends;
    before = nothing_ahead rank h;
  }
  advance-Fits (releasing []) f = record { ascends = tt; descends = tt; before = tt }
  advance-Fits (releasing ((k, a) ∷ h)) f = record {
    ascends = tt;
    descends = f.descends.1;
    before = nothing_ahead rank h;
  }
  advance-Fits finished f = tt

  still-Owns :
      (k : String) (a : ℕ) (h : Held)
      → Owns w i h
      → Owns (record w { owner = put_entry k a (some i) w.owner }) i h
  still-Owns k a [] o = tt
  still-Owns k a (q ∷ h) o = (ground (arith, o.0), still-Owns k a h o.1)

  others_owned :
      (k : String) (a : ℕ) (h : Held)
      → All (λ (q : String × ℕ). rank q.0 < rank k) h
      → Owns w i h
      → Owns (record w { owner = put_entry k a none w.owner }) i h
  others_owned k a [] below o = tt
  others_owned k a (q ∷ h) below o = (other q below.0 o.0, others_owned k a h below.1 o.1)
    where
      other :
          (q : String × ℕ)
          → rank q.0 < rank k
          → w.owner q.0 q.1 ≡ some i
          → put_entry k a none w.owner q.0 q.1 ≡ some i
      other q lt mine = elim (Bool-cases (same_text q.0 k)) [
        | inr differs ↦ ground (arith, differs, mine)
        | inl same ↦
            let e : q.0 ≡ k = ground (arith, same, eq_iff q.0 k) in
            absurd (omega (arith, ap rank e))
      ]

  pub advance-Owns :
      (p : Pc)
      → Fits rank p
      → Owns w i (held_of p)
      → After (λ w' p'. Owns w' i (held_of p')) (advance given i white w p)
  unfolding advance
  advance-Owns (checking [] h) f o = o
  advance-Owns (checking (id ∷ ids) h) f o = elim (Option-cases (lookup id w.db)) [
    | inl missing ↦ rw missing o
    | inr (a, there) ↦ rw there o
  ]
  advance-Owns (adding id ids h) f o = o
  advance-Owns (waiting id a ids h) f o = elim (Bool-cases (is_some (w.owner id a))) [
    | inl busy ↦ rw busy tt
    | inr free ↦ rw free (ground (arith, eq_iff id id), still-Owns id a h o)
  ]
  advance-Owns (writing id a ids h) f o = o
  advance-Owns (listing h) f o = o
  advance-Owns (pruning [] h) f o = o
  advance-Owns (pruning (k ∷ ks) h) f o = elim (Bool-cases (any (λ j. same_text j k) white)) [
    | inl kept ↦ rw kept o
    | inr stale ↦ rw stale o
  ]
  advance-Owns (saving h) f o = o
  advance-Owns (releasing []) f o = tt
  advance-Owns (releasing ((k, a) ∷ h)) f o = others_owned k a h f.descends.0 o.1
  advance-Owns finished f o = tt
