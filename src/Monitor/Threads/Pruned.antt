-- ===== src/Monitor/Threads/Pruned.antt =====
-- Goroutines in `UpdateDatabase` on lists without a key: how its entry leaves the database and the file.
use gonit.Base.{
  ℕ, String, ◌≡◌, ◌⊎◌, Bool, true, false, some, none, List, [], ◌∷◌, map, same_text, is_some, any,
  arith, Bool-cases, Option-cases, inl, inr, refl, eq_iff,
}
use gonit.Base.Sort.{sort_strings, any-sort_strings}
use gonit.Base.Table.{Table, keys, lookup, lookup-insert, lookup-erase, any-keys}
use gonit.Monitor.Threads.Orderly.{After}
use gonit.Monitor.Threads.Recorded.{to_visit, has_saved}
use gonit.Monitor.Threads.Written.{file_after-written}
use gonit.Monitor.Threads.{
  Saving, written, refused, broken_off, file_after, has_failed, Given, World, Pc, checking, adding,
  waiting, writing, listing, pruning, saving, releasing, finished, advance, put_entry,
}

lookup-saved_none :
    (k : String) (f : String → ℕ → Bool) (m : Table ℕ)
    → lookup k m ≡ none
    → lookup k (map (λ p. (p.0, f p.0 p.1)) m) ≡ none
unfolding lookup
lookup-saved_none k f [] e = refl
lookup-saved_none k f ((j, b) ∷ m) e = elim (Bool-cases (same_text j k)) [
  | inl here ↦ absurd (ground (arith, here, e))
  | inr other ↦ rw (lookup, other) (lookup-saved_none k f m (rw (lookup, other) at e))
]

file_after-none :
    (k : String) (s : Saving) (w : World)
    → lookup k w.db ≡ none
    → lookup k w.file ≡ none
    → lookup k (file_after s w) ≡ none
unfolding lookup
file_after-none k written w db file = lookup-saved_none k w.monitored w.db db
file_after-none k refused w db file = file
file_after-none k broken_off w db file = refl

-- The key `k`.
module _ (k : String) where
  -- The entry is gone, or the loop is to come to it, once a goroutine has read the keys.
  abbrev pub IsPast : World → Pc → Type 0
  IsPast w (pruning ks h) = (lookup k w.db ≡ none) ⊎ (any (λ j. same_text j k) ks ≡ true)
  IsPast w (saving h) = lookup k w.db ≡ none
  IsPast w (releasing h) = lookup k w.db ≡ none
  IsPast w finished = lookup k w.db ≡ none
  IsPast w _ = Unit

  IsPast-none : (w : World) (p : Pc) → lookup k w.db ≡ none → IsPast w p
  IsPast-none w (pruning ks h) e = inl e
  IsPast-none w (saving h) e = e
  IsPast-none w (releasing h) e = e
  IsPast-none w finished e = e
  IsPast-none w (checking ids h) e = tt
  IsPast-none w (adding id ids h) e = tt
  IsPast-none w (waiting id a ids h) e = tt
  IsPast-none w (writing id a ids h) e = tt
  IsPast-none w (listing h) e = tt

  -- A step leaves another goroutine past the key.
  pub IsPast-later :
      (w w' : World) (p : Pc)
      → (lookup k w.db ≡ none → lookup k w'.db ≡ none)
      → IsPast w p
      → IsPast w' p
  IsPast-later w w' (pruning ks h) keeps (inl e) = inl (keeps e)
  IsPast-later w w' (pruning ks h) keeps (inr e) = inr e
  IsPast-later w w' (saving h) keeps e = keeps e
  IsPast-later w w' (releasing h) keeps e = keeps e
  IsPast-later w w' finished keeps e = keeps e
  IsPast-later w w' (checking ids h) keeps e = tt
  IsPast-later w w' (adding id ids h) keeps e = tt
  IsPast-later w w' (waiting id a ids h) keeps e = tt
  IsPast-later w w' (writing id a ids h) keeps e = tt
  IsPast-later w w' (listing h) keeps e = tt

  module _ (given : Given) (i : ℕ) (white : List String) (w : World) where
    -- What a step of a goroutine that does not add the key does with it.
    pub record Prunes (p : Pc) (w' : World) (p' : Pc) : Type 0 where
      pub clear : to_visit k p' ≡ false
      pub keeps : lookup k w.db ≡ none → lookup k w'.db ≡ none
      pub past : IsPast w p → IsPast w' p'
      pub file : IsPast w p → lookup k w.file ≡ none → lookup k w'.file ≡ none
      pub saved :
          IsPast w p
          → has_saved k p' ≡ true
          → (has_saved k p ≡ true) ⊎ (lookup k w'.file ≡ none) ⊎ (has_failed (given.saves i) ≡ true)

    -- A step that leaves database and file.
    passes :
        (p p' : Pc) (w' : World)
        → to_visit k p' ≡ false
        → w'.db ≡ w.db
        → w'.file ≡ w.file
        → (IsPast w p → IsPast w p')
        → has_saved k p' ≡ has_saved k p
        → Prunes p w' p'
    passes p p' w' c db file past saved = record {
      clear = c;
      keeps = λ e. rw db e;
      past = λ q. IsPast-later w w' p' (λ e. rw db e) (past q);
      file = λ _ e. rw file e;
      saved = λ _ e. inl (ground (arith, e, saved));
    }

    pub advance-Prunes :
        (p : Pc)
        → to_visit k p ≡ false
        → any (λ j. same_text j k) white ≡ false
        → After (λ w' p'. Prunes p w' p') (advance given i white w p)
    unfolding advance
    advance-Prunes (checking [] h) c stale =
        passes (checking [] h) (listing h) w refl refl refl (λ q. tt) refl
    advance-Prunes (checking (id ∷ ids) h) c stale = elim (Option-cases (lookup id w.db)) [
      | inl missing ↦
          rw missing (passes (checking (id ∷ ids) h) (adding id ids h) w c refl refl (λ q. tt) refl)
      | inr (a, there) ↦ rw there (
          passes (checking (id ∷ ids) h) (waiting id a ids h) w (ground (arith, c)) refl refl
            (λ q. tt) refl)
    ]
    advance-Prunes (adding id ids h) c stale =
        let other : same_text id k ≡ false = ground (arith, c) in
        record {
          clear = ground (arith, c);
          keeps = λ e. rw (lookup-insert k id w.next w.db, other) e;
          past = λ q. tt;
          file = λ _ e. e;
          saved = λ _ e. absurd (ground (arith, e));
        }
    advance-Prunes (waiting id a ids h) c stale = elim (Bool-cases (is_some (w.owner id a))) [
      | inl busy ↦ rw busy tt
      | inr free ↦ rw free (
          passes (waiting id a ids h) (writing id a ids h)
            (record w { owner = put_entry id a (some i) w.owner }) c refl refl (λ q. tt) refl)
    ]
    advance-Prunes (writing id a ids h) c stale =
        passes (writing id a ids h) (checking ids ((id, a) ∷ h))
          (record w { monitored = put_entry id a (given.on id) w.monitored }) c refl refl (λ q. tt)
          refl
    advance-Prunes (listing h) c stale =
        passes (listing h) (pruning (sort_strings (keys w.db)) h) w refl refl refl (λ q. listed)
          refl
      where
        listed :
            (lookup k w.db ≡ none) ⊎ (any (λ j. same_text j k) (sort_strings (keys w.db)) ≡ true)
        listed = elim (Option-cases (lookup k w.db)) [
          | inl gone ↦ inl gone
          | inr (a, there) ↦
              inr (
                rw (any-sort_strings (λ j. same_text j k) (keys w.db), any-keys k w.db, there) refl)
        ]
    advance-Prunes (pruning [] h) c stale =
        passes (pruning [] h) (saving h) w refl refl refl
          (λ q. elim q [ inl e ↦ e | inr e ↦ absurd (ground (arith, e)) ]) refl
    advance-Prunes (pruning (j ∷ js) h) c stale =
        elim (Bool-cases (any (λ x. same_text x j) white)) [
          | inl kept ↦ rw kept (
              passes (pruning (j ∷ js) h) (pruning js h) w refl refl refl
                (λ q. elim q [ inl e ↦ inl e | inr e ↦ inr (ground (arith, e, not_kept kept)) ])
                refl)
          | inr other ↦ rw other (record {
            clear = refl;
            keeps = λ e. rw (lookup-erase k j w.db) (ground (arith, e));
            past = λ q. elim (Bool-cases (same_text j k)) [
              | inl here ↦ inl (rw (lookup-erase k j w.db, here) refl)
              | inr far ↦ elim q [
                | inl e ↦ inl (rw (lookup-erase k j w.db, far) e)
                | inr e ↦ inr (ground (arith, e, far))
              ]
            ];
            file = λ _ e. e;
            saved = λ _ e. absurd (ground (arith, e));
          })
        ]
      where
        not_kept : any (λ x. same_text x j) white ≡ true → same_text j k ≡ false
        not_kept kept = elim (Bool-cases (same_text j k)) [
          | inr far ↦ far
          | inl here ↦
              let same : j ≡ k = ground (arith, eq_iff j k, here) in
              absurd (ground (arith, rw same at kept, stale))
        ]
    advance-Prunes (saving h) c stale = record {
      clear = refl;
      keeps = λ e. e;
      past = λ q. q;
      file = λ q e. file_after-none k (given.saves i) w q e;
      saved = λ q _. elim (Bool-cases (has_failed (given.saves i))) [
        | inl failed ↦ inr (inr failed)
        | inr fine ↦ inr (
            inl (
              rw (file_after-written (given.saves i) w fine)
                (lookup-saved_none k w.monitored w.db q)))
      ];
    }
    advance-Prunes (releasing []) c stale =
        passes (releasing []) finished w refl refl refl (λ q. q) refl
    advance-Prunes (releasing ((j, a) ∷ h)) c stale =
        passes (releasing ((j, a) ∷ h)) (releasing h)
          (record w { owner = put_entry j a none w.owner }) refl refl refl (λ q. q) refl
    advance-Prunes finished c stale = tt
