-- ===== src/Monitor/Update.antt =====
-- `UpdateDatabase` of monitor/monitor.go, loop by loop.

use mathlib.Core.Option
use gonit.Base.{
  String, ◌≡◌, refl, Bool, true, false, not, ◌&&◌, Option, none, some, List, [], ◌∷◌, ◌⊎◌, arith,
  returns, if◌then◌else◌, same_text, eq_iff, inl, inr, Bool-cases, is_some, any,
}
use gonit.Database.Storer.{Storer}
use gonit.Entries.{
  Entry, Value, entry, moment, new_entry, as_entry, on_entry, is_busy, add_entry, lock, unlock,
}
use gonit.Check.{Check, is_monitored}
use gonit.Registry.{find_check, ids, IsDistinct, IsSetUp, is_on}
use gonit.Registry.Laws.{any-ids}
use gonit.Monitor.{record_check, record_checks, prune, release, update_database}

abbrev pub entry_or_new : String → Option Value → Entry
entry_or_new id o = elim (as_entry o) [ none ↦ new_entry id | some e ↦ e ]

-- The entry that `UpdateDatabase` leaves for a check, from the value that was stored before.
abbrev pub recorded : Check → Option Value → Value
recorded c o = entry (record (entry_or_new c.id o) { monitored = is_on c; locked = false })

abbrev pub stamped : Check → Option Value → Value
stamped c o = entry (record (entry_or_new c.id o) { monitored = is_on c; locked = true })

-- Nobody holds the lock of the entry.
abbrev pub is_idle : Option Value → Bool
is_idle o = elim (as_entry o) [ none ↦ true | some e ↦ not (is_busy e) ]

module _ (S : Storer Value) where
  open S use {
    State, get, set, delete, keys_of, modify, serialize, Ready, set_returns, get-delete,
    delete-Ready, any-keys_of, get-modify, modify-Ready, serialize_returns,
  }

  abbrev locking : Value → Value
  locking = on_entry (λ e. record e { locked = true })

  abbrev flagging : Bool → Value → Value
  flagging b = on_entry (λ e. record e { monitored = b })

  record_there :
      (c : Check) (s : State) (b : Bool) (e : Entry)
      → Ready s
      → c.monitored ≡ some b
      → get s c.id ≡ some (entry e)
      → is_busy e ≡ false
      → (s' : State) × (record_check S c s ≡ returns s')
        × ((k : String)
            → get s' k ≡ (
                if same_text c.id k
                then some (entry (record e { monitored = b; locked = true }))
                else get s k))
        × Ready s'
  unfolding record_check lock is_monitored
  record_there c s b e r m g idle =
      let s2 = modify s c.id locking in
      (
        modify s2 c.id (flagging b),
        ground arith,
        λ k.
            ground (
              arith,
              get-modify s2 k c.id (flagging b),
              get-modify s k c.id locking,
              eq_iff c.id k,
            ),
        modify-Ready s2 c.id (flagging b) (modify-Ready s c.id locking r),
      )

  record_new :
      (c : Check) (s : State) (b : Bool)
      → Ready s
      → c.monitored ≡ some b
      → as_entry (get s c.id) ≡ none
      → (s' : State) × (record_check S c s ≡ returns s')
        × ((k : String)
            → get s' k ≡ (
                if same_text c.id k
                then some (entry (record (new_entry c.id) { monitored = b; locked = true }))
                else get s k))
        × Ready s'
  unfolding record_check lock is_monitored add_entry
  record_new c s b r m g =
      let (s1, added, at, r1) = set_returns s c.id (entry (new_entry c.id)) r in
      let s2 = modify s1 c.id locking in
      (
        modify s2 c.id (flagging b),
        ground (arith, added, at c.id, eq_iff c.id c.id),
        λ k. ground (
          arith,
          get-modify s2 k c.id (flagging b),
          get-modify s1 k c.id locking,
          at k,
          eq_iff c.id k,
        ),
        modify-Ready s2 c.id (flagging b) (modify-Ready s1 c.id locking r1),
      )

  entry_cases :
      (o : Option Value)
      → is_idle o ≡ true
      → (as_entry o ≡ none) ⊎ ((e : Entry) × (o ≡ some (entry e)) × (is_busy e ≡ false))
  entry_cases none h = inl refl
  entry_cases (some (moment t)) h = inl refl
  entry_cases (some (entry e)) h = inr (e, refl, ground arith)

  record_check_lem :
      (c : Check) (s : State) (b : Bool)
      → Ready s
      → c.monitored ≡ some b
      → is_idle (get s c.id) ≡ true
      → (s' : State) × (record_check S c s ≡ returns s')
        × ((k : String)
            → get s' k ≡ (if same_text c.id k then some (stamped c (get s c.id)) else get s k))
        × Ready s'
  record_check_lem c s b r m idle = elim (entry_cases (get s c.id) idle) [
    | inl g ↦
        let (s', done, at, r') = record_new c s b r m g in (s', done, λ k. ground (arith, at k), r')
    | inr (e, g, free) ↦
        let (s', done, at, r') = record_there c s b e r m g free in
        (s', done, λ k. ground (arith, at k), r')
  ]

  -- What the loop makes of the value at one key.
  abbrev pub loop_at : List Check → String → Option Value → Option Value
  loop_at cs k o = elim (find_check k cs) [ none ↦ o | some c ↦ some (stamped c o) ]

  abbrev pub AllIdle : List Check → State → Type 0
  AllIdle cs s = (k : String) → is_some (find_check k cs) ≡ true → is_idle (get s k) ≡ true

  pub record_checks_lem :
      (cs : List Check) (s : State)
      → IsDistinct cs
      → IsSetUp cs
      → Ready s
      → AllIdle cs s
      → (s' : State) × (record_checks S cs s ≡ returns s')
        × ((k : String) → get s' k ≡ loop_at cs k (get s k))
        × Ready s'
  unfolding record_checks find_check
  record_checks_lem [] s d m r idle = (s, refl, λ k. refl, r)
  record_checks_lem (c ∷ cs) s d m r idle =
      let (s1, done, at, r1) =
        record_check_lem c s m.0.0 r m.0.1 (idle c.id (ground (arith, eq_iff c.id c.id))) in
      let later : AllIdle cs s1 = λ k there. ground (arith, idle k, at k, eq_iff c.id k, d.0) in
      let (s2, done2, at2, r2) = record_checks_lem cs s1 d.1 m.1 r1 later in
      (s2, rw done done2, λ k. ground (arith, at2 k, at k, eq_iff c.id k, d.0), r2)

  pub prune_lem :
      (white ks : List String) (s : State) (k : String)
      → get (prune S white ks s) k ≡ (
          if not (any (λ j. same_text j k) white) && any (λ j. same_text j k) ks
          then none
          else get s k)
  unfolding prune
  prune_lem white [] s k = ground arith
  prune_lem white (j ∷ ks) s k = elim (Bool-cases (any (λ i. same_text i j) white)) [
    | inl e ↦ rw e (ground (arith, prune_lem white ks s k, eq_iff j k))
    | inr e ↦
        rw e (ground (arith, prune_lem white ks (delete s j).0 k, get-delete s k j, eq_iff j k))
  ]

  pub prune-Ready : (white ks : List String) (s : State) → Ready s → Ready (prune S white ks s)
  unfolding prune
  prune-Ready white [] s r = r
  prune-Ready white (j ∷ ks) s r = elim (Bool-cases (any (λ i. same_text i j) white)) [
    | inl e ↦ rw e (prune-Ready white ks s r)
    | inr e ↦ rw e (prune-Ready white ks (delete s j).0 (delete-Ready s j r))
  ]

  abbrev pub unlocking : Value → Value
  unlocking = on_entry (λ e. record e { locked = false })

  release_lem :
      (ks : List String) (s : State) (k : String)
      → get (release S ks s) k
        ≡ (if any (λ j. same_text j k) ks then Option.map unlocking (get s k) else get s k)
  unfolding release unlock
  release_lem [] s k = refl
  release_lem (j ∷ ks) s k =
      ground (arith, release_lem ks s k, get-modify (release S ks s) k j unlocking)

  release-Ready : (ks : List String) (s : State) → Ready s → Ready (release S ks s)
  unfolding release unlock
  release-Ready [] s r = r
  release-Ready (j ∷ ks) s r = modify-Ready (release S ks s) j unlocking (release-Ready ks s r)

  -- With distinct ids, checks that are set up, a ready database and nobody at its entries' locks,
  -- `UpdateDatabase` does not deadlock and does not panic. Then the value of each check's id is its
  -- entry with the check's flag and a free lock, and no other key is left; so also if saving fails.
  pub update_database_lem :
      (cs : List Check) (s : State)
      → IsDistinct cs
      → IsSetUp cs
      → Ready s
      → AllIdle cs s
      → (why : Option String) × (s' : State) × (update_database S cs s ≡ returns (why, s'))
        × ((k : String) → get s' k ≡ Option.map (λ c. recorded c (get s k)) (find_check k cs))
        × Ready s'
  unfolding update_database
  update_database_lem cs s d m r idle =
      let (s1, done, at, r1) = record_checks_lem cs s d m r idle in
      let s2 = prune S (ids cs) (keys_of s1) s1 in
      let (why, s3, saved, same, r3) =
        serialize_returns s2 (prune-Ready (ids cs) (keys_of s1) s1 r1) in
      (
        why,
        release S (ids cs) s3,
        rw done (rw saved),
        λ k. ground (
          arith,
          release_lem (ids cs) s3 k,
          same k,
          prune_lem (ids cs) (keys_of s1) s1 k,
          at k,
          any-ids k cs,
          any-keys_of s1 k,
        ),
        release-Ready (ids cs) s3 r3,
      )
