-- ===== src/Monitor/Flags.antt =====
-- `Monitor`, `Unmonitor`, `MonitorAll` and `UnmonitorAll` of monitor/monitor.go: the flags in memory
-- and in the database.
use mathlib.Core.Option
use gonit.Base.{
  ◌≤◌, ◌<◌, suc, any, length-map, ◌⊎◌, ◌∙◌, String, ◌≡◌, refl, Bool, Option, none, some, List, [],
  ◌∷◌, arith, returns, if◌then◌else◌, same_text, eq_iff, inl, inr, Bool-cases, is_some, length,
}
use gonit.Database.Storer.{Storer}
use gonit.Entries.{Value}
use gonit.Check.{Check, set_monitored}
use gonit.Registry.{find_check, update_check, ids, IsSetUp}
use gonit.Registry.Laws.{any-ids, id-find_check, find_check-update_check, update_check-IsDistinct}
use gonit.Monitor.Update.{update_database_lem}
use gonit.Monitor.Invariant.{IsWellFormed, flag_of, stored_flag}
use gonit.Monitor.{Monitor, flag_check, set_flag, flag_each, set_all_flags, or_nothing}

pub keeps_id : (b : Bool) (c : Check) → (set_monitored b c).id ≡ c.id
unfolding set_monitored
keeps_id b c = refl

pub update_check-IsSetUp :
    (b : Bool) (k : String) (cs : List Check)
    → IsSetUp cs
    → IsSetUp (update_check k (set_monitored b) cs)
unfolding update_check set_monitored
update_check-IsSetUp b k [] h = tt
update_check-IsSetUp b k (c ∷ cs) h = elim (Bool-cases (same_text c.id k)) [
  | inl e ↦ rw e ((b, refl), h.1)
  | inr e ↦ rw e (h.0, update_check-IsSetUp b k cs h.1)
]

ids-update_check :
    (b : Bool) (k : String) (cs : List Check) → ids (update_check k (set_monitored b) cs) ≡ ids cs
unfolding update_check set_monitored
ids-update_check b k [] = refl
ids-update_check b k (c ∷ cs) = ground (arith, ids-update_check b k cs)

or_nothing-le :
    (why : Option String) (errors : List String) (ks : List String)
    → length errors ≤ length ks
    → length (or_nothing why errors) ≤ suc (length ks)
or_nothing-le none errors ks h = omega arith
or_nothing-le (some e) errors ks h = omega arith

module _ (S : Storer Value) where
  open S use {get}

  -- The database has one entry for each check, with the check's flag, and no other key.
  abbrev pub IsSynced : Monitor S → Type 0
  IsSynced m =
      (k : String)
      → (stored_flag S k m ≡ flag_of S k m)
        × (is_some (get m.database k) ≡ is_some (find_check k m.checks))

  -- In a well-formed monitor, writing the flag of a check and the database returns. Then the flag
  -- of the id is the new one if there is such a check, every other flag is as before, the ids are
  -- as before, and the database is in step with memory. An error tells only that saving failed.
  pub flag_check_lem :
      (b : Bool) (id : String) (m : Monitor S)
      → IsWellFormed S m
      → (why : Option String) × (m' : Monitor S) × (flag_check S b id m ≡ returns (why, m'))
        × IsWellFormed S m'
        × (ids m'.checks ≡ ids m.checks)
        × ((k : String)
            → flag_of S k m'
              ≡ (if same_text id k then Option.map (λ _. b) (flag_of S k m) else flag_of S k m))
        × IsSynced m'
  unfolding flag_check
  flag_check_lem b id m w =
      let f = set_monitored b in
      let cs = update_check id f m.checks in
      let (why, s, done, at, r) =
        update_database_lem S cs m.database
          (update_check-IsDistinct f (keeps_id b) id m.checks w.distinct)
          (update_check-IsSetUp b id m.checks w.set_up) w.ready (λ k _. w.idle k) in
      let at_flag = find_check-update_check f (keeps_id b) in
      (
        why,
        record m { checks = cs; database = s },
        rw done refl,
        record {
          distinct = update_check-IsDistinct f (keeps_id b) id m.checks w.distinct;
          set_up = update_check-IsSetUp b id m.checks w.set_up;
          ready = r;
          idle = λ k. ground (arith, at k, w.idle k);
        },
        ids-update_check b id m.checks,
        λ k. unfold set_monitored in ground (arith, at_flag k id m.checks),
        λ k. (ground (arith, at k), ground (arith, at k)),
      )

  -- On a well-formed monitor with a check of the id, `Monitor` and `Unmonitor` return, with an error
  -- or without. The flag of the check is then the new one in memory, no other flag in memory has
  -- changed, and the database has for every id the flag in memory, or none where no check has the
  -- id; the monitor stays well-formed.
  pub set_flag_lem :
      (b : Bool) (id : String) (m : Monitor S) (c : Check)
      → IsWellFormed S m
      → find_check id m.checks ≡ some c
      → (why : Option String) × (m' : Monitor S) × (set_flag S b id m ≡ returns (why, m'))
        × IsWellFormed S m'
        × ((k : String) → flag_of S k m' ≡ (if same_text id k then some b else flag_of S k m))
        × ((k : String) → stored_flag S k m' ≡ flag_of S k m')
  unfolding set_flag
  set_flag_lem b id m c w e =
      let same = id-find_check id m.checks c e in
      let (why, m', done, w', _, flags, synced) = flag_check_lem b c.id m w in
      (
        why,
        m',
        rw (e, set_flag) done,
        w',
        λ k. ground (arith, flags k, eq_iff id k),
        λ k. (synced k).0,
      )

  flag_each_lem :
      (b : Bool) (ks : List String) (m : Monitor S)
      → IsWellFormed S m
      → (errors : List String) × (m' : Monitor S) × (flag_each S b ks m ≡ returns (errors, m'))
        × IsWellFormed S m'
        × (ids m'.checks ≡ ids m.checks)
        × ((k : String)
            → flag_of S k m' ≡ (
                if any (λ j. same_text j k) ks
                then Option.map (λ _. b) (flag_of S k m)
                else flag_of S k m))
        × (length errors ≤ length ks)
        × (IsSynced m ⊎ (0 < length ks) → IsSynced m')
  unfolding flag_each
  flag_each_lem b [] m w =
      ([], m, refl, w, refl, λ k. refl, omega arith, λ h. elim h [ inl s ↦ s | inr n ↦ elim n [ ] ])
  flag_each_lem b (j ∷ ks) m w =
      let (why, m1, done1, w1, same1, flags1, synced1) = flag_check_lem b j m w in
      let (errors, m2, done2, w2, same2, flags2, few, synced2) = flag_each_lem b ks m1 w1 in
      (
        or_nothing why errors,
        m2,
        rw done1 (rw done2 refl),
        w2,
        same2 ∙ same1,
        λ k. ground (arith, flags2 k, flags1 k),
        or_nothing-le why errors ks few,
        λ _. synced2 (inl synced1),
      )

  -- `MonitorAll` and `UnmonitorAll` on a well-formed monitor return with at most one error for each
  -- check. Every check then has the new flag, no check has come or gone, and if there is a check
  -- at all the database is in step with memory.
  pub set_all_flags_lem :
      (b : Bool) (m : Monitor S)
      → IsWellFormed S m
      → (errors : List String) × (m' : Monitor S) × (set_all_flags S b m ≡ returns (errors, m'))
        × IsWellFormed S m'
        × (ids m'.checks ≡ ids m.checks)
        × ((k : String) → flag_of S k m' ≡ Option.map (λ _. b) (flag_of S k m))
        × (length errors ≤ length m.checks)
        × (0 < length m.checks → IsSynced m')
  unfolding set_all_flags
  set_all_flags_lem b m w =
      let (errors, m', done, w', same, flags, few, synced) = flag_each_lem b (ids m.checks) m w in
      (
        errors,
        m',
        done,
        w',
        same,
        λ k. ground (arith, flags k, any-ids k m.checks),
        omega (arith, few, length-map m.checks (λ c. c.id)),
        λ n. synced (inr (omega (arith, n, length-map m.checks (λ c. c.id)))),
      )
