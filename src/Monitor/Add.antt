-- ===== src/Monitor/Add.antt =====
-- `AddCheck` of monitor/monitor.go on a well-formed monitor.

use gonit.Base.{
  String, Bool, sym, ap, ◌∙◌, returns-injective, ◌+◌, ◌-◌, ◌≡◌, refl, true, false, Option, none,
  some, [], ◌∷◌, ◌++◌, arith, returns, if◌then◌else◌, same_text, eq_iff,
}
use mathlib.Core.List.{map-append}
use gonit.Database.Storer.{Storer}
use gonit.Entries.{
  Entry, Value, entry, moment, new_entry, as_entry, on_entry, is_busy, get_entry, add_entry, lock,
  unlock, read_lock, read_unlock,
}
use gonit.Check.{Check, Host, is_monitored, set_monitored, initialize}
use gonit.Registry.{conflict, find_check, ids}
use gonit.Registry.Laws.{find_check-append, append-IsDistinct, append-IsSetUp}
use gonit.Monitor.Invariant.{IsWellFormed, flag_of, stored_flag, or_on}
use gonit.Monitor.{Monitor, register, add_check}

module _ (S : Storer Value) where
  open S use {State, get, set, modify, Ready, set_returns, get-modify, modify-Ready}

  -- What `AddCheck` leaves, when it adds `c`.
  pub record Added (c : Check) (m m' : Monitor S) : Type 0 where
    pub checks : m'.checks ≡ m.checks ++ set_monitored (or_on (stored_flag S c.id m)) c ∷ []
    pub ready : Ready m'.database
    pub values :
        (k : String)
        → get m'.database k ≡ (
            if same_text c.id k
            then elim (as_entry (get m.database c.id)) [
              | none ↦ some (entry (new_entry c.id))
              | some e ↦ some (entry e)
            ]
            else get m.database k)

  register_new :
      (c : Check) (m : Monitor S)
      → Ready m.database
      → c.monitored ≡ some true
      → as_entry (get m.database c.id) ≡ none
      → (m' : Monitor S) × (register S c none m ≡ returns m') × Added c m m'
  unfolding register add_entry lock is_monitored unlock set_monitored
  register_new c m r on none_there =
      let locking = on_entry (λ e. record e { locked = true }) in
      let flagging = on_entry (λ e. record e { monitored = true }) in
      let unlocking = on_entry (λ e. record e { locked = false }) in
      let (s1, added, at, r1) = set_returns m.database c.id (entry (new_entry c.id)) r in
      let s2 = modify s1 c.id locking in
      let s3 = modify s2 c.id flagging in
      (
        record m { checks = m.checks ++ c ∷ []; database = modify s3 c.id unlocking },
        ground (arith, added, at c.id, eq_iff c.id c.id),
        record {
          checks = ground arith;
          ready =
              modify-Ready s3 c.id unlocking
                (modify-Ready s2 c.id flagging (modify-Ready s1 c.id locking r1));
          values = λ k. ground (
            arith,
            get-modify s3 k c.id unlocking,
            get-modify s2 k c.id flagging,
            get-modify s1 k c.id locking,
            at k,
            eq_iff c.id k,
          );
        },
      )

  register_there :
      (c : Check) (m : Monitor S) (e : Entry)
      → Ready m.database
      → get m.database c.id ≡ some (entry e)
      → is_busy e ≡ false
      → (m' : Monitor S) × (register S c (some e) m ≡ returns m') × Added c m m'
  unfolding register read_lock read_unlock
  register_there c m e r at free =
      let reading = on_entry (λ e. record e { readers = e.readers + 1 }) in
      let unreading = on_entry (λ e. record e { readers = e.readers - 1 }) in
      let s1 = modify m.database c.id reading in
      (
        record m {
          checks = m.checks ++ set_monitored e.monitored c ∷ [];
          database = modify s1 c.id unreading;
        },
        ground arith,
        record {
          checks = ground arith;
          ready = modify-Ready s1 c.id unreading (modify-Ready m.database c.id reading r);
          values = λ k. ground (
            arith,
            get-modify s1 k c.id unreading,
            get-modify m.database k c.id reading,
            eq_iff c.id k,
          );
        },
      )

  -- The values of the database that a new check finds: its entry, with the flag that it takes over.
  Added-IsWellFormed :
      (c : Check) (m m' : Monitor S)
      → IsWellFormed S m
      → find_check c.id m.checks ≡ none
      → Added c m m'
      → IsWellFormed S m'
  unfolding set_monitored
  Added-IsWellFormed c m m' w new a = record {
    distinct = rw a.checks (
        append-IsDistinct m.checks (set_monitored (or_on (stored_flag S c.id m)) c) w.distinct new);
    set_up = rw a.checks (
        append-IsSetUp m.checks (set_monitored (or_on (stored_flag S c.id m)) c)
          (or_on (stored_flag S c.id m)) w.set_up refl);
    ready = a.ready;
    idle = λ k. ground (arith, a.values k, w.idle k, eq_iff c.id k);
  }

  Added-flag_of :
      (c : Check) (m m' : Monitor S)
      → find_check c.id m.checks ≡ none
      → Added c m m'
      → (k : String)
      → flag_of S k m'
        ≡ (if same_text c.id k then some (or_on (stored_flag S k m)) else flag_of S k m)
  unfolding find_check set_monitored
  Added-flag_of c m m' new a k = rw a.checks (
      ground (
        arith,
        find_check-append k m.checks (set_monitored (or_on (stored_flag S c.id m)) c ∷ []),
        eq_iff c.id k,
      ))

  Added-stored_flag :
      (c : Check) (m m' : Monitor S)
      → Added c m m'
      → (k : String)
      → stored_flag S k m'
        ≡ (if same_text c.id k then some (or_on (stored_flag S k m)) else stored_flag S k m)
  Added-stored_flag c m m' a k = ground (arith, a.values k, eq_iff c.id k)

  registered :
      (c : Check) (m : Monitor S)
      → IsWellFormed S m
      → c.monitored ≡ some true
      → (m' : Monitor S) × (register S c (as_entry (get m.database c.id)) m ≡ returns m')
        × Added c m m'
  registered c m w on = from (get m.database c.id) refl
    where
      from :
          (o : Option Value)
          → get m.database c.id ≡ o
          → (m' : Monitor S) × (register S c (as_entry (get m.database c.id)) m ≡ returns m')
            × Added c m m'
      from none e = rw e (register_new c m w.ready on (rw e refl))
      from (some (moment t)) e = rw e (register_new c m w.ready on (rw e refl))
      from (some (entry x)) e = rw e (register_there c m x w.ready e (ground (arith, w.idle c.id)))

  -- In a well-formed monitor, a check whose id is new is added without an error, deadlock or panic,
  -- behind the others. Its flag is the stored one if the database has an entry for the id, and on
  -- otherwise; that flag is then stored. No other flag changes, neither in memory nor in the
  -- database, and the monitor stays well-formed.
  pub add_check_lem :
      (h : Host) (c : Check) (m : Monitor S)
      → IsWellFormed S m
      → find_check c.id m.checks ≡ none
      → (m' : Monitor S) × (add_check S h c m ≡ returns (none, m'))
        × IsWellFormed S m'
        × (ids m'.checks ≡ ids m.checks ++ c.id ∷ [])
        × ((k : String)
            → flag_of S k m'
              ≡ (if same_text c.id k then some (or_on (stored_flag S k m)) else flag_of S k m))
        × ((k : String)
            → stored_flag S k m'
              ≡ (if same_text c.id k then some (or_on (stored_flag S k m)) else stored_flag S k m))
  unfolding add_check initialize set_monitored get_entry
  add_check_lem h c m w new =
      let (m', done, a) = registered (initialize h c) m w refl in
      (
        m',
        rw new (rw done refl),
        Added-IsWellFormed (initialize h c) m m' w new a,
        rw a.checks (map-append _ _ _),
        Added-flag_of (initialize h c) m m' new a,
        Added-stored_flag (initialize h c) m m' a,
      )

  -- A check whose id is taken is refused with an error, and the monitor is as it was.
  pub add_check_conflict :
      (h : Host) (c d : Check) (m : Monitor S)
      → find_check c.id m.checks ≡ some d
      → add_check S h c m ≡ returns (some (conflict c.id), m)
  unfolding add_check
  add_check_conflict h c d m e = rw e refl

  -- What `AddCheck` leaves for a new id.
  pub add_check-Added :
      (h : Host) (c : Check) (m : Monitor S)
      → IsWellFormed S m
      → find_check c.id m.checks ≡ none
      → (m' : Monitor S) × (add_check S h c m ≡ returns (none, m')) × Added (initialize h c) m m'
  unfolding add_check initialize set_monitored get_entry
  add_check-Added h c m w new =
      let (m', done, a) = registered (initialize h c) m w refl in (m', rw new (rw done refl), a)

  pub add_check_checks :
      (h : Host) (c : Check) (m m1 : Monitor S)
      → IsWellFormed S m
      → find_check c.id m.checks ≡ none
      → add_check S h c m ≡ returns (none, m1)
      → (b : Bool) × (m1.checks ≡ m.checks ++ set_monitored b (initialize h c) ∷ [])
  add_check_checks h c m m1 w new ran =
      let (m', done, a) = add_check-Added h c m w new in
      (
        or_on (stored_flag S (initialize h c).id m),
        ap (λ r. r.1.checks) (returns-injective (sym ran ∙ done)) ∙ a.checks,
      )
