-- ===== src/Monitor.antt =====
-- The monitor of monitor/monitor.go: its registered checks and its database.
pub mod Update
pub mod Invariant
pub mod Add
pub mod Flags
pub mod Durable
pub mod Load
pub mod Operations
pub mod Operable
pub mod Summary
pub mod Threads
use Prim.Native.String.{◌++◌ as ◌+++◌}
use gonit.Base.{
  ℕ, String, Bool, true, false, not, Option, none, some, List, [], ◌∷◌, ◌++◌, Outcome, returns,
  ◌>>=◌, if◌then◌else◌, same_text, any, is_some, ◌⊎◌, inl, inr,
}
use gonit.Database.Storer.{Storer}
use gonit.Entries.{
  Entry, Value, on_entry, get_entry, add_entry, lock, unlock, read_lock, read_unlock,
}
use gonit.Check.{Check, Host, is_monitored, set_monitored, initialize}
use gonit.Registry.{find_check, update_check, ids, conflict}

abbrev pub not_found : String → String
not_found id = "Cannot find check with id " +++ id

-- `append` of an error that is not nil, in front of the later ones
abbrev pub or_nothing : Option String → List String → List String
or_nothing none errors = errors
or_nothing (some why) errors = why ∷ errors

module _ (S : Storer Value) where
  open S use {State, delete, keys_of, modify, serialize}

  pub record Monitor : Type 0 where
    pub checks : List Check
    pub database : State
    pub control_file : String
    pub socket_file : String
    pub last_check : Option ℕ

  -- The entry of a check, added if there is none.
  ensure_entry : State → String → Outcome State
  ensure_entry s id = elim (get_entry S s id) [ none ↦ add_entry S s id | some _ ↦ returns s ]

  -- The first loop of `UpdateDatabase`, and its body. It leaves each entry locked.
  unfoldable pub record_check : Check → State → Outcome State
  unfolding ensure_entry
  record_check c s = do
    s1 ← ensure_entry s c.id
    s2 ← lock S s1 c.id
    b ← is_monitored c
    returns (modify s2 c.id (on_entry (λ e. record e { monitored = b })))

  unfoldable pub record_checks : List Check → State → Outcome State
  record_checks [] s = returns s
  record_checks (c ∷ cs) s = do s' ← record_check c s; record_checks cs s'

  -- The second loop: the keys that are no check's id.
  unfoldable pub prune : List String → List String → State → State
  prune white [] s = s
  prune white (k ∷ ks) s =
      prune white ks (if any (λ j. same_text j k) white then s else (delete s k).0)

  -- The deferred calls of `unlock`, the last one first.
  unfoldable pub release : List String → State → State
  release [] s = s
  release (k ∷ ks) s = unlock S (release ks s) k

  unfoldable pub update_database : List Check → State → Outcome (Option String × State)
  update_database checks s = do
    s1 ← record_checks checks s
    r ← serialize (prune (ids checks) (keys_of s1) s1)
    returns (r.0, release (ids checks) r.1)

  -- The two ways of `AddCheck` behind the test of the id: with no entry, and with one. The lock is
  -- released on return.
  register : Check → Option Entry → Monitor → Outcome (Monitor)
  register c none m = do
    s1 ← add_entry S m.database c.id
    s2 ← lock S s1 c.id
    b ← is_monitored c
    let s3 = modify s2 c.id (on_entry (λ e. record e { monitored = b }))
    returns (record m { checks = m.checks ++ c ∷ []; database = unlock S s3 c.id })
  register c (some e) m = do
    s1 ← read_lock S m.database c.id
    returns (record m {
      checks = m.checks ++ set_monitored e.monitored c ∷ [];
      database = read_unlock S s1 c.id;
    })

  unfoldable pub add_check : Host → Check → Monitor → Outcome (Option String × Monitor)
  unfolding register
  add_check h c m =
      if is_some (find_check c.id m.checks)
      then returns (some (conflict c.id), m)
      else do m' ← register (initialize h c) (get_entry S m.database c.id) m; returns (none, m')

  -- `monitorCheck` and `unmonitorCheck`, for the check object that has the id.
  unfoldable pub flag_check : Bool → String → Monitor → Outcome (Option String × Monitor)
  flag_check b id m = do
    let checks = update_check id (set_monitored b) m.checks
    r ← update_database checks m.database
    returns (r.0, record m { checks = checks; database = r.1 })

  -- `Monitor` and `Unmonitor`
  unfoldable pub set_flag : Bool → String → Monitor → Outcome (Option String × Monitor)
  set_flag b id m = elim (find_check id m.checks) [
    | none ↦ returns (some (not_found id), m)
    | some c ↦ flag_check b c.id m
  ]

  -- `MonitorAll` and `UnmonitorAll`
  unfoldable pub flag_each : Bool → List String → Monitor → Outcome (List String × Monitor)
  flag_each b [] m = returns ([], m)
  flag_each b (id ∷ rest) m = do
    r ← flag_check b id m
    rs ← flag_each b rest r.1
    returns (or_nothing r.0 rs.0, rs.1)

  unfoldable pub set_all_flags : Bool → Monitor → Outcome (List String × Monitor)
  unfolding flag_each
  set_all_flags b m = flag_each b (ids m.checks) m

  -- The checks that `Perform` starts.
  due : List Check → Outcome (List Check)
  due [] = returns []
  due (c ∷ cs) = do b ← is_monitored c; rest ← due cs; returns (if b then c ∷ rest else rest)

  unfoldable pub perform : Host → Monitor → Outcome (List Check × Monitor)
  unfolding due
  perform h m = do cs ← due m.checks; returns (cs, record m { last_check = some h.now })
