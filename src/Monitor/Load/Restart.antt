-- ===== src/Monitor/Load/Restart.antt =====
-- `New` of monitor/monitor.go after an earlier process has saved its flags.
use mathlib.Core.Option
use gonit.Config.Walk.{IsWithinStack}
use gonit.Base.{
  String, ◌≡◌, ◌⊎◌, refl, sym, ap, ◌∙◌, true, Bool, Option, none, some, [], arith, Outcome, returns,
  exits, inl, inr, Option-cases, returns-injective,
}
use gonit.Check.{Host}
use gonit.Config.{Source}
use gonit.Database.FileStorer.{file_storer}
use gonit.Database.Persistence.{IsFaithful, new_file_database_total}
use gonit.Database.Reopen.{reopen, reopen-serialize_state}
use gonit.Database.Storer.{Storer}
use gonit.Database.{Codec}
use gonit.Entries.{Value, as_entry}
use gonit.Files.{Disk, ensure_permissions}
use gonit.Files as Files
use gonit.Monitor.Add.{add_check_lem, add_check_conflict}
use gonit.Monitor.Durable.{Durable, Finds, reopen-set_flag}
use gonit.Monitor.Invariant.{IsWellFormed, flag_of, stored_flag, or_on}
use gonit.Monitor.Load.Keeps.{AddKeeps, SocketKeeps, load_ends}
use gonit.Monitor.Load.Laws.{with_socket}
use gonit.Monitor.Load.{Settings, load, new_monitor}
use gonit.Monitor.Update.{is_idle}
use gonit.Monitor.{Monitor, set_flag}
use gonit.Registry.{find_check, conflict}

-- What gob sends of an entry: the flag, and not the lock.
pub record Sends (wire : Value → Value) : Type 0 where
  pub flag :
      (v : Value)
      → Option.map (λ e. e.monitored) (as_entry (some (wire v)))
        ≡ Option.map (λ e. e.monitored) (as_entry (some v))
  pub idle : (v : Value) → is_idle (some (wire v)) ≡ true

module _ (S : Storer Value) (h : Host) (F : String → Option Bool) where
  -- Every check has the flag that `F` says, or is on; and so will every check that is added.
  pub record HasFlags (m : Monitor S) : Type 0 where
    pub well_formed : IsWellFormed S m
    pub flags : (k : String) → (flag_of S k m ≡ none) ⊎ (flag_of S k m ≡ some (or_on (F k)))
    pub stored : (k : String) → or_on (stored_flag S k m) ≡ or_on (F k)

  HasFlags-add : AddKeeps S h HasFlags
  HasFlags-add c m i = elim (Option-cases (find_check c.id m.checks)) [
    | inr (d, taken) ↦ (some (conflict c.id), m, add_check_conflict S h c d m taken, i)
    | inl new ↦
        let (m', done, w', _, flags, stored) = add_check_lem S h c m i.well_formed new in
        (
          none,
          m',
          done,
          record {
            well_formed = w';
            flags = λ k. ground (arith, flags k, i.flags k, i.stored k);
            stored = λ k. ground (arith, stored k, i.stored k);
          },
        )
  ]

  HasFlags-socket : SocketKeeps S h HasFlags
  HasFlags-socket m socket i = record {
    well_formed = with_socket S h m socket i.well_formed;
    flags = i.flags;
    stored = i.stored;
  }

module _ {B : Type 0} (g : Codec B Value) (fh : Files.Host B) where
  -- `FileDB` outlives its process.
  pub file_storer_durable :
      (wire : Value → Value) → IsFaithful g wire → Sends wire → Durable (file_storer g fh)
  unfolding file_storer reopen
  file_storer_durable wire c sends = record {
    wire = wire;
    reopen = reopen g fh;
    wire_flag = sends.flag;
    wire_idle = sends.idle;
    reopen-modify = λ s k f. refl;
    reopen-serialize = λ s s' r e. reopen-serialize_state g fh wire s s' c r e;
  }

  -- The state file and the disk of a monitor.
  unfoldable pub state_file : Monitor (file_storer g fh) → String
  unfolding file_storer
  state_file m = m.database.0.file

  unfoldable pub disk_of : Monitor (file_storer g fh) → Disk B
  unfolding file_storer
  disk_of m = m.database.1

  -- The monitor before its control file is read.
  fresh : Settings → (file_storer g fh).State → Monitor (file_storer g fh)
  fresh c s = record {
    checks = [];
    database = s;
    control_file = c.control_file;
    socket_file = "";
    last_check = none;
  }

  abbrev start_from :
      Host
      → Settings
      → Source
      → Disk B
      → (file_storer g fh).State
      → Outcome (Option String × Monitor (file_storer g fh))
  start_from h c s d state = load (file_storer g fh) h fh d s c.socket_file (fresh c state)

  new_monitor-reopen :
      (h : Host) (c : Settings) (s : Source) (m : Monitor (file_storer g fh))
      (state : (file_storer g fh).State)
      → c.state_file ≡ state_file m
      → (wire : Value → Value) (faithful : IsFaithful g wire) (sends : Sends wire)
      → (file_storer_durable wire faithful sends).reopen m.database ≡ returns state
      → new_monitor g fh h c s (disk_of m) ≡ start_from h c s (disk_of m) state
  unfolding new_monitor state_file disk_of reopen file_storer fresh file_storer_durable
  new_monitor-reopen h c s m state named wire faithful sends opened =
      let (f, why, done, _) = new_file_database_total g fh m.database.0.file m.database.1 in
      let same : (f, m.database.1) ≡ state = returns-injective (sym (rw done refl) ∙ opened) in
      rw (named, done)
        (ap (λ x. load (file_storer g fh) h fh m.database.1 s c.socket_file (fresh c x)) same)

  fresh-HasFlags :
      (wire : Value → Value) (faithful : IsFaithful g wire) (sends : Sends wire) (h : Host)
      (c : Settings) (m : Monitor (file_storer g fh)) (state : (file_storer g fh).State)
      → Finds (file_storer g fh) (file_storer_durable wire faithful sends) m state
      → HasFlags (file_storer g fh) h (λ k. flag_of (file_storer g fh) k m) (fresh c state)
  unfolding fresh find_check
  fresh-HasFlags wire faithful sends h c m state (flags, idle, ready) = record {
    well_formed = record { distinct = tt; set_up = tt; ready = ready; idle = idle };
    flags = λ k. inl refl;
    stored = λ k. ap or_on (flags k);
  }

  -- With a codec that reads back what it wrote and sends the flags: after a `Monitor` or an
  -- `Unmonitor` of a well-formed monitor that gives no error, `New` on the same state file and
  -- disk ends, if the includes of the control file nest no deeper than the stack admits. It exits since a check of permissions failed, or it
  -- returns a well-formed monitor, in which every check with an id of the earlier one has the flag
  -- that it had there, and every other check is on.
  pub new_monitor-set_flag :
      (wire : Value → Value) (h : Host) (c : Settings) (s : Source) (b : Bool) (id : String)
      (m m' : Monitor (file_storer g fh))
      → IsWithinStack s
      → IsFaithful g wire
      → Sends wire
      → IsWellFormed (file_storer g fh) m
      → set_flag (file_storer g fh) b id m ≡ returns (none, m')
      → c.state_file ≡ state_file m'
      → ((why : String) × (new_monitor g fh h c s (disk_of m') ≡ exits 1 why))
        ⊎ ((why : Option String) × (m'' : Monitor (file_storer g fh)) × (new_monitor g fh h c s
                (disk_of m')
              ≡ returns (why, m''))
            × IsWellFormed (file_storer g fh) m''
            × ((k : String)
                → (flag_of (file_storer g fh) k m'' ≡ none)
                  ⊎ (flag_of (file_storer g fh) k m''
                      ≡ some (or_on (flag_of (file_storer g fh) k m')))))
  new_monitor-set_flag wire h c s b id m m' sh faithful sends w done named =
      let S = file_storer g fh in
      let D = file_storer_durable wire faithful sends in
      let (state, opened, found) = reopen-set_flag S D b id m m' w done in
      let same = new_monitor-reopen h c s m' state named wire faithful sends opened in
      let F : String → Option Bool = λ k. flag_of S k m' in
      elim (load_ends S h (HasFlags S h F) fh (disk_of m') s c.socket_file (fresh c state) sh
        (HasFlags-add S h F) (HasFlags-socket S h F)
        (fresh-HasFlags wire faithful sends h c m' state found)) [
          | inl (file, why, max, open_, ends) ↦ inl (why, same ∙ ends)
          | inr (why, m'', ends, i, _) ↦ inr (why, m'', same ∙ ends, i.well_formed, i.flags)
        ]
