-- ===== src/Monitor/Load/Initial.antt =====
-- `New` of monitor/monitor.go on any state file and control file.
use gonit.Config.Walk.{IsWithinStack}
use gonit.Base.{
  ℕ, ◌≢◌, String, ◌≡◌, ◌⊎◌, refl, sym, ap, subst, ◌∙◌, true, Option, none, some, [], returns, exits,
  returns-injective,
}
use gonit.Base.Table.{Table, lookup}
use gonit.Check.{Host}
use gonit.Config.{Source}
use gonit.Database.FileStorer.{file_storer}
use gonit.Database.Opened.{new_file_database_keeps}
use gonit.Database.Persistence.{new_file_database_total}
use gonit.Database.Storage.{IsReady, get-eq-lookup, get-initialize}
use gonit.Database.{Codec, Db, decoded, FileDb, get, new_file_database}
use gonit.Entries.{Value}
use gonit.Files.{Disk, ensure_permissions}
use gonit.Files as Files
use gonit.Monitor.Load.Keeps.{load_ends}
use gonit.Monitor.Load.{Settings, new_monitor}
use gonit.Monitor.Operable.{IsOperable, IsOperable-add, IsOperable-socket}
use gonit.Monitor.Update.{is_idle}
use gonit.Monitor.{Monitor}

-- No entry that gob decodes is locked: the lock is an unexported field.
pub record DecodesIdle {B : Type 0} (g : Codec B Value) : Type 0 where
  pub idle :
      (bytes : B) (t : Table Value) (k : String)
      → g.decode bytes ≡ decoded (some t)
      → is_idle (lookup k t) ≡ true

abbrev AreIdle : Db Value → Type 0
AreIdle db = (k : String) → is_idle (get db k) ≡ true

module _ {B : Type 0} (g : Codec B Value) (fh : Files.Host B) where
  opened_idle :
      (file : String) (d : Disk B)
      → DecodesIdle g
      → (f : FileDb Value) × (why : Option String) × (new_file_database g fh file d
          ≡ returns (f, why))
        × AreIdle f.db
        × IsReady f.db
  unfolding lookup
  opened_idle file d c =
      let (f, why, done, idle) =
        new_file_database_keeps g fh AreIdle (λ k. rw get-eq-lookup refl) from
          (λ db idle k. rw get-initialize (idle k)) file d in
      let (f', why', done', ready) = new_file_database_total g fh file d in
      let same : f' ≡ f = ap (λ x. x.0) (returns-injective (sym done' ∙ done)) in
      (f, why, done, idle, subst (λ x. IsReady x.db) same ready)
    where
      from :
          (bytes : B) (s : Option (Table Value))
          → g.decode bytes ≡ decoded s
          → AreIdle (record { storage = s })
      from bytes none e k = rw get-eq-lookup refl
      from bytes (some t) e k = rw get-eq-lookup (c.idle bytes t k e)

  -- The monitor of `New` before its control file is read.
  unread : Settings → Disk B → FileDb Value → Monitor (file_storer g fh)
  unfolding file_storer
  unread c d f = record {
    checks = [];
    database = (f, d);
    control_file = c.control_file;
    socket_file = "";
    last_check = none;
  }

  unread-IsOperable :
      (c : Settings) (d : Disk B) (f : FileDb Value)
      → AreIdle f.db
      → IsReady f.db
      → IsOperable (file_storer g fh) (unread c d f)
  unfolding file_storer unread
  unread-IsOperable c d f idle ready = record {
    well_formed = record { distinct = tt; set_up = tt; ready = ready; idle = idle };
    initialized = tt;
  }

  -- With a codec that decodes no locked entry: whatever the state file holds, and whatever a control
  -- file holds whose includes nest no deeper than the stack admits, `New` ends. The process exits
  -- with code 1, since a check of permissions of a file failed; or `New` returns, with an error or
  -- without, a well-formed monitor whose checks have been initialized, and without an error its
  -- socket has passed, and a socket of the command line is the one in use.
  pub new_monitor-IsOperable :
      (h : Host) (c : Settings) (s : Source) (d : Disk B)
      → IsWithinStack s
      → DecodesIdle g
      → ((file why : String) × (max : ℕ) × (ensure_permissions fh d file max ≡ exits 1 why)
          × (new_monitor g fh h c s d ≡ exits 1 why))
        ⊎ ((why : Option String) × (m : Monitor (file_storer g fh)) × (new_monitor g fh h c s d
              ≡ returns (why, m))
            × IsOperable (file_storer g fh) m
            × (why ≡ none
                → (ensure_permissions fh d m.socket_file 0o660 ≡ returns tt)
                  × (c.socket_file ≢ "" → m.socket_file ≡ c.socket_file)))
  unfolding new_monitor file_storer unread
  new_monitor-IsOperable h c s d sh decodes =
      let S = file_storer g fh in
      let (f, why, done, idle, ready) = opened_idle c.state_file d decodes in
      rw (new_monitor, done)
        (load_ends S h (IsOperable S) fh d s c.socket_file (unread c d f) sh (IsOperable-add S h)
          (IsOperable-socket S h) (unread-IsOperable c d f idle ready))
