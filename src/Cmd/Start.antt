-- ===== src/Cmd/Start.antt =====
-- `RunMonitor` of cmd/root.go in the process that becomes the daemon, with `initApp` of cmd/common.go.
use Prim.Native.String.{◌++◌ as ◌+++◌}
use gonit.Config.Walk.{IsWithinStack}
use gonit.Base.{
  ℤ, String, ◌≡◌, ◌⊎◌, refl, none, some, List, [], Outcome, returns, exits, ◌>>=◌, inl, inr,
  Option-cases,
}
use gonit.Check.Once.{initial}
use gonit.Check.{Host}
use gonit.Cmd.Run.{Config}
use gonit.Config.{Source}
use gonit.Daemon.{Event, State, run}
use gonit.Database.FileStorer.{file_storer}
use gonit.Database.{Codec}
use gonit.Entries.{Value}
use gonit.Files.Access.{Access}
use gonit.Files.{Disk}
use gonit.Files as Files
use gonit.Monitor.Load.Initial.{DecodesIdle, new_monitor-IsOperable}
use gonit.Monitor.Load.{Settings, new_monitor}
use gonit.Monitor.Operable.{IsOperable}
use gonit.Monitor.{Monitor}
use gonit.Pid.{write_pid}

abbrev pub settings_of : Config → Settings
settings_of c = record {
  state_file = c.state_file;
  control_file = c.control_file;
  socket_file = c.socket_file;
}

module _ (g : Codec String Value) (fh : Files.Host String) where
  -- The disk of a monitor after another part of the program has written to it.
  unfoldable pub with_disk : Disk String → Monitor (file_storer g fh) → Monitor (file_storer g fh)
  unfolding file_storer
  with_disk d m = record m { database = (m.database.0, d) }

  module _ (h : Host) (a : Access) where
    unfoldable pub init_app : Config → Source → Disk String → Outcome (Monitor (file_storer g fh))
    init_app c s d = do
      r ← new_monitor g fh h (settings_of c) s d
      elim r.0 [
        | some why ↦ exits 1 ("Error initializing application: " +++ why)
        | none ↦ returns r.1
      ]

    -- With the events that the process then meets. The error of `StartServer` is dropped there.
    unfoldable pub run_monitor :
        ℤ → Config → Source → Disk String → List Event → Outcome (State (file_storer g fh))
    unfolding init_app
    run_monitor pid c s d es = do
      m ← init_app c s d
      let w = write_pid fh a c.pid_file pid d
      elim w.0 [
        | some why ↦ exits 1 why
        | none ↦
            run (file_storer g fh) es
              (record { monitor = with_disk w.1 m; guard = initial; begun = [] })
      ]

    -- It exits with code 1, or gives a well-formed monitor with initialized checks.
    pub init_app_ends :
        (c : Config) (s : Source) (d : Disk String)
        → IsWithinStack s
        → DecodesIdle g
        → ((why : String) × (init_app c s d ≡ exits 1 why))
          ⊎ ((m : Monitor (file_storer g fh)) × (init_app c s d ≡ returns m)
              × IsOperable (file_storer g fh) m)
    unfolding init_app
    init_app_ends c s d sh decodes =
        elim (new_monitor-IsOperable g fh h (settings_of c) s d sh decodes) [
          | inl (file, why, max, open_, ends) ↦ inl (why, rw (init_app, ends) refl)
          | inr (why, m, done, i, _) ↦ elim (Option-cases why) [
            | inr (e, failed) ↦
                inl ("Error initializing application: " +++ e, rw (init_app, done) (rw failed refl))
            | inl fine ↦ inr (m, rw (init_app, done) (rw fine refl), i)
          ]
        ]
