-- ===== src/Cmd/Manager.antt =====
-- `getChecksManager` of cmd/common.go: whether a command works on the checks through the daemon that
-- runs, or in its own process.
use gonit.Config.Walk.{IsWithinStack}
use gonit.Base.{
  String, ◌≡◌, ◌≢◌, ◌⊎◌, refl, true, false, Outcome, returns, exits, ◌>>=◌, inl, inr, Bool-cases,
  if◌then◌else◌, arith, eq_iff,
}
use gonit.Check.{Host}
use gonit.Cmd.Run.{Config, is_daemon_running}
use gonit.Cmd.Start.{init_app, init_app_ends}
use gonit.Config.{Source}
use gonit.Daemon.Socket.{http_server_supported}
use gonit.Database.FileStorer.{file_storer}
use gonit.Database.{Codec}
use gonit.Entries.{Value}
use gonit.Files.Access.{Access}
use gonit.Files.{Disk}
use gonit.Files as Files
use gonit.Monitor.Load.Initial.{DecodesIdle}
use gonit.Monitor.Operable.{IsOperable}
use gonit.Monitor.{Monitor}
use gonit.Pid.{Kernel}

module _ (g : Codec String Value) (fh : Files.Host String) where
  -- A client of the socket, or a monitor of the process's own.
  pub data Manager : Type 0 where
    by_client : String → Manager
    by_monitor : Monitor (file_storer g fh) → Manager

  module _ (h : Host) (k : Kernel) (a : Access) where
    own_monitor : Config → Source → Disk String → Outcome Manager
    own_monitor c s d = do m ← init_app g fh h a c s d; returns (by_monitor m)

    unfoldable pub get_checks_manager : Config → Source → Disk String → Outcome Manager
    unfolding own_monitor
    get_checks_manager c s d =
        if is_daemon_running fh k a d c
        then (do
          m ← init_app g fh h a c s d
          if http_server_supported m.socket_file
              then returns (by_client m.socket_file)
              else own_monitor c s d)
        else own_monitor c s d

    -- While a daemon runs: the manager that the configured monitor makes, or the end of the process.
    pub get_checks_manager_runs :
        (c : Config) (s : Source) (d : Disk String) (m : Monitor (file_storer g fh))
        → is_daemon_running fh k a d c ≡ true
        → init_app g fh h a c s d ≡ returns m
        → get_checks_manager c s d
          ≡ returns (
              if http_server_supported m.socket_file then by_client m.socket_file else by_monitor m)
    unfolding get_checks_manager own_monitor
    get_checks_manager_runs c s d m runs done =
        rw (get_checks_manager, runs)
          (rw done (elim (Bool-cases (http_server_supported m.socket_file)) [
            | inl named ↦ rw named refl
            | inr unnamed ↦ rw unnamed refl
          ]))

    pub get_checks_manager_exits :
        (c : Config) (s : Source) (d : Disk String) (why : String)
        → is_daemon_running fh k a d c ≡ true
        → init_app g fh h a c s d ≡ exits 1 why
        → get_checks_manager c s d ≡ exits 1 why
    unfolding get_checks_manager own_monitor
    get_checks_manager_exits c s d why runs ends = rw (get_checks_manager, runs) (rw ends refl)

    -- What a manager has to do with the daemon.
    abbrev pub IsFit : Config → Disk String → Manager → Type 0
    IsFit c d (by_client socket) = (is_daemon_running fh k a d c ≡ true) × (socket ≢ "")
    IsFit c d (by_monitor m) =
        IsOperable (file_storer g fh) m
        × ((is_daemon_running fh k a d c ≡ false) ⊎ (m.socket_file ≡ ""))

    -- With a codec that decodes no locked entry: `getChecksManager` ends. The process exits with
    -- code 1, or a client is taken, and then a daemon runs by the pid file and the socket has a name;
    -- or a monitor, which is well-formed with initialized checks, and then no daemon runs or the
    -- monitor has no socket.
    pub get_checks_manager_ends :
        (c : Config) (s : Source) (d : Disk String)
        → IsWithinStack s
        → DecodesIdle g
        → ((why : String) × (get_checks_manager c s d ≡ exits 1 why))
          ⊎ ((m : Manager) × (get_checks_manager c s d ≡ returns m) × IsFit c d m)
    unfolding get_checks_manager own_monitor
    get_checks_manager_ends c s d sh decodes = elim (Bool-cases (is_daemon_running fh k a d c)) [
      | inr free ↦ elim (init_app_ends g fh h a c s d sh decodes) [
        | inl (why, ends) ↦ inl (why, rw (get_checks_manager, free) (rw ends refl))
        | inr (m, done, i) ↦
            inr (by_monitor m, rw (get_checks_manager, free) (rw done refl), (i, inl free))
      ]
      | inl runs ↦ elim (init_app_ends g fh h a c s d sh decodes) [
        | inl (why, ends) ↦ inl (why, rw (get_checks_manager, runs) (rw ends refl))
        | inr (m, done, i) ↦ elim (Bool-cases (http_server_supported m.socket_file)) [
          | inl named ↦ inr (
            by_client m.socket_file,
            rw (get_checks_manager, runs) (rw (done, named) refl),
            (runs, λ e. ground (arith, eq_iff m.socket_file "", named, e)),
          )
          | inr unnamed ↦ inr (
            by_monitor m,
            rw (get_checks_manager, runs) (rw (done, unnamed) refl),
            (i, inr (ground (arith, eq_iff m.socket_file "", unnamed))),
          )
        ]
      ]
    ]
