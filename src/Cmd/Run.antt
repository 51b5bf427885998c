-- ===== src/Cmd/Run.antt =====
-- The daemon's command of cmd/root.go, up to the running monitor, and of cmd/common.go the
-- configuration and the signals to a daemon. A disk holds texts.
pub mod Laws
use Prim.Native.String.{◌++◌ as ◌+++◌}
use gonit.Base.{
  ℕ, ◌*◌, ◌==◌, ◌&&◌, String, ◌≡◌, ◌≢◌, ◌⊎◌, refl, Bool, true, false, not, Option, none, some, List,
  [], ◌∷◌, ℤ, pos, is_zero, times, ◌||◌, Outcome, returns, exits, ◌>>=◌, ◌>>◌, if◌then◌else◌,
  same_text, arith, inl, inr, Option-cases, Bool-cases, eq_iff,
}
use gonit.Check.{second}
use gonit.Check.Service.{Env, await, check_interval}
use gonit.Files.Access.{Access, is_readable_file, is_writable_file}
use gonit.Files.{Disk, Host, file_exists, ensure_safe_permissions, ensure_permissions}
use gonit.Pid.{Kernel, read_pid, is_process_running, validate_pid_file_path}

-- `monitor.Config`
pub record Config : Type 0 where
  pub control_file : String
  pub verbose : Bool
  pub should_daemonize : Bool
  pub check_interval : ℤ
  pub pid_file : String
  pub socket_file : String
  pub state_file : String
  pub log_file : String

-- The command line; `daemonize_interval` counts seconds.
pub record Flags : Type 0 where
  pub control_file : String
  pub verbose : Bool
  pub daemonize_interval : ℤ
  pub pid_file : String
  pub state_file : String
  pub log_file : String
  pub foreground : Bool
  pub socket_file : String

-- The flags of a command line without arguments.
abbrev pub default_flags : Flags
default_flags = record {
  control_file = "/etc/gonit/gonitrc";
  verbose = false;
  daemonize_interval = pos 0;
  pid_file = "/var/run/gonit.pid";
  state_file = "/var/lib/gonit/state";
  log_file = "/var/log/gonit.log";
  foreground = false;
  socket_file = "/var/run/gonit.sock";
}

-- The environment: the working directory, `GO_DAEMON_CWD`, and `filepath.IsAbs`, `filepath.Abs` and
-- `filepath.Join`.
pub record Environment : Type 0 where
  pub cwd : String
  pub daemon_cwd : String
  pub is_abs : String → Bool
  pub abs : String → Option String
  pub join : String → String → String

module _ (env : Environment) where
  unfoldable pub abs_file_of : String → String
  abs_file_of path =
      if env.is_abs path
      then path
      else elim (env.abs path) [ none ↦ env.join "/" path | some full ↦ full ]

  unfoldable pub abs_file_from_root : String → String → String
  abs_file_from_root path root =
      if env.is_abs path
      then path
      else if same_text root ""
      then abs_file_of path
      else env.join (abs_file_of root) path

  -- `absFile` of cmd/common.go
  unfoldable pub abs_file : String → String → String
  abs_file p root = if same_text p "" then p else abs_file_from_root p root

  -- The working directory that paths are taken from.
  abbrev pub root_dir : String
  root_dir = if same_text env.daemon_cwd "" then env.cwd else env.daemon_cwd

  unfoldable pub config_of : Flags → Config
  config_of flags = record {
    control_file = flags.control_file;
    verbose = flags.verbose;
    should_daemonize = not flags.foreground;
    check_interval =
        times (if is_zero flags.daemonize_interval then pos 120 else flags.daemonize_interval)
          second;
    pid_file = abs_file flags.pid_file root_dir;
    socket_file = abs_file flags.socket_file root_dir;
    state_file = abs_file flags.state_file root_dir;
    log_file =
        if same_text flags.log_file "" || same_text flags.log_file "-"
        then flags.log_file
        else abs_file flags.log_file root_dir;
  }

  unfoldable pub get_config : Host String → Disk String → Flags → Outcome Config
  get_config h d flags =
      let c = config_of flags in
      ensure_safe_permissions h d c.control_file
      >> ensure_safe_permissions h d c.state_file
      >> (if not (same_text c.control_file "") && not (file_exists d c.control_file)
          then exits 1 ("Control file '" +++ c.control_file +++ "' does not exists")
          else returns c)

-- What `RunMonitor` does before it makes the monitor: it sends SIGHUP to the daemon that runs and
-- exits with code 0; it starts a daemon of its own; or it goes on in this process.
pub data Next : Type 0 where
  wakes : ℤ → Next
  daemonizes : Next
  goes_on : Next

module _ (h : Host String) (k : Kernel) (a : Access) (d : Disk String) where
  abbrev pub daemon_pid : Config → ℤ
  daemon_pid c = (read_pid h d c.pid_file).0

  abbrev pub is_daemon_running : Config → Bool
  is_daemon_running c = is_process_running k (daemon_pid c)

  check_socket : Config → Outcome (Unit {0})
  check_socket c =
      if same_text c.socket_file ""
      then returns tt
      else if not (is_writable_file d a c.socket_file)
      then exits 1 ("Socket file '" +++ c.socket_file +++ "' is not writable")
      else ensure_permissions h d c.socket_file 0o660

  check_files : Config → Outcome Next
  unfolding check_socket
  check_files c = do
    ensure_safe_permissions h d c.control_file
    if not (file_exists d c.control_file)
        then exits 1 ("Configuration file '" +++ c.control_file +++ "' does not exist")
        else if not (is_readable_file d a c.control_file)
        then exits 1 ("Configuration file '" +++ c.control_file +++ "' is not readable")
        else elim (validate_pid_file_path d a c.pid_file) [
          | some why ↦ exits 1 why
          | none ↦
              if not (same_text c.state_file "") && not (is_writable_file d a c.state_file)
              then exits 1 ("State file '" +++ c.state_file +++ "' is not writable")
              else (do check_socket c; returns daemonizes)
        ]

  -- The first process is the parent; the daemon that it starts goes through `RunMonitor` again.
  unfoldable pub before_start : Bool → Config → Outcome Next
  unfolding check_files
  before_start is_parent c =
      if not is_parent
      then returns goes_on
      else if is_daemon_running c
      then returns (wakes (daemon_pid c))
      else if c.should_daemonize
      then check_files c
      else returns goes_on

-- The signals to a daemon.
pub data Signal : Type 0 where
  hang_up : Signal
  terminate : Signal
  kill : Signal

-- `quitDaemon`: the signals that it sends, if the first one has an error or not, for a daemon
-- that runs at the moments that the environment says.
unfoldable pub quit_daemon : Env → Option String → List Signal
quit_daemon e none = terminate ∷ []
quit_daemon e (some why) =
    if not ((await e e.alive (5 * second)).0) then terminate ∷ kill ∷ [] else terminate ∷ []
