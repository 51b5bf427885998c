-- ===== src/Cmd/Texts.antt =====
-- The commands that talk to a daemon: `status` and `summary` of cmd/status.go and cmd/summary.go,
-- `quit` and `reload` of cmd/quit.go and cmd/reload.go, and `reloadDaemon` of cmd/common.go. A command
-- that returns ends the process with code 0; what it returns is what it has printed or sent.
pub mod Laws
pub mod Whole
use Prim.Native.String.{◌++◌ as ◌+++◌}
use gonit.Base.{
  ℤ, String, Bool, not, Option, none, some, List, [], ◌∷◌, Outcome, returns, exits, ◌>>=◌, map,
  if◌then◌else◌, same_text, length, ltb,
}
use gonit.Check.Service.{Env}
use gonit.Check.{Host}
use gonit.Cmd.Manager.{Manager, by_client, by_monitor, get_checks_manager}
use gonit.Cmd.Run.{
  Config, Environment, Flags, get_config, is_daemon_running, daemon_pid, Signal, hang_up,
  quit_daemon,
}
use gonit.Config.{Source}
use gonit.Database.FileStorer.{file_storer}
use gonit.Database.{Codec}
use gonit.Entries.{Value}
use gonit.Files.Access.{Access}
use gonit.Files.{Disk}
use gonit.Files as Files
use gonit.Monitor.Summary.{Printer, Facts, status_text, summary_text}
use gonit.Monitor.{Monitor}
use gonit.Pid.{Kernel}
use gonit.Server.Client.{Client, Connection}
use gonit.Server.Texts.{Getter, client_text}

pub data Verb : Type 0 where
  status : Verb
  summary : Verb

abbrev pub name_of : Verb → String
name_of status = "status"
name_of summary = "summary"

module _ (fh : Files.Host String) (k : Kernel) (a : Access) (env : Environment) where
  abbrev pub missing : Config → String → String
  missing c what =
      "Cannot find any running daemon to " +++ what
      +++ ". If it is running, make sure you are pointing to the right pid file (" +++ c.pid_file
      +++ ")\n"

  -- The signals that the process with the number of the daemon gets.
  unfoldable pub reload_command : Flags → Disk String → Outcome (List (ℤ × Signal))
  reload_command flags d = do
    c ← get_config env fh d flags
    if is_daemon_running fh k a d c
        then returns ((daemon_pid fh k a d c, hang_up) ∷ [])
        else exits 1 (missing c "contact")

  -- With the error of SIGTERM, and the moments at which the daemon runs.
  unfoldable pub quit_command :
      Env → Option String → Flags → Disk String → Outcome (List (ℤ × Signal))
  quit_command e why flags d = do
    c ← get_config env fh d flags
    if is_daemon_running fh k a d c
        then returns (map (λ s. (daemon_pid fh k a d c, s)) (quit_daemon e why))
        else exits 1 (missing c "stop")

  -- The connection over the socket with a name, to a daemon.
  module _ (g : Codec String Value) (h : Host) (w : Printer) (facts : Facts) {B M : Type 0}
      (net : String → Connection B M) (get : String → Getter B M) where
    abbrev pub own_text : Verb → List String → Monitor (file_storer g fh) → Outcome String
    own_text status args m = status_text h w facts (file_storer g fh) args m
    own_text summary args m = summary_text h w facts (file_storer g fh) args m

    abbrev pub remote_text : Verb → List String → String → M → String
    remote_text v args socket daemon =
        (client_text (net socket) (get socket) (name_of v) args
          (record { error = none; daemon = daemon })).0

    pub text_by : Verb → List String → M → Manager g fh → Outcome String
    text_by v args daemon (by_client socket) = returns (remote_text v args socket daemon)
    text_by v args daemon (by_monitor m) = own_text v args m

    pub ask_daemon : Verb → List String → Config → Source → Disk String → M → Outcome String
    unfolding text_by
    ask_daemon v args c s d daemon =
        if not (is_daemon_running fh k a d c) then exits 1 (missing c "contact") else (do
          manager ← get_checks_manager g fh h k a c s d
          str ← text_by v args daemon manager
          if not (same_text str "")
              then returns str
              else exits 1 ("Got empty " +++ name_of v +++ " text"))

    -- The text on the standard output. The branch for a manager that is nil is left out:
    -- `getChecksManager` gives none.
    unfoldable pub text_command :
        Verb → List String → Flags → Source → Disk String → M → Outcome String
    unfolding ask_daemon
    text_command v args flags s d daemon =
        if ltb 1 (length args)
        then exits 1 "Too many arguments provided. Only an optional service name is allowed"
        else (do c ← get_config env fh d flags; ask_daemon v args c s d daemon)
