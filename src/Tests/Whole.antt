-- ===== src/Tests/Whole.antt =====
-- The theorems on the commands that talk to a daemon at concrete inputs.
use Prim.Native.String.{◌++◌ as ◌+++◌}
use gonit.Config.Walk.{IsShallow, IsWithinStack}
use gonit.Base.{
  All, pos, ℕ, String, ◌≡◌, ◌≢◌, ◌≤◌, ◌⊎◌, refl, true, false, Option, none, some, List, [], ◌∷◌,
  Outcome, returns, exits, inl, inr, deadlocks, panics, arith, eq_iff, length,
}
use gonit.Base.Table.{lookup}
use gonit.Cmd.Run.{
  Environment, Flags, default_flags, Config, config_of, get_config, abs_file, abs_file_from_root,
  is_daemon_running,
}
use gonit.Cmd.Start.{init_app}
use gonit.Cmd.Texts.Laws.{PrintsOrExits, text_command_ends}
use gonit.Cmd.Texts.Whole.{summary_command_lem}
use gonit.Cmd.Texts.{summary, status, text_command}
use gonit.Config.{text, end}
use gonit.Database.FileStorer.{file_storer}
use gonit.Files.{Disk, file_exists, ensure_permissions, ensure_safe_permissions}
use gonit.Database.{new_file_database, initialize}
use gonit.Monitor.Load.{new_monitor, load}
use gonit.Monitor.{Monitor}
use gonit.Monitor.Summary.{Shows}
use gonit.Pid.{Kernel, delivered, is_process_running}
use gonit.Registry.{find_checks}
use gonit.Server.Texts.Laws.{DeliversTexts}
use gonit.Server.Texts.{Getter, text_of, serve_text}
use gonit.Server.{CmdResponse, Daemon}
use gonit.Tests.Servers.{daemon, net, unique}
use gonit.Tests.Setup.{clock, storer, two_checks, two_checks-IsWellFormed}
use gonit.Tests.Starts.{texts, access, text_codec, text_codec-DecodesIdle}
use gonit.Tests.Texts.{printer, facts}

abbrev environment : Environment
environment = record {
  cwd = "/root";
  daemon_cwd = "";
  is_abs = λ p. true;
  abs = λ p. some p;
  join = λ p q. q;
}

abbrev flags : Flags
flags = record {
  control_file = "";
  verbose = false;
  daemonize_interval = pos 0;
  pid_file = "/run/gonit.pid";
  state_file = "";
  log_file = "-";
  foreground = false;
  socket_file = "/run/gonit.sock";
}

abbrev running : Kernel
running = record { finds = λ p. true; signal = λ p. delivered }

abbrev pid_disk : Disk String
pid_disk = ("/run/gonit.pid", record { regular = true; mode = 0o600; uid = 0; bytes = "7" }) ∷ []

abbrev config : Config
config = config_of environment flags

-- The replies of a daemon that serves the texts.
abbrev replied : Outcome CmdResponse → String ⊎ (ℕ × CmdResponse)
replied (returns r) = inr (200, r)
replied deadlocks = inl "timeout"
replied (panics why) = inl "connection reset"
replied (exits code why) = inl "connection reset"

abbrev served :
    Option (List String → Monitor storer → Outcome String)
    → Option String
    → Daemon storer unique
    → String ⊎ (ℕ × CmdResponse)
served none id d = inr (404, record { success = false; msg = "" })
served (some f) id d = replied (serve_text storer clock printer facts f id d.monitor)

abbrev getter : Getter CmdResponse (Daemon storer unique)
getter = record {
  get = λ cmd id d. served (text_of storer clock printer facts cmd) id d;
  path_escape = λ s. s;
}

abbrev args : List String
args = "web" ∷ []

net-DeliversTexts : DeliversTexts storer unique clock printer facts net getter
net-DeliversTexts = record {
  fits = λ id. true;
  encode = λ r. r;
  decode_encode = λ r. refl;
  routed = λ cmd f d r route done. rw (route, done) refl;
  routed_one = λ cmd id f d r fits route done. rw (route, done) refl;
}

every_two_minutes : (config_of environment default_flags).check_interval ≡ pos 120000000000
unfolding config_of
every_two_minutes = refl

in_the_background : (config_of environment default_flags).should_daemonize ≡ true
unfolding config_of
in_the_background = refl

configured : get_config environment texts pid_disk flags ≡ returns config
unfolding get_config config_of abs_file abs_file_from_root ensure_safe_permissions
    ensure_permissions file_exists lookup
configured = refl

runs : is_daemon_running texts running access pid_disk config ≡ true
unfolding is_process_running
runs = refl

unfoldable own : Monitor (file_storer text_codec texts)
unfolding file_storer
own = record {
  checks = [];
  database = (record { db = record { storage = some [] }; file = "" }, pid_disk);
  control_file = "";
  socket_file = "/run/gonit.sock";
  last_check = none;
}

made : init_app text_codec texts clock access config (text end) pid_disk ≡ returns own
unfolding init_app own new_monitor new_file_database initialize load file_exists lookup
    ensure_safe_permissions ensure_permissions config_of abs_file abs_file_from_root file_storer
made = refl

own-has_socket : own.socket_file ≢ ""
unfolding own
own-has_socket e = ground (arith, eq_iff "/run/gonit.sock" "", e)

args_fit : All (λ id. net-DeliversTexts.fits id ≡ true) args
unfolding net-DeliversTexts
args_fit = (refl, tt)

summary_command_lem_example :
    (lines : String) × (text_command texts running access environment text_codec clock printer facts
        (λ s. net)
        (λ s. getter)
        summary
        args
        flags
        (text end)
        pid_disk
        daemon
      ≡ returns ("Uptime " +++ "1m0s" +++ "\n\n" +++ lines))
    × Shows clock printer facts (find_checks two_checks.checks args) lines
summary_command_lem_example =
    summary_command_lem texts running access environment text_codec clock printer facts storer
      unique (λ s. net) (λ s. getter) clock printer facts args flags (text end) pid_disk daemon own
      net-DeliversTexts (omega arith) args_fit configured runs made own-has_socket
      two_checks-IsWellFormed.set_up

end-IsWithinStack : IsWithinStack (text end)
unfolding IsShallow
end-IsWithinStack = tt

text_command_ends_example :
    ((why : String) × (text_command texts running access environment text_codec clock printer facts
          (λ s. net)
          (λ s. getter)
          status
          args
          flags
          (text end)
          pid_disk
          daemon
        ≡ exits 1 why))
    ⊎ ((length args ≤ 1)
        × (get_config environment texts pid_disk flags ≡ returns config)
        × PrintsOrExits texts running access environment text_codec clock printer facts
            (λ s. net)
            (λ s. getter)
            status
            args
            config
            (text end)
            pid_disk
            daemon
            (text_command texts running access environment text_codec clock printer facts
              (λ s. net)
              (λ s. getter)
              status
              args
              flags
              (text end)
              pid_disk
              daemon))
text_command_ends_example =
    text_command_ends texts running access environment text_codec clock printer facts (λ s. net)
      (λ s. getter) status args flags (text end) pid_disk daemon end-IsWithinStack
      text_codec-DecodesIdle
