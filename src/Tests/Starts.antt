-- ===== src/Tests/Starts.antt =====
-- The theorems on the start of the daemon and on its end from outside at concrete inputs.
use gonit.Config.Walk.{IsShallow, IsWithinStack}
use gonit.Base.{
  ◌*◌, ◌≡◌, ◌≢◌, ◌⊎◌, refl, String, true, Option, false, none, some, [], ◌∷◌, pos, returns,
}
use gonit.Base.{ℕ, ap, subst, Bool-cases, inl, inr, arith, same_text, if◌then◌else◌, exits}
use gonit.Base.Table.{Table, lookup}
use gonit.Cmd.Start.{settings_of}
use gonit.Config.{Source, text, check, end}
use gonit.Database.FileStorer.{file_storer}
use gonit.Database.{Codec, Decoded, decoded, malformed}
use gonit.Entries.{Value, entry, new_entry}
use gonit.Monitor.Load.Initial.{DecodesIdle, new_monitor-IsOperable}
use gonit.Monitor.Load.{new_monitor}
use gonit.Monitor.Operable.{IsOperable}
use gonit.Monitor.Update.{is_idle}
use gonit.Monitor.{Monitor}
use gonit.Tests.Setup.{web, clock}
use gonit.Check.{second}
use gonit.Check.Service.Commands.{Seen, Missed}
use gonit.Cmd.Run.{
  Config, daemonizes, is_daemon_running, before_start, terminate, kill, quit_daemon,
}
use gonit.Cmd.Run.Laws.{CanDaemonize, before_start_daemonizes, quit_daemon_lem}
use gonit.Files.Access.{
  Access, is_file, is_writable_from, is_readable, is_readable_file, is_writable_file,
}
use gonit.Files.{Disk, Host, file_exists, ensure_safe_permissions, ensure_permissions, ensure_node}
use gonit.Pid.{Kernel, failed, read_pid, is_process_running, validate_pid_file_path}
use gonit.Tests.Checks.{down}

abbrev pub texts : Host String
texts = record { euid = 0; deny = λ file. none; parent = λ file. "/run"; empty = "" }

abbrev pub access : Access
access = record { writable = λ p. true; readable = λ p. true; above = λ p. "/" ∷ [] }

abbrev kernel : Kernel
kernel = record { finds = λ p. false; signal = λ p. failed }

abbrev control_disk : Disk String
control_disk =
    ("/etc/gonitrc", record { regular = true; mode = 0o600; uid = 0; bytes = "" })
    ∷ ("/", record { regular = false; mode = 0o755; uid = 0; bytes = "" })
    ∷ []

abbrev pub gone : Option String
gone = some "no such process"

abbrev config : Config
config = record {
  control_file = "/etc/gonitrc";
  verbose = false;
  should_daemonize = true;
  check_interval = pos (120 * second);
  pid_file = "/run/gonit.pid";
  socket_file = "";
  state_file = "/var/state";
  log_file = "-";
}

daemonizes_here : before_start texts kernel access control_disk true config ≡ returns daemonizes
unfolding before_start is_process_running read_pid file_exists lookup ensure_safe_permissions
    ensure_permissions ensure_node is_readable is_readable_file is_file is_writable_from
    is_writable_file validate_pid_file_path
daemonizes_here = refl

before_start_daemonizes_example :
    (true ≡ true)
    × (is_daemon_running texts kernel access control_disk config ≡ false)
    × (config.should_daemonize ≡ true)
    × CanDaemonize texts kernel access control_disk config
before_start_daemonizes_example =
    (before_start_daemonizes texts kernel access control_disk true config).0 daemonizes_here

quit_daemon_lem_example :
    ((quit_daemon down gone ≡ terminate ∷ []) × ((gone ≡ none) ⊎ Seen down.alive (5 * second)))
    ⊎ ((quit_daemon down gone ≡ terminate ∷ kill ∷ [])
        × (gone ≢ none)
        × Missed down.alive (5 * second))
quit_daemon_lem_example = quit_daemon_lem down gone

-- A file with one text holds a database; every other one is malformed.
abbrev saved : Table Value
saved = ("web", entry (record (new_entry "web") { monitored = false })) ∷ []

abbrev pub text_codec : Codec String Value
text_codec = record {
  encode = λ s. ("web off", none);
  decode = λ b. if same_text b "web off" then decoded (some saved) else malformed "bad";
}

abbrev map_of : Decoded Value → Table Value
map_of (decoded (some t)) = t
map_of _ = []

text_codec_idle :
    (bytes : String) (t : Table Value) (k : String)
    → text_codec.decode bytes ≡ decoded (some t)
    → is_idle (lookup k t) ≡ true
unfolding lookup
text_codec_idle bytes t k e = elim (Bool-cases (same_text bytes "web off")) [
  | inl same ↦
      let whole : saved ≡ t = ap map_of (rw same at e) in
      subst (λ x. is_idle (lookup k x) ≡ true) whole (ground arith)
  | inr other ↦ absurd (ground (arith, rw other at e))
]

pub text_codec-DecodesIdle : DecodesIdle text_codec
text_codec-DecodesIdle = record { idle = text_codec_idle }

abbrev state_disk : Disk String
state_disk =
    ("/var/state", record { regular = true; mode = 0o600; uid = 0; bytes = "web off" })
    ∷ control_disk

abbrev control : Source
control = text (check web end)

control-IsWithinStack : IsWithinStack control
unfolding IsShallow
control-IsWithinStack = tt

new_monitor-IsOperable_example :
    ((file why : String) × (max : ℕ) × (ensure_permissions texts state_disk file max ≡ exits 1 why)
      × (new_monitor text_codec texts clock (settings_of config) control state_disk ≡ exits 1 why))
    ⊎ ((why : Option String) × (m : Monitor (file_storer text_codec texts)) × (new_monitor
            text_codec texts clock
            (settings_of config)
            control
            state_disk
          ≡ returns (why, m))
        × IsOperable (file_storer text_codec texts) m
        × (why ≡ none
            → (ensure_permissions texts state_disk m.socket_file 0o660 ≡ returns tt)
              × (config.socket_file ≢ "" → m.socket_file ≡ config.socket_file)))
new_monitor-IsOperable_example =
    new_monitor-IsOperable text_codec texts clock (settings_of config) control state_disk
      control-IsWithinStack text_codec-DecodesIdle
