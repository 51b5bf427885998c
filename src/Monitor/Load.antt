-- ===== src/Monitor/Load.antt =====
-- The control file in a monitor: `configLoader` of monitor/config.go, `Reload`, and the part of
-- `New` that reads the database and the control file.
pub mod Keeps
pub mod Laws
pub mod Restart
pub mod Initial
use Prim.Native.String.{◌++◌ as ◌+++◌}
use gonit.Base.{
  ℕ, String, Bool, true, false, Option, none, some, List, [], ◌∷◌, ◌++◌, Outcome, returns, ◌>>=◌,
  ◌>>◌, if◌then◌else◌, same_text,
}
use gonit.Base.Table.{Table, lookup}
use gonit.Config.{Source, Walker, Validator, new_validator, validating, parse_config_file}
use gonit.Database.FileStorer.{file_storer}
use gonit.Database.Storer.{Storer}
use gonit.Database.{Codec, new_file_database}
use gonit.Files.{Disk, ensure_permissions, ensure_safe_permissions}
use gonit.Files as Files
use gonit.Entries.{Value}
use gonit.Check.{Check, Host}
use gonit.Monitor.{Monitor, add_check}

abbrev pub refusal : String
refusal = "Refusing to reload incorrect configuration"

module _ (S : Storer Value) (h : Host) where
  -- `(*configLoader).SetNamespacedConfig`
  unfoldable pub load_namespaced : String → Table String → Monitor S → Monitor S
  load_namespaced namespace attrs m =
      if same_text namespace "httpd"
      then elim (lookup "unixsocket" attrs) [
        | none ↦ m
        | some value ↦ record m { socket_file = value }
      ]
      else m

  abbrev pub loading : Walker (Monitor S)
  loading = record {
    add_check = add_check S h;
    set_namespaced_config = load_namespaced;
    set_attribute = λ key value m. m;
  }

  -- The loop of `Reload`, which only logs an error.
  unfoldable pub add_all : List Check → Monitor S → Outcome (Monitor S)
  add_all [] m = returns m
  add_all (c ∷ cs) m = do r ← add_check S h c m; add_all cs r.1

  -- The error of `ParseConfigFile` is dropped: only the validator's flag counts.
  unfoldable pub reload : Source → Monitor S → Outcome (Option String × Monitor S)
  reload s m = do
    r ← parse_config_file validating s new_validator
    if r.1.success
        then (do m' ← add_all r.1.checks (record m { checks = [] }); returns (none, m'))
        else returns (some refusal, m)

  -- The control file is loaded if one is named.
  read_control : Source → Monitor S → Outcome (Option String × Monitor S)
  read_control s m =
      if same_text m.control_file "" then returns (none, m) else parse_config_file loading s m

  -- A socket given on the command line wins over the configured one.
  choose_socket : String → Monitor S → Monitor S
  choose_socket socket m = if same_text socket "" then m else record m { socket_file = socket }

  -- `New` behind the opening of the database: the permissions of the control file and of the socket
  -- are checked, of the latter unless the control file has an error.
  unfoldable pub load :
      {B : Type 0}
      → Files.Host B
      → Disk B
      → Source
      → String
      → Monitor S
      → Outcome (Option String × Monitor S)
  unfolding read_control choose_socket
  load fh d s socket m = do
    ensure_safe_permissions fh d m.control_file
    r ← read_control s m
    elim r.0 [
      | some why ↦ returns (some why, r.1)
      | none ↦ do
        let m' = choose_socket socket r.1
        ensure_permissions fh d m'.socket_file 0o660
        returns (none, m')
    ]

-- What `New` takes of the `Config`.
pub record Settings : Type 0 where
  pub state_file : String
  pub control_file : String
  pub socket_file : String

-- `New`: the database of the state file, whose error is only logged, and the control file.
unfoldable pub new_monitor :
    {B : Type 0} (g : Codec B Value) (fh : Files.Host B)
    → Host
    → Settings
    → Source
    → Disk B
    → Outcome (Option String × Monitor (file_storer g fh))
unfolding file_storer
new_monitor g fh h c s d = do
  opened ← new_file_database g fh c.state_file d
  load (file_storer g fh) h fh d s c.socket_file (record {
    checks = [];
    database = (opened.0, d);
    control_file = c.control_file;
    socket_file = "";
    last_check = none;
  })
