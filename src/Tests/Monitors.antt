-- ===== src/Tests/Monitors.antt =====
-- The theorems on the monitor at concrete inputs.
use mathlib.Core.Option
use gonit.Config.Walk.{IsShallow, IsWithinStack}
use gonit.Base.{
  String, ◌≡◌, refl, true, false, Option, none, some, List, [], ◌∷◌, returns, arith, eq_iff, ◌%◌,
  ◌↔◌,
}
use gonit.Base.Table.{lookup}
use gonit.Check.{Check, new_check}
use gonit.Config.{
  Source, text, refused, end, check, validate_check, parse_config, parse_config_file,
}
use gonit.Files.Permissions.{ensure_safe_permissions_lem}
use gonit.Files.{Node, Disk, ensure_safe_permissions}
use gonit.Monitor.Add.{add_check_lem}
use gonit.Monitor.Flags.{set_flag_lem, set_all_flags_lem}
use gonit.Monitor.Invariant.{IsWellFormed, flag_of}
use gonit.Check.Initialize.{AreKept}
use gonit.Monitor.Load.Laws.{reload_accepted, reload-IsWellFormed, reload_unreadable}
use gonit.Monitor.Load.{reload}
use gonit.Monitor.Update.{update_database_lem, recorded}
use gonit.Monitor.{Monitor, update_database, add_check, set_flag, set_all_flags}
use gonit.Registry.{find_check, ids}
use gonit.Tests.Setup.{Bytes, host, storer, web, two_checks, two_checks-IsWellFormed, clock}

abbrev job : Check
job = new_check 3 "job" "process"

abbrev conf : Source
conf = text (check web (check job end))

conf-IsWithinStack : IsWithinStack conf
unfolding IsShallow
conf-IsWithinStack = tt

update_database_lem_example :
    (why : Option String) × (s : _) × (update_database storer two_checks.checks two_checks.database
      ≡ returns (why, s))
    × ((k : String)
        → storer.get s k
          ≡ Option.map
              (λ c. recorded c (storer.get two_checks.database k))
              (find_check k two_checks.checks))
    × storer.Ready s
update_database_lem_example =
    update_database_lem storer two_checks.checks two_checks.database
      two_checks-IsWellFormed.distinct two_checks-IsWellFormed.set_up two_checks-IsWellFormed.ready
      (λ k _. two_checks-IsWellFormed.idle k)

add_check_lem_example :
    (m : Monitor storer) × (add_check storer clock job two_checks ≡ returns (none, m))
    × IsWellFormed storer m
unfolding two_checks find_check new_check
add_check_lem_example =
    let (m, done, w, _, _, _) =
      add_check_lem storer clock job two_checks two_checks-IsWellFormed refl in
    (m, done, w)

set_flag_lem_example :
    (why : Option String) × (m : Monitor storer) × (set_flag storer false "web" two_checks
      ≡ returns (why, m))
    × (flag_of storer "web" m ≡ some false)
unfolding two_checks find_check
set_flag_lem_example =
    let (why, m, done, _, flags, _) =
      set_flag_lem storer false "web" two_checks web two_checks-IsWellFormed refl in
    (why, m, done, flags "web")

set_all_flags_lem_example :
    (errors : List String) × (m : Monitor storer) × (set_all_flags storer true two_checks
      ≡ returns (errors, m))
    × (flag_of storer "disk" m ≡ some true)
unfolding two_checks find_check
set_all_flags_lem_example =
    let (errors, m, done, _, _, flags, _, _) =
      set_all_flags_lem storer true two_checks two_checks-IsWellFormed in
    (errors, m, done, flags "disk")

reload_accepted_example :
    (m : Monitor storer) × (reload storer clock conf two_checks ≡ returns (none, m))
    × (ids m.checks ≡ "web" ∷ "job" ∷ [])
    × AreKept clock (web ∷ job ∷ []) m.checks
unfolding parse_config_file parse_config validate_check find_check new_check
reload_accepted_example =
    let (m, done, _, same, kept, _) =
      reload_accepted storer clock conf two_checks none
        (record { settings = []; success = true; checks = web ∷ job ∷ [] }) two_checks-IsWellFormed
        refl refl in
    (m, done, same, kept)

reload-IsWellFormed_example :
    (why : Option String) × (m : Monitor storer) × (reload storer clock conf two_checks
      ≡ returns (why, m))
    × IsWellFormed storer m
reload-IsWellFormed_example =
    let (why, m, done, w, _) =
      reload-IsWellFormed storer clock conf two_checks conf-IsWithinStack two_checks-IsWellFormed in
    (why, m, done, w)

-- A control file that its owner alone can read and write.
abbrev gonitrc : Node Bytes
gonitrc = record { regular = true; mode = 0o600; uid = 0; bytes = none }

abbrev control : Disk Bytes
control = ("/etc/gonit", gonitrc) ∷ []

abbrev socket : String
socket = "/run/gonit.sock"

has_control : lookup "/etc/gonit" control ≡ some gonitrc
unfolding lookup
has_control = refl

ensure_safe_permissions_lem_example :
    (ensure_safe_permissions host control "/etc/gonit" ≡ returns tt)
    ↔ ((gonitrc.uid ≡ host.euid) × (gonitrc.mode % 64 ≡ 0))
ensure_safe_permissions_lem_example =
    ensure_safe_permissions_lem host control "/etc/gonit" gonitrc
      (ground (arith, eq_iff "/etc/gonit" "")) has_control (omega arith)

reload_unreadable_example :
    reload storer clock (refused "permission denied") two_checks
    ≡ returns (none, record two_checks { checks = [] })
reload_unreadable_example = reload_unreadable storer clock "permission denied" two_checks
