-- ===== src/Tests/Daemons.antt =====
-- The theorems on the running program, its start and its end at concrete inputs.
use mathlib.Core.Option
use gonit.Config.Walk.{IsShallow, IsWithinStack}
use gonit.Base.{◌≡◌, ◌⊎◌, refl, true, false, Option, none, some, List, [], ◌∷◌, returns, exits, any}
use gonit.Base.Table.{Table, lookup}
use gonit.Check.Once.{initial}
use gonit.Check.{unique_id}
use gonit.Config.{Source, text, check, end}
use gonit.Daemon.Safety.{IsSound, is_terminate, run-IsSound}
use gonit.Daemon.Socket.{System, missing}
use gonit.Daemon.{
  Event, tick, request, request_all, query, acts, starts, hang_up, terminate, State, run,
}
use gonit.Database.{get}
use gonit.Database.FileStorer.{file_storer}
use gonit.Entries.{Value, entry, new_entry}
use gonit.Monitor.Load.Restart.{state_file}
use gonit.Monitor.Load.{Settings}
use gonit.Monitor.Operable.{IsOperable}
use gonit.Monitor.{Monitor}
use gonit.Registry.{find_check}
use gonit.Tests.Checks.{down, program, web_service}
use gonit.Tests.Operations.{served}
use gonit.Tests.Texts.{printer, facts}
use gonit.Tests.Setup.{storer, web, disk_check, two_checks, clock}

served-IsOperable : IsOperable storer served
unfolding two_checks find_check lookup get
served-IsOperable = record {
  well_formed = record {
    distinct = (refl, (refl, tt));
    set_up = ((true, refl), ((false, refl), tt));
    ready = ([], refl);
    idle = λ k. refl;
  };
  initialized = (
    record { flag = (true, refl); programs = ((program, refl), (program, refl)) },
    (record { flag = (false, refl); programs = tt }, tt),
  );
}

abbrev daemon : State storer
daemon = record { monitor = served; guard = initial; begun = [] }

abbrev conf : Source
conf = text (check web_service end)

conf-IsWithinStack : IsWithinStack conf
unfolding IsShallow
conf-IsWithinStack = tt

-- A round, two requests, the work of one, a reload and the end.
abbrev events : List Event
events =
    tick clock
    ∷ request "restart" "web"
    ∷ query clock printer facts "summary" none
    ∷ acts (starts down) "web"
    ∷ request_all "unmonitor"
    ∷ hang_up clock conf
    ∷ terminate
    ∷ []

run-IsSound_example :
    ((d : State storer) × (run storer events daemon ≡ returns d) × IsSound storer d)
    ⊎ ((run storer events daemon ≡ exits 0 "") × (any (is_terminate storer) events ≡ true))
run-IsSound_example =
    run-IsSound storer events daemon (tt, (tt, (tt, (tt, (tt, (conf-IsWithinStack, (tt, tt)))))))
      served-IsOperable

-- The flags as `Unmonitor` of the first check saves them.
abbrev flags : Table Value
flags =
    ("disk", entry (record (new_entry "disk") { monitored = false }))
    ∷ ("web", entry (record (new_entry "web") { monitored = false }))
    ∷ []

unfoldable off : Monitor storer
unfolding file_storer
off = record {
  checks = record web { monitored = some false } ∷ disk_check ∷ [];
  database = (
    record { db = record { storage = some flags }; file = "/var/state" },
    ("/var/state", record { regular = true; mode = 0o600; uid = 0; bytes = some (some flags) })
        ∷ ("/var", record { regular = false; mode = 0o700; uid = 0; bytes = none })
        ∷ [],
  );
  control_file = "/etc/gonitrc";
  socket_file = "";
  last_check = none;
}

abbrev settings : Settings
settings = record { state_file = "/var/state"; control_file = "/etc/gonitrc"; socket_file = "" }

abbrev system : System
system = record {
  unlink = λ p. missing;
  listen = λ p. some "address already in use";
  chmod = λ p. none;
  close = none;
}

same_text_id : unique_id web ≡ unique_id (record web { address = 1 })
same_text_id = refl
