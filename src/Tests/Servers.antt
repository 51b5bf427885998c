-- ===== src/Tests/Servers.antt =====
-- The theorems on the server and the client at concrete inputs.
use gonit.Base.{
  List, false, ℕ, String, ◌≡◌, refl, true, Option, none, some, Outcome, returns, deadlocks, panics,
  exits, ◌⊎◌, inl, inr,
}
use gonit.Base.{is_some, if◌then◌else◌, same_text, pos, [], ◌∷◌}
use gonit.Cmd.Remote.Processes.{restart, process_command, process_command_lem}
use gonit.Cmd.Remote.{flag_command, flag_command_lem}
use gonit.Monitor.Invariant.{IsWellFormed, flag_of, stored_flag}
use gonit.Base.Table.{lookup}
use gonit.Check.Once.{do_once, in_progress, initial}
use gonit.Check.{Check, Process}
use gonit.Monitor.Operations.{find_process_check}
use gonit.Monitor.{Monitor, set_flag, set_all_flags}
use gonit.Registry.{find_check}
use gonit.Server.Client.Laws.{Delivers, client_flag_all, client_flag_all_lem, one_error}
use gonit.Server.Client.{Client, Connection}
use gonit.Monitor.Flags.{set_all_flags_lem}
use gonit.Server.Routes.{serve_one-serve_one}
use gonit.Server.{
  joined, serve_all, CmdResponse, response_of, Daemon, Service, service_of, process_service,
  start_process, stop_process, restart_process, process_cb, serve_one, busy,
}
use gonit.Tests.Setup.{web, storer, two_checks, two_checks-IsWellFormed}

abbrev pub unique : Check → String
unique c = c.id

abbrev pub daemon : Daemon storer unique
daemon = record { monitor = two_checks; guard = initial; begun = [] }

abbrev sent :
    Daemon storer unique
    → Outcome (CmdResponse × Daemon storer unique)
    → (String ⊎ (ℕ × CmdResponse)) × Daemon storer unique
sent d (returns (r, d')) = (inr (200, r), d')
sent d deadlocks = (inl "timeout", d)
sent d (panics why) = (inl "connection reset", d)
sent d (exits code why) = (inl "connection reset", d)

abbrev routed_to :
    Option (Service storer unique)
    → String
    → Daemon storer unique
    → (String ⊎ (ℕ × CmdResponse)) × Daemon storer unique
routed_to none id d = (inr (404, response_of none), d)
routed_to (some s) id d = sent d (serve_one storer unique s id d)

abbrev all_routed_to :
    Option (Service storer unique)
    → Daemon storer unique
    → (String ⊎ (ℕ × CmdResponse)) × Daemon storer unique
all_routed_to none d = (inr (404, response_of none), d)
all_routed_to (some s) d = sent d (serve_all storer unique s d)

abbrev post :
    String
    → Option String
    → Daemon storer unique
    → (String ⊎ (ℕ × CmdResponse)) × Daemon storer unique
post cmd none d = all_routed_to (service_of storer unique cmd) d
post cmd (some id) d = routed_to (service_of storer unique cmd) id d

abbrev pub net : Connection CmdResponse (Daemon storer unique)
net = record { post = post; decode = λ r. inr r }

pub net-Delivers : Delivers storer unique net
net-Delivers = record {
  plain = λ id. true;
  encode = λ r. r;
  decode_encode = λ r. refl;
  routed = λ cmd id s d d' r fits route ran. rw (route, ran) refl;
  routed_all = λ cmd s d d' r route ran. rw (route, ran) refl;
}

pub web_fits : net-Delivers.plain "web" ≡ true
unfolding net-Delivers
web_fits = refl

abbrev started : Daemon storer unique
started = record {
  monitor = two_checks;
  guard = (do_once "web" initial).1;
  begun = (stop_process, "web") ∷ [];
}

stops_web :
    serve_one storer unique (process_service storer unique stop_process) "web" daemon
    ≡ returns (response_of none, started)
unfolding serve_one process_cb find_process_check find_check two_checks do_once lookup
stops_web = refl

serve_one-serve_one_example :
    (two_checks ≡ two_checks)
    × (serve_one storer unique (process_service storer unique start_process) "web" started
        ≡ returns (response_of (some (busy "web")), started))
serve_one-serve_one_example =
    serve_one-serve_one storer unique stop_process start_process "web" daemon started
      (response_of none) stops_web refl

abbrev pub client : Client (Daemon storer unique)
client = record { error = none; daemon = daemon }

-- What `UnmonitorAll` gives on the two checks.
abbrev all_off : List String × Monitor storer
all_off = let r = set_all_flags_lem storer false two_checks two_checks-IsWellFormed in (r.0, r.1)

gives_all_off : set_all_flags storer false two_checks ≡ returns all_off
gives_all_off = (set_all_flags_lem storer false two_checks two_checks-IsWellFormed).2

client_flag_all_lem_example :
    ((client_flag_all storer unique net false client).0 ≡ one_error (joined all_off.0))
    × ((client_flag_all storer unique net false client).1.daemon
        ≡ record daemon { monitor = all_off.1 })
client_flag_all_lem_example =
    client_flag_all_lem storer unique net net-Delivers false client all_off.0 all_off.1
      two_checks-IsWellFormed gives_all_off

pub web_there : find_check "web" two_checks.checks ≡ some web
unfolding find_check two_checks
web_there = refl

flag_command_lem_example :
    (why : Option String) × (m : Monitor storer) × (set_flag storer false "web" two_checks
      ≡ returns (why, m))
    × ((flag_command storer unique net false "web" client).1
        ≡ (if is_some why then pos 1 else pos 0))
    × ((flag_command storer unique net false "web" client).3.daemon ≡ record daemon { monitor = m })
    × IsWellFormed storer m
    × ((k : String)
        → flag_of storer k m
          ≡ (if same_text "web" k then some false else flag_of storer k two_checks))
    × ((k : String) → stored_flag storer k m ≡ flag_of storer k m)
flag_command_lem_example =
    flag_command_lem storer unique net net-Delivers false "web" client web web_fits refl
      two_checks-IsWellFormed web_there

process_command_lem_example :
    ((ck : Check) × (p : Process) × (find_process_check "web" two_checks.checks ≡ inr (ck, p))
      × (in_progress (unique ck) initial ≡ false)
      × ((process_command storer unique net restart "web" client).1 ≡ pos 0)
      × ((process_command storer unique net restart "web" client).3.daemon ≡ record daemon {
        guard = (do_once (unique ck) initial).1;
        begun = (restart_process, ck.id) ∷ [];
      }))
    ⊎ ((((why : String) × (find_process_check "web" two_checks.checks ≡ inl why))
          ⊎ ((ck : Check) × (p : Process) × (find_process_check "web" two_checks.checks
                ≡ inr (ck, p))
              × (in_progress (unique ck) initial ≡ true)))
        × ((process_command storer unique net restart "web" client).1 ≡ pos 1)
        × ((process_command storer unique net restart "web" client).3.daemon ≡ daemon))
process_command_lem_example =
    process_command_lem storer unique net net-Delivers restart "web" client web_fits refl
