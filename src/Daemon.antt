-- ===== src/Daemon.antt =====
-- The running program: `LoopForever` of monitor/monitor.go, the signals of cmd/root.go, the requests
-- of monitor/server.go, and the goroutines that they start, as a sequence of events.
-- One event happens after the other: two calls that the goroutines of the program make at the same
-- time are taken in either order, each as a whole.
pub mod Safety
pub mod Socket
use gonit.Base.{
  ℕ, String, Bool, true, false, Option, none, some, List, [], ◌∷◌, Outcome, returns, exits, ◌>>=◌,
}
use gonit.Check.Once.{Guard, do_once, expire, finish}
use gonit.Check.Service.{Env, perform, start, stop, restart}
use gonit.Check.{Check, Process, Host, unique_id}
use gonit.Config.{Source}
use gonit.Database.Storer.{Storer}
use gonit.Entries.{Value}
use gonit.Monitor.Load.{reload}
use gonit.Monitor.{Monitor, perform as perform_all, update_database}
use gonit.Registry.{find_check, update_check}
use gonit.Monitor.Summary.{Printer, Facts}
use gonit.Server.Texts.{text_of, serve_text}
use gonit.Server.{Daemon, Service, service_of, serve_one, serve_all}

-- What a goroutine of `doOnce` does to its check, and what happens to the process meanwhile.
pub data Activity : Type 0 where
  performs : Env → Activity
  starts : Env → Activity
  stops : Env → Activity
  restarts : Env → Env → Activity

on_process : (Process → Outcome (Option String × Check)) → Check → Option Process → Outcome Check
on_process op c none = returns c
on_process op c (some p) = do r ← op p; returns r.1

-- A check of another kind has no such operation.
unfoldable pub act : Activity → Check → Outcome Check
unfolding on_process
act (performs e) c = perform e c
act (starts e) c = on_process (start e c) c c.process
act (stops e) c = on_process (stop e c) c c.process
act (restarts e e') c = on_process (restart e e' c) c c.process

-- `tick` is the goroutine of a round of `LoopForever`; `request` and `request_all` are
-- `POST /<command>/<service>` and `POST /<command>_all`; `query` is `GET /<text>/<service>` or, without
-- one, `GET /<text>`, for the texts of status and summary; `acts` is the work of a goroutine on the
-- check with an id, which is not seen if the check is no longer registered; `expires` and `ends` are
-- the timer and the end of a goroutine of `doOnce`; `hang_up` is SIGHUP, and `terminate` SIGINT and
-- SIGTERM.
pub data Event : Type 0 where
  tick : Host → Event
  request : String → String → Event
  request_all : String → Event
  query : Host → Printer → Facts → String → Option String → Event
  acts : Activity → String → Event
  expires : ℕ → Event
  ends : ℕ → Event
  hang_up : Host → Source → Event
  terminate : Event

module _ (S : Storer Value) where
  abbrev pub State : Type 0
  State = Daemon S unique_id

  -- `CheckOnce`, for the checks that are due.
  abbrev pub check_each : List Check → Guard → Guard
  check_each [] g = g
  check_each (c ∷ cs) g = check_each cs (do_once (unique_id c) g).1

  -- The body of the loop of `LoopForever`. The error of `UpdateDatabase` is only logged.
  unfoldable pub round : Host → State → Outcome State
  round h d = do
    performed ← perform_all S h d.monitor
    let m = performed.1
    saved ← update_database S m.checks m.database
    returns (record {
      monitor = record m { database = saved.1 };
      guard = check_each performed.0 d.guard;
      begun = d.begun;
    })

  unfoldable pub acted : Activity → String → State → Outcome State
  unfolding act
  acted a id d = elim (find_check id d.monitor.checks) [
    | none ↦ returns d
    | some c ↦ do
      c' ← act a c
      returns (record d {
        monitor = record d.monitor { checks = update_check id (λ _. c') d.monitor.checks };
      })
  ]

  -- A request that no route is for changes nothing.
  served :
      Option (Service S unique_id) → (Service S unique_id → Outcome State) → State → Outcome State
  served none f d = returns d
  served (some s) f d = f s

  unfoldable pub handle : Event → State → Outcome State
  unfolding round acted served
  handle (tick h) d = round h d
  handle (request cmd id) d =
      served (service_of S unique_id cmd) (λ s. do r ← serve_one S unique_id s id d; returns r.1) d
  handle (request_all cmd) d =
      served (service_of S unique_id cmd) (λ s. do r ← serve_all S unique_id s d; returns r.1) d
  handle (query h w facts cmd id) d = elim (text_of S h w facts cmd) [
    | none ↦ returns d
    | some text ↦ do r ← serve_text S h w facts text id d.monitor; returns d
  ]
  handle (acts a id) d = acted a id d
  handle (expires n) d = returns (record d { guard = expire n d.guard })
  handle (ends n) d = returns (record d { guard = finish n d.guard })
  handle (hang_up h s) d = do r ← reload S h s d.monitor; returns (record d { monitor = r.1 })
  handle terminate d = exits 0 ""

  unfoldable pub run : List Event → State → Outcome State
  run [] d = returns d
  run (e ∷ es) d = do d' ← handle e d; run es d'
