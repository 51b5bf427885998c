-- ===== src/Server.antt =====
-- The HTTP interface to the monitor: the routes of monitor/server.go and the client of
-- monitor/client.go. The router, the connection and encoding/json are parameters of the client; the
-- routes for the texts of status and summary are in Server/Texts. Daemon/Socket starts and stops the
-- server.
pub mod Client
pub mod Flags
pub mod Routes
pub mod Keeps
pub mod Texts
use Prim.Native.String.{◌++◌ as ◌+++◌}
use gonit.Base.{
  ℕ, String, Bool, true, false, not, Option, none, some, List, [], ◌∷◌, Outcome, returns, ◌>>=◌,
  if◌then◌else◌, is_some, ◌||◌, same_text, ◌⊎◌, inl, inr,
}
use gonit.Check.{Check}
use gonit.Check.Once.{Guard, do_once}
use gonit.Base.Lines.{join_lines}
use gonit.Database.Storer.{Storer}
use gonit.Entries.{Value}
use gonit.Monitor.Operations.{find_process_check}
use gonit.Monitor.{Monitor, not_found, or_nothing, flag_check}
use gonit.Registry.{find_check}

-- `cmdResponse`
pub record CmdResponse : Type 0 where
  pub success : Bool
  pub msg : String

abbrev pub response_of : Option String → CmdResponse
response_of none = record { success = true; msg = "" }
response_of (some why) = record { success = false; msg = why }

-- The text of no error, or of some, a line for each.
abbrev pub joined : List String → Option String
joined [] = none
joined (msg ∷ msgs) = some (join_lines (msg ∷ msgs))

abbrev pub busy : String → String
busy id = "[" +++ id +++ "] Other action already in progress -- please try again later"

-- `startProcess`, `stopProcess` and `restartProcess`
pub data ProcessOperation : Type 0 where
  start_process : ProcessOperation
  stop_process : ProcessOperation
  restart_process : ProcessOperation

-- The commands of the process operations, as `createServer` lists them.
abbrev pub process_operation : String → Option ProcessOperation
process_operation cmd =
    if same_text cmd "start"
    then some start_process
    else if same_text cmd "stop"
    then some stop_process
    else if same_text cmd "restart"
    then some restart_process
    else none

module _ (S : Storer Value) (unique_id : Check → String) where
  -- The monitor, the states of `doOnce`, and the operations that requests have begun, each with the
  -- id of its check, the latest one first. The goroutine of the callback calls the operation.
  pub record Daemon : Type 0 where
    pub monitor : Monitor S
    pub guard : Guard
    pub begun : List (ProcessOperation × String)

  -- A service command: the callback of its route, and the checks that its loop passes over.
  pub record Service : Type 0 where
    pub cb : String → Daemon → Outcome (Option String × Daemon)
    pub should_skip : Check → Bool

  -- `start`, `stop` and `restart`: the operation goes on in a goroutine of `doOnce`.
  unfoldable pub process_cb : ProcessOperation → String → Daemon → Outcome (Option String × Daemon)
  process_cb op id d = elim (find_process_check id d.monitor.checks) [
    | inl why ↦ returns (some why, d)
    | inr (c, p) ↦
        let (blocked, guard) = do_once (unique_id c) d.guard in
        returns (
          if blocked then some (busy id) else none,
          record d { guard = guard; begun = if blocked then d.begun else (op, c.id) ∷ d.begun },
        )
  ]

  -- `monitor` and `unmonitor`
  unfoldable pub flag_cb : Bool → String → Daemon → Outcome (Option String × Daemon)
  flag_cb b id d = elim (find_check id d.monitor.checks) [
    | none ↦ returns (some (not_found id), d)
    | some c ↦ do r ← flag_check S b c.id d.monitor; returns (r.0, record d { monitor = r.1 })
  ]

  abbrev pub process_service : ProcessOperation → Service
  process_service op = record { cb = process_cb op; should_skip = λ c. not (is_some c.process) }

  abbrev pub flag_service : Bool → Service
  flag_service b = record { cb = flag_cb b; should_skip = λ c. false }

  -- `POST /<command>/:service`
  unfoldable pub serve_one : Service → String → Daemon → Outcome (CmdResponse × Daemon)
  serve_one s id d = do r ← s.cb id d; returns (response_of r.0, r.1)

  -- `POST /<command>_all`: the loop, over the checks as they are when it starts.
  serve_each : Service → List Check → Daemon → Outcome (List String × Daemon)
  serve_each s [] d = returns ([], d)
  serve_each s (c ∷ cs) d =
      if s.should_skip c
      then serve_each s cs d
      else (do r ← s.cb c.id d; rs ← serve_each s cs r.1; returns (or_nothing r.0 rs.0, rs.1))

  unfoldable pub serve_all : Service → Daemon → Outcome (CmdResponse × Daemon)
  unfolding serve_each
  serve_all s d = do r ← serve_each s d.monitor.checks d; returns (response_of (joined r.0), r.1)

  -- The commands that the server has routes for.
  abbrev pub service_of : String → Option Service
  service_of cmd = elim (process_operation cmd) [
    | some op ↦ some (process_service op)
    | none ↦
        if same_text cmd "monitor"
        then some (flag_service true)
        else if same_text cmd "unmonitor"
        then some (flag_service false)
        else none
  ]
