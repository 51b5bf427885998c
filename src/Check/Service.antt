-- ===== src/Check/Service.antt =====
-- `Start`, `Stop`, `Restart` and `Perform` of `ProcessCheck` in monitor/checks.go.
-- The goroutine that runs the command is taken to set the flag before the wait behind it ends; what
-- the command does to the process is in the environment's timeline.
pub mod Commands
pub mod Tries
pub mod Keeps
use Prim.Native.String.{◌++◌ as ◌+++◌}
use gonit.Base.{
  ℕ, ◌+◌, ◌*◌, String, Bool, true, false, not, ◌&&◌, Option, none, some, List, [], ◌∷◌, Outcome,
  returns, panics, ◌>>=◌, if◌then◌else◌, ◌==◌, leb,
}
use gonit.Wait.{wait_until}
use gonit.Check.{Check, Process, Command, wait_time, is_monitored, set_monitored}

-- The process during one call, in time from its start: whether it runs, what Go picks when two
-- timers are due, the clock at the start, and when the command has ended, if it has.
pub record Env : Type 0 where
  pub alive : ℕ → Bool
  pub tick_first : ℕ → Bool
  pub now : ℕ
  pub exec_done : Option ℕ

-- 500 ms
abbrev pub check_interval : ℕ
check_interval = 500000000

abbrev pub check_max_start_tries : ℕ
check_max_start_tries = 5

-- The answer of a wait. The fuel of `wait_until` does not run out.
abbrev pub answer : Option (Bool × ℕ) → Bool × ℕ
answer none = (false, 0)
answer (some r) = r

unfoldable pub await : Env → (ℕ → Bool) → ℕ → Bool × ℕ
await e cb timeout = answer (wait_until cb e.tick_first timeout check_interval)

-- `start`: the flag, and unless the process runs already the command, with the time behind it.
start_body : Env → Check → Process → Check
start_body e c p = if e.alive 0 then set_monitored true c else record (set_monitored true c) {
  process = some (record p {
    started_at = elim e.exec_done [ none ↦ p.started_at | some t ↦ some (e.now + t) ];
  });
}

start_with : Env → Check → Process → Option Command → Outcome (Option String × Check)
start_with e c p none = panics "nil pointer"
start_with e c p (some cmd) = returns (
  if (await e e.alive (wait_time cmd)).0 then none else some ("Failed to start " +++ c.id),
  start_body e c p,
)

unfoldable pub start : Env → Check → Process → Outcome (Option String × Check)
unfolding start_with start_body await set_monitored
start e c p = start_with e c p p.start_program

-- `stop` only clears the flag of the check; the command shows in the timeline.
stop_with : Env → Check → Option Command → Outcome (Option String × Check)
stop_with e c none = panics "nil pointer"
stop_with e c (some cmd) = returns (
  if (await e (λ t. not (e.alive t)) (wait_time cmd)).0
      then none
      else some ("Failed to stop " +++ c.id),
  set_monitored false c,
)

unfoldable pub stop : Env → Check → Process → Outcome (Option String × Check)
unfolding stop_with await set_monitored
stop e c p = stop_with e c p.stop_program

-- `Restart`: the second environment is that of the start, which only a stop without error reaches.
unfoldable pub restart : Env → Env → Check → Process → Outcome (Option String × Check)
restart e e' c p = do
  stopped ← stop e c p
  elim stopped.0 [
    | some why ↦ returns (some ("Failed to restart " +++ c.id), stopped.1)
    | none ↦ do
      started ← start e' stopped.1 p
      returns (
        elim started.0 [ none ↦ none | some why ↦ some ("Failed to restart " +++ c.id) ],
        started.1,
      )
  ]

abbrev pub max_tries : Process → ℕ
max_tries p = if p.max_start_tries == 0 then check_max_start_tries else p.max_start_tries

-- The end of `Perform`: too many tries unmonitor the check and start over.
settle : Check → Process → Check
settle c p =
    if leb (max_tries p) p.start_tries_cnt
    then record (set_monitored false c) { process = some (record p { start_tries_cnt = 0 }) }
    else record c { process = some p }

-- The loop of `Perform` has the answer of `await`.
attempt : Env → Check → Process → Option Command → Outcome Check
attempt e c p none = panics "nil pointer"
attempt e c p (some cmd) =
    let r = await e e.alive (wait_time cmd) in
    returns (
      settle c (
        if r.0
        then record p { start_tries_cnt = 0; started_at = some (e.now + r.1) }
        else record p {
          start_tries_cnt = p.start_tries_cnt + 1;
          started_at = elim e.exec_done [ none ↦ p.started_at | some t ↦ some (e.now + t) ];
        }))

perform_process : Env → Check → Process → Outcome Check
perform_process e c p = do
  b ← is_monitored c
  if b && not (e.alive 0) then attempt e c p p.start_program else returns c

-- A plain check only logs.
unfoldable pub perform : Env → Check → Outcome Check
unfolding perform_process attempt settle await is_monitored set_monitored
perform e c = elim c.process [ none ↦ returns c | some p ↦ perform_process e c p ]

-- One `Perform` after the other.
unfoldable pub perform_all : List Env → Check → Outcome Check
perform_all [] c = returns c
perform_all (e ∷ es) c = do c' ← perform e c; perform_all es c'
