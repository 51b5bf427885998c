-- ===== src/Check.antt =====
-- The checks of monitor/checks.go as data: `check`, and `ProcessCheck`, which embeds it.
-- Logging is left out.
pub mod Sync
pub mod Identity
pub mod Once
pub mod Parse
pub mod Initialize
pub mod Service
use Prim.Native.String.{◌++◌ as ◌+++◌}
use mathlib.Core.Option
use gonit.Base.Decimal.{show}
use gonit.Base.{
  ℕ, ℤ, pos, pos_part, is_zero, String, Bool, true, Option, none, some, Outcome, returns, panics,
  if◌then◌else◌, ◌*◌, same_text,
}

-- Durations count nanoseconds.
abbrev pub second : ℕ
second = 1000000000

pub record Command : Type 0 where
  pub cmd : String
  pub timeout : ℤ

-- The time that a command waits: a timer with a negative duration is due at once.
abbrev pub wait_time : Command → ℕ
wait_time c = pos_part c.timeout

pub record Process : Type 0 where
  pub group : String
  pub pid_file : String
  pub start_program : Option Command
  pub stop_program : Option Command
  pub started_at : Option ℕ  -- `none` is the zero time
  pub max_start_tries : ℕ
  pub start_tries_cnt : ℕ

-- `monitored` is nil until `Initialize`. The address tells two objects with one id apart.
pub record Check : Type 0 where
  pub id : String
  pub address : ℕ
  pub timeout : ℕ
  pub monitored : Option Bool
  pub process : Option Process

abbrev pub new_process : Process
new_process = record {
  group = "";
  pid_file = "";
  start_program = none;
  stop_program = none;
  started_at = none;
  max_start_tries = 0;
  start_tries_cnt = 0;
}

-- `newCheck`, which takes the new object's address from the caller
unfoldable pub new_check : ℕ → String → String → Check
new_check address id kind = record {
  id = id;
  address = address;
  timeout = 120 * second;
  monitored = none;
  process = if same_text kind "process" then some new_process else none;
}

-- `GetUniqueID`
unfoldable pub unique_id : Check → String
unique_id c = c.id +++ "-" +++ show c.address

unfoldable pub is_monitored : Check → Outcome Bool
is_monitored c = elim c.monitored [
  | none ↦ panics "interface conversion: interface is nil, not bool"
  | some b ↦ returns b
]

unfoldable pub set_monitored : Bool → Check → Check
set_monitored b c = record c { monitored = some b }

-- What the system says of a process: a test for the process of a pid file, and the time.
pub record Host : Type 0 where
  pub now : ℕ
  pub running : String → Bool

or_timeout : ℕ → Option Command → Command
or_timeout t none = record { cmd = ""; timeout = pos t }
or_timeout t (some c) = record c { timeout = if is_zero c.timeout then pos t else c.timeout }

-- `(*ProcessCheck).Initialize`, behind that of the embedded check
initialize_process : Host → ℕ → Process → Process
unfolding or_timeout
initialize_process h t p = record p {
  start_program = some (or_timeout t p.start_program);
  stop_program = some (or_timeout t p.stop_program);
  started_at = if h.running p.pid_file then some h.now else p.started_at;
}

unfoldable pub initialize : Host → Check → Check
unfolding initialize_process set_monitored
initialize h c = record (set_monitored true c) {
  process = Option.map (initialize_process h c.timeout) c.process;
}
