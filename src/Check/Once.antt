-- ===== src/Check/Once.antt =====
-- `doOnce` of monitor/checks.go: one operation at a time for each id, unless its timer expires.
-- The goroutines are in a list, in the order of their start, the latest first; an event says what
-- happens next.
pub mod Exclusion
use gonit.Base.{
  ℕ, zero, suc, ◌+◌, String, Bool, true, false, ◌&&◌, Option, none, some, List, [], ◌∷◌,
  if◌then◌else◌, same_text,
}
use gonit.Base.Table.{Table, lookup, insert}

-- A goroutine that runs the callback for an id. Its timer is armed until it fires.
pub record Operation : Type 0 where
  pub id : String
  pub armed : Bool

-- `checkStates`, and the goroutines that have not ended.
pub record Guard : Type 0 where
  pub states : Table Bool
  pub running : List Operation

abbrev pub initial : Guard
initial = record { states = []; running = [] }

-- The state of an id; a missing one is made, and says that nothing is in progress.
abbrev pub in_progress : String → Guard → Bool
in_progress id g = elim (lookup id g.states) [ none ↦ false | some b ↦ b ]

-- `Take` under the id's lock, and the start of the goroutine. The result says whether it is blocked.
unfoldable pub do_once : String → Guard → Bool × Guard
do_once id g = if in_progress id g then (true, g) else (
  false,
  record {
    states = insert id true g.states;
    running = record { id = id; armed = true } ∷ g.running;
  },
)

-- `cleanUp`
abbrev pub clean_up : String → Guard → Guard
clean_up id g = record g { states = insert id false g.states }

disarm : ℕ → List Operation → List Operation
disarm n [] = []
disarm zero (op ∷ ops) = record op { armed = false } ∷ ops
disarm (suc n) (op ∷ ops) = op ∷ disarm n ops

drop_at : ℕ → List Operation → List Operation
drop_at n [] = []
drop_at zero (op ∷ ops) = ops
drop_at (suc n) (op ∷ ops) = op ∷ drop_at n ops

unfoldable pub operation_at : ℕ → List Operation → Option Operation
operation_at n [] = none
operation_at zero (op ∷ ops) = some op
operation_at (suc n) (op ∷ ops) = operation_at n ops

-- The timer of a goroutine fires, if it is armed.
unfoldable pub expire : ℕ → Guard → Guard
unfolding disarm operation_at
expire n g = elim (operation_at n g.running) [
  | none ↦ g
  | some op ↦ if op.armed then record (clean_up op.id g) { running = disarm n g.running } else g
]

-- The callback of a goroutine returns: its timer is stopped, and it cleans up.
unfoldable pub finish : ℕ → Guard → Guard
unfolding drop_at operation_at
finish n g = elim (operation_at n g.running) [
  | none ↦ g
  | some op ↦ record (clean_up op.id g) { running = drop_at n g.running }
]

pub data Event : Type 0 where
  call : String → Event
  timer : ℕ → Event
  return : ℕ → Event

unfoldable pub step : Event → Guard → Guard
unfolding do_once expire finish
step (call id) g = (do_once id g).1
step (timer n) g = expire n g
step (return n) g = finish n g

unfoldable pub run : List Event → Guard → Guard
run [] g = g
run (e ∷ es) g = run es (step e g)
