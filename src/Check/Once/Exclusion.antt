-- ===== src/Check/Once/Exclusion.antt =====
-- How many goroutines of `doOnce` of monitor/checks.go run for an id.
use gonit.Base.{
  ℕ, zero, suc, ◌+◌, ◌≤◌, String, ◌≡◌, refl, true, false, ◌&&◌, some, List, [], ◌∷◌, arith,
  if◌then◌else◌, same_text, eq_iff, All, inl, inr, Option-cases, Bool-cases,
}
use gonit.Base.Table.{lookup, lookup-insert}
use gonit.Check.Once.{
  Operation, Guard, initial, in_progress, do_once, drop_at, operation_at, finish, Event, call,
  timer, return, step, run,
}

-- How many goroutines run for an id.
abbrev pub running_for : String → List Operation → ℕ
running_for id [] = 0
running_for id (op ∷ ops) = (if same_text op.id id then 1 else 0) + running_for id ops

-- How many of them have not run out of time.
abbrev pub armed_for : String → List Operation → ℕ
armed_for id [] = 0
armed_for id (op ∷ ops) = (if same_text op.id id && op.armed then 1 else 0) + armed_for id ops

-- No timer fires.
abbrev pub InTime : Event → Type 0
InTime (timer n) = ⊥
InTime _ = Unit

-- One goroutine runs for an id if its state says "in progress", and none otherwise.
abbrev pub IsExclusive : Guard → Type 0
IsExclusive g = (id : String) → running_for id g.running ≡ (if in_progress id g then 1 else 0)

running_for-drop_at :
    (id : String) (n : ℕ) (ops : List Operation) (op : Operation)
    → operation_at n ops ≡ some op
    → running_for id ops ≡ (if same_text op.id id then 1 else 0) + running_for id (drop_at n ops)
unfolding operation_at drop_at
running_for-drop_at id n [] op e = ground arith
running_for-drop_at id zero (o ∷ ops) op e = ground arith
running_for-drop_at id (suc n) (o ∷ ops) op e = ground (arith, running_for-drop_at id n ops op e)

do_once-IsExclusive : (k : String) (g : Guard) → IsExclusive g → IsExclusive (do_once k g).1
unfolding do_once
do_once-IsExclusive k g h id = elim (Bool-cases (in_progress k g)) [
  | inl busy ↦ rw busy (h id)
  | inr free ↦ rw free (ground (arith, h id, lookup-insert id k true g.states, eq_iff k id))
]

finish-IsExclusive : (n : ℕ) (g : Guard) → IsExclusive g → IsExclusive (finish n g)
unfolding finish
finish-IsExclusive n g h id = elim (Option-cases (operation_at n g.running)) [
  | inl e ↦ ground (arith, h id)
  | inr (op, e) ↦ ground (
    arith,
    h id,
    lookup-insert id op.id false g.states,
    running_for-drop_at id n g.running op e,
    eq_iff op.id id,
  )
]

step-IsExclusive : (e : Event) (g : Guard) → InTime e → IsExclusive g → IsExclusive (step e g)
unfolding step
step-IsExclusive (call id) g t h = do_once-IsExclusive id g h
step-IsExclusive (timer n) g t h = absurd t
step-IsExclusive (return n) g t h = finish-IsExclusive n g h

run_from-IsExclusive :
    (es : List Event) (g : Guard) → All InTime es → IsExclusive g → IsExclusive (run es g)
unfolding run
run_from-IsExclusive [] g t h = h
run_from-IsExclusive (e ∷ es) g t h =
    run_from-IsExclusive es (step e g) t.1 (step-IsExclusive e g t.0 h)

-- As long as no timer has fired, for every id one goroutine runs while its state says "in progress"
-- and none otherwise, so never two at once.
pub run-IsExclusive : (es : List Event) → All InTime es → IsExclusive (run es initial)
unfolding lookup
run-IsExclusive es t = run_from-IsExclusive es initial t (λ id. refl)

-- When a goroutine for an id returns, whether its timer has fired or not, the next call for the id
-- starts a new one; calls for other ids are blocked or not as before.
pub do_once-finish :
    (n : ℕ) (g : Guard) (op : Operation) (id : String)
    → operation_at n g.running ≡ some op
    → (do_once id (finish n g)).0 ≡ (if same_text op.id id then false else (do_once id g).0)
unfolding do_once finish
do_once-finish n g op id e = ground (arith, e, lookup-insert id op.id false g.states)

armed_for-drop_at :
    (id : String) (n : ℕ) (ops : List Operation) (op : Operation)
    → operation_at n ops ≡ some op
    → op.armed ≡ false
    → armed_for id (drop_at n ops) ≡ armed_for id ops
unfolding operation_at drop_at
armed_for-drop_at id n [] op e f = ground arith
armed_for-drop_at id zero (o ∷ ops) op e f = ground arith
armed_for-drop_at id (suc n) (o ∷ ops) op e f = ground (arith, armed_for-drop_at id n ops op e f)

-- The bug: when a goroutine whose timer has fired returns while another one of the same id runs in
-- time, its clean-up frees the id. The next call is not blocked, and two goroutines in time run for
-- the id.
pub finish_late :
    (n : ℕ) (g : Guard) (op : Operation)
    → operation_at n g.running ≡ some op
    → op.armed ≡ false
    → 1 ≤ armed_for op.id g.running
    → ((do_once op.id (finish n g)).0 ≡ false)
      × (2 ≤ armed_for op.id (do_once op.id (finish n g)).1.running)
unfolding do_once finish
finish_late n g op e f h =
    let freed = lookup-insert op.id op.id false g.states in
    (
      ground (arith, e, freed, eq_iff op.id op.id),
      ground (arith, e, freed, eq_iff op.id op.id, armed_for-drop_at op.id n g.running op e f),
    )
