-- ===== src/Check/Sync.antt =====
-- The shared values of monitor/checks.go: `syncValue`, `syncBool`, `syncInt`, `syncTime` and
-- `checkState`. A value is of type `interface{}`, and its methods assert the type that it has.
pub mod Laws
use gonit.Base.{
  ℕ, zero, suc, ◌+◌, ◌%◌, ◌^◌, ℤ, pos, negsuc, Bool, true, false, Option, none, some, List, [], ◌∷◌,
  Outcome, returns, deadlocks, panics, ◌>>=◌, ◌==◌, if◌then◌else◌,
}
use gonit.Base.{to_int as int_of_bits}

-- What `interface{}` holds of the values that are kept here; `none` is the zero time.
pub data Any : Type 0 where
  nil : Any
  of_bool : Bool → Any
  of_int : ℤ → Any
  of_time : Option ℕ → Any

-- `sync.RWMutex`
pub data Mutex : Type 0 where
  free : Mutex
  read_by : ℕ → Mutex  -- one reader more than the number
  written : Mutex

pub record SyncValue : Type 0 where
  pub mutex : Mutex
  pub value : Any

-- A zero value of a struct with such a field.
abbrev pub new_value : SyncValue
new_value = record { mutex = free; value = nil }

r_lock : SyncValue → Outcome SyncValue
r_lock sv = elim sv.mutex [
  | free ↦ returns (record sv { mutex = read_by 0 })
  | read_by n ↦ returns (record sv { mutex = read_by (suc n) })
  | written ↦ deadlocks
]

r_unlock : SyncValue → Outcome SyncValue
r_unlock sv = elim sv.mutex [
  | free ↦ panics "sync: RUnlock of unlocked RWMutex"
  | read_by n ↦ returns (record sv { mutex = elim n [ zero ↦ free | suc k ↦ read_by k ] })
  | written ↦ panics "sync: RUnlock of unlocked RWMutex"
]

lock : SyncValue → Outcome SyncValue
lock sv = elim sv.mutex [
  | free ↦ returns (record sv { mutex = written })
  | read_by n ↦ deadlocks
  | written ↦ deadlocks
]

unlock : SyncValue → Outcome SyncValue
unlock sv = elim sv.mutex [
  | free ↦ panics "sync: Unlock of unlocked RWMutex"
  | read_by n ↦ panics "sync: Unlock of unlocked RWMutex"
  | written ↦ returns (record sv { mutex = free })
]

-- A part of a method between the lock and its deferred opposite.
reading : {A : Type 0} → (Any → Outcome A) → SyncValue → Outcome (A × SyncValue)
unfolding r_lock r_unlock
reading f sv = do held ← r_lock sv; a ← f held.value; freed ← r_unlock held; returns (a, freed)

writing : {A : Type 0} → (Any → Outcome (A × Any)) → SyncValue → Outcome (A × SyncValue)
unfolding lock unlock
writing f sv = do
  held ← lock sv
  r ← f held.value
  freed ← unlock (record held { value = r.1 })
  returns (r.0, freed)

unfoldable pub to_int : Any → Outcome ℤ
to_int nil = returns (pos 0)
to_int (of_int n) = returns n
to_int (of_bool b) = panics "Cannot convert to int"
to_int (of_time t) = panics "Cannot convert to int"

-- `syncValue.Get` and `syncValue.Set`
unfoldable pub value_get : SyncValue → Outcome (Any × SyncValue)
unfolding reading
value_get sv = reading returns sv

unfoldable pub value_set : Any → SyncValue → Outcome (Unit {0} × SyncValue)
unfolding writing
value_set v sv = writing (λ old. returns (tt, v)) sv

-- `v.(bool)`
as_bool : Any → Outcome Bool
as_bool (of_bool b) = returns b
as_bool nil = panics "interface conversion: interface {} is nil, not bool"
as_bool (of_int n) = panics "interface conversion: interface {} is int, not bool"
as_bool (of_time t) = panics "interface conversion: interface {} is time.Time, not bool"

unfoldable pub bool_get : SyncValue → Outcome (Bool × SyncValue)
unfolding as_bool
bool_get sv = do r ← value_get sv; b ← as_bool r.0; returns (b, r.1)

unfoldable pub int_get : SyncValue → Outcome (ℤ × SyncValue)
unfolding reading
int_get sv = reading to_int sv

-- `n++` of 64 bits
abbrev pub plus_one : ℤ → ℤ
plus_one (pos n) = int_of_bits ((n + 1) % 2 ^ 64)
plus_one (negsuc zero) = pos 0
plus_one (negsuc (suc n)) = negsuc n

increased : Any → Outcome (ℤ × Any)
increased v = do n ← to_int v; returns (plus_one n, of_int (plus_one n))

unfoldable pub int_incr : SyncValue → Outcome (ℤ × SyncValue)
unfolding writing increased
int_incr sv = writing increased sv

as_time : Any → Outcome (Option ℕ)
as_time nil = returns none
as_time (of_time t) = returns t
as_time (of_bool b) = panics "interface conversion: interface {} is bool, not time.Time"
as_time (of_int n) = panics "interface conversion: interface {} is int, not time.Time"

unfoldable pub time_get : SyncValue → Outcome (Option ℕ × SyncValue)
unfolding reading as_time
time_get sv = reading as_time sv

taken : Any → Outcome (Bool × Any)
unfolding as_bool
taken v = do b ← as_bool v; returns (if b then (false, v) else (true, of_bool true))

-- `Take` and `SetInProgressState` of `checkState`
unfoldable pub take : SyncValue → Outcome (Bool × SyncValue)
unfolding writing taken
take sv = writing taken sv

unfoldable pub set_in_progress_state : Bool → SyncValue → Outcome (Unit {0} × SyncValue)
set_in_progress_state state sv = value_set (of_bool state) sv
