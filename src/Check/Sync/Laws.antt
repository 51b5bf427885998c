-- ===== src/Check/Sync/Laws.antt =====
-- The shared values of monitor/checks.go beside variables that have types.
use gonit.Base.{
  ℕ, ℤ, pos, ◌≡◌, ◌⊎◌, inl, inr, refl, Bool, true, false, Option, none, some, List, [], ◌∷◌,
  Outcome, returns, ◌>>=◌, ap, ◌∙◌, if◌then◌else◌,
}
use gonit.Check.Sync.{
  Any, nil, of_bool, of_int, of_time, free, SyncValue, to_int, value_get, value_set, bool_get,
  int_get, int_incr, time_get, take, plus_one,
}

-- The types that values are declared with.
pub data Kind : Type 0 where
  bools : Kind  -- `syncBool` and `checkState`
  ints : Kind
  times : Kind

abbrev pub Of : Kind → Type 0
Of bools = Bool
Of ints = ℤ
Of times = Option ℕ

-- The calls of methods that a value of a type has.
pub data Call : Kind → Type 0 where
  get : (k : Kind) → Call k
  set : (k : Kind) → Of k → Call k
  incr : Call ints
  take_state : Call bools

abbrev any_of : (k : Kind) → Of k → Any
any_of bools b = of_bool b
any_of ints n = of_int n
any_of times t = of_time t

-- The result of a call, if it has one.
result : {A B : Type 0} → (A → B) → Outcome (A × SyncValue) → Outcome (B × SyncValue)
result f r = do x ← r; returns (f x.0, x.1)

call_get : (k : Kind) → SyncValue → Outcome (Option (Of k) × SyncValue)
unfolding result
call_get bools sv = result some (bool_get sv)
call_get ints sv = result some (int_get sv)
call_get times sv = result some (time_get sv)

unfoldable pub call : {k : Kind} → Call k → SyncValue → Outcome (Option (Of k) × SyncValue)
unfolding result call_get
call (get k) sv = call_get k sv
call (set k v) sv = result (λ u. none) (value_set (any_of k v) sv)
call incr sv = result some (int_incr sv)
call take_state sv = result some (take sv)

unfoldable pub run :
    {k : Kind} → List (Call k) → SyncValue → Outcome (List (Option (Of k)) × SyncValue)
run [] sv = returns ([], sv)
run (c ∷ cs) sv = do r ← call c sv; rest ← run cs r.1; returns (r.0 ∷ rest.0, rest.1)

-- The same calls on a variable of the type.
unfoldable pub typed_call : {k : Kind} → Call k → Of k → Option (Of k) × Of k
typed_call (get k) v = (some v, v)
typed_call (set k w) v = (none, w)
typed_call incr n = (some (plus_one n), plus_one n)
typed_call take_state b = if b then (some false, b) else (some true, true)

unfoldable pub typed_run : {k : Kind} → List (Call k) → Of k → List (Option (Of k)) × Of k
typed_run [] v = ([], v)
typed_run (c ∷ cs) v = let (r, w) = typed_call c v in let (rs, u) = typed_run cs w in (r ∷ rs, u)

-- A shared value stands for a variable: nobody holds its lock, and it holds the variable's value, or nil
-- for the zero value of an int or a time.
abbrev pub IsValue : (k : Kind) → Of k → Any → Type 0
IsValue bools b v = v ≡ of_bool b
IsValue ints n v = (v ≡ of_int n) ⊎ ((v ≡ nil) × (n ≡ pos 0))
IsValue times t v = (v ≡ of_time t) ⊎ ((v ≡ nil) × (t ≡ none))

pub record StandsFor (k : Kind) (v : Of k) (sv : SyncValue) : Type 0 where
  pub unlocked : sv.mutex ≡ free
  pub holds : IsValue k v sv.value

free_value : Any → SyncValue
free_value v = record { mutex = free; value = v }

any_of-IsValue : (k : Kind) (v : Of k) → IsValue k v (any_of k v)
any_of-IsValue bools b = refl
any_of-IsValue ints n = inl refl
any_of-IsValue times t = inl refl

-- The next call on a free value.
call_free :
    {k : Kind} (c : Call k) (v : Of k) (a : Any)
    → IsValue k v a
    → (b : Any) × (call c (free_value a) ≡ returns ((typed_call c v).0, free_value b))
      × IsValue k (typed_call c v).1 b
unfolding call typed_call call_get result value_get value_set bool_get int_get int_incr time_get
    take to_int free_value
call_free (get bools) v a e = (of_bool v, rw e refl, refl)
call_free (get ints) v a (inl e) = (of_int v, rw e refl, inl refl)
call_free (get ints) v a (inr (e, z)) = (nil, rw (e, z) refl, inr (refl, z))
call_free (get times) v a (inl e) = (of_time v, rw e refl, inl refl)
call_free (get times) v a (inr (e, z)) = (nil, rw (e, z) refl, inr (refl, z))
call_free (set k w) v a e = (any_of k w, refl, any_of-IsValue k w)
call_free incr v a (inl e) = (of_int (plus_one v), rw e refl, inl refl)
call_free incr v a (inr (e, z)) = (of_int (plus_one v), rw (e, z) refl, inl refl)
call_free take_state true a e = (of_bool true, rw e refl, refl)
call_free take_state false a e = (of_bool true, rw e refl, refl)

run_free :
    {k : Kind} (cs : List (Call k)) (v : Of k) (a : Any)
    → IsValue k v a
    → (b : Any) × (run cs (free_value a) ≡ returns ((typed_run cs v).0, free_value b))
      × IsValue k (typed_run cs v).1 b
unfolding run typed_run
run_free [] v a e = (a, refl, e)
run_free (c ∷ cs) v a e =
    let (b, done, e') = call_free c v a e in
    let (b', rest, e'') = run_free cs (typed_call c v).1 b e' in
    (b', rw (run, done) (rw rest refl), e'')

-- Any sequence of calls of the methods that a shared value has, on one that stands for a variable of
-- its type, neither panics nor waits for a lock that it holds itself: it gives the results that the
-- same calls give on the variable, and the shared value stands for the variable then.
pub run-StandsFor :
    {k : Kind} (cs : List (Call k)) (v : Of k) (sv : SyncValue)
    → StandsFor k v sv
    → (sv' : SyncValue) × (run cs sv ≡ returns ((typed_run cs v).0, sv'))
      × StandsFor k (typed_run cs v).1 sv'
unfolding free_value
run-StandsFor cs v sv i =
    let (b, done, e) = run_free cs v sv.value i.holds in
    let released : sv ≡ free_value sv.value =
      ap (λ m. record { mutex = m; value = sv.value }) i.unlocked in
    (free_value b, ap (run cs) released ∙ done, record { unlocked = refl; holds = e })
