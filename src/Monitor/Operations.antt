-- ===== src/Monitor/Operations.antt =====
-- `Start`, `Stop` and `Restart` of monitor/monitor.go, for one check or for all: an operation of
-- `ProcessCheck` on the checks that are processes. What the system does meanwhile is in the operation.
use Prim.Native.String.{◌++◌ as ◌+++◌}
use gonit.Base.{
  ℕ, String, Bool, true, false, Option, none, some, List, [], ◌∷◌, Outcome, returns, ◌>>=◌, ◌⊎◌,
  inl, inr,
}
use gonit.Database.Storer.{Storer}
use gonit.Entries.{Value}
use gonit.Check.{Check, Process}
use gonit.Check.Service.{Env, start, stop, restart}
use gonit.Registry.{find_check, update_check}
use gonit.Monitor.{Monitor, or_nothing, not_found}
pub mod Laws

abbrev pub Operation : Type 0
Operation = Check → Process → Outcome (Option String × Check)

-- The operations, with what happens to each process.
abbrev pub starting : (String → Env) → Operation
starting env c p = start (env c.id) c p

abbrev pub stopping : (String → Env) → Operation
stopping env c p = stop (env c.id) c p

abbrev pub restarting : (String → Env) → (String → Env) → Operation
restarting env env' c p = restart (env c.id) (env' c.id) c p

abbrev pub not_process : String → String
not_process id = "Check " +++ id +++ " is not a process"

-- `findProcessCheck`: an error, or the check.
unfoldable pub find_process_check : String → List Check → String ⊎ (Check × Process)
find_process_check id checks = elim (find_check id checks) [
  | none ↦ inl (not_found id)
  | some c ↦ elim c.process [ none ↦ inl (not_process id) | some p ↦ inr (c, p) ]
]

-- A plain check is passed over.
exec_one : Operation → Check → Option Process → Outcome (Option String × Check)
exec_one op c none = returns (none, c)
exec_one op c (some p) = op c p

exec_each : Operation → List Check → Outcome (List String × List Check)
unfolding exec_one
exec_each op [] = returns ([], [])
exec_each op (c ∷ cs) = do
  r ← exec_one op c c.process
  rs ← exec_each op cs
  returns (or_nothing r.0 rs.0, r.1 ∷ rs.1)

module _ (S : Storer Value) where
  -- `findAndExecProcessCheck`
  unfoldable pub exec_process_check :
      Operation → String → Monitor S → Outcome (Option String × Monitor S)
  exec_process_check op id m = elim (find_process_check id m.checks) [
    | inl why ↦ returns (some why, m)
    | inr (c, p) ↦ do
      r ← op c p
      returns (r.0, record m { checks = update_check id (λ _. r.1) m.checks })
  ]

  -- `doMultiProcessOperation`
  unfoldable pub do_multi_process_operation :
      Operation → Monitor S → Outcome (List String × Monitor S)
  unfolding exec_each
  do_multi_process_operation op m = do
    r ← exec_each op m.checks
    returns (r.0, record m { checks = r.1 })
