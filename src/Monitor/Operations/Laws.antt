-- ===== src/Monitor/Operations/Laws.antt =====
-- `Start`, `Stop` and `Restart` of monitor/monitor.go: the flags, and the other checks.
use mathlib.Core.Option
use gonit.Base.{
  ◌≤◌, suc, String, ◌≡◌, refl, Bool, true, false, Option, none, some, List, [], ◌∷◌, arith, returns,
  inl, inr, if◌then◌else◌, same_text, eq_iff, length, All, Option-cases, is_some,
}
use gonit.Database.Storer.{Storer}
use gonit.Entries.{Value}
use gonit.Check.{Check, Process, Command}
use gonit.Check.Service.{Env}
use gonit.Check.Service.Commands.{start_lem, stop_lem}
use gonit.Registry.{find_check, update_check, is_on, ids}
use gonit.Monitor.Invariant.{flag_of}
use gonit.Monitor.{Monitor, or_nothing, not_found}
use gonit.Monitor.Operations.{
  Operation, starting, stopping, not_process, find_process_check, exec_one, exec_each,
  exec_process_check, do_multi_process_operation,
}

abbrev pub CanStart : Process → Type 0
CanStart p = (cmd : Command) × (p.start_program ≡ some cmd)

abbrev pub CanStop : Process → Type 0
CanStop p = (cmd : Command) × (p.stop_program ≡ some cmd)

-- The operation returns for every process check of a kind, keeps its id and gives it a flag.
abbrev Sets : (Process → Type 0) → Bool → Operation → Type 0
Sets Fit b op =
    (c : Check) (p : Process)
    → Fit p
    → (why : Option String) × (c' : Check) × (op c p ≡ returns (why, c'))
      × (c'.monitored ≡ some b)
      × (c'.id ≡ c.id)

-- Every process check is of the kind.
abbrev pub AllFit : (Process → Type 0) → List Check → Type 0
AllFit Fit cs = All (λ c. (p : Process) → c.process ≡ some p → Fit p) cs

-- The flag that an operation on all processes leaves for an id.
abbrev pub flag_after : Bool → Option Check → Option Bool
flag_after b = Option.map (λ c. if is_some c.process then b else is_on c)

or_nothing-le :
    (why : Option String) (errors : List String) (cs : List Check)
    → length errors ≤ length cs
    → length (or_nothing why errors) ≤ suc (length cs)
or_nothing-le none errors cs h = omega (arith, h)
or_nothing-le (some e) errors cs h = omega (arith, h)

exec_plain :
    (op : Operation) (c : Check) (errors : List String) (cs' cs : List Check)
    → c.process ≡ none
    → exec_each op cs ≡ returns (errors, cs')
    → exec_each op (c ∷ cs) ≡ returns (errors, c ∷ cs')
unfolding exec_each exec_one
exec_plain op c errors cs' cs plain done = ground (arith, plain, done)

exec_process :
    (op : Operation) (c : Check) (p : Process) (why : Option String) (c' : Check)
    (errors : List String) (cs' cs : List Check)
    → c.process ≡ some p
    → op c p ≡ returns (why, c')
    → exec_each op cs ≡ returns (errors, cs')
    → exec_each op (c ∷ cs) ≡ returns (or_nothing why errors, c' ∷ cs')
unfolding exec_each exec_one
exec_process op c p why c' errors cs' cs has ran done = ground (arith, has, ran, done)

exec_each_lem :
    (Fit : Process → Type 0) (b : Bool) (op : Operation) (cs : List Check)
    → Sets Fit b op
    → AllFit Fit cs
    → (errors : List String) × (cs' : List Check) × (exec_each op cs ≡ returns (errors, cs'))
      × (ids cs' ≡ ids cs)
      × (length errors ≤ length cs)
      × ((k : String) → Option.map is_on (find_check k cs') ≡ flag_after b (find_check k cs))
unfolding exec_each exec_one find_check
exec_each_lem Fit b op [] sets fit = ([], [], refl, refl, omega arith, λ k. refl)
exec_each_lem Fit b op (c ∷ cs) sets fit =
    let (errors, cs', done, same, few, flags) = exec_each_lem Fit b op cs sets fit.1 in
    elim (Option-cases c.process) [
      | inl plain ↦ (
        errors,
        c ∷ cs',
        exec_plain op c errors cs' cs plain done,
        ground (arith, same),
        omega (arith, few),
        λ k. ground (arith, flags k, plain),
      )
      | inr (p, has) ↦
          let (why, c', ran, flag, kept) = sets c p (fit.0 p has) in
          (
            or_nothing why errors,
            c' ∷ cs',
            exec_process op c p why c' errors cs' cs has ran done,
            ground (arith, same, kept),
            or_nothing-le why errors cs few,
            λ k. ground (arith, flags k, kept, flag, has),
          )
    ]

find_check-put :
    (k id : String) (c c' : Check) (cs : List Check)
    → find_check id cs ≡ some c
    → c'.id ≡ c.id
    → find_check k (update_check id (λ _. c') cs)
      ≡ (if same_text id k then some c' else find_check k cs)
unfolding find_check update_check
find_check-put k id c c' [] there kept = ground (arith, there)
find_check-put k id c c' (d ∷ cs) there kept =
    ground
      (arith, there, kept, find_check-put k id c c' cs, eq_iff d.id id, eq_iff id k, eq_iff d.id k)

module _ (S : Storer Value) where
  open S use {Ready}

  -- An operation on all processes that returns for each, keeps its id and gives it a flag, does so for
  -- the monitor: the ids and the database are as before, each process has the flag, and each other
  -- check its old one.
  do_multi_process_operation_lem :
      (Fit : Process → Type 0) (b : Bool) (op : Operation) (m : Monitor S)
      → Sets Fit b op
      → AllFit Fit m.checks
      → (errors : List String) × (m' : Monitor S) × (do_multi_process_operation S op m
          ≡ returns (errors, m'))
        × (ids m'.checks ≡ ids m.checks)
        × (m'.database ≡ m.database)
        × (length errors ≤ length m.checks)
        × ((k : String) → flag_of S k m' ≡ flag_after b (find_check k m.checks))
  unfolding do_multi_process_operation
  do_multi_process_operation_lem Fit b op m sets fit =
      let (errors, cs, done, same, few, flags) = exec_each_lem Fit b op m.checks sets fit in
      (errors, record m { checks = cs }, rw done refl, same, refl, few, flags)

  -- If every process has a start program, `StartAll` returns: it leaves every process monitored
  -- and every other check, the list of ids and the database as they were.
  pub start_all_lem :
      (env : String → Env) (m : Monitor S)
      → AllFit CanStart m.checks
      → (errors : List String) × (m' : Monitor S) × (do_multi_process_operation S (starting env) m
          ≡ returns (errors, m'))
        × (ids m'.checks ≡ ids m.checks)
        × (m'.database ≡ m.database)
        × (length errors ≤ length m.checks)
        × ((k : String) → flag_of S k m' ≡ flag_after true (find_check k m.checks))
  start_all_lem env m fit = do_multi_process_operation_lem CanStart true (starting env) m sets fit
    where
      sets : Sets CanStart true (starting env)
      sets c p (cmd, has) =
          let (why, c', ran, _, on, kept) = start_lem (env c.id) c p cmd has in
          (why, c', ran, on, kept)

  -- If every process has a stop program, `StopAll` returns: it leaves every process unmonitored
  -- and every other check, the list of ids and the database as they were.
  pub stop_all_lem :
      (env : String → Env) (m : Monitor S)
      → AllFit CanStop m.checks
      → (errors : List String) × (m' : Monitor S) × (do_multi_process_operation S (stopping env) m
          ≡ returns (errors, m'))
        × (ids m'.checks ≡ ids m.checks)
        × (m'.database ≡ m.database)
        × (length errors ≤ length m.checks)
        × ((k : String) → flag_of S k m' ≡ flag_after false (find_check k m.checks))
  stop_all_lem env m fit = do_multi_process_operation_lem CanStop false (stopping env) m sets fit
    where
      sets : Sets CanStop false (stopping env)
      sets c p (cmd, has) =
          let (why, c', ran, _, off, kept) = stop_lem (env c.id) c p cmd has in
          (why, c', ran, off, kept)

  -- `Start`, `Stop` and `Restart` of the id of a process: they return what the operation returns;
  -- the check of the id is what it leaves, and every other check and the database are as before, if
  -- the operation keeps the id.
  pub exec_process_check_lem :
      (op : Operation) (id : String) (m : Monitor S) (c c' : Check) (p : Process)
      (why : Option String)
      → find_check id m.checks ≡ some c
      → c.process ≡ some p
      → op c p ≡ returns (why, c')
      → c'.id ≡ c.id
      → (m' : Monitor S) × (exec_process_check S op id m ≡ returns (why, m'))
        × (m'.database ≡ m.database)
        × ((k : String)
            → find_check k m'.checks ≡ (if same_text id k then some c' else find_check k m.checks))
  unfolding exec_process_check find_process_check
  exec_process_check_lem op id m c c' p why there has ran kept = (
    record m { checks = update_check id (λ _. c') m.checks },
    ground (arith, there, has, ran),
    refl,
    λ k. find_check-put k id c c' m.checks there kept,
  )

  -- `Start`, `Stop` and `Restart` of another id, which no check has or one that is no process, give
  -- an error and leave the monitor as it is; the operation is not run.
  pub exec_process_check_refused :
      (op : Operation) (id : String) (m : Monitor S)
      → ((c : Check) → find_check id m.checks ≡ some c → c.process ≡ none)
      → (why : String) × (exec_process_check S op id m ≡ returns (some why, m))
  unfolding exec_process_check find_process_check
  exec_process_check_refused op id m plain = elim (Option-cases (find_check id m.checks)) [
    | inl missing ↦ (not_found id, ground (arith, missing))
    | inr (c, there) ↦ (not_process id, ground (arith, there, plain c there))
  ]
