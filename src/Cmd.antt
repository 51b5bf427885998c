-- ===== src/Cmd.antt =====
-- The commands of cmd/common.go: which operation of the manager a command line runs, and with which
-- exit code. The manager is the `ChecksManager` that the command is run on, the monitor or a client.
pub mod Codes
pub mod Run
pub mod Start
pub mod Manager
pub mod Remote
pub mod Texts
pub mod Exit
use Prim.Native.String.{◌++◌ as ◌+++◌}
use gonit.Base.{
  ℕ, ◌+◌, String, Bool, true, false, ◌&&◌, ◌||◌, not, Option, none, some, List, [], ◌∷◌, Outcome,
  exits, ℤ, pos, negsuc, if◌then◌else◌, same_text, length, ◌==◌, ltb,
}
use gonit.Base.Lines.{join_lines}
use gonit.Base.Table.{Table, lookup}

unfoldable pub flatten_errors : List String → Option String
flatten_errors [] = none
flatten_errors (err ∷ errs) = some (join_lines (err ∷ errs))

abbrev pub statuses : Table String
statuses =
    ("start", "Started")
    ∷ ("stop", "Stopped")
    ∷ ("restart", "Restarted")
    ∷ ("monitor", "Monitored")
    ∷ ("unmonitor", "Unmonitored")
    ∷ []

-- The status that a finished command reports; a missing one is empty.
abbrev pub status_of : String → String
status_of cmd = elim (lookup cmd statuses) [ none ↦ "" | some status ↦ status ]

-- `arg == "" || arg == "all"`
abbrev pub is_all : String → Bool
is_all arg = same_text arg "" || same_text arg "all"

-- The first argument, or "".
abbrev pub first_arg : List String → String
first_arg [] = ""
first_arg (arg ∷ args) = arg

-- The state of the manager is of type `M`.
module _ (M : Type 0) where
  pub record ChecksManager : Type 0 where
    pub start : String → M → Option String × M
    pub stop : String → M → Option String × M
    pub restart : String → M → Option String × M
    pub monitor : String → M → Option String × M
    pub unmonitor : String → M → Option String × M
    pub start_all : M → List String × M
    pub stop_all : M → List String × M
    pub restart_all : M → List String × M
    pub monitor_all : M → List String × M
    pub unmonitor_all : M → List String × M

  pub record ServiceCommand : Type 0 where
    pub cmd : String
    pub single_check_cb : String → M → Option String × M
    pub multicheck_cb : M → List String × M

  execute_single : String → String → Option String × M → String × Option String × M
  execute_single cmd arg (some why, s) =
      ("", some ("Failed to " +++ cmd +++ " " +++ arg +++ ": " +++ why), s)
  execute_single cmd arg (none, s) = (status_of cmd +++ " " +++ arg, none, s)

  execute_all : List String × M → String × Option String × M
  execute_all (errs, s) = ("", flatten_errors errs, s)

  unfoldable pub execute : ServiceCommand → String → M → String × Option String × M
  unfolding execute_single execute_all
  execute sc arg s =
      if is_all arg
      then execute_all (sc.multicheck_cb s)
      else execute_single sc.cmd arg (sc.single_check_cb arg s)

  unfoldable pub service_command : ChecksManager → String → Option ServiceCommand
  service_command cm cmd =
      if same_text cmd "start"
      then some (record { cmd = cmd; single_check_cb = cm.start; multicheck_cb = cm.start_all })
      else if same_text cmd "stop"
      then some (record { cmd = cmd; single_check_cb = cm.stop; multicheck_cb = cm.stop_all })
      else if same_text cmd "restart"
      then some (record { cmd = cmd; single_check_cb = cm.restart; multicheck_cb = cm.restart_all })
      else if same_text cmd "monitor"
      then some (record { cmd = cmd; single_check_cb = cm.monitor; multicheck_cb = cm.monitor_all })
      else if same_text cmd "unmonitor"
      then some
          (record { cmd = cmd; single_check_cb = cm.unmonitor; multicheck_cb = cm.unmonitor_all })
      else none

  code_of : Option String → ℤ
  code_of none = pos 0
  code_of (some why) = pos 1

  -- The message, the exit code, the error and the manager after it.
  unfoldable pub run_check_command :
      ChecksManager → String → List String → M → String × ℤ × Option String × M
  unfolding code_of
  run_check_command cm cmd args s = elim (service_command cm cmd) [
    | none ↦ ("", negsuc 0, some ("Unknown command " +++ cmd), s)
    | some sc ↦ let (msg, err, s') = execute sc (first_arg args) s in (msg, code_of err, err, s')
  ]

-- `newValidatedCommand`: the callback runs if the number of arguments is in range. The texts of the
-- errors leave the numbers out.
unfoldable pub validated {ℓ} :
    {A : Type ℓ} → String → ℕ → ℕ → (List String → Outcome A) → List String → Outcome A
validated name min_args max_args cb args =
    if min_args == max_args && not (length args == min_args)
    then exits 2 ("Command " +++ name +++ " requires exactly")
    else if ltb max_args (length args)
    then exits 2 ("Command " +++ name +++ " requires at most")
    else if ltb (length args) min_args
    then exits 2 ("Command " +++ name +++ " requires at least")
    else cb args
