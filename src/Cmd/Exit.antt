-- ===== src/Cmd/Exit.antt =====
-- How a process of the command line ends: `Exit` of utils/file_accessor.go, `runCheckCommandAndExit`
-- and `unimplementedCommand` of cmd/common.go with the commands that they serve, the command `version`
-- of cmd/version.go, and main.go.
pub mod Laws
use Prim.Native.String.{◌++◌ as ◌+++◌}
use gonit.Base.{
  ℤ, pos, negsuc, is_zero, String, Bool, not, Option, none, some, List, Outcome, returns,
  if◌then◌else◌, same_text,
}
use gonit.Base.Trim.{trim_space}
use gonit.Cmd.{ChecksManager, run_check_command, validated}
use gonit.Pid.{show_int}

-- `exitValue`
pub record ExitValue : Type 0 where
  pub code : ℤ
  pub reason : String

-- Its `String`.
abbrev pub exit_text : ExitValue → String
exit_text ev = "code(" +++ show_int ev.code +++ "): " +++ ev.reason

-- The end of a process: the code with what is printed on the standard output and the standard error; a
-- panic with a value; or a nil error that is asked for its text.
pub data End : Type 0 where
  exited : ℤ → String → String → End
  panicked : ExitValue → End
  nil_error : End

-- `Println`, left out for an empty text.
abbrev pub line_of : String → String
line_of s = if same_text s "" then "" else s +++ "\n"

-- The method `Exit`.
unfoldable pub exit_by : ExitValue → End
exit_by ev =
    if is_zero ev.code
    then exited ev.code (line_of ev.reason) ""
    else exited ev.code "" (line_of ev.reason)

-- `Exit` with the text of its reason; `do_not_exit` is set by tests alone.
unfoldable pub exit : Bool → ℤ → String → End
exit do_not_exit code reason =
    let ev : ExitValue = record { code = code; reason = reason } in
    if do_not_exit then panicked ev else exit_by ev

unfoldable pub abort : Bool → String → End
abort do_not_exit msg = exit do_not_exit (pos 1) msg

unfoldable pub unimplemented_command : Bool → String → List String → End
unimplemented_command do_not_exit name args =
    exit do_not_exit (pos 1) (name +++ " not implemented!")

-- `validate`, the only command without an implementation.
abbrev pub validate_command : Bool → List String → End
validate_command do_not_exit args = unimplemented_command do_not_exit "validate" args

module _ (M : Type 0) where
  -- The error's text where the code is not 0.
  exit_with : Bool → String → ℤ → Option String → End
  exit_with do_not_exit msg code err =
      if not (is_zero code)
      then elim err [ none ↦ nil_error | some why ↦ exit do_not_exit code why ]
      else exit do_not_exit code msg

  -- On the manager that `getChecksManager` gives.
  unfoldable pub run_check_command_and_exit :
      Bool → ChecksManager M → String → List String → M → End × M
  unfolding exit_with
  run_check_command_and_exit do_not_exit cm cmd args s =
      let (msg, code, err, s') = run_check_command M cm cmd args s in
      (exit_with do_not_exit msg code err, s')

  -- The commands `start`, `stop`, `restart`, `monitor` and `unmonitor`.
  unfoldable pub check_command :
      Bool → ChecksManager M → String → M → List String → Outcome (End × M)
  check_command do_not_exit cm cmd s args =
      validated cmd 0 1 (λ args. returns (run_check_command_and_exit do_not_exit cm cmd args s))
        args

pub record Version : Type 0 where
  pub version : String
  pub build_date : String
  pub commit : String

unfoldable pub set_version_information : String → String → String → Version
set_version_information v date commit_hash = record {
  version = trim_space v;
  build_date = trim_space date;
  commit = trim_space commit_hash;
}

unfoldable pub version_text : Version → String
version_text v =
    "Gonit "
    +++ v.version
    +++ "\n"
    +++ (if not (same_text v.build_date "") then "Built on: " +++ v.build_date +++ "\n" else "")
    +++ (if not (same_text v.commit "") then "Git Commit: " +++ v.commit +++ "\n" else "")

unfoldable pub version_command : Version → End
version_command v = exited (pos 0) (version_text v +++ "\n") ""

-- With the error of the command line's parser, if it has one; the command itself may have ended the
-- process before.
unfoldable pub main : (Version → Option String) → End
main execute = elim (execute (set_version_information "0.2.12" "" "")) [
  | none ↦ exited (pos 0) "" ""
  | some err ↦ exited (negsuc 0) (err +++ "\n") ""
]
