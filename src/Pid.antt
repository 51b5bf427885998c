-- ===== src/Pid.antt =====
-- Pid files and processes: utils/process.go, and what monitor/checks.go asks of them.
-- A file holds a text. The paths are those that the system resolves.
pub mod File
use Prim.Native.String.{◌++◌ as ◌+++◌}
use gonit.Base.{
  ℕ, ℤ, pos, negsuc, to_int, suc, String, Bool, true, false, not, ◌&&◌, Option, none, some,
  if◌then◌else◌,
}
use gonit.Base.Decimal.{show, parse_uint}
use gonit.Base.Table.{lookup}
use gonit.Base.Trim.{trim_space, first_line}
use gonit.Check.{Process}
use gonit.Files.Access.{Access, is_file, is_writable}
use gonit.Files.Secure.{os_read, write_secure}
use gonit.Files.{Disk, Host, file_exists}

-- `%d` of an int
abbrev pub show_int : ℤ → String
show_int (pos n) = show n
show_int (negsuc n) = "-" +++ show (suc n)

-- The number that the text of a pid file holds.
unfoldable pub pid_of : String → Option ℕ
pid_of content = parse_uint (trim_space (first_line (trim_space content)))

module _ (h : Host String) (d : Disk String) where
  parsed_pid : String → Option ℕ → ℤ × Option String
  parsed_pid file none = (
    negsuc 0,
    some (
        "Malformed pid file '" +++ file +++ "': First line must contain a positive integer number"),
  )
  parsed_pid file (some n) = (to_int n, none)

  read_content : String → Option String × Option String → ℤ × Option String
  unfolding parsed_pid
  read_content file (none, some content) = parsed_pid file (pid_of content)
  read_content file (none, none) = parsed_pid file (pid_of "")
  read_content file (some why, content) =
      (negsuc 0, some ("Error reading pid file '" +++ file +++ "': " +++ why))

  unfoldable pub read_pid : String → ℤ × Option String
  unfolding read_content
  read_pid file =
      if not (file_exists d file)
      then (negsuc 0, some ("Pid file '" +++ file +++ "' does not exist"))
      else read_content file (os_read h d file (lookup file d))

unfoldable pub validate_pid_file_path : Disk String → Access → String → Option String
validate_pid_file_path d a path =
    if file_exists d path && not (is_file d a path)
    then some ("Invalid pid file: '" +++ path +++ "' is not a file")
    else if not (is_writable d a path)
    then some ("Invalid pid file: '" +++ path +++ "' is not writable")
    else none

written_pid : String → Option String × Disk String → Option String × Disk String
written_pid file (none, d) = (none, d)
written_pid file (some why, d) =
    (some ("Failed to serialize pid file '" +++ file +++ "': " +++ why), d)

unfoldable pub write_pid :
    Host String → Access → String → ℤ → Disk String → Option String × Disk String
unfolding written_pid
write_pid h a file pid d = elim (validate_pid_file_path d a file) [
  | some why ↦ (some why, d)
  | none ↦ written_pid file (write_secure h file (show_int pid) d)
]

-- What the system answers to the signal 0.
pub data Signalled : Type 0 where
  delivered : Signalled
  not_permitted : Signalled
  failed : Signalled

-- The system's processes: whether `os.FindProcess` finds one, and the answer to the signal.
pub record Kernel : Type 0 where
  pub finds : ℤ → Bool
  pub signal : ℤ → Signalled

unfoldable pub is_process_running : Kernel → ℤ → Bool
is_process_running k pid =
    if k.finds pid
    then (elim (k.signal pid) [ delivered ↦ true | not_permitted ↦ true | failed ↦ false ])
    else false

-- `Pid`, `IsRunning` and `Status` of `ProcessCheck`.
module _ (h : Host String) (k : Kernel) (d : Disk String) where
  unfoldable pub pid : Process → ℤ
  pid p = (read_pid h d p.pid_file).0

  unfoldable pub is_running : Process → Bool
  unfolding pid
  is_running p = is_process_running k (pid p)

  unfoldable pub status : Process → String
  unfolding is_running
  status p = if is_running p then "running" else "stopped"
