-- ===== src/Tests/Accessors.antt =====
-- The theorems on writing and reading files at concrete inputs.
use gonit.Base.{arith, pos, negsuc, false, String, ◌≡◌, refl, true, none, some, [], ◌∷◌, exits}
use gonit.Base.Table.{lookup, insert, adjust, erase}
use gonit.Files.Secure.{read_secure, write_secure, read_secure-write_secure}
use gonit.Base.Decimal.{show}
use gonit.Files.Access.{Access, is_file, is_writable_from}
use gonit.Files.{Disk, Host, os_open, file_exists}
use gonit.Pid.{read_pid, write_pid, validate_pid_file_path}
use gonit.Pid.File.{read_pid-write_pid, read_pid_wraps}
use gonit.Tests.Setup.{Bytes, host, no_files}

abbrev pid_file : String
pid_file = "/run/gonit.pid"

abbrev pid_disk : Disk Bytes
pid_disk = (pid_file, record { regular = true; mode = 0o644; uid = 0; bytes = none }) ∷ []

writes_pid : write_secure host pid_file none no_files ≡ (none, pid_disk)
unfolding write_secure os_open lookup insert adjust erase
writes_pid = refl

shows : "18446744073709551615" ≡ show 18446744073709551615
unfolding show
shows = refl

read_secure-write_secure_example :
    (why : String) × (read_secure host pid_disk pid_file ≡ exits 1 why)
read_secure-write_secure_example =
    read_secure-write_secure host pid_file none no_files pid_disk writes_pid

-- The same disk with texts.
abbrev texts : Host String
texts = record { euid = 0; deny = λ file. none; parent = λ file. "/run"; empty = "" }

abbrev access : Access
access = record { writable = λ p. true; readable = λ p. true; above = λ p. "/" ∷ [] }

abbrev root_only : Disk String
root_only = ("/", record { regular = false; mode = 0o755; uid = 0; bytes = "" }) ∷ []

abbrev with_pid : String → Disk String
with_pid pid = (pid_file, record { regular = true; mode = 0o644; uid = 0; bytes = pid }) ∷ root_only

writes_number : write_pid texts access pid_file (pos 1234) root_only ≡ (none, with_pid "1234")
unfolding write_pid validate_pid_file_path write_secure os_open lookup insert adjust erase is_file
    is_writable_from file_exists show
writes_number = refl

read_pid-write_pid_example : read_pid texts (with_pid "1234") pid_file ≡ (pos 1234, none)
read_pid-write_pid_example =
    read_pid-write_pid texts access pid_file 1234 root_only (with_pid "1234") (omega arith)
      writes_number

-- The largest number of 64 bits is the pid -1.
abbrev huge : Disk String
huge = with_pid "18446744073709551615"

has_huge :
    lookup pid_file huge
    ≡ some (record { regular = true; mode = 0o644; uid = 0; bytes = "18446744073709551615" })
unfolding lookup
has_huge = refl

read_pid_wraps_example : read_pid texts huge pid_file ≡ (negsuc 0, none)
read_pid_wraps_example =
    read_pid_wraps texts pid_file 18446744073709551615 huge
      (record { regular = true; mode = 0o644; uid = 0; bytes = "18446744073709551615" }) refl
      has_huge refl shows (omega arith) (omega arith)
