-- ===== src/Files.antt =====
-- Files and their permissions: utils/file_accessor.go, and the tests of utils/file.go.
-- A path stands for the file that the system resolves it to, so `AbsFile` is the identity here.
pub mod Access
pub mod Permissions
pub mod Secure
use Prim.Native.Nat.{bit_and, bit_xor}
use Prim.Native.String.{◌++◌ as ◌+++◌}
use gonit.Base.{
  ℕ, String, Bool, true, false, not, Option, none, some, Outcome, returns, exits, ◌==◌,
  if◌then◌else◌, same_text, ◌&&◌, is_some,
}
use gonit.Base.Table.{Table, lookup, insert, adjust}

-- What `os.Stat` says of a path, and what the file holds.
pub record Node (B : Type 0) : Type 0 where
  pub regular : Bool
  pub mode : ℕ  -- the nine permission bits
  pub uid : ℕ
  pub bytes : B

abbrev pub Disk : Type 0 → Type 0
Disk B = Table (Node B)

-- The system's part: the user, what it refuses, and `path.Dir`.
pub record Host (B : Type 0) : Type 0 where
  pub euid : ℕ
  pub deny : String → Option String  -- the error of a refused open
  pub parent : String → String
  pub empty : B  -- an empty file

-- The bits O_CREAT and O_TRUNC, and whether the file is opened for writing.
pub record Flags : Type 0 where
  pub creates : Bool
  pub truncates : Bool
  pub writes : Bool

pub record SecureFileAccessor : Type 0 where
  pub max_permissions : ℕ
  pub default_write_permissions : ℕ

abbrev pub new_secure_file_accessor : SecureFileAccessor
new_secure_file_accessor = record { max_permissions = 0o700; default_write_permissions = 0o644 }

-- `^max & 0777`, of a 32-bit `os.FileMode`
abbrev pub forbidden : ℕ → ℕ
forbidden max = bit_and (bit_xor max 0xffffffff) 0o777

module _ {B : Type 0} where
  unfoldable pub file_exists : Disk B → String → Bool
  file_exists d file = is_some (lookup file d)

  -- A file whose `os.Stat` fails, one of another user, one with a bit outside `max`.
  check_node : Host B → String → ℕ → Option (Node B) → Outcome (Unit {0})
  check_node h file max none = exits 1 ("Error checking permissions for " +++ file)
  check_node h file max (some n) =
      if not (n.uid == h.euid)
      then exits 1 ("file '" +++ file +++ "' must be owned by you.")
      else if not (bit_and (forbidden max) n.mode == 0)
      then exits 1 ("file '" +++ file +++ "' must have permissions no more than the maximum")
      else returns tt

  unfoldable pub ensure_node : Host B → Disk B → String → ℕ → Outcome (Unit {0})
  unfolding check_node
  ensure_node h d file max = check_node h file max (lookup file d)

  -- The exported functions check a file only if it is named and is there.
  unfoldable pub ensure_permissions : Host B → Disk B → String → ℕ → Outcome (Unit {0})
  ensure_permissions h d file max =
      if not (same_text file "") && file_exists d file then ensure_node h d file max else returns tt

  unfoldable pub ensure_safe_permissions : Host B → Disk B → String → Outcome (Unit {0})
  unfolding ensure_permissions
  ensure_safe_permissions h d file =
      ensure_permissions h d file new_secure_file_accessor.max_permissions

  -- `os.OpenFile` on a path that is there, or not.
  open_node : Host B → Flags → ℕ → String → Option (Node B) → Disk B → Option String × Disk B
  open_node h flags perm name none d =
      if flags.creates
      then (
        none,
        insert name (record { regular = true; mode = perm; uid = h.euid; bytes = h.empty }) d,
      )
      else (some "no such file or directory", d)
  open_node h flags perm name (some n) d =
      if flags.writes && not n.regular
      then (some "is a directory", d)
      else if flags.truncates
      then (none, adjust name (λ m. record m { bytes = h.empty }) d)
      else (none, d)

  unfoldable pub os_open : Host B → Flags → ℕ → String → Disk B → Option String × Disk B
  unfolding open_node
  os_open h flags perm name d = elim (h.deny name) [
    | some why ↦ (some why, d)
    | none ↦ open_node h flags perm name (lookup name d) d
  ]

  -- `(*SecureFileAccessor).OpenFile`
  unfoldable pub open_file :
      Host B → SecureFileAccessor → Flags → ℕ → String → Disk B → Outcome (Option String × Disk B)
  open_file h fa flags perm name d =
      if not (bit_and perm (forbidden fa.max_permissions) == 0)
      then exits 1 "Requested opening file in a too permissive mode"
      else returns (os_open h flags perm name d)

  -- The missing directory of a file that is to be created, with rights for its owner only.
  unfoldable pub make_parent : Host B → Flags → String → Disk B → Disk B
  make_parent h flags name d =
      if flags.creates && not (file_exists d (h.parent name))
      then insert (h.parent name)
          (record { regular = false; mode = 0o700; uid = h.euid; bytes = h.empty }) d
      else d

  unfoldable pub open_file_secure :
      Host B → Flags → ℕ → String → Disk B → Outcome (Option String × Disk B)
  unfolding open_file os_open
  open_file_secure h flags perm name d =
      open_file h new_secure_file_accessor flags perm name (make_parent h flags name d)
