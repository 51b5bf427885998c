-- ===== src/Pid/File.antt =====
-- `ReadPid` and `WritePid` of utils/process.go: what is read, and what is read back.
use gonit.Base.{
  ℕ, ℤ, pos, negsuc, to_int, IsInt64, to_int-IsInt64, ◌-◌, ◌^◌, ◌≤◌, ◌<◌, String, ◌≡◌, ◌⊎◌, refl,
  true, false, Option, none, some, arith, ltb, inl, inr, Option-cases, Bool-cases,
}
use gonit.Base.Decimal.{max_u64, show, parse_uint-show, parse_uint_bound, all_chars-show}
use gonit.Base.Table.{lookup}
use gonit.Base.Trim.{trim_space-digits, first_line-digits}
use gonit.Files.Access.{Access}
use gonit.Files.Secure.{os_read, write_secure, write_secure_opened}
use gonit.Files.{Node, Disk, Host, file_exists}
use gonit.Pid.{
  show_int, pid_of, parsed_pid, read_content, read_pid, validate_pid_file_path, written_pid,
  write_pid,
}

-- The decimal text of a number is a pid file that holds the number.
pub pid_of-show : (n : ℕ) → n ≤ max_u64 → pid_of (show n) ≡ some n
unfolding pid_of
pid_of-show n fits =
    let digits = all_chars-show n in
    rw
      (
        trim_space-digits (show n) digits,
        first_line-digits (show n) digits,
        trim_space-digits (show n) digits,
      )
      (parse_uint-show n fits)

module _ (h : Host String) where
  -- The file is there, the system lets the user in, and it is a regular one.
  read_back :
      (d : Disk String) (file : String) (n : Node String)
      → h.deny file ≡ none
      → lookup file d ≡ some n
      → n.regular ≡ true
      → read_pid h d file ≡ parsed_pid h d file (pid_of n.bytes)
  unfolding read_pid read_content os_read file_exists
  read_back d file n fine there plain = rw there (rw (os_read, fine) (rw plain refl))

  abbrev pub Holds : Disk String → String → ℕ → Type 0
  Holds d file n = (node : Node String) × (lookup file d ≡ some node) × (pid_of node.bytes ≡ some n)

  abbrev pub IsRead : Disk String → String → ℤ × Option String → Type 0
  IsRead d file r =
      ((n : ℕ) × (r ≡ (to_int n, none)) × (n ≤ max_u64) × Holds d file n)
      ⊎ ((why : String) × (r ≡ (negsuc 0, some why)))

  parsed_lem :
      (d : Disk String) (file : String) (node : Node String) (o : Option ℕ)
      → lookup file d ≡ some node
      → pid_of node.bytes ≡ o
      → IsRead d file (parsed_pid h d file o)
  unfolding parsed_pid
  parsed_lem d file node none there e = inr (_, refl)
  parsed_lem d file node (some n) there e =
      inl (n, refl, unfold pid_of in parse_uint_bound _ n e, (node, there, e))

  read_pid_lem : (d : Disk String) (file : String) → IsRead d file (read_pid h d file)
  unfolding read_pid read_content os_read file_exists
  read_pid_lem d file = elim (Option-cases (lookup file d)) [
    | inl missing ↦ rw missing (inr (_, refl))
    | inr (node, there) ↦ elim (Option-cases (h.deny file)) [
      | inr (why, refused) ↦ rw there (rw (os_read, refused) (inr (_, refl)))
      | inl fine ↦ elim (Bool-cases node.regular) [
        | inr folder ↦ rw there (rw (os_read, fine) (rw folder (inr (_, refl))))
        | inl plain ↦
            rw (read_back d file node fine there plain)
              (parsed_lem d file node (pid_of node.bytes) there refl)
      ]
    ]
  ]

  -- `ReadPid` gives an int of 64 bits. Without an error it is the number of 64 bits that the first
  -- line of the file holds, converted to an int; with an error it is -1.
  pub read_pid_bounds :
      (d : Disk String) (file : String)
      → IsInt64 (read_pid h d file).0 × IsRead d file (read_pid h d file)
  read_pid_bounds d file = (fits (read_pid_lem d file), read_pid_lem d file)
    where
      fits : IsRead d file (read_pid h d file) → IsInt64 (read_pid h d file).0
      fits (inl (n, e, bound, holds)) = rw e (to_int-IsInt64 n bound)
      fits (inr (why, e)) = rw e (omega arith)

  written :
      (a : Access) (file : String) (pid : ℤ) (d d' : Disk String)
      → write_pid h a file pid d ≡ (none, d')
      → write_secure h file (show_int pid) d ≡ (none, d')
  unfolding write_pid written_pid
  written a file pid d d' e = elim (Option-cases (validate_pid_file_path d a file)) [
    | inr (why, bad) ↦ absurd (ground (arith, bad, e))
    | inl fine ↦ elim (Option-cases (write_secure h file (show_int pid) d).0) [
      | inr (why, bad) ↦ absurd (ground (arith, fine, bad, e))
      | inl good ↦ ground (arith, fine, good, e)
    ]
  ]

  -- What `WritePid` has written without an error, of a pid that is not negative and less than 2^63,
  -- `ReadPid` reads back, without an error.
  pub read_pid-write_pid :
      (a : Access) (file : String) (n : ℕ) (d d' : Disk String)
      → n < 2 ^ 63
      → write_pid h a file (pos n) d ≡ (none, d')
      → read_pid h d' file ≡ (pos n, none)
  unfolding parsed_pid
  read_pid-write_pid a file n d d' small e =
      let (fine, here) = write_secure_opened h file (show n) d d' (written a file (pos n) d d' e) in
      let (node, there, plain, holds) = here in
      let fits : ltb n (2 ^ 63) ≡ true = ground arith in
      rw
        (
          read_back d' file node fine there plain,
          holds,
          pid_of-show n (omega arith),
          parsed_pid,
          fits,
        )
        refl

  -- A regular pid file that can be opened and holds just the digits of a number of at least 2^63
  -- that fits 64 bits is read as that number less 2^64, a negative pid, without an error.
  pub read_pid_wraps :
      (file : String) (n : ℕ) (d : Disk String) (node : Node String)
      → h.deny file ≡ none
      → lookup file d ≡ some node
      → node.regular ≡ true
      → node.bytes ≡ show n
      → 2 ^ 63 ≤ n
      → n ≤ max_u64
      → read_pid h d file ≡ (negsuc (max_u64 - n), none)
  unfolding parsed_pid
  read_pid_wraps file n d node fine there plain holds large fits =
      let over : ltb n (2 ^ 63) ≡ false = ground arith in
      rw (read_back d file node fine there plain, holds, pid_of-show n fits, parsed_pid, over) refl
