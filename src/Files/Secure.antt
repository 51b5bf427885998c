-- ===== src/Files/Secure.antt =====
-- `ReadSecure` and `WriteSecure` of utils/file_accessor.go.
use Prim.Native.String.{◌++◌ as ◌+++◌}
use gonit.Base.{
  ℕ, String, ◌≡◌, refl, true, ◌||◌, Option, none, some, Outcome, returns, exits, ◌>>◌, ◌==◌,
  if◌then◌else◌, arith, eq_iff, Option-cases, Bool-cases, inl, inr,
}
use gonit.Base.Table.{lookup, adjust, lookup-insert, lookup-adjust}
use gonit.Files.{
  Node, Disk, Host, Flags, SecureFileAccessor, new_secure_file_accessor, check_node, ensure_node,
  os_open,
}

-- The flags of `os.WriteFile`.
abbrev pub write_flags : Flags
write_flags = record { creates = true; truncates = true; writes = true }

module _ {B : Type 0} where
  -- `os.WriteFile`
  os_write : Host B → B → ℕ → String → Disk B → Option String × Disk B
  os_write h content perm file d =
      let opened = os_open h write_flags perm file d in
      elim opened.0 [
        | some why ↦ (some why, opened.1)
        | none ↦ (none, adjust file (λ n. record n { bytes = content }) opened.1)
      ]

  -- `os.Chmod`, for the owner and for root.
  chmod : Host B → ℕ → String → Disk B → Option String × Disk B
  chmod h mode file d = elim (lookup file d) [
    | none ↦ (some "no such file or directory", d)
    | some n ↦
        if n.uid == h.euid || h.euid == 0
        then (none, adjust file (λ m. record m { mode = mode }) d)
        else (some "operation not permitted", d)
  ]

  -- `(*SecureFileAccessor).WriteFile`
  write_file : Host B → SecureFileAccessor → String → B → Disk B → Option String × Disk B
  unfolding os_write chmod
  write_file h fa file content d =
      let written = os_write h content fa.default_write_permissions file d in
      elim written.0 [
        | some why ↦ (some why, written.1)
        | none ↦ chmod h fa.default_write_permissions file written.1
      ]

  unfoldable pub write_secure : Host B → String → B → Disk B → Option String × Disk B
  unfolding write_file
  write_secure h file content d = write_file h new_secure_file_accessor file content d

  -- `os.ReadFile`
  unfoldable pub os_read : Host B → Disk B → String → Option (Node B) → Option String × Option B
  os_read h d file none = (some "no such file or directory", none)
  os_read h d file (some n) = elim (h.deny file) [
    | some why ↦ (some why, none)
    | none ↦ if n.regular then (none, some n.bytes) else (some "is a directory", none)
  ]

  -- `(*SecureFileAccessor).ReadFile`
  read_file : Host B → SecureFileAccessor → Disk B → String → Outcome (Option String × Option B)
  unfolding os_read
  read_file h fa d file = do
    ensure_node h d file fa.max_permissions
    returns (os_read h d file (lookup file d))

  unfoldable pub read_secure : Host B → Disk B → String → Outcome (Option String × Option B)
  unfolding read_file
  read_secure h d file = read_file h new_secure_file_accessor d file

  chmod_lem :
      (h : Host B) (mode : ℕ) (file : String) (d d' : Disk B)
      → chmod h mode file d ≡ (none, d')
      → (n : Node B) × (lookup file d ≡ some n) × (lookup file d' ≡ some (record n { mode = mode }))
  unfolding chmod
  chmod_lem h mode file d d' e = elim (Option-cases (lookup file d)) [
    | inl missing ↦ absurd (ground (arith, missing, e))
    | inr (n, there) ↦ (
      n,
      there,
      ground (
        arith,
        there,
        e,
        lookup-adjust file file (λ m. record m { mode = mode }) d,
        eq_iff file file,
      ),
    )
  ]

  -- A `WriteSecure` that gives no error leaves the content at the path, with mode 0644.
  pub write_secure_lem :
      (h : Host B) (file : String) (content : B) (d d' : Disk B)
      → write_secure h file content d ≡ (none, d')
      → (n : Node B) × (lookup file d' ≡ some n) × (n.mode ≡ 0o644) × (n.bytes ≡ content)
  unfolding write_secure write_file os_write
  write_secure_lem h file content d d' e =
      elim (Option-cases (os_open h write_flags 0o644 file d).0) [
        | inr (why, failed) ↦ absurd (ground (arith, failed, e))
        | inl opened ↦
            let d1 = (os_open h write_flags 0o644 file d).1 in
            let changed : chmod h 0o644 file (adjust file (λ n. record n { bytes = content }) d1)
                ≡ (none, d') =
              ground (arith, opened, e) in
            let (n, there, after) =
              chmod_lem h 0o644 file (adjust file (λ n. record n { bytes = content }) d1) d'
                changed in
            (
              record n { mode = 0o644 },
              after,
              refl,
              ground (
                arith,
                there,
                lookup-adjust file file (λ n. record n { bytes = content }) d1,
                eq_iff file file,
              ),
            )
      ]

  -- What an open for writing finds: the system lets the user in, and the file is a regular one.
  pub os_open_lem :
      (h : Host B) (perm : ℕ) (file : String) (d d' : Disk B)
      → os_open h write_flags perm file d ≡ (none, d')
      → (h.deny file ≡ none) × ((n : Node B) × (lookup file d' ≡ some n) × (n.regular ≡ true))
  unfolding os_open
  os_open_lem h perm file d d' e = elim (Option-cases (h.deny file)) [
    | inr (why, refused) ↦ absurd (ground (arith, refused, e))
    | inl fine ↦ (
      fine,
      elim (Option-cases (lookup file d)) [
        | inl missing ↦
            let made : Node B = record {
              regular = true;
              mode = perm;
              uid = h.euid;
              bytes = h.empty;
            } in
            (
              made,
              ground (arith, fine, missing, e, lookup-insert file file made d, eq_iff file file),
              refl,
            )
        | inr (n, there) ↦ (
          record n { bytes = h.empty },
          ground (
            arith,
            fine,
            there,
            e,
            lookup-adjust file file (λ m. record m { bytes = h.empty }) d,
            eq_iff file file,
          ),
          ground (arith, fine, there, e),
        )
      ],
    )
  ]

  -- What `WriteSecure` has written is a regular file that the user may open.
  pub write_secure_opened :
      (h : Host B) (file : String) (content : B) (d d' : Disk B)
      → write_secure h file content d ≡ (none, d')
      → (h.deny file ≡ none)
        × ((n : Node B) × (lookup file d' ≡ some n) × (n.regular ≡ true) × (n.bytes ≡ content))
  unfolding write_secure write_file os_write
  write_secure_opened h file content d d' e =
      elim (Option-cases (os_open h write_flags 0o644 file d).0) [
        | inr (why, failed) ↦ absurd (ground (arith, failed, e))
        | inl opened ↦
            let d1 = (os_open h write_flags 0o644 file d).1 in
            let d2 = adjust file (λ n. record n { bytes = content }) d1 in
            let changed : chmod h 0o644 file d2 ≡ (none, d') = ground (arith, opened, e) in
            let (fine, here) = os_open_lem h 0o644 file d d1 (ground (arith, opened)) in
            let (n1, found, plain) = here in
            let (n, there, after) = chmod_lem h 0o644 file d2 d' changed in
            let at = lookup-adjust file file (λ n. record n { bytes = content }) d1 in
            (
              fine,
              (
                record n { mode = 0o644 },
                after,
                ground (arith, there, found, plain, at, eq_iff file file),
                ground (arith, there, at, eq_iff file file),
              ),
            )
      ]

  -- The bug: what `WriteSecure` has written without an error, `ReadSecure` refuses: the process exits
  -- with code 1, since the mode 0644 lets others read.
  pub read_secure-write_secure :
      (h : Host B) (file : String) (content : B) (d d' : Disk B)
      → write_secure h file content d ≡ (none, d')
      → (why : String) × (read_secure h d' file ≡ exits 1 why)
  unfolding read_secure read_file ensure_node check_node
  read_secure-write_secure h file content d d' e =
      let (n, there, mode, _) = write_secure_lem h file content d d' e in
      elim (Bool-cases (n.uid == h.euid)) [
        | inl own ↦ (
          "file '" +++ file +++ "' must have permissions no more than the maximum",
          ground (arith, there, mode, own),
        )
        | inr other ↦
            ("file '" +++ file +++ "' must be owned by you.", ground (arith, there, other))
      ]
