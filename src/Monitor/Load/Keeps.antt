-- ===== src/Monitor/Load/Keeps.antt =====
-- The reading of the control file in `New` of monitor/monitor.go, with any property that adding a
-- check and setting the socket keep.
use gonit.Base.{
  String, ◌≢◌, ◌⊎◌, ◌≡◌, refl, Option, none, some, List, [], ◌∷◌, arith, returns, exits, ℕ,
  same_text, eq_iff, inl, inr, Option-cases, Bool-cases,
}
use gonit.Base.Table.{Table, lookup}
use gonit.Config.{Source}
use gonit.Config.Walk.{IsWithinStack, parse_config_file-Ends}
use gonit.Database.Storer.{Storer}
use gonit.Files.Permissions.{ensure_permissions_ends}
use gonit.Files.{Disk, ensure_permissions, ensure_safe_permissions}
use gonit.Files as Files
use gonit.Entries.{Value}
use gonit.Check.{Check, Host}
use gonit.Config.Validation.{validation_IsDistinct}
use gonit.Monitor.Load.{
  refusal, add_all, reload, load_namespaced, loading, load, read_control, choose_socket,
}
use gonit.Monitor.{Monitor, add_check}

module _ (S : Storer Value) (h : Host) (I : Monitor S → Type 0) where
  -- `AddCheck` ends and keeps the property, whether it adds the check or refuses it.
  abbrev pub AddKeeps : Type 0
  AddKeeps =
      (c : Check) (m : Monitor S)
      → I m
      → (why : Option String) × (m' : Monitor S) × (add_check S h c m ≡ returns (why, m')) × I m'

  abbrev pub SocketKeeps : Type 0
  SocketKeeps = (m : Monitor S) (socket : String) → I m → I (record m { socket_file = socket })

  load_namespaced-keeps :
      (namespace : String) (attrs : Table String) (m : Monitor S)
      → SocketKeeps
      → I m
      → I (load_namespaced S h namespace attrs m)
  unfolding load_namespaced
  load_namespaced-keeps namespace attrs m sockets i =
      elim (Bool-cases (same_text namespace "httpd")) [
        | inl e ↦ rw e (elim (Option-cases (lookup "unixsocket" attrs)) [
          | inl none_set ↦ rw none_set i
          | inr (value, set) ↦ rw set (sockets m value i)
        ])
        | inr e ↦ rw e i
      ]

  read_control_ends :
      (s : Source) (m : Monitor S)
      → IsWithinStack s
      → AddKeeps
      → SocketKeeps
      → I m
      → (why : Option String) × (m' : Monitor S) × (read_control S h s m ≡ returns (why, m')) × I m'
  unfolding read_control
  read_control_ends s m sh adds sockets i = elim (Bool-cases (same_text m.control_file "")) [
    | inl e ↦ (none, m, rw e refl, i)
    | inr e ↦
        let (why, m', done, i') =
          parse_config_file-Ends (loading S h) I adds
            (λ what attrs m i. load_namespaced-keeps what attrs m sockets i) (λ key value m i. i) s
            m sh i in
        (why, m', rw e done, i')
  ]

  choose_socket-keeps :
      (socket : String) (m : Monitor S) → SocketKeeps → I m → I (choose_socket S h socket m)
  unfolding choose_socket
  choose_socket-keeps socket m sockets i = elim (Bool-cases (same_text socket "")) [
    | inl e ↦ rw e i
    | inr e ↦ rw e (sockets m socket i)
  ]

  choose_socket_named :
      (socket : String) (m : Monitor S)
      → socket ≢ ""
      → (choose_socket S h socket m).socket_file ≡ socket
  unfolding choose_socket
  choose_socket_named socket m named = ground (arith, eq_iff socket "", named)

  module _ {B : Type 0} (fh : Files.Host B) (d : Disk B) (s : Source) (socket : String) where
    -- How loading ends: the process exits since a file has not passed its check of permissions, or
    -- it returns a monitor with the property; on success the socket has passed, and one of the
    -- command line is the one in use.
    abbrev pub LoadEnds : Monitor S → Type 0
    LoadEnds m =
        ((file why : String) × (max : ℕ) × (ensure_permissions fh d file max ≡ exits 1 why)
          × (load S h fh d s socket m ≡ exits 1 why))
        ⊎ ((why : Option String) × (m' : Monitor S) × (load S h fh d s socket m ≡ returns (why, m'))
            × I m'
            × (why ≡ none
                → (ensure_permissions fh d m'.socket_file 0o660 ≡ returns tt)
                  × (socket ≢ "" → m'.socket_file ≡ socket)))

    pub load_ends : (m : Monitor S) → IsWithinStack s → AddKeeps → SocketKeeps → I m → LoadEnds m
    unfolding load ensure_safe_permissions
    load_ends m sh adds sockets i = elim (ensure_permissions_ends fh d m.control_file 0o700) [
      | inr (why, open_) ↦ inl (m.control_file, why, 0o700, open_, rw open_ refl)
      | inl safe ↦
          let (why, m1, done, i1) = read_control_ends s m sh adds sockets i in
          elim (Option-cases why) [
            | inr (e, failed) ↦
                inr (some e, m1, rw (safe, done, failed) refl, i1, λ q. ground (arith, q))
            | inl fine ↦
                let m' = choose_socket S h socket m1 in
                elim (ensure_permissions_ends fh d m'.socket_file 0o660) [
                  | inr (why', open_) ↦
                      inl (m'.socket_file, why', 0o660, open_, rw (safe, done, fine, open_) refl)
                  | inl passed ↦ inr (
                    none,
                    m',
                    rw (safe, done, fine, passed) refl,
                    choose_socket-keeps socket m1 sockets i1,
                    λ q. (passed, λ named. choose_socket_named socket m1 named),
                  )
                ]
          ]
    ]

  add_all_ends :
      (cs : List Check) (m : Monitor S)
      → AddKeeps
      → I m
      → (m' : Monitor S) × (add_all S h cs m ≡ returns m') × I m'
  unfolding add_all
  add_all_ends [] m adds i = (m, refl, i)
  add_all_ends (c ∷ cs) m adds i =
      let (why, m1, done, i1) = adds c m i in
      let (m2, done2, i2) = add_all_ends cs m1 adds i1 in (m2, rw done done2, i2)

  -- `Reload` ends and keeps the property, if also a monitor without checks has it.
  pub reload_ends :
      (s : Source) (m : Monitor S)
      → IsWithinStack s
      → AddKeeps
      → I (record m { checks = [] })
      → I m
      → (why : Option String) × (m' : Monitor S) × (reload S h s m ≡ returns (why, m')) × I m'
  unfolding reload
  reload_ends s m sh adds emptied i =
      let (why, v, parsed, d) = validation_IsDistinct s sh in
      elim (Bool-cases v.success) [
        | inl ok ↦
            let (m', done, i') = add_all_ends v.checks (record m { checks = [] }) adds emptied in
            (none, m', rw (reload, parsed) (rw ok (rw done refl)), i')
        | inr bad ↦ (some refusal, m, rw (reload, parsed) (rw bad refl), i)
      ]
