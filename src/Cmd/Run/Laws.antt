-- ===== src/Cmd/Run/Laws.antt =====
-- `RunMonitor` of cmd/root.go before the monitor runs, and `getConfig` and `quitDaemon` of
-- cmd/common.go.
use gonit.Base.{
  ◌↔◌, ◌*◌, String, ◌≡◌, ◌≢◌, ◌⊎◌, refl, Bool, true, false, not, ◌&&◌, Option, none, some, [], ◌∷◌,
  returns, ◌>>◌, subst, bind-returns, returns-injective, same_text, arith, inl, inr, Bool-cases,
  eq_iff,
}
use gonit.Check.{second}
use gonit.Check.Service.Commands.{Seen, Missed, await-cases}
use gonit.Check.Service.{Env}
use gonit.Cmd.Run.{
  Config, Flags, Environment, config_of, get_config, daemonizes, is_daemon_running, check_socket,
  check_files, before_start, terminate, kill, quit_daemon,
}
use gonit.Files.Access.{Access, is_readable_file, is_writable_file}
use gonit.Files.{Disk, Host, file_exists, ensure_safe_permissions, ensure_permissions}
use gonit.Pid.{Kernel, validate_pid_file_path}

-- `quitDaemon` sends SIGTERM alone, and then SIGTERM gave no error or the daemon was seen running
-- within five seconds; or it sends SIGTERM and SIGKILL, and then SIGTERM gave an error and the daemon
-- ran at no poll of these five seconds.
pub quit_daemon_lem :
    (e : Env) (err : Option String)
    → ((quit_daemon e err ≡ terminate ∷ []) × ((err ≡ none) ⊎ Seen e.alive (5 * second)))
      ⊎ ((quit_daemon e err ≡ terminate ∷ kill ∷ []) × (err ≢ none) × Missed e.alive (5 * second))
unfolding quit_daemon
quit_daemon_lem e none = inl (refl, inl refl)
quit_daemon_lem e (some why) = elim (await-cases e e.alive (5 * second)) [
  | inl (on, seen) ↦ rw on (inl (refl, inr seen))
  | inr (off, missed) ↦ rw off (inr (refl, (λ q. ground (arith, q)), missed))
]

module _ (h : Host String) (k : Kernel) (a : Access) (d : Disk String) where
  -- What `check_files` asks of the files of a configuration.
  pub record CanDaemonize (c : Config) : Type 0 where
    pub safe : ensure_safe_permissions h d c.control_file ≡ returns tt
    pub there : file_exists d c.control_file ≡ true
    pub readable : is_readable_file d a c.control_file ≡ true
    pub pid_file : validate_pid_file_path d a c.pid_file ≡ none
    pub state_file : (c.state_file ≡ "") ⊎ (is_writable_file d a c.state_file ≡ true)
    pub socket_file :
        (c.socket_file ≡ "")
        ⊎ ((is_writable_file d a c.socket_file ≡ true)
            × (ensure_permissions h d c.socket_file 0o660 ≡ returns tt))

  socket_lem :
      (c : Config)
      → check_socket h k a d c ≡ returns tt
      → (c.socket_file ≡ "")
        ⊎ ((is_writable_file d a c.socket_file ≡ true)
            × (ensure_permissions h d c.socket_file 0o660 ≡ returns tt))
  unfolding check_socket
  socket_lem c e = elim (Bool-cases (same_text c.socket_file "")) [
    | inl unnamed ↦ inl (ground (arith, eq_iff c.socket_file "", unnamed))
    | inr named ↦ elim (Bool-cases (is_writable_file d a c.socket_file)) [
      | inr closed ↦ absurd (ground (arith, rw (check_socket, named, closed) at e))
      | inl open_ ↦ inr (open_, rw (check_socket, named, open_) at e)
    ]
  ]

  check_files_lem : (c : Config) → check_files h k a d c ≡ returns daemonizes → CanDaemonize c
  unfolding check_files
  check_files_lem c e =
      let (u, safe, e1) =
        bind-returns (ensure_safe_permissions h d c.control_file) _ daemonizes e in
      let there : file_exists d c.control_file ≡ true = ground (arith, e1) in
      let readable : is_readable_file d a c.control_file ≡ true = ground (arith, e1) in
      let pid_file : validate_pid_file_path d a c.pid_file ≡ none = ground (arith, e1) in
      let state : not (same_text c.state_file "") && not (is_writable_file d a c.state_file)
          ≡ false =
        ground (arith, e1) in
      let last : (check_socket h k a d c >> returns daemonizes) ≡ returns daemonizes =
        rw (there, readable, pid_file, state) at e1 in
      let (v, socket, e2) =
        bind-returns (check_socket h k a d c) (λ _. returns daemonizes) daemonizes last in
      record {
        safe = safe;
        there = there;
        readable = readable;
        pid_file = pid_file;
        state_file = elim (Bool-cases (same_text c.state_file "")) [
          | inl unnamed ↦ inl (ground (arith, eq_iff c.state_file "", unnamed))
          | inr named ↦ inr (ground (arith, state, named))
        ];
        socket_file = socket_lem c socket;
      }

  daemonizes_only :
      (is_parent : Bool) (c : Config)
      → before_start h k a d is_parent c ≡ returns daemonizes
      → (is_parent ≡ true)
        × (is_daemon_running h k a d c ≡ false)
        × (c.should_daemonize ≡ true)
        × CanDaemonize c
  unfolding before_start
  daemonizes_only false c e = absurd (ground (arith, e))
  daemonizes_only true c e = elim (Bool-cases (is_daemon_running h k a d c)) [
    | inl runs ↦ absurd (ground (arith, rw (before_start, runs) at e))
    | inr free ↦ elim (Bool-cases c.should_daemonize) [
      | inr front ↦ absurd (ground (arith, rw (before_start, free, front) at e))
      | inl back ↦ (refl, free, back, check_files_lem c (rw (before_start, free, back) at e))
    ]
  ]

  check_socket_passes :
      (c : Config)
      → (c.socket_file ≡ "")
        ⊎ ((is_writable_file d a c.socket_file ≡ true)
            × (ensure_permissions h d c.socket_file 0o660 ≡ returns tt))
      → check_socket h k a d c ≡ returns tt
  unfolding check_socket
  check_socket_passes c (inl unnamed) =
      let e : same_text c.socket_file "" ≡ true =
        ground (arith, eq_iff c.socket_file "", unnamed) in
      rw (check_socket, e) refl
  check_socket_passes c (inr (open_, safe)) = elim (Bool-cases (same_text c.socket_file "")) [
    | inl unnamed ↦ rw (check_socket, unnamed) refl
    | inr named ↦ rw (check_socket, named) (rw open_ safe)
  ]

  check_files_passes : (c : Config) → CanDaemonize c → check_files h k a d c ≡ returns daemonizes
  unfolding check_files
  check_files_passes c can =
      let state : not (same_text c.state_file "") && not (is_writable_file d a c.state_file)
          ≡ false =
        elim can.state_file [
          | inl unnamed ↦ ground (arith, eq_iff c.state_file "", unnamed)
          | inr open_ ↦ ground (arith, open_)
        ] in
      rw (check_files, can.safe)
        (rw (can.there, can.readable, can.pid_file)
          (rw state (rw (check_socket_passes c can.socket_file) refl)))

  -- `RunMonitor` starts a daemon exactly if this is the first process, no daemon runs by the pid file,
  -- the configuration is not one of the foreground, the control file is there, readable and safe, the
  -- pid file is valid, and the state file and the socket are not named or can be written, the
  -- socket with its check of permissions passed.
  pub before_start_daemonizes :
      (is_parent : Bool) (c : Config)
      → (before_start h k a d is_parent c ≡ returns daemonizes) ↔ (
          (is_parent ≡ true)
          × (is_daemon_running h k a d c ≡ false)
          × (c.should_daemonize ≡ true)
          × CanDaemonize c)
  unfolding before_start
  before_start_daemonizes is_parent c = (
    daemonizes_only is_parent c,
    λ (first, free, back, can).
        rw (first, before_start) (rw (free, back) (check_files_passes c can)),
  )

  -- The control file and the state file have passed their checks of permissions, and the control file
  -- is there if it is named.
  abbrev pub HasControl : Config → Type 0
  HasControl c =
      (ensure_safe_permissions h d c.control_file ≡ returns tt)
      × (ensure_safe_permissions h d c.state_file ≡ returns tt)
      × ((c.control_file ≡ "") ⊎ (file_exists d c.control_file ≡ true))

  -- `getConfig` gives the configuration of the command line and the environment, or the process
  -- exits; if it gives one, its control file and its
  -- state file have passed their checks of permissions, and its control file is there or not named.
  pub get_config_lem :
      (env : Environment) (flags : Flags) (c : Config)
      → get_config env h d flags ≡ returns c
      → (c ≡ config_of env flags) × HasControl c
  unfolding get_config
  get_config_lem env flags c e =
      let c0 = config_of env flags in
      let (u, both, e1) =
        bind-returns
          (ensure_safe_permissions h d c0.control_file >> ensure_safe_permissions h d c0.state_file)
          _ c e in
      let (v, safe, safe') =
        bind-returns (ensure_safe_permissions h d c0.control_file)
          (λ _. ensure_safe_permissions h d c0.state_file) tt both in
      elim (Bool-cases
        (not (same_text c0.control_file "") && not (file_exists d c0.control_file))) [
          | inl missing ↦ absurd (ground (arith, rw missing at e1))
          | inr fine ↦
              let same : c0 ≡ c = returns-injective (rw fine at e1) in
              subst (λ x. (x ≡ c0) × HasControl x) same
                (
                  refl,
                  (
                    safe,
                    safe',
                    elim (Bool-cases (same_text c0.control_file "")) [
                      | inl unnamed ↦ inl (ground (arith, eq_iff c0.control_file "", unnamed))
                      | inr named ↦ inr (ground (arith, fine, named))
                    ],
                  ),
                )
        ]
