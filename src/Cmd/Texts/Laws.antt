-- ===== src/Cmd/Texts/Laws.antt =====
-- How the commands `status`, `summary`, `quit` and `reload` of the directory cmd end.
use Prim.Native.String.{◌++◌ as ◌+++◌}
use text.Mathlib.TextLemmas.{append-eq-nil_iff}
use gonit.Config.Walk.{IsWithinStack}
use gonit.Base.{
  String, ◌≡◌, ◌≢◌, ◌≤◌, ◌⊎◌, refl, ◌∙◌, true, false, not, ◌&&◌, List, Outcome, returns, exits,
  if◌then◌else◌, same_text, length, ltb, arith, inl, inr, Bool-cases, eq_iff,
}
use gonit.Check.{Host}
use gonit.Cmd.Manager.{
  by_client, by_monitor, get_checks_manager, get_checks_manager_runs, get_checks_manager_exits,
}
use gonit.Cmd.Run.{Config, Environment, Flags, config_of, get_config, is_daemon_running}
use gonit.Cmd.Start.{init_app, init_app_ends}
use gonit.Cmd.Texts.{
  Verb, status, summary, name_of, own_text, remote_text, text_by, ask_daemon, text_command,
}
use gonit.Config.{Source}
use gonit.Database.FileStorer.{file_storer}
use gonit.Database.{Codec}
use gonit.Entries.{Value}
use gonit.Files.Access.{Access}
use gonit.Files.Permissions.{ensure_permissions_ends}
use gonit.Files.{Disk, file_exists, ensure_safe_permissions}
use gonit.Files as Files
use gonit.Monitor.Load.Initial.{DecodesIdle}
use gonit.Monitor.Summary.Status.{status_text-returns}
use gonit.Monitor.Summary.{Printer, Facts, summary_text_lem}
use gonit.Monitor.{Monitor}
use gonit.Pid.{Kernel}
use gonit.Registry.{IsSetUp}
use gonit.Server.Client.{Connection}
use gonit.Server.Texts.{Getter}

-- A text that goes on is not empty.
pub nonempty : (p s : String) → same_text p "" ≡ false → p +++ s ≢ ""
nonempty p s some_ e = ground (arith, eq_iff p "", some_, (append-eq-nil_iff {p = p} {q = s}).0 e)

module _ (fh : Files.Host String) (k : Kernel) (a : Access) (env : Environment) where
  pub get_config_ends :
      (flags : Flags) (d : Disk String)
      → (get_config env fh d flags ≡ returns (config_of env flags))
        ⊎ ((why : String) × (get_config env fh d flags ≡ exits 1 why))
  unfolding get_config ensure_safe_permissions
  get_config_ends flags d =
      let c = config_of env flags in
      elim (ensure_permissions_ends fh d c.control_file 0o700) [
        | inr (why, ends) ↦ rw ends (inr (why, refl))
        | inl safe ↦ elim (ensure_permissions_ends fh d c.state_file 0o700) [
          | inr (why, ends) ↦ rw (safe, ends) (inr (why, refl))
          | inl safe' ↦
              elim (Bool-cases
                (not (same_text c.control_file "") && not (file_exists d c.control_file))) [
                  | inl gone ↦ rw (safe, safe', gone) (inr (_, refl))
                  | inr there ↦ rw (safe, safe', there) (inl refl)
                ]
        ]
      ]

  module _ (g : Codec String Value) (h : Host) (w : Printer) (facts : Facts) {B M : Type 0}
      (net : String → Connection B M) (get : String → Getter B M) where
    own_text-returns :
        (v : Verb) (args : List String) (m : Monitor (file_storer g fh))
        → IsSetUp m.checks
        → (str : String) × (own_text fh k a env g h w facts net get v args m ≡ returns str)
          × (str ≢ "")
    own_text-returns status args m all =
        let (s, done) = status_text-returns h w facts (file_storer g fh) args m all in
        ("\n" +++ s, done, nonempty "\n" s refl)
    own_text-returns summary args m all =
        let (lines, done, shows) = summary_text_lem (file_storer g fh) h w facts args m all in
        (_, done, nonempty "Uptime " _ refl)

    -- What a text comes from: the daemon, by the socket of the monitor that this process has made, or
    -- that monitor.
    abbrev pub IsFrom : Verb → List String → M → Monitor (file_storer g fh) → String → Type 0
    IsFrom v args daemon m str =
        ((m.socket_file ≢ "")
          × (str ≡ remote_text fh k a env g h w facts net get v args m.socket_file daemon))
        ⊎ ((m.socket_file ≡ "") × (own_text fh k a env g h w facts net get v args m ≡ returns str))

    -- What a text comes to.
    unfoldable pub printed : Verb → String → Outcome String
    printed v str =
        if not (same_text str "")
        then returns str
        else exits 1 ("Got empty " +++ name_of v +++ " text")

    printed_ends :
        (v : Verb) (str : String)
        → ((why : String) × (printed v str ≡ exits 1 why))
          ⊎ ((printed v str ≡ returns str) × (str ≢ ""))
    unfolding printed
    printed_ends v str = elim (Bool-cases (same_text str "")) [
      | inl empty ↦ rw (printed, empty) (inl (_, refl))
      | inr full ↦ rw (printed, full) (inr (refl, λ e. ground (arith, eq_iff str "", full, e)))
    ]

    pub printed_full : (v : Verb) (str : String) → str ≢ "" → printed v str ≡ returns str
    unfolding printed
    printed_full v str full =
        let e : same_text str "" ≡ false = ground (arith, eq_iff str "", full) in
        rw (printed, e) refl

    pub asks_client :
        (v : Verb) (args : List String) (c : Config) (s : Source) (d : Disk String) (daemon : M)
        (m : Monitor (file_storer g fh))
        → is_daemon_running fh k a d c ≡ true
        → init_app g fh h a c s d ≡ returns m
        → m.socket_file ≢ ""
        → ask_daemon fh k a env g h w facts net get v args c s d daemon
          ≡ printed v (remote_text fh k a env g h w facts net get v args m.socket_file daemon)
    unfolding ask_daemon text_by printed
    asks_client v args c s d daemon m runs done named =
        let e : same_text m.socket_file "" ≡ false =
          ground (arith, eq_iff m.socket_file "", named) in
        let manager : get_checks_manager g fh h k a c s d ≡ returns (by_client m.socket_file) =
          rw e at (get_checks_manager_runs g fh h k a c s d m runs done) in
        rw (ask_daemon, runs) (rw manager refl)

    asks_own :
        (v : Verb) (args : List String) (c : Config) (s : Source) (d : Disk String) (daemon : M)
        (m : Monitor (file_storer g fh)) (str : String)
        → is_daemon_running fh k a d c ≡ true
        → init_app g fh h a c s d ≡ returns m
        → m.socket_file ≡ ""
        → own_text fh k a env g h w facts net get v args m ≡ returns str
        → ask_daemon fh k a env g h w facts net get v args c s d daemon ≡ printed v str
    unfolding ask_daemon text_by printed
    asks_own v args c s d daemon m str runs done unnamed text =
        let e : same_text m.socket_file "" ≡ true =
          ground (arith, eq_iff m.socket_file "", unnamed) in
        let manager : get_checks_manager g fh h k a c s d ≡ returns (by_monitor m) =
          rw e at (get_checks_manager_runs g fh h k a c s d m runs done) in
        rw (ask_daemon, runs) (rw manager (rw text refl))

    -- The part of `text_command_ends` behind the configuration.
    abbrev pub PrintsOrExits :
        Verb → List String → Config → Source → Disk String → M → Outcome String → Type 0
    PrintsOrExits v args c s d daemon result =
        ((why : String) × (result ≡ exits 1 why))
        ⊎ ((str : String) × (m : Monitor (file_storer g fh)) × (result ≡ returns str)
            × (str ≢ "")
            × (is_daemon_running fh k a d c ≡ true)
            × (init_app g fh h a c s d ≡ returns m)
            × IsFrom v args daemon m str)

    ask_daemon_ends :
        (v : Verb) (args : List String) (c : Config) (s : Source) (d : Disk String) (daemon : M)
        → IsWithinStack s
        → DecodesIdle g
        → PrintsOrExits v args c s d daemon
            (ask_daemon fh k a env g h w facts net get v args c s d daemon)
    unfolding ask_daemon
    ask_daemon_ends v args c s d daemon sh decodes =
        elim (Bool-cases (is_daemon_running fh k a d c)) [
          | inr free ↦ rw (ask_daemon, free) (inl (_, refl))
          | inl runs ↦ elim (init_app_ends g fh h a c s d sh decodes) [
            | inl (why, ends) ↦
                rw (ask_daemon, runs)
                  (rw (get_checks_manager_exits g fh h k a c s d why runs ends) (inl (why, refl)))
            | inr (m, done, i) ↦ elim (Bool-cases (same_text m.socket_file "")) [
              | inl e ↦
                  let unnamed : m.socket_file ≡ "" = ground (arith, eq_iff m.socket_file "", e) in
                  let (str, text, full) = own_text-returns v args m i.well_formed.set_up in
                  elim (printed_ends v str) [
                    | inl (why, empty) ↦
                        inl (why, asks_own v args c s d daemon m str runs done unnamed text ∙ empty)
                    | inr (same, some_) ↦ inr (
                      str,
                      m,
                      asks_own v args c s d daemon m str runs done unnamed text ∙ same,
                      some_,
                      runs,
                      done,
                      inr (unnamed, text),
                    )
                  ]
              | inr e ↦
                  let named : m.socket_file ≢ "" =
                    λ q. ground (arith, eq_iff m.socket_file "", e, q) in
                  elim (printed_ends v
                    (remote_text fh k a env g h w facts net get v args m.socket_file daemon)) [
                      | inl (why, empty) ↦
                          inl (why, asks_client v args c s d daemon m runs done named ∙ empty)
                      | inr (same, some_) ↦ inr (
                        _,
                        m,
                        asks_client v args c s d daemon m runs done named ∙ same,
                        some_,
                        runs,
                        done,
                        inl (named, refl),
                      )
                    ]
            ]
          ]
        ]

    -- With a codec that decodes no locked entry, and a control file whose includes nest no deeper
    -- than the stack admits: `status` and `summary` end. The process exits with code 1, or prints a
    -- text that is not empty; then it has got one argument at most, the configuration is that of the
    -- command line, a daemon runs by its pid file, and the text is the daemon's if the socket has a
    -- name, and else one of a monitor that this process has made.
    pub text_command_ends :
        (v : Verb) (args : List String) (flags : Flags) (s : Source) (d : Disk String) (daemon : M)
        → IsWithinStack s
        → DecodesIdle g
        → ((why : String) × (text_command fh k a env g h w facts net get v args flags s d daemon
              ≡ exits 1 why))
          ⊎ ((length args ≤ 1)
              × (get_config env fh d flags ≡ returns (config_of env flags))
              × PrintsOrExits v args
                  (config_of env flags)
                  s
                  d
                  daemon
                  (text_command fh k a env g h w facts net get v args flags s d daemon))
    unfolding text_command
    text_command_ends v args flags s d daemon sh decodes = elim (Bool-cases (ltb 1 (length args))) [
      | inl many ↦ rw (text_command, many) (inl (_, refl))
      | inr few ↦ elim (get_config_ends flags d) [
        | inr (why, ends) ↦ rw (text_command, few, ends) (inl (why, refl))
        | inl done ↦ inr (
          ground (arith, few),
          done,
          rw (text_command, few, done)
              (ask_daemon_ends v args (config_of env flags) s d daemon sh decodes),
        )
      ]
    ]
