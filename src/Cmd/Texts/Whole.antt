-- ===== src/Cmd/Texts/Whole.antt =====
-- The command `summary` with the daemon that it asks, and the commands that signal a daemon.
use Prim.Native.String.{◌++◌ as ◌+++◌}
use gonit.Base.{
  ℤ, All, String, ◌≡◌, ◌≢◌, ◌≤◌, ◌⊎◌, ◌∙◌, refl, ap, true, false, none, Option, List, [], ◌∷◌,
  length, ltb, returns, exits, arith, Bool-cases, inl, inr,
}
use gonit.Check.Service.{Env}
use gonit.Check.{Check, Host}
use gonit.Cmd.Run.{
  Environment, Flags, config_of, get_config, is_daemon_running, daemon_pid, hang_up, terminate,
  kill,
}
use gonit.Cmd.Run.Laws.{quit_daemon_lem}
use gonit.Cmd.Start.{init_app}
use gonit.Cmd.Texts.Laws.{asks_client, printed, printed_full, nonempty, get_config_ends}
use gonit.Cmd.Texts.{summary, text_command, quit_command, reload_command, missing}
use gonit.Config.{Source}
use gonit.Database.FileStorer.{file_storer}
use gonit.Database.Storer.{Storer}
use gonit.Database.{Codec}
use gonit.Entries.{Value}
use gonit.Files.Access.{Access}
use gonit.Files.{Disk}
use gonit.Files as Files
use gonit.Monitor.Summary.{Printer, Facts, Shows, round_duration, since}
use gonit.Monitor.{Monitor}
use gonit.Pid.{Kernel, is_process_running}
use gonit.Registry.{IsSetUp, find_checks}
use gonit.Server.Client.{Connection}
use gonit.Server.Texts.Laws.{DeliversTexts, client_summary_lem}
use gonit.Server.Texts.{Getter}
use gonit.Server.{Daemon}

module _ (fh : Files.Host String) (k : Kernel) (a : Access) (env : Environment) where
  module _ (g : Codec String Value) (h : Host) (w : Printer) (facts : Facts) (S : Storer Value)
      (unique_id : Check → String) {B : Type 0} (net : String → Connection B (Daemon S unique_id))
      (get : String → Getter B (Daemon S unique_id)) where
    -- With one argument at most, which fits into a path: if the configuration is that of the command
    -- line, a daemon runs by its pid file, the monitor that is configured has a socket, the
    -- connection over it delivers requests to the routes of a daemon, and the daemon's checks are set
    -- up, then `summary` prints the daemon's uptime and a line for each check that is asked for, with
    -- what its flag says in the daemon, or for a monitored process whether its process runs.
    pub summary_command_lem :
        (h' : Host) (w' : Printer) (facts' : Facts) (args : List String) (flags : Flags)
        (s : Source) (d : Disk String) (daemon : Daemon S unique_id)
        (m : Monitor (file_storer g fh))
        (ok : DeliversTexts S unique_id h' w' facts' (net m.socket_file) (get m.socket_file))
        → length args ≤ 1
        → All (λ id. ok.fits id ≡ true) args
        → get_config env fh d flags ≡ returns (config_of env flags)
        → is_daemon_running fh k a d (config_of env flags) ≡ true
        → init_app g fh h a (config_of env flags) s d ≡ returns m
        → m.socket_file ≢ ""
        → IsSetUp daemon.monitor.checks
        → (lines : String) × (text_command fh k a env g h w facts net get summary args flags s d
              daemon
            ≡ returns (
                "Uptime "
                +++ w'.show_duration (round_duration h' w' facts' (since h' facts'.start_time))
                +++ "\n\n"
                +++ lines))
          × Shows h' w' facts' (find_checks daemon.monitor.checks args) lines
    unfolding text_command
    summary_command_lem h' w' facts' args flags s d daemon m ok few fit configured runs done named
          all =
        let (text, lines, own, replied, same, shows) =
          client_summary_lem S unique_id h' w' facts' (net m.socket_file) (get m.socket_file) ok
            args (record { error = none; daemon = daemon }) few fit all in
        let within : ltb 1 (length args) ≡ false = ground (arith, few) in
        let asked =
          asks_client fh k a env g h w facts net get summary args (config_of env flags) s d daemon m
            runs done named in
        let show = printed fh k a env g h w facts net get summary in
        let full =
          printed_full fh k a env g h w facts net get summary _ (nonempty "Uptime " _ refl) in
        (
          lines,
          rw (text_command, within)
              (rw configured (asked ∙ ap show (ap (λ r. r.0) replied ∙ same) ∙ full)),
          shows,
        )

  -- Under the same command line and files `quit` and `reload` either both exit with code 1, or send
  -- signals to the same process alone, which runs and has the number that the pid file gives: `reload`
  -- sends SIGHUP, and `quit` sends SIGTERM, and after it at most SIGKILL.
  pub quit_command-reload_command :
      (e : Env) (err : Option String) (flags : Flags) (d : Disk String)
      → ((why why' : String) × (quit_command fh k a env e err flags d ≡ exits 1 why)
          × (reload_command fh k a env flags d ≡ exits 1 why'))
        ⊎ ((pid : ℤ) × (daemon_pid fh k a d (config_of env flags) ≡ pid)
            × (is_process_running k pid ≡ true)
            × (reload_command fh k a env flags d ≡ returns ((pid, hang_up) ∷ []))
            × ((quit_command fh k a env e err flags d ≡ returns ((pid, terminate) ∷ []))
                ⊎ (quit_command fh k a env e err flags d
                    ≡ returns ((pid, terminate) ∷ (pid, kill) ∷ []))))
  unfolding quit_command reload_command
  quit_command-reload_command e err flags d =
      let c = config_of env flags in
      elim (get_config_ends fh k a env flags d) [
        | inr (why, ends) ↦
            inl (why, why, rw (quit_command, ends) refl, rw (reload_command, ends) refl)
        | inl done ↦ elim (Bool-cases (is_daemon_running fh k a d c)) [
          | inr free ↦ inl (
            missing fh k a env c "stop",
            missing fh k a env c "contact",
            rw (quit_command, done) (rw free refl),
            rw (reload_command, done) (rw free refl),
          )
          | inl runs ↦ elim (quit_daemon_lem e err) [
            | inl (sent, _) ↦ inr (
              _,
              refl,
              runs,
              rw (reload_command, done) (rw runs refl),
              inl (rw (quit_command, done) (rw (runs, sent) refl)),
            )
            | inr (sent, _, _) ↦ inr (
              _,
              refl,
              runs,
              rw (reload_command, done) (rw runs refl),
              inr (rw (quit_command, done) (rw (runs, sent) refl)),
            )
          ]
        ]
      ]
