-- ===== src/Cmd/Remote.antt =====
-- The commands `monitor` and `unmonitor` of cmd/common.go on a daemon: through the client of
-- monitor/client.go and the routes of monitor/server.go.
pub mod Processes
pub mod Restart
use gonit.Base.{
  ℤ, pos, String, ◌≡◌, refl, Bool, true, false, Option, none, some, [], ◌∷◌, is_some, if◌then◌else◌,
  same_text, returns, ap, ◌∙◌,
}
use gonit.Check.{Check}
use gonit.Cmd.{
  is_all, run_check_command, service_command, execute, execute_single, code_of, ServiceCommand,
  ChecksManager,
}
use gonit.Database.Storer.{Storer}
use gonit.Entries.{Value}
use gonit.Monitor.Flags.{set_flag_lem}
use gonit.Monitor.Invariant.{IsWellFormed, flag_of, stored_flag}
use gonit.Monitor.{Monitor, set_flag}
use gonit.Registry.{find_check}
use gonit.Server.Client.Laws.{Delivers, client_flag, client_flag_lem}
use gonit.Server.Client.{Connection, Client, client_manager}
use gonit.Server.{Daemon}

abbrev pub command_of : Bool → String
command_of true = "monitor"
command_of false = "unmonitor"

pub single_lem :
    (M : Type 0) (cm : ChecksManager M) (cmd id : String) (sc : ServiceCommand M) (s : M)
    → is_all id ≡ false
    → service_command M cm cmd ≡ some sc
    → ((run_check_command M cm cmd (id ∷ []) s).1
        ≡ (if is_some (sc.single_check_cb id s).0 then pos 1 else pos 0))
      × ((run_check_command M cm cmd (id ∷ []) s).3 ≡ (sc.single_check_cb id s).1)
unfolding run_check_command execute code_of execute_single
single_lem M cm cmd id sc s one known =
    rw (run_check_command, known) (rw (execute, one) (from sc.cmd (sc.single_check_cb id s)))
  where
    from :
        (cmd : String) (r : Option String × M)
        → (code_of M (execute_single M cmd id r).1 ≡ (if is_some r.0 then pos 1 else pos 0))
          × ((execute_single M cmd id r).2 ≡ r.1)
    from cmd (none, s) = (refl, refl)
    from cmd (some why, s) = (refl, refl)

module _ (S : Storer Value) (unique_id : Check → String) {B : Type 0} where
  abbrev pub flag_command :
      Connection B (Daemon S unique_id)
      → Bool
      → String
      → Client (Daemon S unique_id)
      → String × ℤ × Option String × Client (Daemon S unique_id)
  flag_command net b id c =
      run_check_command (Client (Daemon S unique_id)) (client_manager net) (command_of b) (id ∷ [])
        c

  flag_command-client_flag :
      (net : Connection B (Daemon S unique_id)) (b : Bool) (id : String)
      (c : Client (Daemon S unique_id))
      → is_all id ≡ false
      → ((flag_command net b id c).1
          ≡ (if is_some (client_flag S unique_id net b id c).0 then pos 1 else pos 0))
        × ((flag_command net b id c).3 ≡ (client_flag S unique_id net b id c).1)
  unfolding service_command
  flag_command-client_flag net true id c one =
      single_lem (Client (Daemon S unique_id)) (client_manager net) "monitor" id _ c one refl
  flag_command-client_flag net false id c one =
      single_lem (Client (Daemon S unique_id)) (client_manager net) "unmonitor" id _ c one refl

  -- Over a connection that delivers requests to the routes, to a daemon with a well-formed monitor:
  -- the command `monitor` or `unmonitor` with the id of a check, which needs no escape and is
  -- neither empty nor `all`, sets the flag of the check in memory; no other flag in memory changes,
  -- and the database then has for every id the flag in memory, or none where no check has the id.
  -- The monitor stays well-formed. The exit code is 0, or 1 if the monitor returns an error.
  pub flag_command_lem :
      (net : Connection B (Daemon S unique_id)) (ok : Delivers S unique_id net) (b : Bool)
      (id : String) (c : Client (Daemon S unique_id)) (ck : Check)
      → ok.plain id ≡ true
      → is_all id ≡ false
      → IsWellFormed S c.daemon.monitor
      → find_check id c.daemon.monitor.checks ≡ some ck
      → (why : Option String) × (m : Monitor S) × (set_flag S b id c.daemon.monitor
          ≡ returns (why, m))
        × ((flag_command net b id c).1 ≡ (if is_some why then pos 1 else pos 0))
        × ((flag_command net b id c).3.daemon ≡ record c.daemon { monitor = m })
        × IsWellFormed S m
        × ((k : String)
            → flag_of S k m ≡ (if same_text id k then some b else flag_of S k c.daemon.monitor))
        × ((k : String) → stored_flag S k m ≡ flag_of S k m)
  flag_command_lem net ok b id c ck fits one w there =
      let (why, m, done, w', flags, stored) = set_flag_lem S b id c.daemon.monitor ck w there in
      let (error, after) = client_flag_lem S unique_id net ok b id c why m fits done in
      let (code, client) = flag_command-client_flag net b id c one in
      (
        why,
        m,
        done,
        code ∙ ap (λ o. if is_some o then pos 1 else pos 0) error,
        ap (λ x. x.daemon) client ∙ after,
        w',
        flags,
        stored,
      )
