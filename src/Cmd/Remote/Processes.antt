-- ===== src/Cmd/Remote/Processes.antt =====
-- The commands `start`, `stop` and `restart` of cmd/common.go on a daemon: through the client of
-- monitor/client.go and the routes of monitor/server.go.
use gonit.Base.{
  ℤ, pos, String, ◌≡◌, ◌⊎◌, inl, inr, refl, true, false, Option, none, some, [], ◌∷◌, is_some,
  if◌then◌else◌, returns, ap, ◌∙◌, Bool-cases,
}
use gonit.Check.Once.{do_once, in_progress}
use gonit.Check.{Check, Process}
use gonit.Cmd.Remote.{single_lem}
use gonit.Cmd.{is_all, run_check_command, service_command, ServiceCommand}
use gonit.Database.Storer.{Storer}
use gonit.Entries.{Value}
use gonit.Monitor.Operations.{find_process_check}
use gonit.Server.Client.Laws.{Delivers, check_operation_lem}
use gonit.Server.Client.{Connection, Client, client_manager, check_operation}
use gonit.Server.{
  Daemon, ProcessOperation, start_process, stop_process, restart_process, process_cb,
  process_service, service_of, busy,
}

pub data Verb : Type 0 where
  start : Verb
  stop : Verb
  restart : Verb

-- The operation that a command asks for.
abbrev pub operation_for : Verb → ProcessOperation
operation_for start = start_process
operation_for stop = stop_process
operation_for restart = restart_process

abbrev pub name_of : Verb → String
name_of start = "start"
name_of stop = "stop"
name_of restart = "restart"

either : {A B : Type 0} (s : A ⊎ B) → ((a : A) × (s ≡ inl a)) ⊎ ((b : B) × (s ≡ inr b))
either (inl a) = inl (a, refl)
either (inr b) = inr (b, refl)

module _ (S : Storer Value) (unique_id : Check → String) {B : Type 0} where
  abbrev pub process_command :
      Connection B (Daemon S unique_id)
      → Verb
      → String
      → Client (Daemon S unique_id)
      → String × ℤ × Option String × Client (Daemon S unique_id)
  process_command net v id c =
      run_check_command (Client (Daemon S unique_id)) (client_manager net) (name_of v) (id ∷ []) c

  from_callback :
      (net : Connection B (Daemon S unique_id)) (ok : Delivers S unique_id net) (cmd : String)
      (sc : ServiceCommand (Client (Daemon S unique_id))) (id : String) (op : ProcessOperation)
      (c : Client (Daemon S unique_id)) (why : Option String) (d : Daemon S unique_id)
      → ok.plain id ≡ true
      → is_all id ≡ false
      → process_cb S unique_id op id c.daemon ≡ returns (why, d)
      → service_command (Client (Daemon S unique_id)) (client_manager net) cmd ≡ some sc
      → service_of S unique_id cmd ≡ some (process_service S unique_id op)
      → sc.single_check_cb id c ≡ check_operation net cmd (some id) c
      → ((run_check_command (Client (Daemon S unique_id)) (client_manager net) cmd (id ∷ []) c).1
          ≡ (if is_some why then pos 1 else pos 0))
        × ((run_check_command
              (Client (Daemon S unique_id))
              (client_manager net)
              cmd
              (id ∷ [])
              c).3.daemon
            ≡ d)
  from_callback net ok cmd sc id op c why d fits one ran known route posts =
      let (code, after) =
        single_lem (Client (Daemon S unique_id)) (client_manager net) cmd id sc c one known in
      let (error, left) =
        check_operation_lem S unique_id net ok cmd id (process_service S unique_id op) c why d fits
          route ran in
      (
        code
            ∙ ap
                (λ (r : Option String × Client (Daemon S unique_id)).
                  if is_some r.0 then pos 1 else pos 0)
                posts
            ∙ ap (λ o. if is_some o then pos 1 else pos 0) error,
        ap (λ x. x.daemon) after
            ∙ ap (λ (r : Option String × Client (Daemon S unique_id)). r.1.daemon) posts
            ∙ left,
      )

  -- The command's code and the daemon after it, from what the route's callback gives.
  process_command-process_cb :
      (net : Connection B (Daemon S unique_id)) (ok : Delivers S unique_id net) (v : Verb)
      (id : String) (c : Client (Daemon S unique_id)) (why : Option String) (d : Daemon S unique_id)
      → ok.plain id ≡ true
      → is_all id ≡ false
      → process_cb S unique_id (operation_for v) id c.daemon ≡ returns (why, d)
      → ((process_command net v id c).1 ≡ (if is_some why then pos 1 else pos 0))
        × ((process_command net v id c).3.daemon ≡ d)
  unfolding service_command client_manager
  process_command-process_cb net ok start id c why d fits one ran =
      from_callback net ok "start" _ id _ c why d fits one ran refl refl refl
  process_command-process_cb net ok stop id c why d fits one ran =
      from_callback net ok "stop" _ id _ c why d fits one ran refl refl refl
  process_command-process_cb net ok restart id c why d fits one ran =
      from_callback net ok "restart" _ id _ c why d fits one ran refl refl refl

  -- Over a connection that delivers requests to the routes, for an id that needs no escape and is neither
  -- empty nor `all`: `start`, `stop` and `restart` exit with code 0 exactly if the id is that of a
  -- process for which no operation is in progress. Then the daemon has begun that of the command
  -- (startProcess, stopProcess, restartProcess) on the check of the id, and nothing else has changed:
  -- the checks and the database are as before. Else the code is 1, and the daemon is as
  -- before.
  pub process_command_lem :
      (net : Connection B (Daemon S unique_id)) (ok : Delivers S unique_id net) (v : Verb)
      (id : String) (c : Client (Daemon S unique_id))
      → ok.plain id ≡ true
      → is_all id ≡ false
      → ((ck : Check) × (p : Process) × (find_process_check id c.daemon.monitor.checks
            ≡ inr (ck, p))
          × (in_progress (unique_id ck) c.daemon.guard ≡ false)
          × ((process_command net v id c).1 ≡ pos 0)
          × ((process_command net v id c).3.daemon ≡ record c.daemon {
            guard = (do_once (unique_id ck) c.daemon.guard).1;
            begun = (operation_for v, ck.id) ∷ c.daemon.begun;
          }))
        ⊎ ((((why : String) × (find_process_check id c.daemon.monitor.checks ≡ inl why))
              ⊎ ((ck : Check) × (p : Process) × (find_process_check id c.daemon.monitor.checks
                    ≡ inr (ck, p))
                  × (in_progress (unique_id ck) c.daemon.guard ≡ true)))
            × ((process_command net v id c).1 ≡ pos 1)
            × ((process_command net v id c).3.daemon ≡ c.daemon))
  unfolding process_cb do_once
  process_command_lem net ok v id c fits one =
      elim (either (find_process_check id c.daemon.monitor.checks)) [
        | inl (why, e) ↦
            let (code, after) =
              process_command-process_cb net ok v id c (some why) c.daemon fits one
                (rw (process_cb, e) refl) in
            inr (inl (why, e), code, after)
        | inr ((ck, p), e) ↦ elim (Bool-cases (in_progress (unique_id ck) c.daemon.guard)) [
          | inl blocked ↦
              let (code, after) =
                process_command-process_cb net ok v id c (some (busy id)) c.daemon fits one
                  (rw (process_cb, e) (rw (do_once, blocked) refl)) in
              inr (inr (ck, p, e, blocked), code, after)
          | inr free ↦
              let (code, after) =
                process_command-process_cb net ok v id c none
                  (record c.daemon {
                    guard = (do_once (unique_id ck) c.daemon.guard).1;
                    begun = (operation_for v, ck.id) ∷ c.daemon.begun;
                  })
                  fits one (rw (process_cb, e) (rw (do_once, free) refl)) in
              inl (ck, p, e, free, code, after)
        ]
      ]
