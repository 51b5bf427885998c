-- ===== src/Daemon/Safety.antt =====
-- The running program of cmd/root.go and monitor/monitor.go: no event makes it panic or deadlock.
use gonit.Config.Walk.{IsWithinStack}
use gonit.Base.{
  All, String, ◌≡◌, ◌⊎◌, refl, Bool, true, false, Option, none, some, List, [], ◌∷◌, Outcome,
  returns, exits, inl, inr, Option-cases, any, arith,
}
use gonit.Check.Once.{expire, finish}
use gonit.Check.Service.Keeps.{
  IsInitialized, HasPrograms, Leaves, LeavesWith, perform-Leaves, start-Leaves, stop-Leaves,
  restart-Leaves,
}
use gonit.Config.{Source}
use gonit.Check.{Check, Process, Host, unique_id}
use gonit.Check.Service.{start, stop, restart}
use gonit.Database.Storer.{Storer}
use gonit.Entries.{Value}
use gonit.Monitor.Load.Keeps.{reload_ends}
use gonit.Monitor.Operable.{
  IsOperable, IsOperable-add, IsOperable-emptied, IsOperable-update_database,
  IsOperable-update_check, IsOperable-perform, find_check-IsInitialized,
}
use gonit.Registry.{find_check, update_check}
use gonit.Monitor.Summary.{Printer, Facts}
use gonit.Server.Texts.{text_of}
use gonit.Server.Texts.Answers.{serve_text-returns}
use gonit.Server.{service_of}
use gonit.Server.Keeps.{service_of-Serves}
use gonit.Daemon.{
  Activity, performs, starts, stops, restarts, on_process, act, Event, tick, request, request_all,
  query, acts, expires, ends, hang_up, terminate, State, check_each, round, acted, served, handle,
  run,
}

on_process-Leaves :
    (op : Process → Outcome (Option String × Check)) (c : Check) (o : Option Process)
    → IsInitialized c
    → HasPrograms o
    → ((p : Process) → HasPrograms (some p) → LeavesWith c (op p))
    → Leaves c (on_process op c o)
unfolding on_process
on_process-Leaves op c none i has leaves = (c, refl, (refl, i))
on_process-Leaves op c (some p) i has leaves =
    let (why, c', done, f) = leaves p has in (c', rw done refl, f)

-- Every activity returns, and keeps the id of its check and that it has been initialized.
act-Leaves : (a : Activity) (c : Check) → IsInitialized c → Leaves c (act a c)
unfolding act
act-Leaves (performs e) c i = perform-Leaves e c i
act-Leaves (starts e) c i =
    on_process-Leaves (start e c) c c.process i i.programs (λ p has. start-Leaves e c p i has)
act-Leaves (stops e) c i =
    on_process-Leaves (stop e c) c c.process i i.programs (λ p has. stop-Leaves e c p i has)
act-Leaves (restarts e e') c i =
    on_process-Leaves (restart e e' c) c c.process i i.programs
      (λ p has. restart-Leaves e e' c p i has)

module _ (S : Storer Value) where
  -- The daemon's monitor is well-formed, and its checks have been initialized.
  abbrev pub IsSound : State S → Type 0
  IsSound d = IsOperable S d.monitor

  abbrev Goes : Outcome (State S) → Type 0
  Goes r = (d' : State S) × (r ≡ returns d') × IsSound d'

  acted-Goes : (a : Activity) (id : String) (d : State S) → IsSound d → Goes (acted S a id d)
  unfolding acted
  acted-Goes a id d i = elim (Option-cases (find_check id d.monitor.checks)) [
    | inl gone ↦ (d, rw (acted, gone) refl, i)
    | inr (c, found) ↦
        let (c', done, f) =
          act-Leaves a c (find_check-IsInitialized id d.monitor.checks c i.initialized found) in
        (
          record d {
            monitor = record d.monitor { checks = update_check id (λ _. c') d.monitor.checks };
          },
          rw (acted, found) (rw done refl),
          IsOperable-update_check S id c c' d.monitor i found f,
        )
  ]

  round-Goes : (h : Host) (d : State S) → IsSound d → Goes (round S h d)
  unfolding round
  round-Goes h d i =
      let (cs, done, i1) = IsOperable-perform S h d.monitor i in
      let m = record d.monitor { last_check = some h.now } in
      let (why, s, saved, i2) = IsOperable-update_database S m i1 in
      (
        record {
          monitor = record m { database = s };
          guard = check_each S cs d.guard;
          begun = d.begun;
        },
        rw done (rw saved refl),
        i2,
      )

  request-Goes : (cmd id : String) (d : State S) → IsSound d → Goes (handle S (request cmd id) d)
  unfolding handle served
  request-Goes cmd id d i = elim (Option-cases (service_of S unique_id cmd)) [
    | inl missing ↦ (d, rw (handle, missing) refl, i)
    | inr (s, found) ↦
        let (one, all) = service_of-Serves S unique_id cmd s d found i in
        let (r, d', done, i') = one id in (d', rw (handle, found) (rw done refl), i')
  ]

  request_all-Goes : (cmd : String) (d : State S) → IsSound d → Goes (handle S (request_all cmd) d)
  unfolding handle served
  request_all-Goes cmd d i = elim (Option-cases (service_of S unique_id cmd)) [
    | inl missing ↦ (d, rw (handle, missing) refl, i)
    | inr (s, found) ↦
        let (one, all) = service_of-Serves S unique_id cmd s d found i in
        let (r, d', done, i') = all in (d', rw (handle, found) (rw done refl), i')
  ]

  hang_up-Goes :
      (h : Host) (s : Source) (d : State S)
      → IsWithinStack s
      → IsSound d
      → Goes (handle S (hang_up h s) d)
  unfolding handle
  hang_up-Goes h s d sh i =
      let (why, m, done, i') =
        reload_ends S h (IsOperable S) s d.monitor sh (IsOperable-add S h)
          (IsOperable-emptied S d.monitor i) i in
      (record d { monitor = m }, rw done refl, i')

  query-Goes :
      (h : Host) (w : Printer) (facts : Facts) (cmd : String) (id : Option String) (d : State S)
      → IsSound d
      → Goes (handle S (query h w facts cmd id) d)
  unfolding handle
  query-Goes h w facts cmd id d i = elim (Option-cases (text_of S h w facts cmd)) [
    | inl missing ↦ (d, rw (handle, missing) refl, i)
    | inr (text, found) ↦
        let (r, done) =
          serve_text-returns S h w facts cmd text id d.monitor found i.well_formed.set_up in
        (d, rw (handle, found) (rw done refl), i)
  ]

  -- Only a signal to terminate ends the process.
  abbrev pub is_terminate : Event → Bool
  is_terminate terminate = true
  is_terminate _ = false

  -- The includes of a control file that is loaded anew nest no deeper than the stack admits.
  abbrev pub IsWithin : Event → Type 0
  IsWithin (hang_up h s) = IsWithinStack s
  IsWithin _ = Unit

  handle-Goes :
      (e : Event) (d : State S)
      → IsWithin e
      → IsSound d
      → Goes (handle S e d) ⊎ ((handle S e d ≡ exits 0 "") × (is_terminate e ≡ true))
  unfolding handle
  handle-Goes (tick h) d sh i = inl (round-Goes h d i)
  handle-Goes (request cmd id) d sh i = inl (request-Goes cmd id d i)
  handle-Goes (request_all cmd) d sh i = inl (request_all-Goes cmd d i)
  handle-Goes (query h w facts cmd id) d sh i = inl (query-Goes h w facts cmd id d i)
  handle-Goes (acts a id) d sh i = inl (acted-Goes a id d i)
  handle-Goes (expires n) d sh i = inl (record d { guard = expire n d.guard }, refl, i)
  handle-Goes (ends n) d sh i = inl (record d { guard = finish n d.guard }, refl, i)
  handle-Goes (hang_up h s) d sh i = inl (hang_up-Goes h s d sh i)
  handle-Goes terminate d sh i = inr (refl, refl)

  -- Whatever events follow one another, each call to its end before the next, a daemon with a
  -- well-formed monitor whose checks have been initialized neither panics nor deadlocks, if the
  -- includes of a control file that is loaded anew nest no deeper than the stack admits. It is still
  -- such a daemon after the events, or it has exited with code 0, and then one of them is a signal
  -- to terminate.
  pub run-IsSound :
      (es : List Event) (d : State S)
      → All IsWithin es
      → IsSound d
      → ((d' : State S) × (run S es d ≡ returns d') × IsSound d')
        ⊎ ((run S es d ≡ exits 0 "") × (any is_terminate es ≡ true))
  unfolding run
  run-IsSound [] d all i = inl (d, refl, i)
  run-IsSound (e ∷ es) d (sh, all) i = elim (handle-Goes e d sh i) [
    | inr (over, stops_it) ↦ inr (rw over refl, ground (arith, stops_it))
    | inl (d1, done, i1) ↦ elim (run-IsSound es d1 all i1) [
      | inl (d2, done2, i2) ↦ inl (d2, rw done done2, i2)
      | inr (over, stops_it) ↦ inr (rw done over, ground (arith, stops_it))
    ]
  ]
