-- ===== src/Server/Routes.antt =====
-- The routes of the process commands of monitor/server.go, one request after the other.
use gonit.Base.{
  String, ◌≡◌, refl, true, false, some, returns, inl, inr, ◌∷◌, arith, Bool-cases, eq_iff,
}
use gonit.Base.Table.{lookup-insert}
use gonit.Check.Once.{in_progress, do_once}
use gonit.Check.{Check, Process}
use gonit.Database.Storer.{Storer}
use gonit.Entries.{Value}
use gonit.Monitor.Operations.{find_process_check}
use gonit.Server.{
  CmdResponse, response_of, Daemon, ProcessOperation, busy, process_cb, process_service, serve_one,
}

module _ (S : Storer Value) (unique_id : Check → String) where
  -- The daemon after a request that is not refused.
  abbrev taken : ProcessOperation → Daemon S unique_id → Check → Daemon S unique_id
  taken op d c = record d {
    guard = (do_once (unique_id c) d.guard).1;
    begun = (op, c.id) ∷ d.begun;
  }

  refused_again :
      (op op' : ProcessOperation) (id : String) (d : Daemon S unique_id) (c : Check) (p : Process)
      → find_process_check id d.monitor.checks ≡ inr (c, p)
      → in_progress (unique_id c) d.guard ≡ false
      → serve_one S unique_id (process_service S unique_id op') id (taken op d c)
        ≡ returns (response_of (some (busy id)), taken op d c)
  unfolding serve_one process_cb do_once
  refused_again op op' id d c p there free = ground (
    arith,
    there,
    free,
    lookup-insert (unique_id c) (unique_id c) true d.guard.states,
    eq_iff (unique_id c) (unique_id c),
  )

  -- A request to start, stop or restart a check that is answered with success blocks the check: the
  -- next such request for it, of whichever of the three it is, is refused and changes nothing, and
  -- the monitor's checks and database are as before throughout.
  pub serve_one-serve_one :
      (op op' : ProcessOperation) (id : String) (d d' : Daemon S unique_id) (r : CmdResponse)
      → serve_one S unique_id (process_service S unique_id op) id d ≡ returns (r, d')
      → r.success ≡ true
      → (d'.monitor ≡ d.monitor)
        × (serve_one S unique_id (process_service S unique_id op') id d'
            ≡ returns (response_of (some (busy id)), d'))
  unfolding serve_one process_cb do_once
  serve_one-serve_one op op' id d d' r ran ok =
      elim (find_process_check id d.monitor.checks)
          as (λ o.
            find_process_check id d.monitor.checks ≡ o
            → (d'.monitor ≡ d.monitor)
              × (serve_one S unique_id (process_service S unique_id op') id d'
                  ≡ returns (response_of (some (busy id)), d'))) [
                    | inl why ↦ λ e. absurd (ground (arith, e, ran, ok))
                    | inr cp ↦ λ e. elim (Bool-cases (in_progress (unique_id cp.0) d.guard)) [
                      | inl blocked ↦ absurd (ground (arith, e, ran, ok, blocked))
                      | inr free ↦
                          let at : d' ≡ taken op d cp.0 = ground (arith, e, ran, free) in
                          rw at (refl, refused_again op op' id d cp.0 cp.1 e free)
                    ]
                  ]
        refl
