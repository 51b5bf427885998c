-- ===== src/Server/Flags.antt =====
-- The routes `/monitor_all` and `/unmonitor_all` of monitor/server.go against `MonitorAll` and
-- `UnmonitorAll` of monitor/monitor.go.
use gonit.Base.{
  String, ◌≡◌, refl, sym, ap, ◌∙◌, Bool, true, Option, List, [], ◌∷◌, returns, same_text, any,
  arith, Option-cases, eq_iff, is_some, inl, inr,
}
use gonit.Check.{Check}
use gonit.Database.Storer.{Storer}
use gonit.Entries.{Value}
use gonit.Monitor.Flags.{flag_check_lem}
use gonit.Monitor.Invariant.{IsWellFormed}
use gonit.Monitor.{Monitor, or_nothing, flag_check, flag_each, set_all_flags}
use gonit.Registry.Laws.{any-ids, id-find_check}
use gonit.Registry.{find_check, ids}
use gonit.Server.{response_of, joined, Daemon, flag_cb, flag_service, serve_each, serve_all}

module _ (S : Storer Value) where
  -- Every check of a list is registered under its id.
  abbrev Registered : List Check → Monitor S → Type 0
  Registered cs m =
      (k : String) → is_some (find_check k cs) ≡ true → is_some (find_check k m.checks) ≡ true

  kept :
      (m m' : Monitor S)
      → ids m'.checks ≡ ids m.checks
      → (k : String) → is_some (find_check k m.checks) ≡ is_some (find_check k m'.checks)
  kept m m' same k =
      sym (any-ids k m.checks) ∙ ap (any (λ j. same_text j k)) (sym same) ∙ any-ids k m'.checks

  module _ (unique_id : Check → String) where
    flag_cb_registered :
        (b : Bool) (id : String) (d : Daemon S unique_id) (why : Option String) (m : Monitor S)
        → is_some (find_check id d.monitor.checks) ≡ true
        → flag_check S b id d.monitor ≡ returns (why, m)
        → flag_cb S unique_id b id d ≡ returns (why, record d { monitor = m })
    unfolding flag_cb
    flag_cb_registered b id d why m there ran =
        elim (Option-cases (find_check id d.monitor.checks)) [
          | inl missing ↦ absurd (ground (arith, missing, there))
          | inr (c, found) ↦ ground (arith, found, ran, id-find_check id d.monitor.checks c found)
        ]

    serve_each_flags :
        (b : Bool) (cs : List Check) (d : Daemon S unique_id)
        → IsWellFormed S d.monitor
        → Registered cs d.monitor
        → (errors : List String) × (m : Monitor S) × (flag_each S b (ids cs) d.monitor
            ≡ returns (errors, m))
          × (serve_each S unique_id (flag_service S unique_id b) cs d
              ≡ returns (errors, record d { monitor = m }))
    unfolding serve_each flag_each find_check
    serve_each_flags b [] d w there = ([], d.monitor, refl, refl)
    serve_each_flags b (c ∷ cs) d w there =
        let (why, m1, ran, w1, same, _, _) = flag_check_lem S b c.id d.monitor w in
        let still : Registered cs m1 =
          λ k h. sym (kept d.monitor m1 same k) ∙ there k (ground (arith, h)) in
        let (errors, m2, each, served) =
          serve_each_flags b cs (record d { monitor = m1 }) w1 still in
        let first =
          flag_cb_registered b c.id d why m1 (there c.id (ground (arith, eq_iff c.id c.id))) ran in
        (or_nothing why errors, m2, rw (ran, each) refl, rw (first, served) refl)

    -- On a well-formed monitor the routes for all checks do what `MonitorAll` and `UnmonitorAll` do: they
    -- leave the same monitor, and report success exactly with no errors, else the errors, a line for
    -- each; the states of `doOnce` are as before.
    pub serve_all_flags_lem :
        (b : Bool) (d : Daemon S unique_id) (errors : List String) (m : Monitor S)
        → IsWellFormed S d.monitor
        → set_all_flags S b d.monitor ≡ returns (errors, m)
        → serve_all S unique_id (flag_service S unique_id b) d
          ≡ returns (response_of (joined errors), record d { monitor = m })
    unfolding serve_all set_all_flags
    serve_all_flags_lem b d errors m w ran =
        let (errors', m', each, served) = serve_each_flags b d.monitor.checks d w (λ k h. h) in
        ground (arith, ran, each, served)
