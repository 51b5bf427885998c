-- ===== src/Server/Keeps.antt =====
-- The routes of monitor/server.go on monitors whose checks have been initialized.
use gonit.Base.{
  String, ◌≡◌, refl, subst, some-injective, Bool, true, false, Option, none, some, List, [], ◌∷◌,
  returns, if◌then◌else◌, same_text, ◌⊎◌, inl, inr, Option-cases, Bool-cases,
}
use gonit.Check.{Check, Process}
use gonit.Check.Once.{do_once}
use gonit.Database.Storer.{Storer}
use gonit.Entries.{Value}
use gonit.Monitor.Operable.{IsOperable, IsOperable-flag_check}
use gonit.Monitor.Operations.{find_process_check}
use gonit.Monitor.{not_found, or_nothing}
use gonit.Registry.{find_check}
use gonit.Server.{
  CmdResponse, Daemon, Service, busy, process_cb, flag_cb, process_service, ProcessOperation,
  process_operation, flag_service, serve_one, serve_each, serve_all, service_of, response_of,
  joined,
}

module _ (S : Storer Value) (unique_id : Check → String) where
  abbrev pub Sound : Daemon S unique_id → Type 0
  Sound d = IsOperable S d.monitor

  -- A callback returns, and the monitor stays sound.
  abbrev pub CbKeeps : Service S unique_id → Type 0
  CbKeeps s =
      (id : String) (d : Daemon S unique_id)
      → Sound d
      → (why : Option String) × (d' : Daemon S unique_id) × (s.cb id d ≡ returns (why, d'))
        × Sound d'

  process_cb-keeps : (op : ProcessOperation) → CbKeeps (process_service S unique_id op)
  unfolding process_cb
  process_cb-keeps op id d i = from (find_process_check id d.monitor.checks) refl
    where
      from :
          (o : String ⊎ (Check × Process))
          → find_process_check id d.monitor.checks ≡ o
          → (why : Option String) × (d' : Daemon S unique_id) × (process_cb S unique_id op id d
              ≡ returns (why, d'))
            × Sound d'
      from (inl why) e = (some why, d, rw (process_cb, e) refl, i)
      from (inr (c, p)) e = (
        (if (do_once (unique_id c) d.guard).0 then some (busy id) else none),
        record d {
          guard = (do_once (unique_id c) d.guard).1;
          begun = if (do_once (unique_id c) d.guard).0 then d.begun else (op, c.id) ∷ d.begun;
        },
        rw (process_cb, e) refl,
        i,
      )

  flag_cb-keeps : (b : Bool) → CbKeeps (flag_service S unique_id b)
  unfolding flag_cb
  flag_cb-keeps b id d i = elim (Option-cases (find_check id d.monitor.checks)) [
    | inl missing ↦ (some (not_found id), d, rw (flag_cb, missing) refl, i)
    | inr (c, found) ↦
        let (why, m, done, i') = IsOperable-flag_check S b c.id d.monitor i in
        (why, record d { monitor = m }, rw (flag_cb, found) (rw done refl), i')
  ]

  serve_each-keeps :
      (s : Service S unique_id) (cs : List Check) (d : Daemon S unique_id)
      → CbKeeps s
      → Sound d
      → (errors : List String) × (d' : Daemon S unique_id) × (serve_each S unique_id s cs d
          ≡ returns (errors, d'))
        × Sound d'
  unfolding serve_each
  serve_each-keeps s [] d keeps i = ([], d, refl, i)
  serve_each-keeps s (c ∷ cs) d keeps i = elim (Bool-cases (s.should_skip c)) [
    | inl skip ↦
        let (errors, d', done, i') = serve_each-keeps s cs d keeps i in
        (errors, d', rw (serve_each, skip) done, i')
    | inr serve ↦
        let (why, d1, first, i1) = keeps c.id d i in
        let (errors, d2, done, i2) = serve_each-keeps s cs d1 keeps i1 in
        (or_nothing why errors, d2, rw (serve_each, serve) (rw first (rw done refl)), i2)
  ]

  -- A route for one check, or for all, answers, and the monitor stays sound.
  abbrev pub Serves : Service S unique_id → Daemon S unique_id → Type 0
  Serves s d =
      ((id : String)
        → (r : CmdResponse) × (d' : Daemon S unique_id) × (serve_one S unique_id s id d
            ≡ returns (r, d'))
          × Sound d')
      × ((r : CmdResponse) × (d' : Daemon S unique_id) × (serve_all S unique_id s d
            ≡ returns (r, d'))
          × Sound d')

  serves : (s : Service S unique_id) (d : Daemon S unique_id) → CbKeeps s → Sound d → Serves s d
  unfolding serve_one serve_all
  serves s d keeps i = (one, all)
    where
      one :
          (id : String)
          → (r : CmdResponse) × (d' : Daemon S unique_id) × (serve_one S unique_id s id d
              ≡ returns (r, d'))
            × Sound d'
      one id = let (why, d', done, i') = keeps id d i in (response_of why, d', rw done refl, i')

      all :
          (r : CmdResponse) × (d' : Daemon S unique_id) × (serve_all S unique_id s d
            ≡ returns (r, d'))
          × Sound d'
      all =
          let (errors, d', done, i') = serve_each-keeps s d.monitor.checks d keeps i in
          (response_of (joined errors), d', rw done refl, i')

  -- Whatever the command, its routes serve, if there are any.
  pub service_of-Serves :
      (cmd : String) (s : Service S unique_id) (d : Daemon S unique_id)
      → service_of S unique_id cmd ≡ some s
      → Sound d
      → Serves s d
  service_of-Serves cmd s d e i = elim (Option-cases (process_operation cmd)) [
    | inr (op, process) ↦
        subst (λ s. Serves s d) (some-injective (rw (service_of, process) at e))
          (serves (process_service S unique_id op) d (process_cb-keeps op) i)
    | inl other ↦ elim (Bool-cases (same_text cmd "monitor")) [
      | inl on ↦
          subst (λ s. Serves s d) (some-injective (rw (service_of, other, on) at e))
            (serves (flag_service S unique_id true) d (flag_cb-keeps true) i)
      | inr other' ↦ elim (Bool-cases (same_text cmd "unmonitor")) [
        | inl off ↦
            subst (λ s. Serves s d) (some-injective (rw (service_of, other, other', off) at e))
              (serves (flag_service S unique_id false) d (flag_cb-keeps false) i)
        | inr none_ ↦ absurd (no_service (rw (service_of, other, other', none_) at e))
      ]
    ]
  ]
    where
      no_service : Path (Option (Service S unique_id)) none (some s) → ⊥
      no_service e = cc
