-- ===== src/Monitor/Load/Laws.antt =====
-- `Reload` of monitor/monitor.go and the reading of the control file in `New`.
use mathlib.Core.List.{append_assoc, append-nil}
use gonit.Base.{
  String, subst, ◌≢◌, ◌⊎◌, ◌≡◌, refl, sym, ap, ◌∙◌, true, Option, none, some, List, [], ◌∷◌, ◌++◌,
  arith, returns, exits, ℕ, if◌then◌else◌, eq_iff, inl, inr, Option-cases, Bool-cases, is_some,
}
use gonit.Config.{Source, refused, Validator, new_validator, validating, parse_config_file}
use gonit.Config.Walk.{IsWithinStack}
use gonit.Config.Validation.{validated_IsDistinct, validation_IsDistinct}
use gonit.Database.Storer.{Storer}
use gonit.Files.{Disk, ensure_permissions, ensure_safe_permissions}
use gonit.Files as Files
use gonit.Entries.{Value}
use gonit.Check.{Check, Host, initialize, set_monitored}
use gonit.Check.Initialize.{AreKept, initialize-IsKept}
use gonit.Registry.{find_check, ids, IsDistinct, conflict}
use gonit.Monitor.Invariant.{IsWellFormed, flag_of, stored_flag, or_on}
use gonit.Monitor.Add.{add_check_lem, add_check_checks, add_check_conflict}
use gonit.Monitor.Load.Keeps.{load_ends}
use gonit.Monitor.Load.{refusal, add_all, reload, load}
use gonit.Monitor.{Monitor, add_check}

module _ (S : Storer Value) (h : Host) where
  -- What the loop of `Reload` leaves, from a monitor that has none of the ids.
  pub record Reloaded (cs : List Check) (m m' : Monitor S) : Type 0 where
    pub well_formed : IsWellFormed S m'
    pub same_ids : ids m'.checks ≡ ids m.checks ++ ids cs
    pub flags :
        (k : String)
        → flag_of S k m'
          ≡ (if is_some (find_check k cs) then some (or_on (stored_flag S k m)) else flag_of S k m)
    pub kept : (l : List Check) × (m'.checks ≡ m.checks ++ l) × AreKept h cs l

  abbrev AllNew : List Check → Monitor S → Type 0
  AllNew cs m = (k : String) → is_some (find_check k cs) ≡ true → flag_of S k m ≡ none

  add_all_lem :
      (cs : List Check) (m : Monitor S)
      → IsWellFormed S m
      → IsDistinct cs
      → AllNew cs m
      → (m' : Monitor S) × (add_all S h cs m ≡ returns m') × Reloaded cs m m'
  unfolding add_all find_check
  add_all_lem [] m w d new = (
    m,
    refl,
    record {
      well_formed = w;
      same_ids = sym (append-nil _);
      flags = λ k. refl;
      kept = ([], sym (append-nil _), tt);
    },
  )
  add_all_lem (c ∷ cs) m w d new =
      let absent : find_check c.id m.checks ≡ none = ground (arith, new c.id, eq_iff c.id c.id) in
      let (m1, done1, w1, ids1, flags1, stored1) = add_check_lem S h c m w absent in
      let later : AllNew cs m1 = λ k there. ground (arith, new k, flags1 k, eq_iff c.id k, d.0) in
      let (m2, done2, r) = add_all_lem cs m1 w1 d.1 later in
      (
        m2,
        rw done1 done2,
        record {
          well_formed = r.well_formed;
          same_ids =
              r.same_ids
              ∙ ap (λ l. l ++ ids cs) ids1
              ∙ append_assoc (ids m.checks) (c.id ∷ []) (ids cs);
          flags = λ k. ground (arith, r.flags k, flags1 k, stored1 k, eq_iff c.id k, d.0);
          kept =
              let (l, at, all) = r.kept in
              let (b, at1) = add_check_checks S h c m m1 w absent done1 in
              (
                set_monitored b (initialize h c) ∷ l,
                at
                    ∙ ap (λ o. o ++ l) at1
                    ∙ append_assoc m.checks (set_monitored b (initialize h c) ∷ []) l,
                (initialize-IsKept h b c, all),
              );
        },
      )

  emptied : (m : Monitor S) → IsWellFormed S m → IsWellFormed S (record m { checks = [] })
  emptied m w = record { distinct = tt; set_up = tt; ready = w.ready; idle = w.idle }

  -- A reload that the validator lets pass returns no error. The checks are then those that the
  -- validator has collected, in order, with the same ids, objects and timeouts; a process has the
  -- same group, pid file, limit and count of tries, its start and stop program are those of the
  -- control file, with the timeout of the check if they have none of their own, and the empty command
  -- where the control file has none, and its start is taken to be now if it runs. Each check has the
  -- flag that the database has for its id, or is on if there is none; no other check is left, and the
  -- monitor is well-formed.
  pub reload_accepted :
      (s : Source) (m : Monitor S) (why : Option String) (v : Validator)
      → IsWellFormed S m
      → parse_config_file validating s new_validator ≡ returns (why, v)
      → v.success ≡ true
      → (m' : Monitor S) × (reload S h s m ≡ returns (none, m'))
        × IsWellFormed S m'
        × (ids m'.checks ≡ ids v.checks)
        × AreKept h v.checks m'.checks
        × ((k : String)
            → flag_of S k m' ≡ (
                if is_some (find_check k v.checks) then some (or_on (stored_flag S k m)) else none))
  unfolding reload
  reload_accepted s m why v w parsed ok =
      let (m', done, r) =
        add_all_lem v.checks (record m { checks = [] }) (emptied m w) distinct
          (λ k _. unfold find_check in refl) in
      (
        m',
        rw (reload, parsed) (rw ok (rw done refl)),
        r.well_formed,
        r.same_ids,
        (let (l, at, all) = r.kept in subst (AreKept h v.checks) (sym at) all),
        λ k. unfold find_check in r.flags k,
      )
    where
      distinct : IsDistinct v.checks
      distinct = validated_IsDistinct s why v parsed

  -- If the includes of the control file nest no deeper than the stack admits, `Reload` of a
  -- well-formed monitor neither deadlocks nor panics: it returns and leaves a well-formed monitor;
  -- if it returns an error, the monitor is as it was.
  pub reload-IsWellFormed :
      (s : Source) (m : Monitor S)
      → IsWithinStack s
      → IsWellFormed S m
      → (why : Option String) × (m' : Monitor S) × (reload S h s m ≡ returns (why, m'))
        × IsWellFormed S m'
        × ((why ≡ none) ⊎ (m' ≡ m))
  unfolding reload
  reload-IsWellFormed s m sh w =
      let (why, v, parsed, d) = validation_IsDistinct s sh in
      elim (Bool-cases v.success) [
        | inl ok ↦
            let (m', done, w', _, _, _) = reload_accepted s m why v w parsed ok in
            (none, m', done, w', inl refl)
        | inr bad ↦ (some refusal, m, rw (reload, parsed) (rw bad refl), w, inr refl)
      ]

  add_check_total :
      (c : Check) (m : Monitor S)
      → IsWellFormed S m
      → (why : Option String) × (m' : Monitor S) × (add_check S h c m ≡ returns (why, m'))
        × IsWellFormed S m'
  add_check_total c m w = elim (Option-cases (find_check c.id m.checks)) [
    | inl new ↦ let (m', done, w', _, _, _) = add_check_lem S h c m w new in (none, m', done, w')
    | inr (d, e) ↦ (some (conflict c.id), m, add_check_conflict S h c d m e, w)
  ]

  pub with_socket :
      (m : Monitor S) (socket : String)
      → IsWellFormed S m
      → IsWellFormed S (record m { socket_file = socket })
  with_socket m socket w = record {
    distinct = w.distinct;
    set_up = w.set_up;
    ready = w.ready;
    idle = w.idle;
  }

  -- If its includes nest no deeper than the stack admits, loading the control file into a
  -- well-formed monitor ends. Either the process
  -- exits with code 1, since the control file or the socket has not passed its check of permissions;
  -- or it returns, with an error or without, and leaves a well-formed monitor; on success the socket
  -- has passed, and one of the command line is the one in use.
  pub load-IsWellFormed :
      {B : Type 0} (fh : Files.Host B) (d : Disk B) (s : Source) (socket : String) (m : Monitor S)
      → IsWithinStack s
      → IsWellFormed S m
      → ((file why : String) × (max : ℕ) × (ensure_permissions fh d file max ≡ exits 1 why)
          × (load S h fh d s socket m ≡ exits 1 why))
        ⊎ ((why : Option String) × (m' : Monitor S) × (load S h fh d s socket m ≡ returns (why, m'))
            × IsWellFormed S m'
            × (why ≡ none
                → (ensure_permissions fh d m'.socket_file 0o660 ≡ returns tt)
                  × (socket ≢ "" → m'.socket_file ≡ socket)))
  load-IsWellFormed fh d s socket m sh w =
      load_ends S h (IsWellFormed S) fh d s socket m sh add_check_total with_socket w

  -- The bug: a control file that cannot be read passes the validation of `Reload`. The reload
  -- returns no error, and drops every check.
  pub reload_unreadable :
      (why : String) (m : Monitor S)
      → reload S h (refused why) m ≡ returns (none, record m { checks = [] })
  unfolding reload parse_config_file add_all
  reload_unreadable why m = refl
