-- ===== src/Monitor/Durable.antt =====
-- What `UpdateDatabase` of monitor/monitor.go leaves on the disk, for the next process.
use mathlib.Core.Option
use gonit.Base.{
  String, ◌≡◌, refl, returns-injective, sym, ap, subst, inl, inr, Option-cases, ◌∙◌, Bool, true,
  false, Option, none, some, List, [], ◌∷◌, arith, Outcome, returns,
}
use gonit.Database.Storer.{Storer}
use gonit.Entries.{Value, as_entry, on_entry, unlock}
use gonit.Check.{Check, set_monitored}
use gonit.Registry.{find_check, update_check, ids, IsDistinct, IsSetUp, is_on}
use gonit.Registry.Laws.{any-ids, update_check-IsDistinct}
use gonit.Monitor.Update.{
  stamped, is_idle, AllIdle, record_checks_lem, prune_lem, prune-Ready, update_database_lem,
}
use gonit.Monitor.Flags.{update_check-IsSetUp, keeps_id}
use gonit.Monitor.Invariant.{IsWellFormed, flag_of}
use gonit.Monitor.{Monitor, prune, release, update_database, flag_check, set_flag}

-- A storage that another process can open again from what was saved of it. `wire` is what becomes of
-- a value that is saved and read.
pub record Durable (S : Storer Value) : Type 0 where
  pub wire : Value → Value
  pub reopen : S.State → Outcome S.State
  -- The flag of an entry is saved, and its lock is not.
  pub wire_flag :
      (v : Value)
      → Option.map (λ e. e.monitored) (as_entry (some (wire v)))
        ≡ Option.map (λ e. e.monitored) (as_entry (some v))
  pub wire_idle : (v : Value) → is_idle (some (wire v)) ≡ true
  -- What is not saved is not seen.
  pub reopen-modify :
      (s : S.State) (k : String) (f : Value → Value) → reopen (S.modify s k f) ≡ reopen s
  pub reopen-serialize :
      (s s' : S.State)
      → S.Ready s
      → S.serialize s ≡ returns (none, s')
      → (s'' : S.State) × (reopen s' ≡ returns s'')
        × ((k : String) → S.get s'' k ≡ Option.map wire (S.get s k))
        × S.Ready s''

module _ (S : Storer Value) (D : Durable S) where
  open S use {State, get, keys_of, Ready, any-keys_of, serialize, serialize_returns}
  open D use {wire, reopen, wire_flag, wire_idle, reopen-modify, reopen-serialize}

  reopen-release : (ks : List String) (s : State) → reopen (release S ks s) ≡ reopen s
  unfolding release unlock
  reopen-release [] s = refl
  reopen-release (k ∷ ks) s =
      reopen-modify (release S ks s) k (on_entry (λ e. record e { locked = false }))
      ∙ reopen-release ks s

  -- The next process finds an entry for each check, as it was when the database was saved.
  pub reopen-update_database :
      (cs : List Check) (s s' : State)
      → IsDistinct cs
      → IsSetUp cs
      → Ready s
      → AllIdle S cs s
      → update_database S cs s ≡ returns (none, s')
      → (s'' : State) × (reopen s' ≡ returns s'')
        × ((k : String)
            → get s'' k ≡ Option.map (λ c. wire (stamped c (get s k))) (find_check k cs))
        × Ready s''
  unfolding update_database
  reopen-update_database cs s s' d m r idle e =
      let (s1, done, at, r1) = record_checks_lem S cs s d m r idle in
      let s2 = prune S (ids cs) (keys_of s1) s1 in
      let r2 = prune-Ready S (ids cs) (keys_of s1) s1 r1 in
      let (why, s3, saved, same, r3) = serialize_returns s2 r2 in
      let ran : update_database S cs s ≡ returns (why, release S (ids cs) s3) =
        rw done (rw saved refl) in
      let same_end = returns-injective (sym ran ∙ e) in
      let (s'', opened, read, r'') =
        reopen-serialize s2 s3 r2 (saved ∙ ap (λ w. returns (w, s3)) (ap (λ x. x.0) same_end)) in
      (
        s'',
        ap reopen (sym (ap (λ x. x.1) same_end)) ∙ reopen-release (ids cs) s3 ∙ opened,
        λ k. ground (
          arith,
          read k,
          prune_lem S (ids cs) (keys_of s1) s1 k,
          at k,
          any-ids k cs,
          any-keys_of s1 k,
        ),
        r'',
      )

  -- What the next process finds: the flags of a monitor, with nobody at the locks.
  abbrev pub Finds : Monitor S → State → Type 0
  Finds m s =
      ((k : String) → Option.map (λ e. e.monitored) (as_entry (get s k)) ≡ flag_of S k m)
      × ((k : String) → is_idle (get s k) ≡ true)
      × Ready s

  found_flag :
      (s : State) (k : String) (c : Check) (o : Option Value)
      → get s k ≡ some (wire (stamped c o))
      → (Option.map (λ e. e.monitored) (as_entry (get s k)) ≡ some (is_on c))
        × (is_idle (get s k) ≡ true)
  found_flag s k c o e = rw e (wire_flag (stamped c o), wire_idle (stamped c o))

  reopen-flag_check :
      (b : Bool) (id : String) (m m' : Monitor S)
      → IsWellFormed S m
      → flag_check S b id m ≡ returns (none, m')
      → (s'' : State) × (reopen m'.database ≡ returns s'') × Finds m' s''
  unfolding flag_check
  reopen-flag_check b id m m' w e =
      let cs = update_check id (set_monitored b) m.checks in
      let d = update_check-IsDistinct (set_monitored b) (keeps_id b) id m.checks w.distinct in
      let up = update_check-IsSetUp b id m.checks w.set_up in
      let (why, s, done, at, r) =
        update_database_lem S cs m.database d up w.ready (λ k _. w.idle k) in
      let ran : flag_check S b id m ≡ returns (why, record m { checks = cs; database = s }) =
        rw done refl in
      let same_end = returns-injective (sym ran ∙ e) in
      let (s'', opened, read, r'') =
        reopen-update_database cs m.database s d up w.ready (λ k _. w.idle k)
          (done ∙ ap (λ o. returns (o, s)) (ap (λ x. x.0) same_end)) in
      (
        s'',
        ap (λ x. reopen x.1.database) (sym same_end) ∙ opened,
        subst (λ n. Finds n s'') (ap (λ x. x.1) same_end) (found s'' read r'' s),
      )
    where
      found :
          (s'' : State)
          → ((k : String)
              → get s'' k
                ≡ Option.map
                    (λ c. wire (stamped c (get m.database k)))
                    (find_check k (update_check id (set_monitored b) m.checks)))
          → Ready s''
          → (s : State)
          → Finds
              (record m { checks = update_check id (set_monitored b) m.checks; database = s })
              s''
      found s'' read r'' s = ((λ k. (each k).0), (λ k. (each k).1), r'')
        where
          each :
              (k : String)
              → (Option.map (λ e. e.monitored) (as_entry (get s'' k))
                  ≡ Option.map is_on (find_check k (update_check id (set_monitored b) m.checks)))
                × (is_idle (get s'' k) ≡ true)
          each k = elim (Option-cases (find_check k (update_check id (set_monitored b) m.checks))) [
            | inl gone ↦ let e' = rw gone at (read k) in rw (gone, e') (refl, refl)
            | inr (c, there) ↦
                rw there (found_flag s'' k c (get m.database k) (rw there at (read k)))
          ]

  -- After a `Monitor` or an `Unmonitor` without an error the next process finds the flags as they
  -- are in memory.
  pub reopen-set_flag :
      (b : Bool) (id : String) (m m' : Monitor S)
      → IsWellFormed S m
      → set_flag S b id m ≡ returns (none, m')
      → (s'' : State) × (reopen m'.database ≡ returns s'') × Finds m' s''
  unfolding set_flag
  reopen-set_flag b id m m' w e = elim (Option-cases (find_check id m.checks)) [
    | inl missing ↦ absurd (ground (arith, rw (set_flag, missing) at e))
    | inr (c, there) ↦ reopen-flag_check b c.id m m' w (rw (set_flag, there) at e)
  ]
