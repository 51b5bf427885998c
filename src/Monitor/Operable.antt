-- ===== src/Monitor/Operable.antt =====
-- Monitors whose checks have all been through `Initialize`: no operation on them panics.
use gonit.Base.{
  String, ◌≡◌, refl, sym, ap, subst, ◌∙◌, Bool, Option, none, some, List, [], ◌∷◌, ◌++◌, All, arith,
  returns, returns-injective, some-injective, bind-returns, if◌then◌else◌, same_text, Option-cases,
  Bool-cases, inl, inr,
}
use gonit.Check.{Check, Host, is_monitored, initialize, set_monitored}
use gonit.Check.Service.Keeps.{
  IsInitialized, Follows, initialize-Follows, set_monitored-IsInitialized,
}
use gonit.Database.Storer.{Storer}
use gonit.Entries.{Value}
use gonit.Monitor.Add.{add_check-Added, add_check_lem, add_check_conflict}
use gonit.Monitor.Flags.{flag_check_lem}
use gonit.Monitor.Invariant.{IsWellFormed, or_on, stored_flag}
use gonit.Monitor.Load.Keeps.{AddKeeps, SocketKeeps}
use gonit.Monitor.Load.Laws.{with_socket}
use gonit.Monitor.Update.{update_database_lem}
use gonit.Monitor.{Monitor, due, perform, flag_check, update_database}
use gonit.Registry.{find_check, update_check, IsDistinct, IsSetUp, conflict}
use gonit.Registry.Laws.{update_check-IsDistinct, update_check_cong}

-- Every check has been initialized.
abbrev pub AreInitialized : List Check → Type 0
AreInitialized cs = All IsInitialized cs

AreInitialized-append :
    (cs : List Check) (c : Check)
    → AreInitialized cs
    → IsInitialized c
    → AreInitialized (cs ++ c ∷ [])
AreInitialized-append [] c all i = (i, tt)
AreInitialized-append (d ∷ cs) c all i = (all.0, AreInitialized-append cs c all.1 i)

AreInitialized-IsSetUp : (cs : List Check) → AreInitialized cs → IsSetUp cs
AreInitialized-IsSetUp [] all = tt
AreInitialized-IsSetUp (c ∷ cs) all = (all.0.flag, AreInitialized-IsSetUp cs all.1)

AreInitialized-update_check :
    (id : String) (f : Check → Check) (cs : List Check)
    → ((c : Check) → IsInitialized c → IsInitialized (f c))
    → AreInitialized cs
    → AreInitialized (update_check id f cs)
unfolding update_check
AreInitialized-update_check id f [] keeps all = tt
AreInitialized-update_check id f (c ∷ cs) keeps all = elim (Bool-cases (same_text c.id id)) [
  | inl e ↦ rw e (keeps c all.0, all.1)
  | inr e ↦ rw e (all.0, AreInitialized-update_check id f cs keeps all.1)
]

pub find_check-IsInitialized :
    (id : String) (cs : List Check) (c : Check)
    → AreInitialized cs
    → find_check id cs ≡ some c
    → IsInitialized c
unfolding find_check
find_check-IsInitialized id [] c all e = absurd (ground (arith, e))
find_check-IsInitialized id (d ∷ cs) c all e = elim (Bool-cases (same_text d.id id)) [
  | inl here ↦ subst IsInitialized (some-injective (rw (find_check, here) at e)) all.0
  | inr other ↦ find_check-IsInitialized id cs c all.1 (rw (find_check, other) at e)
]

due_returns :
    (S : Storer Value) (cs : List Check)
    → AreInitialized cs
    → (ds : List Check) × (due S cs ≡ returns ds)
unfolding due is_monitored
due_returns S [] all = ([], refl)
due_returns S (c ∷ cs) all =
    let (b, on) = all.0.flag in
    let (ds, done) = due_returns S cs all.1 in
    ((if b then c ∷ ds else ds), ground (arith, on, done))

module _ (S : Storer Value) where
  -- A well-formed monitor whose checks have been initialized.
  pub record IsOperable (m : Monitor S) : Type 0 where
    pub well_formed : IsWellFormed S m
    pub initialized : AreInitialized m.checks

  pub IsOperable-add : (h : Host) → AddKeeps S h IsOperable
  IsOperable-add h c m i = elim (Option-cases (find_check c.id m.checks)) [
    | inr (d, taken) ↦ (some (conflict c.id), m, add_check_conflict S h c d m taken, i)
    | inl new ↦
        let (m1, done, w, _, _, _) = add_check_lem S h c m i.well_formed new in
        let (m2, done2, a) = add_check-Added S h c m i.well_formed new in
        let same : m2 ≡ m1 = ap (λ x. x.1) (returns-injective (sym done2 ∙ done)) in
        (
          none,
          m2,
          done2,
          record {
            well_formed = subst (IsWellFormed S) (sym same) w;
            initialized = subst AreInitialized (sym a.checks) (
                AreInitialized-append m.checks
                  (set_monitored (or_on (stored_flag S (initialize h c).id m)) (initialize h c))
                  i.initialized
                  (set_monitored-IsInitialized (or_on (stored_flag S (initialize h c).id m))
                    (initialize h c) (initialize-Follows h c).1));
          },
        )
  ]

  pub IsOperable-emptied : (m : Monitor S) → IsOperable m → IsOperable (record m { checks = [] })
  IsOperable-emptied m i = record {
    well_formed = record {
      distinct = tt;
      set_up = tt;
      ready = i.well_formed.ready;
      idle = i.well_formed.idle;
    };
    initialized = tt;
  }

  pub IsOperable-socket : (h : Host) → SocketKeeps S h IsOperable
  IsOperable-socket h m socket i = record {
    well_formed = with_socket S h m socket i.well_formed;
    initialized = i.initialized;
  }

  -- Writing a flag and the database returns, whatever the id.
  pub IsOperable-flag_check :
      (b : Bool) (id : String) (m : Monitor S)
      → IsOperable m
      → (why : Option String) × (m' : Monitor S) × (flag_check S b id m ≡ returns (why, m'))
        × IsOperable m'
  unfolding flag_check
  IsOperable-flag_check b id m i =
      let (why, m', done, w, _, _, _) = flag_check_lem S b id m i.well_formed in
      let cs = update_check id (set_monitored b) m.checks in
      let (r, ran, left) =
        bind-returns (update_database S cs m.database)
          (λ x. returns (x.0, record m { checks = cs; database = x.1 })) (why, m') done in
      let same = ap (λ x. x.1.checks) (returns-injective left) in
      (
        why,
        m',
        done,
        record {
          well_formed = w;
          initialized = subst AreInitialized same (
              AreInitialized-update_check id (set_monitored b) m.checks
                (set_monitored-IsInitialized b) i.initialized);
        },
      )

  -- The database is written for the checks as they are.
  pub IsOperable-update_database :
      (m : Monitor S)
      → IsOperable m
      → (why : Option String) × (s : S.State) × (update_database S m.checks m.database
          ≡ returns (why, s))
        × IsOperable (record m { database = s })
  IsOperable-update_database m i =
      let w = i.well_formed in
      let (why, s, done, at, r) =
        update_database_lem S m.checks m.database w.distinct w.set_up w.ready (λ k _. w.idle k) in
      (
        why,
        s,
        done,
        record {
          well_formed = record {
            distinct = w.distinct;
            set_up = w.set_up;
            ready = r;
            idle = λ k. ground (arith, at k, w.idle k);
          };
          initialized = i.initialized;
        },
      )

  -- A check is replaced by one that it has become.
  pub IsOperable-update_check :
      (id : String) (c c' : Check) (m : Monitor S)
      → IsOperable m
      → find_check id m.checks ≡ some c
      → Follows c c'
      → IsOperable (record m { checks = update_check id (λ _. c') m.checks })
  IsOperable-update_check id c c' m i found (same, i') =
      let w = i.well_formed in
      let all = AreInitialized-update_check id (λ _. c') m.checks (λ d _. i') i.initialized in
      let alike : update_check id (λ _. c') m.checks
          ≡ update_check id (λ d. record c' { id = d.id }) m.checks =
        update_check_cong id (λ _. c') (λ d. record c' { id = d.id }) m.checks c found
          (ap (λ k. record c' { id = k }) same) in
      record {
        well_formed = record {
          distinct = subst IsDistinct (sym alike) (
              update_check-IsDistinct (λ d. record c' { id = d.id }) (λ d. refl) id m.checks
                w.distinct);
          set_up = AreInitialized-IsSetUp (update_check id (λ _. c') m.checks) all;
          ready = w.ready;
          idle = w.idle;
        };
        initialized = all;
      }

  -- `Perform` returns, and only the time of the last check is new.
  pub IsOperable-perform :
      (h : Host) (m : Monitor S)
      → IsOperable m
      → (cs : List Check) × (perform S h m ≡ returns (cs, record m { last_check = some h.now }))
        × IsOperable (record m { last_check = some h.now })
  unfolding perform
  IsOperable-perform h m i =
      let (cs, done) = due_returns S m.checks i.initialized in
      let w = i.well_formed in
      (
        cs,
        rw done refl,
        record {
          well_formed = record {
            distinct = w.distinct;
            set_up = w.set_up;
            ready = w.ready;
            idle = w.idle;
          };
          initialized = i.initialized;
        },
      )
