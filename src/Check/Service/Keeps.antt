-- ===== src/Check/Service/Keeps.antt =====
-- What the operations of `ProcessCheck` in monitor/checks.go keep: the id, and the programs.

use Prim.Native.String.{◌++◌ as ◌+++◌}
use gonit.Base.{
  ◌∙◌, ◌+◌, String, ◌≡◌, refl, Bool, true, false, not, ◌&&◌, Option, none, some, Outcome, returns,
  if◌then◌else◌, leb, Bool-cases, Option-cases, inl, inr,
}
use gonit.Check.{
  Check, Process, Command, Host, wait_time, is_monitored, set_monitored, initialize,
  initialize_process,
}
use gonit.Check.Service.{
  Env, await, max_tries, settle, attempt, perform_process, perform, start, start_with, start_body,
  stop, stop_with, restart,
}

-- A process with both programs, or a plain check.
abbrev pub HasPrograms : Option Process → Type 0
HasPrograms none = Unit
HasPrograms (some p) =
    ((cmd : Command) × (p.start_program ≡ some cmd))
    × ((cmd : Command) × (p.stop_program ≡ some cmd))

-- A check that has been initialized.
pub record IsInitialized (c : Check) : Type 0 where
  pub flag : (b : Bool) × (c.monitored ≡ some b)
  pub programs : HasPrograms c.process

-- What a check has become: initialized, with the same id.
abbrev pub Follows : Check → Check → Type 0
Follows c c' = (c'.id ≡ c.id) × IsInitialized c'

pub initialize-Follows : (h : Host) (c : Check) → Follows c (initialize h c)
unfolding initialize set_monitored initialize_process
initialize-Follows h c = elim (Option-cases c.process) [
  | inl plain ↦ (refl, record { flag = (true, refl); programs = rw plain tt })
  | inr (p, has) ↦ (refl, record { flag = (true, refl); programs = rw has ((_, refl), (_, refl)) })
]

pub set_monitored-IsInitialized :
    (b : Bool) (c : Check) → IsInitialized c → IsInitialized (set_monitored b c)
unfolding set_monitored
set_monitored-IsInitialized b c i = record { flag = (b, refl); programs = i.programs }

settle-Follows :
    (c : Check) (q : Process) → IsInitialized c → HasPrograms (some q) → Follows c (settle c q)
unfolding settle set_monitored
settle-Follows c q i programs = elim (Bool-cases (leb (max_tries q) q.start_tries_cnt)) [
  | inl over ↦ rw over (refl, record { flag = (false, refl); programs = programs })
  | inr more ↦ rw more (refl, record { flag = i.flag; programs = programs })
]

-- The operations return, and what they leave follows the check.
abbrev pub Leaves : Check → Outcome Check → Type 0
Leaves c r = (c' : Check) × (r ≡ returns c') × Follows c c'

abbrev pub LeavesWith : Check → Outcome (Option String × Check) → Type 0
LeavesWith c r = (why : Option String) × (c' : Check) × (r ≡ returns (why, c')) × Follows c c'

attempt-Leaves :
    (e : Env) (c : Check) (p : Process)
    → IsInitialized c
    → HasPrograms (some p)
    → Leaves c (attempt e c p p.start_program)
unfolding attempt
attempt-Leaves e c p i ((cmd, begin), end) =
    let r = await e e.alive (wait_time cmd) in
    elim (Bool-cases r.0) [
      | inl up ↦
          let q = record p { start_tries_cnt = 0; started_at = some (e.now + r.1) } in
          (settle c q, rw begin (rw up refl), settle-Follows c q i ((cmd, begin), end))
      | inr down ↦
          let q = record p {
            start_tries_cnt = p.start_tries_cnt + 1;
            started_at = elim e.exec_done [ none ↦ p.started_at | some t ↦ some (e.now + t) ];
          } in
          (settle c q, rw begin (rw down refl), settle-Follows c q i ((cmd, begin), end))
    ]

is_monitored-returns : (c : Check) (b : Bool) → c.monitored ≡ some b → is_monitored c ≡ returns b
unfolding is_monitored
is_monitored-returns c b on = rw (is_monitored, on) refl

perform_process-Leaves :
    (e : Env) (c : Check) (p : Process)
    → IsInitialized c
    → HasPrograms (some p)
    → Leaves c (perform_process e c p)
unfolding perform_process
perform_process-Leaves e c p i programs =
    let (b, flag) = i.flag in
    let on = is_monitored-returns c b flag in
    elim (Bool-cases (b && not (e.alive 0))) [
      | inl tries ↦
          let (c', done, f) = attempt-Leaves e c p i programs in (c', rw on (rw tries done), f)
      | inr idle ↦ (c, rw on (rw idle refl), (refl, i))
    ]

pub perform-Leaves : (e : Env) (c : Check) → IsInitialized c → Leaves c (perform e c)
unfolding perform
perform-Leaves e c i = elim (Option-cases c.process) [
  | inl plain ↦ (c, rw plain refl, (refl, i))
  | inr (p, has) ↦
      let (c', done, f) = perform_process-Leaves e c p i (rw has at i.programs) in
      (c', rw (perform, has) done, f)
]

start_body-Follows :
    (e : Env) (c : Check) (p : Process)
    → IsInitialized c
    → HasPrograms (some p)
    → Follows c (start_body e c p)
unfolding start_body set_monitored
start_body-Follows e c p i programs = elim (Bool-cases (e.alive 0)) [
  | inl up ↦ rw up (refl, record { flag = (true, refl); programs = i.programs })
  | inr down ↦ rw down (refl, record { flag = (true, refl); programs = programs })
]

pub start-Leaves :
    (e : Env) (c : Check) (p : Process)
    → IsInitialized c
    → HasPrograms (some p)
    → LeavesWith c (start e c p)
unfolding start start_with
start-Leaves e c p i ((cmd, begin), end) = (
  if (await e e.alive (wait_time cmd)).0 then none else some ("Failed to start " +++ c.id),
  start_body e c p,
  rw begin refl,
  start_body-Follows e c p i ((cmd, begin), end),
)

pub stop-Leaves :
    (e : Env) (c : Check) (p : Process)
    → IsInitialized c
    → HasPrograms (some p)
    → LeavesWith c (stop e c p)
unfolding stop stop_with set_monitored
stop-Leaves e c p i (begin, (cmd, end)) = (
  if (await e (λ t. not (e.alive t)) (wait_time cmd)).0
      then none
      else some ("Failed to stop " +++ c.id),
  set_monitored false c,
  rw end refl,
  (refl, set_monitored-IsInitialized false c i),
)

pub restart-Leaves :
    (e e' : Env) (c : Check) (p : Process)
    → IsInitialized c
    → HasPrograms (some p)
    → LeavesWith c (restart e e' c p)
unfolding restart
restart-Leaves e e' c p i programs =
    let (why, c1, stopped, f) = stop-Leaves e c p i programs in
    elim (Option-cases why) [
      | inr (err, failed) ↦
          (some ("Failed to restart " +++ c.id), c1, rw stopped (rw failed refl), f)
      | inl fine ↦
          let (why', c2, started, f') = start-Leaves e' c1 p f.1 programs in
          (
            elim why' [ none ↦ none | some err ↦ some ("Failed to restart " +++ c.id) ],
            c2,
            rw stopped (rw fine (rw started refl)),
            (f'.0 ∙ f.0, f'.1),
          )
    ]
