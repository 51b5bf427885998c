-- ===== src/Check/Service/Commands.antt =====
-- `Start`, `Stop` and `Restart` of `ProcessCheck` in monitor/checks.go: the answer, and the flag.
use Prim.Native.String.{◌++◌ as ◌+++◌}
use gonit.Base.{
  ℕ, ◌+◌, ◌*◌, ◌≤◌, ◌<◌, ◌≡◌, refl, Bool, true, false, not, Option, none, some, arith, returns, inl,
  inr, ◌⊎◌, String,
}
use gonit.Wait.{Answer, wait_until_lem}
use gonit.Check.{Check, Process, Command, wait_time, set_monitored}
use gonit.Check.Service.{
  Env, check_interval, await, start, start_with, start_body, stop, stop_with, restart,
}

-- The callback says yes at a moment within the timeout.
abbrev pub Seen : (ℕ → Bool) → ℕ → Type 0
Seen cb timeout = (t : ℕ) × (cb t ≡ true) × (t ≤ timeout)

-- The callback says no at every poll before the timeout.
abbrev pub Missed : (ℕ → Bool) → ℕ → Type 0
Missed cb timeout = (k : ℕ) → k * check_interval < timeout → cb (k * check_interval) ≡ false

at_poll : (k : ℕ) → 0 + k * check_interval ≡ k * check_interval
at_poll k = omega arith

-- What `await` answers: yes if it has seen a yes, no if it has missed one.
pub await-cases :
    (e : Env) (cb : ℕ → Bool) (timeout : ℕ)
    → (((await e cb timeout).0 ≡ true) × Seen cb timeout)
      ⊎ (((await e cb timeout).0 ≡ false) × Missed cb timeout)
unfolding await
await-cases e cb timeout =
    let ((b, t), done, a) = wait_until_lem cb e.tick_first timeout check_interval (omega arith) in
    rw done (from b t a)
  where
    from :
        (b : Bool) (t : ℕ)
        → Answer cb e.tick_first timeout check_interval 0 (b, t)
        → ((b ≡ true) × Seen cb timeout) ⊎ ((b ≡ false) × Missed cb timeout)
    from true t (on, within, _) = inl (refl, (t, on, within))
    from false t (at, off) = inr (refl, λ k h. rw (at_poll k) at (off k (omega (arith, h))))

abbrev pub Failed : Option String → Type 0
Failed err = (why : String) × (err ≡ some why)

-- The answer of a command: no error and its condition seen, or an error and its condition missed.
abbrev pub Answered : (ℕ → Bool) → ℕ → Option String → Type 0
Answered cb timeout err = ((err ≡ none) × Seen cb timeout) ⊎ (Failed err × Missed cb timeout)

-- With a start program, `Start` returns. It gives no error only if the process was seen running within
-- the timeout, and an error only if it ran at no poll before it. The check is monitored either way.
pub start_lem :
    (e : Env) (c : Check) (p : Process) (cmd : Command)
    → p.start_program ≡ some cmd
    → (err : Option String) × (c' : Check) × (start e c p ≡ returns (err, c'))
      × Answered e.alive (wait_time cmd) err
      × (c'.monitored ≡ some true)
      × (c'.id ≡ c.id)
unfolding start start_with start_body set_monitored
start_lem e c p cmd has = elim (await-cases e e.alive (wait_time cmd)) [
  | inl (on, seen) ↦
      (none, start_body e c p, rw (has, on) refl, inl (refl, seen), ground arith, ground arith)
  | inr (off, missed) ↦ (
    some ("Failed to start " +++ c.id),
    start_body e c p,
    rw (has, off) refl,
    inr ((_, refl), missed),
    ground arith,
    ground arith,
  )
]

-- With a stop program, `Stop` returns. It gives no error only if the process was seen stopped within
-- the timeout, and an error only if it was stopped at no poll before it. The check is unmonitored
-- either way.
pub stop_lem :
    (e : Env) (c : Check) (p : Process) (cmd : Command)
    → p.stop_program ≡ some cmd
    → (err : Option String) × (c' : Check) × (stop e c p ≡ returns (err, c'))
      × Answered (λ t. not (e.alive t)) (wait_time cmd) err
      × (c'.monitored ≡ some false)
      × (c'.id ≡ c.id)
unfolding stop stop_with set_monitored
stop_lem e c p cmd has = elim (await-cases e (λ t. not (e.alive t)) (wait_time cmd)) [
  | inl (on, seen) ↦ (none, set_monitored false c, rw (has, on) refl, inl (refl, seen), refl, refl)
  | inr (off, missed) ↦ (
    some ("Failed to stop " +++ c.id),
    set_monitored false c,
    rw (has, off) refl,
    inr ((_, refl), missed),
    refl,
    refl,
  )
]

-- With both programs, `Restart` returns. Without error the process was seen stopped, then running,
-- each within its timeout, and the check is monitored. With an error either the process was not
-- seen stopped, the start did not happen and the check is left unmonitored; or it was seen stopped
-- but not running after that, and the check is monitored.
pub restart_lem :
    (e e' : Env) (c : Check) (p : Process) (begin end : Command)
    → p.start_program ≡ some begin
    → p.stop_program ≡ some end
    → (err : Option String) × (c' : Check) × (restart e e' c p ≡ returns (err, c'))
      × ((Failed err × Missed (λ t. not (e.alive t)) (wait_time end) × (c'.monitored ≡ some false))
          ⊎ (Seen (λ t. not (e.alive t)) (wait_time end)
              × Answered e'.alive (wait_time begin) err
              × (c'.monitored ≡ some true)))
unfolding restart
restart_lem e e' c p begin end has has' =
    let (err, c₁, ran, answered, off, _) = stop_lem e c p end has' in
    elim answered [
      | inr ((why, failed), missed) ↦ (
        some ("Failed to restart " +++ c.id),
        c₁,
        rw (ran, failed) refl,
        inl ((_, refl), missed, off),
      )
      | inl (fine, seen) ↦
          let (err', c₂, ran', answered', on, _) = start_lem e' c₁ p begin has in
          elim answered' [
            | inl (fine', seen') ↦
                (none, c₂, rw (ran, fine, ran', fine') refl, inr (seen, inl (refl, seen'), on))
            | inr ((why, failed'), missed') ↦ (
              some ("Failed to restart " +++ c.id),
              c₂,
              rw (ran, fine, ran', failed') refl,
              inr (seen, inr ((_, refl), missed'), on),
            )
          ]
    ]
