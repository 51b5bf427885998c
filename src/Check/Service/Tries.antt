-- ===== src/Check/Service/Tries.antt =====
-- `Perform` of `ProcessCheck` in monitor/checks.go, for a process that does not come up.
use gonit.Base.{
  ℕ, suc, ◌+◌, ◌<◌, ◌≡◌, ◌⊎◌, refl, sym, ◌∙◌, Bool, true, false, not, Option, some, List, [], ◌∷◌,
  arith, returns, if◌then◌else◌, leb, ltb, length, All, inl, inr, Bool-cases, Option-cases,
}
use gonit.Wait.{wait_until_lem, Answer}
use gonit.Check.{Check, Process, Command, wait_time, is_monitored, set_monitored}
use gonit.Check.Service.{
  Env, check_interval, await, max_tries, settle, attempt, perform_process, perform, perform_all,
}

-- The process is down at every moment of the call.
abbrev pub IsDown : Env → Type 0
IsDown e = (t : ℕ) → e.alive t ≡ false

await_down : (e : Env) (timeout : ℕ) → IsDown e → (await e e.alive timeout).0 ≡ false
unfolding await
await_down e timeout down =
    let ((b, t), done, a) =
      wait_until_lem e.alive e.tick_first timeout check_interval (omega arith) in
    rw done (off b t a)
  where
    off :
        (b : Bool) (t : ℕ) → Answer e.alive e.tick_first timeout check_interval 0 (b, t) → b ≡ false
    off true t (on, within, _) = sym on ∙ down t
    off false t a = refl

-- The check after failed tries of a process: monitored or not, with this count.
abbrev pub HasTried : Process → ℕ → Bool → Check → Type 0
HasTried p n b c =
    (c.monitored ≡ some b)
    × ((at : Option ℕ) × (c.process ≡ some (record p { started_at = at; start_tries_cnt = n })))

-- What a failed try leaves as it was, besides what `HasTried` says.
abbrev pub IsSameCheck : Check → Check → Type 0
IsSameCheck c c' = (c'.id ≡ c.id) × (c'.address ≡ c.address) × (c'.timeout ≡ c.timeout)

-- A monitored check of a process that stays down counts one more failed try, up to the limit; then
-- it is unmonitored, and the count starts over.
perform_down :
    (e : Env) (c : Check) (p : Process) (cmd : Command) (n : ℕ)
    → p.start_program ≡ some cmd
    → HasTried p n true c
    → IsDown e
    → (c' : Check) × (perform e c ≡ returns c')
      × HasTried p
          (if leb (max_tries p) (n + 1) then 0 else n + 1)
          (not (leb (max_tries p) (n + 1)))
          c'
      × IsSameCheck c c'
unfolding perform perform_process attempt settle is_monitored set_monitored
perform_down e c p cmd n start (on, (at, has)) down =
    elim (Bool-cases (leb (max_tries p) (n + 1))) [
      | inl over ↦
          rw (has, on, down 0, start, await_down e (wait_time cmd) down, over)
            (_, refl, (refl, (_, refl)), (refl, refl, refl))
      | inr more ↦
          rw (has, on, down 0, start, await_down e (wait_time cmd) down, more)
            (_, refl, (refl, (_, refl)), (refl, refl, refl))
    ]

perform_unmonitored : (e : Env) (c : Check) → c.monitored ≡ some false → perform e c ≡ returns c
unfolding perform perform_process is_monitored
perform_unmonitored e c off = elim (Option-cases c.process) [
  | inl none_ ↦ rw none_ refl
  | inr (p, has) ↦ rw (has, off) refl
]

perform_all_unmonitored :
    (es : List Env) (c : Check) → c.monitored ≡ some false → perform_all es c ≡ returns c
unfolding perform_all
perform_all_unmonitored [] c off = refl
perform_all_unmonitored (e ∷ es) c off =
    rw (perform_unmonitored e c off) (perform_all_unmonitored es c off)

-- The check after the calls: below the limit, monitored with its failed tries counted; else
-- unmonitored with the count at 0, and no sequence of further calls, whatever the system answers in
-- them, changes anything of it.
abbrev pub IsAfter : Process → ℕ → Check → Type 0
IsAfter p n c' =
    ((ltb n (max_tries p) ≡ true) × HasTried p n true c')
    ⊎ ((ltb n (max_tries p) ≡ false)
        × HasTried p 0 false c'
        × ((later : List Env) → perform_all later c' ≡ returns c'))

-- A monitored check with `n` failed tries, fewer than its limit, and a process that stays down
-- through a sequence of calls of `Perform`: each call counts one failed try, and below the limit the
-- check stays monitored; the call that reaches the limit unmonitors it and sets the count to 0, and
-- no call after that, whatever the system answers in it, changes anything of the check, its start
-- time included. The id, the address and the timeout of the check are as before; of the process
-- only the count changes and, at a failed try, the start time.
pub perform_all_down :
    (es : List Env) (c : Check) (p : Process) (cmd : Command) (n : ℕ)
    → p.start_program ≡ some cmd
    → HasTried p n true c
    → n < max_tries p
    → All IsDown es
    → (c' : Check) × (perform_all es c ≡ returns c')
      × HasTried p
          (if ltb (n + length es) (max_tries p) then n + length es else 0)
          (ltb (n + length es) (max_tries p))
          c'
      × IsSameCheck c c'
      × IsAfter p (n + length es) c'
unfolding perform_all
perform_all_down [] c p cmd n start h below down =
    let at : n + 0 ≡ n = omega arith in
    let within : ltb n (max_tries p) ≡ true = ground arith in
    (c, refl, rw (at, within) h, (refl, refl, refl), rw at (inl (within, h)))
perform_all_down (e ∷ es) c p cmd n start h below (d, ds) =
    let (c₁, first, h₁, (s₁, s₂, s₃)) = perform_down e c p cmd n start h d in
    let at : n + suc (length es) ≡ n + 1 + length es = omega arith in
    elim (Bool-cases (leb (max_tries p) (n + 1))) [
      | inl over ↦
          let after : ltb (n + 1 + length es) (max_tries p) ≡ false = ground arith in
          let h₂ = rw over at h₁ in
          (
            c₁,
            rw first (perform_all_unmonitored es c₁ h₂.0),
            rw (at, after) h₂,
            (s₁, s₂, s₃),
            rw at (inr (after, h₂, λ later. perform_all_unmonitored later c₁ h₂.0)),
          )
      | inr more ↦
          let h₂ = rw more at h₁ in
          let (c₂, rest, h₃, (t₁, t₂, t₃), end) =
            perform_all_down es c₁ p cmd (n + 1) start h₂ (ground arith) ds in
          (c₂, rw first rest, rw at h₃, (t₁ ∙ s₁, t₂ ∙ s₂, t₃ ∙ s₃), rw at end)
    ]
