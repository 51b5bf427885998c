-- ===== src/Check/Initialize.antt =====
-- What `Initialize` of monitor/checks.go leaves and changes of a check.
use mathlib.Core.Option
use gonit.Base.{
  ℕ, zero, suc, String, Bool, ℤ, pos, negsuc, ◌≡◌, ◌≢◌, ◌⊎◌, refl, inl, inr, true, false, Option,
  none, some, List, [], ◌∷◌, Bool-cases,
}
use gonit.Check.{
  Check, Command, Process, Host, or_timeout, initialize_process, initialize, set_monitored,
}

-- A start or stop program of a check with this timeout: the one of the control file, with the
-- timeout of the check unless it has one of its own; without one the empty command.
abbrev pub IsProgram : ℕ → Option Command → Option Command → Type 0
IsProgram t none q = q ≡ some (record { cmd = ""; timeout = pos t })
IsProgram t (some c) q =
    ((c.timeout ≡ pos 0) × (q ≡ some (record { cmd = c.cmd; timeout = pos t })))
    ⊎ ((c.timeout ≢ pos 0) × (q ≡ some c))

-- The start of the process is taken to be now, if it runs by its pid file.
abbrev pub IsStarted : Host → Process → Process → Type 0
IsStarted h p p' =
    ((h.running p.pid_file ≡ true) × (p'.started_at ≡ some h.now))
    ⊎ ((h.running p.pid_file ≡ false) × (p'.started_at ≡ p.started_at))

abbrev pub IsSameProcess : Host → ℕ → Option Process → Option Process → Type 0
IsSameProcess h t none q = q ≡ none
IsSameProcess h t (some p) q =
    (p' : Process) × (q ≡ some p')
    × (p'.group ≡ p.group)
    × (p'.pid_file ≡ p.pid_file)
    × (p'.max_start_tries ≡ p.max_start_tries)
    × (p'.start_tries_cnt ≡ p.start_tries_cnt)
    × IsProgram t p.start_program p'.start_program
    × IsProgram t p.stop_program p'.stop_program
    × IsStarted h p p'

abbrev pub IsKept : Host → Check → Check → Type 0
IsKept h c c' =
    (c'.id ≡ c.id)
    × (c'.address ≡ c.address)
    × (c'.timeout ≡ c.timeout)
    × IsSameProcess h c.timeout c.process c'.process

-- The checks of the second list are those of the first, in order.
abbrev pub AreKept : Host → List Check → List Check → Type 0
AreKept h [] [] = Unit
AreKept h [] (c' ∷ cs') = ⊥
AreKept h (c ∷ cs) [] = ⊥
AreKept h (c ∷ cs) (c' ∷ cs') = IsKept h c c' × AreKept h cs cs'

own-IsProgram :
    (t : ℕ) (cmd : String) (d : ℤ)
    → IsProgram t
        (some (record { cmd = cmd; timeout = d }))
        (some (or_timeout t (some (record { cmd = cmd; timeout = d }))))
unfolding or_timeout
own-IsProgram t cmd (pos zero) = inl (refl, refl)
own-IsProgram t cmd (pos (suc n)) = inr (λ e. cc, refl)
own-IsProgram t cmd (negsuc n) = inr (λ e. cc, refl)

or_timeout-IsProgram : (t : ℕ) (o : Option Command) → IsProgram t o (some (or_timeout t o))
unfolding or_timeout
or_timeout-IsProgram t none = refl
or_timeout-IsProgram t (some c) = own-IsProgram t c.cmd c.timeout

initialize_process-IsStarted :
    (h : Host) (t : ℕ) (p : Process) → IsStarted h p (initialize_process h t p)
unfolding initialize_process
initialize_process-IsStarted h t p = elim (Bool-cases (h.running p.pid_file)) [
  | inl up ↦ inl (up, rw up refl)
  | inr down ↦ inr (down, rw down refl)
]

initialize_process-IsSameProcess :
    (h : Host) (t : ℕ) (o : Option Process)
    → IsSameProcess h t o (Option.map (initialize_process h t) o)
unfolding initialize_process
initialize_process-IsSameProcess h t none = refl
initialize_process-IsSameProcess h t (some p) = (
  initialize_process h t p,
  refl,
  refl,
  refl,
  refl,
  refl,
  or_timeout-IsProgram t p.start_program,
  or_timeout-IsProgram t p.stop_program,
  initialize_process-IsStarted h t p,
)

pub initialize-IsKept :
    (h : Host) (b : Bool) (c : Check) → IsKept h c (set_monitored b (initialize h c))
unfolding initialize set_monitored
initialize-IsKept h b c = (refl, refl, refl, initialize_process-IsSameProcess h c.timeout c.process)
