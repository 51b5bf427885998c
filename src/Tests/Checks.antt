-- ===== src/Tests/Checks.antt =====
-- The theorems on the checks and on waiting at concrete inputs.
use gonit.Base.{
  ℕ, pos, ◌+◌, ◌≤◌, String, ◌≡◌, ◌⊎◌, refl, Bool, true, false, not, Option, none, some, List, [],
  ◌∷◌, returns, if◌then◌else◌, same_text, arith, leb, ltb,
}
use gonit.Base.Table.{lookup, insert, erase}
use gonit.Check.Once.Exclusion.{
  IsExclusive, armed_for, run-IsExclusive, do_once-finish, finish_late,
}
use gonit.Check.Once.{
  Operation, Guard, Event, call, timer, return, initial, do_once, operation_at, finish, expire,
  step, run,
}
use gonit.Check.Service.Commands.{Answered, Seen, Missed, Failed, restart_lem}
use gonit.Check.Service.Tries.{HasTried, IsSameCheck, IsAfter, perform_all_down}
use gonit.Check.Service.{Env, restart, perform_all, max_tries}
use gonit.Check.{Check, Process, Command, new_process}
use gonit.Tests.Setup.{web}
use gonit.Wait.{Answer, wait_from, wait_until, wait_until_lem}

-- A process that is down, and one that comes up after two seconds.
abbrev pub down : Env
down = record { alive = λ t. false; tick_first = λ t. true; now = 100; exec_done = none }

abbrev slow : Env
slow = record { alive = λ t. leb 2000000000 t; tick_first = λ t. true; now = 100; exec_done = none }

abbrev pub program : Command
program = record { cmd = "service web start"; timeout = pos 5000000000 }

abbrev pub service : Process
service = record new_process {
  start_program = some program;
  stop_program = some program;
  max_start_tries = 2;
}

abbrev pub web_service : Check
web_service = record web { process = some service }

wait_until_lem_example :
    (r : Bool × ℕ) × (wait_until (λ t. leb 3 t) (λ t. true) 10 2 ≡ some r)
    × Answer (λ t. leb 3 t) (λ t. true) 10 2 0 r
wait_until_lem_example = wait_until_lem (λ t. leb 3 t) (λ t. true) 10 2 (omega arith)

waits : wait_until (λ t. leb 3 t) (λ t. true) 10 2 ≡ some (true, 4)
unfolding wait_until wait_from
waits = refl

restart_lem_example :
    (err : Option String) × (c' : Check) × (restart down slow web_service service
      ≡ returns (err, c'))
    × ((Failed err × Missed (λ t. not (down.alive t)) 5000000000 × (c'.monitored ≡ some false))
        ⊎ (Seen (λ t. not (down.alive t)) 5000000000
            × Answered slow.alive 5000000000 err
            × (c'.monitored ≡ some true)))
restart_lem_example = restart_lem down slow web_service service program program refl refl

perform_all_down_example :
    (c' : Check) × (perform_all (down ∷ down ∷ down ∷ []) web_service ≡ returns c')
    × HasTried service
        (if ltb (0 + 3) (max_tries service) then 0 + 3 else 0)
        (ltb (0 + 3) (max_tries service))
        c'
    × IsSameCheck web_service c'
    × IsAfter service (0 + 3) c'
perform_all_down_example =
    perform_all_down (down ∷ down ∷ down ∷ []) web_service service program 0 refl
      (refl, (none, refl)) (omega arith) (λ t. refl, (λ t. refl, (λ t. refl, tt)))

abbrev events : List Event
events = call "web" ∷ call "disk" ∷ call "web" ∷ return 0 ∷ call "web" ∷ []

run-IsExclusive_example : IsExclusive (run events initial)
run-IsExclusive_example = run-IsExclusive events (tt, (tt, (tt, (tt, (tt, tt)))))

-- One operation of `web`, whose timer has fired, and a later one in time.
abbrev late : Guard
late = record {
  states = ("web", true) ∷ [];
  running = record { id = "web"; armed = true } ∷ record { id = "web"; armed = false } ∷ [];
}

-- The code reaches that state.
reaches_late : run (call "web" ∷ timer 0 ∷ call "web" ∷ []) initial ≡ late
unfolding run step expire lookup insert erase
reaches_late = refl

abbrev late_op : Operation
late_op = record { id = "web"; armed = false }

is_late : operation_at 1 late.running ≡ some late_op
unfolding operation_at
is_late = refl

do_once-finish_example :
    (do_once "disk" (finish 1 late)).0
    ≡ (if same_text "web" "disk" then false else (do_once "disk" late).0)
do_once-finish_example = do_once-finish 1 late late_op "disk" is_late

finish_late_example :
    ((do_once "web" (finish 1 late)).0 ≡ false)
    × (2 ≤ armed_for "web" (do_once "web" (finish 1 late)).1.running)
finish_late_example = finish_late 1 late late_op is_late refl (omega arith)
