-- ===== src/Tests/Values.antt =====
-- The theorems on shared values, on messages of several lines, and on the commands on checks that exit.
use gonit.Base.{
  All, ℕ, ℤ, pos, String, ◌≡◌, ◌≢◌, ◌≤◌, ◌<◌, ◌⊎◌, refl, true, false, Option, none, some, List, [],
  ◌∷◌, returns, exits, inr,
}
use gonit.Base.Lines.{join_lines, split_lines}
use gonit.Base.Table.{lookup}
use gonit.Base.{is_some}
use gonit.Check.Sync.Laws.{
  Call, get, set, incr, ints, typed_run, typed_call, run, run-StandsFor, StandsFor,
}
use gonit.Check.Sync.{SyncValue, new_value}
use gonit.Cmd.Exit.Laws.{IsEnded, check_command_lem}
use gonit.Cmd.Exit.{End, check_command, set_version_information, version_text}
use gonit.Cmd.{statuses, run_check_command}
use gonit.Log.Laws.{is_line, m_debugf-join_lines}
use gonit.Log.{m_debugf, m_logf}
use gonit.Tests.Commands.{manager}
use gonit.Base.Trim.{trim_left, trim_right}

-- The counter of the tries: two of them, a reset, and a read.
abbrev tries : List (Call ints)
tries = incr ∷ incr ∷ set ints (pos 0) ∷ incr ∷ get ints ∷ []

new_value-StandsFor : StandsFor ints (pos 0) new_value
new_value-StandsFor = record { unlocked = refl; holds = inr (refl, refl) }

abbrev counted : List (Option ℤ)
counted = some (pos 1) ∷ some (pos 2) ∷ none ∷ some (pos 1) ∷ some (pos 1) ∷ []

counts : (typed_run tries (pos 0)).0 ≡ counted
unfolding typed_run typed_call
counts = refl

run-StandsFor_example :
    (sv : SyncValue) × (run tries new_value ≡ returns ((typed_run tries (pos 0)).0, sv))
    × StandsFor ints (typed_run tries (pos 0)).1 sv
run-StandsFor_example = run-StandsFor tries (pos 0) new_value new_value-StandsFor

abbrev debug : ℕ
debug = 5

abbrev info : ℕ
info = 4

splits : m_debugf debug "one\ntwo" ≡ "one" ∷ "two" ∷ []
unfolding m_debugf m_logf split_lines
splits = refl

m_debugf-join_lines_example :
    (join_lines (m_debugf debug "one\ntwo") ≡ "one\ntwo")
    × All (λ t. is_line t ≡ true) (m_debugf debug "one\ntwo")
    × (((info ≡ debug) × (m_logf debug info "one\ntwo" ≡ m_debugf debug "one\ntwo"))
        ⊎ ((info ≢ debug) × (m_logf debug info "one\ntwo" ≡ [])))
m_debugf-join_lines_example = m_debugf-join_lines debug info "one\ntwo"

abbrev two_three : String
two_three = "Gonit 0.2.12\nBuilt on: today\n"

versions : version_text (set_version_information " 0.2.12\n" "today" " ") ≡ two_three
unfolding version_text set_version_information trim_left trim_right
versions = refl

knows_stop : is_some (lookup "stop" statuses) ≡ true
unfolding lookup
knows_stop = refl

check_command_lem_example :
    ((1 ≤ 1)
      × ((r : End × ℕ) × (check_command ℕ false manager "stop" 7 ("db" ∷ []) ≡ returns r)
          × IsEnded ℕ
              (
                (run_check_command ℕ manager "stop" ("db" ∷ []) 7).0,
                (run_check_command ℕ manager "stop" ("db" ∷ []) 7).2,
                (run_check_command ℕ manager "stop" ("db" ∷ []) 7).3,
              )
              r))
    ⊎ ((1 < 1)
        × ((why : String) × (check_command ℕ false manager "stop" 7 ("db" ∷ []) ≡ exits 2 why)))
check_command_lem_example = check_command_lem ℕ manager "stop" ("db" ∷ []) 7 knows_stop
