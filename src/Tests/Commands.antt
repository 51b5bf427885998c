-- ===== src/Tests/Commands.antt =====
-- The commands on a concrete manager.
use gonit.Base.{
  pos, ℕ, String, ◌≡◌, refl, Option, none, some, List, [], ◌∷◌, if◌then◌else◌, same_text, ◌+◌,
}
use gonit.Base.Table.{lookup}
use gonit.Cmd.{ChecksManager, service_command, execute, run_check_command}

-- A manager that counts the calls; there is no check but `web`.
abbrev single : String → ℕ → Option String × ℕ
single id n = (if same_text id "web" then none else some "not found", n + 1)

abbrev multi : ℕ → List String × ℕ
multi n = ("broken" ∷ [], n + 10)

abbrev pub manager : ChecksManager ℕ
manager = record {
  start = single;
  stop = single;
  restart = single;
  monitor = single;
  unmonitor = single;
  start_all = multi;
  stop_all = multi;
  restart_all = multi;
  monitor_all = multi;
  unmonitor_all = multi;
}

starts : run_check_command ℕ manager "start" ("web" ∷ []) 0 ≡ ("Started web", pos 0, none, 1)
unfolding run_check_command service_command execute lookup
starts = refl
