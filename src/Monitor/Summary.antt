-- ===== src/Monitor/Summary.antt =====
-- The texts of status and summary: `Uptime`, `String` and `SummaryText` of the checks in
-- monitor/checks.go, and `Uptime`, `SummaryText` and `StatusText` of monitor/monitor.go.
pub mod Status
use Prim.Native.String.{count, ◌++◌ as ◌+++◌}
use gonit.Base.{
  ℕ, zero, suc, ◌-◌, ◌*◌, ℤ, String, ◌≡◌, refl, Bool, true, false, not, ◌||◌, Option, none, some,
  List, [], ◌∷◌, Outcome, returns, ◌>>=◌, if◌then◌else◌, Option-cases, inl, inr,
}
use gonit.Check.{Check, Process, Host, second, is_monitored}
use gonit.Database.Storer.{Storer}
use gonit.Entries.{Value}
use gonit.Monitor.{Monitor}
use gonit.Pid.{show_int}
use gonit.Registry.{find_checks, IsSetUp}
use gonit.Registry.Laws.{find_checks-IsSetUp}

abbrev spaces : ℕ → String
spaces zero = ""
spaces (suc n) = " " +++ spaces n

-- `%40s` and `%-40s`
abbrev right : ℕ → String → String
right n s = spaces (n - count s) +++ s

abbrev left : ℕ → String → String
left n s = s +++ spaces (n - count s)

-- The library's part: how times and durations print, `math.Floor(duration.Seconds())`; and what the
-- monitor knows besides its checks.
pub record Printer : Type 0 where
  pub show_duration : ℕ → String
  pub show_time : Option ℕ → String
  pub show_later : Option ℕ → ℕ → String  -- of a time with a duration added
  pub floor_seconds : ℕ → ℕ

pub record Facts : Type 0 where
  pub start_time : Option ℕ  -- `none` is the zero time
  pub check_interval : ℕ
  pub pid : ℤ
  pub pid_file : String
  pub log_file : String
  pub pid_of : Process → ℤ

unfoldable pub get_monitored_string : Check → Outcome String
get_monitored_string c = do b ← is_monitored c; returns (if b then "monitored" else "Not monitored")

-- Of a clock that does not run backwards.
abbrev pub since : Host → Option ℕ → ℕ
since h none = 0
since h (some t) = h.now - t

module _ (h : Host) (w : Printer) (facts : Facts) where
  unfoldable pub get_status_string : Check → Process → Outcome String
  get_status_string c p = do
    b ← is_monitored c
    if b
        then returns (if h.running p.pid_file then "Running" else "Stopped")
        else get_monitored_string c

  unfoldable pub uptime : Check → Process → Outcome ℕ
  uptime c p = do
    b ← is_monitored c
    returns (if not b || not (h.running p.pid_file) then 0 else since h p.started_at)

  abbrev pub round_duration : ℕ → ℕ
  round_duration t = w.floor_seconds t * second

  abbrev line : String → String → String
  line name value = "  " +++ left 40 name +++ " " +++ right 12 value +++ "\n"

  -- `SummaryText` of a check, and of a process
  unfoldable pub summary_of : Check → Outcome String
  summary_of c = elim c.process [
    | none ↦ do s ← get_monitored_string c; returns ("Check '" +++ c.id +++ "'" +++ right 40 s)
    | some p ↦ do s ← get_status_string c p; returns ("Process " +++ left 10 c.id +++ right 40 s)
  ]

  pub process_string : Check → Process → Outcome String
  process_string c p = do
    b ← is_monitored c
    if b
        then (do
          status ← get_status_string c p
          t ← uptime c p
          let pid = if h.running p.pid_file then line "pid" (show_int (facts.pid_of p)) else ""
          returns (
              "Process '"
              +++ c.id
              +++ "'\n"
              +++ line "status" status
              +++ pid
              +++ line "uptime" (w.show_duration (round_duration t))
              +++ line "monitoring status" "monitored"))
        else returns ("Process '" +++ c.id +++ "'\n" +++ line "monitoring status" "Not monitored")

  -- `String` of a check, and of a process
  unfoldable pub string_of : Check → Outcome String
  unfolding process_string
  string_of c = elim c.process [
    | none ↦ do
      s ← get_monitored_string c
      returns ("Check " +++ c.id +++ "\n  monitoring status " +++ right 40 s +++ "\n")
    | some p ↦ process_string c p
  ]

  -- The loop of both texts.
  unfoldable pub each_line : (Check → Outcome String) → List Check → Outcome String
  each_line text [] = returns ""
  each_line text (c ∷ cs) = do s ← text c; rest ← each_line text cs; returns (s +++ "\n" +++ rest)

  module _ (S : Storer Value) where
    unfoldable pub summary_text : List String → Monitor S → Outcome String
    summary_text args m = do
      lines ← each_line summary_of (find_checks m.checks args)
      returns (
          "Uptime "
          +++ w.show_duration (round_duration (since h facts.start_time))
          +++ "\n\n"
          +++ lines)

    abbrev row : String → String → String
    row name value = left 30 name +++ " " +++ value +++ "\n"

    unfoldable pub status_text : List String → Monitor S → Outcome String
    status_text args m = do
      lines ← each_line string_of (find_checks m.checks args)
      returns (
          "\n"
          +++ row "Uptime" (w.show_duration (round_duration (since h facts.start_time)))
          +++ row "Last Check" (w.show_time m.last_check)
          +++ row "Next Check" (w.show_later m.last_check facts.check_interval)
          +++ row "Pid" (show_int facts.pid)
          +++ row "Pid File" facts.pid_file
          +++ row "Control File" m.control_file
          +++ row "Socket File" m.socket_file
          +++ row "Log File" facts.log_file
          +++ lines)

  -- A check whose flag is set has a line: the status of a process is that of its process if it is
  -- monitored.
  abbrev pub shown : Check → Bool → String
  shown c b = elim c.process [
    | none ↦ "Check '" +++ c.id +++ "'" +++ right 40 (if b then "monitored" else "Not monitored")
    | some p ↦
        "Process "
        +++ left 10 c.id
        +++ right 40 (
            if not b
            then "Not monitored"
            else if h.running p.pid_file
            then "Running"
            else "Stopped")
  ]

  summary_of-shown :
      (c : Check) (b : Bool) → c.monitored ≡ some b → summary_of c ≡ returns (shown c b)
  unfolding summary_of get_status_string get_monitored_string is_monitored
  summary_of-shown c true on = elim (Option-cases c.process) [
    | inl plain ↦ rw (summary_of, plain) (rw (is_monitored, on) refl)
    | inr (p, there) ↦ rw (summary_of, there) (rw (is_monitored, on) refl)
  ]
  summary_of-shown c false on = elim (Option-cases c.process) [
    | inl plain ↦ rw (summary_of, plain) (rw (is_monitored, on) refl)
    | inr (p, there) ↦ rw (summary_of, there) (rw (is_monitored, on) refl)
  ]

  -- The lines of the checks, each with the text that its flag and its process say.
  abbrev pub Shows : List Check → String → Type 0
  Shows [] t = t ≡ ""
  Shows (c ∷ cs) t =
      (b : Bool) × (rest : String) × (c.monitored ≡ some b)
      × (t ≡ shown c b +++ "\n" +++ rest)
      × Shows cs rest

  each_line-Shows :
      (cs : List Check)
      → IsSetUp cs
      → (t : String) × (each_line summary_of cs ≡ returns t) × Shows cs t
  unfolding each_line
  each_line-Shows [] all = ("", refl, refl)
  each_line-Shows (c ∷ cs) ((b, on), all) =
      let (t, done, shows) = each_line-Shows cs all in
      (
        shown c b +++ "\n" +++ t,
        rw (each_line, summary_of-shown c b on) (rw done refl),
        (b, t, on, refl, shows),
      )

module _ (S : Storer Value) (h : Host) (w : Printer) (facts : Facts) where
  -- On a monitor whose checks are set up `SummaryText` returns: behind the uptime it has a line for
  -- each check that is asked for, in their order, with its id, and with what its flag says, or for a
  -- monitored process whether its process runs.
  pub summary_text_lem :
      (args : List String) (m : Monitor S)
      → IsSetUp m.checks
      → (lines : String) × (summary_text h w facts S args m
          ≡ returns (
              "Uptime "
              +++ w.show_duration (round_duration h w facts (since h facts.start_time))
              +++ "\n\n"
              +++ lines))
        × Shows h w facts (find_checks m.checks args) lines
  unfolding summary_text
  summary_text_lem args m all =
      let (lines, done, shows) =
        each_line-Shows h w facts (find_checks m.checks args)
          (find_checks-IsSetUp m.checks args all) in
      (lines, rw done refl, shows)
