-- ===== src/Monitor/Summary/Status.antt =====
-- The text of status of monitor/monitor.go and monitor/checks.go on checks whose flags are set.
use Prim.Native.String.{◌++◌ as ◌+++◌}
use gonit.Base.{
  String, ◌≡◌, refl, Bool, true, false, Option-cases, some, List, [], ◌∷◌, returns, inl, inr,
}
use gonit.Check.{Check, Host, is_monitored}
use gonit.Database.Storer.{Storer}
use gonit.Entries.{Value}
use gonit.Monitor.Summary.{
  Printer, Facts, string_of, process_string, get_status_string, get_monitored_string, uptime,
  each_line, status_text,
}
use gonit.Monitor.{Monitor}
use gonit.Registry.{find_checks, IsSetUp}
use gonit.Registry.Laws.{find_checks-IsSetUp}

module _ (h : Host) (w : Printer) (facts : Facts) where
  string_of-returns :
      (c : Check) (b : Bool)
      → c.monitored ≡ some b
      → (s : String) × (string_of h w facts c ≡ returns s)
  unfolding string_of process_string get_status_string get_monitored_string uptime is_monitored
  string_of-returns c b on = elim (Option-cases c.process) [
    | inl plain ↦ rw (string_of, plain) (rw (is_monitored, on) (_, refl))
    | inr (p, there) ↦ rw (string_of, there) (monitored b p on)
  ]
    where
      monitored :
          (b : Bool) (p : _)
          → c.monitored ≡ some b
          → (s : String) × (process_string h w facts c p ≡ returns s)
      monitored true p on = rw (process_string, is_monitored, on) (_, refl)
      monitored false p on = rw (process_string, is_monitored, on) (_, refl)

  each_line-returns :
      (cs : List Check)
      → IsSetUp cs
      → (s : String) × (each_line h w facts (string_of h w facts) cs ≡ returns s)
  unfolding each_line
  each_line-returns [] all = ("", refl)
  each_line-returns (c ∷ cs) ((b, on), all) =
      let (s, done) = string_of-returns c b on in
      let (rest, ended) = each_line-returns cs all in
      (s +++ "\n" +++ rest, rw (each_line, done) (rw ended refl))

  -- On a monitor whose checks are set up `StatusText` returns, a text that starts with a line break.
  pub status_text-returns :
      (S : Storer Value) (args : List String) (m : Monitor S)
      → IsSetUp m.checks
      → (s : String) × (status_text h w facts S args m ≡ returns ("\n" +++ s))
  unfolding status_text
  status_text-returns S args m all =
      let (lines, done) =
        each_line-returns (find_checks m.checks args) (find_checks-IsSetUp m.checks args all) in
      rw done (_, refl)
