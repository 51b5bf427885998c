-- ===== src/Tests/Texts.antt =====
-- The theorem on the text of a summary at a concrete input.
use gonit.Base.{◌≡◌, refl, some, returns, pos}
use gonit.Monitor.Summary.{Printer, Facts, summary_of, get_status_string}
use gonit.Check.{is_monitored}
use gonit.Tests.Setup.{clock, web}

abbrev pub printer : Printer
printer = record {
  show_duration = λ t. "1m0s";
  show_time = λ t. "12:00";
  show_later = λ t n. "12:02";
  floor_seconds = λ t. 60;
}

abbrev pub facts : Facts
facts = record {
  start_time = some 40;
  check_interval = 120;
  pid = pos 7;
  pid_file = "/run/gonit.pid";
  log_file = "-";
  pid_of = λ p. pos 1234;
}

web_runs :
    summary_of clock printer facts web
    ≡ returns "Process web                                        Running"
unfolding summary_of get_status_string is_monitored
web_runs = refl
