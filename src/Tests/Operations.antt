-- ===== src/Tests/Operations.antt =====
-- The theorems on starting and stopping the checks of a monitor at concrete inputs.
use gonit.Base.{◌≡◌, refl, false, none, some, [], ◌∷◌, returns, arith}
use gonit.Check.Service.{stop, await}
use gonit.Check.{Check, set_monitored}
use gonit.Monitor.Operations.Laws.{AllFit, CanStart, CanStop}
use gonit.Monitor.{Monitor}
use gonit.Registry.{find_check}
use gonit.Wait.{wait_until, wait_from}
use gonit.Tests.Checks.{down, service, program, web_service}
use gonit.Tests.Setup.{storer, disk_check, two_checks}

abbrev pub served : Monitor storer
served = record two_checks { checks = web_service ∷ disk_check ∷ [] }

can_start : AllFit CanStart (web_service ∷ disk_check ∷ [])
can_start = ((λ p e. (program, ground (arith, e))), ((λ p e. ground (arith, e)), tt))

can_stop : AllFit CanStop (web_service ∷ disk_check ∷ [])
can_stop = ((λ p e. (program, ground (arith, e))), ((λ p e. ground (arith, e)), tt))

found_web : find_check "web" served.checks ≡ some web_service
unfolding find_check
found_web = refl

stops : stop down web_service service ≡ returns (none, set_monitored false web_service)
unfolding stop await wait_until wait_from set_monitored
stops = refl

no_process : (c : Check) → find_check "disk" served.checks ≡ some c → c.process ≡ none
unfolding find_check
no_process c e = ground (arith, e)
