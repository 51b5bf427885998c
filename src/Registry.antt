-- ===== src/Registry.antt =====
-- The list of registered checks: `FindCheck` of monitor/monitor.go, and what it sees of the flags.
pub mod Laws
use Prim.Native.String.{◌++◌ as ◌+++◌}
use gonit.Base.{
  String, Bool, true, false, Option, none, some, List, [], ◌∷◌, ◌++◌, ◌≡◌, if◌then◌else◌, same_text,
  map,
}
use gonit.Check.{Check}

-- The error of both `AddCheck`s.
abbrev pub conflict : String → String
conflict id = "Error: Service name conflict, " +++ id +++ " already defined"

unfoldable pub find_check : String → List Check → Option Check
find_check id [] = none
find_check id (c ∷ cs) = if same_text c.id id then some c else find_check id cs

-- `findChecks`: all checks, or those of the given ids that are there, in the order of the ids.
find_each : List Check → List String → List Check
find_each checks [] = []
find_each checks (id ∷ ids) = elim (find_check id checks) [
  | none ↦ find_each checks ids
  | some c ↦ c ∷ find_each checks ids
]

unfoldable pub find_checks : List Check → List String → List Check
unfolding find_each
find_checks checks [] = checks
find_checks checks (id ∷ ids) = find_each checks (id ∷ ids)

-- A write to the check object that `find_check` finds.
unfoldable pub update_check : String → (Check → Check) → List Check → List Check
update_check id f [] = []
update_check id f (c ∷ cs) = if same_text c.id id then f c ∷ cs else c ∷ update_check id f cs

abbrev pub ids : List Check → List String
ids = map (λ c. c.id)

-- No two checks have one id.
abbrev pub IsDistinct : List Check → Type 0
IsDistinct [] = Unit
IsDistinct (c ∷ cs) = (find_check c.id cs ≡ none) × IsDistinct cs

-- Every check has been initialized.
abbrev pub IsSetUp : List Check → Type 0
IsSetUp [] = Unit
IsSetUp (c ∷ cs) = ((b : Bool) × (c.monitored ≡ some b)) × IsSetUp cs

-- What a set-up check's flag says.
abbrev pub is_on : Check → Bool
is_on c = elim c.monitored [ none ↦ false | some b ↦ b ]
