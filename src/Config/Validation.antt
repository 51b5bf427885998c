-- ===== src/Config/Validation.antt =====
-- The walk of monitor/parsing.go with the validator of monitor/validation.go.
use gonit.Base.{
  String, arith, ◌≡◌, refl, false, Option, none, some, [], ◌∷◌, ◌++◌, returns, inl, inr,
  Option-cases,
}
use gonit.Check.{Check}
use gonit.Registry.{conflict, find_check, IsDistinct}
use gonit.Registry.Laws.{append-IsDistinct}
use gonit.Config.Walk.{IsWithinStack, parse_config_file-Ends, parse_config_file_safe}
use gonit.Config.{Source, Validator, new_validator, validate_check, validating, parse_config_file}

validate_check_lem :
    (c : Check) (v : Validator)
    → IsDistinct v.checks
    → (why : Option String) × (v' : Validator) × (validate_check c v ≡ returns (why, v'))
      × IsDistinct v'.checks
unfolding validate_check
validate_check_lem c v d = elim (Option-cases (find_check c.id v.checks)) [
  | inl e ↦
      (none, record v { checks = v.checks ++ c ∷ [] }, rw e refl, append-IsDistinct v.checks c d e)
  | inr (other, e) ↦ (some (conflict c.id), record v { success = false }, rw e refl, d)
]

-- The walk of the validator overflows the stack, or it returns with distinct checks.
pub validated_IsDistinct :
    (s : Source) (why : Option String) (v : Validator)
    → parse_config_file validating s new_validator ≡ returns (why, v)
    → IsDistinct v.checks
validated_IsDistinct s why v parsed =
    elim (parse_config_file_safe validating (λ v. IsDistinct v.checks) validate_check_lem
      (λ what attrs v d. d) (λ key value v d. d) s new_validator tt) [
        | inr over ↦ absurd (ground (arith, parsed, over))
        | inl (why', v', parsed', d) ↦ ground (arith, parsed, parsed', d)
      ]

-- If the includes of the control file nest no deeper than the stack admits, the walk of the validator over it returns, and no two of the
-- checks that it has collected have one id.
pub validation_IsDistinct :
    (s : Source)
    → IsWithinStack s
    → (why : Option String) × (v : Validator) × (parse_config_file validating s new_validator
        ≡ returns (why, v))
      × IsDistinct v.checks
validation_IsDistinct s sh =
    parse_config_file-Ends validating (λ v. IsDistinct v.checks) validate_check_lem
      (λ what attrs v d. d) (λ key value v d. d) s new_validator sh tt
