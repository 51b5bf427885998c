-- ===== src/Check/Identity.antt =====
-- `GetUniqueID` of monitor/checks.go: the text that tells two check objects apart.
use Prim.Native.String.{◌++◌ as ◌+++◌}
use Prim.Native.Char.{code}
use text.Mathlib.TextLemmas.{append_cancel_right, nil-append, cons-append}
use gonit.Base.{
  ◌≤◌, ◌≡◌, refl, sym, ap, ◌∙◌, String, true, Option, none, some, arith, if◌then◌else◌, ◌==◌,
  some-injective,
}
use gonit.Base.Decimal.{
  max_u64, show, parse_uint, parse_uint-show, all_chars, is_digit_code, all_chars-show,
}
use gonit.Check.{Check, unique_id}

-- The text behind the last dash.
after_dash : String → Option String
after_dash String.[] = none
after_dash (String.◌∷◌ c s) = elim (after_dash s) [
  | some t ↦ some t
  | none ↦ if code c == b'-' then some s else none
]

after_dash-digits : (s : String) → all_chars is_digit_code s ≡ true → after_dash s ≡ none
unfolding after_dash
after_dash-digits String.[] h = refl
after_dash-digits (String.◌∷◌ c s) h = ground (arith, after_dash-digits s)

after_dash-append :
    (s t : String) → all_chars is_digit_code t ≡ true → after_dash (s +++ "-" +++ t) ≡ some t
unfolding after_dash
after_dash-append String.[] t h =
    rw (nil-append ("-" +++ t), cons-append "-" "" t, nil-append t, after_dash-digits t h) refl
after_dash-append (String.◌∷◌ c s) t h =
    rw (cons-append c s ("-" +++ t), after_dash, after_dash-append s t h) refl

-- Two checks at addresses of 64 bits have one unique id only if they have one id and one address.
pub unique_id-injective :
    (c d : Check)
    → c.address ≤ max_u64
    → d.address ≤ max_u64
    → unique_id c ≡ unique_id d
    → (c.id ≡ d.id) × (c.address ≡ d.address)
unfolding unique_id
unique_id-injective c d fits fits' e =
    let shown : show c.address ≡ show d.address = some-injective (
      sym (after_dash-append c.id (show c.address) (all_chars-show c.address))
      ∙ ap after_dash e
      ∙ after_dash-append d.id (show d.address) (all_chars-show d.address)) in
    (
      append_cancel_right c.id d.id ("-" +++ show d.address) (rw shown at e),
      some-injective (
          sym (parse_uint-show c.address fits)
          ∙ ap parse_uint shown
          ∙ parse_uint-show d.address fits'),
    )
