-- ===== src/Base/Trim.antt =====
-- `TrimSpace`, `Trim`, and the first line of a text, of the package strings of Go.
use Prim.Native.Char.{code}
use Prim.Native.Nat.{ℕ}
use Prim.Native.String.{String, ◌∷◌, []}
use mathlib.Core.Bool.{Bool, true, false, not, ◌&&◌, ◌||◌}
use mathlib.Core.Path.{◌≡◌, refl}
use native.Mathlib.Omega.{arith}
use gonit.Base.Decimal.{all_chars, is_digit_code}
use gonit.Base.Tests.{leb, ◌==◌, if◌then◌else◌}

-- `unicode.IsSpace`
abbrev pub is_space : ℕ → Bool
is_space c =
    (leb 9 c && leb c 13)
    || c == 0x20
    || c == 0x85
    || c == 0xA0
    || c == 0x1680
    || (leb 0x2000 c && leb c 0x200a)
    || c == 0x2028
    || c == 0x2029
    || c == 0x202f
    || c == 0x205f
    || c == 0x3000

abbrev pub is_empty : String → Bool
is_empty [] = true
is_empty (c ∷ s) = false

-- Without the characters of a set at the start, and at the end.
unfoldable pub trim_left : (ℕ → Bool) → String → String
trim_left p [] = []
trim_left p (c ∷ s) = let rest = trim_left p s in if p (code c) then rest else c ∷ s

unfoldable pub trim_right : (ℕ → Bool) → String → String
trim_right p [] = []
trim_right p (c ∷ s) =
    let rest = trim_right p s in if p (code c) && is_empty rest then [] else c ∷ rest

abbrev pub trim : (ℕ → Bool) → String → String
trim p s = trim_right p (trim_left p s)

abbrev pub trim_space : String → String
trim_space s = trim is_space s

-- `Split(s, "\n")[0]`
unfoldable pub first_line : String → String
first_line [] = []
first_line (c ∷ s) = let rest = first_line s in if code c == b'\n' then [] else c ∷ rest

module _ (p : ℕ → Bool) where
  pub trim_left-none : (s : String) → all_chars (λ c. not (p c)) s ≡ true → trim_left p s ≡ s
  unfolding trim_left
  trim_left-none [] h = refl
  trim_left-none (c ∷ s) h = ground arith

  pub trim_right-none : (s : String) → all_chars (λ c. not (p c)) s ≡ true → trim_right p s ≡ s
  unfolding trim_right
  trim_right-none [] h = refl
  trim_right-none (c ∷ s) h = ground (arith, trim_right-none s)

  -- What is left does not change if it is trimmed again.
  starts_well : String → Bool
  starts_well [] = true
  starts_well (c ∷ s) = not (p (code c))

  trim_left-starts_well : (s : String) → starts_well (trim_left p s) ≡ true
  unfolding trim_left starts_well
  trim_left-starts_well [] = refl
  trim_left-starts_well (c ∷ s) = ground (arith, trim_left-starts_well s)

  trim_left_stable : (s : String) → starts_well s ≡ true → trim_left p s ≡ s
  unfolding trim_left starts_well
  trim_left_stable [] h = refl
  trim_left_stable (c ∷ s) h = ground arith

  trim_right-starts_well : (s : String) → starts_well s ≡ true → starts_well (trim_right p s) ≡ true
  unfolding trim_right starts_well
  trim_right-starts_well [] h = refl
  trim_right-starts_well (c ∷ s) h = ground arith

  trim_right_idem : (s : String) → trim_right p (trim_right p s) ≡ trim_right p s
  unfolding trim_right
  trim_right_idem [] = refl
  trim_right_idem (c ∷ s) = ground (arith, trim_right_idem s)

  pub trim_idem : (s : String) → trim p (trim p s) ≡ trim p s
  trim_idem s =
      rw
        (trim_left_stable (trim p s)
          (trim_right-starts_well (trim_left p s) (trim_left-starts_well s)))
        (trim_right_idem (trim_left p s))

digits_not_space :
    (s : String) → all_chars is_digit_code s ≡ true → all_chars (λ c. not (is_space c)) s ≡ true
digits_not_space [] h = refl
digits_not_space (c ∷ s) h = ground (arith, digits_not_space s)

-- A text of digits is its own first line, without spaces.
pub trim_space-digits : (s : String) → all_chars is_digit_code s ≡ true → trim_space s ≡ s
trim_space-digits s h =
    let clean = digits_not_space s h in
    rw (trim_left-none is_space s clean) (trim_right-none is_space s clean)

pub first_line-digits : (s : String) → all_chars is_digit_code s ≡ true → first_line s ≡ s
unfolding first_line
first_line-digits [] h = refl
first_line-digits (c ∷ s) h = ground (arith, first_line-digits s)

-- What is left of a text keeps to a class that the text keeps to.
module _ (p q : ℕ → Bool) where
  all_chars-trim_left : (s : String) → all_chars q s ≡ true → all_chars q (trim_left p s) ≡ true
  unfolding trim_left
  all_chars-trim_left [] h = refl
  all_chars-trim_left (c ∷ s) h = ground (arith, all_chars-trim_left s)

  all_chars-trim_right : (s : String) → all_chars q s ≡ true → all_chars q (trim_right p s) ≡ true
  unfolding trim_right
  all_chars-trim_right [] h = refl
  all_chars-trim_right (c ∷ s) h = ground (arith, all_chars-trim_right s)

  pub all_chars-trim : (s : String) → all_chars q s ≡ true → all_chars q (trim p s) ≡ true
  all_chars-trim s h = all_chars-trim_right (trim_left p s) (all_chars-trim_left s h)
