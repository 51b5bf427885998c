-- ===== src/Base/Decimal.antt =====
-- The decimal texts of Go: `%d` of fmt, and `ParseUint` and `Atoi` of strconv, with 64 bits.
use Prim.Native.Char.{Char, code}
use Prim.Native.Nat.{ℕ, zero, suc, ◌+◌, ◌-◌, ◌*◌, ◌/◌, ◌%◌, ◌^◌, ◌≤◌, ◌<◌}
use Prim.Native.String.{String, ◌∷◌, []}
use mathlib.Core.Bool.{Bool, true, false, ◌&&◌}
use mathlib.Core.Option.{Option, none, some}
use mathlib.Core.Logic.{◌⊎◌, ◌≢◌, inl, inr}
use mathlib.Core.Path.{◌≡◌, refl}
use text.Mathlib.TextLemmas.{cons≢nil}
use native.Mathlib.Omega.{arith}
use gonit.Base.Int.{ℤ, pos, negsuc}
use gonit.Base.Tests.{ltb, leb, ◌==◌, if◌then◌else◌, Bool-cases}

abbrev pub max_u64 : ℕ
max_u64 = 2 ^ 64 - 1

-- The digit of a number below 10.
abbrev digit_char : ℕ → Char
digit_char zero = "0"
digit_char (suc zero) = "1"
digit_char (suc (suc zero)) = "2"
digit_char (suc (suc (suc zero))) = "3"
digit_char (suc (suc (suc (suc zero)))) = "4"
digit_char (suc (suc (suc (suc (suc zero))))) = "5"
digit_char (suc (suc (suc (suc (suc (suc zero)))))) = "6"
digit_char (suc (suc (suc (suc (suc (suc (suc zero))))))) = "7"
digit_char (suc (suc (suc (suc (suc (suc (suc (suc zero)))))))) = "8"
digit_char _ = "9"

code-digit_char : (n : ℕ) → n < 10 → code (digit_char n) ≡ b'0' + n
code-digit_char zero h = refl
code-digit_char (suc zero) h = refl
code-digit_char (suc (suc zero)) h = refl
code-digit_char (suc (suc (suc zero))) h = refl
code-digit_char (suc (suc (suc (suc zero)))) h = refl
code-digit_char (suc (suc (suc (suc (suc zero))))) h = refl
code-digit_char (suc (suc (suc (suc (suc (suc zero)))))) h = refl
code-digit_char (suc (suc (suc (suc (suc (suc (suc zero))))))) h = refl
code-digit_char (suc (suc (suc (suc (suc (suc (suc (suc zero)))))))) h = refl
code-digit_char (suc (suc (suc (suc (suc (suc (suc (suc (suc zero))))))))) h = refl
code-digit_char (suc (suc (suc (suc (suc (suc (suc (suc (suc (suc n)))))))))) h =
    absurd (omega (arith, h))

-- The digits of `n` in front of a text; a number is fuel enough for its digits.
digits : ℕ → ℕ → String → String
digits zero n out = out
digits (suc fuel) n out = elim (ltb n 10) [
  | true ↦ digit_char n ∷ out
  | false ↦ digits fuel (n / 10) (digit_char (n % 10) ∷ out)
]

unfoldable pub show : ℕ → String
unfolding digits
show n = digits (suc n) n []

abbrev is_digit : Char → Bool
is_digit c = leb b'0' (code c) && leb (code c) b'9'

scan : String → ℕ → Option ℕ
scan [] n = some n
scan (c ∷ s) n =
    let m = n * 10 + (code c - b'0') in
    let rest = scan s m in if is_digit c && leb m max_u64 then rest else none

unfoldable pub parse_uint : String → Option ℕ
unfolding scan
parse_uint [] = none
parse_uint (c ∷ s) = scan (c ∷ s) 0

scan_digit :
    (d n : ℕ) (out : String)
    → d < 10
    → n * 10 + d ≤ max_u64
    → scan (digit_char d ∷ out) n ≡ scan out (n * 10 + d)
unfolding scan
scan_digit d n out h fits = ground (arith, code-digit_char d h)

scan-digits :
    (fuel n : ℕ) (out : String) → n < fuel → n ≤ max_u64 → scan (digits fuel n out) 0 ≡ scan out n
unfolding digits
scan-digits zero n out h fits = absurd (omega arith)
scan-digits (suc fuel) n out h fits = elim (Bool-cases (ltb n 10)) [
  | inl small ↦
      let first = scan_digit n 0 out (ground arith) (omega arith) in
      let same : 0 + n ≡ n = omega arith in rw (digits, small) (rw same at first)
  | inr large ↦
      let later =
        scan-digits fuel (n / 10) (digit_char (n % 10) ∷ out) (ground arith) (omega arith) in
      let last = scan_digit (n % 10) (n / 10) out (omega arith) (omega arith) in
      let whole : n / 10 * 10 + n % 10 ≡ n = omega arith in
      rw (digits, large) (rw later (rw whole at last))
]

digits-ne-nil : (fuel n : ℕ) (out : String) → n < fuel → digits fuel n out ≢ []
unfolding digits
digits-ne-nil zero n out h e = absurd (omega arith)
digits-ne-nil (suc fuel) n out h e = elim (Bool-cases (ltb n 10)) [
  | inl small ↦ cons≢nil (rw (digits, small) at e)
  | inr large ↦
      digits-ne-nil fuel (n / 10) (digit_char (n % 10) ∷ out) (ground arith)
        (rw (digits, large) at e)
]

parse_uint-scan : (c : Char) (s : String) → parse_uint (c ∷ s) ≡ scan (c ∷ s) 0
unfolding parse_uint
parse_uint-scan c s = refl

-- A text is empty, or has a first character.
String-cases : (s : String) → (s ≡ []) ⊎ ((c : Char) × (t : String) × (s ≡ c ∷ t))
String-cases [] = inl refl
String-cases (c ∷ s) = inr (c, s, refl)

-- Every number of 64 bits is read back from its decimal text.
pub parse_uint-show : (n : ℕ) → n ≤ max_u64 → parse_uint (show n) ≡ some n
unfolding show scan
parse_uint-show n fits =
    let whole = scan-digits (suc n) n [] (omega arith) fits in
    elim (String-cases (show n)) [
      | inl e ↦ absurd (digits-ne-nil (suc n) n [] (omega arith) e)
      | inr (c, s, e) ↦ rw (e, parse_uint-scan c s) (rw e at whole)
    ]

-- The second result is the sign: a negative number.
unfoldable pub signed : Bool → Option ℕ → Option ℤ
signed minus none = none
signed false (some n) = if ltb n (2 ^ 63) then some (pos n) else none
signed true (some zero) = some (pos 0)
signed true (some (suc n)) = if ltb n (2 ^ 63) then some (negsuc n) else none

-- `Atoi`
unfoldable pub parse_int : String → Option ℤ
parse_int [] = none
parse_int (c ∷ s) =
    if code c == b'-'
    then signed true (parse_uint s)
    else if code c == b'+'
    then signed false (parse_uint s)
    else signed false (parse_uint (c ∷ s))

scan_bound : (s : String) (n m : ℕ) → n ≤ max_u64 → scan s n ≡ some m → m ≤ max_u64
unfolding scan
scan_bound [] n m fits e = ground arith
scan_bound (c ∷ s) n m fits e = ground (arith, scan_bound s (n * 10 + (code c - b'0')) m)

pub parse_uint_bound : (s : String) (n : ℕ) → parse_uint s ≡ some n → n ≤ max_u64
unfolding parse_uint
parse_uint_bound [] n e = ground arith
parse_uint_bound (c ∷ s) n e = scan_bound (c ∷ s) 0 n (omega arith) e

-- The characters of a text all pass a test.
abbrev pub all_chars : (ℕ → Bool) → String → Bool
all_chars p [] = true
all_chars p (c ∷ s) = p (code c) && all_chars p s

abbrev pub is_digit_code : ℕ → Bool
is_digit_code c = leb b'0' c && leb c b'9'

all_chars-digits :
    (fuel n : ℕ) (out : String)
    → all_chars is_digit_code out ≡ true
    → all_chars is_digit_code (digits fuel n out) ≡ true
unfolding digits
all_chars-digits zero n out h = h
all_chars-digits (suc fuel) n out h = elim (Bool-cases (ltb n 10)) [
  | inl small ↦ rw (digits, small) (ground (arith, code-digit_char n, h))
  | inr large ↦
      rw (digits, large)
        (all_chars-digits fuel (n / 10) (digit_char (n % 10) ∷ out)
          (ground (arith, code-digit_char (n % 10), h)))
]

pub all_chars-show : (n : ℕ) → all_chars is_digit_code (show n) ≡ true
unfolding show
all_chars-show n = all_chars-digits (suc n) n [] refl

pub show-ne-nil : (n : ℕ) → show n ≢ []
unfolding show
show-ne-nil n = digits-ne-nil (suc n) n [] (omega arith)
