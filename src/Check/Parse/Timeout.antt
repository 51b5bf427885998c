-- ===== src/Check/Parse/Timeout.antt =====
-- `parseWithTimeout` of monitor/checks.go: the range of the durations.
use gonit.Base.{
  ℕ, suc, ◌*◌, ◌^◌, ◌≤◌, ◌<◌, ℤ, pos, negsuc, pos_part, neg_part, IsInt64, ◌≡◌, ◌≢◌, ◌⊎◌, String,
  Option, none, some,
}
use gonit.Base.Decimal.{parse_int}
use gonit.Regex.{Pos, Captures, capture, search}
use gonit.Check.Parse.{with_timeout_re}

-- The exact product, or one that does not fit.
abbrev pub IsProduct : ℤ → ℕ → ℤ → Type 0
IsProduct (pos n) k d = (d ≡ pos (n * k)) ⊎ (2 ^ 63 ≤ n * k)
IsProduct (negsuc n) k d = ((pos_part d ≡ 0) × (neg_part d ≡ suc n * k)) ⊎ (2 ^ 63 < suc n * k)

-- The units of the language, with their nanoseconds.
abbrev pub IsUnit : String → ℕ → Type 0
IsUnit unit k =
    ((unit ≡ "millisecond") × (k ≡ 1000000))
    ⊎ ((unit ≡ "second") × (k ≡ 1000000000))
    ⊎ ((unit ≡ "minute") × (k ≡ 60000000000))
    ⊎ ((unit ≡ "hour") × (k ≡ 3600000000000))
    ⊎ ((unit ≡ "day") × (k ≡ 86400000000000))

-- A text that is none of them.
abbrev pub IsNoUnit : String → Type 0
IsNoUnit unit =
    (unit ≢ "millisecond")
    × (unit ≢ "second")
    × (unit ≢ "minute")
    × (unit ≢ "hour")
    × (unit ≢ "day")

-- The text has a timeout, of this count if that is a number, and this unit.
abbrev pub HasTimeout : String → Option ℤ → String → Type 0
HasTimeout s count unit =
    (f : Pos × Captures) × (search with_timeout_re s ≡ some f)
    × (parse_int (capture 1 f.1) ≡ count)
    × (capture 2 f.1 ≡ unit)

-- No timeout, with the duration 0; one whose count or unit is bad, with the duration 0 and an error;
-- or the product of the count and the unit.
abbrev pub IsTimeout : String → ℤ × Option String → Type 0
IsTimeout s r =
    IsInt64 r.0
    × (((search with_timeout_re s ≡ none) × (r ≡ (pos 0, none)))
        ⊎ ((count : Option ℤ) × (unit : String) × (why : String) × HasTimeout s count unit
            × ((count ≡ none) ⊎ IsNoUnit unit)
            × (r ≡ (pos 0, some why)))
        ⊎ ((n : ℤ) × (unit : String) × (k : ℕ) × HasTimeout s (some n) unit
            × IsUnit unit k
            × (r.1 ≡ none)
            × IsProduct n k r.0))
