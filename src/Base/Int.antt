-- ===== src/Base/Int.antt =====
-- The integers over the native numbers.
use Prim.Native.Nat.{ℕ, zero, suc, ◌-◌, ◌*◌, ◌%◌, ◌^◌, ◌≤◌, ◌<◌}
use mathlib.Core.Bool.{Bool, true, false}
use mathlib.Core.Logic.{inl, inr}
use mathlib.Core.Path.{◌≡◌}
use native.Mathlib.Omega.{arith}
use gonit.Base.Tests.{ltb, if◌then◌else◌, Bool-cases}

-- `negsuc n` is -(n + 1).
pub data ℤ : Type 0 where
  pos : ℕ → ℤ
  negsuc : ℕ → ℤ

abbrev pub pos_part : ℤ → ℕ
pos_part (pos n) = n
pos_part (negsuc n) = 0

abbrev pub neg_part : ℤ → ℕ
neg_part (pos n) = 0
neg_part (negsuc n) = suc n

abbrev pub is_zero : ℤ → Bool
is_zero (pos zero) = true
is_zero _ = false

-- An int of 64 bits.
abbrev pub IsInt64 : ℤ → Type 0
IsInt64 (pos n) = n < 2 ^ 63
IsInt64 (negsuc n) = n < 2 ^ 63

-- The int with the 64 bits of a number.
abbrev pub to_int : ℕ → ℤ
to_int n = if ltb n (2 ^ 63) then pos n else negsuc (2 ^ 64 - 1 - n)

pub to_int-IsInt64 : (n : ℕ) → n ≤ 2 ^ 64 - 1 → IsInt64 (to_int n)
to_int-IsInt64 n fits = elim (Bool-cases (ltb n (2 ^ 63))) [
  | inl small ↦ rw small (ground (arith, small))
  | inr large ↦ rw large (ground (arith, large, fits))
]

-- The product of an int and a factor, with 64 bits.
abbrev pub times : ℤ → ℕ → ℤ
times (pos n) k = to_int (n * k % 2 ^ 64)
times (negsuc n) k = to_int ((2 ^ 64 - suc n * k % 2 ^ 64) % 2 ^ 64)

pub times-IsInt64 : (n : ℤ) (k : ℕ) → IsInt64 (times n k)
times-IsInt64 (pos n) k = to_int-IsInt64 (n * k % 2 ^ 64) (omega arith)
times-IsInt64 (negsuc n) k = to_int-IsInt64 ((2 ^ 64 - suc n * k % 2 ^ 64) % 2 ^ 64) (omega arith)

-- The product that fits is the exact one.
pub times_exact : (n k : ℕ) → n * k < 2 ^ 63 → times (pos n) k ≡ pos (n * k)
times_exact n k fits = ground arith
