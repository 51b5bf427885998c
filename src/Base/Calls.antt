-- ===== src/Base/Calls.antt =====
-- How a call of a Go function ends: it returns, it waits for a lock that its own goroutine holds,
-- it panics, or it ends the process by `os.Exit`.
use Prim.Native.Nat.{ℕ}
use Prim.Native.String.{String}
use mathlib.Core.Path.{◌≡◌, refl}

pub data Outcome {ℓ} (A : Type ℓ) : Type ℓ where
  returns : A → Outcome A
  deadlocks : Outcome A
  panics : String → Outcome A
  exits : ℕ → String → Outcome A

pub returns-injective : {A : Type 0} {a b : A} → Path (Outcome A) (returns a) (returns b) → a ≡ b
returns-injective e = cc

infixl 5 ◌>>=◌ ◌>>◌
abbrev pub ◌>>=◌ {ℓ κ} : {A : Type ℓ} {B : Type κ} → Outcome A → (A → Outcome B) → Outcome B
returns a >>= f = f a
deadlocks >>= f = deadlocks
panics why >>= f = panics why
exits code why >>= f = exits code why

abbrev pub ◌>>◌ {ℓ} : {B : Type ℓ} → Outcome (Unit {0}) → Outcome B → Outcome B
m >> k = m >>= λ _. k

-- A sequence that returns has a first part that returns.
pub bind-returns :
    {A B : Type 0} (x : Outcome A) (f : A → Outcome B) (b : B)
    → (x >>= f) ≡ returns b
    → (a : A) × (x ≡ returns a) × (f a ≡ returns b)
bind-returns (returns a) f b e = (a, refl, e)
bind-returns deadlocks f b e = absurd (cc)
bind-returns (panics why) f b e = absurd (cc)
bind-returns (exits code why) f b e = absurd (cc)
