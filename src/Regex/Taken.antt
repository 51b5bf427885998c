-- ===== src/Regex/Taken.antt =====
-- The texts that repetitions of a class of characters take.
use Prim.Native.String.{count, ◌++◌ as ◌+++◌}
use text.Mathlib.TextLemmas.{length-append, length-cons, cons-append, nil-append}
use gonit.Base.{ℕ, ◌-◌, ◌≡◌, refl, sym, ap, ◌∙◌, String, Bool, true, arith}
use gonit.Base.Decimal.{all_chars}
use gonit.Regex.{chars, Pos, Captures, take_chars, between, some_of}
use gonit.Regex.Sound.{Star, stop, again, Takes}

-- A number of characters takes what stands before the rest.
take_chars-append : (s t : String) → take_chars (count s) (s +++ t) ≡ s
take_chars-append String.[] t = refl
take_chars-append (String.◌∷◌ c s) t =
    rw (length-cons c s, cons-append c s t) (ap (String.◌∷◌ c) (take_chars-append s t))

-- What repetitions of a class have taken.
Taken : (ℕ → Bool) → Pos → Pos → Type 0
Taken p a b = (s : String) × (a.rest ≡ s +++ b.rest) × (all_chars p s ≡ true)

star-Taken :
    (p : ℕ → Bool) (a b : Pos) (cs cs' : Captures) → Star (Takes (chars p)) a cs b cs' → Taken p a b
unfolding Taken
star-Taken p a b cs cs' (stop _ _) = ("", sym (nil-append a.rest), refl)
star-Taken p a d cs cs'' (again _ b _ _ cs' _ (c, whole, fits, e) rs) =
    let (s, more, all) = star-Taken p b d cs' cs'' rs in
    (String.◌∷◌ c s, whole ∙ ap (String.◌∷◌ c) more ∙ sym (cons-append c s d.rest), rw fits all)

Taken-between : (p : ℕ → Bool) (a b : Pos) → Taken p a b → all_chars p (between a b) ≡ true
unfolding Taken
Taken-between p a b (s, whole, all) =
    let size : count (s +++ b.rest) - count b.rest ≡ count s =
      omega (arith, length-append s b.rest) in
    rw (whole, size, take_chars-append s b.rest) all

-- The text of one character of a class or more is of the class.
pub takes-some_of :
    (p : ℕ → Bool) (a b : Pos) (cs cs' : Captures)
    → Takes (some_of (chars p)) a cs b cs'
    → all_chars p (between a b) ≡ true
takes-some_of p a b cs cs' (d, cs'', first, rest) =
    Taken-between p a b (star-Taken p a b cs cs' (again a d b cs cs'' cs' first rest))
