-- ===== src/Regex/Sound.antt =====
-- What a match of a regular expression is.
use Prim.Native.Char.{Char, code}
use Prim.Native.String.{count}
use text.Mathlib.TextLemmas.{length-cons}
use gonit.Base.{
  ℕ, zero, suc, ◌+◌, ◌≤◌, ◌≡◌, ◌⊎◌, refl, String, Bool, true, false, none, some, [], ◌∷◌, arith,
  inl, inr, if◌then◌else◌, ltb, leb, subst, some-injective, Bool-cases,
}
use gonit.Base.Trim.{is_empty}
use gonit.Regex.{
  Regex, chars, seq, alt, many, few, group, empty, at_start, at_end, Pos, Captures, between, Found,
  Matcher, repeat, take_one, match, or_else, search_from, search,
}

abbrev pub Relation : Type 1
Relation = Pos → Captures → Pos → Captures → Type 0

pub data Star (R : Relation) : Pos → Captures → Pos → Captures → Type 0 where
  stop : (a : Pos) (cs : Captures) → Star R a cs a cs
  again :
      (a b d : Pos) (cs cs' cs'' : Captures)
      → R a cs b cs'
      → Star R b cs' d cs''
      → Star R a cs d cs''

-- A regular expression takes the text from one position to another, and adds its groups.
abbrev pub Takes : Regex → Relation
Takes (chars p) a cs b cs' =
    (c : Char) × (a.rest ≡ String.◌∷◌ c b.rest) × (p (code c) ≡ true) × (cs' ≡ cs)
Takes (seq r s) a cs b cs' =
    (d : Pos) × (cs'' : Captures) × Takes r a cs d cs'' × Takes s d cs'' b cs'
Takes (alt r s) a cs b cs' = Takes r a cs b cs' ⊎ Takes s a cs b cs'
Takes (many r) a cs b cs' = Star (Takes r) a cs b cs'
Takes (few r) a cs b cs' = Star (Takes r) a cs b cs'
Takes (group n r) a cs b cs' =
    (cs'' : Captures) × Takes r a cs b cs'' × (cs' ≡ (n, between a b) ∷ cs'')
Takes empty a cs b cs' = (b ≡ a) × (cs' ≡ cs)
Takes at_start a cs b cs' = (b ≡ a) × (cs' ≡ cs)
Takes at_end a cs b cs' = (b ≡ a) × (cs' ≡ cs)

-- A result of the matcher comes from a way to take the text.
abbrev Comes : Relation → Pos → Captures → (Pos → Captures → Found) → Pos × Captures → Type 0
Comes R a cs k x = (b : Pos) × (cs' : Captures) × R a cs b cs' × (k b cs' ≡ some x)

abbrev IsSound : Relation → Matcher → Type 0
IsSound R m =
    (a : Pos) (cs : Captures) (k : Pos → Captures → Found) (x : Pos × Captures)
    → m a cs k ≡ some x
    → Comes R a cs k x

or_else-cases :
    (f g : Found) (x : Pos × Captures) → or_else f g ≡ some x → (f ≡ some x) ⊎ (g ≡ some x)
or_else-cases none g x e = inr e
or_else-cases (some f) g x e = inl e

module _ (R : Relation) (m : Matcher) (sound : IsSound R m) where
  -- What follows one repetition, if that takes something.
  abbrev follow : Bool → ℕ → (Pos → Captures → Found) → Pos → Pos → Captures → Found
  follow greedy fuel k a b cs = elim (ltb (count b.rest) (count a.rest)) [
    | true ↦ repeat greedy m fuel b cs k
    | false ↦ none
  ]

  once_more :
      (greedy : Bool) (fuel : ℕ) (a : Pos) (cs : Captures) (k : Pos → Captures → Found)
      (x : Pos × Captures)
      → IsSound (Star R) (repeat greedy m fuel)
      → m a cs (follow greedy fuel k a) ≡ some x
      → Comes (Star R) a cs k x
  once_more greedy fuel a cs k x later e =
      let (b, cs', r, ek) = sound a cs (follow greedy fuel k a) x e in
      elim (Bool-cases (ltb (count b.rest) (count a.rest))) [
        | inr same ↦ absurd (ground (arith, rw (follow, same) at ek))
        | inl less ↦
            let (d, cs'', rs, done) = later b cs' k x (rw (follow, less) at ek) in
            (d, cs'', again a b d cs cs' cs'' r rs, done)
      ]

  repeat-IsSound : (greedy : Bool) (fuel : ℕ) → IsSound (Star R) (repeat greedy m fuel)
  unfolding repeat
  repeat-IsSound greedy zero a cs k x e = (a, cs, stop a cs, e)
  repeat-IsSound true (suc fuel) a cs k x e =
      elim (or_else-cases (m a cs (follow true fuel k a)) (k a cs) x e) [
        | inl more ↦ once_more true fuel a cs k x (repeat-IsSound true fuel) more
        | inr over ↦ (a, cs, stop a cs, over)
      ]
  repeat-IsSound false (suc fuel) a cs k x e =
      elim (or_else-cases (k a cs) (m a cs (follow false fuel k a)) x e) [
        | inl over ↦ (a, cs, stop a cs, over)
        | inr more ↦ once_more false fuel a cs k x (repeat-IsSound false fuel) more
      ]

passed :
    (b : Bool) (f : Found) (x : Pos × Captures)
    → (elim b [ true ↦ f | false ↦ none ]) ≡ some x
    → f ≡ some x
passed true f x e = e
passed false f x e = absurd (ground (arith, e))

take_one-Takes :
    (p : ℕ → Bool) (s : String) (cs : Captures) (k : Pos → Captures → Found) (x : Pos × Captures)
    → take_one p s cs k ≡ some x
    → (c : Char) × (t : String) × (s ≡ String.◌∷◌ c t)
      × (p (code c) ≡ true)
      × (k (record { first = false; rest = t }) cs ≡ some x)
unfolding take_one
take_one-Takes p String.[] cs k x e = absurd (ground (arith, e))
take_one-Takes p (String.◌∷◌ c s) cs k x e = elim (Bool-cases (p (code c))) [
  | inl fits ↦ (c, s, refl, fits, rw (take_one, fits) at e)
  | inr other ↦ absurd (ground (arith, rw (take_one, other) at e))
]

pub match-Takes : (r : Regex) → IsSound (Takes r) (match r)
unfolding match
match-Takes (chars p) a cs k x e =
    let (c, t, whole, fits, done) = take_one-Takes p a.rest cs k x e in
    (record { first = false; rest = t }, cs, (c, whole, fits, refl), done)
match-Takes (seq r s) a cs k x e =
    let (d, cs', first, e') = match-Takes r a cs (λ b cs'. match s b cs' k) x e in
    let (b, cs'', then_, done) = match-Takes s d cs' k x e' in
    (b, cs'', (d, cs', first, then_), done)
match-Takes (alt r s) a cs k x e = elim (or_else-cases (match r a cs k) (match s a cs k) x e) [
  | inl left ↦ let (b, cs', takes, done) = match-Takes r a cs k x left in (b, cs', inl takes, done)
  | inr right ↦
      let (b, cs', takes, done) = match-Takes s a cs k x right in (b, cs', inr takes, done)
]
match-Takes (many r) a cs k x e =
    repeat-IsSound (Takes r) (match r) (match-Takes r) true (count a.rest) a cs k x e
match-Takes (few r) a cs k x e =
    repeat-IsSound (Takes r) (match r) (match-Takes r) false (count a.rest) a cs k x e
match-Takes (group n r) a cs k x e =
    let (b, cs', takes, done) = match-Takes r a cs (λ b cs'. k b ((n, between a b) ∷ cs')) x e in
    (b, (n, between a b) ∷ cs', (cs', takes, refl), done)
match-Takes empty a cs k x e = (a, cs, (refl, refl), e)
match-Takes at_start a cs k x e = (a, cs, (refl, refl), passed a.first (k a cs) x e)
match-Takes at_end a cs k x e = (a, cs, (refl, refl), passed (is_empty a.rest) (k a cs) x e)

-- What is left behind a search is what one match leaves, from somewhere in the text.
search_from-Takes :
    (r : Regex) (first : Bool) (s : String) (x : Pos × Captures)
    → search_from r first s ≡ some x
    → (a : Pos) × (count a.rest ≤ count s) × Takes r a [] x.0 x.1
unfolding search_from
search_from-Takes r first String.[] x e =
    let (b, cs, takes, done) =
      match-Takes r (record { first = first; rest = "" }) [] (λ b cs. some (b, cs)) x e in
    (
      record { first = first; rest = "" },
      omega arith,
      subst (λ y. Takes r (record { first = first; rest = "" }) [] y.0 y.1) (some-injective done)
          takes,
    )
search_from-Takes r first (String.◌∷◌ c s) x e =
    let here : Pos = record { first = first; rest = String.◌∷◌ c s } in
    elim (or_else-cases (match r here [] (λ b cs. some (b, cs))) (search_from r false s) x e) [
      | inl first_here ↦
          let (b, cs, takes, done) = match-Takes r here [] (λ b cs. some (b, cs)) x first_here in
          (here, omega arith, subst (λ y. Takes r here [] y.0 y.1) (some-injective done) takes)
      | inr later ↦
          let (a, within, takes) = search_from-Takes r false s x later in
          (a, omega (arith, within, length-cons c s), takes)
    ]

pub search-Takes :
    (r : Regex) (s : String) (x : Pos × Captures)
    → search r s ≡ some x
    → (a : Pos) × (count a.rest ≤ count s) × Takes r a [] x.0 x.1
unfolding search
search-Takes r s x e = search_from-Takes r true s x e

-- How much a regular expression takes at least, in characters.
unfoldable pub least : Regex → ℕ
least (chars p) = 1
least (seq r s) = least r + least s
least (alt r s) = if leb (least r) (least s) then least r else least s
least (group n r) = least r
least _ = 0

Star-shrinks :
    (R : Relation) (a b : Pos) (cs cs' : Captures)
    → ((a b : Pos) (cs cs' : Captures) → R a cs b cs' → count b.rest ≤ count a.rest)
    → Star R a cs b cs'
    → count b.rest ≤ count a.rest
Star-shrinks R a b cs cs' shrinks (stop _ _) = omega arith
Star-shrinks R a d cs cs'' shrinks (again _ b _ _ cs' _ r rs) =
    omega (arith, shrinks a b cs cs' r, Star-shrinks R b d cs' cs'' shrinks rs)

pub takes-least :
    (r : Regex) (a b : Pos) (cs cs' : Captures)
    → Takes r a cs b cs'
    → count b.rest + least r ≤ count a.rest
unfolding least
takes-least (chars p) a b cs cs' (c, whole, fits, e) =
    rw whole (omega (arith, length-cons c b.rest))
takes-least (seq r s) a b cs cs' (d, cs'', t, t') =
    omega (arith, takes-least r a d cs cs'' t, takes-least s d b cs'' cs' t')
takes-least (alt r s) a b cs cs' (inl t) = ground (arith, takes-least r a b cs cs' t)
takes-least (alt r s) a b cs cs' (inr t) = ground (arith, takes-least s a b cs cs' t)
takes-least (many r) a b cs cs' t = omega (
  arith,
  Star-shrinks (Takes r) a b cs cs' (λ a b cs cs' t. omega (arith, takes-least r a b cs cs' t)) t,
)
takes-least (few r) a b cs cs' t = omega (
  arith,
  Star-shrinks (Takes r) a b cs cs' (λ a b cs cs' t. omega (arith, takes-least r a b cs cs' t)) t,
)
takes-least (group n r) a b cs cs' (cs'', t, e) = takes-least r a b cs cs'' t
takes-least empty a b cs cs' (e, e') = rw e (omega arith)
takes-least at_start a b cs cs' (e, e') = rw e (omega arith)
takes-least at_end a b cs cs' (e, e') = rw e (omega arith)

-- What is behind a match that takes something is shorter than the text.
pub search-shrinks :
    (r : Regex) (s : String) (x : Pos × Captures)
    → search r s ≡ some x
    → count x.0.rest + least r ≤ count s
search-shrinks r s x e =
    let (a, within, t) = search-Takes r s x e in omega (arith, within, takes-least r a x.0 [] x.1 t)
