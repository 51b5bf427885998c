-- ===== src/Regex.antt =====
-- The regular expressions of Go's package regexp, as far as monitor/parsing.go and
-- monitor/checks.go use them: of the matches that begin first, the one that backtracking finds first.
pub mod Sound
pub mod Taken
use Prim.Native.Char.{code}
use Prim.Native.String.{count}
use gonit.Base.{
  ℕ, zero, suc, ◌-◌, ◌==◌, String, Bool, true, false, not, Option, none, some, List, [], ◌∷◌,
  if◌then◌else◌, ltb,
}
use gonit.Base.Trim.{is_empty}

-- `many` repeats as often as it can, `few` as seldom; `group` is a numbered pair of parentheses.
pub data Regex : Type 0 where
  chars : (ℕ → Bool) → Regex
  seq : Regex → Regex → Regex
  alt : Regex → Regex → Regex
  many : Regex → Regex
  few : Regex → Regex
  group : ℕ → Regex → Regex
  empty : Regex
  at_start : Regex
  at_end : Regex

-- The text that is left, and whether it begins where the whole text does.
pub record Pos : Type 0 where
  pub first : Bool
  pub rest : String

abbrev pub Captures : Type 0
Captures = List (ℕ × String)

-- The text of a group, of its last repetition; `""` if it took no part.
abbrev pub capture : ℕ → Captures → String
capture n [] = ""
capture n ((m, s) ∷ cs) = if m == n then s else capture n cs

abbrev pub take_chars : ℕ → String → String
take_chars zero s = ""
take_chars (suc n) String.[] = ""
take_chars (suc n) (String.◌∷◌ c s) = String.◌∷◌ c (take_chars n s)

-- The text between two positions.
abbrev pub between : Pos → Pos → String
between a b = take_chars (count a.rest - count b.rest) a.rest

abbrev pub Found : Type 0
Found = Option (Pos × Captures)

abbrev pub or_else : Found → Found → Found
or_else none g = g
or_else (some f) g = some f

abbrev pub Matcher : Type 0
Matcher = Pos → Captures → (Pos → Captures → Found) → Found

-- Repetitions that take nothing are not repeated; the length of the text is fuel enough.
unfoldable pub repeat : Bool → Matcher → ℕ → Matcher
repeat greedy m zero a cs k = k a cs
repeat greedy m (suc fuel) a cs k =
    let more = m a cs (λ b cs'. elim (ltb (count b.rest) (count a.rest)) [
      | true ↦ repeat greedy m fuel b cs' k
      | false ↦ none
    ]) in
    elim greedy [ true ↦ or_else more (k a cs) | false ↦ or_else (k a cs) more ]

take_one : (ℕ → Bool) → String → Captures → (Pos → Captures → Found) → Found
take_one p String.[] cs k = none
take_one p (String.◌∷◌ c s) cs k = elim (p (code c)) [
  | true ↦ k (record { first = false; rest = s }) cs
  | false ↦ none
]

unfoldable pub match : Regex → Matcher
unfolding repeat take_one
match (chars p) a cs k = take_one p a.rest cs k
match (seq r s) a cs k = match r a cs (λ b cs'. match s b cs' k)
match (alt r s) a cs k = or_else (match r a cs k) (match s a cs k)
match (many r) a cs k = repeat true (match r) (count a.rest) a cs k
match (few r) a cs k = repeat false (match r) (count a.rest) a cs k
match (group n r) a cs k = match r a cs (λ b cs'. k b ((n, between a b) ∷ cs'))
match empty a cs k = k a cs
match at_start a cs k = elim a.first [ true ↦ k a cs | false ↦ none ]
match at_end a cs k = elim (is_empty a.rest) [ true ↦ k a cs | false ↦ none ]

search_from : Regex → Bool → String → Found
search_from r first String.[] =
    match r (record { first = first; rest = "" }) [] (λ b cs. some (b, cs))
search_from r first (String.◌∷◌ c s) =
    or_else (match r (record { first = first; rest = String.◌∷◌ c s }) [] (λ b cs. some (b, cs)))
      (search_from r false s)

-- `FindStringSubmatchIndex`: what is behind the match, and its groups.
unfoldable pub search : Regex → String → Found
unfolding search_from
search r s = search_from r true s

-- The classes and literals.
abbrev pub text : String → Regex
text String.[] = empty
text (String.◌∷◌ c s) = seq (chars (λ d. d == code c)) (text s)

-- `+`, `?`
abbrev pub some_of : Regex → Regex
some_of r = seq r (many r)

abbrev pub maybe : Regex → Regex
maybe r = alt r empty
