-- ===== src/Log/Laws.antt =====
-- The entries of a message of several lines in log/log.go.
use Prim.Native.Char.{Char, code}
use Prim.Native.String.{String, ◌∷◌, [], ◌++◌}
use mathlib.Core.List.{List}
use text.Mathlib.TextEquality.{Char-path}
use text.Mathlib.TextLemmas.{cons-append, nil-append}
use gonit.Base.{
  All, ℕ, ◌≡◌, ◌≢◌, ◌⊎◌, inl, inr, refl, ap, ◌∙◌, true, false, Bool, Bool-cases, not, ◌==◌, arith,
}
use gonit.Base.Decimal.{all_chars}
use gonit.Base.Lines.{join_lines, split_lines, first_with}
use gonit.Log.{m_logf, m_debugf}

abbrev pub is_line : String → Bool
is_line s = all_chars (λ c. not (c == b'\n')) s

abbrev newline : Char
newline = "\n"

split_lines-cons :
    (s : String) → (t : String) × (ts : List String) × (split_lines s ≡ List.◌∷◌ t ts)
unfolding split_lines
split_lines-cons [] = ("", List.[], refl)
split_lines-cons (c ∷ s) =
    let (t, ts, e) = split_lines-cons s in
    elim (Bool-cases (code c == b'\n')) [
      | inl line ↦ rw (split_lines, line) (_, _, refl)
      | inr other ↦ rw (split_lines, other) (rw e (_, _, refl))
    ]

with_char : (c : Char) (t : String) → (c ∷ "") ++ t ≡ c ∷ t
with_char c t = cons-append c "" t ∙ ap (λ x. c ∷ x) (nil-append t)

join_lines-first_with :
    (c : Char) (t : String) (ts : List String)
    → join_lines (first_with (c ∷ "") (List.◌∷◌ t ts)) ≡ c ∷ join_lines (List.◌∷◌ t ts)
join_lines-first_with c t List.[] = with_char c t
join_lines-first_with c t (List.◌∷◌ u us) =
    ap (λ x. x ++ "\n" ++ join_lines (List.◌∷◌ u us)) (with_char c t) ∙ cons-append c t _

join_lines-split_lines : (s : String) → join_lines (split_lines s) ≡ s
unfolding split_lines
join_lines-split_lines [] = refl
join_lines-split_lines (c ∷ s) =
    let (t, ts, e) = split_lines-cons s in
    let rest = join_lines-split_lines s in
    elim (Bool-cases (code c == b'\n')) [
      | inl line ↦
          let here : newline ≡ c = Char-path newline c (ground (arith, line)) in
          rw (split_lines, line) (begins here (rw e at rest) e)
      | inr other ↦
          rw (split_lines, other)
            (rw e (join_lines-first_with c t ts ∙ ap (λ x. c ∷ x) (rw e at rest)))
    ]
  where
    begins :
        {t : String} {ts : List String}
        → newline ≡ c
        → join_lines (List.◌∷◌ t ts) ≡ s
        → split_lines s ≡ List.◌∷◌ t ts
        → join_lines (List.◌∷◌ "" (split_lines s)) ≡ c ∷ s
    begins here rest e =
        rw e
          (nil-append _ ∙ with_char newline _ ∙ ap (λ x. newline ∷ x) rest ∙ ap (λ x. x ∷ s) here)

is_line-with_char :
    (c : Char) (t : String)
    → code c == b'\n' ≡ false
    → is_line t ≡ true
    → is_line ((c ∷ "") ++ t) ≡ true
is_line-with_char c t other fine = ap is_line (with_char c t) ∙ ground (arith, other, fine)

split_lines-is_line : (s : String) → All (λ t. is_line t ≡ true) (split_lines s)
unfolding split_lines
split_lines-is_line [] = (refl, tt)
split_lines-is_line (c ∷ s) =
    let (t, ts, e) = split_lines-cons s in
    let rest = split_lines-is_line s in
    elim (Bool-cases (code c == b'\n')) [
      | inl line ↦ rw (split_lines, line) (refl, rest)
      | inr other ↦
          let all = rw e at rest in
          rw (split_lines, other) (rw e (is_line-with_char c t other all.0, all.1))
    ]

-- The entries that `MDebugf` makes of a text are its lines: joined by line breaks they are the text,
-- and none of them has a line break. `mLogf` makes the same ones at the debug level, and none at any
-- other level.
pub m_debugf-join_lines :
    (debug level : ℕ) (text : String)
    → (join_lines (m_debugf debug text) ≡ text)
      × All (λ t. is_line t ≡ true) (m_debugf debug text)
      × (((level ≡ debug) × (m_logf debug level text ≡ m_debugf debug text))
          ⊎ ((level ≢ debug) × (m_logf debug level text ≡ List.[])))
unfolding m_debugf m_logf
m_debugf-join_lines debug level text =
    let same : debug == debug ≡ true = ground arith in
    (
      rw same (join_lines-split_lines text),
      rw same (split_lines-is_line text),
      elim (Bool-cases (level == debug)) [
        | inl at ↦ inl (ground (arith, at), rw (at, same) refl)
        | inr off ↦ inr (ground (arith, off), rw off refl)
      ],
    )
