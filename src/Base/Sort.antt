-- ===== src/Base/Sort.antt =====
-- `sort.Strings`: by insertion. The result is ascending, and depends only on which strings there
-- are, so the order in which a Go map is walked does not show in it.
use Prim.Native.String.{String}
use mathlib.Core.Path.{◌≡◌, refl, ◌∙◌}
use mathlib.Core.Logic.{inl, inr, ∥∥₁_elim}
use mathlib.Core.Bool.{Bool, true, ◌||◌}
use mathlib.Core.List.{List, [], ◌∷◌, Perm, Permᴰ}
use mathlib.Core.List.Perm
use mathlib.Core.HLevel.{hedberg}
use native.Mathlib.Omega.{arith}
use text.Mathlib.TextEquality.{eq_iff}
use gonit.Base.Lists.{any}
use gonit.Base.Tests.{if◌then◌else◌, same_text, Bool-cases}
use gonit.Base.Text.{text_leb, text_leb_total, text_leb_trans, text_leb_antisymm}

pub insert_sorted : String → List String → List String
insert_sorted s [] = s ∷ []
insert_sorted s (t ∷ ts) = if text_leb s t then s ∷ t ∷ ts else t ∷ insert_sorted s ts

unfoldable pub sort_strings : List String → List String
unfolding insert_sorted
sort_strings [] = []
sort_strings (s ∷ ss) = insert_sorted s (sort_strings ss)

abbrev Starts : String → List String → Type 0
Starts s [] = Unit
Starts s (t ∷ ts) = text_leb s t ≡ true

-- Each string is at most the next one.
abbrev pub IsAscending : List String → Type 0
IsAscending [] = Unit
IsAscending (s ∷ ss) = Starts s ss × IsAscending ss

insert_sorted-Starts :
    (s u : String) (ss : List String)
    → text_leb u s ≡ true
    → Starts u ss
    → Starts u (insert_sorted s ss)
unfolding insert_sorted
insert_sorted-Starts s u [] h k = h
insert_sorted-Starts s u (t ∷ ts) h k = ground arith

insert_sorted-IsAscending :
    (s : String) (ss : List String) → IsAscending ss → IsAscending (insert_sorted s ss)
unfolding insert_sorted
insert_sorted-IsAscending s [] h = (tt, tt)
insert_sorted-IsAscending s (t ∷ ts) h = elim (Bool-cases (text_leb s t)) [
  | inl e ↦ rw e (e, h)
  | inr e ↦ rw e (
    insert_sorted-Starts s t ts (ground (arith, text_leb_total s t)) h.0,
    insert_sorted-IsAscending s ts h.1,
  )
]

pub sort_strings-IsAscending : (ss : List String) → IsAscending (sort_strings ss)
unfolding sort_strings
sort_strings-IsAscending [] = tt
sort_strings-IsAscending (s ∷ ss) =
    insert_sorted-IsAscending s (sort_strings ss) (sort_strings-IsAscending ss)

insert_sorted-perm : (s : String) (ss : List String) → Perm (insert_sorted s ss) (s ∷ ss)
unfolding insert_sorted
insert_sorted-perm s [] = Perm.refl (s ∷ [])
insert_sorted-perm s (t ∷ ts) = elim (Bool-cases (text_leb s t)) [
  | inl e ↦ rw e (Perm.refl (s ∷ t ∷ ts))
  | inr e ↦ rw e (Perm.trans (Perm.cons t (insert_sorted-perm s ts)) (Perm.swap s t ts))
]

pub sort_strings-perm : (ss : List String) → Perm (sort_strings ss) ss
unfolding sort_strings
sort_strings-perm [] = Perm.refl []
sort_strings-perm (s ∷ ss) =
    Perm.trans (insert_sorted-perm s (sort_strings ss)) (Perm.cons s (sort_strings-perm ss))

insert_sorted_comm :
    (s t : String) (ss : List String)
    → insert_sorted s (insert_sorted t ss) ≡ insert_sorted t (insert_sorted s ss)
unfolding insert_sorted
insert_sorted_comm s t [] = ground (arith, text_leb_total s t, text_leb_antisymm s t)
insert_sorted_comm s t (u ∷ us) = ground (
  arith,
  insert_sorted_comm s t us,
  text_leb_total s t,
  text_leb_antisymm s t,
  text_leb_trans s t u,
  text_leb_trans t s u,
)

String-discrete : Discrete String
String-discrete s t = elim (Bool-cases (same_text s t)) [
  | inl e ↦ yes ((eq_iff s t).0 e)
  | inr e ↦ no (λ p. cc (e, (eq_iff s t).1 p))
]

pub Strings-set : IsSet (List String)
Strings-set = hlevel (hedberg String-discrete)

sort_strings-permᴰ : {ss ts : List String} → Permᴰ ss ts → sort_strings ss ≡ sort_strings ts
unfolding sort_strings
sort_strings-permᴰ Permᴰ.nil = refl
sort_strings-permᴰ (Permᴰ.cons e p) = cc (e, sort_strings-permᴰ p)
sort_strings-permᴰ (Permᴰ.swap {a} {b} {l} e f) =
    rw (e, f) (insert_sorted_comm _ _ (sort_strings l))
sort_strings-permᴰ (Permᴰ.trans p q) = sort_strings-permᴰ p ∙ sort_strings-permᴰ q

pub sort_strings-eq_of_perm : {ss ts : List String} → Perm ss ts → sort_strings ss ≡ sort_strings ts
sort_strings-eq_of_perm p = ∥∥₁_elim p (Strings-set _ _) sort_strings-permᴰ

any-insert_sorted :
    (p : String → Bool) (s : String) (ss : List String)
    → any p (insert_sorted s ss) ≡ (p s || any p ss)
unfolding insert_sorted
any-insert_sorted p s [] = refl
any-insert_sorted p s (t ∷ ts) = ground (arith, any-insert_sorted p s ts)

pub any-sort_strings : (p : String → Bool) (ss : List String) → any p (sort_strings ss) ≡ any p ss
unfolding sort_strings
any-sort_strings p [] = refl
any-sort_strings p (s ∷ ss) =
    ground (arith, any-insert_sorted p s (sort_strings ss), any-sort_strings p ss)
