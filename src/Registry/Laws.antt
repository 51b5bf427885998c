-- ===== src/Registry/Laws.antt =====
-- Laws of `find_check` and `update_check`.
use mathlib.Core.Option
use gonit.Base.{
  String, ◌≡◌, refl, sym, ap, ◌∙◌, some-injective, Bool, none, some, List, [], ◌∷◌, ◌++◌, arith,
  if◌then◌else◌, same_text, eq_iff, is_some, any, inl, inr, Bool-cases, Option-cases,
}
use gonit.Check.{Check}
use gonit.Registry.{find_check, find_each, find_checks, update_check, ids, IsDistinct, IsSetUp}

pub any-ids :
    (k : String) (cs : List Check) → any (λ j. same_text j k) (ids cs) ≡ is_some (find_check k cs)
unfolding find_check
any-ids k [] = refl
any-ids k (c ∷ cs) = ground (arith, any-ids k cs)

pub id-find_check : (k : String) (cs : List Check) (d : Check) → find_check k cs ≡ some d → d.id ≡ k
unfolding find_check
id-find_check k [] d h = ground arith
id-find_check k (c ∷ cs) d h = ground (arith, id-find_check k cs d, eq_iff c.id k)

pub find_check-append :
    (k : String) (cs ds : List Check)
    → find_check k (cs ++ ds)
      ≡ (if is_some (find_check k cs) then find_check k cs else find_check k ds)
unfolding find_check
find_check-append k [] ds = refl
find_check-append k (c ∷ cs) ds = ground (arith, find_check-append k cs ds)

module _ (f : Check → Check) (keeps_id : (c : Check) → (f c).id ≡ c.id) where
  pub find_check-update_check :
      (j k : String) (cs : List Check)
      → find_check j (update_check k f cs)
        ≡ (if same_text k j then Option.map f (find_check j cs) else find_check j cs)
  unfolding find_check update_check
  find_check-update_check j k [] = ground arith
  find_check-update_check j k (c ∷ cs) =
      ground (
        arith,
        find_check-update_check j k cs,
        keeps_id c,
        eq_iff c.id k,
        eq_iff c.id j,
        eq_iff k j,
      )

  pub update_check-IsDistinct :
      (k : String) (cs : List Check) → IsDistinct cs → IsDistinct (update_check k f cs)
  unfolding update_check
  update_check-IsDistinct k [] h = tt
  update_check-IsDistinct k (c ∷ cs) h =
      ground
        (arith, update_check-IsDistinct k cs h.1, keeps_id c, find_check-update_check c.id k cs)

pub append-IsDistinct :
    (cs : List Check) (c : Check)
    → IsDistinct cs
    → find_check c.id cs ≡ none
    → IsDistinct (cs ++ c ∷ [])
unfolding find_check
append-IsDistinct [] c h k = (refl, tt)
append-IsDistinct (d ∷ cs) c h k = ground (
  arith,
  append-IsDistinct cs c h.1,
  find_check-append d.id cs (c ∷ []),
  eq_iff c.id d.id,
  eq_iff d.id c.id,
)

pub append-IsSetUp :
    (cs : List Check) (c : Check) (b : Bool)
    → IsSetUp cs
    → c.monitored ≡ some b
    → IsSetUp (cs ++ c ∷ [])
append-IsSetUp [] c b h k = ((b, k), tt)
append-IsSetUp (d ∷ cs) c b h k = (h.0, append-IsSetUp cs c b h.1 k)

pub find_check-IsSetUp :
    (k : String) (cs : List Check) {c : Check}
    → IsSetUp cs
    → find_check k cs ≡ some c
    → (b : Bool) × (c.monitored ≡ some b)
unfolding find_check
find_check-IsSetUp k [] s h = ground arith
find_check-IsSetUp k (d ∷ cs) s h = elim (Bool-cases (same_text d.id k)) [
  | inl e ↦ (s.0.0, ground arith)
  | inr e ↦ find_check-IsSetUp k cs s.1 (rw e at h)
]

-- What is written depends on the check that is found only.
pub update_check_cong :
    (k : String) (f g : Check → Check) (cs : List Check) (c : Check)
    → find_check k cs ≡ some c
    → f c ≡ g c
    → update_check k f cs ≡ update_check k g cs
unfolding find_check update_check
update_check_cong k f g [] c found same = refl
update_check_cong k f g (d ∷ cs) c found same = elim (Bool-cases (same_text d.id k)) [
  | inl here ↦
      let at : d ≡ c = some-injective (rw (find_check, here) at found) in
      rw (update_check, here) (ap (λ x. x ∷ cs) (ap f at ∙ same ∙ sym (ap g at)))
  | inr other ↦
      rw (update_check, other)
        (ap (λ xs. d ∷ xs) (update_check_cong k f g cs c (rw (find_check, other) at found) same))
]

find_each-IsSetUp : (cs : List Check) (js : List String) → IsSetUp cs → IsSetUp (find_each cs js)
unfolding find_each
find_each-IsSetUp cs [] all = tt
find_each-IsSetUp cs (id ∷ js) all = elim (Option-cases (find_check id cs)) [
  | inl missing ↦ rw (find_each, missing) (find_each-IsSetUp cs js all)
  | inr (c, found) ↦
      rw (find_each, found) (find_check-IsSetUp id cs all found, find_each-IsSetUp cs js all)
]

pub find_checks-IsSetUp :
    (cs : List Check) (args : List String) → IsSetUp cs → IsSetUp (find_checks cs args)
unfolding find_checks
find_checks-IsSetUp cs [] all = all
find_checks-IsSetUp cs (id ∷ js) all = find_each-IsSetUp cs (id ∷ js) all
