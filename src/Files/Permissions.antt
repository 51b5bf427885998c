-- ===== src/Files/Permissions.antt =====
-- The permission checks of utils/file_accessor.go.
use Prim.Native.Nat.{bit_and}
use gonit.Base.{
  ℕ, zero, suc, ◌%◌, ◌<◌, String, ◌≡◌, ◌≢◌, ◌↔◌, ◌⊎◌, inl, inr, refl, Bool, true, false, not, ◌&&◌,
  Option, none, some, returns, exits, ◌==◌, if◌then◌else◌, same_text, subst, sym, arith, Bool-cases,
  eq_iff,
}
use gonit.Base.Table.{lookup}
use gonit.Files.{
  Node, Disk, Host, forbidden, file_exists, check_node, ensure_node, ensure_permissions,
  ensure_safe_permissions,
}

-- The two tests of a mode: its bits outside 0700, and its rest by 64.
abbrev is_private : ℕ → Bool
is_private mode = bit_and (forbidden 0o700) mode == 0

abbrev agree_at : ℕ → Bool
agree_at mode = if mode % 64 == 0 then is_private mode else not (is_private mode)

abbrev agree_below : ℕ → Bool
agree_below zero = true
agree_below (suc n) = let rest = agree_below n in agree_at n && rest

agree_512 : agree_below 512 ≡ true
agree_512 = refl

both : (a b : Bool) → a && b ≡ true → (a ≡ true) × (b ≡ true)
both true b e = (refl, e)
both false b e = ground (arith, e)

agree_lem : (n mode : ℕ) → agree_below n ≡ true → mode < n → agree_at mode ≡ true
agree_lem zero mode all below = absurd (omega arith)
agree_lem (suc n) mode all below =
    let (here, rest) = both (agree_at n) (agree_below n) all in
    elim (Bool-cases (mode == n)) [
      | inl e ↦
          let same : mode ≡ n = ground (arith, e) in subst (λ k. agree_at k ≡ true) (sym same) here
      | inr e ↦ agree_lem n mode rest (ground (arith, e, below))
    ]

is_private_lem : (mode : ℕ) → mode < 512 → (is_private mode ≡ true) ↔ (mode % 64 ≡ 0)
is_private_lem mode below =
    let fits = agree_lem 512 mode agree_512 below in
    elim (Bool-cases (mode % 64 == 0)) [
      | inl e ↦ ((λ _. ground (arith, e)), (λ _. rw e at fits))
      | inr e ↦
          let open_ = rw e at fits in
          ((λ q. absurd (ground (arith, open_, q))), (λ q. absurd (ground (arith, e, q))))
    ]

module _ {B : Type 0} where
  -- A permission check returns, or ends the process with code 1.
  pub ensure_permissions_ends :
      (h : Host B) (d : Disk B) (file : String) (max : ℕ)
      → (ensure_permissions h d file max ≡ returns tt)
        ⊎ ((why : String) × (ensure_permissions h d file max ≡ exits 1 why))
  unfolding ensure_permissions ensure_node check_node
  ensure_permissions_ends h d file max =
      elim (Bool-cases (not (same_text file "") && file_exists d file)) [
        | inl there ↦ rw there (node_ends (lookup file d))
        | inr missing ↦ rw missing (inl refl)
      ]
    where
      node_ends :
          (o : Option (Node B))
          → (check_node h file max o ≡ returns tt)
            ⊎ ((why : String) × (check_node h file max o ≡ exits 1 why))
      node_ends none = inr (_, refl)
      node_ends (some n) = elim (Bool-cases (n.uid == h.euid)) [
        | inr other ↦ rw other (inr (_, refl))
        | inl own ↦ rw own (elim (Bool-cases (bit_and (forbidden max) n.mode == 0)) [
          | inl fine ↦ rw fine (inl refl)
          | inr broad ↦ rw broad (inr (_, refl))
        ])
      ]

  -- A named file that is there passes the check of the safe permissions exactly if it is the user's
  -- and gives no right to group and others.
  pub ensure_safe_permissions_lem :
      (h : Host B) (d : Disk B) (file : String) (n : Node B)
      → file ≢ ""
      → lookup file d ≡ some n
      → n.mode < 512
      → (ensure_safe_permissions h d file ≡ returns tt) ↔ ((n.uid ≡ h.euid) × (n.mode % 64 ≡ 0))
  unfolding ensure_safe_permissions ensure_permissions ensure_node check_node file_exists
  ensure_safe_permissions_lem h d file n named there below =
      let unnamed : same_text file "" ≡ false = ground (arith, eq_iff file "", named) in
      let (only, always) = is_private_lem n.mode below in
      rw (unnamed, there)
        (elim (Bool-cases (n.uid == h.euid)) [
          | inr other ↦
              ((λ q. absurd (ground (arith, other, q))), (λ q. absurd (ground (arith, other, q.0))))
          | inl own ↦ elim (Bool-cases (is_private n.mode)) [
            | inl fine ↦ ((λ q. (ground (arith, own), only fine)), (λ q. ground (arith, own, fine)))
            | inr broad ↦ (
              (λ q. absurd (ground (arith, own, broad, q))),
              (λ q. absurd (ground (arith, broad, always q.1))),
            )
          ]
        ])
