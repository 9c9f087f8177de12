-- ===== src/Cell/Access/Laws.antt =====
-- Who passes `ValidateAccess`.
use go_cell_protocol.Prelude.{
  String, ◌≡◌, ◌↔◌, ◌⊎◌, inl, inr, Bool, true, false, Option, none, some, ok, err, arith,
  if◌then◌else◌, is_ok, Option-cases, sym, ◌∙◌,
}
use go_cell_protocol.Identity.{Identity, same_signing_key}
use go_cell_protocol.Cell.{GeneralCell, Env}
use go_cell_protocol.Cell.Access.{validate_with, proves, same_uuid, access_purpose}

-- How an access check passes: the requester has the owner's UUID and proves control of the
-- owner's signing key for this operation and keypath, or it has another UUID and a contract
-- allows the access.
abbrev pub MayAccess :
    Env → Bool → GeneralCell → String → String → Option Identity → Identity → Type 0
MayAccess e allows c operation keypath requester owner =
    ((same_uuid requester owner ≡ true)
      × (same_signing_key e.crypto (some owner) requester ≡ true)
      × (proves e (some owner) requester (access_purpose c operation keypath) ≡ true))
    ⊎ ((same_uuid requester owner ≡ false) × (allows ≡ true))

-- The shape of the check, on the answers of its tests.
check_iff :
    (same key proof allows : Bool) (x y z : String)
    → (is_ok {0} (
          if same
          then if key then if proof then ok tt else err x else err y
          else if allows
          then ok tt
          else err z)
        ≡ true)
      ↔ (((same ≡ true) × (key ≡ true) × (proof ≡ true)) ⊎ ((same ≡ false) × (allows ≡ true)))
check_iff true true true a x y z = ground arith
check_iff true true false a x y z = ground arith
check_iff true false p a x y z = ground arith
check_iff false k p true x y z = ground arith
check_iff false k p false x y z = ground arith

module _ (e : Env) where
  -- An access check passes exactly when the cell has an owner and either the requester carries the
  -- owner's UUID and proves control of the owner's key, or it carries another UUID and a contract
  -- allows the access: an impostor with the owner's UUID is refused even where a contract would
  -- let it in.
  pub validate_with_iff :
      (allows : Bool) (c : GeneralCell) (operation keypath : String) (requester : Option Identity)
      → (is_ok (validate_with e allows c operation keypath requester) ≡ true) ↔ (
          (owner : Identity) × (c.owner ≡ some owner)
          × MayAccess e allows c operation keypath requester owner)
  unfolding validate_with
  validate_with_iff allows c operation keypath requester = elim (Option-cases c.owner) [
    | inl n ↦
        (λ h. absurd (refused (rw n at h)), λ w. let (o, q, m) = w in absurd (no_owner (sym n ∙ q)))
    | inr (o, q) ↦
        let iff =
          check_iff (same_uuid requester o) (same_signing_key e.crypto (some o) requester)
            (proves e (some o) requester (access_purpose c operation keypath)) allows _ _ _ in
        (
          λ h. (o, q, iff.0 (rw q at h)),
          λ w. let (o', q', m) = w in rw q (iff.1 (rw (owner_unique (sym q' ∙ q)) at m)),
        )
  ]
    where
      refused : ◌≡◌ {A = Bool} false true → ⊥
      refused x = cc

      no_owner : {x : Identity} → ◌≡◌ {A = Option Identity} none (some x) → ⊥
      no_owner h = cc

      owner_unique : {x y : Identity} → ◌≡◌ {A = Option Identity} (some x) (some y) → x ≡ y
      owner_unique h = cc
