-- ===== src/Cell/Contracts/Admission/Access.antt =====
-- The access that a signed contract gives while it lasts.
use go_cell_protocol.Prelude.{
  String, ◌≡◌, refl, Bool, true, not, ◌&&◌, ◌||◌, List, [], ◌∷◌, ◌++◌, Option, some, arith, any,
  all, keep, Bool-cases, inl, inr,
}
use go_cell_protocol.Prelude.Int.{ℤ, ◌+ℤ◌, ltb_ℤ, ◌<ℤ◌, ◌≤ℤ◌}
use go_cell_protocol.Identity.{Identity, same_signing_key}
use go_cell_protocol.Agreement.Grant.{Grant, check_grant, covers_exactly}
use go_cell_protocol.Agreement.Condition.{Agreement, conditions_match, template_duration}
use go_cell_protocol.Agreement.Condition.Laws.{conditions_match_self}
use go_cell_protocol.Cell.{GeneralCell, Env}
use go_cell_protocol.Cell.Contracts.{
  conditions_hold, is_current, current_contracts, requested_grant, contract_covers, contract_allows,
  seconds,
}
use go_cell_protocol.Cell.Contracts.Admission.{signed_contract, issue_time}
use go_cell_protocol.Cell.Contracts.Admission.Laws.{Admitted, signed_cell, survives-signed_contract}

any-keep_last {ℓ} :
    {A : Type ℓ} (p q : A → Bool) (l : List A) (x : A)
    → q x ≡ true
    → p x ≡ true
    → any p (keep q (l ++ x ∷ [])) ≡ true
any-keep_last p q [] x hq hp = rw (hq, hp) refl
any-keep_last p q (y ∷ l) x hq hp = elim (Bool-cases (q y)) [
  | inl h ↦ rw (h, any-keep_last p q l x hq hp) (or_true (p y))
  | inr h ↦ rw h (any-keep_last p q l x hq hp)
]
  where
    or_true : (b : Bool) → (b || true) ≡ true
    or_true b = ground arith

-- The same outside world at another time.
abbrev pub at_time : Env → ℤ → Env
at_time e t = record e { now = t }

and4 : (x y z w : Bool) → x ≡ true → y ≡ true → z ≡ true → w ≡ true → (x && y && z && w) ≡ true
and4 x y z w a b c d = ground arith

in_time_intro :
    (now from : ℤ) (length : ℤ)
    → from ≤ℤ now
    → now <ℤ from +ℤ length
    → (not (ltb_ℤ now from) && ltb_ℤ now (from +ℤ length)) ≡ true
in_time_intro now from length p q = ground arith

inside_intro :
    (longest length : ℤ) (x y : Bool)
    → length ≤ℤ longest
    → x ≡ true
    → y ≡ true
    → (not (ltb_ℤ longest length) && x && y) ≡ true
inside_intro longest length x y p a b = ground arith

module _ (e : Env) where
  current_signed :
      (c : GeneralCell) (request : Agreement) (subject authority : Option Identity)
      (a : Admitted e c request subject authority) (t : ℤ)
      → same_signing_key e.crypto (some a.identity) (some a.identity) ≡ true
      → issue_time e c a.identity.uuid ≤ℤ t
      → t <ℤ issue_time e c a.identity.uuid +ℤ seconds request.duration
      → is_current
          (at_time e t)
          (signed_cell e c request a.identity)
          a.identity
          (signed_contract e c request a.identity)
        ≡ true
  unfolding is_current signed_contract
  current_signed c request subject authority a t key from until =
      and4 (same_signing_key e.crypto (some a.identity) (some a.identity)) _ _ _ key
        (survives-signed_contract e c request a.identity)
        (in_time_intro t (issue_time e c a.identity.uuid) (seconds request.duration) from until)
        (inside_intro (template_duration c.agreement_template) request.duration
          (conditions_match e.codec e.marshal c.agreement_template.conditions
            c.agreement_template.conditions)
          (all (check_grant c.agreement_template.grants) request.grants) a.short
          (conditions_match_self e.codec e.marshal request.conditions
            c.agreement_template.conditions a.same_conditions)
          a.granted)

  covers_signed :
      (t : ℤ) (c after : GeneralCell) (request : Agreement) (i : Identity) (requested : Grant)
      → any (λ g. covers_exactly g requested) request.grants ≡ true
      → conditions_hold (at_time e t) after c.agreement_template.conditions i ≡ true
      → contract_covers (at_time e t) after i requested (signed_contract e c request i) ≡ true
  unfolding signed_contract
  covers_signed t c after request i requested covered holds = rw (covered, holds) refl

  -- A contract that was signed for a subject with a signing key gives it every access that one of
  -- its grants covers, from when it is issued until its duration is over, while its conditions hold.
  pub signed_contract_allows :
      (c : GeneralCell) (request : Agreement) (subject authority : Option Identity)
      (a : Admitted e c request subject authority) (t : ℤ) (permission keypath : String)
      → same_signing_key e.crypto (some a.identity) (some a.identity) ≡ true
      → issue_time e c a.identity.uuid ≤ℤ t
      → t <ℤ issue_time e c a.identity.uuid +ℤ seconds request.duration
      → any (λ g. covers_exactly g (requested_grant permission keypath)) request.grants ≡ true
      → conditions_hold
          (at_time e t)
          (signed_cell e c request a.identity)
          c.agreement_template.conditions
          a.identity
        ≡ true
      → contract_allows
          (at_time e t)
          (signed_cell e c request a.identity)
          permission
          keypath
          (some a.identity)
        ≡ true
  unfolding contract_allows current_contracts
  signed_contract_allows c request subject authority a t permission keypath key from until covered
        holds =
      let after = signed_cell e c request a.identity in
      let k = signed_contract e c request a.identity in
      any-keep_last
        (contract_covers (at_time e t) after a.identity (requested_grant permission keypath))
        (is_current (at_time e t) after a.identity) c.contracts k
        (current_signed c request subject authority a t key from until)
        (covers_signed t c after request a.identity (requested_grant permission keypath) covered
          holds)
