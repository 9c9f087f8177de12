-- ===== src/Cell/Contracts/Laws.antt =====
-- What contracts allow, and what a revocation takes away.
use mathlib.Core.Path.{subst}
use go_cell_protocol.Prelude.Int.{ℤ, ◌+ℤ◌, ◌<ℤ◌, ◌≤ℤ◌, ltb_ℤ}
use go_cell_protocol.Agreement.Condition.{conditions_match, template_duration}
use go_cell_protocol.Prelude.{
  All, lookup, Option, none, String, ◌≡◌, inl, inr, refl, Bool, true, false, not, ◌&&◌, List, [],
  ◌∷◌, some, arith, str_eq, eq_iff, any, all, keep, Bool-cases, &&_true, ap, ◌++◌,
}
use go_cell_protocol.Identity.{Identity, same_signing_key}
use go_cell_protocol.Identity.Control.Laws.{same_signing_key-uuid}
use go_cell_protocol.Agreement.Grant.{Grant, covers_exactly, check_grant}
use go_cell_protocol.Agreement.Grant.Laws.{check_grant_trans}
use go_cell_protocol.Cell.{GeneralCell, Env, Contract}
use go_cell_protocol.Cell.Contracts.Conditions.{Met, conditions_hold-Met}
use go_cell_protocol.Cell.Contracts.{
  outlives, seconds, survives_revocation, in_time, inside_template, is_current, current_contracts,
  requested_grant, contract_covers, contract_allows, holds_contract, remove_contracts,
}

-- A test that some element of a filtered list passes finds it, and where it stands.
any-keep {ℓ} :
    {A : Type ℓ} (p q : A → Bool) (l : List A)
    → any p (keep q l) ≡ true
    → (x : A) × (before after : List A) × (l ≡ before ++ x ∷ after) × (p x ≡ true) × (q x ≡ true)
any-keep {A = A} p q [] h = absurd (cc)
any-keep {A = A} p q (x ∷ l) h = elim (Bool-cases (q x)) [
  | inr n ↦ behind (any-keep p q l (rw n at h))
  | inl y ↦ elim (Bool-cases (p x)) [
    | inl z ↦ (x, [], l, refl, z, y)
    | inr z ↦ behind (any-keep p q l (rw z at (rw y at h)))
  ]
]
  where
    behind :
        (y : A) × (before after : List A) × (l ≡ before ++ y ∷ after) × (p y ≡ true) × (q y ≡ true)
        → (y : A) × (before after : List A) × (x ∷ l ≡ before ++ y ∷ after)
          × (p y ≡ true)
          × (q y ≡ true)
    behind (y, before, after, e, a, b) = (y, x ∷ before, after, ap (λ t. x ∷ t) e, a, b)

-- A test that some element of a list passes finds it, and where it stands.
any_finds {ℓ} :
    {A : Type ℓ} (p : A → Bool) (l : List A)
    → any p l ≡ true
    → (x : A) × (before after : List A) × (l ≡ before ++ x ∷ after) × (p x ≡ true)
any_finds {A = A} p [] h = absurd (cc)
any_finds {A = A} p (x ∷ l) h = elim (Bool-cases (p x)) [
  | inl y ↦ (x, [], l, refl, y)
  | inr n ↦
      let (y, before, after, q, z) = any_finds p l (rw n at h) in
      (y, x ∷ before, after, ap (λ t. x ∷ t) q, z)
]

all_at {ℓ} :
    {A : Type ℓ} (p : A → Bool) (before : List A) (x : A) (after : List A)
    → all p (before ++ x ∷ after) ≡ true
    → p x ≡ true
all_at p [] x after h = (&&_true _ _ h).0
all_at p (y ∷ before) x after h = all_at p before x after (&&_true _ _ h).1

behind_cutoff :
    (o : Option ℤ) (issued_at : ℤ)
    → outlives o issued_at ≡ true
    → (cutoff : ℤ) → o ≡ some cutoff
    → cutoff <ℤ issued_at
behind_cutoff none issued_at h cutoff q = absurd (cc)
behind_cutoff (some t) issued_at h cutoff q =
    subst (λ x. x <ℤ issued_at) (some_injective q) (ground arith)
  where
    some_injective : {a b : ℤ} → some a ≡ some b → a ≡ b
    some_injective w = cc

module _ (e : Env) where
  -- The facts of a contract that is current and allows a request.
  pub record Allows (c : GeneralCell) (r : Identity) (requested : Grant) : Type 0 where
    pub contract : Contract
    pub before : List Contract
    pub after : List Contract
    pub held : c.contracts ≡ before ++ contract ∷ after
    pub same_uuid : contract.subject.uuid ≡ r.uuid
    pub same_key : same_signing_key e.crypto (some contract.subject) (some r) ≡ true
    pub not_revoked :
        (cutoff : ℤ)
        → lookup contract.subject.uuid c.revoked_before ≡ some cutoff
        → cutoff <ℤ contract.issued_at
    pub issued : contract.issued_at ≤ℤ e.now
    pub unexpired : e.now <ℤ contract.issued_at +ℤ seconds contract.duration
    pub short : contract.duration ≤ℤ template_duration c.agreement_template
    pub same_conditions :
        conditions_match e.codec e.marshal contract.conditions c.agreement_template.conditions
        ≡ true
    pub granted : all (check_grant c.agreement_template.grants) contract.grants ≡ true
    pub grant : Grant
    pub grants_before : List Grant
    pub grants_after : List Grant
    pub has_grant : contract.grants ≡ grants_before ++ grant ∷ grants_after
    pub covers : covers_exactly grant requested ≡ true
    pub holds : All (Met e c r) contract.conditions

  is_current_parts :
      (c : GeneralCell) (r : Identity) (k : Contract)
      → is_current e c r k ≡ true
      → (same_signing_key e.crypto (some k.subject) (some r) ≡ true)
        × (survives_revocation c k ≡ true)
        × (in_time e k ≡ true)
        × (inside_template e c k ≡ true)
  unfolding is_current
  is_current_parts c r k h =
      and4 (same_signing_key e.crypto (some k.subject) (some r)) (survives_revocation c k)
        (in_time e k) (inside_template e c k) h
    where
      and4 :
          (x y z w : Bool)
          → (x && y && z && w) ≡ true
          → (x ≡ true) × (y ≡ true) × (z ≡ true) × (w ≡ true)
      and4 x y z w q = ground arith

  in_time_parts :
      (k : Contract)
      → in_time e k ≡ true
      → (k.issued_at ≤ℤ e.now) × (e.now <ℤ k.issued_at +ℤ seconds k.duration)
  in_time_parts k h = parts e.now k.issued_at (k.issued_at +ℤ seconds k.duration) h
    where
      parts :
          (now from until : ℤ)
          → (not (ltb_ℤ now from) && ltb_ℤ now until) ≡ true
          → (from ≤ℤ now) × (now <ℤ until)
      parts now from until q = ground arith

  inside_parts :
      (c : GeneralCell) (k : Contract)
      → inside_template e c k ≡ true
      → (k.duration ≤ℤ template_duration c.agreement_template)
        × (conditions_match e.codec e.marshal k.conditions c.agreement_template.conditions ≡ true)
        × (all (check_grant c.agreement_template.grants) k.grants ≡ true)
  inside_parts c k h = ground arith

  -- Access through a contract comes from one that the cell holds: for the requester's key,
  -- issued behind every revocation of its subject, issued by now and not over yet, no longer than the
  -- template says, under the template's conditions and with grants of the template only, of which one
  -- covers the request exactly, and each of its conditions finds the value that it expects at its
  -- keypath of the target.
  pub contract_allows_sound :
      (c : GeneralCell) (permission keypath : String) (r : Identity)
      → contract_allows e c permission keypath (some r) ≡ true
      → Allows c r (requested_grant permission keypath)
  unfolding contract_allows current_contracts
  contract_allows_sound c permission keypath r h =
      let requested = requested_grant permission keypath in
      let (k, before, after, held, covers, current) =
        any-keep (contract_covers e c r requested) (is_current e c r) c.contracts h in
      let (key, live, timely, inside) = is_current_parts c r k current in
      let (issued, unexpired) = in_time_parts k timely in
      let (short, same, granted) = inside_parts c k inside in
      let (g, grants_before, grants_after, has, covered) =
        any_finds (λ g. covers_exactly g requested) k.grants (&&_true _ _ covers).0 in
      record {
        contract = k;
        before = before;
        after = after;
        held = held;
        same_uuid = same_signing_key-uuid e.crypto k.subject r key;
        same_key = key;
        not_revoked = behind_cutoff (lookup k.subject.uuid c.revoked_before) k.issued_at live;
        issued = issued;
        unexpired = unexpired;
        short = short;
        same_conditions = same;
        granted = granted;
        grant = g;
        grants_before = grants_before;
        grants_after = grants_after;
        has_grant = has;
        covers = covered;
        holds = conditions_hold-Met e c r k.conditions (&&_true _ _ covers).1;
      }

  -- What a contract gives access to is granted by the cell's agreement template as it is now.
  pub contract_allows-inside_template :
      (c : GeneralCell) (permission keypath : String) (r : Identity)
      → contract_allows e c permission keypath (some r) ≡ true
      → check_grant c.agreement_template.grants (requested_grant permission keypath) ≡ true
  contract_allows-inside_template c permission keypath r h =
      let a = contract_allows_sound c permission keypath r h in
      check_grant_trans c.agreement_template.grants a.grant (requested_grant permission keypath)
        (all_at (check_grant c.agreement_template.grants) a.grants_before a.grant a.grants_after
          (rw (← a.has_grant) a.granted))
        a.covers

  -- No contract of a list without those of a subject is current for that subject.
  none_current :
      (c : GeneralCell) (r : Identity) (l : List Contract)
      → keep (is_current e c r) (keep (λ k. not (str_eq k.subject.uuid r.uuid)) l) ≡ []
  none_current c r [] = refl
  none_current c r (k ∷ l) = elim (Bool-cases (str_eq k.subject.uuid r.uuid)) [
    | inl y ↦ rw (y, none_current c r l) refl
    | inr n ↦ elim (Bool-cases (is_current e c r k)) [
      | inr m ↦ rw (n, m, none_current c r l) refl
      | inl m ↦
          let same = same_signing_key-uuid e.crypto k.subject r (is_current_parts c r k m).0 in
          absurd (clash n ((eq_iff k.subject.uuid r.uuid).1 same))
    ]
  ]
    where
      clash : {b : Bool} → b ≡ false → b ≡ true → ⊥
      clash x y = cc

-- Once the contracts of a subject are removed, no contract admits it or gives it access, at
-- whatever later time.
pub remove_contracts-allows :
    (at later : Env) (c : GeneralCell) (permission keypath : String) (r : Identity)
    → let removed = remove_contracts at c r.uuid in
      (contract_allows later removed permission keypath (some r) ≡ false)
      × (holds_contract later removed (some r) ≡ false)
unfolding remove_contracts contract_allows holds_contract current_contracts
remove_contracts-allows at later c permission keypath r =
    (rw (none_current later _ r c.contracts) refl, rw (none_current later _ r c.contracts) refl)
