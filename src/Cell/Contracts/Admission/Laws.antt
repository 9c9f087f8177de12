-- ===== src/Cell/Contracts/Admission/Laws.antt =====
-- What a signed contract stands for: the guards of its admission, and the access it gives.
use go_cell_protocol.Prelude.{
  not, ℕ, List, All, ap, str_eq, eq_iff, &&_true, any, ◌≢◌, ◌≡◌, ◌⊎◌, inl, inr, refl, Bool, true,
  ◌&&◌, ◌||◌, [], ◌∷◌, ◌++◌, Option, none, some, arith, all, Bool-cases, lookup,
}
use go_cell_protocol.Prelude.Int.{ℤ, pos, ◌<ℤ◌, ◌≤ℤ◌}
use go_cell_protocol.Identity.{Identity, same_signing_key}
use go_cell_protocol.Agreement.Grant.{Grant, check_grant}
use go_cell_protocol.Agreement.Permissions.{permission_bits}
use go_cell_protocol.Agreement.Condition.{
  Condition, enforcing, template, Agreement, signed, rejected, conditions_match, template_duration,
}
use go_cell_protocol.Cell.{GeneralCell, Env}
use go_cell_protocol.Cell.Contracts.{conditions_hold, outlives, survives_revocation}
use go_cell_protocol.Identity.Control.{has_vault}
use go_cell_protocol.Cell.Access.{proves}
use go_cell_protocol.Cell.Contracts.Conditions.{Met, conditions_hold-Met}
use go_cell_protocol.Cell.Contracts.Admission.{
  admission_purpose, subject_proves, owner_authorizes, request_fits, policy_admits, issue_time,
  issue_after, answer_request, signed_contract, admits, has_read_bits_only,
  add_agreement_authorized_by,
}

-- The admission policies that need no approval of the owner.
pub record Automatic (c : GeneralCell) (request : Agreement) : Type 0 where
  pub is_automatic : c.admission_policy ≡ "automaticWhenConditionsMet"
  pub condition : Condition
  pub before : List Condition
  pub after : List Condition
  pub asked : c.agreement_template.conditions ≡ before ++ condition ∷ after
  pub enforces : enforcing condition ≡ true

pub record PublishedRead (c : GeneralCell) (request : Agreement) : Type 0 where
  pub is_published : c.admission_policy ≡ "ownerPublishedRead"
  pub reads_only : All (λ (g : Grant). permission_bits g.permission ≡ some (4, 0)) request.grants

any-enforcing :
    (l : List Condition)
    → any enforcing l ≡ true
    → (x : Condition) × (before after : List Condition) × (l ≡ before ++ x ∷ after)
      × (enforcing x ≡ true)
any-enforcing [] h = absurd (cc)
any-enforcing (x ∷ l) h = elim (Bool-cases (enforcing x)) [
  | inl y ↦ (x, [], l, refl, y)
  | inr n ↦
      let (y, before, after, q, z) = any-enforcing l (rw n at h) in
      (y, x ∷ before, after, ap (λ t. x ∷ t) q, z)
]

read_bits : (o : Option (ℕ × ℕ)) → has_read_bits_only o ≡ true → o ≡ some (4, 0)
read_bits none h = absurd (cc)
read_bits (some (group, other)) h = ground arith

all_reads :
    (l : List Grant)
    → all (λ (g : Grant). has_read_bits_only (permission_bits g.permission)) l ≡ true
    → All (λ (g : Grant). permission_bits g.permission ≡ some (4, 0)) l
all_reads [] h = tt
all_reads (g ∷ l) h =
    let (first, rest) = &&_true _ _ h in
    (read_bits (permission_bits g.permission) first, all_reads l rest)

module _ (e : Env) where
  policy_admits_sound :
      (c : GeneralCell) (request : Agreement)
      → policy_admits e c.admission_policy c.agreement_template request ≡ true
      → Automatic c request ⊎ PublishedRead c request
  unfolding policy_admits
  policy_admits_sound c request h =
      elim (Bool-cases (str_eq c.admission_policy "automaticWhenConditionsMet")) [
        | inl y ↦
            let (x, before, after, q, z) =
              any-enforcing c.agreement_template.conditions (rw y at h) in
            inl (record {
              is_automatic = (eq_iff _ _).0 y;
              condition = x;
              before = before;
              after = after;
              asked = q;
              enforces = z;
            })
        | inr n ↦ elim (Bool-cases (str_eq c.admission_policy "ownerPublishedRead")) [
          | inl y ↦ inr (record {
            is_published = (eq_iff _ _).0 y;
            reads_only = all_reads request.grants (rw y at (rw n at h));
          })
          | inr m ↦ absurd (let q = (rw m at (rw n at h)) in cc)
        ]
      ]

  -- The guards that stand behind a signature.
  pub record Admitted (c : GeneralCell) (request : Agreement) (subject : Option Identity)
      (authority : Option Identity) : Type 0 where
    pub identity : Identity
    pub owner : Identity
    pub is_subject : subject ≡ some identity
    pub is_owner : c.owner ≡ some owner
    pub proves_key :
        has_vault e.crypto identity ≡ true
        → proves e (some identity) (some identity) (admission_purpose c) ≡ true
    pub names_owner : same_signing_key e.crypto (some owner) request.owner ≡ true
    pub is_unsigned : request.state ≡ template
    pub short : request.duration ≤ℤ template_duration c.agreement_template
    pub within_a_year : request.duration ≤ℤ pos 31536000
    pub positive : pos 0 <ℤ request.duration
    pub asks : request.grants ≢ []
    pub granted : all (check_grant c.agreement_template.grants) request.grants ≡ true
    pub same_conditions :
        conditions_match e.codec e.marshal request.conditions c.agreement_template.conditions ≡ true
    pub authorized :
        ((same_signing_key e.crypto (some owner) authority ≡ true)
          × (proves e (some owner) authority (admission_purpose c) ≡ true))
        ⊎ Automatic c request
        ⊎ PublishedRead c request
    pub holds : All (Met e c identity) c.agreement_template.conditions

  request_fits_parts :
      (c : GeneralCell) (owner : Identity) (request : Agreement)
      → request_fits e c.agreement_template owner request ≡ true
      → (same_signing_key e.crypto (some owner) request.owner ≡ true)
        × (request.state ≡ template)
        × (request.duration ≤ℤ template_duration c.agreement_template)
        × (request.duration ≤ℤ pos 31536000)
        × (request.grants ≢ [])
        × (pos 0 <ℤ request.duration)
        × (all (check_grant c.agreement_template.grants) request.grants ≡ true)
        × (conditions_match e.codec e.marshal request.conditions c.agreement_template.conditions
            ≡ true)
  unfolding request_fits
  request_fits_parts c owner request h = ground arith

  admits_parts :
      (c : GeneralCell) (request : Agreement) (identity : Identity) (authority : Option Identity)
      (owner : Identity)
      → admits e c request identity authority owner ≡ true
      → (subject_proves e c identity ≡ true)
        × (request_fits e c.agreement_template owner request ≡ true)
        × ((owner_authorizes e c owner authority ≡ true)
            ⊎ (policy_admits e c.admission_policy c.agreement_template request ≡ true))
        × (conditions_hold e c c.agreement_template.conditions identity ≡ true)
  unfolding admits
  admits_parts c request identity authority owner h =
      parts (subject_proves e c identity) (request_fits e c.agreement_template owner request)
        (owner_authorizes e c owner authority)
        (policy_admits e c.admission_policy c.agreement_template request)
        (conditions_hold e c c.agreement_template.conditions identity) h
    where
      parts :
          (x y z w v : Bool)
          → (x && y && (z || w) && v) ≡ true
          → (x ≡ true) × (y ≡ true) × ((z ≡ true) ⊎ (w ≡ true)) × (v ≡ true)
      parts x y z w v q = ground arith

  abbrev pub signed_cell : GeneralCell → Agreement → Identity → GeneralCell
  signed_cell c request i = record c {
    contracts = c.contracts ++ signed_contract e c request i ∷ [];
  }

  answer_request_sound :
      (c : GeneralCell) (request : Agreement) (i : Identity) (authority owner : Option Identity)
      → c.owner ≡ owner
      → (answer_request e c request i authority owner ≡ (c, rejected))
        ⊎ ((a : Admitted c request (some i) authority) × (answer_request e c request i authority
                owner
              ≡ (signed_cell c request a.identity, signed)))
  unfolding answer_request
  answer_request_sound c request i authority none q = inl refl
  answer_request_sound c request i authority (some o) q =
      elim (Bool-cases (admits e c request i authority o)) [
        | inr n ↦ inl (rw n refl)
        | inl y ↦
            let (proof, fits, auth, holds) = admits_parts c request i authority o y in
            let (names, unsigned, short, within, asks, positive, granted, same) =
              request_fits_parts c o request fits in
            inr (
              record {
                identity = i;
                owner = o;
                is_subject = refl;
                is_owner = q;
                proves_key = λ has. shown _ _ proof has;
                names_owner = names;
                is_unsigned = unsigned;
                short = short;
                within_a_year = within;
                asks = asks;
                positive = positive;
                granted = granted;
                same_conditions = same;
                authorized = by_policy auth;
                holds = conditions_hold-Met e c i c.agreement_template.conditions holds;
              },
              rw y refl,
            )
      ]
    where
      shown : (x y : Bool) → (not x || y) ≡ true → x ≡ true → y ≡ true
      shown x y h k = ground arith

      by_policy :
          (owner_authorizes e c o authority ≡ true)
            ⊎ (policy_admits e c.admission_policy c.agreement_template request ≡ true)
          → ((same_signing_key e.crypto (some o) authority ≡ true)
              × (proves e (some o) authority (admission_purpose c) ≡ true))
            ⊎ Automatic c request
            ⊎ PublishedRead c request
      by_policy (inl h) = inl (&&_true _ _ h)
      by_policy (inr h) = inr (policy_admits_sound c request h)

  -- A request is signed only behind all its guards: the subject proves its key if it holds a
  -- vault, the request names the owner's key and is unsigned, lasts longer than nothing and no
  -- longer than the template says and a year, asks for one grant at least and for grants of the
  -- template only, under the template's conditions, each condition of the template finds the value
  -- that it expects, and the owner's key authorizes it by a proof, or the policy is automatic and a
  -- condition of the template enforces something, or the policy publishes reads and every grant asks
  -- for reads only. Exactly one contract is appended then. A request that is not signed is rejected
  -- and leaves the cell as it was.
  pub add_agreement_sound :
      (c : GeneralCell) (request : Agreement) (subject authority : Option Identity)
      → ((add_agreement_authorized_by e c request subject authority) ≡ (c, rejected))
        ⊎ ((a : Admitted c request subject authority) × (add_agreement_authorized_by e c request
                subject authority
              ≡ (signed_cell c request a.identity, signed)))
  unfolding add_agreement_authorized_by
  add_agreement_sound c request none authority = inl refl
  add_agreement_sound c request (some i) authority =
      answer_request_sound c request i authority c.owner refl

  -- A contract is issued behind the revocation of its subject.
  pub survives-signed_contract :
      (c : GeneralCell) (request : Agreement) (i : Identity)
      → survives_revocation c (signed_contract e c request i) ≡ true
  unfolding signed_contract issue_time
  survives-signed_contract c request i = after (lookup i.uuid c.revoked_before)
    where
      after : (o : Option ℤ) → outlives o (issue_after e o) ≡ true
      after none = refl
      after (some t) = ground arith
