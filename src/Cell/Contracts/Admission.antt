-- ===== src/Cell/Contracts/Admission.antt =====
-- `AddAgreementAuthorizedBy`: when a cell signs a contract, and which.
pub mod Laws
pub mod Access
use go_cell_protocol.Prelude.{
  ℕ, String, Bool, true, false, not, ◌&&◌, ◌||◌, List, [], ◌∷◌, ◌++◌, Option, none, some, str_eq,
  ◌==◌, if◌then◌else◌, ◌⧺◌, lookup, any, all, length,
}
use go_cell_protocol.Prelude.Int.{ℤ, pos, ◌+ℤ◌, ltb_ℤ, leb_ℤ}
use go_cell_protocol.Identity.{Identity, same_signing_key}
use go_cell_protocol.Identity.Control.{Purpose, has_vault}
use go_cell_protocol.Agreement.Permissions.{permission_bits}
use go_cell_protocol.Agreement.Grant.{Grant, check_grant}
use go_cell_protocol.Agreement.Condition.{
  Agreement, AgreementState, AgreementTemplate, signed, rejected, template, conditions_match,
  enforcing, template_duration, maximum_agreement_duration,
}
use go_cell_protocol.Cell.{GeneralCell, Env, Contract}
use go_cell_protocol.Cell.Access.{proves}
use go_cell_protocol.Cell.Contracts.{conditions_hold}

abbrev pub is_template : AgreementState → Bool
is_template template = true
is_template _ = false

-- The scope of the proofs that an admission asks for.
abbrev pub admission_purpose : GeneralCell → Purpose
admission_purpose c = record {
  domain = c.identity_domain;
  resource = "cell:///" ⧺ (c.uuid ⧺ "/agreement");
  action = "addAgreement";
  audience = "GoCellProtocol.GeneralCell";
}

abbrev pub has_read_bits_only : Option (ℕ × ℕ) → Bool
has_read_bits_only none = false
has_read_bits_only (some (group, other)) = group == 4 && other == 0

module _ (e : Env) where
  -- The subject holds a vault only if it proves control of its key.
  abbrev pub subject_proves : GeneralCell → Identity → Bool
  subject_proves c identity =
      not (has_vault e.crypto identity)
      || proves e (some identity) (some identity) (admission_purpose c)

  abbrev pub owner_authorizes : GeneralCell → Identity → Option Identity → Bool
  owner_authorizes c owner authority =
      same_signing_key e.crypto (some owner) authority
      && proves e (some owner) authority (admission_purpose c)

  -- The request stays inside the template.
  unfoldable pub request_fits : AgreementTemplate → Identity → Agreement → Bool
  request_fits t owner request =
      same_signing_key e.crypto (some owner) request.owner
      && is_template request.state
      && ltb_ℤ (pos 0) request.duration
      && leb_ℤ request.duration (template_duration t)
      && leb_ℤ request.duration maximum_agreement_duration
      && not (length request.grants == 0)
      && conditions_match e.codec e.marshal request.conditions t.conditions
      && all (check_grant t.grants) request.grants

  -- The admission policy, for a request that the owner did not authorize.
  unfoldable pub policy_admits : String → AgreementTemplate → Agreement → Bool
  policy_admits policy t request =
      if str_eq policy "automaticWhenConditionsMet"
      then any enforcing t.conditions
      else if str_eq policy "ownerPublishedRead"
      then all (λ (g : Grant). has_read_bits_only (permission_bits g.permission)) request.grants
      else false

  abbrev pub issue_after : Option ℤ → ℤ
  issue_after none = e.now
  issue_after (some cutoff) = if ltb_ℤ cutoff e.now then e.now else cutoff +ℤ pos 1000

  -- When the contract is issued: after a revocation of its subject.
  unfoldable pub issue_time : GeneralCell → String → ℤ
  issue_time c subject_uuid = issue_after (lookup subject_uuid c.revoked_before)

  unfoldable pub signed_contract : GeneralCell → Agreement → Identity → Contract
  signed_contract c request identity = record {
    uuid = e.new_uuid 0;
    subject = identity;
    grants = request.grants;
    conditions = c.agreement_template.conditions;
    duration = request.duration;
    issued_at = issue_time c identity.uuid;
  }

  -- All the guards, for an owner and a subject that are there.
  unfoldable pub admits : GeneralCell → Agreement → Identity → Option Identity → Identity → Bool
  admits c request identity authority owner =
      subject_proves c identity
      && request_fits c.agreement_template owner request
      && (owner_authorizes c owner authority
          || policy_admits c.admission_policy c.agreement_template request)
      && conditions_hold e c c.agreement_template.conditions identity

  -- The answer to a subject that is there, for the owner that the cell has or lacks.
  unfoldable pub answer_request :
      GeneralCell
      → Agreement
      → Identity
      → Option Identity
      → Option Identity
      → GeneralCell × AgreementState
  answer_request c request identity authority none = (c, rejected)
  answer_request c request identity authority (some owner) =
      if admits c request identity authority owner
      then (record c { contracts = c.contracts ++ signed_contract c request identity ∷ [] }, signed)
      else (c, rejected)

  -- `AddAgreementAuthorizedBy`.
  unfoldable pub add_agreement_authorized_by :
      GeneralCell → Agreement → Option Identity → Option Identity → GeneralCell × AgreementState
  unfolding answer_request
  add_agreement_authorized_by c request none authority = (c, rejected)
  add_agreement_authorized_by c request (some identity) authority =
      answer_request c request identity authority c.owner

  -- `AddAgreement`.
  unfoldable pub add_agreement :
      GeneralCell → Agreement → Option Identity → GeneralCell × AgreementState
  unfolding add_agreement_authorized_by
  add_agreement c request identity = add_agreement_authorized_by c request identity none
