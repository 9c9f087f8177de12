-- ===== src/Cell/Contracts.antt =====
-- Conditions, the contracts that a cell signs, and what they allow.
pub mod Admission
pub mod Conditions
pub mod Laws
use Prim.Native.String
use go_cell_protocol.Prelude.{
  ℕ, zero, suc, ◌+◌, ◌-◌, ◌*◌, String, Bool, true, false, not, ◌&&◌, ◌||◌, List, [], ◌∷◌, map,
  Option, none, some, Result, ok, err, str_eq, length, codes, if◌then◌else◌, ◌⧺◌, lookup, insert,
  has_prefix, cut, any, all, keep,
}
use go_cell_protocol.Prelude.Int.{ℤ, pos, negsuc, ◌+ℤ◌, ltb_ℤ, leb_ℤ}
use go_cell_protocol.Value.{Value, Items, str, list, nil, cons, normalize}
use go_cell_protocol.Identity.{Identity, same_signing_key}
use go_cell_protocol.Agreement.Grant.{Grant, covers_exactly, check_grant}
use go_cell_protocol.Agreement.Condition.{
  Condition, AgreementTemplate, conditions_match, template_duration,
}
use go_cell_protocol.Cell.{GeneralCell, Env, Contract, Reading, value, description, key_list}
use go_cell_protocol.Cell.Access.{get_evaluating}

-- The loop of `strings.ReplaceAll(s, old, new)`, with the characters of a match still to skip.
unfoldable pub replace_from : String → String → ℕ → String → String
replace_from old new skip String.[] = ""
replace_from old new (suc skip) (String.◌∷◌ c s) = replace_from old new skip s
replace_from old new zero (String.◌∷◌ c s) =
    let matched = new ⧺ replace_from old new (length (codes old) - 1) s in
    let other = String.◌∷◌ c (replace_from old new 0 s) in
    if has_prefix (String.◌∷◌ c s) old then matched else other

abbrev replace_all : String → String → String → String
replace_all s old new = replace_from old new 0 s

abbrev pub seconds : ℤ → ℤ
seconds (pos n) = pos (n * 1000000000)
seconds (negsuc n) = negsuc ((n + 1) * 1000000000 - 1)

-- A contract issued at a time counts behind the cutoff of its subject.
abbrev pub outlives : Option ℤ → ℤ → Bool
outlives none issued_at = true
outlives (some cutoff) issued_at = ltb_ℤ cutoff issued_at

-- The cutoff of `revokedBefore` leaves the contract alone.
abbrev pub survives_revocation : GeneralCell → Contract → Bool
survives_revocation c contract =
    outlives (lookup contract.subject.uuid c.revoked_before) contract.issued_at

-- The request of `ContractAllows` has no UUID and no name.
abbrev pub requested_grant : String → String → Grant
requested_grant permission keypath = record {
  uuid = "";
  name = "";
  keypath = keypath;
  permission = permission;
}

module _ (e : Env) where
  -- The JSON text of what a condition reads.
  abbrev pub reading_text : Reading → String
  reading_text (value v) = e.marshal (normalize e.codec v)
  reading_text r = e.describe r

  -- `target.Get` while conditions are evaluated.
  abbrev pub target_get : GeneralCell → String → Identity → Result Reading
  target_get c child requester = elim c.condition_target [
    | some t ↦ t child requester
    | none ↦ get_evaluating e c child (some requester)
  ]

  -- `Condition.Met`, on the cell's target.
  unfoldable pub condition_met : GeneralCell → Identity → Condition → Bool
  condition_met c requester condition = elim condition.lookup [
    | none ↦ false
    | some l ↦ elim (cut b'.' (replace_all l.keypath "$identity" requester.uuid)) [
      | none ↦ false
      | some (context_key, child) ↦
          if str_eq child "" || not (str_eq context_key "target")
          then false
          else elim (target_get c child requester) [
            | err _ ↦ false
            | ok r ↦ str_eq (reading_text r) (e.marshal (normalize e.codec l.expected_value))
          ]
    ]
  ]

  -- `conditionsHold`.
  unfoldable pub conditions_hold : GeneralCell → List Condition → Identity → Bool
  conditions_hold c conditions requester = all (condition_met c requester) conditions

  abbrev pub in_time : Contract → Bool
  in_time contract =
      not (ltb_ℤ e.now contract.issued_at)
      && ltb_ℤ e.now (contract.issued_at +ℤ seconds contract.duration)

  -- The template still admits the contract.
  abbrev pub inside_template : GeneralCell → Contract → Bool
  inside_template c contract =
      not (ltb_ℤ (template_duration c.agreement_template) contract.duration)
      && conditions_match e.codec e.marshal contract.conditions c.agreement_template.conditions
      && all (check_grant c.agreement_template.grants) contract.grants

  -- The tests of the loop of `currentContracts`.
  unfoldable pub is_current : GeneralCell → Identity → Contract → Bool
  is_current c requester contract =
      same_signing_key e.crypto (some contract.subject) (some requester)
      && survives_revocation c contract
      && in_time contract
      && inside_template c contract

  -- `currentContracts`.
  unfoldable pub current_contracts : GeneralCell → Identity → List Contract
  current_contracts c requester = keep (is_current c requester) c.contracts

  abbrev pub contract_covers : GeneralCell → Identity → Grant → Contract → Bool
  contract_covers c requester requested contract =
      any (λ g. covers_exactly g requested) contract.grants
      && conditions_hold c contract.conditions requester

  -- `ContractAllows`, outside the evaluation of conditions.
  unfoldable pub contract_allows : GeneralCell → String → String → Option Identity → Bool
  contract_allows c permission keypath none = false
  contract_allows c permission keypath (some r) =
      any (contract_covers c r (requested_grant permission keypath)) (current_contracts c r)

  -- `HoldsContract`, outside the evaluation of conditions.
  unfoldable pub holds_contract : GeneralCell → Option Identity → Bool
  holds_contract c none = false
  holds_contract c (some r) = any (λ k. conditions_hold c k.conditions r) (current_contracts c r)

  -- `RemoveContracts`.
  unfoldable pub remove_contracts : GeneralCell → String → GeneralCell
  remove_contracts c subject_uuid = record c {
    revoked_before = insert subject_uuid e.now c.revoked_before;
    contracts = keep (λ k. not (str_eq k.subject.uuid subject_uuid)) c.contracts;
  }
