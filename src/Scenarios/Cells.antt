-- ===== src/Scenarios/Cells.antt =====
-- Cells with an owner, a visitor and contracts, on concrete inputs.
use go_cell_protocol.Cell.Flow.{push_flow_element}
use go_cell_protocol.KeyPath.Tokens.{set_tokens, write_token}
use go_cell_protocol.KeyPath.{set_key_path}
use go_cell_protocol.Cell.Handlers.{handler_for}
use go_cell_protocol.Identity.Challenge.{
  validate_challenge, validate_decoded, validate_rest, scope_error,
}
use go_cell_protocol.Identity.Control.{answer_challenge, check_signature}
use go_cell_protocol.Prelude.{
  ◌≡◌, ◌↔◌, ◌⊎◌, inr, refl, true, false, List, [], ◌∷◌, some, none, ok, is_ok, arith, trim_space,
  lookup,
}
use go_cell_protocol.Prelude.Int.{pos}
use go_cell_protocol.Value.{str, normalize}
use go_cell_protocol.KeyPath.Parse.{PathToken, whole, parse_key_path}
use go_cell_protocol.Identity.{Identity, same_signing_key, signing_public_key_fingerprint, sign}
use go_cell_protocol.Agreement.Condition.{
  rejected, signed, template_duration, conditions_match, policies_match,
}
use go_cell_protocol.Agreement.Grant.{check_grant, covers_exactly}
use go_cell_protocol.Cell.{GeneralCell, Contract, value, new_general_cell}
use go_cell_protocol.Cell.Access.{validate_with}
use go_cell_protocol.Cell.Access.Laws.{MayAccess, validate_with_iff}
use go_cell_protocol.Cell.Storage.{get, set, validate_access}
use go_cell_protocol.Cell.Storage.Laws.{get-set}
use go_cell_protocol.Cell.Contracts.{
  requested_grant, contract_allows, holds_contract, remove_contracts, conditions_hold,
  current_contracts, is_current,
}
use go_cell_protocol.Cell.Contracts.Laws.{
  Allows, contract_allows_sound, contract_allows-inside_template, remove_contracts-allows,
}
use go_cell_protocol.Cell.Contracts.Admission.{add_agreement_authorized_by, issue_time}
use go_cell_protocol.Cell.Contracts.Admission.Laws.{Admitted, signed_cell, add_agreement_sound}
use go_cell_protocol.Cell.Contracts.Admission.Access.{at_time, signed_contract_allows}
use go_cell_protocol.Cell.Steps.{IsValid, Reachable-IsValid, start, next, removes}
use go_cell_protocol.Agreement.Permissions.{permission_bits}
use go_cell_protocol.Scenarios.{alice, bob, env, shop, request, read_keys}

-- A contract that lets the visitor read the keys for a minute.
abbrev contract : Contract
contract = record {
  uuid = "c";
  subject = bob;
  grants = read_keys ∷ [];
  conditions = [];
  duration = pos 60;
  issued_at = pos 5;
}

abbrev visited : GeneralCell
visited = record shop { contracts = contract ∷ [] }

-- A cell whose owner lets everyone read what it publishes.
abbrev open_shop : GeneralCell
open_shop = record shop { admission_policy = "ownerPublishedRead" }

abbrev name_token : List PathToken
name_token = record { key = "name"; selector = whole } ∷ []

admitted : Admitted env open_shop request (some bob) none
unfolding new_general_cell same_signing_key signing_public_key_fingerprint trim_space
    template_duration check_grant covers_exactly conditions_match policies_match permission_bits
    conditions_hold
admitted = record {
  identity = bob;
  owner = alice;
  is_subject = refl;
  is_owner = refl;
  proves_key = λ h. cc;
  names_owner = refl;
  is_unsigned = refl;
  short = omega arith;
  within_a_year = omega arith;
  asks = λ h. cc;
  positive = omega arith;
  granted = refl;
  same_conditions = refl;
  authorized = inr (inr (record { is_published = refl; reads_only = (refl, tt) }));
  holds = tt;
}

validate_with_iff_example :
    (is_ok (validate_with env true shop "read" "keys" (some bob)) ≡ true) ↔ (
      (owner : Identity) × (shop.owner ≡ some owner)
      × MayAccess env true shop "read" "keys" (some bob) owner)
validate_with_iff_example = validate_with_iff env true shop "read" "keys" (some bob)

contract_allows_sound_example : Allows env visited bob (requested_grant "r---" "keys")
unfolding contract_allows current_contracts is_current same_signing_key
    signing_public_key_fingerprint trim_space lookup new_general_cell template_duration
    conditions_match policies_match check_grant covers_exactly conditions_hold
contract_allows_sound_example = contract_allows_sound env visited "r---" "keys" bob refl

contract_allows-inside_template_example :
    check_grant visited.agreement_template.grants (requested_grant "r---" "keys") ≡ true
unfolding contract_allows current_contracts is_current same_signing_key
    signing_public_key_fingerprint trim_space lookup new_general_cell template_duration
    conditions_match policies_match check_grant covers_exactly conditions_hold
contract_allows-inside_template_example =
    contract_allows-inside_template env visited "r---" "keys" bob refl

remove_contracts-allows_example :
    let removed = remove_contracts env visited "bob" in
    (contract_allows (at_time env (pos 11)) removed "r---" "keys" (some bob) ≡ false)
    × (holds_contract (at_time env (pos 11)) removed (some bob) ≡ false)
remove_contracts-allows_example =
    remove_contracts-allows env (at_time env (pos 11)) visited "r---" "keys" bob

add_agreement_sound_example :
    (add_agreement_authorized_by env open_shop request (some bob) none ≡ (open_shop, rejected))
    ⊎ ((a : Admitted env open_shop request (some bob) none) × (add_agreement_authorized_by env
            open_shop request
            (some bob)
            none
          ≡ (signed_cell env open_shop request a.identity, signed)))
add_agreement_sound_example = add_agreement_sound env open_shop request (some bob) none

signed_contract_allows_example :
    contract_allows
      (at_time env (pos 20))
      (signed_cell env open_shop request bob)
      "r---"
      "keys"
      (some bob)
    ≡ true
unfolding same_signing_key admitted issue_time lookup
signed_contract_allows_example =
    signed_contract_allows env open_shop request (some bob) none admitted (pos 20) "r---" "keys"
      refl (omega arith) (omega arith) refl refl

get-set_example :
    get env (set env shop "name" (str "Fika") (some alice)).0 "name" (some alice)
    ≡ ok (value (normalize env.codec (str "Fika")))
unfolding validate_access validate_with new_general_cell same_signing_key
    signing_public_key_fingerprint trim_space answer_challenge validate_challenge validate_decoded
    validate_rest scope_error check_signature sign handler_for parse_key_path set set_key_path
    set_tokens write_token push_flow_element
get-set_example =
    get-set env shop "name" name_token (str "Fika") (some alice) (some alice) refl refl refl refl
      refl refl refl refl

Reachable-IsValid_example :
    IsValid (remove_contracts env (new_general_cell env (some alice) "shop") "bob")
Reachable-IsValid_example = Reachable-IsValid (
    next (start env (some alice) "shop")
      (removes env (new_general_cell env (some alice) "shop") "bob"))
