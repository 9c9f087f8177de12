-- ===== src/Cell/Access.antt =====
-- The access check of `ValidateAccess`, with what the contracts say as an argument, and the reads
-- that pass through it.
pub mod Laws
use go_cell_protocol.Prelude.{
  ℕ, String, Bool, true, false, ◌||◌, Option, none, some, Result, ok, err, str_eq, if◌then◌else◌,
  ◌⧺◌, ◌∷◌, [],
}
use go_cell_protocol.Value.{Value}
use go_cell_protocol.Identity.{Identity, same_signing_key}
use go_cell_protocol.Identity.Control.{Purpose, proves_control}
use go_cell_protocol.Agreement.Condition.{Agreement, new_agreement, template_duration}
use go_cell_protocol.KeyPath.{get_key_path}
use go_cell_protocol.Cell.{GeneralCell, Env, AnyCell, Reading, value, description, key_list}
use go_cell_protocol.Cell.Handlers.{handler_for, keys}

-- `swiftPermission`.
unfoldable pub swift_permission : String → String
swift_permission operation =
    if str_eq operation "read" || str_eq operation "flow.read" then "r---" else "-w--"

-- `identityLabel`.
unfoldable pub identity_label : Option Identity → String
identity_label none = "anonymous"
identity_label (some i) = i.uuid

-- The scope of the proof that `ValidateAccess` asks an owner for.
abbrev pub access_purpose : GeneralCell → String → String → Purpose
access_purpose c operation keypath = record {
  domain = c.identity_domain;
  resource = "cell:///" ⧺ (c.uuid ⧺ ("/" ⧺ keypath));
  action = operation;
  audience = "GoCellProtocol.GeneralCell";
}

abbrev pub same_uuid : Option Identity → Identity → Bool
same_uuid none o = false
same_uuid (some r) o = str_eq r.uuid o.uuid

module _ (e : Env) where
  unfoldable pub proves : Option Identity → Option Identity → Purpose → Bool
  unfolding proves_control
  proves expected presented p = proves_control e.crypto expected presented p (e.draw p)

  -- `ValidateAccess`; `allows` is what `ContractAllows` answers. `ok` is a nil error.
  unfoldable pub validate_with :
      Bool → GeneralCell → String → String → Option Identity → Result (Unit {0})
  unfolding proves
  validate_with allows c operation keypath requester = elim c.owner [
    | none ↦ err "access denied: cell has no owner or explicit public policy"
    | some owner ↦
        if same_uuid requester owner
        then if same_signing_key e.crypto (some owner) requester
          then if proves (some owner) requester (access_purpose c operation keypath)
            then ok tt
            else err "access denied: owner signing-key proof failed"
          else err "access denied: owner UUID matched but signing key differed"
        else if allows
        then ok tt
        else err (
            "access denied: no contract for "
            ⧺ (identity_label requester
                ⧺ (" grants " ⧺ (swift_permission operation ⧺ (" on " ⧺ keypath)))))
  ]

  -- `Advertise`.
  unfoldable pub advertise : GeneralCell → Option Identity → AnyCell
  advertise c requester =
      let owner : Option Identity = elim c.owner [ none ↦ requester | some o ↦ some o ] in
      let contract =
        new_agreement e.fresh_identity (e.new_uuid 1) (e.new_uuid 2) (e.new_uuid 3) owner in
      record {
        uuid = c.uuid;
        name = c.name;
        cell_scope = c.cell_scope;
        persistancy = c.persistancy;
        identity_domain = c.identity_domain;
        contract_template = record contract {
          grants = c.agreement_template.grants;
          conditions = c.agreement_template.conditions;
          duration = template_duration c.agreement_template;
        };
        agreement_template = c.agreement_template;
        keys = keys c;
      }

  abbrev pub stored : Result Value → Result Reading
  stored (ok v) = ok (value v)
  stored (err x) = err x

  -- `Get` behind its access check.
  unfoldable pub read_behind : Bool → GeneralCell → String → Option Identity → Result Reading
  read_behind evaluating c keypath requester = elim (handler_for keypath c.get_handlers) [
    | some h ↦ e.run_get h evaluating c keypath requester
    | none ↦ stored (get_key_path e.sprint c.storage keypath)
  ]

  -- `Get`, with what the contracts say.
  unfoldable pub get_with : Bool → Bool → GeneralCell → String → Option Identity → Result Reading
  unfolding validate_with read_behind
  get_with evaluating allows c keypath requester =
      if str_eq keypath "description"
      then ok (description (advertise c requester))
      else if str_eq keypath "keys"
      then ok (key_list (keys c))
      else elim (validate_with allows c "read" keypath requester) [
        | err x ↦ err x
        | ok _ ↦ read_behind evaluating c keypath requester
      ]

  -- `Get` while conditions are evaluated: contracts give no access then.
  unfoldable pub get_evaluating : GeneralCell → String → Option Identity → Result Reading
  unfolding get_with
  get_evaluating = get_with true false
