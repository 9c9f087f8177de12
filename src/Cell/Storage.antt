-- ===== src/Cell/Storage.antt =====
-- `ValidateAccess`, `Get`, `Set`, `TypeForKey`, `State` and the registration of handlers.
pub mod Laws
use go_cell_protocol.Prelude.{
  ℕ, String, Bool, true, false, List, Option, none, some, Result, ok, err, lookup, insert, ◌>>=◌,
}
use go_cell_protocol.Value.{
  Value, Fields, null, bool, number, int, uint, float, str, bytes, list, obj, end, field, normalize,
  object_value,
}
use go_cell_protocol.Value.Access.{lookup_field}
use go_cell_protocol.KeyPath.{set_key_path}
use go_cell_protocol.Identity.{Identity}
use go_cell_protocol.Flow.{new_flow_element}
use go_cell_protocol.Cell.{GeneralCell, Env, ExploreContract, Reading, value, description, key_list}
use go_cell_protocol.Cell.Handlers.{handler_for, keys}
use go_cell_protocol.Cell.Access.{validate_with, get_with, swift_permission, read_behind}
use go_cell_protocol.Cell.Contracts.{contract_allows}
use go_cell_protocol.Cell.Flow.{push_flow_element}

abbrev type_object : String → Option Value
type_object name = some (obj (field "type" (str name) end))

abbrev or_else : Option Value → Option Value → Option Value
or_else none d = d
or_else (some v) d = some v

-- `AddGetHandler`, `AddSetHandler` and `RegisterExploreContract`.
unfoldable pub add_get_handler : GeneralCell → String → ℕ → GeneralCell
add_get_handler c key h = record c { get_handlers = insert key h c.get_handlers }

unfoldable pub add_set_handler : GeneralCell → String → ℕ → GeneralCell
add_set_handler c key h = record c { set_handlers = insert key h c.set_handlers }

unfoldable pub register_explore_contract : GeneralCell → ExploreContract → GeneralCell
register_explore_contract c x =
    let completed = record x {
      input = or_else x.input (type_object "null");
      returns = or_else x.returns (type_object "unknown");
      required = true;
    } in
    record c { explore_contracts = insert x.key completed c.explore_contracts }

-- The type that `TypeForKey` names for a value in normal form.
abbrev pub type_name : Value → String
type_name null = "null"
type_name (bool b) = "bool"
type_name (int i) = "integer"
type_name (uint n) = "integer"
type_name (float f) = "float"
type_name (str s) = "string"
type_name (list xs) = "list"
type_name (obj fs) = "object"
type_name _ = "unknown"

abbrev text_field : String → Fields → Option String
text_field key fs = elim (lookup_field key fs) [ some (str s) ↦ some s | _ ↦ none ]

-- The content of the flow element that `Set` pushes.
abbrev pub cell_update : Env → String → Value → Value
cell_update e keypath v =
    obj (field "keypath" (str keypath) (field "data" (normalize e.codec v) end))

module _ (e : Env) where
  -- `ValidateAccess`, outside the evaluation of conditions.
  unfoldable pub validate_access :
      GeneralCell → String → String → Option Identity → Result (Unit {0})
  validate_access c operation keypath requester =
      validate_with e (contract_allows e c (swift_permission operation) keypath requester) c
        operation keypath requester

  -- `Get`.
  unfoldable pub get : GeneralCell → String → Option Identity → Result Reading
  get c keypath requester =
      get_with e false (contract_allows e c (swift_permission "read") keypath requester) c keypath
        requester

  -- `Set`: the cell after the call, and the result. A write that fails half way leaves what it
  -- had written.
  unfoldable pub set :
      GeneralCell → String → Value → Option Identity → GeneralCell × Result (Option Value)
  set c keypath v requester = elim (validate_access c "write" keypath requester) [
    | err x ↦ (c, err x)
    | ok _ ↦ elim (handler_for keypath c.set_handlers) [
      | some h ↦ e.run_set h c keypath v requester
      | none ↦
          let o = set_key_path e.codec e.sprint c.storage keypath v in
          let written : GeneralCell = record c { storage = o.root } in
          elim o.error [
            | some x ↦ (written, err x)
            | none ↦ (
              push_flow_element e written
                  (new_flow_element e.codec (e.new_uuid 1) "Cell update" (cell_update e keypath v))
                  "cell.update",
              ok none,
            )
          ]
    ]
  ]

  -- `TypeForKey` from the read on.
  abbrev read_type : Result Reading → String
  read_type (ok (value v)) = type_name (normalize e.codec v)
  read_type (ok (description d)) = "object"
  read_type (ok (key_list l)) = "list"
  read_type (err x) = "unknown"

  -- `TypeForKey`: the type that the explore contract declares, else that of the value read.
  unfoldable pub type_for_key : GeneralCell → String → Option Identity → String
  type_for_key c keypath requester =
      let declared =
        lookup keypath c.explore_contracts
        >>= (λ (x : ExploreContract). x.returns)
        >>= (λ v. object_value e.codec v)
        >>= (λ fs. text_field "type" fs) in
      elim declared [ some t ↦ t | none ↦ read_type (get c keypath requester) ]

  -- `State`.
  unfoldable pub state : GeneralCell → Option Identity → Result Reading
  state c requester = elim (get c "state" requester) [
    | ok r ↦ ok r
    | err _ ↦ elim (validate_access c "read" "state" requester) [
      | err x ↦ err x
      | ok _ ↦ ok (value (normalize e.codec (obj c.storage)))
    ]
  ]
