-- ===== src/Cell/Connections.antt =====
-- Attached emitters, membership, admission of a connection, and the two operations on the feed, all
-- behind their access checks.
use go_cell_protocol.Prelude.{
  String, Bool, not, ◌||◌, List, [], ◌∷◌, map, Option, none, some, Result, ok, err, str_eq,
  if◌then◌else◌, Dict, lookup, insert, remove, all, contains, cut,
}
use go_cell_protocol.Identity.{Identity, same_signing_key}
use go_cell_protocol.Agreement.Condition.{
  ConnectState, connected, sign_contract, not_connected, denied, sort_strings,
}
use go_cell_protocol.Cell.{GeneralCell, Env}
use go_cell_protocol.Cell.Handlers.{dict_keys}
use go_cell_protocol.Cell.Contracts.{contract_allows, holds_contract}
use go_cell_protocol.Cell.Storage.{validate_access}
use go_cell_protocol.Cell.Flow.{FlowOutcome, open_flow, close_cell}

pub record ConnectionStatus : Type 0 where
  pub label : String
  pub state : ConnectState

-- An emitter: the cell itself, or an attached one by its UUID.
pub data Emitter : Type 0 where
  this_cell : Emitter
  attached_emitter : String → Emitter

-- `capabilityKeypath`: what stands behind the first colon, if anything does.
unfoldable pub capability_keypath : String → String
capability_keypath capability =
    let unscoped = if contains capability "flow.read" then "feed" else capability in
    elim (cut b':' capability) [
      | none ↦ unscoped
      | some (scope, keypath) ↦ if str_eq keypath "" then unscoped else keypath
    ]

-- The loop of `GetEmitterWithUUID`.
unfoldable pub find_emitter : String → Dict String → Option Emitter
find_emitter uuid [] = none
find_emitter uuid ((label, u) ∷ m) =
    let rest = find_emitter uuid m in if str_eq u uuid then some (attached_emitter u) else rest

abbrev label_status : String → ConnectionStatus
label_status label = record { label = label; state = connected }

module _ (e : Env) where
  -- `Attach`.
  unfoldable pub attach :
      GeneralCell → String → String → Option Identity → GeneralCell × ConnectState
  attach c emitter label requester = elim (validate_access e c "write" label requester) [
    | err _ ↦ (c, denied)
    | ok _ ↦ (record c { attached = insert label emitter c.attached }, connected)
  ]

  -- `AbsorbFlow`: the emitter whose elements are then pushed, each under its own topic, until its
  -- feed ends.
  unfoldable pub absorb_flow : GeneralCell → String → Option Identity → Result String
  absorb_flow c label requester = elim (validate_access e c "write" label requester) [
    | err x ↦ err x
    | ok _ ↦ elim (lookup label c.attached) [
      | none ↦ err "no attached emitter"
      | some emitter ↦ ok emitter
    ]
  ]

  -- `Detach`, which is also `DropFlow`.
  unfoldable pub detach : GeneralCell → String → Option Identity → GeneralCell × Result (Unit {0})
  detach c label requester = elim (validate_access e c "write" label requester) [
    | err x ↦ (c, err x)
    | ok _ ↦ (record c { attached = remove label c.attached }, ok tt)
  ]

  -- `DetachAll`, which is also `DropAllFlows`.
  unfoldable pub detach_all : GeneralCell → Option Identity → GeneralCell × Result (Unit {0})
  detach_all c requester = elim (validate_access e c "write" "connections" requester) [
    | err x ↦ (c, err x)
    | ok _ ↦ (record c { attached = [] }, ok tt)
  ]

  -- `AttachedStatus`.
  unfoldable pub attached_status : GeneralCell → String → Option Identity → Result ConnectionStatus
  attached_status c label requester = elim (validate_access e c "read" label requester) [
    | err x ↦ err x
    | ok _ ↦ ok (record {
      label = label;
      state = elim (lookup label c.attached) [ none ↦ not_connected | some _ ↦ connected ];
    })
  ]

  -- `AttachedStatuses`, in the order of the labels.
  unfoldable pub attached_statuses : GeneralCell → Option Identity → Result (List ConnectionStatus)
  attached_statuses c requester = elim (validate_access e c "read" "connections" requester) [
    | err x ↦ err x
    | ok _ ↦ ok (map label_status (sort_strings (dict_keys c.attached)))
  ]

  -- `Flow`.
  unfoldable pub flow : GeneralCell → Option Identity → Result FlowOutcome
  flow c requester = elim (validate_access e c "flow.read" "feed" requester) [
    | err x ↦ err x
    | ok _ ↦ ok (open_flow c)
  ]

  -- `Close`.
  unfoldable pub close : GeneralCell → Option Identity → GeneralCell × Result (Unit {0})
  close c requester = elim (validate_access e c "write" "lifecycle.close" requester) [
    | err x ↦ (c, err x)
    | ok _ ↦ (close_cell c, ok tt)
  ]

  abbrev allows_capability : GeneralCell → Option Identity → String → Bool
  allows_capability c requester capability =
      contract_allows e c "-w--" (capability_keypath capability) requester
      || contract_allows e c "r---" (capability_keypath capability) requester

  -- `Admit`.
  unfoldable pub admit : GeneralCell → Option Identity → List String → ConnectState
  admit c none capabilities = denied
  admit c (some r) capabilities =
      if not (holds_contract e c (some r))
      then sign_contract
      else if all (allows_capability c (some r)) capabilities
      then connected
      else denied

  -- `GetOwner`.
  unfoldable pub get_owner : GeneralCell → Option Identity → Result Identity
  get_owner c requester = elim (validate_access e c "read" "owner" requester) [
    | err x ↦ err x
    | ok _ ↦ elim c.owner [ none ↦ err "cell has no owner" | some o ↦ ok o ]
  ]

  -- `GetEmitterWithUUID`.
  unfoldable pub get_emitter_with_uuid :
      GeneralCell → String → Option Identity → Result (Option Emitter)
  get_emitter_with_uuid c uuid requester = elim (validate_access e c "read" "emitters" requester) [
    | err x ↦ err x
    | ok _ ↦ ok (if str_eq c.uuid uuid then some this_cell else find_emitter uuid c.attached)
  ]

  -- `IsMember`.
  unfoldable pub is_member : GeneralCell → Option Identity → Option Identity → Result Bool
  is_member c identity requester = elim (validate_access e c "read" "membership" requester) [
    | err x ↦ err x
    | ok _ ↦ ok (same_signing_key e.crypto c.owner identity)
  ]
