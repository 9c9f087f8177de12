-- ===== src/Chat/Access.antt =====
-- `validate` of a chat, with what its contracts allow as an argument.
use go_cell_protocol.Prelude.{
  String, Bool, true, false, not, ◌||◌, ◌&&◌, Option, none, some, Result, ok, err, str_eq,
  if◌then◌else◌, ◌⧺◌, cut,
}
use go_cell_protocol.Identity.{Identity}
use go_cell_protocol.Cell.Access.{validate_with, swift_permission, identity_label, same_uuid}
use go_cell_protocol.Chat.{ChatCell, ChatEnv}

-- `chatOpenBeforeAdmission`.
unfoldable pub open_before_admission : String → Option String
open_before_admission keypath =
    if str_eq keypath "audience.admission.invitationAccepted"
      || str_eq keypath "audience.admission.member"
    then some "r---"
    else if str_eq keypath "audience.acceptInvitationArtifact"
        || str_eq keypath "audience.inspectInvitationArtifact"
    then some "-w--"
    else none

abbrev is_open : Option String → String → Bool
is_open none permission = false
is_open (some p) permission = str_eq p permission

-- The part before the first dot.
abbrev root_of : String → String
root_of keypath = elim (cut b'.' keypath) [ none ↦ keypath | some (root, _) ↦ root ]

-- The dispatcher accepts the exact key or its root, the handler the exact key or `chat`.
abbrev pub contract_admits : (String → String → Bool) → String → String → Bool
contract_admits allows permission keypath =
    (allows permission keypath
      || not (str_eq (root_of keypath) keypath) && allows permission (root_of keypath))
    && (allows permission keypath || allows permission "chat")

-- The owner's path: no owner, or its UUID.
abbrev pub owners : ChatCell → Option Identity → Bool
owners c requester = elim c.cell.owner [ none ↦ true | some o ↦ same_uuid requester o ]

-- `validate`; `allows` is what `ContractAllows` answers for a permission and a keypath.
unfoldable pub validate :
    ChatEnv
    → (String → String → Bool)
    → ChatCell
    → String
    → String
    → Option Identity
    → Result (Unit {0})
unfolding open_before_admission
validate e allows c operation keypath requester =
    let permission = swift_permission operation in
    let denied : Result (Unit {0}) = err (
      "access denied: no contract for "
      ⧺ (identity_label requester ⧺ (" grants " ⧺ (permission ⧺ (" on " ⧺ keypath))))) in
    if owners c requester
    then validate_with e.env false c.cell operation keypath requester
    else if is_open (open_before_admission keypath) permission
    then ok tt
    else if str_eq keypath "audience.admissionConditions" && str_eq permission "-w--"
    then denied
    else if contract_admits allows permission keypath
    then ok tt
    else denied
