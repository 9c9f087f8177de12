-- ===== src/Chat/New.antt =====
-- `NewChatCell`: the handlers, the Agreement template and the options of a new chat.
use go_cell_protocol.Prelude.{
  ℕ, String, List, [], ◌∷◌, Option, none, some, str_eq, ◌==◌, if◌then◌else◌, ◌⧺◌,
}
use go_cell_protocol.Identity.{Identity, sign}
use go_cell_protocol.Agreement.Condition.{AgreementTemplate, add_grant}
use go_cell_protocol.Cell.{GeneralCell, new_general_cell}
use go_cell_protocol.Cell.Storage.{add_get_handler, add_set_handler}
use go_cell_protocol.Interop.Chat.Build.{SignFunc}
use go_cell_protocol.Chat.{ChatCell, ChatEnv}
use go_cell_protocol.Chat.People.{person_from_identity}
use go_cell_protocol.Chat.Dispatch.{reads, admits, writes, sets_conditions}

-- `chatReadKeys` and `chatWriteKeys`.
abbrev chat_read_keys : List String
chat_read_keys =
    "status" ∷ "state" ∷ "messages" ∷ "participants" ∷ "members" ∷ "audience" ∷ "audience.mode"
    ∷ "audience.inheritedRecipients" ∷ "audience.invitedRecipients" ∷ "audience.resolvedRecipients"
    ∷ "audience.invitations" ∷ "audience.invitationArtifacts" ∷ "compose.body"
    ∷ "compose.contentType" ∷ "compose.state" ∷ "compose.availableFormats" ∷ "crypto"
    ∷ "crypto.state" ∷ []

abbrev chat_write_keys : List String
chat_write_keys =
    "audience.mode" ∷ "audience.inviteIdentities" ∷ "audience.generateInvitationArtifacts"
    ∷ "audience.generateInvitationAcceptance" ∷ "audience.acceptInvitationArtifact"
    ∷ "audience.inspectInvitationArtifact" ∷ "audience.acceptInvites" ∷ "audience.declineInvites"
    ∷ "audience.revokeInvites" ∷ "audience.clearInvites" ∷ "compose.body" ∷ "compose.contentType"
    ∷ "sendMessage" ∷ "addMessage" ∷ "sendComposedMessage" ∷ "clearComposer" ∷ []

-- `chatTemplateGrants`.
abbrev chat_template_grants : List (String × String)
chat_template_grants =
    ("r---", "feed")
    ∷ ("rw--", "chat")
    ∷ ("rw--", "status")
    ∷ ("rw--", "state")
    ∷ ("rw--", "messages")
    ∷ ("rw--", "participants")
    ∷ ("rw--", "members")
    ∷ ("rw--", "audience")
    ∷ ("rw--", "audience.mode")
    ∷ ("r---", "audience.inheritedRecipients")
    ∷ ("r---", "audience.invitedRecipients")
    ∷ ("r---", "audience.resolvedRecipients")
    ∷ ("r---", "audience.invitations")
    ∷ ("r---", "audience.invitationLedger")
    ∷ ("r---", "audience.invitationArtifacts")
    ∷ ("-w--", "audience.inspectInvitationArtifact")
    ∷ ("rw--", "audience.inviteIdentities")
    ∷ ("rw--", "audience.generateInvitationArtifacts")
    ∷ ("rw--", "audience.generateInvitationAcceptance")
    ∷ ("rw--", "audience.acceptInvitationArtifact")
    ∷ ("rw--", "audience.acceptInvites")
    ∷ ("rw--", "audience.declineInvites")
    ∷ ("rw--", "audience.revokeInvites")
    ∷ ("rw--", "audience.removeContextMembers")
    ∷ ("rw--", "audience.clearInvites")
    ∷ ("rw--", "compose")
    ∷ ("rw--", "compose.body")
    ∷ ("rw--", "compose.contentType")
    ∷ ("rw--", "compose.state")
    ∷ ("rw--", "compose.previewRows")
    ∷ ("r---", "crypto")
    ∷ ("r---", "crypto.state")
    ∷ ("r---", "crypto.policy")
    ∷ ("r---", "crypto.supportedSuites")
    ∷ ("r---", "crypto.recipients")
    ∷ ("r---", "crypto.membership")
    ∷ ("r---", "crypto.rekeyStatus")
    ∷ ("r---", "crypto.persistencePolicy")
    ∷ ("r---", "crypto.persistenceMode")
    ∷ ("r---", "crypto.encryptedMessages")
    ∷ ("r---", "crypto.draftEnvelope")
    ∷ ("rw--", "crypto.persistenceMode")
    ∷ ("rw--", "crypto.requestRekey")
    ∷ ("rw--", "crypto.prepareDraftEnvelope")
    ∷ ("rw--", "crypto.openEnvelope")
    ∷ ("rw--", "crypto.clearDraftEnvelope")
    ∷ ("rw--", "crypto.clearEncryptedMessages")
    ∷ ("rw--", "sendMessage")
    ∷ ("rw--", "sendComposedMessage")
    ∷ ("rw--", "clearComposer")
    ∷ ("rw--", "addMessage")
    ∷ ("rw--", "start")
    ∷ ("rw--", "stop")
    ∷ []

-- The loops of `NewChatCell`.
unfoldable pub grant_all :
    (String → String) → List (String × String) → AgreementTemplate → AgreementTemplate
grant_all uuids [] t = t
grant_all uuids ((permission, keypath) ∷ l) t =
    grant_all uuids l (add_grant t (uuids ("grant " ⧺ keypath)) permission keypath)

unfoldable pub handle_gets : ℕ → List String → GeneralCell → GeneralCell
handle_gets h [] c = c
handle_gets h (key ∷ l) c = handle_gets h l (add_get_handler c key h)

unfoldable pub handle_sets : ℕ → List String → GeneralCell → GeneralCell
handle_sets h [] c = c
handle_sets h (key ∷ l) c = handle_sets h l (add_set_handler c key h)

-- The cell of a new chat, which `SetConditionTarget` has read its conditions from the chat.
unfoldable pub chat_general_cell : ChatEnv → Option Identity → GeneralCell
unfolding grant_all handle_gets handle_sets add_grant add_get_handler add_set_handler
    new_general_cell
chat_general_cell e owner =
    let c = new_general_cell e.env owner "Chat" in
    let granted : GeneralCell = record c {
      agreement_template = grant_all e.uuids chat_template_grants c.agreement_template;
    } in
    handle_sets sets_conditions ("audience.admissionConditions" ∷ []) (
      handle_sets writes chat_write_keys (
        handle_gets admits
          ("audience.admission.invitationAccepted" ∷ "audience.admission.member"
            ∷ "audience.admissionConditions" ∷ [])
          (handle_gets reads chat_read_keys granted)))

-- `ChatCellOptions`, without what stands for the outside.
pub record ChatCellOptions : Type 0 where
  pub sign : Option SignFunc
  pub topic : String
  pub messages_limit : ℕ

abbrev default_sign : Option SignFunc → Option Identity → Option SignFunc
default_sign (some s) owner = some s
default_sign none none = none
default_sign none (some i) = some (sign i)

-- `NewChatCell`.
unfoldable pub new_chat_cell : ChatEnv → Option Identity → ChatCellOptions → ChatCell
unfolding chat_general_cell person_from_identity
new_chat_cell e owner options = record {
  cell = chat_general_cell e owner;
  sign = default_sign options.sign owner;
  topic = if str_eq options.topic "" then "chat" else options.topic;
  messages_limit = if options.messages_limit == 0 then 200 else options.messages_limit;
  owner_person = elim owner [ none ↦ none | some i ↦ some (person_from_identity e i) ];
  audience_mode = "hybrid";
  messages = [];
  participants = [];
  invitations = [];
  consumed = [];
  drafts = [];
}
