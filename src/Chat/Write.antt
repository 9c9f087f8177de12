-- ===== src/Chat/Write.antt =====
-- `write` of a chat: its audience, its composer and its messages.
use go_cell_protocol.Prelude.{
  String, Bool, true, false, ◌||◌, [], Option, none, some, str_eq, is_some, if◌then◌else◌,
  trim_space,
}
use go_cell_protocol.Value.{Value, null, bool, str, obj, end, field, normalize}
use go_cell_protocol.Identity.{Identity}
use go_cell_protocol.Interop.Chat.{ChatInvitationArtifact}
use go_cell_protocol.Chat.{Draft, ChatCell, ChatEnv}
use go_cell_protocol.Chat.People.{ext_string, artifact_from}
use go_cell_protocol.Chat.Rows.{audience_mode_texts}
use go_cell_protocol.Chat.Audience.{composer_payload}
use go_cell_protocol.Chat.Messages.{
  draft_of, set_draft, store, send_message, normalized_content_type,
}
use go_cell_protocol.Chat.Invitations.{answer_audience, invite_identities, update_statuses}
use go_cell_protocol.Chat.Artifacts.{generate_artifacts, generate_acceptance, inspect}
use go_cell_protocol.Chat.Accept.{accept_artifact}
use go_cell_protocol.Chat.Read.{with_draft}

-- `isTriggerPayload`.
unfoldable pub is_trigger_payload : Value → Bool
is_trigger_payload null = true
is_trigger_payload (bool _) = true
is_trigger_payload (obj _) = true
is_trigger_payload _ = false

abbrev pub if_trigger : Value → ChatCell → ChatCell × Value → ChatCell × Value
if_trigger v c answer =
    if is_trigger_payload v then answer else (c, str "error: invalid trigger payload")

module _ (e : ChatEnv) where
  abbrev set_mode : ChatCell → String → ChatCell × Value
  set_mode c mode =
      if is_some (audience_mode_texts mode)
      then answer_audience e (record c { audience_mode = mode })
      else (c, str "error: unsupported audience mode")

  abbrev pub inspected : ChatCell → Option ChatInvitationArtifact → ChatCell × Value
  inspected c none = (c, str "error: invalid invitation artifact payload")
  inspected c (some a) = (c, inspect e c a)

  abbrev set_body : ChatCell → Option Identity → String → ChatCell
  set_body c requester body = set_draft c requester (record (draft_of c requester) { body = body })

  -- The body that is sent from the composer.
  abbrev pub send_draft : ChatCell → Option Identity → ChatCell × Value
  send_draft c requester =
      let body = trim_space (draft_of c requester).body in
      if str_eq body ""
      then (with_draft e c requester, str "error: empty composer body")
      else store e (set_body c requester "") body (draft_of c requester).content_type c.topic
          requester

  abbrev cleared : Draft → Value
  cleared d = obj (field "body" (str "") (field "contentType" (str d.content_type) end))

  -- `write` on the keys of the audience; `none` for another key.
  unfoldable pub write_audience :
      ChatCell → String → Value → Option Identity → Option (ChatCell × Value)
  unfolding invite_identities generate_artifacts generate_acceptance accept_artifact update_statuses
      artifact_from inspect
  write_audience c keypath v requester =
      if str_eq keypath "audience.mode"
      then some (set_mode c (ext_string v))
      else if str_eq keypath "audience.inviteIdentities"
      then some (invite_identities e c v)
      else if str_eq keypath "audience.generateInvitationArtifacts"
      then some (generate_artifacts e c v)
      else if str_eq keypath "audience.generateInvitationAcceptance"
      then some (c, generate_acceptance e c v requester)
      else if str_eq keypath "audience.acceptInvitationArtifact"
      then some (accept_artifact e c v)
      else if str_eq keypath "audience.inspectInvitationArtifact"
      then some (inspected c (artifact_from e v))
      else if str_eq keypath "audience.acceptInvites"
      then some (update_statuses e c v "accepted")
      else if str_eq keypath "audience.declineInvites"
      then some (update_statuses e c v "declined")
      else if str_eq keypath "audience.revokeInvites"
      then some (update_statuses e c v "revoked")
      else if str_eq keypath "audience.clearInvites"
      then some (answer_audience e (record c { invitations = []; consumed = [] }))
      else none

  abbrev set_content_type : ChatCell → Option Identity → String → ChatCell
  set_content_type c requester raw =
      set_draft c requester
        (record (draft_of c requester) { content_type = normalized_content_type e raw })

  abbrev shown_draft : ChatCell → Option Identity → ChatCell × Value
  shown_draft c requester = (c, composer_payload (draft_of c requester))

  -- `write` on the other keys.
  unfoldable pub write_composer : ChatCell → String → Value → Option Identity → ChatCell × Value
  unfolding send_message store is_trigger_payload
  write_composer c keypath v requester =
      if str_eq keypath "compose.body"
      then shown_draft (set_body c requester (ext_string v)) requester
      else if str_eq keypath "compose.contentType"
      then shown_draft (set_content_type c requester (ext_string v)) requester
      else if str_eq keypath "sendMessage" || str_eq keypath "addMessage"
      then send_message e c v requester
      else if str_eq keypath "sendComposedMessage"
      then if_trigger v c (send_draft c requester)
      else if str_eq keypath "clearComposer"
      then if_trigger v c (set_body c requester "", cleared (draft_of c requester))
      else (c, null)

  -- `write`.
  unfoldable pub write : ChatCell → String → Value → Option Identity → ChatCell × Value
  unfolding write_audience write_composer
  write c keypath v requester =
      elim (write_audience c keypath (normalize e.env.codec v) requester) [
        | some answer ↦ answer
        | none ↦ write_composer c keypath (normalize e.env.codec v) requester
      ]
