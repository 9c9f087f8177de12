-- ===== src/Chat/Read.antt =====
-- `read` of a chat, which first has its requester seen.
use go_cell_protocol.Prelude.{
  String, Bool, false, ◌||◌, List, [], ◌∷◌, Option, none, some, str_eq, if◌then◌else◌,
}
use go_cell_protocol.Value.{Value, null, str}
use go_cell_protocol.Identity.{Identity}
use go_cell_protocol.Interop.Chat.{ChatInvitationArtifact}
use go_cell_protocol.Chat.{Participant, ChatInvitation, ChatCell, ChatEnv}
use go_cell_protocol.Chat.Rows.{
  rows, sorted_invitations, artifact_state, invitation_rows, participant_rows, context_people,
  invited_people, recipients, chat_formats,
}
use go_cell_protocol.Chat.Audience.{
  composer_payload, crypto_payload, message_list, resolved_recipients, audience_payload,
  status_summary, state_payload,
}
use go_cell_protocol.Chat.Messages.{
  draft_of, set_draft, observe, publish_participant, publish_status,
}

module _ (e : ChatEnv) where
  abbrev pub observes : String → Bool
  observes keypath =
      str_eq keypath "state"
      || str_eq keypath "status"
      || str_eq keypath "messages"
      || str_eq keypath "participants"

  abbrev pub told : ChatCell → Option Participant → ChatCell
  told c none = c
  told c (some row) = publish_status e (publish_participant e c (some row))

  -- What `read` does before it answers: the requester is seen.
  unfoldable pub seen_by : ChatCell → String → Option Identity → ChatCell
  unfolding observe
  seen_by c keypath requester =
      if observes keypath
      then told (observe e c requester keypath false).0 (observe e c requester keypath false).1
      else c

  abbrev shown_artifact : ChatInvitation → Option ChatInvitationArtifact
  shown_artifact r = if str_eq (artifact_state e r) "issued" then r.artifact else none

  abbrev artifacts_of : List ChatInvitation → List Value
  artifacts_of [] = []
  artifacts_of (r ∷ l) = elim (shown_artifact r) [
    | none ↦ artifacts_of l
    | some a ↦ e.artifact_json a ∷ artifacts_of l
  ]

  -- The draft that a call of `draft` leaves behind.
  abbrev pub with_draft : ChatCell → Option Identity → ChatCell
  with_draft c requester = set_draft c requester (draft_of c requester)

  -- What `read` answers from the audience, or `none` for another key.
  unfoldable pub read_audience : ChatCell → String → Option Value
  unfolding audience_payload
  read_audience c keypath =
      if str_eq keypath "audience"
      then some (audience_payload e c)
      else if str_eq keypath "audience.mode"
      then some (str c.audience_mode)
      else if str_eq keypath "audience.inheritedRecipients"
      then some (recipients e c (context_people e c) "context")
      else if str_eq keypath "audience.invitedRecipients"
      then some (recipients e c (invited_people e c) "invited")
      else if str_eq keypath "audience.resolvedRecipients"
      then some (resolved_recipients e c)
      else if str_eq keypath "audience.invitations"
      then some (invitation_rows e c)
      else if str_eq keypath "audience.invitationArtifacts"
      then some (rows (λ v. v) (artifacts_of (sorted_invitations e c)))
      else none

  abbrev read_composer : ChatCell → String → Option Identity → ChatCell × Value
  read_composer c keypath requester =
      if str_eq keypath "compose.body"
      then (with_draft c requester, str (draft_of c requester).body)
      else if str_eq keypath "compose.contentType"
      then (with_draft c requester, str (draft_of c requester).content_type)
      else if str_eq keypath "compose.state"
      then (with_draft c requester, composer_payload (draft_of c requester))
      else if str_eq keypath "compose.availableFormats"
      then (c, chat_formats)
      else if str_eq keypath "crypto" || str_eq keypath "crypto.state"
      then (c, crypto_payload)
      else (c, null)

  -- The second switch of `read`.
  unfoldable pub answer_read : ChatCell → String → Option Identity → ChatCell × Value
  unfolding read_audience
  answer_read c keypath requester =
      if str_eq keypath "status"
      then (c, str (status_summary e c))
      else if str_eq keypath "state"
      then (with_draft c requester, state_payload e c (draft_of c requester))
      else if str_eq keypath "messages"
      then (c, message_list c)
      else if str_eq keypath "participants" || str_eq keypath "members"
      then (c, participant_rows e c)
      else elim (read_audience c keypath) [
        | some v ↦ (c, v)
        | none ↦ read_composer c keypath requester
      ]

  -- `read`.
  unfoldable pub read : ChatCell → String → Option Identity → ChatCell × Value
  unfolding seen_by answer_read
  read c keypath requester = answer_read (seen_by c keypath requester) keypath requester
