-- ===== src/Chat/Audience.antt =====
-- The audience of a chat, its status, and its whole state as it shows them.
use go_cell_protocol.Prelude.{
  ◌-◌, String, true, false, not, ◌&&◌, List, [], ◌∷◌, ◌++◌, Option, none, some, str_eq, any, keep,
  length, if◌then◌else◌, ◌⧺◌, trim_space,
}
use go_cell_protocol.Prelude.Int.{pos}
use go_cell_protocol.Value.{Value, Fields, null, bool, int, str, obj, end, field}
use go_cell_protocol.Value.Access.{lookup_field}
use go_cell_protocol.Interop.Chat.Build.{chat_default_suite_id}
use go_cell_protocol.Chat.{ChatPerson, ChatInvitation, ChatCell, ChatEnv, Draft}
use go_cell_protocol.Chat.People.{or_null}
use go_cell_protocol.Chat.Rows.{
  values, rows, number_of, chat_formats, audience_mode_texts, invitation_rows, participant_rows,
  context_people, invited_people, recipient, recipients, has_uuid,
}

-- A person with the UUID of an earlier one is left out.
unfoldable pub first_of_each : List String → List ChatPerson → List ChatPerson
first_of_each seen [] = []
first_of_each seen (p ∷ l) =
    let known = first_of_each seen l in
    let fresh = p ∷ first_of_each (p.uuid ∷ seen) l in
    if any (λ s. str_eq s p.uuid) seen then known else fresh

-- The last message, whose fields are shown in the status.
abbrev latest : List Fields → Option Fields
latest [] = none
latest (m ∷ []) = some m
latest (m ∷ n ∷ l) = latest (n ∷ l)

abbrev shown_latest : String → List Fields → Value
shown_latest key messages = elim (latest messages) [
  | none ↦ null
  | some m ↦ or_null (lookup_field key m)
]

-- `composerPayload`, on the requester's draft.
abbrev pub composer_payload : Draft → Value
composer_payload d = obj (
    field "body" (str d.body) (
      field "contentType" (str d.content_type) (
        field "canSend" (bool (not (str_eq (trim_space d.body) "")))
          (field "availableFormats" chat_formats end))))

-- `cryptoPayload`.
abbrev pub crypto_payload : Value
crypto_payload = obj (
    field "state" (str "plaintextOnly") (
      field "supported" (bool false) (
        field "summary"
          (str
            "Denne noden sender meldinger i klartekst over den autentiserte broen. Krypterte konvolutter er ikke portet.")
          (field "preferredSuiteID" (str chat_default_suite_id)
            (field "persistenceMode" (str "draftCacheOnly") end)))))

-- `messageList`.
abbrev pub message_list : ChatCell → Value
message_list c = rows obj c.messages

module _ (e : ChatEnv) where
  -- `resolvedPeople`.
  unfoldable pub resolved_people : ChatCell → List ChatPerson
  unfolding first_of_each context_people invited_people
  resolved_people c = first_of_each [] (
      if str_eq c.audience_mode "contextMembers"
      then context_people e c
      else if str_eq c.audience_mode "invitedIdentities"
      then invited_people e c
      else context_people e c ++ invited_people e c)

  abbrev resolved_source : ChatCell → String → String
  resolved_source c uuid =
      if has_uuid e uuid (context_people e c) && has_uuid e uuid (invited_people e c)
      then "hybrid"
      else if has_uuid e uuid (invited_people e c)
      then "invited"
      else "context"

  -- `resolvedRecipients`.
  unfoldable pub resolved_recipients : ChatCell → Value
  unfolding resolved_people recipient
  resolved_recipients c = rows (λ p. recipient e c p (resolved_source c p.uuid)) (resolved_people c)

  abbrev counted : String → ChatCell → Value
  counted status c =
      number_of (keep (λ (r : ChatInvitation). str_eq r.status status) (values c.invitations))

  abbrev mode_text : Option (String × String) → String × String
  mode_text none = ("", "")
  mode_text (some t) = t

  -- `audiencePayload`.
  unfoldable pub audience_payload : ChatCell → Value
  unfolding context_people invited_people recipient resolved_recipients invitation_rows
  audience_payload c =
      let texts = mode_text (audience_mode_texts c.audience_mode) in
      let supports : Fields = field "supportsContextMembers" (bool true) (
        field "supportsExplicitInvites" (bool true)
          (field "defaultForEmbeddedComponent" (str "hybrid") end)) in
      let counts : Fields = field "invitationLedgerCount" (number_of c.consumed) (
        field "inheritedCount" (int (pos (length (context_people e c) - 1))) (
          field "invitedCount" (counted "accepted" c) (
            field "resolvedCount" (number_of (resolved_people c)) (
              field "invitationCount" (number_of c.invitations) (
                field "pendingInviteCount" (counted "pending" c) (
                  field "acceptedInviteCount" (counted "accepted" c) (
                    field "declinedInviteCount" (counted "declined" c)
                      (field "revokedInviteCount" (counted "revoked" c) supports)))))))) in
      obj (
        field "mode" (str c.audience_mode) (
          field "modeLabel" (str texts.0) (
            field "summary" (str texts.1) (
              field "inheritedRecipients" (recipients e c (context_people e c) "context") (
                field "invitedRecipients" (recipients e c (invited_people e c) "invited") (
                  field "resolvedRecipients" (resolved_recipients c)
                    (field "invitations" (invitation_rows e c) counts)))))))

  -- `statusSummary`.
  unfoldable pub status_summary : ChatCell → String
  status_summary c =
      "participants: "
      ⧺ (e.decimal (length c.participants)
          ⧺ (" · messages: " ⧺ (e.decimal (length c.messages) ⧺ (" · topic: " ⧺ c.topic))))

  -- `statusPayload`.
  unfoldable pub status_payload : ChatCell → Value
  unfolding status_summary
  status_payload c =
      let last : Fields = field "latestMessageAt" (shown_latest "createdAt" c.messages) (
        field "latestMessagePreview" (shown_latest "contentPreview" c.messages)
          (field "latestMessageContentType" (shown_latest "contentType" c.messages) end)) in
      obj (
        field "summary" (str (status_summary c)) (
          field "topic" (str c.topic) (
            field "messageCount" (number_of c.messages) (
              field "participantCount" (number_of c.participants) (
                field "messagesLimit" (int (pos c.messages_limit))
                  (field "running" (bool false) last))))))

  -- `statePayload`, with the requester's draft.
  unfoldable pub state_payload : ChatCell → Draft → Value
  unfolding status_payload participant_rows audience_payload
  state_payload c d =
      let shown : Fields = field "audience" (audience_payload c) (
        field "messageCount" (number_of c.messages) (
          field "participantCount" (number_of c.participants) (
            field "messagesLimit" (int (pos c.messages_limit)) (
              field "running" (bool false) (
                field "composer" (composer_payload d) (
                  field "crypto" crypto_payload (field "availableFormats" chat_formats end))))))) in
      obj (
        field "topic" (str c.topic) (
          field "status" (str (status_summary c)) (
            field "statusDetail" (status_payload c) (
              field "messages" (message_list c) (
                field "participants" (participant_rows e c)
                  (field "members" (participant_rows e c) shown))))))
