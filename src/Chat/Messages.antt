-- ===== src/Chat/Messages.antt =====
-- The messages of a chat, its participants and drafts, and the flow elements that it publishes.
use go_cell_protocol.Prelude.{
  ℕ, zero, suc, ◌+◌, ◌-◌, String, Bool, true, false, not, ◌||◌, List, [], ◌∷◌, ◌++◌, Option, none,
  some, lookup, insert, str_eq, ltb, length, codes, if◌then◌else◌, ◌⧺◌, trim_space, contains,
}
use go_cell_protocol.Value.{Value, Fields, str, bool, obj, end, field, object_value}
use go_cell_protocol.Identity.{Identity}
use go_cell_protocol.Flow.{FlowElement, new_flow_element}
use go_cell_protocol.Cell.Flow.{push_flow_element}
use go_cell_protocol.Chat.{ChatPerson, Participant, Draft, ChatCell, ChatEnv}
use go_cell_protocol.Chat.People.{text_at, or_text, public_json, chat_initials}
use go_cell_protocol.Chat.Admission.{member_for}
use go_cell_protocol.Chat.Rows.{number_of, participant_row}
use go_cell_protocol.Chat.Audience.{status_payload}

-- `normalizedChatContentType`, on the text in lower case without spaces around it.
unfoldable pub content_type_of : String → String
content_type_of value =
    if str_eq value ""
      || str_eq value "plain"
      || str_eq value "plaintext"
      || str_eq value "text"
      || str_eq value "text/plain"
    then "text/plain"
    else if str_eq value "markdown" || str_eq value "md" || str_eq value "text/markdown"
    then "text/markdown"
    else if contains value "/"
    then value
    else "text/plain"

abbrev pub normalized_content_type : ChatEnv → String → String
normalized_content_type e raw = content_type_of (e.to_lower (trim_space raw))

-- The first characters of a text.
abbrev take_text : ℕ → String → String
take_text zero s = ""
take_text (suc n) String.[] = ""
take_text (suc n) (String.◌∷◌ c s) = String.◌∷◌ c (take_text n s)

abbrev preview_of : String → String
preview_of body = if ltb 140 (length (codes body)) then take_text 139 body ⧺ "…" else body

-- `xs[n:]`, for an `n` up to the length.
module _ {ℓ} {A : Type ℓ} where
  abbrev pub drop : ℕ → List A → List A
  drop zero xs = xs
  drop (suc n) [] = []
  drop (suc n) (x ∷ xs) = drop n xs

-- The messages that a chat keeps, once one is added.
abbrev pub keep_latest {ℓ} : {A : Type ℓ} → ℕ → List A → List A
keep_latest limit messages =
    if ltb limit (length messages) then drop (length messages - limit) messages else messages

abbrev pub draft_key : Option Identity → String
draft_key none = "anonymous"
draft_key (some i) = i.uuid

-- `draft`: the requester's draft, which is there from then on.
unfoldable pub draft_of : ChatCell → Option Identity → Draft
draft_of c requester = elim (lookup (draft_key requester) c.drafts) [
  | none ↦ record { body = ""; content_type = "text/plain" }
  | some d ↦ d
]

unfoldable pub set_draft : ChatCell → Option Identity → Draft → ChatCell
set_draft c requester d = record c { drafts = insert (draft_key requester) d c.drafts }

abbrev pub name_of : Option Identity → String → String
name_of none other = other
name_of (some i) other = or_text i.display_name other

module _ (e : ChatEnv) where
  abbrev is_owner_requester : Option Identity → Option ChatPerson → Option ChatPerson
  is_owner_requester (some i) (some owner) = if str_eq i.uuid owner.uuid then some owner else none
  is_owner_requester _ _ = none

  abbrev stranger : Option Identity → ChatPerson
  stranger none = record { uuid = "anonymous"; display_name = "Ukjent"; descriptor = none }
  stranger (some i) = record { uuid = i.uuid; display_name = i.display_name; descriptor = none }

  -- `personFor`.
  unfoldable pub person_for : ChatCell → Option Identity → ChatPerson
  unfolding member_for
  person_for c requester = elim (is_owner_requester requester c.owner_person) [
    | some owner ↦ owner
    | none ↦ elim (member_for e c requester) [ some member ↦ member | none ↦ stranger requester ]
  ]

  -- `publish`.
  unfoldable pub publish : ChatCell → String → String → String → Value → ChatCell
  publish c title topic id content =
      let fresh = new_flow_element e.env.codec (e.env.new_uuid 1) title content in
      let element : FlowElement = record fresh {
        id = or_text id fresh.id;
        origin = c.cell.uuid;
        properties = some (record { mimetype = ""; kind = "event"; content_type = "object" });
      } in
      record c { cell = push_flow_element e.env c.cell element topic }

  -- `publishStatus`.
  unfoldable pub publish_status : ChatCell → ChatCell
  unfolding publish status_payload
  publish_status c = publish c "Chat status" "chat.status" "" (status_payload e c)

  -- What `observe` writes about a person, over the row that is there.
  abbrev observed : ChatPerson → String → String → String → Bool → Option Participant → Participant
  observed person name now action increment none = record {
    id = person.uuid;
    display_name = name;
    joined_at = now;
    message_count = if increment then 1 else 0;
    last_seen_at = now;
    last_action = action;
    presence = if increment then "messaging" else "present";
    initials = chat_initials e name;
  }
  observed person name now action increment (some p) = record p {
    display_name = name;
    message_count = if increment then p.message_count + 1 else p.message_count;
    last_seen_at = now;
    last_action = action;
    presence = if increment then "messaging" else "present";
    initials = chat_initials e name;
  }

  -- Whether the row is news: the person is new, has sent a message or has another name.
  abbrev news : String → Bool → Option Participant → Bool
  news name increment none = true
  news name increment (some p) = increment || not (str_eq p.display_name name)

  -- `observe`: the chat, and the row to publish.
  unfoldable pub observe :
      ChatCell → Option Identity → String → Bool → ChatCell × Option Participant
  unfolding person_for chat_initials
  observe c none action increment = (c, none)
  observe c (some requester) action increment =
      let person = person_for c (some requester) in
      let name = or_text requester.display_name person.display_name in
      let before = lookup person.uuid c.participants in
      let row = observed person name (e.wire.timestamp e.env.now) action increment before in
      (
        record c { participants = insert person.uuid row c.participants },
        if news name increment before then some row else none,
      )

  -- The participant is published if it is news.
  abbrev pub publish_participant : ChatCell → Option Participant → ChatCell
  publish_participant c none = c
  publish_participant c (some p) =
      publish c "Chat participant" "chat.participant" p.id (obj (participant_row e p))

  -- The message that `store` appends.
  unfoldable pub new_message : ChatCell → String → String → String → Option Identity → Fields
  unfolding person_for public_json chat_initials
  new_message c body content_type topic requester =
      let person = person_for c requester in
      let name = name_of requester person.display_name in
      let markdown = str_eq content_type "text/markdown" in
      let shown : Fields = field "contentType" (str content_type) (
        field "formatLabel" (str (if markdown then "Markdown" else "Plain text")) (
          field "isMarkdown" (bool markdown) (
            field "topic" (str topic) (
              field "createdAt" (str (e.wire.timestamp e.env.now)) (
                field "cryptoState" (str "plaintextOnly")
                  (field "encryptedCompanionAvailable" (bool false) end)))))) in
      field "id" (str (e.uuids "message")) (
        field "owner" (public_json e person) (
          field "ownerUUID" (str person.uuid) (
            field "ownerDisplayName" (str name) (
              field "ownerInitials" (str (chat_initials e name)) (
                field "content" (str body)
                  (field "contentPreview" (str (preview_of body)) shown))))))

  -- The chat with one more message, of which it keeps the latest.
  unfoldable pub append_message : ChatCell → Fields → ChatCell
  append_message c message = record c {
    messages = keep_latest c.messages_limit (c.messages ++ message ∷ []);
  }

  -- `store`.
  unfoldable pub store : ChatCell → String → String → String → Option Identity → ChatCell × Value
  unfolding new_message append_message observe publish publish_status
  store c body content_type topic requester =
      let message = new_message c body content_type topic requester in
      let (seen, row) = observe (append_message c message) requester "sentMessage" true in
      let told = publish seen "Chat message" "chat.message" (e.uuids "message") (obj message) in
      let done = publish_status (publish_participant told row) in
      (
        done,
        obj (
            field "status" (str "sent") (
              field "message" (obj message) (
                field "messageCount" (number_of done.messages)
                  (field "participantCount" (number_of done.participants) end)))),
      )

  -- The body, content type and topic of a message's payload.
  abbrev payload_parts : String → String → Value → String × String × String
  payload_parts content_type topic (str s) = (s, content_type, topic)
  payload_parts content_type topic v = elim (object_value e.env.codec v) [
    | none ↦ ("", content_type, topic)
    | some fs ↦ (
      or_text (text_at "content" fs) (or_text (text_at "body" fs) (text_at "text" fs)),
      or_text (or_text (text_at "contentType" fs) (text_at "format" fs)) content_type,
      or_text (text_at "topic" fs) topic,
    )
  ]

  -- `sendMessage`.
  unfoldable pub send_message : ChatCell → Value → Option Identity → ChatCell × Value
  unfolding draft_of set_draft store
  send_message c v requester =
      let draft = draft_of c requester in
      let c' = set_draft c requester draft in
      let (raw, content_type, topic) = payload_parts draft.content_type c.topic v in
      let body = trim_space raw in
      if str_eq body ""
      then (c', str "error: invalid chat payload")
      else store c' body (normalized_content_type e content_type) topic requester
