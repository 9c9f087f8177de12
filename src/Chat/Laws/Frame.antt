-- ===== src/Chat/Laws/Frame.antt =====
-- What the calls of a chat leave alone: its messages, people, invitations and ledger.
use go_cell_protocol.Prelude.{
  ℕ, String, Bool, ◌≡◌, true, false, refl, Option, none, some, Result, ok, err, if◌then◌else◌, Dict,
  ◌∙◌, str_eq, ◌||◌, ◌==◌,
}
use go_cell_protocol.Value.{Value, null}
use go_cell_protocol.Identity.{Identity}
use go_cell_protocol.Cell.{GeneralCell, Reading, value}
use go_cell_protocol.Chat.{Participant, Draft, ChatCell, ChatEnv}
use go_cell_protocol.Chat.Messages.{
  new_message, append_message, observe, publish, publish_status, publish_participant, draft_of,
  set_draft, store,
}
use go_cell_protocol.Chat.Read.{seen_by, with_draft, answer_read, told, read_audience, read}
use go_cell_protocol.Chat.Dispatch.{answered, admission, admits, allowed, get_allowing, chat_get}
use go_cell_protocol.Chat.Access.{validate}
use go_cell_protocol.Cell.Handlers.{handler_for}

pub record Kept (c d : ChatCell) : Type 0 where
  pub messages : d.messages ≡ c.messages
  pub limit : d.messages_limit ≡ c.messages_limit
  pub owner : d.owner_person ≡ c.owner_person
  pub invitations : d.invitations ≡ c.invitations
  pub consumed : d.consumed ≡ c.consumed

pub Kept-trans : {b c d : ChatCell} → Kept b c → Kept c d → Kept b d
Kept-trans h k = record {
  messages = k.messages ∙ h.messages;
  limit = k.limit ∙ h.limit;
  owner = k.owner ∙ h.owner;
  invitations = k.invitations ∙ h.invitations;
  consumed = k.consumed ∙ h.consumed;
}

-- What holds of both branches of a test holds of the test.
pub branch : {A : Type 0} (P : A → Type 0) (b : Bool) (x y : A) → P x → P y → P (if b then x else y)
branch P true x y h k = h
branch P false x y h k = k

-- What holds of the chat that a call leaves behind, beside its answer.
pub record Leaves {A : Type 0} (P : ChatCell → Type 0) (answer : ChatCell × A) : Type 0 where
  pub chat : P answer.0

pub leaves : {A : Type 0} (P : ChatCell → Type 0) (c : ChatCell) (a : A) → P c → Leaves P (c, a)
leaves P c a h = record { chat = h }

-- A chat in which another cell, another mode, other participants and other drafts are put.
pub framed :
    (c : ChatCell) (cell : GeneralCell) (mode : String) (participants : Dict Participant)
    (drafts : Dict Draft)
    → Kept c (record c {
      cell = cell;
      audience_mode = mode;
      participants = participants;
      drafts = drafts;
    })
framed c cell mode participants drafts = record {
  messages = refl;
  limit = refl;
  owner = refl;
  invitations = refl;
  consumed = refl;
}

pub Kept-refl : (c : ChatCell) → Kept c c
Kept-refl c = framed c c.cell c.audience_mode c.participants c.drafts

pub set_draft-Kept :
    (c : ChatCell) (requester : Option Identity) (d : Draft) → Kept c (set_draft c requester d)
unfolding set_draft
set_draft-Kept c requester d = framed c c.cell c.audience_mode c.participants _

module _ (e : ChatEnv) where
  publish-Kept :
      (c : ChatCell) (title topic id : String) (v : Value) → Kept c (publish e c title topic id v)
  unfolding publish
  publish-Kept c title topic id v = framed c _ c.audience_mode c.participants c.drafts

  publish_status-Kept : (c : ChatCell) → Kept c (publish_status e c)
  unfolding publish_status
  publish_status-Kept c = publish-Kept c "Chat status" "chat.status" "" _

  publish_participant-Kept :
      (c : ChatCell) (row : Option Participant) → Kept c (publish_participant e c row)
  publish_participant-Kept c none = Kept-refl c
  publish_participant-Kept c (some p) = publish-Kept c "Chat participant" "chat.participant" p.id _

  observe-Kept :
      (c : ChatCell) (requester : Option Identity) (action : String) (increment : Bool)
      → Kept c (observe e c requester action increment).0
  unfolding observe
  observe-Kept c none action increment = Kept-refl c
  observe-Kept c (some r) action increment = framed c c.cell c.audience_mode _ c.drafts

  -- `store` adds its message, and does the rest to what is not kept here.
  pub store-Kept :
      (c : ChatCell) (body content_type topic : String) (requester : Option Identity)
      → Kept
          (append_message e c (new_message e c body content_type topic requester))
          (store e c body content_type topic requester).0
  unfolding store
  store-Kept c body content_type topic requester =
      Kept-trans (observe-Kept _ requester "sentMessage" true) (
        Kept-trans (publish-Kept _ "Chat message" "chat.message" (e.uuids "message") _)
          (Kept-trans (publish_participant-Kept _ _) (publish_status-Kept _)))

  seen_by-Kept :
      (c : ChatCell) (keypath : String) (requester : Option Identity)
      → Kept c (seen_by e c keypath requester)
  unfolding seen_by
  seen_by-Kept c keypath requester =
      branch (Kept c) _ _ _ (Kept-trans (observe-Kept c requester keypath false) (told-Kept _ _))
        (Kept-refl c)
    where
      told-Kept : (d : ChatCell) (row : Option Participant) → Kept d (told e d row)
      told-Kept d none = Kept-refl d
      told-Kept d (some row) =
          Kept-trans (publish_participant-Kept d (some row)) (publish_status-Kept _)

  answer_read-Kept :
      (c : ChatCell) (keypath : String) (requester : Option Identity)
      → Leaves (Kept c) (answer_read e c keypath requester)
  unfolding answer_read
  answer_read-Kept c keypath requester =
      let same = λ (v : Value). leaves (Kept c) c v (Kept-refl c) in
      let drafted = λ (v : Value).
        leaves (Kept c) (with_draft e c requester) v
          (set_draft-Kept c requester (draft_of c requester)) in
      on "status" _ _ (same _) (
        on "state" _ _ (drafted _) (
          on "messages" _ _ (same _) (
            split (str_eq keypath "participants" || str_eq keypath "members") _ _ (same _) (
              audience (read_audience e c keypath) _ (
                on "compose.body" _ _ (drafted _) (
                  on "compose.contentType" _ _ (drafted _) (
                    on "compose.state" _ _ (drafted _) (
                      on "compose.availableFormats" _ _ (same _) (
                        split (str_eq keypath "crypto" || str_eq keypath "crypto.state") _ _
                          (same _) (same _))))))))))
    where
      split :
          (b : Bool) (x y : ChatCell × Value)
          → Leaves (Kept c) x
          → Leaves (Kept c) y
          → Leaves (Kept c) (if b then x else y)
      split = branch (Leaves (Kept c))

      on :
          (name : String) (x y : ChatCell × Value)
          → Leaves (Kept c) x
          → Leaves (Kept c) y
          → Leaves (Kept c) (if str_eq keypath name then x else y)
      on name = branch (Leaves (Kept c)) (str_eq keypath name)

      audience :
          (o : Option Value) (x : ChatCell × Value)
          → Leaves (Kept c) x
          → Leaves (Kept c) (elim o as (λ o. ChatCell × Value) [ some v ↦ (c, v) | none ↦ x ])
      audience none x h = h
      audience (some v) x h = leaves (Kept c) c v (Kept-refl c)

  pub chat_get-Kept :
      (c : ChatCell) (keypath : String) (requester : Option Identity)
      → Leaves (Kept c) (chat_get e c keypath requester)
  unfolding chat_get get_allowing read
  chat_get-Kept c keypath requester =
      branch (Leaves (Kept c)) _ _ _ (leaves (Kept c) c _ (Kept-refl c)) (
        checked (validate e (allowed e c requester) c "read" keypath requester)
          (handler_for keypath c.cell.get_handlers))
    where
      checked :
          (r : Result (Unit {0})) (o : Option ℕ)
          → Leaves (Kept c) (elim r as (λ r. ChatCell × Result Reading) [
            | err x ↦ (c, err x)
            | ok _ ↦ elim o as (λ o. ChatCell × Result Reading) [
              | none ↦ (c, ok (value null))
              | some h ↦
                  if h == admits
                  then (c, admission e (allowed e c requester) c keypath requester)
                  else answered e (read e c keypath requester)
            ]
          ])
      checked (err x) o = leaves (Kept c) c _ (Kept-refl c)
      checked (ok x) none = leaves (Kept c) c _ (Kept-refl c)
      checked (ok x) (some h) =
          branch (Leaves (Kept c)) (h == admits) _ _ (leaves (Kept c) c _ (Kept-refl c)) (
            leaves (Kept c) (read e c keypath requester).0 _ (
              Kept-trans (seen_by-Kept c keypath requester)
                (answer_read-Kept _ keypath requester).chat))
