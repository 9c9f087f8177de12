-- ===== src/Chat/Laws/Life.antt =====
-- The calls of a chat, from `NewChatCell` on, and what holds after any number of them.
use go_cell_protocol.Prelude.{
  ℕ, String, Bool, ◌≡◌, true, List, [], Option, none, some, Result, ok, err, arith, if◌then◌else◌,
  Option-cases, inl, inr, str_eq, ◌==◌, ◌||◌, is_some, trim_space, all, ◌>>=◌,
}
use mathlib.Core.Path.{subst}
use go_cell_protocol.Value.{Value, null, str, list_value, normalize}
use go_cell_protocol.Identity.{Identity}
use go_cell_protocol.Interop.Chat.{ChatWire}
use go_cell_protocol.Interop.Chat.Build.{SignFunc}
use go_cell_protocol.Interop.Chat.{Descriptor, ChatInvitationArtifact}
use go_cell_protocol.Cell.{GeneralCell, Reading, value}
use go_cell_protocol.Cell.Handlers.{handler_for}
use go_cell_protocol.Chat.Access.{validate}
use go_cell_protocol.Chat.{Draft, ChatCell, ChatEnv}
use go_cell_protocol.Chat.New.{ChatCellOptions, new_chat_cell}
use go_cell_protocol.Chat.Messages.{store, send_message, draft_of, set_draft}
use go_cell_protocol.Chat.Rows.{rows, audience_mode_texts}
use go_cell_protocol.Chat.People.{ext_string}
use go_cell_protocol.Chat.Invitations.{
  people_from, invite_identities, targets, answer_audience, refused, refused,
}
use go_cell_protocol.Chat.Artifacts.{generate_artifacts, issue_with, eligible, owner_descriptor}
use go_cell_protocol.Chat.Dispatch.{sets_conditions, answered, allowed, chat_get, chat_set}
use go_cell_protocol.Chat.Write.{
  if_trigger, is_trigger_payload, send_draft, write, write_audience, inspected, write_composer,
}
use go_cell_protocol.Chat.Laws.Frame.{
  Kept, Leaves, leaves, branch, chat_get-Kept, set_draft-Kept, framed,
}
use go_cell_protocol.Chat.Laws.Ledger.{
  some_injective, Kept-Sound, store-Sound, invite_all-Sound, update_statuses-Sound, issue_all-Sound,
  accept_artifact-Sound,
}
use go_cell_protocol.Chat.Admission.{
  set_admission_conditions, apply_admission_conditions, admission_names, bad_conditions,
}
use go_cell_protocol.Chat.Laws.Sound.{nil-Sound, Sound}

-- A call of a chat, at any time and with any draws and tables, under the libraries of artifacts, or
-- whatever else becomes of its cell.
pub data Step (w : ChatWire) : ChatCell → ChatCell → Type 0 where
  gets :
      (e : ChatEnv) (c : ChatCell) (keypath : String) (requester : Option Identity)
      → e.wire ≡ w
      → Step w c (chat_get e c keypath requester).0
  sets :
      (e : ChatEnv) (c : ChatCell) (keypath : String) (v : Value) (requester : Option Identity)
      → e.wire ≡ w
      → Step w c (chat_set e c keypath v requester).0
  acts : (c : ChatCell) (cell : GeneralCell) → Step w c (record c { cell = cell })

-- The chats that calls reach from a new one.
pub data Reachable (w : ChatWire) : ChatCell → Type 0 where
  start :
      (e : ChatEnv) (owner : Option Identity) (options : ChatCellOptions)
      → Reachable w (new_chat_cell e owner options)
  next : {c d : ChatCell} → Reachable w c → Step w c d → Reachable w d

module _ (w : ChatWire) (e : ChatEnv) (same : e.wire ≡ w) (c : ChatCell) (s : Sound w c) where
  abbrev Fine : {A : Type 0} → ChatCell × A → Type 0
  Fine = Leaves (Sound w)

  unchanged : {A : Type 0} (a : A) → Fine (c, a)
  unchanged a = leaves (Sound w) c a s

  kept : {A : Type 0} (d : ChatCell) (a : A) → Kept c d → Fine (d, a)
  kept d a k = leaves (Sound w) d a (Kept-Sound w k s)

  drafted :
      (requester : Option Identity) (d : Draft) (a : Value) → Fine (set_draft c requester d, a)
  drafted requester d a = kept _ a (set_draft-Kept c requester d)

  stored :
      (requester : Option Identity) (d : Draft) (body content_type topic : String)
      → Fine (store e (set_draft c requester d) body content_type topic requester)
  stored requester d body content_type topic = record {
    chat =
        store-Sound w e (set_draft c requester d) body content_type topic requester
          (drafted requester d null).chat;
  }

  issued :
      (o : Option SignFunc) (p : Option Descriptor) (uuids : List String)
      → Fine (issue_with e c o p uuids)
  issued (some sign) (some owner) uuids = issue_all-Sound w e sign owner _ c [] s
  issued (some sign) none uuids = unchanged _
  issued none p uuids = unchanged _

  generate_artifacts-Sound : (v : Value) → Fine (generate_artifacts e c v)
  unfolding generate_artifacts
  generate_artifacts-Sound v = targeted (targets e c v true)
    where
      targeted :
          (o : Option (List String × Bool))
          → Fine (elim o as (λ o. ChatCell × Value) [
            | none ↦ (c, refused "invalid invitation target payload")
            | some (uuids, is_all) ↦
                if is_all || all (eligible e c) uuids
                then issue_with e c c.sign (owner_descriptor c) uuids
                else (
                  c,
                  refused "invitation targets must all reference eligible invitation records",
                )
          ])
      targeted none = unchanged _
      targeted (some (uuids, is_all)) =
          branch Fine (is_all || all (eligible e c) uuids) _ _
            (issued c.sign (owner_descriptor c) uuids) (unchanged _)

  set_admission_conditions-Sound : (v : Value) → Fine (set_admission_conditions e c v)
  unfolding set_admission_conditions apply_admission_conditions
  set_admission_conditions-Sound v = named (list_value e.env.codec v >>= admission_names [])
    where
      named :
          (o : Option (List String))
          → Fine (elim o as (λ o. ChatCell × Value) [
            | none ↦ (c, bad_conditions)
            | some names ↦ (apply_admission_conditions e c names, rows str names)
          ])
      named none = unchanged _
      named (some names) = kept _ _ (framed c _ c.audience_mode c.participants c.drafts)

  send_message-Sound :
      (v : Value) (requester : Option Identity) → Fine (send_message e c v requester)
  unfolding send_message
  send_message-Sound v requester =
      branch Fine _ _ _
        (drafted requester (draft_of c requester) (str "error: invalid chat payload"))
        (stored requester (draft_of c requester) _ _ _)

  write_composer-Sound :
      (keypath : String) (v : Value) (requester : Option Identity)
      → Fine (write_composer e c keypath v requester)
  unfolding write_composer
  write_composer-Sound keypath v requester =
      let shown = λ (d : Draft) (a : Value). drafted requester d a in
      on "compose.body" _ _ (shown _ _) (
        on "compose.contentType" _ _ (shown _ _) (
          branch Fine (str_eq keypath "sendMessage" || str_eq keypath "addMessage") _ _
            (send_message-Sound v requester)
            (on "sendComposedMessage" _ _ (triggers _ sends)
              (on "clearComposer" _ _ (triggers _ (shown _ _)) (unchanged null)))))
    where
      on :
          (name : String) (x y : ChatCell × Value)
          → Fine x
          → Fine y
          → Fine (if str_eq keypath name then x else y)
      on name = branch Fine (str_eq keypath name)

      triggers : (x : ChatCell × Value) → Fine x → Fine (if_trigger v c x)
      triggers x h = branch Fine (is_trigger_payload v) _ _ h (unchanged _)

      sends : Fine (send_draft e c requester)
      sends =
          branch Fine (str_eq (trim_space (draft_of c requester).body) "") _ _
            (drafted requester (draft_of c requester) (str "error: empty composer body"))
            (stored requester (record (draft_of c requester) { body = "" }) _ _ _)

  -- What `write_audience` answers, where it does.
  record Given (o : Option (ChatCell × Value)) : Type 0 where
    given : (x : ChatCell × Value) → o ≡ some x → Fine x

  gives : (x : ChatCell × Value) → Fine x → Given (some x)
  gives x h = record { given = λ y q. subst Fine (some_injective q) h }

  inspected-Sound : (o : Option ChatInvitationArtifact) → Fine (inspected e c o)
  inspected-Sound none = unchanged _
  inspected-Sound (some a) = unchanged _

  write_audience-Sound :
      (keypath : String) (v : Value) (requester : Option Identity)
      → Given (write_audience e c keypath v requester)
  unfolding write_audience invite_identities
  write_audience-Sound keypath v requester =
      on "audience.mode" _ _
        (branch Fine (is_some (audience_mode_texts (ext_string v))) _ _
          (kept _ _ (framed c c.cell (ext_string v) c.participants c.drafts)) (unchanged _))
        (on "audience.inviteIdentities" _ _
          (leaves (Sound w) _ _ (invite_all-Sound w e (people_from e c v) c s))
          (on "audience.generateInvitationArtifacts" _ _ (generate_artifacts-Sound v) (
            on "audience.generateInvitationAcceptance" _ _ (unchanged _) (
              on "audience.acceptInvitationArtifact" _ _ (accept_artifact-Sound w e c v same s) (
                on "audience.inspectInvitationArtifact" _ _ (inspected-Sound _) (
                  on "audience.acceptInvites" _ _ (update_statuses-Sound w e c v "accepted" s) (
                    on "audience.declineInvites" _ _ (update_statuses-Sound w e c v "declined" s) (
                      on "audience.revokeInvites" _ _ (update_statuses-Sound w e c v "revoked" s)
                        (on "audience.clearInvites" _ _ cleared nothing)))))))))
    where
      on :
          (name : String) (x : ChatCell × Value) (o : Option (ChatCell × Value))
          → Fine x
          → Given o
          → Given (if str_eq keypath name then some x else o)
      on name x o h k = branch Given (str_eq keypath name) _ _ (gives x h) k

      nothing : Given none
      nothing = record { given = λ x q. absurd (cc) }

      cleared : Fine (answer_audience e (record c { invitations = []; consumed = [] }))
      cleared = leaves (Sound w) _ _ (nil-Sound w c s.bounded)

  write-Sound :
      (keypath : String) (v : Value) (requester : Option Identity)
      → Fine (write e c keypath v requester)
  unfolding write
  write-Sound keypath v requester =
      elim (Option-cases (write_audience e c keypath (normalize e.env.codec v) requester)) [
        | inl n ↦ rw (n, write) (write_composer-Sound keypath (normalize e.env.codec v) requester)
        | inr (x, n) ↦
            rw (n, write)
              ((write_audience-Sound keypath (normalize e.env.codec v) requester).given x n)
      ]

  chat_set-Sound :
      (keypath : String) (v : Value) (requester : Option Identity)
      → Fine (chat_set e c keypath v requester)
  unfolding chat_set
  chat_set-Sound keypath v requester =
      checked (validate e (allowed e c requester) c "write" keypath requester)
        (handler_for keypath c.cell.set_handlers)
    where
      told : (x : ChatCell × Value) → Fine x → Fine (answered e x)
      told x h = leaves (Sound w) x.0 _ h.chat

      checked :
          (r : Result (Unit {0})) (o : Option ℕ)
          → Fine (elim r as (λ r. ChatCell × Result Reading) [
            | err x ↦ (c, err x)
            | ok _ ↦ elim o as (λ o. ChatCell × Result Reading) [
              | none ↦ (c, ok (value null))
              | some h ↦
                  if h == sets_conditions
                  then answered e (set_admission_conditions e c v)
                  else answered e (write e c keypath v requester)
            ]
          ])
      checked (err x) o = unchanged _
      checked (ok x) none = unchanged _
      checked (ok x) (some h) =
          branch Fine (h == sets_conditions) _ _ (told _ (set_admission_conditions-Sound v))
            (told _ (write-Sound keypath v requester))

Step-Sound : {w : ChatWire} {c d : ChatCell} → Step w c d → Sound w c → Sound w d
Step-Sound {w} (gets e c keypath requester same) s =
    Kept-Sound w (chat_get-Kept e c keypath requester).chat s
Step-Sound {w} (acts c cell) s =
    Kept-Sound w (framed c cell c.audience_mode c.participants c.drafts) s
Step-Sound {w} (sets e c keypath v requester same) s =
    (chat_set-Sound w e same c s keypath v requester).chat

-- After any calls of a chat, by anyone and at any times, and whatever its cell has become: it holds no more messages than its limit;
-- every acceptance in a record answers the artifact beside it, for the identity under whose UUID
-- the record stands, and carries a signature that verifies under the key that the artifact invites;
-- and no two invitations of the ledger were consumed by the same acceptance.
pub Reachable-Sound : {w : ChatWire} {c : ChatCell} → Reachable w c → Sound w c
unfolding new_chat_cell
Reachable-Sound {w} (start e owner options) =
    nil-Sound w (new_chat_cell e owner options) (omega arith)
Reachable-Sound {w} (next r s) = Step-Sound s (Reachable-Sound r)
