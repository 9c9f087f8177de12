-- ===== src/Chat/Artifacts.antt =====
-- The signed artifacts of a chat: issuing invitations, accepting and inspecting them.
use go_cell_protocol.Prelude.{
  String, Bool, true, false, not, ◌||◌, List, [], ◌∷◌, Option, none, some, Result, ok, err, Dict,
  lookup, insert, remove, ◌++◌, str_eq, all, keep, if◌then◌else◌, ◌⧺◌, ◌>>=◌,
}
use go_cell_protocol.Value.{Value, bool, str, obj, end, field}
use go_cell_protocol.Identity.{Identity}
use go_cell_protocol.Agreement.Condition.{sort_strings}
use go_cell_protocol.Cell.Handlers.{distinct}
use go_cell_protocol.Interop.Chat.{Descriptor, ChatInvitationArtifact, ChatInvitationAcceptance}
use go_cell_protocol.Interop.Chat.Build.{SignFunc, build_chat_invitation, build_chat_acceptance}
use go_cell_protocol.Chat.{ChatPerson, ChatInvitation, Consumption, ChatCell, ChatEnv}
use go_cell_protocol.Chat.People.{artifact_from}
use go_cell_protocol.Chat.Rows.{rows, artifact_state}
use go_cell_protocol.Chat.Invitations.{refused, with_invitations, targets}

abbrev pub owner_descriptor : ChatCell → Option Descriptor
owner_descriptor c = c.owner_person >>= λ (p : ChatPerson). p.descriptor

-- `delete(c.consumed, prior.InvitationID)`, where there is a prior artifact.
abbrev pub forget : Option ChatInvitationArtifact → Dict Consumption → Dict Consumption
forget none m = m
forget (some prior) m = remove prior.invitation_id m

abbrev pub reopened : ChatInvitation → ChatInvitation
reopened r = if str_eq r.status "declined" then record r { status = "pending" } else r

module _ (e : ChatEnv) where
  abbrev pub issued_before : ChatInvitation → Option ChatInvitationArtifact
  issued_before r = if str_eq (artifact_state e r) "issued" then r.artifact else none

  -- The artifact that a record is to be issued. A record without a descriptor is a nil pointer
  -- there, which `inviteIdentities` keeps out.
  unfoldable pub new_artifact :
      ChatCell → String → SignFunc → Descriptor → ChatInvitation → Result ChatInvitationArtifact
  new_artifact c uuid sign owner r = elim r.person.descriptor [
    | none ↦ err "nil descriptor"
    | some invited ↦
        build_chat_invitation e.wire owner invited sign
          (record {
            chat_cell_uuid = c.cell.uuid;
            topic = c.topic;
            audience_mode = c.audience_mode;
            persistence_mode = "draftCacheOnly";
            suite_id = "";
            invitation_id = e.uuids ("invitation " ⧺ uuid);
            now = e.env.now;
            nonce = some (e.randoms ("invitation " ⧺ uuid));
          })
          (record { uuid = e.uuids ("random " ⧺ uuid); nonce = [] })
  ]

  -- The record and the ledger once an artifact is issued.
  abbrev pub with_artifact : ChatCell → String → ChatInvitation → ChatInvitationArtifact → ChatCell
  with_artifact c uuid r a = record c {
    consumed = forget r.artifact c.consumed;
    invitations =
        insert uuid (record r { artifact = some a; acceptance = none; updated_at = a.created_at })
          c.invitations;
  }

  -- One round of the loop of `generateArtifacts`.
  unfoldable pub issue_new :
      SignFunc
      → Descriptor
      → ChatCell
      → String
      → ChatInvitation
      → ChatCell × Result ChatInvitationArtifact
  unfolding new_artifact
  issue_new sign owner c uuid r = elim (new_artifact c uuid sign owner r) [
    | err x ↦ (with_invitations c (insert uuid r c.invitations), err x)
    | ok a ↦ (with_artifact c uuid r a, ok a)
  ]

  unfoldable pub issue_artifact :
      SignFunc
      → Descriptor
      → ChatCell
      → String
      → ChatInvitation
      → ChatCell × Result ChatInvitationArtifact
  unfolding issue_new
  issue_artifact sign owner c uuid r = elim (issued_before r) [
    | some a ↦ (c, ok a)
    | none ↦ issue_new sign owner c uuid (reopened r)
  ]

  -- The loop of `generateArtifacts`, over the UUIDs of records in order; an error ends it.
  unfoldable pub issue_all :
      SignFunc → Descriptor → ChatCell → List String → List Value → ChatCell × Value
  unfolding issue_artifact
  issue_all sign owner c [] out = (c, rows (λ v. v) out)
  issue_all sign owner c (uuid ∷ l) out = elim (lookup uuid c.invitations) [
    | none ↦ (c, rows (λ v. v) out)
    | some r ↦
        let (c', issued) = issue_artifact sign owner c uuid r in
        elim issued [
          | err x ↦ (c', refused x)
          | ok a ↦ issue_all sign owner c' l (out ++ e.artifact_json a ∷ [])
        ]
  ]

  abbrev pub eligible : ChatCell → String → Bool
  eligible c uuid = elim (lookup uuid c.invitations) [
    | none ↦ false
    | some r ↦ not (str_eq r.status "revoked")
  ]

  abbrev pub issue_with :
      ChatCell → Option SignFunc → Option Descriptor → List String → ChatCell × Value
  issue_with c (some sign) (some owner) uuids =
      issue_all sign owner c (sort_strings (distinct (keep (eligible c) uuids))) []
  issue_with c _ _ uuids = (c, refused "owner has no signing key")

  -- `generateArtifacts`.
  unfoldable pub generate_artifacts : ChatCell → Value → ChatCell × Value
  unfolding targets issue_all
  generate_artifacts c v = elim (targets e c v true) [
    | none ↦ (c, refused "invalid invitation target payload")
    | some (uuids, is_all) ↦
        if is_all || all (eligible c) uuids
        then issue_with c c.sign (owner_descriptor c) uuids
        else (c, refused "invitation targets must all reference eligible invitation records")
  ]

  abbrev is_invitee : Option Identity → ChatInvitationArtifact → Bool
  is_invitee none a = false
  is_invitee (some i) a = str_eq i.uuid a.invited_identity.uuid

  abbrev built_json : Result ChatInvitationAcceptance → Value
  built_json (err x) = refused x
  built_json (ok b) = e.acceptance_json b

  -- `generateAcceptance`; without a signer the call of a nil function would panic.
  unfoldable pub generate_acceptance : ChatCell → Value → Option Identity → Value
  unfolding artifact_from
  generate_acceptance c v requester = elim (artifact_from e v) [
    | none ↦ refused "invalid invitation artifact payload"
    | some a ↦
        if is_invitee requester a
        then elim (owner_descriptor c) [
          | none ↦ refused "requester does not match invited identity"
          | some owner ↦ elim c.sign [
            | none ↦ refused "nil signer"
            | some sign ↦ built_json (
                build_chat_acceptance e.wire a owner sign (e.uuids "acceptance") e.env.now
                  (some (e.randoms "acceptance"))
                  (record { uuid = e.uuids "random acceptance"; nonce = [] }))
          ]
        ]
        else refused "requester does not match invited identity"
  ]

  -- `inspect`.
  unfoldable pub inspect : ChatCell → ChatInvitationArtifact → Value
  unfolding artifact_state
  inspect c a =
      let state : String = elim (lookup a.invited_identity.uuid c.invitations) [
        | none ↦ "notFound"
        | some r ↦ elim r.artifact [
          | none ↦ "notFound"
          | some held ↦
              if str_eq held.invitation_id a.invitation_id then artifact_state e r else "superseded"
        ]
      ] in
      obj (
        field "invitationID" (str a.invitation_id) (
          field "state" (str state) (
            field "acceptanceAllowed" (bool (str_eq state "issued"))
              (field "chatCellUUID" (str a.chat_cell_uuid) end))))
