-- ===== src/Chat/Accept.antt =====
-- `acceptArtifact`: a signed invitation and its signed acceptance are handed in.
use go_cell_protocol.Prelude.{
  String, Bool, true, false, not, ◌&&◌, Option, none, some, Result, ok, err, Dict, lookup, insert,
  str_eq, any, if◌then◌else◌, ◌>>=◌, ◌>>◌,
}
use go_cell_protocol.Value.{Value, bool, str, obj, end, field, object_value}
use go_cell_protocol.Value.Access.{lookup_field}
use go_cell_protocol.Interop.Channel.{same_bytes}
use go_cell_protocol.Interop.Chat.{
  ChatInvitationArtifact, ChatInvitationAcceptance, ChatOptions, verify_chat_invitation,
  verify_chat_acceptance, invitation_hash,
}
use go_cell_protocol.Chat.{ChatInvitation, Consumption, ChatCell, ChatEnv}
use go_cell_protocol.Chat.People.{or_null, present, artifact_from, acceptance_from}
use go_cell_protocol.Chat.Rows.{values, invitation_row}
use go_cell_protocol.Chat.Audience.{audience_payload}
use go_cell_protocol.Chat.Invitations.{refused, hash_or_nil, now_text}

-- An artifact with its acceptance, as `acceptArtifact` finds them in the payload.
pub record Handed : Type 0 where
  pub artifact : ChatInvitationArtifact
  pub acceptance : ChatInvitationAcceptance

abbrev pub chat_options : ChatCell → ChatOptions
chat_options c = record {
  expected_chat_cell_uuid = some c.cell.uuid;
  expected_inviter_uuid = elim c.owner_person [ none ↦ none | some (owner) ↦ some owner.uuid ];
}

-- The record's artifact is the one that is presented.
abbrev not_ended : String → Result (Unit {0})
not_ended status =
    if str_eq status "revoked"
    then err "invitation artifact has been revoked"
    else if str_eq status "declined"
    then err "invitation artifact has been declined"
    else ok tt

-- Whether an acceptance repeats the one that consumed the invitation, or is the first one.
unfoldable pub consume_once : Dict Consumption → Handed → Result Bool
consume_once consumed h = elim (lookup h.artifact.invitation_id consumed) [
  | some row ↦
      if not (str_eq row.acceptance_id h.acceptance.acceptance_id)
      then err "invitation artifact already consumed"
      else ok true
  | none ↦
      if any (λ (row : Consumption). str_eq row.acceptance_id h.acceptance.acceptance_id)
        (values consumed)
      then err "acceptance proof already consumed"
      else ok false
]

abbrev pub paired : ChatInvitation → Result Bool → Result (ChatInvitation × Bool)
paired r (err x) = err x
paired r (ok again) = ok (r, again)

module _ (e : ChatEnv) where
  -- The payload: an object with both, or an artifact beside its acceptance.
  unfoldable pub handed_from : Value → Option Handed
  unfolding artifact_from acceptance_from
  handed_from v = elim (object_value e.env.codec v) [
    | none ↦ none
    | some fs ↦ do
      artifact ←
          artifact_from e (elim (present (lookup_field "artifact" fs)) [ none ↦ v | some a ↦ a ])
      acceptance ← acceptance_from e (or_null (lookup_field "acceptance" fs))
      some (record { artifact = artifact; acceptance = acceptance })
  ]

  abbrev same_hash : ChatInvitationArtifact → ChatInvitationArtifact → Bool
  same_hash a b =
      same_bytes (hash_or_nil (invitation_hash e.wire a)) (hash_or_nil (invitation_hash e.wire b))

  -- The record's artifact is the one that was handed in, and is still to be accepted.
  unfoldable pub still_current : ChatInvitation → Handed → Result (Unit {0})
  unfolding invitation_hash
  still_current r h = elim r.artifact [
    | none ↦ err "invitation artifact is no longer active"
    | some held ↦
        if not (str_eq held.invitation_id h.artifact.invitation_id && same_hash held h.artifact)
        then err "invitation artifact has been superseded"
        else not_ended r.status
  ]

  -- The checks of `acceptArtifact`: the record, and whether the acceptance is repeated.
  unfoldable pub acceptable : ChatCell → Handed → Result (ChatInvitation × Bool)
  unfolding verify_chat_invitation verify_chat_acceptance still_current consume_once
  acceptable c h =
      verify_chat_invitation e.wire h.artifact e.env.now (chat_options c)
      >> verify_chat_acceptance e.wire h.acceptance h.artifact e.env.now (some c.cell.uuid)
      >> elim (lookup h.artifact.invited_identity.uuid c.invitations) [
        | none ↦ err "invitation record not found for artifact"
        | some r ↦ still_current r h >> paired r (consume_once c.consumed h)
      ]

  abbrev pub accepted_record : Handed → ChatInvitation → ChatInvitation
  accepted_record h r = record r {
    status = "accepted";
    source = "artifactAccepted";
    updated_at = now_text e;
    artifact = some h.artifact;
    acceptance = some h.acceptance;
  }

  abbrev pub consumption : Handed → Consumption
  consumption h = record {
    invitation_id = h.artifact.invitation_id;
    acceptance_id = h.acceptance.acceptance_id;
    invitee_identity_uuid = h.artifact.invited_identity.uuid;
    consumed_at = now_text e;
  }

  -- The chat once the acceptance is taken.
  unfoldable pub with_accepted : ChatCell → Handed → ChatInvitation → ChatCell
  with_accepted c h r = record c {
    invitations = insert h.artifact.invited_identity.uuid (accepted_record h r) c.invitations;
    consumed = insert h.artifact.invitation_id (consumption h) c.consumed;
  }

  -- What `acceptArtifact` answers.
  unfoldable pub accepted_answer : ChatCell → Handed → ChatInvitation → Bool → Value
  unfolding audience_payload invitation_row
  accepted_answer c h r again = obj (
      field "status" (str "accepted") (
        field "idempotent" (bool again) (
          field "invitationID" (str h.artifact.invitation_id) (
            field "acceptanceID" (str h.acceptance.acceptance_id) (
              field "audience" (audience_payload e c)
                (field "invitation" (invitation_row e (accepted_record h r)) end))))))

  abbrev take_acceptance : ChatCell → Handed → Result (ChatInvitation × Bool) → ChatCell × Value
  take_acceptance c h (err x) = (c, refused x)
  take_acceptance c h (ok (r, again)) =
      (with_accepted c h r, accepted_answer (with_accepted c h r) h r again)

  -- `acceptArtifact`.
  unfoldable pub accept_artifact : ChatCell → Value → ChatCell × Value
  unfolding handed_from acceptable
  accept_artifact c v = elim (handed_from v) [
    | none ↦ (c, refused "invalid invitation artifact acceptance payload")
    | some h ↦ take_acceptance c h (acceptable c h)
  ]
