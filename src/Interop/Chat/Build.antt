-- ===== src/Interop/Chat/Build.antt =====
-- The builders of interop/chat.go: an invitation signed by the inviter, and an acceptance signed by
-- the invitee.
use go_cell_protocol.Prelude.{
  String, not, Option, none, some, Result, ok, err, str_eq, if◌then◌else◌, ◌>>◌,
}
use go_cell_protocol.Prelude.Int.{ℤ, pos, ◌+ℤ◌}
use go_cell_protocol.Identity.{Bytes}
use go_cell_protocol.Interop.Chat.{
  Descriptor, SignatureProof, ChatInvitationArtifact, ChatInvitationAcceptance, ChatWire, same_key,
  signed_artifact, signed_acceptance, invitation_hash, verify_chat_invitation, any_options,
}

-- `SignFunc`.
abbrev pub SignFunc : Type 0
SignFunc = Bytes → Result Bytes

-- Seven days, in nanoseconds.
abbrev pub chat_invitation_lifetime : ℤ
chat_invitation_lifetime = pos 604800000000000

abbrev pub chat_default_suite_id : String
chat_default_suite_id = "haven.chat.message.v1"

-- `ChatInvitationInput`.
pub record ChatInvitationInput : Type 0 where
  pub chat_cell_uuid : String
  pub topic : String
  pub audience_mode : String
  pub persistence_mode : String
  pub suite_id : String
  pub invitation_id : String
  pub now : ℤ
  pub nonce : Option Bytes

-- What stands in for an empty identifier and a nil nonce: a random UUID and random bytes.
pub record Fresh : Type 0 where
  pub uuid : String
  pub nonce : Bytes

abbrev pub or_fresh : String → String → String
or_fresh s fresh = if str_eq s "" then fresh else s

abbrev pub or_random : Option Bytes → Bytes → Bytes
or_random none fresh = fresh
or_random (some nonce) fresh = nonce

-- The proof of `signChat`.
abbrev pub proof_by : Descriptor → Bytes → SignatureProof
proof_by d signature = record {
  kind = "signature";
  by_identity_uuid = d.uuid;
  algorithm = d.algorithm;
  curve_type = d.curve_type;
  signature = some signature;
}

-- `signChat`, on the canonical bytes of the model.
unfoldable pub sign_chat : Option Bytes → SignFunc → Descriptor → Result SignatureProof
sign_chat none sign signer = err "uncanonical"
sign_chat (some payload) sign signer = elim (sign payload) [
  | err x ↦ err x
  | ok signature ↦ ok (proof_by signer signature)
]

module _ (w : ChatWire) where
  -- The artifact that `BuildChatInvitation` signs.
  unfoldable pub unsigned_artifact :
      Descriptor → Descriptor → ChatInvitationInput → Fresh → ChatInvitationArtifact
  unsigned_artifact inviter invited input fresh = record {
    version = pos 1;
    invitation_id = or_fresh input.invitation_id fresh.uuid;
    purpose = "chat_invitation";
    chat_cell_uuid = input.chat_cell_uuid;
    topic = input.topic;
    audience_mode = input.audience_mode;
    suite_id = or_fresh input.suite_id chat_default_suite_id;
    persistence_mode = input.persistence_mode;
    inviter_identity = inviter;
    invited_identity = invited;
    created_at = w.timestamp input.now;
    expires_at = w.timestamp (input.now +ℤ chat_invitation_lifetime);
    nonce = or_random input.nonce fresh.nonce;
    proof = none;
  }

  -- `BuildChatInvitation`.
  unfoldable pub build_chat_invitation :
      Descriptor
      → Descriptor
      → SignFunc
      → ChatInvitationInput
      → Fresh
      → Result ChatInvitationArtifact
  unfolding unsigned_artifact signed_artifact sign_chat
  build_chat_invitation inviter invited sign input fresh =
      let artifact = unsigned_artifact inviter invited input fresh in
      elim (sign_chat (signed_artifact w artifact) sign inviter) [
        | err x ↦ err x
        | ok p ↦ ok (record artifact { proof = some p })
      ]

  -- The acceptance that `BuildChatAcceptance` signs.
  unfoldable pub unsigned_acceptance :
      ChatInvitationArtifact → Descriptor → Bytes → String → ℤ → Bytes → ChatInvitationAcceptance
  unsigned_acceptance a invitee hash acceptance_id now nonce = record {
    version = pos 1;
    acceptance_id = acceptance_id;
    purpose = "accept_chat_invitation";
    invitation_id = a.invitation_id;
    invitation_hash = hash;
    chat_cell_uuid = a.chat_cell_uuid;
    inviter_identity_uuid = a.inviter_identity.uuid;
    invitee_identity = invitee;
    invitee_key_agreement_key = none;
    created_at = w.timestamp now;
    nonce = nonce;
    proof = none;
  }

  -- `BuildChatAcceptance` once the artifact is found to be the invitee's and to verify.
  unfoldable pub sign_acceptance :
      ChatInvitationArtifact
      → Descriptor
      → SignFunc
      → String
      → ℤ
      → Bytes
      → Result ChatInvitationAcceptance
  unfolding invitation_hash unsigned_acceptance signed_acceptance sign_chat
  sign_acceptance a invitee sign acceptance_id now nonce = elim (invitation_hash w a) [
    | none ↦ err "uncanonical"
    | some hash ↦
        let acceptance = unsigned_acceptance a invitee hash acceptance_id now nonce in
        elim (sign_chat (signed_acceptance w acceptance) sign invitee) [
          | err x ↦ err x
          | ok p ↦ ok (record acceptance { proof = some p })
        ]
  ]

  -- `BuildChatAcceptance`.
  unfoldable pub build_chat_acceptance :
      ChatInvitationArtifact
      → Descriptor
      → SignFunc
      → String
      → ℤ
      → Option Bytes
      → Fresh
      → Result ChatInvitationAcceptance
  unfolding same_key verify_chat_invitation sign_acceptance
  build_chat_acceptance a invitee sign acceptance_id now nonce fresh =
      if not (same_key invitee a.invited_identity)
      then err "inviteeMismatch"
      else verify_chat_invitation w a now any_options
        >> sign_acceptance a invitee sign (or_fresh acceptance_id fresh.uuid) now
            (or_random nonce fresh.nonce)
