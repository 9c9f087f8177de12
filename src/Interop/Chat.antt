-- ===== src/Interop/Chat.antt =====
-- The chat artifacts of interop/models.go, with VerifyChatInvitation and VerifyChatAcceptance of
-- interop/verify.go, and the builders of interop/chat.go. An error is its `Failure.Code`; where the
-- canonical JSON cannot be written it is `uncanonical`.
pub mod Build
pub mod Laws
pub mod RoundTrip
pub mod Acceptances
use go_cell_protocol.Prelude.{
  String, Bool, true, false, not, ◌&&◌, ◌||◌, Option, none, some, Result, ok, err, str_eq, ltb,
  ◌==◌, length, if◌then◌else◌, ◌>>◌,
}
use go_cell_protocol.Prelude.Int.{ℤ, pos, negsuc, ◌+ℤ◌, ◌-ℤ◌, ltb_ℤ}
use go_cell_protocol.Identity.{Bytes}
use go_cell_protocol.Interop.Channel.{same_bytes}

-- `IdentityPublicKeyDescriptor`.
pub record Descriptor : Type 0 where
  pub uuid : String
  pub display_name : Option String
  pub public_key : Bytes
  pub algorithm : String
  pub curve_type : String

-- `IdentityPublicKeyDescriptor.SameKey`.
unfoldable pub same_key : Descriptor → Descriptor → Bool
same_key d other =
    str_eq d.uuid other.uuid
    && same_bytes d.public_key other.public_key
    && str_eq d.algorithm other.algorithm
    && str_eq d.curve_type other.curve_type

pub record SignatureProof : Type 0 where
  pub kind : String
  pub by_identity_uuid : String
  pub algorithm : String
  pub curve_type : String
  pub signature : Option Bytes

pub record ChatInvitationArtifact : Type 0 where
  pub version : ℤ
  pub invitation_id : String
  pub purpose : String
  pub chat_cell_uuid : String
  pub topic : String
  pub audience_mode : String
  pub suite_id : String
  pub persistence_mode : String
  pub inviter_identity : Descriptor
  pub invited_identity : Descriptor
  pub created_at : String
  pub expires_at : String
  pub nonce : Bytes
  pub proof : Option SignatureProof

pub record ChatInvitationAcceptance : Type 0 where
  pub version : ℤ
  pub acceptance_id : String
  pub purpose : String
  pub invitation_id : String
  pub invitation_hash : Bytes
  pub chat_cell_uuid : String
  pub inviter_identity_uuid : String
  pub invitee_identity : Descriptor
  pub invitee_key_agreement_key : Option Bytes
  pub created_at : String
  pub nonce : Bytes
  pub proof : Option SignatureProof

-- What the artifacts take of Go's time, SHA-256 and Ed25519, and of the canonical JSON of
-- canonical.go. A time is in nanoseconds since the Unix epoch.
pub record ChatWire : Type 0 where
  pub canonical_artifact : ChatInvitationArtifact → Option Bytes
  pub canonical_acceptance : ChatInvitationAcceptance → Option Bytes
  pub parse_iso : String → Option ℤ
  pub timestamp : ℤ → String
  pub sha256 : Bytes → Bytes
  pub ed25519_verify : Bytes → Bytes → Bytes → Bool

abbrev pub clock_skew : ℤ
clock_skew = pos 300000000000

-- `expires.After(created)` and the like.
abbrev pub after : ℤ → ℤ → Bool
after a b = ltb_ℤ b a

abbrev is_one : ℤ → Bool
is_one (pos n) = n == 1
is_one (negsuc n) = false

-- `validateNonce`, where `true` is a nil error.
unfoldable pub validate_nonce : Bytes → Bool
validate_nonce nonce = not (ltb (length nonce) 32 || ltb 128 (length nonce))

-- An expectation of `ChatOptions`; a nil one expects nothing.
abbrev pub unexpected : Option String → String → Bool
unexpected none actual = false
unexpected (some expected) actual = not (str_eq actual expected)

-- `ChatOptions`.
pub record ChatOptions : Type 0 where
  pub expected_chat_cell_uuid : Option String
  pub expected_inviter_uuid : Option String

abbrev pub any_options : ChatOptions
any_options = record { expected_chat_cell_uuid = none; expected_inviter_uuid = none }

-- `VerifySignature`, on a signature that is there.
unfoldable pub verify_signature : ChatWire → Bytes → Bytes → Descriptor → Bool
verify_signature w signature message d =
    if str_eq d.algorithm "EdDSA" && str_eq d.curve_type "Curve25519"
    then if length d.public_key == 32 && length signature == 64
      then w.ed25519_verify d.public_key message signature
      else false
    else false

-- The proof names its signer's identity and algorithm.
abbrev pub names_signer : SignatureProof → Descriptor → Bool
names_signer p d =
    str_eq p.by_identity_uuid d.uuid
    && str_eq p.algorithm d.algorithm
    && str_eq p.curve_type d.curve_type

-- The checks of a proof: what to answer if it does not name the signer, and if it does not verify.
unfoldable pub check_proof :
    ChatWire
    → String
    → String
    → Option Bytes
    → Descriptor
    → Option SignatureProof
    → Result (Unit {0})
unfolding verify_signature
check_proof w mismatch invalid payload signer none = err "missingSignature"
check_proof w mismatch invalid payload signer (some p) = elim p.signature [
  | none ↦ err "missingSignature"
  | some signature ↦
      if not (str_eq p.kind "signature")
      then err "invalidProofType"
      else if not (names_signer p signer)
      then err mismatch
      else elim payload [
        | none ↦ err "uncanonical"
        | some message ↦ if verify_signature w signature message signer then ok tt else err invalid
      ]
]

module _ (w : ChatWire) where
  -- `SignedBytes`: the canonical bytes of everything but the proof.
  unfoldable pub signed_artifact : ChatInvitationArtifact → Option Bytes
  signed_artifact a = w.canonical_artifact (record a { proof = none })

  unfoldable pub signed_acceptance : ChatInvitationAcceptance → Option Bytes
  signed_acceptance b = w.canonical_acceptance (record b { proof = none })

  -- `InvitationHash`.
  unfoldable pub invitation_hash : ChatInvitationArtifact → Option Bytes
  unfolding signed_artifact
  invitation_hash a = elim (signed_artifact a) [ none ↦ none | some m ↦ some (w.sha256 m) ]

  -- The timestamps are in order and not from the future.
  abbrev pub good_times : Option ℤ → Option ℤ → ℤ → Bool
  good_times (some created) (some expires) now =
      after expires created && not (after created (now +ℤ clock_skew))
  good_times _ _ now = false

  abbrev pub is_past : Option ℤ → ℤ → Bool
  is_past none now = false
  is_past (some t) now = ltb_ℤ t now

  -- `VerifyChatInvitation`.
  unfoldable pub verify_chat_invitation :
      ChatInvitationArtifact → ℤ → ChatOptions → Result (Unit {0})
  unfolding validate_nonce check_proof signed_artifact
  verify_chat_invitation a now options =
      if not (is_one a.version)
      then err "unsupportedVersion"
      else if not (str_eq a.purpose "chat_invitation")
      then err "invalidPurpose"
      else if not (validate_nonce a.nonce)
      then err "invalidNonce"
      else if not (good_times (w.parse_iso a.created_at) (w.parse_iso a.expires_at) now)
      then err "invalidTimestamp"
      else if is_past (w.parse_iso a.expires_at) now
      then err "expiredArtifact"
      else if unexpected options.expected_chat_cell_uuid a.chat_cell_uuid
      then err "chatCellMismatch"
      else if unexpected options.expected_inviter_uuid a.inviter_identity.uuid
      then err "inviterMismatch"
      else check_proof w "inviterMismatch" "invalidArtifactProof" (signed_artifact a)
          a.inviter_identity a.proof

  -- The acceptance was made while the invitation was open.
  abbrev pub accepted_in_time : Option ℤ → Option ℤ → Option ℤ → ℤ → Bool
  accepted_in_time (some invited) (some expires) (some accepted) now =
      not (ltb_ℤ accepted (invited -ℤ clock_skew))
      && not (after accepted expires)
      && not (after accepted (now +ℤ clock_skew))
  accepted_in_time _ _ _ now = false

  abbrev pub hash_is : Option Bytes → Bytes → Result (Unit {0})
  hash_is none hash = err "uncanonical"
  hash_is (some h) hash = if same_bytes h hash then ok tt else err "invitationHashMismatch"

  -- The fields of an acceptance against its artifact.
  unfoldable pub check_acceptance :
      ChatInvitationAcceptance → ChatInvitationArtifact → ℤ → Result (Unit {0})
  unfolding validate_nonce same_key invitation_hash
  check_acceptance b a now =
      if not (is_one b.version)
      then err "unsupportedVersion"
      else if not (str_eq b.purpose "accept_chat_invitation")
      then err "invalidPurpose"
      else if not (validate_nonce b.nonce)
      then err "invalidNonce"
      else if not (
          accepted_in_time (w.parse_iso a.created_at) (w.parse_iso a.expires_at)
            (w.parse_iso b.created_at) now)
      then err "invalidTimestamp"
      else if not (str_eq b.invitation_id a.invitation_id)
      then err "invitationHashMismatch"
      else if not (str_eq b.chat_cell_uuid a.chat_cell_uuid)
      then err "chatCellMismatch"
      else if not (same_key b.invitee_identity a.invited_identity)
      then err "inviteeMismatch"
      else hash_is (invitation_hash a) b.invitation_hash

  -- `VerifyChatAcceptance`.
  unfoldable pub verify_chat_acceptance :
      ChatInvitationAcceptance → ChatInvitationArtifact → ℤ → Option String → Result (Unit {0})
  unfolding verify_chat_invitation check_acceptance check_proof signed_acceptance
  verify_chat_acceptance b a now expected_chat_cell_uuid =
      let options : ChatOptions = record {
        expected_chat_cell_uuid = expected_chat_cell_uuid;
        expected_inviter_uuid = some b.inviter_identity_uuid;
      } in
      verify_chat_invitation a now options
      >> check_acceptance b a now
      >> check_proof w "inviteeMismatch" "invalidAcceptanceProof" (signed_acceptance b)
          b.invitee_identity b.proof
