-- ===== src/Interop/Channel.antt =====
-- interop/channel.go: the messages of the bridge-channel handshake. An error is its `Failure.Code`.
pub mod Messages
pub mod Server
pub mod Challenge
pub mod Transcript
pub mod Client
use go_cell_protocol.Prelude.{
  ℕ, suc, ◌+◌, ◌-◌, ◌*◌, String, Bool, true, false, not, ◌&&◌, ◌||◌, List, [], ◌∷◌, Option, none,
  some, Result, ok, err, str_eq, ltb, ◌==◌, length, all, is_some, if◌then◌else◌, ◌⧺◌,
}
use go_cell_protocol.Prelude.Int.{ℤ, pos, negsuc}
use go_cell_protocol.Value.{Value, Fields, str, obj, end, field}
use go_cell_protocol.Value.Access.{lookup_field}
use go_cell_protocol.Identity.{Bytes}
use go_cell_protocol.Agreement.Grant.{text_bytes}

abbrev pub channel_profile : String
channel_profile = "org.haven.bridge-channel.v1"

abbrev pub channel_direction : String
channel_direction = "client-to-server"

abbrev pub channel_maximum_envelope : ℕ
channel_maximum_envelope = 16384

abbrev pub signing_challenge_type : String
signing_challenge_type = "org.haven.cellprotocol.identity-signing-challenge"

abbrev pub signing_challenge_purpose : String
signing_challenge_purpose = "identity-origin-proof"

-- Milliseconds as nanoseconds.
abbrev pub millis : ℤ → ℤ
millis (pos n) = pos (n * 1000000)
millis (negsuc n) = negsuc ((n + 1) * 1000000 - 1)

-- `IsChannelAuthCommand`.
unfoldable pub is_channel_auth_command : String → Bool
is_channel_auth_command cmd =
    str_eq cmd "channelAuthHello"
    || str_eq cmd "channelAuthChallenge"
    || str_eq cmd "channelAuthProof"
    || str_eq cmd "channelAuthAccepted"

pub record PublicIdentity : Type 0 where
  pub uuid : String
  pub public_key : Bytes
  pub algorithm : String
  pub curve : String

pub record ChannelEndpoint : Type 0 where
  pub origin : String
  pub route : String
  pub domain : String

pub record ChannelTranscript : Type 0 where
  pub profile : String
  pub endpoint : ChannelEndpoint
  pub identity : PublicIdentity
  pub client_nonce : Bytes
  pub server_nonce : Bytes
  pub session_id : String
  pub generation : String
  pub direction : String
  pub issued_at_milliseconds : ℤ
  pub channel_expires_at_milliseconds : ℤ

-- `IdentitySigningChallenge` of interop/models.go, with its two times in nanoseconds.
pub record IdentitySigningChallenge : Type 0 where
  pub kind : String
  pub version : ℤ
  pub purpose : String
  pub identity_uuid : String
  pub public_key_fingerprint : Option String
  pub domain : String
  pub resource : String
  pub action : String
  pub audience : String
  pub nonce : Bytes
  pub issued_at : ℤ
  pub expires_at : ℤ

-- What the handshake takes of Go's libraries and of the JSON writer and reader of canonical.go and
-- wire.go.
pub record Wire : Type 0 where
  pub encode : Value → Option Bytes
  pub decode : Bytes → Option Value
  pub to_text : Bytes → String
  pub encode_challenge : IdentitySigningChallenge → Option Bytes
  pub decode_challenge : Bytes → Option IdentitySigningChallenge
  pub parse_int64 : String → Option ℤ
  pub base64_encode : Bytes → String
  pub base64_strict_decode : String → Option Bytes
  pub sha256_hex : Bytes → String
  pub ed25519_verify : Bytes → Bytes → Bytes → Bool

unfoldable pub fields_length : Fields → ℕ
fields_length end = 0
fields_length (field key v fs) = suc (fields_length fs)

-- `exactKeys`.
unfoldable pub exact_keys : Fields → List String → Bool
unfolding fields_length
exact_keys object keys =
    fields_length object == length keys && all (λ k. is_some (lookup_field k object)) keys

-- `object[key].(string)`, and `stringField`.
abbrev pub text_of : Option Value → Option String
text_of (some (str s)) = some s
text_of _ = none

unfoldable pub string_field : Fields → String → Option String
string_field object key = text_of (lookup_field key object)

-- `text, _ := object[key].(string)`.
unfoldable pub text_or_empty : Fields → String → String
unfolding string_field
text_or_empty object key = elim (string_field object key) [ none ↦ "" | some s ↦ s ]

-- `PublicIdentity.Validate` and `Equal`.
unfoldable pub validate_identity : PublicIdentity → Bool
validate_identity p =
    not (str_eq p.uuid "")
    && not (ltb 512 (length (text_bytes p.uuid)))
    && str_eq p.algorithm "EdDSA"
    && str_eq p.curve "Curve25519"
    && length p.public_key == 32

unfoldable pub same_bytes : Bytes → Bytes → Bool
same_bytes [] [] = true
same_bytes (a ∷ l) (b ∷ m) = a == b && same_bytes l m
same_bytes _ _ = false

unfoldable pub equal_identity : PublicIdentity → PublicIdentity → Bool
equal_identity p q =
    str_eq p.uuid q.uuid
    && same_bytes p.public_key q.public_key
    && str_eq p.algorithm q.algorithm
    && str_eq p.curve q.curve

-- `ChannelEndpoint.Audience`.
unfoldable pub audience : ChannelEndpoint → String
audience e = e.origin ⧺ e.route

-- `Fingerprint`, on a base64 encoder.
unfoldable pub fingerprint : (Bytes → String) → PublicIdentity → String
fingerprint base64 p = p.algorithm ⧺ (":" ⧺ (p.curve ⧺ (":" ⧺ base64 p.public_key)))
