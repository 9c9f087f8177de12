-- ===== src/Interop/Channel/Messages.antt =====
-- The JSON bodies of the handshake, their envelopes, and their strict decoding.
use go_cell_protocol.Prelude.{
  String, Bool, false, not, ◌&&◌, [], ◌∷◌, Option, none, some, Result, ok, err, str_eq, ltb, ◌==◌,
  length, if◌then◌else◌, ◌⧺◌, ◌>>=◌,
}
use go_cell_protocol.Prelude.Int.{pos, ◌+ℤ◌}
use go_cell_protocol.Value.{Value, Fields, str, number, int, obj, end, field}
use go_cell_protocol.Value.Access.{lookup_field}
use go_cell_protocol.Identity.{Bytes}
use go_cell_protocol.Agreement.Grant.{text_bytes}
use go_cell_protocol.Interop.Channel.{
  millis, fingerprint, signing_challenge_type, signing_challenge_purpose, PublicIdentity,
  ChannelEndpoint, ChannelTranscript, IdentitySigningChallenge, Wire, channel_profile,
  channel_maximum_envelope, is_channel_auth_command, exact_keys, string_field, text_of,
  validate_identity, same_bytes, audience,
}

-- `ChannelEndpoint.toJSON`.
unfoldable pub endpoint_to_json : ChannelEndpoint → Value
endpoint_to_json e = obj (
    field "origin" (str e.origin) (field "route" (str e.route) (field "domain" (str e.domain) end)))

abbrev numeral_zero : Option Value → Bool
numeral_zero (some (number s)) = str_eq s "0"
numeral_zero _ = false

module _ (w : Wire) where
  -- `unb64`.
  unfoldable pub unb64 : Option Value → Option Bytes
  unb64 v = text_of v >>= w.base64_strict_decode

  abbrev is_same : Option Bytes → Bytes → Bool
  is_same none raw = false
  is_same (some again) raw = same_bytes again raw

  abbrev only_canonical : Bytes → Option Value → Result Fields
  only_canonical raw (some (obj fs)) =
      if is_same (w.encode (obj fs)) raw then ok fs else err "malformed"
  only_canonical raw _ = err "malformed"

  -- `ChannelDecode`.
  unfoldable pub channel_decode : Bytes → Result Fields
  channel_decode raw =
      if ltb channel_maximum_envelope (length raw)
      then err "malformed"
      else only_canonical raw (w.decode raw)

  -- `PublicIdentity.toJSON`.
  unfoldable pub identity_to_json : PublicIdentity → Value
  identity_to_json p = obj (
      field "uuid" (str p.uuid) (
        field "algorithm" (str p.algorithm) (
          field "curve" (str p.curve)
            (field "publicKey" (str (w.base64_encode p.public_key)) end))))

  -- The four fields of an identity, once its keys are right.
  unfoldable pub identity_from_fields : Fields → Option PublicIdentity
  identity_from_fields object = do
    uuid ← string_field object "uuid"
    algorithm ← string_field object "algorithm"
    curve ← string_field object "curve"
    key ← unb64 (lookup_field "publicKey" object)
    some (record { uuid = uuid; public_key = key; algorithm = algorithm; curve = curve })

  abbrev if_valid : Option PublicIdentity → Result PublicIdentity
  if_valid none = err "malformed"
  if_valid (some p) = if validate_identity p then ok p else err "malformed"

  -- `publicIdentityFromJSON`.
  unfoldable pub identity_from_json : Option Value → Result PublicIdentity
  unfolding identity_from_fields
  identity_from_json (some (obj object)) =
      if exact_keys object ("uuid" ∷ "algorithm" ∷ "curve" ∷ "publicKey" ∷ [])
      then if_valid (identity_from_fields object)
      else err "malformed"
  identity_from_json _ = err "malformed"

  -- `ChannelTranscript.toJSON`.
  unfoldable pub transcript_to_json : ChannelTranscript → Value
  unfolding identity_to_json endpoint_to_json
  transcript_to_json t = obj (
      field "profile" (str t.profile) (
        field "endpoint" (endpoint_to_json t.endpoint) (
          field "identity" (identity_to_json t.identity) (
            field "clientNonce" (str (w.base64_encode t.client_nonce)) (
              field "serverNonce" (str (w.base64_encode t.server_nonce)) (
                field "sessionID" (str t.session_id) (
                  field "generation" (str t.generation) (
                    field "direction" (str t.direction) (
                      field "issuedAtMilliseconds" (int t.issued_at_milliseconds) (
                        field "channelExpiresAtMilliseconds" (int t.channel_expires_at_milliseconds)
                          end))))))))))

  -- `Digest`.
  unfoldable pub digest : ChannelTranscript → String
  unfolding transcript_to_json
  digest t = elim (w.encode (transcript_to_json t)) [ none ↦ "" | some raw ↦ w.sha256_hex raw ]

  -- `ChannelSigningChallenge`: it lives for 30 seconds.
  unfoldable pub channel_signing_challenge : ChannelTranscript → IdentitySigningChallenge
  unfolding digest audience fingerprint
  channel_signing_challenge t = record {
    kind = signing_challenge_type;
    version = pos 1;
    purpose = signing_challenge_purpose;
    identity_uuid = t.identity.uuid;
    public_key_fingerprint = some (fingerprint w.base64_encode t.identity);
    domain = t.endpoint.domain;
    resource = channel_profile ⧺ (":" ⧺ digest t);
    action = "openBridgeChannel";
    audience = audience t.endpoint;
    nonce = t.server_nonce;
    issued_at = millis t.issued_at_milliseconds;
    expires_at = millis t.issued_at_milliseconds +ℤ pos 30000000000;
  }

  -- `ChannelSigningData`.
  unfoldable pub channel_signing_data : ChannelTranscript → Option Bytes
  unfolding channel_signing_challenge
  channel_signing_data t = w.encode_challenge (channel_signing_challenge t)

  -- `ChannelEnvelope`.
  unfoldable pub channel_envelope : String → Value → Option Bytes
  channel_envelope name body = do
    inner ← w.encode body
    w.encode (
        obj (
          field "&string" (str (w.to_text inner))
            (field "cid" (int (pos 0)) (field "cmd" (str name) end))))

  abbrev named_body : String → Result Fields → Result (String × Fields)
  named_body name (err x) = err x
  named_body name (ok body) = ok (name, body)

  -- The fields of an envelope.
  unfoldable pub open_command : Fields → Result (String × Fields)
  unfolding channel_decode
  open_command command =
      if not (exact_keys command ("&string" ∷ "cid" ∷ "cmd" ∷ []))
      then err "malformed"
      else elim (string_field command "cmd") [
        | none ↦ err "malformed"
        | some name ↦
            if numeral_zero (lookup_field "cid" command) && is_channel_auth_command name
            then elim (string_field command "&string") [
              | none ↦ err "malformed"
              | some payload ↦ named_body name (channel_decode (text_bytes payload))
            ]
            else err "malformed"
      ]

  -- `OpenChannelEnvelope`.
  unfoldable pub open_channel_envelope : Bytes → Result (String × Fields)
  unfolding open_command
  open_channel_envelope raw = elim (channel_decode raw) [
    | err x ↦ err x
    | ok command ↦ open_command command
  ]

  -- `IdentitySigningChallengeEnvelope`.
  unfoldable pub channel_challenge_envelope : ChannelTranscript → Option Bytes
  unfolding channel_envelope channel_signing_data
  channel_challenge_envelope t = do
    raw ← channel_signing_data t
    channel_envelope "channelAuthChallenge" (
        obj (
          field "transcript" (transcript_to_json t)
            (field "signingData" (str (w.base64_encode raw)) end)))

  -- `ChannelAcceptedEnvelope`.
  unfoldable pub channel_accepted_envelope : ChannelTranscript → Option Bytes
  unfolding channel_envelope
  channel_accepted_envelope t = channel_envelope "channelAuthAccepted" (
      obj (
        field "sessionID" (str t.session_id)
          (field "generation" (str t.generation) (field "transcriptDigest" (str (digest t)) end))))

  -- `VerifySignature`.
  unfoldable pub verify_signature : Bytes → Bytes → PublicIdentity → Bool
  verify_signature signature message p =
      str_eq p.algorithm "EdDSA"
      && str_eq p.curve "Curve25519"
      && length p.public_key == 32
      && length signature == 64
      && w.ed25519_verify p.public_key message signature
