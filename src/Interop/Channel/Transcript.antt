-- ===== src/Interop/Channel/Transcript.antt =====
-- Transcripts as a client decodes them, and the text form of UUIDs.
use Prim.Native.Char.{code}
use go_cell_protocol.Prelude.{
  ℕ, ◌+◌, String, Bool, true, ◌&&◌, ◌||◌, [], ◌∷◌, Option, none, some, Result, ok, err, leb, ◌==◌,
  length, if◌then◌else◌, ◌>>=◌,
}
use go_cell_protocol.Prelude.Int.{ℤ}
use go_cell_protocol.Value.{Value, Fields, number, obj}
use go_cell_protocol.Value.Access.{lookup_field}
use go_cell_protocol.Agreement.Grant.{text_bytes}
use go_cell_protocol.Interop.Channel.{
  ChannelEndpoint, ChannelTranscript, PublicIdentity, Wire, exact_keys, string_field,
}
use go_cell_protocol.Interop.Channel.Messages.{unb64, identity_from_json}

abbrev is_hex : ℕ → Bool
is_hex c = leb b'0' c && leb c b'9' || leb b'a' c && leb c b'f' || leb b'A' c && leb c b'F'

-- The loop of `isUUID`: a dash at the places 8, 13, 18 and 23, hexadecimal digits elsewhere.
unfoldable pub uuid_from : ℕ → String → Bool
uuid_from i String.[] = true
uuid_from i (String.◌∷◌ c s) =
    let rest = uuid_from (i + 1) s in
    (if i == 8 || i == 13 || i == 18 || i == 23 then code c == b'-' else is_hex (code c)) && rest

-- `isUUID`.
unfoldable pub is_uuid : String → Bool
unfolding uuid_from
is_uuid s = length (text_bytes s) == 36 && uuid_from 0 s

-- `channelEndpointFromJSON`.
unfoldable pub endpoint_from_json : Option Value → Option ChannelEndpoint
endpoint_from_json (some (obj object)) =
    if exact_keys object ("origin" ∷ "route" ∷ "domain" ∷ [])
    then string_field object "origin" >>= (λ origin. string_field object "route" >>= (λ route.
      string_field object "domain"
      >>= (λ domain. some (record { origin = origin; route = route; domain = domain }))))
    else none
endpoint_from_json _ = none

abbrev no_error : Result PublicIdentity → Option PublicIdentity
no_error (ok p) = some p
no_error (err code) = none

abbrev numeral : Option Value → Option String
numeral (some (number s)) = some s
numeral _ = none

module _ (w : Wire) where
  -- `int64Field`.
  unfoldable pub int64_field : Fields → String → Option ℤ
  int64_field object key = numeral (lookup_field key object) >>= w.parse_int64

  -- The fields of a transcript, once its keys are right.
  unfoldable pub transcript_from_fields : Fields → Option ChannelTranscript
  transcript_from_fields object = do
    profile ← string_field object "profile"
    session_id ← string_field object "sessionID"
    generation ← string_field object "generation"
    direction ← string_field object "direction"
    endpoint ← endpoint_from_json (lookup_field "endpoint" object)
    identity ← no_error (identity_from_json w (lookup_field "identity" object))
    client_nonce ← unb64 w (lookup_field "clientNonce" object)
    server_nonce ← unb64 w (lookup_field "serverNonce" object)
    issued ← int64_field object "issuedAtMilliseconds"
    expires ← int64_field object "channelExpiresAtMilliseconds"
    some (record {
      profile = profile;
      endpoint = endpoint;
      identity = identity;
      client_nonce = client_nonce;
      server_nonce = server_nonce;
      session_id = session_id;
      generation = generation;
      direction = direction;
      issued_at_milliseconds = issued;
      channel_expires_at_milliseconds = expires;
    })

  -- `channelTranscriptFromJSON`; every failure has the code "malformed".
  unfoldable pub transcript_from_json : Option Value → Option ChannelTranscript
  unfolding transcript_from_fields
  transcript_from_json (some (obj object)) =
      if exact_keys object (
        "profile" ∷ "endpoint" ∷ "identity" ∷ "clientNonce" ∷ "serverNonce" ∷ "sessionID"
        ∷ "generation" ∷ "direction" ∷ "issuedAtMilliseconds" ∷ "channelExpiresAtMilliseconds" ∷ [])
      then transcript_from_fields object
      else none
  transcript_from_json _ = none
