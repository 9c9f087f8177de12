-- ===== src/Interop/Channel/Server.antt =====
-- `ChannelServer`: the admission state of one inbound connection.
pub mod Laws
pub mod Identity
use go_cell_protocol.Prelude.{
  ℕ, ◌+◌, ◌*◌, ◌/◌, String, Bool, true, false, not, ◌&&◌, ◌||◌, List, [], ◌∷◌, Option, none, some,
  Result, ok, err, str_eq, ltb, leb, ◌==◌, length, if◌then◌else◌, ◌-◌,
}
use go_cell_protocol.Prelude.Int.{ℤ, pos, negsuc, ◌+ℤ◌, ltb_ℤ}
use go_cell_protocol.Value.{Value, Fields}
use go_cell_protocol.Value.Access.{lookup_field}
use go_cell_protocol.Identity.{Bytes}
use go_cell_protocol.Interop.Channel.{
  PublicIdentity, ChannelEndpoint, ChannelTranscript, Wire, channel_profile, channel_direction,
  millis, exact_keys, text_or_empty, equal_identity,
}
use go_cell_protocol.Interop.Channel.Messages.{
  identity_from_json, unb64, channel_signing_data, channel_challenge_envelope,
  channel_accepted_envelope, open_channel_envelope, verify_signature, digest,
}

-- The states that `ChannelServer.State` names.
pub data ServerState : Type 0 where
  unauthenticated challenge_issued verifying authenticated closed : ServerState

pub record AdmittedChannel : Type 0 where
  pub identity : PublicIdentity
  pub endpoint : ChannelEndpoint
  pub session_id : String
  pub generation : String
  pub transcript_digest : String
  pub expires_at : ℤ  -- nanoseconds

-- `pending` and `data` are set together: a transcript and the bytes to sign.
pub record ChannelServer : Type 0 where
  pub endpoint : ChannelEndpoint
  pub generation : String
  pub state : ServerState
  pub admitted : Option AdmittedChannel
  pub deadline : ℕ  -- nanoseconds of the monotonic clock
  pub pending : Option (ChannelTranscript × Bytes)

-- What one call of `Receive` draws: the clocks, each at its first and its second reading, random
-- bytes, a UUID, and the answer of `Recheck`, which is asked of a set hook only.
pub record Moment : Type 0 where
  pub wall : ℕ
  pub wall_late : ℕ
  pub monotonic : ℕ
  pub monotonic_late : ℕ
  pub random : Bytes
  pub new_uuid : String
  pub recheck : Option (PublicIdentity → Bool)

-- `NewChannelServer`.
unfoldable pub new_channel_server : ChannelEndpoint → String → ℕ → ChannelServer
new_channel_server endpoint generation now = record {
  endpoint = endpoint;
  generation = generation;
  state = unauthenticated;
  admitted = none;
  deadline = now + 10000000000;
  pending = none;
}

-- What a call answers: a reply frame or the code of a failure.
abbrev pub Answer : Type 0
Answer = ChannelServer × Result Bytes

-- `ChannelServer.close`.
unfoldable pub close_server : ChannelServer → String → Answer
close_server s code = (record s { state = closed; pending = none }, err code)

module _ (w : Wire) where
  -- The transcript of a hello, with a session lifetime of 300 seconds.
  unfoldable pub hello_transcript :
      ChannelServer → Moment → PublicIdentity → Bytes → ChannelTranscript
  hello_transcript s m identity client_nonce =
      let issued = m.wall / 1000000 in
      record {
        profile = channel_profile;
        endpoint = s.endpoint;
        identity = identity;
        client_nonce = client_nonce;
        server_nonce = m.random;
        session_id = m.new_uuid;
        generation = s.generation;
        direction = channel_direction;
        issued_at_milliseconds = pos issued;
        channel_expires_at_milliseconds = pos (issued + 300000);
      }

  -- `onHello` from the transcript on.
  unfoldable pub issue_challenge : ChannelServer → ChannelTranscript → Answer
  issue_challenge s t = elim (channel_signing_data w t) [
    | none ↦ close_server s "malformed"
    | some to_sign ↦ elim (channel_challenge_envelope w t) [
      | none ↦ close_server s "malformed"
      | some reply ↦ (record s { state = challenge_issued; pending = some (t, to_sign) }, ok reply)
    ]
  ]

  -- The client nonce, if it has 32 bytes.
  abbrev pub client_nonce : Fields → Option Bytes
  client_nonce body = elim (unb64 w (lookup_field "clientNonce" body)) [
    | none ↦ none
    | some n ↦ if length n == 32 then some n else none
  ]

  -- `onHello`.
  unfoldable pub on_hello : ChannelServer → Moment → Fields → Answer
  on_hello s m body =
      if not (exact_keys body ("profile" ∷ "identity" ∷ "clientNonce" ∷ []))
        || not (str_eq (text_or_empty body "profile") channel_profile)
      then close_server s "malformed"
      else elim (identity_from_json w (lookup_field "identity" body)) [
        | err code ↦ close_server s code
        | ok identity ↦ elim (client_nonce body) [
          | none ↦ close_server s "malformed"
          | some n ↦ issue_challenge s (hello_transcript s m identity n)
        ]
      ]

  abbrev pub rechecked : Moment → PublicIdentity → Bool
  rechecked m identity = elim m.recheck [ none ↦ true | some f ↦ f identity ]

  -- A channel whose transcript was proved.
  unfoldable pub admit_channel : ChannelServer → ChannelTranscript → ChannelServer
  admit_channel s t = record s {
    state = authenticated;
    pending = none;
    admitted = some (record {
      identity = t.identity;
      endpoint = s.endpoint;
      session_id = t.session_id;
      generation = s.generation;
      transcript_digest = digest w t;
      expires_at = millis t.channel_expires_at_milliseconds;
    });
  }

  -- `onProof` from the signature on.
  unfoldable pub check_proof :
      ChannelServer → Moment → Fields → ChannelTranscript → Bytes → Bytes → Answer
  check_proof s m body t to_sign signature =
      if not (ltb_ℤ (pos m.wall) (millis t.issued_at_milliseconds +ℤ pos 30000000000))
      then close_server s "expired"
      else if not (str_eq (text_or_empty body "sessionID") t.session_id)
          || not (str_eq (text_or_empty body "generation") s.generation)
      then close_server s "staleGeneration"
      else if ltb 256 (length signature) || not (verify_signature w signature to_sign t.identity)
      then close_server s "invalidProof"
      else if not (rechecked m t.identity)
      then close_server s "revoked"
      else if leb s.deadline m.monotonic_late
          || not (ltb_ℤ (pos m.wall_late) (millis t.channel_expires_at_milliseconds))
      then close_server s "expired"
      else elim (channel_accepted_envelope w t) [
        | none ↦ close_server s "malformed"
        | some reply ↦ (admit_channel s t, ok reply)
      ]

  -- `onProof`: the pending transcript is consumed before anything is verified.
  unfoldable pub on_proof : ChannelServer → Moment → Fields → Answer
  on_proof s m body = elim s.pending [
    | none ↦ close_server s "unexpectedMessage"
    | some (t, to_sign) ↦
        if not (exact_keys body ("sessionID" ∷ "generation" ∷ "signature" ∷ []))
        then close_server s "malformed"
        else elim (unb64 w (lookup_field "signature" body)) [
          | none ↦ close_server s "malformed"
          | some signature ↦
              check_proof (record s { state = verifying; pending = none }) m body t to_sign
                signature
        ]
  ]

  -- The dispatch of `Receive` on the name of the message and the state.
  unfoldable pub dispatch : ServerState → ChannelServer → Moment → String → Fields → Answer
  dispatch unauthenticated s m name body =
      if str_eq name "channelAuthHello"
      then on_hello s m body
      else close_server s "unexpectedMessage"
  dispatch challenge_issued s m name body =
      if str_eq name "channelAuthProof"
      then on_proof s m body
      else close_server s "unexpectedMessage"
  dispatch _ s m name body = close_server s "unexpectedMessage"

  -- A frame that does not open closes the connection but leaves `pending` as it is.
  unfoldable pub receive_open : ChannelServer → Moment → Bytes → Answer
  unfolding dispatch
  receive_open s m frame = elim (open_channel_envelope w frame) [
    | err code ↦ (record s { state = closed }, err code)
    | ok (name, body) ↦
        if leb s.deadline m.monotonic
        then close_server s "expired"
        else dispatch s.state s m name body
  ]

  abbrev pub is_over : ServerState → Bool
  is_over authenticated = true
  is_over closed = true
  is_over _ = false

  -- `Receive`.
  unfoldable pub receive : ChannelServer → Moment → Bytes → Answer
  receive s m frame =
      if is_over s.state then close_server s "unexpectedMessage" else receive_open s m frame

-- `AdmittedChannel.Check` and `CheckIdentity`.
unfoldable pub check_channel : AdmittedChannel → ℤ → Result (Unit {0})
check_channel a now = if ltb_ℤ now a.expires_at then ok tt else err "expired"

unfoldable pub check_identity :
    AdmittedChannel → Option PublicIdentity → Bool → ℤ → Result (Unit {0})
unfolding check_channel
check_identity a identity required now = elim (check_channel a now) [
  | err code ↦ err code
  | ok _ ↦ elim identity [
    | none ↦ if required then err "identityMismatch" else ok tt
    | some p ↦ if equal_identity p a.identity then ok tt else err "identityMismatch"
  ]
]
