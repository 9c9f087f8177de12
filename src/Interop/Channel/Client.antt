-- ===== src/Interop/Channel/Client.antt =====
-- `ChannelClient`: one locally initiated connection, which signs one challenge at most.
pub mod Matches
pub mod Laws
use go_cell_protocol.Prelude.{
  ℕ, ◌+◌, ◌*◌, ◌/◌, String, Bool, true, false, not, ◌&&◌, ◌||◌, List, [], ◌∷◌, Option, none, some,
  Result, ok, err, str_eq, leb, ◌==◌, length, if◌then◌else◌,
}
use go_cell_protocol.Prelude.Int.{ℤ, pos, ◌+ℤ◌, ◌-ℤ◌, leb_ℤ, ltb_ℤ}
use go_cell_protocol.Value.{Value, Fields, str, obj, end, field}
use go_cell_protocol.Value.Access.{lookup_field}
use go_cell_protocol.Identity.{Bytes}
use go_cell_protocol.Interop.Channel.{
  PublicIdentity, ChannelEndpoint, ChannelTranscript, Wire, channel_profile, channel_direction,
  exact_keys, text_or_empty, equal_identity, same_bytes, validate_identity, millis,
}
use go_cell_protocol.Interop.Channel.Messages.{
  unb64, channel_signing_data, channel_envelope, open_channel_envelope, verify_signature, digest,
  identity_to_json,
}
use go_cell_protocol.Interop.Channel.Challenge.{validate_signing_challenge}
use go_cell_protocol.Interop.Channel.Transcript.{transcript_from_json, is_uuid}
use go_cell_protocol.Interop.Channel.Server.{AdmittedChannel}

-- The states that `ChannelClient.State` names.
pub data ClientState : Type 0 where
  new hello_sent signing proof_sent authenticated closed : ClientState

pub record ChannelClient : Type 0 where
  pub identity : PublicIdentity
  pub endpoint : ChannelEndpoint
  pub client_nonce : Bytes
  pub state : ClientState
  pub admitted : Option AdmittedChannel
  pub deadline : ℕ  -- nanoseconds of the monotonic clock
  pub transcript : Option ChannelTranscript
  pub offered : Option Bytes

-- What one call reads of the clocks, in nanoseconds.
pub record Instant : Type 0 where
  pub wall : ℕ
  pub monotonic : ℕ

abbrev pub Reply : Type 0
Reply = ChannelClient × Result Bytes

-- `NewChannelClient`; the nonce is drawn by the caller.
unfoldable pub new_channel_client :
    PublicIdentity → ChannelEndpoint → Bytes → ℕ → Result ChannelClient
new_channel_client identity endpoint nonce now =
    if validate_identity identity
    then ok (record {
      identity = identity;
      endpoint = endpoint;
      client_nonce = nonce;
      state = new;
      admitted = none;
      deadline = now + 10000000000;
      transcript = none;
      offered = none;
    })
    else err "malformed"

-- `ChannelClient.close`.
unfoldable pub close_client : ChannelClient → String → Reply
close_client c code = (record c { state = closed; offered = none }, err code)

unfoldable pub same_endpoint : ChannelEndpoint → ChannelEndpoint → Bool
same_endpoint a b = str_eq a.origin b.origin && str_eq a.route b.route && str_eq a.domain b.domain

abbrev pub far : ℤ
far = pos 9000000000000000

-- The transcript names this connection: who connects, to what, and with which nonce.
unfoldable pub names_connect : ChannelClient → ChannelTranscript → Bool
unfolding same_endpoint
names_connect c t =
    str_eq t.profile channel_profile
    && str_eq t.direction channel_direction
    && same_endpoint t.endpoint c.endpoint
    && equal_identity t.identity c.identity
    && same_bytes t.client_nonce c.client_nonce
    && length t.server_nonce == 32
    && is_uuid t.session_id
    && is_uuid t.generation

-- Its times fit the client's clock, in milliseconds.
unfoldable pub fits_clock : ChannelTranscript → ℤ → Bool
fits_clock t now =
    ltb_ℤ (pos 0) t.issued_at_milliseconds
    && ltb_ℤ t.issued_at_milliseconds far
    && ltb_ℤ (pos 0) t.channel_expires_at_milliseconds
    && ltb_ℤ t.channel_expires_at_milliseconds far
    && leb_ℤ t.issued_at_milliseconds (now +ℤ pos 5000)
    && ltb_ℤ (now -ℤ pos 30000) t.issued_at_milliseconds
    && ltb_ℤ now t.channel_expires_at_milliseconds
    && same_number (t.channel_expires_at_milliseconds -ℤ t.issued_at_milliseconds) (pos 300000)
  where
    same_number : ℤ → ℤ → Bool
    same_number a b = leb_ℤ a b && leb_ℤ b a

module _ (w : Wire) where
  abbrev framed : ChannelClient → Option Bytes → Reply
  framed c none = (c, err "malformed")
  framed c (some frame) = (c, ok frame)

  -- `Hello` in a state: only the first call of a new client is answered.
  unfoldable pub greet : ChannelClient → ClientState → Reply
  greet c new =
      framed (record c { state = hello_sent })
        (channel_envelope w "channelAuthHello" (
          obj (
            field "profile" (str channel_profile) (
              field "identity" (identity_to_json w c.identity)
                (field "clientNonce" (str (w.base64_encode c.client_nonce)) end)))))
  greet c _ = close_client c "unexpectedMessage"

  -- `Hello`.
  unfoldable pub hello : ChannelClient → Reply
  unfolding greet
  hello c = greet c c.state

  -- `BeginChallenge` once the transcript, the offered bytes and the expected ones are there.
  unfoldable pub check_challenge :
      ChannelClient → Instant → ChannelTranscript → Bytes → Bytes → Reply
  check_challenge c now t offered expected =
      let milliseconds = pos (now.wall / 1000000) in
      if names_connect c t && fits_clock t milliseconds && same_bytes offered expected
      then elim (validate_signing_challenge w offered c.identity (millis milliseconds)) [
        | err code ↦ close_client c "invalidProof"
        | ok challenge ↦ (record c { transcript = some t; offered = some offered }, ok offered)
      ]
      else close_client c "invalidProof"

  -- `BeginChallenge` on the body of a challenge: the challenge is consumed before it is signed.
  unfoldable pub on_challenge : ChannelClient → Instant → Fields → Reply
  unfolding check_challenge
  on_challenge c now body =
      if not (exact_keys body ("transcript" ∷ "signingData" ∷ []))
      then close_client c "malformed"
      else elim (transcript_from_json w (lookup_field "transcript" body)) [
        | none ↦ close_client c "malformed"
        | some t ↦ elim (unb64 w (lookup_field "signingData" body)) [
          | none ↦ close_client c "malformed"
          | some offered ↦ elim (channel_signing_data w t) [
            | none ↦ close_client c "invalidProof"
            | some expected ↦ check_challenge c now t offered expected
          ]
        ]
      ]

  abbrev pub is_hello_sent : ClientState → Bool
  is_hello_sent hello_sent = true
  is_hello_sent _ = false

  -- `BeginChallenge`.
  unfoldable pub begin_challenge : ChannelClient → Instant → Bytes → Reply
  begin_challenge c now frame = elim (open_channel_envelope w frame) [
    | err code ↦ (record c { state = closed }, err code)
    | ok (name, body) ↦
        if leb c.deadline now.monotonic
        then close_client c "expired"
        else if not (str_eq name "channelAuthChallenge") || not (is_hello_sent c.state)
        then close_client c "unexpectedMessage"
        else on_challenge (record c { state = signing }) now body
  ]

  -- `FinishChallenge` on the offered bytes, which are consumed first.
  unfoldable pub finish_offered :
      ChannelClient → Instant → ChannelTranscript → Bytes → Bytes → Reply
  finish_offered c now t offered signature =
      if leb c.deadline now.monotonic || not (verify_signature w signature offered c.identity)
      then close_client c "staleGeneration"
      else elim (validate_signing_challenge w offered c.identity (pos now.wall)) [
        | err code ↦ close_client c "expired"
        | ok challenge ↦
            framed (record c { state = proof_sent })
              (channel_envelope w "channelAuthProof" (
                obj (
                  field "sessionID" (str t.session_id) (
                    field "generation" (str t.generation)
                      (field "signature" (str (w.base64_encode signature)) end)))))
      ]

  -- What `FinishChallenge` needs: the transcript and the offered bytes of a client that signs.
  abbrev pub to_finish :
      ClientState → Option ChannelTranscript → Option Bytes → Option (ChannelTranscript × Bytes)
  to_finish signing (some t) (some offered) = some (t, offered)
  to_finish _ _ _ = none

  -- `FinishChallenge`.
  unfoldable pub finish_challenge : ChannelClient → Instant → Bytes → Reply
  finish_challenge c now signature = elim (to_finish c.state c.transcript c.offered) [
    | none ↦ close_client c "unexpectedMessage"
    | some (t, offered) ↦ finish_offered (record c { offered = none }) now t offered signature
  ]

  -- The acknowledgement names the session, the generation and the transcript of this client.
  unfoldable pub acknowledges : ChannelTranscript → Fields → Bool
  acknowledges t body =
      str_eq (text_or_empty body "sessionID") t.session_id
      && str_eq (text_or_empty body "generation") t.generation
      && str_eq (text_or_empty body "transcriptDigest") (digest w t)

  unfoldable pub admit_client : ChannelClient → ChannelTranscript → ChannelClient
  admit_client c t = record c {
    state = authenticated;
    admitted = some (record {
      identity = t.identity;
      endpoint = t.endpoint;
      session_id = t.session_id;
      generation = t.generation;
      transcript_digest = digest w t;
      expires_at = millis t.channel_expires_at_milliseconds;
    });
  }

  abbrev pub is_proof_sent : ClientState → Bool
  is_proof_sent proof_sent = true
  is_proof_sent _ = false

  -- `Accept` on the body of an acknowledgement; `ok` carries no bytes.
  unfoldable pub on_accepted : ChannelClient → Instant → Fields → Reply
  on_accepted c now body =
      if not (exact_keys body ("sessionID" ∷ "generation" ∷ "transcriptDigest" ∷ []))
      then close_client c "malformed"
      else elim c.transcript [
        | none ↦ close_client c "invalidProof"
        | some t ↦
            if not (acknowledges t body)
            then close_client c "invalidProof"
            else if not (ltb_ℤ (pos now.wall) (millis t.channel_expires_at_milliseconds))
            then close_client c "expired"
            else (admit_client c t, ok [])
      ]

  -- `Accept`.
  unfoldable pub accept : ChannelClient → Instant → Bytes → Reply
  accept c now frame = elim (open_channel_envelope w frame) [
    | err code ↦ (record c { state = closed }, err code)
    | ok (name, body) ↦
        if leb c.deadline now.monotonic
        then close_client c "expired"
        else if not (str_eq name "channelAuthAccepted") || not (is_proof_sent c.state)
        then close_client c "unexpectedMessage"
        else on_accepted c now body
  ]
