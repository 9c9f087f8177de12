-- ===== src/Interop/Channel/Client/Laws.antt =====
-- What a client's calls stand for, and that it offers one challenge to sign at most.
use go_cell_protocol.Prelude.{
  not_is_false, is_ok, ◌<◌, Option, split_if, split_option, split_result, ℕ, ◌+◌, ◌/◌, ◌≤◌, String,
  ◌≡◌, refl, Bool, true, false, not, ◌&&◌, ◌||◌, List, [], ◌∷◌, none, some, Result, ok, err, arith,
  str_eq, eq_iff, leb, sym, ap, ◌∙◌,
}
use go_cell_protocol.Prelude.Int.{pos, ltb_ℤ, ◌<ℤ◌}
use go_cell_protocol.Value.{Fields, str, obj, end, field}
use go_cell_protocol.Value.Access.{lookup_field}
use go_cell_protocol.Identity.{Bytes}
use go_cell_protocol.Interop.Channel.{
  ChannelTranscript, Wire, same_bytes, millis, exact_keys, channel_profile,
}
use go_cell_protocol.Interop.Channel.Messages.{
  channel_signing_data, channel_envelope, open_channel_envelope, unb64, verify_signature, digest,
  identity_to_json,
}
use go_cell_protocol.Interop.Channel.Challenge.{validate_signing_challenge}
use go_cell_protocol.Interop.Channel.Transcript.{transcript_from_json}
use go_cell_protocol.Interop.Channel.Server.Identity.{same_bytes_iff}
use go_cell_protocol.Interop.Channel.Client.Matches.{
  Matches, Acknowledged, and3, ltb_true, names_connect-Matches, acknowledges_sound,
}
use go_cell_protocol.Interop.Channel.Client.{
  framed, ClientState, new, hello_sent, signing, proof_sent, authenticated, closed, ChannelClient,
  Instant, Reply, close_client, names_connect, fits_clock, greet, hello, check_challenge,
  on_challenge, is_hello_sent, begin_challenge, finish_offered, to_finish, finish_challenge,
  acknowledges, admit_client, is_proof_sent, on_accepted, accept,
}

-- The calls of a client, each with what it is given.
pub data Call : Type 0 where
  says_hello : Call
  begins : Bytes → Call
  finishes : Bytes → Call
  accepts : Bytes → Call

-- What a client answers with an envelope, if it can be written.
abbrev pub sent : Option Bytes → Result Bytes
sent none = err "malformed"
sent (some frame) = ok frame

module _ (w : Wire) where
  abbrev pub hello_frame : ChannelClient → Option Bytes
  hello_frame c = channel_envelope w "channelAuthHello" (
      obj (
        field "profile" (str channel_profile) (
          field "identity" (identity_to_json w c.identity)
            (field "clientNonce" (str (w.base64_encode c.client_nonce)) end))))

  abbrev pub proof_frame : ChannelTranscript → Bytes → Option Bytes
  proof_frame t signature = channel_envelope w "channelAuthProof" (
      obj (
        field "sessionID" (str t.session_id) (
          field "generation" (str t.generation)
            (field "signature" (str (w.base64_encode signature)) end))))

  abbrev pub call : ChannelClient → Instant → Call → Reply
  call c now says_hello = hello w c
  call c now (begins frame) = begin_challenge w c now frame
  call c now (finishes signature) = finish_challenge w c now signature
  call c now (accepts frame) = accept w c now frame

  -- How a call can end.
  pub data Ending (c : ChannelClient) (now : Instant) : Call → Reply → Type 0 where
    fails :
        (x : Call) (c' : ChannelClient) (code : String)
        → c'.state ≡ closed
        → c'.admitted ≡ c.admitted
        → Ending c now x (c', err code)
    greets :
        (r : Result Bytes)
        → c.state ≡ new
        → r ≡ sent (hello_frame c)
        → Ending c now says_hello (record c { state = hello_sent }, r)
    offers :
        (frame : Bytes) (body : Fields) (t : ChannelTranscript) (offered : Bytes)
        → c.state ≡ hello_sent
        → open_channel_envelope w frame ≡ ok ("channelAuthChallenge", body)
        → transcript_from_json w (lookup_field "transcript" body) ≡ some t
        → exact_keys body ("transcript" ∷ "signingData" ∷ []) ≡ true
        → now.monotonic < c.deadline
        → Matches c t (pos (now.wall / 1000000))
        → unb64 w (lookup_field "signingData" body) ≡ some offered
        → channel_signing_data w t ≡ some offered
        → is_ok
            (validate_signing_challenge w offered c.identity (millis (pos (now.wall / 1000000))))
          ≡ true
        → Ending c now
            (begins frame)
            (record c { state = signing; transcript = some t; offered = some offered }, ok offered)
    proves :
        (signature : Bytes) (t : ChannelTranscript) (offered : Bytes) (r : Result Bytes)
        → c.state ≡ signing
        → c.transcript ≡ some t
        → c.offered ≡ some offered
        → now.monotonic < c.deadline
        → verify_signature w signature offered c.identity ≡ true
        → is_ok (validate_signing_challenge w offered c.identity (pos now.wall)) ≡ true
        → r ≡ sent (proof_frame t signature)
        → Ending c now (finishes signature) (record c { state = proof_sent; offered = none }, r)
    admits :
        (frame : Bytes) (body : Fields) (t : ChannelTranscript)
        → c.state ≡ proof_sent
        → c.transcript ≡ some t
        → open_channel_envelope w frame ≡ ok ("channelAuthAccepted", body)
        → now.monotonic < c.deadline
        → Acknowledged w t body
        → pos now.wall <ℤ millis t.channel_expires_at_milliseconds
        → Ending c now (accepts frame) (
          record c {
            state = authenticated;
            admitted = some (record {
              identity = t.identity;
              endpoint = t.endpoint;
              session_id = t.session_id;
              generation = t.generation;
              transcript_digest = digest w t;
              expires_at = millis t.channel_expires_at_milliseconds;
            });
          },
          ok [],
        )

  framed_cases :
      (P : Reply → Type 0) (c : ChannelClient) (o : Option Bytes)
      → ((r : Result Bytes) → r ≡ sent o → P (c, r))
      → P (framed w c o)
  framed_cases P c none g = g _ refl
  framed_cases P c (some frame) g = g _ refl

  close_Ending :
      (c : ChannelClient) (now : Instant) (x : Call) (code : String)
      → Ending c now x (close_client c code)
  unfolding close_client
  close_Ending c now x code = fails x _ code refl refl

  check_challenge_Ending :
      (c : ChannelClient) (now : Instant) (frame : Bytes) (body : Fields) (t : ChannelTranscript)
      (offered expected : Bytes)
      → c.state ≡ hello_sent
      → open_channel_envelope w frame ≡ ok ("channelAuthChallenge", body)
      → transcript_from_json w (lookup_field "transcript" body) ≡ some t
      → channel_signing_data w t ≡ some expected
      → exact_keys body ("transcript" ∷ "signingData" ∷ []) ≡ true
      → now.monotonic < c.deadline
      → unb64 w (lookup_field "signingData" body) ≡ some offered
      → Ending c now
          (begins frame)
          (check_challenge w (record c { state = signing }) now t offered expected)
  unfolding check_challenge close_client names_connect
  check_challenge_Ending c now frame body t offered expected start opens decodes signs exact early
        given =
      split_if (Ending c now (begins frame))
        (names_connect c t
          && fits_clock t (pos (now.wall / 1000000))
          && same_bytes offered expected)
        (λ b.
          split_result (Ending c now (begins frame))
            (validate_signing_challenge w offered c.identity (millis (pos (now.wall / 1000000))))
            (λ code. fails (begins frame) _ "invalidProof" refl refl)
            (λ v q.
              let (names, fits, same) =
                and3 (names_connect c t) (fits_clock t (pos (now.wall / 1000000)))
                  (same_bytes offered expected) b in
              offers frame body t offered start opens decodes exact early
                (names_connect-Matches c t (pos (now.wall / 1000000)) names fits) given
                (signs ∙ ap some (sym ((same_bytes_iff offered expected).0 same))) (rw q refl)))
        (λ b. fails (begins frame) _ "invalidProof" refl refl)

  on_challenge_Ending :
      (c : ChannelClient) (now : Instant) (frame : Bytes) (body : Fields)
      → c.state ≡ hello_sent
      → open_channel_envelope w frame ≡ ok ("channelAuthChallenge", body)
      → now.monotonic < c.deadline
      → Ending c now (begins frame) (on_challenge w (record c { state = signing }) now body)
  unfolding on_challenge close_client
  on_challenge_Ending c now frame body start opens early =
      split_if (Ending c now (begins frame))
        (not (exact_keys body ("transcript" ∷ "signingData" ∷ []))) (λ b. refused "malformed")
        (λ b.
          split_option (Ending c now (begins frame))
            (transcript_from_json w (lookup_field "transcript" body)) (refused "malformed")
            (λ t decodes.
              split_option (Ending c now (begins frame)) (unb64 w (lookup_field "signingData" body))
                (refused "malformed")
                (λ offered o.
                  split_option (Ending c now (begins frame)) (channel_signing_data w t)
                    (refused "invalidProof")
                    (λ expected signs.
                      check_challenge_Ending c now frame body t offered expected start opens decodes
                        signs (not_is_false _ b) early o))))
    where
      refused :
          (code : String)
          → Ending c now (begins frame) (record c { state = closed; offered = none }, err code)
      refused code = fails _ _ code refl refl

  in_state : (c : ChannelClient) → is_hello_sent w c.state ≡ true → c.state ≡ hello_sent
  in_state c h = ground arith

  in_proof : (c : ChannelClient) → is_proof_sent w c.state ≡ true → c.state ≡ proof_sent
  in_proof c h = ground arith

  before_deadline : (a b : ℕ) → leb a b ≡ false → b < a
  before_deadline a b h = ground arith

  -- A client has what `FinishChallenge` needs only while it signs.
  to_finish_parts :
      (state : ClientState) (a : Option ChannelTranscript) (b : Option Bytes)
      (t : ChannelTranscript) (offered : Bytes)
      → to_finish w state a b ≡ some (t, offered)
      → (state ≡ signing) × (a ≡ some t) × (b ≡ some offered)
  to_finish_parts state a b t offered h = (ground arith, ground arith, ground arith)

  or_false : (x y : Bool) → (not x || not y) ≡ false → (x ≡ true) × (y ≡ true)
  or_false x y h = ground arith

  begin_challenge_Ending :
      (c : ChannelClient) (now : Instant) (frame : Bytes)
      → Ending c now (begins frame) (begin_challenge w c now frame)
  unfolding begin_challenge
  begin_challenge_Ending c now frame =
      split_result (Ending c now (begins frame)) (open_channel_envelope w frame)
        (λ code. fails (begins frame) (record c { state = closed }) code refl refl)
        (λ x opens.
          split_if (Ending c now (begins frame)) (leb c.deadline now.monotonic)
            (λ b. close_Ending c now (begins frame) "expired")
            (λ late.
              split_if (Ending c now (begins frame))
                (not (str_eq x.0 "channelAuthChallenge") || not (is_hello_sent w c.state))
                (λ b. close_Ending c now (begins frame) "unexpectedMessage")
                (λ b.
                  let (named, start) = or_false (str_eq x.0 "channelAuthChallenge") _ b in
                  on_challenge_Ending c now frame x.1 (in_state c start)
                    (rw (← (eq_iff x.0 "channelAuthChallenge").0 named) opens)
                    (before_deadline _ _ late))))

  finish_challenge_Ending :
      (c : ChannelClient) (now : Instant) (signature : Bytes)
      → Ending c now (finishes signature) (finish_challenge w c now signature)
  unfolding finish_challenge finish_offered close_client
  finish_challenge_Ending c now signature =
      split_option (Ending c now (finishes signature)) (to_finish w c.state c.transcript c.offered)
        (close_Ending c now (finishes signature) "unexpectedMessage")
        (λ p pending.
          split_if (Ending c now (finishes signature))
            (leb c.deadline now.monotonic || not (verify_signature w signature p.1 c.identity))
            (λ b. refused)
            (λ b.
              split_result (Ending c now (finishes signature))
                (validate_signing_challenge w p.1 c.identity (pos now.wall)) (λ code. refused)
                (λ v q.
                  framed_cases (Ending c now (finishes signature))
                    (record c { state = proof_sent; offered = none }) (proof_frame p.0 signature)
                    (λ r answers.
                      let (signs, transcript, offer) =
                        to_finish_parts c.state c.transcript c.offered p.0 p.1 pending in
                      let (early, verified) = parts _ _ b in
                      proves signature p.0 p.1 r signs transcript offer (before_deadline _ _ early)
                        verified (rw q refl) answers))))
    where
      refused :
          {code : String}
          → Ending c now
              (finishes signature)
              (record c { state = closed; offered = none }, err code)
      refused = fails _ _ _ refl refl

      parts : (x y : Bool) → (x || not y) ≡ false → (x ≡ false) × (y ≡ true)
      parts x y h = ground arith

  accept_Ending :
      (c : ChannelClient) (now : Instant) (frame : Bytes)
      → Ending c now (accepts frame) (accept w c now frame)
  unfolding accept on_accepted admit_client
  accept_Ending c now frame =
      split_result (Ending c now (accepts frame)) (open_channel_envelope w frame)
        (λ code. fails (accepts frame) (record c { state = closed }) code refl refl)
        (λ x opens.
          split_if (Ending c now (accepts frame)) (leb c.deadline now.monotonic)
            (λ b. close_Ending c now (accepts frame) "expired")
            (λ late.
              split_if (Ending c now (accepts frame))
                (not (str_eq x.0 "channelAuthAccepted") || not (is_proof_sent w c.state))
                (λ b. close_Ending c now (accepts frame) "unexpectedMessage")
                (λ sent.
                  split_if (Ending c now (accepts frame)) _
                    (λ b. close_Ending c now (accepts frame) "malformed")
                    (λ b.
                      split_option (Ending c now (accepts frame)) c.transcript
                        (close_Ending c now (accepts frame) "invalidProof")
                        (λ t held.
                          split_if (Ending c now (accepts frame)) (not (acknowledges w t x.1))
                            (λ b. close_Ending c now (accepts frame) "invalidProof")
                            (λ ack.
                              split_if (Ending c now (accepts frame))
                                (not
                                  (ltb_ℤ (pos now.wall) (millis t.channel_expires_at_milliseconds)))
                                (λ b. close_Ending c now (accepts frame) "expired")
                                (λ live.
                                  let (named, state) =
                                    or_false (str_eq x.0 "channelAuthAccepted") _ sent in
                                  admits frame x.1 t (in_proof c state) held
                                    (rw (← (eq_iff x.0 "channelAuthAccepted").0 named) opens)
                                    (before_deadline _ _ late)
                                    (acknowledges_sound w t x.1 (holds ack))
                                    (ltb_true (pos now.wall)
                                      (millis t.channel_expires_at_milliseconds)
                                      (holds live)))))))))
    where
      holds : {x : Bool} → not x ≡ false → x ≡ true
      holds h = ground arith

  greet_Ending :
      (state : ClientState) (c : ChannelClient) (now : Instant)
      → c.state ≡ state
      → Ending c now says_hello (greet w c state)
  unfolding greet
  greet_Ending new c now q =
      framed_cases (Ending c now says_hello) (record c { state = hello_sent }) (hello_frame c)
        (λ r answers. greets r q answers)
  greet_Ending hello_sent c now q = close_Ending c now says_hello "unexpectedMessage"
  greet_Ending signing c now q = close_Ending c now says_hello "unexpectedMessage"
  greet_Ending proof_sent c now q = close_Ending c now says_hello "unexpectedMessage"
  greet_Ending authenticated c now q = close_Ending c now says_hello "unexpectedMessage"
  greet_Ending closed c now q = close_Ending c now says_hello "unexpectedMessage"

  pub call_Ending : (c : ChannelClient) (now : Instant) (x : Call) → Ending c now x (call c now x)
  unfolding hello
  call_Ending c now says_hello = greet_Ending c.state c now refl
  call_Ending c now (begins frame) = begin_challenge_Ending c now frame
  call_Ending c now (finishes signature) = finish_challenge_Ending c now signature
  call_Ending c now (accepts frame) = accept_Ending c now frame

  -- How many challenges a client may still offer to its signer.
  abbrev pub offers_left : ClientState → ℕ
  offers_left new = 1
  offers_left hello_sent = 1
  offers_left _ = 0

  abbrev pub is_offer : Call → Result Bytes → ℕ
  is_offer (begins frame) (ok bytes) = 1
  is_offer _ _ = 0

  ending_bounds :
      (c : ChannelClient) (now : Instant) (x : Call) (a : Reply)
      → Ending c now x a
      → offers_left a.0.state + is_offer x a.1 ≤ offers_left c.state
  ending_bounds c now x a (fails _ c' code q _) = rw q (no_offer x code)
    where
      no_offer : (x : Call) (code : String) → 0 + is_offer x (err code) ≤ offers_left c.state
      no_offer says_hello code = omega arith
      no_offer (begins frame) code = omega arith
      no_offer (finishes signature) code = omega arith
      no_offer (accepts frame) code = omega arith
  ending_bounds c now x a (greets r q _) = rw q (omega arith)
  ending_bounds c now x a (offers frame body t offered q _ _ _ _ _ _ _ _) = rw q (omega arith)
  ending_bounds c now x a (proves signature t offered r _ _ _ _ _ _ _) = omega arith
  ending_bounds c now x a (admits frame body t _ _ _ _ _ _) = omega arith

  -- The client over a list of calls, and how many challenges it offers to its signer.
  abbrev pub offered : ChannelClient → List (Instant × Call) → ℕ
  offered c [] = 0
  offered c ((now, x) ∷ l) = is_offer x (call c now x).1 + offered (call c now x).0 l

  -- Over any calls, in any order and at any time, a client offers at most one challenge to its
  -- signer, and none once one was consumed.
  pub offered_le :
      (c : ChannelClient) (l : List (Instant × Call)) → offered c l ≤ offers_left c.state
  offered_le c [] = omega arith
  offered_le c ((now, x) ∷ l) = omega (
    arith,
    ending_bounds c now x (call c now x) (call_Ending c now x),
    offered_le (call c now x).0 l,
  )
