-- ===== src/Interop/Channel/Server/Laws.antt =====
-- The handshake of an inbound connection: what an admission stands for, and how often the server
-- answers.
use go_cell_protocol.Prelude.{
  ◌/◌, ◌==◌, Bool, false, Option, not_is_false, split_if, split_option, split_result, ℕ, ◌+◌, ◌≤◌,
  ◌<◌, String, ◌≡◌, refl, true, not, ◌||◌, List, [], ◌∷◌, none, some, ok, err, is_ok, arith, str_eq,
  eq_iff, ltb, leb, length, if◌then◌else◌,
}
use go_cell_protocol.Prelude.Int.{pos, ltb_ℤ, ◌+ℤ◌, ◌<ℤ◌}
use go_cell_protocol.Value.{Fields}
use go_cell_protocol.Value.Access.{lookup_field}
use go_cell_protocol.Identity.{Bytes}
use go_cell_protocol.Interop.Channel.{
  channel_profile, channel_direction, exact_keys, millis, ChannelTranscript, Wire, text_or_empty,
}
use go_cell_protocol.Interop.Channel.Messages.{
  digest, unb64, identity_from_json, channel_signing_data, channel_challenge_envelope,
  channel_accepted_envelope, open_channel_envelope, verify_signature,
}
use go_cell_protocol.Interop.Channel.Server.{
  ServerState, unauthenticated, challenge_issued, verifying, authenticated, closed, ChannelServer,
  Moment, Answer, close_server, hello_transcript, issue_challenge, client_nonce, on_hello,
  rechecked, admit_channel, check_proof, on_proof, dispatch, receive_open, is_over, receive,
}

module _ (w : Wire) where
  -- What stands behind an admission: the pending transcript of a challenge that was issued, and a
  -- signature over its signing bytes that verifies under the transcript's key, in time and for this
  -- session and generation, which the recheck let pass.
  pub record Proven (s : ChannelServer) (m : Moment) (body : Fields) (t : ChannelTranscript)
      : Type 0 where
    pub to_sign : Bytes
    pub signature : Bytes
    pub was_pending : s.pending ≡ some (t, to_sign)
    pub was_sent : unb64 w (lookup_field "signature" body) ≡ some signature
    pub verifies : verify_signature w signature to_sign t.identity ≡ true
    pub same_session : text_or_empty body "sessionID" ≡ t.session_id
    pub same_generation : text_or_empty body "generation" ≡ s.generation
    pub exact : exact_keys body ("sessionID" ∷ "generation" ∷ "signature" ∷ []) ≡ true
    pub short : length signature ≤ 256
    pub fresh : pos m.wall <ℤ millis t.issued_at_milliseconds +ℤ pos 30000000000
    pub allowed : rechecked w m t.identity ≡ true
    pub before_deadline : m.monotonic_late < s.deadline
    pub unexpired : pos m.wall_late <ℤ millis t.channel_expires_at_milliseconds

  -- The transcript that answers a hello: it names the client and the nonce of the hello, this
  -- server's endpoint and generation, and what the server drew for it.
  pub record Greeted (s : ChannelServer) (m : Moment) (body : Fields) (t : ChannelTranscript)
      : Type 0 where
    pub exact : exact_keys body ("profile" ∷ "identity" ∷ "clientNonce" ∷ []) ≡ true
    pub right_profile : text_or_empty body "profile" ≡ channel_profile
    pub names_client : identity_from_json w (lookup_field "identity" body) ≡ ok t.identity
    pub has_nonce : unb64 w (lookup_field "clientNonce" body) ≡ some t.client_nonce
    pub long_nonce : length t.client_nonce ≡ 32
    pub same_profile : t.profile ≡ channel_profile
    pub same_direction : t.direction ≡ channel_direction
    pub same_endpoint : t.endpoint ≡ s.endpoint
    pub same_generation : t.generation ≡ s.generation
    pub fresh_nonce : t.server_nonce ≡ m.random
    pub fresh_session : t.session_id ≡ m.new_uuid
    pub issued_now : t.issued_at_milliseconds ≡ pos (m.wall / 1000000)
    pub lasts : t.channel_expires_at_milliseconds ≡ pos (m.wall / 1000000 + 300000)

  -- How a call of `Receive` can end.
  pub data Outcome (s : ChannelServer) (m : Moment) (frame : Bytes) : Answer → Type 0 where
    closes :
        (s' : ChannelServer) (code : String)
        → s'.state ≡ closed
        → s'.admitted ≡ s.admitted
        → Outcome s m frame (s', err code)
    challenges :
        (t : ChannelTranscript) (body : Fields) (to_sign reply : Bytes)
        → s.state ≡ unauthenticated
        → open_channel_envelope w frame ≡ ok ("channelAuthHello", body)
        → m.monotonic < s.deadline
        → Greeted s m body t
        → channel_signing_data w t ≡ some to_sign
        → channel_challenge_envelope w t ≡ some reply
        → Outcome s m frame
            (record s { state = challenge_issued; pending = some (t, to_sign) }, ok reply)
    admits :
        (t : ChannelTranscript) (body : Fields) (reply : Bytes)
        → s.state ≡ challenge_issued
        → open_channel_envelope w frame ≡ ok ("channelAuthProof", body)
        → m.monotonic < s.deadline
        → Proven s m body t
        → channel_accepted_envelope w t ≡ some reply
        → Outcome s m frame (
          record s {
            state = authenticated;
            pending = none;
            admitted = some (record {
              identity = t.identity;
              endpoint = s.endpoint;
              session_id = t.session_id;
              generation = s.generation;
              transcript_digest = digest w t;
              expires_at = millis t.channel_expires_at_milliseconds;
            });
          },
          ok reply,
        )

  close_Outcome :
      (s : ChannelServer) (m : Moment) (frame : Bytes) (code : String)
      → Outcome s m frame (close_server s code)
  unfolding close_server
  close_Outcome s m frame code = closes _ code refl refl

  check_proof_Outcome :
      (s : ChannelServer) (m : Moment) (frame : Bytes) (body : Fields) (t : ChannelTranscript)
      (to_sign signature : Bytes)
      → s.state ≡ challenge_issued
      → open_channel_envelope w frame ≡ ok ("channelAuthProof", body)
      → m.monotonic < s.deadline
      → exact_keys body ("sessionID" ∷ "generation" ∷ "signature" ∷ []) ≡ true
      → s.pending ≡ some (t, to_sign)
      → unb64 w (lookup_field "signature" body) ≡ some signature
      → Outcome s m frame (
          check_proof w (record s { state = verifying; pending = none }) m body t to_sign signature)
  unfolding check_proof close_server admit_channel
  check_proof_Outcome s m frame body t to_sign signature at_issue opens early exact pending sent =
      split_if (Outcome s m frame)
        (not (ltb_ℤ (pos m.wall) (millis t.issued_at_milliseconds +ℤ pos 30000000000)))
        (λ b1. refused)
        (λ b1.
          split_if (Outcome s m frame)
            (not (str_eq (text_or_empty body "sessionID") t.session_id)
              || not (str_eq (text_or_empty body "generation") s.generation))
            (λ b2. refused)
            (λ b2.
              split_if (Outcome s m frame)
                (ltb 256 (length signature)
                  || not (verify_signature w signature to_sign t.identity))
                (λ b3. refused)
                (λ b3.
                  split_if (Outcome s m frame) (not (rechecked w m t.identity)) (λ b4. refused)
                    (λ b4.
                      split_if (Outcome s m frame)
                        (leb s.deadline m.monotonic_late
                          || not
                              (ltb_ℤ (pos m.wall_late) (millis t.channel_expires_at_milliseconds)))
                        (λ b5. refused)
                        (λ b5.
                          split_option (Outcome s m frame) (channel_accepted_envelope w t) refused
                            (λ reply q.
                              admits t body reply at_issue opens early
                                (record {
                                  to_sign = to_sign;
                                  signature = signature;
                                  was_pending = pending;
                                  was_sent = sent;
                                  exact = exact;
                                  short = ground arith;
                                  verifies = ground arith;
                                  same_session =
                                      (eq_iff (text_or_empty body "sessionID") t.session_id).0
                                        (ground arith);
                                  same_generation =
                                      (eq_iff (text_or_empty body "generation") s.generation).0
                                        (ground arith);
                                  fresh = ground arith;
                                  allowed = ground arith;
                                  before_deadline = ground arith;
                                  unexpired = ground arith;
                                })
                                q))))))
    where
      refused :
          {code : String}
          → Outcome s m frame (record s { state = closed; pending = none }, err code)
      refused = closes _ _ refl refl

  issue_challenge_Outcome :
      (s : ChannelServer) (m : Moment) (frame : Bytes) (body : Fields) (t : ChannelTranscript)
      → s.state ≡ unauthenticated
      → open_channel_envelope w frame ≡ ok ("channelAuthHello", body)
      → m.monotonic < s.deadline
      → Greeted s m body t
      → Outcome s m frame (issue_challenge w s t)
  unfolding issue_challenge
  issue_challenge_Outcome s m frame body t start opens early greeted =
      split_option (Outcome s m frame) (channel_signing_data w t)
        (close_Outcome s m frame "malformed")
        (λ to_sign signs.
          split_option (Outcome s m frame) (channel_challenge_envelope w t)
            (close_Outcome s m frame "malformed")
            (λ reply q. challenges t body to_sign reply start opens early greeted signs q))

  nonce_parts :
      (body : Fields) (n : Bytes)
      → client_nonce w body ≡ some n
      → (unb64 w (lookup_field "clientNonce" body) ≡ some n) × (length n ≡ 32)
  nonce_parts body n h = parts (unb64 w (lookup_field "clientNonce" body)) h
    where
      parts :
          (o : Option Bytes)
          → (elim o [ none ↦ none | some n ↦ if length n == 32 then some n else none ]) ≡ some n
          → (o ≡ some n) × (length n ≡ 32)
      parts none h = absurd (cc)
      parts (some k) h = ground arith

  both_hold : (x y : Bool) → (not x || not y) ≡ false → (x ≡ true) × (y ≡ true)
  both_hold x y h = ground arith

  on_hello_Outcome :
      (s : ChannelServer) (m : Moment) (frame : Bytes) (body : Fields)
      → s.state ≡ unauthenticated
      → open_channel_envelope w frame ≡ ok ("channelAuthHello", body)
      → m.monotonic < s.deadline
      → Outcome s m frame (on_hello w s m body)
  unfolding on_hello hello_transcript
  on_hello_Outcome s m frame body start opens early =
      split_if (Outcome s m frame)
        (not (exact_keys body ("profile" ∷ "identity" ∷ "clientNonce" ∷ []))
          || not (str_eq (text_or_empty body "profile") channel_profile))
        (λ b. close_Outcome s m frame "malformed")
        (λ b.
          split_result (Outcome s m frame) (identity_from_json w (lookup_field "identity" body))
            (λ code. close_Outcome s m frame code)
            (λ identity q.
              split_option (Outcome s m frame) (client_nonce w body)
                (close_Outcome s m frame "malformed")
                (λ n p.
                  issue_challenge_Outcome s m frame body (hello_transcript w s m identity n) start
                    opens early
                    (let (nonce, long) = nonce_parts body n p in
                      let (exact, profile) = both_hold _ _ b in
                      record {
                        exact = exact;
                        right_profile =
                            (eq_iff (text_or_empty body "profile") channel_profile).0 profile;
                        names_client = q;
                        has_nonce = nonce;
                        long_nonce = long;
                        same_profile = refl;
                        same_direction = refl;
                        same_endpoint = refl;
                        same_generation = refl;
                        fresh_nonce = refl;
                        fresh_session = refl;
                        issued_now = refl;
                        lasts = refl;
                      }))))

  on_proof_Outcome :
      (s : ChannelServer) (m : Moment) (frame : Bytes) (body : Fields)
      → s.state ≡ challenge_issued
      → open_channel_envelope w frame ≡ ok ("channelAuthProof", body)
      → m.monotonic < s.deadline
      → Outcome s m frame (on_proof w s m body)
  unfolding on_proof
  on_proof_Outcome s m frame body at_issue opens early =
      split_option (Outcome s m frame) s.pending (close_Outcome s m frame "unexpectedMessage")
        (λ p pending.
          split_if (Outcome s m frame)
            (not (exact_keys body ("sessionID" ∷ "generation" ∷ "signature" ∷ [])))
            (λ b. close_Outcome s m frame "malformed")
            (λ b.
              split_option (Outcome s m frame) (unb64 w (lookup_field "signature" body))
                (close_Outcome s m frame "malformed")
                (λ signature sent.
                  check_proof_Outcome s m frame body p.0 p.1 signature at_issue opens early
                    (not_is_false _ b) pending sent)))

  dispatch_Outcome :
      (state : ServerState) (s : ChannelServer) (m : Moment) (frame : Bytes) (name : String)
      (body : Fields)
      → s.state ≡ state
      → open_channel_envelope w frame ≡ ok (name, body)
      → m.monotonic < s.deadline
      → Outcome s m frame (dispatch w state s m name body)
  unfolding dispatch
  dispatch_Outcome unauthenticated s m frame name body q opens early =
      split_if (Outcome s m frame) (str_eq name "channelAuthHello")
        (λ b.
          on_hello_Outcome s m frame body q (rw (← (eq_iff name "channelAuthHello").0 b) opens)
            early)
        (λ b. close_Outcome s m frame "unexpectedMessage")
  dispatch_Outcome challenge_issued s m frame name body q opens early =
      split_if (Outcome s m frame) (str_eq name "channelAuthProof")
        (λ b.
          on_proof_Outcome s m frame body q (rw (← (eq_iff name "channelAuthProof").0 b) opens)
            early)
        (λ b. close_Outcome s m frame "unexpectedMessage")
  dispatch_Outcome verifying s m frame name body q opens early =
      close_Outcome s m frame "unexpectedMessage"
  dispatch_Outcome authenticated s m frame name body q opens early =
      close_Outcome s m frame "unexpectedMessage"
  dispatch_Outcome closed s m frame name body q opens early =
      close_Outcome s m frame "unexpectedMessage"

  -- Every frame either closes the connection with an error and leaves the admission as it was, or
  -- is a hello of an unauthenticated connection that is answered by the envelope of a challenge, whose
  -- transcript names the identity and the nonce of the hello, this server's endpoint and generation,
  -- and the session, nonce and times that were drawn for it, and is pending from then on with the
  -- bytes to sign, or is a proof that is answered by the acceptance of the pending transcript and
  -- admits its identity: under a signature over its bytes that verifies, for its session and the
  -- server's generation, in time for every deadline and let pass by the recheck.
  pub receive_Outcome :
      (s : ChannelServer) (m : Moment) (frame : Bytes) → Outcome s m frame (receive w s m frame)
  unfolding receive receive_open
  receive_Outcome s m frame =
      split_if (Outcome s m frame) (is_over w s.state)
        (λ b. close_Outcome s m frame "unexpectedMessage")
        (λ b.
          split_result (Outcome s m frame) (open_channel_envelope w frame)
            (λ code. closes (record s { state = closed }) code refl refl)
            (λ x opens.
              split_if (Outcome s m frame) (leb s.deadline m.monotonic)
                (λ b. close_Outcome s m frame "expired")
                (λ b. dispatch_Outcome s.state s m frame x.0 x.1 refl opens (ground arith))))

  -- The states in the order of the handshake, counted by the replies that are still to come.
  abbrev pub replies_left : ServerState → ℕ
  replies_left unauthenticated = 2
  replies_left challenge_issued = 1
  replies_left _ = 0

  outcome_bounds :
      (s : ChannelServer) (m : Moment) (frame : Bytes) (a : Answer)
      → Outcome s m frame a
      → replies_left a.0.state + (if is_ok a.1 then 1 else 0) ≤ replies_left s.state
  outcome_bounds s m frame a (closes s' code q _) = rw q (omega arith)
  outcome_bounds s m frame a (challenges t body to_sign reply q _ _ _ _ _) = rw q (omega arith)
  outcome_bounds s m frame a (admits t body reply q _ _ _ _) = rw q (omega arith)

  -- The server over a list of frames, and how many of them it answers with a reply.
  abbrev pub answered : ChannelServer → List (Moment × Bytes) → ℕ
  answered s [] = 0
  answered s ((m, frame) ∷ l) =
      (if is_ok (receive w s m frame).1 then 1 else 0) + answered (receive w s m frame).0 l

  -- However many frames a peer sends, and whenever, a server replies to at most as many of them as
  -- its state has replies left: two for a new connection, its challenge and its acceptance, one
  -- behind the challenge, none once it has admitted, refused or begun to verify.
  pub answered_le :
      (s : ChannelServer) (l : List (Moment × Bytes)) → answered s l ≤ replies_left s.state
  answered_le s [] = omega arith
  answered_le s ((m, frame) ∷ l) = omega (
    arith,
    outcome_bounds s m frame (receive w s m frame) (receive_Outcome s m frame),
    answered_le (receive w s m frame).0 l,
  )
