-- ===== src/Interop/Chat/Laws.antt =====
-- What an invitation and an acceptance that verify guarantee.
use go_cell_protocol.Prelude.{
  String, ◌≡◌, true, false, refl, not, Option, none, some, Result, ok, err, arith, str_eq, eq_iff,
  Option-cases, inl, inr, passed, not_is_false, stepped, if◌then◌else◌, ap,
}
use go_cell_protocol.Prelude.Int.{ℤ}
use go_cell_protocol.Identity.{Bytes}
use go_cell_protocol.Interop.Channel.Server.Identity.{same_bytes_iff}
use go_cell_protocol.Interop.Chat.{
  Descriptor, SignatureProof, ChatInvitationArtifact, ChatInvitationAcceptance, ChatWire, same_key,
  signed_artifact, signed_acceptance, invitation_hash, verify_chat_invitation, names_signer,
  ChatOptions, any_options, check_proof, verify_signature, check_acceptance, verify_chat_acceptance,
  validate_nonce, unexpected, good_times, is_past, accepted_in_time, hash_is, is_one,
}

-- The proof holds a signature that verifies under the signer's key over the canonical bytes.
pub record Proven (w : ChatWire) (payload : Option Bytes) (signer : Descriptor)
    (proof : Option SignatureProof) : Type 0 where
  pub carried : SignatureProof
  pub message : Bytes
  pub signature : Bytes
  pub is_carried : proof ≡ some carried
  pub holds : carried.signature ≡ some signature
  pub signs : payload ≡ some message
  pub verifies : verify_signature w signature message signer ≡ true

module _ (w : ChatWire) (mismatch invalid : String) (payload : Option Bytes) (signer : Descriptor)
    (p : SignatureProof) where
  -- The checks behind a signature that is there.
  abbrev verdict : Bytes → Option Bytes → Result (Unit {0})
  verdict signature none = err "uncanonical"
  verdict signature (some message) =
      if verify_signature w signature message signer then ok tt else err invalid

  signature_checked :
      (signature : Bytes) (o : Option Bytes)
      → payload ≡ o
      → p.signature ≡ some signature
      → verdict signature o ≡ ok tt
      → Proven w payload signer (some p)
  signature_checked signature none e s h = cc
  signature_checked signature (some message) e s h = record {
    carried = p;
    message = message;
    signature = signature;
    is_carried = refl;
    holds = s;
    signs = e;
    verifies = ground arith;
  }

pub check_proof_sound :
    (w : ChatWire) (mismatch invalid : String) (payload : Option Bytes) (signer : Descriptor)
    (proof : Option SignatureProof)
    → check_proof w mismatch invalid payload signer proof ≡ ok tt
    → Proven w payload signer proof
unfolding check_proof
check_proof_sound w mismatch invalid payload signer none h = cc
check_proof_sound w mismatch invalid payload signer (some p) h = elim (Option-cases p.signature) [
  | inl n ↦ absurd (let q = (rw (n, check_proof) at h) in cc)
  | inr (signature, s) ↦
      let q = rw (s, check_proof) at h in
      let (_, r) = passed (not (str_eq p.kind "signature")) _ _ q in
      let (_, t) = passed (not (names_signer p signer)) _ _ r in
      signature_checked w mismatch invalid payload signer p signature payload refl s t
]

-- What holds of an invitation that verifies at a time: it is an open invitation of version 1, and
-- its proof is the inviter's signature.
pub record Invites (w : ChatWire) (a : ChatInvitationArtifact) (now : ℤ) : Type 0 where
  pub purposed : a.purpose ≡ "chat_invitation"
  pub timely : good_times w (w.parse_iso a.created_at) (w.parse_iso a.expires_at) now ≡ true
  pub unexpired : is_past w (w.parse_iso a.expires_at) now ≡ false
  pub proven : Proven w (signed_artifact w a) a.inviter_identity a.proof

pub record Fits (a : ChatInvitationArtifact) (options : ChatOptions) : Type 0 where
  pub for_cell : unexpected options.expected_chat_cell_uuid a.chat_cell_uuid ≡ false
  pub from_inviter : unexpected options.expected_inviter_uuid a.inviter_identity.uuid ≡ false

pub verify_chat_invitation_sound :
    (w : ChatWire) (a : ChatInvitationArtifact) (now : ℤ) (options : ChatOptions)
    → verify_chat_invitation w a now options ≡ ok tt
    → Invites w a now × Fits a options
unfolding verify_chat_invitation
verify_chat_invitation_sound w a now options h =
    let (_, h1) = passed (not (is_one a.version)) _ _ h in
    let (p, h2) = passed (not (str_eq a.purpose "chat_invitation")) _ _ h1 in
    let (_, h3) = passed (not (validate_nonce a.nonce)) _ _ h2 in
    let (t, h4) =
      passed (not (good_times w (w.parse_iso a.created_at) (w.parse_iso a.expires_at) now)) _ _
        h3 in
    let (x, h5) = passed (is_past w (w.parse_iso a.expires_at) now) _ _ h4 in
    let (c, h6) = passed (unexpected options.expected_chat_cell_uuid a.chat_cell_uuid) _ _ h5 in
    let (i, h7) =
      passed (unexpected options.expected_inviter_uuid a.inviter_identity.uuid) _ _ h6 in
    (
      record {
        purposed = (eq_iff a.purpose "chat_invitation").0 (not_is_false _ p);
        timely = not_is_false _ t;
        unexpired = x;
        proven = check_proof_sound w _ _ _ _ _ h7;
      },
      record { for_cell = c; from_inviter = i },
    )

-- An acceptance that is the invited identity's answer to just this invitation.
pub record Answers (w : ChatWire) (b : ChatInvitationAcceptance) (a : ChatInvitationArtifact)
    : Type 0 where
  pub same_invitation : b.invitation_id ≡ a.invitation_id
  pub same_cell : b.chat_cell_uuid ≡ a.chat_cell_uuid
  pub same_person : same_key b.invitee_identity a.invited_identity ≡ true
  pub hashed : invitation_hash w a ≡ some b.invitation_hash
  pub proven : Proven w (signed_acceptance w b) a.invited_identity b.proof

-- A signature that verifies under a key verifies under every descriptor of the same key.
verify_signature-same_key :
    (w : ChatWire) (signature message : Bytes) (d e : Descriptor)
    → same_key d e ≡ true
    → verify_signature w signature message d ≡ verify_signature w signature message e
unfolding verify_signature same_key
verify_signature-same_key w signature message d e h =
    let k = (same_bytes_iff d.public_key e.public_key).0 (ground arith) in
    let x = (eq_iff d.algorithm e.algorithm).0 (ground arith) in
    let y = (eq_iff d.curve_type e.curve_type).0 (ground arith) in rw (k, x, y) refl

Proven-same_key :
    (w : ChatWire) (payload : Option Bytes) (d e : Descriptor) (proof : Option SignatureProof)
    → same_key d e ≡ true
    → Proven w payload d proof
    → Proven w payload e proof
Proven-same_key w payload d e proof h p = record {
  carried = p.carried;
  message = p.message;
  signature = p.signature;
  is_carried = p.is_carried;
  holds = p.holds;
  signs = p.signs;
  verifies = rw (← verify_signature-same_key w p.signature p.message d e h) p.verifies;
}

hash_is_sound :
    (w : ChatWire) (o : Option Bytes) (hash : Bytes) → hash_is w o hash ≡ ok tt → o ≡ some hash
hash_is_sound w none hash h = cc
hash_is_sound w (some g) hash h = ap some ((same_bytes_iff g hash).0 (ground arith))

check_acceptance_sound :
    (w : ChatWire) (b : ChatInvitationAcceptance) (a : ChatInvitationArtifact) (now : ℤ)
    → check_acceptance w b a now ≡ ok tt
    → (b.invitation_id ≡ a.invitation_id)
      × (b.chat_cell_uuid ≡ a.chat_cell_uuid)
      × (same_key b.invitee_identity a.invited_identity ≡ true)
      × (invitation_hash w a ≡ some b.invitation_hash)
unfolding check_acceptance
check_acceptance_sound w b a now h =
    let (_, h1) = passed (not (is_one b.version)) _ _ h in
    let (_, h2) = passed (not (str_eq b.purpose "accept_chat_invitation")) _ _ h1 in
    let (_, h3) = passed (not (validate_nonce b.nonce)) _ _ h2 in
    let (_, h4) =
      passed
        (not (
          accepted_in_time w (w.parse_iso a.created_at) (w.parse_iso a.expires_at)
            (w.parse_iso b.created_at) now))
        _ _ h3 in
    let (i, h5) = passed (not (str_eq b.invitation_id a.invitation_id)) _ _ h4 in
    let (c, h6) = passed (not (str_eq b.chat_cell_uuid a.chat_cell_uuid)) _ _ h5 in
    let (k, h7) = passed (not (same_key b.invitee_identity a.invited_identity)) _ _ h6 in
    (
      (eq_iff b.invitation_id a.invitation_id).0 (not_is_false _ i),
      (eq_iff b.chat_cell_uuid a.chat_cell_uuid).0 (not_is_false _ c),
      not_is_false _ k,
      hash_is_sound w _ _ h7,
    )

-- An acceptance that verifies against an invitation is signed by the key that the invitation
-- names, over an acceptance of this invitation's identifier, cell and hash; and the invitation is
-- open then, for the expected cell, and signed by its inviter, whom the acceptance names.
pub verify_chat_acceptance_sound :
    (w : ChatWire) (b : ChatInvitationAcceptance) (a : ChatInvitationArtifact) (now : ℤ)
    (cell : Option String)
    → verify_chat_acceptance w b a now cell ≡ ok tt
    → Answers w b a
      × Invites w a now
      × Fits a (record {
        expected_chat_cell_uuid = cell;
        expected_inviter_uuid = some b.inviter_identity_uuid;
      })
unfolding verify_chat_acceptance
verify_chat_acceptance_sound w b a now cell h =
    let (h1, h2) = stepped _ _ h in
    let (v, f) = stepped _ _ h1 in
    let (invites, fits) = verify_chat_invitation_sound w a now _ v in
    let (i, c, k, g) = check_acceptance_sound w b a now f in
    (
      record {
        same_invitation = i;
        same_cell = c;
        same_person = k;
        hashed = g;
        proven =
            Proven-same_key w _ b.invitee_identity a.invited_identity b.proof k
              (check_proof_sound w _ _ _ _ _ h2);
      },
      invites,
      fits,
    )

-- An invitation that verifies for a cell and an inviter verifies when none are expected.
pub verify-any_options :
    (w : ChatWire) (a : ChatInvitationArtifact) (now : ℤ) (options : ChatOptions)
    → verify_chat_invitation w a now options ≡ ok tt
    → verify_chat_invitation w a now any_options ≡ ok tt
unfolding verify_chat_invitation
verify-any_options w a now options h =
    let (v, h1) = passed (not (is_one a.version)) _ _ h in
    let (p, h2) = passed (not (str_eq a.purpose "chat_invitation")) _ _ h1 in
    let (n, h3) = passed (not (validate_nonce a.nonce)) _ _ h2 in
    let (t, h4) =
      passed (not (good_times w (w.parse_iso a.created_at) (w.parse_iso a.expires_at) now)) _ _
        h3 in
    let (x, h5) = passed (is_past w (w.parse_iso a.expires_at) now) _ _ h4 in
    let (_, h6) = passed (unexpected options.expected_chat_cell_uuid a.chat_cell_uuid) _ _ h5 in
    let (_, h7) =
      passed (unexpected options.expected_inviter_uuid a.inviter_identity.uuid) _ _ h6 in
    simp (v, p, n, t, x) h7
