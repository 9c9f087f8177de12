-- ===== src/Interop/Chat/RoundTrip.antt =====
-- Invitations that are built verify, and what signers and clocks are relied on for.
use go_cell_protocol.Prelude.{
  ◌≤◌, String, ◌≡◌, true, false, refl, Option, none, some, ok, arith, eq_refl, Result-cases, inl,
  inr, length, sym,
}
use go_cell_protocol.Prelude.Int.{ℤ, pos, ◌+ℤ◌, ◌≤ℤ◌, ◌<ℤ◌, +ℤ_parts}
use go_cell_protocol.Identity.{Bytes}
use go_cell_protocol.Interop.Chat.{
  Descriptor, SignatureProof, ChatInvitationArtifact, ChatWire, signed_artifact,
  verify_chat_invitation, ChatOptions, check_proof, verify_signature, validate_nonce, unexpected,
  good_times, is_past, clock_skew,
}
use go_cell_protocol.Interop.Chat.Build.{
  SignFunc, ChatInvitationInput, Fresh, or_random, proof_by, sign_chat, unsigned_artifact,
  build_chat_invitation, chat_invitation_lifetime,
}

-- What the code relies on of a signer: its signatures verify under its descriptor.
pub record Signs (w : ChatWire) (sign : SignFunc) (d : Descriptor) : Type 0 where
  pub signature : Bytes → Bytes
  pub signed : (m : Bytes) → sign m ≡ ok (signature m)
  pub verifies : (m : Bytes) → verify_signature w (signature m) m d ≡ true

-- A time is written with milliseconds and read back so.
pub record Stamped (w : ChatWire) (t : ℤ) : Type 0 where
  pub read : ℤ
  pub reads : w.parse_iso (w.timestamp t) ≡ some read
  pub not_later : read ≤ℤ t
  pub close : t <ℤ read +ℤ pos 1000000

pub ok_path {ℓ} : {A : Type ℓ} {a b : A} → ok a ≡ ok b → a ≡ b
ok_path h = cc

pub check_proof_complete :
    (w : ChatWire) (mismatch invalid : String) (message : Bytes) (sign : SignFunc) (d : Descriptor)
    (s : Signs w sign d)
    → check_proof w mismatch invalid (some message) d (some (proof_by d (s.signature message)))
      ≡ ok tt
unfolding check_proof
check_proof_complete w mismatch invalid message sign d s =
    rw (eq_refl d.uuid, eq_refl d.algorithm, eq_refl d.curve_type, s.verifies message) refl

pub sign_chat_sound :
    (w : ChatWire) (payload : Option Bytes) (sign : SignFunc) (d : Descriptor) (s : Signs w sign d)
    (p : SignatureProof)
    → sign_chat payload sign d ≡ ok p
    → (m : Bytes) × (payload ≡ some m) × (p ≡ proof_by d (s.signature m))
unfolding sign_chat
sign_chat_sound w none sign d s p h = cc
sign_chat_sound w (some m) sign d s p h = (m, refl, ground (arith, s.signed m))

module _ (w : ChatWire) where
  -- An invitation verifies while the checks on its fields hold.
  verify_complete :
      (a : ChatInvitationArtifact) (now : ℤ) (options : ChatOptions)
      → a.version ≡ pos 1
      → a.purpose ≡ "chat_invitation"
      → validate_nonce a.nonce ≡ true
      → good_times w (w.parse_iso a.created_at) (w.parse_iso a.expires_at) now ≡ true
      → is_past w (w.parse_iso a.expires_at) now ≡ false
      → unexpected options.expected_chat_cell_uuid a.chat_cell_uuid ≡ false
      → unexpected options.expected_inviter_uuid a.inviter_identity.uuid ≡ false
      → check_proof w "inviterMismatch" "invalidArtifactProof"
          (signed_artifact w a)
          a.inviter_identity
          a.proof
        ≡ ok tt
      → verify_chat_invitation w a now options ≡ ok tt
  unfolding verify_chat_invitation
  verify_complete a now options v p n t x c i s = simp (v, p, n, t, x, c, i, s)

-- The nonce of an invitation has an accepted length.
abbrev pub GoodNonce : Bytes → Type 0
GoodNonce nonce = (32 ≤ length nonce) × (length nonce ≤ 128)

pub good_nonce : (b : Bytes) → GoodNonce b → validate_nonce b ≡ true
unfolding validate_nonce
good_nonce b h = ground arith

good_stamps :
    (w : ChatWire) (t u : ℤ) (s : Stamped w t) (e : Stamped w (t +ℤ chat_invitation_lifetime))
    → t ≤ℤ u
    → good_times w (some s.read) (some e.read) u ≡ true
good_stamps w t u s e h = ground (
  arith,
  +ℤ_parts u clock_skew,
  +ℤ_parts t chat_invitation_lifetime,
  +ℤ_parts s.read (pos 1000000),
  +ℤ_parts e.read (pos 1000000),
)

is_past_later :
    (w : ChatWire) (t u : ℤ) (e : Stamped w t)
    → u +ℤ pos 1000000 ≤ℤ t
    → is_past w (some e.read) u ≡ false
is_past_later w t u e h = ground (arith, +ℤ_parts u (pos 1000000), +ℤ_parts e.read (pos 1000000))

-- What an inviter who builds an invitation brings along.
pub record Inviting (w : ChatWire) (inviter : Descriptor) (sign : SignFunc)
    (input : ChatInvitationInput) (fresh : Fresh) : Type 0 where
  pub signs : Signs w sign inviter
  pub created : Stamped w input.now
  pub expires : Stamped w (input.now +ℤ chat_invitation_lifetime)
  pub nonce : GoodNonce (or_random input.nonce fresh.nonce)

module _ (w : ChatWire) (inviter invited : Descriptor) (sign : SignFunc)
    (input : ChatInvitationInput) (fresh : Fresh) (i : Inviting w inviter sign input fresh) where
  abbrev signed_with : Bytes → ChatInvitationArtifact
  signed_with m = record (unsigned_artifact w inviter invited input fresh) {
    proof = some (proof_by inviter (i.signs.signature m));
  }

  pub built_artifact :
      (a : ChatInvitationArtifact)
      → build_chat_invitation w inviter invited sign input fresh ≡ ok a
      → (m : Bytes) × (signed_artifact w (unsigned_artifact w inviter invited input fresh) ≡ some m)
        × (a ≡ signed_with m)
  unfolding build_chat_invitation
  built_artifact a h =
      elim (Result-cases (
        sign_chat (signed_artifact w (unsigned_artifact w inviter invited input fresh)) sign
          inviter)) [
            | inr (x, e) ↦ absurd (let q = (rw (e, build_chat_invitation) at h) in cc)
            | inl (p, e) ↦
                let (m, y, z) = sign_chat_sound w _ sign inviter i.signs p e in
                let q = (rw (e, build_chat_invitation) at h) in (m, y, sym (ok_path (rw z at q)))
          ]

  -- An invitation that was built verifies from then on until a millisecond before seven days are
  -- over, for its cell and its inviter.
  pub verify-build_chat_invitation :
      (a : ChatInvitationArtifact) (u : ℤ)
      → build_chat_invitation w inviter invited sign input fresh ≡ ok a
      → input.now ≤ℤ u
      → u +ℤ pos 1000000 ≤ℤ input.now +ℤ chat_invitation_lifetime
      → verify_chat_invitation w a u (record {
        expected_chat_cell_uuid = some input.chat_cell_uuid;
        expected_inviter_uuid = some inviter.uuid;
      })
        ≡ ok tt
  unfolding unsigned_artifact signed_artifact
  verify-build_chat_invitation a u h early late =
      let (m, y, z) = built_artifact a h in
      rw z (
        verify_complete w (signed_with m) u _ refl refl (good_nonce _ i.nonce)
          (rw (i.created.reads, i.expires.reads)
            (good_stamps w input.now u i.created i.expires early))
          (rw i.expires.reads (is_past_later w _ u i.expires late)) (rw eq_refl refl)
          (rw eq_refl refl) (rw y (check_proof_complete w _ _ m sign inviter i.signs)))

-- The creation time and the inviter of an invitation that was built.
pub built_for :
    (w : ChatWire) (inviter invited : Descriptor) (sign : SignFunc) (input : ChatInvitationInput)
    (fresh : Fresh) (i : Inviting w inviter sign input fresh) (a : ChatInvitationArtifact)
    (m : Bytes)
    → a ≡ signed_with w inviter invited sign input fresh i m
    → (w.parse_iso a.created_at ≡ some i.created.read) × (a.inviter_identity.uuid ≡ inviter.uuid)
unfolding unsigned_artifact
built_for w inviter invited sign input fresh i a m z = rw z (i.created.reads, refl)
