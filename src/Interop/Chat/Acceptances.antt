-- ===== src/Interop/Chat/Acceptances.antt =====
-- Acceptances that are built verify.
use go_cell_protocol.Prelude.{
  passed, stepped, not_is_false, String, ◌≡◌, true, false, refl, not, Option, none, some, ok, arith,
  eq_refl, Option-cases, Result-cases, inl, inr, sym,
}
use mathlib.Core.Path.{subst}
use go_cell_protocol.Prelude.Int.{ℤ, pos, ◌+ℤ◌, ◌≤ℤ◌, ◌-ℤ◌, +ℤ_parts, -ℤ_parts}
use go_cell_protocol.Identity.{Bytes}
use go_cell_protocol.Interop.Channel.Server.Identity.{same_bytes_refl}
use go_cell_protocol.Interop.Chat.{
  Descriptor, ChatInvitationArtifact, ChatInvitationAcceptance, ChatWire, same_key,
  signed_acceptance, invitation_hash, verify_chat_invitation, ChatOptions, any_options,
  check_acceptance, verify_chat_acceptance, validate_nonce, good_times, is_past, accepted_in_time,
  clock_skew,
}
use go_cell_protocol.Interop.Chat.Laws.{verify_chat_invitation_sound}
use go_cell_protocol.Interop.Chat.Build.{
  SignFunc, ChatInvitationInput, Fresh, or_fresh, or_random, proof_by, sign_chat, unsigned_artifact,
  build_chat_invitation, unsigned_acceptance, sign_acceptance, build_chat_acceptance,
  chat_invitation_lifetime,
}
use go_cell_protocol.Interop.Chat.RoundTrip.{
  Signs, Stamped, ok_path, check_proof_complete, sign_chat_sound, GoodNonce, good_nonce,
  built_artifact, verify-build_chat_invitation, built_for, Inviting,
}

-- What an invitee who accepts brings along.
pub record Accepting (w : ChatWire) (invitee : Descriptor) (sign : SignFunc) (t : ℤ) (nonce : Bytes)
    : Type 0 where
  pub signs : Signs w sign invitee
  pub accepted : Stamped w t
  pub good : GoodNonce nonce

module _ (w : ChatWire) (a : ChatInvitationArtifact) (invitee : Descriptor) (sign : SignFunc)
    (id : String) (t : ℤ) (nonce : Bytes) (c : Accepting w invitee sign t nonce) where
  abbrev accepted_with : Bytes → Bytes → ChatInvitationAcceptance
  accepted_with hash m = record (unsigned_acceptance w a invitee hash id t nonce) {
    proof = some (proof_by invitee (c.signs.signature m));
  }

  signed_acceptance_sound :
      (b : ChatInvitationAcceptance)
      → sign_acceptance w a invitee sign id t nonce ≡ ok b
      → (hash m : Bytes) × (invitation_hash w a ≡ some hash)
        × (signed_acceptance w (unsigned_acceptance w a invitee hash id t nonce) ≡ some m)
        × (b ≡ accepted_with hash m)
  unfolding sign_acceptance
  signed_acceptance_sound b h = elim (Option-cases (invitation_hash w a)) [
    | inl n ↦ absurd (let q = (rw (n, sign_acceptance) at h) in cc)
    | inr (hash, n) ↦
        elim (Result-cases (
          sign_chat (signed_acceptance w (unsigned_acceptance w a invitee hash id t nonce)) sign
            invitee)) [
              | inr (x, e) ↦ absurd (let q = (rw (n, e, sign_acceptance) at h) in cc)
              | inl (p, e) ↦
                  let (m, y, z) = sign_chat_sound w _ sign invitee c.signs p e in
                  let q = (rw (n, e, sign_acceptance) at h) in
                  (hash, m, n, y, sym (ok_path (rw z at q)))
            ]
  ]

  -- The times of an invitation that verified when it was accepted, and verifies later.
  accepted_in_time_later :
      (u : ℤ) (created expires : Option ℤ) (k : ℤ)
      → created ≡ some k
      → k -ℤ clock_skew ≤ℤ c.accepted.read
      → t ≤ℤ u
      → good_times w created expires u ≡ true
      → is_past w expires t ≡ false
      → accepted_in_time w created expires (some c.accepted.read) u ≡ true
  accepted_in_time_later u none expires k e early later g p = cc
  accepted_in_time_later u (some k') none k e early later g p = cc
  accepted_in_time_later u (some k') (some x) k e early later g p =
      ground (arith, +ℤ_parts u clock_skew, -ℤ_parts k clock_skew, c.accepted.not_later)

  check_acceptance_complete :
      (b : ChatInvitationAcceptance) (u : ℤ) (hash : Bytes)
      → b.version ≡ pos 1
      → b.purpose ≡ "accept_chat_invitation"
      → validate_nonce b.nonce ≡ true
      → accepted_in_time w
          (w.parse_iso a.created_at)
          (w.parse_iso a.expires_at)
          (w.parse_iso b.created_at)
          u
        ≡ true
      → b.invitation_id ≡ a.invitation_id
      → b.chat_cell_uuid ≡ a.chat_cell_uuid
      → same_key b.invitee_identity a.invited_identity ≡ true
      → invitation_hash w a ≡ some hash
      → b.invitation_hash ≡ hash
      → check_acceptance w b a u ≡ ok tt
  unfolding check_acceptance
  check_acceptance_complete b u hash v p n t i x k e g =
      simp (v, p, n, t, i, x, k, e, g, eq_refl, same_bytes_refl)

  pub verify-sign_acceptance :
      (b : ChatInvitationAcceptance) (u k : ℤ) (cell : Option String)
      → sign_acceptance w a invitee sign id t nonce ≡ ok b
      → same_key invitee a.invited_identity ≡ true
      → w.parse_iso a.created_at ≡ some k
      → k -ℤ clock_skew ≤ℤ c.accepted.read
      → t ≤ℤ u
      → is_past w (w.parse_iso a.expires_at) t ≡ false
      → verify_chat_invitation w a u (record {
        expected_chat_cell_uuid = cell;
        expected_inviter_uuid = some a.inviter_identity.uuid;
      })
        ≡ ok tt
      → verify_chat_acceptance w b a u cell ≡ ok tt
  unfolding verify_chat_acceptance unsigned_acceptance signed_acceptance
  verify-sign_acceptance b u k cell h same e early later open_then verified =
      let (hash, m, n, y, z) = signed_acceptance_sound b h in
      let options : ChatOptions = record {
        expected_chat_cell_uuid = cell;
        expected_inviter_uuid = some a.inviter_identity.uuid;
      } in
      let (invites, _) = verify_chat_invitation_sound w a u options verified in
      rw z (
        rw
          (
            verified,
            check_acceptance_complete (accepted_with hash m) u hash refl refl (good_nonce _ c.good)
                (rw c.accepted.reads (
                  accepted_in_time_later u (w.parse_iso a.created_at) (w.parse_iso a.expires_at) k e
                    early later invites.timely open_then))
                refl refl same n refl,
          )
          (rw y (check_proof_complete w _ _ m sign invitee c.signs)))

-- An acceptance that was built for an invitation that was built verifies against it, at every time
-- from when it was built until a millisecond before the invitation's seven days are over, if the
-- invitation was built before, each signer's signatures verify under its key, times are read back
-- to the millisecond, and the nonces have accepted lengths.
pub verify-build_chat_acceptance :
    (w : ChatWire) (inviter invited invitee : Descriptor) (sign accept : SignFunc)
    (input : ChatInvitationInput) (fresh later : Fresh) (id : String) (given : Option Bytes)
    (t u : ℤ) (a : ChatInvitationArtifact) (b : ChatInvitationAcceptance)
    → Inviting w inviter sign input fresh
    → Accepting w invitee accept t (or_random given later.nonce)
    → build_chat_invitation w inviter invited sign input fresh ≡ ok a
    → build_chat_acceptance w a invitee accept id t given later ≡ ok b
    → input.now ≤ℤ t
    → t ≤ℤ u
    → u +ℤ pos 1000000 ≤ℤ input.now +ℤ chat_invitation_lifetime
    → verify_chat_acceptance w b a u (some input.chat_cell_uuid) ≡ ok tt
unfolding build_chat_acceptance unsigned_artifact
verify-build_chat_acceptance w inviter invited invitee sign accept input fresh later id given t u a
      b i c built made before after_then in_time =
    let (same, rest) = passed (not (same_key invitee a.invited_identity)) _ _ made in
    let (opened, signed) = stepped _ _ rest in
    let (m, y, z) = built_artifact w inviter invited sign input fresh i a built in
    let (invites, _) = verify_chat_invitation_sound w a t any_options opened in
    verify-sign_acceptance w a invitee accept (or_fresh id later.uuid) t
      (or_random given later.nonce) c b u i.created.read (some input.chat_cell_uuid) signed
      (not_is_false _ same) (built_for w inviter invited sign input fresh i a m z).0
      (ground (
        arith,
        -ℤ_parts i.created.read clock_skew,
        i.created.not_later,
        c.accepted.close,
        +ℤ_parts c.accepted.read (pos 1000000),
      ))
      after_then invites.unexpired
      (subst
        (λ x.
          verify_chat_invitation w a u (record {
            expected_chat_cell_uuid = some input.chat_cell_uuid;
            expected_inviter_uuid = some x;
          })
          ≡ ok tt)
        (sym (built_for w inviter invited sign input fresh i a m z).1)
        (verify-build_chat_invitation w inviter invited sign input fresh i a u built (omega arith)
          in_time))
