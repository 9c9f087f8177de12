-- ===== src/Chat/Laws/Proof.antt =====
-- What an identity has proven for whom a chat's condition `invitationAccepted` holds.
use go_cell_protocol.Prelude.{
  ◌≡◌, true, refl, ◌&&◌, Option, none, some, str_eq, eq_iff, lookup, is_ok, &&_true, Option-cases,
  Bool-cases, Result, ok, err, inl, inr, sym, ◌∙◌, ap,
}
use mathlib.Core.Path.{subst}
use go_cell_protocol.Identity.{Identity}
use go_cell_protocol.Interop.Chat.{
  ChatInvitationArtifact, ChatInvitationAcceptance, ChatWire, any_options,
}
use go_cell_protocol.Interop.Chat.Laws.{Answers, Invites, verify_chat_invitation_sound}
use go_cell_protocol.Chat.{ChatPerson, ChatInvitation, Consumption, ChatCell, ChatEnv}
use go_cell_protocol.Chat.People.{matches}
use go_cell_protocol.Chat.Admission.{
  member_for, accepted_person, accepted_by_proof, proof_of, admission_condition_holds,
}
use go_cell_protocol.Chat.Laws.Sound.{Sound}
use go_cell_protocol.Chat.Laws.Ledger.{some_injective}
use go_cell_protocol.Chat.Laws.Life.{Reachable, Reachable-Sound}

-- An accepted record of an identity, whose invitation its key accepted, is open, and was consumed
-- so.
pub record HasProven (w : ChatWire) (e : ChatEnv) (c : ChatCell) (requester : Identity)
    : Type 0 where
  pub invitation : ChatInvitation
  pub recorded : lookup requester.uuid c.invitations ≡ some invitation
  pub is_accepted : invitation.status ≡ "accepted"
  pub is_person : matches e invitation.person (some requester) ≡ true
  pub artifact : ChatInvitationArtifact
  pub acceptance : ChatInvitationAcceptance
  pub row : Consumption
  pub has_artifact : invitation.artifact ≡ some artifact
  pub has_acceptance : invitation.acceptance ≡ some acceptance
  pub invited : artifact.invited_identity.uuid ≡ requester.uuid
  pub answers : Answers w acceptance artifact
  pub invites : Invites e.wire artifact e.env.now
  pub consumed : lookup artifact.invitation_id c.consumed ≡ some row
  pub by_it : row.acceptance_id ≡ acceptance.acceptance_id

module _ (e : ChatEnv) (c : ChatCell) where
  matches_uuid :
      (p : ChatPerson) (requester : Identity)
      → matches e p (some requester) ≡ true
      → requester.uuid ≡ p.uuid
  unfolding matches
  matches_uuid p requester h = elim (Option-cases p.descriptor) [
    | inl n ↦ absurd (let q = (rw (n, matches) at h) in cc)
    | inr (d, n) ↦ (eq_iff _ _).0 (&&_true _ _ ((rw (n, matches) at h))).0
  ]

  member_uuid :
      (requester : Identity) (p : ChatPerson)
      → member_for e c (some requester) ≡ some p
      → requester.uuid ≡ p.uuid
  unfolding member_for
  member_uuid requester p h = named (lookup requester.uuid c.invitations) h
    where
      named :
          (o : Option ChatInvitation)
          → accepted_person e (some requester) o ≡ some p
          → requester.uuid ≡ p.uuid
      named none h = absurd (cc)
      named (some r) h =
          elim (Bool-cases (str_eq r.status "accepted" && matches e r.person (some requester))) [
            | inl y ↦
                matches_uuid r.person requester (&&_true _ _ y).1
                ∙ ap (λ q. q.uuid) (some_injective ((rw y at h)))
            | inr n ↦ absurd (let q = (rw n at h) in cc)
          ]

  holds_parts :
      (requester : Identity)
      → admission_condition_holds e c "invitationAccepted" (some requester) ≡ true
      → proof_of e c (lookup requester.uuid c.invitations) ≡ true
  unfolding admission_condition_holds
  holds_parts requester h = elim (Option-cases (member_for e c (some requester))) [
    | inl n ↦ absurd (let q = (rw (n, admission_condition_holds) at h) in cc)
    | inr (p, n) ↦
        subst (λ u. proof_of e c (lookup u c.invitations) ≡ true) (sym (member_uuid requester p n))
          (rw (n, admission_condition_holds) at h)
  ]

  -- The record of an identity for whom the condition holds is accepted, and is its own.
  accepted_member :
      (requester : Identity) (r : ChatInvitation)
      → lookup requester.uuid c.invitations ≡ some r
      → admission_condition_holds e c "invitationAccepted" (some requester) ≡ true
      → (r.status ≡ "accepted") × (matches e r.person (some requester) ≡ true)
  unfolding admission_condition_holds member_for
  accepted_member requester r found h =
      elim (Bool-cases (str_eq r.status "accepted" && matches e r.person (some requester))) [
        | inl y ↦ let (status, key) = &&_true _ _ y in ((eq_iff _ _).0 status, key)
        | inr n ↦ absurd (let q = (rw (member_for, found, n, admission_condition_holds) at h) in cc)
      ]

  consumed_row :
      (a : ChatInvitationArtifact) (b : ChatInvitationAcceptance)
      → accepted_by_proof e c (some a) (some b) ≡ true
      → Invites e.wire a e.env.now
        × ((row : Consumption) × (lookup a.invitation_id c.consumed ≡ some row)
            × (row.acceptance_id ≡ b.acceptance_id))
  consumed_row a b h = elim (Option-cases (lookup a.invitation_id c.consumed)) [
    | inl n ↦ absurd (let q = (rw (n, accepted_by_proof) at h) in cc)
    | inr (row, n) ↦
        let (same, verified) = &&_true _ _ ((rw (n, accepted_by_proof) at h)) in
        (
          (verify_chat_invitation_sound e.wire a e.env.now any_options (passes _ verified)).0,
          (row, n, (eq_iff _ _).0 same),
        )
  ]
    where
      passes : (r : Result (Unit {0})) → is_ok r ≡ true → r ≡ ok tt
      passes (ok x) h = refl
      passes (err x) h = absurd (cc)

  proof_parts :
      (w : ChatWire) (requester : Identity) (r : ChatInvitation)
      → Sound w c
      → lookup requester.uuid c.invitations ≡ some r
      → (r.status ≡ "accepted") × (matches e r.person (some requester) ≡ true)
      → (o : Option ChatInvitationArtifact) (p : Option ChatInvitationAcceptance) → r.artifact ≡ o
      → r.acceptance ≡ p
      → accepted_by_proof e c o p ≡ true
      → HasProven w e c requester
  proof_parts w requester r s found member none p i j h = absurd (cc)
  proof_parts w requester r s found member (some a) none i j h = absurd (cc)
  proof_parts w requester r s found member (some a) (some b) i j h =
      let taken = s.taken requester.uuid r found b j in
      let same : taken.artifact ≡ a = some_injective (sym taken.is_artifact ∙ i) in
      let (invites, (row, consumed, by_it)) = consumed_row a b h in
      record {
        invitation = r;
        recorded = found;
        is_accepted = member.0;
        is_person = member.1;
        has_artifact = i;
        has_acceptance = j;
        artifact = a;
        acceptance = b;
        row = row;
        invited = sym (ap (λ x. x.invited_identity.uuid) same) ∙ taken.invited;
        answers = subst (Answers w b) same taken.answers;
        invites = invites;
        consumed = consumed;
        by_it = by_it;
      }

-- In a chat that calls have brought about, the condition `invitationAccepted` holds for an
-- identity only if the chat's record for its UUID has the status `accepted` and its key, and holds
-- both an invitation of the UUID, which is signed by its inviter and open now, and an acceptance
-- that the invited key signed over that invitation, and the ledger says that this acceptance
-- consumed it.
pub admission-HasProven :
    {w : ChatWire} (e : ChatEnv) (c : ChatCell) (requester : Identity)
    → Reachable w c
    → admission_condition_holds e c "invitationAccepted" (some requester) ≡ true
    → HasProven w e c requester
admission-HasProven {w} e c requester reached h =
    let proof = holds_parts e c requester h in
    elim (Option-cases (lookup requester.uuid c.invitations)) [
      | inl n ↦ absurd (let q = (rw n at proof) in cc)
      | inr (r, n) ↦
          proof_parts e c w requester r (Reachable-Sound reached) n
            (accepted_member e c requester r n h) r.artifact r.acceptance refl refl (rw n at proof)
    ]
