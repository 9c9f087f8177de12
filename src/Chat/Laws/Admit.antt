-- ===== src/Chat/Laws/Admit.antt =====
-- From an invitation and an acceptance that were built to the admission of the invited identity.
use go_cell_protocol.Prelude.{
  String, ◌≡◌, true, false, refl, Option, some, ok, arith, eq_iff, eq_refl, lookup, ◌∙◌,
  lookup-insert_self, sym,
}
use mathlib.Core.Path.{subst}
use go_cell_protocol.Prelude.Int.{ℤ, pos, ◌+ℤ◌, ◌≤ℤ◌}
use go_cell_protocol.Value.{Value}
use go_cell_protocol.Identity.{Bytes, Identity}
use go_cell_protocol.Interop.Channel.Server.Identity.{same_bytes_refl}
use go_cell_protocol.Interop.Chat.{
  ChatInvitationArtifact, ChatInvitationAcceptance, any_options, verify_chat_invitation,
  verify_chat_acceptance,
}
use go_cell_protocol.Interop.Chat.Laws.{verify-any_options}
use go_cell_protocol.Interop.Chat.{Descriptor}
use go_cell_protocol.Interop.Chat.Build.{
  SignFunc, ChatInvitationInput, Fresh, or_random, build_chat_invitation, build_chat_acceptance,
  chat_invitation_lifetime,
}
use go_cell_protocol.Interop.Chat.RoundTrip.{Inviting, verify-build_chat_invitation}
use go_cell_protocol.Interop.Chat.Acceptances.{Accepting}
use go_cell_protocol.Interop.Chat.Acceptances.{verify-build_chat_acceptance}
use go_cell_protocol.Chat.{ChatInvitation, Consumption, ChatCell, ChatEnv}
use go_cell_protocol.Chat.People.{matches}
use go_cell_protocol.Cell.Contracts.Admission.Access.{at_time}
use go_cell_protocol.Chat.Admission.{member_for, accepted_by_proof, admission_condition_holds}
use go_cell_protocol.Chat.Accept.{
  Handed, chat_options, consume_once, handed_from, still_current, acceptable, with_accepted,
  accepted_record, consumption, accept_artifact,
}

-- An invitation that its ledger row and its signature bear out.
borne_out :
    (e : ChatEnv) (c : ChatCell) (a : ChatInvitationArtifact) (b : ChatInvitationAcceptance)
    (row : Consumption)
    → lookup a.invitation_id c.consumed ≡ some row
    → row.acceptance_id ≡ b.acceptance_id
    → verify_chat_invitation e.wire a e.env.now any_options ≡ ok tt
    → accepted_by_proof e c (some a) (some b) ≡ true
borne_out e c a b row found same v = ground (arith, eq_iff row.acceptance_id b.acceptance_id)

-- The outside world of a chat at another time.
abbrev pub chat_at : ChatEnv → ℤ → ChatEnv
chat_at e t = record e { env = at_time e.env t }

-- A later chat that still has the record and the ledger row of an acceptance.
pub record Keeps (after later : ChatCell) (h : Handed) : Type 0 where
  pub same_record :
      lookup h.artifact.invited_identity.uuid later.invitations
      ≡ lookup h.artifact.invited_identity.uuid after.invitations
  pub same_row :
      lookup h.artifact.invitation_id later.consumed
      ≡ lookup h.artifact.invitation_id after.consumed

member_admitted :
    (e : ChatEnv) (c : ChatCell) (requester : Identity) (r : ChatInvitation)
    → lookup requester.uuid c.invitations ≡ some r
    → r.status ≡ "accepted"
    → matches e r.person (some requester) ≡ true
    → member_for e c (some requester) ≡ some r.person
unfolding member_for
member_admitted e c requester r found accepted key = rw (found, key, member_for) (rw accepted refl)

module _ (e : ChatEnv) (c : ChatCell) (h : Handed) (r : ChatInvitation) (requester : Identity) where
  -- The requester is the person of the record, which is the invited identity's.
  pub record Invitee : Type 0 where
    pub named : requester.uuid ≡ h.artifact.invited_identity.uuid
    pub is_person : r.person.uuid ≡ h.artifact.invited_identity.uuid
    pub has_key : matches e r.person (some requester) ≡ true

  found_at :
      (later : ChatCell) (uuid : String)
      → Keeps (with_accepted e c h r) later h
      → uuid ≡ h.artifact.invited_identity.uuid
      → lookup uuid later.invitations ≡ some (accepted_record e h r)
  unfolding with_accepted
  found_at later uuid k same = rw (same, k.same_record, lookup-insert_self) refl

  ledger_has :
      (later : ChatCell)
      → Keeps (with_accepted e c h r) later h
      → lookup h.artifact.invitation_id later.consumed ≡ some (consumption e h)
  unfolding with_accepted
  ledger_has later k = k.same_row ∙ lookup-insert_self h.artifact.invitation_id _ c.consumed

  with_accepted-admits :
      (t : ℤ) (later : ChatCell)
      → Keeps (with_accepted e c h r) later h
      → verify_chat_invitation e.wire h.artifact t any_options ≡ ok tt
      → Invitee
      → admission_condition_holds (chat_at e t) later "invitationAccepted" (some requester) ≡ true
  unfolding admission_condition_holds member_for matches
  with_accepted-admits t later k v i =
      rw
        (
          member_admitted (chat_at e t) later requester (accepted_record e h r)
              (found_at later requester.uuid k i.named) refl i.has_key,
          admission_condition_holds,
          found_at later r.person.uuid k i.is_person,
        )
        (borne_out (chat_at e t) later h.artifact h.acceptance _ (ledger_has later k) refl v)

-- The chat still waits for the acceptance of the artifact: it keeps it for the person, and neither
-- the invitation nor the acceptance was used.
pub record Awaits (e : ChatEnv) (c : ChatCell) (h : Handed) (r : ChatInvitation) : Type 0 where
  pub recorded : lookup h.artifact.invited_identity.uuid c.invitations ≡ some r
  pub is_held : r.artifact ≡ some h.artifact
  pub pending : r.status ≡ "pending"
  pub unused : consume_once c.consumed h ≡ ok false

still_current_complete :
    (e : ChatEnv) (c : ChatCell) (h : Handed) (r : ChatInvitation)
    → Awaits e c h r
    → still_current e r h ≡ ok tt
unfolding still_current
still_current_complete e c h r a =
    rw (a.is_held, still_current)
      (rw (eq_refl h.artifact.invitation_id, same_bytes_refl, a.pending) refl)

acceptable_complete :
    (e : ChatEnv) (c : ChatCell) (h : Handed) (r : ChatInvitation)
    → verify_chat_invitation e.wire h.artifact e.env.now (chat_options c) ≡ ok tt
    → verify_chat_acceptance e.wire h.acceptance h.artifact e.env.now (some c.cell.uuid) ≡ ok tt
    → Awaits e c h r
    → acceptable e c h ≡ ok (r, false)
unfolding acceptable
acceptable_complete e c h r v w a =
    rw (v, w, a.recorded, still_current_complete e c h r a, a.unused) refl

le_trans_ℤ : (a b c : ℤ) → a ≤ℤ b → b ≤ℤ c → a ≤ℤ c
le_trans_ℤ a b c x y = omega arith

-- The invitation and the acceptance that are handed in were built by their signers, in time.
pub record BuiltFor (e : ChatEnv) (c : ChatCell) (h : Handed) (input : ChatInvitationInput)
    : Type 0 where
  pub inviter : Descriptor
  pub invited : Descriptor
  pub invitee : Descriptor
  pub sign : SignFunc
  pub accept : SignFunc
  pub fresh : Fresh
  pub later : Fresh
  pub id : String
  pub given : Option Bytes
  pub accepted_at : ℤ
  pub inviting : Inviting e.wire inviter sign input fresh
  pub accepting : Accepting e.wire invitee accept accepted_at (or_random given later.nonce)
  pub built : build_chat_invitation e.wire inviter invited sign input fresh ≡ ok h.artifact
  pub made :
      build_chat_acceptance e.wire h.artifact invitee accept id accepted_at given later
      ≡ ok h.acceptance
  pub before : input.now ≤ℤ accepted_at
  pub after_then : accepted_at ≤ℤ e.env.now
  pub in_time : e.env.now +ℤ pos 1000000 ≤ℤ input.now +ℤ chat_invitation_lifetime
  pub this_cell : c.cell.uuid ≡ input.chat_cell_uuid
  pub by_owner : chat_options c ≡ record {
    expected_chat_cell_uuid = some input.chat_cell_uuid;
    expected_inviter_uuid = some inviter.uuid;
  }

BuiltFor-acceptable :
    (e : ChatEnv) (c : ChatCell) (h : Handed) (input : ChatInvitationInput) (r : ChatInvitation)
    → BuiltFor e c h input
    → Awaits e c h r
    → acceptable e c h ≡ ok (r, false)
BuiltFor-acceptable e c h input r b a =
    acceptable_complete e c h r
      (subst (λ o. verify_chat_invitation e.wire h.artifact e.env.now o ≡ ok tt) (sym b.by_owner)
        (verify-build_chat_invitation e.wire b.inviter b.invited b.sign input b.fresh b.inviting
          h.artifact e.env.now b.built
          (le_trans_ℤ input.now b.accepted_at e.env.now b.before b.after_then) b.in_time))
      (subst (λ x. verify_chat_acceptance e.wire h.acceptance h.artifact e.env.now (some x) ≡ ok tt)
        (sym b.this_cell)
        (verify-build_chat_acceptance e.wire b.inviter b.invited b.invitee b.sign b.accept input
          b.fresh b.later b.id b.given b.accepted_at e.env.now h.artifact h.acceptance b.inviting
          b.accepting b.built b.made b.before b.after_then b.in_time))
      a

BuiltFor-verifies :
    (e : ChatEnv) (c : ChatCell) (h : Handed) (input : ChatInvitationInput)
    (b : BuiltFor e c h input) (t : ℤ)
    → e.env.now ≤ℤ t
    → t +ℤ pos 1000000 ≤ℤ input.now +ℤ chat_invitation_lifetime
    → verify_chat_invitation e.wire h.artifact t any_options ≡ ok tt
BuiltFor-verifies e c h input b t from until = verify-any_options e.wire h.artifact t _ (
    verify-build_chat_invitation e.wire b.inviter b.invited b.sign input b.fresh b.inviting
      h.artifact t b.built
      (le_trans_ℤ input.now b.accepted_at t b.before
        (le_trans_ℤ b.accepted_at e.env.now t b.after_then from))
      until)

accept_artifact_taken :
    (e : ChatEnv) (c : ChatCell) (v : Value) (h : Handed) (r : ChatInvitation)
    → handed_from e v ≡ some h
    → acceptable e c h ≡ ok (r, false)
    → (accept_artifact e c v).0 ≡ with_accepted e c h r
unfolding accept_artifact
accept_artifact_taken e c v h r n q = rw (n, q, accept_artifact) refl

-- An invitation that the owner of a chat built for it, and an acceptance that the invited identity
-- built within its seven days, are accepted when they are handed in while the chat still waits for
-- them. From then on until a millisecond before the seven days are over, they admit the invited
-- identity in every later chat that still has the record and the ledger row of the acceptance, if
-- signatures verify under their signers' keys and times are read back to the millisecond.
pub accept_artifact-admits :
    (e : ChatEnv) (c : ChatCell) (v : Value) (h : Handed) (r : ChatInvitation)
    (requester : Identity) (input : ChatInvitationInput) (t : ℤ) (later : ChatCell)
    → handed_from e v ≡ some h
    → BuiltFor e c h input
    → Awaits e c h r
    → Invitee e c h r requester
    → e.env.now ≤ℤ t
    → t +ℤ pos 1000000 ≤ℤ input.now +ℤ chat_invitation_lifetime
    → Keeps (accept_artifact e c v).0 later h
    → ((accept_artifact e c v).0 ≡ with_accepted e c h r)
      × (admission_condition_holds (chat_at e t) later "invitationAccepted" (some requester) ≡ true)
accept_artifact-admits e c v h r requester input t later n b a i from until k =
    let taken = accept_artifact_taken e c v h r n (BuiltFor-acceptable e c h input r b a) in
    (
      taken,
      with_accepted-admits e c h r requester t later (subst (λ after. Keeps after later h) taken k)
          (BuiltFor-verifies e c h input b t from until) i,
    )
