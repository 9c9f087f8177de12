-- ===== src/Chat/Laws/Accept.antt =====
-- An acceptance is taken behind all its guards, and admits the invited identity.
use go_cell_protocol.Prelude.{
  Bool, ◌≡◌, ◌≢◌, refl, not, ◌⊎◌, inl, inr, ◌&&◌, Option, none, some, Result, ok, err, arith,
  str_eq, eq_iff, Option-cases, Result-cases, passed, stepped, not_is_false, lookup, &&_true, ◌>>◌,
  ap,
}
use go_cell_protocol.Value.{Value}
use go_cell_protocol.Interop.Channel.{same_bytes}
use go_cell_protocol.Interop.Channel.Server.Identity.{same_bytes_iff}
use go_cell_protocol.Interop.Chat.{ChatInvitationArtifact, invitation_hash}
use go_cell_protocol.Interop.Chat.Laws.{
  Answers, Invites, Fits, verify_chat_invitation_sound, verify_chat_acceptance_sound,
}
use go_cell_protocol.Chat.{ChatInvitation, ChatCell, ChatEnv}
use go_cell_protocol.Chat.Invitations.{hash_or_nil}
use go_cell_protocol.Chat.Accept.{
  Handed, chat_options, consume_once, handed_from, still_current, paired, acceptable, with_accepted,
  accept_artifact, accepted_answer,
}

-- The record's artifact is the one that was handed in, and is not revoked or declined.
pub record Current (e : ChatEnv) (r : ChatInvitation) (h : Handed) : Type 0 where
  pub held : ChatInvitationArtifact
  pub is_held : r.artifact ≡ some held
  pub same_id : held.invitation_id ≡ h.artifact.invitation_id
  pub same_hash :
      hash_or_nil (invitation_hash e.wire held) ≡ hash_or_nil (invitation_hash e.wire h.artifact)
  pub unrevoked : r.status ≢ "revoked"
  pub undeclined : r.status ≢ "declined"

-- All that `acceptArtifact` has found out when it takes an acceptance.
pub record Accepted (e : ChatEnv) (c : ChatCell) (h : Handed) (r : ChatInvitation) (again : Bool)
    : Type 0 where
  pub answers : Answers e.wire h.acceptance h.artifact
  pub invites : Invites e.wire h.artifact e.env.now
  pub fits : Fits h.artifact (chat_options c)
  pub recorded : lookup h.artifact.invited_identity.uuid c.invitations ≡ some r
  pub current : Current e r h
  pub consumes : consume_once c.consumed h ≡ ok again

still_current_sound :
    (e : ChatEnv) (r : ChatInvitation) (h : Handed) → still_current e r h ≡ ok tt → Current e r h
unfolding still_current
still_current_sound e r h q = elim (Option-cases r.artifact) [
  | inl n ↦ absurd (let x = (rw (n, still_current) at q) in cc)
  | inr (held, n) ↦
      let x = (rw (n, still_current) at q) in
      let (same, y) =
        passed
          (not (
            str_eq held.invitation_id h.artifact.invitation_id
            && same_bytes (hash_or_nil (invitation_hash e.wire held))
                (hash_or_nil (invitation_hash e.wire h.artifact))))
          _ _ x in
      let (i, g) = &&_true _ _ (not_is_false _ same) in
      let (no_revoked, z) = passed (str_eq r.status "revoked") _ _ y in
      let (no_declined, _) = passed (str_eq r.status "declined") _ _ z in
      record {
        held = held;
        is_held = n;
        same_id = (eq_iff _ _).0 i;
        same_hash = (same_bytes_iff _ _).0 g;
        unrevoked = λ s. ground (arith, eq_iff r.status "revoked");
        undeclined = λ s. ground (arith, eq_iff r.status "declined");
      }
]

module _ (e : ChatEnv) (c : ChatCell) (h : Handed) where
  -- The last checks, on the record that was found.
  abbrev last_checks : Option ChatInvitation → Result (ChatInvitation × Bool)
  last_checks none = err "invitation record not found for artifact"
  last_checks (some r) = still_current e r h >> paired r (consume_once c.consumed h)

  paired_sound :
      (r' : ChatInvitation) (o : Result Bool) (r : ChatInvitation) (again : Bool)
      → paired r' o ≡ ok (r, again)
      → (r' ≡ r) × (o ≡ ok again)
  paired_sound r' (err x) r again q = cc
  paired_sound r' (ok a) r again q = ground arith

  last_checks_sound :
      (o : Option ChatInvitation) (r : ChatInvitation) (again : Bool)
      → last_checks o ≡ ok (r, again)
      → (o ≡ some r) × Current e r h × (consume_once c.consumed h ≡ ok again)
  last_checks_sound none r again q = cc
  last_checks_sound (some r') r again q =
      let (x, y) = stepped _ _ q in
      let (same, z) = paired_sound r' (consume_once c.consumed h) r again y in
      (ap some same, rw same at (still_current_sound e r' h x), z)

  pub acceptable_sound :
      (r : ChatInvitation) (again : Bool)
      → acceptable e c h ≡ ok (r, again)
      → Accepted e c h r again
  unfolding acceptable
  acceptable_sound r again q =
      let (x, y) = stepped _ _ q in
      let (v, w) = stepped _ _ x in
      let (invites, fits) = verify_chat_invitation_sound e.wire h.artifact e.env.now _ v in
      let (answers, _, _) =
        verify_chat_acceptance_sound e.wire h.acceptance h.artifact e.env.now (some c.cell.uuid)
          w in
      let (found, current, consumes) =
        last_checks_sound (lookup h.artifact.invited_identity.uuid c.invitations) r again y in
      record {
        answers = answers;
        invites = invites;
        fits = fits;
        recorded = found;
        current = current;
        consumes = consumes;
      }

-- The chat stays as it is, or an acceptance is taken from the payload, behind all the guards.
abbrev pub AcceptOutcome : ChatEnv → ChatCell → Value → Type 0
AcceptOutcome e c v =
    ((accept_artifact e c v).0 ≡ c)
    ⊎ ((h : Handed) × (r : ChatInvitation) × (again : Bool) × (handed_from e v ≡ some h)
        × Accepted e c h r again
        × (accept_artifact e c v
            ≡ (with_accepted e c h r, accepted_answer e (with_accepted e c h r) h r again)))

pub accept_artifact_sound : (e : ChatEnv) (c : ChatCell) (v : Value) → AcceptOutcome e c v
unfolding accept_artifact
accept_artifact_sound e c v = elim (Option-cases (handed_from e v)) [
  | inl n ↦ inl (rw (n, accept_artifact) refl)
  | inr (h, n) ↦ elim (Result-cases (acceptable e c h)) [
    | inr (x, q) ↦ inl (rw (n, q, accept_artifact) refl)
    | inl (p, q) ↦
        inr (h, p.0, p.1, n, acceptable_sound e c h p.0 p.1 q, rw (n, q, accept_artifact) refl)
  ]
]
