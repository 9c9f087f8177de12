-- ===== src/Chat/Laws/Ledger.antt =====
-- Inviting, issuing, accepting, revoking and storing keep what holds of a chat between its calls.
use go_cell_protocol.Prelude.{
  String, Bool, ◌≡◌, false, refl, List, [], ◌∷◌, ◌++◌, Option, none, some, Result, ok, err, arith,
  if◌then◌else◌, Dict, lookup, insert, Option-cases, inl, inr, sym, ap, str_eq,
}
use mathlib.Core.Path.{subst}
use go_cell_protocol.Value.{Value, Fields}
use go_cell_protocol.Identity.{Identity}
use go_cell_protocol.Interop.Chat.{ChatWire}
use go_cell_protocol.Interop.Chat.Build.{SignFunc}
use go_cell_protocol.Interop.Chat.{Descriptor, ChatInvitationArtifact}
use go_cell_protocol.Chat.{ChatPerson, ChatInvitation, ChatCell, ChatEnv}
use go_cell_protocol.Chat.Messages.{append_message, new_message, store}
use go_cell_protocol.Chat.Invitations.{
  with_invitations, invite_person, invite_all, invited_again, set_status, set_statuses,
  update_statuses, targets, known_all, answer_audience, refused,
}
use go_cell_protocol.Chat.Artifacts.{
  forget, reopened, issued_before, new_artifact, with_artifact, issue_new, issue_artifact,
  issue_all,
}
use go_cell_protocol.Chat.Accept.{
  Handed, accept_artifact, with_accepted, accepted_record, consumption,
}
use go_cell_protocol.Interop.Chat.Laws.{Answers}
use go_cell_protocol.Chat.Laws.Accept.{Accepted, accept_artifact_sound}
use go_cell_protocol.Chat.Laws.Frame.{Kept, Leaves, leaves, branch, store-Kept}
use go_cell_protocol.Chat.Laws.Log.{keep_latest-eq-latest, latest-le}
use go_cell_protocol.Chat.Laws.Sound.{
  Sound, AllTaken, HoldsTaken, Once, insert-AllTaken, none-HoldsTaken, same-HoldsTaken, insert-Once,
  remove-Once, consume_once-apart,
}

pub some_injective : {A : Type 0} {x y : A} → some x ≡ some y → x ≡ y
some_injective q = ground arith

module _ (w : ChatWire) where
  pub Kept-Sound : {c d : ChatCell} → Kept c d → Sound w c → Sound w d
  Kept-Sound {c} {d} k s = record {
    bounded = rw (k.messages, k.limit) s.bounded;
    taken = subst (AllTaken w) (sym k.invitations) s.taken;
    once = subst Once (sym k.consumed) s.once;
  }

  append_message-Sound :
      (e : ChatEnv) (c : ChatCell) (m : Fields) → Sound w c → Sound w (append_message e c m)
  unfolding append_message
  append_message-Sound e c m s = record {
    bounded = rw (keep_latest-eq-latest c.messages_limit (c.messages ++ m ∷ [])) (latest-le _ _);
    taken = s.taken;
    once = s.once;
  }

  pub store-Sound :
      (e : ChatEnv) (c : ChatCell) (body content_type topic : String) (requester : Option Identity)
      → Sound w c
      → Sound w (store e c body content_type topic requester).0
  store-Sound e c body content_type topic requester s =
      Kept-Sound (store-Kept e c body content_type topic requester)
        (append_message-Sound e c (new_message e c body content_type topic requester) s)

  with_invitations-Sound :
      (c : ChatCell) (m : Dict ChatInvitation)
      → AllTaken w m
      → Sound w c
      → Sound w (with_invitations c m)
  with_invitations-Sound c m t s = record { bounded = s.bounded; taken = t; once = s.once }

  invite_person-Sound :
      (e : ChatEnv) (c : ChatCell) (p : ChatPerson) → Sound w c → Sound w (invite_person e c p)
  unfolding invite_person
  invite_person-Sound e c p s = branch (Sound w) _ _ _ s (
      with_invitations-Sound c _
        (insert-AllTaken w p.uuid _ c.invitations
          (none-HoldsTaken w p.uuid _ (cleared (lookup p.uuid c.invitations))) s.taken)
        s)
    where
      cleared : (o : Option ChatInvitation) → (invited_again e p o).acceptance ≡ none
      cleared none = refl
      cleared (some r) = refl

  pub invite_all-Sound :
      (e : ChatEnv) (l : List ChatPerson) (c : ChatCell) → Sound w c → Sound w (invite_all e c l)
  unfolding invite_all
  invite_all-Sound e [] c s = s
  invite_all-Sound e (p ∷ l) c s =
      invite_all-Sound e l (invite_person e c p) (invite_person-Sound e c p s)

  set_statuses-AllTaken :
      (e : ChatEnv) (status : String) (l : List String) (m : Dict ChatInvitation)
      → AllTaken w m
      → AllTaken w (set_statuses e status l m)
  unfolding set_statuses
  set_statuses-AllTaken e status [] m h = h
  set_statuses-AllTaken e status (u ∷ l) m h =
      set_statuses-AllTaken e status l _ (elim (Option-cases (lookup u m)) [
        | inl n ↦ rw n h
        | inr (r, n) ↦ rw n (
            insert-AllTaken w u (set_status e status r) m
              (same-HoldsTaken w u r _ refl refl (h u r n)) h)
      ])

  pub update_statuses-Sound :
      (e : ChatEnv) (c : ChatCell) (v : Value) (status : String)
      → Sound w c
      → Leaves (Sound w) (update_statuses e c v status)
  unfolding update_statuses
  update_statuses-Sound e c v status s = targeted (targets e c v false)
    where
      targeted :
          (o : Option (List String × Bool))
          → Leaves (Sound w) (elim o as (λ o. ChatCell × Value) [
            | none ↦ (c, refused "invalid invitation target payload")
            | some (uuids, _) ↦
                if known_all e c uuids
                then answer_audience e
                    (with_invitations c (set_statuses e status uuids c.invitations))
                else (c, refused "invitation targets must all reference known invitation records")
          ])
      targeted none = leaves (Sound w) c _ s
      targeted (some (uuids, _)) =
          branch (Leaves (Sound w)) (known_all e c uuids) _ _
            (leaves (Sound w) _ _ (
              with_invitations-Sound c _
                (set_statuses-AllTaken e status uuids c.invitations s.taken) s))
            (leaves (Sound w) c _ s)

  with_artifact-Sound :
      (e : ChatEnv) (c : ChatCell) (uuid : String) (r : ChatInvitation) (a : ChatInvitationArtifact)
      → Sound w c
      → Sound w (with_artifact e c uuid r a)
  with_artifact-Sound e c uuid r a s = record {
    bounded = s.bounded;
    taken = insert-AllTaken w uuid _ c.invitations (none-HoldsTaken w uuid _ refl) s.taken;
    once = forgotten r.artifact;
  }
    where
      forgotten : (o : Option ChatInvitationArtifact) → Once (forget o c.consumed)
      forgotten none = s.once
      forgotten (some a) = remove-Once a.invitation_id c.consumed s.once

  issue_artifact-Sound :
      (e : ChatEnv) (sign : SignFunc) (owner : Descriptor) (c : ChatCell) (uuid : String)
      (r : ChatInvitation)
      → lookup uuid c.invitations ≡ some r
      → Sound w c
      → Leaves (Sound w) (issue_artifact e sign owner c uuid r)
  unfolding issue_artifact issue_new
  issue_artifact-Sound e sign owner c uuid r found s =
      issued (issued_before e r) (new_artifact e c uuid sign owner (reopened r))
    where
      same : HoldsTaken w uuid (reopened r)
      same =
          branch (HoldsTaken w uuid) (str_eq r.status "declined") _ _
            (same-HoldsTaken w uuid r _ refl refl (s.taken uuid r found)) (s.taken uuid r found)

      fresh :
          (o : Result ChatInvitationArtifact)
          → Leaves (Sound w) (elim o as (λ o. ChatCell × Result ChatInvitationArtifact) [
            | err x ↦ (with_invitations c (insert uuid (reopened r) c.invitations), err x)
            | ok a ↦ (with_artifact e c uuid (reopened r) a, ok a)
          ])
      fresh (err x) = leaves (Sound w) _ _ (
          with_invitations-Sound c _
            (insert-AllTaken w uuid (reopened r) c.invitations same s.taken) s)
      fresh (ok a) = leaves (Sound w) _ _ (with_artifact-Sound e c uuid (reopened r) a s)

      issued :
          (o : Option ChatInvitationArtifact) (n : Result ChatInvitationArtifact)
          → Leaves (Sound w) (elim o as (λ o. ChatCell × Result ChatInvitationArtifact) [
            | some a ↦ (c, ok a)
            | none ↦ elim n as (λ o. ChatCell × Result ChatInvitationArtifact) [
              | err x ↦ (with_invitations c (insert uuid (reopened r) c.invitations), err x)
              | ok a ↦ (with_artifact e c uuid (reopened r) a, ok a)
            ]
          ])
      issued (some a) n = leaves (Sound w) c (ok a) s
      issued none n = fresh n

  pub issue_all-Sound :
      (e : ChatEnv) (sign : SignFunc) (owner : Descriptor) (l : List String) (c : ChatCell)
      (out : List Value)
      → Sound w c
      → Leaves (Sound w) (issue_all e sign owner c l out)
  unfolding issue_all
  issue_all-Sound e sign owner [] c out s = leaves (Sound w) c _ s
  issue_all-Sound e sign owner (uuid ∷ l) c out s =
      elim (Option-cases (lookup uuid c.invitations)) [
        | inl n ↦ rw (n, issue_all) (leaves (Sound w) c _ s)
        | inr (r, n) ↦
            rw (n, issue_all)
              (go (issue_artifact e sign owner c uuid r)
                (issue_artifact-Sound e sign owner c uuid r n s)
                (λ d a h. issue_all-Sound e sign owner l d (out ++ e.artifact_json a ∷ []) h))
      ]
    where
      go :
          (answer : ChatCell × Result ChatInvitationArtifact)
          → Leaves (Sound w) answer
          → ((d : ChatCell) (a : ChatInvitationArtifact)
              → Sound w d
              → Leaves (Sound w) (issue_all e sign owner d l (out ++ e.artifact_json a ∷ [])))
          → Leaves (Sound w) (elim answer.1 as (λ o. ChatCell × Value) [
            | err x ↦ (answer.0, refused x)
            | ok a ↦ issue_all e sign owner answer.0 l (out ++ e.artifact_json a ∷ [])
          ])
      go (d, err x) h rest = leaves (Sound w) d _ h.chat
      go (d, ok a) h rest = rest d a h.chat

  with_accepted-Sound :
      (e : ChatEnv) (c : ChatCell) (h : Handed) (r : ChatInvitation) (again : Bool)
      → e.wire ≡ w
      → Accepted e c h r again
      → Sound w c
      → Sound w (with_accepted e c h r)
  unfolding with_accepted
  with_accepted-Sound e c h r again same accepted s = record {
    bounded = s.bounded;
    taken =
        insert-AllTaken w h.artifact.invited_identity.uuid (accepted_record e h r) c.invitations
          taken s.taken;
    once =
        insert-Once h.artifact.invitation_id (consumption e h) c.consumed
          (consume_once-apart c.consumed h again s.once accepted.consumes) s.once;
  }
    where
      taken : HoldsTaken w h.artifact.invited_identity.uuid (accepted_record e h r)
      taken b q = record {
        artifact = h.artifact;
        is_artifact = refl;
        invited = refl;
        answers =
            subst (λ b'. Answers w b' h.artifact) (some_injective q)
              (subst (λ v. Answers v h.acceptance h.artifact) same accepted.answers);
      }

  pub accept_artifact-Sound :
      (e : ChatEnv) (c : ChatCell) (v : Value)
      → e.wire ≡ w
      → Sound w c
      → Leaves (Sound w) (accept_artifact e c v)
  accept_artifact-Sound e c v same s = elim (accept_artifact_sound e c v) [
    | inl unchanged ↦ record { chat = subst (Sound w) (sym unchanged) s }
    | inr (h, r, again, _, accepted, q) ↦ record {
      chat =
          subst (Sound w) (sym (ap (λ a. a.0) q))
            (with_accepted-Sound e c h r again same accepted s);
    }
  ]
