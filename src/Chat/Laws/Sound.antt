-- ===== src/Chat/Laws/Sound.antt =====
-- What holds of a chat between its calls, and how the invitations and the ledger keep it.
use go_cell_protocol.Prelude.{
  String, Bool, ◌≡◌, ◌≢◌, ◌⊎◌, ◌≤◌, false, [], ◌∷◌, none, some, ok, arith, str_eq, eq_iff, Dict,
  lookup, insert, remove, lookup-insert, lookup-remove, any, length, Option-cases, inl, inr, sym,
  ◌∙◌, ap, passed, not_is_false,
}
use mathlib.Core.Path.{subst}
use go_cell_protocol.Interop.Chat.{ChatInvitationArtifact, ChatInvitationAcceptance, ChatWire}
use go_cell_protocol.Interop.Chat.Laws.{Answers}
use go_cell_protocol.Chat.{ChatInvitation, Consumption, ChatCell}
use go_cell_protocol.Chat.Rows.{values}
use go_cell_protocol.Chat.Accept.{Handed, consume_once}

-- A record's acceptance, which the invited identity signed over the record's artifact.
pub record Taken (w : ChatWire) (uuid : String) (r : ChatInvitation) (b : ChatInvitationAcceptance)
    : Type 0 where
  pub artifact : ChatInvitationArtifact
  pub is_artifact : r.artifact ≡ some artifact
  pub invited : artifact.invited_identity.uuid ≡ uuid
  pub answers : Answers w b artifact

-- Every acceptance that a record holds was taken.
abbrev pub HoldsTaken : ChatWire → String → ChatInvitation → Type 0
HoldsTaken w uuid r = (b : ChatInvitationAcceptance) → r.acceptance ≡ some b → Taken w uuid r b

abbrev pub AllTaken : ChatWire → Dict ChatInvitation → Type 0
AllTaken w m = (uuid : String) (r : ChatInvitation) → lookup uuid m ≡ some r → HoldsTaken w uuid r

-- No acceptance consumed two invitations.
abbrev pub Once : Dict Consumption → Type 0
Once m =
    (i j : String) (x y : Consumption)
    → lookup i m ≡ some x
    → lookup j m ≡ some y
    → x.acceptance_id ≡ y.acceptance_id
    → i ≡ j

pub record Sound (w : ChatWire) (c : ChatCell) : Type 0 where
  pub bounded : length c.messages ≤ c.messages_limit
  pub taken : AllTaken w c.invitations
  pub once : Once c.consumed

-- What stands under a key of an extended map: the new value, or an old one.
module _ {V : Type 0} (k j : String) (v x : V) (m : Dict V) where
  pub found_in_insert :
      lookup j (insert k v m) ≡ some x → ((k ≡ j) × (v ≡ x)) ⊎ ((k ≢ j) × (lookup j m ≡ some x))
  found_in_insert h = let q = (rw (lookup-insert k j v m) at h) in ground (arith, eq_iff k j)

module _ {V : Type 0} (k j : String) (x : V) (m : Dict V) where
  pub found_in_remove : lookup j (remove k m) ≡ some x → lookup j m ≡ some x
  found_in_remove h = let q = (rw (lookup-remove k j m) at h) in ground arith

module _ (w : ChatWire) where
  pub insert-AllTaken :
      (uuid : String) (r : ChatInvitation) (m : Dict ChatInvitation)
      → HoldsTaken w uuid r
      → AllTaken w m
      → AllTaken w (insert uuid r m)
  insert-AllTaken uuid r m new old q x found = elim (found_in_insert uuid q r x m found) [
    | inl (k, v) ↦ subst (λ u. HoldsTaken w u x) k (subst (HoldsTaken w uuid) v new)
    | inr (_, f) ↦ old q x f
  ]

  -- A record without an acceptance holds none.
  pub none-HoldsTaken :
      (uuid : String) (r : ChatInvitation) → r.acceptance ≡ none → HoldsTaken w uuid r
  none-HoldsTaken uuid r h b q = absurd (cc)

  -- Another record with the same artifact and acceptance.
  pub same-HoldsTaken :
      (uuid : String) (r s : ChatInvitation)
      → s.artifact ≡ r.artifact
      → s.acceptance ≡ r.acceptance
      → HoldsTaken w uuid r
      → HoldsTaken w uuid s
  same-HoldsTaken uuid r s a c h b q =
      let t = h b (sym c ∙ q) in
      record {
        artifact = t.artifact;
        is_artifact = a ∙ t.is_artifact;
        invited = t.invited;
        answers = t.answers;
      }

pub insert-Once :
    (k : String) (x : Consumption) (m : Dict Consumption)
    → ((j : String) (y : Consumption)
        → lookup j m ≡ some y
        → y.acceptance_id ≡ x.acceptance_id
        → j ≡ k)
    → Once m
    → Once (insert k x m)
insert-Once k x m apart old i j y z p q same = elim (found_in_insert k i x y m p) [
  | inl (a, u) ↦ elim (found_in_insert k j x z m q) [
    | inl (b, v) ↦ sym a ∙ b
    | inr (_, f) ↦ sym a ∙ sym (apart j z f (sym same ∙ ap (λ t. t.acceptance_id) (sym u)))
  ]
  | inr (_, f) ↦ elim (found_in_insert k j x z m q) [
    | inl (b, v) ↦ apart i y f (same ∙ ap (λ t. t.acceptance_id) (sym v)) ∙ b
    | inr (_, g) ↦ old i j y z f g same
  ]
]

pub remove-Once : (k : String) (m : Dict Consumption) → Once m → Once (remove k m)
remove-Once k m old i j x y p q same =
    old i j x y (found_in_remove k i x m p) (found_in_remove k j y m q) same

-- A value that a map holds is among its values.
values-any :
    {V : Type 0} (p : V → Bool) (j : String) (y : V) (m : Dict V)
    → lookup j m ≡ some y
    → any p (values m) ≡ false
    → p y ≡ false
unfolding lookup
values-any p j y [] h n = absurd (cc)
values-any p j y ((k, v) ∷ m) h n = ground (arith, values-any p j y m)

-- An acceptance that passes consumes its own invitation, and no other.
pub consume_once-apart :
    (m : Dict Consumption) (h : Handed) (again : Bool)
    → Once m
    → consume_once m h ≡ ok again
    → (j : String) (y : Consumption) → lookup j m ≡ some y
    → y.acceptance_id ≡ h.acceptance.acceptance_id
    → j ≡ h.artifact.invitation_id
unfolding consume_once
consume_once-apart m h again old q j y found same =
    elim (Option-cases (lookup h.artifact.invitation_id m)) [
      | inl n ↦
          let (unspent, _) = passed _ _ _ ((rw (n, consume_once) at q)) in
          absurd (
            let apart =
              values-any
                (λ (row : Consumption). str_eq row.acceptance_id h.acceptance.acceptance_id) j y m
                found unspent in
            ground (arith, eq_iff y.acceptance_id h.acceptance.acceptance_id))
      | inr (row, n) ↦
          let (repeats, _) = passed _ _ _ ((rw (n, consume_once) at q)) in
          old j h.artifact.invitation_id y row found n
            (same ∙ sym ((eq_iff _ _).0 (not_is_false _ repeats)))
    ]

-- A chat without records holds no acceptance, and consumed none.
pub nil-Sound :
    (w : ChatWire) (c : ChatCell)
    → length c.messages ≤ c.messages_limit
    → Sound w (record c { invitations = []; consumed = [] })
unfolding lookup
nil-Sound w c h = record {
  bounded = h;
  taken = λ uuid r found. absurd (cc);
  once = λ i j x y found. absurd (cc);
}
