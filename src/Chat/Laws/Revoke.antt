-- ===== src/Chat/Laws/Revoke.antt =====
-- Revoking an invitation ends the membership that it gave.
use go_cell_protocol.Prelude.{
  String, Bool, ◌≡◌, true, false, refl, List, [], ◌∷◌, Option, none, some, str_eq, eq_iff, Dict,
  lookup, insert, lookup-insert, is_ok, is_some, any, all, Option-cases, Bool-cases, inl, inr, sym,
  arith, Result, ok, err, if◌then◌else◌, ◌||◌, ◌&&◌, &&_true,
}
use mathlib.Core.Path.{subst}
use go_cell_protocol.Value.{Value}
use go_cell_protocol.Identity.{Identity}
use go_cell_protocol.Cell.{Reading}
use go_cell_protocol.Chat.{ChatInvitation, ChatCell, ChatEnv}
use go_cell_protocol.Chat.Admission.{member_for}
use go_cell_protocol.Chat.Access.{open_before_admission}
use go_cell_protocol.Chat.Dispatch.{get_allowing, chat_get, chat_set}
use go_cell_protocol.Chat.Invitations.{
  targets, set_status, set_statuses, known_all, update_statuses, with_invitations,
}
use go_cell_protocol.Chat.Laws.Outside.{Hosted, TellsApart, AllAsk, outsider_invalid}

all_named :
    (p : String → Bool) (name : String) (l : List String)
    → all p l ≡ true
    → any (str_eq name) l ≡ true
    → p name ≡ true
all_named p name [] h k = absurd (cc)
all_named p name (x ∷ l) h k =
    let (first, rest) = &&_true _ _ h in
    elim (Bool-cases (str_eq name x)) [
      | inl y ↦ subst (λ u. p u ≡ true) (sym ((eq_iff name x).0 y)) first
      | inr n ↦ all_named p name l rest (ground arith)
    ]

status_there :
    (o : Option ChatInvitation)
    → is_some o ≡ true
    → is_some {A = String} (elim o [ none ↦ none | some r ↦ some r.status ]) ≡ true
status_there none h = h
status_there (some r) h = refl

-- The status of the record of a UUID.
abbrev status_at : String → Dict ChatInvitation → Option String
status_at uuid m = elim (lookup uuid m) [ none ↦ none | some r ↦ some r.status ]

module _ (e : ChatEnv) (status : String) where
  abbrev set_one : String → Dict ChatInvitation → Dict ChatInvitation
  set_one u m = elim (lookup u m) [ none ↦ m | some r ↦ insert u (set_status e status r) m ]

  status-set_one :
      (uuid u : String) (m : Dict ChatInvitation)
      → status_at uuid (set_one u m)
        ≡ (if str_eq uuid u && is_some (status_at uuid m) then some status else status_at uuid m)
  status-set_one uuid u m = elim (Option-cases (lookup u m)) [
    | inl n ↦ ground (arith, eq_iff uuid u)
    | inr (r, s) ↦
        ground (arith, eq_iff uuid u, eq_iff u uuid, lookup-insert u uuid (set_status e status r) m)
  ]

  status-set_statuses :
      (uuid : String) (l : List String) (m : Dict ChatInvitation)
      → status_at uuid (set_statuses e status l m) ≡ (
          if any (str_eq uuid) l && is_some (status_at uuid m)
          then some status
          else status_at uuid m)
  unfolding set_statuses
  status-set_statuses uuid [] m = refl
  status-set_statuses uuid (u ∷ l) m =
      rw (status-set_statuses uuid l (set_one u m), status-set_one uuid u m)
        (merge (str_eq uuid u) (any (str_eq uuid) l) (status_at uuid m))
    where
      merge :
          (a b : Bool) (o : Option String)
          → (if b && is_some (if a && is_some o then some status else o)
              then some status
              else if a && is_some o
              then some status
              else o)
            ≡ (if (a || b) && is_some o then some status else o)
      merge a b none = ground arith
      merge a b (some x) = ground arith

-- A record whose status is not `accepted` makes nobody a member.
not_accepted :
    (e : ChatEnv) (c : ChatCell) (requester : Identity) (status : String)
    → status_at requester.uuid c.invitations ≡ some status
    → str_eq status "accepted" ≡ false
    → member_for e c (some requester) ≡ none
unfolding member_for
not_accepted e c requester status at other =
    elim (Option-cases (lookup requester.uuid c.invitations)) [
      | inl n ↦ rw n refl
      | inr (r, s) ↦ ground arith
    ]

-- What a revocation names, and that its records are there.
pub record Revokes (e : ChatEnv) (c : ChatCell) (v : Value) (uuid : String) : Type 0 where
  pub uuids : List String
  pub everyone : Bool
  pub names : targets e c v false ≡ some (uuids, everyone)
  pub known : known_all e c uuids ≡ true
  pub named : any (str_eq uuid) uuids ≡ true

-- A call that is answered with an error and leaves the chat as it is.
abbrev pub Denied : ChatCell → ChatCell × Result Reading → Type 0
Denied c answer = (answer.0 ≡ c) × (is_ok answer.1 ≡ false)

-- A key of the chat that is neither open to all nor open before an admission.
abbrev pub Closed : String → Type 0
Closed keypath =
    (open_before_admission keypath ≡ none)
    × ((str_eq keypath "description" || str_eq keypath "keys") ≡ false)

module _ (e : ChatEnv) (c : ChatCell) (requester : Identity) (keypath : String)
    (hosted : Hosted c requester) (outside : member_for e c (some requester) ≡ none)
    (apart : TellsApart e) (asks : AllAsk c) (closed : Closed keypath) where
  denied :
      (r : Result (Unit {0})) (f : ChatCell × Result Reading)
      → is_ok r ≡ false
      → Denied c (elim r [ err x ↦ (c, err x) | ok _ ↦ f ])
  denied (err x) f h = (refl, refl)
  denied (ok x) f h = absurd (cc)

  outsider-chat_get : Denied c (chat_get e c keypath (some requester))
  unfolding chat_get get_allowing
  outsider-chat_get =
      rw (closed.1, get_allowing)
        (denied _ _
          (outsider_invalid e c requester hosted outside apart "read" keypath asks closed.0))

  outsider-chat_set : (v : Value) → Denied c (chat_set e c keypath v (some requester))
  unfolding chat_set
  outsider-chat_set v =
      denied _ _ (outsider_invalid e c requester hosted outside apart "write" keypath asks closed.0)

module _ (e : ChatEnv) (c : ChatCell) (v : Value) (requester : Identity) where
  abbrev pub after_revoking : ChatCell
  after_revoking = (update_statuses e c v "revoked").0

  revoked_is :
      (h : Revokes e c v requester.uuid)
      → (update_statuses e c v "revoked").0
        ≡ with_invitations c (set_statuses e "revoked" h.uuids c.invitations)
  unfolding update_statuses
  revoked_is h = rw (update_statuses, h.names, h.known) refl

  revoked_record :
      (h : Revokes e c v requester.uuid)
      → status_at requester.uuid (set_statuses e "revoked" h.uuids c.invitations) ≡ some "revoked"
  revoked_record h =
      rw (status-set_statuses e "revoked" requester.uuid h.uuids c.invitations, h.named)
        (set_there (status_at requester.uuid c.invitations) (named_known h))
    where
      set_there :
          (o : Option String)
          → is_some o ≡ true
          → (if is_some o then some "revoked" else o) ≡ some "revoked"
      set_there none h = absurd (cc)
      set_there (some s) h = refl

      named_known :
          (h : Revokes e c v requester.uuid)
          → is_some (status_at requester.uuid c.invitations) ≡ true
      named_known h =
          status_there (lookup requester.uuid c.invitations) (
            all_named (λ u. is_some (lookup u c.invitations)) requester.uuid h.uuids h.known
              h.named)

  -- Whoever is revoked, later reads and writes no key of the chat that is not open before an
  -- admission: where the chat has an owner, who is another identity, and its own handlers for
  -- admissions, every contract asks for an admission, the texts of `true` and `false` differ, and
  -- the revocation names the identity among known invitations, both calls are answered with an
  -- error, and the chat stays as the revocation left it.
  pub revoke_denies :
      (later : ChatEnv) (keypath : String) (w : Value)
      → Revokes e c v requester.uuid
      → Hosted c requester
      → AllAsk c
      → TellsApart later
      → Closed keypath
      → Denied after_revoking (chat_get later after_revoking keypath (some requester))
        × Denied after_revoking (chat_set later after_revoking keypath w (some requester))
  revoke_denies later keypath w h hosted asks apart closed =
      subst
        (λ d.
          Denied d (chat_get later d keypath (some requester))
          × Denied d (chat_set later d keypath w (some requester)))
        (sym (revoked_is h))
        (
          outsider-chat_get later revoked requester keypath still outside apart asks closed,
          outsider-chat_set later revoked requester keypath still outside apart asks closed w,
        )
    where
      revoked : ChatCell
      revoked = with_invitations c (set_statuses e "revoked" h.uuids c.invitations)

      still : Hosted revoked requester
      still = record {
        owner = hosted.owner;
        is_owner = hosted.is_owner;
        other = hosted.other;
        handles_member = hosted.handles_member;
        handles_accepted = hosted.handles_accepted;
      }

      outside : member_for later revoked (some requester) ≡ none
      outside = not_accepted later revoked requester "revoked" (revoked_record h) refl
