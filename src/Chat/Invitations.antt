-- ===== src/Chat/Invitations.antt =====
-- The invitations of a chat: inviting, issuing artifacts, accepting and revoking.
use go_cell_protocol.Prelude.{
  String, Bool, true, false, not, ◌||◌, List, [], ◌∷◌, ◌++◌, Option, none, some, Dict, lookup,
  insert, str_eq, is_some, all, if◌then◌else◌, ◌⧺◌, ◌>>=◌,
}
use go_cell_protocol.Value.{Value, Items, null, bool, str, list, nil, cons}
use go_cell_protocol.Identity.{Bytes}
use go_cell_protocol.Cell.Handlers.{dict_keys}
use go_cell_protocol.Chat.{ChatPerson, ChatInvitation, ChatCell, ChatEnv}
use go_cell_protocol.Chat.People.{person_from_value}
use go_cell_protocol.Chat.Rows.{is_owner_person}
use go_cell_protocol.Chat.Audience.{audience_payload}

abbrev pub refused : String → Value
refused code = str ("error: " ⧺ code)

abbrev pub with_invitations : ChatCell → Dict ChatInvitation → ChatCell
with_invitations c invitations = record c { invitations = invitations }

-- The hash, or nothing where the artifact has no canonical bytes.
abbrev pub hash_or_nil : Option Bytes → Bytes
hash_or_nil none = []
hash_or_nil (some h) = h

module _ (e : ChatEnv) where
  abbrev pub answer_audience : ChatCell → ChatCell × Value
  answer_audience c = (c, audience_payload e c)

  abbrev pub now_text : String
  now_text = e.wire.timestamp e.env.now

  -- A value of `peopleFrom`: a text names an invited person.
  abbrev person_of_item : ChatCell → Value → List ChatPerson
  person_of_item c (str s) = elim (lookup s c.invitations) [ none ↦ [] | some r ↦ r.person ∷ [] ]
  person_of_item c v = elim (person_from_value e v) [ none ↦ [] | some p ↦ p ∷ [] ]

  unfoldable pub people_of_items : ChatCell → Items → List ChatPerson
  unfolding person_from_value
  people_of_items c nil = []
  people_of_items c (cons v l) = person_of_item c v ++ people_of_items c l

  -- `peopleFrom`.
  unfoldable pub people_from : ChatCell → Value → List ChatPerson
  unfolding people_of_items
  people_from c (list l) = people_of_items c l
  people_from c v = people_of_items c (cons v nil)

  -- The record of a person who is invited, over the one that is there.
  abbrev pub invited_again : ChatPerson → Option ChatInvitation → ChatInvitation
  invited_again p none = record {
    person = p;
    status = "pending";
    source = "inviteIdentities";
    created_at = now_text;
    updated_at = now_text;
    artifact = none;
    acceptance = none;
  }
  invited_again p (some r) = record r {
    person = p;
    status = if str_eq r.status "accepted" then r.status else "pending";
    source = "inviteIdentities";
    updated_at = now_text;
    acceptance = none;
  }

  -- One round of the loop of `inviteIdentities`.
  unfoldable pub invite_person : ChatCell → ChatPerson → ChatCell
  unfolding is_owner_person
  invite_person c p =
      if is_owner_person c p || not (is_some p.descriptor)
      then c
      else with_invitations c
          (insert p.uuid (invited_again p (lookup p.uuid c.invitations)) c.invitations)

  unfoldable pub invite_all : ChatCell → List ChatPerson → ChatCell
  unfolding invite_person
  invite_all c [] = c
  invite_all c (p ∷ l) = invite_all (invite_person c p) l

  -- `inviteIdentities`.
  unfoldable pub invite_identities : ChatCell → Value → ChatCell × Value
  unfolding invite_all people_from
  invite_identities c v = answer_audience (invite_all c (people_from c v))

  abbrev target_of : Value → Option String
  target_of (str s) = if str_eq s "" then none else some s
  target_of v = elim (person_from_value e v) [ none ↦ none | some p ↦ some p.uuid ]

  unfoldable pub targets_of_items : Items → Option (List String)
  unfolding person_from_value
  targets_of_items nil = some []
  targets_of_items (cons v l) = do uuid ← target_of v; rest ← targets_of_items l; some (uuid ∷ rest)

  -- `targets`: the UUIDs, and whether they stand for all.
  unfoldable pub targets : ChatCell → Value → Bool → Option (List String × Bool)
  unfolding dict_keys targets_of_items
  targets c null allow_true = some (dict_keys c.invitations, true)
  targets c (bool true) true = some (dict_keys c.invitations, true)
  targets c (list nil) allow_true = some (dict_keys c.invitations, true)
  targets c (list (cons v l)) allow_true =
      targets_of_items (cons v l) >>= λ uuids. some (uuids, false)
  targets c _ allow_true = none

  -- The status of a record, at the time of the call.
  abbrev pub set_status : String → ChatInvitation → ChatInvitation
  set_status status r = record r { status = status; updated_at = now_text }

  unfoldable pub set_statuses : String → List String → Dict ChatInvitation → Dict ChatInvitation
  set_statuses status [] m = m
  set_statuses status (uuid ∷ l) m =
      set_statuses status l
        (elim (lookup uuid m) [ none ↦ m | some r ↦ insert uuid (set_status status r) m ])

  abbrev pub known_all : ChatCell → List String → Bool
  known_all c uuids = all (λ uuid. is_some (lookup uuid c.invitations)) uuids

  -- `updateStatuses`.
  unfoldable pub update_statuses : ChatCell → Value → String → ChatCell × Value
  unfolding targets set_statuses audience_payload
  update_statuses c v status = elim (targets c v false) [
    | none ↦ (c, refused "invalid invitation target payload")
    | some (uuids, _) ↦
        if known_all c uuids
        then answer_audience (with_invitations c (set_statuses status uuids c.invitations))
        else (c, refused "invitation targets must all reference known invitation records")
  ]
