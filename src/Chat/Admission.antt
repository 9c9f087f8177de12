-- ===== src/Chat/Admission.antt =====
-- Who is a member of a chat, and the conditions that its Agreement can ask for.
use go_cell_protocol.Prelude.{
  String, Bool, true, false, ◌||◌, ◌&&◌, List, [], ◌∷◌, map, Option, none, some, lookup, str_eq,
  is_ok, any, length, ◌==◌, if◌then◌else◌, ◌⧺◌, ◌>>=◌,
}
use go_cell_protocol.Value.{Value, Items, nil, cons, str, bool, list_value}
use go_cell_protocol.Identity.{Identity}
use go_cell_protocol.Agreement.Condition.{Condition, LookupCondition}
use go_cell_protocol.Cell.Steps.{set_template_conditions, set_admission_policy}
use go_cell_protocol.Interop.Chat.{
  ChatInvitationArtifact, ChatInvitationAcceptance, verify_chat_invitation, any_options,
}
use go_cell_protocol.Chat.{ChatPerson, ChatInvitation, ChatCell, ChatEnv}
use go_cell_protocol.Chat.People.{matches}
use go_cell_protocol.Chat.Rows.{rows}

-- `chatAdmissionName`, on `ChatAdmissionConditions`.
unfoldable pub admission_name : String → Bool
admission_name name = str_eq name "invitationAccepted" || str_eq name "member"

abbrev pub admission_prefix : String
admission_prefix = "target.audience.admission."

-- `ChatAdmissionCondition`.
unfoldable pub admission_condition : ChatEnv → String → Condition
admission_condition e name = record {
  lookup = some (record {
    uuid = e.uuids ("condition " ⧺ name);
    name = "Lookup condition";
    keypath = admission_prefix ⧺ name;
    expected_value = bool true;
  });
}

-- What stands behind a prefix: `strings.CutPrefix`, which finds it at the known names.
abbrev cut_admission : String → Option String
cut_admission keypath =
    if str_eq keypath (admission_prefix ⧺ "invitationAccepted")
    then some "invitationAccepted"
    else if str_eq keypath (admission_prefix ⧺ "member")
    then some "member"
    else none

abbrev condition_name : Condition → Option String
condition_name x = x.lookup >>= λ (l : LookupCondition). cut_admission l.keypath

-- `AdmissionConditions`.
unfoldable pub condition_names : List Condition → List String
condition_names [] = []
condition_names (x ∷ l) =
    let rest = condition_names l in elim (condition_name x) [ none ↦ rest | some n ↦ n ∷ rest ]

-- `ApplyAdmissionConditions`.
unfoldable pub apply_admission_conditions : ChatEnv → ChatCell → List String → ChatCell
unfolding admission_condition set_template_conditions set_admission_policy
apply_admission_conditions e c names = record c {
  cell =
      set_admission_policy (set_template_conditions c.cell (map (admission_condition e) names))
        (if length names == 0 then "ownerApprovalRequired" else "automaticWhenConditionsMet");
}

-- The names of a list of admission conditions, each once; `none` if one is not known.
unfoldable pub admission_names : List String → Items → Option (List String)
unfolding admission_name
admission_names seen nil = some []
admission_names seen (cons (str name) l) =
    let known = admission_names seen l in
    let fresh = admission_names (name ∷ seen) l >>= λ rest. some (name ∷ rest) in
    if admission_name name then if any (λ s. str_eq s name) seen then known else fresh else none
admission_names seen (cons _ l) = none

abbrev pub bad_conditions : Value
bad_conditions = str "error: admission conditions must be a list of [invitationAccepted member]"

-- `setAdmissionConditions`.
unfoldable pub set_admission_conditions : ChatEnv → ChatCell → Value → ChatCell × Value
unfolding admission_names apply_admission_conditions
set_admission_conditions e c v = elim (list_value e.env.codec v >>= admission_names []) [
  | none ↦ (c, bad_conditions)
  | some names ↦ (apply_admission_conditions e c names, rows str names)
]

module _ (e : ChatEnv) where
  abbrev pub accepted_person : Option Identity → Option ChatInvitation → Option ChatPerson
  accepted_person requester none = none
  accepted_person requester (some r) =
      if str_eq r.status "accepted" && matches e r.person requester then some r.person else none

  -- `memberFor`.
  unfoldable pub member_for : ChatCell → Option Identity → Option ChatPerson
  unfolding matches
  member_for c none = none
  member_for c (some requester) =
      accepted_person (some requester) (lookup requester.uuid c.invitations)

  -- The invitation was accepted by the acceptance that it holds, and verifies now.
  abbrev pub accepted_by_proof :
      ChatCell → Option ChatInvitationArtifact → Option ChatInvitationAcceptance → Bool
  accepted_by_proof c (some a) (some b) = elim (lookup a.invitation_id c.consumed) [
    | none ↦ false
    | some row ↦
        str_eq row.acceptance_id b.acceptance_id
        && is_ok (verify_chat_invitation e.wire a e.env.now any_options)
  ]
  accepted_by_proof c _ _ = false

  abbrev pub proof_of : ChatCell → Option ChatInvitation → Bool
  proof_of c none = false
  proof_of c (some r) = accepted_by_proof c r.artifact r.acceptance

  -- `AdmissionConditionHolds`.
  unfoldable pub admission_condition_holds : ChatCell → String → Option Identity → Bool
  unfolding member_for
  admission_condition_holds c name requester = elim (member_for c requester) [
    | none ↦ false
    | some member ↦
        if str_eq name "member"
        then true
        else if str_eq name "invitationAccepted"
        then proof_of c (lookup member.uuid c.invitations)
        else false
  ]
