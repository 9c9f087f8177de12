-- ===== src/Chat/Rows.antt =====
-- What a chat shows: invitations, participants, recipients, the audience, and its status. Go sorts
-- with `sort.Slice` over the rows of a map; here rows that compare equal keep the order of the map.
use Prim.Native.Nat.{Ordering}
use Prim.Native.String.{compare}
use go_cell_protocol.Prelude.{
  String, Bool, true, false, not, ◌||◌, List, [], ◌∷◌, ◌++◌, map, Option, none, some, Dict, lookup,
  str_eq, is_some, is_ok, any, keep, length, if◌then◌else◌,
}
use go_cell_protocol.Prelude.Int.{pos}
use go_cell_protocol.Value.{
  Value, Items, Fields, null, bool, int, str, list, obj, nil, cons, end, field,
}
use go_cell_protocol.Interop.Chat.{
  ChatInvitationArtifact, ChatInvitationAcceptance, verify_chat_invitation, any_options,
}
use go_cell_protocol.Chat.{ChatPerson, ChatInvitation, Participant, ChatCell, ChatEnv}

abbrev text_lt : String → String → Bool
text_lt a b = elim (compare a b) [ Ordering.lt ↦ true | _ ↦ false ]

module _ {ℓ} {A : Type ℓ} (less : A → A → Bool) where
  insert_by : A → List A → List A
  insert_by a [] = a ∷ []
  insert_by a (b ∷ l) = if less b a then b ∷ insert_by a l else a ∷ b ∷ l

  unfoldable pub sort_by : List A → List A
  unfolding insert_by
  sort_by [] = []
  sort_by (a ∷ l) = insert_by a (sort_by l)

abbrev pub values {ℓ} : {V : Type ℓ} → Dict V → List V
values [] = []
values ((_, v) ∷ m) = v ∷ values m

abbrev pub items : List Value → Items
items [] = nil
items (v ∷ l) = cons v (items l)

abbrev pub rows {ℓ} : {A : Type ℓ} → (A → Value) → List A → Value
rows show l = list (items (map show l))

abbrev pub number_of {ℓ} : {A : Type ℓ} → List A → Value
number_of l = int (pos (length l))

-- `chatFormats`.
abbrev pub chat_formats : Value
chat_formats =
    rows (λ v. v)
      (obj (
          field "id" (str "plain") (
            field "label" (str "Plain text") (
              field "contentType" (str "text/plain")
                (field "description" (str "Vanlig tekst uten formattering.") end))))
        ∷ obj (
            field "id" (str "markdown") (
              field "label" (str "Markdown") (
                field "contentType" (str "text/markdown")
                  (field "description" (str "Markdown for overskrifter, lister og lenker.") end))))
        ∷ [])

-- `chatStatusLabels`.
abbrev status_label : String → String
status_label s =
    if str_eq s "pending"
    then "Pending"
    else if str_eq s "accepted"
    then "Accepted"
    else if str_eq s "declined"
    then "Declined"
    else if str_eq s "revoked"
    then "Revoked"
    else ""

-- `chatAudienceMod`.
abbrev pub audience_mode_texts : String → Option (String × String)
audience_mode_texts mode =
    if str_eq mode "contextMembers"
    then some ("Context members", "Bruk kjente deltakere og kontekstmedlemmer som mottakere.")
    else if str_eq mode "invitedIdentities"
    then some ("Invited identities", "Bruk bare eksplisitt inviterte identities som mottakere.")
    else if str_eq mode "hybrid"
    then some ("Hybrid", "Bruk både kontekstmedlemmer og eksplisitt inviterte identities.")
    else none

abbrev is_owner_uuid : Option ChatPerson → String → Bool
is_owner_uuid none uuid = false
is_owner_uuid (some owner) uuid = str_eq uuid owner.uuid

-- `isOwnerPerson`.
unfoldable pub is_owner_person : ChatCell → ChatPerson → Bool
is_owner_person c p = is_owner_uuid c.owner_person p.uuid

abbrev owner_first : Option ChatPerson → List ChatPerson
owner_first none = []
owner_first (some owner) = owner ∷ []

module _ (e : ChatEnv) where
  -- `artifactState`.
  unfoldable pub artifact_state : ChatInvitation → String
  artifact_state r =
      if str_eq r.status "revoked" || str_eq r.status "declined"
      then r.status
      else elim r.artifact [
        | none ↦ "notIssued"
        | some a ↦
            if is_some r.acceptance
            then "consumed"
            else if is_ok (verify_chat_invitation e.wire a e.env.now any_options)
            then "issued"
            else "expired"
      ]

  abbrev invitation_before : ChatInvitation → ChatInvitation → Bool
  invitation_before a b =
      if str_eq a.status b.status
      then text_lt (e.to_lower a.person.display_name) (e.to_lower b.person.display_name)
      else text_lt a.status b.status

  -- `sortedInvitations`.
  unfoldable pub sorted_invitations : ChatCell → List ChatInvitation
  unfolding sort_by
  sorted_invitations c = sort_by invitation_before (values c.invitations)

  abbrev artifact_text : (ChatInvitationArtifact → String) → Option ChatInvitationArtifact → Value
  artifact_text show none = null
  artifact_text show (some a) = str (show a)

  abbrev acceptance_text :
      (ChatInvitationAcceptance → String) → Option ChatInvitationAcceptance → Value
  acceptance_text show none = null
  acceptance_text show (some b) = str (show b)

  -- `invitationRow`.
  unfoldable pub invitation_row : ChatInvitation → Value
  unfolding artifact_state
  invitation_row r =
      let state = artifact_state r in
      let accepted : Fields =
        field "artifactConsumedAt" (acceptance_text (λ b. b.created_at) r.acceptance) (
          field "acceptanceID" (acceptance_text (λ b. b.acceptance_id) r.acceptance)
            (field "acceptanceCreatedAt" (acceptance_text (λ b. b.created_at) r.acceptance) end)) in
      let issued : Fields =
        field "artifactInvitationID" (artifact_text (λ a. a.invitation_id) r.artifact) (
          field "artifactIssuedAt" (artifact_text (λ a. a.created_at) r.artifact)
            (field "artifactExpiresAt" (artifact_text (λ a. a.expires_at) r.artifact) accepted)) in
      let flags : Fields = field "isResolvedRecipient" (bool (str_eq r.status "accepted")) (
        field "hasKeyAgreementKey" (bool false) (
          field "hasSigningKey" (bool (is_some r.person.descriptor)) (
            field "artifactAvailable" (bool (is_some r.artifact)) (
              field "artifactState" (str state) (
                field "artifactAcceptanceAllowed" (bool (str_eq state "issued")) (
                  field "proofBackedAcceptance" (bool (is_some r.acceptance))
                    (field "acceptanceAvailable" (bool (is_some r.acceptance)) issued))))))) in
      obj (
        field "identityUUID" (str r.person.uuid) (
          field "displayName" (str r.person.display_name) (
            field "status" (str r.status) (
              field "statusLabel" (str (status_label r.status)) (
                field "source" (str r.source) (
                  field "createdAt" (str r.created_at)
                    (field "updatedAt" (str r.updated_at) flags)))))))

  -- `invitationRows`.
  unfoldable pub invitation_rows : ChatCell → Value
  unfolding sorted_invitations invitation_row
  invitation_rows c = rows invitation_row (sorted_invitations c)

  abbrev participant_before : Participant → Participant → Bool
  participant_before a b = text_lt (e.to_lower a.display_name) (e.to_lower b.display_name)

  unfoldable pub sorted_participants : ChatCell → List Participant
  unfolding sort_by
  sorted_participants c = sort_by participant_before (values c.participants)

  -- A participant's map.
  unfoldable pub participant_row : Participant → Fields
  participant_row p = field "id" (str p.id) (
      field "displayName" (str p.display_name) (
        field "joinedAt" (str p.joined_at) (
          field "messageCount" (int (pos p.message_count)) (
            field "lastSeenAt" (str p.last_seen_at) (
              field "lastAction" (str p.last_action)
                (field "presence" (str p.presence) (field "initials" (str p.initials) end)))))))

  -- `participantRows`.
  unfoldable pub participant_rows : ChatCell → Value
  unfolding sorted_participants participant_row
  participant_rows c = rows (λ p. obj (participant_row p)) (sorted_participants c)

  abbrev person_of : ChatCell → Participant → ChatPerson
  person_of c p = elim (lookup p.id c.invitations) [
    | some r ↦ r.person
    | none ↦ record { uuid = p.id; display_name = p.display_name; descriptor = none }
  ]

  -- `contextPeople`.
  unfoldable pub context_people : ChatCell → List ChatPerson
  unfolding sorted_participants
  context_people c =
      owner_first c.owner_person
      ++ map (person_of c)
          (keep (λ p. not (is_owner_uuid c.owner_person p.id)) (sorted_participants c))

  -- `invitedPeople`.
  unfoldable pub invited_people : ChatCell → List ChatPerson
  unfolding sorted_invitations
  invited_people c =
      owner_first c.owner_person
      ++ map (λ (r : ChatInvitation). r.person)
          (keep (λ r. str_eq r.status "accepted") (sorted_invitations c))

  -- `recipient`.
  unfoldable pub recipient : ChatCell → ChatPerson → String → Value
  unfolding is_owner_person
  recipient c p source = obj (
      field "identityUUID" (str p.uuid) (
        field "displayName" (str p.display_name) (
          field "source" (str (if is_owner_person c p then "owner" else source)) (
            field "isOwner" (bool (is_owner_person c p)) (
              field "hasKeyAgreementKey" (bool false)
                (field "hasSigningKey" (bool (is_some p.descriptor)) end))))))

  -- `recipients`.
  abbrev pub recipients : ChatCell → List ChatPerson → String → Value
  recipients c people source = rows (λ p. recipient c p source) people

  abbrev pub has_uuid : String → List ChatPerson → Bool
  has_uuid uuid people = any (λ p. str_eq p.uuid uuid) people
