-- ===== src/Chat/People.antt =====
-- The persons of a chat and their decoding, and the decoding of artifacts and acceptances.
use Prim.Native.Char.{code}
use go_cell_protocol.Prelude.{
  String, Bool, true, false, not, ◌&&◌, ◌||◌, List, [], ◌∷◌, Option, none, some, str_eq, ◌==◌,
  is_some, if◌then◌else◌, ◌>>=◌, is_space, ◌⧺◌, ℕ, keep,
}
use go_cell_protocol.Value.{Value, Fields, str, obj, null, end, field, object_value}
use go_cell_protocol.Value.Access.{lookup_field}
use go_cell_protocol.Identity.{Bytes, Identity}
use go_cell_protocol.Interop.Channel.{same_bytes}
use go_cell_protocol.Interop.Chat.{Descriptor, ChatInvitationArtifact, ChatInvitationAcceptance}
use go_cell_protocol.Chat.{ChatPerson, ChatEnv}

-- `extString`.
unfoldable pub ext_string : Value → String
ext_string (str s) = s
ext_string _ = ""

abbrev pub or_null : Option Value → Value
or_null none = null
or_null (some v) = v

-- `extString(obj[key])`.
abbrev pub text_at : String → Fields → String
text_at key fs = ext_string (or_null (lookup_field key fs))

abbrev pub or_text : String → String → String
or_text s other = if str_eq s "" then other else s

-- `strings.FieldsFunc(s, separates)`: the parts between separators that are not empty.
abbrev onto_first : String → List String → List String
onto_first letter [] = letter ∷ []
onto_first letter (part ∷ rest) = (letter ⧺ part) ∷ rest

unfoldable pub parts : (ℕ → Bool) → String → List String
parts separates String.[] = "" ∷ []
parts separates (String.◌∷◌ c s) =
    let rest = parts separates s in
    if separates (code c) then "" ∷ rest else onto_first (String.◌∷◌ c "") rest

abbrev pub fields_func : (ℕ → Bool) → String → List String
fields_func separates s = keep (λ part. not (str_eq part "")) (parts separates s)

-- A value that is there and not nil.
abbrev pub present : Option Value → Option Value
present (some null) = none
present o = o

module _ (e : ChatEnv) where
  -- The first letter or number of a word, in upper case.
  unfoldable pub initial : String → String
  initial String.[] = ""
  initial (String.◌∷◌ c s) =
      let rest = initial s in if e.is_letter_or_number (code c) then e.to_upper (code c) else rest

  abbrev two_initials : List String → String
  two_initials [] = ""
  two_initials (word ∷ []) = initial word
  two_initials (word ∷ other ∷ _) = initial word ⧺ initial other

  -- `chatInitials`.
  unfoldable pub chat_initials : String → String
  unfolding is_space parts initial
  chat_initials name = two_initials (fields_func (λ r. is_space r || r == b'-') name)

  -- `DescriptorFor`.
  unfoldable pub descriptor_for : Identity → Option Descriptor
  descriptor_for i =
      if str_eq i.public_secure_key ""
      then none
      else elim (e.env.crypto.base64_decode i.public_secure_key) [
        | none ↦ none
        | some key ↦ some (record {
          uuid = i.uuid;
          display_name = if str_eq i.display_name "" then none else some i.display_name;
          public_key = key;
          algorithm = "EdDSA";
          curve_type = "Curve25519";
        })
      ]

  -- `chatPersonFromIdentity`.
  unfoldable pub person_from_identity : Identity → ChatPerson
  unfolding descriptor_for
  person_from_identity i = record {
    uuid = i.uuid;
    display_name = i.display_name;
    descriptor = descriptor_for i;
  }

  abbrev person_from_descriptor : Option Descriptor → Option ChatPerson
  person_from_descriptor none = none
  person_from_descriptor (some d) = some (record {
    uuid = d.uuid;
    display_name = elim d.display_name [ none ↦ d.uuid | some name ↦ name ];
    descriptor = some d;
  })

  abbrev person_from_decoded : Option Identity → Option ChatPerson
  person_from_decoded none = none
  person_from_decoded (some i) = if str_eq i.uuid "" then none else some (person_from_identity i)

  abbrev is_text : Option Value → Bool
  is_text (some (str s)) = true
  is_text _ = false

  -- `chatPersonFromValue`.
  unfoldable pub person_from_value : Value → Option ChatPerson
  unfolding person_from_identity
  person_from_value v = elim (object_value e.env.codec v) [
    | none ↦ none
    | some fs ↦
        if is_text (lookup_field "publicKey" fs) && is_some (lookup_field "algorithm" fs)
        then person_from_descriptor (e.decode_descriptor fs)
        else person_from_decoded (e.decode_identity fs)
  ]

  abbrev key_is : Option Bytes → Bytes → Bool
  key_is none key = false
  key_is (some presented) key = same_bytes presented key

  -- `chatPerson.matches`.
  unfoldable pub matches : ChatPerson → Option Identity → Bool
  matches p none = false
  matches p (some requester) = elim p.descriptor [
    | none ↦ false
    | some d ↦
        str_eq requester.uuid p.uuid
        && key_is (e.env.crypto.base64_decode requester.public_secure_key) d.public_key
  ]

  -- `chatPerson.publicJSON`.
  unfoldable pub public_json : ChatPerson → Value
  public_json p = obj (
      field "uuid" (str p.uuid) (
        field "displayName" (str p.display_name) (elim p.descriptor [
          | none ↦ end
          | some d ↦ field "publicSecureKey" (str (e.env.crypto.base64_encode d.public_key)) end
        ])))

  -- `decodeTransport`, on the decoders of a model from bytes and from an object.
  unfoldable pub decode_transport {ℓ} :
      {A : Type ℓ} → (Bytes → Option A) → (Fields → Option A) → String → Value → Option A
  decode_transport decode decode_object key v =
      let object = object_value e.env.codec v in
      let text : String = elim object [ none ↦ ext_string v | some fs ↦ text_at "payload" fs ] in
      let from_text = if str_eq text "" then none else e.base64_url_decode text >>= decode in
      let embedded = object >>= lookup_field key >>= object_value e.env.codec >>= decode_object in
      elim from_text [
        | some a ↦ some a
        | none ↦ elim embedded [ some a ↦ some a | none ↦ object >>= decode_object ]
      ]

  -- `chatArtifactFrom`: an object without an `invitationID` may hold the artifact.
  unfoldable pub artifact_from : Value → Option ChatInvitationArtifact
  unfolding decode_transport
  artifact_from v =
      let held : Option Value = elim (object_value e.env.codec v) [
        | none ↦ none
        | some fs ↦
            if is_some (lookup_field "invitationID" fs)
            then none
            else present (lookup_field "artifact" fs)
      ] in
      decode_transport e.decode_artifact e.decode_artifact_object "artifact"
        (elim held [ none ↦ v | some w ↦ w ])

  -- `chatAcceptanceFrom`; a missing value is `null`.
  unfoldable pub acceptance_from : Value → Option ChatInvitationAcceptance
  unfolding decode_transport
  acceptance_from null = none
  acceptance_from v = decode_transport e.decode_acceptance e.decode_acceptance_object "acceptance" v
