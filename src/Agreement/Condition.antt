-- ===== src/Agreement/Condition.antt =====
-- Conditions, agreements and templates of agreements.go and value.go.
pub mod Laws
use Prim.Native.String.{compare}
use Prim.Native.Nat.{Ordering}
use go_cell_protocol.Prelude.{
  ◌++◌, ℕ, ◌*◌, String, Bool, true, false, ◌&&◌, ◌||◌, List, [], ◌∷◌, map, Option, none, some,
  str_eq, ◌==◌, if◌then◌else◌, any, length, has_prefix, trim_space,
}
use go_cell_protocol.Prelude.Int.{ℤ, pos, leb_ℤ}
use go_cell_protocol.Value.{Codec, Value, Fields, str, obj, end, field, normalize}
use go_cell_protocol.Identity.{Identity}
use go_cell_protocol.Agreement.Grant.{Grant, new_grant}

pub record LookupCondition : Type 0 where
  pub uuid : String
  pub name : String
  pub keypath : String
  pub expected_value : Value

-- `Condition`: `none` is a condition with no `Lookup`.
pub record Condition : Type 0 where
  pub lookup : Option LookupCondition

-- What `json.Marshal` writes is an argument, a function from values to texts.
module _ (k : Codec) (marshal : Value → String) where
  -- `Condition.policy`.
  unfoldable pub policy : Condition → String
  policy c = elim c.lookup [
    | none ↦ ""
    | some l ↦ marshal (
        obj (
          field "type" (str "lookup") (
            field "name" (str l.name) (
              field "keypath" (str l.keypath)
                (field "expectedValue" (normalize k l.expected_value) end)))))
  ]

abbrev text_le : String → String → Bool
text_le a b = elim (compare a b) [ Ordering.gt ↦ false | _ ↦ true ]

-- `sort.Strings`, as an insertion sort.
unfoldable pub insert_sorted : String → List String → List String
insert_sorted a [] = a ∷ []
insert_sorted a (b ∷ l) = if text_le a b then a ∷ b ∷ l else b ∷ insert_sorted a l

unfoldable pub sort_strings : List String → List String
unfolding insert_sorted
sort_strings [] = []
sort_strings (a ∷ l) = insert_sorted a (sort_strings l)

unfoldable pub same_texts : List String → List String → Bool
same_texts [] [] = true
same_texts (a ∷ l) (b ∷ m) = str_eq a b && same_texts l m
same_texts _ _ = false

abbrev pub any_empty : List String → Bool
any_empty l = any (λ p. str_eq p "") l

-- `conditionsMatch` on the policies of the two lists.
unfoldable pub policies_match : List String → List String → Bool
unfolding sort_strings same_texts
policies_match a b =
    if length a == length b
    then if any_empty a || any_empty b then false else same_texts (sort_strings a) (sort_strings b)
    else false

module _ (k : Codec) (marshal : Value → String) where
  -- `conditionsMatch`.
  unfoldable pub conditions_match : List Condition → List Condition → Bool
  conditions_match a b = policies_match (map (policy k marshal) a) (map (policy k marshal) b)

-- `Condition.Enforcing`.
unfoldable pub enforcing : Condition → Bool
enforcing c = elim c.lookup [
  | none ↦ false
  | some l ↦
      has_prefix (trim_space l.keypath) "target." || has_prefix (trim_space l.keypath) "resolve."
]

pub record AgreementTemplate : Type 0 where
  pub grants : List Grant
  pub conditions : List Condition
  pub duration : ℤ

abbrev pub default_agreement_duration : ℤ
default_agreement_duration = pos (60 * 60 * 24 * 365)

abbrev pub maximum_agreement_duration : ℤ
maximum_agreement_duration = pos (60 * 60 * 24 * 365)

-- `AgreementTemplate.duration`.
unfoldable pub template_duration : AgreementTemplate → ℤ
template_duration t = if leb_ℤ t.duration (pos 0) then default_agreement_duration else t.duration

pub data AgreementState : Type 0 where
  signed rejected template : AgreementState

pub data ConnectState : Type 0 where
  connected sign_contract not_connected denied : ConnectState

pub record Agreement : Type 0 where
  pub uuid : String
  pub name : String
  pub state : AgreementState
  pub owner : Option Identity
  pub signatories : List Identity
  pub conditions : List Condition
  pub grants : List Grant
  pub duration : ℤ

-- `NewAgreement`; the fresh UUIDs and the identity for a nil owner are arguments.
unfoldable pub new_agreement : Identity → String → String → String → Option Identity → Agreement
unfolding new_grant
new_agreement fallback uuid uuid_test uuid_feed owner =
    let signer : Identity = elim owner [ none ↦ fallback | some i ↦ i ] in
    record {
      uuid = uuid;
      name = "Contract name here";
      state = template;
      owner = some signer;
      signatories = signer ∷ [];
      conditions = [];
      grants =
          new_grant uuid_test "test grant" "identity.displayName" "r--"
          ∷ new_grant uuid_feed "Feed grant" "feed" "r---"
          ∷ [];
      duration = default_agreement_duration;
    }

-- `AgreementTemplate.AddGrant`; the fresh UUID is an argument.
unfoldable pub add_grant : AgreementTemplate → String → String → String → AgreementTemplate
unfolding new_grant
add_grant t uuid permission keypath = record t {
  grants = t.grants ++ new_grant uuid "" keypath permission ∷ [];
}
