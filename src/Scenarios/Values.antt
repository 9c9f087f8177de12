-- ===== src/Scenarios/Values.antt =====
-- Values and key paths on concrete inputs.
use go_cell_protocol.Prelude.{
  String, ◌≡◌, refl, List, [], ◌∷◌, ok, err, some, none, if◌then◌else◌, any,
}
use go_cell_protocol.Prelude.Int.{pos}
use go_cell_protocol.Value.{Value, Fields, str, number, end, field, normalize}
use go_cell_protocol.Value.Access.{lookup_field}
use go_cell_protocol.KeyPath.{get_key_path, set_key_path}
use go_cell_protocol.KeyPath.Parse.{PathToken, whole, index, split_key_path, parse_key_path}
use go_cell_protocol.KeyPath.Parse.Laws.{join_dots, join_dots-split_key_path, Separated}
use go_cell_protocol.KeyPath.RoundTrip.{is_negative}
use go_cell_protocol.KeyPath.Laws.{get-set_key_path, lookup-set_key_path_ne, error-set_key_path}
use go_cell_protocol.Scenarios.{codec}

abbrev sprint : Value → String
sprint v = "value"

abbrev person : Fields
person = field "name" (str "Ada") (field "age" (number "36") end)

abbrev tokens : List PathToken
tokens =
    record { key = "mails"; selector = index (pos 1) }
    ∷ record { key = "to"; selector = whole }
    ∷ []

join_dots-split_key_path_example :
    (join_dots (split_key_path "a.b[c=d.e].f") ≡ "a.b[c=d.e].f")
    × Separated (split_key_path "a.b[c=d.e].f")
join_dots-split_key_path_example = join_dots-split_key_path "a.b[c=d.e].f"

get-set_key_path_example :
    get_key_path sprint
      (set_key_path codec sprint person "mails[1].to" (str "Bo")).root
      "mails[1].to"
    ≡ ok (normalize codec (str "Bo"))
unfolding parse_key_path
get-set_key_path_example =
    get-set_key_path codec sprint person "mails[1].to" (str "Bo") tokens refl refl

lookup-set_key_path_ne_example :
    lookup_field "name" (set_key_path codec sprint person "mails[1].to" (str "Bo")).root
    ≡ lookup_field "name" person
unfolding parse_key_path
lookup-set_key_path_ne_example =
    lookup-set_key_path_ne codec sprint person "mails[1].to" (str "Bo")
      (record { key = "mails"; selector = index (pos 1) })
      (record { key = "to"; selector = whole } ∷ []) "name" refl (λ h. cc)

error-set_key_path_example :
    let o = set_key_path codec sprint person "mails[1].to" (str "Bo") in
    ((e : String)
      → parse_key_path "mails[1].to" ≡ err e
      → o ≡ record { root = person; error = some e })
    × ((ts : List PathToken)
        → parse_key_path "mails[1].to" ≡ ok ts
        → o.error
          ≡ (if any (λ t. is_negative t.selector) ts then some "invalid selector" else none))
error-set_key_path_example = error-set_key_path codec sprint person "mails[1].to" (str "Bo")
