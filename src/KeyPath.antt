-- ===== src/KeyPath.antt =====
-- keypath.go: reading and writing values under a path such as `person.names[0].first`.
pub mod Parse
pub mod Tokens
pub mod RoundTrip
pub mod Laws
use go_cell_protocol.Prelude.{String, Result, ok, err, some}
use go_cell_protocol.Value.{Value, Fields, Codec, obj}
use go_cell_protocol.KeyPath.Parse.{parse_key_path}
use go_cell_protocol.KeyPath.Tokens.{Outcome, get_tokens, set_tokens}

-- `GetKeyPath` on an object. An error is the `Msg` of its `KeyPathError`.
unfoldable pub get_key_path : (Value → String) → Fields → String → Result Value
get_key_path sprint root path = elim (parse_key_path path) [
  | ok tokens ↦ get_tokens sprint tokens (obj root)
  | err e ↦ err e
]

-- `SetKeyPath`: the object after the call, and its error if there is one.
unfoldable pub set_key_path : Codec → (Value → String) → Fields → String → Value → Outcome
set_key_path k sprint root path v = elim (parse_key_path path) [
  | ok tokens ↦ set_tokens k sprint tokens root v
  | err e ↦ record { root = root; error = some e }
]
