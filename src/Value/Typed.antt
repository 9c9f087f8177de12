-- ===== src/Value/Typed.antt =====
-- value.go: typed values, as a bridge sends them under a key that names their kind.
use go_cell_protocol.Prelude.{
  ℕ, String, Bool, ◌||◌, List, [], ◌∷◌, Option, none, some, Result, ok, err, str_eq, if◌then◌else◌,
  Dict, lookup,
}
use go_cell_protocol.Value.{
  Codec, Value, null, bool, number, int, uint, float, str, bytes, list, obj, normalize,
}

pub record TypedValue : Type 0 where
  pub kind : String
  pub value : Value

-- `bridgeKeys`.
abbrev pub bridge_keys : Dict String
bridge_keys =
    ("description", "&description")
    ∷ ("connectState", "&connectState")
    ∷ ("agreementState", "&agreementState")
    ∷ ("agreementPayload", "&agreementPayload")
    ∷ ("verifiableCredential", "&verifiableCredential")
    ∷ ("cellConfiguration", "&cellConfiguration")
    ∷ ("cellReference", "&cellReference")
    ∷ ("connectContext", "&connectContext")
    ∷ ("flowElement", "&flowElement")
    ∷ ("cell", "&cell")
    ∷ ("keyValue", "&keyValue")
    ∷ ("setValueState", "&setValueState")
    ∷ ("setValueResponse", "&setValueResponse")
    ∷ ("signData", "sign")
    ∷ ("signature", "&signature")
    ∷ ("object", "&object")
    ∷ ("number", "&number")
    ∷ ("string", "&string")
    ∷ ("list", "&list")
    ∷ ("bool", "bool")
    ∷ ("float", "float")
    ∷ ("data", "data")
    ∷ ("integer", "integer")
    ∷ []

abbrev pub typed : String → Value → TypedValue
typed kind v = record { kind = kind; value = v }

-- `InferTypedValue` on a value of JSON; Go's structs have kinds of their own.
unfoldable pub infer_typed_value : Codec → Value → TypedValue
infer_typed_value k null = typed "null" null
infer_typed_value k (bool b) = typed "bool" (bool b)
infer_typed_value k (int i) = typed "integer" (normalize k (int i))
infer_typed_value k (uint n) = typed "integer" (normalize k (uint n))
infer_typed_value k (float f) = typed "float" (normalize k (float f))
infer_typed_value k (str s) = typed "string" (str s)
infer_typed_value k (bytes b) = typed "data" (bytes b)
infer_typed_value k (list xs) = typed "list" (normalize k (list xs))
infer_typed_value k (obj fs) = typed "object" (normalize k (obj fs))
infer_typed_value k (number s) = typed "object" (normalize k (number s))

-- `BridgeKey`.
unfoldable pub bridge_key : TypedValue → Result String
unfolding lookup
bridge_key v = if str_eq v.kind "null" then ok "" else elim (lookup v.kind bridge_keys) [
  | none ↦ err "unknown typed value kind"
  | some key ↦ ok key
]

abbrev pub is_raw : String → Bool
is_raw kind = str_eq kind "data" || str_eq kind "signData" || str_eq kind "signature"

abbrev raw_payload : Codec → Value → Value
raw_payload k (bytes b) = str (k.base64 b)
raw_payload k v = normalize k v

-- `BridgePayloadJSON`.
unfoldable pub bridge_payload_json : Codec → TypedValue → Value
bridge_payload_json k v = if is_raw v.kind then raw_payload k v.value else normalize k v.value

unfoldable pub kind_from : String → Dict String → String
kind_from key [] = key
kind_from key ((kind, bridge) ∷ m) =
    let rest = kind_from key m in if str_eq bridge key then kind else rest

-- `BridgeKeyToKind`.
unfoldable pub bridge_key_to_kind : String → String
unfolding kind_from
bridge_key_to_kind key = kind_from key bridge_keys

-- The kinds that are read into a Go struct.
abbrev pub is_struct : String → Bool
is_struct kind =
    str_eq kind "keyValue"
    || str_eq kind "setValueResponse"
    || str_eq kind "flowElement"
    || str_eq kind "cellConfiguration"
    || str_eq kind "cellReference"

-- What a read takes of Go's JSON and base64 packages.
module _ (k : Codec) (decode_struct : String → Value → Result Value)
    (base64_decode : String → Option (List ℕ)) where
  abbrev from_base64 : String → Option (List ℕ) → Result TypedValue
  from_base64 kind none = err "illegal base64 data"
  from_base64 kind (some b) = ok (typed kind (bytes b))

  abbrev read_raw : String → Value → Result TypedValue
  read_raw kind (str s) = from_base64 kind (base64_decode s)
  read_raw kind v = err "bridge data payload must be base64 string"

  abbrev read_struct : String → Result Value → Result TypedValue
  read_struct kind (ok v) = ok (typed kind v)
  read_struct kind (err x) = err x

  unfoldable pub payload_of_kind : String → Value → Result TypedValue
  payload_of_kind kind v =
      if is_struct kind
      then read_struct kind (decode_struct kind v)
      else if is_raw kind
      then read_raw kind v
      else ok (typed kind (normalize k v))

  -- `PayloadFromBridgeJSON`.
  unfoldable pub payload_from_bridge_json : String → Value → Result TypedValue
  unfolding payload_of_kind bridge_key_to_kind
  payload_from_bridge_json key v = payload_of_kind (bridge_key_to_kind key) v
