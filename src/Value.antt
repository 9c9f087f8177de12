-- ===== src/Value.antt =====
-- value.go: the JSON values that cells exchange, and their normal form.
pub mod Access
pub mod Normal
pub mod Typed
use go_cell_protocol.Prelude.{ℕ, String, Bool, List, Option, none, some, true, false}
use go_cell_protocol.Prelude.Int.{ℤ}

-- A float64: `finite m e` is m * 2 ^ e, and `inf true` is minus infinity.
pub data Float : Type 0 where
  nan : Float
  inf : Bool → Float
  finite : ℤ → ℤ → Float

-- The values of `any` that the code builds: `number` is a `json.Number`, `int` an `int` or
-- `int64`, `uint` a `uint` or `uint64`, `bytes` a `[]byte`. `Items` is `[]any` (a `[]string` is
-- one of its values), `Fields` is `map[string]any`.
mutual
  pub data Value : Type 0 where
    null : Value
    bool : Bool → Value
    number : String → Value
    int : ℤ → Value
    uint : ℕ → Value
    float : Float → Value
    str : String → Value
    bytes : List ℕ → Value
    list : Items → Value
    obj : Fields → Value

  pub data Items : Type 0 where
    nil : Items
    cons : Value → Items → Items

  pub data Fields : Type 0 where
    end : Fields
    field : String → Value → Fields → Fields

-- What the code takes of Go's number parser and base64 encoder. A JSON number text parses to a
-- finite float or to a range error.
pub record Codec : Type 0 where
  pub parse_int64 : String → Option ℤ
  pub parse_float64 : String → Option (ℤ × ℤ)
  pub base64 : List ℕ → String

abbrev normalize_number : Option ℤ → Option (ℤ × ℤ) → String → Value
normalize_number (some i) f s = int i
normalize_number none (some (m, e)) s = float (finite m e)
normalize_number none none s = str s

abbrev normalize_float : Float → Value
normalize_float (finite m e) = float (finite m e)
normalize_float _ = null

-- `NormalizeJSON`.
unfoldable mutual
  pub normalize : Codec → Value → Value
  normalize k (number s) = normalize_number (k.parse_int64 s) (k.parse_float64 s) s
  normalize k (float f) = normalize_float f
  normalize k (bytes b) = str (k.base64 b)
  normalize k (list xs) = list (normalize_items k xs)
  normalize k (obj fs) = obj (normalize_fields k fs)
  normalize k null = null
  normalize k (bool b) = bool b
  normalize k (int i) = int i
  normalize k (uint n) = uint n
  normalize k (str s) = str s

  pub normalize_items : Codec → Items → Items
  normalize_items k nil = nil
  normalize_items k (cons x xs) = cons (normalize k x) (normalize_items k xs)

  pub normalize_fields : Codec → Fields → Fields
  normalize_fields k end = end
  normalize_fields k (field key v fs) = field key (normalize k v) (normalize_fields k fs)

-- `StringValue`, `ObjectValue` and `ListValue`.
unfoldable pub string_value : Value → Option String
string_value (str s) = some s
string_value _ = none

abbrev as_object : Value → Option Fields
as_object (obj fs) = some fs
as_object _ = none

abbrev as_list : Value → Option Items
as_list (list xs) = some xs
as_list _ = none

unfoldable pub object_value : Codec → Value → Option Fields
unfolding normalize
object_value k v = as_object (normalize k v)

unfoldable pub list_value : Codec → Value → Option Items
unfolding normalize
list_value k v = as_list (normalize k v)
