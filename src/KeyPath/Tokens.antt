-- ===== src/KeyPath/Tokens.antt =====
-- The loops of `GetKeyPath` and `SetKeyPath`, over parsed tokens. `sprint` is `fmt.Sprint`; a
-- missing key reads as `null`.
use go_cell_protocol.Prelude.{
  ℕ, String, Bool, true, false, List, [], ◌∷◌, Option, none, some, Result, ok, err, str_eq,
  if◌then◌else◌, ◌⧺◌,
}
use go_cell_protocol.Prelude.Int.{pos, negsuc}
use go_cell_protocol.Value.{
  Codec, Value, Items, Fields, null, str, list, obj, nil, cons, end, field, normalize,
}
use go_cell_protocol.Value.Access.{lookup_field, set_field, length, nth, set_nth, pad, snoc}
use go_cell_protocol.KeyPath.Parse.{PathToken, Selector, whole, append, index, match}

abbrev pub or_null : Option Value → Value
or_null none = null
or_null (some v) = v

module _ (sprint : Value → String) where
  -- `fmt.Sprint(obj[matchKey]) == matchVal`, for an item that is an object.
  abbrev pub item_matches : String → String → Value → Bool
  item_matches k v (obj fs) = str_eq (sprint (or_null (lookup_field k fs))) v
  item_matches k v _ = false

  -- The index of the first item that matches.
  unfoldable pub find_match : String → String → Items → Option ℕ
  find_match k v nil = none
  find_match k v (cons x xs) =
      let rest = find_match k v xs in
      if item_matches k v x then some 0 else elim rest [ none ↦ none | some i ↦ some (ℕ.suc i) ]

  abbrev pub or_error : String → Option Value → Result Value
  or_error e none = err e
  or_error e (some v) = ok v

  -- The `switch` of `GetKeyPath` on a list.
  unfoldable pub select_item : Selector → Items → Result Value
  select_item whole xs = ok (list xs)
  select_item append xs = err "cannot read append selector"
  select_item (index (pos i)) xs = or_error "index out of range" (nth xs i)
  select_item (index (negsuc i)) xs = err "index out of range"
  select_item (match k v) xs = elim (find_match k v xs) [
    | none ↦ err "no matching list item"
    | some i ↦ or_error "no matching list item" (nth xs i)
  ]

  abbrev pub select_list : Selector → String → Value → Result Value
  select_list s key (list xs) = select_item s xs
  select_list s key _ = err ("expected list at " ⧺ key)

  unfoldable pub select : Selector → String → Value → Result Value
  select whole key v = ok v
  select s key v = select_list s key v

  unfoldable pub read_token : PathToken → Value → Result Value
  read_token t (obj fs) = elim (lookup_field t.key fs) [
    | none ↦ err ("missing key " ⧺ t.key)
    | some v ↦ select t.selector t.key v
  ]
  read_token t _ = err "expected object"

  unfoldable pub get_tokens : List PathToken → Value → Result Value
  get_tokens [] v = ok v
  get_tokens (t ∷ ts) v = elim (read_token t v) [ ok w ↦ get_tokens ts w | err e ↦ err e ]

-- What `SetKeyPath` leaves behind: the object, written in place, and the error.
pub record Outcome : Type 0 where
  pub root : Fields
  pub error : Option String

abbrev pub items_or_nil : Option Value → Items
items_or_nil (some (list xs)) = xs
items_or_nil _ = nil

abbrev pub object_or_empty : Option Value → Fields
object_or_empty (some (obj fs)) = fs
object_or_empty _ = end

-- `list[idx] = v; current[key] = list`.
abbrev pub put_item : String → Items → ℕ → Value → Fields → Fields
put_item key xs i v fs = set_field key (list (set_nth xs i v)) fs

-- The list and the index that a selector leads to; no index for "invalid selector".
pub record Place : Type 0 where
  pub items : Items
  pub at : Option ℕ

module _ (sprint : Value → String) where
  unfoldable pub locate : Selector → Items → Place
  locate append xs = record { items = snoc xs (obj end); at = some (length xs) }
  locate (index (pos i)) xs = record { items = pad xs i; at = some i }
  locate (index (negsuc i)) xs = record { items = xs; at = none }
  locate (match k v) xs = elim (find_match sprint k v xs) [
    | some i ↦ record { items = xs; at = some i }
    | none ↦ record { items = snoc xs (obj (field k (str v) end)); at = some (length xs) }
  ]
  locate whole xs = record { items = xs; at = none }

-- The rest of the round once the list and its index are known; `deeper` is the loop on the other
-- tokens, over the child object.
unfoldable pub write_place : String → Bool → (Fields → Outcome) → Fields → Value → Place → Outcome
write_place key last deeper fs v p = elim p.at [
  | none ↦ record { root = fs; error = some "invalid selector" }
  | some i ↦
      if last
      then record { root = put_item key p.items i v fs; error = none }
      else let o = deeper (object_or_empty (nth p.items i)) in
        record { root = put_item key p.items i (obj o.root) fs; error = o.error }
]

module _ (sprint : Value → String) where
  -- One round of the loop of `SetKeyPath`.
  unfoldable pub write_token :
      Selector → String → Bool → (Fields → Outcome) → Fields → Value → Outcome
  write_token whole key last deeper fs v =
      if last
      then record { root = set_field key v fs; error = none }
      else let o = deeper (object_or_empty (lookup_field key fs)) in
        record { root = set_field key (obj o.root) fs; error = o.error }
  write_token s key last deeper fs v =
      write_place key last deeper fs v (locate sprint s (items_or_nil (lookup_field key fs)))

abbrev pub is_last : List PathToken → Bool
is_last [] = true
is_last _ = false

module _ (k : Codec) (sprint : Value → String) where
  unfoldable pub set_tokens : List PathToken → Fields → Value → Outcome
  set_tokens [] fs v = record { root = fs; error = none }
  set_tokens (t ∷ ts) fs v =
      write_token sprint t.selector t.key (is_last ts) (λ sub. set_tokens ts sub v) fs
        (normalize k v)
