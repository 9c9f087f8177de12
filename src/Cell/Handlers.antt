-- ===== src/Cell/Handlers.antt =====
-- `handlerFor` and `Keys`: which handler serves a keypath, and the keys that a cell shows.
use go_cell_protocol.Prelude.{
  String, Bool, ◌||◌, List, [], ◌∷◌, ◌++◌, Option, none, some, str_eq, ltb, length, codes,
  if◌then◌else◌, ◌⧺◌, Dict, has_prefix, any,
}
use go_cell_protocol.Value.{Fields, end, field}
use go_cell_protocol.Agreement.Condition.{sort_strings}
use go_cell_protocol.Cell.{GeneralCell}

abbrev pub serves : String → String → Bool
serves keypath key = str_eq keypath key || has_prefix keypath (key ⧺ ".")

abbrev longer {ℓ} : {V : Type ℓ} → String × V → Option (String × V) → Option (String × V)
longer x none = some x
longer x (some y) = if ltb (length (codes x.0)) (length (codes y.0)) then some y else some x

module _ {ℓ} {V : Type ℓ} where
  -- The candidate of `handlerFor` with the longest key.
  unfoldable pub best_handler : String → Dict V → Option (String × V)
  best_handler keypath [] = none
  best_handler keypath ((key, v) ∷ m) =
      let rest = best_handler keypath m in if serves keypath key then longer (key, v) rest else rest

  -- `handlerFor`.
  unfoldable pub handler_for : String → Dict V → Option V
  unfolding best_handler
  handler_for keypath m = elim (best_handler keypath m) [ none ↦ none | some (key, v) ↦ some v ]

  unfoldable pub dict_keys : Dict V → List String
  dict_keys [] = []
  dict_keys ((key, v) ∷ m) = key ∷ dict_keys m

unfoldable pub field_keys : Fields → List String
field_keys end = []
field_keys (field key v fs) = key ∷ field_keys fs

-- A set of names, each once.
unfoldable pub distinct : List String → List String
distinct [] = []
distinct (a ∷ l) = let rest = distinct l in if any (λ b. str_eq a b) rest then rest else a ∷ rest

-- `Keys`.
unfoldable pub keys : GeneralCell → List String
unfolding dict_keys field_keys distinct
keys c = sort_strings (
    distinct (
      dict_keys c.explore_contracts
      ++ (dict_keys c.get_handlers ++ (dict_keys c.set_handlers ++ field_keys c.storage))))
