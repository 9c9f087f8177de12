-- ===== src/Cell/Storage/Laws.antt =====
-- What a cell gives back of what was written into it, and what a refused call leaves.
use go_cell_protocol.Prelude.{
  String, ◌≡◌, refl, false, List, Option, none, ok, err, str_eq, Option-cases, inl, inr,
}
use go_cell_protocol.Value.{Value, normalize}
use go_cell_protocol.KeyPath.{set_key_path}
use go_cell_protocol.KeyPath.Parse.{PathToken, parse_key_path}
use go_cell_protocol.KeyPath.RoundTrip.{IsPlain}
use go_cell_protocol.KeyPath.Laws.{get-set_key_path}
use go_cell_protocol.Identity.{Identity}
use go_cell_protocol.Cell.{GeneralCell, Env, value}
use go_cell_protocol.Cell.Handlers.{handler_for}
use go_cell_protocol.Cell.Access.{get_with, read_behind}
use go_cell_protocol.Cell.Storage.{validate_access, get, set}
use go_cell_protocol.Cell.Flow.{push_flow_element}

module _ (e : Env) where
  -- A `Set` that the access check refuses changes nothing and gives the check's error.
  pub set_denied :
      (c : GeneralCell) (keypath : String) (v : Value) (requester : Option Identity) (x : String)
      → validate_access e c "write" keypath requester ≡ err x
      → set e c keypath v requester ≡ (c, err x)
  unfolding set
  set_denied c keypath v requester x h = rw (h, set) refl

  -- A write that passes, on a keypath that no handler serves, leaves the storage that
  -- `SetKeyPath` leaves, and the handlers.
  set_stores :
      (c : GeneralCell) (keypath : String) (v : Value) (requester : Option Identity)
      → validate_access e c "write" keypath requester ≡ ok tt
      → handler_for keypath c.set_handlers ≡ none
      → let after = (set e c keypath v requester).0 in
        (after.storage ≡ (set_key_path e.codec e.sprint c.storage keypath v).root)
        × (after.get_handlers ≡ c.get_handlers)
  unfolding set push_flow_element
  set_stores c keypath v requester h n =
      elim (Option-cases (set_key_path e.codec e.sprint c.storage keypath v).error) [
        | inl y ↦ rw (h, n, y, set) (refl, refl)
        | inr (x, y) ↦ rw (h, n, y, set) (refl, refl)
      ]

  -- A value that a requester may write, on a keypath that no handler serves and whose selectors
  -- are keys and indices that are not negative, is read back in normal form by everyone who may
  -- read the keypath afterwards, unless the keypath is `description` or `keys`.
  pub get-set :
      (c : GeneralCell) (keypath : String) (ts : List PathToken) (v : Value)
      (writer reader : Option Identity)
      → validate_access e c "write" keypath writer ≡ ok tt
      → handler_for keypath c.set_handlers ≡ none
      → handler_for keypath c.get_handlers ≡ none
      → parse_key_path keypath ≡ ok ts
      → IsPlain ts
      → str_eq keypath "description" ≡ false
      → str_eq keypath "keys" ≡ false
      → validate_access e (set e c keypath v writer).0 "read" keypath reader ≡ ok tt
      → get e (set e c keypath v writer).0 keypath reader ≡ ok (value (normalize e.codec v))
  unfolding get get_with read_behind validate_access
  get-set c keypath ts v writer reader w n m p plain nd nk r =
      let (stored, same) = set_stores c keypath v writer w n in
      let back = get-set_key_path e.codec e.sprint c.storage keypath v ts p plain in
      rw (nd, nk, r, read_behind, same, m, stored, back) refl
