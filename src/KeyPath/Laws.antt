-- ===== src/KeyPath/Laws.antt =====
-- The laws of `GetKeyPath` and `SetKeyPath` as their callers see them.
use go_cell_protocol.Prelude.{
  String, ◌≡◌, ◌≢◌, List, [], ◌∷◌, none, some, ok, err, any, if◌then◌else◌,
}
use go_cell_protocol.Value.{Codec, Value, Fields, normalize}
use go_cell_protocol.Value.Access.{lookup_field}
use go_cell_protocol.KeyPath.{get_key_path, set_key_path}
use go_cell_protocol.KeyPath.Parse.{PathToken, parse_key_path}
use go_cell_protocol.KeyPath.Parse.Laws.{parse_key_path-ne-nil}
use go_cell_protocol.KeyPath.RoundTrip.{
  IsPlain, is_negative, get-set_tokens, error-set_tokens, lookup-set_tokens_ne,
}

module _ (k : Codec) (sprint : Value → String) (root : Fields) (path : String) (v : Value) where
  -- A value written under a path whose selectors are keys and indices that are not negative is
  -- read back in normal form under the same path.
  pub get-set_key_path :
      (ts : List PathToken)
      → parse_key_path path ≡ ok ts
      → IsPlain ts
      → get_key_path sprint (set_key_path k sprint root path v).root path ≡ ok (normalize k v)
  unfolding get_key_path set_key_path
  get-set_key_path [] h p = absurd (parse_key_path-ne-nil path h)
  get-set_key_path (t ∷ ts) h p =
      rw (h, set_key_path) (rw (h, get_key_path) (get-set_tokens k sprint t ts root v p))

  -- A write leaves every key of the object alone but the first key of its path, whether it
  -- succeeds or fails.
  pub lookup-set_key_path_ne :
      (t : PathToken) (ts : List PathToken) (j : String)
      → parse_key_path path ≡ ok (t ∷ ts)
      → t.key ≢ j
      → lookup_field j (set_key_path k sprint root path v).root ≡ lookup_field j root
  unfolding set_key_path
  lookup-set_key_path_ne t ts j h ne =
      rw (h, set_key_path) (lookup-set_tokens_ne k sprint t ts j root v ne)

  -- A write fails exactly when its path does not parse or has an index below zero, with that
  -- error, and a path that does not parse changes nothing.
  pub error-set_key_path :
      let o = set_key_path k sprint root path v in
      ((e : String) → parse_key_path path ≡ err e → o ≡ record { root = root; error = some e })
      × ((ts : List PathToken)
          → parse_key_path path ≡ ok ts
          → o.error
            ≡ (if any (λ t. is_negative t.selector) ts then some "invalid selector" else none))
  unfolding set_key_path
  error-set_key_path = (
    λ e h. rw (h, set_key_path),
    λ ts h. rw (h, set_key_path) (error-set_tokens k sprint ts root v),
  )
