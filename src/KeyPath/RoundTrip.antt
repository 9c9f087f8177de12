-- ===== src/KeyPath/RoundTrip.antt =====
-- What a write under a key path does to later reads.
use go_cell_protocol.Prelude.{
  ℕ, String, ◌≡◌, ◌≢◌, refl, Bool, true, false, List, [], ◌∷◌, Option, none, some, Result, ok, all,
  Option-cases, inl, inr, ◌||◌, ap, ◌∙◌, if◌then◌else◌, any, &&_true,
}
use go_cell_protocol.Prelude.Int.{pos, negsuc}
use go_cell_protocol.Value.{Codec, Value, Items, Fields, obj, end, normalize}
use go_cell_protocol.Value.Access.{
  lookup_field, nth, pad, snoc, length, lookup-set_field_self, lookup-set_field_ne,
  nth-set_nth_self, lt-length-pad,
}
use go_cell_protocol.KeyPath.Parse.{PathToken, Selector, whole, append, index, match}
use go_cell_protocol.KeyPath.Tokens.{
  Outcome, read_token, get_tokens, set_tokens, write_token, write_place, locate, find_match, select,
  select_item, Place, is_last, object_or_empty, items_or_nil,
}

-- A selector that names one place: a key alone, or an index that is not negative.
abbrev pub is_plain : Selector → Bool
is_plain whole = true
is_plain (index (pos i)) = true
is_plain _ = false

-- The selectors of a path that names one place.
abbrev pub IsPlain : List PathToken → Type 0
IsPlain ts = all (λ t. is_plain t.selector) ts ≡ true

-- An index below zero.
abbrev pub is_negative : Selector → Bool
is_negative (index (negsuc i)) = true
is_negative _ = false

or_false : (b : Bool) → b ≡ (b || false)
or_false true = refl
or_false false = refl

or_else :
    (b c : Bool) (o : Option String)
    → o ≡ (if c then some "invalid selector" else none)
    → (if b then some "invalid selector" else o)
      ≡ (if b || c then some "invalid selector" else none)
or_else true c o h = refl
or_else false c o h = h

module _ (sprint : Value → String) where
  read-write_last :
      (s : Selector) (key : String) (deeper : Fields → Outcome) (fs : Fields) (v : Value)
      → is_plain s ≡ true
      → read_token sprint
          (record { key = key; selector = s })
          (obj (write_token sprint s key true deeper fs v).root)
        ≡ ok v
  unfolding read_token write_token write_place locate select select_item
  read-write_last whole key deeper fs v h = rw (lookup-set_field_self, read_token)
  read-write_last (index (pos i)) key deeper fs v h =
      let xs = items_or_nil (lookup_field key fs) in
      rw (lookup-set_field_self, read_token)
        (rw (nth-set_nth_self (pad xs i) i v (lt-length-pad xs i)))
  read-write_last append key deeper fs v h = cc
  read-write_last (index (negsuc i)) key deeper fs v h = cc
  read-write_last (match a b) key deeper fs v h = cc

  -- One round that goes deeper reads back as the object that the deeper rounds leave.
  read-write_deeper :
      (s : Selector) (key : String) (deeper : Fields → Outcome) (fs : Fields) (v : Value)
      → is_plain s ≡ true
      → (sub : Fields) × (read_token sprint
            (record { key = key; selector = s })
            (obj (write_token sprint s key false deeper fs v).root)
          ≡ ok (obj (deeper sub).root))
        × ((write_token sprint s key false deeper fs v).error ≡ (deeper sub).error)
  unfolding read_token write_token write_place locate select select_item
  read-write_deeper whole key deeper fs v h =
      (object_or_empty (lookup_field key fs), rw (lookup-set_field_self, read_token), refl)
  read-write_deeper (index (pos i)) key deeper fs v h =
      let xs = items_or_nil (lookup_field key fs) in
      let sub = object_or_empty (nth (pad xs i) i) in
      (
        sub,
        rw (lookup-set_field_self, read_token)
            (rw (nth-set_nth_self (pad xs i) i _ (lt-length-pad xs i))),
        refl,
      )
  read-write_deeper append key deeper fs v h = (fs, cc, cc)
  read-write_deeper (index (negsuc i)) key deeper fs v h = (fs, cc, cc)
  read-write_deeper (match a b) key deeper fs v h = (fs, cc, cc)

  -- A round touches no other key of its object.
  lookup-write_place_ne :
      (key j : String) (last : Bool) (deeper : Fields → Outcome) (fs : Fields) (v : Value)
      (p : Place)
      → key ≢ j
      → lookup_field j (write_place key last deeper fs v p).root ≡ lookup_field j fs
  unfolding write_place
  lookup-write_place_ne key j true deeper fs v p h = elim (Option-cases p.at) [
    | inl e ↦ rw (e, write_place)
    | inr (i, e) ↦ rw (e, write_place) (lookup-set_field_ne key j _ fs h)
  ]
  lookup-write_place_ne key j false deeper fs v p h = elim (Option-cases p.at) [
    | inl e ↦ rw (e, write_place)
    | inr (i, e) ↦ rw (e, write_place) (lookup-set_field_ne key j _ fs h)
  ]

  lookup-write_token_ne :
      (s : Selector) (key j : String) (last : Bool) (deeper : Fields → Outcome) (fs : Fields)
      (v : Value)
      → key ≢ j
      → lookup_field j (write_token sprint s key last deeper fs v).root ≡ lookup_field j fs
  unfolding write_token
  lookup-write_token_ne whole key j true deeper fs v h = lookup-set_field_ne key j v fs h
  lookup-write_token_ne whole key j false deeper fs v h = lookup-set_field_ne key j _ fs h
  lookup-write_token_ne s key j last deeper fs v h =
      lookup-write_place_ne key j last deeper fs v _ h

  error-write_last :
      (s : Selector) (key : String) (deeper : Fields → Outcome) (fs : Fields) (v : Value)
      → (write_token sprint s key true deeper fs v).error
        ≡ (if is_negative s then some "invalid selector" else none)
  unfolding write_token write_place locate
  error-write_last whole key deeper fs v = refl
  error-write_last append key deeper fs v = refl
  error-write_last (index (pos i)) key deeper fs v = refl
  error-write_last (index (negsuc i)) key deeper fs v = refl
  error-write_last (match a b) key deeper fs v = elim (Option-cases (find_match sprint a b xs)) [
    | inl e ↦ rw (e, write_place, locate)
    | inr (i, e) ↦ rw (e, write_place, locate)
  ]
    where
      xs : Items
      xs = items_or_nil (lookup_field key fs)

  locate-match_at :
      (a b : String) (xs : Items) → (i : ℕ) × ((locate sprint (match a b) xs).at ≡ some i)
  unfolding locate
  locate-match_at a b xs = elim (Option-cases (find_match sprint a b xs)) [
    | inl e ↦ (length xs, rw (e, locate))
    | inr (i, e) ↦ (i, rw (e, locate))
  ]

  error_at_place :
      (key : String) (deeper : Fields → Outcome) (fs : Fields) (v : Value) (p : Place)
      → (i : ℕ) × (p.at ≡ some i)
      → (sub : Fields) × ((write_place key false deeper fs v p).error ≡ (deeper sub).error)
  unfolding write_place
  error_at_place key deeper fs v p (i, e) = (object_or_empty (nth p.items i), rw (e, write_place))

  -- A round that goes deeper fails at a negative index, and otherwise as the deeper rounds do.
  error-write_deeper :
      (s : Selector) (key : String) (deeper : Fields → Outcome) (fs : Fields) (v : Value)
      → (sub : Fields) × ((write_token sprint s key false deeper fs v).error
          ≡ (if is_negative s then some "invalid selector" else (deeper sub).error))
  unfolding write_token write_place locate
  error-write_deeper whole key deeper fs v = (object_or_empty (lookup_field key fs), refl)
  error-write_deeper append key deeper fs v =
      let xs = items_or_nil (lookup_field key fs) in
      (object_or_empty (nth (snoc xs (obj end)) (length xs)), refl)
  error-write_deeper (index (pos i)) key deeper fs v =
      (object_or_empty (nth (pad (items_or_nil (lookup_field key fs)) i) i), refl)
  error-write_deeper (index (negsuc i)) key deeper fs v = (fs, refl)
  error-write_deeper (match a b) key deeper fs v =
      error_at_place key deeper fs v _ (locate-match_at a b (items_or_nil (lookup_field key fs)))

  get_tokens-cons :
      (t : PathToken) (ts : List PathToken) (v w : Value) {r : Result Value}
      → read_token sprint t v ≡ ok w
      → get_tokens sprint ts w ≡ r
      → get_tokens sprint (t ∷ ts) v ≡ r
  unfolding get_tokens
  get_tokens-cons t ts v w h e = rw (h, get_tokens) e

module _ (k : Codec) (sprint : Value → String) where
  pub get-set_tokens :
      (t : PathToken) (ts : List PathToken) (fs : Fields) (v : Value)
      → IsPlain (t ∷ ts)
      → get_tokens sprint (t ∷ ts) (obj (set_tokens k sprint (t ∷ ts) fs v).root)
        ≡ ok (normalize k v)
  unfolding set_tokens
  get-set_tokens t [] fs v h =
      get_tokens-cons sprint t [] _ (normalize k v)
        (read-write_last sprint t.selector t.key _ fs (normalize k v) (&&_true _ _ h).0)
        (unfold get_tokens in refl)
  get-set_tokens t (t2 ∷ ts) fs v h =
      let deeper : Fields → Outcome = λ sub. set_tokens k sprint (t2 ∷ ts) sub v in
      let (sub, reads, errors) =
        read-write_deeper sprint t.selector t.key deeper fs (normalize k v) (&&_true _ _ h).0 in
      get_tokens-cons sprint t (t2 ∷ ts) _ _ reads (get-set_tokens t2 ts sub v (&&_true _ _ h).1)

  -- A write fails exactly at a negative index.
  pub error-set_tokens :
      (ts : List PathToken) (fs : Fields) (v : Value)
      → (set_tokens k sprint ts fs v).error
        ≡ (if any (λ t. is_negative t.selector) ts then some "invalid selector" else none)
  unfolding set_tokens
  error-set_tokens [] fs v = refl
  error-set_tokens (t ∷ []) fs v =
      error-write_last sprint t.selector t.key _ fs (normalize k v)
      ∙ ap (λ b. if b then some "invalid selector" else none) (or_false (is_negative t.selector))
  error-set_tokens (t ∷ t2 ∷ ts) fs v =
      let deeper : Fields → Outcome = λ sub. set_tokens k sprint (t2 ∷ ts) sub v in
      let (sub, e) = error-write_deeper sprint t.selector t.key deeper fs (normalize k v) in
      e ∙ or_else (is_negative t.selector) _ _ (error-set_tokens (t2 ∷ ts) sub v)

  pub lookup-set_tokens_ne :
      (t : PathToken) (ts : List PathToken) (j : String) (fs : Fields) (v : Value)
      → t.key ≢ j
      → lookup_field j (set_tokens k sprint (t ∷ ts) fs v).root ≡ lookup_field j fs
  unfolding set_tokens
  lookup-set_tokens_ne t ts j fs v h =
      lookup-write_token_ne sprint t.selector t.key j (is_last ts) _ fs (normalize k v) h
