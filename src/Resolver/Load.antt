-- ===== src/Resolver/Load.antt =====
-- resolver.go: GetFromURL, SetIntoURL, NamedCells, and LoadCell with its references. The calls of
-- cells go to an outside state of any type, which each of them changes.
use Prim.Native.Char.{code}
use go_cell_protocol.Prelude.{
  ℕ, String, Bool, not, List, [], ◌∷◌, Option, none, some, Result, ok, err, str_eq, has_prefix,
  ◌==◌, if◌then◌else◌, ◌⧺◌,
}
use go_cell_protocol.Value.{Value}
use go_cell_protocol.Identity.{Identity}
use go_cell_protocol.Resolver.{
  Url, World, CellResolver, trim_slashes, trim_left_slashes, trim_right_slashes,
}
use go_cell_protocol.Resolver.Registry.{cell_at_endpoint, local_name}

-- `KeyValue`; a nil value is `none`.
pub record KeyValue : Type 0 where
  pub key : String
  pub value : Option Value
  pub target : String

-- `CellReference`, with its endpoint, whether it subscribes to the feed, its label, its
-- subscriptions and its keys and values.
mutual
  pub data CellReference : Type 0 where
    reference : String → Bool → String → References → List KeyValue → CellReference

  pub data References : Type 0 where
    no_references : References
    and_reference : CellReference → References → References

-- The part before the last slash and the part behind it, where there is one.
abbrev onto_path : String → Option (String × String) → Option (String × String)
onto_path letter none = none
onto_path letter (some (path, last)) = some (letter ⧺ path, last)

unfoldable pub cut_last : String → Option (String × String)
cut_last String.[] = none
cut_last (String.◌∷◌ c s) =
    let rest = cut_last s in
    elim rest [
      | some (path, last) ↦ some (String.◌∷◌ c path, last)
      | none ↦ if code c == b'/' then some ("", s) else none
    ]

-- `splitCellURL`, once the URL is parsed.
abbrev split_parsed : String → Url → Result (String × String)
split_parsed text u =
    if not (str_eq u.scheme "cell")
    then err ("expected cell URL, got " ⧺ text)
    else elim (cut_last (trim_slashes u.path)) [
      | none ↦ err ("cell URL must include cell and keypath: " ⧺ text)
      | some (path, keypath) ↦ ok (
        (if str_eq u.host "" then "cell:///" ⧺ path else "cell://" ⧺ (u.host ⧺ ("/" ⧺ path))),
        keypath,
      )
    ]

unfoldable pub split_cell_url : World → String → Result (String × String)
unfolding cut_last trim_left_slashes trim_right_slashes
split_cell_url w text = elim (w.parse_url text) [ err x ↦ err x | ok u ↦ split_parsed text u ]

-- The outside of a load: what cells answer, and how it changes.
pub record Outside (W : Type 0) : Type 0 where
  pub world : W → World
  pub attach : W → ℕ → ℕ → String → Option Identity → W × Result (Unit {0})
  pub absorb_flow : W → ℕ → String → Option Identity → W × Result (Unit {0})
  pub get : W → ℕ → String → Option Identity → W × Result Value
  pub set : W → ℕ → String → Value → Option Identity → W × Result Value

-- An action on the registry and the outside, which may fail.
abbrev pub Action : Type 0 → Type 0 → Type 0
Action W A = CellResolver × W → (CellResolver × W) × Result A

module _ {W : Type 0} where
  abbrev pub and_then :
      {A B : Type 0}
      → (CellResolver × W) × Result A
      → (A → Action W B)
      → (CellResolver × W) × Result B
  and_then (s, err x) f = (s, err x)
  and_then (s, ok a) f = f a s

  abbrev pub pure : {A : Type 0} → A → Action W A
  pure a s = (s, ok a)

  -- A call of a cell.
  abbrev pub outside : {A : Type 0} → (W → W × Result A) → Action W A
  outside f (r, w) = ((r, (f w).0), (f w).1)

module _ {W : Type 0} (o : Outside W) (requester : Option Identity) where
  abbrev not_nil : (CellResolver × W) × Result (Option ℕ) → (CellResolver × W) × Result ℕ
  not_nil (s, err x) = (s, err x)
  not_nil (s, ok none) = (s, err "nil cell")
  not_nil (s, ok (some x)) = (s, ok x)

  -- `CellAtEndpoint`, of a cell that is not nil.
  abbrev pub cell_at : String → Action W ℕ
  cell_at endpoint (r, w) =
      let found = cell_at_endpoint (o.world w) r endpoint requester in
      not_nil ((found.0, w), found.1)

  abbrev at_split : {A : Type 0} → Result (String × String) → (ℕ → String → Action W A) → Action W A
  at_split (err x) f s = (s, err x)
  at_split (ok (endpoint, keypath)) f s = and_then (cell_at endpoint s) (λ x. f x keypath)

  -- `GetFromURL`.
  unfoldable pub get_from_url : String → Action W Value
  unfolding split_cell_url cell_at_endpoint
  get_from_url text (r, w) =
      at_split (split_cell_url (o.world w) text)
        (λ x keypath. outside (λ w. o.get w x keypath requester)) (r, w)

  -- `SetIntoURL`.
  unfoldable pub set_into_url : Value → String → Action W Value
  unfolding split_cell_url cell_at_endpoint
  set_into_url v text (r, w) =
      at_split (split_cell_url (o.world w) text)
        (λ x keypath. outside (λ w. o.set w x keypath v requester)) (r, w)

  abbrev done : Value → Action W (Unit {0})
  done v s = (s, ok tt)

  -- What is done with a value that was read for a key.
  abbrev pass_on : ℕ → String → Value → Action W (Unit {0})
  pass_on x target v s =
      if has_prefix target "cell://"
      then and_then (set_into_url v target s) done
      else if not (str_eq target "")
      then and_then (outside (λ w. o.set w x target v requester) s) done
      else (s, ok tt)

  -- One round of the loop over `SetKeysAndValues`.
  unfoldable pub set_key_value : ℕ → KeyValue → Action W (Unit {0})
  unfolding set_into_url has_prefix
  set_key_value x kv s = elim kv.value [
    | some v ↦ and_then (outside (λ w. o.set w x kv.key v requester) s) done
    | none ↦ and_then (outside (λ w. o.get w x kv.key requester) s) (pass_on x kv.target)
  ]

  unfoldable pub set_keys_and_values : ℕ → List KeyValue → Action W (Unit {0})
  unfolding set_key_value
  set_keys_and_values x [] s = (s, ok tt)
  set_keys_and_values x (kv ∷ l) s = and_then (set_key_value x kv s) (λ _. set_keys_and_values x l)

  -- The cell is attached, and its feed is absorbed if the reference asks for it.
  unfoldable pub attach_reference : Option ℕ → ℕ → String → Bool → Action W (Unit {0})
  attach_reference none target label subscribes s = (s, ok tt)
  attach_reference (some into) target label subscribes s =
      and_then (outside (λ w. o.attach w into target label requester) s) (λ _ t.
        if subscribes then outside (λ w. o.absorb_flow w into label requester) t else (t, ok tt))

-- `loadReference` and its loop over subscriptions, which attach to the cell that was loaded.
unfoldable mutual
  unfolding cell_at_endpoint attach_reference set_keys_and_values local_name

  pub load_reference :
      {W : Type 0} → Outside W → Option Identity → Option ℕ → CellReference → Action W ℕ
  load_reference o requester into (reference endpoint subscribes label subs keys) s =
      and_then (cell_at o requester endpoint s) (λ target t.
        let name = if str_eq label "" then local_name (o.world t.1) endpoint else label in
        and_then (attach_reference o requester into target name subscribes t) (λ _ t.
          and_then (set_keys_and_values o requester target keys t)
            (λ _ t. and_then (load_subscriptions o requester target subs t) (λ _. pure target))))

  pub load_subscriptions :
      {W : Type 0} → Outside W → Option Identity → ℕ → References → Action W (Unit {0})
  load_subscriptions o requester target no_references s = (s, ok tt)
  load_subscriptions o requester target (and_reference ref l) s =
      and_then (load_reference o requester (some target) ref s)
        (λ _. load_subscriptions o requester target l)

-- `LoadCell`: the cells that were loaded, and the error that ended it.
unfoldable pub load_cell :
    {W : Type 0}
    → Outside W
    → Option Identity
    → Option ℕ
    → List CellReference
    → CellResolver × W
    → (CellResolver × W) × List ℕ × Option String
unfolding load_reference
load_cell o requester into [] s = (s, [], none)
load_cell o requester into (ref ∷ l) s = elim (load_reference o requester into ref s).1 [
  | err x ↦ ((load_reference o requester into ref s).0, [], some x)
  | ok cell ↦
      let rest = load_cell o requester into l (load_reference o requester into ref s).0 in
      (rest.0, cell ∷ rest.1, rest.2)
]
