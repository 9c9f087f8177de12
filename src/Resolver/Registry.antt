-- ===== src/Resolver/Registry.antt =====
-- The operations of `CellResolver` on its registry, and the resolution of an endpoint.
use go_cell_protocol.Prelude.{
  ℕ, String, Bool, false, not, ◌&&◌, ◌||◌, List, [], ◌∷◌, Option, none, some, Result, ok, err,
  lookup, insert, remove, str_eq, is_some, if◌then◌else◌, ◌⧺◌, cut, keep,
}
use go_cell_protocol.Identity.{Identity}
use go_cell_protocol.Cell.{scaffold_unique, ephemeral}
use go_cell_protocol.Resolver.{
  Url, World, bridge_url, trim_slashes, trim_left_slashes, trim_right_slashes, CellResolve,
  CellResolver, RegisterOptions, with_default, principal_key, resolve, note_cell,
}

-- `strings.Split(s, "/")[0]`.
abbrev first_part : String → String
first_part s = elim (cut b'/' s) [ none ↦ s | some (first, _) ↦ first ]

-- The part before the last slash and the part behind it, where there is one.
abbrev onto_both : Option (String × String) → String → Option (String × String)
onto_both none s = none
onto_both (some (head, last)) s = some (s ⧺ ("/" ⧺ head), last)

module _ (w : World) where
  abbrev pub local_from : Result Url → String → String
  local_from (err x) endpoint = first_part (trim_slashes endpoint)
  local_from (ok u) endpoint =
      if str_eq u.scheme "cell"
      then if str_eq u.host "" then first_part (trim_slashes u.path) else u.host
      else first_part (trim_slashes endpoint)

  -- `localName`.
  unfoldable pub local_name : String → String
  unfolding trim_left_slashes trim_right_slashes cut
  local_name endpoint = local_from (w.parse_url endpoint) endpoint

  -- `RegisterNamedEmitCell`; no error is `ok`.
  unfoldable pub register_named_emit_cell :
      CellResolver → String → Option ℕ → RegisterOptions → CellResolver × Result (Unit {0})
  register_named_emit_cell r name cell options =
      let entry : CellResolve = record {
        name = name;
        emit_cell = cell;
        factory = options.factory;
        scope = with_default scaffold_unique options.scope;
        identity = options.identity;
        persistancy = with_default ephemeral options.persistancy;
        scaffold_instance = none;
        identity_instances = [];
      } in
      if str_eq name ""
      then (r, err "cell name is required")
      else if is_some (lookup name r.named)
      then (r, err ("cell name already registered: " ⧺ name))
      else (note_cell w (record r { named = insert name entry r.named }) cell, ok tt)

  abbrev emits : String → CellResolve → Bool
  emits uuid entry = elim entry.emit_cell [ none ↦ false | some x ↦ str_eq (w.cell_uuid x) uuid ]

  -- `UnregisterEmitCell`.
  unfoldable pub unregister_emit_cell : CellResolver → String → CellResolver
  unregister_emit_cell r uuid = record r {
    by_uuid = remove uuid r.by_uuid;
    named = keep (λ (e : String × CellResolve). not (emits uuid e.1)) r.named;
  }

  -- `remoteBridge`.
  unfoldable pub remote_bridge : CellResolver → String → Option Identity → CellResolver × ℕ
  unfolding principal_key
  remote_bridge r url requester =
      let key = url ⧺ ("|" ⧺ principal_key w requester) in
      let bridge = w.new_bridge url requester r.allows_insecure in
      elim (lookup key r.remote_cache) [
        | some x ↦ (r, x)
        | none ↦ (record r { remote_cache = insert key bridge r.remote_cache }, bridge)
      ]

  abbrev pub bridged : CellResolver × ℕ → CellResolver × Result (Option ℕ)
  bridged (r, x) = (r, ok (some x))

  abbrev publisher_of : Option Identity → String
  publisher_of none = "anonymous"
  publisher_of (some i) = i.uuid

  abbrev pub on_bridge :
      CellResolver → Result String → Option Identity → CellResolver × Result (Option ℕ)
  on_bridge r (err x) requester = (r, err x)
  on_bridge r (ok url) requester = bridged (remote_bridge r url requester)

  -- The cell of a remote host.
  unfoldable pub at_remote_host :
      CellResolver → Url → Option Identity → CellResolver × Result (Option ℕ)
  unfolding bridge_url remote_bridge
  at_remote_host r u requester = elim (lookup u.host r.remote_hosts) [
    | none ↦ (r, err ("no remote host route registered for " ⧺ u.host))
    | some route ↦
        on_bridge r
          (bridge_url route u.host (trim_slashes u.path) (publisher_of requester) r.allows_insecure)
          requester
  ]

  -- The registered entry after a resolution, and the cell by its UUID.
  abbrev pub resolved :
      CellResolver → String → CellResolve × Result (Option ℕ) → CellResolver × Result (Option ℕ)
  resolved r name (entry, err x) = (record r { named = insert name entry r.named }, err x)
  resolved r name (entry, ok cell) =
      (note_cell w (record r { named = insert name entry r.named }) cell, ok cell)

  -- The part of `CellAtEndpoint` on this node.
  unfoldable pub at_local_name :
      CellResolver → String → String → Option Identity → CellResolver × Result (Option ℕ)
  unfolding resolve
  at_local_name r name endpoint requester = elim (lookup name r.named) [
    | some entry ↦ resolved r name (resolve w entry requester)
    | none ↦ elim (lookup name r.by_uuid) [
      | some x ↦ (r, ok (some x))
      | none ↦ (r, err ("no cell registered for endpoint: " ⧺ endpoint))
    ]
  ]

  abbrev pub at_url :
      CellResolver → Url → String → Option Identity → CellResolver × Result (Option ℕ)
  at_url r u endpoint requester =
      if str_eq u.scheme "ws" || str_eq u.scheme "wss"
      then bridged (remote_bridge r endpoint requester)
      else if str_eq u.scheme "cell" && not (str_eq u.host "")
      then at_remote_host r u requester
      else if str_eq u.scheme "cell" || str_eq u.scheme ""
      then at_local_name r (local_name endpoint) endpoint requester
      else (r, err ("unsupported endpoint scheme: " ⧺ u.scheme))

  -- `CellAtEndpoint`.
  unfoldable pub cell_at_endpoint :
      CellResolver → String → Option Identity → CellResolver × Result (Option ℕ)
  unfolding remote_bridge at_remote_host at_local_name local_name
  cell_at_endpoint r endpoint requester = elim (w.parse_url endpoint) [
    | err x ↦ (r, err x)
    | ok u ↦ at_url r u endpoint requester
  ]

  -- `NamedCells`, in the order of the registry; each entry is resolved on its own.
  unfoldable pub named_cells :
      List (String × CellResolve)
      → Option Identity
      → CellResolver
      → CellResolver × Result (List (String × Option ℕ))
  unfolding resolve
  named_cells [] requester r = (r, ok [])
  named_cells ((name, entry) ∷ l) requester r =
      let found = resolve w entry requester in
      let next : CellResolver = record r { named = insert name found.0 r.named } in
      let rest = named_cells l requester next in
      elim found.1 [
        | err x ↦ (next, err x)
        | ok cell ↦ (rest.0, elim rest.1 [ err x ↦ err x | ok cells ↦ ok ((name, cell) ∷ cells) ])
      ]
