-- ===== src/Resolver.antt =====
-- resolver.go: the registry of cells and remote hosts, and the resolution of endpoints. A cell is
-- a handle; what cells and factories answer, the bridges and `url.Parse` come from outside.
pub mod Registry
pub mod Load
pub mod Laws
use Prim.Native.String
use go_cell_protocol.Prelude.{
  ℕ, String, Bool, true, false, not, ◌&&◌, ◌||◌, List, [], ◌∷◌, Option, none, some, Result, ok, err,
  Dict, lookup, insert, remove, str_eq, is_some, if◌then◌else◌, ◌⧺◌, cut, keep, ◌==◌,
}
use Prim.Native.Char.{code}
use go_cell_protocol.Identity.{Identity, Crypto, signing_public_key_fingerprint}
use go_cell_protocol.Identity.Control.{Draw, Purpose, proves_control}
use go_cell_protocol.Cell.{
  CellUsageScope, scaffold_unique, template, identity_unique, Persistancy, ephemeral,
}

-- `url.URL`, as far as it is used.
pub record Url : Type 0 where
  pub scheme : String
  pub host : String
  pub path : String

-- What a call takes from outside: the URL parser, the UUID of the cell behind a handle, factories,
-- new bridges, and the library and draws of a proof of control, with the address of an identity.
pub record World : Type 0 where
  pub parse_url : String → Result Url
  pub cell_uuid : ℕ → String
  pub make : ℕ → Option Identity → Result (Option ℕ)
  pub new_bridge : String → Option Identity → Bool → ℕ
  pub crypto : Crypto
  pub draw : Purpose → Draw
  pub address : Identity → String

-- `RemoteCellHostRoute`.
pub record RemoteCellHostRoute : Type 0 where
  pub websocket_endpoint : String
  pub scheme_preference : String
  pub path_layout : String

unfoldable pub new_remote_cell_host_route : RemoteCellHostRoute
new_remote_cell_host_route = record {
  websocket_endpoint = "bridgehead";
  scheme_preference = "automatic";
  path_layout = "publisherUUIDThenEndpoint";
}

unfoldable pub websocket_scheme : RemoteCellHostRoute → Bool → Result String
websocket_scheme r allows_insecure =
    if str_eq r.scheme_preference "" || str_eq r.scheme_preference "automatic"
    then ok (if allows_insecure then "ws" else "wss")
    else if str_eq r.scheme_preference "ws"
    then if allows_insecure then ok "ws" else err "insecure ws transport is disabled"
    else if str_eq r.scheme_preference "wss"
    then ok "wss"
    else err ("unsupported websocket scheme: " ⧺ r.scheme_preference)

-- `strings.Trim(s, "/")`.
unfoldable pub trim_left_slashes : String → String
trim_left_slashes String.[] = ""
trim_left_slashes (String.◌∷◌ c s) =
    let rest = trim_left_slashes s in if code c == b'/' then rest else String.◌∷◌ c s

unfoldable pub trim_right_slashes : String → String
trim_right_slashes String.[] = ""
trim_right_slashes (String.◌∷◌ c s) =
    let rest = trim_right_slashes s in
    if code c == b'/' && str_eq rest "" then "" else String.◌∷◌ c rest

abbrev pub trim_slashes : String → String
trim_slashes s = trim_right_slashes (trim_left_slashes s)

-- `BridgePath`.
unfoldable pub bridge_path : RemoteCellHostRoute → String → String → String
unfolding trim_left_slashes trim_right_slashes
bridge_path r endpoint publisher_uuid =
    let trimmed = trim_slashes r.websocket_endpoint in
    let prefix = if str_eq trimmed "" then "bridgehead" else trimmed in
    if str_eq r.path_layout "" || str_eq r.path_layout "publisherUUIDThenEndpoint"
    then "/" ⧺ (prefix ⧺ ("/" ⧺ (publisher_uuid ⧺ ("/" ⧺ trim_slashes endpoint))))
    else "/" ⧺ (prefix ⧺ ("/" ⧺ (trim_slashes endpoint ⧺ ("/" ⧺ publisher_uuid))))

-- `BridgeURL`.
unfoldable pub bridge_url : RemoteCellHostRoute → String → String → String → Bool → Result String
unfolding websocket_scheme bridge_path
bridge_url r host endpoint publisher_uuid allows_insecure =
    elim (websocket_scheme r allows_insecure) [
      | err x ↦ err x
      | ok scheme ↦ ok (scheme ⧺ ("://" ⧺ (host ⧺ bridge_path r endpoint publisher_uuid)))
    ]

-- `CellResolve`.
pub record CellResolve : Type 0 where
  pub name : String
  pub emit_cell : Option ℕ
  pub factory : Option ℕ
  pub scope : CellUsageScope
  pub identity : Option Identity
  pub persistancy : Persistancy
  pub scaffold_instance : Option ℕ
  pub identity_instances : Dict ℕ

-- `CellResolver`.
pub record CellResolver : Type 0 where
  pub allows_insecure : Bool
  pub named : Dict CellResolve
  pub by_uuid : Dict ℕ
  pub remote_hosts : Dict RemoteCellHostRoute
  pub remote_cache : Dict ℕ

unfoldable pub new_cell_resolver : CellResolver
new_cell_resolver = record {
  allows_insecure = false;
  named = [];
  by_uuid = [];
  remote_hosts = [];
  remote_cache = [];
}

unfoldable pub allow_insecure_web_sockets : CellResolver → Bool → CellResolver
allow_insecure_web_sockets r allow = record r { allows_insecure = allow }

-- `RegisterOptions`; a scope or persistancy that is not given is `none`.
pub record RegisterOptions : Type 0 where
  pub scope : Option CellUsageScope
  pub identity : Option Identity
  pub factory : Option ℕ
  pub persistancy : Option Persistancy

unfoldable pub register_remote_host : CellResolver → String → RemoteCellHostRoute → CellResolver
register_remote_host r host route = record r {
  remote_hosts =
      insert host (if str_eq route.websocket_endpoint "" then new_remote_cell_host_route else route)
        r.remote_hosts;
}

unfoldable pub unregister_remote_host : CellResolver → String → CellResolver
unregister_remote_host r host = record r { remote_hosts = remove host r.remote_hosts }

abbrev pub or_else {ℓ} : {A : Type ℓ} → Option A → Option A → Option A
or_else none o = o
or_else (some x) o = some x

abbrev pub with_default {ℓ} : {A : Type ℓ} → A → Option A → A
with_default d none = d
with_default d (some x) = x

module _ (w : World) where
  -- `identityReferenceKey`.
  unfoldable pub reference_key : Option Identity → String
  reference_key none = "anonymous"
  reference_key (some i) = elim (signing_public_key_fingerprint w.crypto i) [
    | err x ↦ i.uuid ⧺ "|unverified"
    | ok fingerprint ↦ i.uuid ⧺ ("|" ⧺ fingerprint)
  ]

  abbrev principal_purpose : Identity → Purpose
  principal_purpose i = record {
    domain = i.domain;
    resource = "cellprotocol.runtime-principal";
    action = "resolve";
    audience = "GoCellProtocol";
  }

  -- `identityRuntimePrincipalKey`.
  unfoldable pub principal_key : Option Identity → String
  unfolding reference_key proves_control
  principal_key none = "anonymous"
  principal_key (some i) =
      if proves_control w.crypto (some i) (some i) (principal_purpose i)
        (w.draw (principal_purpose i))
      then reference_key (some i)
      else reference_key (some i) ⧺ ("|unproved:" ⧺ w.address i)

  -- `newInstance`.
  unfoldable pub new_instance : CellResolve → Option Identity → Result (Option ℕ)
  new_instance r requester = elim r.factory [
    | some f ↦ w.make f (or_else requester r.identity)
    | none ↦ elim r.emit_cell [
      | some x ↦ ok (some x)
      | none ↦ err ("no cell factory registered for " ⧺ r.name)
    ]
  ]

  abbrev pub scope_key : CellResolve → Option Identity → String
  scope_key r requester = principal_key (or_else requester r.identity)

  -- A new instance is kept, unless it is nil.
  abbrev pub keep_identity :
      CellResolve → String → Result (Option ℕ) → CellResolve × Result (Option ℕ)
  keep_identity r key (err x) = (r, err x)
  keep_identity r key (ok none) = (r, ok none)
  keep_identity r key (ok (some x)) =
      (record r { identity_instances = insert key x r.identity_instances }, ok (some x))

  abbrev pub keep_scaffold : CellResolve → Result (Option ℕ) → CellResolve × Result (Option ℕ)
  keep_scaffold r (err x) = (r, err x)
  keep_scaffold r (ok none) = (r, ok none)
  keep_scaffold r (ok (some x)) = (record r { scaffold_instance = some x }, ok (some x))

  abbrev pub first_scaffold : CellResolve → Option Identity → Result (Option ℕ)
  first_scaffold r requester = elim r.emit_cell [
    | some x ↦ ok (some x)
    | none ↦ new_instance r requester
  ]

  abbrev pub resolve_in :
      CellUsageScope → CellResolve → Option Identity → CellResolve × Result (Option ℕ)
  resolve_in template r requester = (r, new_instance r requester)
  resolve_in identity_unique r requester =
      elim (lookup (scope_key r requester) r.identity_instances) [
        | some x ↦ (r, ok (some x))
        | none ↦ keep_identity r (scope_key r requester) (new_instance r requester)
      ]
  resolve_in scaffold_unique r requester = elim r.scaffold_instance [
    | some x ↦ (r, ok (some x))
    | none ↦ keep_scaffold r (first_scaffold r requester)
  ]

  -- `Resolve`.
  unfoldable pub resolve : CellResolve → Option Identity → CellResolve × Result (Option ℕ)
  unfolding new_instance principal_key
  resolve r requester = resolve_in r.scope r requester

  -- A cell is known by its UUID, if it has one.
  abbrev pub note_cell : CellResolver → Option ℕ → CellResolver
  note_cell r none = r
  note_cell r (some x) =
      if str_eq (w.cell_uuid x) ""
      then r
      else record r { by_uuid = insert (w.cell_uuid x) x r.by_uuid }
