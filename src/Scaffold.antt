-- ===== src/Scaffold.antt =====
-- runtime.go: the store in memory, and the scaffold that invokes cells and follows their lives. What
-- the cells answer comes from outside: any `CellProtocol` may stand behind a handle.
pub mod Laws
use go_cell_protocol.Prelude.{
  ℕ, String, List, [], ◌∷◌, ◌++◌, Option, none, some, Result, ok, err, Dict, lookup, insert, ◌⧺◌,
}
use go_cell_protocol.Value.{Codec, Value, null, normalize}
use go_cell_protocol.Identity.{Identity}
use go_cell_protocol.Flow.{FlowElement}
use go_cell_protocol.Resolver.{World, CellResolver, RegisterOptions, new_cell_resolver}
use go_cell_protocol.Resolver.Registry.{register_named_emit_cell, cell_at_endpoint}

-- `LifecycleState`.
pub data LifecycleState : Type 0 where
  instantiated active running suspended terminated : LifecycleState

-- `InMemoryStore`.
pub record InMemoryStore : Type 0 where
  pub states : Dict Value
  pub flows : Dict (List FlowElement)

unfoldable pub new_in_memory_store : InMemoryStore
new_in_memory_store = record { states = []; flows = [] }

unfoldable pub save_state : Codec → InMemoryStore → String → Value → InMemoryStore
save_state codec s uuid state = record s { states = insert uuid (normalize codec state) s.states }

-- `State`; a missing entry is nil.
unfoldable pub stored_state : Codec → InMemoryStore → String → Value
stored_state codec s uuid = elim (lookup uuid s.states) [ none ↦ null | some v ↦ normalize codec v ]

-- `InMemoryStore.Flow`.
unfoldable pub stored_flow : InMemoryStore → String → List FlowElement
stored_flow s uuid = elim (lookup uuid s.flows) [ none ↦ [] | some l ↦ l ]

unfoldable pub append_flow : InMemoryStore → String → FlowElement → InMemoryStore
unfolding stored_flow
append_flow s uuid element = record s {
  flows = insert uuid (stored_flow s uuid ++ element ∷ []) s.flows;
}

-- The loop of `InvokeSet` over a history.
unfoldable pub append_history : InMemoryStore → String → List FlowElement → InMemoryStore
unfolding append_flow
append_history s uuid [] = s
append_history s uuid (x ∷ l) = append_history (append_flow s uuid x) uuid l

-- `Scaffold`.
pub record Scaffold : Type 0 where
  pub resolver : CellResolver
  pub store : InMemoryStore
  pub cells : Dict ℕ
  pub life : Dict LifecycleState

unfoldable pub new_scaffold : Scaffold
unfolding new_cell_resolver new_in_memory_store
new_scaffold = record {
  resolver = new_cell_resolver;
  store = new_in_memory_store;
  cells = [];
  life = [];
}

-- What the cells behind handles answer during one call; `history` is there for a cell that has one.
pub record Cells : Type 0 where
  pub codec : Codec
  pub get : ℕ → String → Option Identity → Result Value
  pub set : ℕ → String → Value → Option Identity → Result Value
  pub state : ℕ → Option Identity → Result Value
  pub history : ℕ → Option (List FlowElement)
  pub close : ℕ → Option Identity → Result (Unit {0})

unfoldable pub set_lifecycle : Scaffold → String → LifecycleState → Scaffold
set_lifecycle s uuid state = record s { life = insert uuid state s.life }

unfoldable pub lifecycle : Scaffold → String → Option LifecycleState
lifecycle s uuid = lookup uuid s.life

module _ (w : World) where
  abbrev activated : Scaffold → ℕ → Scaffold
  activated s x = record s {
    cells = insert (w.cell_uuid x) x s.cells;
    life = insert (w.cell_uuid x) active s.life;
  }

  abbrev with_resolver : Scaffold → CellResolver → Scaffold
  with_resolver s r = record s { resolver = r }

  abbrev registered : Scaffold → ℕ → CellResolver × Result (Unit {0}) → Scaffold × Result (Unit {0})
  registered s x (r, err e) = (with_resolver s r, err e)
  registered s x (r, ok _) = (activated (with_resolver s r) x, ok tt)

  -- `RegisterCell`, of a cell that is not nil.
  unfoldable pub register_cell :
      Scaffold → String → ℕ → RegisterOptions → Scaffold × Result (Unit {0})
  unfolding register_named_emit_cell
  register_cell s name x options =
      registered s x (register_named_emit_cell w s.resolver name (some x) options)

module _ (w : World) (k : Cells) where
  -- A cell that a factory left nil is a nil pointer there.
  abbrev pub nil_cell : String
  nil_cell = "nil cell"

  abbrev got :
      Scaffold
      → String
      → Option Identity
      → CellResolver × Result (Option ℕ)
      → Scaffold × Result Value
  got s keypath requester (r, err e) = (with_resolver w s r, err e)
  got s keypath requester (r, ok none) = (with_resolver w s r, err nil_cell)
  got s keypath requester (r, ok (some x)) =
      (set_lifecycle (with_resolver w s r) (w.cell_uuid x) running, k.get x keypath requester)

  -- `InvokeGet`.
  unfoldable pub invoke_get : Scaffold → String → String → Option Identity → Scaffold × Result Value
  unfolding set_lifecycle cell_at_endpoint
  invoke_get s endpoint keypath requester =
      got s keypath requester (cell_at_endpoint w s.resolver endpoint requester)

  abbrev pub with_state : Scaffold → String → Result Value → Scaffold
  with_state s uuid (err e) = s
  with_state s uuid (ok v) = record s { store = save_state k.codec s.store uuid v }

  abbrev with_history : Scaffold → String → Option (List FlowElement) → Scaffold
  with_history s uuid none = s
  with_history s uuid (some h) = record s { store = append_history s.store uuid h }

  -- What `InvokeSet` does once the cell has answered.
  abbrev after_set : Scaffold → ℕ → Option Identity → Result Value → Scaffold × Result Value
  after_set s x requester (err e) = (set_lifecycle s (w.cell_uuid x) suspended, err e)
  after_set s x requester (ok v) = (
    with_history (with_state s (w.cell_uuid x) (k.state x requester)) (w.cell_uuid x) (k.history x),
    ok v,
  )

  abbrev pub set_in :
      Scaffold
      → String
      → Value
      → Option Identity
      → CellResolver × Result (Option ℕ)
      → Scaffold × Result Value
  set_in s keypath v requester (r, err e) = (with_resolver w s r, err e)
  set_in s keypath v requester (r, ok none) = (with_resolver w s r, err nil_cell)
  set_in s keypath v requester (r, ok (some x)) =
      after_set (set_lifecycle (with_resolver w s r) (w.cell_uuid x) running) x requester
        (k.set x keypath v requester)

  -- `InvokeSet`.
  unfoldable pub invoke_set :
      Scaffold → String → String → Value → Option Identity → Scaffold × Result Value
  unfolding set_lifecycle cell_at_endpoint save_state append_history
  invoke_set s endpoint keypath v requester =
      set_in s keypath v requester (cell_at_endpoint w s.resolver endpoint requester)

-- `Terminate`.
unfoldable pub terminate :
    Cells → Scaffold → String → Option Identity → Scaffold × Result (Unit {0})
unfolding set_lifecycle
terminate k s uuid requester = elim (lookup uuid s.cells) [
  | none ↦ (s, err ("unknown cell " ⧺ uuid))
  | some x ↦ elim (k.close x requester) [
    | err e ↦ (s, err e)
    | ok _ ↦ (set_lifecycle s uuid terminated, ok tt)
  ]
]
