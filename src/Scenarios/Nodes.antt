-- ===== src/Scenarios/Nodes.antt =====
-- A node with one registered name, whose cell a factory makes.
use go_cell_protocol.Prelude.{
  ℕ, ◌≡◌, ◌≢◌, true, false, refl, List, [], ◌∷◌, none, some, ok, inl, inr, arith, lookup, insert,
}
use go_cell_protocol.Prelude.Int.{pos}
use go_cell_protocol.Value.{null}
use go_cell_protocol.Flow.{FlowElement}
use go_cell_protocol.Flow.Replay.{replay_flow}
use go_cell_protocol.Cell.{scaffold_unique, ephemeral}
use go_cell_protocol.Resolver.{World, CellResolve, CellResolver}
use go_cell_protocol.Resolver.Registry.{cell_at_endpoint}
use go_cell_protocol.Resolver.Laws.Again.{allows, run_all, Local, resolved_again}
use go_cell_protocol.Scaffold.{Scaffold, Cells, stored_flow, invoke_set}
use go_cell_protocol.Scaffold.Laws.{invoke_set-twice}
use go_cell_protocol.Scenarios.{alice, bob, codec, crypto, copies}
use go_cell_protocol.Scenarios.Feeds.{element}

-- Every text is the path of a cell on this node; its factories make one cell.
abbrev world : ℕ → World
world made = record {
  parse_url = λ s. ok (record { scheme = "cell"; host = ""; path = s });
  cell_uuid = λ x. "c";
  make = λ f i. ok (some made);
  new_bridge = λ url i insecure. 0;
  crypto = crypto;
  draw = λ p. record { now = pos 10; nonce = some (copies 32 9) };
  address = λ i. "p";
}

abbrev entry : CellResolve
entry = record {
  name = "shop";
  emit_cell = none;
  factory = some 1;
  scope = scaffold_unique;
  identity = none;
  persistancy = ephemeral;
  scaffold_instance = none;
  identity_instances = [];
}

abbrev registry : CellResolver
registry = record {
  allows_insecure = false;
  named = ("shop", entry) ∷ [];
  by_uuid = [];
  remote_hosts = [];
  remote_cache = [];
}

on_node : (made : ℕ) → Local (world made) "shop"
on_node made = record {
  url = record { scheme = "cell"; host = ""; path = "shop" };
  parses = refl;
  no_socket = refl;
  no_host = refl;
  served = refl;
}

-- The factory would make another cell for Bob.
resolved_again_example :
    (cell_at_endpoint
      (world 9)
      (run_all (allows true ∷ []) (cell_at_endpoint (world 7) registry "shop" (some alice)).0)
      "shop"
      (some bob)).1
    ≡ ok (some 7)
unfolding cell_at_endpoint lookup
resolved_again_example =
    resolved_again (world 7) (world 9) registry (allows true ∷ []) "shop" (some alice) (some bob)
      entry 7 (on_node 7) refl refl (λ q. absurd (cc)) (inl refl) refl

abbrev answers : List FlowElement → Cells
answers h = record {
  codec = codec;
  get = λ x key i. ok null;
  set = λ x key v i. ok null;
  state = λ x i. ok null;
  history = λ x. some h;
  close = λ x i. ok tt;
}

abbrev node : Scaffold
node = record {
  resolver = registry;
  store = record { states = []; flows = [] };
  cells = [];
  life = [];
}

abbrev set_once : Scaffold
set_once = (invoke_set (world 7) (answers (element 1 ∷ [])) node "shop" "k" null (some alice)).0

-- The cell's history grows from one element to two.
invoke_set-twice_example :
    replay_flow (
      stored_flow
        (invoke_set
          (world 7)
          (answers (element 1 ∷ element 2 ∷ []))
          set_once
          "shop"
          "k"
          null
          (some alice)).0.store
        "c")
    ≢ inr (element 1 ∷ element 2 ∷ [])
unfolding cell_at_endpoint invoke_set stored_flow lookup insert
invoke_set-twice_example =
    invoke_set-twice (world 7) (world 7) (answers (element 1 ∷ []))
      (answers (element 1 ∷ element 2 ∷ [])) node "shop" "k" null null (some alice) (some alice) 7
      (element 1) [] (element 2 ∷ []) refl refl
      (record { resolves = refl; answer = null; sets = refl; has_history = refl })
      (record { resolves = refl; answer = null; sets = refl; has_history = refl }) (omega arith, tt)
      (omega arith, (omega arith, tt)) (element 1 ∷ element 2 ∷ [])
