-- ===== src/Flow.antt =====
-- flow.go, and the replay of runtime.go: flow elements and their order.
pub mod Replay
use go_cell_protocol.Prelude.{ℕ, String, Option, none, some}
use go_cell_protocol.Value.{Codec, Value, Fields, normalize}

pub record FlowProperties : Type 0 where
  pub mimetype : String
  pub kind : String
  pub content_type : String

pub record FlowElement : Type 0 where
  pub id : String
  pub sequence : ℕ  -- uint64
  pub title : String
  pub topic : String
  pub content : Value
  pub properties : Option FlowProperties
  pub origin : String
  pub producer_identity : String
  pub logical_time : ℕ  -- uint64
  pub metadata : Option Fields
  pub signature : String

-- `NewFlowElement`; the fresh UUID is an argument.
unfoldable pub new_flow_element : Codec → String → String → Value → FlowElement
unfolding normalize
new_flow_element k uuid title content = record {
  id = uuid;
  sequence = 0;
  title = title;
  topic = "*";
  content = normalize k content;
  properties = some (record { mimetype = ""; kind = "content"; content_type = "object" });
  origin = "";
  producer_identity = "";
  logical_time = 0;
  metadata = none;
  signature = "";
}
