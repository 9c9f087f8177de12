-- ===== src/Scenarios/Feeds.antt =====
-- Flow elements pushed, received and replayed on concrete inputs.
use go_cell_protocol.Prelude.{
  ℕ, zero, suc, ◌<◌, ◌≡◌, refl, List, [], ◌∷◌, ◌++◌, some, none, inr, length, arith,
}
use go_cell_protocol.Value.{null}
use go_cell_protocol.Flow.{FlowElement}
use go_cell_protocol.Flow.Replay.{CountsFrom, replay_flow, replay_flow_iff}
use go_cell_protocol.Cell.{GeneralCell, Channel, new_general_cell}
use go_cell_protocol.Cell.Flow.{open_flow, blocked}
use go_cell_protocol.Cell.Flow.Laws.{
  Delivers, push_all, replay-push_all, open_flow-push_all, open_flow_blocked,
}
use go_cell_protocol.Scenarios.{alice, env, shop}

abbrev pub element : ℕ → FlowElement
element n = record {
  id = "e";
  sequence = n;
  title = "news";
  topic = "";
  content = null;
  properties = none;
  origin = "";
  producer_identity = "";
  logical_time = 0;
  metadata = none;
  signature = "";
}

abbrev elements : ℕ → List FlowElement
elements zero = []
elements (suc n) = element 0 ∷ elements n

abbrev joined : GeneralCell
joined = record shop { subscribers = (0, []) ∷ []; next_subscriber = 1 }

replay_flow_iff_example :
    ((out : List FlowElement)
      → replay_flow (element 4 ∷ element 5 ∷ []) ≡ inr out
      → (out ≡ element 4 ∷ element 5 ∷ []) × (0 < 4) × CountsFrom 4 (element 4 ∷ element 5 ∷ []))
    × ((0 < 4)
        → CountsFrom 4 (element 4 ∷ element 5 ∷ [])
        → replay_flow (element 4 ∷ element 5 ∷ []) ≡ inr (element 4 ∷ element 5 ∷ []))
replay_flow_iff_example =
    replay_flow_iff (element 4) (element 5 ∷ []) (omega arith, (omega arith, tt))

replay-push_all_example :
    let history =
      (push_all env (new_general_cell env (some alice) "shop") (elements 2) "news").flow_history in
    (length history ≡ 2) × (replay_flow history ≡ inr history)
replay-push_all_example =
    replay-push_all env (some alice) "shop" (elements 2) "news" (refl, (refl, tt)) (omega arith)

open_flow-push_all_example :
    let after = push_all env joined (elements 3) "news" in
    (pushed : List FlowElement) × (rest : List (ℕ × Channel)) × (after.subscribers
      ≡ (0, shop.flow_history ++ pushed) ∷ rest)
    × (after.flow_history ≡ shop.flow_history ++ pushed)
    × Delivers env "news" (elements 3) pushed
unfolding open_flow new_general_cell
open_flow-push_all_example =
    open_flow-push_all env shop joined 0 (elements 3) "news" refl (omega arith)

open_flow_blocked_example : open_flow (push_all env shop (elements 65) "news") ≡ blocked
unfolding new_general_cell
open_flow_blocked_example = open_flow_blocked env shop (elements 65) "news" refl (omega arith)
