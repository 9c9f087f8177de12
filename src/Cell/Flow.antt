-- ===== src/Cell/Flow.antt =====
-- `PushFlowElement`, `Flow`, `Close` and the channels of subscribers.
pub mod Laws
use go_cell_protocol.Prelude.{
  keep, not, ℕ, suc, ◌+◌, ◌%◌, ◌^◌, String, Bool, true, false, List, [], ◌∷◌, ◌++◌, Option, none,
  some, str_eq, ltb, leb, ◌==◌, length, if◌then◌else◌, map,
}
use go_cell_protocol.Value.{normalize}
use go_cell_protocol.Flow.{FlowElement}
use go_cell_protocol.Cell.{GeneralCell, Channel, Env}

-- The buffer of `make(chan FlowElement, 64)`.
abbrev pub channel_capacity : ℕ
channel_capacity = 64

-- `select { case ch <- element: default: }`.
unfoldable pub offer : FlowElement → Channel → Channel
offer e ch = if ltb (length ch) channel_capacity then ch ++ e ∷ [] else ch

abbrev or_text : String → String → String
or_text s d = if str_eq s "" then d else s

abbrev or_number : ℕ → ℕ → ℕ
or_number n d = if n == 0 then d else n

-- The element as `PushFlowElement` completes it, with the cell's next sequence.
unfoldable pub complete_element : Env → GeneralCell → ℕ → FlowElement → String → FlowElement
complete_element e c next x topic =
    let seq = or_number x.sequence next in
    record x {
      id = or_text x.id (e.new_uuid 0);
      sequence = seq;
      logical_time = or_number x.logical_time seq;
      topic = or_text (if str_eq topic "" then x.topic else topic) "*";
      origin = or_text x.origin c.uuid;
      producer_identity =
          or_text x.producer_identity (elim c.owner [ none ↦ "" | some i ↦ i.uuid ]);
      content = normalize e.codec x.content;
    }

-- `PushFlowElement`.
unfoldable pub push_flow_element : Env → GeneralCell → FlowElement → String → GeneralCell
unfolding complete_element offer
push_flow_element e c x topic =
    let next = (c.next_sequence + 1) % 2 ^ 64 in
    let element = complete_element e c next x topic in
    record c {
      next_sequence = next;
      flow_history = c.flow_history ++ element ∷ [];
      subscribers = map (λ s. (s.0, offer element s.1)) c.subscribers;
    }

-- What a call of `Flow` that was let through comes to: a closed channel, a subscription, or a send
-- on the full buffer of a channel that nobody reads yet, which waits for ever under the cell's lock.
pub data FlowOutcome : Type 0 where
  closed_channel : FlowOutcome
  subscribed : GeneralCell → ℕ → FlowOutcome
  blocked : FlowOutcome

-- `Flow` behind its access check.
unfoldable pub open_flow : GeneralCell → FlowOutcome
open_flow c =
    if c.closed
    then closed_channel
    else if leb (length c.flow_history) channel_capacity
    then subscribed
        (record c {
          subscribers = (c.next_subscriber, c.flow_history) ∷ c.subscribers;
          next_subscriber = c.next_subscriber + 1;
        })
        c.next_subscriber
    else blocked

-- `Close` behind its access check.
unfoldable pub close_cell : GeneralCell → GeneralCell
close_cell c = record c { closed = true; subscribers = [] }

-- The end of a subscriber's context: its channel is closed and forgotten.
unfoldable pub unsubscribe : GeneralCell → ℕ → GeneralCell
unsubscribe c id = record c { subscribers = keep (λ s. not (s.0 == id)) c.subscribers }
