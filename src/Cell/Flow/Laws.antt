-- ===== src/Cell/Flow/Laws.antt =====
-- What a feed hands on: the order of its elements, and what a subscriber receives.
use mathlib.Core.List.{append_assoc, append-nil}
use go_cell_protocol.Value.{normalize}
use go_cell_protocol.Prelude.{
  ◌≢◌, sym, str_eq, eq_iff, if◌then◌else◌, ℕ, ◌+◌, ◌%◌, ◌^◌, ◌≤◌, ◌<◌, String, ◌≡◌, refl, true,
  false, List, [], ◌∷◌, ◌++◌, Option, arith, leb, length, length-append, map, All, inl, inr, ap,
  ◌∙◌, Bool-cases,
}
use go_cell_protocol.Flow.{FlowElement}
use go_cell_protocol.Flow.Replay.{CountsFrom, InRange, replay_flow, replay_flow_iff}
use go_cell_protocol.Cell.{GeneralCell, Channel, Env, new_general_cell}
use go_cell_protocol.Identity.{Identity}
use go_cell_protocol.Cell.Flow.{
  offer, complete_element, push_flow_element, closed_channel, subscribed, blocked, open_flow,
  channel_capacity,
}

abbrev pub Buffered : List (ℕ × Channel) → Type 0
Buffered l = All (λ s. length s.1 ≤ channel_capacity) l

-- What subscribers hold after an element is offered to them all.
abbrev pub offered : FlowElement → List (ℕ × Channel) → List (ℕ × Channel)
offered x l = map (λ s. (s.0, offer x s.1)) l

length-offer_le :
    (x : FlowElement) (ch : Channel)
    → length ch ≤ channel_capacity
    → length (offer x ch) ≤ channel_capacity
unfolding offer
length-offer_le x ch h = ground (arith, length-append ch (x ∷ []))

offer_room :
    (x : FlowElement) (ch : Channel) → length ch < channel_capacity → offer x ch ≡ ch ++ x ∷ []
unfolding offer
offer_room x ch h = ground arith

subscribed_injective :
    (a b : GeneralCell) (i j : ℕ) → subscribed a i ≡ subscribed b j → (a ≡ b) × (i ≡ j)
subscribed_injective a b i j h = (cc, cc)

-- A call of `Flow` that subscribes found the cell open and its history short enough, and adds a
-- channel that starts with the history.
pub record Joined (c joined : GeneralCell) (id : ℕ) : Type 0 where
  pub is_open : c.closed ≡ false
  pub fits : length c.flow_history ≤ channel_capacity
  pub adds :
      record c {
        subscribers = (id, c.flow_history) ∷ c.subscribers;
        next_subscriber = c.next_subscriber + 1;
      }
      ≡ joined

pub open_flow_sound :
    (c joined : GeneralCell) (id : ℕ) → open_flow c ≡ subscribed joined id → Joined c joined id
unfolding open_flow
open_flow_sound c joined id h = elim (Bool-cases c.closed) [
  | inl y ↦ absurd (never_closed (rw y at h))
  | inr n ↦ elim (Bool-cases (leb (length c.flow_history) channel_capacity)) [
    | inr m ↦ absurd (never_blocked (rw m at (rw n at h)))
    | inl m ↦
        let (same, number) = subscribed_injective _ joined _ id (rw m at (rw n at h)) in
        record { is_open = n; fits = ground arith; adds = rw (← number, n) same }
  ]
]
  where
    never_closed : closed_channel ≡ subscribed joined id → ⊥
    never_closed h = cc

    never_blocked : blocked ≡ subscribed joined id → ⊥
    never_blocked h = cc

pub Buffered-offered :
    (x : FlowElement) (l : List (ℕ × Channel)) → Buffered l → Buffered (offered x l)
Buffered-offered x [] h = tt
Buffered-offered x (s ∷ l) h = (length-offer_le x s.1 h.0, Buffered-offered x l h.1)

CountsFrom-snoc :
    (n : ℕ) (l : List FlowElement) (x : FlowElement)
    → CountsFrom n l
    → x.sequence ≡ n + length l
    → CountsFrom n (l ++ x ∷ [])
CountsFrom-snoc n [] x h s = (omega (arith, s), tt)
CountsFrom-snoc n (y ∷ l) x h s = (h.0, CountsFrom-snoc (n + 1) l x h.1 (omega (arith, s)))

-- A history that was pushed in turn: it counts from 1, to the cell's counter.
pub record InTurn (c : GeneralCell) : Type 0 where
  pub counts : CountsFrom 1 c.flow_history
  pub last : c.next_sequence ≡ length c.flow_history

CountsFrom-InRange :
    (n : ℕ) (l : List FlowElement) → CountsFrom n l → n + length l < 2 ^ 64 + 1 → InRange l
CountsFrom-InRange n [] h b = tt
CountsFrom-InRange n (x ∷ l) h b =
    (omega (arith, h.0, b), CountsFrom-InRange (n + 1) l h.1 (omega (arith, b)))

replay-CountsFrom :
    (l : List FlowElement) → CountsFrom 1 l → length l < 2 ^ 64 → replay_flow l ≡ inr l
unfolding replay_flow
replay-CountsFrom [] h b = refl
replay-CountsFrom (x ∷ l) h b =
    let iff = replay_flow_iff x l (CountsFrom-InRange 1 (x ∷ l) h (omega (arith, b))) in
    iff.1 (omega (arith, h.0)) (rw h.0 (refl, h.1))

or_text_own : (s d : String) → s ≢ "" → (if str_eq s "" then d else s) ≡ s
or_text_own s d h = elim (Bool-cases (str_eq s "")) [
  | inl y ↦ absurd (h ((eq_iff s "").0 y))
  | inr n ↦ rw n refl
]

not_empty : (s : String) → s ≢ "" → str_eq s "" ≡ false
not_empty s h = elim (Bool-cases (str_eq s "")) [
  | inl y ↦ absurd (h ((eq_iff s "").0 y))
  | inr n ↦ n
]

empty : (s : String) → s ≡ "" → str_eq s "" ≡ true
empty s q = (eq_iff s "").1 q

module _ (e : Env) where
  -- `PushFlowElement` on each element of a list in turn.
  abbrev pub push_all : GeneralCell → List FlowElement → String → GeneralCell
  push_all c [] topic = c
  push_all c (x ∷ l) topic = push_all (push_flow_element e c x topic) l topic

  sequence-complete_element :
      (c : GeneralCell) (n : ℕ) (x : FlowElement) (topic : String)
      → x.sequence ≡ 0
      → (complete_element e c n x topic).sequence ≡ n
  unfolding complete_element
  sequence-complete_element c n x topic h = ground (arith, h)

  InTurn-push :
      (c : GeneralCell) (x : FlowElement) (topic : String)
      → x.sequence ≡ 0
      → c.next_sequence + 1 < 2 ^ 64
      → InTurn c
      → InTurn (push_flow_element e c x topic)
  unfolding push_flow_element
  InTurn-push c x topic h b t = record {
    counts =
        CountsFrom-snoc 1 c.flow_history _ t.counts
          (sequence-complete_element c _ x topic h ∙ omega (arith, b, t.last));
    last = omega (
      arith,
      b,
      t.last,
      length-append c.flow_history
          (complete_element e c ((c.next_sequence + 1) % 2 ^ 64) x topic ∷ []),
    );
  }

  next_sequence-push :
      (c : GeneralCell) (x : FlowElement) (topic : String)
      → (push_flow_element e c x topic).next_sequence ≡ (c.next_sequence + 1) % 2 ^ 64
  unfolding push_flow_element
  next_sequence-push c x topic = refl

  InTurn-push_all :
      (c : GeneralCell) (l : List FlowElement) (topic : String)
      → All (λ x. x.sequence ≡ 0) l
      → c.next_sequence + length l < 2 ^ 64
      → InTurn c
      → InTurn (push_all c l topic)
  InTurn-push_all c [] topic z b t = t
  InTurn-push_all c (x ∷ l) topic z b t =
      InTurn-push_all (push_flow_element e c x topic) l topic z.1
        (omega (arith, b, next_sequence-push c x topic))
        (InTurn-push c x topic z.0 (omega (arith, b)) t)

  length-push :
      (c : GeneralCell) (x : FlowElement) (topic : String)
      → length (push_flow_element e c x topic).flow_history ≡ length c.flow_history + 1
  unfolding push_flow_element
  length-push c x topic =
      length-append c.flow_history
        (complete_element e c ((c.next_sequence + 1) % 2 ^ 64) x topic ∷ [])

  length-push_all :
      (c : GeneralCell) (l : List FlowElement) (topic : String)
      → length (push_all c l topic).flow_history ≡ length c.flow_history + length l
  length-push_all c [] topic = omega arith
  length-push_all c (x ∷ l) topic =
      omega (arith, length-push_all (push_flow_element e c x topic) l topic, length-push c x topic)

  -- The history of a new cell that was pushed elements without sequence numbers of their own,
  -- fewer than 2 ^ 64, holds as many elements and is one that `ReplayFlow` accepts as it is.
  pub replay-push_all :
      (owner : Option Identity) (name : String) (l : List FlowElement) (topic : String)
      → All (λ x. x.sequence ≡ 0) l
      → length l < 2 ^ 64
      → let history = (push_all (new_general_cell e owner name) l topic).flow_history in
        (length history ≡ length l) × (replay_flow history ≡ inr history)
  unfolding new_general_cell
  replay-push_all owner name l topic z b =
      let c = new_general_cell e owner name in
      let t =
        InTurn-push_all c l topic z (omega (arith, b)) (record { counts = tt; last = refl }) in
      (
        omega (arith, length-push_all c l topic),
        replay-CountsFrom (push_all c l topic).flow_history t.counts
            (omega (arith, b, length-push_all c l topic)),
      )

  -- A channel whose buffer holds the whole history takes every element pushed after that as long as
  -- it has room.
  receives_push :
      (c : GeneralCell) (x : FlowElement) (topic : String) (id : ℕ) (rest : List (ℕ × Channel))
      → length c.flow_history < channel_capacity
      → c.subscribers ≡ (id, c.flow_history) ∷ rest
      → (rest' : List (ℕ × Channel)) × ((push_flow_element e c x topic).subscribers
          ≡ (id, (push_flow_element e c x topic).flow_history) ∷ rest')
  unfolding push_flow_element
  receives_push c x topic id rest b h =
      let element = complete_element e c ((c.next_sequence + 1) % 2 ^ 64) x topic in
      (offered element rest, rw (h, offer_room element c.flow_history b) refl)

  receives_push_all :
      (c : GeneralCell) (l : List FlowElement) (topic : String) (id : ℕ) (rest : List (ℕ × Channel))
      → length c.flow_history + length l ≤ channel_capacity
      → c.subscribers ≡ (id, c.flow_history) ∷ rest
      → (rest' : List (ℕ × Channel)) × ((push_all c l topic).subscribers
          ≡ (id, (push_all c l topic).flow_history) ∷ rest')
  receives_push_all c [] topic id rest b h = (rest, h)
  receives_push_all c (x ∷ l) topic id rest b h =
      let (rest', h') = receives_push c x topic id rest (omega (arith, b)) h in
      receives_push_all (push_flow_element e c x topic) l topic id rest'
        (omega (arith, b, length-push c x topic)) h'

  -- What a pushed element is for those who receive it.
  pub record Carries (topic : String) (x y : FlowElement) : Type 0 where
    pub same_content : y.content ≡ normalize e.codec x.content
    pub same_title : y.title ≡ x.title
    pub same_properties : y.properties ≡ x.properties
    pub same_metadata : y.metadata ≡ x.metadata
    pub same_signature : y.signature ≡ x.signature
    pub own_id : x.id ≢ "" → y.id ≡ x.id
    pub own_sequence : x.sequence ≢ 0 → y.sequence ≡ x.sequence
    pub given_topic : topic ≢ "" → y.topic ≡ topic
    pub own_topic : topic ≡ "" → x.topic ≢ "" → y.topic ≡ x.topic
    pub own_origin : x.origin ≢ "" → y.origin ≡ x.origin
    pub own_producer : x.producer_identity ≢ "" → y.producer_identity ≡ x.producer_identity

  complete_element-Carries :
      (c : GeneralCell) (n : ℕ) (x : FlowElement) (topic : String)
      → Carries topic x (complete_element e c n x topic)
  unfolding complete_element
  complete_element-Carries c n x topic = record {
    same_content = refl;
    same_title = refl;
    same_properties = refl;
    same_metadata = refl;
    same_signature = refl;
    own_id = or_text_own x.id _;
    own_sequence = λ h. ground arith;
    given_topic = λ h. rw (not_empty topic h) (or_text_own topic "*" h);
    own_topic = λ q h. rw (empty topic q) (or_text_own x.topic "*" h);
    own_origin = or_text_own x.origin _;
    own_producer = or_text_own x.producer_identity _;
  }

  -- The elements of two lists in turn: what was pushed, and what is received of it.
  pub Delivers : String → List FlowElement → List FlowElement → Type 0
  Delivers topic [] [] = Unit {0}
  Delivers topic [] (y ∷ m) = ⊥
  Delivers topic (x ∷ l) [] = ⊥
  Delivers topic (x ∷ l) (y ∷ m) = Carries topic x y × Delivers topic l m

  history-push_all :
      (c : GeneralCell) (l : List FlowElement) (topic : String)
      → (pushed : List FlowElement) × ((push_all c l topic).flow_history ≡ c.flow_history ++ pushed)
        × Delivers topic l pushed
  unfolding push_flow_element Delivers
  history-push_all c [] topic = ([], sym (append-nil c.flow_history), tt)
  history-push_all c (x ∷ l) topic =
      let next = (c.next_sequence + 1) % 2 ^ 64 in
      let y = complete_element e c next x topic in
      let (pushed, q, d) = history-push_all (push_flow_element e c x topic) l topic in
      (
        y ∷ pushed,
        q ∙ append_assoc c.flow_history (y ∷ []) pushed,
        (complete_element-Carries c next x topic, d),
      )

  -- A subscriber that joins an open cell receives its whole history, and then for every element that
  -- is pushed, in order, one with its content in normal form, its title, properties, metadata and
  -- signature, the topic of the push, and whatever identity, sequence, origin and producer it brought
  -- along, as long as all of them fit into the 64 places of a channel that is not read. The same
  -- elements are appended to the history.
  pub open_flow-push_all :
      (c joined : GeneralCell) (id : ℕ) (l : List FlowElement) (topic : String)
      → open_flow c ≡ subscribed joined id
      → length c.flow_history + length l ≤ channel_capacity
      → let after = push_all joined l topic in
        (pushed : List FlowElement) × (rest : List (ℕ × Channel)) × (after.subscribers
          ≡ (id, c.flow_history ++ pushed) ∷ rest)
        × (after.flow_history ≡ c.flow_history ++ pushed)
        × Delivers topic l pushed
  open_flow-push_all c joined id l topic h b =
      let joins = open_flow_sound c joined id h in
      let history : c.flow_history ≡ joined.flow_history = ap (λ j. j.flow_history) joins.adds in
      let (pushed, q, d) = history-push_all joined l topic in
      let (rest, s) =
        receives_push_all joined l topic id c.subscribers (rw (← history) b)
          (rw (← joins.adds) refl) in
      let grown = q ∙ ap (λ (t : List FlowElement). t ++ pushed) (sym history) in
      (pushed, rest, s ∙ ap (λ (t : List FlowElement). (id, t) ∷ rest) grown, grown, d)

  closed-push_all :
      (c : GeneralCell) (l : List FlowElement) (topic : String)
      → (push_all c l topic).closed ≡ c.closed
  unfolding push_flow_element
  closed-push_all c [] topic = refl
  closed-push_all c (x ∷ l) topic = closed-push_all (push_flow_element e c x topic) l topic

  -- Once more than 64 elements were pushed onto an open cell, every later call of `Flow` that is
  -- let through blocks for ever.
  pub open_flow_blocked :
      (c : GeneralCell) (l : List FlowElement) (topic : String)
      → c.closed ≡ false
      → channel_capacity < length l
      → open_flow (push_all c l topic) ≡ blocked
  unfolding open_flow
  open_flow_blocked c l topic h b =
      full (push_all c l topic) (closed-push_all c l topic ∙ h)
        (omega (arith, b, length-push_all c l topic))
    where
      full :
          (c : GeneralCell)
          → c.closed ≡ false
          → channel_capacity < length c.flow_history
          → open_flow c ≡ blocked
      full c h b =
          let m : leb (length c.flow_history) channel_capacity ≡ false = ground arith in
          rw h (rw m refl)
