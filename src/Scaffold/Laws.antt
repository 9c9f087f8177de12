-- ===== src/Scaffold/Laws.antt =====
-- What the store of a scaffold holds after cells were set.
use go_cell_protocol.Prelude.{
  ℕ, ◌+◌, String, ◌≡◌, ◌≢◌, refl, List, [], ◌∷◌, ◌++◌, Option, none, some, Result, ok, err, arith,
  lookup-insert_self, length, All-append, sym, ◌∙◌, ap, inr,
}
use mathlib.Core.Path.{subst}
use mathlib.Core.List.{append_assoc, append-nil}
use go_cell_protocol.Value.{Value}
use go_cell_protocol.Identity.{Identity}
use go_cell_protocol.Flow.{FlowElement}
use go_cell_protocol.Flow.Replay.{replay_flow, CountsFrom, InRange, replay_flow_iff}
use go_cell_protocol.Resolver.{World, CellResolver}
use go_cell_protocol.Resolver.Registry.{cell_at_endpoint}
use go_cell_protocol.Scaffold.{
  InMemoryStore, Scaffold, Cells, stored_flow, append_flow, append_history, invoke_set,
  set_lifecycle, set_in, with_state, running,
}

stored-append_history :
    (l : List FlowElement) (s : InMemoryStore) (uuid : String)
    → stored_flow (append_history s uuid l) uuid ≡ stored_flow s uuid ++ l
unfolding append_history
stored-append_history [] s uuid = sym (append-nil (stored_flow s uuid))
stored-append_history (x ∷ l) s uuid =
    stored-append_history l (append_flow s uuid x) uuid
    ∙ ap (λ t. t ++ l) (stored-append_flow s uuid x)
    ∙ append_assoc (stored_flow s uuid) (x ∷ []) l
  where
    stored-append_flow :
        (s : InMemoryStore) (uuid : String) (x : FlowElement)
        → stored_flow (append_flow s uuid x) uuid ≡ stored_flow s uuid ++ x ∷ []
    stored-append_flow s uuid x =
        ap (λ o. elim o as (λ o. List FlowElement) [ none ↦ [] | some h ↦ h ])
          (lookup-insert_self uuid (stored_flow s uuid ++ x ∷ []) s.flows)

-- A history that counts up says which number its elements have.
CountsFrom-append :
    (n : ℕ) (xs : List FlowElement) (e : FlowElement) (ys : List FlowElement)
    → CountsFrom n (xs ++ e ∷ ys)
    → e.sequence ≡ n + length xs
CountsFrom-append n [] e ys h = omega (arith, h.0)
CountsFrom-append n (x ∷ xs) e ys h = omega (arith, CountsFrom-append (n + 1) xs e ys h.1)

-- A history that is stored behind itself is no replayable flow.
doubled :
    (e : FlowElement) (l m : List FlowElement)
    → InRange (e ∷ l)
    → InRange (e ∷ m)
    → (out : List FlowElement) → replay_flow ((e ∷ l) ++ e ∷ m) ≢ inr out
doubled e l m p q out h =
    let (same, positive, counts) =
      (replay_flow_iff e (l ++ e ∷ m) (All-append _ (e ∷ l) (e ∷ m) p q)).0 out h in
    omega (arith, CountsFrom-append e.sequence (e ∷ l) e m counts)

-- A set that a cell takes.
pub record Takes (w : World) (k : Cells) (s : Scaffold) (endpoint keypath : String) (v : Value)
    (requester : Option Identity) (x : ℕ) (history : List FlowElement) : Type 0 where
  pub resolves : (cell_at_endpoint w s.resolver endpoint requester).1 ≡ ok (some x)
  pub answer : Value
  pub sets : k.set x keypath v requester ≡ ok answer
  pub has_history : k.history x ≡ some history

-- The scaffold when a cell is being set.
abbrev begun_at : World → Scaffold → ℕ → CellResolver → Scaffold
begun_at w s x r = set_lifecycle (record s { resolver = r }) (w.cell_uuid x) running

invoke_set-flow :
    (w : World) (k : Cells) (s : Scaffold) (endpoint keypath : String) (v : Value)
    (requester : Option Identity) (x : ℕ) (history : List FlowElement)
    → Takes w k s endpoint keypath v requester x history
    → stored_flow (invoke_set w k s endpoint keypath v requester).0.store (w.cell_uuid x)
      ≡ stored_flow s.store (w.cell_uuid x) ++ history
unfolding invoke_set set_lifecycle
invoke_set-flow w k s endpoint keypath v requester x history t =
    answered (cell_at_endpoint w s.resolver endpoint requester) t.resolves
  where
    same_handle : {y z : ℕ} → ok (some y) ≡ ok (some z) → y ≡ z
    same_handle q = ground arith

    same_flow :
        (r : CellResolver) (o : Result Value)
        → stored_flow (with_state w k (begun_at w s x r) (w.cell_uuid x) o).store (w.cell_uuid x)
          ≡ stored_flow s.store (w.cell_uuid x)
    same_flow r (err z) = refl
    same_flow r (ok z) = refl

    taken :
        (r : CellResolver)
        → stored_flow (set_in w k s keypath v requester (r, ok (some x))).0.store (w.cell_uuid x)
          ≡ stored_flow s.store (w.cell_uuid x) ++ history
    taken r =
        rw (set_in, t.sets, t.has_history)
          (stored-append_history history _ (w.cell_uuid x)
            ∙ ap (λ h. h ++ history) (same_flow r (k.state x requester)))

    answered :
        (o : CellResolver × Result (Option ℕ))
        → o.1 ≡ ok (some x)
        → stored_flow (set_in w k s keypath v requester o).0.store (w.cell_uuid x)
          ≡ stored_flow s.store (w.cell_uuid x) ++ history
    answered (r, err z) q = absurd (cc)
    answered (r, ok none) q = absurd (cc)
    answered (r, ok (some y)) q =
        subst
          (λ z.
            stored_flow (set_in w k s keypath v requester (r, ok (some z))).0.store (w.cell_uuid x)
            ≡ stored_flow s.store (w.cell_uuid x) ++ history)
          (sym (same_handle q)) (taken r)

-- Two sets that the same cell takes make its stored flow unplayable: where the flow was empty
-- before, the cell's UUID stays and each of its histories is one of 64-bit sequence numbers that
-- starts with the same element, `ReplayFlow` refuses the flow that `InMemoryStore` holds then, for
-- it holds the first history and behind it the second one, from the start.
pub invoke_set-twice :
    (w later : World) (k after : Cells) (s : Scaffold) (endpoint keypath : String) (v u : Value)
    (a b : Option Identity) (x : ℕ) (e : FlowElement) (l m : List FlowElement)
    → later.cell_uuid x ≡ w.cell_uuid x
    → stored_flow s.store (w.cell_uuid x) ≡ []
    → Takes w k s endpoint keypath v a x (e ∷ l)
    → Takes later after (invoke_set w k s endpoint keypath v a).0 endpoint keypath u b x (e ∷ m)
    → InRange (e ∷ l)
    → InRange (e ∷ m)
    → (out : List FlowElement)
    → replay_flow (
        stored_flow
          (invoke_set later after
            (invoke_set w k s endpoint keypath v a).0
            endpoint
            keypath
            u
            b).0.store
          (w.cell_uuid x))
      ≢ inr out
invoke_set-twice w later k after s endpoint keypath v u a b x e l m same empty first second p q
      out =
    subst (λ h. replay_flow h ≢ inr out) (sym stored) (doubled e l m p q out)
  where
    one : Scaffold
    one = (invoke_set w k s endpoint keypath v a).0

    two : Scaffold
    two = (invoke_set later after one endpoint keypath u b).0

    stored : stored_flow two.store (w.cell_uuid x) ≡ (e ∷ l) ++ e ∷ m
    stored =
        subst (λ i. stored_flow two.store i ≡ stored_flow one.store i ++ e ∷ m) same
          (invoke_set-flow later after one endpoint keypath u b x (e ∷ m) second)
        ∙ ap (λ h. h ++ e ∷ m)
            (invoke_set-flow w k s endpoint keypath v a x (e ∷ l) first
              ∙ ap (λ h. h ++ e ∷ l) empty)
