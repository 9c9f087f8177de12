-- ===== src/Cell/Steps.antt =====
-- A cell over its life: the steps that its operations take, and what holds in every cell that they
-- reach from `NewGeneralCell`. A set handler may replace the cell, so that writes are steps where no
-- handler serves the keypath.
use go_cell_protocol.Prelude.{
  All-keep, length, ◌≤◌, ◌==◌, Result, ℕ, String, ◌≡◌, refl, true, false, not, List, [], ◌∷◌,
  Option, none, arith, str_eq, eq_iff, All, All-append, keep, lookup, insert, lookup-insert,
  Bool-cases, Option-cases, Result-cases, inl, inr, sym, ◌∙◌,
}
use go_cell_protocol.Value.{Value}
use go_cell_protocol.KeyPath.{set_key_path}
use go_cell_protocol.Identity.{Identity}
use go_cell_protocol.Agreement.Condition.{add_grant, Agreement, Condition}
use go_cell_protocol.Flow.{FlowElement}
use go_cell_protocol.Cell.{
  Reading, Channel, GeneralCell, Env, Contract, ExploreContract, new_general_cell,
}
use go_cell_protocol.Cell.Handlers.{handler_for}
use go_cell_protocol.Cell.Flow.{
  unsubscribe, channel_capacity, push_flow_element, open_flow, subscribed, close_cell,
}
use go_cell_protocol.Cell.Flow.Laws.{Buffered, Buffered-offered, open_flow_sound}
use go_cell_protocol.Cell.Contracts.{outlives, survives_revocation, remove_contracts}
use go_cell_protocol.Cell.Contracts.Admission.{add_agreement_authorized_by, signed_contract}
use go_cell_protocol.Cell.Contracts.Admission.Laws.{add_agreement_sound, survives-signed_contract}
use go_cell_protocol.Cell.Storage.{
  set, validate_access, add_get_handler, add_set_handler, register_explore_contract,
}
use go_cell_protocol.Cell.Connections.{attach, detach, detach_all, close}

-- `SetAdmissionPolicy` and `SetTemplateConditions`.
unfoldable pub set_admission_policy : GeneralCell → String → GeneralCell
set_admission_policy c policy = record c { admission_policy = policy }

unfoldable pub set_template_conditions : GeneralCell → List Condition → GeneralCell
set_template_conditions c conditions = record c {
  agreement_template = record c.agreement_template { conditions = conditions };
}

-- `SetUUID` and `SetIdentityDomain`.
unfoldable pub set_uuid : GeneralCell → String → GeneralCell
set_uuid c uuid = record c { uuid = uuid }

unfoldable pub set_identity_domain : GeneralCell → String → GeneralCell
set_identity_domain c domain = record c { identity_domain = domain }

-- `SetConditionTarget`, and a grant added through the pointer that `AgreementTemplate` returns.
unfoldable pub set_condition_target :
    GeneralCell → Option (String → Identity → Result Reading) → GeneralCell
set_condition_target c target = record c { condition_target = target }

unfoldable pub add_template_grant : GeneralCell → String → String → String → GeneralCell
add_template_grant c uuid permission keypath = record c {
  agreement_template = add_grant c.agreement_template uuid permission keypath;
}

pub data Step : GeneralCell → GeneralCell → Type 0 where
  signs :
      (e : Env) (c : GeneralCell) (request : Agreement) (subject authority : Option Identity)
      → Step c (add_agreement_authorized_by e c request subject authority).0
  removes : (e : Env) (c : GeneralCell) (subject : String) → Step c (remove_contracts e c subject)
  writes :
      (e : Env) (c : GeneralCell) (keypath : String) (v : Value) (requester : Option Identity)
      → handler_for keypath c.set_handlers ≡ none
      → Step c (set e c keypath v requester).0
  pushes :
      (e : Env) (c : GeneralCell) (x : FlowElement) (topic : String)
      → Step c (push_flow_element e c x topic)
  subscribes :
      (c joined : GeneralCell) (id : ℕ) → open_flow c ≡ subscribed joined id → Step c joined
  closes :
      (e : Env) (c : GeneralCell) (requester : Option Identity) → Step c (close e c requester).0
  attaches :
      (e : Env) (c : GeneralCell) (emitter label : String) (requester : Option Identity)
      → Step c (attach e c emitter label requester).0
  detaches :
      (e : Env) (c : GeneralCell) (label : String) (requester : Option Identity)
      → Step c (detach e c label requester).0
  detaches_all :
      (e : Env) (c : GeneralCell) (requester : Option Identity)
      → Step c (detach_all e c requester).0
  sets_policy : (c : GeneralCell) (policy : String) → Step c (set_admission_policy c policy)
  sets_conditions :
      (c : GeneralCell) (conditions : List Condition)
      → Step c (set_template_conditions c conditions)
  aims :
      (c : GeneralCell) (target : Option (String → Identity → Result Reading))
      → Step c (set_condition_target c target)
  grants :
      (c : GeneralCell) (uuid permission keypath : String)
      → Step c (add_template_grant c uuid permission keypath)
  leaves : (c : GeneralCell) (id : ℕ) → Step c (unsubscribe c id)
  renames : (c : GeneralCell) (uuid : String) → Step c (set_uuid c uuid)
  moves : (c : GeneralCell) (domain : String) → Step c (set_identity_domain c domain)
  handles_get : (c : GeneralCell) (key : String) (h : ℕ) → Step c (add_get_handler c key h)
  handles_set : (c : GeneralCell) (key : String) (h : ℕ) → Step c (add_set_handler c key h)
  registers : (c : GeneralCell) (x : ExploreContract) → Step c (register_explore_contract c x)

-- The cells that steps reach from a new one.
pub data Reachable : GeneralCell → Type 0 where
  start :
      (e : Env) (owner : Option Identity) (name : String)
      → Reachable (new_general_cell e owner name)
  next : {c d : GeneralCell} → Reachable c → Step c d → Reachable d

-- What holds of a cell between its operations.
pub record IsValid (c : GeneralCell) : Type 0 where
  pub unrevoked : All (λ k. survives_revocation c k ≡ true) c.contracts
  pub buffered : Buffered c.subscribers
  pub released : c.closed ≡ true → c.subscribers ≡ []

-- Validity depends on four fields.
same_IsValid :
    (c d : GeneralCell)
    → d.contracts ≡ c.contracts
    → d.revoked_before ≡ c.revoked_before
    → d.subscribers ≡ c.subscribers
    → d.closed ≡ c.closed
    → IsValid c
    → IsValid d
same_IsValid c d a b s h v = record {
  unrevoked = rw (a, b) v.unrevoked;
  buffered = rw s v.buffered;
  released = λ q. s ∙ v.released (sym h ∙ q);
}

removed_unrevoked :
    (e : Env) (c : GeneralCell) (subject : String) (l : List Contract)
    → All (λ k. survives_revocation c k ≡ true) l
    → All
        (λ k.
          outlives (lookup k.subject.uuid (insert subject e.now c.revoked_before)) k.issued_at
          ≡ true)
        (keep (λ k. not (str_eq k.subject.uuid subject)) l)
removed_unrevoked e c subject [] h = tt
removed_unrevoked e c subject (k ∷ l) h = elim (Bool-cases (str_eq k.subject.uuid subject)) [
  | inl y ↦ rw y (removed_unrevoked e c subject l h.1)
  | inr n ↦ rw n (rw (lookup-insert, other n) h.0, removed_unrevoked e c subject l h.1)
]
  where
    other : str_eq k.subject.uuid subject ≡ false → str_eq subject k.subject.uuid ≡ false
    other n = ground (arith, eq_iff k.subject.uuid subject, eq_iff subject k.subject.uuid)

remove_contracts-IsValid :
    (e : Env) (c : GeneralCell) (subject : String)
    → IsValid c
    → IsValid (remove_contracts e c subject)
unfolding remove_contracts
remove_contracts-IsValid e c subject v = record {
  unrevoked = removed_unrevoked e c subject c.contracts v.unrevoked;
  buffered = v.buffered;
  released = v.released;
}

add_agreement-IsValid :
    (e : Env) (c : GeneralCell) (request : Agreement) (subject authority : Option Identity)
    → IsValid c
    → IsValid (add_agreement_authorized_by e c request subject authority).0
add_agreement-IsValid e c request subject authority v =
    elim (add_agreement_sound e c request subject authority) [
      | inl h ↦ rw h v
      | inr (a, h) ↦ rw h (record {
        unrevoked =
            All-append (λ (k : Contract). survives_revocation c k ≡ true) c.contracts
              (signed_contract e c request a.identity ∷ []) v.unrevoked
              (survives-signed_contract e c request a.identity, tt);
        buffered = v.buffered;
        released = v.released;
      })
    ]

push_flow_element-IsValid :
    (e : Env) (c : GeneralCell) (x : FlowElement) (topic : String)
    → IsValid c
    → IsValid (push_flow_element e c x topic)
unfolding push_flow_element
push_flow_element-IsValid e c x topic v = record {
  unrevoked = v.unrevoked;
  buffered = Buffered-offered _ c.subscribers v.buffered;
  released = λ q. rw (v.released q) refl;
}

set-IsValid :
    (e : Env) (c : GeneralCell) (keypath : String) (v : Value) (requester : Option Identity)
    → handler_for keypath c.set_handlers ≡ none
    → IsValid c
    → IsValid (set e c keypath v requester).0
unfolding set
set-IsValid e c keypath v requester n valid =
    elim (Result-cases (validate_access e c "write" keypath requester)) [
      | inr (x, h) ↦ rw (h, set) valid
      | inl (_, h) ↦
          let o = set_key_path e.codec e.sprint c.storage keypath v in
          let stored : IsValid (record c { storage = o.root }) =
            same_IsValid c _ refl refl refl refl valid in
          elim (Option-cases o.error) [
            | inr (x, y) ↦ rw (h, n, y, set) stored
            | inl y ↦ rw (h, n, y, set) (push_flow_element-IsValid e _ _ "cell.update" stored)
          ]
    ]

joined_IsValid :
    (c joined : GeneralCell) (id : ℕ)
    → open_flow c ≡ subscribed joined id
    → IsValid c
    → IsValid joined
joined_IsValid c joined id h v =
    let joins = open_flow_sound c joined id h in
    rw (← joins.adds) (record {
      unrevoked = v.unrevoked;
      buffered = (joins.fits, v.buffered);
      released = λ q. absurd (both joins.is_open q);
    })
  where
    both : c.closed ≡ false → c.closed ≡ true → ⊥
    both x y = cc

close-IsValid :
    (e : Env) (c : GeneralCell) (requester : Option Identity)
    → IsValid c
    → IsValid (close e c requester).0
unfolding close close_cell
close-IsValid e c requester v =
    elim (Result-cases (validate_access e c "write" "lifecycle.close" requester)) [
      | inr (x, h) ↦ rw (h, close) v
      | inl (_, h) ↦
          rw (h, close) (record { unrevoked = v.unrevoked; buffered = tt; released = λ q. refl })
    ]

attach-IsValid :
    (e : Env) (c : GeneralCell) (emitter label : String) (requester : Option Identity)
    → IsValid c
    → IsValid (attach e c emitter label requester).0
unfolding attach
attach-IsValid e c emitter label requester v =
    elim (Result-cases (validate_access e c "write" label requester)) [
      | inr (x, h) ↦ rw (h, attach) v
      | inl (_, h) ↦ rw (h, attach) (same_IsValid c _ refl refl refl refl v)
    ]

detach-IsValid :
    (e : Env) (c : GeneralCell) (label : String) (requester : Option Identity)
    → IsValid c
    → IsValid (detach e c label requester).0
unfolding detach
detach-IsValid e c label requester v =
    elim (Result-cases (validate_access e c "write" label requester)) [
      | inr (x, h) ↦ rw (h, detach) v
      | inl (_, h) ↦ rw (h, detach) (same_IsValid c _ refl refl refl refl v)
    ]

detach_all-IsValid :
    (e : Env) (c : GeneralCell) (requester : Option Identity)
    → IsValid c
    → IsValid (detach_all e c requester).0
unfolding detach_all
detach_all-IsValid e c requester v =
    elim (Result-cases (validate_access e c "write" "connections" requester)) [
      | inr (x, h) ↦ rw (h, detach_all) v
      | inl (_, h) ↦ rw (h, detach_all) (same_IsValid c _ refl refl refl refl v)
    ]

unsubscribe-IsValid : (c : GeneralCell) (id : ℕ) → IsValid c → IsValid (unsubscribe c id)
unfolding unsubscribe
unsubscribe-IsValid c id v = record {
  unrevoked = v.unrevoked;
  buffered =
      All-keep (λ (s : ℕ × Channel). length s.1 ≤ channel_capacity) (λ s. not (s.0 == id))
        c.subscribers v.buffered;
  released = λ q. rw (v.released q) refl;
}

Step-IsValid : {c d : GeneralCell} → Step c d → IsValid c → IsValid d
unfolding set_admission_policy set_template_conditions set_uuid set_identity_domain add_get_handler
    add_set_handler register_explore_contract set_condition_target add_template_grant
Step-IsValid (signs e c request subject authority) v =
    add_agreement-IsValid e c request subject authority v
Step-IsValid (removes e c subject) v = remove_contracts-IsValid e c subject v
Step-IsValid (writes e c keypath w requester n) v = set-IsValid e c keypath w requester n v
Step-IsValid (pushes e c x topic) v = push_flow_element-IsValid e c x topic v
Step-IsValid (subscribes c joined id h) v = joined_IsValid c joined id h v
Step-IsValid (closes e c requester) v = close-IsValid e c requester v
Step-IsValid (attaches e c emitter label requester) v = attach-IsValid e c emitter label requester v
Step-IsValid (detaches e c label requester) v = detach-IsValid e c label requester v
Step-IsValid (detaches_all e c requester) v = detach_all-IsValid e c requester v
Step-IsValid (sets_policy c policy) v = same_IsValid c _ refl refl refl refl v
Step-IsValid (sets_conditions c conditions) v = same_IsValid c _ refl refl refl refl v
Step-IsValid (aims c target) v = same_IsValid c _ refl refl refl refl v
Step-IsValid (grants c uuid permission keypath) v = same_IsValid c _ refl refl refl refl v
Step-IsValid (leaves c id) v = unsubscribe-IsValid c id v
Step-IsValid (renames c uuid) v = same_IsValid c _ refl refl refl refl v
Step-IsValid (moves c domain) v = same_IsValid c _ refl refl refl refl v
Step-IsValid (handles_get c key h) v = same_IsValid c _ refl refl refl refl v
Step-IsValid (handles_set c key h) v = same_IsValid c _ refl refl refl refl v
Step-IsValid (registers c x) v = same_IsValid c _ refl refl refl refl v

-- In every cell that the steps reach from a new one, no contract stands at or before the revocation
-- of its subject, no channel holds more than 64 elements, and a closed cell has no subscribers.
pub Reachable-IsValid : {c : GeneralCell} → Reachable c → IsValid c
unfolding new_general_cell
Reachable-IsValid (start e owner name) = record {
  unrevoked = tt;
  buffered = tt;
  released = λ q. refl;
}
Reachable-IsValid (next r s) = Step-IsValid s (Reachable-IsValid r)
