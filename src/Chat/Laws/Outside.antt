-- ===== src/Chat/Laws/Outside.antt =====
-- What contracts that ask for an admission allow an identity that is no member of the chat.
use go_cell_protocol.Prelude.{
  String, Bool, ◌≡◌, true, false, refl, ◌&&◌, ◌||◌, List, [], ◌∷◌, none, some, ok, err, arith,
  str_eq, eq_iff, if◌then◌else◌, is_ok, any, all, All, Option-cases, Bool-cases, inl, inr, cut,
  has_prefix, sym, &&_true, All-keep,
}
use go_cell_protocol.Value.{Value, bool, normalize}
use mathlib.Core.Path.{subst}
use go_cell_protocol.Agreement.Grant.{Grant}
use go_cell_protocol.Identity.{Identity}
use go_cell_protocol.Agreement.Condition.{Condition, LookupCondition}
use go_cell_protocol.Cell.{Contract, value}
use go_cell_protocol.Cell.Access.{swift_permission}
use go_cell_protocol.Cell.Handlers.{handler_for}
use go_cell_protocol.Cell.Contracts.{
  replace_from, condition_met, conditions_hold, contract_covers, contract_allows, current_contracts,
  requested_grant,
}
use go_cell_protocol.Chat.{ChatCell, ChatEnv}
use go_cell_protocol.Chat.Admission.{member_for, admission_condition_holds}
use go_cell_protocol.Chat.Access.{validate, open_before_admission, contract_admits, owners}
use go_cell_protocol.Chat.Dispatch.{admits, admission, get_allowing, viewed, allowed}

-- A key under which a chat answers for an admission.
abbrev pub is_admission_key : String → Bool
is_admission_key keypath =
    str_eq keypath "audience.admission.member"
    || str_eq keypath "audience.admission.invitationAccepted"

-- A chat that has an owner, and the handlers that `NewChatCell` gives it for admissions.
pub record Hosted (c : ChatCell) (requester : Identity) : Type 0 where
  pub owner : Identity
  pub is_owner : c.cell.owner ≡ some owner
  pub other : str_eq requester.uuid owner.uuid ≡ false
  pub handles_member : handler_for "audience.admission.member" c.cell.get_handlers ≡ some admits
  pub handles_accepted :
      handler_for "audience.admission.invitationAccepted" c.cell.get_handlers ≡ some admits

module _ (e : ChatEnv) (c : ChatCell) (requester : Identity) (hosted : Hosted c requester)
    (outside : member_for e c (some requester) ≡ none) where
  no_admission : (name : String) → admission_condition_holds e c name (some requester) ≡ false
  unfolding admission_condition_holds
  no_admission name = rw (outside, admission_condition_holds) refl

  not_owners : owners c (some requester) ≡ false
  not_owners = rw hosted.is_owner hosted.other

  lets_in :
      (allows : String → String → Bool) (name : String)
      → open_before_admission name ≡ some "r---"
      → validate e allows c "read" name (some requester) ≡ ok tt
  unfolding validate swift_permission
  lets_in allows name open_key = rw (not_owners, open_key, validate) refl

  reads_false :
      (name : String)
      → (str_eq name "description" || str_eq name "keys") ≡ false
      → str_eq name "audience.admissionConditions" ≡ false
      → open_before_admission name ≡ some "r---"
      → handler_for name c.cell.get_handlers ≡ some admits
      → (get_allowing e (λ permission k. false) c name (some requester)).1 ≡ ok (value (bool false))
  unfolding get_allowing admission
  reads_false name a b open_key h =
      rw (a, lets_in (λ permission k. false) name open_key, h, b, no_admission, get_allowing) refl

  -- A condition on an admission whose reading says false is not met.
  unmet :
      (l : LookupCondition) (child : String)
      → cut b'.' (replace_from "$identity" requester.uuid 0 l.keypath) ≡ some ("target", child)
      → str_eq child "" ≡ false
      → (get_allowing e (λ permission k. false) c child (some requester)).1
        ≡ ok (value (bool false))
      → l.expected_value ≡ bool true
      → str_eq (e.env.marshal (bool false)) (e.env.marshal (bool true)) ≡ false
      → condition_met e.env (viewed e c) requester (record { lookup = some l }) ≡ false
  unfolding condition_met normalize
  unmet l child split named reads expected tells =
      rw (split, named, reads, expected, tells, condition_met) refl

  member_path :
      cut b'.' (replace_from "$identity" requester.uuid 0 "target.audience.admission.member")
      ≡ some ("target", "audience.admission.member")
  unfolding cut replace_from has_prefix
  member_path = refl

  accepted_path :
      cut b'.'
        (replace_from "$identity" requester.uuid 0 "target.audience.admission.invitationAccepted")
      ≡ some ("target", "audience.admission.invitationAccepted")
  unfolding cut replace_from has_prefix
  accepted_path = refl

abbrev is_true : Value → Bool
is_true (bool true) = true
is_true _ = false

is_true_sound : (v : Value) → is_true v ≡ true → v ≡ bool true
is_true_sound v h = ground arith

-- The conditions of `ChatAdmissionCondition`.
abbrev asks : LookupCondition → Bool
asks l =
    (str_eq l.keypath "target.audience.admission.member"
      || str_eq l.keypath "target.audience.admission.invitationAccepted")
    && is_true l.expected_value

abbrev pub asks_admission : Condition → Bool
asks_admission x = elim x.lookup [ none ↦ false | some l ↦ asks l ]

-- The texts of `false` and `true` differ.
abbrev pub TellsApart : ChatEnv → Type 0
TellsApart e = str_eq (e.env.marshal (bool false)) (e.env.marshal (bool true)) ≡ false

all-false :
    {A : Type 0} (p q : A → Bool) (l : List A)
    → ((x : A) → p x ≡ true → q x ≡ false)
    → any p l ≡ true
    → all q l ≡ false
all-false p q [] f h = cc
all-false p q (x ∷ l) f h = elim (Bool-cases (p x)) [
  | inl y ↦ rw (f x y) refl
  | inr n ↦ either (q x) (all-false p q l f (rw n at h))
]
  where
    either : (b : Bool) → all q l ≡ false → (b && all q l) ≡ false
    either true e = e
    either false e = refl

any-false : {A : Type 0} (p : A → Bool) (l : List A) → All (λ x. p x ≡ false) l → any p l ≡ false
any-false p [] h = refl
any-false p (x ∷ l) h = rw (h.0, any-false p l h.1) refl

and_false : (b : Bool) → (b && false) ≡ false
and_false true = refl
and_false false = refl

admits_nothing :
    (allows : String → String → Bool) (permission keypath : String)
    → ((k : String) → allows permission k ≡ false)
    → contract_admits allows permission keypath ≡ false
admits_nothing allows permission keypath h = simp (h, and_false)

-- Every contract of the chat asks for an admission.
abbrev pub AllAsk : ChatCell → Type 0
AllAsk c = All (λ (k : Contract). any asks_admission k.conditions ≡ true) c.cell.contracts

module _ (e : ChatEnv) (c : ChatCell) (requester : Identity) (hosted : Hosted c requester)
    (outside : member_for e c (some requester) ≡ none) (apart : TellsApart e) where
  unmet_at :
      (l : LookupCondition) (key child : String)
      → key ≡ l.keypath
      → cut b'.' (replace_from "$identity" requester.uuid 0 key) ≡ some ("target", child)
      → str_eq child "" ≡ false
      → (get_allowing e (λ permission k. false) c child (some requester)).1
        ≡ ok (value (bool false))
      → l.expected_value ≡ bool true
      → condition_met e.env (viewed e c) requester (record { lookup = some l }) ≡ false
  unmet_at l key child same split named reads expected =
      unmet e c requester hosted outside l child
        (subst
          (λ k. cut b'.' (replace_from "$identity" requester.uuid 0 k) ≡ some ("target", child))
          same split)
        named reads expected apart

  asked_unmet_at :
      (l : LookupCondition)
      → asks l ≡ true
      → condition_met e.env (viewed e c) requester (record { lookup = some l }) ≡ false
  unfolding open_before_admission
  asked_unmet_at l h =
      let (key, yes_true) = &&_true _ _ h in
      let expected = is_true_sound l.expected_value yes_true in
      elim (Bool-cases (str_eq l.keypath "target.audience.admission.member")) [
        | inl m ↦
            unmet_at l _ "audience.admission.member" (sym ((eq_iff l.keypath _).0 m))
              (member_path e c requester hosted outside) refl
              (reads_false e c requester hosted outside "audience.admission.member" refl refl refl
                hosted.handles_member)
              expected
        | inr n ↦
            unmet_at l _ "audience.admission.invitationAccepted"
              (sym ((eq_iff l.keypath _).0 (second _ _ n key)))
              (accepted_path e c requester hosted outside) refl
              (reads_false e c requester hosted outside "audience.admission.invitationAccepted" refl
                refl refl hosted.handles_accepted)
              expected
      ]
    where
      second : (a b : Bool) → a ≡ false → (a || b) ≡ true → b ≡ true
      second a b n h = ground arith

  asked_unmet :
      (x : Condition)
      → asks_admission x ≡ true
      → condition_met e.env (viewed e c) requester x ≡ false
  asked_unmet x h = elim (Option-cases x.lookup) [
    | inl n ↦ absurd (let q = (rw n at h) in cc)
    | inr (l, s) ↦
        subst (λ o. condition_met e.env (viewed e c) requester (record { lookup = o }) ≡ false)
          (sym s) (asked_unmet_at l (asked l s h))
  ]
    where
      asked : (l : LookupCondition) → x.lookup ≡ some l → asks_admission x ≡ true → asks l ≡ true
      asked l s h = ground arith

  covers_nothing :
      (requested : Grant) (k : Contract)
      → any asks_admission k.conditions ≡ true
      → contract_covers e.env (viewed e c) requester requested k ≡ false
  unfolding conditions_hold
  covers_nothing requested k h =
      rw
        (all-false asks_admission (condition_met e.env (viewed e c) requester) k.conditions
          asked_unmet h)
        (and_false _)

  asking_none :
      (requested : Grant) (l : List Contract)
      → All (λ (k : Contract). any asks_admission k.conditions ≡ true) l
      → any (contract_covers e.env (viewed e c) requester requested) l ≡ false
  asking_none requested [] h = refl
  asking_none requested (k ∷ l) h =
      rw (covers_nothing requested k h.0, asking_none requested l h.1) refl

  outsider_gets_nothing :
      (permission keypath : String)
      → AllAsk c
      → allowed e c (some requester) permission keypath ≡ false
  unfolding contract_allows current_contracts
  outsider_gets_nothing permission keypath h =
      asking_none (requested_grant permission keypath) _ (All-keep _ _ c.cell.contracts h)

  pub outsider_invalid :
      (operation keypath : String)
      → AllAsk c
      → open_before_admission keypath ≡ none
      → is_ok (validate e (allowed e c (some requester)) c operation keypath (some requester))
        ≡ false
  unfolding validate
  outsider_invalid operation keypath h closed =
      rw
        (
          not_owners e c requester hosted outside,
          closed,
          admits_nothing (allowed e c (some requester)) (swift_permission operation) keypath
              (λ k. outsider_gets_nothing (swift_permission operation) k h),
        )
        (either _ _ (
          str_eq keypath "audience.admissionConditions"
          && str_eq (swift_permission operation) "-w--"))
    where
      either :
          (x y : String) (b : Bool)
          → is_ok {A = Unit {0}} (if b then err x else if false then ok tt else err y) ≡ false
      either x y true = refl
      either x y false = refl
