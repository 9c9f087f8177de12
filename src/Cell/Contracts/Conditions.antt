-- ===== src/Cell/Contracts/Conditions.antt =====
-- What the conditions of a contract ask for: `Condition.Met` and `conditionsHold`.
use go_cell_protocol.Prelude.{
  refl, String, ◌≡◌, ◌≢◌, Bool, true, not, ◌||◌, List, [], ◌∷◌, some, Result, ok, err, arith,
  str_eq, eq_iff, cut, All, &&_true, Option-cases, Bool-cases, inl, inr, ◌∙◌, ap, false,
}
use go_cell_protocol.Value.{normalize}
use go_cell_protocol.Identity.{Identity}
use go_cell_protocol.Agreement.Condition.{Condition, LookupCondition}
use go_cell_protocol.Cell.{GeneralCell, Env, Reading}
use go_cell_protocol.Cell.Contracts.{
  replace_from, reading_text, target_get, condition_met, conditions_hold,
}

module _ (e : Env) (c : GeneralCell) (requester : Identity) where
  -- A condition that looks up a keypath of the target, with the requester's UUID put in, and finds
  -- there the value that it expects.
  pub record Met (condition : Condition) : Type 0 where
    pub asked : LookupCondition
    pub asks : condition.lookup ≡ some asked
    pub child : String
    pub names_target :
        cut b'.' (replace_from "$identity" requester.uuid 0 asked.keypath) ≡ some ("target", child)
    pub has_child : child ≢ ""
    pub reading : Reading
    pub reads : target_get e c child requester ≡ ok reading
    pub equals : reading_text e reading ≡ e.marshal (normalize e.codec asked.expected_value)

  at_target :
      (child context_key : String)
      → (str_eq child "" || not (str_eq context_key "target")) ≡ false
      → (context_key ≡ "target") × (child ≢ "")
  at_target child context_key h = (
    (eq_iff context_key "target").0 (ground arith),
    λ q. let y = (eq_iff child "").1 q in cc (parts _ _ h, y),
  )
    where
      parts : (x y : Bool) → (x || not y) ≡ false → x ≡ false
      parts x y h = ground arith

  -- The reading behind the tests on the keypath.
  reads_expected :
      (r : Result Reading) (expected : String)
      → (elim r [ err _ ↦ false | ok v ↦ str_eq (reading_text e v) expected ]) ≡ true
      → (v : Reading) × (r ≡ ok v) × (reading_text e v ≡ expected)
  reads_expected (err x) expected h = absurd (cc)
  reads_expected (ok v) expected h = (v, refl, (eq_iff _ _).0 h)

  condition_met_sound :
      (condition : Condition) → condition_met e c requester condition ≡ true → Met condition
  unfolding condition_met
  condition_met_sound condition h = elim (Option-cases condition.lookup) [
    | inl n ↦ absurd (let q = (rw (n, condition_met) at h) in cc)
    | inr (l, n) ↦
        let looked = (rw (n, condition_met) at h) in
        elim (Option-cases (cut b'.' (replace_from "$identity" requester.uuid 0 l.keypath))) [
          | inl m ↦ absurd (let q = (rw m at looked) in cc)
          | inr ((context_key, child), m) ↦
              let cut_there = (rw m at looked) in
              elim (Bool-cases (str_eq child "" || not (str_eq context_key "target"))) [
                | inl y ↦ absurd (let q = (rw y at cut_there) in cc)
                | inr y ↦
                    let (target, nonempty) = at_target child context_key y in
                    let (v, reads, equals) =
                      reads_expected (target_get e c child requester)
                        (e.marshal (normalize e.codec l.expected_value)) (rw y at cut_there) in
                    record {
                      asked = l;
                      asks = n;
                      child = child;
                      names_target = m ∙ ap (λ k. some (k, child)) target;
                      has_child = nonempty;
                      reading = v;
                      reads = reads;
                      equals = equals;
                    }
              ]
        ]
  ]

  pub conditions_hold-Met :
      (l : List Condition) → conditions_hold e c l requester ≡ true → All Met l
  unfolding conditions_hold
  conditions_hold-Met [] h = tt
  conditions_hold-Met (x ∷ l) h =
      let (first, rest) = &&_true (condition_met e c requester x) _ h in
      (condition_met_sound x first, conditions_hold-Met l rest)
