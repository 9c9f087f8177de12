-- ===== src/Agreement/Condition/Laws.antt =====
-- When two lists of conditions are the same policies.
use go_cell_protocol.Prelude.{
  ℕ, String, ◌≡◌, refl, true, false, List, [], ◌∷◌, map, arith, str_eq, eq_iff, eq_refl, ==_refl,
  if◌then◌else◌, length, suc, ◌∙◌, sym,
}
use go_cell_protocol.Value.{Codec, Value}
use go_cell_protocol.Agreement.Condition.{
  Condition, policy, insert_sorted, sort_strings, same_texts, any_empty, policies_match,
  conditions_match,
}

-- How often a text stands in a list.
abbrev pub count : String → List String → ℕ
count p [] = 0
count p (a ∷ l) = let rest = count p l in if str_eq p a then suc rest else rest

count-insert_sorted :
    (p a : String) (l : List String) → count p (insert_sorted a l) ≡ count p (a ∷ l)
unfolding insert_sorted
count-insert_sorted p a [] = refl
count-insert_sorted p a (b ∷ l) = ground (arith, count-insert_sorted p a l)

count-sort_strings : (p : String) (l : List String) → count p (sort_strings l) ≡ count p l
unfolding sort_strings
count-sort_strings p [] = refl
count-sort_strings p (a ∷ l) =
    ground (arith, count-insert_sorted p a (sort_strings l), count-sort_strings p l)

same_texts_sound : (l m : List String) → same_texts l m ≡ true → l ≡ m
unfolding same_texts
same_texts_sound [] [] h = refl
same_texts_sound [] (b ∷ m) h = cc
same_texts_sound (a ∷ l) [] h = cc
same_texts_sound (a ∷ l) (b ∷ m) h = ground (arith, eq_iff a b, same_texts_sound l m)

same_texts_refl : (l : List String) → same_texts l l ≡ true
unfolding same_texts
same_texts_refl [] = refl
same_texts_refl (a ∷ l) = ground (arith, eq_refl a, same_texts_refl l)

policies_match_sound :
    (a b : List String)
    → policies_match a b ≡ true
    → (any_empty a ≡ false) × ((p : String) → count p a ≡ count p b)
unfolding policies_match
policies_match_sound a b h = (
  ground arith,
  λ p.
      let e = same_texts_sound (sort_strings a) (sort_strings b) (ground arith) in
      sym (count-sort_strings p a) ∙ rw e (count-sort_strings p b),
)

policies_match_refl : (a : List String) → any_empty a ≡ false → policies_match a a ≡ true
unfolding policies_match
policies_match_refl a h = ground (arith, same_texts_refl (sort_strings a), ==_refl (length a))

right_policies : (a b : List String) → policies_match a b ≡ true → any_empty b ≡ false
unfolding policies_match
right_policies a b h = ground arith

policies_match_self : (a b : List String) → policies_match a b ≡ true → policies_match b b ≡ true
policies_match_self a b h = policies_match_refl b (right_policies a b h)

module _ (k : Codec) (marshal : Value → String) where
  -- The policies of a list of conditions.
  abbrev pub policies : List Condition → List String
  policies l = map (policy k marshal) l

  -- Lists of conditions match only if every condition has a policy and the two lists hold the same
  -- policies, each as often, whatever their order and their UUIDs.
  pub conditions_match_sound :
      (a b : List Condition)
      → conditions_match k marshal a b ≡ true
      → (any_empty (policies a) ≡ false)
        × ((p : String) → count p (policies a) ≡ count p (policies b))
  unfolding conditions_match
  conditions_match_sound a b h = policies_match_sound (policies a) (policies b) h

  -- A list whose conditions all have a policy matches itself.
  pub conditions_match_refl :
      (a : List Condition) → any_empty (policies a) ≡ false → conditions_match k marshal a a ≡ true
  unfolding conditions_match
  conditions_match_refl a h = policies_match_refl (policies a) h

  pub conditions_match_self :
      (a b : List Condition)
      → conditions_match k marshal a b ≡ true
      → conditions_match k marshal b b ≡ true
  unfolding conditions_match
  conditions_match_self a b h = policies_match_self (policies a) (policies b) h
