-- ===== src/Agreement/Grant/Laws.antt =====
-- What a grant covers.
use go_cell_protocol.Prelude.{
  ℕ, ◌<◌, String, ◌≡◌, ◌↔◌, ◌⊎◌, inl, inr, refl, Bool, true, false, not, ◌&&◌, ◌||◌, List, [], ◌∷◌,
  Option, none, some, arith, str_eq, eq_iff, ◌==◌, ==_iff, if◌then◌else◌, ◌⧺◌, has_prefix,
  has_suffix, trim_suffix, has_prefix_sound, has_prefix_complete, Bool-cases, all_below,
  all_below_sound, sym, ◌∙◌,
}
use go_cell_protocol.Agreement.Permissions.{permission_bits, has_bits}
use go_cell_protocol.Agreement.Permissions.RoundTrip.{permission_bits-lt}
use go_cell_protocol.Agreement.Grant.{
  Grant, grant_keypath_matches, covers_bits, covers_exactly, check_grant,
}

-- The keypath that a grant's own keypath stands for, without a closing `.*`.
abbrev pub base_keypath : String → String
base_keypath grant = if has_suffix grant ".*" then trim_suffix grant ".*" else grant

abbrev or3 : Bool → Bool → Bool → Bool
or3 a b c = a || b || c

matches-eq_or3 :
    (g r : String)
    → grant_keypath_matches g r
      ≡ or3 (str_eq g "*") (str_eq g r) (has_prefix r (base_keypath g ⧺ "."))
unfolding grant_keypath_matches
matches-eq_or3 g r = ground arith

or3_cases : (a b c : Bool) → or3 a b c ≡ true → (a ≡ true) ⊎ (b ≡ true) ⊎ (c ≡ true)
or3_cases a b c h = ground arith

or3_intro : (a b c : Bool) → (a ≡ true) ⊎ (b ≡ true) ⊎ (c ≡ true) → or3 a b c ≡ true
or3_intro a b c h = ground arith

-- What a grant's keypath stands for, by the texts alone.
abbrev pub KeypathMatches : String → String → Type 0
KeypathMatches grant requested =
    (grant ≡ "*")
    ⊎ (grant ≡ requested)
    ⊎ ((rest : String) × (requested ≡ (base_keypath grant ⧺ ".") ⧺ rest))

matches_sound : (g r : String) → grant_keypath_matches g r ≡ true → KeypathMatches g r
matches_sound g r h = elim (or3_cases _ _ _ (sym (matches-eq_or3 g r) ∙ h)) [
  | inl e ↦ inl ((eq_iff g "*").0 e)
  | inr (inl e) ↦ inr (inl ((eq_iff g r).0 e))
  | inr (inr e) ↦ inr (inr (has_prefix_sound r _ e))
]

matches_complete : (g r : String) → KeypathMatches g r → grant_keypath_matches g r ≡ true
matches_complete g r h =
    matches-eq_or3 g r
    ∙ or3_intro (str_eq g "*") (str_eq g r) (has_prefix r (base_keypath g ⧺ ".")) (elim h [
      | inl e ↦ inl ((eq_iff g "*").1 e)
      | inr (inl e) ↦ inr (inl ((eq_iff g r).1 e))
      | inr (inr (rest, e)) ↦ inr (inr (rw e (has_prefix_complete (base_keypath g ⧺ ".") rest)))
    ])

-- A grant's keypath matches a requested one exactly when it is `*`, or the same, or the requested
-- keypath goes on behind the grant's base, the keypath without a closing `.*`, with a dot.
pub grant_keypath_matches_iff :
    (grant requested : String)
    → (grant_keypath_matches grant requested ≡ true) ↔ KeypathMatches grant requested
grant_keypath_matches_iff g r = (matches_sound g r, matches_complete g r)

implies_table :
    all_below 16 (λ a.
      all_below 16 (λ b. all_below 16 (λ c. not (has_bits a b && has_bits b c) || has_bits a c)))
    ≡ true
unfolding all_below
implies_table = refl

has_bits_trans :
    (a b c : ℕ)
    → a < 16
    → b < 16
    → c < 16
    → has_bits a b ≡ true
    → has_bits b c ≡ true
    → has_bits a c ≡ true
has_bits_trans a b c ha hb hc hab hbc =
    imp
      (all_below_sound 16 _ c (all_below_sound 16 _ b (all_below_sound 16 _ a implies_table ha) hb)
        hc)
      hab hbc
  where
    imp : {x y z : Bool} → (not (x && y) || z) ≡ true → x ≡ true → y ≡ true → z ≡ true
    imp h hx hy = ground arith

zero_table : all_below 16 (λ c. not (has_bits 0 c) || c == 0) ≡ true
unfolding all_below
zero_table = refl

has_bits_zero : (c : ℕ) → c < 16 → has_bits 0 c ≡ true → c ≡ 0
has_bits_zero c hc h = last (all_below_sound 16 _ c zero_table hc) h
  where
    last : (not (has_bits 0 c) || c == 0) ≡ true → has_bits 0 c ≡ true → c ≡ 0
    last t u = ground arith

abbrev Fits : Option (ℕ × ℕ) → Type 0
Fits none = Unit
Fits (some (g, o)) = (g < 16) × (o < 16)

covers_other :
    (a b c : ℕ)
    → a < 16
    → b < 16
    → c < 16
    → (b == 0 || has_bits a b) ≡ true
    → (c == 0 || has_bits b c) ≡ true
    → (c == 0 || has_bits a c) ≡ true
covers_other a b c ha hb hc ab bc = elim (Bool-cases (c == 0)) [
  | inl z ↦ rw z refl
  | inr n ↦ rw n (elim (Bool-cases (b == 0)) [
    | inl z ↦
        let e : b ≡ 0 = (==_iff b 0).0 z in
        let h : has_bits 0 c ≡ true = rw e at (rw n at bc) in
        absurd (clash n (has_bits_zero c hc h))
    | inr m ↦ has_bits_trans a b c ha hb hc (rw m at ab) (rw n at bc)
  ])
]
  where
    clash : (c == 0) ≡ false → c ≡ 0 → ⊥
    clash n e = ground arith

covers_bits_trans :
    (x y z : Option (ℕ × ℕ))
    → Fits x
    → Fits y
    → Fits z
    → covers_bits x y ≡ true
    → covers_bits y z ≡ true
    → covers_bits x z ≡ true
unfolding covers_bits
covers_bits_trans none y z hx hy hz h k = cc
covers_bits_trans (some x) none z hx hy hz h k = cc
covers_bits_trans (some x) (some y) none hx hy hz h k = cc
covers_bits_trans (some (a, o)) (some (b, p)) (some (c, q)) hx hy hz h k =
    ground (arith, has_bits_trans a b c hx.0 hy.0 hz.0, covers_other o p q hx.1 hy.1 hz.1)

permission-Fits : (p : String) → Fits (permission_bits p)
permission-Fits p = go (permission_bits p) (permission_bits-lt p)
  where
    go : (r : Option (ℕ × ℕ)) → ((g o : ℕ) → r ≡ some (g, o) → (g < 16) × (o < 16)) → Fits r
    go none h = tt
    go (some (g, o)) h = h g o refl

-- Exact coverage is transitive: what a covered grant covers, the covering grant covers too.
pub covers_exactly_trans :
    (a b c : Grant)
    → covers_exactly a b ≡ true
    → covers_exactly b c ≡ true
    → covers_exactly a c ≡ true
unfolding covers_exactly
covers_exactly_trans a b c h k = ground (
  arith,
  eq_iff a.keypath b.keypath,
  eq_iff b.keypath c.keypath,
  eq_iff a.keypath c.keypath,
  covers_bits_trans (permission_bits a.permission) (permission_bits b.permission)
      (permission_bits c.permission) (permission-Fits a.permission) (permission-Fits b.permission)
      (permission-Fits c.permission),
)

-- A list of grants that admits a grant admits whatever that grant covers: delegation within a
-- template never widens it.
pub check_grant_trans :
    (held : List Grant) (g requested : Grant)
    → check_grant held g ≡ true
    → covers_exactly g requested ≡ true
    → check_grant held requested ≡ true
unfolding check_grant
check_grant_trans [] g requested h k = cc
check_grant_trans (x ∷ held) g requested h k =
    ground (arith, covers_exactly_trans x g requested, check_grant_trans held g requested)
