-- ===== src/Prelude/Tests.antt =====
-- Boolean tests on the native numbers, the conditional, and results with an error text.
use Prim.Native.Nat.{ℕ, compare, Ordering}
use Prim.Native.String.{String}
use mathlib.Core.Path.{◌≡◌, refl}
use mathlib.Core.Logic.{◌↔◌, ◌⊎◌, inl, inr}
use mathlib.Core.Bool.{Bool, true, false, not, ◌&&◌}
use mathlib.Core.Option.{Option, none, some}
use native.Mathlib.Omega.{arith}

-- These compute to `compare`, which `ground` and `grind` read with no lemma listed.
abbrev pub ltb : ℕ → ℕ → Bool
ltb a b = elim (compare a b) [ Ordering.lt ↦ true | _ ↦ false ]

abbrev pub leb : ℕ → ℕ → Bool
leb a b = elim (compare a b) [ Ordering.gt ↦ false | _ ↦ true ]

infix 50 ◌==◌
abbrev pub ◌==◌ : ℕ → ℕ → Bool
a == b = elim (compare a b) [ Ordering.eq ↦ true | _ ↦ false ]

infix 1 if◌then◌else◌
abbrev pub if◌then◌else◌ {ℓ} : {A : Type ℓ} → Bool → A → A → A
if true then x else y = x
if false then x else y = y

pub ==_iff : (a b : ℕ) → ((a == b) ≡ true) ↔ (a ≡ b)
==_iff a b = ground arith

pub ==_refl : (a : ℕ) → (a == a) ≡ true
==_refl a = ground arith

-- To split on a computed value and keep the equation.
pub Bool-cases : (b : Bool) → (b ≡ true) ⊎ (b ≡ false)
Bool-cases true = inl refl
Bool-cases false = inr refl

pub Option-cases {ℓ} : {A : Type ℓ} (o : Option A) → (o ≡ none) ⊎ ((a : A) × (o ≡ some a))
Option-cases none = inl refl
Option-cases (some a) = inr (a, refl)

abbrev pub is_some {ℓ} : {A : Type ℓ} → Option A → Bool
is_some none = false
is_some (some _) = true

-- Chains of `v, ok` results.
infixl 5 ◌>>=◌
abbrev pub ◌>>=◌ {ℓ κ} : {A : Type ℓ} {B : Type κ} → Option A → (A → Option B) → Option B
none >>= f = none
some a >>= f = f a

-- A Go pair `(value, error)`; the error is its text.
pub data Result {ℓ} (A : Type ℓ) : Type ℓ where
  ok : A → Result A
  err : String → Result A

abbrev pub is_ok {ℓ} : {A : Type ℓ} → Result A → Bool
is_ok (ok _) = true
is_ok (err _) = false

pub Result-cases {ℓ} :
    {A : Type ℓ} (r : Result A) → ((a : A) × (r ≡ ok a)) ⊎ ((e : String) × (r ≡ err e))
Result-cases (ok a) = inl (a, refl)
Result-cases (err e) = inr (e, refl)

pub &&_true : (a b : Bool) → (a && b) ≡ true → (a ≡ true) × (b ≡ true)
&&_true a b h = ground arith

-- To follow a test inside a goal: one case for each branch, with what the test found.
module _ {ℓ} {X : Type ℓ} (P : X → Type 0) where
  pub split_if :
      (b : Bool) {x y : X} → (b ≡ true → P x) → (b ≡ false → P y) → P (if b then x else y)
  split_if true f g = f refl
  split_if false f g = g refl

  pub split_option :
      {A : Type 0} (o : Option A) {x : X} {f : A → X}
      → P x
      → ((a : A) → o ≡ some a → P (f a))
      → P (elim o [ none ↦ x | some a ↦ f a ])
  split_option none p g = p
  split_option (some a) p g = g a refl

  pub split_result :
      {A : Type 0} (r : Result A) {x : String → X} {f : A → X}
      → ((code : String) → P (x code))
      → ((a : A) → r ≡ ok a → P (f a))
      → P (elim r [ err code ↦ x code | ok a ↦ f a ])
  split_result (err code) p g = p code
  split_result (ok a) p g = g a refl

-- A guard that a successful result has passed.
pub passed {ℓ} :
    {A : Type ℓ} (b : Bool) (x : String) (r : Result A) {v : A}
    → (if b then err x else r) ≡ ok v
    → (b ≡ false) × (r ≡ ok v)
passed b x r h = ground arith

pub not_is_false : (b : Bool) → not b ≡ false → b ≡ true
not_is_false b h = ground arith

-- `if err := r; err != nil { return err }`, before what follows.
infixl 5 ◌>>◌
abbrev pub ◌>>◌ {ℓ} : {B : Type ℓ} → Result (Unit {0}) → Result B → Result B
err x >> k = err x
ok _ >> k = k

pub stepped {ℓ} :
    {B : Type ℓ} (r : Result (Unit {0})) (k : Result B) {v : B}
    → (r >> k) ≡ ok v
    → (r ≡ ok tt) × (k ≡ ok v)
stepped (ok tt) k h = (refl, h)
stepped (err x) k h = cc
