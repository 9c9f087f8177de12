-- ===== src/Value/Access.antt =====
-- Reading and writing the maps and lists inside a value.
use go_cell_protocol.Prelude.{
  ℕ, zero, suc, ◌<◌, String, ◌≡◌, refl, ◌≢◌, Option, none, some, arith, str_eq, eq_iff, eq_refl,
  if◌then◌else◌, ap,
}
use go_cell_protocol.Value.{Value, Items, nil, cons, Fields, end, field, obj}

-- `m[key]`.
unfoldable pub lookup_field : String → Fields → Option Value
lookup_field key end = none
lookup_field key (field j v fs) = if str_eq j key then some v else lookup_field key fs

-- `m[key] = v`.
unfoldable pub set_field : String → Value → Fields → Fields
set_field key v end = field key v end
set_field key v (field j w fs) =
    if str_eq j key then field key v fs else field j w (set_field key v fs)

pub lookup-set_field :
    (k j : String) (v : Value) (fs : Fields)
    → lookup_field j (set_field k v fs) ≡ (if str_eq k j then some v else lookup_field j fs)
unfolding lookup_field set_field
lookup-set_field k j v end = refl
lookup-set_field k j v (field i w fs) =
    ground (arith, eq_iff k j, eq_iff i k, eq_iff i j, lookup-set_field k j v fs)

pub lookup-set_field_self :
    (k : String) (v : Value) (fs : Fields) → lookup_field k (set_field k v fs) ≡ some v
lookup-set_field_self k v fs = simp (lookup-set_field, eq_refl)

pub lookup-set_field_ne :
    (k j : String) (v : Value) (fs : Fields)
    → k ≢ j
    → lookup_field j (set_field k v fs) ≡ lookup_field j fs
lookup-set_field_ne k j v fs h = ground (arith, lookup-set_field k j v fs, eq_iff k j)

abbrev pub length : Items → ℕ
length nil = 0
length (cons x xs) = suc (length xs)

-- `list[i]`.
unfoldable pub nth : Items → ℕ → Option Value
nth nil i = none
nth (cons x xs) zero = some x
nth (cons x xs) (suc i) = nth xs i

-- `list[i] = v`, at an index inside the list.
unfoldable pub set_nth : Items → ℕ → Value → Items
set_nth nil i v = nil
set_nth (cons x xs) zero v = cons v xs
set_nth (cons x xs) (suc i) v = cons x (set_nth xs i v)

-- `for len(list) <= i { list = append(list, map[string]any{}) }`.
unfoldable pub pad : Items → ℕ → Items
pad nil zero = cons (obj end) nil
pad nil (suc i) = cons (obj end) (pad nil i)
pad (cons x xs) zero = cons x xs
pad (cons x xs) (suc i) = cons x (pad xs i)

-- `append(list, v)`.
unfoldable pub snoc : Items → Value → Items
snoc nil v = cons v nil
snoc (cons x xs) v = cons x (snoc xs v)

pub lt-length-pad : (xs : Items) (i : ℕ) → i < length (pad xs i)
unfolding pad
lt-length-pad nil zero = omega arith
lt-length-pad nil (suc i) = omega (arith, lt-length-pad nil i)
lt-length-pad (cons x xs) zero = omega arith
lt-length-pad (cons x xs) (suc i) = omega (arith, lt-length-pad xs i)

pub length-set_nth : (xs : Items) (i : ℕ) (v : Value) → length (set_nth xs i v) ≡ length xs
unfolding set_nth
length-set_nth nil i v = refl
length-set_nth (cons x xs) zero v = refl
length-set_nth (cons x xs) (suc i) v = ap suc (length-set_nth xs i v)

pub nth-set_nth_self :
    (xs : Items) (i : ℕ) (v : Value) → i < length xs → nth (set_nth xs i v) i ≡ some v
unfolding nth set_nth
nth-set_nth_self nil i v h = elim h [ ]
nth-set_nth_self (cons x xs) zero v h = refl
nth-set_nth_self (cons x xs) (suc i) v h = nth-set_nth_self xs i v (omega arith)

pub nth-pad_old : (xs : Items) (i j : ℕ) (v : Value) → nth xs j ≡ some v → nth (pad xs i) j ≡ some v
unfolding nth pad
nth-pad_old nil i j v h = cc
nth-pad_old (cons x xs) zero j v h = h
nth-pad_old (cons x xs) (suc i) zero v h = h
nth-pad_old (cons x xs) (suc i) (suc j) v h = nth-pad_old xs i j v h
