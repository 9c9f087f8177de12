-- ===== src/Agreement/Permissions.antt =====
-- The permission texts of agreements.go and their bits.
pub mod RoundTrip
use Prim.Native.Nat.{bit_and}
use go_cell_protocol.Prelude.{
  ℕ, ◌+◌, String, Bool, true, false, ◌&&◌, List, [], ◌∷◌, Option, none, some, Result, ok, err, leb,
  ◌==◌, if◌then◌else◌, ◌⧺◌, ◌>>=◌, codes, trim_space,
}
use go_cell_protocol.Prelude.Int.{ℤ, pos, negsuc}

-- One place of a permission text: its letter has a weight, a dash has none.
abbrev bit_of : ℕ → ℕ → ℕ → Option ℕ
bit_of c letter weight = if c == letter then some weight else if c == b'-' then some 0 else none

-- `permissionTripletBits`; `none` is `0, false`.
unfoldable pub permission_triplet_bits : List ℕ → Option ℕ
permission_triplet_bits (a ∷ b ∷ c ∷ []) = do
  r ← bit_of a b'r' 4
  w ← bit_of b b'w' 2
  x ← bit_of c b'x' 1
  some (r + w + x)
permission_triplet_bits _ = none

-- `permissionQuadBits`.
unfoldable pub permission_quad_bits : List ℕ → Option ℕ
unfolding permission_triplet_bits
permission_quad_bits (a ∷ b ∷ c ∷ d ∷ []) = do
  bits ← permission_triplet_bits (a ∷ b ∷ c ∷ [])
  s ← bit_of d b's' 8
  some (bits + s)
permission_quad_bits _ = none

-- The `switch` of `permissionBits` on the length.
unfoldable pub bits_of_codes : List ℕ → Option (ℕ × ℕ)
unfolding permission_quad_bits permission_triplet_bits
bits_of_codes (a ∷ b ∷ c ∷ []) = do
  group ← permission_triplet_bits (a ∷ b ∷ c ∷ [])
  some (group, 0)
bits_of_codes (a ∷ b ∷ c ∷ d ∷ []) = do
  group ← permission_quad_bits (a ∷ b ∷ c ∷ d ∷ [])
  some (group, 0)
bits_of_codes (a ∷ b ∷ c ∷ d ∷ e ∷ f ∷ []) = do
  group ← permission_triplet_bits (a ∷ b ∷ c ∷ [])
  other ← permission_triplet_bits (d ∷ e ∷ f ∷ [])
  some (group, other)
bits_of_codes (a ∷ b ∷ c ∷ d ∷ e ∷ f ∷ g ∷ h ∷ []) = do
  group ← permission_quad_bits (a ∷ b ∷ c ∷ d ∷ [])
  other ← permission_quad_bits (e ∷ f ∷ g ∷ h ∷ [])
  some (group, other)
bits_of_codes _ = none

-- `permissionBits`: the bits of the group and of the others; `none` is `0, 0, false`.
unfoldable pub permission_bits : String → Option (ℕ × ℕ)
unfolding bits_of_codes trim_space
permission_bits permission = bits_of_codes (codes (trim_space permission))

-- `bits & mask == mask`.
abbrev pub has_bits : ℕ → ℕ → Bool
has_bits bits mask = bit_and bits mask == mask

-- `permissionQuadString`.
unfoldable pub permission_quad_string : ℕ → String
permission_quad_string bits =
    (if has_bits bits 4 then "r" else "-")
    ⧺ (if has_bits bits 2 then "w" else "-")
    ⧺ (if has_bits bits 1 then "x" else "-")
    ⧺ (if has_bits bits 8 then "s" else "-")

-- `permissionString`.
unfoldable pub permission_string : ℕ → ℕ → String
unfolding permission_quad_string
permission_string group other =
    if other == 0
    then permission_quad_string group
    else permission_quad_string group ⧺ permission_quad_string other

-- The `permission` field of a grant on the wire: a text, or an object with two numbers.
pub data PermissionWire : Type 0 where
  text : String → PermissionWire
  bits : ℤ → ℤ → PermissionWire

-- The permission that `Grant.MarshalJSON` writes.
unfoldable pub marshal_permission : String → PermissionWire
unfolding permission_bits
marshal_permission permission = elim (permission_bits permission) [
  | some (group, other) ↦ bits (pos group) (pos other)
  | none ↦ text permission
]

-- `validPermissionBits`.
unfoldable pub valid_permission_bits : ℤ → Bool
valid_permission_bits (pos n) = leb n 15
valid_permission_bits (negsuc n) = false

abbrev magnitude : ℤ → ℕ
magnitude (pos n) = n
magnitude (negsuc n) = 0

-- The permission that `Grant.UnmarshalJSON` reads, once the numbers fit Go's `int`.
unfoldable pub unmarshal_permission : PermissionWire → Result String
unfolding valid_permission_bits permission_string
unmarshal_permission (text permission) = ok permission
unmarshal_permission (bits group other) =
    if valid_permission_bits group && valid_permission_bits other
    then ok (permission_string (magnitude group) (magnitude other))
    else err "permission bits must be between 0 and 15"
