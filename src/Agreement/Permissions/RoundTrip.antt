-- ===== src/Agreement/Permissions/RoundTrip.antt =====
-- A permission keeps its bits through its text and through the wire.
use go_cell_protocol.Prelude.{
  ℕ, ◌<◌, String, ◌≡◌, refl, Bool, true, false, ◌&&◌, List, [], ◌∷◌, Option, none, some, ok, arith,
  ◌==◌, codes, trim_space, Option-cases, all_below, all_below_sound, inl, inr,
}
use go_cell_protocol.Prelude.Int.{pos}
use go_cell_protocol.Agreement.Permissions.{
  permission_triplet_bits, permission_quad_bits, bits_of_codes, permission_bits, permission_string,
  marshal_permission, unmarshal_permission, bits,
}

same_bits : ℕ → ℕ → Option (ℕ × ℕ) → Bool
same_bits g o none = false
same_bits g o (some (a, b)) = a == g && b == o

same_bits_sound : (g o : ℕ) (r : Option (ℕ × ℕ)) → same_bits g o r ≡ true → r ≡ some (g, o)
unfolding same_bits
same_bits_sound g o none h = cc
same_bits_sound g o (some (a, b)) h = ground arith

string_table :
    all_below 16 (λ g. all_below 16 (λ o. same_bits g o (permission_bits (permission_string g o))))
    ≡ true
unfolding all_below same_bits permission_bits permission_string
string_table = refl

-- Every pair of four-bit masks is read back from its text.
pub permission_bits-permission_string :
    (group other : ℕ)
    → group < 16
    → other < 16
    → permission_bits (permission_string group other) ≡ some (group, other)
permission_bits-permission_string g o hg ho =
    same_bits_sound g o _ (all_below_sound 16 _ o (all_below_sound 16 _ g string_table hg) ho)

triplet-lt : (l : List ℕ) (n : ℕ) → permission_triplet_bits l ≡ some n → n < 8
unfolding permission_triplet_bits
triplet-lt (a ∷ b ∷ c ∷ []) n h = ground arith
triplet-lt _ n h = cc

quad-lt : (l : List ℕ) (n : ℕ) → permission_quad_bits l ≡ some n → n < 16
unfolding permission_quad_bits permission_triplet_bits
quad-lt (a ∷ b ∷ c ∷ d ∷ []) n h = ground arith
quad-lt _ n h = cc

-- The bits of a text fit in four places each.
bits_of_codes-lt : (l : List ℕ) (g o : ℕ) → bits_of_codes l ≡ some (g, o) → (g < 16) × (o < 16)
unfolding bits_of_codes
bits_of_codes-lt (a ∷ b ∷ c ∷ []) g o h = ground (arith, triplet-lt (a ∷ b ∷ c ∷ []) g)
bits_of_codes-lt (a ∷ b ∷ c ∷ d ∷ []) g o h = ground (arith, quad-lt (a ∷ b ∷ c ∷ d ∷ []) g)
bits_of_codes-lt (a ∷ b ∷ c ∷ d ∷ e ∷ f ∷ []) g o h =
    ground (arith, triplet-lt (a ∷ b ∷ c ∷ []) g, triplet-lt (d ∷ e ∷ f ∷ []) o)
bits_of_codes-lt (a ∷ b ∷ c ∷ d ∷ e ∷ f ∷ i ∷ j ∷ []) g o h =
    ground (arith, quad-lt (a ∷ b ∷ c ∷ d ∷ []) g, quad-lt (e ∷ f ∷ i ∷ j ∷ []) o)
bits_of_codes-lt _ g o h = cc

pub permission_bits-lt :
    (p : String) (g o : ℕ) → permission_bits p ≡ some (g, o) → (g < 16) × (o < 16)
unfolding permission_bits
permission_bits-lt p g o h = bits_of_codes-lt (codes (trim_space p)) g o h

unmarshal-bits :
    (g o : ℕ)
    → g < 16
    → o < 16
    → unmarshal_permission (bits (pos g) (pos o)) ≡ ok (permission_string g o)
unfolding unmarshal_permission
unmarshal-bits g o hg ho = ground arith

-- A permission that goes through the wire is read without an error, and keeps its bits; a text
-- that is no permission keeps having none.
pub unmarshal-marshal_permission :
    (p : String)
    → (q : String) × (unmarshal_permission (marshal_permission p) ≡ ok q)
      × (permission_bits q ≡ permission_bits p)
unfolding marshal_permission
unmarshal-marshal_permission p = elim (Option-cases (permission_bits p)) [
  | inl e ↦ (p, rw (e, marshal_permission) (unfold unmarshal_permission in refl), refl)
  | inr ((g, o), e) ↦
      let (hg, ho) = permission_bits-lt p g o e in
      (
        permission_string g o,
        rw (e, marshal_permission) (unmarshal-bits g o hg ho),
        rw e (permission_bits-permission_string g o hg ho),
      )
]
