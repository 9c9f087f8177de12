-- ===== src/Interop/Channel/Server/Identity.antt =====
-- The check that every command on an admitted channel passes.
use go_cell_protocol.Prelude.{
  ◌≡◌, ◌↔◌, Bool, true, false, [], ◌∷◌, none, some, is_ok, arith, eq_iff,
}
use go_cell_protocol.Prelude.Int.{ℤ, ◌<ℤ◌}
use go_cell_protocol.Identity.{Bytes}
use go_cell_protocol.Interop.Channel.{PublicIdentity, same_bytes, equal_identity}
use go_cell_protocol.Interop.Channel.Server.{AdmittedChannel, check_channel, check_identity}

pub same_bytes_iff : (a b : Bytes) → (same_bytes a b ≡ true) ↔ (a ≡ b)
unfolding same_bytes
same_bytes_iff [] [] = ground arith
same_bytes_iff [] (y ∷ b) = ground arith
same_bytes_iff (x ∷ a) [] = ground arith
same_bytes_iff (x ∷ a) (y ∷ b) = ground (arith, same_bytes_iff a b)

pub same_bytes_refl : (b : Bytes) → same_bytes b b ≡ true
same_bytes_refl b = (same_bytes_iff b b).1 (λ i. b)

pub equal_identity_iff : (p q : PublicIdentity) → (equal_identity p q ≡ true) ↔ (p ≡ q)
unfolding equal_identity
equal_identity_iff p q = ground (
  arith,
  eq_iff p.uuid q.uuid,
  same_bytes_iff p.public_key q.public_key,
  eq_iff p.algorithm q.algorithm,
  eq_iff p.curve q.curve,
)

-- A command passes the check of an admitted channel exactly when the channel has not expired and
-- the command carries the very identity that was admitted; without an identity it passes exactly
-- when the channel has not expired and none is required.
pub check_identity_iff :
    (a : AdmittedChannel) (p : PublicIdentity) (required : Bool) (now : ℤ)
    → ((is_ok (check_identity a (some p) required now) ≡ true)
        ↔ ((now <ℤ a.expires_at) × (p ≡ a.identity)))
      × ((is_ok (check_identity a none required now) ≡ true)
          ↔ ((now <ℤ a.expires_at) × (required ≡ false)))
unfolding check_identity check_channel
check_identity_iff a p required now = ground (arith, equal_identity_iff p a.identity)
