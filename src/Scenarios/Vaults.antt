-- ===== src/Scenarios/Vaults.antt =====
-- A vault with one identity, and typed values, on concrete inputs.
use go_cell_protocol.Prelude.{◌≡◌, true, [], ◌∷◌, some, ok, ◌==◌, ==_refl, length, lookup}
use go_cell_protocol.Identity.{Bytes}
use go_cell_protocol.Identity.Store.{
  Keys, Person, new_store, add_identity, sign_message, verify_vault_signature,
}
use go_cell_protocol.Identity.Store.Laws.{Paired, add_identity-Paired, verify-add_identity}
use go_cell_protocol.Scenarios.{copies}

-- Signatures are as long as the key here.
abbrev keys : Keys
keys = record {
  public_of = λ private. private;
  ed25519_sign = λ private message. private;
  ed25519_verify = λ public message signature. length public == length signature;
  base64_encode = λ b. "K";
  base64_decode = λ s. some (copies 32 1);
}

abbrev person : Person
person = record { uuid = "p"; display_name = "Ada"; domain = "local"; public_secure_key = "" }

empty-Paired : Paired keys new_store
unfolding new_store lookup
empty-Paired uuid private q = cc

add_identity-Paired_example : Paired keys (add_identity keys new_store person "me" (copies 32 1)).0
add_identity-Paired_example =
    add_identity-Paired keys new_store person "me" (copies 32 1) empty-Paired

verify-add_identity_example :
    let (after, added) = add_identity keys new_store person "me" (copies 32 1) in
    (added.uuid ≡ "p")
    × (signature : Bytes) × (sign_message keys after added.uuid (7 ∷ []) ≡ ok signature)
    × (verify_vault_signature keys after signature (7 ∷ []) added ≡ true)
verify-add_identity_example =
    verify-add_identity keys new_store person "me" (copies 32 1) (7 ∷ []) empty-Paired
      (λ private m. ==_refl (length private))
