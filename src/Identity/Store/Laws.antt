-- ===== src/Identity/Store/Laws.antt =====
-- The keys of a vault belong together, and what it signs it verifies.
use go_cell_protocol.Prelude.{
  String, ◌≡◌, inl, inr, refl, true, Option, none, some, ok, str_eq, lookup, insert, lookup-insert,
  lookup-insert_self, Bool-cases, sym, ◌∙◌,
}
use go_cell_protocol.Identity.{Bytes}
use go_cell_protocol.Identity.Store.{
  Keys, Person, Store, with_key, with_public_key, add_identity, sign_message, verifying_key,
  verify_vault_signature,
}

module _ (k : Keys) where
  -- The public key of each UUID is the one of its private key.
  abbrev pub Paired : Store → Type 0
  Paired s =
      (uuid : String) (private : Bytes)
      → lookup uuid s.private_keys ≡ some private
      → lookup uuid s.public_keys ≡ some (k.public_of private)

  with_key-Paired :
      (s : Store) (p : Person) (fresh : Bytes) (o : Option Bytes)
      → Paired s
      → Paired (with_key k s p fresh o).0
  unfolding with_key
  with_key-Paired s p fresh (some private) h uuid key q = h uuid key q
  with_key-Paired s p fresh none h uuid key q = elim (Bool-cases (str_eq p.uuid uuid)) [
    | inl y ↦
        let found : lookup uuid (insert p.uuid fresh s.private_keys) ≡ some fresh =
          rw (lookup-insert, y) refl in
        let same : fresh ≡ key = some_injective (sym found ∙ q) in rw (lookup-insert, y, same) refl
    | inr n ↦
        let before : lookup uuid s.private_keys ≡ some key = sym (rw (lookup-insert, n) refl) ∙ q in
        rw (lookup-insert, n) (h uuid key before)
  ]
    where
      some_injective : {a b : Bytes} → ◌≡◌ {A = Option Bytes} (some a) (some b) → a ≡ b
      some_injective e = cc

  with_key-has :
      (s : Store) (p : Person) (fresh : Bytes) (o : Option Bytes)
      → lookup p.uuid s.private_keys ≡ o
      → ((with_key k s p fresh o).1.uuid ≡ p.uuid)
        × (private : Bytes) × (lookup p.uuid (with_key k s p fresh o).0.private_keys ≡ some private)
  unfolding with_key
  with_key-has s p fresh (some private) q = (refl, private, q)
  with_key-has s p fresh none q = (refl, fresh, lookup-insert_self p.uuid fresh s.private_keys)

  uuid-with_public_key : (s : Store) (p : Person) → (with_public_key k s p).uuid ≡ p.uuid
  unfolding with_public_key
  uuid-with_public_key s p = elim (Bool-cases (str_eq p.public_secure_key "")) [
    | inl y ↦ rw y refl
    | inr n ↦ rw n refl
  ]

  -- `AddIdentity` keeps the keys of a vault paired: each UUID's public key is that of its private
  -- key.
  pub add_identity-Paired :
      (s : Store) (p : Person) (name : String) (fresh : Bytes)
      → Paired s
      → Paired (add_identity k s p name fresh).0
  unfolding add_identity
  add_identity-Paired s p name fresh h = with_key-Paired s p fresh (lookup p.uuid s.private_keys) h

  verify-sign :
      (s : Store) (p : Person) (message : Bytes) (private : Bytes)
      → Paired s
      → lookup p.uuid s.private_keys ≡ some private
      → k.ed25519_verify (k.public_of private) message (k.ed25519_sign private message) ≡ true
      → (signature : Bytes) × (sign_message k s p.uuid message ≡ ok signature)
        × (verify_vault_signature k s signature message p ≡ true)
  unfolding sign_message verify_vault_signature verifying_key
  verify-sign s p message private h held good = (
    k.ed25519_sign private message,
    rw (held, sign_message) refl,
    rw (h p.uuid private held, verify_vault_signature, verifying_key) good,
  )

  -- In a vault whose keys are paired, an identity that was added signs every message, and the vault
  -- verifies the signature for that identity, if Ed25519 verifies what it signs.
  pub verify-add_identity :
      (s : Store) (p : Person) (name : String) (fresh message : Bytes)
      → Paired s
      → ((private m : Bytes)
          → k.ed25519_verify (k.public_of private) m (k.ed25519_sign private m) ≡ true)
      → let (after, added) = add_identity k s p name fresh in
        (added.uuid ≡ p.uuid)
        × (signature : Bytes) × (sign_message k after added.uuid message ≡ ok signature)
        × (verify_vault_signature k after signature message added ≡ true)
  unfolding add_identity
  verify-add_identity s p name fresh message h good =
      let (same, private, held) = with_key-has s p fresh (lookup p.uuid s.private_keys) refl in
      let uuid : (add_identity k s p name fresh).1.uuid ≡ p.uuid =
        uuid-with_public_key (with_key k s p fresh (lookup p.uuid s.private_keys)).0
          (with_key k s p fresh (lookup p.uuid s.private_keys)).1
        ∙ same in
      let (signature, signs, verifies) =
        verify-sign (add_identity k s p name fresh).0 (add_identity k s p name fresh).1 message
          private (add_identity-Paired s p name fresh h) (rw uuid held) (good private message) in
      (uuid, signature, signs, verifies)
