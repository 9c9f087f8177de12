-- ===== src/Identity/Store.antt =====
-- identity.go: `InMemoryIdentityVault`, a vault that keeps the keys of its identities.
pub mod Laws
use go_cell_protocol.Prelude.{
  ℕ, String, Bool, [], ◌⧺◌, true, false, List, Option, none, some, Result, ok, err, str_eq,
  if◌then◌else◌, Dict, lookup, insert,
}
use go_cell_protocol.Identity.{Bytes}

-- What the vault takes of Go's Ed25519 and base64 packages.
pub record Keys : Type 0 where
  pub public_of : Bytes → Bytes
  pub ed25519_sign : Bytes → Bytes → Bytes
  pub ed25519_verify : Bytes → Bytes → Bytes → Bool
  pub base64_encode : Bytes → String
  pub base64_decode : String → Option Bytes

-- An identity as the vault sees it; the vault that it carries is this one once it was added.
pub record Person : Type 0 where
  pub uuid : String
  pub display_name : String
  pub domain : String
  pub public_secure_key : String

-- `InMemoryIdentityVault`.
pub record Store : Type 0 where
  pub contexts : Dict String
  pub identities : Dict Person
  pub private_keys : Dict Bytes
  pub public_keys : Dict Bytes

-- `NewInMemoryIdentityVault`.
unfoldable pub new_store : Store
new_store = record { contexts = []; identities = []; private_keys = []; public_keys = [] }

abbrev or_empty : Option Bytes → Bytes
or_empty none = []
or_empty (some b) = b

abbrev names_context : String → String → Dict String → Dict String
names_context name uuid m = if str_eq name "" then m else insert name uuid m

module _ (k : Keys) where
  -- The store and the identity once `AddIdentity` has a key pair for the UUID; a new one is made
  -- from a fresh private key.
  unfoldable pub with_key : Store → Person → Bytes → Option Bytes → Store × Person
  with_key s p fresh (some private) = (s, p)
  with_key s p fresh none = (
    record s {
      private_keys = insert p.uuid fresh s.private_keys;
      public_keys = insert p.uuid (k.public_of fresh) s.public_keys;
    },
    record p { public_secure_key = k.base64_encode (k.public_of fresh) },
  )

  -- An identity that still has no public key takes the vault's.
  unfoldable pub with_public_key : Store → Person → Person
  with_public_key s p =
      if str_eq p.public_secure_key ""
      then record p { public_secure_key = k.base64_encode (or_empty (lookup p.uuid s.public_keys)) }
      else p

  -- `AddIdentity`: the store and the identity after the call.
  unfoldable pub add_identity : Store → Person → String → Bytes → Store × Person
  unfolding with_key with_public_key
  add_identity s p name fresh =
      let (keyed, q) = with_key s p fresh (lookup p.uuid s.private_keys) in
      let added = with_public_key keyed q in
      (
        record keyed {
          identities = insert added.uuid added keyed.identities;
          contexts = names_context name added.uuid keyed.contexts;
        },
        added,
      )

  abbrev or_no_text : Option String → String
  or_no_text none = ""
  or_no_text (some s) = s

  -- `Identity`: the identity of a name, or a new one with a fresh UUID and a fresh key.
  unfoldable pub identity_for_name : Store → String → Bool → Person → Bytes → Store × Option Person
  identity_for_name s name make_new new_person fresh =
      let uuid = or_no_text (lookup name s.contexts) in
      if str_eq uuid ""
      then if make_new
        then (
          (add_identity s new_person name fresh).0,
          some (add_identity s new_person name fresh).1,
        )
        else (s, none)
      else (s, lookup uuid s.identities)

  -- `SignMessageForIdentity`, for an identity that is not nil.
  unfoldable pub sign_message : Store → String → Bytes → Result Bytes
  sign_message s uuid message = elim (lookup uuid s.private_keys) [
    | none ↦ err ("unknown identity " ⧺ uuid)
    | some private ↦ ok (k.ed25519_sign private message)
  ]

  -- The key that a signature is verified with: the vault's own, or else the one that the identity
  -- carries.
  unfoldable pub verifying_key : Store → Person → Option Bytes
  verifying_key s p = elim (lookup p.uuid s.public_keys) [
    | some public ↦ some public
    | none ↦ if str_eq p.public_secure_key "" then none else k.base64_decode p.public_secure_key
  ]

  -- `VerifySignature`, for an identity that is not nil.
  unfoldable pub verify_vault_signature : Store → Bytes → Bytes → Person → Bool
  unfolding verifying_key
  verify_vault_signature s signature message p = elim (verifying_key s p) [
    | none ↦ false
    | some public ↦ k.ed25519_verify public message signature
  ]
