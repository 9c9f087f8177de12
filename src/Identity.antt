-- ===== src/Identity.antt =====
-- identity.go and identity_signing_challenge.go: identities, signing challenges and the store of
-- consumed challenges.
pub mod Challenge
pub mod Control
pub mod Replay
pub mod Store
use go_cell_protocol.Prelude.{
  ℕ, String, Bool, true, false, ◌&&◌, List, Option, none, some, Result, ok, err, str_eq, ◌==◌,
  length, if◌then◌else◌, ◌⧺◌, trim_space,
}
use go_cell_protocol.Prelude.Int.{ℤ}

abbrev pub Bytes : Type 0
Bytes = List ℕ

-- An `IdentityVault` as the signing code uses it: it signs a message for the identity with a UUID
-- and a public key, or fails.
pub record Vault : Type 0 where
  pub sign_message_for_identity : String → String → Bytes → Result Bytes

-- `Identity`, without its properties and key weights; `vault` is nil on a decoded identity.
pub record Identity : Type 0 where
  pub uuid : String
  pub display_name : String
  pub domain : String
  pub public_secure_key : String
  pub vault : Option Vault

-- `identitySigningChallenge`. A time is in nanoseconds since the Unix epoch.
pub record SigningChallenge : Type 0 where
  pub kind : String
  pub version : ℤ
  pub purpose : String
  pub identity_uuid : String
  pub public_key_fingerprint : String
  pub domain : String
  pub resource : String
  pub action : String
  pub audience : String
  pub nonce : Bytes
  pub issued_at : ℤ
  pub expires_at : ℤ

-- What the code takes of Go's base64, Ed25519 and JSON packages.
pub record Crypto : Type 0 where
  pub base64_decode : String → Option Bytes
  pub base64_encode : Bytes → String
  pub ed25519_verify : Bytes → Bytes → Bytes → Bool
  pub marshal_challenge : SigningChallenge → Bytes
  pub unmarshal_challenge : Bytes → Result SigningChallenge

-- `Identity.Sign`.
unfoldable pub sign : Identity → Bytes → Result Bytes
sign i message = elim i.vault [
  | none ↦ err "identity has no vault"
  | some v ↦ v.sign_message_for_identity i.uuid i.public_secure_key message
]

module _ (c : Crypto) where
  -- `signingPublicKeyFingerprint`, on an identity that is not nil.
  unfoldable pub signing_public_key_fingerprint : Identity → Result String
  signing_public_key_fingerprint i =
      if str_eq (trim_space i.public_secure_key) ""
      then err "identity has no signing public key"
      else elim (c.base64_decode i.public_secure_key) [
        | none ↦ err "identity has an invalid signing public key"
        | some key ↦
            if length key == 32
            then ok ("EdDSA:Curve25519:" ⧺ c.base64_encode key)
            else err "identity has an invalid signing public key"
      ]

  abbrev same_fingerprint : Result String → Result String → Bool
  same_fingerprint (ok a) (ok b) = str_eq a b
  same_fingerprint _ _ = false

  -- `identitiesReferenceSameSigningKey`.
  unfoldable pub same_signing_key : Option Identity → Option Identity → Bool
  same_signing_key (some expected) (some presented) =
      if str_eq expected.uuid ""
      then false
      else if str_eq expected.uuid presented.uuid
      then same_fingerprint (signing_public_key_fingerprint expected)
          (signing_public_key_fingerprint presented)
      else false
  same_signing_key _ _ = false
