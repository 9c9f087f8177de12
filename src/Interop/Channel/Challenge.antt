-- ===== src/Interop/Channel/Challenge.antt =====
-- `ValidateSigningChallenge` of interop/verify.go: what a client checks before it signs. Its times
-- are in nanoseconds; an error is its `Failure.Code`.
use go_cell_protocol.Prelude.{
  String, Bool, false, not, ◌&&◌, List, [], ◌∷◌, Option, none, some, Result, ok, err, str_eq, ltb,
  ◌==◌, length, codes, any, if◌then◌else◌, trim_space,
}
use go_cell_protocol.Prelude.Int.{ℤ, pos, negsuc, ◌+ℤ◌, ◌-ℤ◌, leb_ℤ}
use go_cell_protocol.Identity.{Bytes}
use go_cell_protocol.Interop.Channel.{
  PublicIdentity, IdentitySigningChallenge, Wire, fingerprint, signing_challenge_type,
  signing_challenge_purpose,
}

abbrev is_one : ℤ → Bool
is_one (pos n) = n == 1
is_one (negsuc n) = false

abbrev trimmed : Option String → String
trimmed none = ""
trimmed (some s) = trim_space s

abbrev scope : IdentitySigningChallenge → List String
scope c = c.domain ∷ c.resource ∷ c.action ∷ c.audience ∷ []

-- The checks from the nonce on.
unfoldable pub validate_scope : IdentitySigningChallenge → ℤ → Result IdentitySigningChallenge
validate_scope c now =
    if ltb (length c.nonce) 32
    then err "missingNonce"
    else if ltb 128 (length c.nonce)
    then err "payloadTooLarge"
    else if any (λ s. str_eq (trim_space s) "") (scope c)
    then err "missingChallengeScope"
    else if any (λ s. ltb 512 (length (codes s))) (scope c)
    then err "payloadTooLarge"
    else if not
        (leb_ℤ c.issued_at c.expires_at && leb_ℤ (c.expires_at -ℤ c.issued_at) (pos 60000000000))
    then err "invalidValidity"
    else if not (leb_ℤ c.issued_at (now +ℤ pos 300000000000))
    then err "issuedInFuture"
    else if not (leb_ℤ now c.expires_at)
    then err "expired"
    else ok c

module _ (w : Wire) where
  -- The checks on a decoded challenge.
  unfoldable pub validate_signing_fields :
      IdentitySigningChallenge → PublicIdentity → ℤ → Result IdentitySigningChallenge
  unfolding validate_scope fingerprint
  validate_signing_fields c identity now =
      if not (str_eq c.kind signing_challenge_type)
      then err "wrongType"
      else if not (is_one c.version)
      then err "unsupportedVersion"
      else if not (str_eq c.purpose signing_challenge_purpose)
      then err "wrongPurpose"
      else if not (str_eq c.identity_uuid identity.uuid)
      then err "identityMismatch"
      else if str_eq (trimmed c.public_key_fingerprint) ""
      then err "missingPublicKeyFingerprint"
      else if not (str_eq (trimmed c.public_key_fingerprint) (fingerprint w.base64_encode identity))
      then err "publicKeyMismatch"
      else validate_scope c now

  -- `ValidateSigningChallenge`.
  unfoldable pub validate_signing_challenge :
      Bytes → PublicIdentity → ℤ → Result IdentitySigningChallenge
  unfolding validate_signing_fields
  validate_signing_challenge raw identity now =
      if ltb 8192 (length raw) then err "payloadTooLarge" else elim (w.decode_challenge raw) [
        | none ↦ err "invalidPayload"
        | some c ↦ validate_signing_fields c identity now
      ]
