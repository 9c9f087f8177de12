-- ===== src/Identity/Challenge.antt =====
-- `validateIdentitySigningChallenge`.
pub mod Sound
use go_cell_protocol.Prelude.{
  ℕ, ◌+◌, ◌*◌, ◌^◌, ◌≤◌, String, ◌≡◌, ◌≢◌, All, Bool, true, false, ◌&&◌, ◌||◌, List, [], ◌∷◌,
  Option, none, some, Result, ok, err, arith, str_eq, eq_iff, ltb, ◌==◌, length, codes,
  if◌then◌else◌, trim_space, ◌⧺◌,
}
use go_cell_protocol.Prelude.Int.{ℤ, pos, negsuc, ◌+ℤ◌, ◌-ℤ◌, ltb_ℤ, ◌≤ℤ◌}
use go_cell_protocol.Identity.{
  Bytes, Identity, SigningChallenge, Crypto, signing_public_key_fingerprint,
}

abbrev pub challenge_type : String
challenge_type = "org.haven.cellprotocol.identity-signing-challenge"

abbrev pub challenge_purpose : String
challenge_purpose = "identity-origin-proof"

abbrev pub second : ℕ
second = 1000000000

abbrev pub validity : ℤ
validity = pos (60 * second)

abbrev pub clock_skew : ℤ
clock_skew = pos (300 * second)

abbrev pub maximum_bytes : ℕ
maximum_bytes = 8 * 1024

abbrev pub minimum_nonce : ℕ
minimum_nonce = 32

abbrev pub maximum_nonce : ℕ
maximum_nonce = 128

abbrev pub maximum_scope : ℕ
maximum_scope = 512

-- The first error of the scope loop.
unfoldable pub scope_error : List String → Option String
scope_error [] = none
scope_error (s ∷ l) =
    let rest = scope_error l in
    if str_eq (trim_space s) ""
    then some "identity signing challenge is missing scope"
    else if ltb maximum_scope (length (codes s))
    then some "identity signing challenge scope is too large"
    else rest

-- The checks from the nonce on.
unfoldable pub validate_rest : SigningChallenge → ℤ → Result SigningChallenge
validate_rest c now =
    if ltb (length c.nonce) minimum_nonce
    then err "identity signing challenge nonce is too short"
    else if ltb maximum_nonce (length c.nonce)
    then err "identity signing challenge nonce is too large"
    else elim (scope_error (c.domain ∷ c.resource ∷ c.action ∷ c.audience ∷ [])) [
      | some e ↦ err e
      | none ↦
          if ltb_ℤ c.expires_at c.issued_at || ltb_ℤ validity (c.expires_at -ℤ c.issued_at)
          then err "identity signing challenge has invalid validity"
          else if ltb_ℤ (now +ℤ clock_skew) c.issued_at
          then err "identity signing challenge was issued in the future"
          else if ltb_ℤ c.expires_at now
          then err "identity signing challenge has expired"
          else ok c
    ]

abbrev pub is_version_one : ℤ → Bool
is_version_one (pos n) = n == 1
is_version_one (negsuc n) = false

-- The checks on a decoded challenge, against the identity and its fingerprint.
unfoldable pub validate_decoded :
    SigningChallenge → Identity → Result String → ℤ → Result SigningChallenge
validate_decoded c i fingerprint now =
    if str_eq c.kind challenge_type
    then if is_version_one c.version
      then if str_eq c.purpose challenge_purpose
        then if str_eq c.identity_uuid i.uuid
          then elim fingerprint [
            | err e ↦ err e
            | ok expected ↦
                if str_eq (trim_space c.public_key_fingerprint) ""
                then err "identity signing challenge is missing public key fingerprint"
                else if str_eq c.public_key_fingerprint expected
                then validate_rest c now
                else err "identity signing challenge public key mismatch"
          ]
          else err "identity signing challenge identity mismatch"
        else err "identity signing challenge has wrong purpose"
      else err "identity signing challenge has unsupported version"
    else err "identity signing challenge has wrong type"

module _ (k : Crypto) where
  -- `validateIdentitySigningChallenge`; a nil identity is `none`.
  unfoldable pub validate_challenge : Bytes → Option Identity → ℤ → Result SigningChallenge
  validate_challenge raw none now = err "identity signing challenge requires an identity"
  validate_challenge raw (some i) now =
      if ltb maximum_bytes (length raw)
      then err "identity signing challenge exceeds 8192 bytes"
      else elim (k.unmarshal_challenge raw) [
        | err e ↦ err ("invalid identity signing challenge: " ⧺ e)
        | ok c ↦ validate_decoded c i (signing_public_key_fingerprint k i) now
      ]

-- A text that says something and is not too long.
abbrev pub InScope : String → Type 0
InScope s = (trim_space s ≢ "") × (length (codes s) ≤ maximum_scope)

-- What a validated challenge promises at the time of the check.
pub record IsValid (c : SigningChallenge) (i : Identity) (now : ℤ) : Type 0 where
  pub kind : c.kind ≡ challenge_type
  pub purpose : c.purpose ≡ challenge_purpose
  pub identity : c.identity_uuid ≡ i.uuid
  pub nonce_min : minimum_nonce ≤ length c.nonce
  pub nonce_max : length c.nonce ≤ maximum_nonce
  pub scoped : All InScope (c.domain ∷ c.resource ∷ c.action ∷ c.audience ∷ [])
  pub ordered : c.issued_at ≤ℤ c.expires_at
  pub short : c.expires_at ≤ℤ c.issued_at +ℤ validity
  pub not_future : c.issued_at ≤ℤ now +ℤ clock_skew
  pub alive : now ≤ℤ c.expires_at
