-- ===== src/Identity/Control.antt =====
-- `identityProvesSigningKeyControl`: a fresh challenge, signed by the presented identity's vault.
pub mod Laws
use go_cell_protocol.Prelude.{
  ℕ, String, Bool, true, false, Option, none, some, Result, ok, err, str_eq, ◌==◌, length,
  if◌then◌else◌, trim_space,
}
use go_cell_protocol.Prelude.Int.{ℤ, pos, ◌+ℤ◌}
use go_cell_protocol.Identity.{
  Bytes, Identity, SigningChallenge, Crypto, sign, signing_public_key_fingerprint, same_signing_key,
}
use go_cell_protocol.Identity.Challenge.{
  challenge_type, challenge_purpose, validity, validate_challenge,
}

-- What a proof of control draws from outside: the time and 32 random bytes, if they can be read.
pub record Draw : Type 0 where
  pub now : ℤ
  pub nonce : Option Bytes

-- The scope of a proof.
pub record Purpose : Type 0 where
  pub domain : String
  pub resource : String
  pub action : String
  pub audience : String

unfoldable pub fresh_challenge : Identity → String → Purpose → ℤ → Bytes → SigningChallenge
fresh_challenge presented fingerprint p now nonce = record {
  kind = challenge_type;
  version = pos 1;
  purpose = challenge_purpose;
  identity_uuid = presented.uuid;
  public_key_fingerprint = fingerprint;
  domain = if str_eq (trim_space p.domain) "" then "local" else p.domain;
  resource = p.resource;
  action = p.action;
  audience = p.audience;
  nonce = nonce;
  issued_at = now;
  expires_at = now +ℤ validity;
}

module _ (k : Crypto) where
  -- The part from the signature on.
  unfoldable pub check_signature : Identity → Bytes → Result Bytes → Bool
  check_signature expected message (err e) = false
  check_signature expected message (ok signature) =
      if length signature == 64
      then elim (k.base64_decode expected.public_secure_key) [
        | none ↦ false
        | some key ↦ if length key == 32 then k.ed25519_verify key message signature else false
      ]
      else false

  -- The part once both identities are there and refer to one key.
  unfoldable pub answer_challenge :
      Identity → Identity → Purpose → ℤ → Result String → Option Bytes → Bool
  answer_challenge expected presented p now (err e) _ = false
  answer_challenge expected presented p now (ok fingerprint) none = false
  answer_challenge expected presented p now (ok fingerprint) (some nonce) =
      let message = k.marshal_challenge (fresh_challenge presented fingerprint p now nonce) in
      elim (validate_challenge k message (some expected) now) [
        | err e ↦ false
        | ok c ↦ check_signature expected message (sign presented message)
      ]

  abbrev pub has_vault : Identity → Bool
  has_vault i = elim i.vault [ none ↦ false | some v ↦ true ]

  unfoldable pub proves_control : Option Identity → Option Identity → Purpose → Draw → Bool
  proves_control (some expected) (some presented) p draw =
      if same_signing_key k (some expected) (some presented)
      then if has_vault presented
        then answer_challenge expected presented p draw.now
            (signing_public_key_fingerprint k expected) draw.nonce
        else false
      else false
  proves_control _ _ p draw = false
