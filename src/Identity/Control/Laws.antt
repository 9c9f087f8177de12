-- ===== src/Identity/Control/Laws.antt =====
-- A proof of control is a signature.
use go_cell_protocol.Prelude.{
  String, ◌≡◌, refl, Bool, true, false, Option, none, some, Result, ok, err, arith, eq_iff,
  Option-cases, Result-cases, inl, inr, sym,
}
use go_cell_protocol.Identity.{
  Bytes, Identity, Crypto, sign, signing_public_key_fingerprint, same_signing_key,
}
use go_cell_protocol.Identity.Challenge.{validate_challenge}
use go_cell_protocol.Identity.Control.{
  Draw, Purpose, fresh_challenge, check_signature, answer_challenge, proves_control,
}

-- A signature of the presented identity's vault over the fresh challenge for this purpose, under
-- the key of the expected identity.
pub record Proof (k : Crypto) (expected presented : Identity) (p : Purpose) (draw : Draw)
    : Type 0 where
  pub fingerprint : String
  pub nonce : Bytes
  pub key : Bytes
  pub signature : Bytes
  pub drawn : draw.nonce ≡ some nonce
  pub names_key : signing_public_key_fingerprint k expected ≡ ok fingerprint
  pub decodes : k.base64_decode expected.public_secure_key ≡ some key
  pub signs :
      sign presented (k.marshal_challenge (fresh_challenge presented fingerprint p draw.now nonce))
      ≡ ok signature
  pub verifies :
      k.ed25519_verify key
        (k.marshal_challenge (fresh_challenge presented fingerprint p draw.now nonce))
        signature
      ≡ true

module _ (k : Crypto) where
  pub same_signing_key-uuid :
      (e p : Identity) → same_signing_key k (some e) (some p) ≡ true → e.uuid ≡ p.uuid
  unfolding same_signing_key
  same_signing_key-uuid e p h = ground (arith, eq_iff e.uuid p.uuid)

  check_signature_sound :
      (e : Identity) (m : Bytes) (r : Result Bytes)
      → check_signature k e m r ≡ true
      → (s : Bytes) × (key : Bytes) × (r ≡ ok s)
        × (k.base64_decode e.public_secure_key ≡ some key)
        × (k.ed25519_verify key m s ≡ true)
  unfolding check_signature
  check_signature_sound e m (err x) h = absurd (cc)
  check_signature_sound e m (ok s) h = elim (Option-cases (k.base64_decode e.public_secure_key)) [
    | inl n ↦ absurd (ground arith)
    | inr (key, d) ↦ (s, key, refl, d, ground arith)
  ]

  answer_challenge_sound :
      (e q : Identity) (p : Purpose) (draw : Draw) (f : Result String) (n : Option Bytes)
      → f ≡ signing_public_key_fingerprint k e
      → n ≡ draw.nonce
      → answer_challenge k e q p draw.now f n ≡ true
      → Proof k e q p draw
  unfolding answer_challenge
  answer_challenge_sound e q p draw (err x) n hf hn h = absurd (cc)
  answer_challenge_sound e q p draw (ok f) none hf hn h = absurd (cc)
  answer_challenge_sound e q p draw (ok f) (some n) hf hn h =
      let m = k.marshal_challenge (fresh_challenge q f p draw.now n) in
      elim (Result-cases (validate_challenge k m (some e) draw.now)) [
        | inr (x, v) ↦ absurd (clash (rw (v, answer_challenge) at h))
        | inl (c, v) ↦
            let (s, key, signed, decoded, good) =
              check_signature_sound e m (sign q m) (rw (v, answer_challenge) at h) in
            record {
              fingerprint = f;
              nonce = n;
              key = key;
              signature = s;
              drawn = sym hn;
              names_key = sym hf;
              decodes = decoded;
              signs = signed;
              verifies = good;
            }
      ]
    where
      clash : ◌≡◌ {A = Bool} false true → ⊥
      clash x = cc

  -- An identity proves control only if it has the expected UUID and its vault's signature over the
  -- fresh challenge for this purpose verifies under the expected identity's key.
  pub proves_control_sound :
      (expected presented : Identity) (p : Purpose) (draw : Draw)
      → proves_control k (some expected) (some presented) p draw ≡ true
      → (expected.uuid ≡ presented.uuid) × Proof k expected presented p draw
  unfolding proves_control
  proves_control_sound e q p draw h = (
    same_signing_key-uuid e q (ground arith),
    answer_challenge_sound e q p draw (signing_public_key_fingerprint k e) draw.nonce refl refl
        (ground arith),
  )
