-- ===== src/Identity/Challenge/Sound.antt =====
-- What a validated signing challenge promises.
use go_cell_protocol.Prelude.{
  ◌≤◌, String, ◌≡◌, All, trim_space, Bool, false, ◌||◌, List, [], ◌∷◌, Option, none, some, Result,
  ok, err, arith, eq_iff, ltb, length, if◌then◌else◌, sym, ap, Result-cases, Bool-cases, inl, inr,
  ◌∙◌,
}
use go_cell_protocol.Prelude.Int.{ℤ, ◌+ℤ◌, ◌-ℤ◌, ltb_ℤ, ◌≤ℤ◌}
use go_cell_protocol.Identity.{
  Bytes, Identity, SigningChallenge, Crypto, signing_public_key_fingerprint,
}
use go_cell_protocol.Identity.Challenge.{
  IsValid, InScope, challenge_type, challenge_purpose, validity, clock_skew, minimum_nonce,
  maximum_nonce, maximum_bytes, scope_error, validate_rest, validate_decoded, validate_challenge,
}

not_before : (a b : ℤ) → ltb_ℤ b a ≡ false → a ≤ℤ b
not_before a b h = ground arith

within : (a b w : ℤ) → ltb_ℤ w (a -ℤ b) ≡ false → a ≤ℤ b +ℤ w
within a b w h = ground arith

or_false : (a b : Bool) → (a || b) ≡ false → (a ≡ false) × (b ≡ false)
or_false a b h = ground arith

scope_error_sound : (l : List String) → scope_error l ≡ none → All InScope l
unfolding scope_error
scope_error_sound [] h = tt
scope_error_sound (s ∷ l) h = ((λ e. blank e, ground arith), scope_error_sound l (ground arith))
  where
    blank : trim_space s ≡ "" → ⊥
    blank e = ground (arith, eq_iff (trim_space s) "")

-- The facts of a validated challenge that the last checks give.
record Rest (c c' : SigningChallenge) (now : ℤ) : Type 0 where
  same : c' ≡ c
  nonce_min : minimum_nonce ≤ length c.nonce
  nonce_max : length c.nonce ≤ maximum_nonce
  scoped : scope_error (c.domain ∷ c.resource ∷ c.action ∷ c.audience ∷ []) ≡ none
  valid : (ltb_ℤ c.expires_at c.issued_at || ltb_ℤ validity (c.expires_at -ℤ c.issued_at)) ≡ false
  issued : ltb_ℤ (now +ℤ clock_skew) c.issued_at ≡ false
  alive : ltb_ℤ c.expires_at now ≡ false

-- The checks in a row, with each test a value.
abbrev chain :
    Bool → Bool → Option String → Bool → Bool → Bool → SigningChallenge → Result SigningChallenge
chain a b s d e f c =
    if a
    then err "identity signing challenge nonce is too short"
    else if b
    then err "identity signing challenge nonce is too large"
    else elim s [
      | some e ↦ err e
      | none ↦
          if d
          then err "identity signing challenge has invalid validity"
          else if e
          then err "identity signing challenge was issued in the future"
          else if f
          then err "identity signing challenge has expired"
          else ok c
    ]

chain_ok :
    (a b : Bool) (s : Option String) (d e f : Bool) (c c' : SigningChallenge)
    → chain a b s d e f c ≡ ok c'
    → (c' ≡ c) × (a ≡ false) × (b ≡ false) × (s ≡ none) × (d ≡ false) × (e ≡ false) × (f ≡ false)
chain_ok a b s d e f c c' h = ground arith

validate_rest_sound :
    (c c' : SigningChallenge) (now : ℤ) → validate_rest c now ≡ ok c' → Rest c c' now
unfolding validate_rest
validate_rest_sound c c' now h =
    let (same, a, b, s, d, e, f) =
      chain_ok (ltb (length c.nonce) minimum_nonce) (ltb maximum_nonce (length c.nonce))
        (scope_error (c.domain ∷ c.resource ∷ c.action ∷ c.audience ∷ []))
        (ltb_ℤ c.expires_at c.issued_at || ltb_ℤ validity (c.expires_at -ℤ c.issued_at))
        (ltb_ℤ (now +ℤ clock_skew) c.issued_at) (ltb_ℤ c.expires_at now) c c' h in
    record {
      same = same;
      nonce_min = ground arith;
      nonce_max = ground arith;
      scoped = s;
      valid = d;
      issued = e;
      alive = f;
    }

-- The facts of a validated challenge that the first checks give.
record Head (c c' : SigningChallenge) (i : Identity) (f : Result String) (now : ℤ) : Type 0 where
  kind : c.kind ≡ challenge_type
  purpose : c.purpose ≡ challenge_purpose
  identity : c.identity_uuid ≡ i.uuid
  fingerprint : f ≡ ok c.public_key_fingerprint
  rest : validate_rest c now ≡ ok c'

validate_decoded_sound :
    (c c' : SigningChallenge) (i : Identity) (f : Result String) (now : ℤ)
    → validate_decoded c i f now ≡ ok c'
    → Head c c' i f now
unfolding validate_decoded
validate_decoded_sound c c' i (err e) now h = absurd (ground arith)
validate_decoded_sound c c' i (ok expected) now h = record {
  kind = ground (arith, eq_iff c.kind challenge_type);
  purpose = ground (arith, eq_iff c.purpose challenge_purpose);
  identity = ground (arith, eq_iff c.identity_uuid i.uuid);
  fingerprint = ground (arith, eq_iff c.public_key_fingerprint expected);
  rest = ground arith;
}

Rest-IsValid :
    {c c' : SigningChallenge} {i : Identity} {f : Result String} {now : ℤ}
    → Head c c' i f now
    → Rest c c' now
    → IsValid c i now
Rest-IsValid {c} {c'} {i} {f} {now} h r = record {
  kind = h.kind;
  purpose = h.purpose;
  identity = h.identity;
  nonce_min = r.nonce_min;
  nonce_max = r.nonce_max;
  scoped = scope_error_sound _ r.scoped;
  ordered = not_before c.issued_at c.expires_at (or_false _ _ r.valid).0;
  short = within c.expires_at c.issued_at validity (or_false _ _ r.valid).1;
  not_future = not_before c.issued_at (now +ℤ clock_skew) r.issued;
  alive = not_before now c.expires_at r.alive;
}

decoded-IsValid :
    (c c' : SigningChallenge) (i : Identity) (f : Result String) (now : ℤ)
    → validate_decoded c i f now ≡ ok c'
    → (c' ≡ c) × (f ≡ ok c'.public_key_fingerprint) × IsValid c' i now
decoded-IsValid c c' i f now h =
    let head = validate_decoded_sound c c' i f now h in
    let r = validate_rest_sound c c' now head.rest in
    (r.same, rw r.same head.fingerprint, rw r.same (Rest-IsValid head r))

module _ (k : Crypto) where
  -- A signing challenge that validates is the one its bytes decode to, names the identity and the
  -- fingerprint of its key, and is valid at that time: its nonce has 32 to 128 bytes, its scope is
  -- neither blank nor long, it lives at most 60 seconds, was not issued more than 300 seconds ahead
  -- and has not expired. The bytes are at most 8192.
  pub validate_challenge_sound :
      (raw : Bytes) (i : Identity) (now : ℤ) (c : SigningChallenge)
      → validate_challenge k raw (some i) now ≡ ok c
      → (length raw ≤ maximum_bytes)
        × (k.unmarshal_challenge raw ≡ ok c)
        × (signing_public_key_fingerprint k i ≡ ok c.public_key_fingerprint)
        × IsValid c i now
  unfolding validate_challenge
  validate_challenge_sound raw i now c h = elim (Bool-cases (ltb maximum_bytes (length raw))) [
    | inl e ↦ absurd (clash (rw (e, validate_challenge) at h))
    | inr e ↦ elim (Result-cases (k.unmarshal_challenge raw)) [
      | inl (d, u) ↦
          let (same, f, v) =
            decoded-IsValid d c i (signing_public_key_fingerprint k i) now
              (rw (u, validate_challenge) at (rw (e, validate_challenge) at h)) in
          (ground arith, u ∙ ap ok (sym same), f, v)
      | inr (m, u) ↦
          absurd (clash (rw (u, validate_challenge) at (rw (e, validate_challenge) at h)))
    ]
  ]
    where
      clash : {m : String} → err m ≡ ok c → ⊥
      clash q = cc
