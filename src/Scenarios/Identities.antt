-- ===== src/Scenarios/Identities.antt =====
-- Signing challenges and proofs of control on concrete inputs.
use go_cell_protocol.Prelude.{◌≡◌, ◌≤◌, refl, [], ◌∷◌, some, ok, length, arith, trim_space, lookup}
use go_cell_protocol.Prelude.Int.{pos}
use go_cell_protocol.Identity.{signing_public_key_fingerprint, same_signing_key, sign}
use go_cell_protocol.Identity.Challenge.{
  IsValid, maximum_bytes, validate_challenge, validate_decoded, validate_rest, scope_error,
}
use go_cell_protocol.Identity.Challenge.Sound.{validate_challenge_sound}
use go_cell_protocol.Identity.Control.{
  Draw, Purpose, proves_control, answer_challenge, check_signature,
}
use go_cell_protocol.Identity.Control.Laws.{Proof, proves_control_sound}
use go_cell_protocol.Identity.Replay.{consume, maximum_replays, purge}
use go_cell_protocol.Identity.Replay.Laws.{consume_all, replay_denied, length-consume_le}
use go_cell_protocol.Scenarios.{alice, crypto, alice_challenge, copies}

abbrev purpose : Purpose
purpose = record { domain = "local"; resource = "r"; action = "write"; audience = "GoCellProtocol" }

abbrev draw : Draw
draw = record { now = pos 10; nonce = some (copies 32 9) }

validate_challenge_sound_example :
    (length (copies 8 0) ≤ maximum_bytes)
    × (crypto.unmarshal_challenge (copies 8 0) ≡ ok alice_challenge)
    × (signing_public_key_fingerprint crypto alice ≡ ok alice_challenge.public_key_fingerprint)
    × IsValid alice_challenge alice (pos 15)
unfolding validate_challenge validate_decoded signing_public_key_fingerprint trim_space
    validate_rest scope_error
validate_challenge_sound_example =
    validate_challenge_sound crypto (copies 8 0) alice (pos 15) alice_challenge refl

proves_control_sound_example : (alice.uuid ≡ alice.uuid) × Proof crypto alice alice purpose draw
unfolding proves_control same_signing_key signing_public_key_fingerprint trim_space answer_challenge
    validate_challenge validate_decoded validate_rest scope_error check_signature sign
proves_control_sound_example = proves_control_sound crypto alice alice purpose draw refl

replay_denied_example :
    (consume crypto
      (consume_all crypto
        (consume crypto [] alice_challenge (pos 12)).0
        ((alice_challenge, pos 14) ∷ []))
      alice_challenge
      (pos 18)).1
    ≡ some "identity signing challenge replay denied"
unfolding consume lookup purge
replay_denied_example =
    replay_denied crypto [] alice_challenge alice_challenge (pos 12) (pos 18)
      ((alice_challenge, pos 14) ∷ []) refl refl (omega arith, tt) (omega arith)

length-consume_le_example : length (consume crypto [] alice_challenge (pos 12)).0 ≤ maximum_replays
length-consume_le_example = length-consume_le crypto [] alice_challenge (pos 12) (omega arith)
