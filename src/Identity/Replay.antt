-- ===== src/Identity/Replay.antt =====
-- `signingChallengeReplayStore`: each challenge is consumed at most once while it lives.
pub mod Laws
use Prim.Native.Char.{Char}
use Prim.Native.String
use go_cell_protocol.Prelude.{
  ℕ, String, Bool, true, false, List, [], ◌∷◌, Option, none, some, str_eq, leb, length,
  if◌then◌else◌, ◌⧺◌, Dict, lookup, insert, is_some,
}
use go_cell_protocol.Prelude.Int.{ℤ, ltb_ℤ}
use go_cell_protocol.Identity.{SigningChallenge, Crypto}

abbrev pub maximum_replays : ℕ
maximum_replays = 4096

-- `strings.Join`.
unfoldable pub join : String → List String → String
join sep [] = ""
join sep (s ∷ []) = s
join sep (s ∷ t ∷ l) = s ⧺ (sep ⧺ join sep (t ∷ l))

-- The unit separator, U+001F.
abbrev unit_separator : String
unit_separator = String.◌∷◌ (Char.char 0x1f tt) ""

module _ (k : Crypto) where
  -- `replayKey`.
  unfoldable pub replay_key : SigningChallenge → String
  unfolding join
  replay_key c = join unit_separator (
      c.identity_uuid
      ∷ c.public_key_fingerprint
      ∷ c.domain
      ∷ c.resource
      ∷ c.action
      ∷ c.audience
      ∷ k.base64_encode c.nonce
      ∷ [])

-- The consumed challenges with the times at which they expire.
abbrev pub Consumed : Type 0
Consumed = Dict ℤ

-- The loop that forgets what has expired.
unfoldable pub purge : ℤ → Consumed → Consumed
purge now [] = []
purge now ((key, expires) ∷ m) =
    let rest = purge now m in if ltb_ℤ expires now then rest else (key, expires) ∷ rest

module _ (k : Crypto) where
  -- `consume`: the store after the call, and its error if there is one.
  unfoldable pub consume : Consumed → SigningChallenge → ℤ → Consumed × Option String
  consume s c now =
      let kept = purge now s in
      if is_some (lookup (replay_key k c) kept)
      then (kept, some "identity signing challenge replay denied")
      else if leb maximum_replays (length kept)
      then (kept, some "identity signing challenge replay store is full")
      else (insert (replay_key k c) c.expires_at kept, none)
