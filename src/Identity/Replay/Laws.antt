-- ===== src/Identity/Replay/Laws.antt =====
-- Replays are refused while the challenge lives, and the store is bounded.
use go_cell_protocol.Prelude.{
  ◌+◌, ◌≤◌, String, ◌≡◌, ◌⊎◌, Bool, true, false, List, [], ◌∷◌, Option, none, some, arith, str_eq,
  eq_iff, length, if◌then◌else◌, lookup, insert, lookup-insert, lookup-insert_self, All, Bool-cases,
  inl, inr,
}
use go_cell_protocol.Prelude.Int.{ℤ, ltb_ℤ, ◌≤ℤ◌}
use go_cell_protocol.Identity.{SigningChallenge, Crypto}
use go_cell_protocol.Identity.Replay.{Consumed, replay_key, purge, consume, maximum_replays}

not_expired : (x e now : ℤ) → now ≤ℤ e → x ≡ e → ltb_ℤ x now ≡ false
not_expired x e now le q = rw q (not_less e now le)
  where
    not_less : (a b : ℤ) → b ≤ℤ a → ltb_ℤ a b ≡ false
    not_less a b h = ground arith

lookup-purge :
    (key : String) (e now : ℤ) (s : Consumed)
    → lookup key s ≡ some e
    → now ≤ℤ e
    → lookup key (purge now s) ≡ some e
unfolding lookup purge
lookup-purge key e now [] h le = h
lookup-purge key e now ((j, x) ∷ s) h le = elim (Bool-cases (ltb_ℤ x now)) [
  | inl old ↦ rw old (lookup-purge key e now s (other (str_eq j key) old h) le)
  | inr new ↦ rw new (ground (arith, lookup-purge key e now s))
]
  where
    other :
        (same : Bool)
        → ltb_ℤ x now ≡ true
        → (if same then some x else lookup key s) ≡ some e
        → lookup key s ≡ some e
    other true old q = absurd (clash old (not_expired x e now le (unwrap q)))
      where
        unwrap : ◌≡◌ {A = Option ℤ} (some x) (some e) → x ≡ e
        unwrap r = cc

        clash : ltb_ℤ x now ≡ true → ltb_ℤ x now ≡ false → ⊥
        clash a b = cc
    other false old q = q

length-purge : (now : ℤ) (s : Consumed) → length (purge now s) ≤ length s
unfolding purge
length-purge now [] = omega arith
length-purge now ((j, x) ∷ s) = ground (arith, length-purge now s)

length-insert : (key : String) (e : ℤ) (s : Consumed) → length (insert key e s) ≤ length s + 1
unfolding insert
length-insert key e [] = omega arith
length-insert key e ((j, x) ∷ s) = ground (arith, length-insert key e s)

module _ (k : Crypto) where
  -- The store never holds more than 4096 challenges.
  pub length-consume_le :
      (s : Consumed) (c : SigningChallenge) (now : ℤ)
      → length s ≤ maximum_replays
      → length (consume k s c now).0 ≤ maximum_replays
  unfolding consume
  length-consume_le s c now h =
      ground (arith, length-purge now s, length-insert (replay_key k c) c.expires_at (purge now s))

  -- While a challenge lives, its entry outlives every consume.
  lookup-consume :
      (key : String) (e now : ℤ) (s : Consumed) (c : SigningChallenge)
      → lookup key s ≡ some e
      → now ≤ℤ e
      → lookup key (consume k s c now).0 ≡ some e
  unfolding consume
  lookup-consume key e now s c h le =
      kept_or_new (Bool-cases (str_eq (replay_key k c) key)) (lookup-purge key e now s h le)
    where
      rk : String
      rk = replay_key k c

      kept_or_new :
          (str_eq rk key ≡ true) ⊎ (str_eq rk key ≡ false)
          → lookup key (purge now s) ≡ some e
          → lookup key (consume k s c now).0 ≡ some e
      kept_or_new (inl q) p =
          let same : rk ≡ key = (eq_iff rk key).0 q in
          let found : lookup rk (purge now s) ≡ some e = rw same p in ground arith
      kept_or_new (inr q) p = ground (arith, lookup-insert rk key c.expires_at (purge now s))

  -- Consuming one challenge after another, with the times of the calls.
  abbrev pub consume_all : Consumed → List (SigningChallenge × ℤ) → Consumed
  consume_all s [] = s
  consume_all s ((c, now) ∷ l) = consume_all (consume k s c now).0 l

  lookup-consume_all :
      (key : String) (e : ℤ) (s : Consumed) (l : List (SigningChallenge × ℤ))
      → lookup key s ≡ some e
      → All (λ p. p.1 ≤ℤ e) l
      → lookup key (consume_all s l) ≡ some e
  lookup-consume_all key e s [] h le = h
  lookup-consume_all key e s ((c, now) ∷ l) h le =
      lookup-consume_all key e (consume k s c now).0 l (lookup-consume key e now s c h le.0) le.1

  denied :
      (s : Consumed) (c : SigningChallenge) (e now : ℤ)
      → lookup (replay_key k c) s ≡ some e
      → now ≤ℤ e
      → (consume k s c now).1 ≡ some "identity signing challenge replay denied"
  unfolding consume
  denied s c e now h le = let p = lookup-purge (replay_key k c) e now s h le in ground arith

  recorded :
      (s : Consumed) (c : SigningChallenge) (now : ℤ)
      → (consume k s c now).1 ≡ none
      → lookup (replay_key k c) (consume k s c now).0 ≡ some c.expires_at
  unfolding consume
  recorded s c now h =
      ground (arith, lookup-insert_self (replay_key k c) c.expires_at (purge now s))

  -- A challenge that was consumed is refused as a replay, with every challenge of the same replay
  -- key, at any time up to its expiry, whatever else was consumed up to then.
  pub replay_denied :
      (s : Consumed) (c again : SigningChallenge) (now later : ℤ)
      (between : List (SigningChallenge × ℤ))
      → (consume k s c now).1 ≡ none
      → replay_key k again ≡ replay_key k c
      → All (λ p. p.1 ≤ℤ c.expires_at) between
      → later ≤ℤ c.expires_at
      → (consume k (consume_all (consume k s c now).0 between) again later).1
        ≡ some "identity signing challenge replay denied"
  replay_denied s c again now later between first same in_time le =
      denied (consume_all (consume k s c now).0 between) again c.expires_at later
        (rw same (
          lookup-consume_all (replay_key k c) c.expires_at (consume k s c now).0 between
            (recorded s c now first) in_time))
        le
