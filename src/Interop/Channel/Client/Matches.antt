-- ===== src/Interop/Channel/Client/Matches.antt =====
-- What a challenge and an acknowledgement stand for that pass the tests of a client.
use go_cell_protocol.Prelude.{==_iff, length, ◌==◌, ◌≡◌, Bool, true, ◌&&◌, arith, str_eq, eq_iff}
use go_cell_protocol.Prelude.Int.{ℤ, pos, ltb_ℤ, leb_ℤ, ◌+ℤ◌, ◌-ℤ◌, ◌<ℤ◌, ◌≤ℤ◌}
use go_cell_protocol.Value.{Fields}
use go_cell_protocol.Interop.Channel.{
  equal_identity, ChannelTranscript, Wire, same_bytes, channel_profile, channel_direction,
  text_or_empty,
}
use go_cell_protocol.Interop.Channel.Messages.{digest}
use go_cell_protocol.Interop.Channel.Transcript.{is_uuid}
use go_cell_protocol.Interop.Channel.Server.Identity.{same_bytes_iff, equal_identity_iff}
use go_cell_protocol.Interop.Channel.Client.{
  same_endpoint, ChannelClient, names_connect, fits_clock, acknowledges,
}

pub and3 : (x y z : Bool) → (x && y && z) ≡ true → (x ≡ true) × (y ≡ true) × (z ≡ true)
and3 x y z h = ground arith

-- A transcript of this very connection, in time for a clock in milliseconds.
pub record Matches (c : ChannelClient) (t : ChannelTranscript) (now : ℤ) : Type 0 where
  pub same_profile : t.profile ≡ channel_profile
  pub same_direction : t.direction ≡ channel_direction
  pub same_origin : t.endpoint.origin ≡ c.endpoint.origin
  pub same_route : t.endpoint.route ≡ c.endpoint.route
  pub same_domain : t.endpoint.domain ≡ c.endpoint.domain
  pub same_identity : t.identity ≡ c.identity
  pub same_nonce : t.client_nonce ≡ c.client_nonce
  pub long_nonce : length t.server_nonce ≡ 32
  pub session_is_uuid : is_uuid t.session_id ≡ true
  pub generation_is_uuid : is_uuid t.generation ≡ true
  pub not_early : t.issued_at_milliseconds ≤ℤ now +ℤ pos 5000
  pub not_late : now -ℤ pos 30000 <ℤ t.issued_at_milliseconds
  pub unexpired : now <ℤ t.channel_expires_at_milliseconds
  pub lasts : t.channel_expires_at_milliseconds -ℤ t.issued_at_milliseconds ≤ℤ pos 300000
  pub not_shorter : pos 300000 ≤ℤ t.channel_expires_at_milliseconds -ℤ t.issued_at_milliseconds
  pub issued_positive : pos 0 <ℤ t.issued_at_milliseconds
  pub issued_bounded : t.issued_at_milliseconds <ℤ pos 9000000000000000
  pub expires_bounded : t.channel_expires_at_milliseconds <ℤ pos 9000000000000000

and9 :
    (a b c d f g k m n : Bool)
    → (a && b && c && d && f && g && k && (m && n)) ≡ true
    → (a ≡ true)
      × (b ≡ true)
      × (c ≡ true)
      × (d ≡ true)
      × (f ≡ true)
      × (g ≡ true)
      × (k ≡ true)
      × (m ≡ true)
      × (n ≡ true)
and9 a b c d f g k m n h = ground arith

and10 :
    (a b o r d i n l s g : Bool)
    → (a && b && (o && r && d) && i && n && l && s && g) ≡ true
    → (a ≡ true)
      × (b ≡ true)
      × (o ≡ true)
      × (r ≡ true)
      × (d ≡ true)
      × (i ≡ true)
      × (n ≡ true)
      × (l ≡ true)
      × (s ≡ true)
      × (g ≡ true)
and10 a b o r d i n l s g h = ground arith

pub ltb_true : (a b : ℤ) → ltb_ℤ a b ≡ true → a <ℤ b
ltb_true a b h = ground arith

leb_true : (a b : ℤ) → leb_ℤ a b ≡ true → a ≤ℤ b
leb_true a b h = ground arith

fits_clock_parts :
    (i x now : ℤ)
    → (ltb_ℤ (pos 0) i
        && ltb_ℤ i (pos 9000000000000000)
        && ltb_ℤ (pos 0) x
        && ltb_ℤ x (pos 9000000000000000)
        && leb_ℤ i (now +ℤ pos 5000)
        && ltb_ℤ (now -ℤ pos 30000) i
        && ltb_ℤ now x
        && (leb_ℤ (x -ℤ i) (pos 300000) && leb_ℤ (pos 300000) (x -ℤ i)))
      ≡ true
    → (i ≤ℤ now +ℤ pos 5000)
      × (now -ℤ pos 30000 <ℤ i)
      × (now <ℤ x)
      × (x -ℤ i ≤ℤ pos 300000)
      × (pos 300000 ≤ℤ x -ℤ i)
      × (pos 0 <ℤ i)
      × (i <ℤ pos 9000000000000000)
      × (x <ℤ pos 9000000000000000)
fits_clock_parts i x now h =
    let (a, b, _, d, f, g, k, m, n) =
      and9 (ltb_ℤ (pos 0) i) (ltb_ℤ i (pos 9000000000000000)) (ltb_ℤ (pos 0) x)
        (ltb_ℤ x (pos 9000000000000000)) (leb_ℤ i (now +ℤ pos 5000)) (ltb_ℤ (now -ℤ pos 30000) i)
        (ltb_ℤ now x) (leb_ℤ (x -ℤ i) (pos 300000)) (leb_ℤ (pos 300000) (x -ℤ i)) h in
    (
      leb_true i (now +ℤ pos 5000) f,
      ltb_true (now -ℤ pos 30000) i g,
      ltb_true now x k,
      leb_true (x -ℤ i) (pos 300000) m,
      leb_true (pos 300000) (x -ℤ i) n,
      ltb_true (pos 0) i a,
      ltb_true i (pos 9000000000000000) b,
      ltb_true x (pos 9000000000000000) d,
    )

-- The tests of `BeginChallenge` on a transcript.
names_parts :
    (c : ChannelClient) (t : ChannelTranscript)
    → names_connect c t ≡ true
    → (t.profile ≡ channel_profile)
      × (t.direction ≡ channel_direction)
      × (t.endpoint.origin ≡ c.endpoint.origin)
      × (t.endpoint.route ≡ c.endpoint.route)
      × (t.endpoint.domain ≡ c.endpoint.domain)
      × (t.identity ≡ c.identity)
      × (t.client_nonce ≡ c.client_nonce)
      × (length t.server_nonce ≡ 32)
      × (is_uuid t.session_id ≡ true)
      × (is_uuid t.generation ≡ true)
unfolding names_connect same_endpoint
names_parts c t h =
    let (a, b, o, r, d, i, n, l, s, g) =
      and10 (str_eq t.profile channel_profile) (str_eq t.direction channel_direction)
        (str_eq t.endpoint.origin c.endpoint.origin) (str_eq t.endpoint.route c.endpoint.route)
        (str_eq t.endpoint.domain c.endpoint.domain) (equal_identity t.identity c.identity)
        (same_bytes t.client_nonce c.client_nonce) (length t.server_nonce == 32)
        (is_uuid t.session_id) (is_uuid t.generation) h in
    (
      (eq_iff _ _).0 a,
      (eq_iff _ _).0 b,
      (eq_iff _ _).0 o,
      (eq_iff _ _).0 r,
      (eq_iff _ _).0 d,
      (equal_identity_iff t.identity c.identity).0 i,
      (same_bytes_iff t.client_nonce c.client_nonce).0 n,
      (==_iff (length t.server_nonce) 32).0 l,
      s,
      g,
    )

pub names_connect-Matches :
    (c : ChannelClient) (t : ChannelTranscript) (now : ℤ)
    → names_connect c t ≡ true
    → fits_clock t now ≡ true
    → Matches c t now
unfolding fits_clock
names_connect-Matches c t now names fits =
    let (a, b, o, r, d, i, n, l, s, g) = names_parts c t names in
    let (early, late, live, lasts, long, issued, bounded, expires) =
      fits_clock_parts t.issued_at_milliseconds t.channel_expires_at_milliseconds now fits in
    record {
      same_profile = a;
      same_direction = b;
      same_origin = o;
      same_route = r;
      same_domain = d;
      same_identity = i;
      same_nonce = n;
      long_nonce = l;
      session_is_uuid = s;
      generation_is_uuid = g;
      not_early = early;
      not_late = late;
      unexpired = live;
      lasts = lasts;
      not_shorter = long;
      issued_positive = issued;
      issued_bounded = bounded;
      expires_bounded = expires;
    }

-- An acknowledgement of the transcript.
pub record Acknowledged (w : Wire) (t : ChannelTranscript) (body : Fields) : Type 0 where
  pub same_session : text_or_empty body "sessionID" ≡ t.session_id
  pub same_generation : text_or_empty body "generation" ≡ t.generation
  pub same_digest : text_or_empty body "transcriptDigest" ≡ digest w t

pub acknowledges_sound :
    (w : Wire) (t : ChannelTranscript) (body : Fields)
    → acknowledges w t body ≡ true
    → Acknowledged w t body
unfolding acknowledges
acknowledges_sound w t body h =
    let (a, b, d) =
      and3 (str_eq (text_or_empty body "sessionID") t.session_id)
        (str_eq (text_or_empty body "generation") t.generation)
        (str_eq (text_or_empty body "transcriptDigest") (digest w t)) h in
    record {
      same_session = (eq_iff _ _).0 a;
      same_generation = (eq_iff _ _).0 b;
      same_digest = (eq_iff _ _).0 d;
    }
