-- ===== src/Scenarios/Channels.antt =====
-- The handshake of a bridge channel on a concrete connection.
use go_cell_protocol.Interop.Channel.Messages.{
  open_channel_envelope, identity_from_json, unb64, channel_signing_data,
  channel_challenge_envelope,
}
use go_cell_protocol.Agreement.Grant.{text_bytes}
use go_cell_protocol.Prelude.{
  ◌≤◌, ◌≡◌, ◌↔◌, is_ok, refl, true, false, [], ◌∷◌, Option, some, none, is_some, ◌==◌,
  if◌then◌else◌,
}
use go_cell_protocol.Value.{Value, Fields, str, number, obj, end, field}
use go_cell_protocol.Value.Access.{lookup_field}
use go_cell_protocol.Identity.{Bytes}
use go_cell_protocol.Prelude.Int.{pos, ◌<ℤ◌}
use go_cell_protocol.Interop.Channel.{
  PublicIdentity, Wire, channel_profile, same_bytes, exact_keys, string_field,
  is_channel_auth_command, text_or_empty, validate_identity,
}
use go_cell_protocol.Interop.Channel.Server.{
  ChannelServer, Moment, new_channel_server, receive, receive_open, on_hello, issue_challenge,
  close_server,
}
use go_cell_protocol.Interop.Channel.Server.Laws.{
  Outcome, receive_Outcome, answered, replies_left, answered_le,
}
use go_cell_protocol.Interop.Channel.Server.{AdmittedChannel, check_identity}
use go_cell_protocol.Interop.Channel.Server.Identity.{check_identity_iff}
use go_cell_protocol.Interop.Channel.Client.{ChannelClient, Instant, new}
use go_cell_protocol.Interop.Channel.Client.Laws.{
  says_hello, begins, offered, offers_left, offered_le,
}
use go_cell_protocol.Scenarios.{copies}

abbrev hello : Fields
hello = field "profile" (str channel_profile) (
    field "identity"
      (obj (
        field "uuid" (str "visitor") (
          field "algorithm" (str "EdDSA")
            (field "curve" (str "Curve25519") (field "publicKey" (str "K") end)))))
      (field "clientNonce" (str "N") end))

abbrev envelope : Fields
envelope =
    field "&string" (str "a") (field "cid" (number "0") (field "cmd" (str "channelAuthHello") end))

-- One byte stands for each JSON text: 7 for an envelope, 97 for a body.
abbrev encoded : Value → Option Bytes
encoded (obj fs) = some ((if is_some (lookup_field "cmd" fs) then 7 else 97) ∷ [])
encoded _ = none

abbrev decoded : Bytes → Option Value
decoded (b ∷ []) =
    if b == 7 then some (obj envelope) else if b == 97 then some (obj hello) else none
decoded _ = none

abbrev wire : Wire
wire = record {
  encode = encoded;
  decode = decoded;
  to_text = λ b. "a";
  encode_challenge = λ c. some (copies 8 0);
  decode_challenge = λ raw. none;
  parse_int64 = λ s. none;
  base64_encode = λ b. "AA==";
  base64_strict_decode = λ s. some (copies 32 1);
  sha256_hex = λ b. "00";
  ed25519_verify = λ key message signature. true;
}

abbrev moment : Moment
moment = record {
  wall = 1000000;
  wall_late = 1000000;
  monotonic = 5;
  monotonic_late = 6;
  random = copies 32 3;
  new_uuid = "s";
  recheck = none;
}

abbrev server : ChannelServer
server = new_channel_server (record { origin = "wss://h"; route = "/b"; domain = "local" }) "g" 0

receive_Outcome_example : Outcome wire server moment (7 ∷ []) (receive wire server moment (7 ∷ []))
receive_Outcome_example = receive_Outcome wire server moment (7 ∷ [])

answered_le_example :
    answered wire server ((moment, 7 ∷ []) ∷ (moment, 7 ∷ []) ∷ []) ≤ replies_left wire server.state
answered_le_example = answered_le wire server ((moment, 7 ∷ []) ∷ (moment, 7 ∷ []) ∷ [])

-- The hello is answered, and the second one is not.
hello_answered : answered wire server ((moment, 7 ∷ []) ∷ (moment, 7 ∷ []) ∷ []) ≡ 1
unfolding receive new_channel_server lookup_field text_bytes receive_open open_channel_envelope
    same_bytes exact_keys string_field is_channel_auth_command on_hello text_or_empty
    identity_from_json unb64 validate_identity issue_challenge channel_signing_data
    channel_challenge_envelope close_server
hello_answered = refl

abbrev visitor : PublicIdentity
visitor = record {
  uuid = "visitor";
  public_key = copies 32 1;
  algorithm = "EdDSA";
  curve = "Curve25519";
}

abbrev client : ChannelClient
client = record {
  identity = visitor;
  endpoint = record { origin = "wss://h"; route = "/b"; domain = "local" };
  client_nonce = copies 32 1;
  state = new;
  admitted = none;
  deadline = 10000000000;
  transcript = none;
  offered = none;
}

abbrev instant : Instant
instant = record { wall = 1000000; monotonic = 5 }

abbrev admitted_channel : AdmittedChannel
admitted_channel = record {
  identity = visitor;
  endpoint = record { origin = "wss://h"; route = "/b"; domain = "local" };
  session_id = "s";
  generation = "g";
  transcript_digest = "00";
  expires_at = pos 9;
}

offered_le_example :
    offered wire client ((instant, says_hello) ∷ (instant, begins (7 ∷ [])) ∷ [])
    ≤ offers_left wire client.state
offered_le_example =
    offered_le wire client ((instant, says_hello) ∷ (instant, begins (7 ∷ [])) ∷ [])

check_identity_iff_example :
    ((is_ok (check_identity admitted_channel (some visitor) true (pos 5)) ≡ true)
      ↔ ((pos 5 <ℤ pos 9) × (visitor ≡ visitor)))
    × ((is_ok (check_identity admitted_channel none true (pos 5)) ≡ true)
        ↔ ((pos 5 <ℤ pos 9) × (true ≡ false)))
check_identity_iff_example = check_identity_iff admitted_channel visitor true (pos 5)
