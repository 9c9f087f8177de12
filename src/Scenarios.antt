-- ===== src/Scenarios.antt =====
-- Sample identities, libraries and cells, for the tests in the modules below.
mod Values
mod Agreements
mod Identities
mod Cells
mod Feeds
mod Channels
mod Vaults
mod Chats
mod Nodes
use go_cell_protocol.Prelude.{
  ℕ, zero, suc, String, Bool, true, false, List, [], ◌∷◌, Option, none, some, Result, ok, err,
  str_eq, ◌==◌, get_elem?, if◌then◌else◌,
}
use go_cell_protocol.Prelude.Int.{ℤ, pos, ◌+ℤ◌}
use go_cell_protocol.Value.{Codec, Value}
use go_cell_protocol.Identity.{Bytes, Identity, Vault, SigningChallenge, Crypto}
use go_cell_protocol.Identity.Challenge.{challenge_type, challenge_purpose}
use go_cell_protocol.Agreement.Grant.{Grant}
use go_cell_protocol.Agreement.Condition.{Agreement, template}
use go_cell_protocol.Cell.{GeneralCell, Env, new_general_cell}

abbrev pub copies : ℕ → ℕ → List ℕ
copies zero b = []
copies (suc n) b = b ∷ copies n b

abbrev pub codec : Codec
codec = record { parse_int64 = λ s. none; parse_float64 = λ s. none; base64 = λ b. "AA==" }

-- The key of a text, and signatures that start with the first byte of the key.
abbrev key_of : String → Option Bytes
key_of s =
    if str_eq s "K1" then some (copies 32 1) else if str_eq s "K2" then some (copies 32 2) else none

abbrev pub same_start : Option ℕ → Option ℕ → Bool
same_start (some a) (some b) = a == b
same_start _ _ = false

abbrev pub alice_challenge : SigningChallenge
alice_challenge = record {
  kind = challenge_type;
  version = pos 1;
  purpose = challenge_purpose;
  identity_uuid = "alice";
  public_key_fingerprint = "EdDSA:Curve25519:K";
  domain = "local";
  resource = "cell:///u/name";
  action = "write";
  audience = "GoCellProtocol.GeneralCell";
  nonce = copies 32 9;
  issued_at = pos 10;
  expires_at = pos 20;
}

abbrev pub crypto : Crypto
crypto = record {
  base64_decode = key_of;
  base64_encode = λ b. "K";
  ed25519_verify = λ key message signature. same_start (get_elem? key 0) (get_elem? signature 0);
  marshal_challenge = λ c. copies 8 0;
  unmarshal_challenge = λ raw. ok alice_challenge;
}

abbrev pub alice : Identity
alice = record {
  uuid = "alice";
  display_name = "Alice";
  domain = "local";
  public_secure_key = "K1";
  vault = some (record { sign_message_for_identity = λ uuid key message. ok (copies 64 1) });
}

abbrev pub bob : Identity
bob = record {
  uuid = "bob";
  display_name = "Bob";
  domain = "local";
  public_secure_key = "K2";
  vault = none;
}

abbrev pub env : Env
env = record {
  crypto = crypto;
  codec = codec;
  marshal = λ v. "text";
  describe = λ r. "cell";
  sprint = λ v. "value";
  now = pos 10;
  draw = λ p. record { now = pos 10; nonce = some (copies 32 9) };
  new_uuid = λ n. "u";
  fresh_identity = bob;
  run_get = λ h evaluating c keypath requester. err "no handler";
  run_set = λ h c keypath v requester. (c, err "no handler");
}

abbrev pub shop : GeneralCell
shop = new_general_cell env (some alice) "shop"

abbrev pub read_keys : Grant
read_keys = record { uuid = "g"; name = ""; keypath = "keys"; permission = "r--" }

-- A request for a contract that lasts a minute.
abbrev pub request : Agreement
request = record {
  uuid = "a";
  name = "";
  state = template;
  owner = some alice;
  signatories = [];
  conditions = [];
  grants = read_keys ∷ [];
  duration = pos 60;
}
