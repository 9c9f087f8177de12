-- ===== src/Scenarios/Chats.antt =====
-- A chat of Alice, who invites Bob.
mod Life
mod Artifacts
mod Revoked
use go_cell_protocol.Prelude.{
  ℕ, String, Bool, ◌≡◌, ◌≤◌, true, false, refl, List, [], ◌∷◌, ◌++◌, map, Option, none, some,
  Result, ok, err, is_ok, str_eq, ◌==◌, get_elem?, if◌then◌else◌, length, All, arith,
}
use go_cell_protocol.Prelude.Int.{ℤ, pos, ◌+ℤ◌, ltb_ℤ}
use go_cell_protocol.Value.{Value, Fields, null, bool, str, list, obj, end, field, nil, cons}
use go_cell_protocol.Identity.{Bytes, Identity}
use go_cell_protocol.Interop.Chat.{
  Descriptor, ChatInvitationArtifact, ChatInvitationAcceptance, ChatWire, verify_chat_acceptance,
}
use go_cell_protocol.Interop.Chat.Build.{
  SignFunc, ChatInvitationInput, Fresh, proof_by, unsigned_artifact, unsigned_acceptance,
  build_chat_invitation, build_chat_acceptance, chat_invitation_lifetime,
}
use go_cell_protocol.Chat.{ChatPerson, ChatInvitation, ChatCell, ChatEnv}
use go_cell_protocol.Chat.New.{ChatCellOptions, new_chat_cell}
use go_cell_protocol.Chat.Accept.{Handed, accept_artifact}
use go_cell_protocol.Chat.Admission.{admission_condition_holds}
use go_cell_protocol.Chat.Dispatch.{chat_get, chat_set}
use go_cell_protocol.Chat.Laws.Accept.{AcceptOutcome, accept_artifact_sound}
use go_cell_protocol.Chat.Laws.Life.{Step, Reachable, start, next, gets, sets, Reachable-Sound}
use go_cell_protocol.Chat.Laws.Sound.{Sound}
use go_cell_protocol.Prelude.{lookup, insert, remove, trim_space, has_prefix}
use go_cell_protocol.Identity.{sign, same_signing_key, signing_public_key_fingerprint}
use go_cell_protocol.Identity.Challenge.{
  validate_challenge, validate_decoded, validate_rest, scope_error,
}
use go_cell_protocol.Identity.Control.{answer_challenge, check_signature}
use go_cell_protocol.Cell.{new_general_cell}
use go_cell_protocol.Cell.Access.{validate_with, swift_permission}
use go_cell_protocol.Cell.Handlers.{handler_for, dict_keys, distinct}
use go_cell_protocol.Agreement.Condition.{sort_strings}
use go_cell_protocol.Value.{normalize, object_value}
use go_cell_protocol.Value.Access.{lookup_field}
use go_cell_protocol.Interop.Chat.{verify_chat_invitation, check_acceptance, verify_signature}
use go_cell_protocol.Interop.Channel.{same_bytes}
use go_cell_protocol.Chat.People.{ext_string}
use go_cell_protocol.Chat.Accept.{with_accepted}
use go_cell_protocol.Cell.{Contract}
use go_cell_protocol.Chat.Accept.{handed_from, consume_once}
use go_cell_protocol.Chat.People.{matches}
use go_cell_protocol.Chat.Admission.{admission_condition}
use go_cell_protocol.Chat.Access.{open_before_admission}
use go_cell_protocol.Chat.Invitations.{targets}
use go_cell_protocol.Chat.Laws.Admit.{Invitee, Awaits, BuiltFor, accept_artifact-admits}
use go_cell_protocol.Chat.Laws.Outside.{Hosted}
use go_cell_protocol.Chat.Laws.Revoke.{Revokes, Denied, after_revoking, revoke_denies}
use go_cell_protocol.Chat.Laws.Proof.{HasProven, admission-HasProven}
use go_cell_protocol.Chat.Laws.Log.{Sending, store_all, message_of, latest, store_all-latest}
use go_cell_protocol.Interop.Chat.Laws.{Answers, Invites, Fits, verify_chat_acceptance_sound}
use go_cell_protocol.Interop.Chat.RoundTrip.{Signs, Stamped, Inviting}
use go_cell_protocol.Interop.Chat.Acceptances.{Accepting}
use go_cell_protocol.Interop.Chat.Acceptances.{verify-build_chat_acceptance}
use go_cell_protocol.Scenarios.{copies, env, alice, bob, same_start}

-- Two times: now, which is 10, and seven days later.
abbrev pub wire : ChatWire
wire = record {
  canonical_artifact = λ a. some (1 ∷ []);
  canonical_acceptance = λ b. some (2 ∷ []);
  parse_iso = λ s.
      if str_eq s "now"
      then some (pos 10)
      else if str_eq s "later"
      then some (pos 10 +ℤ chat_invitation_lifetime)
      else none;
  timestamp = λ t. if ltb_ℤ t chat_invitation_lifetime then "now" else "later";
  sha256 = λ b. b;
  ed25519_verify = λ key message signature. same_start (get_elem? key 0) (get_elem? signature 0);
}

abbrev pub alice_key : Descriptor
alice_key = record {
  uuid = "alice";
  display_name = some "Alice";
  public_key = copies 32 1;
  algorithm = "EdDSA";
  curve_type = "Curve25519";
}

abbrev pub bob_key : Descriptor
bob_key = record {
  uuid = "bob";
  display_name = some "Bob";
  public_key = copies 32 2;
  algorithm = "EdDSA";
  curve_type = "Curve25519";
}

abbrev pub alice_signs : SignFunc
alice_signs m = ok (copies 64 1)

abbrev pub bob_signs : SignFunc
bob_signs m = ok (copies 64 2)

abbrev pub input : ChatInvitationInput
input = record {
  chat_cell_uuid = "u";
  topic = "chat";
  audience_mode = "hybrid";
  persistence_mode = "draftCacheOnly";
  suite_id = "";
  invitation_id = "invitation bob";
  now = pos 10;
  nonce = some (copies 32 5);
}

abbrev pub fresh : Fresh
fresh = record { uuid = "random"; nonce = [] }

abbrev pub artifact : ChatInvitationArtifact
artifact = record (unsigned_artifact wire alice_key bob_key input fresh) {
  proof = some (proof_by alice_key (copies 64 1));
}

abbrev pub acceptance : ChatInvitationAcceptance
acceptance =
    record (unsigned_acceptance wire artifact bob_key (1 ∷ []) "yes" (pos 10) (copies 32 6)) {
      proof = some (proof_by bob_key (copies 64 2));
    }

abbrev pub shown_text : Value → String
shown_text (bool true) = "true"
shown_text _ = "other"

-- Every object that is decoded is Bob, his invitation or his acceptance.
abbrev pub chat_env : ChatEnv
chat_env = record {
  env = record env { marshal = shown_text };
  wire = wire;
  uuids = λ s. s;
  randoms = λ s. copies 32 5;
  to_lower = λ s. s;
  to_upper = λ n. "A";
  is_letter_or_number = λ n. true;
  decimal = λ n. "1";
  base64_url_decode = λ s. none;
  decode_descriptor = λ fs. none;
  decode_identity = λ fs. some bob;
  decode_artifact = λ b. none;
  decode_artifact_object = λ fs. some artifact;
  decode_acceptance = λ b. none;
  decode_acceptance_object = λ fs. some acceptance;
  artifact_json = λ a. str a.invitation_id;
  acceptance_json = λ b. str b.acceptance_id;
}

abbrev pub options : ChatCellOptions
options = record { sign = some alice_signs; topic = ""; messages_limit = 2 }

abbrev pub new_chat : ChatCell
new_chat = new_chat_cell chat_env (some alice) options

abbrev pub invited_chat : ChatCell
invited_chat = (chat_set chat_env new_chat "audience.inviteIdentities" (obj end) (some alice)).0

abbrev pub issued_chat : ChatCell
issued_chat =
    (chat_set chat_env invited_chat "audience.generateInvitationArtifacts" null (some alice)).0

-- Bob hands in his acceptance himself: the key is open before an admission.
abbrev pub handed_in : Value
handed_in = obj (field "artifact" (obj end) (field "acceptance" (obj end) end))

abbrev pub joined_chat : ChatCell
joined_chat =
    (chat_set chat_env issued_chat "audience.acceptInvitationArtifact" handed_in (some bob)).0

-- Bob's record in the chat that has issued his invitation.
abbrev pub bobs : ChatInvitation
bobs = record {
  person = record { uuid = "bob"; display_name = "Bob"; descriptor = some bob_key };
  status = "pending";
  source = "inviteIdentities";
  created_at = "now";
  updated_at = "now";
  artifact = some artifact;
  acceptance = none;
}

abbrev pub waiting_chat : ChatCell
waiting_chat = record new_chat { invitations = ("bob", bobs) ∷ [] }
