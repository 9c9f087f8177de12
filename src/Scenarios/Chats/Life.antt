-- ===== src/Scenarios/Chats/Life.antt =====
-- Bob joins the chat, and Alice sends messages.
use go_cell_protocol.Prelude.{String, ◌≡◌, true, refl, List, [], ◌∷◌, ◌++◌, map, some, arith}
use go_cell_protocol.Value.{null, obj, end}
use go_cell_protocol.Interop.Chat.{verify_chat_acceptance}
use go_cell_protocol.Interop.Chat.Build.{
  unsigned_artifact, unsigned_acceptance, build_chat_invitation,
}
use go_cell_protocol.Chat.New.{new_chat_cell}
use go_cell_protocol.Chat.Admission.{admission_condition_holds}
use go_cell_protocol.Chat.Dispatch.{chat_set}
use go_cell_protocol.Chat.Laws.Life.{Reachable, start, next, sets, Reachable-Sound}
use go_cell_protocol.Chat.Laws.Sound.{Sound}
use go_cell_protocol.Prelude.{lookup, insert, remove, trim_space, has_prefix}
use go_cell_protocol.Identity.{sign, same_signing_key, signing_public_key_fingerprint}
use go_cell_protocol.Identity.Challenge.{
  validate_challenge, validate_decoded, validate_rest, scope_error,
}
use go_cell_protocol.Identity.Control.{answer_challenge, check_signature}
use go_cell_protocol.Cell.{new_general_cell}
use go_cell_protocol.Cell.Access.{validate_with, swift_permission}
use go_cell_protocol.Cell.Handlers.{handler_for, dict_keys, distinct}
use go_cell_protocol.Agreement.Condition.{sort_strings}
use go_cell_protocol.Value.{normalize, object_value}
use go_cell_protocol.Value.Access.{lookup_field}
use go_cell_protocol.Interop.Chat.{verify_chat_invitation, check_acceptance, verify_signature}
use go_cell_protocol.Interop.Channel.{same_bytes}
use go_cell_protocol.Chat.People.{ext_string}
use go_cell_protocol.Chat.Accept.{with_accepted}
use go_cell_protocol.Chat.Laws.Proof.{HasProven, admission-HasProven}
use go_cell_protocol.Chat.Laws.Log.{Sending, store_all, message_of, latest, store_all-latest}
use go_cell_protocol.Scenarios.{alice, bob}
use go_cell_protocol.Scenarios.Chats.{
  wire, chat_env, options, new_chat, invited_chat, issued_chat, handed_in, joined_chat,
}

joined_test : admission_condition_holds chat_env joined_chat "invitationAccepted" (some bob) ≡ true
unfolding admission_condition_holds chat_set new_chat_cell lookup validate_with same_signing_key
    signing_public_key_fingerprint trim_space answer_challenge validate_challenge validate_decoded
    validate_rest scope_error check_signature sign handler_for insert has_prefix normalize
    object_value lookup_field verify_chat_invitation verify_chat_acceptance check_acceptance
    new_general_cell unsigned_artifact unsigned_acceptance dict_keys sort_strings distinct remove
    verify_signature build_chat_invitation swift_permission ext_string same_bytes with_accepted
joined_test = refl

reached : Reachable wire joined_chat
reached =
    next
      (next
        (next (start chat_env (some alice) options)
          (sets chat_env new_chat "audience.inviteIdentities" (obj end) (some alice) refl))
        (sets chat_env invited_chat "audience.generateInvitationArtifacts" null (some alice) refl))
      (sets chat_env issued_chat "audience.acceptInvitationArtifact" handed_in (some bob) refl)

Reachable-Sound_example : Sound wire joined_chat
Reachable-Sound_example = Reachable-Sound reached

admission-HasProven_example : HasProven wire chat_env joined_chat bob
admission-HasProven_example = admission-HasProven chat_env joined_chat bob reached joined_test

-- A limit of two, and three messages.
abbrev sending : String → Sending
sending body = record {
  env = chat_env;
  body = body;
  content_type = "text/plain";
  topic = "chat";
  requester = some alice;
}

abbrev three : List Sending
three = sending "a" ∷ sending "b" ∷ sending "c" ∷ []

store_all-latest_example :
    (store_all new_chat three).messages
    ≡ latest new_chat.messages_limit (new_chat.messages ++ map (message_of new_chat) three)
unfolding new_chat_cell
store_all-latest_example = store_all-latest new_chat three (omega arith)
