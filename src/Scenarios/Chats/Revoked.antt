-- ===== src/Scenarios/Chats/Revoked.antt =====
-- Bob's membership is revoked.
use go_cell_protocol.Prelude.{false, refl, [], ◌∷◌, some}
use go_cell_protocol.Prelude.Int.{pos}
use go_cell_protocol.Value.{Value, null, str, list, nil, cons}
use go_cell_protocol.Chat.{ChatCell}
use go_cell_protocol.Chat.New.{new_chat_cell}
use go_cell_protocol.Chat.Dispatch.{chat_get, chat_set}
use go_cell_protocol.Prelude.{lookup, insert, has_prefix}
use go_cell_protocol.Cell.{new_general_cell}
use go_cell_protocol.Cell.Handlers.{handler_for}
use go_cell_protocol.Cell.{Contract}
use go_cell_protocol.Chat.Admission.{admission_condition}
use go_cell_protocol.Chat.Access.{open_before_admission}
use go_cell_protocol.Chat.Invitations.{targets}
use go_cell_protocol.Chat.Laws.Outside.{Hosted}
use go_cell_protocol.Chat.Laws.Revoke.{Revokes, Denied, after_revoking, revoke_denies}
use go_cell_protocol.Scenarios.{alice, bob}
use go_cell_protocol.Scenarios.Chats.{chat_env, new_chat, bobs, waiting_chat}

-- Bob has a contract that asks for his membership, and his invitation is accepted.
abbrev members_contract : Contract
members_contract = record {
  uuid = "k";
  subject = bob;
  grants = record { uuid = "g"; name = ""; keypath = "chat"; permission = "rw--" } ∷ [];
  conditions = admission_condition chat_env "member" ∷ [];
  duration = pos 60;
  issued_at = pos 10;
}

abbrev members_chat : ChatCell
members_chat = record waiting_chat {
  cell = record new_chat.cell { contracts = members_contract ∷ [] };
  invitations = ("bob", record bobs { status = "accepted" }) ∷ [];
}

hosted : Hosted members_chat bob
unfolding new_chat_cell new_general_cell handler_for lookup insert has_prefix
hosted = record {
  owner = alice;
  is_owner = refl;
  other = refl;
  handles_member = refl;
  handles_accepted = refl;
}

abbrev bobs_name : Value
bobs_name = list (cons (str "bob") nil)

revokes : Revokes chat_env members_chat bobs_name "bob"
unfolding targets lookup
revokes = record { uuids = "bob" ∷ []; everyone = false; names = refl; known = refl; named = refl }

revoke_denies_example :
    Denied
      (after_revoking chat_env members_chat bobs_name bob)
      (chat_get chat_env (after_revoking chat_env members_chat bobs_name bob) "messages" (some bob))
    × Denied (after_revoking chat_env members_chat bobs_name bob) (
        chat_set chat_env
          (after_revoking chat_env members_chat bobs_name bob)
          "messages"
          null
          (some bob))
unfolding open_before_admission admission_condition
revoke_denies_example =
    revoke_denies chat_env members_chat bobs_name bob chat_env "messages" null revokes hosted
      (refl, tt) refl (refl, refl)
