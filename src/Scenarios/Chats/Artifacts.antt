-- ===== src/Scenarios/Chats/Artifacts.antt =====
-- Bob's invitation and acceptance, built and verified.
use go_cell_protocol.Prelude.{◌≡◌, true, refl, some, ok, arith}
use go_cell_protocol.Prelude.Int.{pos, ◌+ℤ◌}
use go_cell_protocol.Interop.Chat.{verify_chat_acceptance}
use go_cell_protocol.Interop.Chat.Build.{
  unsigned_artifact, unsigned_acceptance, build_chat_invitation, build_chat_acceptance,
  chat_invitation_lifetime,
}
use go_cell_protocol.Chat.New.{new_chat_cell}
use go_cell_protocol.Chat.Accept.{Handed, with_accepted, accept_artifact}
use go_cell_protocol.Chat.Admission.{admission_condition_holds}
use go_cell_protocol.Prelude.{lookup}
use go_cell_protocol.Cell.{new_general_cell}
use go_cell_protocol.Value.{object_value}
use go_cell_protocol.Value.Access.{lookup_field}
use go_cell_protocol.Interop.Chat.{verify_signature}
use go_cell_protocol.Interop.Channel.{same_bytes}
use go_cell_protocol.Chat.People.{ext_string}
use go_cell_protocol.Chat.Accept.{handed_from, consume_once}
use go_cell_protocol.Chat.People.{matches}
use go_cell_protocol.Chat.Laws.Admit.{chat_at, Invitee, Awaits, BuiltFor, accept_artifact-admits}
use go_cell_protocol.Interop.Chat.Laws.{Answers, Invites, Fits, verify_chat_acceptance_sound}
use go_cell_protocol.Interop.Chat.RoundTrip.{Signs, Stamped, Inviting}
use go_cell_protocol.Interop.Chat.Acceptances.{Accepting}
use go_cell_protocol.Interop.Chat.Acceptances.{verify-build_chat_acceptance}
use go_cell_protocol.Scenarios.{copies, bob}
use go_cell_protocol.Scenarios.Chats.{
  wire, alice_key, bob_key, alice_signs, bob_signs, input, fresh, artifact, acceptance, chat_env,
  handed_in, bobs, waiting_chat,
}

verify_chat_acceptance_sound_example :
    Answers wire acceptance artifact
    × Invites wire artifact (pos 10)
    × Fits artifact
        (record { expected_chat_cell_uuid = some "u"; expected_inviter_uuid = some "alice" })
unfolding verify_chat_acceptance verify_signature same_bytes unsigned_artifact unsigned_acceptance
verify_chat_acceptance_sound_example =
    verify_chat_acceptance_sound wire acceptance artifact (pos 10) (some "u") refl

alice_Signs : Signs wire alice_signs alice_key
unfolding verify_signature
alice_Signs = record { signature = λ m. copies 64 1; signed = λ m. refl; verifies = λ m. refl }

bob_Signs : Signs wire bob_signs bob_key
unfolding verify_signature
bob_Signs = record { signature = λ m. copies 64 2; signed = λ m. refl; verifies = λ m. refl }

now_Stamped : Stamped wire (pos 10)
now_Stamped = record { read = pos 10; reads = refl; not_later = omega arith; close = omega arith }

inviting : Inviting wire alice_key alice_signs input fresh
inviting = record {
  signs = alice_Signs;
  created = now_Stamped;
  expires = record {
    read = pos 10 +ℤ chat_invitation_lifetime;
    reads = refl;
    not_later = omega arith;
    close = omega arith;
  };
  nonce = (omega arith, omega arith);
}

accepting : Accepting wire bob_key bob_signs (pos 10) (copies 32 6)
accepting = record { signs = bob_Signs; accepted = now_Stamped; good = (omega arith, omega arith) }

built : build_chat_invitation wire alice_key bob_key alice_signs input fresh ≡ ok artifact
unfolding build_chat_invitation
built = refl

made :
    build_chat_acceptance wire artifact bob_key bob_signs "yes" (pos 10) (some (copies 32 6)) fresh
    ≡ ok acceptance
unfolding build_chat_acceptance verify_signature unsigned_artifact same_bytes
made = refl

verify-build_chat_acceptance_example :
    verify_chat_acceptance wire acceptance artifact (pos 10) (some "u") ≡ ok tt
verify-build_chat_acceptance_example =
    verify-build_chat_acceptance wire alice_key bob_key bob_key alice_signs bob_signs input fresh
      fresh "yes" (some (copies 32 6)) (pos 10) (pos 10) artifact acceptance inviting accepting
      built made (omega arith) (omega arith) (omega arith)

abbrev handed : Handed
handed = record { artifact = artifact; acceptance = acceptance }

issued_for_bob : BuiltFor chat_env waiting_chat handed input
unfolding new_chat_cell new_general_cell
issued_for_bob = record {
  inviter = alice_key;
  invited = bob_key;
  invitee = bob_key;
  sign = alice_signs;
  accept = bob_signs;
  fresh = fresh;
  later = fresh;
  id = "yes";
  given = some (copies 32 6);
  accepted_at = pos 10;
  inviting = inviting;
  accepting = accepting;
  built = built;
  made = made;
  before = omega arith;
  after_then = omega arith;
  in_time = omega arith;
  this_cell = refl;
  by_owner = refl;
}

awaits : Awaits chat_env waiting_chat handed bobs
unfolding new_chat_cell consume_once unsigned_artifact lookup
awaits = record { recorded = refl; is_held = refl; pending = refl; unused = refl }

invitee : Invitee chat_env waiting_chat handed bobs bob
unfolding matches unsigned_artifact same_bytes
invitee = record { named = refl; is_person = refl; has_key = refl }

-- Ten milliseconds later, in the chat as the acceptance left it.
accept_artifact-admits_example :
    ((accept_artifact chat_env waiting_chat handed_in).0
      ≡ with_accepted chat_env waiting_chat handed bobs)
    × (admission_condition_holds
          (chat_at chat_env (pos 10000010))
          (accept_artifact chat_env waiting_chat handed_in).0
          "invitationAccepted"
          (some bob)
        ≡ true)
unfolding handed_from object_value lookup_field ext_string
accept_artifact-admits_example =
    accept_artifact-admits chat_env waiting_chat handed_in handed bobs bob input (pos 10000010)
      (accept_artifact chat_env waiting_chat handed_in).0 refl issued_for_bob awaits invitee
      (omega arith) (omega arith) (record { same_record = refl; same_row = refl })
