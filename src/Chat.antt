-- ===== src/Chat.antt =====
-- chat.go: the state of a `ChatCell` on its `GeneralCell`, and what its operations take from outside.
pub mod People
pub mod Rows
pub mod Audience
pub mod Messages
pub mod Invitations
pub mod Artifacts
pub mod Accept
pub mod Admission
pub mod Access
pub mod Read
pub mod Write
pub mod Dispatch
pub mod New
pub mod Laws
use go_cell_protocol.Prelude.{
  ℕ, String, Bool, List, [], ◌∷◌, Option, none, some, Dict, Result, if◌then◌else◌, str_eq,
}
use go_cell_protocol.Prelude.Int.{ℤ}
use go_cell_protocol.Value.{Value, Fields}
use go_cell_protocol.Identity.{Bytes, Identity, sign}
use go_cell_protocol.Agreement.Condition.{add_grant, AgreementTemplate}
use go_cell_protocol.Cell.{GeneralCell, Env, new_general_cell}
use go_cell_protocol.Interop.Chat.{
  Descriptor, ChatInvitationArtifact, ChatInvitationAcceptance, ChatWire,
}
use go_cell_protocol.Interop.Chat.Build.{SignFunc}

pub record ChatPerson : Type 0 where
  pub uuid : String
  pub display_name : String
  pub descriptor : Option Descriptor

pub record ChatInvitation : Type 0 where
  pub person : ChatPerson
  pub status : String
  pub source : String
  pub created_at : String
  pub updated_at : String
  pub artifact : Option ChatInvitationArtifact
  pub acceptance : Option ChatInvitationAcceptance

-- A row of `participants`; the code keeps it as a map with these keys.
pub record Participant : Type 0 where
  pub id : String
  pub display_name : String
  pub joined_at : String
  pub message_count : ℕ
  pub last_seen_at : String
  pub last_action : String
  pub presence : String
  pub initials : String

-- A row of `consumed`, the invitations that were accepted.
pub record Consumption : Type 0 where
  pub invitation_id : String
  pub acceptance_id : String
  pub invitee_identity_uuid : String
  pub consumed_at : String

pub record Draft : Type 0 where
  pub body : String
  pub content_type : String

-- `ChatCell`, with the options that do not stand for the outside: `messages_limit` is not negative.
pub record ChatCell : Type 0 where
  pub cell : GeneralCell
  pub sign : Option SignFunc
  pub topic : String
  pub messages_limit : ℕ
  pub owner_person : Option ChatPerson
  pub audience_mode : String
  pub messages : List Fields
  pub participants : Dict Participant
  pub invitations : Dict ChatInvitation
  pub consumed : Dict Consumption
  pub drafts : Dict Draft

-- What one call takes from outside, besides what its cell takes: the artifacts' libraries, the
-- draws of `NewUUID` and `Random`, Go's Unicode tables, decoders of JSON texts, and `fmt`'s
-- decimals.
pub record ChatEnv : Type 0 where
  pub env : Env
  pub wire : ChatWire
  pub uuids : String → String
  pub randoms : String → Bytes
  pub to_lower : String → String
  pub to_upper : ℕ → String
  pub is_letter_or_number : ℕ → Bool
  pub decimal : ℕ → String
  pub base64_url_decode : String → Option Bytes
  pub decode_descriptor : Fields → Option Descriptor
  pub decode_identity : Fields → Option Identity
  pub decode_artifact : Bytes → Option ChatInvitationArtifact
  pub decode_artifact_object : Fields → Option ChatInvitationArtifact
  pub decode_acceptance : Bytes → Option ChatInvitationAcceptance
  pub decode_acceptance_object : Fields → Option ChatInvitationAcceptance
  pub artifact_json : ChatInvitationArtifact → Value
  pub acceptance_json : ChatInvitationAcceptance → Value
