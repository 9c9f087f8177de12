-- ===== src/Cell.antt =====
-- general_cell.go: the state of a `GeneralCell` and what its operations take from outside. The
-- operations stand in the modules below, one method each.
pub mod Handlers
pub mod Flow
pub mod Contracts
pub mod Access
pub mod Storage
pub mod Connections
pub mod Steps
use go_cell_protocol.Prelude.{
  ℕ, String, Bool, List, [], Option, none, Dict, Result, false, ◌∷◌, if◌then◌else◌, str_eq,
}
use go_cell_protocol.Prelude.Int.{ℤ, pos}
use go_cell_protocol.Value.{Codec, Value, Fields, end}
use go_cell_protocol.Identity.{Identity, Crypto}
use go_cell_protocol.Identity.Control.{Draw, Purpose}
use go_cell_protocol.Agreement.Grant.{Grant, new_grant}
use go_cell_protocol.Agreement.Condition.{Condition, Agreement, AgreementTemplate}
use go_cell_protocol.Flow.{FlowElement}

pub data CellUsageScope : Type 0 where
  scaffold_unique template identity_unique : CellUsageScope

pub data Persistancy : Type 0 where
  persistant ephemeral : Persistancy

pub record ExploreContract : Type 0 where
  pub key : String
  pub method : String
  pub input : Option Value
  pub returns : Option Value
  pub permissions : List String
  pub required : Bool
  pub description : String

pub record Contract : Type 0 where
  pub uuid : String
  pub subject : Identity
  pub grants : List Grant
  pub conditions : List Condition
  pub duration : ℤ  -- seconds
  pub issued_at : ℤ  -- nanoseconds

pub record AnyCell : Type 0 where
  pub uuid : String
  pub name : String
  pub cell_scope : CellUsageScope
  pub persistancy : Persistancy
  pub identity_domain : String
  pub contract_template : Agreement
  pub agreement_template : AgreementTemplate
  pub keys : List String

-- What `Get` returns: a stored or handled value, or the description or the keys of a cell.
pub data Reading : Type 0 where
  value : Value → Reading
  description : AnyCell → Reading
  key_list : List String → Reading

-- A subscriber's channel, as the elements that wait in its buffer.
abbrev pub Channel : Type 0
Channel = List FlowElement

-- `GeneralCell`. A handler is known by a number, an attached emitter by its UUID, and the
-- condition target by what its `Get` returns while conditions are evaluated.
pub record GeneralCell : Type 0 where
  pub uuid : String
  pub name : String
  pub owner : Option Identity
  pub agreement_template : AgreementTemplate
  pub identity_domain : String
  pub cell_scope : CellUsageScope
  pub persistancy : Persistancy
  pub storage : Fields
  pub get_handlers : Dict ℕ
  pub set_handlers : Dict ℕ
  pub explore_contracts : Dict ExploreContract
  pub attached : Dict String
  pub flow_history : List FlowElement
  pub subscribers : List (ℕ × Channel)
  pub next_subscriber : ℕ
  pub next_sequence : ℕ  -- uint64
  pub admission_policy : String
  pub contracts : List Contract
  pub revoked_before : Dict ℤ
  pub condition_target : Option (String → Identity → Result Reading)
  pub closed : Bool

-- What one call of a cell takes from outside: the libraries, the clock, which stands still during
-- the call, the draws of each proof of control, fresh UUIDs, and the handlers. A get handler is
-- told whether conditions are being evaluated; a set handler may change the cell.
pub record Env : Type 0 where
  pub crypto : Crypto
  pub codec : Codec
  pub marshal : Value → String
  pub describe : Reading → String
  pub sprint : Value → String
  pub now : ℤ
  pub draw : Purpose → Draw
  pub new_uuid : ℕ → String
  pub fresh_identity : Identity
  pub run_get : ℕ → Bool → GeneralCell → String → Option Identity → Result Reading
  pub run_set :
      ℕ → GeneralCell → String → Value → Option Identity → GeneralCell × Result (Option Value)

-- `NewGeneralCell`.
unfoldable pub new_general_cell : Env → Option Identity → String → GeneralCell
unfolding new_grant
new_general_cell e owner name = record {
  uuid = e.new_uuid 0;
  name = if str_eq name "" then "General" else name;
  owner = owner;
  agreement_template = record {
    grants =
        new_grant (e.new_uuid 1) "" "description" "r--"
        ∷ new_grant (e.new_uuid 2) "" "keys" "r--"
        ∷ [];
    conditions = [];
    duration = pos 0;
  };
  identity_domain = "";
  cell_scope = scaffold_unique;
  persistancy = ephemeral;
  storage = end;
  get_handlers = [];
  set_handlers = [];
  explore_contracts = [];
  attached = [];
  flow_history = [];
  subscribers = [];
  next_subscriber = 0;
  next_sequence = 0;
  admission_policy = "ownerApprovalRequired";
  contracts = [];
  revoked_before = [];
  condition_target = none;
  closed = false;
}
