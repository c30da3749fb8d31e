-- ===== src/Twasm/Callbacks.antt =====
-- x/twasm/contract/callback_msgs.go: the messages that the module sends to privileged contracts.
use tgrade.Base.{ℕ, List}

pub data EvidenceType : Type 0 where
  duplicate_vote light_client_attack : EvidenceType

pub record Validator : Type 0 where
  pub address : List ℕ
  pub power : ℕ

pub record Evidence : Type 0 where
  pub evidence_type : EvidenceType
  pub validator : Validator
  pub height : ℕ
  pub time : ℕ
  pub total_voting_power : ℕ

-- `PetriSudoMsg` with the one pointer that is set, and the message of the PoE module for its valset contract.
pub data SudoMsg : Type 0 where
  promoted demoted end_block export_state end_with_validator_update : SudoMsg
  begin_block : List Evidence → SudoMsg
  import_state : List ℕ → SudoMsg
