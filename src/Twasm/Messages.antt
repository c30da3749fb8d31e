-- ===== src/Twasm/Messages.antt =====
-- x/twasm/contract/incoming_msgs.go: the messages that a privileged contract sends, past the JSON decoder,
-- with their validation, and the governance content that a message stands for. `P` is what the
-- structs of other modules hold besides title, description and sender; a nil pointer is `none`.
pub mod Gov
use tgrade.Base.{
  ℕ, ⊤, String, Option, none, some, List, Outcome, ok, err, ◌>>=◌, ◌>>◌, fail_if, is_empty, Bool,
  true, false, ◌&&◌, not, is_some, invalid_request, arith,
}
use tgrade.Base.Int.{ℤ}

pub record PrivilegeMsg : Type 0 where
  pub request : ℕ
  pub release : ℕ

-- A proposal content of another module, of which the code sets title and description.
pub record Titled (P : Type 0) : Type 0 where
  pub title : String
  pub description : String
  pub body : P

pub record RunAs (P : Type 0) : Type 0 where
  pub title : String
  pub description : String
  pub run_as : String
  pub body : P

pub record ParamChange : Type 0 where
  pub subspace : String
  pub key : String
  pub value : String

-- `proposalContent`. A plan says whether the client state of IBC is set.
pub record ProposalContent (P : Type 0) : Type 0 where
  pub text : Option (Titled P)
  pub register_upgrade : Option (P × Bool)
  pub cancel_upgrade : Option (Titled P)
  pub change_params : Option (List ParamChange)
  pub ibc_client_update : Option (Titled P)
  pub promote_to_privileged_contract : Option (Titled String)
  pub demote_privileged_contract : Option (Titled String)
  pub instantiate_contract : Option (RunAs P)
  pub store_code : Option (RunAs P)
  pub migrate_contract : Option (Titled P)
  pub set_contract_admin : Option (Titled P)
  pub clear_contract_admin : Option (Titled P)
  pub pin_codes : Option (Titled P)
  pub unpin_codes : Option (Titled P)

pub record ExecuteGovProposal (P : Type 0) : Type 0 where
  pub title : String
  pub description : String
  pub proposal : ProposalContent P

pub data Content (P : Type 0) : Type 0 where
  text cancel_upgrade ibc_client_update : Titled P → Content P
  software_upgrade : Titled (P × Bool) → Content P
  parameter_change : Titled (List ParamChange) → Content P
  promote demote : Titled String → Content P
  instantiate store_code : RunAs P → Content P
  migrate set_admin clear_admin pin_codes unpin_codes : Titled P → Content P

pub record MintTokens : Type 0 where
  pub denom : String
  pub amount : String
  pub recipient_addr : String

pub record BlockParams : Type 0 where
  pub max_bytes : Option ℤ
  pub max_gas : Option ℤ

pub record EvidenceParams : Type 0 where
  pub max_age_num_blocks : Option ℤ
  pub max_age_duration : Option ℤ
  pub max_bytes : Option ℤ

pub record ConsensusParamsUpdate : Type 0 where
  pub block : Option BlockParams
  pub evidence : Option EvidenceParams

-- `Delegate` and `Undelegate`: a coin and an address.
pub record Transfer : Type 0 where
  pub denom : String
  pub amount : String
  pub addr : String

pub record PetriMsg (P : Type 0) : Type 0 where
  pub privilege : Option PrivilegeMsg
  pub execute_gov_proposal : Option (ExecuteGovProposal P)
  pub mint_tokens : Option MintTokens
  pub consensus_params : Option ConsensusParamsUpdate
  pub delegate : Option Transfer
  pub undelegate : Option Transfer

-- `ValidateBasic` of the two parameter groups; a nil receiver is accepted.
unfoldable pub validate_block_params : Option BlockParams → Outcome ⊤
validate_block_params none = ok tt
validate_block_params (some p) =
    fail_if (not (is_some p.max_bytes) && not (is_some p.max_gas)) is_empty

unfoldable pub validate_evidence_params : Option EvidenceParams → Outcome ⊤
validate_evidence_params none = ok tt
validate_evidence_params (some p) =
    fail_if
      (not (is_some p.max_age_num_blocks)
        && not (is_some p.max_age_duration)
        && not (is_some p.max_bytes))
      is_empty

unfoldable pub validate_consensus_params_update : ConsensusParamsUpdate → Outcome ⊤
unfolding validate_block_params validate_evidence_params
validate_consensus_params_update c = do
  fail_if (not (is_some c.block) && not (is_some c.evidence)) is_empty
  validate_block_params c.block
  validate_evidence_params c.evidence

-- `UnmarshalWithAny` past the JSON decoder, whose result is the argument: an upgrade plan with an IBC
-- client state is refused.
unfoldable pub unpack_interfaces : {P : Type 0} → ExecuteGovProposal P → Outcome ⊤
unpack_interfaces g = elim (g.proposal.register_upgrade) [
  | none ↦ ok tt
  | some (plan, client_state) ↦ fail_if client_state invalid_request
]

unfoldable pub unmarshal_with_any : {P : Type 0} → Outcome (PetriMsg P) → Outcome (PetriMsg P)
unfolding unpack_interfaces
unmarshal_with_any decoded = do
  m ← decoded
  elim m.execute_gov_proposal [ none ↦ ok m | some g ↦ (unpack_interfaces g >> ok m) ]

abbrev pub titled_as : {B : Type 0} → String → String → B → Titled B
titled_as title description b = record { title = title; description = description; body = b }

module _ {P : Type 0} (title description sender : String) where
  abbrev pub titled : Titled P → Titled P
  titled t = record t { title = title; description = description }

  abbrev pub run_as : RunAs P → RunAs P
  run_as r = record r { title = title; description = description; run_as = sender }

  -- The cases of `GetProposalContent`, from the last one back: the first pointer that is set decides.
  unfoldable pub contract_content : ProposalContent P → Option (Content P)
  contract_content p = elim p.migrate_contract [
    | some x ↦ some (migrate (titled x))
    | none ↦ elim p.set_contract_admin [
      | some x ↦ some (set_admin (titled x))
      | none ↦ elim p.clear_contract_admin [
        | some x ↦ some (clear_admin (titled x))
        | none ↦ elim p.pin_codes [
          | some x ↦ some (pin_codes (titled x))
          | none ↦ elim p.unpin_codes [ some x ↦ some (unpin_codes (titled x)) | none ↦ none ]
        ]
      ]
    ]
  ]

  unfoldable pub privilege_content : ProposalContent P → Option (Content P)
  privilege_content p = elim p.promote_to_privileged_contract [
    | some x ↦ some (promote (titled_as title description x.body))
    | none ↦ elim p.demote_privileged_contract [
      | some x ↦ some (demote (titled_as title description x.body))
      | none ↦ elim p.instantiate_contract [
        | some x ↦ some (instantiate (run_as x))
        | none ↦ elim p.store_code [
          | some x ↦ some (store_code (run_as x))
          | none ↦ contract_content p
        ]
      ]
    ]
  ]

  unfoldable pub proposal_content : ProposalContent P → Option (Content P)
  proposal_content p = elim p.text [
    | some x ↦ some (text (titled x))
    | none ↦ elim p.register_upgrade [
      | some x ↦ some (software_upgrade (titled_as title description x))
      | none ↦ elim p.cancel_upgrade [
        | some x ↦ some (cancel_upgrade (titled x))
        | none ↦ elim p.change_params [
          | some x ↦ some (parameter_change (titled_as title description x))
          | none ↦ elim p.ibc_client_update [
            | some x ↦ some (ibc_client_update (titled x))
            | none ↦ privilege_content p
          ]
        ]
      ]
    ]
  ]

unfoldable pub get_proposal_content :
    {P : Type 0} → String → ExecuteGovProposal P → Option (Content P)
get_proposal_content sender g = proposal_content g.title g.description sender g.proposal
