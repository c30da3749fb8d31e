-- ===== src/Twasm/Proposals.antt =====
-- x/twasm/keeper/proposal_handler.go and x/twasm/types/proposal.go: governance proposals that promote or
-- demote a contract. The handler of the wasm module's own proposals, the address parser, and the
-- trimming and the byte length of strings are parameters.
pub mod Votes
use tgrade.Base.{
  ℕ, ⊤, String, str_eq, Bool, true, false, not, Option, none, some, if◌then◌else◌, ltb, ◌==◌,
  Outcome, ok, err, panic, Error, unknown_request, invalid_proposal_content, ◌>>=◌, ◌>>◌, fail_if,
}
use tgrade.Twasm.Keeper.{WasmKeeper, State, Action}
use tgrade.Twasm.Keeper.Privileged.{Contracts, set_privileged, unset_privileged}

pub record PrivilegeProposal : Type 0 where
  pub title : String
  pub description : String
  pub contract : String

pub data ProposalKind (X : Type 0) : Type 0 where
  promote_contract demote_contract : PrivilegeProposal → ProposalKind X
  other_content : X → ProposalKind X

pub record ProposalServices (W X : Type 0) : Type 0 where
  pub wasm_handler : Option (ProposalKind X) → Action W ⊤
  pub acc_address_from_bech32 : String → Outcome ℕ
  pub trim_space : String → String
  pub byte_length : String → ℕ
  pub max_title_length : ℕ
  pub max_description_length : ℕ

unfoldable pub is_unknown_request : Error → Bool
is_unknown_request unknown_request = true
is_unknown_request _ = false

module _ {W X : Type 0} (v : ProposalServices W X) where
  unfoldable pub validate_proposal_commons : String → String → Outcome ⊤
  validate_proposal_commons title description = do
    fail_if (not (str_eq (v.trim_space title) title)) invalid_proposal_content
    fail_if (v.byte_length title == 0) invalid_proposal_content
    fail_if (ltb v.max_title_length (v.byte_length title)) invalid_proposal_content
    fail_if (not (str_eq (v.trim_space description) description)) invalid_proposal_content
    fail_if (v.byte_length description == 0) invalid_proposal_content
    fail_if (ltb v.max_description_length (v.byte_length description)) invalid_proposal_content

  -- `ValidateBasic` of either proposal.
  unfoldable pub validate_proposal : PrivilegeProposal → Outcome ⊤
  unfolding validate_proposal_commons
  validate_proposal p = do
    validate_proposal_commons p.title p.description
    address ← v.acc_address_from_bech32 p.contract
    ok tt

  -- The address that either handler goes on with.
  unfoldable pub proposal_address : PrivilegeProposal → Outcome ℕ
  unfolding validate_proposal
  proposal_address p = do validate_proposal p; v.acc_address_from_bech32 p.contract

module _ (k : WasmKeeper) (c : Contracts k.W) {X : Type 0} (v : ProposalServices k.W X) where
  unfoldable pub handle_promote_contract_proposal : PrivilegeProposal → Action k.W ⊤
  handle_promote_contract_proposal p s = elim (proposal_address v p) [
    | ok a ↦ set_privileged k c a s
    | err e ↦ (err e, s)
    | panic ↦ (panic, s)
  ]

  unfoldable pub handle_demote_contract_proposal : PrivilegeProposal → Action k.W ⊤
  handle_demote_contract_proposal p s = elim (proposal_address v p) [
    | ok a ↦ unset_privileged k c a s
    | err e ↦ (err e, s)
    | panic ↦ (panic, s)
  ]

  -- The part of the handler that follows the wasm module's.
  unfoldable pub handle_own : Option (ProposalKind X) → Action k.W ⊤
  handle_own none s = (err unknown_request, s)
  handle_own (some (promote_contract p)) s = handle_promote_contract_proposal p s
  handle_own (some (demote_contract p)) s = handle_demote_contract_proposal p s
  handle_own (some (other_content x)) s = (err unknown_request, s)

  -- `NewProposalHandlerX`
  unfoldable pub handle_proposal : Option (ProposalKind X) → Action k.W ⊤
  unfolding handle_own
  handle_proposal content s =
      let (o, s') = v.wasm_handler content s in
      elim o [
        | ok _ ↦ (ok tt, s')
        | err e ↦ if is_unknown_request e then handle_own content s' else (err e, s')
        | panic ↦ (panic, s')
      ]
