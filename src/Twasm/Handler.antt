-- ===== src/Twasm/Handler.antt =====
-- x/twasm/keeper/handler_plugin.go: the messages of privileged contracts. The bank, the consensus
-- parameters, the governance router and the parsers of addresses and amounts are parameters.
pub mod Dispatch
pub mod Params
pub mod Authority
pub mod Minting
pub mod Release
pub mod Privileges
pub mod Requests
use tgrade.Base.{
  ℕ, ◌%◌, ⊤, String, str_eq, Bool, true, false, not, ◌&&◌, ◌||◌, Option, none, some, List, [], ◌∷◌,
  ◌++◌, ◌==◌, if◌then◌else◌, Outcome, ok, err, panic, Error, not_found, unknown_msg, unauthorized,
  invalid_address, invalid_coins, json_unmarshal, no_proposal_handler, fail_if, length, or_zero,
  is_some,
}
use tgrade.Base.Int.{ℤ, pos, mul_int64}
use tgrade.Base.Coin.{Coin}
use mathlib.Core.List.{reverse}
use tgrade.Twasm.Privilege.{gov_proposal_executor, token_minter, consensus_param_changer, delegator}
use tgrade.Twasm.Details.{
  RegisteredPrivilege, Details, array, loaded, add_registered_privilege, has_registered_privilege,
  remove_registered_privilege, iterate_loop,
}
use tgrade.Twasm.Keeper.{
  WasmKeeper, State, Event, tokens_minted, tokens_delegated, tokens_undelegated, Action, ◌>>=◌,
  ◌>>◌, pure, or_fail, on_wasm, is_privileged, append_to_privileged_contracts,
  remove_privilege_registration, set_contract_details,
}
use tgrade.Twasm.Messages.{
  PrivilegeMsg, ExecuteGovProposal, Content, parameter_change, ParamChange, MintTokens,
  ConsensusParamsUpdate, BlockParams, EvidenceParams, Transfer, PetriMsg,
  validate_consensus_params_update, unmarshal_with_any, get_proposal_content,
}

-- The parameter groups of the consensus engine that an update can change; a group may be nil.
pub record BlockLimits : Type 0 where
  pub max_bytes : ℤ
  pub max_gas : ℤ

pub record EvidenceLimits : Type 0 where
  pub max_age_num_blocks : ℤ
  pub max_age_duration : ℤ
  pub max_bytes : ℤ

pub record ConsensusParams : Type 0 where
  pub block : Option BlockLimits
  pub evidence : Option EvidenceLimits

pub data Module : Type 0 where
  twasm bonded_pool : Module

pub record Services (W P : Type 0) : Type 0 where
  pub acc_address_from_bech32 : String → Option ℕ
  pub address_string : ℕ → String
  pub new_int_from_string : String → Option ℤ
  pub validate_coin : Coin → Outcome ⊤
  pub new_coins : Coin → List Coin
  pub convert_coin : String → String → Option (List Coin)
  pub mint_coins : Module → List Coin → W → Outcome ⊤ × W
  pub send_coins_from_module_to_account : Module → ℕ → List Coin → W → Outcome ⊤ × W
  pub send_coins_from_account_to_module : ℕ → Module → List Coin → W → Outcome ⊤ × W
  pub delegate_coins_from_account_to_module : ℕ → Module → List Coin → W → Outcome ⊤ × W
  pub undelegate_coins_from_module_to_account : Module → ℕ → List Coin → W → Outcome ⊤ × W
  pub get_consensus_params : W → ConsensusParams
  pub store_consensus_params : ConsensusParams → W → W
  pub content_route : Content P → String
  pub validate_content : Content P → Outcome ⊤
  pub has_route : String → Bool
  pub route : String → Content P → Action W ⊤
  pub params_route : String
  pub base_subspace : String

-- `mergeConsensusParamsUpdate`: a duration is given in seconds and kept in nanoseconds. A field that is
-- written to a group that is nil is a nil pointer dereferenced.
unfoldable pub merge_block : Option BlockParams → Option BlockLimits → Outcome (Option BlockLimits)
merge_block none src = ok src
merge_block (some p) none = if is_some p.max_bytes || is_some p.max_gas then panic else ok none
merge_block (some p) (some b) = ok (
    some (record {
      max_bytes = or_zero b.max_bytes p.max_bytes;
      max_gas = or_zero b.max_gas p.max_gas;
    }))

abbrev pub second : ℤ
second = pos 1_000_000_000

unfoldable pub merge_evidence :
    Option EvidenceParams → Option EvidenceLimits → Outcome (Option EvidenceLimits)
merge_evidence none src = ok src
merge_evidence (some p) none =
    if is_some p.max_age_num_blocks || is_some p.max_age_duration || is_some p.max_bytes
    then panic
    else ok none
merge_evidence (some p) (some e) = ok (
    some (record {
      max_age_num_blocks = or_zero e.max_age_num_blocks p.max_age_num_blocks;
      max_age_duration = elim p.max_age_duration [
        | none ↦ e.max_age_duration
        | some d ↦ mul_int64 d second
      ];
      max_bytes = or_zero e.max_bytes p.max_bytes;
    }))

unfoldable pub merge_consensus_params_update :
    ConsensusParams → ConsensusParamsUpdate → Outcome ConsensusParams
unfolding merge_block merge_evidence
merge_consensus_params_update src delta = elim (merge_block delta.block src.block) [
  | err e ↦ err e
  | panic ↦ panic
  | ok block ↦ elim (merge_evidence delta.evidence src.evidence) [
    | err e ↦ err e
    | panic ↦ panic
    | ok evidence ↦ ok (record { block = block; evidence = evidence })
  ]
]

-- The callback of `unregister`: entries of other types are passed over.
unfoldable pub unregister_one :
    {W : Type 0} → ℕ → ℕ → ℕ → ℕ → Details × State W → Outcome (Bool × (Details × State W))
unregister_one a tp t position (d, s) =
    if t == tp
    then elim (remove_registered_privilege t position d) [
      | ok d' ↦ ok (false, (d', (remove_privilege_registration t position a s).1))
      | err e ↦ err e
      | panic ↦ panic
    ]
    else ok (false, (d, s))

unfoldable pub unregister_all : {W : Type 0} → ℕ → ℕ → List RegisteredPrivilege → Action W Details
unregister_all a tp ps s =
    elim (iterate_loop (λ x. array x.0) (unregister_one a tp) (length ps) 0 (loaded ps, s)) [
      | ok (d, s') ↦ (ok d, s')
      | err e ↦ (err e, s)
      | panic ↦ (panic, s)
    ]

module _ (k : WasmKeeper) where
  open k use {W, read_extension, get_contract_info}

  -- The details of a contract, as the handlers load them.
  unfoldable pub load_details : ℕ → Action W (List RegisteredPrivilege)
  load_details a s = elim (get_contract_info a s.wasm) [
    | none ↦ (err not_found, s)
    | some info ↦ (read_extension info, s)
  ]

  unfoldable pub register : ℕ → List RegisteredPrivilege → ℕ → Action W ⊤
  register a ps t s =
      if has_registered_privilege t ps
      then (ok tt, s)
      else (do
        p ← append_to_privileged_contracts t a
        set_contract_details k a (add_registered_privilege t p (loaded ps)).live)
          s

  unfoldable pub unregister : ℕ → List RegisteredPrivilege → ℕ → Action W ⊤
  unregister a ps t s =
      if has_registered_privilege t ps
      then (do d ← unregister_all a t ps; set_contract_details k a d.live) s
      else (ok tt, s)

  unfoldable pub handle_privilege : ℕ → PrivilegeMsg → Action W ⊤
  unfolding load_details
  handle_privilege a msg = do
    ps ← load_details a
    if not (msg.release == 0)
        then unregister a ps msg.release
        else if not (msg.request == 0)
        then register a ps msg.request
        else pure (err unknown_msg)

  unfoldable pub assert_has_privilege : ℕ → ℕ → Action W ⊤
  assert_has_privilege a t = do
    ps ← load_details a
    pure (fail_if (not (has_registered_privilege t ps)) unauthorized)
