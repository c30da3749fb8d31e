-- ===== src/Poe/Genesis/Seed.antt =====
-- `validateSeedContracts` of x/poe/types/genesis.go. A Go map that is used as a set is the list of its keys.
pub mod Unique
use tgrade.Base.{
  ℕ, ⊤, String, str_eq, Bool, true, false, not, ◌||◌, Option, none, some, List, [], ◌∷◌, length,
  Outcome, ok, err, panic, ◌>>=◌, ◌>>◌, fail_if, or_err, or_zero, is_empty, invalid_genesis,
  duplicate, ◌==◌,
}
use tgrade.Poe.Messages.{MsgCreateValidator, PubKeyAny, validate_create_validator}
use tgrade.Poe.Genesis.{
  GenMsg, gen_create_validator, gen_other, GenesisServices, EngagementContractConfig,
  ValsetContractConfig, StakeContractConfig, VotingRules, OversightCommitteeContractConfig,
  ArbiterPoolContractConfig, Sigmoid, Member, check_address, validate_engagement_config,
  validate_valset_config, validate_stake_config, validate_voting_rules, validate_oversight_config,
  validate_arbiter_config, validate_mixer_config, validate_member,
}

pub record SeedContracts (D : Type 0) : Type 0 where
  pub engagement : List Member
  pub engagement_contract_config : Option EngagementContractConfig
  pub bond_denom : String
  pub valset_contract_config : Option (ValsetContractConfig D)
  pub stake_contract_config : Option StakeContractConfig
  pub oversight_committee_contract_config : Option (OversightCommitteeContractConfig D)
  pub arbiter_pool_contract_config : Option (ArbiterPoolContractConfig D)
  pub community_pool_contract_config : Option (VotingRules D)
  pub validator_voting_contract_config : Option (VotingRules D)
  pub mixer_contract_config : Option (Sigmoid D)
  pub bootstrap_account_address : String
  pub gen_txs : List (List ℕ)
  pub oversight_community_members : List String
  pub arbiter_pool_members : List String

unfoldable pub elem : String → List String → Bool
elem t [] = false
elem t (s ∷ ss) = str_eq s t || elem t ss

abbrev pub key_text : Option PubKeyAny → String
key_text none = ""
key_text (some a) = a.text

module _ {D : Type 0} (v : GenesisServices D) where
  -- The loop over the engagement group, with the addresses seen; the result is the set of all.
  unfoldable pub check_members : List String → List Member → Outcome (List String)
  check_members seen [] = ok seen
  check_members seen (m ∷ ms) =
      let rest = check_members (m.address ∷ seen) ms in
      validate_member v m >> fail_if (elem m.address seen) duplicate >> rest

  -- `genTx.GetMsgs()` with the cast of the only message, which panics on another type.
  unfoldable pub single_message : List GenMsg → Outcome MsgCreateValidator
  single_message [] = err invalid_genesis
  single_message (m ∷ ms) = elim ms [
    | x ∷ xs ↦ err invalid_genesis
    | [] ↦ elim m [ gen_create_validator msg ↦ ok msg | gen_other ↦ panic ]
  ]

  unfoldable pub check_gen_tx :
      List String → List String → List String → List ℕ → Outcome (String × String)
  check_gen_tx members operators keys tx = do
    msgs ← v.tx_json_decoder tx
    msg ← single_message msgs
    validate_create_validator v.messages msg
    fail_if (not (elem msg.operator_address members)) invalid_genesis
    fail_if (elem msg.operator_address operators) invalid_genesis
    fail_if (elem (key_text msg.pubkey) keys) invalid_genesis
    ok (msg.operator_address, key_text msg.pubkey)

  -- The loop over the transactions, with the operators and the keys seen.
  unfoldable pub check_gen_txs : List String → List String → List String → List (List ℕ) → Outcome ⊤
  check_gen_txs members operators keys [] = ok tt
  check_gen_txs members operators keys (tx ∷ txs) = elim (check_gen_tx members operators keys tx) [
    | ok (operator, key) ↦ check_gen_txs members (operator ∷ operators) (key ∷ keys) txs
    | err e ↦ err e
    | panic ↦ panic
  ]

  -- The loop over the members of a trusted circle.
  unfoldable pub check_unique : List String → List String → Outcome ⊤
  check_unique seen [] = ok tt
  check_unique seen (m ∷ ms) =
      let rest = check_unique (m ∷ seen) ms in
      check_address v m >> fail_if (elem m seen) duplicate >> rest

  unfoldable pub check_configs : SeedContracts D → Outcome ⊤
  check_configs g = do
    fail_if (length g.engagement == 0) invalid_genesis
    engagement_config ← or_err g.engagement_contract_config invalid_genesis
    validate_engagement_config engagement_config
    v.validate_denom g.bond_denom
    valset_config ← or_err g.valset_contract_config invalid_genesis
    validate_valset_config v valset_config
    stake_config ← or_err g.stake_contract_config invalid_genesis
    validate_stake_config v stake_config
    fail_if (not (str_eq valset_config.epoch_reward.denom g.bond_denom)) invalid_genesis
    oversight ← or_err g.oversight_committee_contract_config invalid_genesis
    validate_oversight_config v oversight
    arbiter ← or_err g.arbiter_pool_contract_config invalid_genesis
    validate_arbiter_config v arbiter
    fail_if (not (str_eq oversight.escrow_amount.denom g.bond_denom)) invalid_genesis
    community ← or_err g.community_pool_contract_config invalid_genesis
    validate_voting_rules v community
    voting ← or_err g.validator_voting_contract_config invalid_genesis
    validate_voting_rules v voting
    validate_mixer_config v g.mixer_contract_config

  unfoldable pub validate_seed_contracts : SeedContracts D → Outcome ⊤
  validate_seed_contracts g = do
    check_configs g
    check_address v g.bootstrap_account_address
    members ← check_members [] g.engagement
    check_gen_txs members [] [] g.gen_txs
    fail_if (length g.oversight_community_members == 0) is_empty
    check_unique [] g.oversight_community_members
    fail_if (length g.arbiter_pool_members == 0) is_empty
    check_unique [] g.arbiter_pool_members
