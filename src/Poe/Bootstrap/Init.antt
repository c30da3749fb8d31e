-- ===== src/Poe/Bootstrap/Init.antt =====
-- The instantiate messages of x/poe/bootstrap.go, built from the seed contracts of the genesis state. Structs
-- are those of x/poe/contract. A decimal that stands for no value is a nil pointer, and taking its
-- value panics.
use tgrade.Base.{
  ℕ, String, Bool, true, false, Option, none, some, List, [], ◌∷◌, Outcome, ok, panic, ◌>>=◌,
}
use tgrade.Base.Coin.{Coin}
use tgrade.Poe.Unbonding.{UnbondAmount}
use tgrade.Poe.Genesis.{
  GenesisServices, ValsetContractConfig, StakeContractConfig, EngagementContractConfig, VotingRules,
  OversightCommitteeContractConfig, ArbiterPoolContractConfig, Sigmoid, Member,
}

pub record InitRules (D : Type 0) : Type 0 where
  pub voting_period : ℕ
  pub quorum : D
  pub threshold : D
  pub allow_end_early : Bool

pub record EngagementInitMsg : Type 0 where
  pub admin : String
  pub members : List Member
  pub preauths_hooks : ℕ
  pub preauths_slashing : ℕ
  pub denom : String
  pub halflife : ℕ

pub record TrustedCircleInitMsg (D : Type 0) : Type 0 where
  pub name : String
  pub escrow : UnbondAmount
  pub rules : InitRules D
  pub initial_members : List String
  pub deny_list : String
  pub edit_trusted_circle_disabled : Bool
  pub reward_denom : String

pub record StakeInitMsg : Type 0 where
  pub admin : String
  pub denom : String
  pub min_bond : ℕ
  pub tokens_per_point : ℕ
  pub unbonding_period : ℕ
  pub auto_return_limit : ℕ
  pub preauths_hooks : ℕ
  pub preauths_slashing : ℕ

pub record MixerInitMsg (D : Type 0) : Type 0 where
  pub left_group : String
  pub right_group : String
  pub preauths_slashing : ℕ
  pub sigmoid : Sigmoid D

pub record GroupInitMsg (D : Type 0) : Type 0 where
  pub rules : InitRules D
  pub group_address : String

pub record DistributionContract (D : Type 0) : Type 0 where
  pub contract : String
  pub ratio : D

pub record ValsetInitMsg (D : Type 0) : Type 0 where
  pub admin : String
  pub membership : String
  pub min_points : ℕ
  pub max_validators : ℕ
  pub epoch_length : ℕ
  pub epoch_reward : Coin
  pub scaling : ℕ
  pub fee_percentage : Option D
  pub auto_unjail : Bool
  pub verify_validators : Bool
  pub offline_jail_duration : ℕ
  pub distribution_contracts : List (DistributionContract D)
  pub validator_group_code_id : ℕ

pub record OcProposalsInitMsg (D : Type 0) : Type 0 where
  pub group_contract_address : String
  pub valset_contract_address : String
  pub engagement_contract_address : String
  pub rules : InitRules D

pub record ApVotingInitMsg (D : Type 0) : Type 0 where
  pub group_contract_address : String
  pub rules : InitRules D
  pub waiting_period : ℕ
  pub dispute_cost : Coin

pub data InitMsg (D : Type 0) : Type 0 where
  engagement_init : EngagementInitMsg → InitMsg D
  trusted_circle_init : TrustedCircleInitMsg D → InitMsg D
  stake_init : StakeInitMsg → InitMsg D
  mixer_init : MixerInitMsg D → InitMsg D
  community_pool_init validator_voting_init : GroupInitMsg D → InitMsg D
  valset_init : ValsetInitMsg D → InitMsg D
  oc_proposals_init : OcProposalsInitMsg D → InitMsg D
  ap_voting_init : ApVotingInitMsg D → InitMsg D

module _ {D : Type 0} (v : GenesisServices D) (quo_int64 : D → ℕ → D) where
  -- A percentage as a fraction; zero is nil.
  unfoldable pub decimal_from_percentage : D → Outcome (Option D)
  decimal_from_percentage percent = v.is_zero_dec percent >>= λ z. elim z [
    | true ↦ ok none
    | false ↦ ok (some (quo_int64 percent 100))
  ]

  -- `*contract.DecimalFromPercentage(d)`
  unfoldable pub fraction : D → Outcome D
  unfolding decimal_from_percentage
  fraction percent =
      decimal_from_percentage percent >>= λ d. elim d [ none ↦ panic | some x ↦ ok x ]

  unfoldable pub to_contract_voting_rules : VotingRules D → Outcome (InitRules D)
  to_contract_voting_rules r = do
    quorum ← fraction r.quorum
    threshold ← fraction r.threshold
    ok (record {
      voting_period = r.voting_period;
      quorum = quorum;
      threshold = threshold;
      allow_end_early = r.allow_end_early;
    })

  -- `newOCInitMsg` and `newAPTrustedCircleInitMsg`, which differ in the configuration they read.
  unfoldable pub new_trusted_circle_init_msg :
      String → UnbondAmount → VotingRules D → String → Outcome (InitMsg D)
  new_trusted_circle_init_msg name escrow rules deny_list = do
    init_rules ← to_contract_voting_rules rules
    ok (
        trusted_circle_init (record {
          name = name;
          escrow = escrow;
          rules = init_rules;
          initial_members = [];
          deny_list = deny_list;
          edit_trusted_circle_disabled = true;
          reward_denom = escrow.denom;
        }))

  unfoldable pub new_oc_init_msg : OversightCommitteeContractConfig D → Outcome (InitMsg D)
  new_oc_init_msg c =
      new_trusted_circle_init_msg c.name c.escrow_amount c.voting_rules c.deny_list_contract_address

  unfoldable pub new_ap_trusted_circle_init_msg : ArbiterPoolContractConfig D → Outcome (InitMsg D)
  new_ap_trusted_circle_init_msg c =
      new_trusted_circle_init_msg c.name c.escrow_amount c.voting_rules c.deny_list_contract_address

  unfoldable pub new_oc_gov_proposals_init_msg :
      OversightCommitteeContractConfig D → String → String → String → Outcome (InitMsg D)
  new_oc_gov_proposals_init_msg c oc engagement valset = do
    rules ← to_contract_voting_rules c.voting_rules
    ok (
        oc_proposals_init (record {
          group_contract_address = oc;
          valset_contract_address = valset;
          engagement_contract_address = engagement;
          rules = rules;
        }))

  unfoldable pub new_arbiter_pool_voting_init_msg :
      ArbiterPoolContractConfig D → String → Outcome (InitMsg D)
  new_arbiter_pool_voting_init_msg c ap = do
    rules ← to_contract_voting_rules c.voting_rules
    ok (
        ap_voting_init (record {
          group_contract_address = ap;
          rules = rules;
          waiting_period = v.unsigned_seconds c.waiting_period;
          dispute_cost = c.dispute_cost;
        }))

  unfoldable pub new_engagement_init_msg :
      EngagementContractConfig → List Member → String → String → InitMsg D
  new_engagement_init_msg c members denom admin = engagement_init (record {
    admin = admin;
    members = members;
    preauths_hooks = 1;
    preauths_slashing = 1;
    denom = denom;
    halflife = v.unsigned_seconds c.halflife;
  })

  unfoldable pub new_stake_init_msg : StakeContractConfig → String → String → InitMsg D
  new_stake_init_msg c denom admin = stake_init (record {
    admin = admin;
    denom = denom;
    min_bond = c.min_bond;
    tokens_per_point = c.tokens_per_point;
    unbonding_period = v.unsigned_seconds c.unbonding_period;
    auto_return_limit = c.claim_autoreturn_limit;
    preauths_hooks = 1;
    preauths_slashing = 1;
  })

  unfoldable pub new_valset_init_msg :
      ValsetContractConfig D → String → String → String → String → ℕ → Outcome (InitMsg D)
  new_valset_init_msg c admin mixer engagement community_pool engagement_code_id = do
    fee_percentage ← decimal_from_percentage c.fee_percentage
    engagement_ratio ← fraction c.engagement_reward_ratio
    community_ratio ← fraction c.community_pool_reward_ratio
    ok (
        valset_init (record {
          admin = admin;
          membership = mixer;
          min_points = c.min_points;
          max_validators = c.max_validators;
          epoch_length = v.unsigned_seconds c.epoch_length;
          epoch_reward = c.epoch_reward;
          scaling = c.scaling;
          fee_percentage = fee_percentage;
          auto_unjail = c.auto_unjail;
          verify_validators = c.verify_validators;
          offline_jail_duration = v.unsigned_seconds c.offline_jail_duration;
          distribution_contracts =
              record { contract = engagement; ratio = engagement_ratio }
              ∷ record { contract = community_pool; ratio = community_ratio }
              ∷ [];
          validator_group_code_id = engagement_code_id;
        }))
