-- ===== src/Poe/Genesis.antt =====
-- x/poe/types/genesis.go, params.go: the configurations of the contracts in the genesis state and their
-- `ValidateBasic`. A duration is an int64 of nanoseconds. The SDK's decimals, the validation of
-- denominations and coins, the decoder of transactions and the seconds of a duration, a float that is cut
-- to an integer, are parameters; an operation on a nil decimal panics.
pub mod Seed
pub mod State
pub mod Ratios
use tgrade.Base.{
  ℕ, ⊤, String, str_eq, if◌then◌else◌, Bool, true, false, not, ◌||◌, Option, none, some, List,
  Outcome, ok, err, panic, ◌>>=◌, ◌>>◌, fail_if, is_empty, invalid, invalid_genesis, ◌==◌, ltb, ◌%◌,
  ◌-◌, ◌+◌,
}
use tgrade.Base.Int.{ℤ, pos, negsuc, mul_int64, to_int64, eqb_ℤ, leb_ℤ}
use tgrade.Base.Coin.{Coin}
use tgrade.Poe.Registry.{validate_contract_type}
use tgrade.Poe.Unbonding.{UnbondAmount}
use tgrade.Poe.Messages.{MessageServices, MsgCreateValidator}

pub data GenMsg : Type 0 where
  gen_create_validator : MsgCreateValidator → GenMsg
  gen_other : GenMsg

pub record GenesisServices (D : Type 0) : Type 0 where
  pub messages : MessageServices
  pub validate_denom : String → Outcome ⊤
  pub validate_coins : List Coin → Outcome ⊤
  pub tx_json_decoder : List ℕ → Outcome (List GenMsg)
  -- `Duration.Seconds`, converted to an int64 and to a uint64.
  pub whole_seconds : ℤ → ℤ
  pub unsigned_seconds : ℤ → ℕ
  pub new_dec : ℕ → D
  pub dec_with_prec : ℕ → ℕ → D
  pub is_nil_dec : D → Bool
  pub is_zero_dec : D → Outcome Bool
  pub gt : D → D → Outcome Bool
  pub lt : D → D → Outcome Bool
  pub equal_dec : D → D → Outcome Bool
  pub add_dec : D → D → Outcome D

abbrev pub second : ℤ
second = pos 1000000000

-- `d.Truncate(time.Second)`: towards zero.
unfoldable pub truncate_second : ℤ → ℤ
truncate_second (pos n) = pos (n - n % 1000000000)
truncate_second (negsuc n) =
    let m = (n + 1) - (n + 1) % 1000000000 in if m == 0 then pos 0 else negsuc (m - 1)

pub record EngagementContractConfig : Type 0 where
  pub halflife : ℤ

unfoldable pub validate_engagement_config : EngagementContractConfig → Outcome ⊤
unfolding truncate_second
validate_engagement_config c = fail_if (not (eqb_ℤ (truncate_second c.halflife) c.halflife)) invalid

pub record ValsetContractConfig (D : Type 0) : Type 0 where
  pub min_points : ℕ
  pub max_validators : ℕ
  pub epoch_length : ℤ
  pub epoch_reward : Coin
  pub scaling : ℕ
  pub fee_percentage : D
  pub auto_unjail : Bool
  pub validator_reward_ratio : D
  pub engagement_reward_ratio : D
  pub community_pool_reward_ratio : D
  pub verify_validators : Bool
  pub offline_jail_duration : ℤ

pub record StakeContractConfig : Type 0 where
  pub min_bond : ℕ
  pub tokens_per_point : ℕ
  pub unbonding_period : ℤ
  pub claim_autoreturn_limit : ℕ

pub record VotingRules (D : Type 0) : Type 0 where
  pub voting_period : ℕ
  pub quorum : D
  pub threshold : D
  pub allow_end_early : Bool

pub record OversightCommitteeContractConfig (D : Type 0) : Type 0 where
  pub name : String
  pub escrow_amount : UnbondAmount
  pub voting_rules : VotingRules D
  pub deny_list_contract_address : String

pub record ArbiterPoolContractConfig (D : Type 0) : Type 0 where
  pub name : String
  pub escrow_amount : UnbondAmount
  pub voting_rules : VotingRules D
  pub deny_list_contract_address : String
  pub waiting_period : ℤ
  pub dispute_cost : Coin

pub record Sigmoid (D : Type 0) : Type 0 where
  pub max_points : ℕ
  pub p : D
  pub s : D

pub record Member : Type 0 where
  pub address : String
  pub points : ℕ

pub record PoeContract : Type 0 where
  pub contract_type : ℕ
  pub address : String

pub record Params : Type 0 where
  pub historical_entries : ℕ
  pub initial_val_engagement_points : ℕ
  pub min_delegation_amounts : List Coin

abbrev pub min_name_length : ℕ
min_name_length = 1

abbrev pub max_name_length : ℕ
max_name_length = 100

abbrev pub min_escrow_amount : ℤ
min_escrow_amount = pos 999999

module _ {D : Type 0} (v : GenesisServices D) where
  -- A test that may panic, and the error if it holds.
  abbrev pub fail_on : Outcome Bool → Outcome ⊤
  fail_on t = t >>= λ b. fail_if b invalid

  -- `c.IsNil() || c.LT(bound)`: the second test is made if the first fails.
  abbrev pub nil_or : D → Outcome Bool → Outcome Bool
  nil_or d t = elim (v.is_nil_dec d) [ true ↦ ok true | false ↦ t ]

  abbrev pub check_address : String → Outcome ⊤
  check_address t = v.messages.acc_address_from_bech32 t >>= λ a. ok tt

  -- The three ratios are at most a hundred, and their sum is a hundred.
  unfoldable pub check_ratios : ValsetContractConfig D → Outcome ⊤
  check_ratios c = do
    fail_on (v.gt c.community_pool_reward_ratio (v.new_dec 100))
    fail_on (v.gt c.engagement_reward_ratio (v.new_dec 100))
    fail_on (v.gt c.validator_reward_ratio (v.new_dec 100))
    two ← v.add_dec c.engagement_reward_ratio c.community_pool_reward_ratio
    total ← v.add_dec two c.validator_reward_ratio
    whole ← v.equal_dec total (v.new_dec 100)
    fail_if (not whole) invalid

  unfoldable pub validate_valset_config : ValsetContractConfig D → Outcome ⊤
  validate_valset_config c = do
    fail_if c.verify_validators invalid
    fail_if (c.max_validators == 0) is_empty
    fail_if (eqb_ℤ c.epoch_length (pos 0)) is_empty
    fail_if (not (eqb_ℤ c.epoch_length (mul_int64 (v.whole_seconds c.epoch_length) second))) invalid
    fail_if (c.scaling == 0) is_empty
    check_ratios c
    tiny ← v.lt c.fee_percentage (v.dec_with_prec 1 16)
    fail_if tiny is_empty
    fail_if (eqb_ℤ c.offline_jail_duration (pos 0)) is_empty
    fail_if
        (not (
          eqb_ℤ c.offline_jail_duration
            (mul_int64 (v.whole_seconds c.offline_jail_duration) second)))
        invalid

  -- `time.Duration(uint64(d.Seconds()))*time.Second != d`
  abbrev pub is_whole : ℤ → Bool
  is_whole d = eqb_ℤ (mul_int64 (to_int64 (v.unsigned_seconds d)) second) d

  unfoldable pub validate_stake_config : StakeContractConfig → Outcome ⊤
  validate_stake_config c = do
    fail_if (c.min_bond == 0) is_empty
    fail_if (c.tokens_per_point == 0) is_empty
    fail_if (eqb_ℤ c.unbonding_period (pos 0)) is_empty
    fail_if (not (is_whole c.unbonding_period)) invalid

  unfoldable pub validate_voting_rules : VotingRules D → Outcome ⊤
  validate_voting_rules r = do
    fail_if (r.voting_period == 0) is_empty
    fail_on (nil_or r.quorum (v.lt r.quorum (v.new_dec 1)))
    fail_on (v.gt r.quorum (v.new_dec 100))
    fail_on (nil_or r.threshold (v.lt r.threshold (v.new_dec 50)))
    fail_on (v.gt r.threshold (v.new_dec 100))

  unfoldable pub check_name : String → Outcome ⊤
  check_name name = do
    fail_if (ltb (v.messages.byte_length name) min_name_length) is_empty
    fail_if (ltb max_name_length (v.messages.byte_length name)) invalid

  unfoldable pub check_escrow : UnbondAmount → Outcome ⊤
  check_escrow c = elim c.amount [
    | none ↦ panic
    | some n ↦ fail_if (leb_ℤ n min_escrow_amount) invalid
  ]

  -- An optional address; one that does not parse is invalid.
  unfoldable pub check_deny_list : String → Outcome ⊤
  check_deny_list t = if str_eq t "" then ok tt else elim (v.messages.acc_address_from_bech32 t) [
    | ok a ↦ ok tt
    | err e ↦ err invalid
    | panic ↦ panic
  ]

  unfoldable pub validate_oversight_config : OversightCommitteeContractConfig D → Outcome ⊤
  validate_oversight_config c = do
    check_name c.name
    check_escrow c.escrow_amount
    validate_voting_rules c.voting_rules
    check_deny_list c.deny_list_contract_address

  unfoldable pub validate_arbiter_config : ArbiterPoolContractConfig D → Outcome ⊤
  validate_arbiter_config c = do
    check_name c.name
    check_escrow c.escrow_amount
    validate_voting_rules c.voting_rules
    check_deny_list c.deny_list_contract_address
    fail_if (not (is_whole c.waiting_period)) invalid

  -- A nil or zero decimal is missing.
  unfoldable pub check_present : D → Outcome ⊤
  check_present d = nil_or d (v.is_zero_dec d) >>= λ b. fail_if b is_empty

  unfoldable pub validate_mixer_config : Option (Sigmoid D) → Outcome ⊤
  validate_mixer_config none = err invalid_genesis
  validate_mixer_config (some m) = do
    fail_if (m.max_points == 0) is_empty
    check_present m.s
    check_present m.p

  unfoldable pub validate_member : Member → Outcome ⊤
  validate_member m = do check_address m.address; fail_if (m.points == 0) invalid

  unfoldable pub validate_poe_contract : PoeContract → Outcome ⊤
  validate_poe_contract c = do check_address c.address; validate_contract_type c.contract_type

  unfoldable pub validate_params : Params → Outcome ⊤
  validate_params p = v.validate_coins p.min_delegation_amounts
