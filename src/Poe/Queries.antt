-- ===== src/Poe/Queries.antt =====
-- x/poe/keeper/querier.go and legacy_staking_querier.go: the gRPC queries of the module and those that
-- answer for the staking module. A request is `none` where the pointer is nil; an error with a status
-- code is the constructor named for the code.
pub mod Delegations
use tgrade.Base.{
  ℕ, ⊤, String, str_eq, Bool, true, false, not, Option, none, some, List, [], ◌∷◌, if◌then◌else◌,
  Outcome, ok, err, panic, ◌>>=◌, ◌>>◌, fail_if, Error, invalid_argument, not_found, poe_not_found,
  status_not_found, status_internal, status_unimplemented,
}
use tgrade.Base.Int.{ℤ}
use tgrade.Base.Coin.{Coin}
use tgrade.Poe.History.{Infos, get_historical_info}
use tgrade.Poe.Registry.{get_poe_contract_address, valset, staking, distribution}
use tgrade.Poe.Adapter.{
  Validator, UnbondingEntry, PageRequest, new_paginator, contract_of, list_page, query_validator,
  query_staking_unbonding_period, query_staking_unbonding, validator_outstanding_reward,
}
use tgrade.Poe.Plugin.{PluginServices, bond_denom, staked_amount}

abbrev pub with_status : {A : Type 0} → Error → Outcome A → Outcome A
with_status status (ok a) = ok a
with_status status (err e) = err status
with_status status panic = panic

abbrev pub is_not_found : Error → Bool
is_not_found not_found = true
is_not_found e = false

abbrev pub is_poe_not_found : Error → Bool
is_poe_not_found poe_not_found = true
is_poe_not_found e = false

abbrev pub is_status_not_found : Error → Bool
is_status_not_found status_not_found = true
is_status_not_found e = false

-- The balance of an operator that delegates to itself.
pub record DelegationResponse : Type 0 where
  pub address : String
  pub balance : Coin

-- `NewCoin`, `NewDecCoin` with its amount as it is, and the stored headers.
pub record QueryServices (H S : Type 0) : Type 0 where
  pub new_coin : String → ℤ → Outcome Coin
  pub new_dec_coin : Coin → Outcome Coin
  pub infos : S → Infos H

module _ {H S : Type 0} (v : PluginServices S) (d : QueryServices H S) (s : S) where
  unfoldable pub contract_address_query : Option ℕ → Outcome String
  contract_address_query none = err invalid_argument
  contract_address_query (some t) = elim (get_poe_contract_address t (v.querier.registry s)) [
    | ok a ↦ ok (v.querier.address_text a)
    | err e ↦ if is_not_found e then err status_not_found else err status_internal
    | panic ↦ panic
  ]

  -- A status and the pagination; the answer has the next key, unless the cursor is empty.
  unfoldable pub validators_query :
      Option (String × Option PageRequest) → Outcome (List Validator × Option String)
  validators_query none = err invalid_argument
  validators_query (some (status, pagination)) = do
    fail_if (not (str_eq status "")) status_unimplemented
    paginator ← new_paginator pagination
    page ←
        with_status status_internal
          (list_page v.querier (contract_of v.querier valset s) paginator s)
    ok (page.0, if str_eq page.1 "" then none else some page.1)

  unfoldable pub validator_by_address : Option String → Outcome Validator
  validator_by_address none = err invalid_argument
  validator_by_address (some address) = do
    fail_if (str_eq address "") invalid_argument
    op ← v.acc_address_from_bech32 address
    found ←
        with_status status_internal
          (query_validator v.querier (contract_of v.querier valset s) op s)
    elim found [ none ↦ err status_not_found | some val ↦ ok val ]

  unfoldable pub unbonding_period_query : Option ⊤ → Outcome ℤ
  unbonding_period_query none = err invalid_argument
  unbonding_period_query (some o) =
      with_status status_internal
        (query_staking_unbonding_period v.querier (contract_of v.querier staking s) s)

  unfoldable pub validator_delegation : Option String → Outcome Coin
  validator_delegation none = err invalid_argument
  validator_delegation (some address) = do
    op ← with_status invalid_argument (v.acc_address_from_bech32 address)
    amount ← with_status status_internal (staked_amount v s op)
    elim amount [ none ↦ err status_not_found | some n ↦ d.new_coin bond_denom n ]

  unfoldable pub validator_unbonding_delegations : Option String → Outcome (List UnbondingEntry)
  validator_unbonding_delegations none = err invalid_argument
  validator_unbonding_delegations (some address) = do
    op ← with_status invalid_argument (v.acc_address_from_bech32 address)
    with_status status_internal
        (query_staking_unbonding v.querier (contract_of v.querier staking s) op s)

  unfoldable pub historical_info_query : Option ℕ → Outcome H
  historical_info_query none = err invalid_argument
  historical_info_query (some height) = elim (get_historical_info height (d.infos s)) [
    | none ↦ err status_not_found
    | some hi ↦ ok hi
  ]

  unfoldable pub outstanding_reward_query : Option String → Outcome Coin
  outstanding_reward_query none = err invalid_argument
  outstanding_reward_query (some address) = do
    fail_if (str_eq address "") invalid_argument
    op ← with_status invalid_argument (v.acc_address_from_bech32 address)
    reward ←
        elim (validator_outstanding_reward v.querier (contract_of v.querier distribution s) op s) [
          | ok c ↦ ok c
          | err e ↦ if is_poe_not_found e then err status_not_found else err status_internal
          | panic ↦ panic
        ]
    d.new_dec_coin reward

  -- The queries of the staking module. Of an unbonding delegation, which the code wraps with its address,
  -- the entries are the answer.
  unfoldable pub validator_delegations : Option String → Outcome (List DelegationResponse)
  validator_delegations none = err invalid_argument
  validator_delegations (some address) = elim (validator_delegation (some address)) [
    | ok c ↦ ok (record { address = address; balance = c } ∷ [])
    | err e ↦ if is_status_not_found e then ok [] else err e
    | panic ↦ panic
  ]

  -- The delegator and the validator.
  unfoldable pub delegation : Option (String × String) → Outcome DelegationResponse
  delegation none = err invalid_argument
  delegation (some (delegator, operator)) = do
    fail_if (str_eq delegator "") invalid_argument
    fail_if (str_eq operator "") invalid_argument
    fail_if (not (str_eq operator delegator)) status_not_found
    responses ← validator_delegations (some operator)
    elim responses [ [] ↦ err status_not_found | r ∷ rs ↦ ok r ]

  unfoldable pub delegator_delegations : Option String → Outcome (List DelegationResponse)
  delegator_delegations none = err invalid_argument
  delegator_delegations (some delegator) = do
    fail_if (str_eq delegator "") invalid_argument
    validator_delegations (some delegator)

  unfoldable pub unbonding_delegation : Option (String × String) → Outcome (List UnbondingEntry)
  unbonding_delegation none = err invalid_argument
  unbonding_delegation (some (delegator, operator)) = do
    fail_if (str_eq delegator "") invalid_argument
    fail_if (str_eq operator "") invalid_argument
    fail_if (not (str_eq operator delegator)) status_not_found
    validator_unbonding_delegations (some operator)

  unfoldable pub delegator_unbonding_delegations : Option String → Outcome (List UnbondingEntry)
  delegator_unbonding_delegations none = err invalid_argument
  delegator_unbonding_delegations (some delegator) = do
    fail_if (str_eq delegator "") invalid_argument
    validator_unbonding_delegations (some delegator)

  unfoldable pub delegator_validators : Option String → Outcome (List Validator)
  delegator_validators none = err invalid_argument
  delegator_validators (some delegator) = do
    val ← validator_by_address (some delegator)
    ok (val ∷ [])
