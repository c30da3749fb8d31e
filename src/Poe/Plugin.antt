-- ===== src/Poe/Plugin.antt =====
-- x/poe/wasm/query_plugin.go: the queries that contracts send. Staking queries are answered from the
-- contracts of the module, custom queries from its addresses and from the votes of the last commit. The
-- JSON codec and the SDK's integers are parameters; the loop over the validators takes fuel, and
-- `none` says that it ran out.
pub mod Queries
use tgrade.Base.{
  ℕ, zero, suc, ⊤, String, str_eq, Bool, true, false, not, ◌&&◌, ◌||◌, Option, none, some, List, [],
  ◌∷◌, ◌++◌, map, if◌then◌else◌, Outcome, ok, err, panic, ◌>>=◌, ◌>>◌, ◌==◌, invalid_address,
  unsupported_request, or_zero, is_some,
}
use tgrade.Base.Int.{ℤ, pos, ltb_ℤ, to_uint64}
use tgrade.Base.Coin.{Coin}
use tgrade.Poe.Registry.{staking, valset, distribution, contract_type_from}
use tgrade.Poe.Adapter.{
  Querier, Paginator, Validator, contract_of, list_page, query_validator, query_staked_amount,
  validator_outstanding_reward,
}

-- A request of the wasm module, of which one field should be set.
pub record StakingQuery : Type 0 where
  pub bonded_denom : Bool
  pub all_validators : Bool
  pub validator : Option String
  pub all_delegations : Option String
  pub delegation : Option (String × String)

-- A coin with a uint64 amount.
pub record QueryCoin : Type 0 where
  pub amount : ℕ
  pub denom : String

pub record WasmValidator : Type 0 where
  pub address : String
  pub commission : String
  pub max_commission : String
  pub max_change_rate : String

pub record Delegation : Type 0 where
  pub delegator : String
  pub validator : String
  pub amount : QueryCoin

pub record FullDelegation : Type 0 where
  pub delegator : String
  pub validator : String
  pub amount : QueryCoin
  pub can_redelegate : QueryCoin
  pub accumulated_rewards : List QueryCoin

pub data StakingResponse : Type 0 where
  bonded_denom_response : String → StakingResponse
  all_validators_response : List WasmValidator → StakingResponse
  validator_response : Option WasmValidator → StakingResponse
  all_delegations_response : List Delegation → StakingResponse
  delegation_response : Option FullDelegation → StakingResponse

pub record VoteInfo : Type 0 where
  pub address : ℕ
  pub power : ℤ
  pub signed_last_block : Bool

pub record ValidatorVote : Type 0 where
  pub addr : ℕ
  pub vote_power : ℕ
  pub voted : Bool

pub data CustomResponse : Type 0 where
  contract_addr_response : ℕ → CustomResponse
  validator_votes_response : List ValidatorVote → CustomResponse

-- `PetriQuery`
pub record PetriQuery : Type 0 where
  pub poe_contract_address : Option String
  pub validator_votes : Bool

pub record PluginServices (S : Type 0) : Type 0 where
  pub querier : Querier S
  pub acc_address_from_bech32 : String → Outcome ℕ
  pub zero_dec : String
  -- `Int.Uint64`, which panics out of range.
  pub uint64 : ℤ → Outcome ℕ
  -- The address of an adapter whose lookup failed.
  pub nil_address : ℕ
  pub votes : S → List VoteInfo
  pub marshal_staking : StakingResponse → Outcome (List ℕ)
  pub marshal_custom : CustomResponse → Outcome (List ℕ)

-- `GetBondDenom` of keeper.go.
abbrev pub bond_denom : String
bond_denom = "ufury"

-- An address that does not parse is an error of its own.
abbrev pub or_invalid : Outcome ℕ → Outcome ℕ
or_invalid (ok a) = ok a
or_invalid (err e) = err invalid_address
or_invalid panic = panic

module _ {S : Type 0} (v : PluginServices S) (s : S) where
  unfoldable pub to_wasm : String → WasmValidator
  to_wasm operator = record {
    address = operator;
    commission = v.zero_dec;
    max_commission = v.zero_dec;
    max_change_rate = v.zero_dec;
  }

  -- The pages of the valset contract, from a paginator.
  abbrev pub validators_page : String → Outcome (List Validator × String)
  validators_page start_after =
      list_page v.querier (contract_of v.querier valset s)
        (some (record { start_after = start_after; limit = 0 })) s

  -- The loop over the pages.
  unfoldable pub collect_validators :
      ℕ → String → List WasmValidator → Option (Outcome (List WasmValidator))
  collect_validators zero start_after acc = none
  collect_validators (suc fuel) start_after acc = elim (validators_page start_after) [
    | err e ↦ some (err e)
    | panic ↦ some panic
    | ok (batch, cursor) ↦
        let acc' = acc ++ map (λ (val : Validator). to_wasm val.operator_address) batch in
        let rest = collect_validators fuel cursor acc' in
        if str_eq cursor "" then some (ok acc') else rest
  ]

  -- The staked amount as the adapter reads it, whether or not the address is known.
  unfoldable pub staked_amount : ℕ → Outcome (Option ℤ)
  staked_amount op =
      let adapter = contract_of v.querier staking s in
      let at : ℕ = elim adapter [ ok a ↦ a | err e ↦ v.nil_address | panic ↦ v.nil_address ] in
      query_staked_amount v.querier at op s

  unfoldable pub validator_query : String → Outcome StakingResponse
  validator_query address = do
    val_addr ← v.acc_address_from_bech32 address
    found ← query_validator v.querier (contract_of v.querier valset s) val_addr s
    ok (
        validator_response
          (elim found [ none ↦ none | some val ↦ some (to_wasm val.operator_address) ]))

  unfoldable pub all_delegations_query : String → Outcome StakingResponse
  all_delegations_query address = do
    delegator ← or_invalid (v.acc_address_from_bech32 address)
    amount ← staked_amount delegator
    elim amount [
      | none ↦ ok (all_delegations_response [])
      | some n ↦ do
        tokens ← v.uint64 n
        let text = v.querier.address_text delegator
        ok (
            all_delegations_response (
              record {
                delegator = text;
                validator = text;
                amount = record { amount = tokens; denom = bond_denom };
              }
              ∷ []))
    ]

  -- The answer for a validator's delegation to itself.
  unfoldable pub full_delegation : ℕ → ℤ → Coin → Outcome (Option FullDelegation)
  full_delegation delegator amount reward =
      if ltb_ℤ (pos 0) amount || ltb_ℤ (pos 0) reward.amount
      then (do
        tokens ← v.uint64 amount
        rewards ← v.uint64 reward.amount
        let text = v.querier.address_text delegator
        ok (
            some (record {
              delegator = text;
              validator = text;
              amount = record { amount = tokens; denom = bond_denom };
              can_redelegate = record { amount = 0; denom = bond_denom };
              accumulated_rewards = record { amount = rewards; denom = reward.denom } ∷ [];
            })))
      else ok none

  unfoldable pub delegation_query : String → String → Outcome StakingResponse
  delegation_query delegator_text validator_text = do
    delegator ← or_invalid (v.acc_address_from_bech32 delegator_text)
    operator ← or_invalid (v.acc_address_from_bech32 validator_text)
    if not (delegator == operator) then ok (delegation_response none) else (do
      amount ← staked_amount delegator
      reward ←
          validator_outstanding_reward v.querier (contract_of v.querier distribution s) delegator s
      found ← full_delegation delegator (or_zero (pos 0) amount) reward
      ok (delegation_response found))

  -- `StakingQuerier`: the first field that is set decides.
  unfoldable pub staking_response : ℕ → StakingQuery → Option (Outcome StakingResponse)
  staking_response fuel request =
      if request.bonded_denom
      then some (ok (bonded_denom_response bond_denom))
      else if request.all_validators
      then elim (collect_validators fuel "" []) [
        | none ↦ none
        | some vals ↦ some (vals >>= λ vs. ok (all_validators_response vs))
      ]
      else elim request.validator [
        | some address ↦ some (validator_query address)
        | none ↦ elim request.all_delegations [
          | some address ↦ some (all_delegations_query address)
          | none ↦ elim request.delegation [
            | some (delegator, operator) ↦ some (delegation_query delegator operator)
            | none ↦ some (err unsupported_request)
          ]
        ]
      ]

  unfoldable pub staking_querier : ℕ → StakingQuery → Option (Outcome (List ℕ))
  staking_querier fuel request = elim (staking_response fuel request) [
    | none ↦ none
    | some r ↦ some (r >>= v.marshal_staking)
  ]

  unfoldable pub handle_validator_votes_query : Outcome (List ℕ)
  handle_validator_votes_query = v.marshal_custom (
      validator_votes_response (
        map
          (λ (i : VoteInfo). record {
            addr = i.address;
            vote_power = to_uint64 i.power;
            voted = i.signed_last_block;
          })
          (v.votes s)))

  unfoldable pub handle_poe_contract_address_query : String → Outcome (List ℕ)
  handle_poe_contract_address_query name = do
    a ← contract_of v.querier (contract_type_from name) s
    v.marshal_custom (contract_addr_response a)

  -- `CustomQuerier` past the JSON decoder.
  unfoldable pub custom_querier : PetriQuery → Outcome (List ℕ)
  custom_querier query = elim query.poe_contract_address [
    | some name ↦ handle_poe_contract_address_query name
    | none ↦ if query.validator_votes then handle_validator_votes_query else err unsupported_request
  ]
