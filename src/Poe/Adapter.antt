-- ===== src/Poe/Adapter.antt =====
-- x/poe/contract: the adapters that query the contracts, of contractio.go, petri_valset.go, pt4_stake.go
-- and petri_distribution.go, and keeper/contracts.go that builds them. An adapter is the address of its
-- contract, or the error of the lookup. The JSON codec, the smart query of the wasm keeper and the texts
-- of addresses and numbers are parameters over a state `S`; a cursor is a text, empty at the end.
pub mod Pages
pub mod Stake
use tgrade.Base.{
  ℕ, zero, suc, ⊤, String, str_eq, Bool, true, false, not, ◌&&◌, Option, none, some, List, [], ◌∷◌,
  ◌++◌, map, if◌then◌else◌, Outcome, ok, err, panic, ◌>>=◌, ◌>>◌, or_err, is_some, fail_if,
  pub_key_type_not_supported, json_marshal, json_unmarshal, invalid_argument, ◌==◌, ◌*◌,
}
use tgrade.Base.Int.{ℤ, pos, to_int64, mul_int64, eqb_ℤ}
use tgrade.Base.Coin.{Coin}
use tgrade.Poe.Registry.{Registry, get_poe_contract_address}
use tgrade.Poe.Valset.{ValidatorPubkey, PublicKey, ed25519_key, secp256k1_key}
use tgrade.Poe.Messages.{Description}
use tgrade.Poe.Contract.{ValidatorMetadata, to_description}

pub data ContractQuery : Type 0 where
  config : ContractQuery
  validator : String → ContractQuery
  list_validators list_active_validators : String → ℤ → ContractQuery
  unbonding_period : ContractQuery
  reverse_proposals : ℕ → ContractQuery
  claims staked withdrawable_rewards : String → ContractQuery

pub record JailingPeriod : Type 0 where
  pub start : Option ℤ
  pub until : Option ℤ

pub record OperatorResponse : Type 0 where
  pub operator : String
  pub pubkey : ValidatorPubkey
  pub metadata : ValidatorMetadata
  pub jailed_until : Option JailingPeriod
  pub active_validator : Bool

pub record ValidatorInfo : Type 0 where
  pub operator : String
  pub validator_pubkey : ValidatorPubkey
  pub power : ℕ

-- The staking module's validator; its shares are always one.
pub record Validator : Type 0 where
  pub operator_address : String
  pub consensus_pubkey : PublicKey
  pub description : Description
  pub bonded : Bool
  pub jailed : Bool

-- A coin of the contract's answer: the amount is a text.
pub record WasmCoin : Type 0 where
  pub denom : String
  pub amount : String

pub record StakedAmounts : Type 0 where
  pub liquid : WasmCoin
  pub vesting : WasmCoin

pub record Claim : Type 0 where
  pub claim_amount : ℤ
  pub creation_height : ℕ
  pub release_at : ℕ

-- Times are nanoseconds.
pub record UnbondingEntry : Type 0 where
  pub initial_balance : ℤ
  pub completion_time : ℤ
  pub balance : ℤ
  pub entry_height : ℤ

pub record Querier (S : Type 0) : Type 0 where
  pub registry : S → Registry
  pub marshal : ContractQuery → Option (List ℕ)
  pub query_smart : ℕ → List ℕ → S → Outcome (List ℕ)
  pub address_text : ℕ → String
  pub new_int_from_string : String → Option ℤ
  -- `sdk.Int.Add`, which panics where the sum is too large.
  pub add_int : ℤ → ℤ → Outcome ℤ
  pub new_any_with_value : PublicKey → Outcome ⊤
  pub read_validator : List ℕ → Option (Option OperatorResponse)
  pub read_validators : List ℕ → Option (List OperatorResponse)
  -- The answers that were decoded into the same response before, the latest first, and the answer.
  pub read_active_validators : List (List ℕ) → List ℕ → Option (List ValidatorInfo)
  pub read_validator_group : List ℕ → Option String
  -- the ids of proposals
  pub read_proposals : List ℕ → Option (List ℕ)
  pub read_unbonding_period : List ℕ → Option ℕ
  pub read_staked : List ℕ → Option StakedAmounts
  pub read_claims : List ℕ → Option (List Claim)
  pub read_rewards : List ℕ → Option Coin

-- The cursor of a walk over pages, with the answers that its response was decoded from so far, the latest
-- first: what an answer leaves out keeps the value that an earlier one gave it.
abbrev pub WalkCursor : Type 0
WalkCursor = String × List (List ℕ)

pub record Paginator : Type 0 where
  pub start_after : String
  pub limit : ℕ

pub record PageRequest : Type 0 where
  pub key : String
  pub offset : ℕ
  pub page_limit : ℕ
  pub count_total : Bool

unfoldable pub new_paginator : Option PageRequest → Outcome (Option Paginator)
new_paginator none = ok none
new_paginator (some pag) =
    if not (pag.offset == 0)
    then err invalid_argument
    else if pag.count_total
    then err invalid_argument
    else ok (some (record { start_after = pag.key; limit = pag.page_limit }))

unfoldable pub to_query : Option Paginator → String × ℤ
to_query none = ("", pos 0)
to_query (some p) = (p.start_after, to_int64 p.limit)

-- The cursor after a page: the operator of its last entry.
unfoldable pub pagination_cursor : List String → String
pagination_cursor [] = ""
pagination_cursor (o ∷ os) = elim os [ [] ↦ o | x ∷ xs ↦ pagination_cursor os ]

unfoldable pub to_cosmos_pub_key : ValidatorPubkey → Outcome PublicKey
to_cosmos_pub_key key = elim key.ed25519 [
  | some k ↦ ok (ed25519_key k)
  | none ↦ elim key.secp256k1 [
    | some k ↦ ok (secp256k1_key k)
    | none ↦ err pub_key_type_not_supported
  ]
]

unfoldable pub to_unbonding_entry : Claim → UnbondingEntry
to_unbonding_entry c = record {
  initial_balance = c.claim_amount;
  completion_time = to_int64 c.release_at;
  balance = c.claim_amount;
  entry_height = to_int64 c.creation_height;
}

module _ {S : Type 0} (q : Querier S) where
  -- The adapter of a contract type.
  unfoldable pub contract_of : ℕ → S → Outcome ℕ
  contract_of t s = get_poe_contract_address t (q.registry s)

  -- The package's `doQuery`, at an address.
  unfoldable pub query_contract :
      {A : Type 0} → (List ℕ → Option A) → ℕ → ContractQuery → S → Outcome A
  query_contract read a query s = do
    bz ← or_err (q.marshal query) json_marshal
    res ← q.query_smart a bz s
    or_err (read res) json_unmarshal

  -- The adapter's `doQuery`: an error of the lookup comes first.
  unfoldable pub do_query :
      {A : Type 0} → (List ℕ → Option A) → Outcome ℕ → ContractQuery → S → Outcome A
  do_query read adapter query s = adapter >>= λ a. query_contract read a query s

  unfoldable pub to_validator : OperatorResponse → Outcome Validator
  to_validator v = do
    key ← to_cosmos_pub_key v.pubkey
    q.new_any_with_value key
    ok (record {
      operator_address = v.operator;
      consensus_pubkey = key;
      description = to_description v.metadata;
      bonded = v.active_validator;
      jailed = is_some v.jailed_until;
    })

  unfoldable pub query_validator : Outcome ℕ → ℕ → S → Outcome (Option Validator)
  query_validator adapter op s = do
    found ← do_query q.read_validator adapter (validator (q.address_text op)) s
    elim found [ none ↦ ok none | some v ↦ to_validator v >>= λ val. ok (some val) ]

  -- The loop of `ListValidators`.
  unfoldable pub to_validators : List OperatorResponse → Outcome (List Validator)
  to_validators [] = ok []
  to_validators (v ∷ vs) =
      let rest = to_validators vs in to_validator v >>= λ val. rest >>= λ vals. ok (val ∷ vals)

  unfoldable pub list_page : Outcome ℕ → Option Paginator → S → Outcome (List Validator × String)
  list_page adapter pagination s =
      let (start_after, limit) = to_query pagination in
      do
        rsp ← do_query q.read_validators adapter (list_validators start_after limit) s
        vals ← to_validators rsp
        ok (vals, pagination_cursor (map (λ (v : OperatorResponse). v.operator) rsp))

  -- An answer, decoded into the response that earlier answers were decoded into.
  abbrev decode_again : List (List ℕ) → List ℕ → Option (List ValidatorInfo × List (List ℕ))
  decode_again seen res = elim (q.read_active_validators seen res) [
    | none ↦ none
    | some rsp ↦ some (rsp, res ∷ seen)
  ]

  unfoldable pub active_page :
      Outcome ℕ → WalkCursor → ℤ → S → Outcome (List ValidatorInfo × WalkCursor)
  active_page adapter (start_after, seen) limit s = do
    (rsp, answers) ←
        do_query (decode_again seen) adapter (list_active_validators start_after limit) s
    ok (rsp, (pagination_cursor (map (λ (v : ValidatorInfo). v.operator) rsp), answers))

  -- `QueryConfig`: of the configuration only the validator group is read.
  unfoldable pub query_validator_group : Outcome ℕ → S → Outcome String
  query_validator_group adapter s = do_query q.read_validator_group adapter config s

  unfoldable pub latest_proposal : Outcome ℕ → S → Outcome (Option ℕ)
  latest_proposal adapter s = do
    ids ← do_query q.read_proposals adapter (reverse_proposals 1) s
    ok (elim ids [ [] ↦ none | i ∷ is ↦ some i ])

  -- Seconds of the contract, a uint64, as a duration.
  unfoldable pub query_staking_unbonding_period : Outcome ℕ → S → Outcome ℤ
  query_staking_unbonding_period adapter s =
      do_query q.read_unbonding_period adapter unbonding_period s >>= λ seconds.
      ok (mul_int64 (to_int64 seconds) (pos 1000000000))

  -- The error of the lookup is not read: `at` is the address that the adapter has then, the empty one
  -- after an error. An amount that is no integer gives the error `nil`.
  unfoldable pub query_staked_amount : ℕ → ℕ → S → Outcome (Option ℤ)
  query_staked_amount at op s = do
    resp ← query_contract q.read_staked at (staked (q.address_text op)) s
    elim (q.new_int_from_string resp.liquid.amount) [
      | none ↦ ok none
      | some liquid ↦ elim (q.new_int_from_string resp.vesting.amount) [
        | none ↦ ok none
        | some vesting ↦
            if eqb_ℤ liquid (pos 0) && eqb_ℤ vesting (pos 0)
            then ok none
            else q.add_int liquid vesting >>= λ sum. ok (some sum)
      ]
    ]

  unfoldable pub query_staking_unbonding : Outcome ℕ → ℕ → S → Outcome (List UnbondingEntry)
  query_staking_unbonding adapter op s =
      do_query q.read_claims adapter (claims (q.address_text op)) s >>= λ cs.
      ok (map to_unbonding_entry cs)

  unfoldable pub validator_outstanding_reward : Outcome ℕ → ℕ → S → Outcome Coin
  validator_outstanding_reward adapter op s =
      do_query q.read_rewards adapter (withdrawable_rewards (q.address_text op)) s
