-- ===== src/Poe/Server.antt =====
-- x/poe/keeper/msg_server.go: the handlers of the module's messages. The state is the
-- event list of the transaction and the chain `W`; the consensus parameters, the rules of descriptions
-- and the texts of coins are parameters.
pub mod Executed
pub mod Creation
pub mod Updating
pub mod Dispatch
use tgrade.Base.{
  ℕ, ⊤, String, str_eq, Bool, true, false, not, ◌||◌, Option, none, some, List, [], ◌∷◌, ◌++◌,
  if◌then◌else◌, Outcome, ok, err, panic, fail_if, invalid_type, pub_key_type_not_supported,
  unknown_request, or_zero,
}
use tgrade.Base.Int.{ℤ}
use tgrade.Base.Coin.{Coin}
use tgrade.Poe.Registry.{get_poe_contract_address, staking, valset}
use tgrade.Poe.Engagement.{EngagementServices, set_validator_initial_engagement_points}
use tgrade.Poe.Unbonding.{Attribute, WasmEvent, UnbondAmount, Unbonder, unbond_delegation}
use tgrade.Poe.Messages.{
  Description, PubKey, PubKeyAny, MsgCreateValidator, MsgUpdateValidator, MsgDelegate,
  MsgUndelegate,
}
use tgrade.Poe.Adapter.{Querier, query_validator}
use tgrade.Poe.Contract.{
  Call, ◌>>=◌, ◌>>◌, pure, Executor, register_validator, update_validator_metadata, bond_delegation,
}

abbrev pub ServerState : Type 0 → Type 0
ServerState W = List WasmEvent × W

pub record ServerServices (W : Type 0) : Type 0 where
  pub acc_address_from_bech32 : String → Outcome ℕ
  pub ensure_length : Description → Outcome ⊤
  -- The key types of the consensus parameters, where these are set.
  pub pub_key_types : W → Option (List String)
  pub executor : Executor (ServerState W)
  pub engagement_services : EngagementServices (ServerState W)
  pub unbonder : ℕ → ℕ → Unbonder W
  -- `sdk.NewCoins` of one coin, the sum of two, and the coin with its amount set.
  pub new_coins : UnbondAmount → Outcome (List UnbondAmount)
  pub add : UnbondAmount → UnbondAmount → Outcome Coin
  pub amount_text : ℤ → String
  pub coin_text : UnbondAmount → String
  pub hex : List ℕ → String
  pub querier : Querier (ServerState W)
  pub update_description : Description → Description → Outcome Description

abbrev pub attribute : String → String → Attribute
attribute k t = record { key = k; value = t }

abbrev pub event : String → List Attribute → WasmEvent
event t attributes = record { event_type = t; attributes = attributes }

-- The event that names the module and the sender.
abbrev pub message_event : String → WasmEvent
message_event sender = event "message" (attribute "module" "poe" ∷ attribute "sender" sender ∷ [])

unfoldable pub string_in_slice : String → List String → Bool
string_in_slice t [] = false
string_in_slice t (s ∷ ss) = str_eq t s || string_in_slice t ss

-- The key that the message's `Any` was unpacked to: a nil `Any` is dereferenced.
unfoldable pub cached_key : Option PubKeyAny → Outcome PubKey
cached_key none = panic
cached_key (some a) = elim a.cached [ none ↦ err invalid_type | some pk ↦ ok pk ]

module _ {W : Type 0} (v : ServerServices W) where
  abbrev pub emit_events : List WasmEvent → Call (ServerState W) ⊤
  emit_events es (evts, w) = (ok tt, (evts ++ es, w))

  unfoldable pub contract_address : ℕ → Call (ServerState W) ℕ
  contract_address t s = (get_poe_contract_address t (v.engagement_services.registry s), s)

  unfoldable pub check_key_type : PubKey → Call (ServerState W) ⊤
  check_key_type pk (evts, w) = elim (v.pub_key_types w) [
    | none ↦ (ok tt, (evts, w))
    | some key_types ↦ (
      fail_if (not (string_in_slice pk.key_type key_types)) pub_key_type_not_supported,
      (evts, w),
    )
  ]

  unfoldable pub create_validator : MsgCreateValidator → Call (ServerState W) ⊤
  create_validator msg = do
    pk ← pure (cached_key msg.pubkey)
    pure (v.ensure_length msg.description)
    check_key_type pk
    valset_contract ← contract_address valset
    operator ← pure (v.acc_address_from_bech32 msg.operator_address)
    register_validator v.executor valset_contract pk operator msg.description
    staking_contract ← contract_address staking
    coins ← pure (v.new_coins msg.amount)
    bond_delegation v.executor staking_contract operator coins (some msg.vesting_amount)
    total ← pure (v.add msg.amount msg.vesting_amount)
    emit_events (
        message_event msg.operator_address
        ∷ event "create_validator" (
            attribute "operator" msg.operator_address
            ∷ attribute "moniker" msg.description.moniker
            ∷ attribute "pubkey" (v.hex pk.bytes)
            ∷ attribute "amount" (v.amount_text total.amount)
            ∷ [])
        ∷ [])
    set_validator_initial_engagement_points v.engagement_services operator total

  -- What the valset contract answers for the operator: a nil validator is dereferenced.
  unfoldable pub current_description : ℕ → Call (ServerState W) Description
  current_description operator s =
      let adapter = get_poe_contract_address valset (v.engagement_services.registry s) in
      elim (query_validator v.querier adapter operator s) [
        | ok found ↦ elim found [ none ↦ (panic, s) | some val ↦ (ok val.description, s) ]
        | err e ↦ (err e, s)
        | panic ↦ (panic, s)
      ]

  unfoldable pub update_validator : MsgUpdateValidator → Call (ServerState W) ⊤
  update_validator msg = do
    pure (v.ensure_length msg.description)
    valset_contract ← contract_address valset
    operator ← pure (v.acc_address_from_bech32 msg.operator_address)
    current ← current_description operator
    merged ← pure (v.update_description current msg.description)
    update_validator_metadata v.executor valset_contract operator merged
    emit_events (
        message_event msg.operator_address
        ∷ event "update_validator" (
            attribute "operator" msg.operator_address
            ∷ attribute "moniker" msg.description.moniker
            ∷ [])
        ∷ [])

  unfoldable pub delegate : MsgDelegate → Call (ServerState W) ⊤
  delegate msg = do
    operator ← pure (v.acc_address_from_bech32 msg.operator_address)
    staking_contract ← contract_address staking
    coins ← pure (v.new_coins msg.amount)
    bond_delegation v.executor staking_contract operator coins (some msg.vesting_amount)
    emit_events (
        message_event msg.operator_address
        ∷ event "delegate" (attribute "amount" (v.coin_text msg.amount) ∷ [])
        ∷ [])

  -- The answer is the completion time.
  unfoldable pub undelegate : MsgUndelegate → Call (ServerState W) ℤ
  undelegate msg = do
    operator ← pure (v.acc_address_from_bech32 msg.operator_address)
    staking_contract ← contract_address staking
    completed ← unbond_delegation (v.unbonder staking_contract operator) msg.amount
    emit_events (
        message_event msg.operator_address
        ∷ event "undelegate" (attribute "amount" (v.coin_text msg.amount) ∷ [])
        ∷ [])
    pure (ok completed)
