-- ===== src/Poe/Server/Creation.antt =====
-- What the creation of a validator executes, and when, x/poe/keeper/msg_server.go.
use tgrade.Base.{
  none, ℕ, String, ◌≡◌, true, false, ◌⊎◌, inl, inr, some, List, [], ◌∷◌, ◌++◌, ok, err, is_ok,
  arith, ok-cases, bind-cases, Option-cases, Bool-cases, subst, str_eq, eq_iff,
  pub_key_type_not_supported,
}
use tgrade.Base.Coin.{Coin}
use tgrade.Poe.Registry.{get_poe_contract_address, staking, valset}
use tgrade.Poe.Engagement.{set_validator_initial_engagement_points}
use tgrade.Poe.Engagement.Initial.{Grants, set_validator_initial_engagement_points-Grants}
use tgrade.Poe.Valset.{ValidatorPubkey}
use tgrade.Poe.Unbonding.{WasmEvent, UnbondAmount}
use tgrade.Poe.Messages.{PubKey, PubKeyAny, MsgCreateValidator}
use tgrade.Poe.Contract.{register_validator_key, bond, register_validator, bond_delegation}
use tgrade.Poe.Server.Executed.{
  Executes, metadata_of, IsKeyOf, register_validator-Executes, bond_delegation-Executes,
}
use tgrade.Poe.Server.{
  ServerState, ServerServices, message_event, event, attribute, string_in_slice, contract_address,
  cached_key, check_key_type, create_validator,
}

-- The text is one of the list.
abbrev pub IsAmong : String → List String → Type 0
IsAmong t [] = ⊥
IsAmong t (x ∷ xs) = (t ≡ x) ⊎ IsAmong t xs

string_in_slice-IsAmong :
    (t : String) (xs : List String) → string_in_slice t xs ≡ true → IsAmong t xs
unfolding string_in_slice
string_in_slice-IsAmong t [] h = absurd (ground (arith, h))
string_in_slice-IsAmong t (x ∷ xs) h = elim (Bool-cases (str_eq t x)) [
  | inl e ↦ inl ((eq_iff t x).0 e)
  | inr e ↦ inr (string_in_slice-IsAmong t xs (ground (arith, e, h)))
]

module _ {W : Type 0} (v : ServerServices W) (msg : MsgCreateValidator) (s : ServerState W) where
  -- The events of a created validator.
  abbrev pub created_events : PubKey → Coin → List WasmEvent
  created_events pk total =
      message_event msg.operator_address
      ∷ event "create_validator" (
          attribute "operator" msg.operator_address
          ∷ attribute "moniker" msg.description.moniker
          ∷ attribute "pubkey" (v.hex pk.bytes)
          ∷ attribute "amount" (v.amount_text total.amount)
          ∷ [])
      ∷ []

  -- The key is of a type that the consensus parameters list, where these are set.
  abbrev pub IsAllowed : PubKey → Type 0
  IsAllowed pk =
      (v.pub_key_types s.1 ≡ none)
      ⊎ ((key_types : List String) × (v.pub_key_types s.1 ≡ some key_types)
          × IsAmong pk.key_type key_types)

  -- The key that the message holds.
  abbrev pub Holds : PubKey → Type 0
  Holds pk = (any : PubKeyAny) × (msg.pubkey ≡ some any) × (any.cached ≡ some pk)

  abbrev pub Creates : ServerState W → Type 0
  Creates s' =
      (pk : PubKey) × (valset_contract : ℕ) × (operator : ℕ) × (staking_contract : ℕ)
      × (key : ValidatorPubkey) × (funds : List UnbondAmount) × (total : Coin) × (s₁ : ServerState
          W)
      × (s₂ : ServerState W) × Holds pk
      × (v.ensure_length msg.description ≡ ok tt)
      × IsAllowed pk
      × (get_poe_contract_address valset (v.engagement_services.registry s) ≡ ok valset_contract)
      × (v.acc_address_from_bech32 msg.operator_address ≡ ok operator)
      × IsKeyOf pk key
      × Executes v.executor valset_contract operator
          (register_validator_key key (metadata_of msg.description)) [] s s₁
      × (get_poe_contract_address staking (v.engagement_services.registry s₁) ≡ ok staking_contract)
      × (v.new_coins msg.amount ≡ ok funds)
      × Executes v.executor staking_contract operator (bond (some msg.vesting_amount)) funds s₁ s₂
      × (v.add msg.amount msg.vesting_amount ≡ ok total)
      × Grants v.engagement_services operator total (s₂.0 ++ created_events pk total, s₂.1)
          (ok tt, s')

  IsAllowed-cases :
      (pk : PubKey)
      → ((check_key_type v pk s ≡ (ok tt, s)) × IsAllowed pk)
        ⊎ (is_ok (check_key_type v pk s).0 ≡ false)
  unfolding check_key_type
  IsAllowed-cases pk = elim (Option-cases (v.pub_key_types s.1)) [
    | inl unset ↦ inl (ground (arith, unset), inl unset)
    | inr (key_types, e) ↦ elim (Bool-cases (string_in_slice pk.key_type key_types)) [
      | inl there ↦ inl (
        ground (arith, e, there),
        inr (key_types, e, string_in_slice-IsAmong pk.key_type key_types there),
      )
      | inr missing ↦ inr (ground (arith, e, missing))
    ]
  ]

  Holds-cases : (pk : PubKey) → cached_key msg.pubkey ≡ ok pk → Holds pk
  unfolding cached_key
  Holds-cases pk h = elim (Option-cases msg.pubkey) [
    | inl e ↦ absurd (ground (arith, e, h))
    | inr (any, e) ↦ elim (Option-cases any.cached) [
      | inl e' ↦ absurd (ground (arith, e, e', h))
      | inr (found, e') ↦ (any, e, ground (arith, e, e', h))
    ]
  ]

  -- What the steps of a creation that succeeds have executed.
  finished :
      (s' : ServerState W) (pk : PubKey)
      → cached_key msg.pubkey ≡ ok pk
      → v.ensure_length msg.description ≡ ok tt
      → IsAllowed pk
      → (vc : ℕ) → get_poe_contract_address valset (v.engagement_services.registry s) ≡ ok vc
      → (op : ℕ) → v.acc_address_from_bech32 msg.operator_address ≡ ok op
      → (sc : ℕ) (funds : List UnbondAmount) (total : Coin) (s₁ s₂ : ServerState W)
      → register_validator v.executor vc pk op msg.description s ≡ (ok tt, s₁)
      → get_poe_contract_address staking (v.engagement_services.registry s₁) ≡ ok sc
      → v.new_coins msg.amount ≡ ok funds
      → bond_delegation v.executor sc op funds (some msg.vesting_amount) s₁ ≡ (ok tt, s₂)
      → v.add msg.amount msg.vesting_amount ≡ ok total
      → set_validator_initial_engagement_points v.engagement_services op total
          (s₂.0 ++ created_events pk total, s₂.1)
        ≡ (ok tt, s')
      → Creates s'
  finished s' pk key short allowed vc found op parsed sc funds total s₁ s₂ registered found' c
        bonded sum granted =
      let (sent, is_key, executed) =
        register_validator-Executes v.executor vc op s s₁ pk msg.description registered in
      let after : ServerState W = (s₂.0 ++ created_events pk total, s₂.1) in
      (
        pk,
        vc,
        op,
        sc,
        sent,
        funds,
        total,
        s₁,
        s₂,
        Holds-cases pk key,
        short,
        allowed,
        found,
        parsed,
        is_key,
        executed,
        found',
        c,
        bond_delegation-Executes v.executor sc op s₁ s₂ funds (some msg.vesting_amount) bonded,
        sum,
        subst (Grants v.engagement_services op total after) granted
            (set_validator_initial_engagement_points-Grants v.engagement_services op total after),
      )

  -- Past the checks of the message: the validator is registered, then the stake is bonded.
  execute_all :
      (s' : ServerState W) (pk : PubKey)
      → cached_key msg.pubkey ≡ ok pk
      → v.ensure_length msg.description ≡ ok tt
      → check_key_type v pk s ≡ (ok tt, s)
      → IsAllowed pk
      → (vc : ℕ) → get_poe_contract_address valset (v.engagement_services.registry s) ≡ ok vc
      → (op : ℕ) → v.acc_address_from_bech32 msg.operator_address ≡ ok op
      → create_validator v msg s ≡ (ok tt, s')
      → Creates s'
  unfolding create_validator contract_address
  execute_all s' pk key short checked allowed vc found op parsed h =
      elim (bind-cases (register_validator v.executor vc pk op msg.description s)) [
        | inr bad ↦ absurd (ground (arith, key, short, checked, found, parsed, bad))
        | inl (o₁, s₁, registered) ↦
            elim (ok-cases (get_poe_contract_address staking (v.engagement_services.registry s₁))) [
              | inr bad ↦
                  absurd (ground (arith, key, short, checked, found, parsed, registered, bad))
              | inl (sc, found') ↦ elim (ok-cases (v.new_coins msg.amount)) [
                | inr bad ↦
                    absurd
                      (ground (arith, key, short, checked, found, parsed, registered, found', bad))
                | inl (coins, c) ↦
                    elim (bind-cases
                      (bond_delegation v.executor sc op coins (some msg.vesting_amount) s₁)) [
                        | inr bad ↦ absurd (
                            ground (
                              arith, key, short, checked, found, parsed, registered, found', c, bad,
                            ))
                        | inl (o₂, s₂, bonded) ↦
                            elim (ok-cases (v.add msg.amount msg.vesting_amount)) [
                              | inr bad ↦ absurd (
                                  ground (
                                    arith, key, short, checked, found, parsed, registered, found',
                                    c, bonded, bad,
                                  ))
                              | inl (total, sum) ↦
                                  finished s' pk key short allowed vc found op parsed sc coins total
                                    s₁ s₂ registered found' c bonded sum
                                    (ground (
                                      arith, key, short, checked, found, parsed, registered, found',
                                      c, bonded, sum,
                                    ))
                            ]
                      ]
              ]
            ]
      ]

  created : (s' : ServerState W) → create_validator v msg s ≡ (ok tt, s') → Creates s'
  unfolding create_validator contract_address
  created s' h = elim (ok-cases (cached_key msg.pubkey)) [
    | inr bad ↦ absurd (ground (arith, bad))
    | inl (pk, key) ↦ elim (ok-cases (v.ensure_length msg.description)) [
      | inr bad ↦ absurd (ground (arith, key, bad))
      | inl (o, short) ↦ elim (IsAllowed-cases pk) [
        | inr bad ↦ absurd (ground (arith, key, short, bad))
        | inl (checked, allowed) ↦
            elim (ok-cases (get_poe_contract_address valset (v.engagement_services.registry s))) [
              | inr bad ↦ absurd (ground (arith, key, short, checked, bad))
              | inl (vc, found) ↦ elim (ok-cases (v.acc_address_from_bech32 msg.operator_address)) [
                | inr bad ↦ absurd (ground (arith, key, short, checked, found, bad))
                | inl (op, parsed) ↦
                    execute_all s' pk key short checked allowed vc found op parsed h
              ]
            ]
      ]
    ]
  ]

  -- Where the creation of a validator succeeds, its description passed and its key was, where the
  -- consensus parameters list key types, of one of these types. The valset contract was executed by the
  -- operator with the registration of that key, under the name of its type, and of all fields of the
  -- description; in the state after that, the staking contract was executed by the operator with the
  -- message to bond, which holds the vesting amount, and with the liquid amount as funds. Then the events
  -- were added, and the rule for initial engagement points was applied to the sum of the two amounts.
  pub create_validator-Creates :
      (s' : ServerState W) → create_validator v msg s ≡ (ok tt, s') → Creates s'
  create_validator-Creates s' h = created s' h

  -- A key of a type that the consensus parameters do not list is refused with no write.
  pub create_validator-check_key_type :
      (pk : PubKey) (key_types : List String)
      → cached_key msg.pubkey ≡ ok pk
      → v.ensure_length msg.description ≡ ok tt
      → v.pub_key_types s.1 ≡ some key_types
      → string_in_slice pk.key_type key_types ≡ false
      → create_validator v msg s ≡ (err pub_key_type_not_supported, s)
  unfolding create_validator check_key_type
  create_validator-check_key_type pk key_types key short e missing =
      ground (arith, key, short, e, missing)
