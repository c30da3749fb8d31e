-- ===== src/Poe/Server/Updating.antt =====
-- What the update of a validator executes, x/poe/keeper/msg_server.go.
use tgrade.Base.{
  ℕ, ◌≡◌, false, ◌⊎◌, inl, inr, none, some, List, [], ◌∷◌, ◌++◌, ok, panic, is_ok, arith, ok-cases,
  bind-cases, Option-cases,
}
use tgrade.Poe.Registry.{get_poe_contract_address, valset}
use tgrade.Poe.Unbonding.{WasmEvent}
use tgrade.Poe.Messages.{Description, MsgUpdateValidator}
use tgrade.Poe.Adapter.{Validator, query_validator}
use tgrade.Poe.Contract.{update_metadata, update_validator_metadata}
use tgrade.Poe.Server.Executed.{Executes, metadata_of, update_validator_metadata-Executes}
use tgrade.Poe.Server.{
  ServerState, ServerServices, message_event, event, attribute, contract_address,
  current_description, update_validator,
}

module _ {W : Type 0} (v : ServerServices W) (msg : MsgUpdateValidator) (s : ServerState W) where
  -- The events of an updated validator.
  abbrev pub updated_events : List WasmEvent
  updated_events =
      message_event msg.operator_address
      ∷ event "update_validator" (
          attribute "operator" msg.operator_address
          ∷ attribute "moniker" msg.description.moniker
          ∷ [])
      ∷ []

  -- With a description in order and an address that parses, the update of a validator that the valset
  -- contract does not know panics and writes nothing: the nil validator is dereferenced.
  pub update_validator_unknown :
      (vc op : ℕ)
      → v.ensure_length msg.description ≡ ok tt
      → get_poe_contract_address valset (v.engagement_services.registry s) ≡ ok vc
      → v.acc_address_from_bech32 msg.operator_address ≡ ok op
      → query_validator v.querier (ok vc) op s ≡ ok none
      → update_validator v msg s ≡ (panic, s)
  unfolding update_validator contract_address current_description
  update_validator_unknown vc op short found parsed unknown =
      ground (arith, short, found, parsed, unknown)

  abbrev pub Updates : ServerState W → Type 0
  Updates s' =
      (vc : ℕ) × (op : ℕ) × (current : Validator) × (merged : Description) × (s₁ : ServerState W)
      × (v.ensure_length msg.description ≡ ok tt)
      × (get_poe_contract_address valset (v.engagement_services.registry s) ≡ ok vc)
      × (v.acc_address_from_bech32 msg.operator_address ≡ ok op)
      × (query_validator v.querier (ok vc) op s ≡ ok (some current))
      × (v.update_description current.description msg.description ≡ ok merged)
      × Executes v.executor vc op (update_metadata (metadata_of merged)) [] s s₁
      × (s' ≡ (s₁.0 ++ updated_events, s₁.1))

  -- What the valset contract knows, where the description of a validator is read from it.
  current_description-cases :
      (vc op : ℕ)
      → get_poe_contract_address valset (v.engagement_services.registry s) ≡ ok vc
      → ((current : Validator) × (query_validator v.querier (ok vc) op s ≡ ok (some current)))
        ⊎ (is_ok (current_description v op s).0 ≡ false)
  unfolding current_description
  current_description-cases vc op found = elim (ok-cases (query_validator v.querier (ok vc) op s)) [
    | inr bad ↦ inr (ground (arith, found, bad))
    | inl (answer, read) ↦ elim (Option-cases answer) [
      | inl unknown ↦ inr (ground (arith, found, read, unknown))
      | inr (current, known) ↦ inl (current, ground (arith, read, known))
    ]
  ]

  -- Past the checks of the message.
  update_known :
      (vc op : ℕ) (current : Validator) (s' : ServerState W)
      → v.ensure_length msg.description ≡ ok tt
      → get_poe_contract_address valset (v.engagement_services.registry s) ≡ ok vc
      → v.acc_address_from_bech32 msg.operator_address ≡ ok op
      → query_validator v.querier (ok vc) op s ≡ ok (some current)
      → update_validator v msg s ≡ (ok tt, s')
      → Updates s'
  unfolding update_validator contract_address current_description
  update_known vc op current s' short found parsed known h =
      elim (ok-cases (v.update_description current.description msg.description)) [
        | inr bad ↦ absurd (ground (arith, short, found, parsed, known, bad))
        | inl (merged, m) ↦
            elim (bind-cases (update_validator_metadata v.executor vc op merged s)) [
              | inr bad ↦ absurd (ground (arith, short, found, parsed, known, m, bad))
              | inl (o, s₁, sent) ↦ (
                vc,
                op,
                current,
                merged,
                s₁,
                short,
                found,
                parsed,
                known,
                m,
                update_validator_metadata-Executes v.executor vc op s s₁ merged sent,
                ground (arith, short, found, parsed, known, m, sent),
              )
            ]
      ]

  -- Where an update of a validator succeeds, its description passed, and the valset contract knew the
  -- operator as a validator. That contract was executed by the operator with the message that sets the
  -- metadata to all fields of the known description with the changes of the message, and then the
  -- events were added.
  pub update_validator-Updates :
      (s' : ServerState W) → update_validator v msg s ≡ (ok tt, s') → Updates s'
  unfolding update_validator contract_address
  update_validator-Updates s' h = elim (ok-cases (v.ensure_length msg.description)) [
    | inr bad ↦ absurd (ground (arith, bad))
    | inl (o, short) ↦
        elim (ok-cases (get_poe_contract_address valset (v.engagement_services.registry s))) [
          | inr bad ↦ absurd (ground (arith, short, bad))
          | inl (vc, found) ↦ elim (ok-cases (v.acc_address_from_bech32 msg.operator_address)) [
            | inr bad ↦ absurd (ground (arith, short, found, bad))
            | inl (op, parsed) ↦ elim (current_description-cases vc op found) [
              | inr bad ↦ absurd (ground (arith, short, found, parsed, bad))
              | inl (current, known) ↦ update_known vc op current s' short found parsed known h
            ]
          ]
        ]
  ]
