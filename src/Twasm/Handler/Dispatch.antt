-- ===== src/Twasm/Handler/Dispatch.antt =====
-- x/twasm/keeper/handler_plugin.go: the handlers that need a privilege, the restricted governance router,
-- and the dispatcher.
use tgrade.Base.{
  ℕ, ⊤, String, str_eq, Bool, true, false, not, Option, none, some, List, [], ◌∷◌, ◌++◌,
  if◌then◌else◌, Outcome, ok, err, panic, unknown_msg, unauthorized, invalid_address, invalid_coins,
  json_unmarshal, no_proposal_handler, fail_if,
}
use tgrade.Base.Coin.{Coin}
use mathlib.Core.List.{reverse}
use tgrade.Twasm.Privilege.{gov_proposal_executor, token_minter, consensus_param_changer, delegator}
use tgrade.Twasm.Keeper.{
  WasmKeeper, Event, tokens_minted, tokens_delegated, tokens_undelegated, Action, ◌>>=◌, ◌>>◌, pure,
  or_fail, on_wasm, is_privileged,
}
use tgrade.Twasm.Messages.{
  ExecuteGovProposal, Content, parameter_change, ParamChange, MintTokens, ConsensusParamsUpdate,
  Transfer, PetriMsg, validate_consensus_params_update, unmarshal_with_any, get_proposal_content,
}
use tgrade.Twasm.Handler.{
  Services, twasm, bonded_pool, merge_consensus_params_update, handle_privilege,
  assert_has_privilege,
}

-- A change of the base application's subspace is among the changes.
unfoldable pub changes_base : String → List ParamChange → Bool
changes_base base [] = false
changes_base base (c ∷ cs) = if str_eq c.subspace base then true else changes_base base cs

unfoldable pub is_base_change : {P : Type 0} → String → Content P → Bool
unfolding changes_base
is_base_change base (parameter_change x) = changes_base base x.body
is_base_change base _ = false

module _ (k : WasmKeeper) {P : Type 0} (v : Services k.W P) where
  open k use {W}

  -- `restrictedParamsRouter.GetRoute`
  unfoldable pub restricted_route : String → Content P → Action W ⊤
  restricted_route path content s =
      if str_eq path v.params_route
      then (if is_base_change v.base_subspace content
          then (err unauthorized, s)
          else v.route path content s)
      else v.route path content s

  unfoldable pub handle_gov_proposal_execution : ℕ → ExecuteGovProposal P → Action W ⊤
  handle_gov_proposal_execution a exec = do
    assert_has_privilege k a gov_proposal_executor
    content ← or_fail (get_proposal_content (v.address_string a) exec) unknown_msg
    pure (v.validate_content content)
    pure (fail_if (not (v.has_route (v.content_route content))) no_proposal_handler)
    restricted_route (v.content_route content) content

  unfoldable pub handle_mint_token : ℕ → MintTokens → Action W (List Event)
  handle_mint_token a mint = do
    assert_has_privilege k a token_minter
    recipient ← or_fail (v.acc_address_from_bech32 mint.recipient_addr) invalid_address
    amount ← or_fail (v.new_int_from_string mint.amount) invalid_coins
    (λ s.
        let token : Coin = record { denom = mint.denom; amount = amount } in
        (do
          pure (elim (v.validate_coin token) [
            | ok _ ↦ ok tt
            | err _ ↦ err invalid_coins
            | panic ↦ panic
          ])
          on_wasm (v.mint_coins twasm (v.new_coins token))
          on_wasm (v.send_coins_from_module_to_account twasm recipient (v.new_coins token))
          pure (ok (tokens_minted a token mint.recipient_addr ∷ [])))
          s)

  unfoldable pub handle_consensus_params_update : ℕ → ConsensusParamsUpdate → Action W (List Event)
  handle_consensus_params_update a update = do
    assert_has_privilege k a consensus_param_changer
    pure (validate_consensus_params_update update)
    on_wasm (λ w. elim (merge_consensus_params_update (v.get_consensus_params w) update) [
      | ok params ↦ (ok [], v.store_consensus_params params w)
      | err e ↦ (err e, w)
      | panic ↦ (panic, w)
    ])

  unfoldable pub handle_delegate : ℕ → Transfer → Action W (List Event)
  handle_delegate a d = do
    assert_has_privilege k a delegator
    from ← or_fail (v.acc_address_from_bech32 d.addr) invalid_address
    amt ← or_fail (v.convert_coin d.denom d.amount) json_unmarshal
    on_wasm (v.delegate_coins_from_account_to_module from bonded_pool amt)
    on_wasm (v.send_coins_from_module_to_account bonded_pool a amt)
    pure (ok (tokens_delegated a amt d.addr ∷ []))

  unfoldable pub handle_undelegate : ℕ → Transfer → Action W (List Event)
  handle_undelegate a u = do
    assert_has_privilege k a delegator
    recipient ← or_fail (v.acc_address_from_bech32 u.addr) invalid_address
    amt ← or_fail (v.convert_coin u.denom u.amount) json_unmarshal
    on_wasm (v.send_coins_from_account_to_module a bonded_pool amt)
    on_wasm (v.undelegate_coins_from_module_to_account bonded_pool recipient amt)
    pure (ok (tokens_undelegated a amt u.addr ∷ []))

  -- The main switch: the first pointer that is set decides.
  unfoldable pub dispatch : ℕ → PetriMsg P → Action W (List Event)
  dispatch a m = elim m.privilege [
    | some x ↦ (handle_privilege k a x >> pure (ok []))
    | none ↦ elim m.execute_gov_proposal [
      | some x ↦ (handle_gov_proposal_execution a x >> pure (ok []))
      | none ↦ elim m.mint_tokens [
        | some x ↦ handle_mint_token a x
        | none ↦ elim m.consensus_params [
          | some x ↦ handle_consensus_params_update a x
          | none ↦ elim m.delegate [
            | some x ↦ handle_delegate a x
            | none ↦ elim m.undelegate [
              | some x ↦ handle_undelegate a x
              | none ↦ pure (err unknown_msg)
            ]
          ]
        ]
      ]
    ]
  ]

  -- A handler runs with an event manager of its own, whose events follow those that it returns.
  unfoldable pub with_events : Action W (List Event) → Action W (List Event)
  with_events m s =
      let (o, s') = m (record s { events = [] }) in
      (
        elim o [ ok evts ↦ ok (evts ++ reverse s'.events) | err e ↦ err e | panic ↦ panic ],
        record s' { events = s.events },
      )

  -- `custom` is the custom message, if any, as the JSON decoder reads it.
  unfoldable pub dispatch_msg : ℕ → Option (Outcome (PetriMsg P)) → Action W (List Event)
  dispatch_msg a custom s = elim custom [
    | none ↦ (err unknown_msg, s)
    | some decoded ↦
        if is_privileged a s
        then elim (unmarshal_with_any decoded) [
          | ok m ↦ with_events (dispatch a m) s
          | err e ↦ (err json_unmarshal, s)
          | panic ↦ (panic, s)
        ]
        else (err unknown_msg, s)
  ]
