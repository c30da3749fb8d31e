-- ===== src/Poe/Plugin/Queries.antt =====
-- The answers to the staking queries of contracts, x/poe/wasm/query_plugin.go.
use tgrade.Base.{
  ℕ, zero, suc, ◌<◌, ◌≡◌, ◌≢◌, ap, String, true, false, ◌||◌, Option, none, some, List, [], ◌∷◌,
  ◌++◌, map, length, length-append, ok, or_zero, arith,
}
use mathlib.Core.List.{append_assoc, map-append}
use tgrade.Base.Int.{ℤ, pos, ltb_ℤ}
use tgrade.Base.Coin.{Coin}
use tgrade.Poe.Registry.{distribution}
use tgrade.Poe.Adapter.{Validator, contract_of, validator_outstanding_reward}
use tgrade.Poe.Adapter.Pages.{Serves, last, more}
use tgrade.Poe.Plugin.{
  StakingQuery, WasmValidator, all_validators_response, delegation_response, PluginServices,
  bond_denom, to_wasm, validators_page, collect_validators, staked_amount, full_delegation,
  delegation_query, staking_response,
}

module _ {S : Type 0} (v : PluginServices S) (s : S) where
  abbrev pub answer : List Validator → List WasmValidator
  answer vals = map (λ (val : Validator). to_wasm v s val.operator_address) vals

  regroup :
      (acc : List WasmValidator) (x : Validator) (xs rest : List Validator)
      → (acc ++ answer (x ∷ xs)) ++ answer rest ≡ acc ++ answer (x ∷ (xs ++ rest))
  regroup acc x xs rest = simp (append_assoc, map-append)

  collect_validators-Serves :
      (fuel : ℕ) (c : String) (acc : List WasmValidator) (vals : List Validator)
      → length vals < fuel
      → Serves (validators_page v s) c vals
      → collect_validators v s fuel c acc ≡ some (ok (acc ++ answer vals))
  unfolding collect_validators
  collect_validators-Serves zero c acc vals small r = absurd (omega arith)
  collect_validators-Serves (suc fuel) c acc [] small (last e) = ground (arith, e)
  collect_validators-Serves (suc fuel) c acc vals small
        (more {d = d} x xs rest all e nonempty split r) =
      let ih =
        collect_validators-Serves fuel d (acc ++ answer (x ∷ xs)) rest
          (omega (arith, ap length split, length-append {0} xs rest)) r in
      ground (arith, e, nonempty, ih, regroup acc x xs rest, split)

  -- The request for all validators ends with as many rounds as the valset contract has validators and
  -- one more, and answers with exactly those that the contract serves in its pages, in order,
  -- whatever other fields the request sets but the first.
  pub staking_response_all :
      (fuel : ℕ) (request : StakingQuery) (vals : List Validator)
      → request.bonded_denom ≡ false
      → request.all_validators ≡ true
      → Serves (validators_page v s) "" vals
      → length vals < fuel
      → staking_response v s fuel request ≡ some (ok (all_validators_response (answer vals)))
  unfolding staking_response
  staking_response_all fuel request vals denom all r small =
      ground (arith, denom, all, collect_validators-Serves fuel "" [] vals small r)

  -- A delegation to another validator is answered with nothing, and no contract is asked. That of an
  -- operator to itself is answered by its staked amount and its outstanding reward, with nothing
  -- exactly if neither is positive; the amounts are those of the two contracts.
  pub delegation_query_lem :
      (dt vt : String) (d o : ℕ)
      → v.acc_address_from_bech32 dt ≡ ok d
      → v.acc_address_from_bech32 vt ≡ ok o
      → (d ≢ o → delegation_query v s dt vt ≡ ok (delegation_response none))
        × (d ≡ o
            → (amount : Option ℤ) (reward : Coin) (tokens rewards : ℕ)
            → staked_amount v s d ≡ ok amount
            → validator_outstanding_reward v.querier (contract_of v.querier distribution s) d s
              ≡ ok reward
            → v.uint64 (or_zero (pos 0) amount) ≡ ok tokens
            → v.uint64 reward.amount ≡ ok rewards
            → let positive =
                ltb_ℤ (pos 0) (or_zero (pos 0) amount) || ltb_ℤ (pos 0) reward.amount in
              (positive ≡ false → delegation_query v s dt vt ≡ ok (delegation_response none))
              × (positive ≡ true
                  → delegation_query v s dt vt
                    ≡ ok (
                        delegation_response (
                          some (record {
                            delegator = v.querier.address_text d;
                            validator = v.querier.address_text d;
                            amount = record { amount = tokens; denom = bond_denom };
                            can_redelegate = record { amount = 0; denom = bond_denom };
                            accumulated_rewards =
                                record { amount = rewards; denom = reward.denom } ∷ [];
                          })))))
  unfolding delegation_query full_delegation
  delegation_query_lem dt vt d o pd po = (
    λ other. ground (arith, pd, po, other),
    λ same amount reward tokens rewards a r t u. (
      λ nothing. ground (arith, pd, po, same, a, r, nothing),
      λ something. ground (arith, pd, po, same, a, r, t, u, something),
    ),
  )
