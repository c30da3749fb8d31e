-- ===== src/Twasm/Genesis.antt =====
-- `InitGenesis` of x/twasm/keeper/genesis.go. The import of the wasm module and the address parser are
-- parameters; of a contract in the genesis state, `details` is what its extension reads as, and
-- `custom_model` the message of its custom state, if it has one.
pub mod Import
pub mod Validate
pub mod Export
use tgrade.Base.{
  ℕ, ⊤, String, Bool, true, false, Option, none, some, List, [], ◌∷◌, if◌then◌else◌, Outcome, ok,
  err, panic, invalid_genesis, length, ◌==◌,
}
use tgrade.Twasm.Privilege.{state_exporter_importer}
use tgrade.Twasm.Callbacks.{import_state}
use tgrade.Twasm.Details.{RegisteredPrivilege, has_registered_privilege}
use tgrade.Twasm.Keeper.{WasmKeeper, Action, ◌>>=◌, ◌>>◌, pure, on_wasm}
use tgrade.Twasm.Keeper.Privileged.{Contracts, call_sudo, set_privileged, import_privileged}

pub record GenesisContract : Type 0 where
  pub contract_address : String
  pub code_id : ℕ
  pub details : Outcome (List RegisteredPrivilege)
  pub custom_model : Option (List ℕ)

pub record GenesisState : Type 0 where
  pub contracts : List GenesisContract
  pub privileged_contract_addresses : List String
  pub pinned_code_ids : List ℕ

module _ (k : WasmKeeper) (c : Contracts k.W) (acc_address_from_bech32 : String → Outcome ℕ) where
  open k use {W, pin_code}

  -- The custom state, of a contract that imports it itself.
  unfoldable pub import_custom_state : ℕ → GenesisContract → List RegisteredPrivilege → Action W ⊤
  import_custom_state a g ps s =
      if has_registered_privilege state_exporter_importer ps
      then elim g.custom_model [
        | none ↦ (err invalid_genesis, s)
        | some model ↦ (do answer ← call_sudo c a (import_state model); pure (ok tt)) s
      ]
      else (ok tt, s)

  -- One round of the loop over the contracts.
  unfoldable pub import_contract : GenesisContract → Action W ⊤
  unfolding import_custom_state
  import_contract g = do
    ps ← pure g.details
    if length ps == 0 then pure (ok tt) else (do
      a ← pure (acc_address_from_bech32 g.contract_address)
      import_privileged k c a g.code_id ps
      import_custom_state a g ps)

  unfoldable pub import_contracts : List GenesisContract → Action W ⊤
  unfolding import_contract
  import_contracts [] = pure (ok tt)
  import_contracts (g ∷ gs) = import_contract g >> import_contracts gs

  unfoldable pub set_all_privileged : List String → Action W ⊤
  set_all_privileged [] = pure (ok tt)
  set_all_privileged (t ∷ ts) = do
    a ← pure (acc_address_from_bech32 t)
    set_privileged k c a
    set_all_privileged ts

  unfoldable pub pin_all_codes : List ℕ → Action W ⊤
  pin_all_codes [] = pure (ok tt)
  pin_all_codes (i ∷ ids) = on_wasm (pin_code i) >> pin_all_codes ids

  unfoldable pub init_genesis : Action W ⊤ → GenesisState → Action W ⊤
  unfolding import_contracts set_all_privileged pin_all_codes
  init_genesis wasm_init genesis = do
    wasm_init
    import_contracts genesis.contracts
    set_all_privileged genesis.privileged_contract_addresses
    pin_all_codes genesis.pinned_code_ids
