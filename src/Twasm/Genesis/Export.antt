-- ===== src/Twasm/Genesis/Export.antt =====
-- `ExportGenesis` of x/twasm/keeper/genesis.go, past the export of the wasm module, whose result is an
-- argument. What the extension of a contract info reads as is a parameter.
pub mod Restored
use tgrade.Base.{ℕ, ⊤, String, not, List, [], ◌∷◌, if◌then◌else◌, Outcome, ok, err, panic}
use tgrade.Twasm.Privilege.{state_exporter_importer}
use tgrade.Twasm.Callbacks.{export_state}
use tgrade.Twasm.Details.{RegisteredPrivilege, has_registered_privilege}
use tgrade.Twasm.Keeper.{Action, ◌>>=◌, ◌>>◌, pure}
use tgrade.Twasm.Keeper.Privileged.{Contracts, call_sudo}
use tgrade.Twasm.Genesis.Validate.{
  StoredContract, kv_model, custom_model, TwasmState, WasmContract, WasmState,
}

-- An error that is turned into a panic.
unfoldable pub must : {W A : Type 0} → Action W A → Action W A
must m s =
    let (o, s') = m s in elim o [ ok a ↦ (ok a, s') | err e ↦ (panic, s') | panic ↦ (panic, s') ]

module _ {W I M : Type 0} (c : Contracts W) (acc_address_from_bech32 : String → Outcome ℕ)
    (read_extension : I → Outcome (List RegisteredPrivilege)) where
  unfoldable pub export_contract : WasmContract I M → Action W (StoredContract I M)
  export_contract v = do
    details ← must (pure (read_extension v.contract_info))
    if not (has_registered_privilege state_exporter_importer details)
        then pure (
            ok (record {
              contract_address = v.contract_address;
              contract_info = v.contract_info;
              stored_state = kv_model v.contract_state;
            }))
        else (do
          a ← must (pure (acc_address_from_bech32 v.contract_address))
          got ← must (call_sudo c a export_state)
          pure (
              ok (record {
                contract_address = v.contract_address;
                contract_info = v.contract_info;
                stored_state = custom_model got;
              })))

  unfoldable pub export_contracts : List (WasmContract I M) → Action W (List (StoredContract I M))
  export_contracts [] = pure (ok [])
  export_contracts (v ∷ vs) = do x ← export_contract v; xs ← export_contracts vs; pure (ok (x ∷ xs))

  unfoldable pub export_genesis :
      {P C Q G : Type 0} → WasmState I M P C Q G → Action W (TwasmState I M P C Q G)
  export_genesis wasm_state = do
    contracts ← export_contracts wasm_state.contracts
    pure (
        ok (record {
          params = wasm_state.params;
          codes = wasm_state.codes;
          sequences = wasm_state.sequences;
          gen_msgs = wasm_state.gen_msgs;
          contracts = contracts;
          privileged_contract_addresses = [];
          pinned_code_ids = [];
        }))
