-- ===== src/Twasm/Tests/Exporting.antt =====
-- Concrete runs of the validation and of the export of the genesis state of x/twasm. The contract info
-- is the list of privileges.
use tgrade.Base.{ℕ, ◌≡◌, ◌↔◌, refl, some, List, [], ◌∷◌, map, ok, All}
use tgrade.Twasm.Details.{RegisteredPrivilege, has_name, has_registered_privilege}
use tgrade.Twasm.Privilege.{string, name_in, registry}
use tgrade.Twasm.Genesis.Validate.{
  WasmState, WasmContract, TwasmState, WasmTypes, kv_model, furya_ext_type, raw_wasm_state,
  validate_twasm_genesis,
}
use tgrade.Twasm.Genesis.Validate.Accepted.{IsAccepted, validate_twasm_genesis_iff}
use tgrade.Twasm.Genesis.Export.{export_genesis}
use tgrade.Twasm.Genesis.Export.Restored.{IsPlain, raw_wasm_state-export_genesis}
use tgrade.Twasm.Tests.{entry, contracts, world}

abbrev Info : Type 0
Info = List RegisteredPrivilege

abbrev types : WasmTypes Info ℕ ℕ ℕ ℕ ℕ
types = record {
  validate_wasm = λ w. ok tt;
  extension_url = λ i. some furya_ext_type;
  acc_address_from_bech32 = λ t. ok 9;
  all_codes = λ w. 1 ∷ 2 ∷ [];
  all_contracts = λ w. map (λ (c : WasmContract Info ℕ). c.contract_address) w.contracts;
}

abbrev stored : TwasmState Info ℕ ℕ ℕ ℕ ℕ
stored = record {
  params = 3;
  codes = 1 ∷ 2 ∷ [];
  sequences = 5 ∷ [];
  gen_msgs = [];
  contracts =
      record {
        contract_address = "furya1";
        contract_info = entry "begin_blocker" 1 ∷ [];
        stored_state = kv_model (7 ∷ []);
      }
      ∷ [];
  privileged_contract_addresses = "furya1" ∷ [];
  pinned_code_ids = 2 ∷ [];
}

validate_twasm_genesis_iff_example :
    (validate_twasm_genesis types stored ≡ ok tt) ↔ IsAccepted types stored
validate_twasm_genesis_iff_example = validate_twasm_genesis_iff types stored

abbrev wasm_state : WasmState Info ℕ ℕ ℕ ℕ ℕ
wasm_state = record {
  params = 3;
  codes = 1 ∷ 2 ∷ [];
  sequences = 5 ∷ [];
  gen_msgs = [];
  contracts =
      record {
        contract_address = "furya1";
        contract_info = entry "begin_blocker" 1 ∷ [];
        contract_state = 7 ∷ 8 ∷ [];
      }
      ∷ [];
}

plain : All (IsPlain (λ (i : Info). ok i)) wasm_state.contracts
unfolding has_registered_privilege has_name string name_in registry
plain = ((entry "begin_blocker" 1 ∷ [], refl, refl), tt)

raw_wasm_state-export_genesis_example :
    (g : TwasmState Info ℕ ℕ ℕ ℕ ℕ) × (export_genesis contracts
        (λ t. ok 9)
        (λ i. ok i)
        wasm_state
        (world [])
      ≡ (ok g, world []))
    × (raw_wasm_state g ≡ wasm_state)
raw_wasm_state-export_genesis_example =
    raw_wasm_state-export_genesis contracts (λ t. ok 9) (λ i. ok i) wasm_state (world []) plain
