-- ===== src/Twasm/Genesis/Validate.antt =====
-- `ValidateBasic` and `RawWasmState` of x/twasm/types/genesis.go. Contract info, state models,
-- parameters, codes, sequences and messages are types of wasmd, as is the validation of the state; a Go map of which only
-- the keys count is the list of its keys.
pub mod Accepted
use tgrade.Base.{
  ℕ, ⊤, String, str_eq, Bool, true, false, not, ◌||◌, ◌==◌, Option, none, some, List, [], ◌∷◌, map,
  if◌then◌else◌, Outcome, ok, err, panic, ◌>>=◌, ◌>>◌, fail_if, invalid_genesis, invalid_address,
  duplicate,
}

pub data StoredState (M : Type 0) : Type 0 where
  no_model : StoredState M
  kv_model : List M → StoredState M
  custom_model : List ℕ → StoredState M

pub record StoredContract (I M : Type 0) : Type 0 where
  pub contract_address : String
  pub contract_info : I
  pub stored_state : StoredState M

pub record TwasmState (I M P C Q G : Type 0) : Type 0 where
  -- The parameters, the codes, the sequences and the messages.
  pub params : P
  pub codes : List C
  pub sequences : List Q
  pub gen_msgs : List G
  pub contracts : List (StoredContract I M)
  pub privileged_contract_addresses : List String
  pub pinned_code_ids : List ℕ

pub record WasmContract (I M : Type 0) : Type 0 where
  pub contract_address : String
  pub contract_info : I
  pub contract_state : List M

pub record WasmState (I M P C Q G : Type 0) : Type 0 where
  pub params : P
  pub codes : List C
  pub sequences : List Q
  pub gen_msgs : List G
  pub contracts : List (WasmContract I M)

unfoldable pub raw_contract : {I M : Type 0} → StoredContract I M → WasmContract I M
raw_contract v = record {
  contract_address = v.contract_address;
  contract_info = v.contract_info;
  contract_state = elim v.stored_state [ no_model ↦ [] | kv_model ms ↦ ms | custom_model msg ↦ [] ];
}

unfoldable pub raw_wasm_state :
    {I M P C Q G : Type 0} → TwasmState I M P C Q G → WasmState I M P C Q G
raw_wasm_state g = record {
  params = g.params;
  codes = g.codes;
  sequences = g.sequences;
  gen_msgs = g.gen_msgs;
  contracts = map raw_contract g.contracts;
}

abbrev pub furya_ext_type : String
furya_ext_type = "/confio.twasm.v1beta1.PetriContractDetails"

-- The keys of a map, with the test of the key type.
module _ {A : Type 0} (same : A → A → Bool) where
  unfoldable pub exists : A → List A → Bool
  exists x [] = false
  exists x (k ∷ ks) = same x k || exists x ks

  unfoldable pub delete : A → List A → List A
  delete k [] = []
  delete k (x ∷ xs) = let rest = delete k xs in if same x k then rest else x ∷ rest

  unfoldable pub delete_all : List A → List A → List A
  delete_all [] xs = xs
  delete_all (k ∷ ks) xs = delete_all ks (delete k xs)

  -- The loop that checks each entry and collects it in the map.
  unfoldable pub collect_unique : (A → Outcome ⊤) → List A → List A → Outcome ⊤
  collect_unique check seen [] = ok tt
  collect_unique check seen (x ∷ xs) =
      let rest = collect_unique check (x ∷ seen) xs in
      check x >> fail_if (exists x seen) duplicate >> rest

abbrev pub is_empty_list : {A : Type 0} → List A → Bool
is_empty_list [] = true
is_empty_list (x ∷ xs) = false

pub record WasmTypes (I M P C Q G : Type 0) : Type 0 where
  pub validate_wasm : WasmState I M P C Q G → Outcome ⊤
  -- The type of the extension, if there is one.
  pub extension_url : I → Option String
  pub acc_address_from_bech32 : String → Outcome ℕ
  -- `GetAllCodes` and `GetAllContracts`, with those that messages of the state create.
  pub all_codes : WasmState I M P C Q G → List ℕ
  pub all_contracts : WasmState I M P C Q G → List String

module _ {I M P C Q G : Type 0} (w : WasmTypes I M P C Q G) where
  abbrev pub is_extension_fine : WasmContract I M → Bool
  is_extension_fine c = elim (w.extension_url c.contract_info) [
    | none ↦ true
    | some url ↦ str_eq furya_ext_type url
  ]

  unfoldable pub check_extensions : List (WasmContract I M) → Outcome ⊤
  check_extensions [] = ok tt
  check_extensions (c ∷ cs) =
      let rest = check_extensions cs in fail_if (not (is_extension_fine c)) invalid_genesis >> rest

  unfoldable pub check_privileged : String → Outcome ⊤
  check_privileged a = elim (w.acc_address_from_bech32 a) [
    | ok n ↦ ok tt
    | err e ↦ err invalid_address
    | panic ↦ panic
  ]

  unfoldable pub validate_twasm_genesis : TwasmState I M P C Q G → Outcome ⊤
  validate_twasm_genesis g =
      let wasm_state = raw_wasm_state g in
      let addresses = g.privileged_contract_addresses in
      let codes = g.pinned_code_ids in
      do
        w.validate_wasm wasm_state
        check_extensions wasm_state.contracts
        collect_unique str_eq check_privileged [] addresses
        collect_unique ◌==◌ (λ code. ok tt) [] codes
        fail_if (not (is_empty_list (delete_all ◌==◌ (w.all_codes wasm_state) codes)))
            invalid_genesis
        fail_if (not (is_empty_list (delete_all str_eq (w.all_contracts wasm_state) addresses)))
            invalid_genesis
