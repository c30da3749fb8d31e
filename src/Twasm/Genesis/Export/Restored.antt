-- ===== src/Twasm/Genesis/Export/Restored.antt =====
-- What the wasm module imports again from an export, `RawWasmState` after `ExportGenesis`.
use tgrade.Base.{
  ℕ, String, Bool, false, ◌≡◌, refl, List, [], ◌∷◌, map, Outcome, ok, err, panic, All, arith,
  if◌then◌else◌, Bool-cases, ok-cases, inl, inr,
}
use tgrade.Twasm.Privilege.{state_exporter_importer}
use tgrade.Twasm.Callbacks.{export_state}
use tgrade.Twasm.Details.{RegisteredPrivilege, has_registered_privilege}
use tgrade.Twasm.Keeper.{State, Action, ◌>>=◌, pure}
use tgrade.Twasm.Keeper.Privileged.{Contracts, call_sudo}
use tgrade.Twasm.Genesis.Validate.{
  StoredContract, kv_model, TwasmState, WasmContract, WasmState, raw_contract, raw_wasm_state,
}
use tgrade.Twasm.Genesis.Export.{must, export_contract, export_contracts, export_genesis}

-- A chain that succeeds does so in both of its parts.
then-ok :
    {W A B : Type 0} (m : Action W A) (f : A → Action W B) (s s' : State W) (b : B)
    → (m >>= f) s ≡ (ok b, s')
    → (a : A) × (s₁ : State W) × (m s ≡ (ok a, s₁)) × (f a s₁ ≡ (ok b, s'))
then-ok {W} {A} {B} m f s s' b h = go (m s) refl
  where
    go :
        (r : Outcome A × State W)
        → m s ≡ r
        → (a : A) × (s₁ : State W) × (m s ≡ (ok a, s₁)) × (f a s₁ ≡ (ok b, s'))
    go (ok a, s₁) e = (a, s₁, e, ground (arith, e, h))
    go (err x, s₁) e = absurd (ground (arith, e, h))
    go (panic, s₁) e = absurd (ground (arith, e, h))

module _ {I : Type 0} (read_extension : I → Outcome (List RegisteredPrivilege)) where
  -- The contract exports its state itself.
  abbrev pub is_exporter : I → Bool
  is_exporter i = elim (read_extension i) [
    | ok ps ↦ has_registered_privilege state_exporter_importer ps
    | err e ↦ false
    | panic ↦ false
  ]

  -- The contract without its models, if it exports its state itself.
  abbrev pub stripped : {M : Type 0} → WasmContract I M → WasmContract I M
  stripped v = if is_exporter v.contract_info then record v { contract_state = [] } else v

  -- The extension reads, and does not list the privilege to export.
  abbrev pub IsPlain : {M : Type 0} → WasmContract I M → Type 0
  IsPlain v =
      (ps : List RegisteredPrivilege) × (read_extension v.contract_info ≡ ok ps)
      × (has_registered_privilege state_exporter_importer ps ≡ false)

module _ {W I M : Type 0} (c : Contracts W) (acc_address_from_bech32 : String → Outcome ℕ)
    (read_extension : I → Outcome (List RegisteredPrivilege)) where
  export_contract-raw :
      (v : WasmContract I M) (x : StoredContract I M) (s s' : State W)
      → export_contract c acc_address_from_bech32 read_extension v s ≡ (ok x, s')
      → raw_contract x ≡ stripped read_extension v
  unfolding export_contract raw_contract must
  export_contract-raw v x s s' h = elim (ok-cases (read_extension v.contract_info)) [
    | inr bad ↦ absurd (ground (arith, bad, h))
    | inl (ps, e) ↦ elim (Bool-cases (has_registered_privilege state_exporter_importer ps)) [
      | inr plain ↦ ground (arith, e, plain, h)
      | inl own ↦ elim (ok-cases (acc_address_from_bech32 v.contract_address)) [
        | inr bad ↦ absurd (ground (arith, e, own, bad, h))
        | inl (a, parsed) ↦ elim (ok-cases (call_sudo c a export_state s).0) [
          | inr bad ↦ absurd (ground (arith, e, own, parsed, bad, h))
          | inl (got, answered) ↦ ground (arith, e, own, parsed, answered, h)
        ]
      ]
    ]
  ]

  export_contracts-raw :
      (vs : List (WasmContract I M)) (xs : List (StoredContract I M)) (s s' : State W)
      → export_contracts c acc_address_from_bech32 read_extension vs s ≡ (ok xs, s')
      → map raw_contract xs ≡ map (stripped read_extension) vs
  unfolding export_contracts
  export_contracts-raw [] xs s s' h = ground (arith, h)
  export_contracts-raw (v ∷ vs) xs s s' h =
      let rest_of : StoredContract I M → Action W (List (StoredContract I M)) = λ x.
        export_contracts c acc_address_from_bech32 read_extension vs >>= λ xs. pure (ok (x ∷ xs)) in
      let (x, s₁, one, run) =
        then-ok (export_contract c acc_address_from_bech32 read_extension v) rest_of s s' xs h in
      let (ys, s₂, others, out) =
        then-ok (export_contracts c acc_address_from_bech32 read_extension vs)
          (λ xs. pure (ok (x ∷ xs))) s₁ s' xs run in
      ground (arith, export_contract-raw v x s s₁ one, export_contracts-raw vs ys s₁ s₂ others, out)

  export_contracts-plain :
      (vs : List (WasmContract I M)) (s : State W)
      → All (IsPlain read_extension) vs
      → (xs : List (StoredContract I M)) × (export_contracts c acc_address_from_bech32
            read_extension vs s
          ≡ (ok xs, s))
        × (map raw_contract xs ≡ vs)
  unfolding export_contracts export_contract must raw_contract
  export_contracts-plain [] s h = ([], refl, refl)
  export_contracts-plain (v ∷ vs) s ((ps, e, plain), rest) =
      let (xs, run, same) = export_contracts-plain vs s rest in
      let x : StoredContract I M = record {
        contract_address = v.contract_address;
        contract_info = v.contract_info;
        stored_state = kv_model v.contract_state;
      } in
      (x ∷ xs, ground (arith, e, plain, run), ground (arith, same))

  abbrev exported :
      {P C Q G : Type 0}
      → WasmState I M P C Q G
      → List (StoredContract I M)
      → TwasmState I M P C Q G
  exported wasm_state contracts = record {
    params = wasm_state.params;
    codes = wasm_state.codes;
    sequences = wasm_state.sequences;
    gen_msgs = wasm_state.gen_msgs;
    contracts = contracts;
    privileged_contract_addresses = [];
    pinned_code_ids = [];
  }

  -- What the wasm module imports from an export that succeeds is what it exported, less the models of
  -- the contracts that export their state themselves; the export grants no privilege and pins no
  -- code by the lists of the genesis state.
  pub export_genesis_strips :
      {P C Q G : Type 0} (wasm_state : WasmState I M P C Q G) (s s' : State W)
      (g : TwasmState I M P C Q G)
      → export_genesis c acc_address_from_bech32 read_extension wasm_state s ≡ (ok g, s')
      → (raw_wasm_state g
          ≡ record wasm_state { contracts = map (stripped read_extension) wasm_state.contracts })
        × (g.privileged_contract_addresses ≡ [])
        × (g.pinned_code_ids ≡ [])
  unfolding export_genesis raw_wasm_state
  export_genesis_strips wasm_state s s' g h =
      let (xs, s₁, run, out) =
        then-ok (export_contracts c acc_address_from_bech32 read_extension wasm_state.contracts)
          (λ xs. pure (ok (exported wasm_state xs))) s s' g h in
      let same = export_contracts-raw wasm_state.contracts xs s s₁ run in
      (ground (arith, out, same), ground (arith, out), ground (arith, out))

  -- If every extension reads and no contract exports its state itself, the export succeeds and
  -- changes nothing, and what the wasm module imports from it is the whole state that it exported.
  pub raw_wasm_state-export_genesis :
      {P C Q G : Type 0} (wasm_state : WasmState I M P C Q G) (s : State W)
      → All (IsPlain read_extension) wasm_state.contracts
      → (g : TwasmState I M P C Q G) × (export_genesis c acc_address_from_bech32 read_extension
            wasm_state s
          ≡ (ok g, s))
        × (raw_wasm_state g ≡ wasm_state)
  unfolding export_genesis raw_wasm_state
  raw_wasm_state-export_genesis wasm_state s plain =
      let (xs, run, same) = export_contracts-plain wasm_state.contracts s plain in
      (exported wasm_state xs, ground (arith, run), ground (arith, same))
