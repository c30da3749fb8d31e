-- ===== src/Twasm/Genesis/Import.antt =====
-- What the import of a contract's registrations, `importPrivileged` of x/twasm/keeper/privileged.go, does
-- to the index.
use tgrade.Base.{
  String, length, ◌==◌, ◌++◌, is_ok, ℕ, ◌%◌, ⊤, ◌≡◌, refl, ap, ◌∙◌, true, false, none, some, List,
  [], ◌∷◌, Outcome, ok, err, panic, All, arith, Option-cases, inl, inr,
}
use tgrade.Twasm.Privilege.{privilege_type_from, state_exporter_importer, string}
use tgrade.Twasm.Details.{RegisteredPrivilege, has_name, has_registered_privilege}
use tgrade.Twasm.Keeper.{
  WasmKeeper, State, Action, is_privileged, set_privileged_flag,
  store_contract_privilege_registration,
}
use tgrade.Twasm.Keeper.Privileged.{Contracts, import_registrations, import_privileged}
use tgrade.Twasm.Genesis.{
  GenesisContract, GenesisState, import_custom_state, import_contract, import_contracts,
  init_genesis,
}

module _ (k : WasmKeeper) (c : Contracts k.W) (a : ℕ) where
  -- The entry is registered for the contract.
  abbrev pub IsImported : State k.W → RegisteredPrivilege → Type 0
  IsImported s v =
      (t : ℕ) × (privilege_type_from v.privilege_type ≡ some t)
      × (s.index t (v.position % 256) ≡ some a)

  -- Registrations of `s` still stand in `s'`.
  abbrev pub KeepsAll : State k.W → State k.W → Type 0
  KeepsAll s s' = (t q b : ℕ) → s.index t q ≡ some b → s'.index t q ≡ some b

  abbrev pub Imports : List RegisteredPrivilege → State k.W → State k.W → Type 0
  Imports ps s s' =
      All (IsImported s') ps × KeepsAll s s' × (s'.flags ≡ s.flags) × (s'.wasm ≡ s.wasm)

  stored-kept :
      (t p : ℕ) (s : State k.W)
      → s.index t p ≡ none
      → let s' = store_contract_privilege_registration t p a s in
        KeepsAll s s' × (s'.index t p ≡ some a) × (s'.flags ≡ s.flags) × (s'.wasm ≡ s.wasm)
  unfolding store_contract_privilege_registration
  stored-kept t p s free = (λ u q b h. ground (arith, free, h), ground arith, refl, refl)

  import_registrations-step :
      (v : RegisteredPrivilege) (ps : List RegisteredPrivilege) (s s' : State k.W)
      → import_registrations k c a (v ∷ ps) s ≡ (ok tt, s')
      → (t : ℕ) × (privilege_type_from v.privilege_type ≡ some t)
        × (s.index t (v.position % 256) ≡ none)
        × (import_registrations k c a ps
              (store_contract_privilege_registration t (v.position % 256) a s)
            ≡ (ok tt, s'))
  unfolding import_registrations
  import_registrations-step v ps s s' h =
      elim (Option-cases (privilege_type_from v.privilege_type)) [
        | inl e ↦ absurd (ground (arith, e))
        | inr (t, e) ↦ elim (Option-cases (s.index t (v.position % 256))) [
          | inl free ↦ (t, e, free, ground (arith, e, free))
          | inr (b, taken) ↦ absurd (ground (arith, e, taken))
        ]
      ]

  import_registrations-Imports :
      (ps : List RegisteredPrivilege) (s s' : State k.W)
      → import_registrations k c a ps s ≡ (ok tt, s')
      → Imports ps s s'
  unfolding import_registrations
  import_registrations-Imports [] s s' h = (tt, λ t q b e. ground arith, ground arith, ground arith)
  import_registrations-Imports (v ∷ ps) s s' h =
      let (t, named, free, run) = import_registrations-step v ps s s' h in
      let s₁ = store_contract_privilege_registration t (v.position % 256) a s in
      let (kept, there, flags, wasm) = stored-kept t (v.position % 256) s free in
      let (rest, kept', flags', wasm') = import_registrations-Imports ps s₁ s' run in
      (
        ((t, named, kept' t (v.position % 256) a there), rest),
        λ u q b e. kept' u q b (kept u q b e),
        flags' ∙ flags,
        wasm' ∙ wasm,
      )

  -- The state in which the loop starts: the code is pinned and the flag is set.
  abbrev flagged : ℕ → State k.W → State k.W
  flagged code s = set_privileged_flag a (record s { wasm = (k.pin_code code s.wasm).1 })

  flagged_lem :
      (code : ℕ) (s : State k.W)
      → ((flagged code s).flags a ≡ true) × ((flagged code s).index ≡ s.index)
  unfolding set_privileged_flag
  flagged_lem code s = (ground arith, refl)

  import_privileged-run :
      (code : ℕ) (ps : List RegisteredPrivilege) (s s' : State k.W)
      → import_privileged k c a code ps s ≡ (ok tt, s')
      → import_registrations k c a ps (flagged code s) ≡ (ok tt, s')
  unfolding import_privileged
  import_privileged-run code ps s s' h = ground arith

  -- An import that succeeds sets the privileged flag of the contract, registers every entry of its
  -- details for it at the position that the entry names, cut to a byte, and overwrites no
  -- registration.
  pub import_privileged-Imports :
      (code : ℕ) (ps : List RegisteredPrivilege) (s s' : State k.W)
      → import_privileged k c a code ps s ≡ (ok tt, s')
      → (is_privileged a s' ≡ true) × All (IsImported s') ps × KeepsAll s s'
  unfolding is_privileged
  import_privileged-Imports code ps s s' h =
      let (there, kept, flags, wasm) =
        import_registrations-Imports ps (flagged code s) s'
          (import_privileged-run code ps s s' h) in
      let (set, index) = flagged_lem code s in
      (ap (λ f. f a) flags ∙ set, there, λ t q b e. kept t q b (ap (λ f. f t q) index ∙ e))

module _ (k : WasmKeeper) (c : Contracts k.W) (parse : String → Outcome ℕ) where
  has_name-length :
      (n : String) (ps : List RegisteredPrivilege) → has_name n ps ≡ true → (length ps == 0) ≡ false
  unfolding has_name
  has_name-length n [] h = cc
  has_name-length n (p ∷ ps) h = ground arith

  import_contract_missing :
      (g : GenesisContract) (ps : List RegisteredPrivilege) (s : State k.W)
      → g.details ≡ ok ps
      → has_registered_privilege state_exporter_importer ps ≡ true
      → g.custom_model ≡ none
      → is_ok (import_contract k c parse g s).0 ≡ false
  unfolding import_contract import_custom_state has_registered_privilege
  import_contract_missing g ps s e h m =
      ground (arith, e, h, m, has_name-length (string state_exporter_importer) ps h)

  import_contracts_missing :
      (before after : List GenesisContract) (g : GenesisContract) (ps : List RegisteredPrivilege)
      (s : State k.W)
      → g.details ≡ ok ps
      → has_registered_privilege state_exporter_importer ps ≡ true
      → g.custom_model ≡ none
      → is_ok (import_contracts k c parse (before ++ g ∷ after) s).0 ≡ false
  unfolding import_contracts
  import_contracts_missing [] after g ps s e h m =
      ground (arith, import_contract_missing g ps s e h m)
  import_contracts_missing (x ∷ before) after g ps s e h m =
      go (import_contract k c parse x s) refl
        (λ u. import_contracts_missing before after g ps u e h m)
    where
      go :
          (r : Outcome ⊤ × State k.W)
          → import_contract k c parse x s ≡ r
          → ((u : State k.W) → is_ok (import_contracts k c parse (before ++ g ∷ after) u).0 ≡ false)
          → is_ok (import_contracts k c parse (x ∷ (before ++ g ∷ after)) s).0 ≡ false
      go (ok o, u) q ih = ground (arith, q, ih u)
      go (err y, u) q ih = ground (arith, q)
      go (panic, u) q ih = ground (arith, q)

  -- A genesis state in which some contract, wherever it stands, lists the privilege to import its own
  -- state but brings no custom state is refused.
  pub init_genesis_missing :
      (wasm_init : Action k.W ⊤) (genesis : GenesisState) (before after : List GenesisContract)
      (g : GenesisContract) (ps : List RegisteredPrivilege) (s : State k.W)
      → genesis.contracts ≡ before ++ g ∷ after
      → g.details ≡ ok ps
      → has_registered_privilege state_exporter_importer ps ≡ true
      → g.custom_model ≡ none
      → is_ok (init_genesis k c parse wasm_init genesis s).0 ≡ false
  unfolding init_genesis
  init_genesis_missing wasm_init genesis before after g ps s at e h m =
      ground (arith, at, import_contracts_missing before after g ps (wasm_init s).1 e h m)
