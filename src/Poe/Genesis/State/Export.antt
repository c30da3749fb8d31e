-- ===== src/Poe/Genesis/State/Export.antt =====
-- The export of the genesis state and its import on another node, x/poe/keeper/genesis.go.
use tgrade.Base.{
  ℕ, ◌≡◌, refl, ap, ◌∙◌, String, true, Option, none, some, List, [], ◌∷◌, Outcome, ok, ok-cases,
  Bool-cases, Option-cases, inl, inr, arith, ◌==◌, if◌then◌else◌,
}
use tgrade.Poe.Registry.{
  Registry, contract_types, validate_contract_type, set_poe_contract_address,
  get_poe_contract_address,
}
use tgrade.Poe.Registry.Lookup.{
  IsCoherent, restarted, get_poe_contract_address-lookup, set_poe_contract_address-IsCoherent,
}
use tgrade.Poe.Genesis.State.{
  elem_type, DeliverServices, PoeState, import_contracts, init_genesis, export_contracts,
  export_genesis,
}

-- The registry of a new node.
abbrev pub no_contracts : Registry
no_contracts = record { store = λ t. none; cache = λ t. none }

-- The value of an option, or another option.
abbrev or_else : Option ℕ → Option ℕ → Option ℕ
or_else none o = o
or_else (some a) o = some a

elem_type-contract_types :
    (t : ℕ) → validate_contract_type t ≡ ok tt → elem_type t contract_types ≡ true
unfolding elem_type validate_contract_type
elem_type-contract_types t h = ground arith

module _ (address_text : ℕ → String) (parse : String → Outcome ℕ)
    (parse-text : (a : ℕ) → parse (address_text a) ≡ ok a) (r : Registry) where
  exported-stored :
      (ts : List ℕ) (acc : Registry)
      → IsCoherent acc
      → let r' = import_contracts parse (export_contracts address_text ts r) acc in
        (r'.0 ≡ ok tt)
        × IsCoherent r'.1
        × ((u : ℕ)
            → r'.1.store u
              ≡ (if elem_type u ts then or_else (r.store u) (acc.store u) else acc.store u))
  unfolding import_contracts export_contracts elem_type set_poe_contract_address
  exported-stored [] acc h = (refl, h, λ u. refl)
  exported-stored (t ∷ ts) acc h = elim (Option-cases (r.store t)) [
    | inl e ↦
        let (fine, coherent, at) = exported-stored ts acc h in
        (ground (arith, e, fine), ground (arith, e, coherent), λ u. ground (arith, e, at u))
    | inr (a, e) ↦
        let acc' = set_poe_contract_address t a acc in
        let (fine, coherent, at) =
          exported-stored ts acc' (set_poe_contract_address-IsCoherent t a acc h) in
        (
          ground (arith, e, parse-text a, fine),
          ground (arith, e, parse-text a, coherent),
          λ u. elim (Bool-cases (t == u)) [
            | inl same ↦
                let here : r.store u ≡ some a = ap r.store (ground (arith, same)) ∙ e in
                ground (arith, e, parse-text a, at u, same, here)
            | inr other ↦ ground (arith, e, parse-text a, at u, other)
          ],
        )
  ]

module _ (address_text : ℕ → String) (parse : String → Outcome ℕ)
    (parse-text : (a : ℕ) → parse (address_text a) ≡ ok a) where
  exported-found :
      (r : Registry) (t : ℕ)
      → let i =
          import_contracts parse (export_contracts address_text contract_types r) no_contracts in
        get_poe_contract_address t i.1 ≡ get_poe_contract_address t (restarted r)
  unfolding get_poe_contract_address
  exported-found r t =
      let (fine, coherent, at) =
        exported-stored address_text parse parse-text r contract_types no_contracts
          (λ u b e. ground (arith, e)) in
      let i =
        import_contracts parse (export_contracts address_text contract_types r) no_contracts in
      elim (ok-cases (validate_contract_type t)) [
        | inr bad ↦ ground (arith, bad)
        | inl (o, v) ↦
            let stored : i.1.store t ≡ r.store t =
              ground (arith, at t, elem_type-contract_types t v) in
            get_poe_contract_address-lookup t i.1 coherent ∙ ground (arith, stored)
      ]

  -- A node with no contracts that imports an exported state finds the addresses and holds the
  -- parameters that the exporting node held, and answers alike for types that are not defined.
  pub init_genesis-export_genesis :
      (D : Type 0) {W : Type 0} (d : DeliverServices W) (s fresh : PoeState W)
      → fresh.registry ≡ no_contracts
      → let i = init_genesis d parse (export_genesis {D = D} {W = W} address_text s) fresh in
        (i.0 ≡ ok tt)
        × (i.1.params ≡ s.params)
        × ((t : ℕ)
            → get_poe_contract_address t i.1.registry
              ≡ get_poe_contract_address t (restarted s.registry))
  unfolding init_genesis export_genesis
  init_genesis-export_genesis D d s fresh empty =
      let (fine, coherent, at) =
        exported-stored address_text parse parse-text s.registry contract_types no_contracts
          (λ u b e. ground (arith, e)) in
      (ground (arith, empty, fine), refl, λ t. rw empty (exported-found s.registry t))
