-- ===== src/Poe/Genesis/State/Import.antt =====
-- The import of a dump and the export, x/poe/keeper/genesis.go, on the addresses of the contracts.
use tgrade.Base.{
  ℕ, ◌+◌, ◌≤◌, ◌≡◌, refl, subst, ◌∙◌, ⊤, true, false, some, List, [], ◌∷◌, map, length, ok,
  ok-cases, Bool-cases, inl, inr, ◌⊎◌, arith, ◌==◌, All,
}
use tgrade.Poe.Registry.{
  Registry, validate_contract_type, set_poe_contract_address, get_poe_contract_address,
}
use tgrade.Poe.Registry.Lookup.{
  IsCoherent, get_poe_contract_address-lookup, set_poe_contract_address-IsCoherent,
}
use tgrade.Poe.Genesis.{GenesisServices, PoeContract, validate_poe_contract, validate_params}
use tgrade.Poe.Genesis.State.{
  GenesisState, import_dump, elem_type, check_contracts, validate_import_dump, validate_genesis,
  DeliverServices, PoeState, import_contracts, init_genesis,
}
use tgrade.Poe.Genesis.State.Complete.{AreDistinct, AreBetween, elem_type-all}

abbrev pub types_of : List PoeContract → List ℕ
types_of cs = map (λ (c : PoeContract). c.contract_type) cs

abbrev AreNewTypes : List ℕ → List ℕ → Type 0
AreNewTypes seen [] = ⊤
AreNewTypes seen (t ∷ ts) = (elem_type t seen ≡ false) × AreNewTypes seen ts

AreNewTypes-cons :
    (s : ℕ) (seen ts : List ℕ)
    → AreNewTypes (s ∷ seen) ts
    → (elem_type s ts ≡ false) × AreNewTypes seen ts
unfolding elem_type
AreNewTypes-cons s seen [] h = (refl, tt)
AreNewTypes-cons s seen (t ∷ ts) h =
    let (later, kept) = AreNewTypes-cons s seen ts h.1 in
    (ground (arith, h.0, later), (ground (arith, h.0), kept))

valid_type : (t : ℕ) → 1 ≤ t → t ≤ 11 → validate_contract_type t ≡ ok tt
unfolding validate_contract_type
valid_type t low high = ground arith

module _ {D : Type 0} (v : GenesisServices D) where
  -- The address parses.
  abbrev Parses : PoeContract → Type 0
  Parses c = (a : ℕ) × (v.messages.acc_address_from_bech32 c.address ≡ ok a)

  validate_poe_contract-eq-ok :
      (c : PoeContract)
      → validate_poe_contract v c ≡ ok tt
      → Parses c × (1 ≤ c.contract_type) × (c.contract_type ≤ 11)
  unfolding validate_poe_contract validate_contract_type
  validate_poe_contract-eq-ok c h = elim (ok-cases (v.messages.acc_address_from_bech32 c.address)) [
    | inr bad ↦ absurd (ground (arith, bad))
    | inl (a, e) ↦ ((a, e), ground (arith, e), ground (arith, e))
  ]

  check_contracts-step :
      (seen : List ℕ) (c : PoeContract) (cs : List PoeContract) (out : List ℕ)
      → check_contracts v seen (c ∷ cs) ≡ ok out
      → (validate_poe_contract v c ≡ ok tt)
        × (elem_type c.contract_type seen ≡ false)
        × (check_contracts v (c.contract_type ∷ seen) cs ≡ ok out)
  unfolding check_contracts
  check_contracts-step seen c cs out h = elim (ok-cases (validate_poe_contract v c)) [
    | inr bad ↦ absurd (ground (arith, bad))
    | inl (o, fine) ↦ (fine, ground (arith, fine), ground (arith, fine))
  ]

  check_contracts-AreDistinct :
      (seen : List ℕ) (cs : List PoeContract) (out : List ℕ)
      → check_contracts v seen cs ≡ ok out
      → AreDistinct (types_of cs)
        × AreNewTypes seen (types_of cs)
        × All Parses cs
        × AreBetween 11 (types_of cs)
        × (length out ≡ length (types_of cs) + length seen)
  unfolding check_contracts
  check_contracts-AreDistinct seen [] out h = (tt, tt, tt, tt, ground (arith, h))
  check_contracts-AreDistinct seen (c ∷ cs) out h =
      let (fine, fresh, run) = check_contracts-step seen c cs out h in
      let (distinct, apart, parse, between, count) =
        check_contracts-AreDistinct (c.contract_type ∷ seen) cs out run in
      let (here, kept) = AreNewTypes-cons c.contract_type seen (types_of cs) apart in
      let (parses, low, high) = validate_poe_contract-eq-ok c fine in
      ((here, distinct), (fresh, kept), (parses, parse), (low, high, between), omega (arith, count))

  -- The dump has an entry of the type whose address parses to `a`.
  abbrev pub Lists : List PoeContract → ℕ → ℕ → Type 0
  Lists [] t a = ⊥
  Lists (c ∷ cs) t a =
      ((c.contract_type ≡ t) × (v.messages.acc_address_from_bech32 c.address ≡ ok a)) ⊎ Lists cs t a

  import_contracts-other :
      (cs : List PoeContract) (r : Registry) (t : ℕ)
      → All Parses cs
      → elem_type t (types_of cs) ≡ false
      → (import_contracts v.messages.acc_address_from_bech32 cs r).1.store t ≡ r.store t
  unfolding import_contracts elem_type set_poe_contract_address
  import_contracts-other [] r t p h = refl
  import_contracts-other (c ∷ cs) r t ((a, e), p) h =
      ground
        (arith, e, import_contracts-other cs (set_poe_contract_address c.contract_type a r) t p)

  stored :
      (c : PoeContract) (cs : List PoeContract) (r : Registry) (a t : ℕ)
      → All Parses cs
      → (c.contract_type == t) ≡ true
      → elem_type c.contract_type (types_of cs) ≡ false
      → (import_contracts v.messages.acc_address_from_bech32 cs
            (set_poe_contract_address c.contract_type a r)).1.store
          t
        ≡ some a
  unfolding set_poe_contract_address
  stored c cs r a t p same fresh =
      let eq : c.contract_type ≡ t = ground (arith, same) in
      import_contracts-other cs (set_poe_contract_address c.contract_type a r) t p
        (subst (λ u. elem_type u (types_of cs) ≡ false) eq fresh)
      ∙ ground (arith, eq)

  import_contracts-Lists :
      (cs : List PoeContract) (r : Registry)
      → All Parses cs
      → AreDistinct (types_of cs)
      → IsCoherent r
      → let r' = import_contracts v.messages.acc_address_from_bech32 cs r in
        (r'.0 ≡ ok tt)
        × IsCoherent r'.1
        × ((t : ℕ)
            → elem_type t (types_of cs) ≡ true
            → (a : ℕ) × (r'.1.store t ≡ some a) × Lists cs t a)
  unfolding import_contracts elem_type
  import_contracts-Lists [] r p d h = (refl, h, λ t e. cc)
  import_contracts-Lists (c ∷ cs) r ((a, e), p) (fresh, d) h =
      let r₁ = set_poe_contract_address c.contract_type a r in
      let (fine, coherent, found) =
        import_contracts-Lists cs r₁ p d
          (set_poe_contract_address-IsCoherent c.contract_type a r h) in
      (
        ground (arith, e, fine),
        ground (arith, e, coherent),
        λ t there. elim (Bool-cases (c.contract_type == t)) [
          | inl same ↦ (
            a,
            ground (arith, e, same, fresh, stored c cs r a t p same fresh),
            inl (ground (arith, same), e),
          )
          | inr other ↦
              let (b, at, listed) = found t (ground (arith, there, other)) in
              (b, ground (arith, e, at), inr listed)
        ],
      )

  -- What is read from a valid genesis state with a dump: the types are all there.
  validated :
      (g : GenesisState D) (cs : List PoeContract)
      → g.setup_mode ≡ import_dump cs
      → validate_genesis v g ≡ ok tt
      → All Parses cs
        × AreDistinct (types_of cs)
        × ((t : ℕ) → 1 ≤ t → t ≤ 11 → elem_type t (types_of cs) ≡ true)
  unfolding validate_genesis validate_import_dump
  validated g cs dump valid = elim (ok-cases (validate_params v g.params)) [
    | inr bad ↦ absurd (ground (arith, bad))
    | inl (o, p) ↦ elim (ok-cases (check_contracts v [] cs)) [
      | inr bad ↦ absurd (ground (arith, p, dump, bad))
      | inl (out, run) ↦
          let (distinct, apart, parse, between, count) =
            check_contracts-AreDistinct [] cs out run in
          let all_types : length out ≡ 11 = ground (arith, p, dump, run) in
          (
            parse,
            distinct,
            λ t low high.
                elem_type-all 11 t (types_of cs) distinct between (omega (arith, count, all_types))
                  low high,
          )
    ]
  ]

  -- A genesis state with a dump that passes its validation is imported with no error, and then each of
  -- the eleven contracts is found, at an address that the dump lists for it.
  pub init_genesis-Complete :
      {W : Type 0} (d : DeliverServices W) (g : GenesisState D) (cs : List PoeContract)
      (s : PoeState W)
      → g.setup_mode ≡ import_dump cs
      → validate_genesis v g ≡ ok tt
      → IsCoherent s.registry
      → let r = init_genesis d v.messages.acc_address_from_bech32 g s in
        (r.0 ≡ ok tt)
        × ((t : ℕ)
            → 1 ≤ t
            → t ≤ 11
            → (a : ℕ) × (get_poe_contract_address t r.1.registry ≡ ok a) × Lists cs t a)
  unfolding init_genesis
  init_genesis-Complete d g cs s dump valid coherent =
      let (parse, distinct, all_types) = validated g cs dump valid in
      let (fine, coherent', found) = import_contracts-Lists cs s.registry parse distinct coherent in
      (
        ground (arith, dump, fine),
        λ t low high.
            let (a, at, listed) = found t (all_types t low high) in
            (
              a,
              ground (
                arith,
                dump,
                get_poe_contract_address-lookup t
                    (import_contracts v.messages.acc_address_from_bech32 cs s.registry).1 coherent',
                at,
                valid_type t low high,
              ),
              listed,
            ),
      )
