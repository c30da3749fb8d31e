-- ===== src/Poe/Bootstrap/Setup.antt =====
-- What a successful bootstrap leaves behind, and where it panics, x/poe/bootstrap.go.
use tgrade.Base.{
  ℕ, ⊤, ◌≡◌, ◌≢◌, ◌↔◌, ◌*◌, refl, String, true, false, Bool-cases, Option, none, some, List, [],
  ◌∷◌, Outcome, ok, err, panic, is_ok, ok-cases, bind-cases, inl, inr, ◌⊎◌, arith,
}
use tgrade.Base.Int.{ℤ, pos, ◌+ℤ◌, eqb_ℤ}
use tgrade.Poe.Registry.{Registry, contract_types, get_poe_contract_address, validator_voting}
use tgrade.Poe.Genesis.{GenesisServices, ValsetContractConfig, check_ratios}
use tgrade.Poe.Genesis.Ratios.{DecimalLaws, eqb_iff, check_ratios_iff}
use tgrade.Poe.Genesis.Seed.{SeedContracts}
use tgrade.Poe.Bootstrap.Init.{decimal_from_percentage, fraction, new_valset_init_msg}
use tgrade.Poe.Bootstrap.Triples.{setup_all-Triple}
use tgrade.Poe.Bootstrap.{
  BootState, BootServices, set_migrators, setup_all, bootstrap_poe_contracts,
}

module _ {D W : Type 0} (v : BootServices D W) where
  -- The admin of every listed contract changes, one after the other; the registry is left alone.
  abbrev pub Migrates : ℕ → ℕ → List ℕ → Registry → W → W → Type 0
  Migrates old new [] r w w' = w ≡ w'
  Migrates old new (t ∷ ts) r w w' =
      (a : ℕ) × (w₁ : W) × (get_poe_contract_address t r ≡ ok a)
      × (v.update_contract_admin a old new w ≡ (ok tt, w₁))
      × Migrates old new ts r w₁ w'

  set_migrators-Migrates :
      (old new : ℕ) (ts : List ℕ) (s s' : BootState W)
      → set_migrators v old new ts s ≡ (ok tt, s')
      → (s'.registry ≡ s.registry) × Migrates old new ts s.registry s.world s'.world
  unfolding set_migrators
  set_migrators-Migrates old new [] s s' h = (ground (arith, h), ground (arith, h))
  set_migrators-Migrates old new (t ∷ ts) s s' h =
      elim (ok-cases (get_poe_contract_address t s.registry)) [
        | inr bad ↦ absurd (ground (arith, bad))
        | inl (a, found) ↦ elim (updated (v.update_contract_admin a old new s.world)) [
          | inr bad ↦ absurd (ground (arith, found, bad))
          | inl (w₁, done) ↦
              let (same, rest) =
                set_migrators-Migrates old new ts (record s { world = w₁ }) s'
                  (ground (arith, found, done)) in
              (same, (a, w₁, found, done, rest))
        ]
      ]
    where
      updated : (r : Outcome ⊤ × W) → ((w : W) × (r ≡ (ok tt, w))) ⊎ (is_ok r.0 ≡ false)
      updated (ok tt, w) = inl (w, refl)
      updated (err e, w) = inr refl
      updated (panic, w) = inr refl

  -- Each listed contract is known.
  abbrev pub AreFound : List ℕ → Registry → Type 0
  AreFound [] r = ⊤
  AreFound (t ∷ ts) r = ((a : ℕ) × (get_poe_contract_address t r ≡ ok a)) × AreFound ts r

  Migrates-AreFound :
      (old new : ℕ) (ts : List ℕ) (r : Registry) (w w' : W)
      → Migrates old new ts r w w'
      → AreFound ts r
  Migrates-AreFound old new [] r w w' m = tt
  Migrates-AreFound old new (t ∷ ts) r w w' (a, w₁, found, done, rest) =
      ((a, found), Migrates-AreFound old new ts r w₁ w' rest)

  -- What a bootstrap has done with the admins: after the set-up, those of all contracts changed from the
  -- bootstrap account of the genesis state to the contract of the validators' voting, as it is
  -- registered.
  abbrev pub HandsOver : SeedContracts D → BootState W → BootState W → Type 0
  HandsOver gs s s' =
      (old : ℕ) × (new : ℕ) × (w : W) × (setup_all v gs s
        ≡ (ok (old, new), record { registry = s'.registry; world = w }))
      × (v.acc_address_from_bech32 gs.bootstrap_account_address ≡ ok old)
      × (get_poe_contract_address validator_voting s'.registry ≡ ok new)
      × Migrates old new contract_types s'.registry w s'.world

  -- A bootstrap that succeeds leaves all eleven contracts registered. Its last calls, in the order of
  -- the contracts' names and for each contract at the address that is registered for it, changed the
  -- admin from the bootstrap account of the genesis state to the registered contract of the validators'
  -- voting.
  pub bootstrap_poe_contracts-Registers :
      (gs : SeedContracts D) (s s' : BootState W)
      → bootstrap_poe_contracts v gs s ≡ (ok tt, s')
      → AreFound contract_types s'.registry × HandsOver gs s s'
  unfolding bootstrap_poe_contracts
  bootstrap_poe_contracts-Registers gs s s' h = elim (bind-cases (setup_all v gs s)) [
    | inr bad ↦ absurd (ground (arith, bad))
    | inl ((old, new), s₁, ready) ↦
        let (same, moved) =
          set_migrators-Migrates old new contract_types s₁ s' (ground (arith, ready)) in
        let (parsed, found) = (setup_all-Triple v gs).ends s s₁ (old, new) tt ready in
        (
          rw same (Migrates-AreFound old new contract_types s₁.registry s₁.world s'.world moved),
          (old, new, s₁.world, ground (arith, ready, same), parsed, rw same found, rw same moved),
        )
  ]

-- A decimal that is not nil is zero exactly if its units are.
abbrev pub IsZeroLaw : {D : Type 0} → GenesisServices D → (D → ℤ) → Type 0
IsZeroLaw {D} v units = (d : D) → v.is_zero_dec d ≡ ok (eqb_ℤ (units d) (pos 0))

module _ {D : Type 0} (v : GenesisServices D) (quo_int64 : D → ℕ → D) (units : D → ℤ)
    (zero_lem : IsZeroLaw v units) where
  fraction-cases :
      (d : D)
      → ((units d ≡ pos 0) × (fraction v quo_int64 d ≡ panic))
        ⊎ ((units d ≢ pos 0) × (fraction v quo_int64 d ≡ ok (quo_int64 d 100)))
  unfolding fraction decimal_from_percentage
  fraction-cases d = elim (Bool-cases (eqb_ℤ (units d) (pos 0))) [
    | inl zero ↦ inl ((eqb_iff (units d) (pos 0)).0 zero, ground (arith, zero_lem d, zero))
    | inr other ↦ inr (
      λ e. ground (arith, (eqb_iff (units d) (pos 0)).1 e, other),
      ground (arith, zero_lem d, other),
    )
  ]

  fee-cases : (d : D) → (fee : Option D) × (decimal_from_percentage v quo_int64 d ≡ ok fee)
  unfolding decimal_from_percentage
  fee-cases d = elim (Bool-cases (eqb_ℤ (units d) (pos 0))) [
    | inl zero ↦ (none, ground (arith, zero_lem d, zero))
    | inr other ↦ (some (quo_int64 d 100), ground (arith, zero_lem d, other))
  ]

  -- The message to the valset contract is made exactly if neither the ratio of the engagement rewards
  -- nor that of the community pool is zero, and where one is zero, making it panics: the fraction of
  -- zero is a nil pointer that is dereferenced. This for all other values of the configuration.
  pub new_valset_init_msg_iff :
      (c : ValsetContractConfig D) (admin mixer engagement pool : String) (code : ℕ)
      → let made = new_valset_init_msg v quo_int64 c admin mixer engagement pool code in
        ((is_ok made ≡ true) ↔ (
          (units c.engagement_reward_ratio ≢ pos 0)
          × (units c.community_pool_reward_ratio ≢ pos 0)))
        × ((made ≡ panic) ↔ (
            (units c.engagement_reward_ratio ≡ pos 0)
            ⊎ (units c.community_pool_reward_ratio ≡ pos 0)))
  unfolding new_valset_init_msg
  new_valset_init_msg_iff c admin mixer engagement pool code =
      let (fee, f) = fee-cases c.fee_percentage in
      elim (fraction-cases c.engagement_reward_ratio) [
        | inl (zero, e) ↦ (
          (λ h. absurd (ground (arith, f, e, h)), λ h. absurd (h.0 zero)),
          (λ h. inl zero, λ h. ground (arith, f, e)),
        )
        | inr (present, e) ↦ elim (fraction-cases c.community_pool_reward_ratio) [
          | inl (zero, k) ↦ (
            (λ h. absurd (ground (arith, f, e, k, h)), λ h. absurd (h.1 zero)),
            (λ h. inr zero, λ h. ground (arith, f, e, k)),
          )
          | inr (other, k) ↦ (
            (λ h. (present, other), λ h. ground (arith, f, e, k)),
            (
              λ h. absurd (ground (arith, f, e, k, h)),
              λ h. elim h [ inl z ↦ absurd (present z) | inr z ↦ absurd (other z) ],
            ),
          )
        ]
      ]

  -- Ratios that give all rewards to the validators pass the validation of the genesis state, and the
  -- bootstrap's message to the valset contract panics on them.
  new_valset_init_msg_zero :
      (one : ℕ) (laws : DecimalLaws v units one) (c : ValsetContractConfig D)
      (admin mixer engagement pool : String) (code : ℕ)
      → units c.engagement_reward_ratio ≡ pos 0
      → units c.community_pool_reward_ratio ≡ pos 0
      → units c.validator_reward_ratio ≡ pos (100 * one)
      → (check_ratios v c ≡ ok tt)
        × (new_valset_init_msg v quo_int64 c admin mixer engagement pool code ≡ panic)
  unfolding ◌+ℤ◌
  new_valset_init_msg_zero one laws c admin mixer engagement pool code e k r = (
    (check_ratios_iff v units one laws c).0.1
        (ground (arith, k), ground (arith, e), ground (arith, r), ground (arith, e, k, r)),
    (new_valset_init_msg_iff c admin mixer engagement pool code).1.1 (inl e),
  )
