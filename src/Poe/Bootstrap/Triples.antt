-- ===== src/Poe/Bootstrap/Triples.antt =====
-- What the calls of x/poe/bootstrap.go leave in the registry, where they succeed: triples of a condition
-- before, a call, and a condition after on its value.
use tgrade.Base.{
  ℕ, ⊤, String, ◌≡◌, subst, ap, ◌==◌, refl, false, List, [], ◌∷◌, Outcome, ok, err, panic,
  bind-cases, ok-cases, inl, inr, arith,
}
use tgrade.Poe.Registry.{
  Registry, get_poe_contract_address, set_poe_contract_address, validate_contract_type,
  validator_voting, arbiter_pool, arbiter_pool_voting,
}
use tgrade.Poe.Unbonding.{UnbondAmount}
use tgrade.Poe.Contract.{
  Call, ◌>>=◌, pure, send, deposit_escrow, propose_voting_members, execute_proposal,
}
use tgrade.Poe.Adapter.{latest_proposal}
use tgrade.Poe.Genesis.Seed.{SeedContracts}
use tgrade.Poe.Bootstrap.Init.{
  InitMsg, validator_voting_init, to_contract_voting_rules, new_ap_trusted_circle_init_msg,
  new_arbiter_pool_voting_init_msg,
}
use tgrade.Poe.Bootstrap.{
  BootState, BootServices, on_world, read, deref, set_address, deposit_all, add_to_trusted_circle,
  add_others, first_member, instantiate_with, setup_validator_voting, setup_arbiter_pool,
  setup_arbiter_voting, setup_all, setup_engagement, setup_oversight, setup_stake, setup_mixer,
  setup_community_pool, setup_valset, setup_oc_proposals, validator_voting_wasm, arbiter_pool_wasm,
}

-- From a state with the first condition, a call that succeeds ends in one with the second.
pub record Triple {W A : Type 0} (P : Registry → Type 0) (m : Call (BootState W) A)
    (Q : A → Registry → Type 0) : Type 0 where
  pub ends : (s s' : BootState W) (a : A) → P s.registry → m s ≡ (ok a, s') → Q a s'.registry

Triple-bind :
    {W A B : Type 0} {P : Registry → Type 0} {R : A → Registry → Type 0} {Q : B → Registry → Type 0}
    (m : Call (BootState W) A) (f : A → Call (BootState W) B)
    → Triple P m R
    → ((a : A) → Triple (R a) (f a) Q)
    → Triple P (m >>= f) Q
Triple-bind m f first rest = record {
  ends = λ s s' b p h. elim (bind-cases (m s)) [
    | inr bad ↦ absurd (ground (arith, bad, h))
    | inl (a, s₁, e) ↦ (rest a).ends s₁ s' b (first.ends s s₁ a p e) (ground (arith, e, h))
  ];
}

Triple-pure :
    {W A : Type 0} {P : Registry → Type 0} {Q : A → Registry → Type 0} (o : Outcome A)
    → ((a : A) (r : Registry) → o ≡ ok a → P r → Q a r)
    → Triple {W = W} P (pure o) Q
Triple-pure {P = P} {Q = Q} o keep = record {
  ends = λ s s' a p h.
      subst (λ t. Q a t.registry) (ap (λ r. r.1) h) (keep a s.registry (ap (λ r. r.0) h) p);
}

ok-inj : {A : Type 0} {a b : A} → ok a ≡ ok b → a ≡ b
ok-inj {A} {a} {b} e = ap (λ (o : Outcome A). elim o [ ok x ↦ x | err y ↦ a | panic ↦ a ]) e

module _ {D W : Type 0} (v : BootServices D W) where
  -- The address that a contract type has.
  abbrev pub IsAt : ℕ → ℕ → Registry → Type 0
  IsAt t a r = get_poe_contract_address t r ≡ ok a

  Triple-on_world :
      {A : Type 0} {P : Registry → Type 0} (f : W → Outcome A × W)
      → Triple P (on_world v f) (λ _ r. P r)
  Triple-on_world {P = P} f = record {
    ends = λ s s' a p h. subst (λ t. P t.registry) (ap (λ r. r.1) h) p;
  }

  then_pure :
      {A B : Type 0} {P : Registry → Type 0} {Q : B → Registry → Type 0} (o : Outcome A)
      (f : A → Call (BootState W) B)
      → ((a : A) → o ≡ ok a → Triple P (f a) Q)
      → Triple P (pure o >>= f) Q
  then_pure o f rest = record {
    ends = λ s s' b p h. elim (ok-cases o) [
      | inr bad ↦ absurd (ground (arith, bad, h))
      | inl (a, e) ↦ (rest a e).ends s s' b p (ground (arith, e, h))
    ];
  }

  then_on_world :
      {A B : Type 0} {P : Registry → Type 0} {Q : B → Registry → Type 0} (g : W → Outcome A × W)
      (f : A → Call (BootState W) B)
      → ((a : A) → Triple P (f a) Q)
      → Triple P (on_world v g >>= f) Q
  then_on_world g f rest = Triple-bind (on_world v g) f (Triple-on_world g) rest

  deposit_all-Triple :
      {P : Registry → Type 0} (contract : ℕ) (deposit : UnbondAmount) (ms : List String)
      → Triple P (deposit_all v contract deposit ms) (λ _ r. P r)
  unfolding deposit_all
  deposit_all-Triple contract deposit [] = Triple-pure (ok tt) (λ a r e p. p)
  deposit_all-Triple contract deposit (m ∷ ms) = then_pure (v.acc_address_from_bech32 m) _ (λ a e.
      then_on_world (send v.executor contract a deposit_escrow (deposit ∷ [])) _
        (λ o. deposit_all-Triple contract deposit ms))

  Triple-read :
      {A : Type 0} {P : Registry → Type 0} (g : BootState W → Outcome A)
      → Triple P (read v g) (λ _ r. P r)
  Triple-read {P = P} g = record {
    ends = λ s s' a p h. subst (λ t. P t.registry) (ap (λ r. r.1) h) p;
  }

  add_others-Triple :
      {P : Registry → Type 0} (contract : ℕ) (ms : List String) (sender : ℕ)
      (deposit : UnbondAmount)
      → Triple P (add_others v contract ms sender deposit) (λ _ r. P r)
  unfolding add_others add_to_trusted_circle
  add_others-Triple contract [] sender deposit = Triple-pure (ok tt) (λ a r e p. p)
  add_others-Triple contract (m ∷ ms) sender deposit =
      then_on_world (send v.executor contract sender (propose_voting_members (m ∷ ms)) []) _ (λ o.
        Triple-bind (read v (latest_proposal v.querier (ok contract))) _ (Triple-read _) (λ latest.
          then_pure (deref v latest) _ (λ id e.
            then_on_world (send v.executor contract sender (execute_proposal id) []) _
              (λ o'. deposit_all-Triple contract deposit (m ∷ ms)))))

  instantiate_with-Triple :
      {P : Registry → Type 0} (code creator admin : ℕ) (msg : InitMsg D) (label : String)
      (deposit : List UnbondAmount)
      → Triple P (instantiate_with v code creator admin msg label deposit) (λ _ r. P r)
  unfolding instantiate_with
  instantiate_with-Triple code creator admin msg label deposit =
      then_pure (deref v (v.marshal_init msg)) _
        (λ bz e. Triple-on_world (v.instantiate code creator admin bz label deposit))

  -- The address that is stored is found, and the other types are not affected.
  set_address-found :
      {P : Registry → Type 0} (t a : ℕ)
      → validate_contract_type t ≡ ok tt
      → Triple P (set_address v t a) (λ _. IsAt t a)
  unfolding get_poe_contract_address set_poe_contract_address
  set_address-found t a valid = record {
    ends = λ s s' o p h. subst (λ u. IsAt t a u.registry) (ap (λ r. r.1) h) (ground (arith, valid));
  }

  set_address-other :
      (t a u b : ℕ) → (t == u) ≡ false → Triple (IsAt t b) (set_address v u a) (λ _. IsAt t b)
  unfolding get_poe_contract_address set_poe_contract_address
  set_address-other t a u b apart = record {
    ends =
        λ s s' o p h. subst (λ q. IsAt t b q.registry) (ap (λ r. r.1) h) (ground (arith, apart, p));
  }

  -- The set-up of the voting of the validators gives the address that it stored.
  pub setup_validator_voting-Triple :
      {P : Registry → Type 0} (boot : ℕ) (gs : SeedContracts D) (distribution : ℕ)
      → Triple P (setup_validator_voting v boot gs distribution) (IsAt validator_voting)
  unfolding setup_validator_voting validate_contract_type
  setup_validator_voting-Triple boot gs distribution =
      then_on_world (v.create boot validator_voting_wasm) _ (λ code.
        then_pure (deref v gs.validator_voting_contract_config) _ (λ config e.
          then_pure (to_contract_voting_rules v.genesis v.quo_int64 config) _ (λ rules e'.
            Triple-bind
              (instantiate_with v code boot boot
                (validator_voting_init
                  (record { rules = rules; group_address = v.address_text distribution }))
                "stakers" [])
              _ (instantiate_with-Triple code boot boot _ "stakers" [])
              (λ a.
                Triple-bind (set_address v validator_voting a) _
                  (set_address-found validator_voting a refl)
                  (λ o. then_on_world (v.set_privileged a) _ (λ o'.
                    Triple-pure (ok a)
                      (λ b r same p. subst (λ x. IsAt validator_voting x r) (ok-inj same) p)))))))

  -- The set-ups after it leave that address as it is.
  pub setup_arbiter_pool-Triple :
      (boot : ℕ) (gs : SeedContracts D) (code b : ℕ)
      → Triple
          (IsAt validator_voting b)
          (setup_arbiter_pool v boot gs code)
          (λ _. IsAt validator_voting b)
  unfolding setup_arbiter_pool
  setup_arbiter_pool-Triple boot gs code b =
      then_pure (deref v gs.arbiter_pool_contract_config) _ (λ config e₁.
        then_pure (new_ap_trusted_circle_init_msg v.genesis v.quo_int64 config) _ (λ msg e₂.
          then_pure (first_member v gs.arbiter_pool_members) _ (λ members e₃.
            then_pure (v.acc_address_from_bech32 members.0) _ (λ first e₄.
              then_pure (v.new_coins config.escrow_amount) _ (λ coins e₅.
                Triple-bind (instantiate_with v code first boot msg "arbiter_pool" coins) _
                  (instantiate_with-Triple code first boot msg "arbiter_pool" coins)
                  (λ a.
                    Triple-bind (set_address v arbiter_pool a) _
                      (set_address-other validator_voting a arbiter_pool b refl)
                      (λ o.
                        Triple-bind (add_others v a members.1 first config.escrow_amount) _
                          (add_others-Triple a members.1 first config.escrow_amount)
                          (λ o'. Triple-pure (ok a) (λ x r same p. p)))))))))

  pub setup_arbiter_voting-Triple :
      (boot : ℕ) (gs : SeedContracts D) (pool b : ℕ)
      → Triple
          (IsAt validator_voting b)
          (setup_arbiter_voting v boot gs pool)
          (λ _. IsAt validator_voting b)
  unfolding setup_arbiter_voting
  setup_arbiter_voting-Triple boot gs pool b =
      then_on_world (v.create boot arbiter_pool_wasm) _ (λ code.
        then_pure (deref v gs.arbiter_pool_contract_config) _ (λ config e₁.
          then_pure
            (new_arbiter_pool_voting_init_msg v.genesis v.quo_int64 config (v.address_text pool)) _
            (λ msg e₂.
              Triple-bind (instantiate_with v code boot boot msg "arbiter pool voting" []) _
                (instantiate_with-Triple code boot boot msg "arbiter pool voting" [])
                (λ a.
                  Triple-bind (set_address v arbiter_pool_voting a) _
                    (set_address-other validator_voting a arbiter_pool_voting b refl)
                    (λ o. Triple-on_world (v.pin_code code))))))

  Triple-any :
      {A : Type 0} {P : Registry → Type 0} (m : Call (BootState W) A) → Triple P m (λ _ _. ⊤)
  Triple-any m = record { ends = λ s s' a p h. tt }

  -- A set-up of all contracts that succeeds gives the bootstrap account of the genesis state and the
  -- address that the registry has for the contract of the validators' voting.
  pub setup_all-Triple :
      (gs : SeedContracts D)
      → Triple
          (λ _. ⊤)
          (setup_all v gs)
          (λ accounts r.
            (v.acc_address_from_bech32 gs.bootstrap_account_address ≡ ok accounts.0)
            × IsAt validator_voting accounts.1 r)
  unfolding setup_all
  setup_all-Triple gs =
      then_pure (v.acc_address_from_bech32 gs.bootstrap_account_address) _ (λ boot parsed.
        Triple-bind (setup_engagement v boot gs) _ (Triple-any _) (λ e.
          Triple-bind (setup_oversight v boot gs) _ (Triple-any _) (λ oc.
            Triple-bind (setup_stake v boot gs) _ (Triple-any _) (λ stake.
              Triple-bind (setup_mixer v boot gs e.0 stake) _ (Triple-any _) (λ mixer.
                Triple-bind (setup_community_pool v boot gs e.0) _ (Triple-any _) (λ pool.
                  Triple-bind (setup_valset v boot gs mixer e.0 pool e.1) _ (Triple-any _) (λ vs.
                    Triple-bind (setup_oc_proposals v boot gs oc.0 e.0 vs.0) _ (Triple-any _) (λ o.
                      Triple-bind (setup_validator_voting v boot gs vs.1) _
                        (setup_validator_voting-Triple boot gs vs.1)
                        (λ voting.
                          Triple-bind (setup_arbiter_pool v boot gs oc.1) _
                            (setup_arbiter_pool-Triple boot gs oc.1 voting)
                            (λ ap_address.
                              Triple-bind (setup_arbiter_voting v boot gs ap_address) _
                                (setup_arbiter_voting-Triple boot gs ap_address voting)
                                (λ o'. Triple-pure (ok (boot, voting)) (λ accounts r same p.
                                  subst
                                    (λ x.
                                      (v.acc_address_from_bech32 gs.bootstrap_account_address
                                        ≡ ok x.0)
                                      × IsAt validator_voting x.1 r)
                                    (ok-inj same) (parsed, p)))))))))))))
