-- ===== src/Poe/Bootstrap/Verify.antt =====
-- `VerifyPoEContracts` of x/poe/bootstrap.go, the check of the set-up contracts. The contract infos of the
-- wasm keeper and the privileges of x/twasm are parameters; that a code is not pinned is only logged.
use tgrade.Base.{
  ℕ, ⊤, ◌≡◌, ◌↔◌, refl, String, str_eq, eq_iff, Bool, true, not, Option, some, List, [], ◌∷◌,
  Outcome, ok, ◌>>=◌, ◌>>◌, fail_if, or_err, invalid, ok-cases, Option-cases, inl, inr, arith,
}
use tgrade.Twasm.Privilege.{validator_set_update, delegator}
use tgrade.Poe.Registry.{
  Registry, contract_types, get_poe_contract_address, staking, valset, validator_voting,
}

pub record VerifyServices : Type 0 where
  pub registry : Registry
  pub address_text : ℕ → String
  -- The admin of a contract, where it is known.
  pub contract_admin : ℕ → Option String
  pub has_privileged_contract : ℕ → ℕ → Outcome Bool

module _ (v : VerifyServices) where
  -- The body of the iteration.
  unfoldable pub verify_contract : String → ℕ → Outcome ⊤
  verify_contract admin t = do
    a ← get_poe_contract_address t v.registry
    found ← or_err (v.contract_admin a) invalid
    fail_if (not (str_eq found admin)) invalid

  unfoldable pub verify_all : String → List ℕ → Outcome ⊤
  verify_all admin [] = ok tt
  verify_all admin (t ∷ ts) = let rest = verify_all admin ts in verify_contract admin t >> rest

  -- The contract of a type has a privilege.
  unfoldable pub verify_privilege : ℕ → ℕ → Outcome ⊤
  verify_privilege t privilege = do
    a ← get_poe_contract_address t v.registry
    has ← v.has_privileged_contract a privilege
    fail_if (not has) invalid

  unfoldable pub verify_poe_contracts : Outcome ⊤
  verify_poe_contracts = do
    voting ← get_poe_contract_address validator_voting v.registry
    verify_all (v.address_text voting) contract_types
    verify_privilege valset validator_set_update
    verify_privilege staking delegator

  -- The contract is registered and its admin is the given one.
  abbrev pub IsAdministered : String → ℕ → Type 0
  IsAdministered admin t =
      (a : ℕ) × (get_poe_contract_address t v.registry ≡ ok a) × (v.contract_admin a ≡ some admin)

  abbrev pub AreAdministered : String → List ℕ → Type 0
  AreAdministered admin [] = ⊤
  AreAdministered admin (t ∷ ts) = IsAdministered admin t × AreAdministered admin ts

  abbrev pub IsPrivileged : ℕ → ℕ → Type 0
  IsPrivileged t privilege =
      (a : ℕ) × (get_poe_contract_address t v.registry ≡ ok a)
      × (v.has_privileged_contract a privilege ≡ ok true)

  abbrev pub IsSetUp : Type 0
  IsSetUp =
      ((voting : ℕ) × (get_poe_contract_address validator_voting v.registry ≡ ok voting)
        × AreAdministered (v.address_text voting) contract_types)
      × IsPrivileged valset validator_set_update
      × IsPrivileged staking delegator

  verify_contract_iff :
      (admin : String) (t : ℕ) → (verify_contract admin t ≡ ok tt) ↔ IsAdministered admin t
  unfolding verify_contract
  verify_contract_iff admin t = (
    λ h. elim (ok-cases (get_poe_contract_address t v.registry)) [
      | inr bad ↦ absurd (ground (arith, bad))
      | inl (a, found) ↦ elim (Option-cases (v.contract_admin a)) [
        | inl unknown ↦ absurd (ground (arith, found, unknown))
        | inr (x, known) ↦ (a, found, ground (arith, found, known, eq_iff x admin))
      ]
    ],
    λ (a, found, known). ground (arith, found, known, eq_iff admin admin),
  )

  verify_all_iff :
      (admin : String) (ts : List ℕ) → (verify_all admin ts ≡ ok tt) ↔ AreAdministered admin ts
  unfolding verify_all
  verify_all_iff admin [] = (λ h. tt, λ h. refl)
  verify_all_iff admin (t ∷ ts) = (
    λ h. elim (ok-cases (verify_contract admin t)) [
      | inr bad ↦ absurd (ground (arith, bad))
      | inl (o, fine) ↦
          ((verify_contract_iff admin t).0 fine, (verify_all_iff admin ts).0 (ground (arith, fine)))
    ],
    λ h. ground (arith, (verify_contract_iff admin t).1 h.0, (verify_all_iff admin ts).1 h.1),
  )

  verify_privilege_iff :
      (t privilege : ℕ) → (verify_privilege t privilege ≡ ok tt) ↔ IsPrivileged t privilege
  unfolding verify_privilege
  verify_privilege_iff t privilege = (
    λ h. elim (ok-cases (get_poe_contract_address t v.registry)) [
      | inr bad ↦ absurd (ground (arith, bad))
      | inl (a, found) ↦ elim (ok-cases (v.has_privileged_contract a privilege)) [
        | inr bad ↦ absurd (ground (arith, found, bad))
        | inl (b, answer) ↦ (a, found, ground (arith, found, answer))
      ]
    ],
    λ (a, found, has). ground (arith, found, has),
  )

  -- The check passes exactly if every contract of the module is registered and known to the wasm
  -- keeper, all with the validator voting contract as their admin, and the valset contract has the
  -- privilege to update the validator set and the staking contract that to delegate.
  pub verify_poe_contracts_iff : (verify_poe_contracts ≡ ok tt) ↔ IsSetUp
  unfolding verify_poe_contracts
  verify_poe_contracts_iff = (
    λ h. elim (ok-cases (get_poe_contract_address validator_voting v.registry)) [
      | inr bad ↦ absurd (ground (arith, bad))
      | inl (voting, found) ↦ elim (ok-cases (verify_all (v.address_text voting) contract_types)) [
        | inr bad ↦ absurd (ground (arith, found, bad))
        | inl (o, all) ↦ elim (ok-cases (verify_privilege valset validator_set_update)) [
          | inr bad ↦ absurd (ground (arith, found, all, bad))
          | inl (o', update) ↦ (
            (voting, found, (verify_all_iff (v.address_text voting) contract_types).0 all),
            (verify_privilege_iff valset validator_set_update).0 update,
            (verify_privilege_iff staking delegator).0 (ground (arith, found, all, update)),
          )
        ]
      ]
    ],
    λ ((voting, found, all), update, delegate). ground (
      arith,
      found,
      (verify_all_iff (v.address_text voting) contract_types).1 all,
      (verify_privilege_iff valset validator_set_update).1 update,
      (verify_privilege_iff staking delegator).1 delegate,
    ),
  )
