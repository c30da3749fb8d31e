-- ===== src/Poe/Queries/Delegations.antt =====
-- Who has a delegation, by the queries of x/poe/keeper/legacy_staking_querier.go.
use tgrade.Base.{
  ℕ, String, str_eq, eq_iff, ◌≡◌, ◌↔◌, refl, sym, subst, Bool-cases, false, none, some, Outcome, ok,
  err, panic, ok-cases, inl, inr, arith,
}
use tgrade.Base.Int.{ℤ}
use tgrade.Base.Coin.{Coin}
use tgrade.Poe.Plugin.{PluginServices, bond_denom, staked_amount}
use tgrade.Poe.Queries.{
  QueryServices, DelegationResponse, is_status_not_found, validator_delegation,
  validator_delegations, delegation,
}

module _ {H S : Type 0} (v : PluginServices S) (d : QueryServices H S) (s : S) where
  abbrev pub IsDelegated : String → String → DelegationResponse → Type 0
  IsDelegated delegator operator r =
      (delegator ≡ operator)
      × (str_eq operator "" ≡ false)
      × (r.address ≡ operator)
      × (op : ℕ) × (n : ℤ) × (v.acc_address_from_bech32 operator ≡ ok op)
      × (staked_amount v s op ≡ ok (some n))
      × (d.new_coin bond_denom n ≡ ok r.balance)

  -- A delegation that is found is of one operator, with the balance that the module's query gives.
  delegation-operator :
      (operator : String) (r : DelegationResponse) (b : Outcome Coin)
      → str_eq operator "" ≡ false
      → delegation v d s (some (operator, operator)) ≡ ok r
      → validator_delegation v d s (some operator) ≡ b
      → (r.address ≡ operator) × (b ≡ ok r.balance)
  unfolding delegation validator_delegations
  delegation-operator operator r (ok c) e h q =
      let itself = (eq_iff operator operator).1 refl in
      (ground (arith, e, h, q, itself), ground (arith, e, h, q, itself))
  delegation-operator operator r (err x) e h q =
      let itself = (eq_iff operator operator).1 refl in
      elim (Bool-cases (is_status_not_found x)) [
        | inl missing ↦ absurd (ground (arith, e, h, q, itself, missing))
        | inr other ↦ absurd (ground (arith, e, h, q, itself, other))
      ]
  delegation-operator operator r panic e h q =
      let itself = (eq_iff operator operator).1 refl in absurd (ground (arith, e, h, q, itself))

  validator_delegation-ok :
      (operator : String) (c : Coin)
      → validator_delegation v d s (some operator) ≡ ok c
      → (op : ℕ) × (n : ℤ) × (v.acc_address_from_bech32 operator ≡ ok op)
        × (staked_amount v s op ≡ ok (some n))
        × (d.new_coin bond_denom n ≡ ok c)
  unfolding validator_delegation
  validator_delegation-ok operator c h = elim (ok-cases (v.acc_address_from_bech32 operator)) [
    | inr bad ↦ absurd (ground (arith, bad, h))
    | inl (op, parsed) ↦ elim (ok-cases (staked_amount v s op)) [
      | inr bad ↦ absurd (ground (arith, parsed, bad, h))
      | inl (none, nothing) ↦ absurd (ground (arith, parsed, nothing, h))
      | inl (some n, staked) ↦ (op, n, parsed, staked, ground (arith, parsed, staked, h))
    ]
  ]

  -- Two addresses that differ, or are empty, have no delegation.
  delegation-same :
      (delegator operator : String) (r : DelegationResponse)
      → delegation v d s (some (delegator, operator)) ≡ ok r
      → (str_eq operator "" ≡ false) × (operator ≡ delegator)
  unfolding delegation
  delegation-same delegator operator r h = elim (Bool-cases (str_eq delegator "")) [
    | inl e ↦ absurd (ground (arith, e, h))
    | inr e ↦ elim (Bool-cases (str_eq operator "")) [
      | inl e' ↦ absurd (ground (arith, e, e', h))
      | inr e' ↦ elim (Bool-cases (str_eq operator delegator)) [
        | inl same ↦ (e', (eq_iff operator delegator).0 same)
        | inr other ↦ absurd (ground (arith, e, e', other, h))
      ]
    ]
  ]

  delegation-IsDelegated :
      (delegator operator : String) (r : DelegationResponse)
      → delegation v d s (some (delegator, operator)) ≡ ok r
      → IsDelegated delegator operator r
  delegation-IsDelegated delegator operator r h =
      let (given, same) = delegation-same delegator operator r h in
      let (named, balance) =
        delegation-operator operator r (validator_delegation v d s (some operator)) given
          (subst (λ x. delegation v d s (some (x, operator)) ≡ ok r) (sym same) h) refl in
      let (op, n, parsed, staked, coin) = validator_delegation-ok operator r.balance balance in
      (sym same, given, named, op, n, parsed, staked, coin)

  IsDelegated-delegation :
      (delegator operator : String) (r : DelegationResponse)
      → IsDelegated delegator operator r
      → delegation v d s (some (delegator, operator)) ≡ ok r
  unfolding delegation validator_delegations validator_delegation
  IsDelegated-delegation delegator operator r (same, given, named, op, n, parsed, staked, balance) =
      ground (
        arith,
        same,
        given,
        named,
        parsed,
        staked,
        balance,
        eq_iff operator delegator,
        eq_iff delegator operator,
      )

  -- The staking query finds a delegation exactly if the delegator is the operator, by an address that is
  -- not empty and parses, and has a stake that is a coin of the bond denomination; it is the answer,
  -- under that address.
  pub delegation_iff :
      (delegator operator : String) (r : DelegationResponse)
      → (delegation v d s (some (delegator, operator)) ≡ ok r) ↔ IsDelegated delegator operator r
  delegation_iff delegator operator r =
      (delegation-IsDelegated delegator operator r, IsDelegated-delegation delegator operator r)
