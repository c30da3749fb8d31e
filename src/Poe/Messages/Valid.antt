-- ===== src/Poe/Messages/Valid.antt =====
-- Which messages of x/poe/types/msg.go pass `ValidateBasic`.
use tgrade.Base.{
  ℕ, String, str_eq, ◌≡◌, ◌≢◌, ◌↔◌, ◌⊎◌, inl, inr, ◌<◌, ◌≤◌, ◌+◌, Bool, true, false, not, some, ok,
  err, panic, is_some, arith, ◌==◌, ok-cases, invalid_request, ok-cases, invalid_request,
  Bool-cases, Option-cases, eq_iff,
}
use tgrade.Base.Int.{pos, negsuc}
use tgrade.Poe.Unbonding.{UnbondAmount}
use tgrade.Poe.Messages.{
  MsgCreateValidator, MessageServices, eq_description, all_fields, check_amount, check_moniker,
  validate_create_validator,
}

-- How the SDK's coins behave: a coin with an amount is valid if its denomination is and the amount is
-- not negative; coins of one denomination add up, below the bound of the integers, and coins of two
-- make the addition panic.
pub record CoinLaws (v : MessageServices) (denom_ok : String → Bool) (bound : ℕ) : Type 0 where
  pub valid_lem :
      (c : UnbondAmount) (n : ℕ) → c.amount ≡ some (pos n) → v.is_valid c ≡ ok (denom_ok c.denom)
  pub negative_lem :
      (c : UnbondAmount) (n : ℕ) → c.amount ≡ some (negsuc n) → v.is_valid c ≡ ok false
  pub zero_lem : (c : UnbondAmount) (n : ℕ) → c.amount ≡ some (pos n) → v.is_zero c ≡ ok (n == 0)
  pub positive_lem :
      (c : UnbondAmount) (n : ℕ) → c.amount ≡ some (pos n) → v.is_positive c ≡ ok (not (n == 0))
  pub add_lem :
      (a b : UnbondAmount) (n m : ℕ)
      → a.amount ≡ some (pos n)
      → b.amount ≡ some (pos m)
      → a.denom ≡ b.denom
      → n + m < bound
      → (c : UnbondAmount) × (v.add a b ≡ ok c) × (c.amount ≡ some (pos (n + m)))
  pub add_panics :
      (a b : UnbondAmount) (n m : ℕ)
      → a.amount ≡ some (pos n)
      → b.amount ≡ some (pos m)
      → a.denom ≢ b.denom
      → v.add a b ≡ panic

module _ (v : MessageServices) (denom_ok : String → Bool) (bound : ℕ)
    (laws : CoinLaws v denom_ok bound) where
  -- A valid coin and its amount.
  abbrev pub IsAmount : UnbondAmount → ℕ → Type 0
  IsAmount c n = (c.amount ≡ some (pos n)) × (denom_ok c.denom ≡ true)

  -- An amount that the check lets through, or one that it refuses.
  IsAmount-cases :
      (c : UnbondAmount)
      → ((n : ℕ) × IsAmount c n × (check_amount v c ≡ ok tt))
        ⊎ ((((n : ℕ) → ¬ IsAmount c n)) × (check_amount v c ≡ err invalid_request))
  unfolding check_amount
  IsAmount-cases c = elim (Option-cases c.amount) [
    | inl e ↦ inr (λ n a. cc, ground (arith, e))
    | inr (pos n, e) ↦ elim (Bool-cases (denom_ok c.denom)) [
      | inl good ↦ inl (n, (e, good), ground (arith, e, good, laws.valid_lem c n e))
      | inr bad ↦ inr (λ m a. cc (a.1), ground (arith, e, bad, laws.valid_lem c n e))
    ]
    | inr (negsuc n, e) ↦
        inr (λ m a. ground (arith, e, a.0), ground (arith, e, laws.negative_lem c n e))
  ]

  IsAmount-check_amount : (c : UnbondAmount) (n : ℕ) → IsAmount c n → check_amount v c ≡ ok tt
  IsAmount-check_amount c n good = elim (IsAmount-cases c) [
    | inl (m, good', e) ↦ e
    | inr (never, bad) ↦ absurd (never n good)
  ]

  -- A message to create a validator that is well formed.
  abbrev pub IsCreatable : MsgCreateValidator → Type 0
  IsCreatable msg =
      (a : ℕ) × (n : ℕ) × (m : ℕ) × (v.acc_address_from_bech32 msg.operator_address ≡ ok a)
      × (v.is_empty_address a ≡ false)
      × (is_some msg.pubkey ≡ true)
      × IsAmount msg.amount n
      × IsAmount msg.vesting_amount m
      × (msg.amount.denom ≡ msg.vesting_amount.denom)
      × (0 < n + m)
      × (eq_description msg.description (all_fields "") ≡ false)
      × (3 ≤ v.byte_length msg.description.moniker)

  validated-IsCreatable :
      (msg : MsgCreateValidator)
      → ((n m : ℕ) → IsAmount msg.amount n → IsAmount msg.vesting_amount m → n + m < bound)
      → validate_create_validator v msg ≡ ok tt
      → IsCreatable msg
  unfolding validate_create_validator check_moniker
  validated-IsCreatable msg small h =
      elim (ok-cases (v.acc_address_from_bech32 msg.operator_address)) [
        | inr bad ↦ absurd (ground (arith, bad))
        | inl (a, parsed) ↦ elim (IsAmount-cases msg.amount) [
          | inr (never, bad) ↦ absurd (ground (arith, parsed, bad))
          | inl (n, good, e) ↦ elim (IsAmount-cases msg.vesting_amount) [
            | inr (never, bad) ↦ absurd (ground (arith, parsed, e, bad))
            | inl (m, good', e') ↦
                elim (Bool-cases (str_eq msg.amount.denom msg.vesting_amount.denom)) [
                  | inr other ↦ absurd (
                      ground (
                        arith,
                        parsed,
                        e,
                        e',
                        laws.add_panics msg.amount msg.vesting_amount n m good.0 good'.0
                            (λ same. cc ((eq_iff _ _).1 same)),
                      ))
                  | inl same ↦
                      let alike = (eq_iff msg.amount.denom msg.vesting_amount.denom).0 same in
                      let (c, added, total) =
                        laws.add_lem msg.amount msg.vesting_amount n m good.0 good'.0 alike
                          (small n m good good') in
                      (
                        a,
                        n,
                        m,
                        parsed,
                        ground (arith, parsed),
                        ground (arith, parsed),
                        good,
                        good',
                        alike,
                        ground (arith, parsed, e, e', added, laws.zero_lem c (n + m) total),
                        ground (arith, parsed, e, e', added, laws.zero_lem c (n + m) total),
                        ground (arith, parsed, e, e', added, laws.zero_lem c (n + m) total),
                      )
                ]
          ]
        ]
      ]

  IsCreatable-validated :
      (msg : MsgCreateValidator)
      → ((n m : ℕ) → IsAmount msg.amount n → IsAmount msg.vesting_amount m → n + m < bound)
      → IsCreatable msg
      → validate_create_validator v msg ≡ ok tt
  unfolding validate_create_validator check_moniker
  IsCreatable-validated msg small
        (a, n, m, parsed, real, key, good, good', same, some_amount, described, named) =
      let (c, added, total) =
        laws.add_lem msg.amount msg.vesting_amount n m good.0 good'.0 same (small n m good good') in
      ground (
        arith,
        parsed,
        real,
        key,
        IsAmount-check_amount msg.amount n good,
        IsAmount-check_amount msg.vesting_amount m good',
        added,
        laws.zero_lem c (n + m) total,
      )

  -- A message to create a validator passes exactly if its address parses and is not empty, its key is
  -- there, both amounts are not negative and of valid denominations that agree, at least one is
  -- positive, some field of the description is set and the moniker has three bytes; this for amounts
  -- whose sum the integers hold.
  pub validate_create_validator_iff :
      (msg : MsgCreateValidator)
      → ((n m : ℕ) → IsAmount msg.amount n → IsAmount msg.vesting_amount m → n + m < bound)
      → (validate_create_validator v msg ≡ ok tt) ↔ IsCreatable msg
  validate_create_validator_iff msg small =
      (validated-IsCreatable msg small, IsCreatable-validated msg small)

  -- With two valid amounts of different denominations, and an address and a key in order, the check does
  -- not refuse: it panics.
  pub validate_create_validator_panics :
      (msg : MsgCreateValidator) (a n m : ℕ)
      → v.acc_address_from_bech32 msg.operator_address ≡ ok a
      → v.is_empty_address a ≡ false
      → is_some msg.pubkey ≡ true
      → IsAmount msg.amount n
      → IsAmount msg.vesting_amount m
      → msg.amount.denom ≢ msg.vesting_amount.denom
      → validate_create_validator v msg ≡ panic
  unfolding validate_create_validator
  validate_create_validator_panics msg a n m parsed real key good good' other = ground (
    arith,
    parsed,
    real,
    key,
    IsAmount-check_amount msg.amount n good,
    IsAmount-check_amount msg.vesting_amount m good',
    laws.add_panics msg.amount msg.vesting_amount n m good.0 good'.0 other,
  )
