-- ===== src/Globalfee.antt =====
-- x/globalfee/ante.go: the minimum fee of the chain. The parameter store, the arithmetic of decimal
-- coins and the comparison of coins are parameters; a price of type `D` is multiplied by the gas limit
-- and rounded up. The handlers that follow are the argument `next`.
pub mod Minimum
mod Tests
use tgrade.Base.{
  ℕ, ⊤, String, Bool, true, false, not, ◌||◌, Option, none, some, List, [], ◌∷◌, if◌then◌else◌,
  Outcome, ok, err, panic, ◌>>=◌, tx_decode, insufficient_fee,
}
use tgrade.Base.Int.{ℤ, to_int64}
use tgrade.Base.Coin.{Coin}

pub record GasPrice (D : Type 0) : Type 0 where
  pub denom : String
  pub price : D

-- The gas limit is a uint64.
pub record GasTx : Type 0 where
  pub gas : ℕ
  pub fee : List Coin

pub record GlobalFee (W D : Type 0) : Type 0 where
  -- `none` where the parameter is not set.
  pub minimum_gas_prices : W → Option (List (GasPrice D))
  pub is_zero : List (GasPrice D) → Bool
  pub ceil_mul : D → ℤ → ℤ
  pub new_coin : String → ℤ → Outcome Coin
  pub is_any_gte : List Coin → List Coin → Bool

module _ {W D : Type 0} (v : GlobalFee W D) where
  -- The loop over the prices; the gas limit has been converted to an int64.
  unfoldable pub required_fees : ℤ → List (GasPrice D) → Outcome (List Coin)
  required_fees gas [] = ok []
  required_fees gas (p ∷ ps) =
      let rest = required_fees gas ps in
      v.new_coin p.denom (v.ceil_mul p.price gas) >>= λ c. rest >>= λ cs. ok (c ∷ cs)

  unfoldable pub check_fee : List (GasPrice D) → GasTx → Outcome ⊤
  unfolding required_fees
  check_fee prices tx =
      if v.is_zero prices
      then ok tt
      else (required_fees (to_int64 tx.gas) prices >>= λ required.
          if v.is_any_gte tx.fee required then ok tt else err insufficient_fee)

  unfoldable pub ante_handle :
      {A : Type 0} → Bool → Option GasTx → (W → Outcome A × W) → W → Outcome A × W
  unfolding check_fee
  ante_handle simulate tx next w = if simulate then next w else elim (v.minimum_gas_prices w) [
    | none ↦ next w
    | some prices ↦ elim tx [
      | none ↦ (err tx_decode, w)
      | some t ↦ elim (check_fee prices t) [
        | ok _ ↦ next w
        | err e ↦ (err e, w)
        | panic ↦ (panic, w)
      ]
    ]
  ]
