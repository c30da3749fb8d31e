-- ===== src/Globalfee/Minimum.antt =====
-- When a transaction gets past the minimum fee of x/globalfee/ante.go.
use tgrade.Base.{
  ℕ, String, ◌≡◌, ◌<◌, ◌^◌, refl, Bool, true, false, some, List, [], ◌∷◌, if◌then◌else◌, Outcome,
  ok, err, insufficient_fee, arith,
}
use tgrade.Base.Int.{pos, to_int64-pos}
use tgrade.Base.Coin.{Coin}
use tgrade.Globalfee.{GasPrice, GasTx, GlobalFee, required_fees, check_fee, ante_handle}

-- What the code relies on: a coin with a valid denomination and an amount that is not negative can be
-- made, and the fee for a gas limit that is not negative is not negative.
pub record FeeLaws {W D : Type 0} (v : GlobalFee W D) (valid : String → Bool) : Type 0 where
  pub makes :
      (d : String) (n : ℕ)
      → valid d ≡ true
      → v.new_coin d (pos n) ≡ ok (record { denom = d; amount = pos n })
  pub fee_for : D → ℕ → ℕ
  pub costs : (p : D) (gas : ℕ) → v.ceil_mul p (pos gas) ≡ pos (fee_for p gas)

module _ {W D : Type 0} (v : GlobalFee W D) (valid : String → Bool) (laws : FeeLaws v valid) where
  -- The minimum fee in each denomination.
  abbrev pub minimum : ℕ → List (GasPrice D) → List Coin
  minimum gas [] = []
  minimum gas (p ∷ ps) =
      record { denom = p.denom; amount = pos (laws.fee_for p.price gas) } ∷ minimum gas ps

  abbrev pub all_valid : List (GasPrice D) → Bool
  all_valid [] = true
  all_valid (p ∷ ps) = if valid p.denom then all_valid ps else false

  required_fees-minimum :
      (gas : ℕ) (ps : List (GasPrice D))
      → all_valid ps ≡ true
      → required_fees v (pos gas) ps ≡ ok (minimum gas ps)
  unfolding required_fees
  required_fees-minimum gas [] h = refl
  required_fees-minimum gas (p ∷ ps) h = ground (
    arith,
    laws.costs p.price gas,
    laws.makes p.denom (laws.fee_for p.price gas),
    required_fees-minimum gas ps,
  )

  -- The fee is enough: nothing is asked for, or one denomination reaches its minimum.
  abbrev pub is_enough : List (GasPrice D) → GasTx → Bool
  is_enough prices tx =
      if v.is_zero prices then true else v.is_any_gte tx.fee (minimum tx.gas prices)

  check_fee_lem :
      (ps : List (GasPrice D)) (tx : GasTx)
      → all_valid ps ≡ true
      → tx.gas < 2 ^ 63
      → check_fee v ps tx ≡ (if is_enough ps tx then ok tt else err insufficient_fee)
  unfolding check_fee
  check_fee_lem ps tx h g =
      rw (to_int64-pos tx.gas g, check_fee, required_fees-minimum tx.gas ps h) (ground arith)

  module _ {A : Type 0} (next : W → Outcome A × W) where
    -- With prices in valid denominations and a gas limit below 2^63, a transaction that is no
    -- simulation goes on exactly where its fee reaches the minimum in one denomination, as the
    -- comparison of coins decides, or where all prices are zero; else it fails with the error of
    -- insufficient fees and writes nothing.
    pub ante_handle_lem :
        (ps : List (GasPrice D)) (tx : GasTx) (w : W)
        → v.minimum_gas_prices w ≡ some ps
        → all_valid ps ≡ true
        → tx.gas < 2 ^ 63
        → ante_handle v false (some tx) next w
          ≡ (if is_enough ps tx then next w else (err insufficient_fee, w))
    unfolding ante_handle
    ante_handle_lem ps tx w e h g = rw (e, ante_handle, check_fee_lem ps tx h g) (ground arith)
