-- ===== src/Globalfee/Tests.antt =====
-- A concrete run of x/globalfee.
use tgrade.Base.{
  ℕ, ⊤, ◌≡◌, ◌*◌, refl, true, false, some, List, [], ◌∷◌, if◌then◌else◌, ok, err, insufficient_fee,
  arith,
}
use tgrade.Base.Int.{pos, negsuc}
use tgrade.Globalfee.{GasPrice, GasTx, GlobalFee, ante_handle}
use tgrade.Globalfee.Minimum.{FeeLaws, is_enough, ante_handle_lem}

abbrev price_list : List (GasPrice ℕ)
price_list = record { denom = "utgd"; price = 2 } ∷ []

-- Prices are whole numbers, and a fee is enough if there is one.
abbrev whole : GlobalFee ⊤ ℕ
whole = record {
  minimum_gas_prices = λ w. some price_list;
  is_zero = λ ps. false;
  ceil_mul = λ p g. elim g [ pos n ↦ pos (p * n) | negsuc n ↦ negsuc n ];
  new_coin = λ d n. ok (record { denom = d; amount = n });
  is_any_gte = λ xs ys. elim xs [ [] ↦ false | _ ∷ _ ↦ true ];
}

whole_laws : FeeLaws whole (λ d. true)
whole_laws = record { makes = λ d n h. refl; fee_for = λ p g. p * g; costs = λ p g. refl }

abbrev cheap : GasTx
cheap = record { gas = 100; fee = [] }

ante_handle_lem_example : ante_handle whole false (some cheap) (λ w. (ok tt, w)) tt ≡ (
    if is_enough whole (λ d. true) whole_laws price_list cheap
    then (ok tt, tt)
    else (err insufficient_fee, tt))
ante_handle_lem_example =
    ante_handle_lem whole (λ d. true) whole_laws (λ w. (ok tt, w)) price_list cheap tt refl refl
      (omega arith)
