-- ===== src/Base/Coin.antt =====
-- A coin, as the code passes it to the bank.
use Prim.Native.String.{String}
use tgrade.Base.Int.{ℤ}

pub record Coin : Type 0 where
  pub denom : String
  pub amount : ℤ
