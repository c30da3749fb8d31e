-- ===== src/Poe/Engagement.antt =====
-- x/poe/keeper/engagement.go: the engagement points that a new validator gets. The lookup of the contract
-- is that of the registry; the member query, the entry point of the contract and the comparison of
-- coins are parameters over a state `W`. Points are uint64, a member's weight is an int.
pub mod Initial
use tgrade.Base.{
  ℕ, ⊤, Bool, true, false, not, Option, none, some, List, ◌==◌, leb, if◌then◌else◌, Outcome, ok,
  err, panic,
}
use tgrade.Base.Int.{ℤ, to_uint64}
use tgrade.Base.Coin.{Coin}
use tgrade.Poe.Registry.{Registry, get_poe_contract_address}

abbrev pub engagement : ℕ
engagement = 3

pub record EngagementServices (W : Type 0) : Type 0 where
  pub registry : W → Registry
  pub initial_points : W → ℕ
  pub minimum_delegation_amounts : W → List Coin
  -- `NewCoins` of the coin, which panics on one that is not valid, and the comparison.
  pub is_all_gte : Coin → List Coin → Outcome Bool
  pub query_member : ℕ → ℕ → W → Outcome (Option ℤ)
  pub sudo_update_member : ℕ → ℕ → ℕ → W → Outcome ⊤ × W

module _ {W : Type 0} (v : EngagementServices W) where
  unfoldable pub get_engagement_points : ℕ → W → Outcome ℕ
  get_engagement_points op w = elim (get_poe_contract_address engagement (v.registry w)) [
    | err e ↦ err e
    | panic ↦ panic
    | ok a ↦ elim (v.query_member a op w) [
      | err e ↦ err e
      | panic ↦ panic
      | ok weight ↦ elim weight [ none ↦ ok 0 | some n ↦ ok (to_uint64 n) ]
    ]
  ]

  unfoldable pub set_engagement_points : ℕ → ℕ → W → Outcome ⊤ × W
  set_engagement_points op points w = elim (get_poe_contract_address engagement (v.registry w)) [
    | err e ↦ (err e, w)
    | panic ↦ (panic, w)
    | ok a ↦ v.sudo_update_member a op points w
  ]

  unfoldable pub set_validator_initial_engagement_points : ℕ → Coin → W → Outcome ⊤ × W
  unfolding get_engagement_points set_engagement_points
  set_validator_initial_engagement_points op self_delegation w =
      let new_points = v.initial_points w in
      if new_points == 0
      then (ok tt, w)
      else elim (v.is_all_gte self_delegation (v.minimum_delegation_amounts w)) [
        | err e ↦ (err e, w)
        | panic ↦ (panic, w)
        | ok enough ↦ if not enough then (ok tt, w) else elim (get_engagement_points op w) [
          | err e ↦ (err e, w)
          | panic ↦ (panic, w)
          | ok current ↦
              if leb new_points current then (ok tt, w) else set_engagement_points op new_points w
        ]
      ]
