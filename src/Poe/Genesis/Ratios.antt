-- ===== src/Poe/Genesis/Ratios.antt =====
-- Which reward ratios of the valset contract the validation accepts, x/poe/types/genesis.go.
use tgrade.Base.{ℕ, ◌≡◌, ◌↔◌, ◌*◌, true, not, ok, arith, fail_if, ◌>>◌, invalid}
use tgrade.Base.Int.{ℤ, pos, negsuc, ◌+ℤ◌, ◌≤ℤ◌, ltb_ℤ, eqb_ℤ}
use tgrade.Poe.Genesis.{GenesisServices, ValsetContractConfig, check_ratios}

-- The SDK's decimals that are not nil are integers of units, which are compared and added as such.
pub record DecimalLaws {D : Type 0} (v : GenesisServices D) (units : D → ℤ) (one : ℕ) : Type 0 where
  pub new_lem : (n : ℕ) → units (v.new_dec n) ≡ pos (n * one)
  pub gt_lem : (a b : D) → v.gt a b ≡ ok (ltb_ℤ (units b) (units a))
  pub equal_lem : (a b : D) → v.equal_dec a b ≡ ok (eqb_ℤ (units a) (units b))
  pub add_lem : (a b : D) → (c : D) × (v.add_dec a b ≡ ok c) × (units c ≡ units a +ℤ units b)

pub eqb_iff : (a b : ℤ) → (eqb_ℤ a b ≡ true) ↔ (a ≡ b)
eqb_iff (pos n) (pos m) = ground arith
eqb_iff (pos n) (negsuc m) = ground arith
eqb_iff (negsuc n) (pos m) = ground arith
eqb_iff (negsuc n) (negsuc m) = ground arith

module _ {D : Type 0} (v : GenesisServices D) (units : D → ℤ) (one : ℕ)
    (laws : DecimalLaws v units one) where
  abbrev pub AtMostHundred : D → Type 0
  AtMostHundred d = units d ≤ℤ pos (100 * one)

  -- The ratios that pass: each is at most a hundred, and they sum up to a hundred.
  abbrev pub AreRatios : ValsetContractConfig D → Type 0
  AreRatios c =
      AtMostHundred c.community_pool_reward_ratio
      × AtMostHundred c.engagement_reward_ratio
      × AtMostHundred c.validator_reward_ratio
      × ((units c.engagement_reward_ratio +ℤ units c.community_pool_reward_ratio)
            +ℤ units c.validator_reward_ratio
          ≡ pos (100 * one))

  total : ValsetContractConfig D → ℤ
  total c =
      (units c.engagement_reward_ratio +ℤ units c.community_pool_reward_ratio)
      +ℤ units c.validator_reward_ratio

  -- The check as tests on units.
  check_ratios-units :
      (c : ValsetContractConfig D)
      → check_ratios v c ≡ (
          fail_if (ltb_ℤ (pos (100 * one)) (units c.community_pool_reward_ratio)) invalid
          >> fail_if (ltb_ℤ (pos (100 * one)) (units c.engagement_reward_ratio)) invalid
          >> fail_if (ltb_ℤ (pos (100 * one)) (units c.validator_reward_ratio)) invalid
          >> fail_if (not (eqb_ℤ (total c) (pos (100 * one)))) invalid)
  unfolding check_ratios total
  check_ratios-units c =
      let (two, added, u) = laws.add_lem c.engagement_reward_ratio c.community_pool_reward_ratio in
      let (all, added', u') = laws.add_lem two c.validator_reward_ratio in
      ground (
        arith,
        laws.gt_lem c.community_pool_reward_ratio (v.new_dec 100),
        laws.gt_lem c.engagement_reward_ratio (v.new_dec 100),
        laws.gt_lem c.validator_reward_ratio (v.new_dec 100),
        added,
        added',
        u,
        u',
        laws.equal_lem all (v.new_dec 100),
        laws.new_lem 100,
      )

  passed-AreRatios : (c : ValsetContractConfig D) → check_ratios v c ≡ ok tt → AreRatios c
  unfolding total
  passed-AreRatios c h =
      let u = check_ratios-units c in
      (
        ground (arith, u),
        ground (arith, u),
        ground (arith, u),
        (eqb_iff (total c) (pos (100 * one))).0 (ground (arith, u)),
      )

  AreRatios-passed : (c : ValsetContractConfig D) → AreRatios c → check_ratios v c ≡ ok tt
  unfolding total
  AreRatios-passed c (k, e, r, sum) =
      let u = check_ratios-units c in
      let whole = (eqb_iff (total c) (pos (100 * one))).1 sum in ground (arith, u, whole)

  negative-AreRatios :
      (c : ValsetContractConfig D)
      → units c.engagement_reward_ratio ≡ pos (100 * one)
      → units c.community_pool_reward_ratio ≡ pos (100 * one)
      → units c.validator_reward_ratio +ℤ pos (100 * one) ≡ pos 0
      → AreRatios c
  unfolding ◌+ℤ◌
  negative-AreRatios c e k r =
      (ground (arith, k), ground (arith, e), ground (arith, r), ground (arith, e, k, r))

  -- The check passes exactly for such ratios. No ratio is bounded from below: a validator ratio of
  -- minus a hundred passes with the other two at a hundred.
  pub check_ratios_iff :
      (c : ValsetContractConfig D)
      → ((check_ratios v c ≡ ok tt) ↔ AreRatios c)
        × (units c.engagement_reward_ratio ≡ pos (100 * one)
            → units c.community_pool_reward_ratio ≡ pos (100 * one)
            → units c.validator_reward_ratio +ℤ pos (100 * one) ≡ pos 0
            → check_ratios v c ≡ ok tt)
  check_ratios_iff c = (
    (passed-AreRatios c, AreRatios-passed c),
    λ e k r. AreRatios-passed c (negative-AreRatios c e k r),
  )
