-- ===== src/Poe/Engagement/Initial.antt =====
-- When a validator's engagement points are written, x/poe/keeper/engagement.go.
use tgrade.Base.{
  ℕ, ⊤, ◌≡◌, ◌<◌, ◌≤◌, refl, Bool, true, false, Outcome, ok, err, panic, is_ok, arith, ◌⊎◌, inl,
  inr, ◌==◌, leb, Bool-cases, ok-cases, if◌then◌else◌,
}
use tgrade.Base.Coin.{Coin}
use tgrade.Poe.Engagement.{
  EngagementServices, engagement, get_engagement_points, set_engagement_points,
  set_validator_initial_engagement_points,
}
use tgrade.Poe.Registry.{get_poe_contract_address}

module _ {W : Type 0} (v : EngagementServices W) (op : ℕ) (self : Coin) (w : W) where
  -- The parameter grants points and the delegation is large enough.
  abbrev pub qualifies : Outcome Bool
  qualifies =
      if v.initial_points w == 0
      then ok false
      else v.is_all_gte self (v.minimum_delegation_amounts w)

  -- The call fails before it writes, as the comparison or the query fails; or it writes nothing as there is nothing to grant or the
  -- validator has as many points already; or it raises the points to the parameter's.
  abbrev pub Grants : Outcome ⊤ × W → Type 0
  Grants r =
      ((is_ok qualifies ≡ false) × (is_ok r.0 ≡ false) × (r.1 ≡ w))
      ⊎ ((is_ok (get_engagement_points v op w) ≡ false)
          × (qualifies ≡ ok true)
          × (is_ok r.0 ≡ false)
          × (r.1 ≡ w))
      ⊎ ((qualifies ≡ ok false) × (r ≡ (ok tt, w)))
      ⊎ ((n : ℕ) × (get_engagement_points v op w ≡ ok n)
          × (v.initial_points w ≤ n)
          × (r ≡ (ok tt, w)))
      ⊎ ((n : ℕ) × (a : ℕ) × (qualifies ≡ ok true)
          × (get_engagement_points v op w ≡ ok n)
          × (n < v.initial_points w)
          × (get_poe_contract_address engagement (v.registry w) ≡ ok a)
          × (r ≡ v.sudo_update_member a op (v.initial_points w) w))

  address_known :
      (n : ℕ)
      → get_engagement_points v op w ≡ ok n
      → (a : ℕ) × (get_poe_contract_address engagement (v.registry w) ≡ ok a)
  unfolding get_engagement_points
  address_known n e = go (get_poe_contract_address engagement (v.registry w)) refl
    where
      go :
          (o : Outcome ℕ)
          → get_poe_contract_address engagement (v.registry w) ≡ o
          → (a : ℕ) × (get_poe_contract_address engagement (v.registry w) ≡ ok a)
      go (ok a) q = (a, q)
      go (err x) q = absurd (ground (arith, q))
      go panic q = absurd (ground (arith, q))

  -- Points are written only for a validator that qualifies and has fewer, and then they are exactly
  -- those of the parameter: the points of a validator are never lowered. Where nothing is to be
  -- granted the call succeeds without a write, and it fails without a write where the
  -- delegation cannot be compared or the points cannot be read.
  pub set_validator_initial_engagement_points-Grants :
      Grants (set_validator_initial_engagement_points v op self w)
  unfolding set_validator_initial_engagement_points set_engagement_points
  set_validator_initial_engagement_points-Grants = elim (ok-cases qualifies) [
    | inr failed ↦ inl (failed, ground (arith, failed), ground (arith, failed))
    | inl (false, short) ↦ inr (inr (inl (short, ground (arith, short))))
    | inl (true, qualified) ↦ go qualified (get_engagement_points v op w) refl
  ]
    where
      go :
          qualifies ≡ ok true
          → (o : Outcome ℕ) → get_engagement_points v op w ≡ o
          → Grants (set_validator_initial_engagement_points v op self w)
      go qualified (ok n) q = elim (Bool-cases (leb (v.initial_points w) n)) [
        | inl enough ↦
            inr
              (inr (inr (inl (n, q, ground (arith, enough), ground (arith, qualified, q, enough)))))
        | inr few ↦
            let (a, e) = address_known n q in
            inr (
              inr (
                inr (
                  inr (
                    n,
                    a,
                    qualified,
                    q,
                    ground (arith, few),
                    e,
                    ground (arith, qualified, q, few, e),
                  ))))
      ]
      go qualified (err x) q =
          inr
            (inl (rw q refl, qualified, ground (arith, qualified, q), ground (arith, qualified, q)))
      go qualified panic q =
          inr
            (inl (rw q refl, qualified, ground (arith, qualified, q), ground (arith, qualified, q)))
