-- ===== src/Poe/Adapter/Stake.antt =====
-- What the staking contract's answer of a staked amount is read as, x/poe/contract/pt4_stake.go.
use tgrade.Base.{
  ℕ, ◌≡◌, ◌&&◌, ◌>>=◌, none, some, ok, arith, Option-cases, ◌⊎◌, inl, inr, if◌then◌else◌,
}
use tgrade.Base.Int.{ℤ, pos, eqb_ℤ}
use tgrade.Poe.Adapter.{Querier, StakedAmounts, query_contract, staked, query_staked_amount}

module _ {S : Type 0} (q : Querier S) (at op : ℕ) (s : S) (resp : StakedAmounts)
    (answered : query_contract q q.read_staked at (staked (q.address_text op)) s ≡ ok resp) where
  -- Of two amounts that are integers the result is that of their addition, or no value where both are zero.
  pub query_staked_amount_sum :
      (liquid vesting : ℤ)
      → q.new_int_from_string resp.liquid.amount ≡ some liquid
      → q.new_int_from_string resp.vesting.amount ≡ some vesting
      → query_staked_amount q at op s ≡ (
          if eqb_ℤ liquid (pos 0) && eqb_ℤ vesting (pos 0)
          then ok none
          else q.add_int liquid vesting >>= λ sum. ok (some sum))
  unfolding query_staked_amount
  query_staked_amount_sum liquid vesting l m = ground (arith, answered, l, m)

  -- Where an amount of the contract's answer is no integer, the query of the staked amount reports no
  -- error: the result is no value, as for an operator with nothing staked.
  pub query_staked_amount_lem :
      (q.new_int_from_string resp.liquid.amount ≡ none)
        ⊎ (q.new_int_from_string resp.vesting.amount ≡ none)
      → query_staked_amount q at op s ≡ ok none
  unfolding query_staked_amount
  query_staked_amount_lem (inl l) = ground (arith, answered, l)
  query_staked_amount_lem (inr m) = elim (Option-cases (q.new_int_from_string resp.liquid.amount)) [
    | inl l ↦ ground (arith, answered, l)
    | inr (x, l) ↦ ground (arith, answered, l, m)
  ]
