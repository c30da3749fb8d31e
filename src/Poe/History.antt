-- ===== src/Poe/History.antt =====
-- x/poe/keeper/historical_info.go: the block headers that the module keeps for IBC. The store maps a
-- height to a header of type `H`; block heights are not negative, and a loop index below zero ends
-- the loop.
pub mod Window
use tgrade.Base.{ℕ, suc, zero, ◌-◌, ◌≡◌, Option, none, some, ◌==◌, ltb, if◌then◌else◌, update}

abbrev pub Infos : Type 0 → Type 0
Infos H = ℕ → Option H

module _ {H : Type 0} where
  unfoldable pub get_historical_info : ℕ → Infos H → Option H
  get_historical_info height s = s height

  unfoldable pub set_historical_info : ℕ → H → Infos H → Infos H
  set_historical_info height header s = update s height (some header)

  unfoldable pub delete_historical_info : ℕ → Infos H → Infos H
  delete_historical_info height s = update s height none

  -- The loop of `TrackHistoricalInfo`, from index `i` down to 0 or to the first empty entry.
  unfoldable pub prune : ℕ → Infos H → Infos H
  unfolding get_historical_info delete_historical_info
  prune zero s = elim (get_historical_info zero s) [
    | some _ ↦ delete_historical_info zero s
    | none ↦ s
  ]
  prune (suc i) s =
      let rest = prune i (delete_historical_info (suc i) s) in
      elim (get_historical_info (suc i) s) [ some _ ↦ rest | none ↦ s ]

  unfoldable pub prune_below : ℕ → ℕ → Infos H → Infos H
  unfolding prune
  prune_below height entry_num s = if ltb height entry_num then s else prune (height - entry_num) s

  unfoldable pub track_historical_info : ℕ → ℕ → H → Infos H → Infos H
  unfolding prune_below set_historical_info
  track_historical_info entry_num height header s =
      let pruned = prune_below height entry_num s in
      if entry_num == 0 then pruned else set_historical_info height header pruned
