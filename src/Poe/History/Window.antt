-- ===== src/Poe/History/Window.antt =====
-- What `TrackHistoricalInfo` of x/poe/keeper/historical_info.go keeps.
use tgrade.Base.{
  ℕ, suc, zero, ◌+◌, ◌-◌, ◌≤◌, ◌<◌, ◌≡◌, true, ◌&&◌, none, some, ◌==◌, ltb, leb, if◌then◌else◌,
  update, arith, is_some, Option-cases, Bool-cases, inl, inr,
}
use tgrade.Poe.History.{
  Infos, get_historical_info, delete_historical_info, set_historical_info, prune, prune_below,
  track_historical_info,
}

abbrev pub later : ℕ → ℕ → ℕ
later a b = if ltb a b then b else a

module _ {H : Type 0} where
  -- The heights from `lo` up to, but without, `hi` are stored, and no others.
  abbrev pub IsWindow : ℕ → ℕ → Infos H → Type 0
  IsWindow lo hi s = (q : ℕ) → is_some (s q) ≡ (leb lo q && ltb q hi)

  -- The same, of the heights up to `hi` only.
  abbrev IsFilled : ℕ → ℕ → Infos H → Type 0
  IsFilled lo hi s = (q : ℕ) → q ≤ hi → is_some (s q) ≡ (leb lo q && ltb q hi)

  IsFilled-shrink :
      (i lo hi : ℕ) (s : Infos H) → IsFilled lo hi s → i < hi → IsFilled lo i (update s i none)
  IsFilled-shrink i lo hi s w h q le = ground (arith, w q (omega arith))

  -- The loop that starts below the end of the window empties it up to its start.
  prune_lem :
      (i lo hi : ℕ) (s : Infos H)
      → IsFilled lo hi s
      → i < hi
      → (q : ℕ) → prune i s q ≡ (if leb lo q && leb q i then none else s q)
  unfolding prune get_historical_info delete_historical_info
  prune_lem zero lo hi s w h q = ground (arith, w zero (omega arith))
  prune_lem (suc i) lo hi s w h q = elim (Option-cases (s (suc i))) [
    | inl e ↦ rw (e, prune) (ground (arith, e, w (suc i) (omega arith)))
    | inr (x, e) ↦
        rw (e, prune)
          (ground (
            arith,
            e,
            w (suc i) (omega arith),
            prune_lem i lo (suc i) (update s (suc i) none) (IsFilled-shrink (suc i) lo hi s w h)
                (omega arith) q,
          ))
  ]

  -- What is left below the new header, and the header itself.
  track_lem :
      (n lo h : ℕ) (x : H) (s : Infos H)
      → IsWindow lo h s
      → (q : ℕ)
      → track_historical_info (suc n) h x s q
        ≡ (if q == h then some x else if ltb q (later lo (h - n)) then none else s q)
  unfolding track_historical_info prune_below set_historical_info
  track_lem n lo h x s w q = elim (Bool-cases (ltb h (suc n))) [
    | inl short ↦ ground (arith, short, w q)
    | inr long ↦
        ground
          (arith, long, w q, prune_lem (h - suc n) lo h s (λ r le. w r) (ground (arith, long)) q)
  ]

  -- At height `h`, after the heights from `lo` to `h - 1` are stored and no others, a block with a
  -- parameter of at least one stores its header and keeps exactly the last so many headers of those
  -- that were there, unchanged.
  pub track_historical_info-IsWindow :
      (n lo h : ℕ) (x : H) (s : Infos H)
      → IsWindow lo h s
      → lo ≤ h
      → 1 ≤ n
      → let t = track_historical_info n h x s in
        IsWindow (later lo (h + 1 - n)) (h + 1) t
        × (t h ≡ some x)
        × ((q : ℕ) → q < h → is_some (t q) ≡ true → t q ≡ s q)
  track_historical_info-IsWindow zero lo h x s w le pos = elim pos [ ]
  track_historical_info-IsWindow (suc n) lo h x s w le pos = (
    λ q. ground (arith, w q, track_lem n lo h x s w q),
    ground (arith, track_lem n lo h x s w h),
    λ q k some_q. ground (arith, track_lem n lo h x s w q),
  )

  -- At height `h`, after the heights from `lo` to `h - 1` are stored and no others, a block with a
  -- parameter of zero stores nothing and removes nothing.
  pub track_historical_info_zero :
      (lo h : ℕ) (x : H) (s : Infos H) → IsWindow lo h s → track_historical_info 0 h x s ≡ s
  unfolding track_historical_info prune_below prune get_historical_info
  track_historical_info_zero lo zero x s w = ground (arith, w zero)
  track_historical_info_zero lo (suc h) x s w = ground (arith, w (suc h))
