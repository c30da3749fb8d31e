-- ===== src/Poe/Fees/Passing.antt =====
-- When a transaction gets past the fee deduction of x/poe/ante.go, and who has paid then.
use tgrade.Base.{
  ℕ, ⊤, ◌≡◌, ◌≢◌, refl, ap, ◌∙◌, true, false, Option, none, some, List, ◌∷◌, ◌==◌, Outcome, ok, err,
  panic, is_ok, is_some, Option-cases, insufficient_funds, arith, ◌⊎◌, inl, inr, Bool-cases,
}
use tgrade.Base.Coin.{Coin}
use tgrade.Poe.Fees.{
  FeeTx, FeeState, FeeServices, Step, use_grant, deduct_fees, deduct_from, ante_handle, on_world,
}

module _ {W : Type 0} (v : FeeServices W) where
  -- The grant that a transaction with this granter needs, from `w` to `w'`.
  abbrev pub GrantsBy : FeeTx → Option ℕ → W → W → Type 0
  GrantsBy tx none w w' = w' ≡ w
  GrantsBy tx (some g) w w' =
      ((g ≡ tx.fee_payer) × (is_some v.use_granted_fees ≡ true) × (w' ≡ w))
      ⊎ ((g ≢ tx.fee_payer)
          × (f : ℕ → ℕ → List Coin → W → Outcome ⊤ × W) × (v.use_granted_fees ≡ some f)
          × (f g tx.fee_payer tx.fee w ≡ (ok tt, w')))

  abbrev pub Grants : FeeTx → W → W → Type 0
  Grants tx w w' = GrantsBy tx tx.fee_granter w w'

  -- The payment of a fee that is not zero to the valset contract.
  abbrev pub Pays : FeeTx → W → W → Type 0
  Pays tx w w' =
      ((v.is_zero tx.fee ≡ true) × (w' ≡ w))
      ⊎ ((v.is_zero tx.fee ≡ false)
          × (collector : ℕ) × (v.is_valid tx.fee ≡ true)
          × (v.get_valset_address w ≡ ok collector)
          × (v.send_coins (deduct_from tx) collector tx.fee w ≡ (ok tt, w')))

  -- From `s` the transaction has paid and the next handlers start in `t`.
  pub record Passes (tx : FeeTx) (s t : FeeState W) : Type 0 where
    pub after_grant : W
    pub grants : Grants tx s.world after_grant
    pub has_payer : v.has_account (deduct_from tx) after_grant ≡ true
    pub pays : Pays tx after_grant t.world
    pub recorded : t.fee_events ≡ tx.fee ∷ s.fee_events

  abbrev GrantsOr : FeeTx → FeeState W → Outcome ⊤ × FeeState W → Type 0
  GrantsOr tx s (ok _, t) = Grants tx s.world t.world × (t.fee_events ≡ s.fee_events)
  GrantsOr tx s (err _, t) = ⊤
  GrantsOr tx s (panic, t) = ⊤

  use_grant_run :
      (tx : FeeTx) (s : FeeState W) (g : ℕ) (f : ℕ → ℕ → List Coin → W → Outcome ⊤ × W)
      → tx.fee_granter ≡ some g
      → v.use_granted_fees ≡ some f
      → (g == tx.fee_payer) ≡ false
      → let (o, w) = f g tx.fee_payer tx.fee s.world in
        use_grant v tx s ≡ (o, record s { world = w })
  unfolding use_grant
  use_grant_run tx s g f e n other = ground (arith, e, n, other)

  use_grant-GrantsOr : (tx : FeeTx) (s : FeeState W) → GrantsOr tx s (use_grant v tx s)
  unfolding use_grant
  use_grant-GrantsOr tx s = elim (Option-cases tx.fee_granter) [
    | inl e ↦ rw (e, use_grant, GrantsOr, GrantsBy) (rw e refl, refl)
    | inr (g, e) ↦ elim (Option-cases v.use_granted_fees) [
      | inl n ↦ rw (e, n, use_grant, GrantsOr) tt
      | inr (f, n) ↦ elim (Bool-cases (g == tx.fee_payer)) [
        | inl same ↦
            rw (e, n, same, use_grant, GrantsOr, GrantsBy)
              (rw e (inl (ground (arith, same), rw n refl, refl)), refl)
        | inr other ↦
            rw (use_grant_run tx s g f e n other)
              (run g f e (ground (arith, other)) n (f g tx.fee_payer tx.fee s.world) refl)
      ]
    ]
  ]
    where
      run :
          (g : ℕ) (f : ℕ → ℕ → List Coin → W → Outcome ⊤ × W)
          → tx.fee_granter ≡ some g
          → g ≢ tx.fee_payer
          → v.use_granted_fees ≡ some f
          → (r : Outcome ⊤ × W) → f g tx.fee_payer tx.fee s.world ≡ r
          → GrantsOr tx s (r.0, record s { world = r.1 })
      run g f e ne n (ok x, w) q = (rw (e, GrantsBy) (inr (ne, f, n, q)), refl)
      run g f e ne n (err x, w) q = tt
      run g f e ne n (panic, w) q = tt

  abbrev PaysOr : FeeTx → FeeState W → Outcome ⊤ × FeeState W → Type 0
  PaysOr tx s (ok _, t) =
      ((collector : ℕ) × (v.is_valid tx.fee ≡ true)
        × (v.get_valset_address s.world ≡ ok collector)
        × (v.send_coins (deduct_from tx) collector tx.fee s.world ≡ (ok tt, t.world)))
      × (t.fee_events ≡ s.fee_events)
  PaysOr tx s (err _, t) = ⊤
  PaysOr tx s (panic, t) = ⊤

  deduct_fees-PaysOr :
      (tx : FeeTx) (s : FeeState W) → PaysOr tx s (deduct_fees v (deduct_from tx) tx.fee s)
  unfolding deduct_fees
  deduct_fees-PaysOr tx s = elim (Bool-cases (v.is_valid tx.fee)) [
    | inl good ↦ rw (good, deduct_fees) (collect good (v.get_valset_address s.world) refl)
    | inr bad ↦ rw (bad, deduct_fees, PaysOr) tt
  ]
    where
      sent :
          (collector : ℕ)
          → v.is_valid tx.fee ≡ true
          → v.get_valset_address s.world ≡ ok collector
          → (r : Outcome ⊤ × W) → v.send_coins (deduct_from tx) collector tx.fee s.world ≡ r
          → PaysOr tx s (
            elim r.0 [ ok _ ↦ ok tt | err _ ↦ err insufficient_funds | panic ↦ panic ],
            record s { world = r.1 },
          )
      sent a good e (ok x, w) q = ((a, good, e, q), refl)
      sent a good e (err x, w) q = tt
      sent a good e (panic, w) q = tt

      collect :
          v.is_valid tx.fee ≡ true
          → (o : Outcome ℕ) → v.get_valset_address s.world ≡ o
          → PaysOr tx s (elim o [
            | err _ ↦ (panic, s)
            | panic ↦ (panic, s)
            | ok collector ↦
                let (o', s') = on_world (v.send_coins (deduct_from tx) collector tx.fee) s in
                (elim o' [ ok _ ↦ ok tt | err _ ↦ err insufficient_funds | panic ↦ panic ], s')
          ])
      collect good (ok a) e = sent a good e (v.send_coins (deduct_from tx) a tx.fee s.world) refl
      collect good (err x) e = tt
      collect good panic e = tt

  use_grant-Grants :
      (tx : FeeTx) (s : FeeState W) (w : W)
      → Grants tx s.world w
      → use_grant v tx s ≡ (ok tt, record s { world = w })
  unfolding use_grant
  use_grant-Grants tx s w h = go tx.fee_granter refl h
    where
      go :
          (o : Option ℕ)
          → tx.fee_granter ≡ o
          → GrantsBy tx o s.world w
          → use_grant v tx s ≡ (ok tt, record s { world = w })
      go none e same = ground (arith, e, same)
      go (some g) e (inl (self, enabled, same)) = ground (arith, e, self, enabled, same)
      go (some g) e (inr (ne, f, enabled, run)) = ground (arith, e, ne, enabled, run)

  deduct_fees-Pays :
      (tx : FeeTx) (s : FeeState W) (w : W)
      → v.is_zero tx.fee ≡ false
      → Pays tx s.world w
      → deduct_fees v (deduct_from tx) tx.fee s ≡ (ok tt, record s { world = w })
  unfolding deduct_fees
  deduct_fees-Pays tx s w z (inl (free, same)) = absurd (ground arith)
  deduct_fees-Pays tx s w z (inr (pays, a, good, at, sent)) = ground (arith, good, at, sent)

module _ {W : Type 0} (v : FeeServices W) {A : Type 0} where
  ante_handle-cases :
      (tx : FeeTx) (s : FeeState W)
      → ((next : Step W A) → is_ok (ante_handle v (some tx) next s).0 ≡ false)
        ⊎ ((t : FeeState W) × Passes v tx s t
            × ((next : Step W A) → ante_handle v (some tx) next s ≡ next t))
  unfolding ante_handle
  ante_handle-cases tx s = granted (use_grant v tx s) refl (use_grant-GrantsOr v tx s)
    where
      Goal : Type 0
      Goal =
          ((next : Step W A) → is_ok (ante_handle v (some tx) next s).0 ≡ false)
          ⊎ ((t : FeeState W) × Passes v tx s t
              × ((next : Step W A) → ante_handle v (some tx) next s ≡ next t))

      paid :
          (s₁ : FeeState W)
          → use_grant v tx s ≡ (ok tt, s₁)
          → Grants v tx s.world s₁.world × (s₁.fee_events ≡ s.fee_events)
          → v.has_account (deduct_from tx) s₁.world ≡ true
          → v.is_zero tx.fee ≡ false
          → (r : Outcome ⊤ × FeeState W) → deduct_fees v (deduct_from tx) tx.fee s₁ ≡ r
          → PaysOr v tx s₁ r
          → Goal
      paid s₁ q h acc pays (ok x, t) e p = inr (
        record t { fee_events = tx.fee ∷ t.fee_events },
        record {
          after_grant = s₁.world;
          grants = h.0;
          has_payer = acc;
          pays = inr (pays, p.0.0, p.0.1, p.0.2, p.0.3);
          recorded = ap (◌∷◌ tx.fee) (p.1 ∙ h.1);
        },
        λ next. ground (arith, q, acc, pays, e),
      )
      paid s₁ q h acc pays (err x, t) e p = inl (λ next. ground (arith, q, acc, pays, e))
      paid s₁ q h acc pays (panic, t) e p = inl (λ next. ground (arith, q, acc, pays, e))

      granted : (r : Outcome ⊤ × FeeState W) → use_grant v tx s ≡ r → GrantsOr v tx s r → Goal
      granted (ok x, s₁) q h = elim (Bool-cases (v.has_account (deduct_from tx) s₁.world)) [
        | inl acc ↦ elim (Bool-cases (v.is_zero tx.fee)) [
          | inl free ↦ inr (
            record s₁ { fee_events = tx.fee ∷ s₁.fee_events },
            record {
              after_grant = s₁.world;
              grants = h.0;
              has_payer = acc;
              pays = inl (free, refl);
              recorded = ap (◌∷◌ tx.fee) h.1;
            },
            λ next. ground (arith, q, acc, free),
          )
          | inr pays ↦
              paid s₁ q h acc pays (deduct_fees v (deduct_from tx) tx.fee s₁) refl
                (deduct_fees-PaysOr v tx s₁)
        ]
        | inr none_there ↦ inl (λ next. ground (arith, q, none_there))
      ]
      granted (err x, s₁) q h = inl (λ next. ground (arith, q))
      granted (panic, s₁) q h = inl (λ next. ground (arith, q))

  Passes-next :
      (tx : FeeTx) (s t : FeeState W)
      → Passes v tx s t
      → (next : Step W A) → ante_handle v (some tx) next s ≡ next t
  unfolding ante_handle
  Passes-next tx s t h next = ground (
    arith,
    h.has_payer,
    h.recorded,
    h.pays,
    use_grant-Grants v tx s h.after_grant h.grants,
    deduct_fees-Pays v tx (record s { world = h.after_grant }) t.world,
  )

  -- A transaction passes if it has used a grant, where another account is named to pay, if its payer
  -- exists, and if the fee, where it is not zero, has gone from the payer to the valset contract. The
  -- next handlers run after that, and they run for no other transaction: any other is refused.
  pub ante_handle-Passes :
      (tx : FeeTx) (s : FeeState W)
      → ((t : FeeState W)
          → Passes v tx s t
          → (next : Step W A) → ante_handle v (some tx) next s ≡ next t)
        × (((next : Step W A) → is_ok (ante_handle v (some tx) next s).0 ≡ false)
            ⊎ ((t : FeeState W) × Passes v tx s t))
  ante_handle-Passes tx s = (
    λ t h next. Passes-next tx s t h next,
    elim (ante_handle-cases tx s) [
      | inl refused ↦ inl refused
      | inr (t, passes, runs) ↦ inr (t, passes)
    ],
  )
