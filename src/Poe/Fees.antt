-- ===== src/Poe/Fees.antt =====
-- x/poe/ante.go: the fees of a transaction, which go to the valset contract. The accounts, the bank, the
-- fee grants and the lookup of the contract's address are parameters; `W` is their state. The
-- handlers that follow are the argument `next`.
pub mod Passing
use tgrade.Base.{
  ℕ, ⊤, Bool, true, false, not, Option, none, some, List, [], ◌∷◌, ◌==◌, if◌then◌else◌, or_zero,
  Outcome, ok, err, panic, fail_if, tx_decode, invalid_request, unknown_address, insufficient_fee,
  insufficient_funds,
}
use tgrade.Base.Coin.{Coin}

pub record FeeTx : Type 0 where
  pub fee : List Coin
  pub fee_payer : ℕ
  pub fee_granter : Option ℕ

-- A chain's state, and the fees of the transaction events, the last one first.
pub record FeeState (W : Type 0) : Type 0 where
  pub world : W
  pub fee_events : List (List Coin)

pub record FeeServices (W : Type 0) : Type 0 where
  pub is_zero : List Coin → Bool
  pub is_valid : List Coin → Bool
  pub use_granted_fees : Option (ℕ → ℕ → List Coin → W → Outcome ⊤ × W)
  pub has_account : ℕ → W → Bool
  pub send_coins : ℕ → ℕ → List Coin → W → Outcome ⊤ × W
  pub get_valset_address : W → Outcome ℕ

abbrev pub Step : Type 0 → Type 0 → Type 0
Step W A = FeeState W → Outcome A × FeeState W

infixl 5 ◌>>=◌ ◌>>◌
abbrev pub ◌>>=◌ : {W A B : Type 0} → Step W A → (A → Step W B) → Step W B
◌>>=◌ m f s =
    let (o, s') = m s in elim o [ ok a ↦ f a s' | err e ↦ (err e, s') | panic ↦ (panic, s') ]

abbrev pub ◌>>◌ : {W A B : Type 0} → Step W A → Step W B → Step W B
m >> k = m >>= λ _. k

abbrev pub on_world : {W A : Type 0} → (W → Outcome A × W) → Step W A
on_world f s = let (o, w) = f s.world in (o, record s { world = w })

-- The account that pays.
abbrev pub deduct_from : FeeTx → ℕ
deduct_from tx = or_zero tx.fee_payer tx.fee_granter

module _ {W : Type 0} (v : FeeServices W) where
  -- `DeductFees`: every error of the bank becomes one of insufficient funds.
  unfoldable pub deduct_fees : ℕ → List Coin → Step W ⊤
  deduct_fees account fees s =
      if not (v.is_valid fees)
      then (err insufficient_fee, s)
      else elim (v.get_valset_address s.world) [
        | err _ ↦ (panic, s)
        | panic ↦ (panic, s)
        | ok collector ↦
            let (o, s') = on_world (v.send_coins account collector fees) s in
            (elim o [ ok _ ↦ ok tt | err _ ↦ err insufficient_funds | panic ↦ panic ], s')
      ]

  -- The granter's part: nothing is asked for a grant to oneself.
  unfoldable pub use_grant : FeeTx → Step W ⊤
  use_grant tx s = elim tx.fee_granter [
    | none ↦ (ok tt, s)
    | some granter ↦ elim v.use_granted_fees [
      | none ↦ (err invalid_request, s)
      | some use_fees ↦
          if granter == tx.fee_payer
          then (ok tt, s)
          else on_world (use_fees granter tx.fee_payer tx.fee) s
    ]
  ]

  unfoldable pub ante_handle : {A : Type 0} → Option FeeTx → Step W A → Step W A
  ante_handle none next s = (err tx_decode, s)
  ante_handle (some tx) next s =
      (do
        use_grant tx
        (λ s₁. (fail_if (not (v.has_account (deduct_from tx) s₁.world)) unknown_address, s₁))
        (λ s₁. if v.is_zero tx.fee then (ok tt, s₁) else deduct_fees (deduct_from tx) tx.fee s₁)
        (λ s₁. next (record s₁ { fee_events = tx.fee ∷ s₁.fee_events })))
        s
