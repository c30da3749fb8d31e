-- ===== src/Twasm/Abci/Blocks.antt =====
-- What the block callbacks of x/twasm/abci.go do to the state.
use tgrade.Base.{
  ℕ, ⊤, ◌≡◌, refl, sym, subst, false, none, some, List, [], ◌∷◌, Outcome, ok, err, panic, is_ok,
  arith, inl, inr, Option-cases,
}
use tgrade.Twasm.Privilege
use tgrade.Twasm.Callbacks.{SudoMsg}
use tgrade.Twasm.Keeper.{State, privileged_contracts_by_type}
use tgrade.Twasm.Keeper.Privileged.{Contracts, branch, commit}
use tgrade.Twasm.Abci.{abci_contract_callback, callbacks, send_all, end_blocker}

module _ {W : Type 0} (c : Contracts W) (msg_bz : List ℕ) where
  -- One message to each contract of a list, in turn: each acts on a branch of the state, what a contract
  -- that succeeds writes is seen by the next, and one that fails or panics leaves no trace.
  pub data Runs : List (ℕ × ℕ) → State W → State W → Type 0 where
    finished : {s : State W} → Runs [] s s
    committed :
        {p a : ℕ} {es : List (ℕ × ℕ)} {s s' t : State W} (answer : List ℕ)
        → c.sudo a msg_bz (branch s) ≡ (ok answer, s')
        → Runs es (commit c s s') t
        → Runs ((p, a) ∷ es) s t
    dropped :
        {p a : ℕ} {es : List (ℕ × ℕ)} {s t : State W}
        → is_ok (c.sudo a msg_bz (branch s)).0 ≡ false
        → Runs es s t
        → Runs ((p, a) ∷ es) s t

  callback_kept :
      (a : ℕ) (s s' : State W) (x : List ℕ)
      → c.sudo a msg_bz (branch s) ≡ (ok x, s')
      → abci_contract_callback c msg_bz a s ≡ commit c s s'
  unfolding abci_contract_callback
  callback_kept a s s' x e = ground (arith, e)

  callback_dropped :
      (a : ℕ) (s : State W)
      → is_ok (c.sudo a msg_bz (branch s)).0 ≡ false
      → abci_contract_callback c msg_bz a s ≡ s
  unfolding abci_contract_callback
  callback_dropped a s e = ground (arith, e)

  callbacks-Runs : (es : List (ℕ × ℕ)) (s : State W) → Runs es s (callbacks c msg_bz es s)
  unfolding callbacks
  callbacks-Runs [] s = finished
  callbacks-Runs ((p, a) ∷ es) s = go (c.sudo a msg_bz (branch s)) refl (callbacks-Runs es)
    where
      go :
          (r : Outcome (List ℕ) × State W)
          → c.sudo a msg_bz (branch s) ≡ r
          → ((u : State W) → Runs es u (callbacks c msg_bz es u))
          → Runs ((p, a) ∷ es) s (callbacks c msg_bz ((p, a) ∷ es) s)
      go (ok x, s') e ih = committed x e (
          subst (λ u. Runs es (commit c s s') (callbacks c msg_bz es u))
            (sym (callback_kept a s s' x e)) (ih (commit c s s')))
      go (err x, s') e ih = dropped (rw e refl) (rw (callback_dropped a s (rw e refl)) (ih s))
      go (panic, s') e ih = dropped (rw e refl) (rw (callback_dropped a s (rw e refl)) (ih s))

module _ {W : Type 0} (c : Contracts W) where
  -- How a block callback ends, for its message and privilege type: it does nothing but run the
  -- contracts that are registered when it begins, in the order of their positions, and it fails only
  -- where the message has no encoding.
  abbrev pub Sends : SudoMsg → ℕ → State W → Outcome ⊤ × State W → Type 0
  Sends msg t s (ok _, s') =
      (msg_bz : List ℕ) × (c.marshal msg ≡ some msg_bz)
      × Runs c msg_bz (privileged_contracts_by_type t s) s s'
  Sends msg t s (err _, s') = ⊥
  Sends msg t s (panic, s') = (c.marshal msg ≡ none) × (s' ≡ s)

  pub send_all-Sends : (msg : SudoMsg) (t : ℕ) (s : State W) → Sends msg t s (send_all c msg t s)
  unfolding send_all
  send_all-Sends msg t s = elim (Option-cases (c.marshal msg)) [
    | inl e ↦ rw (e, send_all, Sends) (e, refl)
    | inr (bz, e) ↦
        rw (e, send_all, Sends) (bz, e, callbacks-Runs c bz (privileged_contracts_by_type t s) s)
  ]

  -- The end of a block runs the contracts that are registered for it when it begins, one after the
  -- other. What a contract that fails or panics wrote is dropped, and the others still run: the
  -- callback fails only where its message has no encoding.
  pub end_blocker-Sends :
      (s : State W) → Sends SudoMsg.end_block Privilege.end_block s (end_blocker c s)
  unfolding end_blocker
  end_blocker-Sends s = send_all-Sends SudoMsg.end_block Privilege.end_block s
