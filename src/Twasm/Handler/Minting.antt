-- ===== src/Twasm/Handler/Minting.antt =====
-- The minting of tokens through x/twasm/keeper/handler_plugin.go.
use tgrade.Base.{ℕ, ◌≡◌, true, none, some, List, [], ◌∷◌, ok}
use tgrade.Base.Int.{ℤ}
use tgrade.Base.Coin.{Coin}
use tgrade.Twasm.Privilege.{token_minter}
use tgrade.Twasm.Keeper.{WasmKeeper, State, Event, tokens_minted, is_privileged}
use tgrade.Twasm.Messages.{PetriMsg, MintTokens}
use tgrade.Twasm.Handler.{Services, twasm}
use tgrade.Twasm.Handler.Authority.{holds}

-- The message that asks for new tokens and nothing else.
abbrev pub mint_message : {P : Type 0} → MintTokens → PetriMsg P
mint_message m = record {
  privilege = none;
  execute_gov_proposal = none;
  mint_tokens = some m;
  consensus_params = none;
  delegate = none;
  undelegate = none;
}

module _ (k : WasmKeeper) {P : Type 0} (v : Services k.W P) (a : ℕ) (m : MintTokens) where
  abbrev token : ℤ → Coin
  token n = record { denom = m.denom; amount = n }

  -- What a contract that asks for tokens has done where that succeeds, from `s` to `s'`, with the
  -- events `es`: it has the flag and the privilege, the message is valid, and the bank minted exactly
  -- the tokens of the message to the module and sent them to the recipient.
  abbrev pub Mints : State k.W → List Event → State k.W → Type 0
  Mints s es s' =
      (is_privileged a s ≡ true)
      × (holds k a token_minter s ≡ true)
      × ((recipient : ℕ) × (n : ℤ) × (w₁ : k.W) × (w₂ : k.W) × (v.acc_address_from_bech32
              m.recipient_addr
            ≡ some recipient)
          × (v.new_int_from_string m.amount ≡ some n)
          × (v.validate_coin (token n) ≡ ok tt)
          × (v.mint_coins twasm (v.new_coins (token n)) s.wasm ≡ (ok tt, w₁))
          × (v.send_coins_from_module_to_account twasm recipient (v.new_coins (token n)) w₁
              ≡ (ok tt, w₂))
          × (es ≡ tokens_minted a (token n) m.recipient_addr ∷ [])
          × (s' ≡ record s { wasm = w₂ }))
