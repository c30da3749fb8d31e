-- ===== src/Twasm/Keeper/Laws.antt =====
-- What x/twasm/keeper relies on of the wasm keeper: an extension that passes its validation can be
-- stored for a contract that exists, a stored extension is read back, it changes no other contract,
-- and the calls that pin a code change no contract info.
use tgrade.Base.{ℕ, ◌≡◌, ◌≢◌, List, ok, some}
use tgrade.Twasm.Details.{RegisteredPrivilege, validate_basic}
use tgrade.Twasm.Keeper.{WasmKeeper}

pub record WasmLaws (k : WasmKeeper) : Type 0 where
  pub set_stores :
      (a : ℕ) (ps : List RegisteredPrivilege) (w : k.W) (info : k.Info)
      → k.get_contract_info a w ≡ some info
      → validate_basic ps ≡ ok tt
      → (k.set_contract_info_extension a ps w).0 ≡ ok tt
  pub set_reads :
      (a : ℕ) (ps : List RegisteredPrivilege) (w : k.W)
      → (k.set_contract_info_extension a ps w).0 ≡ ok tt
      → (info : k.Info) × (k.get_contract_info a (k.set_contract_info_extension a ps w).1
          ≡ some info)
        × (k.read_extension info ≡ ok ps)
  pub set_other :
      (a b : ℕ) (ps : List RegisteredPrivilege) (w : k.W)
      → a ≢ b
      → k.get_contract_info b (k.set_contract_info_extension a ps w).1 ≡ k.get_contract_info b w
  pub pin_keeps :
      (c b : ℕ) (w : k.W) → k.get_contract_info b (k.pin_code c w).1 ≡ k.get_contract_info b w
  pub unpin_keeps :
      (c b : ℕ) (w : k.W) → k.get_contract_info b (k.unpin_code c w).1 ≡ k.get_contract_info b w
