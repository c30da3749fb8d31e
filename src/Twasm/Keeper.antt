-- ===== src/Twasm/Keeper.antt =====
-- x/twasm/keeper/privileged.go and keeper.go: the stores of the module and the operations on them.
-- The wasm keeper of wasmd, which holds the contract infos, is a parameter. An address is a number,
-- as the code only compares addresses. The two indexes are the key ranges 0xa0 and 0xa1 of the
-- store: a flag for each address, and an address for each privilege type and position, a byte each.
-- An iterator over one type is a walk over the 256 positions.
pub mod Index
pub mod Privileged
pub mod Demotion
pub mod Unset
pub mod Laws
pub mod Demote
use tgrade.Base.{
  String, ℕ, suc, zero, ◌+◌, ◌%◌, ⊤, ◌≡◌, Bool, true, false, not, ◌&&◌, Option, none, some, List,
  [], ◌∷◌, ◌==◌, leb, if◌then◌else◌, Outcome, ok, err, panic, Error, not_found, duplicate, is_some,
  or_zero, update,
}
use tgrade.Base.Coin.{Coin}
use tgrade.Twasm.Privilege.{is_singleton}
use tgrade.Twasm.Details.{RegisteredPrivilege, has_registered_privilege}

-- What the module takes from the wasm keeper: `W` is its state.
pub record WasmKeeper : Type 1 where
  pub W : Type 0
  pub Info : Type 0
  pub code_id : Info → ℕ
  pub read_extension : Info → Outcome (List RegisteredPrivilege)
  pub get_contract_info : ℕ → W → Option Info
  pub set_contract_info_extension : ℕ → List RegisteredPrivilege → W → Outcome ⊤ × W
  pub pin_code : ℕ → W → Outcome ⊤ × W
  pub unpin_code : ℕ → W → Outcome ⊤ × W
  pub contracts_by_code : ℕ → W → List ℕ

pub data Event : Type 0 where
  privileged_set privileged_unset : ℕ → Event
  privilege_registered privilege_released : ℕ → ℕ → Event
  tokens_minted : ℕ → Coin → String → Event
  tokens_delegated tokens_undelegated : ℕ → List Coin → String → Event

pub record State (W : Type 0) : Type 0 where
  pub flags : ℕ → Bool
  pub index : ℕ → ℕ → Option ℕ
  pub wasm : W
  pub events : List Event

-- A call that writes: what it wrote stays written when it fails.
abbrev pub Action : Type 0 → Type 0 → Type 0
Action W A = State W → Outcome A × State W

infixl 5 ◌>>=◌ ◌>>◌
abbrev pub ◌>>=◌ : {W A B : Type 0} → Action W A → (A → Action W B) → Action W B
◌>>=◌ m f s =
    let (o, s') = m s in elim o [ ok a ↦ f a s' | err e ↦ (err e, s') | panic ↦ (panic, s') ]

abbrev pub ◌>>◌ : {W A B : Type 0} → Action W A → Action W B → Action W B
m >> k = m >>= λ _. k

module _ {W : Type 0} where
  abbrev pub pure : {A : Type 0} → Outcome A → Action W A
  pure o s = (o, s)

  abbrev pub or_fail : {A : Type 0} → Option A → Error → Action W A
  or_fail none e s = (err e, s)
  or_fail (some a) e s = (ok a, s)

  abbrev pub emit : Event → Action W ⊤
  emit e s = (ok tt, record s { events = e ∷ s.events })

  -- A call of the wasm keeper.
  abbrev pub on_wasm : {A : Type 0} → (W → Outcome A × W) → Action W A
  on_wasm f s = let (o, w) = f s.wasm in (o, record s { wasm = w })

  unfoldable pub set_privileged_flag : ℕ → State W → State W
  set_privileged_flag a s = record s { flags = update s.flags a true }

  unfoldable pub clear_privileged_flag : ℕ → State W → State W
  clear_privileged_flag a s = record s { flags = update s.flags a false }

  unfoldable pub is_privileged : ℕ → State W → Bool
  is_privileged a s = s.flags a

  unfoldable pub store_contract_privilege_registration : ℕ → ℕ → ℕ → State W → State W
  store_contract_privilege_registration t pos a s = record s {
    index = update s.index t (update (s.index t) pos (some a));
  }

  unfoldable pub remove_privilege_registration : ℕ → ℕ → ℕ → State W → Bool × State W
  remove_privilege_registration t pos a s =
      if is_some (s.index t pos)
      then (
        true,
        record s {
          index = update s.index t (update (s.index t) pos none);
          events = privilege_released a t ∷ s.events;
        },
      )
      else (false, s)

  unfoldable pub get_privileged_contract : ℕ → ℕ → State W → Option ℕ
  get_privileged_contract t pos s = s.index t pos

-- The first entry of a reverse iterator over the positions below a bound.
unfoldable pub last_below : ℕ → (ℕ → Option ℕ) → Option ℕ
last_below zero f = none
last_below (suc n) f = elim (f n) [ some a ↦ some n | none ↦ last_below n f ]

-- The entries of an iterator, in ascending order: the rounds left and the next position.
unfoldable pub entries_from : ℕ → ℕ → (ℕ → Option ℕ) → List (ℕ × ℕ)
entries_from zero p f = []
entries_from (suc n) p f =
    let rest = entries_from n (suc p) f in elim (f p) [ some a ↦ (p, a) ∷ rest | none ↦ rest ]

module _ {W : Type 0} where
  unfoldable pub append_to_privileged_contracts : ℕ → ℕ → Action W ℕ
  unfolding last_below store_contract_privilege_registration
  append_to_privileged_contracts t a s =
      let last = last_below 256 (s.index t) in
      let pos = or_zero 0 last in
      let new_pos = (pos + 1) % 256 in
      if is_some last && is_singleton t
      then (err duplicate, s)
      else if leb new_pos pos
      then (panic, s)
      else (emit (privilege_registered a t) >> pure (ok new_pos))
          (store_contract_privilege_registration t new_pos a s)

  -- The iterator starts at position 0 and ends before position 255.
  unfoldable pub exists_any_privileged_contract : ℕ → State W → Bool
  exists_any_privileged_contract t s = is_some (last_below 255 (s.index t))

  -- The calls that `IteratePrivilegedContractsByType` makes unless it is stopped.
  unfoldable pub privileged_contracts_by_type : ℕ → State W → List (ℕ × ℕ)
  privileged_contracts_by_type t s = entries_from 256 0 (s.index t)

module _ (k : WasmKeeper) where
  open k use {W, Info, code_id, read_extension, get_contract_info, set_contract_info_extension}

  unfoldable pub set_contract_details : ℕ → List RegisteredPrivilege → Action W ⊤
  set_contract_details a ps = on_wasm (set_contract_info_extension a ps)

  unfoldable pub get_contract_details : ℕ → State W → Outcome (List RegisteredPrivilege)
  get_contract_details a s = elim (get_contract_info a s.wasm) [
    | none ↦ err not_found
    | some info ↦ read_extension info
  ]

  unfoldable pub has_privileged_contract : ℕ → ℕ → State W → Outcome Bool
  unfolding get_contract_details
  has_privileged_contract a t s = elim (get_contract_details a s) [
    | ok ps ↦ ok (has_registered_privilege t ps)
    | err e ↦ err e
    | panic ↦ panic
  ]
