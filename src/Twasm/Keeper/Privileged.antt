-- ===== src/Twasm/Keeper/Privileged.antt =====
-- x/twasm/keeper/privileged.go: promotion, demotion and the genesis import of a contract.
use tgrade.Base.{
  ℕ, ◌%◌, ⊤, Bool, true, false, Option, none, some, List, [], ◌∷◌, ◌==◌, if◌then◌else◌, Outcome, ok,
  err, panic, not_found, json_marshal, invalid_genesis, length, is_some,
}
use tgrade.Twasm.Callbacks.{SudoMsg, promoted, demoted}
use tgrade.Twasm.Privilege.{privilege_type_from}
use tgrade.Twasm.Details.{
  RegisteredPrivilege, Details, array, loaded, remove_registered_privilege, iterate_loop,
}
use tgrade.Twasm.Keeper.{
  Event, WasmKeeper, State, privileged_set, privileged_unset, Action, ◌>>=◌, ◌>>◌, pure, or_fail,
  emit, on_wasm, set_privileged_flag, clear_privileged_flag, store_contract_privilege_registration,
  remove_privilege_registration, set_contract_details,
}

-- The JSON encoder and the entry point of the contract. A contract can call back into the module, so
-- it acts on the whole state.
pub record Contracts (W : Type 0) : Type 0 where
  pub marshal : SudoMsg → Option (List ℕ)
  pub sudo : ℕ → List ℕ → Action W (List ℕ)
  -- The caller's events after a branch of the state is committed, from those before and those of the
  -- branch, the last one first: what `CacheContext` of the SDK makes of them.
  pub commit_events : List Event → List Event → List Event

-- `CacheContext`: a branch of the state with an event manager of its own.
abbrev pub branch : {W : Type 0} → State W → State W
branch s = record s { events = [] }

-- The commit of a branch writes its stores.
abbrev pub commit : {W : Type 0} → Contracts W → State W → State W → State W
commit c s s' = record s' { events = c.commit_events s.events s'.events }

unfoldable pub call_sudo : {W : Type 0} → Contracts W → ℕ → SudoMsg → Action W (List ℕ)
call_sudo c a msg = do msg_bz ← or_fail (c.marshal msg) json_marshal; c.sudo a msg_bz

-- The demotion's callback, over the details that it removes from while they are iterated.
unfoldable pub release_one :
    {W : Type 0} → ℕ → ℕ → ℕ → Details × State W → Outcome (Bool × (Details × State W))
release_one a t pos (d, s) =
    let s' = (remove_privilege_registration t pos a s).1 in
    elim (remove_registered_privilege t pos d) [
      | ok d' ↦ ok (false, (d', s'))
      | err e ↦ err e
      | panic ↦ panic
    ]

unfoldable pub release_all : {W : Type 0} → ℕ → List RegisteredPrivilege → Action W Details
release_all a ps s =
    elim (iterate_loop (λ x. array x.0) (release_one a) (length ps) 0 (loaded ps, s)) [
      | ok (d, s') ↦ (ok d, s')
      | err e ↦ (err e, s)
      | panic ↦ (panic, s)
    ]

-- The contracts of a code are this one alone.
unfoldable pub is_unique_instance : ℕ → List ℕ → Bool
is_unique_instance a [] = true
is_unique_instance a (b ∷ bs) = if a == b then is_unique_instance a bs else false

module _ (k : WasmKeeper) (c : Contracts k.W) where
  open k use {
    W, Info, code_id, read_extension, get_contract_info, pin_code, unpin_code, contracts_by_code,
  }

  unfoldable pub set_privileged : ℕ → Action W ⊤
  set_privileged a s = elim (get_contract_info a s.wasm) [
    | none ↦ (err not_found, s)
    | some info ↦
        (do
          on_wasm (pin_code (code_id info))
          (λ s₁. (ok tt, set_privileged_flag a s₁))
          call_sudo c a promoted
          emit (privileged_set a))
          s
  ]

  -- `UnpinCode` is called for the last instance of a code only.
  unfoldable pub unpin_unshared : ℕ → ℕ → Action W ⊤
  unfolding is_unique_instance
  unpin_unshared a code s =
      if is_unique_instance a (contracts_by_code code s.wasm)
      then on_wasm (unpin_code code) s
      else (ok tt, s)

  -- The part of `UnsetPrivileged` that follows the call of the contract.
  unfoldable pub demote : ℕ → Action W ⊤
  demote a s = elim (get_contract_info a s.wasm) [
    | none ↦ (err not_found, s)
    | some info ↦
        (do
          unpin_unshared a (code_id info)
          (λ s₁. (ok tt, clear_privileged_flag a s₁))
          ps ← pure (read_extension info)
          d ← release_all a ps
          set_contract_details k a d.live
          emit (privileged_unset a))
          s
  ]

  unfoldable pub unset_privileged : ℕ → Action W ⊤
  unset_privileged a = do call_sudo c a demoted; demote a

  -- The loop of `importPrivileged` over the details of one contract.
  unfoldable pub import_registrations : ℕ → List RegisteredPrivilege → Action W ⊤
  import_registrations a [] s = (ok tt, s)
  import_registrations a (p ∷ ps) s = elim (privilege_type_from p.privilege_type) [
    | none ↦ (err invalid_genesis, s)
    | some t ↦
        if is_some (s.index t (p.position % 256))
        then (err invalid_genesis, s)
        else import_registrations a ps
            (store_contract_privilege_registration t (p.position % 256) a s)
  ]

  unfoldable pub import_privileged : ℕ → ℕ → List RegisteredPrivilege → Action W ⊤
  import_privileged a code ps = do
    on_wasm (pin_code code)
    (λ s₁. (ok tt, set_privileged_flag a s₁))
    import_registrations a ps
