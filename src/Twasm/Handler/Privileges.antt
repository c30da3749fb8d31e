-- ===== src/Twasm/Handler/Privileges.antt =====
-- `handlePrivilege` of x/twasm/keeper/handler_plugin.go: the release of a privilege by a contract whose
-- stored details are valid.
use tgrade.Base.{
  ℕ, ◌%◌, ◌≡◌, ◌≢◌, refl, ap, ◌∙◌, ⊤, true, none, some, ◌∷◌, ◌++◌, arith, Outcome, ok, update,
}
use tgrade.Twasm.Privilege.{privilege_type_from}
use tgrade.Twasm.Privilege.Names.{string-privilege_type_from}
use tgrade.Twasm.Details.{RegisteredPrivilege, Details, has_registered_privilege}
use tgrade.Twasm.Details.Valid.{IsValid, validate_basic_iff}
use tgrade.Twasm.Keeper.{WasmKeeper, State, remove_privilege_registration, set_contract_details}
use tgrade.Twasm.Keeper.Laws.{WasmLaws}
use tgrade.Twasm.Messages.{PrivilegeMsg}
use tgrade.Twasm.Handler.{load_details, register, unregister, unregister_all, handle_privilege}
use tgrade.Twasm.Handler.Release.{unregister_all-removes}
use tgrade.Twasm.Details.Edit.{
  Entries, type-positive, has_name-split, IsValid-drop, IsValid-entry, small,
}

module _ (k : WasmKeeper) (a : ℕ) where
  -- The contract exists and these are its stored details.
  abbrev pub Stores : State k.W → Entries → Type 0
  Stores s ps =
      (info : k.Info) × (k.get_contract_info a s.wasm ≡ some info) × (k.read_extension info ≡ ok ps)

  -- What a release does: the entry `v` is gone, the others stay, in the details and in the index.
  abbrev pub Releases :
      Entries → Entries → RegisteredPrivilege → ℕ → State k.W → Outcome ⊤ × State k.W → Type 0
  Releases pre post v tp s (o, t) =
      (o ≡ ok tt)
      × Stores t (pre ++ post)
      × ((u q : ℕ) → t.index u q ≡ update s.index tp (update (s.index tp) v.position none) u q)
      × (t.flags ≡ s.flags)

module _ (k : WasmKeeper) (laws : WasmLaws k) (a : ℕ) where
  -- Valid details that are stored are then the contract's, and nothing else of the module changes.
  pub set_contract_details-Stores :
      (s : State k.W) (info : k.Info) (ps : Entries)
      → k.get_contract_info a s.wasm ≡ some info
      → IsValid ps
      → let (o, t) = set_contract_details k a ps s in
        (o ≡ ok tt) × Stores k a t ps × (t.index ≡ s.index) × (t.flags ≡ s.flags)
  unfolding set_contract_details
  set_contract_details-Stores s info ps found valid =
      let stores = laws.set_stores a ps s.wasm info found ((validate_basic_iff ps).1 valid) in
      (stores, laws.set_reads a ps s.wasm stores, refl, refl)

  handle_privilege-unregister :
      (s s' : State k.W) (msg : PrivilegeMsg) (ps : Entries) (d : Details)
      → Stores k a s ps
      → msg.release ≢ 0
      → has_registered_privilege msg.release ps ≡ true
      → unregister_all a msg.release ps s ≡ (ok d, s')
      → handle_privilege k a msg s ≡ set_contract_details k a d.live s'
  unfolding handle_privilege load_details unregister
  handle_privilege-unregister s s' msg ps d (info, found, read) ne has run =
      ground (arith, found, read, has, run)

  pub handle_privilege-register :
      (s : State k.W) (msg : PrivilegeMsg) (ps : Entries)
      → Stores k a s ps
      → msg.release ≡ 0
      → msg.request ≢ 0
      → handle_privilege k a msg s ≡ register k a ps msg.request s
  unfolding handle_privilege load_details
  handle_privilege-register s msg ps (info, found, read) z ne = ground (arith, found, read, z, ne)

  remove_registration-kept :
      (t pos : ℕ) (s : State k.W)
      → let s' = (remove_privilege_registration t pos a s).1 in
        (s'.wasm ≡ s.wasm) × (s'.flags ≡ s.flags)
  unfolding remove_privilege_registration
  remove_registration-kept t pos s = ground arith

  remove_registration-index :
      (t pos u q : ℕ) (s : State k.W)
      → (remove_privilege_registration t pos a s).1.index u q
        ≡ update s.index t (update (s.index t) pos none) u q
  unfolding remove_privilege_registration
  remove_registration-index t pos u q s = ground arith

  -- A release by a contract whose stored details are valid and list the privilege succeeds. It takes
  -- exactly that entry out of the details and its registration out of the index.
  pub handle_privilege-Releases :
      (pre post : Entries) (v : RegisteredPrivilege) (msg : PrivilegeMsg) (s : State k.W)
      → Stores k a s (pre ++ v ∷ post)
      → IsValid (pre ++ v ∷ post)
      → privilege_type_from v.privilege_type ≡ some msg.release
      → Releases k a pre post v msg.release s (handle_privilege k a msg s)
  unfolding has_registered_privilege
  handle_privilege-Releases pre post v msg s st valid named =
      let (stale, run) = unregister_all-removes a msg.release v named pre post s valid in
      let entry = IsValid-entry pre post v valid in
      let s' = (remove_privilege_registration msg.release (v.position % 256) a s).1 in
      let (same_wasm, same_flags) = remove_registration-kept msg.release (v.position % 256) s in
      let has : has_registered_privilege msg.release (pre ++ v ∷ post) ≡ true =
        rw ((string-privilege_type_from v.privilege_type msg.release named).0)
          (has_name-split pre post v) in
      let (done, stored, index, flags) =
        set_contract_details-Stores s' st.0 (pre ++ post)
          (ap (k.get_contract_info a) same_wasm ∙ st.1) (IsValid-drop pre post v valid) in
      rw
        (handle_privilege-unregister s s' msg (pre ++ v ∷ post) _ st
          (type-positive v.privilege_type msg.release named) has run)
        (
          done,
          stored,
          λ u q.
              ap (λ f. f u q) index
              ∙ remove_registration-index msg.release (v.position % 256) u q s
              ∙ ap (λ n. update s.index msg.release (update (s.index msg.release) n none) u q)
                  (small v entry),
          flags ∙ same_flags,
        )
