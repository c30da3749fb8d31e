-- ===== src/Twasm/Keeper/Demote.antt =====
-- `UnsetPrivileged` of x/twasm/keeper/privileged.go, after the call in which the contract can send its own
-- release messages.
use tgrade.Base.{
  ℕ, ◌≤◌, ◌≡◌, refl, ap, ◌∙◌, Bool, false, List, [], ◌∷◌, arith, Outcome, ok, err, panic, length,
  All, All-map, some, ⊤,
}
use tgrade.Twasm.Privilege.{privilege_type_from}
use tgrade.Twasm.Details.{RegisteredPrivilege, Details, array, loaded, iterate_loop}
use tgrade.Twasm.Details.Iterate.{iterate_loop-keeps}
use tgrade.Twasm.Details.Valid.{IsValid, validate_basic_iff}
use tgrade.Twasm.Keeper.{
  WasmKeeper, State, is_privileged, clear_privileged_flag, set_contract_details,
  get_contract_details, remove_privilege_registration, privileged_unset,
}
use tgrade.Twasm.Keeper.Privileged.{
  Contracts, release_one, release_all, unpin_unshared, demote, call_sudo, unset_privileged,
}
use tgrade.Twasm.Callbacks.{demoted}
use tgrade.Twasm.Keeper.Unset.{release_all_keeps_second, release_all_clears, IsGone}
use tgrade.Twasm.Keeper.Laws.{WasmLaws}

module _ {W : Type 0} (a : ℕ) where
  -- The flags and the wasm keeper's state are as in `s₀`.
  abbrev Same : State W → Details × State W → Type 0
  Same s₀ x = (x.1.flags ≡ s₀.flags) × (x.1.wasm ≡ s₀.wasm)

  release_one-Same :
      (s₀ : State W) (t pos : ℕ) (x : Details × State W) (stop : Bool) (y : Details × State W)
      → release_one a t pos x ≡ ok (stop, y)
      → Same s₀ x
      → Same s₀ y
  unfolding release_one remove_privilege_registration
  release_one-Same s₀ t pos (d, s) stop (d', s') e h = ground arith

  -- The loop of the demotion touches the index alone.
  release_all-Same :
      (ps : List RegisteredPrivilege) (s s' : State W) (d : Details)
      → release_all a ps s ≡ (ok d, s')
      → Same s (d, s')
  unfolding release_all
  release_all-Same ps s s' d e =
      go (iterate_loop (λ x. array x.0) (release_one a) (length ps) 0 (loaded ps, s)) refl
    where
      go :
          (o : Outcome (Details × State W))
          → iterate_loop (λ x. array x.0) (release_one a) (length ps) 0 (loaded ps, s) ≡ o
          → Same s (d, s')
      go (ok (d₁, s₁)) q =
          iterate_loop-keeps (λ x. array x.0) (release_one a) (Same s) (release_one-Same s)
            (length ps) 0 (loaded ps, s) (d, s') (ground (arith, q)) (refl, refl)
      go (err x) q = absurd (ground (arith, q))
      go panic q = absurd (ground (arith, q))

module _ (k : WasmKeeper) (a : ℕ) where
  -- Success, but the entry `b` stays registered as it was in `s₁`.
  abbrev pub Leaves : RegisteredPrivilege → ℕ → State k.W → Outcome ⊤ × State k.W → Type 0
  Leaves b tb s₁ (o, t) =
      (o ≡ ok tt)
      × (is_privileged a t ≡ false)
      × ((l : List RegisteredPrivilege) × (get_contract_details k a t ≡ ok (b ∷ l)))
      × (t.index tb b.position ≡ s₁.index tb b.position)

  -- Success, and no registration is left.
  abbrev pub Clears : List RegisteredPrivilege → Outcome ⊤ × State k.W → Type 0
  Clears ps (o, t) =
      (o ≡ ok tt)
      × (is_privileged a t ≡ false)
      × (get_contract_details k a t ≡ ok [])
      × All (IsGone t) ps

module _ (k : WasmKeeper) (c : Contracts k.W) (laws : WasmLaws k) (a : ℕ) (info : k.Info)
    (s : State k.W) (found : k.get_contract_info a s.wasm ≡ some info)
    (unpinned : (unpin_unshared k c a (k.code_id info) s).0 ≡ ok tt) where
  -- The state in which the loop starts.
  abbrev unflagged : State k.W
  unflagged = clear_privileged_flag a (unpin_unshared k c a (k.code_id info) s).1

  unflagged-info : k.get_contract_info a unflagged.wasm ≡ some info
  unfolding clear_privileged_flag unpin_unshared
  unflagged-info = ground (arith, found, laws.unpin_keeps (k.code_id info) a s.wasm)

  unflagged-index : (t q : ℕ) → unflagged.index t q ≡ s.index t q
  unfolding clear_privileged_flag unpin_unshared
  unflagged-index t q = ground arith

  unflagged-flag : unflagged.flags a ≡ false
  unfolding clear_privileged_flag
  unflagged-flag = ground arith

  -- A demotion whose loop succeeds with valid details stores what the loop left.
  demote_run :
      (ps : List RegisteredPrivilege) (d : Details) (s' : State k.W)
      → k.read_extension info ≡ ok ps
      → release_all a ps unflagged ≡ (ok d, s')
      → (k.set_contract_info_extension a d.live s'.wasm).0 ≡ ok tt
      → demote k c a s ≡ (
        ok tt,
        record s' {
          wasm = (k.set_contract_info_extension a d.live s'.wasm).1;
          events = privileged_unset a ∷ s'.events;
        },
      )
  unfolding demote set_contract_details
  demote_run ps d s' er el stores = ground (arith, found, unpinned, er, el, stores)

  -- The details that are read back after the demotion are those that the loop left.
  stored_details :
      (ps : List RegisteredPrivilege) (w : k.W) (s' : State k.W)
      → (k.set_contract_info_extension a ps w).0 ≡ ok tt
      → s'.wasm ≡ (k.set_contract_info_extension a ps w).1
      → get_contract_details k a s' ≡ ok ps
  unfolding get_contract_details
  stored_details ps w s' stores e =
      let (i, g, r) = laws.set_reads a ps w stores in rw (e, get_contract_details, g) r

  -- The end of a demotion, in terms of the loop's result.
  demote_end :
      (ps : List RegisteredPrivilege) (d : Details) (s' : State k.W)
      → k.read_extension info ≡ ok ps
      → release_all a ps unflagged ≡ (ok d, s')
      → IsValid d.live
      → let (o, t) = demote k c a s in
        (o ≡ ok tt)
        × (is_privileged a t ≡ false)
        × (get_contract_details k a t ≡ ok d.live)
        × (t.index ≡ s'.index)
  unfolding is_privileged
  demote_end ps d s' er el valid =
      let same = release_all-Same a ps unflagged s' d el in
      let stores : (k.set_contract_info_extension a d.live s'.wasm).0 ≡ ok tt =
        laws.set_stores a d.live s'.wasm info (ap (k.get_contract_info a) same.1 ∙ unflagged-info)
          ((validate_basic_iff d.live).1 valid) in
      rw (demote_run ps d s' er el stores) (
        refl,
        ap (λ f. f a) same.0 ∙ unflagged-flag,
        stored_details d.live s'.wasm
            (record s' {
              wasm = (k.set_contract_info_extension a d.live s'.wasm).1;
              events = privileged_unset a ∷ s'.events;
            })
            stores refl,
        refl,
      )

  demote_keeps_second :
      (x b y : RegisteredPrivilege) (rest : List RegisteredPrivilege) (tb : ℕ)
      → k.read_extension info ≡ ok (x ∷ b ∷ y ∷ rest)
      → IsValid (x ∷ b ∷ y ∷ rest)
      → privilege_type_from b.privilege_type ≡ some tb
      → Leaves k a b tb s (demote k c a s)
  demote_keeps_second x b y rest tb er valid named =
      let (l, st, s', run, same, left) =
        release_all_keeps_second a x b y rest tb unflagged valid named in
      let (done, off, stored, kept) =
        demote_end (x ∷ b ∷ y ∷ rest) (record { live = b ∷ l; stale = st }) s' er run left in
      (
        done,
        off,
        (l, stored),
        ap (λ f. f tb b.position) kept ∙ same ∙ unflagged-index tb b.position,
      )

  demote-Clears :
      (ps : List RegisteredPrivilege)
      → k.read_extension info ≡ ok ps
      → IsValid ps
      → length ps ≤ 2
      → Clears k a ps (demote k c a s)
  demote-Clears ps er valid few =
      let (st, s', run, gone) = release_all_clears a ps unflagged valid few in
      let (done, off, stored, kept) =
        demote_end ps (record { live = []; stale = st }) s' er run tt in
      (
        done,
        off,
        stored,
        All-map (IsGone s') (IsGone (demote k c a s).1)
            (λ v g u e. ap (λ f. f u v.position) kept ∙ g u e) ps gone,
      )

  -- The contract answers the call and leaves the state `s`.
  module _ (s₀ : State k.W) (answer : List ℕ)
      (answers : call_sudo c a demoted s₀ ≡ (ok answer, s)) where
    unset_privileged_lem : unset_privileged k c a s₀ ≡ demote k c a s
    unfolding unset_privileged
    unset_privileged_lem = ground (arith, answers)

    -- A demotion that nothing stops clears the flag, but of three or more privileges in valid
    -- details that the contract has not released itself when it answers, the second stays: in the
    -- details that are stored, and in the index that the callbacks go by.
    pub unset_privileged_keeps_second :
        (x b y : RegisteredPrivilege) (rest : List RegisteredPrivilege) (tb : ℕ)
        → k.read_extension info ≡ ok (x ∷ b ∷ y ∷ rest)
        → IsValid (x ∷ b ∷ y ∷ rest)
        → privilege_type_from b.privilege_type ≡ some tb
        → Leaves k a b tb s (unset_privileged k c a s₀)
    unset_privileged_keeps_second x b y rest tb er valid named =
        rw unset_privileged_lem (demote_keeps_second x b y rest tb er valid named)

    -- A demotion that nothing stops, of a contract whose details are valid and list at most two
    -- privileges when it has answered, clears the flag, removes every registration of these
    -- details, and stores empty details.
    pub unset_privileged-Clears :
        (ps : List RegisteredPrivilege)
        → k.read_extension info ≡ ok ps
        → IsValid ps
        → length ps ≤ 2
        → Clears k a ps (unset_privileged k c a s₀)
    unset_privileged-Clears ps er valid few =
        rw unset_privileged_lem (demote-Clears ps er valid few)
