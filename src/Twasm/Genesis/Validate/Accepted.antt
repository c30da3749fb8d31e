-- ===== src/Twasm/Genesis/Validate/Accepted.antt =====
-- What a genesis state of x/twasm satisfies that passes its validation, and that such a state passes.
use tgrade.Base.{
  ℕ, ⊤, String, str_eq, eq_iff, Bool, true, false, ◌==◌, ◌≡◌, ◌↔◌, refl, List, [], ◌∷◌, Outcome, ok,
  err, panic, ok-cases, >>-ok, fail_if-not, All-map, All-each, Bool-cases, inl, inr, is_ok, All,
  arith,
}
use tgrade.Twasm.Genesis.Validate.{
  TwasmState, WasmContract, WasmTypes, raw_wasm_state, exists, delete, delete_all, collect_unique,
  is_empty_list, is_extension_fine, check_extensions, check_privileged, validate_twasm_genesis,
}

module _ {A : Type 0} (same : A → A → Bool) where
  -- No entry stands twice.
  abbrev pub IsDistinct : List A → Type 0
  IsDistinct [] = ⊤
  IsDistinct (x ∷ xs) = (exists same x xs ≡ false) × IsDistinct xs

  abbrev pub AreFresh : List A → List A → Type 0
  AreFresh seen xs = All (λ x. exists same x seen ≡ false) xs

  abbrev pub AreKnown : List A → List A → Type 0
  AreKnown ks xs = All (λ x. exists same x ks ≡ true) xs

  delete_all-nil : (ks : List A) → delete_all same ks [] ≡ []
  unfolding delete_all delete
  delete_all-nil [] = refl
  delete_all-nil (k ∷ ks) = delete_all-nil ks

  delete_all-exists :
      (ks : List A) (x : A) (xs : List A)
      → exists same x ks ≡ true
      → delete_all same ks (x ∷ xs) ≡ delete_all same ks xs
  unfolding delete_all delete exists
  delete_all-exists [] x xs h = cc
  delete_all-exists (k ∷ ks) x xs h = elim (Bool-cases (same x k)) [
    | inl e ↦ ground (arith, e)
    | inr e ↦ ground (arith, e, delete_all-exists ks x (delete same k xs) (ground (arith, e, h)))
  ]

  delete_all-new :
      (ks : List A) (x : A) (xs : List A)
      → exists same x ks ≡ false
      → delete_all same ks (x ∷ xs) ≡ x ∷ delete_all same ks xs
  unfolding delete_all delete exists
  delete_all-new [] x xs h = refl
  delete_all-new (k ∷ ks) x xs h = elim (Bool-cases (same x k)) [
    | inl e ↦ absurd (ground (arith, e))
    | inr e ↦ ground (arith, e, delete_all-new ks x (delete same k xs) (ground (arith, e, h)))
  ]

  -- Nothing is left over exactly if every key was deleted.
  delete_all-AreKnown :
      (ks xs : List A) → (is_empty_list (delete_all same ks xs) ≡ true) ↔ AreKnown ks xs
  delete_all-AreKnown ks [] = (λ h. tt, λ h. ground (arith, delete_all-nil ks))
  delete_all-AreKnown ks (x ∷ xs) = elim (Bool-cases (exists same x ks)) [
    | inl e ↦
        let ih = delete_all-AreKnown ks xs in
        (
          λ h. (e, ih.0 (ground (arith, delete_all-exists ks x xs e))),
          λ h. ground (arith, delete_all-exists ks x xs e, ih.1 h.1),
        )
    | inr e ↦ (
      λ h. absurd (ground (arith, delete_all-new ks x xs e)),
      λ h. absurd (ground (arith, e, h.0)),
    )
  ]

  module _ (symmetric : (x y : A) → same x y ≡ same y x) where
    AreFresh-cons :
        (s : A) (seen xs : List A)
        → AreFresh (s ∷ seen) xs ↔ ((exists same s xs ≡ false) × AreFresh seen xs)
    unfolding exists
    AreFresh-cons s seen [] = (λ h. (refl, tt), λ h. tt)
    AreFresh-cons s seen (x ∷ xs) =
        let ih = AreFresh-cons s seen xs in
        (
          λ h. (
            ground (arith, h.0, symmetric s x, (ih.0 h.1).0),
            (ground (arith, h.0), (ih.0 h.1).1),
          ),
          λ h. (ground (arith, h.0, symmetric s x, h.1.0), ih.1 (ground (arith, h.0), h.1.1)),
        )

    collect_unique_iff :
        (check : A → Outcome ⊤) (seen xs : List A)
        → (collect_unique same check seen xs ≡ ok tt)
          ↔ (All (λ x. check x ≡ ok tt) xs × IsDistinct xs × AreFresh seen xs)
    unfolding collect_unique
    collect_unique_iff check seen [] = (λ h. (tt, tt, tt), λ h. refl)
    collect_unique_iff check seen (x ∷ xs) =
        let ih = collect_unique_iff check (x ∷ seen) xs in
        let split = AreFresh-cons x seen xs in
        (
          λ h. elim (ok-cases (check x)) [
            | inr bad ↦ absurd (ground (arith, bad))
            | inl (o, fine) ↦ elim (Bool-cases (exists same x seen)) [
              | inl taken ↦ absurd (ground (arith, fine, taken))
              | inr free ↦
                  let (all, apart, new) = ih.0 (ground (arith, fine, free)) in
                  let (once, kept) = split.0 new in ((fine, all), (once, apart), (free, kept))
            ]
          ],
          λ h.
              let ((fine, all), (once, apart), (free, kept)) = h in
              ground (arith, fine, free, ih.1 (all, apart, split.1 (once, kept))),
        )

str_eq_comm : (a b : String) → str_eq a b ≡ str_eq b a
str_eq_comm a b = elim (Bool-cases (str_eq a b)) [
  | inl e ↦ ground (arith, e, eq_iff a b, eq_iff b a)
  | inr e ↦ elim (Bool-cases (str_eq b a)) [
    | inl e' ↦ ground (arith, e, e', eq_iff a b, eq_iff b a)
    | inr e' ↦ ground (arith, e, e')
  ]
]

eq_comm : (a b : ℕ) → (a == b) ≡ (b == a)
eq_comm a b = ground arith

module _ {I M P C Q G : Type 0} (w : WasmTypes I M P C Q G) where
  check_extensions_iff :
      (cs : List (WasmContract I M))
      → (check_extensions w cs ≡ ok tt) ↔ All (λ c. is_extension_fine w c ≡ true) cs
  unfolding check_extensions
  check_extensions_iff [] = (λ h. tt, λ h. refl)
  check_extensions_iff (c ∷ cs) =
      let ih = check_extensions_iff cs in
      elim (Bool-cases (is_extension_fine w c)) [
        | inl e ↦ (λ h. (e, ih.0 (ground (arith, e))), λ h. ground (arith, e, ih.1 h.1))
        | inr e ↦ (λ h. absurd (ground (arith, e)), λ h. absurd (ground (arith, e, h.0)))
      ]

  abbrev pub IsParsed : String → Type 0
  IsParsed a = is_ok (w.acc_address_from_bech32 a) ≡ true

  check_privileged_iff : (a : String) → (check_privileged w a ≡ ok tt) ↔ IsParsed a
  unfolding check_privileged
  check_privileged_iff a = go (w.acc_address_from_bech32 a) refl
    where
      go :
          (o : Outcome ℕ)
          → w.acc_address_from_bech32 a ≡ o
          → (check_privileged w a ≡ ok tt) ↔ IsParsed a
      go (ok n) e = (λ h. ground (arith, e), λ h. ground (arith, e))
      go (err x) e = (λ h. absurd (ground (arith, e)), λ h. absurd (ground (arith, e)))
      go panic e = (λ h. absurd (ground (arith, e)), λ h. absurd (ground (arith, e)))

  abbrev pub IsAccepted : TwasmState I M P C Q G → Type 0
  IsAccepted g =
      let state = raw_wasm_state g in
      (w.validate_wasm state ≡ ok tt)
      × All (λ c. is_extension_fine w c ≡ true) state.contracts
      × All IsParsed g.privileged_contract_addresses
      × IsDistinct str_eq g.privileged_contract_addresses
      × AreKnown str_eq (w.all_contracts state) g.privileged_contract_addresses
      × IsDistinct ◌==◌ g.pinned_code_ids
      × AreKnown ◌==◌ (w.all_codes state) g.pinned_code_ids

  -- The genesis state of x/twasm passes its validation exactly if its wasm state, the custom models
  -- left out, passes that of wasmd, each extension there is has the type of the contract details, the
  -- privileged addresses parse, stand once each and are contracts of the wasm state, and the pinned
  -- code ids stand once each and are codes of the wasm state.
  pub validate_twasm_genesis_iff :
      (g : TwasmState I M P C Q G) → (validate_twasm_genesis w g ≡ ok tt) ↔ IsAccepted g
  unfolding validate_twasm_genesis exists
  validate_twasm_genesis_iff g =
      let state = raw_wasm_state g in
      let addresses = g.privileged_contract_addresses in
      let codes = g.pinned_code_ids in
      let privileged = collect_unique_iff str_eq str_eq_comm (check_privileged w) [] addresses in
      let pinned = collect_unique_iff ◌==◌ eq_comm (λ code. ok tt) [] codes in
      let known_codes = delete_all-AreKnown ◌==◌ (w.all_codes state) codes in
      let known_addresses = delete_all-AreKnown str_eq (w.all_contracts state) addresses in
      (
        λ h₀.
            let (wasm, h₁) = (>>-ok _ _).0 h₀ in
            let (extensions, h₂) = (>>-ok _ _).0 h₁ in
            let (once, h₃) = (>>-ok _ _).0 h₂ in
            let (once', h₄) = (>>-ok _ _).0 h₃ in
            let (left, left') = (>>-ok _ _).0 h₄ in
            let (parsed, apart, new) = privileged.0 once in
            let (fine, apart', new') = pinned.0 once' in
            (
              wasm,
              (check_extensions_iff state.contracts).0 extensions,
              All-map _ IsParsed (λ a. (check_privileged_iff a).0) addresses parsed,
              apart,
              known_addresses.0 ((fail_if-not _ _).0 left'),
              apart',
              known_codes.0 ((fail_if-not _ _).0 left),
            ),
        λ (wasm, extensions, parsed, apart, there, apart', there'). (>>-ok _ _).1 (
          wasm,
          (>>-ok _ _).1 (
            (check_extensions_iff state.contracts).1 extensions,
            (>>-ok _ _).1 (
              privileged.1 (
                All-map IsParsed _ (λ a. (check_privileged_iff a).1) addresses parsed,
                apart,
                All-each _ (λ a. refl) addresses,
              ),
              (>>-ok _ _).1 (
                pinned.1 (All-each _ (λ a. refl) codes, apart', All-each _ (λ a. refl) codes),
                (>>-ok _ _).1 (
                  (fail_if-not _ _).1 (known_codes.1 there'),
                  (fail_if-not _ _).1 (known_addresses.1 there),
                ),
              ),
            ),
          ),
        ),
      )
