-- ===== src/Twasm/Keeper/Index.antt =====
-- The position index of x/twasm/keeper/privileged.go: where a registration goes, and what an iterator
-- over one privilege type sees.
use tgrade.Base.{
  ℕ, suc, zero, ◌+◌, ◌-◌, ◌⊎◌, ◌≤◌, ◌<◌, ◌%◌, subst, ◌≡◌, ◌↔◌, refl, true, false, Option, none,
  some, List, [], ◌∷◌, arith, if◌then◌else◌, Outcome, ok, err, panic, duplicate, is_some, update,
  Bool-cases, Option-cases, inl, inr, ⊤, ◌==◌, ltb, leb, ◌&&◌,
}
use tgrade.Twasm.Privilege.{is_singleton}
use tgrade.Twasm.Keeper.{
  State, last_below, entries_from, append_to_privileged_contracts, exists_any_privileged_contract,
  privileged_contracts_by_type,
}

-- What the first entry of a reverse iterator shows.
abbrev pub IsLast : ℕ → (ℕ → Option ℕ) → Option ℕ → Type 0
IsLast n f none = (q : ℕ) → q < n → f q ≡ none
IsLast n f (some p) = (p < n) × (is_some (f p) ≡ true) × ((q : ℕ) → p < q → q < n → f q ≡ none)

pub last_below-IsLast : (n : ℕ) (f : ℕ → Option ℕ) → IsLast n f (last_below n f)
unfolding last_below
last_below-IsLast zero f = λ q h. elim h [ ]
last_below-IsLast (suc n) f = elim (Option-cases (f n)) [
  | inl e ↦ rw (e, IsLast) (step (last_below n f) e (last_below-IsLast n f))
  | inr (a, e) ↦ rw (e, IsLast) (omega arith, rw e, λ q h k. absurd (omega arith))
]
  where
    step : (o : Option ℕ) → f n ≡ none → IsLast n f o → IsLast (suc n) f o
    step none e h = λ q k. ground (arith, h q)
    step (some p) e h = (omega (arith, h.0), h.1, λ q k m. ground (arith, h.2 q k))

-- What `appendToPrivilegedContracts` does, by how it ends.
abbrev pub Appends : {W : Type 0} → ℕ → ℕ → State W → Outcome ℕ × State W → Type 0
Appends t a s (ok p, s') =
    (1 ≤ p)
    × (p ≤ 255)
    × ((p ≡ 1) ⊎ (is_some (s.index t (p - 1)) ≡ true))
    × ((q : ℕ) → p ≤ q → q ≤ 255 → s.index t q ≡ none)
    × (s'.index ≡ update s.index t (update (s.index t) p (some a)))
    × (s'.flags ≡ s.flags)
    × (s'.wasm ≡ s.wasm)
    × (is_singleton t ≡ true → (q : ℕ) → q ≤ 255 → s.index t q ≡ none)
Appends t a s (err e, s') =
    (e ≡ duplicate)
    × (s' ≡ s)
    × (is_singleton t ≡ true)
    × ((q : ℕ) × (q ≤ 255) × (is_some (s.index t q) ≡ true))
Appends t a s (panic, s') = (is_some (s.index t 255) ≡ true) × (is_singleton t ≡ false)

-- The registration after a last position `p`, in the form that the code computes to.
after_last :
    {W : Type 0} (t a p : ℕ) (s s' : State W)
    → s'.index ≡ update s.index t (update (s.index t) ((p + 1) % 256) (some a))
    → s'.flags ≡ s.flags
    → s'.wasm ≡ s.wasm
    → IsLast 256 (s.index t) (some p)
    → Appends t a s (
        if is_singleton t
        then (err duplicate, s)
        else if leb ((p + 1) % 256) p
        then (panic, s)
        else (ok ((p + 1) % 256), s'))
after_last t a p s s' ei ef ew h = elim (Bool-cases (is_singleton t)) [
  | inl single ↦ rw single (refl, refl, single, (p, omega (arith, h.0), h.1))
  | inr many ↦ rw many (elim (Bool-cases (leb ((p + 1) % 256) p)) [
    | inl wraps ↦
        rw wraps (subst (λ q. is_some (s.index t q) ≡ true) (ground (arith, h.0)) h.1, many)
    | inr fits ↦ rw fits (
      ground (arith, h.0),
      ground (arith, h.0),
      inr (subst (λ q. is_some (s.index t q) ≡ true) (ground (arith, h.0)) h.1),
      λ q h₁ h₂. h.2 q (ground arith) (omega arith),
      ei,
      ef,
      ew,
      λ x. cc,
    )
  ])
]

-- A registration gets the position right after the last one that is taken, or position 1 if that is
-- free with all above it, within 1 to 255, and nothing else of the index changes. It is refused with the duplicate error exactly when the type is exclusive and
-- taken, and it panics only when the last position of a type that is not exclusive is taken.
pub append_to_privileged_contracts-Appends :
    {W : Type 0} (t a : ℕ) (s : State W) → Appends t a s (append_to_privileged_contracts t a s)
unfolding append_to_privileged_contracts
append_to_privileged_contracts-Appends t a s =
    go (last_below 256 (s.index t)) refl (last_below-IsLast 256 (s.index t))
  where
    go :
        (o : Option ℕ)
        → last_below 256 (s.index t) ≡ o
        → IsLast 256 (s.index t) o
        → Appends t a s (append_to_privileged_contracts t a s)
    go none e h =
        rw (e, append_to_privileged_contracts)
          (
            omega arith,
            omega arith,
            inl refl,
            λ q h₁ h₂. h q (omega arith),
            refl,
            refl,
            refl,
            λ x q h₁. h q (omega arith),
          )
    go (some p) e h = rw (e, append_to_privileged_contracts) (after_last t a p s _ refl refl refl h)

-- The address that a list of entries has at a position.
abbrev pub entry_at : ℕ → List (ℕ × ℕ) → Option ℕ
entry_at q [] = none
entry_at q ((p, a) ∷ es) = if p == q then some a else entry_at q es

abbrev pub IsAscending : ℕ → List (ℕ × ℕ) → Type 0
IsAscending p [] = ⊤
IsAscending p ((q, a) ∷ es) = (p ≤ q) × IsAscending (suc q) es

entries_from-entry_at :
    (n p q : ℕ) (f : ℕ → Option ℕ)
    → entry_at q (entries_from n p f) ≡ (if leb p q && ltb q (p + n) then f q else none)
unfolding entries_from
entries_from-entry_at zero p q f = ground arith
entries_from-entry_at (suc n) p q f = ground (arith, entries_from-entry_at n (suc p) q f)

IsAscending-mono : (p q : ℕ) (es : List (ℕ × ℕ)) → p ≤ q → IsAscending q es → IsAscending p es
IsAscending-mono p q [] h a = tt
IsAscending-mono p q (x ∷ es) h a = (omega (arith, a.0), a.1)

entries_from-IsAscending : (n p : ℕ) (f : ℕ → Option ℕ) → IsAscending p (entries_from n p f)
unfolding entries_from
entries_from-IsAscending zero p f = tt
entries_from-IsAscending (suc n) p f = elim (Option-cases (f p)) [
  | inl e ↦
      rw (e, IsAscending)
        (IsAscending-mono p (suc p) _ (omega arith) (entries_from-IsAscending n (suc p) f))
  | inr (a, e) ↦ rw (e, IsAscending) (omega arith, entries_from-IsAscending n (suc p) f)
]

-- The iteration over one privilege type calls back once for each registration of that type at a
-- position below 256, in ascending order of the positions.
pub privileged_contracts_by_type_lem :
    {W : Type 0} (t : ℕ) (s : State W)
    → ((q : ℕ)
        → entry_at q (privileged_contracts_by_type t s) ≡ (if ltb q 256 then s.index t q else none))
      × IsAscending 0 (privileged_contracts_by_type t s)
unfolding privileged_contracts_by_type
privileged_contracts_by_type_lem t s = (
  λ q. ground (arith, entries_from-entry_at 256 0 q (s.index t)),
  entries_from-IsAscending 256 0 (s.index t),
)

-- `ExistsAnyPrivilegedContract` is true exactly when some position below 255 is taken: a contract
-- that is registered at position 255 alone is not seen.
pub exists_any_privileged_contract_iff :
    {W : Type 0} (t : ℕ) (s : State W)
    → (exists_any_privileged_contract t s ≡ true)
      ↔ ((p : ℕ) × (p < 255) × (is_some (s.index t p) ≡ true))
unfolding exists_any_privileged_contract
exists_any_privileged_contract_iff t s =
    go (last_below 255 (s.index t)) refl (last_below-IsLast 255 (s.index t))
  where
    go :
        (o : Option ℕ)
        → last_below 255 (s.index t) ≡ o
        → IsLast 255 (s.index t) o
        → (is_some (last_below 255 (s.index t)) ≡ true)
          ↔ ((p : ℕ) × (p < 255) × (is_some (s.index t p) ≡ true))
    go none e h = rw e (λ x. cc, λ (p, k, y). ground (arith, h p k))
    go (some p) e h = rw e (λ x. (p, h.0, h.1), λ x. refl)
