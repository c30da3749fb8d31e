-- ===== src/Poe/Registry/Lookup.antt =====
-- The lookup of a PoE contract's address, x/poe/keeper/keeper.go, against the store alone.
use tgrade.Base.{
  ℕ, ◌≡◌, ◌≢◌, refl, sym, ap, ◌∙◌, none, some, List, [], ◌∷◌, Outcome, ok, ◌>>◌, or_err, not_found,
  update, arith, Option-cases, inl, inr,
}
use tgrade.Poe.Registry.{
  Registry, contract_types, validate_contract_type, set_poe_contract_address,
  get_poe_contract_address, init_cache_from, init_contract_address_cache,
}

-- What the cache holds is what the store holds.
abbrev pub IsCoherent : Registry → Type 0
IsCoherent r = (t a : ℕ) → r.cache t ≡ some a → r.store t ≡ some a

-- Storing an address keeps a cache that agrees with the store in agreement with it.
pub set_poe_contract_address-IsCoherent :
    (t a : ℕ) (r : Registry) → IsCoherent r → IsCoherent (set_poe_contract_address t a r)
unfolding set_poe_contract_address
set_poe_contract_address-IsCoherent t a r h u b e = ground (arith, h u b)

-- The lookup without the cache.
abbrev pub lookup : ℕ → Registry → Outcome ℕ
lookup t r = validate_contract_type t >> or_err (r.store t) not_found

-- With a cache that agrees with the store, the lookup gives what the store gives.
pub get_poe_contract_address-lookup :
    (t : ℕ) (r : Registry) → IsCoherent r → get_poe_contract_address t r ≡ lookup t r
unfolding get_poe_contract_address
get_poe_contract_address-lookup t r h = elim (Option-cases (r.cache t)) [
  | inl e ↦ rw (e, get_poe_contract_address)
  | inr (a, e) ↦ rw (e, h t a e, get_poe_contract_address)
]

-- An address that is stored for a defined type is found, and the other types are not affected.
pub get_poe_contract_address-set_poe_contract_address :
    (t a : ℕ) (r : Registry)
    → validate_contract_type t ≡ ok tt
    → let r' = set_poe_contract_address t a r in
      (get_poe_contract_address t r' ≡ ok a)
      × ((u : ℕ) → u ≢ t → get_poe_contract_address u r' ≡ get_poe_contract_address u r)
unfolding get_poe_contract_address set_poe_contract_address
get_poe_contract_address-set_poe_contract_address t a r v =
    (ground (arith, v), λ u ne. ground (arith, ne))

pub init_cache_from-store : (ts : List ℕ) (r : Registry) → (init_cache_from ts r).store ≡ r.store
unfolding init_cache_from
init_cache_from-store [] r = refl
init_cache_from-store (t ∷ ts) r = elim (Option-cases (r.store t)) [
  | inl e ↦ rw (e, init_cache_from) (init_cache_from-store ts r)
  | inr (a, e) ↦
      rw (e, init_cache_from)
        (init_cache_from-store ts (record r { cache = update r.cache t (some a) }))
]

pub init_cache_from-IsCoherent :
    (ts : List ℕ) (r : Registry) → IsCoherent r → IsCoherent (init_cache_from ts r)
unfolding init_cache_from
init_cache_from-IsCoherent [] r h = h
init_cache_from-IsCoherent (t ∷ ts) r h = elim (Option-cases (r.store t)) [
  | inl e ↦ rw (e, init_cache_from) (init_cache_from-IsCoherent ts r h)
  | inr (a, e) ↦
      rw (e, init_cache_from)
        (init_cache_from-IsCoherent ts (record r { cache = update r.cache t (some a) })
          (λ u b q. ground (arith, e, h u b)))
]

-- The state of a node that starts again: the store without a cache.
abbrev pub restarted : Registry → Registry
restarted r = record r { cache = λ t. none }

-- After a restart, the cache that is filled from the store serves the addresses that were served
-- before.
pub get_poe_contract_address-init_contract_address_cache :
    (t : ℕ) (r : Registry)
    → IsCoherent r
    → get_poe_contract_address t (init_contract_address_cache (restarted r))
      ≡ get_poe_contract_address t r
unfolding init_contract_address_cache
get_poe_contract_address-init_contract_address_cache t r h =
    let warm = init_cache_from contract_types (restarted r) in
    get_poe_contract_address-lookup t warm
      (init_cache_from-IsCoherent contract_types (restarted r) (λ u b e. ground (arith, e)))
    ∙ ap (λ f. validate_contract_type t >> or_err (f t) not_found)
        (init_cache_from-store contract_types (restarted r))
    ∙ sym (get_poe_contract_address-lookup t r h)
