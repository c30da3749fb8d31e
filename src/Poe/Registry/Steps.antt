-- ===== src/Poe/Registry/Steps.antt =====
-- The registry of the PoE contracts, x/poe/keeper/keeper.go, over the life of a node: against a map
-- that has no cache.
use tgrade.Base.{
  ℕ, ◌≡◌, refl, ap, ◌∙◌, ◌==◌, if◌then◌else◌, Option, none, some, List, [], ◌∷◌, ◌>>◌, or_err,
  not_found, arith,
}
use tgrade.Poe.Registry.{
  Registry, contract_types, validate_contract_type, set_poe_contract_address,
  get_poe_contract_address, init_contract_address_cache,
}
use tgrade.Poe.Registry.Lookup.{
  IsCoherent, restarted, set_poe_contract_address-IsCoherent, get_poe_contract_address-lookup,
  init_cache_from-store, init_cache_from-IsCoherent,
}

-- What happens to the registry: an address is stored for a contract type, or the node starts again.
pub data RegistryStep : Type 0 where
  stores : ℕ → ℕ → RegistryStep
  restarts : RegistryStep

abbrev no_contracts : Registry
no_contracts = record { store = λ t. none; cache = λ t. none }

-- The registry after steps from no contracts at all, the latest step first. A node that starts again
-- has the store alone, and fills the cache from it.
unfoldable pub run : List RegistryStep → Registry
run [] = no_contracts
run (stores t a ∷ steps) = set_poe_contract_address t a (run steps)
run (restarts ∷ steps) = init_contract_address_cache (restarted (run steps))

-- The address that was stored last for a type.
abbrev pub last_stored : ℕ → List RegistryStep → Option ℕ
last_stored t [] = none
last_stored t (stores u a ∷ steps) = if t == u then some a else last_stored t steps
last_stored t (restarts ∷ steps) = last_stored t steps

run-IsCoherent : (steps : List RegistryStep) → IsCoherent (run steps)
unfolding run init_contract_address_cache
run-IsCoherent [] = λ t a e. ground (arith, e)
run-IsCoherent (stores t a ∷ steps) =
    set_poe_contract_address-IsCoherent t a (run steps) (run-IsCoherent steps)
run-IsCoherent (restarts ∷ steps) =
    init_cache_from-IsCoherent contract_types (restarted (run steps)) (λ t a e. ground (arith, e))

run-store : (steps : List RegistryStep) (t : ℕ) → (run steps).store t ≡ last_stored t steps
unfolding run init_contract_address_cache set_poe_contract_address
run-store [] t = refl
run-store (stores u a ∷ steps) t = ground (arith, run-store steps t)
run-store (restarts ∷ steps) t =
    ap (λ f. f t) (init_cache_from-store contract_types (restarted (run steps))) ∙ run-store steps t

-- Whatever addresses were stored, in whatever order and for whatever types, and however often the
-- node started again in between, the lookup of a type gives the address that was stored last for it.
-- It fails with the error not found if none was stored, and with the error of its validation if the
-- type is not defined.
pub get_poe_contract_address-run :
    (steps : List RegistryStep) (t : ℕ)
    → get_poe_contract_address t (run steps)
      ≡ (validate_contract_type t >> or_err (last_stored t steps) not_found)
get_poe_contract_address-run steps t =
    get_poe_contract_address-lookup t (run steps) (run-IsCoherent steps)
    ∙ ap (λ found. validate_contract_type t >> or_err found not_found) (run-store steps t)
