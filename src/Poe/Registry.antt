-- ===== src/Poe/Registry.antt =====
-- x/poe/keeper/keeper.go and x/poe/types/poe.go: the addresses of the PoE contracts, in the store and in a
-- cache in memory. A contract type is its number in the protobuf enum; the key in the store is its
-- name, so there is one key for each number. The module stores defined types only.
pub mod Lookup
pub mod Steps
use tgrade.Base.{
  ℕ, ◌+◌, ⊤, String, str_eq, or_zero, Bool, true, false, not, Option, none, some, List, [], ◌∷◌,
  ◌==◌, leb, if◌then◌else◌, Outcome, ok, err, panic, ◌>>=◌, ◌>>◌, fail_if, or_err, invalid,
  not_found, update,
}

-- The names of the protobuf enum, in its order: `PoEContractType_value`.
unfoldable pub type_names : List String
type_names =
    "UNDEFINED" ∷ "STAKING" ∷ "VALSET" ∷ "ENGAGEMENT" ∷ "MIXER" ∷ "DISTRIBUTION"
    ∷ "OVERSIGHT_COMMUNITY" ∷ "OVERSIGHT_COMMUNITY_PROPOSALS" ∷ "COMMUNITY_POOL"
    ∷ "VALIDATOR_VOTING" ∷ "ARBITER_POOL" ∷ "ARBITER_POOL_VOTING" ∷ []

-- The position of a name, from a number on.
unfoldable pub position_of : String → ℕ → List String → Option ℕ
position_of n i [] = none
position_of n i (m ∷ ms) = if str_eq m n then some i else position_of n (i + 1) ms

-- `PoEContractTypeFrom`: an unknown name is undefined.
unfoldable pub contract_type_from : String → ℕ
unfolding type_names position_of
contract_type_from n = or_zero 0 (position_of n 0 type_names)

pub record Registry : Type 0 where
  pub store : ℕ → Option ℕ
  pub cache : ℕ → Option ℕ

abbrev pub staking : ℕ
staking = 1

abbrev pub valset : ℕ
valset = 2

abbrev pub mixer : ℕ
mixer = 4

abbrev pub distribution : ℕ
distribution = 5

abbrev pub oversight_community : ℕ
oversight_community = 6

abbrev pub oversight_community_proposals : ℕ
oversight_community_proposals = 7

abbrev pub community_pool : ℕ
community_pool = 8

abbrev pub validator_voting : ℕ
validator_voting = 9

abbrev pub arbiter_pool : ℕ
arbiter_pool = 10

abbrev pub arbiter_pool_voting : ℕ
arbiter_pool_voting = 11

-- The defined types, in the order of their names in the store.
abbrev pub contract_types : List ℕ
contract_types = 10 ∷ 11 ∷ 8 ∷ 5 ∷ 3 ∷ 4 ∷ 6 ∷ 7 ∷ 1 ∷ 9 ∷ 2 ∷ []

-- `PoEContractType.ValidateBasic`: zero is undefined, and 11 is the last number with a name.
unfoldable pub validate_contract_type : ℕ → Outcome ⊤
validate_contract_type t = fail_if (t == 0) invalid >> fail_if (not (leb t 11)) not_found

unfoldable pub set_poe_contract_address : ℕ → ℕ → Registry → Registry
set_poe_contract_address t a r = record {
  store = update r.store t (some a);
  cache = update r.cache t (some a);
}

unfoldable pub get_poe_contract_address : ℕ → Registry → Outcome ℕ
get_poe_contract_address t r =
    validate_contract_type t
    >> elim (r.cache t) [ some a ↦ ok a | none ↦ or_err (r.store t) not_found ]

-- `InitContractAddressCache`, over the types that are still to visit.
unfoldable pub init_cache_from : List ℕ → Registry → Registry
init_cache_from [] r = r
init_cache_from (t ∷ ts) r = elim (r.store t) [
  | none ↦ init_cache_from ts r
  | some a ↦ init_cache_from ts (record r { cache = update r.cache t (some a) })
]

unfoldable pub init_contract_address_cache : Registry → Registry
unfolding init_cache_from
init_contract_address_cache r = init_cache_from contract_types r
