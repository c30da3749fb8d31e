-- ===== src/Twasm/Privilege.antt =====
-- x/twasm/types/privilege.go: the privilege types, the registry that names them, and the
-- conversions between a type and its name. A type is a byte; the two Go maps of the package are one
-- association list of type, name and singleton flag, whose order does not matter as the registry
-- has each type and each name once.
pub mod Names
use tgrade.Base.{
  ℕ, ⊤, String, str_eq, eq_iff, ◌≡◌, refl, ◌≢◌, Bool, true, false, ◌||◌, Option, none, some, List,
  [], ◌∷◌, arith, ◌==◌, if◌then◌else◌, Outcome, ok, err, panic, ◌>>=◌, ◌>>◌, Error, invalid,
  fail_if, is_some, or_zero, not,
}

pub record TypeInfo : Type 0 where
  pub type_id : ℕ
  pub name : String
  pub singleton : Bool

abbrev pub Registry : Type 0
Registry = List TypeInfo

-- `callbackTypeToString[t]`; a missing key gives the empty string and false.
unfoldable pub name_in : ℕ → Registry → Option String
name_in t [] = none
name_in t (e ∷ r) = if e.type_id == t then some e.name else name_in t r

-- `PrivilegeTypeFrom`, on a registry
unfoldable pub type_in : String → Registry → Option ℕ
type_in n [] = none
type_in n (e ∷ r) = if str_eq e.name n then some e.type_id else type_in n r

unfoldable pub singleton_in : ℕ → Registry → Bool
singleton_in t [] = false
singleton_in t (e ∷ r) = if e.type_id == t then e.singleton else singleton_in t r

-- `registerCallbackType`: the byte must be new and not zero, the name must be new.
unfoldable pub register_callback_type : ℕ → String → Bool → Registry → Outcome Registry
register_callback_type i name singleton r =
    if i == 0
    then panic
    else if is_some (name_in i r)
    then panic
    else if is_some (type_in name r)
    then panic
    else ok (record { type_id = i; name = name; singleton = singleton } ∷ r)

abbrev pub privilege_type_empty : ℕ
privilege_type_empty = 0

abbrev pub begin_block : ℕ
begin_block = 1

abbrev pub end_block : ℕ
end_block = 2

abbrev pub validator_set_update : ℕ
validator_set_update = 3

abbrev pub gov_proposal_executor : ℕ
gov_proposal_executor = 4

abbrev pub token_minter : ℕ
token_minter = 5

abbrev pub consensus_param_changer : ℕ
consensus_param_changer = 6

abbrev pub delegator : ℕ
delegator = 7

abbrev pub state_exporter_importer : ℕ
state_exporter_importer = 8

-- The package's variables, in the order of their initialisation.
unfoldable pub init_registry : Outcome Registry
unfolding register_callback_type name_in type_in
init_registry = do
  r1 ← register_callback_type begin_block "begin_blocker" false []
  r2 ← register_callback_type end_block "end_blocker" false r1
  r3 ← register_callback_type validator_set_update "validator_set_updater" true r2
  r4 ← register_callback_type gov_proposal_executor "gov_proposal_executor" false r3
  r5 ← register_callback_type token_minter "token_minter" false r4
  r6 ← register_callback_type consensus_param_changer "consensus_param_changer" false r5
  r7 ← register_callback_type delegator "delegator" false r6
  register_callback_type state_exporter_importer "state_exporter_importer" false r7

-- The content of the two maps once the package is initialised, the last entry first.
unfoldable pub registry : Registry
registry =
    record {
      type_id = state_exporter_importer;
      name = "state_exporter_importer";
      singleton = false;
    }
    ∷ record { type_id = delegator; name = "delegator"; singleton = false }
    ∷ record {
      type_id = consensus_param_changer;
      name = "consensus_param_changer";
      singleton = false;
    }
    ∷ record { type_id = token_minter; name = "token_minter"; singleton = false }
    ∷ record { type_id = gov_proposal_executor; name = "gov_proposal_executor"; singleton = false }
    ∷ record { type_id = validator_set_update; name = "validator_set_updater"; singleton = true }
    ∷ record { type_id = end_block; name = "end_blocker"; singleton = false }
    ∷ record { type_id = begin_block; name = "begin_blocker"; singleton = false }
    ∷ []

unfoldable pub privilege_type_from : String → Option ℕ
privilege_type_from n = type_in n registry

-- `PrivilegeType.String`: the empty string where the map has no entry.
unfoldable pub string : ℕ → String
string t = or_zero "" (name_in t registry)

unfoldable pub is_singleton : ℕ → Bool
is_singleton t = singleton_in t registry

-- `PrivilegeType.ValidateBasic`
unfoldable pub validate_basic : ℕ → Outcome ⊤
validate_basic t = fail_if (not (is_some (name_in t registry))) invalid

-- `UnmarshalJSON` past the JSON decoder: an unknown name leaves the receiver as it was.
unfoldable pub unmarshal_json : Outcome String → ℕ → Outcome ℕ
unfolding privilege_type_from
unmarshal_json raw t = do
  src ← raw
  fail_if (str_eq src "") invalid
  ok (or_zero t (privilege_type_from src))

-- `MarshalJSON` before the JSON encoder: `none` is the absent value of the empty type.
unfoldable pub marshal_json : ℕ → Outcome (Option String)
unfolding validate_basic string
marshal_json t = if t == 0 then ok none else (validate_basic t >> ok (some (string t)))
