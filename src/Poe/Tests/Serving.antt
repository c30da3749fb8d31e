-- ===== src/Poe/Tests/Serving.antt =====
-- Concrete runs of the messages and the queries of x/poe.
use tgrade.Base.{
  ℕ, ⊤, String, str_eq, ◌≡◌, ◌≢◌, ◌+◌, ◌↔◌, refl, eq_iff, Bool, true, false, not, none, some, List,
  [], ◌∷◌, ◌==◌, if◌then◌else◌, Outcome, ok, err, panic, arith, invalid_address,
}
use tgrade.Base.Int.{pos, negsuc, ◌+ℤ◌}
use tgrade.Poe.Registry.{Registry, get_poe_contract_address, validate_contract_type}
use tgrade.Poe.Unbonding.{UnbondAmount}
use tgrade.Poe.Messages.{
  Description, PubKey, MsgCreateValidator, MessageServices, validate_create_validator,
}
use tgrade.Poe.Messages.Valid.{CoinLaws, IsCreatable, validate_create_validator_iff}
use tgrade.Poe.Valset.{ed25519_key}
use tgrade.Poe.Contract.{to_description}
use tgrade.Poe.Queries.{QueryServices, DelegationResponse, delegation}
use tgrade.Poe.Queries.Delegations.{IsDelegated, delegation_iff}
use tgrade.Poe.Adapter.Pages.{
  last, more, ends, walk, iterate_active_validators, iterate_active_validators-walk,
}
use tgrade.Poe.Plugin.{
  StakingQuery, PluginServices, all_validators_response, staking_response, validators_page,
}
use tgrade.Poe.Plugin.Queries.{answer, staking_response_all}
use tgrade.Poe.Adapter.{
  Querier, list_validators, list_active_validators, OperatorResponse, Validator, ValidatorInfo,
  StakedAmounts, contract_of, list_page, active_page, do_query, query_contract, pagination_cursor,
  to_query, to_validators, to_validator, to_cosmos_pub_key,
}

-- Coins of any denomination with a name are valid.
abbrev name_ok : String → Bool
name_ok d = not (str_eq d "")

abbrev amount_test : (ℕ → Bool) → Bool → UnbondAmount → Outcome Bool
amount_test test otherwise c = elim c.amount [
  | none ↦ panic
  | some (pos n) ↦ ok (test n)
  | some (negsuc n) ↦ ok otherwise
]

abbrev add_amounts : UnbondAmount → UnbondAmount → Outcome UnbondAmount
add_amounts a b =
    if str_eq a.denom b.denom
    then elim a.amount [
      | some (pos n) ↦ elim b.amount [
        | some (pos m) ↦ ok (record { denom = a.denom; amount = some (pos (n + m)) })
        | _ ↦ panic
      ]
      | _ ↦ panic
    ]
    else panic

abbrev pub message_services : MessageServices
message_services = record {
  acc_address_from_bech32 = λ t. if str_eq t "op" then ok 6 else err invalid_address;
  is_empty_address = λ a. a == 0;
  is_valid = λ c. amount_test (λ n. name_ok c.denom) false c;
  is_zero = λ c. amount_test (λ n. n == 0) false c;
  is_positive = λ c. amount_test (λ n. not (n == 0)) false c;
  add = add_amounts;
  byte_length = λ t. if str_eq t "" then 0 else 5;
  do_not_modify = "[do-not-modify]";
}

add_amounts-same :
    (a b : UnbondAmount) (n m : ℕ)
    → a.amount ≡ some (pos n)
    → b.amount ≡ some (pos m)
    → a.denom ≡ b.denom
    → add_amounts a b ≡ ok (record { denom = a.denom; amount = some (pos (n + m)) })
add_amounts-same a b n m e q d = ground (arith, e, q, d, eq_iff a.denom b.denom)

add_amounts-other : (a b : UnbondAmount) → a.denom ≢ b.denom → add_amounts a b ≡ panic
add_amounts-other a b d = ground (arith, d, eq_iff a.denom b.denom)

message_services_laws : CoinLaws message_services name_ok 1000
message_services_laws = record {
  valid_lem = λ c n e. ground (arith, e);
  negative_lem = λ c n e. ground (arith, e);
  zero_lem = λ c n e. ground (arith, e);
  positive_lem = λ c n e. ground (arith, e);
  add_lem = λ a b n m e q d small. (
    record { denom = a.denom; amount = some (pos (n + m)) },
    add_amounts-same a b n m e q d,
    refl,
  );
  add_panics = λ a b n m e q d. add_amounts-other a b d;
}

abbrev pub tokens : ℕ → UnbondAmount
tokens n = record { denom = "ufury"; amount = some (pos n) }

abbrev pub description : Description
description = record {
  moniker = "alice";
  identity = "";
  website = "";
  security_contact = "";
  details = "";
}

abbrev pub_key : PubKey
pub_key = record { key_type = "ed25519"; bytes = 7 ∷ [] }

abbrev pub create_msg : MsgCreateValidator
create_msg = record {
  description = description;
  operator_address = "op";
  pubkey = some (record { cached = some pub_key; text = "key" });
  amount = tokens 5;
  vesting_amount = tokens 0;
}

validate_create_validator_iff_example :
    (validate_create_validator message_services create_msg ≡ ok tt)
    ↔ IsCreatable message_services name_ok 1000 message_services_laws create_msg
validate_create_validator_iff_example =
    validate_create_validator_iff message_services name_ok 1000 message_services_laws create_msg
      (λ n m a b. ground (arith, a.0, b.0))

-- Every contract type has a contract, at its own number.
abbrev pub addresses : Registry
addresses = record { store = λ t. some t; cache = λ t. none }

abbrev pub operator_response : OperatorResponse
operator_response = record {
  operator = "op";
  pubkey = record { ed25519 = some (7 ∷ []); secp256k1 = none; sr25519 = none };
  metadata = record {
    moniker = "alice";
    identity = "";
    website = "";
    security_contact = "";
    details = "";
  };
  jailed_until = none;
  active_validator = true;
}

abbrev validator_info : ValidatorInfo
validator_info = record { operator = "op"; validator_pubkey = operator_response.pubkey; power = 3 }

abbrev amounts : StakedAmounts
amounts = record {
  liquid = record { denom = "ufury"; amount = "4" };
  vesting = record { denom = "ufury"; amount = "x" };
}

-- A contract with one validator: the first query has a cursor, that after it is empty.
abbrev pub querier : {S : Type 0} → Querier S
querier = record {
  registry = λ s. addresses;
  marshal = λ m. elim m [
    | list_validators c n ↦ some (if str_eq c "" then 1 ∷ [] else [])
    | list_active_validators c n ↦ some (if str_eq c "" then 1 ∷ [] else [])
    | _ ↦ some (1 ∷ [])
  ];
  query_smart = λ a bz s. ok bz;
  address_text = λ a. "op";
  new_int_from_string = λ t. if str_eq t "x" then none else some (pos 4);
  add_int = λ a b. ok (a +ℤ b);
  new_any_with_value = λ k. ok tt;
  read_validator = λ bz. some (some operator_response);
  read_validators = λ bz. some (elim bz [ [] ↦ [] | b ∷ bs ↦ operator_response ∷ [] ]);
  read_active_validators = λ seen bz. some (elim bz [ [] ↦ [] | b ∷ bs ↦ validator_info ∷ [] ]);
  read_validator_group = λ bz. some "op";
  read_proposals = λ bz. some [];
  read_unbonding_period = λ bz. some 10;
  read_staked = λ bz. some amounts;
  read_claims = λ bz. some [];
  read_rewards = λ bz. some (record { denom = "ufury"; amount = pos 2 });
}

active_first :
    active_page {S = ⊤} querier (ok 2) ("", []) (pos 0) tt
    ≡ ok (validator_info ∷ [], ("op", (1 ∷ []) ∷ []))
unfolding active_page do_query query_contract pagination_cursor
active_first = refl

active_last :
    active_page {S = ⊤} querier (ok 2) ("op", (1 ∷ []) ∷ []) (pos 0) tt
    ≡ ok ([], ("", [] ∷ (1 ∷ []) ∷ []))
unfolding active_page do_query query_contract pagination_cursor
active_last = refl

-- The callback collects the powers.
abbrev collect : List ℕ → ValidatorInfo → Bool × List ℕ
collect acc i = (false, i.power ∷ acc)

iterate_active_validators-walk_example :
    iterate_active_validators querier (ok 2) tt 3 collect [] none
    ≡ some (ok (walk collect [] (validator_info ∷ [])).1)
unfolding to_query
iterate_active_validators-walk_example =
    iterate_active_validators-walk querier (ok 2) tt 3 collect [] none (validator_info ∷ []) []
      ("op", (1 ∷ []) ∷ []) active_first refl (ends active_last) (omega arith)

abbrev plugin : PluginServices ⊤
plugin = record {
  querier = querier;
  acc_address_from_bech32 = λ t. if str_eq t "op" then ok 6 else ok 7;
  zero_dec = "0";
  uint64 = λ n. elim n [ pos k ↦ ok k | negsuc k ↦ panic ];
  nil_address = 0;
  votes = λ s. [];
  marshal_staking = λ r. ok [];
  marshal_custom = λ r. ok [];
}

abbrev validator : Validator
validator = record {
  operator_address = "op";
  consensus_pubkey = ed25519_key (7 ∷ []);
  description = description;
  bonded = true;
  jailed = false;
}

all_first : validators_page plugin tt "" ≡ ok (validator ∷ [], "op")
unfolding list_page do_query query_contract pagination_cursor contract_of get_poe_contract_address
    to_query to_validators to_validator to_description to_cosmos_pub_key validate_contract_type
all_first = refl

all_last : validators_page plugin tt "op" ≡ ok ([], "")
unfolding list_page do_query query_contract pagination_cursor contract_of get_poe_contract_address
    to_query to_validators validate_contract_type
all_last = refl

abbrev all_request : StakingQuery
all_request = record {
  bonded_denom = false;
  all_validators = true;
  validator = none;
  all_delegations = none;
  delegation = none;
}

staking_response_all_example :
    staking_response plugin tt 2 all_request
    ≡ some (ok (all_validators_response (answer plugin tt (validator ∷ []))))
staking_response_all_example =
    staking_response_all plugin tt 2 all_request (validator ∷ []) refl refl
      (more validator [] [] (validator ∷ []) all_first refl refl (last all_last)) (omega arith)

abbrev queries : QueryServices ⊤ ⊤
queries = record {
  new_coin = λ denom n. ok (record { denom = denom; amount = n });
  new_dec_coin = λ c. ok c;
  infos = λ s height. none;
}

abbrev response : DelegationResponse
response = record { address = "op"; balance = record { denom = "ufury"; amount = pos 8 } }

delegation_iff_example :
    (delegation plugin queries tt (some ("op", "op")) ≡ ok response)
    ↔ IsDelegated plugin queries tt "op" "op" response
delegation_iff_example = delegation_iff plugin queries tt "op" "op" response
