-- ===== src/Poe/Tests/Founding.antt =====
-- Concrete genesis states of x/poe.
use tgrade.Base.{
  ℕ, zero, suc, ⊤, String, ◌≡◌, ◌≤◌, refl, true, false, none, some, List, [], ◌∷◌, ◌*◌, ◌/◌, ok,
  arith,
}
use tgrade.Base.Int.{
  ℤ, pos, negsuc, ◌+ℤ◌, ◌*ℤ◌, ltb_ℤ, eqb_ℤ, pos_part, mul_int64, to_int64, to_uint64,
}
use tgrade.Poe.Registry.{get_poe_contract_address, validate_contract_type}
use tgrade.Poe.Registry.Lookup.{IsCoherent, restarted}
use tgrade.Poe.Messages.{eq_description, check_amount, check_moniker, validate_create_validator}
use tgrade.Poe.Genesis.{
  gen_create_validator, GenesisServices, ValsetContractConfig, VotingRules, PoeContract, Params,
  truncate_second, validate_engagement_config, check_ratios, validate_valset_config,
  validate_stake_config, validate_voting_rules, check_name, check_escrow, check_deny_list,
  validate_oversight_config, validate_arbiter_config, check_present, validate_mixer_config,
  validate_member, validate_poe_contract, validate_params,
}
use tgrade.Poe.Genesis.Ratios.{DecimalLaws, check_ratios_iff}
use tgrade.Poe.Genesis.Seed.{
  SeedContracts, elem, check_members, single_message, check_gen_tx, check_gen_txs, check_unique,
  check_configs, validate_seed_contracts,
}
use tgrade.Poe.Genesis.Seed.Unique.{Seeds, validate_seed_contracts-Seeds}
use tgrade.Poe.Genesis.State.{
  GenesisState, import_dump, elem_type, check_contracts, validate_import_dump, validate_genesis,
  DeliverServices, PoeState, init_genesis, export_genesis,
}
use tgrade.Poe.Genesis.State.Import.{Lists, init_genesis-Complete}
use tgrade.Poe.Genesis.State.Export.{no_contracts, init_genesis-export_genesis}
use tgrade.Poe.Tests.Serving.{message_services, create_msg}

-- Decimals in hundredths.
abbrev pub genesis_services : GenesisServices ℤ
genesis_services = record {
  messages = message_services;
  validate_denom = λ d. ok tt;
  validate_coins = λ cs. ok tt;
  tx_json_decoder = λ raw. ok (gen_create_validator create_msg ∷ []);
  whole_seconds = λ d. pos (pos_part d / 1000000000);
  unsigned_seconds = λ d. pos_part d / 1000000000;
  new_dec = λ n. pos (n * 100);
  dec_with_prec = λ n k. pos 1;
  is_nil_dec = λ d. false;
  is_zero_dec = λ d. ok (eqb_ℤ d (pos 0));
  gt = λ a b. ok (ltb_ℤ b a);
  lt = λ a b. ok (ltb_ℤ a b);
  equal_dec = λ a b. ok (eqb_ℤ a b);
  add_dec = λ a b. ok (a +ℤ b);
}

pub decimal_laws : DecimalLaws genesis_services (λ d. d) 100
decimal_laws = record {
  new_lem = λ n. refl;
  gt_lem = λ a b. refl;
  equal_lem = λ a b. refl;
  add_lem = λ a b. (a +ℤ b, refl, refl);
}

abbrev pub valset_config : ValsetContractConfig ℤ
valset_config = record {
  min_points = 1;
  max_validators = 100;
  epoch_length = pos 60000000000;
  epoch_reward = record { denom = "ufury"; amount = pos 100000 };
  scaling = 1;
  fee_percentage = pos 5000;
  auto_unjail = false;
  validator_reward_ratio = pos 4750;
  engagement_reward_ratio = pos 4750;
  community_pool_reward_ratio = pos 500;
  verify_validators = false;
  offline_jail_duration = pos 86400000000000;
}

-- The ratios are -100, 100 and 100.
abbrev negative_config : ValsetContractConfig ℤ
negative_config = record valset_config {
  validator_reward_ratio = negsuc 9999;
  engagement_reward_ratio = pos 10000;
  community_pool_reward_ratio = pos 10000;
}

check_ratios_iff_example : check_ratios genesis_services negative_config ≡ ok tt
unfolding ◌+ℤ◌
check_ratios_iff_example =
    (check_ratios_iff genesis_services (λ d. d) 100 decimal_laws negative_config).1 refl refl refl

abbrev rules : VotingRules ℤ
rules = record {
  voting_period = 30;
  quorum = pos 5100;
  threshold = pos 5500;
  allow_end_early = true;
}

abbrev pub seed : SeedContracts ℤ
seed = record {
  engagement = record { address = "op"; points = 10 } ∷ [];
  engagement_contract_config = some (record { halflife = pos 2000000000 });
  bond_denom = "ufury";
  valset_contract_config = some valset_config;
  stake_contract_config = some (record {
    min_bond = 1;
    tokens_per_point = 1000000;
    unbonding_period = pos 3000000000;
    claim_autoreturn_limit = 20;
  });
  oversight_committee_contract_config = some (record {
    name = "oc";
    escrow_amount = record { denom = "ufury"; amount = some (pos 1000000) };
    voting_rules = rules;
    deny_list_contract_address = "";
  });
  arbiter_pool_contract_config = some (record {
    name = "ap";
    escrow_amount = record { denom = "ufury"; amount = some (pos 1000000) };
    voting_rules = rules;
    deny_list_contract_address = "";
    waiting_period = pos 0;
    dispute_cost = record { denom = "ufury"; amount = pos 1000000 };
  });
  community_pool_contract_config = some rules;
  validator_voting_contract_config = some rules;
  mixer_contract_config = some (record { max_points = 1000000; p = pos 62; s = pos 1 });
  bootstrap_account_address = "op";
  gen_txs = [] ∷ [];
  oversight_community_members = "op" ∷ [];
  arbiter_pool_members = "op" ∷ [];
}

configs_fine : check_configs genesis_services seed ≡ ok tt
unfolding check_configs validate_engagement_config truncate_second validate_valset_config
    check_ratios validate_stake_config validate_oversight_config validate_arbiter_config
    validate_voting_rules validate_mixer_config check_present check_name check_escrow
    check_deny_list ◌+ℤ◌ mul_int64 to_int64 to_uint64 ◌*ℤ◌
configs_fine = refl

seed_accepted : validate_seed_contracts genesis_services seed ≡ ok tt
unfolding validate_seed_contracts check_members validate_member elem check_gen_txs check_gen_tx
    single_message validate_create_validator check_amount check_moniker eq_description check_unique
seed_accepted = rw configs_fine refl

validate_seed_contracts-Seeds_example : Seeds genesis_services seed
validate_seed_contracts-Seeds_example =
    validate_seed_contracts-Seeds genesis_services seed seed_accepted

abbrev contract : ℕ → PoeContract
contract t = record { contract_type = t; address = "op" }

abbrev dump : List PoeContract
dump =
    contract 4
    ∷ contract 1
    ∷ contract 2
    ∷ contract 3
    ∷ contract 5
    ∷ contract 6
    ∷ contract 7
    ∷ contract 11
    ∷ contract 9
    ∷ contract 10
    ∷ contract 8
    ∷ []

abbrev params : Params
params = record {
  historical_entries = 5;
  initial_val_engagement_points = 1;
  min_delegation_amounts = [];
}

abbrev dump_state : GenesisState ℤ
dump_state = record { params = params; setup_mode = import_dump dump }

dump_accepted : validate_genesis genesis_services dump_state ≡ ok tt
unfolding validate_genesis validate_params validate_import_dump check_contracts elem_type
    validate_poe_contract validate_contract_type
dump_accepted = refl

abbrev delivery : DeliverServices ⊤
delivery = record {
  Tx = ⊤;
  tx_json_decoder = λ raw. ok tt;
  validate_tx = λ t. ok tt;
  tx_encoder = λ t. ok [];
  deliver_tx = λ bz w. (true, w);
}

abbrev fresh : PoeState ⊤
fresh = record { registry = no_contracts; params = params; world = tt }

no_contracts-IsCoherent : IsCoherent no_contracts
no_contracts-IsCoherent t a e = cc

init_genesis-Complete_example :
    let r = init_genesis delivery message_services.acc_address_from_bech32 dump_state fresh in
    (r.0 ≡ ok tt)
    × ((t : ℕ)
        → 1 ≤ t
        → t ≤ 11
        → (a : ℕ) × (get_poe_contract_address t r.1.registry ≡ ok a)
          × Lists genesis_services dump t a)
init_genesis-Complete_example =
    init_genesis-Complete genesis_services delivery dump_state dump fresh refl dump_accepted
      no_contracts-IsCoherent

-- An address as a text of as many letters, and back.
unary : ℕ → String
unary zero = String.[]
unary (suc n) = String.◌∷◌ "a" (unary n)

count : String → ℕ
count String.[] = 0
count (String.◌∷◌ c s) = suc (count s)

count-unary : (n : ℕ) → ok (count (unary n)) ≡ ok n
unfolding unary count
count-unary zero = refl
count-unary (suc n) = ground (arith, count-unary n)

-- A node whose contracts are stored at their own numbers.
abbrev running : PoeState ⊤
running = record {
  registry = record { store = λ t. some t; cache = λ t. none };
  params = params;
  world = tt;
}

init_genesis-export_genesis_example :
    let i =
      init_genesis delivery (λ s. ok (count s)) (export_genesis {D = ℤ} unary running) fresh in
    (i.0 ≡ ok tt)
    × (i.1.params ≡ params)
    × ((t : ℕ)
        → get_poe_contract_address t i.1.registry
          ≡ get_poe_contract_address t (restarted running.registry))
init_genesis-export_genesis_example =
    init_genesis-export_genesis unary (λ s. ok (count s)) count-unary ℤ delivery running fresh refl
