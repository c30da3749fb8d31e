-- ===== src/Poe/Tests/Booting.antt =====
-- A bootstrap of x/poe on concrete services, and the check of its result.
use tgrade.Base.{ℕ, ◌≡◌, ◌≢◌, ◌⊎◌, ◌↔◌, is_ok, ◌+◌, refl, true, none, some, [], ◌∷◌, ok, panic}
use tgrade.Base.Int.{ℤ, pos}
use tgrade.Poe.Registry.{
  contract_types, get_poe_contract_address, set_poe_contract_address, validate_contract_type,
}
use tgrade.Poe.Contract.{send}
use tgrade.Poe.Adapter.{do_query, query_contract, query_validator_group}
use tgrade.Poe.Genesis.{ValsetContractConfig}
use tgrade.Poe.Bootstrap.Init.{
  decimal_from_percentage, fraction, to_contract_voting_rules, new_trusted_circle_init_msg,
  new_oc_init_msg, new_ap_trusted_circle_init_msg, new_oc_gov_proposals_init_msg,
  new_arbiter_pool_voting_init_msg, new_engagement_init_msg, new_stake_init_msg,
  new_valset_init_msg,
}
use tgrade.Poe.Bootstrap.{
  BootState, BootServices, instantiate_with, add_others, setup_engagement, setup_oversight,
  setup_stake, setup_mixer, setup_community_pool, setup_valset, setup_oc_proposals,
  setup_validator_voting, setup_arbiter_pool, setup_arbiter_voting, set_migrators, setup_all,
  bootstrap_poe_contracts, first_member,
}
use tgrade.Poe.Bootstrap.Setup.{
  AreFound, HandsOver, bootstrap_poe_contracts-Registers, new_valset_init_msg_iff,
}
use tgrade.Poe.Bootstrap.Verify.{
  VerifyServices, verify_poe_contracts, IsSetUp, verify_poe_contracts_iff,
}
use tgrade.Poe.Genesis.State.Export.{no_contracts}
use tgrade.Poe.Tests.Serving.{querier}
use tgrade.Poe.Tests.Founding.{genesis_services, valset_config, seed}

-- The world counts the calls; a new contract's address is the count.
abbrev boot_services : BootServices ℤ ℕ
boot_services = record {
  genesis = genesis_services;
  quo_int64 = λ d n. d;
  acc_address_from_bech32 = λ t. ok 6;
  address_text = λ a. "op";
  marshal_init = λ m. some [];
  create = λ a b w. (ok w, w + 1);
  instantiate = λ code creator admin msg label funds w. (ok (w + 100), w + 1);
  pin_code = λ code w. (ok tt, w + 1);
  update_contract_admin = λ a old new w. (ok tt, w + 1);
  set_privileged = λ a w. (ok tt, w + 1);
  executor = record { marshal = λ m. some []; execute = λ a op bz funds w. (ok tt, w + 1) };
  new_coins = λ c. ok (c ∷ []);
  querier = querier;
}

abbrev unbooted : BootState ℕ
unbooted = record { registry = no_contracts; world = 0 }

booted : BootState ℕ
unfolding bootstrap_poe_contracts
booted = (bootstrap_poe_contracts boot_services seed unbooted).1

booted_fine : bootstrap_poe_contracts boot_services seed unbooted ≡ (ok tt, booted)
unfolding booted bootstrap_poe_contracts setup_all setup_engagement setup_oversight setup_stake
    setup_mixer setup_community_pool setup_valset setup_oc_proposals setup_validator_voting
    setup_arbiter_pool setup_arbiter_voting set_migrators instantiate_with add_others
    new_engagement_init_msg new_stake_init_msg new_oc_init_msg new_ap_trusted_circle_init_msg
    new_trusted_circle_init_msg new_oc_gov_proposals_init_msg new_arbiter_pool_voting_init_msg
    new_valset_init_msg to_contract_voting_rules fraction decimal_from_percentage
    query_validator_group do_query query_contract send get_poe_contract_address
    set_poe_contract_address validate_contract_type first_member
booted_fine = refl

bootstrap_poe_contracts-Registers_example :
    AreFound boot_services contract_types booted.registry
    × HandsOver boot_services seed unbooted booted
bootstrap_poe_contracts-Registers_example =
    bootstrap_poe_contracts-Registers boot_services seed unbooted booted booted_fine

-- All rewards go to the validators.
abbrev whole_config : ValsetContractConfig ℤ
whole_config = record valset_config {
  validator_reward_ratio = pos 10000;
  engagement_reward_ratio = pos 0;
  community_pool_reward_ratio = pos 0;
}

new_valset_init_msg_iff_example :
    let made = new_valset_init_msg genesis_services (λ d n. d) whole_config "a" "m" "e" "p" 1 in
    ((is_ok made ≡ true) ↔ (
      (whole_config.engagement_reward_ratio ≢ pos 0)
      × (whole_config.community_pool_reward_ratio ≢ pos 0)))
    × ((made ≡ panic) ↔ (
        (whole_config.engagement_reward_ratio ≡ pos 0)
        ⊎ (whole_config.community_pool_reward_ratio ≡ pos 0)))
new_valset_init_msg_iff_example =
    new_valset_init_msg_iff genesis_services (λ d n. d) (λ d. d) (λ d. refl) whole_config "a" "m"
      "e" "p" 1

abbrev checked : VerifyServices
checked = record {
  registry = record { store = λ t. some t; cache = λ t. none };
  address_text = λ a. "voting";
  contract_admin = λ a. some "voting";
  has_privileged_contract = λ a t. ok true;
}

verify_poe_contracts_iff_example : (verify_poe_contracts checked ≡ ok tt) ↔ IsSetUp checked
verify_poe_contracts_iff_example = verify_poe_contracts_iff checked
