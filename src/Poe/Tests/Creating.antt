-- ===== src/Poe/Tests/Creating.antt =====
-- Runs of the message server of x/poe: a validator is created and updated.
use tgrade.Base.{ℕ, ◌≡◌, ◌+◌, refl, true, none, some, [], ◌∷◌, ok}
use tgrade.Base.Int.{pos}
use tgrade.Poe.Registry.{get_poe_contract_address, validate_contract_type}
use tgrade.Poe.Messages.{MsgUpdateValidator}
use tgrade.Poe.Contract.{update_validator_metadata}
use tgrade.Poe.Server.{
  ServerState, ServerServices, create_validator, update_validator, cached_key, string_in_slice,
}
use tgrade.Poe.Server.Creation.{Creates, create_validator-Creates}
use tgrade.Poe.Server.Updating.{Updates, update_validator-Updates}
use tgrade.Poe.Adapter.{query_validator, do_query, query_contract, to_validator, to_cosmos_pub_key}
use tgrade.Poe.Contract.{register_validator, new_validator_pubkey, send, bond_delegation}
use tgrade.Poe.Server.{check_key_type, contract_address, current_description}
use tgrade.Poe.Engagement.{set_validator_initial_engagement_points}
use tgrade.Poe.Adapter.{to_validator, to_cosmos_pub_key}
use tgrade.Poe.Tests.Serving.{querier, create_msg, addresses, description}

abbrev server : ServerServices ℕ
server = record {
  acc_address_from_bech32 = λ t. ok 6;
  ensure_length = λ d. ok tt;
  pub_key_types = λ w. some ("ed25519" ∷ []);
  executor = record {
    marshal = λ m. some [];
    execute = λ a op bz funds s. (ok tt, (s.0, s.1 + a));
  };
  engagement_services = record {
    registry = λ s. addresses;
    initial_points = λ s. 10;
    minimum_delegation_amounts = λ s. [];
    is_all_gte = λ c cs. ok true;
    query_member = λ a op s. ok none;
    sudo_update_member = λ a op n s. (ok tt, (s.0, s.1 + n));
  };
  unbonder = λ a op. record {
    wasm_module_event_type = "wasm";
    attribute_key_contract_addr = "_contract_address";
    contract_string = "furya1";
    parse_int = λ x. ok (pos 99);
    execute_unbond = λ n d w. (ok tt, ([], w));
  };
  new_coins = λ c. ok [];
  add = λ a b. ok (record { denom = a.denom; amount = pos 5 });
  amount_text = λ n. "5";
  coin_text = λ c. "5ufury";
  hex = λ bz. "07";
  querier = querier;
  update_description = λ old new. ok new;
}

created : ServerState ℕ
unfolding create_validator
created = (create_validator server create_msg ([], 0)).1

created_fine : create_validator server create_msg ([], 0) ≡ (ok tt, created)
unfolding created create_validator cached_key check_key_type string_in_slice contract_address
    get_poe_contract_address validate_contract_type register_validator new_validator_pubkey send
    bond_delegation set_validator_initial_engagement_points
created_fine = refl

create_validator-Creates_example : Creates server create_msg ([], 0) created
create_validator-Creates_example =
    create_validator-Creates server create_msg ([], 0) created created_fine

abbrev update_msg : MsgUpdateValidator
update_msg = record { description = description; operator_address = "op" }

updated : ServerState ℕ
unfolding update_validator
updated = (update_validator server update_msg ([], 0)).1

updated_fine : update_validator server update_msg ([], 0) ≡ (ok tt, updated)
unfolding updated update_validator contract_address get_poe_contract_address validate_contract_type
    current_description query_validator do_query query_contract to_validator to_cosmos_pub_key
    update_validator_metadata send
updated_fine = refl

update_validator-Updates_example : Updates server update_msg ([], 0) updated
update_validator-Updates_example =
    update_validator-Updates server update_msg ([], 0) updated updated_fine
