-- ===== src/Poe/Bootstrap.antt =====
-- `BootstrapPoEContracts` of x/poe/bootstrap.go: the contracts are stored, instantiated, registered and
-- made privileged in a fixed order. The contract keeper of wasmd, the privileged keeper and the queries of
-- new contracts are parameters over a state `W`; a configuration that is nil is dereferenced.
pub mod Init
pub mod Verify
pub mod Triples
pub mod Setup
use tgrade.Base.{
  ℕ, ⊤, String, Bool, true, false, Option, none, some, List, [], ◌∷◌, Outcome, ok, err, panic,
  if◌then◌else◌,
}
use tgrade.Poe.Registry.{
  Registry, contract_types, get_poe_contract_address, set_poe_contract_address, staking, valset,
  mixer, distribution, oversight_community, oversight_community_proposals, community_pool,
  validator_voting, arbiter_pool, arbiter_pool_voting,
}
use tgrade.Poe.Engagement.{engagement}
use tgrade.Poe.Unbonding.{UnbondAmount}
use tgrade.Poe.Contract.{
  Call, ◌>>=◌, ◌>>◌, pure, ExecuteMsg, update_valset_admin, update_engagement_admin, deposit_escrow,
  propose_voting_members, execute_proposal, Executor, send,
}
use tgrade.Poe.Adapter.{Querier, latest_proposal, query_validator_group}
use tgrade.Poe.Genesis.{
  GenesisServices, OversightCommitteeContractConfig, ArbiterPoolContractConfig, VotingRules,
}
use tgrade.Poe.Genesis.Seed.{SeedContracts}
use tgrade.Poe.Bootstrap.Init.{
  InitMsg, mixer_init, community_pool_init, validator_voting_init, to_contract_voting_rules,
  new_oc_init_msg, new_ap_trusted_circle_init_msg, new_oc_gov_proposals_init_msg,
  new_arbiter_pool_voting_init_msg, new_engagement_init_msg, new_stake_init_msg,
  new_valset_init_msg,
}

-- The embedded contracts.
pub data Blob : Type 0 where
  engagement_wasm trusted_circle_wasm stake_wasm mixer_wasm community_pool_wasm valset_wasm : Blob
  oc_proposals_wasm validator_voting_wasm arbiter_pool_wasm : Blob

pub record BootState (W : Type 0) : Type 0 where
  pub registry : Registry
  pub world : W

pub record BootServices (D W : Type 0) : Type 0 where
  pub genesis : GenesisServices D
  pub quo_int64 : D → ℕ → D
  pub acc_address_from_bech32 : String → Outcome ℕ
  pub address_text : ℕ → String
  pub marshal_init : InitMsg D → Option (List ℕ)
  pub create : ℕ → Blob → W → Outcome ℕ × W
  -- code, creator, admin, message, label, deposit
  pub instantiate : ℕ → ℕ → ℕ → List ℕ → String → List UnbondAmount → W → Outcome ℕ × W
  pub pin_code : ℕ → W → Outcome ⊤ × W
  pub update_contract_admin : ℕ → ℕ → ℕ → W → Outcome ⊤ × W
  pub set_privileged : ℕ → W → Outcome ⊤ × W
  pub executor : Executor W
  pub new_coins : UnbondAmount → Outcome (List UnbondAmount)
  pub querier : Querier (BootState W)

module _ {D W : Type 0} (v : BootServices D W) where
  -- A call that leaves the registry alone.
  abbrev pub on_world : {A : Type 0} → (W → Outcome A × W) → Call (BootState W) A
  on_world f s = let (o, w) = f s.world in (o, record s { world = w })

  abbrev pub read : {A : Type 0} → (BootState W → Outcome A) → Call (BootState W) A
  read f s = (f s, s)

  abbrev pub set_address : ℕ → ℕ → Call (BootState W) ⊤
  set_address t a s = (ok tt, record s { registry = set_poe_contract_address t a s.registry })

  abbrev pub get_address : ℕ → Call (BootState W) ℕ
  get_address t s = (get_poe_contract_address t s.registry, s)

  -- A nil pointer is dereferenced.
  abbrev pub deref : {A : Type 0} → Option A → Outcome A
  deref none = panic
  deref (some a) = ok a

  -- `mustMarshalJSON` and `Instantiate`
  unfoldable pub instantiate_with :
      ℕ → ℕ → ℕ → InitMsg D → String → List UnbondAmount → Call (BootState W) ℕ
  instantiate_with code creator admin msg label deposit = do
    bz ← pure (deref (v.marshal_init msg))
    on_world (v.instantiate code creator admin bz label deposit)

  -- The deposits of the members.
  unfoldable pub deposit_all : ℕ → UnbondAmount → List String → Call (BootState W) ⊤
  deposit_all contract deposit [] = pure (ok tt)
  deposit_all contract deposit (m ∷ ms) = do
    a ← pure (v.acc_address_from_bech32 m)
    on_world (send v.executor contract a deposit_escrow (deposit ∷ []))
    deposit_all contract deposit ms

  unfoldable pub add_to_trusted_circle : ℕ → List String → ℕ → UnbondAmount → Call (BootState W) ⊤
  add_to_trusted_circle contract members sender deposit = do
    on_world (send v.executor contract sender (propose_voting_members members) [])
    latest ← read (latest_proposal v.querier (ok contract))
    id ← pure (deref latest)
    on_world (send v.executor contract sender (execute_proposal id) [])
    deposit_all contract deposit members

  -- The members after the first join the circle; there is a first one.
  unfoldable pub add_others : ℕ → List String → ℕ → UnbondAmount → Call (BootState W) ⊤
  add_others contract [] sender deposit = pure (ok tt)
  add_others contract (m ∷ ms) sender deposit =
      add_to_trusted_circle contract (m ∷ ms) sender deposit

  -- `members[0]` and `members[1:]`: of no members the first is out of range.
  unfoldable pub first_member : List String → Outcome (String × List String)
  first_member [] = panic
  first_member (m ∷ ms) = ok (m, ms)

  unfoldable pub setup_engagement : ℕ → SeedContracts D → Call (BootState W) (ℕ × ℕ)
  setup_engagement boot gs = do
    config ← pure (deref gs.engagement_contract_config)
    let msg =
        new_engagement_init_msg v.genesis v.quo_int64 config gs.engagement gs.bond_denom
          (v.address_text boot)
    code ← on_world (v.create boot engagement_wasm)
    a ← instantiate_with code boot boot msg "engagement" []
    set_address engagement a
    on_world (v.pin_code code)
    pure (ok (a, code))

  unfoldable pub setup_oversight : ℕ → SeedContracts D → Call (BootState W) (ℕ × ℕ)
  setup_oversight boot gs = do
    code ← on_world (v.create boot trusted_circle_wasm)
    config ← pure (deref gs.oversight_committee_contract_config)
    msg ← pure (new_oc_init_msg v.genesis v.quo_int64 config)
    members ← pure (first_member gs.oversight_community_members)
    first ← pure (v.acc_address_from_bech32 members.0)
    coins ← pure (v.new_coins config.escrow_amount)
    a ← instantiate_with code first boot msg "oversight_committee" coins
    set_address oversight_community a
    on_world (v.pin_code code)
    add_others a members.1 first config.escrow_amount
    pure (ok (a, code))

  unfoldable pub setup_stake : ℕ → SeedContracts D → Call (BootState W) ℕ
  setup_stake boot gs = do
    code ← on_world (v.create boot stake_wasm)
    config ← pure (deref gs.stake_contract_config)
    let msg = new_stake_init_msg v.genesis v.quo_int64 config gs.bond_denom (v.address_text boot)
    a ← instantiate_with code boot boot msg "stakers" []
    set_address staking a
    on_world (v.set_privileged a)
    pure (ok a)

  unfoldable pub setup_mixer : ℕ → SeedContracts D → ℕ → ℕ → Call (BootState W) ℕ
  setup_mixer boot gs engagement_address stake_address = do
    sigmoid ← pure (deref gs.mixer_contract_config)
    let msg = mixer_init (record {
      left_group = v.address_text engagement_address;
      right_group = v.address_text stake_address;
      preauths_slashing = 1;
      sigmoid = sigmoid;
    })
    code ← on_world (v.create boot mixer_wasm)
    a ← instantiate_with code boot boot msg "poe" []
    set_address mixer a
    on_world (v.pin_code code)
    pure (ok a)

  unfoldable pub setup_community_pool : ℕ → SeedContracts D → ℕ → Call (BootState W) ℕ
  setup_community_pool boot gs engagement_address = do
    code ← on_world (v.create boot community_pool_wasm)
    config ← pure (deref gs.community_pool_contract_config)
    rules ← pure (to_contract_voting_rules v.genesis v.quo_int64 config)
    let msg =
        community_pool_init
          (record { rules = rules; group_address = v.address_text engagement_address })
    a ← instantiate_with code boot boot msg "stakers" []
    set_address community_pool a
    on_world (v.pin_code code)
    pure (ok a)

  -- The valset contract and, in its configuration, the distribution contract that it created.
  unfoldable pub setup_valset : ℕ → SeedContracts D → ℕ → ℕ → ℕ → ℕ → Call (BootState W) (ℕ × ℕ)
  setup_valset boot gs mixer_address engagement_address pool_address engagement_code = do
    code ← on_world (v.create boot valset_wasm)
    config ← pure (deref gs.valset_contract_config)
    msg ← pure (
        new_valset_init_msg v.genesis v.quo_int64 config (v.address_text boot)
          (v.address_text mixer_address) (v.address_text engagement_address)
          (v.address_text pool_address) engagement_code)
    a ← instantiate_with code boot boot msg "valset" []
    set_address valset a
    group ← read (λ (s : BootState W).
        query_validator_group v.querier (get_poe_contract_address valset s.registry) s)
    distribution_address ← pure (v.acc_address_from_bech32 group)
    set_address distribution distribution_address
    on_world (v.set_privileged a)
    pure (ok (a, distribution_address))

  -- The contract of the community's proposals, which becomes the admin of two others.
  unfoldable pub setup_oc_proposals : ℕ → SeedContracts D → ℕ → ℕ → ℕ → Call (BootState W) ⊤
  setup_oc_proposals boot gs oc_address engagement_address valset_address = do
    code ← on_world (v.create boot oc_proposals_wasm)
    config ← pure (deref gs.oversight_committee_contract_config)
    msg ← pure (
        new_oc_gov_proposals_init_msg v.genesis v.quo_int64 config (v.address_text oc_address)
          (v.address_text engagement_address) (v.address_text valset_address))
    a ← instantiate_with code boot boot msg "oversight_committee gov proposals" []
    set_address oversight_community_proposals a
    on_world (v.pin_code code)
    engagement_contract ← get_address engagement
    on_world
        (send v.executor engagement_contract boot (update_engagement_admin (v.address_text a)) [])
    valset_contract ← get_address valset
    on_world (send v.executor valset_contract boot (update_valset_admin (v.address_text a)) [])

  unfoldable pub setup_validator_voting : ℕ → SeedContracts D → ℕ → Call (BootState W) ℕ
  setup_validator_voting boot gs distribution_address = do
    code ← on_world (v.create boot validator_voting_wasm)
    config ← pure (deref gs.validator_voting_contract_config)
    rules ← pure (to_contract_voting_rules v.genesis v.quo_int64 config)
    let msg =
        validator_voting_init
          (record { rules = rules; group_address = v.address_text distribution_address })
    a ← instantiate_with code boot boot msg "stakers" []
    set_address validator_voting a
    on_world (v.set_privileged a)
    pure (ok a)

  unfoldable pub setup_arbiter_pool : ℕ → SeedContracts D → ℕ → Call (BootState W) ℕ
  setup_arbiter_pool boot gs circle_code = do
    config ← pure (deref gs.arbiter_pool_contract_config)
    msg ← pure (new_ap_trusted_circle_init_msg v.genesis v.quo_int64 config)
    members ← pure (first_member gs.arbiter_pool_members)
    first ← pure (v.acc_address_from_bech32 members.0)
    coins ← pure (v.new_coins config.escrow_amount)
    a ← instantiate_with circle_code first boot msg "arbiter_pool" coins
    set_address arbiter_pool a
    add_others a members.1 first config.escrow_amount
    pure (ok a)

  unfoldable pub setup_arbiter_voting : ℕ → SeedContracts D → ℕ → Call (BootState W) ⊤
  setup_arbiter_voting boot gs pool_address = do
    code ← on_world (v.create boot arbiter_pool_wasm)
    config ← pure (deref gs.arbiter_pool_contract_config)
    msg ← pure (
        new_arbiter_pool_voting_init_msg v.genesis v.quo_int64 config (v.address_text pool_address))
    a ← instantiate_with code boot boot msg "arbiter pool voting" []
    set_address arbiter_pool_voting a
    on_world (v.pin_code code)

  -- `setAllPoEContractsInstanceMigrators`, over the types that are still to visit.
  unfoldable pub set_migrators : ℕ → ℕ → List ℕ → Call (BootState W) ⊤
  set_migrators old_admin new_admin [] = pure (ok tt)
  set_migrators old_admin new_admin (t ∷ ts) = do
    a ← get_address t
    on_world (v.update_contract_admin a old_admin new_admin)
    set_migrators old_admin new_admin ts

  -- All contracts, in order: the bootstrap account and the validator voting contract.
  unfoldable pub setup_all : SeedContracts D → Call (BootState W) (ℕ × ℕ)
  setup_all gs = do
    boot ← pure (v.acc_address_from_bech32 gs.bootstrap_account_address)
    e ← setup_engagement boot gs
    oc ← setup_oversight boot gs
    stake_address ← setup_stake boot gs
    mixer_address ← setup_mixer boot gs e.0 stake_address
    pool_address ← setup_community_pool boot gs e.0
    vs ← setup_valset boot gs mixer_address e.0 pool_address e.1
    setup_oc_proposals boot gs oc.0 e.0 vs.0
    voting ← setup_validator_voting boot gs vs.1
    ap ← setup_arbiter_pool boot gs oc.1
    setup_arbiter_voting boot gs ap
    pure (ok (boot, voting))

  unfoldable pub bootstrap_poe_contracts : SeedContracts D → Call (BootState W) ⊤
  bootstrap_poe_contracts gs =
      setup_all gs >>= λ accounts. set_migrators accounts.0 accounts.1 contract_types
