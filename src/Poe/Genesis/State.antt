-- ===== src/Poe/Genesis/State.antt =====
-- `ValidateGenesis` and the validation of a dump, x/poe/types/genesis.go, with the import and the export of
-- x/poe/keeper/genesis.go. The setup of a genesis state is a protobuf oneof, so that it is never both a
-- seed and a dump. The transactions' codec and the delivery of one are parameters over a state `W`.
pub mod Complete
pub mod Import
pub mod Export
use tgrade.Base.{
  ℕ, suc, ⊤, String, Bool, true, false, not, ◌||◌, Option, none, some, List, [], ◌∷◌, ◌++◌, length,
  Outcome, ok, err, panic, ◌>>=◌, ◌>>◌, fail_if, duplicate, invalid_genesis, deliver_gen_tx_failed,
  ◌==◌, if◌then◌else◌,
}
use tgrade.Poe.Registry.{Registry, contract_types, set_poe_contract_address}
use tgrade.Poe.Genesis.{
  GenesisServices, PoeContract, Params, validate_poe_contract, validate_params,
}
use tgrade.Poe.Genesis.Seed.{SeedContracts, validate_seed_contracts}

pub data SetupMode (D : Type 0) : Type 0 where
  no_setup : SetupMode D
  seed_contracts : SeedContracts D → SetupMode D
  import_dump : List PoeContract → SetupMode D

pub record GenesisState (D : Type 0) : Type 0 where
  pub params : Params
  pub setup_mode : SetupMode D

unfoldable pub elem_type : ℕ → List ℕ → Bool
elem_type t [] = false
elem_type t (u ∷ us) = u == t || elem_type t us

module _ {D : Type 0} (v : GenesisServices D) where
  -- The loop over the contracts, with the types seen; the result is the set of all.
  unfoldable pub check_contracts : List ℕ → List PoeContract → Outcome (List ℕ)
  check_contracts seen [] = ok seen
  check_contracts seen (c ∷ cs) =
      let rest = check_contracts (c.contract_type ∷ seen) cs in
      validate_poe_contract v c >> fail_if (elem_type c.contract_type seen) duplicate >> rest

  -- `ImportDump.ValidateBasic`: the enum has eleven names and the undefined one.
  unfoldable pub validate_import_dump : List PoeContract → Outcome ⊤
  validate_import_dump cs = do
    types ← check_contracts [] cs
    fail_if (not (length types == 11)) invalid_genesis

  unfoldable pub validate_genesis : GenesisState D → Outcome ⊤
  validate_genesis g = do
    validate_params v g.params
    elim g.setup_mode [
      | no_setup ↦ err invalid_genesis
      | seed_contracts s ↦ validate_seed_contracts v s
      | import_dump cs ↦ validate_import_dump cs
    ]

-- The loop over the contracts of a dump.
unfoldable pub import_contracts :
    (String → Outcome ℕ) → List PoeContract → Registry → Outcome ⊤ × Registry
import_contracts acc_address_from_bech32 [] r = (ok tt, r)
import_contracts acc_address_from_bech32 (c ∷ cs) r = elim (acc_address_from_bech32 c.address) [
  | err e ↦ (err e, r)
  | panic ↦ (panic, r)
  | ok a ↦
      import_contracts acc_address_from_bech32 cs (set_poe_contract_address c.contract_type a r)
]

pub record DeliverServices (W : Type 0) : Type 1 where
  pub Tx : Type 0
  pub tx_json_decoder : List ℕ → Outcome Tx
  pub validate_tx : Tx → Outcome ⊤
  pub tx_encoder : Tx → Outcome (List ℕ)
  -- `deliverTx`: whether the response is OK.
  pub deliver_tx : List ℕ → W → Bool × W

pub record PoeState (W : Type 0) : Type 0 where
  pub registry : Registry
  pub params : Params
  pub world : W

module _ {W : Type 0} (d : DeliverServices W) (acc_address_from_bech32 : String → Outcome ℕ) where
  -- One transaction, decoded, validated and encoded for the delivery.
  unfoldable pub encode_gen_tx : List ℕ → Outcome (List ℕ)
  encode_gen_tx raw = do tx ← d.tx_json_decoder raw; d.validate_tx tx; d.tx_encoder tx

  unfoldable pub deliver_gen_txs : List (List ℕ) → PoeState W → Outcome ⊤ × PoeState W
  deliver_gen_txs [] s = (ok tt, s)
  deliver_gen_txs (raw ∷ raws) s = elim (encode_gen_tx raw) [
    | err e ↦ (err e, s)
    | panic ↦ (panic, s)
    | ok bz ↦
        let (delivered, w) = d.deliver_tx bz s.world in
        let s' = record s { world = w } in
        let rest = deliver_gen_txs raws s' in
        if delivered then rest else (err deliver_gen_tx_failed, s')
  ]

  unfoldable pub init_genesis : {D : Type 0} → GenesisState D → PoeState W → Outcome ⊤ × PoeState W
  init_genesis g s =
      let s₁ = record s { params = g.params } in
      elim g.setup_mode [
        | import_dump cs ↦
            let (o, r) = import_contracts acc_address_from_bech32 cs s₁.registry in
            (o, record s₁ { registry = r })
        | seed_contracts seed ↦ deliver_gen_txs seed.gen_txs s₁
        | no_setup ↦ (ok tt, s₁)
      ]

-- The iteration over the stored contracts, of the types that are still to visit.
unfoldable pub export_contracts : (ℕ → String) → List ℕ → Registry → List PoeContract
export_contracts address_text [] r = []
export_contracts address_text (t ∷ ts) r =
    let rest = export_contracts address_text ts r in
    elim (r.store t) [
      | none ↦ rest
      | some a ↦ record { contract_type = t; address = address_text a } ∷ rest
    ]

unfoldable pub export_genesis : {D W : Type 0} → (ℕ → String) → PoeState W → GenesisState D
export_genesis address_text s = record {
  params = s.params;
  setup_mode = import_dump (export_contracts address_text contract_types s.registry);
}
