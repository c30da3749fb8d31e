-- ===== src/Twasm/Tests.antt =====
-- A small world for the theorems on x/twasm: a wasm keeper that is a map, contracts that answer
-- every call, and services that accept everything.
mod Keeping
mod Messaging
mod Governing
mod Exporting
use tgrade.Base.{
  ℕ, ⊤, String, ◌≡◌, refl, true, Option, none, some, List, [], ◌∷◌, ◌==◌, if◌then◌else◌, Outcome,
  ok, err, not_found, arith, update, Option-cases, inl, inr,
}
use tgrade.Base.Int.{pos}
use tgrade.Twasm.Details.{RegisteredPrivilege}
use tgrade.Twasm.Keeper.{WasmKeeper, State}
use tgrade.Twasm.Keeper.Privileged.{Contracts}
use tgrade.Twasm.Keeper.Laws.{WasmLaws}
use tgrade.Twasm.Messages.{Content, parameter_change}
use tgrade.Twasm.Handler.{Services, ConsensusParams}

abbrev pub entry : String → ℕ → RegisteredPrivilege
entry n p = record { privilege_type = n; position = p }

-- Code and extension of each contract.
abbrev pub Store : Type 0
Store = ℕ → Option (ℕ × List RegisteredPrivilege)

abbrev put : ℕ → List RegisteredPrivilege → Store → Outcome ⊤ × Store
put a ps w = elim (w a) [
  | none ↦ (err not_found, w)
  | some i ↦ (ok tt, update w a (some (i.0, ps)))
]

-- The addresses up to 9 are those in use.
abbrev instances : ℕ → Store → List ℕ → List ℕ
instances c w [] = []
instances c w (a ∷ more) =
    let rest = instances c w more in
    elim (w a) [ none ↦ rest | some i ↦ if i.0 == c then a ∷ rest else rest ]

abbrev pub keeper : WasmKeeper
keeper = record {
  W = Store;
  Info = ℕ × List RegisteredPrivilege;
  code_id = λ i. i.0;
  read_extension = λ i. ok i.1;
  get_contract_info = λ a w. w a;
  set_contract_info_extension = put;
  pin_code = λ c w. (ok tt, w);
  unpin_code = λ c w. (ok tt, w);
  contracts_by_code = λ c w. instances c w (8 ∷ 9 ∷ []);
}

put-reads :
    (a : ℕ) (ps : List RegisteredPrivilege) (w : Store)
    → (put a ps w).0 ≡ ok tt
    → (info : ℕ × List RegisteredPrivilege) × ((put a ps w).1 a ≡ some info) × (ok info.1 ≡ ok ps)
put-reads a ps w h = elim (Option-cases (w a)) [
  | inl e ↦ absurd (ground (arith, e))
  | inr (i, e) ↦ ((i.0, ps), ground (arith, e), refl)
]

pub keeper_laws : WasmLaws keeper
keeper_laws = record {
  set_stores = λ a ps w info h v. ground (arith, h);
  set_reads = put-reads;
  set_other = λ a b ps w h. ground (arith, h);
  pin_keeps = λ c b w. refl;
  unpin_keeps = λ c b w. refl;
}

abbrev pub contracts : Contracts Store
contracts = record {
  marshal = λ m. some [];
  commit_events = λ own branched. own;
  sudo = λ a m s. (ok [], s);
}

abbrev pub world : List RegisteredPrivilege → State Store
world ps = record {
  flags = λ a. a == 9;
  index = λ t p. none;
  wasm = λ a. if a == 9 then some (1, ps) else none;
  events = [];
}

abbrev pub params : ConsensusParams
params = record {
  block = some (record { max_bytes = pos 100; max_gas = pos 200 });
  evidence =
      some
        (record { max_age_num_blocks = pos 300; max_age_duration = pos 400; max_bytes = pos 500 });
}

abbrev pub content_path : Content ⊤ → String
content_path (parameter_change x) = "params"
content_path _ = "gov"

abbrev pub services : Services Store ⊤
services = record {
  acc_address_from_bech32 = λ x. some 9;
  address_string = λ a. "furya1";
  new_int_from_string = λ x. some (pos 5);
  validate_coin = λ c. ok tt;
  new_coins = λ c. c ∷ [];
  convert_coin = λ d a. some [];
  mint_coins = λ m cs w. (ok tt, w);
  send_coins_from_module_to_account = λ m a cs w. (ok tt, w);
  send_coins_from_account_to_module = λ a m cs w. (ok tt, w);
  delegate_coins_from_account_to_module = λ a m cs w. (ok tt, w);
  undelegate_coins_from_module_to_account = λ m a cs w. (ok tt, w);
  get_consensus_params = λ w. params;
  store_consensus_params = λ p w. w;
  content_route = content_path;
  validate_content = λ c. ok tt;
  has_route = λ r. true;
  route = λ r c s. (ok tt, s);
  params_route = "params";
  base_subspace = "baseapp";
}
