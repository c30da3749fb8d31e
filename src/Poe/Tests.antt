-- ===== src/Poe/Tests.antt =====
-- Concrete runs of the operations of x/poe.
mod Serving
mod Creating
mod Founding
mod Booting
use tgrade.Base.{
  ℕ, ⊤, String, ◌≡◌, ◌<◌, ◌+◌, ◌-◌, ◌⊎◌, true, false, none, some, [], ◌∷◌, ◌==◌, if◌then◌else◌, ok,
  is_ok, is_some, ◌>>◌, or_err, not_found, arith,
}
use tgrade.Base.Int.{pos}
use tgrade.Base.Coin.{Coin}
use tgrade.Twasm.Keeper.{State, privileged_contracts_by_type}
use tgrade.Twasm.Keeper.Privileged.{Contracts}
use tgrade.Poe.History.{Infos, track_historical_info}
use tgrade.Poe.History.Window.{IsWindow, later, track_historical_info-IsWindow}
use tgrade.Poe.Valset.{ValidatorDiff, end_blocker}
use tgrade.Poe.Valset.Updates.{FromOne, IsRegistered, end_blocker-FromOne}
use tgrade.Poe.Fees.{FeeTx, FeeState, FeeServices, Step, ante_handle}
use tgrade.Poe.Fees.Passing.{Passes, ante_handle-Passes}
use tgrade.Poe.Registry.{Registry, validate_contract_type, get_poe_contract_address}
use tgrade.Poe.Registry.Steps.{stores, restarts, run, last_stored, get_poe_contract_address-run}
use tgrade.Poe.Engagement.{EngagementServices, set_validator_initial_engagement_points}
use tgrade.Poe.Engagement.Initial.{Grants, set_validator_initial_engagement_points-Grants}
use tgrade.Poe.Unbonding.{Attribute, UnbondAmount, Unbonder, unbond_delegation}
use tgrade.Poe.Unbonding.Completion.{Unbonds, unbond_delegation-Unbonds}

-- Heights 3 and 4 are stored.
abbrev infos : Infos ℕ
infos = λ q. if q == 3 then some 30 else if q == 4 then some 40 else none

infos-IsWindow : IsWindow 3 5 infos
infos-IsWindow q = ground arith

track_historical_info-IsWindow_example :
    let t = track_historical_info 2 5 50 infos in
    IsWindow (later 3 (5 + 1 - 2)) (5 + 1) t
    × (t 5 ≡ some 50)
    × ((q : ℕ) → q < 5 → is_some (t q) ≡ true → t q ≡ infos q)
track_historical_info-IsWindow_example =
    track_historical_info-IsWindow 2 3 5 50 infos infos-IsWindow (omega arith) (omega arith)

abbrev diff : ValidatorDiff
diff = record {
  pub_key = record { ed25519 = none; secp256k1 = some (1 ∷ []); sr25519 = none };
  power = 7;
}

abbrev chain : State ⊤
chain = record {
  flags = λ a. a == 9;
  index = λ t p. if t == 3 then (if p == 1 then some 9 else none) else none;
  wasm = tt;
  events = [];
}

abbrev contracts : Contracts ⊤
contracts = record {
  marshal = λ m. some [];
  commit_events = λ own branched. own;
  sudo = λ a m s. (ok (1 ∷ []), s);
}

end_blocker-FromOne_example :
    FromOne contracts
      (λ bz. some (diff ∷ []))
      chain
      (IsRegistered contracts (λ bz. some (diff ∷ [])) chain)
      (privileged_contracts_by_type 3 chain)
      (end_blocker contracts (λ bz. some (diff ∷ [])) chain)
end_blocker-FromOne_example = end_blocker-FromOne contracts (λ bz. some (diff ∷ [])) chain

abbrev fees : FeeServices ℕ
fees = record {
  is_zero = λ cs. false;
  is_valid = λ cs. true;
  use_granted_fees = some (λ g p cs w. (ok tt, w + 1));
  has_account = λ a w. a == 5;
  send_coins = λ a b cs w. (ok tt, w + 10);
  get_valset_address = λ w. ok 2;
}

abbrev granted_tx : FeeTx
granted_tx = record {
  fee = record { denom = "utgd"; amount = pos 3 } ∷ [];
  fee_payer = 4;
  fee_granter = some 5;
}

abbrev fee_state : FeeState ℕ
fee_state = record { world = 0; fee_events = [] }

ante_handle-Passes_example :
    ((t : FeeState ℕ)
      → Passes fees granted_tx fee_state t
      → (next : Step ℕ ⊤) → ante_handle fees (some granted_tx) next fee_state ≡ next t)
    × (((next : Step ℕ ⊤) → is_ok (ante_handle fees (some granted_tx) next fee_state).0 ≡ false)
        ⊎ ((t : FeeState ℕ) × Passes fees granted_tx fee_state t))
ante_handle-Passes_example = ante_handle-Passes fees granted_tx fee_state

abbrev empty : Registry
empty = record { store = λ t. none; cache = λ t. none }

abbrev points : EngagementServices ℕ
points = record {
  registry = λ w. record { store = λ t. some 8; cache = λ t. none };
  initial_points = λ w. 10;
  minimum_delegation_amounts = λ w. [];
  is_all_gte = λ c cs. ok true;
  query_member = λ a op w. ok (some (pos 4));
  sudo_update_member = λ a op n w. (ok tt, n);
}

abbrev stake : Coin
stake = record { denom = "utgd"; amount = pos 1 }

set_validator_initial_engagement_points-Grants_example :
    Grants points 6 stake 0 (set_validator_initial_engagement_points points 6 stake 0)
set_validator_initial_engagement_points-Grants_example =
    set_validator_initial_engagement_points-Grants points 6 stake 0

abbrev attribute : String → String → Attribute
attribute k v = record { key = k; value = v }

abbrev unbonder : Unbonder ℕ
unbonder = record {
  wasm_module_event_type = "wasm";
  attribute_key_contract_addr = "_contract_address";
  contract_string = "furya1";
  parse_int = λ x. ok (pos 99);
  execute_unbond = λ n d w. (
    ok tt,
    (
      record {
        event_type = "wasm";
        attributes = attribute "_contract_address" "furya1" ∷ attribute "completion_time" "99" ∷ [];
      }
          ∷ [],
      w + n,
    ),
  );
}

abbrev coin : UnbondAmount
coin = record { denom = "utgd"; amount = some (pos 3) }

unbond_delegation-Unbonds_example :
    Unbonds unbonder coin ([], 0) (unbond_delegation unbonder coin ([], 0))
unbond_delegation-Unbonds_example = unbond_delegation-Unbonds unbonder coin [] 0

-- A second address for the same type, before and after the node starts again.
get_poe_contract_address-run_example :
    get_poe_contract_address 2 (run (stores 2 8 ∷ restarts ∷ stores 3 9 ∷ stores 2 7 ∷ [])) ≡ (
      validate_contract_type 2
      >> or_err (last_stored 2 (stores 2 8 ∷ restarts ∷ stores 3 9 ∷ stores 2 7 ∷ [])) not_found)
get_poe_contract_address-run_example =
    get_poe_contract_address-run (stores 2 8 ∷ restarts ∷ stores 3 9 ∷ stores 2 7 ∷ []) 2
