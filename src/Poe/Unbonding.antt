-- ===== src/Poe/Unbonding.antt =====
-- `UnbondDelegation` of x/poe/contract/contractio.go. The staking contract is executed with an event
-- manager of its own, whose events are searched for the completion time; times are nanoseconds. The
-- JSON encoder, the wasm keeper and the integer parser are parameters.
pub mod Completion
use tgrade.Base.{
  ℕ, ⊤, String, str_eq, Bool, true, false, not, ◌&&◌, ◌||◌, Option, none, some, List, [], ◌∷◌, ◌++◌,
  ◌==◌, ltb, if◌then◌else◌, Outcome, ok, err, panic, invalid, ◌^◌,
}
use tgrade.Base.Int.{ℤ, pos, negsuc}

pub record Attribute : Type 0 where
  pub key : String
  pub value : String

pub record WasmEvent : Type 0 where
  pub event_type : String
  pub attributes : List Attribute

-- A coin whose amount may be nil.
pub record UnbondAmount : Type 0 where
  pub denom : String
  pub amount : Option ℤ

-- What the code takes from the wasm module: its event type and the key under which it puts the address
-- of the contract.
pub record Unbonder (W : Type 0) : Type 0 where
  pub wasm_module_event_type : String
  pub attribute_key_contract_addr : String
  pub contract_string : String
  pub parse_int : String → Outcome ℤ
  pub execute_unbond : ℕ → String → W → Outcome ⊤ × (List WasmEvent × W)

unfoldable pub has_attribute : String → String → List Attribute → Bool
has_attribute key value [] = false
has_attribute key value (a ∷ more) =
    if str_eq a.key key && str_eq a.value value then true else has_attribute key value more

unfoldable pub first_value : String → List Attribute → Option String
first_value key [] = none
first_value key (a ∷ more) = if str_eq a.key key then some a.value else first_value key more

-- A positive amount that fits an int64; the contract is then asked for as many tokens.
unfoldable pub unbond_tokens : Option ℤ → Option ℕ
unbond_tokens none = none
unbond_tokens (some (pos n)) = if n == 0 then none else if ltb n (2 ^ 63) then some n else none
unbond_tokens (some (negsuc n)) = none

module _ {W : Type 0} (v : Unbonder W) where
  -- The loop over the events.
  unfoldable pub completion_time : List WasmEvent → Outcome ℤ
  unfolding has_attribute first_value
  completion_time [] = err invalid
  completion_time (e ∷ es) =
      let rest = completion_time es in
      if not (str_eq e.event_type v.wasm_module_event_type)
      then rest
      else if not (has_attribute v.attribute_key_contract_addr v.contract_string e.attributes)
      then rest
      else elim (first_value "completion_time" e.attributes) [
        | none ↦ rest
        | some value ↦ v.parse_int value
      ]

  -- The state of the chain, and the events that the caller's manager has, in order.
  unfoldable pub unbond_delegation :
      UnbondAmount → List WasmEvent × W → Outcome ℤ × (List WasmEvent × W)
  unfolding completion_time unbond_tokens
  unbond_delegation amount (evts, w) = elim (unbond_tokens amount.amount) [
    | none ↦ (err invalid, (evts, w))
    | some n ↦
        let (o, (em, w')) = v.execute_unbond n amount.denom w in
        (elim o [ ok _ ↦ completion_time em | err e ↦ err e | panic ↦ panic ], (evts ++ em, w'))
  ]
