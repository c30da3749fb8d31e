-- ===== src/Poe/Messages.antt =====
-- x/poe/types/msg.go: the messages of the module and their `ValidateBasic`. The parser of addresses, the
-- operations on coins and the length of a text in bytes are parameters; a coin's amount may be nil.
pub mod Valid
use tgrade.Base.{
  ℕ, ⊤, String, str_eq, Bool, true, false, not, ◌&&◌, ◌||◌, Option, none, some, Outcome, ok, err,
  panic, ◌>>=◌, ◌>>◌, fail_if, is_some, invalid, invalid_request, is_empty, empty_delegator_addr,
  empty_validator_pub_key, ltb, List,
}
use tgrade.Poe.Unbonding.{UnbondAmount}

pub record Description : Type 0 where
  pub moniker : String
  pub identity : String
  pub website : String
  pub security_contact : String
  pub details : String

-- A public key, and the `Any` around it: what it was unpacked to, and its text.
pub record PubKey : Type 0 where
  pub key_type : String
  pub bytes : List ℕ

pub record PubKeyAny : Type 0 where
  pub cached : Option PubKey
  pub text : String

pub record MsgCreateValidator : Type 0 where
  pub description : Description
  pub operator_address : String
  pub pubkey : Option PubKeyAny
  pub amount : UnbondAmount
  pub vesting_amount : UnbondAmount

pub record MsgUpdateValidator : Type 0 where
  pub description : Description
  pub operator_address : String

pub record MsgDelegate : Type 0 where
  pub operator_address : String
  pub amount : UnbondAmount
  pub vesting_amount : UnbondAmount

pub record MsgUndelegate : Type 0 where
  pub operator_address : String
  pub amount : UnbondAmount

-- What the code takes from the SDK. A test of a coin may panic, on a nil amount.
pub record MessageServices : Type 0 where
  pub acc_address_from_bech32 : String → Outcome ℕ
  pub is_empty_address : ℕ → Bool
  pub is_valid : UnbondAmount → Outcome Bool
  pub is_zero : UnbondAmount → Outcome Bool
  pub is_positive : UnbondAmount → Outcome Bool
  pub add : UnbondAmount → UnbondAmount → Outcome UnbondAmount
  pub byte_length : String → ℕ
  pub do_not_modify : String

abbrev pub is_nil : UnbondAmount → Bool
is_nil c = not (is_some c.amount)

unfoldable pub eq_description : Description → Description → Bool
eq_description d e =
    str_eq d.moniker e.moniker
    && (str_eq d.identity e.identity
        && (str_eq d.website e.website
            && (str_eq d.security_contact e.security_contact && str_eq d.details e.details)))

-- The description with one text in all fields.
abbrev pub all_fields : String → Description
all_fields t = record { moniker = t; identity = t; website = t; security_contact = t; details = t }

module _ (v : MessageServices) where
  -- `c.IsNil() || !c.IsValid()`
  unfoldable pub check_amount : UnbondAmount → Outcome ⊤
  check_amount c = do
    fail_if (is_nil c) invalid_request
    valid ← v.is_valid c
    fail_if (not valid) invalid_request

  unfoldable pub check_moniker : Description → Outcome ⊤
  check_moniker d = fail_if (ltb (v.byte_length d.moniker) 3) invalid_request

  -- `MsgCreateValidator.ValidateBasic`
  unfoldable pub validate_create_validator : MsgCreateValidator → Outcome ⊤
  validate_create_validator msg = do
    address ← v.acc_address_from_bech32 msg.operator_address
    fail_if (v.is_empty_address address) empty_delegator_addr
    fail_if (not (is_some msg.pubkey)) empty_validator_pub_key
    check_amount msg.amount
    check_amount msg.vesting_amount
    total ← v.add msg.amount msg.vesting_amount
    zero_total ← v.is_zero total
    fail_if zero_total invalid_request
    fail_if (eq_description msg.description (all_fields "")) invalid_request
    check_moniker msg.description

  -- `MsgUpdateValidator.ValidateBasic`
  unfoldable pub validate_update_validator : MsgUpdateValidator → Outcome ⊤
  validate_update_validator msg = do
    address ← v.acc_address_from_bech32 msg.operator_address
    fail_if
        (eq_description msg.description (all_fields "")
          || eq_description msg.description (all_fields v.do_not_modify))
        invalid_request
    check_moniker msg.description

  -- An address that does not parse is an error of the module's own.
  unfoldable pub check_operator : String → Outcome ⊤
  check_operator t = elim (v.acc_address_from_bech32 t) [
    | ok a ↦ ok tt
    | err e ↦ err is_empty
    | panic ↦ panic
  ]

  -- `a.IsZero() && b.IsZero()`: the second test is made only if the first holds.
  unfoldable pub both_zero : UnbondAmount → UnbondAmount → Outcome Bool
  both_zero a b = v.is_zero a >>= λ za. elim za [ true ↦ v.is_zero b | false ↦ ok false ]

  -- `MsgDelegate.ValidateBasic`
  unfoldable pub validate_delegate : MsgDelegate → Outcome ⊤
  validate_delegate msg = do
    check_operator msg.operator_address
    valid ← v.is_valid msg.amount
    fail_if (not valid) invalid
    valid_vesting ← v.is_valid msg.vesting_amount
    fail_if (not valid_vesting) invalid
    nothing ← both_zero msg.amount msg.vesting_amount
    fail_if nothing invalid

  -- `MsgUndelegate.ValidateBasic`
  unfoldable pub validate_undelegate : MsgUndelegate → Outcome ⊤
  validate_undelegate msg = do
    check_operator msg.operator_address
    valid ← v.is_valid msg.amount
    fail_if (not valid) invalid
    positive ← v.is_positive msg.amount
    fail_if (not positive) invalid
