-- ===== src/Poe/Contract.antt =====
-- The calls of x/poe/contract that write to a contract: contractio.go, with the structs and conversions of
-- petri_valset.go, pt4_stake.go and callback_msgs.go. The JSON encoder and the execution of a contract are
-- parameters over a state `S`, which holds the events of the caller too.
use tgrade.Base.{
  ℕ, ⊤, String, str_eq, Option, none, some, List, [], if◌then◌else◌, Outcome, ok, err, panic,
  pub_key_type_not_supported, json_marshal,
}
use tgrade.Poe.Valset.{ValidatorPubkey}
use tgrade.Poe.Unbonding.{UnbondAmount}
use tgrade.Poe.Messages.{Description, PubKey}

abbrev pub Call : Type 0 → Type 0 → Type 0
Call S A = S → Outcome A × S

infixl 5 ◌>>=◌ ◌>>◌
abbrev pub ◌>>=◌ : {S A B : Type 0} → Call S A → (A → Call S B) → Call S B
◌>>=◌ m f s =
    let (o, s') = m s in elim o [ ok a ↦ f a s' | err e ↦ (err e, s') | panic ↦ (panic, s') ]

abbrev pub ◌>>◌ : {S A B : Type 0} → Call S A → Call S B → Call S B
m >> k = m >>= λ _. k

-- A result that does not depend on the state.
abbrev pub pure : {S A : Type 0} → Outcome A → Call S A
pure o s = (o, s)

pub record ValidatorMetadata : Type 0 where
  pub moniker : String
  pub identity : String
  pub website : String
  pub security_contact : String
  pub details : String

unfoldable pub metadata_from_description : Description → ValidatorMetadata
metadata_from_description d = record {
  moniker = d.moniker;
  identity = d.identity;
  website = d.website;
  security_contact = d.security_contact;
  details = d.details;
}

unfoldable pub to_description : ValidatorMetadata → Description
to_description m = record {
  moniker = m.moniker;
  identity = m.identity;
  website = m.website;
  security_contact = m.security_contact;
  details = m.details;
}

-- The execute messages that the module sends.
pub data ExecuteMsg : Type 0 where
  register_validator_key : ValidatorPubkey → ValidatorMetadata → ExecuteMsg
  update_metadata : ValidatorMetadata → ExecuteMsg
  -- of the valset contract and of the engagement contract
  update_valset_admin update_engagement_admin : String → ExecuteMsg
  bond : Option UnbondAmount → ExecuteMsg
  deposit_escrow : ExecuteMsg
  propose_voting_members : List String → ExecuteMsg
  execute_proposal : ℕ → ExecuteMsg

pub record Executor (S : Type 0) : Type 0 where
  pub marshal : ExecuteMsg → Option (List ℕ)
  -- contract, sender, message, funds
  pub execute : ℕ → ℕ → List ℕ → List UnbondAmount → S → Outcome ⊤ × S

unfoldable pub new_validator_pubkey : PubKey → Outcome ValidatorPubkey
new_validator_pubkey pk =
    if str_eq pk.key_type "ed25519"
    then ok (record { ed25519 = some pk.bytes; secp256k1 = none; sr25519 = none })
    else if str_eq pk.key_type "secp256k1"
    then ok (record { ed25519 = none; secp256k1 = some pk.bytes; sr25519 = none })
    else err pub_key_type_not_supported

module _ {S : Type 0} (x : Executor S) where
  -- The payload is encoded, then the contract is executed.
  unfoldable pub send : ℕ → ℕ → ExecuteMsg → List UnbondAmount → Call S ⊤
  send contract sender msg funds s = elim (x.marshal msg) [
    | none ↦ (err json_marshal, s)
    | some payload ↦ x.execute contract sender payload funds s
  ]

  unfoldable pub register_validator : ℕ → PubKey → ℕ → Description → Call S ⊤
  register_validator contract pk operator description = do
    key ← pure (new_validator_pubkey pk)
    send contract operator (register_validator_key key (metadata_from_description description)) []

  unfoldable pub update_validator_metadata : ℕ → ℕ → Description → Call S ⊤
  update_validator_metadata contract operator description =
      send contract operator (update_metadata (metadata_from_description description)) []

  unfoldable pub bond_delegation : ℕ → ℕ → List UnbondAmount → Option UnbondAmount → Call S ⊤
  bond_delegation contract operator amount vesting = send contract operator (bond vesting) amount
