-- ===== src/Poe/Server/Executed.antt =====
-- What the calls of x/poe/contract that the message server makes have executed, where they succeed.
use tgrade.Base.{
  ℕ, str_eq, eq_iff, ◌≡◌, ◌⊎◌, inl, inr, Option, none, some, List, [], ok, ok-cases, arith,
  Bool-cases, Option-cases,
}
use tgrade.Poe.Valset.{ValidatorPubkey}
use tgrade.Poe.Unbonding.{UnbondAmount}
use tgrade.Poe.Messages.{Description, PubKey}
use tgrade.Poe.Contract.{
  ValidatorMetadata, ExecuteMsg, register_validator_key, update_metadata, bond, Executor,
  metadata_from_description, new_validator_pubkey, send, register_validator,
  update_validator_metadata, bond_delegation,
}

-- The message was encoded, and the contract was executed with it, by the sender and with the funds.
abbrev pub Executes :
    {S : Type 0} → Executor S → ℕ → ℕ → ExecuteMsg → List UnbondAmount → S → S → Type 0
Executes x contract sender msg funds s s' =
    (payload : List ℕ) × (x.marshal msg ≡ some payload)
    × (x.execute contract sender payload funds s ≡ (ok tt, s'))

-- The fields of a description, as the contract gets them.
abbrev pub metadata_of : Description → ValidatorMetadata
metadata_of d = record {
  moniker = d.moniker;
  identity = d.identity;
  website = d.website;
  security_contact = d.security_contact;
  details = d.details;
}

-- The key as the contract gets it: the bytes, under the name of the key's type.
abbrev pub IsKeyOf : PubKey → ValidatorPubkey → Type 0
IsKeyOf pk key =
    ((pk.key_type ≡ "ed25519")
      × (key ≡ record { ed25519 = some pk.bytes; secp256k1 = none; sr25519 = none }))
    ⊎ ((pk.key_type ≡ "secp256k1")
        × (key ≡ record { ed25519 = none; secp256k1 = some pk.bytes; sr25519 = none }))

new_validator_pubkey-IsKeyOf :
    (pk : PubKey) (key : ValidatorPubkey) → new_validator_pubkey pk ≡ ok key → IsKeyOf pk key
unfolding new_validator_pubkey
new_validator_pubkey-IsKeyOf pk key h =
    let ed = eq_iff pk.key_type "ed25519" in
    let secp = eq_iff pk.key_type "secp256k1" in
    elim (Bool-cases (str_eq pk.key_type "ed25519")) [
      | inl e ↦ inl (ed.0 e, ground (arith, e, h))
      | inr e ↦ elim (Bool-cases (str_eq pk.key_type "secp256k1")) [
        | inl e' ↦ inr (secp.0 e', ground (arith, e, e', h))
        | inr e' ↦ absurd (ground (arith, e, e', h))
      ]
    ]

module _ {S : Type 0} (x : Executor S) (contract operator : ℕ) (s s' : S) where
  send-Executes :
      (msg : ExecuteMsg) (funds : List UnbondAmount)
      → send x contract operator msg funds s ≡ (ok tt, s')
      → Executes x contract operator msg funds s s'
  unfolding send
  send-Executes msg funds h = elim (Option-cases (x.marshal msg)) [
    | inl e ↦ absurd (ground (arith, e, h))
    | inr (payload, e) ↦ (payload, e, ground (arith, e, h))
  ]

  pub register_validator-Executes :
      (pk : PubKey) (d : Description)
      → register_validator x contract pk operator d s ≡ (ok tt, s')
      → (key : ValidatorPubkey) × IsKeyOf pk key
        × Executes x contract operator (register_validator_key key (metadata_of d)) [] s s'
  unfolding register_validator metadata_from_description
  register_validator-Executes pk d h = elim (ok-cases (new_validator_pubkey pk)) [
    | inr bad ↦ absurd (ground (arith, bad, h))
    | inl (key, e) ↦ (
      key,
      new_validator_pubkey-IsKeyOf pk key e,
      send-Executes (register_validator_key key (metadata_of d)) [] (ground (arith, e, h)),
    )
  ]

  pub update_validator_metadata-Executes :
      (d : Description)
      → update_validator_metadata x contract operator d s ≡ (ok tt, s')
      → Executes x contract operator (update_metadata (metadata_of d)) [] s s'
  unfolding update_validator_metadata metadata_from_description
  update_validator_metadata-Executes d h = send-Executes (update_metadata (metadata_of d)) [] h

  pub bond_delegation-Executes :
      (amount : List UnbondAmount) (vesting : Option UnbondAmount)
      → bond_delegation x contract operator amount vesting s ≡ (ok tt, s')
      → Executes x contract operator (bond vesting) amount s s'
  unfolding bond_delegation
  bond_delegation-Executes amount vesting h = send-Executes (bond vesting) amount h
