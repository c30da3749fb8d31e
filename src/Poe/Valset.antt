-- ===== src/Poe/Valset.antt =====
-- x/poe/abci.go and the end of a block in x/poe/contract: the valset contract gives the changes of the
-- validator set. `decode` is the JSON decoder of the contract's answer; an absent key is `none`.
pub mod Updates
use tgrade.Base.{
  ℕ, ⊤, Bool, true, false, Option, none, some, List, [], ◌∷◌, if◌then◌else◌, Outcome, ok, err,
  panic, ◌>>=◌, json_marshal, json_unmarshal, pub_key_type_not_supported,
}
use tgrade.Base.Int.{ℤ, to_int64}
use tgrade.Twasm.Privilege.{validator_set_update}
use tgrade.Twasm.Callbacks.{end_with_validator_update}
use tgrade.Twasm.Keeper.{State, privileged_contracts_by_type}
use tgrade.Twasm.Keeper.Privileged.{Contracts, branch, commit, call_sudo}

pub record ValidatorPubkey : Type 0 where
  pub ed25519 : Option (List ℕ)
  pub secp256k1 : Option (List ℕ)
  pub sr25519 : Option (List ℕ)

-- `ValidatorUpdate` of the contract; the power is a uint64.
pub record ValidatorDiff : Type 0 where
  pub pub_key : ValidatorPubkey
  pub power : ℕ

pub data PublicKey : Type 0 where
  ed25519_key secp256k1_key : List ℕ → PublicKey

-- `ValidatorUpdate` of the consensus engine; the power is an int64.
pub record ValidatorUpdate : Type 0 where
  pub pub_key : PublicKey
  pub power : ℤ

unfoldable pub convert_to_tendermint_pub_key : ValidatorPubkey → Outcome PublicKey
convert_to_tendermint_pub_key key = elim key.ed25519 [
  | some k ↦ ok (ed25519_key k)
  | none ↦ elim key.secp256k1 [
    | some k ↦ ok (secp256k1_key k)
    | none ↦ err pub_key_type_not_supported
  ]
]

-- The loop over the diffs.
unfoldable pub convert_diffs : List ValidatorDiff → Outcome (List ValidatorUpdate)
unfolding convert_to_tendermint_pub_key
convert_diffs [] = ok []
convert_diffs (v ∷ vs) =
    let rest = convert_diffs vs in
    convert_to_tendermint_pub_key v.pub_key >>= λ k.
    rest >>= λ us. ok (record { pub_key = k; power = to_int64 v.power } ∷ us)

-- What `CallEndBlockWithValidatorUpdate` makes of the bytes that the contract answers.
unfoldable pub read_diffs :
    (List ℕ → Option (List ValidatorDiff)) → List ℕ → Outcome (List ValidatorUpdate)
unfolding convert_diffs
read_diffs decode [] = ok []
read_diffs decode (b ∷ bs) = elim (decode (b ∷ bs)) [
  | none ↦ err json_unmarshal
  | some diffs ↦ convert_diffs diffs
]

module _ {W : Type 0} (c : Contracts W) (decode : List ℕ → Option (List ValidatorDiff)) where
  unfoldable pub call_end_block_with_validator_update :
      ℕ → State W → Outcome (List ValidatorUpdate) × State W
  call_end_block_with_validator_update a s =
      let (o, s') = call_sudo c a end_with_validator_update s in (o >>= read_diffs decode, s')

  -- The iteration of `EndBlocker`: it stops at the first contract, with or without its changes, but a
  -- panic that is recovered makes the callback return false, so that the next contract is called.
  unfoldable pub update_loop : List (ℕ × ℕ) → State W → List ValidatorUpdate × State W
  update_loop [] s = ([], s)
  update_loop ((p, a) ∷ es) s =
      let rest = update_loop es s in
      let (o, s') = call_end_block_with_validator_update a (branch s) in
      elim o [ ok diff ↦ (diff, commit c s s') | err _ ↦ ([], s) | panic ↦ rest ]

  unfoldable pub end_blocker : State W → List ValidatorUpdate × State W
  unfolding update_loop
  end_blocker s = update_loop (privileged_contracts_by_type validator_set_update s) s
