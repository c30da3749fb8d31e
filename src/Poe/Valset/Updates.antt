-- ===== src/Poe/Valset/Updates.antt =====
-- Where the changes of the validator set at the end of a block, x/poe/abci.go, come from.
use tgrade.Base.{
  Error, ap, ◌++◌, ℕ, suc, zero, ◌<◌, ◌^◌, ◌≡◌, refl, Bool, true, false, Option, none, some, List,
  [], ◌∷◌, if◌then◌else◌, Outcome, ok, err, panic, ◌>>=◌, ⊤, All, Option-cases, inl, inr, ◌⊎◌,
  arith, is_some,
}
use tgrade.Base.Int.{pos, to_int64, to_int64-pos}
use tgrade.Twasm.Privilege.{validator_set_update}
use tgrade.Twasm.Keeper.{State, entries_from, privileged_contracts_by_type}
use tgrade.Twasm.Keeper.Privileged.{Contracts, branch, commit}
use tgrade.Poe.Valset.{
  ValidatorPubkey, ValidatorDiff, PublicKey, ed25519_key, secp256k1_key, ValidatorUpdate,
  convert_to_tendermint_pub_key, convert_diffs, call_end_block_with_validator_update, update_loop,
  end_blocker,
}

abbrev pub IsKeyOf : ValidatorPubkey → PublicKey → Type 0
IsKeyOf key (ed25519_key k) = key.ed25519 ≡ some k
IsKeyOf key (secp256k1_key k) = (key.ed25519 ≡ none) × (key.secp256k1 ≡ some k)

-- The same key, and the same power where that fits the signed type.
abbrev pub IsUpdate : ValidatorDiff → ValidatorUpdate → Type 0
IsUpdate v u = IsKeyOf v.pub_key u.pub_key × (v.power < 2 ^ 63 → u.power ≡ pos v.power)

abbrev pub AreUpdates : List ValidatorDiff → List ValidatorUpdate → Type 0
AreUpdates [] [] = ⊤
AreUpdates (v ∷ vs) (u ∷ us) = IsUpdate v u × AreUpdates vs us
AreUpdates _ _ = ⊥

-- A diff with a key of a type that is not supported.
abbrev pub unsupported : List ValidatorDiff → Bool
unsupported [] = false
unsupported (v ∷ vs) =
    if is_some v.pub_key.ed25519
    then unsupported vs
    else if is_some v.pub_key.secp256k1
    then unsupported vs
    else true

abbrev pub Converts : List ValidatorDiff → Outcome (List ValidatorUpdate) → Type 0
Converts vs (ok us) = AreUpdates vs us
Converts vs (err _) = unsupported vs ≡ true
Converts vs panic = ⊥

abbrev KeyOf : ValidatorPubkey → Outcome PublicKey → Type 0
KeyOf key (ok k) = IsKeyOf key k
KeyOf key (err _) = (key.ed25519 ≡ none) × (key.secp256k1 ≡ none)
KeyOf key panic = ⊥

convert_to_tendermint_pub_key-KeyOf :
    (key : ValidatorPubkey) → KeyOf key (convert_to_tendermint_pub_key key)
unfolding convert_to_tendermint_pub_key
convert_to_tendermint_pub_key-KeyOf key = ground arith

-- The diffs of the valset contract are converted one by one, in order, each with its key and with its
-- power where that is below 2^63; the conversion fails only on a key of a type that is not supported.
pub convert_diffs-Converts : (vs : List ValidatorDiff) → Converts vs (convert_diffs vs)
unfolding convert_diffs
convert_diffs-Converts [] = tt
convert_diffs-Converts (v ∷ vs) =
    go (convert_to_tendermint_pub_key v.pub_key) (convert_to_tendermint_pub_key-KeyOf v.pub_key)
      (convert_diffs vs) (convert_diffs-Converts vs)
  where
    go :
        (o : Outcome PublicKey)
        → KeyOf v.pub_key o
        → (r : Outcome (List ValidatorUpdate)) → Converts vs r
        → Converts
            (v ∷ vs)
            (o >>= λ k. r >>= λ us. ok (record { pub_key = k; power = to_int64 v.power } ∷ us))
    go (ok k) h (ok us) ih = ((h, to_int64-pos v.power), ih)
    go (ok (ed25519_key k)) h (err e) ih = ground (arith, h)
    go (ok (secp256k1_key k)) h (err e) ih = ground (arith, h)
    go (ok k) h panic ih = elim ih [ ]
    go (err e) h r ih = ground (arith, h)
    go panic h r ih = elim h [ ]

module _ {W : Type 0} (c : Contracts W) (decode : List ℕ → Option (List ValidatorDiff))
    (s : State W) where
  -- The call of a contract ends in a panic.
  abbrev pub Panics : ℕ × ℕ → Type 0
  Panics (p, a) = (call_end_block_with_validator_update c decode a (branch s)).0 ≡ panic

  -- Every call panics, up to one that fails with an error or to the end.
  abbrev pub NoneAnswers : List (ℕ × ℕ) → Type 0
  NoneAnswers [] = ⊤
  NoneAnswers ((p, a) ∷ es) =
      ((e : Error) × ((call_end_block_with_validator_update c decode a (branch s)).0 ≡ err e))
      ⊎ (Panics (p, a) × NoneAnswers es)

  -- No change, as no contract answers; or the changes and the writes of one contract for which `P`
  -- holds, after only panics.
  abbrev pub FromOne : (ℕ × ℕ → Type 0) → List (ℕ × ℕ) → List ValidatorUpdate × State W → Type 0
  FromOne P es (diff, t) =
      ((diff ≡ []) × (t ≡ s) × NoneAnswers es)
      ⊎ ((before : List (ℕ × ℕ)) × (p : ℕ) × (a : ℕ) × (after : List (ℕ × ℕ)) × (es
            ≡ before ++ (p, a) ∷ after)
          × All Panics before
          × P (p, a)
          × ((t' : State W) × (call_end_block_with_validator_update c decode a (branch s)
                ≡ (ok diff, t'))
              × (t ≡ commit c s t')))

  update_loop-FromOne :
      (P : ℕ × ℕ → Type 0) (es : List (ℕ × ℕ)) → All P es → FromOne P es (update_loop c decode es s)
  unfolding update_loop
  update_loop-FromOne P [] h = inl (refl, refl, tt)
  update_loop-FromOne P ((p, a) ∷ es) h =
      go (call_end_block_with_validator_update c decode a (branch s)) refl
        (update_loop c decode es s) (update_loop-FromOne P es h.1)
    where
      go :
          (r : Outcome (List ValidatorUpdate) × State W)
          → call_end_block_with_validator_update c decode a (branch s) ≡ r
          → (rest : List ValidatorUpdate × State W) → FromOne P es rest
          → FromOne P
              ((p, a) ∷ es)
              (elim r.0 [ ok diff ↦ (diff, commit c s r.1) | err _ ↦ ([], s) | panic ↦ rest ])
      go (ok diff, t) e rest ih = inr ([], p, a, es, refl, tt, h.0, (t, e, refl))
      go (err x, t) e rest ih = inl (refl, refl, inl (x, ap (λ r. r.0) e))
      go (panic, t) e rest (inl (none_here, same, quiet)) =
          inl (none_here, same, inr (ap (λ r. r.0) e, quiet))
      go (panic, t) e rest (inr (before, q, b, after, split, panics, holds, run)) = inr (
        (p, a) ∷ before,
        q,
        b,
        after,
        ap (◌∷◌ (p, a)) split,
        (ap (λ r. r.0) e, panics),
        holds,
        run,
      )

  -- A registration for the validator set.
  abbrev pub IsRegistered : ℕ × ℕ → Type 0
  IsRegistered (p, a) = s.index validator_set_update p ≡ some a

  entries_from-IsRegistered :
      (n p : ℕ) → All IsRegistered (entries_from n p (s.index validator_set_update))
  unfolding entries_from
  entries_from-IsRegistered zero p = tt
  entries_from-IsRegistered (suc n) p = elim (Option-cases (s.index validator_set_update p)) [
    | inl e ↦ rw (e, entries_from) (entries_from-IsRegistered n (suc p))
    | inr (a, e) ↦ rw (e, entries_from) (e, entries_from-IsRegistered n (suc p))
  ]

  -- The registered contracts are asked for changes of the validator set in the order of their
  -- positions, each on a branch of the state at the start. The first that does not panic decides: if it
  -- succeeds, the changes are its own, and the branch is committed; if it fails, or if all panic, neither the
  -- validator set nor the state changes.
  pub end_blocker-FromOne :
      FromOne IsRegistered
        (privileged_contracts_by_type validator_set_update s)
        (end_blocker c decode s)
  unfolding end_blocker privileged_contracts_by_type
  end_blocker-FromOne =
      update_loop-FromOne IsRegistered (privileged_contracts_by_type validator_set_update s)
        (entries_from-IsRegistered 256 0)
