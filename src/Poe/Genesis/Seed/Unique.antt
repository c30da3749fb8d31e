-- ===== src/Poe/Genesis/Seed/Unique.antt =====
-- What a genesis state with seed contracts guarantees that passes its validation, x/poe/types/genesis.go.
use tgrade.Base.{
  ℕ, ⊤, ◌≡◌, inl, inr, refl, sym, ap, ◌∙◌, String, eq_iff, true, false, ◌||◌, List, [], ◌∷◌, map,
  length, ok, ok-cases, arith, ◌<◌, All,
}
use tgrade.Poe.Messages.{MsgCreateValidator, validate_create_validator}
use tgrade.Poe.Genesis.{
  GenesisServices, GenMsg, gen_create_validator, gen_other, Member, validate_member, check_address,
}
use tgrade.Poe.Genesis.Seed.{
  SeedContracts, elem, key_text, check_members, single_message, check_gen_tx, check_gen_txs,
  check_unique, check_configs, validate_seed_contracts,
}

-- No text stands twice.
abbrev pub IsUnique : List String → Type 0
IsUnique [] = ⊤
IsUnique (t ∷ ts) = (elem t ts ≡ false) × IsUnique ts

-- None of the texts is in the set.
abbrev pub AreNew : List String → List String → Type 0
AreNew seen [] = ⊤
AreNew seen (t ∷ ts) = (elem t seen ≡ false) × AreNew seen ts

AreNew-cons :
    (s : String) (seen ts : List String)
    → AreNew (s ∷ seen) ts
    → (elem s ts ≡ false) × AreNew seen ts
unfolding elem
AreNew-cons s seen [] h = (refl, tt)
AreNew-cons s seen (t ∷ ts) h =
    let (later, kept) = AreNew-cons s seen ts h.1 in
    (ground (arith, h.0, later, eq_iff s t, eq_iff t s), (ground (arith, h.0), kept))

module _ {D : Type 0} (v : GenesisServices D) where
  abbrev pub addresses : List Member → List String
  addresses ms = map (λ (m : Member). m.address) ms

  check_members-step :
      (seen : List String) (m : Member) (ms : List Member) (out : List String)
      → check_members v seen (m ∷ ms) ≡ ok out
      → (validate_member v m ≡ ok tt)
        × (elem m.address seen ≡ false)
        × (check_members v (m.address ∷ seen) ms ≡ ok out)
  unfolding check_members
  check_members-step seen m ms out h = elim (ok-cases (validate_member v m)) [
    | inr bad ↦ absurd (ground (arith, bad))
    | inl (o, fine) ↦ (fine, ground (arith, fine), ground (arith, fine))
  ]

  check_members-IsUnique :
      (seen : List String) (ms : List Member) (out : List String)
      → check_members v seen ms ≡ ok out
      → IsUnique (addresses ms)
        × AreNew seen (addresses ms)
        × All (λ m. validate_member v m ≡ ok tt) ms
        × ((t : String) → elem t out ≡ (elem t (addresses ms) || elem t seen))
  unfolding check_members elem
  check_members-IsUnique seen [] out h = (tt, tt, tt, λ t. ground (arith, h))
  check_members-IsUnique seen (m ∷ ms) out h =
      let (fine, fresh, run) = check_members-step seen m ms out h in
      let (unique, apart, rest, sum) = check_members-IsUnique (m.address ∷ seen) ms out run in
      let (here, kept) = AreNew-cons m.address seen (addresses ms) apart in
      ((here, unique), (fresh, kept), (fine, rest), λ t. ground (arith, sum t))

  check_unique-step :
      (seen : List String) (m : String) (ms : List String)
      → check_unique v seen (m ∷ ms) ≡ ok tt
      → (check_address v m ≡ ok tt) × (elem m seen ≡ false) × (check_unique v (m ∷ seen) ms ≡ ok tt)
  unfolding check_unique
  check_unique-step seen m ms h = elim (ok-cases (check_address v m)) [
    | inr bad ↦ absurd (ground (arith, bad))
    | inl (o, fine) ↦ (fine, ground (arith, fine), ground (arith, fine))
  ]

  check_unique-IsUnique :
      (seen ms : List String)
      → check_unique v seen ms ≡ ok tt
      → IsUnique ms × AreNew seen ms × All (λ m. check_address v m ≡ ok tt) ms
  check_unique-IsUnique seen [] h = (tt, tt, tt)
  check_unique-IsUnique seen (m ∷ ms) h =
      let (fine, fresh, run) = check_unique-step seen m ms h in
      let (unique, apart, rest) = check_unique-IsUnique (m ∷ seen) ms run in
      let (here, kept) = AreNew-cons m seen ms apart in
      ((here, unique), (fresh, kept), (fine, rest))

  -- A transaction of the genesis state with its only message, which is valid and of a member.
  abbrev pub Reads : List String → List (List ℕ) → List MsgCreateValidator → Type 0
  Reads members [] [] = ⊤
  Reads members [] (msg ∷ msgs) = ⊥
  Reads members (tx ∷ txs) [] = ⊥
  Reads members (tx ∷ txs) (msg ∷ msgs) =
      (v.tx_json_decoder tx ≡ ok (gen_create_validator msg ∷ []))
      × (validate_create_validator v.messages msg ≡ ok tt)
      × (elem msg.operator_address members ≡ true)
      × Reads members txs msgs

  abbrev pub operators : List MsgCreateValidator → List String
  operators msgs = map (λ (m : MsgCreateValidator). m.operator_address) msgs

  abbrev pub keys : List MsgCreateValidator → List String
  keys msgs = map (λ (m : MsgCreateValidator). key_text m.pubkey) msgs

  single_message-eq-ok :
      (ms : List GenMsg) (msg : MsgCreateValidator)
      → single_message v ms ≡ ok msg
      → ms ≡ gen_create_validator msg ∷ []
  unfolding single_message
  single_message-eq-ok [] msg h = cc
  single_message-eq-ok (m ∷ (x ∷ xs)) msg h = cc
  single_message-eq-ok (gen_create_validator a ∷ []) msg h = cc
  single_message-eq-ok (gen_other ∷ []) msg h = cc

  check_gen_txs-step :
      (members ops ks : List String) (tx : List ℕ) (txs : List (List ℕ))
      → check_gen_txs v members ops ks (tx ∷ txs) ≡ ok tt
      → (msg : MsgCreateValidator) × (v.tx_json_decoder tx ≡ ok (gen_create_validator msg ∷ []))
        × (validate_create_validator v.messages msg ≡ ok tt)
        × (elem msg.operator_address members ≡ true)
        × (elem msg.operator_address ops ≡ false)
        × (elem (key_text msg.pubkey) ks ≡ false)
        × (check_gen_txs v members (msg.operator_address ∷ ops) (key_text msg.pubkey ∷ ks) txs
            ≡ ok tt)
  unfolding check_gen_txs check_gen_tx
  check_gen_txs-step members ops ks tx txs h = elim (ok-cases (v.tx_json_decoder tx)) [
    | inr bad ↦ absurd (ground (arith, bad))
    | inl (msgs, decoded) ↦ elim (ok-cases (single_message v msgs)) [
      | inr bad ↦ absurd (ground (arith, decoded, bad))
      | inl (msg, single) ↦ elim (ok-cases (validate_create_validator v.messages msg)) [
        | inr bad ↦ absurd (ground (arith, decoded, single, bad))
        | inl (o, fine) ↦ (
          msg,
          decoded ∙ ap ok (single_message-eq-ok msgs msg single),
          fine,
          ground (arith, decoded, single, fine),
          ground (arith, decoded, single, fine),
          ground (arith, decoded, single, fine),
          ground (arith, decoded, single, fine),
        )
      ]
    ]
  ]

  check_gen_txs-Reads :
      (members ops ks : List String) (txs : List (List ℕ))
      → check_gen_txs v members ops ks txs ≡ ok tt
      → (msgs : List MsgCreateValidator) × Reads members txs msgs
        × IsUnique (operators msgs)
        × AreNew ops (operators msgs)
        × IsUnique (keys msgs)
        × AreNew ks (keys msgs)
  check_gen_txs-Reads members ops ks [] h = ([], tt, tt, tt, tt, tt)
  check_gen_txs-Reads members ops ks (tx ∷ txs) h =
      let (msg, decoded, fine, member, fresh, fresh_key, run) =
        check_gen_txs-step members ops ks tx txs h in
      let (msgs, reads, unique, apart, unique_keys, apart_keys) =
        check_gen_txs-Reads members (msg.operator_address ∷ ops) (key_text msg.pubkey ∷ ks) txs
          run in
      let (here, kept) = AreNew-cons msg.operator_address ops (operators msgs) apart in
      let (here_key, kept_keys) = AreNew-cons (key_text msg.pubkey) ks (keys msgs) apart_keys in
      (
        msg ∷ msgs,
        (decoded, fine, member, reads),
        (here, unique),
        (fresh, kept),
        (here_key, unique_keys),
        (fresh_key, kept_keys),
      )

  -- What the accepted state holds, besides the configurations.
  abbrev pub Seeds : SeedContracts D → Type 0
  Seeds g =
      (check_configs v g ≡ ok tt)
      × IsUnique (addresses g.engagement)
      × All (λ m. validate_member v m ≡ ok tt) g.engagement
      × ((msgs : List MsgCreateValidator) × Reads (addresses g.engagement) g.gen_txs msgs
          × IsUnique (operators msgs)
          × IsUnique (keys msgs))
      × (0 < length g.oversight_community_members)
      × IsUnique g.oversight_community_members
      × (0 < length g.arbiter_pool_members)
      × IsUnique g.arbiter_pool_members

  Reads-members :
      (ms ns : List String) (txs : List (List ℕ)) (msgs : List MsgCreateValidator)
      → ((t : String) → elem t ms ≡ elem t ns)
      → Reads ms txs msgs
      → Reads ns txs msgs
  Reads-members ms ns [] [] same r = tt
  Reads-members ms ns [] (msg ∷ msgs) same r = r
  Reads-members ms ns (tx ∷ txs) [] same r = r
  Reads-members ms ns (tx ∷ txs) (msg ∷ msgs) same (decoded, fine, member, rest) = (
    decoded,
    fine,
    sym (same msg.operator_address) ∙ member,
    Reads-members ms ns txs msgs same rest,
  )

  -- Of a chain that ends in the two circles, both are checked.
  circles :
      (g : SeedContracts D) (members : List String)
      → check_configs v g ≡ ok tt
      → check_address v g.bootstrap_account_address ≡ ok tt
      → check_members v [] g.engagement ≡ ok members
      → check_gen_txs v members [] [] g.gen_txs ≡ ok tt
      → validate_seed_contracts v g ≡ ok tt
      → (0 < length g.oversight_community_members)
        × (check_unique v [] g.oversight_community_members ≡ ok tt)
        × (0 < length g.arbiter_pool_members)
        × (check_unique v [] g.arbiter_pool_members ≡ ok tt)
  unfolding validate_seed_contracts
  circles g members c b m t h = elim (ok-cases (check_unique v [] g.oversight_community_members)) [
    | inr bad ↦ absurd (ground (arith, c, b, m, t, bad))
    | inl (o, fine) ↦ (
      ground (arith, c, b, m, t),
      fine,
      ground (arith, c, b, m, t, fine),
      ground (arith, c, b, m, t, fine),
    )
  ]

  accepted :
      (g : SeedContracts D) (members : List String)
      → check_configs v g ≡ ok tt
      → check_members v [] g.engagement ≡ ok members
      → check_gen_txs v members [] [] g.gen_txs ≡ ok tt
      → (0 < length g.oversight_community_members)
      → (check_unique v [] g.oversight_community_members ≡ ok tt)
      → (0 < length g.arbiter_pool_members)
      → (check_unique v [] g.arbiter_pool_members ≡ ok tt)
      → Seeds g
  unfolding elem
  accepted g members c m t some_oc oc some_ap ap' =
      let (unique, fresh, fine, sum) = check_members-IsUnique [] g.engagement members m in
      let (msgs, reads, ops, new_ops, ks, new_ks) = check_gen_txs-Reads members [] [] g.gen_txs t in
      let same : (x : String) → elem x members ≡ elem x (addresses g.engagement) =
        λ x. ground (arith, sum x) in
      (
        c,
        unique,
        fine,
        (msgs, Reads-members members (addresses g.engagement) g.gen_txs msgs same reads, ops, ks),
        some_oc,
        (check_unique-IsUnique [] g.oversight_community_members oc).0,
        some_ap,
        (check_unique-IsUnique [] g.arbiter_pool_members ap').0,
      )

  -- In an accepted state with seed contracts all configurations are in order; the members of the
  -- engagement group have valid addresses, points and no address twice; each transaction is exactly one
  -- valid message to create a validator, of a member of that group, and no two have the same operator or
  -- the same key; and the members of the oversight community and of the arbiter pool are there, none
  -- twice.
  pub validate_seed_contracts-Seeds :
      (g : SeedContracts D) → validate_seed_contracts v g ≡ ok tt → Seeds g
  unfolding validate_seed_contracts
  validate_seed_contracts-Seeds g h = elim (ok-cases (check_configs v g)) [
    | inr bad ↦ absurd (ground (arith, bad))
    | inl (o, c) ↦ elim (ok-cases (check_address v g.bootstrap_account_address)) [
      | inr bad ↦ absurd (ground (arith, c, bad))
      | inl (o₁, b) ↦ elim (ok-cases (check_members v [] g.engagement)) [
        | inr bad ↦ absurd (ground (arith, c, b, bad))
        | inl (members, m) ↦ elim (ok-cases (check_gen_txs v members [] [] g.gen_txs)) [
          | inr bad ↦ absurd (ground (arith, c, b, m, bad))
          | inl (o₂, t) ↦
              let (some_oc, oc, some_ap, ap') = circles g members c b m t h in
              accepted g members c m t some_oc oc some_ap ap'
        ]
      ]
    ]
  ]
