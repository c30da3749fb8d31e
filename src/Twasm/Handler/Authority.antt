-- ===== src/Twasm/Handler/Authority.antt =====
-- Which contract may do what through x/twasm/keeper/handler_plugin.go.
use tgrade.Base.{
  ℕ, String, eq_iff, ◌≡◌, refl, ap, Bool, true, false, Option, none, some, List, [], ◌∷◌, ◌++◌,
  if◌then◌else◌, Outcome, ok, err, panic, arith, is_ok, Option-cases, inl, inr, Bool-cases, is_some,
  ◌&&◌,
}
use tgrade.Twasm.Privilege.{gov_proposal_executor, token_minter, consensus_param_changer, delegator}
use tgrade.Twasm.Details.{has_registered_privilege}
use tgrade.Twasm.Keeper.{
  WasmKeeper, State, Event, Action, ◌>>=◌, get_contract_details, is_privileged,
}
use tgrade.Twasm.Messages.{
  PetriMsg, ExecuteGovProposal, Titled, parameter_change, ParamChange, unmarshal_with_any,
  get_proposal_content,
}
use tgrade.Twasm.Handler.{Services, assert_has_privilege, load_details}
use tgrade.Twasm.Handler.Dispatch.{
  handle_gov_proposal_execution, handle_mint_token, handle_consensus_params_update, handle_delegate,
  handle_undelegate, dispatch, with_events, dispatch_msg, restricted_route, changes_base,
  is_base_change,
}

-- A call that did not succeed and wrote nothing.
abbrev pub Refuses : {W A : Type 0} → State W → Outcome A × State W → Type 0
Refuses s (o, s') = (is_ok o ≡ false) × (s' ≡ s)

>>=-Refuses :
    {W A B : Type 0} (m : Action W A) (f : A → Action W B) (s : State W)
    → Refuses s (m s)
    → Refuses s ((m >>= f) s)
>>=-Refuses m f s h = ground arith

-- The privilege that a message needs, by the pointer that decides.
abbrev pub required : {P : Type 0} → PetriMsg P → Option ℕ
required m =
    if is_some m.privilege
    then none
    else if is_some m.execute_gov_proposal
    then some gov_proposal_executor
    else if is_some m.mint_tokens
    then some token_minter
    else if is_some m.consensus_params
    then some consensus_param_changer
    else if is_some m.delegate
    then some delegator
    else if is_some m.undelegate
    then some delegator
    else none

module _ (k : WasmKeeper) where
  open k use {W}

  -- The contract exists, and its details list the privilege.
  abbrev pub holds : ℕ → ℕ → State W → Bool
  holds a t s = elim (get_contract_details k a s) [
    | ok ps ↦ has_registered_privilege t ps
    | err e ↦ false
    | panic ↦ false
  ]

  pub assert_has_privilege-Refuses :
      (a t : ℕ) (s : State W) → holds a t s ≡ false → Refuses s (assert_has_privilege k a t s)
  unfolding assert_has_privilege load_details get_contract_details
  assert_has_privilege-Refuses a t s h = ground arith

  assert_has_privilege-state : (a t : ℕ) (s : State W) → (assert_has_privilege k a t s).1 ≡ s
  unfolding assert_has_privilege load_details
  assert_has_privilege-state a t s = ground arith

  assert_has_privilege-events :
      (a t : ℕ) (s : State W) → holds a t s ≡ false → holds a t (record s { events = [] }) ≡ false
  unfolding get_contract_details
  assert_has_privilege-events a t s h = h

module _ (k : WasmKeeper) {P : Type 0} (v : Services k.W P) where
  open k use {W}

  dispatch-Refuses :
      (a t : ℕ) (m : PetriMsg P) (s : State W)
      → required m ≡ some t
      → holds k a t s ≡ false
      → Refuses s (dispatch k v a m s)
  unfolding dispatch handle_gov_proposal_execution handle_mint_token handle_consensus_params_update
      handle_delegate handle_undelegate
  dispatch-Refuses a t m s r h = ground (arith, assert_has_privilege-Refuses k a t s h)

  with_events-Refuses :
      (f : Action W (List Event)) (s : State W)
      → Refuses (record s { events = [] }) (f (record s { events = [] }))
      → Refuses s (with_events k v f s)
  unfolding with_events
  with_events-Refuses f s h =
      (ground (arith, h.0), ap (λ (x : State W). record x { events = s.events }) h.1)

  unmarshal_with_any-ok : (m m' : PetriMsg P) → unmarshal_with_any (ok m) ≡ ok m' → m' ≡ m
  unfolding unmarshal_with_any
  unmarshal_with_any-ok m m' e = ground arith

  dispatch_msg-unprivileged :
      (a : ℕ) (m : PetriMsg P) (s : State W)
      → is_privileged a s ≡ false
      → Refuses s (dispatch_msg k v a (some (ok m)) s)
  unfolding dispatch_msg
  dispatch_msg-unprivileged a m s p = ground arith

  dispatch_msg-through :
      (a : ℕ) (m : PetriMsg P) (s : State W)
      → Refuses s (with_events k v (dispatch k v a m) s)
      → Refuses s (dispatch_msg k v a (some (ok m)) s)
  unfolding dispatch_msg
  dispatch_msg-through a m s h =
      go (unmarshal_with_any (ok m)) refl (λ m'. unmarshal_with_any-ok m m')
    where
      go :
          (o : Outcome (PetriMsg P))
          → unmarshal_with_any (ok m) ≡ o
          → ((m' : PetriMsg P) → unmarshal_with_any (ok m) ≡ ok m' → m' ≡ m)
          → Refuses s (dispatch_msg k v a (some (ok m)) s)
      go (ok m') q same = ground (arith, q, same m' q, h)
      go (err x) q same = ground (arith, q)
      go panic q same = ground (arith, q)

  -- The sender is privileged, and holds the privilege that the message needs.
  abbrev pub may : ℕ → PetriMsg P → State W → Bool
  may a m s = is_privileged a s && elim (required m) [ none ↦ true | some t ↦ holds k a t s ]

  -- A message is refused and writes nothing unless the sender's privileged flag is set and, where
  -- the message is another than a request or release of a privilege, the sender's stored details list
  -- the privilege for that kind of message.
  pub dispatch_msg-Refuses :
      (a : ℕ) (m : PetriMsg P) (s : State W)
      → may a m s ≡ false
      → Refuses s (dispatch_msg k v a (some (ok m)) s)
  dispatch_msg-Refuses a m s h = elim (Bool-cases (is_privileged a s)) [
    | inl p ↦ elim (Option-cases (required m)) [
      | inl e ↦ absurd (ground (arith, h, e, p))
      | inr (t, e) ↦
          let refused = with_events-Refuses (dispatch k v a m) s (
            dispatch-Refuses a t m (record s { events = [] }) e
              (assert_has_privilege-events k a t s (ground (arith, h, e, p)))) in
          dispatch_msg-through a m s refused
    ]
    | inr p ↦ dispatch_msg-unprivileged a m s p
  ]

  changes_base-append :
      (base : String) (cs ds : List ParamChange) (c : ParamChange)
      → c.subspace ≡ base
      → changes_base base (cs ++ c ∷ ds) ≡ true
  unfolding changes_base
  changes_base-append base [] ds c e = ground (arith, eq_iff c.subspace base)
  changes_base-append base (x ∷ cs) ds c e = ground (arith, changes_base-append base cs ds c e)

  -- A parameter change proposal that goes by the route of such proposals is refused and writes
  -- nothing when one of its changes, wherever it stands among them, is in the subspace of the base
  -- application.
  pub handle_gov_proposal_execution-Refuses :
      (a : ℕ) (exec : ExecuteGovProposal P) (x : Titled (List ParamChange))
      (cs ds : List ParamChange) (c : ParamChange) (s : State W)
      → get_proposal_content (v.address_string a) exec ≡ some (parameter_change x)
      → x.body ≡ cs ++ c ∷ ds
      → c.subspace ≡ v.base_subspace
      → v.content_route (parameter_change x) ≡ v.params_route
      → Refuses s (handle_gov_proposal_execution k v a exec s)
  unfolding handle_gov_proposal_execution restricted_route is_base_change
  handle_gov_proposal_execution-Refuses a exec x cs ds c s e body base path =
      let hit : changes_base v.base_subspace x.body ≡ true =
        rw body (changes_base-append v.base_subspace cs ds c base) in
      ground (
        arith,
        e,
        hit,
        path,
        eq_iff (v.content_route (parameter_change x)) v.params_route,
        assert_has_privilege-state k a gov_proposal_executor s,
      )
