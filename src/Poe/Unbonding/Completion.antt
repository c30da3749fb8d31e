-- ===== src/Poe/Unbonding/Completion.antt =====
-- Which event gives the completion time of an unbonding, x/poe/contract/contractio.go.
use tgrade.Base.{
  is_ok, ℕ, ⊤, String, str_eq, ◌≡◌, ◌<◌, ◌≤◌, ◌^◌, refl, sym, ap, ◌∙◌, ◌⊎◌, Bool, true, false, ◌&&◌,
  Option, none, some, List, [], ◌∷◌, ◌++◌, Outcome, ok, err, panic, All, is_some, arith, Bool-cases,
  Option-cases, inl, inr,
}
use tgrade.Base.Int.{ℤ, pos}
use tgrade.Poe.Unbonding.{
  WasmEvent, UnbondAmount, Unbonder, has_attribute, first_value, unbond_tokens, completion_time,
  unbond_delegation,
}

module _ {W : Type 0} (v : Unbonder W) where
  -- An event of the wasm module for the staking contract itself, with a completion time.
  abbrev pub is_source : WasmEvent → Bool
  is_source e =
      str_eq e.event_type v.wasm_module_event_type
      && has_attribute v.attribute_key_contract_addr v.contract_string e.attributes
      && is_some (first_value "completion_time" e.attributes)

  -- The first such event decides.
  abbrev pub FirstSource : List WasmEvent → ℤ → Type 0
  FirstSource es t =
      (before : List WasmEvent) × (e : WasmEvent) × (after : List WasmEvent) × (value : String)
      × (es ≡ before ++ e ∷ after)
      × All (λ x. is_source x ≡ false) before
      × (is_source e ≡ true)
      × (first_value "completion_time" e.attributes ≡ some value)
      × (v.parse_int value ≡ ok t)

  FirstSource-cons :
      (e : WasmEvent) (es : List WasmEvent) (t : ℤ)
      → is_source e ≡ false
      → FirstSource es t
      → FirstSource (e ∷ es) t
  FirstSource-cons e es t other (before, x, after, value, split, others, source, found, parsed) =
      (e ∷ before, x, after, value, ap (◌∷◌ e) split, (other, others), source, found, parsed)

  completion_time-skip :
      (e : WasmEvent) (es : List WasmEvent)
      → is_source e ≡ false
      → completion_time v (e ∷ es) ≡ completion_time v es
  unfolding completion_time
  completion_time-skip e es no_source = ground (arith, no_source)

  completion_time-take :
      (e : WasmEvent) (es : List WasmEvent) (value : String)
      → is_source e ≡ true
      → first_value "completion_time" e.attributes ≡ some value
      → completion_time v (e ∷ es) ≡ v.parse_int value
  unfolding completion_time
  completion_time-take e es value source found = ground (arith, source, found)

  completion_time-FirstSource :
      (es : List WasmEvent) (t : ℤ) → completion_time v es ≡ ok t → FirstSource es t
  unfolding completion_time
  completion_time-FirstSource [] t h = cc
  completion_time-FirstSource (e ∷ es) t h = elim (Bool-cases (is_source e)) [
    | inr other ↦
        FirstSource-cons e es t other
          (completion_time-FirstSource es t (sym (completion_time-skip e es other) ∙ h))
    | inl source ↦ elim (Option-cases (first_value "completion_time" e.attributes)) [
      | inl missing ↦ absurd (ground (arith, source, missing))
      | inr (value, found) ↦ (
        [],
        e,
        es,
        value,
        refl,
        tt,
        source,
        found,
        sym (completion_time-take e es value source found) ∙ h,
      )
    ]
  ]

  first_source_run :
      (before : List WasmEvent) (e : WasmEvent) (after : List WasmEvent) (value : String)
      → All (λ x. is_source x ≡ false) before
      → is_source e ≡ true
      → first_value "completion_time" e.attributes ≡ some value
      → completion_time v (before ++ e ∷ after) ≡ v.parse_int value
  first_source_run [] e after value others source at = completion_time-take e after value source at
  first_source_run (x ∷ before) e after value others source at =
      completion_time-skip x (before ++ e ∷ after) others.0
      ∙ first_source_run before e after value others.1 source at

  FirstSource-completion_time :
      (es : List WasmEvent) (t : ℤ) → FirstSource es t → completion_time v es ≡ ok t
  FirstSource-completion_time es t (before, e, after, value, split, others, source, at, parsed) =
      ap (completion_time v) split ∙ first_source_run before e after value others source at ∙ parsed

  unbond_tokens-some :
      (a : Option ℤ) (n : ℕ)
      → unbond_tokens a ≡ some n
      → (a ≡ some (pos n)) × (1 ≤ n) × (n < 2 ^ 63)
  unfolding unbond_tokens
  unbond_tokens-some a n h = ground arith

  -- No completion time: the amount was refused, or the contract was executed, and failed or emitted
  -- no event that gives one.
  abbrev pub Fails : UnbondAmount → List WasmEvent × W → List WasmEvent × W → Type 0
  Fails amount (evts, w) (evts', w') =
      ((unbond_tokens amount.amount ≡ none) × (evts' ≡ evts) × (w' ≡ w))
      ⊎ ((n : ℕ) × (o : Outcome ⊤) × (em : List WasmEvent) × (unbond_tokens amount.amount ≡ some n)
          × (v.execute_unbond n amount.denom w ≡ (o, (em, w')))
          × (evts' ≡ evts ++ em)
          × ((is_ok o ≡ false) ⊎ ((t : ℤ) → ¬ FirstSource em t)))

  -- What a call has done, by how it ends.
  abbrev pub Unbonds : UnbondAmount → List WasmEvent × W → Outcome ℤ × (List WasmEvent × W) → Type 0
  Unbonds amount (evts, w) (ok t, (evts', w')) =
      (n : ℕ) × (em : List WasmEvent) × (amount.amount ≡ some (pos n))
      × (1 ≤ n)
      × (n < 2 ^ 63)
      × (v.execute_unbond n amount.denom w ≡ (ok tt, (em, w')))
      × (evts' ≡ evts ++ em)
      × FirstSource em t
  Unbonds amount s (err _, s') = Fails amount s s'
  Unbonds amount s (panic, s') = Fails amount s s'

  -- A completion time is returned only for a positive amount that fits an int64, after the staking
  -- contract was executed with exactly that many tokens; it is the time of the first event of the
  -- wasm module that carries the staking contract's own address and a completion time. An amount that
  -- is refused executes nothing, and after an execution that succeeds the call fails only if there is
  -- no such event or its time cannot be read. All events of the execution are passed on.
  pub unbond_delegation-Unbonds :
      (amount : UnbondAmount) (evts : List WasmEvent) (w : W)
      → Unbonds amount (evts, w) (unbond_delegation v amount (evts, w))
  unfolding unbond_delegation
  unbond_delegation-Unbonds amount evts w = start (unbond_tokens amount.amount) refl
    where
      found :
          (n : ℕ)
          → unbond_tokens amount.amount ≡ some n
          → (em : List WasmEvent) (w' : W) → v.execute_unbond n amount.denom w ≡ (ok tt, (em, w'))
          → (o : Outcome ℤ) → completion_time v em ≡ o
          → Unbonds amount (evts, w) (o, (evts ++ em, w'))
      found n q em w' e (ok t) c =
          let (is_amount, low, high) = unbond_tokens-some amount.amount n q in
          (n, em, is_amount, low, high, e, refl, completion_time-FirstSource em t c)
      found n q em w' e (err x) c = inr (
        n,
        ok tt,
        em,
        q,
        e,
        refl,
        inr (λ t h. ground (arith, c, FirstSource-completion_time em t h)),
      )
      found n q em w' e panic c = inr (
        n,
        ok tt,
        em,
        q,
        e,
        refl,
        inr (λ t h. ground (arith, c, FirstSource-completion_time em t h)),
      )

      executed :
          (n : ℕ)
          → unbond_tokens amount.amount ≡ some n
          → (r : Outcome ⊤ × (List WasmEvent × W)) → v.execute_unbond n amount.denom w ≡ r
          → Unbonds amount
              (evts, w)
              (
                elim r.0 [ ok _ ↦ completion_time v r.1.0 | err e ↦ err e | panic ↦ panic ],
                (evts ++ r.1.0, r.1.1),
              )
      executed n q (ok x, (em, w')) e = found n q em w' e (completion_time v em) refl
      executed n q (err x, (em, w')) e = inr (n, err x, em, q, e, refl, inl refl)
      executed n q (panic, (em, w')) e = inr (n, panic, em, q, e, refl, inl refl)

      start :
          (o : Option ℕ)
          → unbond_tokens amount.amount ≡ o
          → Unbonds amount (evts, w) (unbond_delegation v amount (evts, w))
      start none q = rw (q, unbond_delegation) (inl (q, refl, refl))
      start (some n) q =
          rw (q, unbond_delegation) (executed n q (v.execute_unbond n amount.denom w) refl)
