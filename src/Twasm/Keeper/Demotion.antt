-- ===== src/Twasm/Keeper/Demotion.antt =====
-- The loop of `UnsetPrivileged`, x/twasm/keeper/privileged.go, which removes entries from the details
-- while it iterates over them.
use tgrade.Base.{
  ℕ, suc, zero, ◌+◌, ◌%◌, ◌≤◌, ◌≡◌, ◌≢◌, refl, sym, ◌∙◌, true, false, List, [], ◌∷◌, ◌++◌, arith,
  Outcome, ok, length, All, All-append, All-get, length-append, get_elem?, get_elem?-some, some,
  Bool-cases, Option-cases, inl, inr,
}
use tgrade.Twasm.Privilege.{privilege_type_from}
use tgrade.Twasm.Privilege.Names.{string-privilege_type_from}
use tgrade.Twasm.Details.{
  RegisteredPrivilege, Details, array, push_last, iterate_step, iterate_loop,
}
use tgrade.Twasm.Details.Remove.{erase, mem, removed, All-push_last}
use tgrade.Twasm.Details.Valid.{IsEntry, IsOtherType, IsValid}
use tgrade.Twasm.Details.Erase.{
  IsOtherType-IsOther, All-erase, erase-IsValid, remove_registered_privilege-removed, length-erase,
  length-push_last,
}
use tgrade.Twasm.Keeper.{State, remove_privilege_registration}
use tgrade.Twasm.Keeper.Privileged.{release_one}

pub registered_type_from :
    (v : RegisteredPrivilege)
    → IsEntry v
    → (t : ℕ) × (privilege_type_from v.privilege_type ≡ some t)
registered_type_from v h = elim (Option-cases (privilege_type_from v.privilege_type)) [
  | inl e ↦ absurd (ground (arith, h.known))
  | inr te ↦ te
]

pub type_ne :
    (b v : RegisteredPrivilege) (tb t : ℕ)
    → privilege_type_from b.privilege_type ≡ some tb
    → privilege_type_from v.privilege_type ≡ some t
    → IsOtherType b v
    → tb ≢ t
type_ne b v tb t eb e o same = o (
    ground (
      arith,
      string-privilege_type_from b.privilege_type tb,
      string-privilege_type_from v.privilege_type t,
    ))

-- An entry that can be read beside `b`.
abbrev pub IsBeside : RegisteredPrivilege → RegisteredPrivilege → Type 0
IsBeside b v = IsEntry v × IsOtherType b v

-- Removing another entry leaves `b` at the head.
removed-beside :
    (b v : RegisteredPrivilege) (l st : List RegisteredPrivilege)
    → IsOtherType b v
    → mem v l ≡ true
    → removed v (record { live = b ∷ l; stale = st })
      ≡ record { live = b ∷ erase v l; stale = push_last l st }
unfolding removed mem erase push_last
removed-beside b v [] st o m = cc
removed-beside b v (x ∷ l) st o m = rw (IsOtherType-IsOther v b (λ e. o (sym e)), m)

removed-absent :
    (b v : RegisteredPrivilege) (l st : List RegisteredPrivilege)
    → IsOtherType b v
    → mem v l ≡ false
    → removed v (record { live = b ∷ l; stale = st }) ≡ record { live = b ∷ l; stale = st }
unfolding removed mem
removed-absent b v l st o m = rw (IsOtherType-IsOther v b (λ e. o (sym e)), m)

module _ {W : Type 0} (a : ℕ) where
  abbrev pub loop : ℕ → ℕ → Details × State W → Outcome (Details × State W)
  loop = iterate_loop (λ x. array x.0) (release_one a)

  -- The state after the registration of an entry of type `t` is removed.
  abbrev pub without : ℕ → RegisteredPrivilege → State W → State W
  without t v s = (remove_privilege_registration t (v.position % 256) a s).1

  -- One round that reads the entry `v`.
  iterate_step-entry :
      (i t : ℕ) (v : RegisteredPrivilege) (d : Details) (s : State W)
      → get_elem? (array d) i ≡ some v
      → IsValid d.live
      → IsEntry v
      → privilege_type_from v.privilege_type ≡ some t
      → iterate_step (λ x. array x.0) (release_one a) i (d, s)
        ≡ ok (false, (removed v d, without t v s))
  unfolding iterate_step release_one
  iterate_step-entry i t v d s e valid entry named = rw (
    e,
    iterate_step,
    named,
    remove_registered_privilege-removed v t d valid entry named,
    release_one,
  )

  pub iterate_loop-entry :
      (n i t : ℕ) (v : RegisteredPrivilege) (d : Details) (s : State W)
      → get_elem? (array d) i ≡ some v
      → IsValid d.live
      → IsEntry v
      → privilege_type_from v.privilege_type ≡ some t
      → loop (suc n) i (d, s) ≡ loop n (suc i) (removed v d, without t v s)
  unfolding iterate_loop
  iterate_loop-entry n i t v d s e valid entry named =
      rw (iterate_step-entry i t v d s e valid entry named, iterate_loop)

  -- A removal at another key leaves a registration alone.
  pub without-index :
      (t u : ℕ) (v : RegisteredPrivilege) (q : ℕ) (s : State W)
      → u ≢ t
      → (without t v s).index u q ≡ s.index u q
  unfolding remove_privilege_registration
  without-index t u v q s h = ground arith

  -- How far the rounds after the first leave the entry `b` alone.
  abbrev pub Keeps : RegisteredPrivilege → ℕ → State W → Outcome (Details × State W) → Type 0
  Keeps b tb s o =
      (l st : List RegisteredPrivilege) × (s' : State W) × (o
        ≡ ok (record { live = b ∷ l; stale = st }, s'))
      × (s'.index tb b.position ≡ s.index tb b.position)
      × IsValid (b ∷ l)

  -- Past the first index the rounds read entries of other types only, so `b` stays at the head.
  pub iterate_loop-Keeps :
      (n i tb : ℕ) (b : RegisteredPrivilege) (l st : List RegisteredPrivilege) (s : State W)
      → IsValid (b ∷ l)
      → All (IsBeside b) l
      → All (IsBeside b) st
      → i + n ≤ length l + length st
      → privilege_type_from b.privilege_type ≡ some tb
      → Keeps b tb s (loop n (suc i) (record { live = b ∷ l; stale = st }, s))
  iterate_loop-Keeps zero i tb b l st s valid hl hs room named =
      (l, st, s, unfold iterate_loop in refl, refl, valid)
  iterate_loop-Keeps (suc n) i tb b l st s valid hl hs room named =
      let (v, read) = get_elem?-some (l ++ st) i (omega (arith, length-append l st)) in
      let beside = All-get (IsBeside b) (l ++ st) i v (All-append (IsBeside b) l st hl hs) read in
      let (t, e) = registered_type_from v beside.0 in
      let step =
        iterate_loop-entry n (suc i) t v (record { live = b ∷ l; stale = st }) s read valid beside.0
          e in
      let ne = without-index t tb v b.position s (type_ne b v tb t named e beside.1) in
      elim (Bool-cases (mem v l)) [
        | inl m ↦
            let (l', st', s', run, same, left) =
              iterate_loop-Keeps n (suc i) tb b (erase v l) (push_last l st) (without t v s)
                (valid.0, All-erase (IsOtherType b) v l valid.1, erase-IsValid v l valid.2)
                (All-erase (IsBeside b) v l hl) (All-push_last (IsBeside b) l st hl hs)
                (omega (arith, length-erase v l m, length-push_last v l st m)) named in
            (l', st', s', step ∙ rw (removed-beside b v l st beside.1 m) run, same ∙ ne, left)
        | inr m ↦
            let (l', st', s', run, same, left) =
              iterate_loop-Keeps n (suc i) tb b l st (without t v s) valid hl hs (omega arith)
                named in
            (l', st', s', step ∙ rw (removed-absent b v l st beside.1 m) run, same ∙ ne, left)
      ]
