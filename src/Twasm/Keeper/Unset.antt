-- ===== src/Twasm/Keeper/Unset.antt =====
-- What a demotion by `UnsetPrivileged`, x/twasm/keeper/privileged.go, removes and what it leaves.
use tgrade.Base.{
  ℕ, suc, ◌≤◌, ◌≡◌, refl, sym, ◌∙◌, true, List, [], ◌∷◌, arith, ok, length, All, none, some,
}
use tgrade.Twasm.Privilege.{privilege_type_from}
use tgrade.Twasm.Details.{RegisteredPrivilege, Details, loaded, iterate_loop, push_last}
use tgrade.Twasm.Details.Remove.{removed, erase, mem, All-push_last}
use tgrade.Twasm.Details.Valid.{IsEntry, IsOtherType, IsValid}
use tgrade.Twasm.Details.Erase.{equal_refl, length-push_last}
use tgrade.Twasm.Keeper.{State, remove_privilege_registration}
use tgrade.Twasm.Keeper.Privileged.{release_all}
use tgrade.Twasm.Keeper.Demotion.{
  loop, without, IsBeside, iterate_loop-Keeps, iterate_loop-entry, without-index,
  registered_type_from, type_ne,
}

removed-head :
    (x : RegisteredPrivilege) (xs st : List RegisteredPrivilege)
    → removed x (record { live = x ∷ xs; stale = st })
      ≡ record { live = xs; stale = push_last (x ∷ xs) st }
unfolding removed mem erase
removed-head x xs st = rw (equal_refl x)

mem-head : (x : RegisteredPrivilege) (xs : List RegisteredPrivilege) → mem x (x ∷ xs) ≡ true
unfolding mem
mem-head x xs = rw (equal_refl x)

IsValid-IsBeside :
    (b : RegisteredPrivilege) (l : List RegisteredPrivilege)
    → IsValid l
    → All (IsOtherType b) l
    → All (IsBeside b) l
IsValid-IsBeside b [] h o = tt
IsValid-IsBeside b (v ∷ l) h o = ((h.0, o.0), IsValid-IsBeside b l h.2 o.1)

-- No address is registered any more for an entry's type and position.
abbrev pub IsGone : {W : Type 0} → State W → RegisteredPrivilege → Type 0
IsGone s v = (t : ℕ) → privilege_type_from v.privilege_type ≡ some t → s.index t v.position ≡ none

module _ {W : Type 0} (a : ℕ) where
  release_all-loop :
      (ps : List RegisteredPrivilege) (d : Details) (s s' : State W)
      → loop a (length ps) 0 (loaded ps, s) ≡ ok (d, s')
      → release_all a ps s ≡ (ok d, s')
  unfolding release_all
  release_all-loop ps d s s' e = rw (e, release_all)

  -- Of three or more entries the second survives, in the details and in the index.
  pub release_all_keeps_second :
      (x b y : RegisteredPrivilege) (rest : List RegisteredPrivilege) (tb : ℕ) (s : State W)
      → IsValid (x ∷ b ∷ y ∷ rest)
      → privilege_type_from b.privilege_type ≡ some tb
      → (l st : List RegisteredPrivilege) × (s' : State W) × (release_all a (x ∷ b ∷ y ∷ rest) s
          ≡ (ok (record { live = b ∷ l; stale = st }), s'))
        × (s'.index tb b.position ≡ s.index tb b.position)
        × IsValid (b ∷ l)
  unfolding push_last
  release_all_keeps_second x b y rest tb s valid named =
      let (t, e) = registered_type_from x valid.0 in
      let beside = IsValid-IsBeside b (y ∷ rest) valid.2.2 valid.2.1 in
      let (l, st, s', run, same, left) =
        iterate_loop-Keeps a (suc (suc (length rest))) 0 tb b (y ∷ rest) (push_last (y ∷ rest) [])
          (without a t x s) valid.2 beside (All-push_last (IsBeside b) (y ∷ rest) [] beside tt)
          (omega (arith, length-push_last y (y ∷ rest) [] (mem-head y rest))) named in
      (
        l,
        st,
        s',
        release_all-loop (x ∷ b ∷ y ∷ rest) _ s s' (
            iterate_loop-entry a (suc (suc (length rest))) 0 t x (loaded (x ∷ b ∷ y ∷ rest)) s refl
              valid valid.0 e
            ∙ rw (removed-head x (b ∷ y ∷ rest) []) run),
        same
            ∙ without-index a t tb x b.position s
                (type_ne b x tb t named e (λ q. valid.1.0 (sym q))),
        left,
      )

  without_self :
      (t : ℕ) (v : RegisteredPrivilege) (s : State W)
      → IsEntry v
      → privilege_type_from v.privilege_type ≡ some t
      → IsGone (without a t v s) v
  unfolding remove_privilege_registration
  without_self t v s h e u f = ground (arith, h)

  without-IsGone :
      (t : ℕ) (v w : RegisteredPrivilege) (s : State W)
      → privilege_type_from v.privilege_type ≡ some t
      → IsOtherType v w
      → IsGone s w
      → IsGone (without a t v s) w
  without-IsGone t v w s e o g u f =
      without-index a t u v w.position s (type_ne w v u t f e (λ q. o (sym q))) ∙ g u f

  -- Of one or two entries none survives.
  pub release_all_clears :
      (ps : List RegisteredPrivilege) (s : State W)
      → IsValid ps
      → length ps ≤ 2
      → (st : List RegisteredPrivilege) × (s' : State W) × (release_all a ps s
          ≡ (ok (record { live = []; stale = st }), s'))
        × All (IsGone s') ps
  release_all_clears [] s valid few =
      ([], s, release_all-loop [] _ s s (unfold iterate_loop in refl), tt)
  release_all_clears (x ∷ []) s valid few =
      let (t, e) = registered_type_from x valid.0 in
      (
        push_last (x ∷ []) [],
        without a t x s,
        release_all-loop (x ∷ []) _ s (without a t x s) (
            iterate_loop-entry a 0 0 t x (loaded (x ∷ [])) s refl valid valid.0 e
            ∙ rw (removed-head x [] []) (unfold iterate_loop in refl)),
        (without_self t x s valid.0 e, tt),
      )
  release_all_clears (x ∷ y ∷ []) s valid few =
      let (t, e) = registered_type_from x valid.0 in
      let (u, f) = registered_type_from y valid.2.0 in
      let s₁ = without a t x s in
      (
        push_last (y ∷ []) (y ∷ []),
        without a u y s₁,
        release_all-loop (x ∷ y ∷ []) _ s (without a u y s₁) (
            iterate_loop-entry a 1 0 t x (loaded (x ∷ y ∷ [])) s refl valid valid.0 e
            ∙ rw (removed-head x (y ∷ []) []) (
                unfold push_last in
                (iterate_loop-entry a 0 1 u y (record { live = y ∷ []; stale = y ∷ [] }) s₁ refl
                    valid.2 valid.2.0 f
                  ∙ rw (removed-head y [] (y ∷ [])) (unfold iterate_loop in refl)))),
        (
          without-IsGone u y x s₁ f (λ q. valid.1.0 (sym q)) (without_self t x s valid.0 e),
          (without_self u y s₁ valid.2.0 f, tt),
        ),
      )
  release_all_clears (x ∷ y ∷ z ∷ ps) s valid few = absurd (omega arith)
