-- ===== src/Twasm/Details/Iterate.antt =====
-- The loop of `IterateRegisteredPrivileges`, x/twasm/types/contract_extension.go, for any callback.
use tgrade.Base.{
  ℕ, ◌%◌, suc, zero, ◌≡◌, refl, subst, Bool, true, false, List, Outcome, ok, err, panic, arith,
  get_elem?, Option-cases, inl, inr,
}
use tgrade.Twasm.Privilege.{privilege_type_from}
use tgrade.Twasm.Details.{RegisteredPrivilege, iterate_step, iterate_loop}

module _ {S : Type 0} (elements : S → List RegisteredPrivilege)
    (cb : ℕ → ℕ → S → Outcome (Bool × S)) (P : S → Type 0)
    (keep : (t pos : ℕ) (s : S) (stop : Bool) (s' : S)
      → cb t pos s ≡ ok (stop, s')
      → P s
      → P s') where
  iterate_step-keeps :
      (i : ℕ) (s : S) (stop : Bool) (s' : S)
      → iterate_step elements cb i s ≡ ok (stop, s')
      → P s
      → P s'
  unfolding iterate_step
  iterate_step-keeps i s stop s' e h = elim (Option-cases (get_elem? (elements s) i)) [
    | inl q ↦ absurd (ground (arith, q))
    | inr (v, q) ↦ elim (Option-cases (privilege_type_from v.privilege_type)) [
      | inl r ↦ absurd (ground (arith, q, r))
      | inr (t, r) ↦ keep t (v.position % 256) s stop s' (ground (arith, q, r)) h
    ]
  ]

  -- What the callback keeps, the iteration keeps.
  pub iterate_loop-keeps :
      (n i : ℕ) (s s' : S) → iterate_loop elements cb n i s ≡ ok s' → P s → P s'
  unfolding iterate_loop
  iterate_loop-keeps zero i s s' e h = subst P (cc) h
  iterate_loop-keeps (suc n) i s s' e h =
      go (iterate_step elements cb i s) refl (iterate_loop-keeps n (suc i))
    where
      go :
          (o : Outcome (Bool × S))
          → iterate_step elements cb i s ≡ o
          → ((s₁ s₂ : S) → iterate_loop elements cb n (suc i) s₁ ≡ ok s₂ → P s₁ → P s₂)
          → P s'
      go (ok (true, s₁)) q more = subst P (ground (arith, q)) (iterate_step-keeps i s true s₁ q h)
      go (ok (false, s₁)) q more =
          more s₁ s' (ground (arith, q)) (iterate_step-keeps i s false s₁ q h)
      go (err x) q more = absurd (ground (arith, q))
      go panic q more = absurd (ground (arith, q))
