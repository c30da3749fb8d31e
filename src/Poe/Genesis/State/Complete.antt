-- ===== src/Poe/Genesis/State/Complete.antt =====
-- A dump that passes its validation sets up every contract, x/poe/types/genesis.go and
-- x/poe/keeper/genesis.go.
use tgrade.Base.{
  ℕ, zero, suc, ◌+◌, ◌≤◌, ◌≡◌, refl, sym, ap, ◌∙◌, ⊤, true, false, List, [], ◌∷◌, length,
  Bool-cases, inl, inr, arith, ◌==◌, if◌then◌else◌,
}
use tgrade.Poe.Genesis.State.{elem_type}

abbrev pub AreDistinct : List ℕ → Type 0
AreDistinct [] = ⊤
AreDistinct (t ∷ ts) = (elem_type t ts ≡ false) × AreDistinct ts

abbrev pub AreBetween : ℕ → List ℕ → Type 0
AreBetween n [] = ⊤
AreBetween n (t ∷ ts) = (1 ≤ t) × (t ≤ n) × AreBetween n ts

-- The list without a number.
without : ℕ → List ℕ → List ℕ
without n [] = []
without n (t ∷ ts) = let rest = without n ts in if t == n then rest else t ∷ rest

elem-without : (n t : ℕ) (ts : List ℕ) → elem_type t ts ≡ false → elem_type t (without n ts) ≡ false
unfolding elem_type without
elem-without n t [] h = refl
elem-without n t (u ∷ us) h = ground (arith, elem-without n t us)

without-AreDistinct : (n : ℕ) (ts : List ℕ) → AreDistinct ts → AreDistinct (without n ts)
unfolding without
without-AreDistinct n [] h = tt
without-AreDistinct n (t ∷ ts) (fresh, h) = elim (Bool-cases (t == n)) [
  | inl e ↦ rw e (without-AreDistinct n ts h)
  | inr e ↦ rw e (elem-without n t ts fresh, without-AreDistinct n ts h)
]

without-AreBetween :
    (n : ℕ) (ts : List ℕ) → AreBetween (suc n) ts → AreBetween n (without (suc n) ts)
unfolding without
without-AreBetween n [] h = tt
without-AreBetween n (t ∷ ts) (low, high, h) = elim (Bool-cases (t == suc n)) [
  | inl e ↦ rw e (without-AreBetween n ts h)
  | inr e ↦ rw e (low, ground (arith, e), without-AreBetween n ts h)
]

-- A number that does not occur is not missed.
length-without_absent :
    (n : ℕ) (ts : List ℕ) → elem_type n ts ≡ false → length (without n ts) ≡ length ts
unfolding without elem_type
length-without_absent n [] h = refl
length-without_absent n (t ∷ ts) h = ground (arith, length-without_absent n ts)

length-without : (n : ℕ) (ts : List ℕ) → AreDistinct ts → length ts ≤ length (without n ts) + 1
unfolding without
length-without n [] h = omega arith
length-without n (t ∷ ts) (fresh, h) = elim (Bool-cases (t == n)) [
  | inl e ↦
      let same : t ≡ n = ground (arith, e) in
      let kept = length-without_absent n ts (ap (λ x. elem_type x ts) (sym same) ∙ fresh) in
      rw e (omega (arith, kept))
  | inr e ↦ rw e (omega (arith, length-without n ts h))
]

-- Distinct numbers from 1 to n are at most n.
length-le : (n : ℕ) (ts : List ℕ) → AreDistinct ts → AreBetween n ts → length ts ≤ n
length-le zero [] d b = omega arith
length-le zero (t ∷ ts) d b = absurd (omega (arith, b.0, b.1))
length-le (suc n) ts d b = omega (
  arith,
  length-without (suc n) ts d,
  length-le n (without (suc n) ts) (without-AreDistinct (suc n) ts d) (without-AreBetween n ts b),
)

-- If they are n, none is missing.
pub elem_type-all :
    (n t : ℕ) (ts : List ℕ)
    → AreDistinct ts
    → AreBetween n ts
    → length ts ≡ n
    → 1 ≤ t
    → t ≤ n
    → elem_type t ts ≡ true
elem_type-all n t ts d b full low high = elim (Bool-cases (elem_type t ts)) [
  | inl there ↦ there
  | inr missing ↦ absurd (omega (arith, length-le n (t ∷ ts) (missing, d) (low, high, b)))
]
