-- ===== src/Twasm/Details/Valid.antt =====
-- What `PetriContractDetails.ValidateBasic` of x/twasm/types/contract_extension.go accepts.
use tgrade.Base.{
  ℕ, ◌≤◌, ◌≡◌, ◌≢◌, ◌↔◌, refl, ap, Bool, true, false, List, [], ◌∷◌, arith, Outcome, ok, err, panic,
  All, All-map, All-both, none, some, ⊤, Option-cases, inl, inr, is_some,
}
use tgrade.Twasm.Privilege.{privilege_type_from}
use tgrade.Twasm.Privilege.Names.{string-privilege_type_from}
use tgrade.Twasm.Details.{
  RegisteredPrivilege, validate_entry, contains, validate_from, validate_basic,
}

-- A known name and a position that fits a byte and is not zero.
pub record IsEntry (v : RegisteredPrivilege) : Type 0 where
  pub positive : 1 ≤ v.position
  pub byte : v.position ≤ 255
  pub known : is_some (privilege_type_from v.privilege_type) ≡ true

abbrev pub IsOtherType : RegisteredPrivilege → RegisteredPrivilege → Type 0
IsOtherType v w = w.privilege_type ≢ v.privilege_type

abbrev pub IsValid : List RegisteredPrivilege → Type 0
IsValid [] = ⊤
IsValid (v ∷ vs) = IsEntry v × All (IsOtherType v) vs × IsValid vs

seen_name : List ℕ → RegisteredPrivilege → Bool
seen_name seen v = elim (privilege_type_from v.privilege_type) [
  | none ↦ false
  | some t ↦ contains t seen
]

abbrev IsNew : List ℕ → RegisteredPrivilege → Type 0
IsNew seen v = seen_name seen v ≡ false

IsNew-head :
    (t : ℕ) (seen : List ℕ) (v w : RegisteredPrivilege)
    → privilege_type_from v.privilege_type ≡ some t
    → IsNew (t ∷ seen) w
    → IsOtherType v w
unfolding seen_name contains
IsNew-head t seen v w e n same = ground (arith, ap privilege_type_from same)

IsNew-tail : (t : ℕ) (seen : List ℕ) (w : RegisteredPrivilege) → IsNew (t ∷ seen) w → IsNew seen w
unfolding seen_name contains
IsNew-tail t seen w n = ground arith

IsNew-cons :
    (t : ℕ) (seen : List ℕ) (v w : RegisteredPrivilege)
    → privilege_type_from v.privilege_type ≡ some t
    → IsOtherType v w × IsNew seen w
    → IsNew (t ∷ seen) w
unfolding seen_name contains
IsNew-cons t seen v w e h = ground (
  arith,
  string-privilege_type_from v.privilege_type t,
  string-privilege_type_from w.privilege_type t,
)

IsNew-here :
    (t : ℕ) (seen : List ℕ) (v : RegisteredPrivilege)
    → privilege_type_from v.privilege_type ≡ some t
    → contains t seen ≡ false
    → IsNew seen v
unfolding seen_name
IsNew-here t seen v e h = ground arith

IsNew-nil : (w : RegisteredPrivilege) → IsNew [] w
unfolding seen_name contains
IsNew-nil w = ground arith

IsNew-All : (vs : List RegisteredPrivilege) → All (IsNew []) vs
IsNew-All [] = tt
IsNew-All (v ∷ vs) = (IsNew-nil v, IsNew-All vs)

-- What a successful check of one entry shows.
validate_entry-ok :
    (v : RegisteredPrivilege) (t : ℕ)
    → validate_entry v ≡ ok t
    → IsEntry v × (privilege_type_from v.privilege_type ≡ some t)
unfolding validate_entry
validate_entry-ok v t e = ground arith

ok-validate_entry :
    (v : RegisteredPrivilege) (t : ℕ)
    → IsEntry v
    → privilege_type_from v.privilege_type ≡ some t
    → validate_entry v ≡ ok t
unfolding validate_entry
ok-validate_entry v t h e = ground arith

-- The loop's two tests on one entry.
validate_from-cons :
    (seen : List ℕ) (v : RegisteredPrivilege) (vs : List RegisteredPrivilege)
    → validate_from seen (v ∷ vs) ≡ ok tt
    → (t : ℕ) × (validate_entry v ≡ ok t)
      × (contains t seen ≡ false)
      × (validate_from (t ∷ seen) vs ≡ ok tt)
unfolding validate_from
validate_from-cons seen v vs e = go (validate_entry v) refl
  where
    go :
        (o : Outcome ℕ)
        → validate_entry v ≡ o
        → (t : ℕ) × (validate_entry v ≡ ok t)
          × (contains t seen ≡ false)
          × (validate_from (t ∷ seen) vs ≡ ok tt)
    go (ok t) q = (t, q, ground arith, ground arith)
    go (err x) q = absurd (ground arith)
    go panic q = absurd (ground arith)

sound :
    (seen : List ℕ) (vs : List RegisteredPrivilege)
    → validate_from seen vs ≡ ok tt
    → IsValid vs × All (IsNew seen) vs
unfolding seen_name
sound seen [] e = (tt, tt)
sound seen (v ∷ vs) e =
    let (t, q, fresh, rest) = validate_from-cons seen v vs e in
    let (entry, named) = validate_entry-ok v t q in
    let (valid, new) = sound (t ∷ seen) vs rest in
    (
      (
        entry,
        All-map (IsNew (t ∷ seen)) (IsOtherType v) (λ w. IsNew-head t seen v w named) vs new,
        valid,
      ),
      (
        IsNew-here t seen v named fresh,
        All-map (IsNew (t ∷ seen)) (IsNew seen) (IsNew-tail t seen) vs new,
      ),
    )

complete :
    (seen : List ℕ) (vs : List RegisteredPrivilege)
    → IsValid vs
    → All (IsNew seen) vs
    → validate_from seen vs ≡ ok tt
unfolding validate_from seen_name
complete seen [] h n = refl
complete seen (v ∷ vs) h n = elim (Option-cases (privilege_type_from v.privilege_type)) [
  | inl e ↦ absurd (ground (arith, h.0))
  | inr (t, e) ↦ ground (
    arith,
    ok-validate_entry v t h.0 e,
    n.0,
    complete (t ∷ seen) vs h.2 (
        All-map (λ w. IsOtherType v w × IsNew seen w) (IsNew (t ∷ seen))
          (λ w. IsNew-cons t seen v w e) vs (All-both (IsOtherType v) (IsNew seen) vs h.1 n.1)),
  )
]

-- `ValidateBasic` accepts exactly the lists whose entries have a known privilege type and a position
-- from 1 to 255, and no type twice.
pub validate_basic_iff : (vs : List RegisteredPrivilege) → (validate_basic vs ≡ ok tt) ↔ IsValid vs
unfolding validate_basic
validate_basic_iff vs = (λ e. (sound [] vs e).0, λ h. complete [] vs h (IsNew-All vs))
