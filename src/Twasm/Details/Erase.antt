-- ===== src/Twasm/Details/Erase.antt =====
-- Removals from the details of a contract, x/twasm/types/contract_extension.go, where the details are
-- valid: each entry stands once, so a removal is the erasure of that entry.
use tgrade.Base.{
  ℕ, ◌+◌, ◌%◌, ◌≡◌, ◌∙◌, true, List, [], ◌∷◌, arith, ok, length, All, All-map, some, eq_iff,
  Bool-cases, inl, inr,
}
use tgrade.Twasm.Privilege.{privilege_type_from, string}
use tgrade.Twasm.Privilege.Names.{string-privilege_type_from}
use tgrade.Twasm.Details.{
  RegisteredPrivilege, Details, equal, push_last, remove_registered_privilege,
}
use tgrade.Twasm.Details.Remove.{IsOther, AtMostOnce, erase, mem, removed, remove_loop-removed}
use tgrade.Twasm.Details.Valid.{IsEntry, IsOtherType, IsValid}

pub equal_refl : (v : RegisteredPrivilege) → equal v v ≡ true
equal_refl v = ground (arith, eq_iff v.privilege_type v.privilege_type)

pub equal→name :
    (a b : RegisteredPrivilege) → equal a b ≡ true → a.privilege_type ≡ b.privilege_type
equal→name a b e = ground (arith, eq_iff a.privilege_type b.privilege_type)

pub IsOtherType-IsOther : (v w : RegisteredPrivilege) → IsOtherType v w → IsOther v w
IsOtherType-IsOther v w h = ground (arith, equal→name v w)

pub IsValid-AtMostOnce :
    (src : RegisteredPrivilege) (vs : List RegisteredPrivilege) → IsValid vs → AtMostOnce src vs
IsValid-AtMostOnce src [] h = tt
IsValid-AtMostOnce src (v ∷ vs) h = (
  λ e.
      All-map (IsOtherType v) (IsOther src)
        (λ w o. IsOtherType-IsOther src w (λ q. o (q ∙ equal→name src v e))) vs h.1,
  IsValid-AtMostOnce src vs h.2,
)

pub All-erase {κ} :
    (P : RegisteredPrivilege → Type κ) (src : RegisteredPrivilege) (vs : List RegisteredPrivilege)
    → All P vs
    → All P (erase src vs)
unfolding erase
All-erase P src [] h = tt
All-erase P src (v ∷ vs) h = elim (Bool-cases (equal src v)) [
  | inl e ↦ rw e h.1
  | inr e ↦ rw e (h.0, All-erase P src vs h.1)
]

pub erase-IsValid :
    (src : RegisteredPrivilege) (vs : List RegisteredPrivilege)
    → IsValid vs
    → IsValid (erase src vs)
unfolding erase
erase-IsValid src [] h = tt
erase-IsValid src (v ∷ vs) h = elim (Bool-cases (equal src v)) [
  | inl e ↦ rw e h.2
  | inr e ↦ rw e (h.0, All-erase (IsOtherType v) src vs h.1, erase-IsValid src vs h.2)
]

pub length-erase :
    (src : RegisteredPrivilege) (vs : List RegisteredPrivilege)
    → mem src vs ≡ true
    → length (erase src vs) + 1 ≡ length vs
unfolding erase mem
length-erase src [] m = cc
length-erase src (v ∷ vs) m = ground (arith, length-erase src vs)

pub length-push_last :
    (v : RegisteredPrivilege) (xs s : List RegisteredPrivilege)
    → mem v xs ≡ true
    → length (push_last xs s) ≡ length s + 1
unfolding push_last mem
length-push_last v [] s m = cc
length-push_last v (x ∷ []) s m = omega arith
length-push_last v (x ∷ y ∷ xs) s m = more x y xs
  where
    more :
        (x y : RegisteredPrivilege) (xs : List RegisteredPrivilege)
        → length (push_last (x ∷ y ∷ xs) s) ≡ length s + 1
    more x y [] = omega arith
    more x y (z ∷ xs) = more y z xs

-- The key that the loops compute from a valid entry is the entry itself.
pub entry_key :
    (v : RegisteredPrivilege) (t : ℕ)
    → IsEntry v
    → privilege_type_from v.privilege_type ≡ some t
    → let key : RegisteredPrivilege = record {
      privilege_type = string t;
      position = v.position % 256;
    } in
      key ≡ v
entry_key v t h e = ground (arith, string-privilege_type_from v.privilege_type t e)

-- On valid details the removal of an entry erases it and moves nothing else.
pub remove_registered_privilege-removed :
    (v : RegisteredPrivilege) (t : ℕ) (d : Details)
    → IsValid d.live
    → IsEntry v
    → privilege_type_from v.privilege_type ≡ some t
    → remove_registered_privilege t (v.position % 256) d ≡ ok (removed v d)
unfolding remove_registered_privilege
remove_registered_privilege-removed v t d valid entry e =
    rw (entry_key v t entry e) (remove_loop-removed v d (IsValid-AtMostOnce v d.live valid))

-- A removal moves an element from the live part to the rest of the array.
pub length-array-removed :
    (v : RegisteredPrivilege) (d : Details)
    → length (removed v d).live + length (removed v d).stale ≡ length d.live + length d.stale
unfolding removed
length-array-removed v d = ground (arith, length-erase v d.live, length-push_last v d.live d.stale)
