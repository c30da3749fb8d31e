-- ===== src/Twasm/Details/Edit.antt =====
-- Valid details, x/twasm/types/contract_extension.go, with an entry taken out or put at the end.
use tgrade.Base.{
  String, ℕ, ◌%◌, ◌≡◌, ◌≢◌, true, false, some, List, [], ◌∷◌, ◌++◌, arith, All, eq_iff,
}
use tgrade.Twasm.Privilege.{privilege_type_from}
use tgrade.Twasm.Privilege.Names.{string-privilege_type_from, validate_basic_zero}
use tgrade.Twasm.Details.{RegisteredPrivilege, has_name}
use tgrade.Twasm.Details.Valid.{IsEntry, IsOtherType, IsValid}

abbrev pub Entries : Type 0
Entries = List RegisteredPrivilege

pub type-positive : (n : String) (t : ℕ) → privilege_type_from n ≡ some t → t ≢ 0
type-positive n t e z = ground (arith, string-privilege_type_from n t e, validate_basic_zero)

pub has_name-split :
    (pre post : Entries) (v : RegisteredPrivilege)
    → has_name v.privilege_type (pre ++ v ∷ post) ≡ true
unfolding has_name
has_name-split [] post v = ground (arith, eq_iff v.privilege_type v.privilege_type)
has_name-split (x ∷ pre) post v = ground (arith, has_name-split pre post v)

All-drop {κ} :
    (P : RegisteredPrivilege → Type κ) (pre post : Entries) (v : RegisteredPrivilege)
    → All P (pre ++ v ∷ post)
    → All P (pre ++ post)
All-drop P [] post v h = h.1
All-drop P (x ∷ pre) post v h = (h.0, All-drop P pre post v h.1)

pub IsValid-drop :
    (pre post : Entries) (v : RegisteredPrivilege)
    → IsValid (pre ++ v ∷ post)
    → IsValid (pre ++ post)
IsValid-drop [] post v h = h.2
IsValid-drop (x ∷ pre) post v h =
    (h.0, All-drop (IsOtherType x) pre post v h.1, IsValid-drop pre post v h.2)

pub IsValid-entry :
    (pre post : Entries) (v : RegisteredPrivilege) → IsValid (pre ++ v ∷ post) → IsEntry v
IsValid-entry [] post v h = h.0
IsValid-entry (x ∷ pre) post v h = IsValid-entry pre post v h.2

pub IsValid-snoc :
    (ps : Entries) (v : RegisteredPrivilege)
    → IsValid ps
    → IsEntry v
    → has_name v.privilege_type ps ≡ false
    → IsValid (ps ++ v ∷ [])
unfolding has_name
IsValid-snoc [] v h e n = (e, tt, tt)
IsValid-snoc (x ∷ ps) v h e n = (h.0, others ps h.1, IsValid-snoc ps v h.2 e (ground (arith, n)))
  where
    others : (l : Entries) → All (IsOtherType x) l → All (IsOtherType x) (l ++ v ∷ [])
    others [] o = (λ same. ground (arith, n, eq_iff x.privilege_type v.privilege_type), tt)
    others (y ∷ l) o = (o.0, others l o.1)

pub small : (v : RegisteredPrivilege) → IsEntry v → v.position % 256 ≡ v.position
small v h = omega (arith, h.byte)
