-- ===== src/Twasm/Details.antt =====
-- x/twasm/types/contract_extension.go: the privileges that a contract has registered, as the
-- extension of its contract info. The list is a Go slice: `live` are its elements and `stale` is the
-- rest of its backing array, which a slice header copied before a removal still reads.
pub mod Remove
pub mod Valid
pub mod Erase
pub mod Iterate
pub mod Edit
use tgrade.Base.{
  ℕ, suc, zero, ◌+◌, ◌%◌, ⊤, String, str_eq, Bool, true, false, ◌&&◌, Option, none, some, List, [],
  ◌∷◌, ◌++◌, ◌==◌, ltb, if◌then◌else◌, Outcome, ok, err, panic, ◌>>=◌, ◌>>◌, fail_if, invalid,
  is_empty, duplicate, length, get_elem?, or_err,
}
use tgrade.Twasm.Privilege.{privilege_type_from, string}

pub record RegisteredPrivilege : Type 0 where
  pub privilege_type : String
  pub position : ℕ

pub record Details : Type 0 where
  pub live : List RegisteredPrivilege
  pub stale : List RegisteredPrivilege

abbrev pub array : Details → List RegisteredPrivilege
array d = d.live ++ d.stale

-- Details as they come from the store: a fresh slice.
abbrev pub loaded : List RegisteredPrivilege → Details
loaded ps = record { live = ps; stale = [] }

-- `RegisteredPrivilege.Equal`
abbrev pub equal : RegisteredPrivilege → RegisteredPrivilege → Bool
equal a b = str_eq a.privilege_type b.privilege_type && a.position == b.position

unfoldable pub add_registered_privilege : ℕ → ℕ → Details → Details
add_registered_privilege t pos d = record {
  live = d.live ++ record { privilege_type = string t; position = pos } ∷ [];
  stale = elim d.stale [ [] ↦ [] | _ ∷ rest ↦ rest ];
}

unfoldable pub erase_at : ℕ → List RegisteredPrivilege → List RegisteredPrivilege
erase_at i [] = []
erase_at zero (x ∷ xs) = xs
erase_at (suc i) (x ∷ xs) = x ∷ erase_at i xs

-- The last element of the live part stays behind in the array when the others move up.
unfoldable pub push_last :
    List RegisteredPrivilege → List RegisteredPrivilege → List RegisteredPrivilege
push_last [] s = s
push_last (x ∷ []) s = x ∷ s
push_last (x ∷ y ∷ xs) s = push_last (y ∷ xs) s

-- `append(s[0:i], s[i+1:]...)`, in place; `s[i+1:]` is out of range at the length of `s`.
unfoldable pub remove_index : ℕ → Details → Outcome Details
remove_index i d =
    if ltb i (length d.live)
    then ok (record { live = erase_at i d.live; stale = push_last d.live d.stale })
    else panic

-- One round of the loop of `RemoveRegisteredPrivilege`, which reads the shared array.
unfoldable pub remove_step : ℕ → RegisteredPrivilege → Details → Outcome Details
remove_step i src d = elim (get_elem? (array d) i) [
  | none ↦ panic
  | some v ↦ if equal src v then remove_index i d else ok d
]

-- The rounds left, and the index; the header that is ranged over is the one at the start.
unfoldable pub remove_loop : ℕ → ℕ → RegisteredPrivilege → Details → Outcome Details
remove_loop zero i src d = ok d
remove_loop (suc n) i src d = remove_step i src d >>= remove_loop n (suc i) src

unfoldable pub remove_registered_privilege : ℕ → ℕ → Details → Outcome Details
remove_registered_privilege t pos d =
    remove_loop (length d.live) 0 (record { privilege_type = string t; position = pos }) d

unfoldable pub has_name : String → List RegisteredPrivilege → Bool
has_name n [] = false
has_name n (v ∷ vs) = if str_eq v.privilege_type n then true else has_name n vs

unfoldable pub has_registered_privilege : ℕ → List RegisteredPrivilege → Bool
unfolding has_name
has_registered_privilege c vs = has_name (string c) vs

-- `IterateRegisteredPrivileges` with a callback over the state `S`, in which the caller's details
-- live: the receiver is a copy of the slice header, and its array is that of the caller's slice.
-- An unknown name is a nil pointer that is read, and the position is cut to a byte.
module _ {S : Type 0} (elements : S → List RegisteredPrivilege)
    (cb : ℕ → ℕ → S → Outcome (Bool × S)) where
  unfoldable pub iterate_step : ℕ → S → Outcome (Bool × S)
  iterate_step i s = elim (get_elem? (elements s) i) [
    | none ↦ panic
    | some v ↦ elim (privilege_type_from v.privilege_type) [
      | none ↦ panic
      | some t ↦ cb t (v.position % 256) s
    ]
  ]

  unfoldable pub iterate_loop : ℕ → ℕ → S → Outcome S
  iterate_loop zero i s = ok s
  iterate_loop (suc n) i s = elim (iterate_step i s) [
    | ok (stop, s') ↦ elim stop [ true ↦ ok s' | false ↦ iterate_loop n (suc i) s' ]
    | err e ↦ err e
    | panic ↦ panic
  ]

unfoldable pub validate_entry : RegisteredPrivilege → Outcome ℕ
validate_entry r = do
  fail_if (ltb 255 r.position) invalid
  fail_if (r.position == 0) is_empty
  or_err (privilege_type_from r.privilege_type) invalid

unfoldable pub contains : ℕ → List ℕ → Bool
contains t [] = false
contains t (u ∷ us) = if u == t then true else contains t us

-- The loop of `PetriContractDetails.ValidateBasic`, with the types seen.
unfoldable pub validate_from : List ℕ → List RegisteredPrivilege → Outcome ⊤
unfolding validate_entry contains
validate_from seen [] = ok tt
validate_from seen (v ∷ vs) = do
  t ← validate_entry v
  fail_if (contains t seen) duplicate
  validate_from (t ∷ seen) vs

unfoldable pub validate_basic : List RegisteredPrivilege → Outcome ⊤
unfolding validate_from
validate_basic vs = validate_from [] vs
