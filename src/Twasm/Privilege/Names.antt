-- ===== src/Twasm/Privilege/Names.antt =====
-- The registry of x/twasm/types/privilege.go: each type has one name and each name one type.
use tgrade.Base.{
  ℕ, ⊤, String, eq_iff, ◌≡◌, refl, Bool, none, some, [], ◌∷◌, arith, ok, err, Option-cases, inl,
  inr, invalid,
}
use tgrade.Twasm.Privilege.{
  Registry, name_in, type_in, register_callback_type, init_registry, registry, string,
  privilege_type_from, validate_basic, marshal_json, unmarshal_json,
}

abbrev pub IsUnique : Registry → Type 0
IsUnique [] = ⊤
IsUnique (e ∷ r) = (name_in e.type_id r ≡ none) × (type_in e.name r ≡ none) × IsUnique r

-- A registration that succeeds keeps the registry free of a type or a name that stands twice.
pub register_callback_type-IsUnique :
    (i : ℕ) (n : String) (s : Bool) (r r' : Registry)
    → IsUnique r
    → register_callback_type i n s r ≡ ok r'
    → IsUnique r'
unfolding register_callback_type
register_callback_type-IsUnique i n s r r' u e = ground arith

pub type_in-name_in :
    (r : Registry) (t : ℕ) (n : String) → IsUnique r → name_in t r ≡ some n → type_in n r ≡ some t
unfolding name_in type_in
type_in-name_in [] t n u e = cc
type_in-name_in (x ∷ r) t n u e = ground (arith, type_in-name_in r t n u.2, eq_iff x.name n)

pub name_in-type_in :
    (r : Registry) (t : ℕ) (n : String) → IsUnique r → type_in n r ≡ some t → name_in t r ≡ some n
unfolding name_in type_in
name_in-type_in [] t n u e = cc
name_in-type_in (x ∷ r) t n u e = ground (arith, name_in-type_in r t n u.2, eq_iff x.name n)

pub init_registry_lem : init_registry ≡ ok registry
unfolding init_registry registry
init_registry_lem = refl

registry-IsUnique : IsUnique registry
unfolding registry name_in type_in
registry-IsUnique = (
  refl,
  refl,
  (
    refl,
    refl,
    (refl, refl, (refl, refl, (refl, refl, (refl, refl, (refl, refl, (refl, refl, tt)))))),
  ),
)

-- A name in the registry is the name of its type, which then passes validation.
pub string-privilege_type_from :
    (n : String) (t : ℕ)
    → privilege_type_from n ≡ some t
    → (string t ≡ n) × (validate_basic t ≡ ok tt)
unfolding string privilege_type_from validate_basic
string-privilege_type_from n t e = ground (arith, name_in-type_in registry t n registry-IsUnique)

-- A type that passes validation is found again by its name.
pub privilege_type_from-string :
    (t : ℕ) → validate_basic t ≡ ok tt → privilege_type_from (string t) ≡ some t
unfolding string privilege_type_from validate_basic
privilege_type_from-string t v = elim (Option-cases (name_in t registry)) [
  | inl e ↦ absurd (ground (arith, e))
  | inr (n, e) ↦ rw e (type_in-name_in registry t n registry-IsUnique e)
]

privilege_type_from-nil : privilege_type_from "" ≡ none
unfolding privilege_type_from type_in registry
privilege_type_from-nil = refl

pub validate_basic_zero : validate_basic 0 ≡ err invalid
unfolding validate_basic name_in registry
validate_basic_zero = refl

-- A privilege type that encodes to a name decodes to itself, whatever the receiver held.
pub unmarshal_json-marshal_json :
    (t u : ℕ) (n : String) → marshal_json t ≡ ok (some n) → unmarshal_json (ok n) u ≡ ok t
unfolding marshal_json unmarshal_json
unmarshal_json-marshal_json t u n e =
    ground (arith, privilege_type_from-string t, privilege_type_from-nil, eq_iff n "")
