-- ===== src/Base/Results.antt =====
-- How a Go call ends: with a value, with an error, or in a panic. `other` carries the errors that a
-- library outside the repository reports; the rest are the error codes that the code returns.
use Prim.Native.Nat.{ℕ}
use mathlib.Core.Path.{◌≡◌, refl}
use mathlib.Core.Logic.{◌⊎◌, ◌↔◌, inl, inr}
use mathlib.Core.Bool.{Bool, true, false, not}
use mathlib.Core.Option.{Option, none, some}

pub data Error : Type 0 where
  not_found invalid is_empty duplicate unknown_msg unauthorized unknown_request : Error
  json_marshal json_unmarshal invalid_address invalid_coins invalid_genesis : Error
  no_proposal_handler invalid_request invalid_proposal_content pub_key_type_not_supported : Error
  insufficient_fee insufficient_funds tx_decode unknown_address : Error
  poe_not_found status_not_found status_internal status_unimplemented : Error
  empty_delegator_addr empty_validator_pub_key invalid_type no_validator_found : Error
  invalid_argument unsupported_request deliver_gen_tx_failed not_supported : Error
  other : ℕ → Error

pub data Outcome {ℓ} (A : Type ℓ) : Type ℓ where
  ok : A → Outcome A
  err : Error → Outcome A
  panic : Outcome A

infixl 5 ◌>>=◌ ◌>>◌
abbrev pub ◌>>=◌ {ℓ κ} : {A : Type ℓ} {B : Type κ} → Outcome A → (A → Outcome B) → Outcome B
ok a >>= f = f a
err e >>= f = err e
panic >>= f = panic

abbrev pub ◌>>◌ {ℓ} : {B : Type ℓ} → Outcome (Unit {0}) → Outcome B → Outcome B
m >> k = m >>= λ _. k

-- `if cond { return err }`
abbrev pub fail_if : Bool → Error → Outcome (Unit {0})
fail_if true e = err e
fail_if false e = ok tt

-- A lookup whose missing value is an error.
abbrev pub or_err {ℓ} : {A : Type ℓ} → Option A → Error → Outcome A
or_err none e = err e
or_err (some a) e = ok a

abbrev pub is_ok {ℓ} : {A : Type ℓ} → Outcome A → Bool
is_ok (ok a) = true
is_ok (err e) = false
is_ok panic = false

pub ok-cases {ℓ} : {A : Type ℓ} (o : Outcome A) → ((a : A) × (o ≡ ok a)) ⊎ (is_ok o ≡ false)
ok-cases (ok a) = inl (a, refl)
ok-cases (err e) = inr refl
ok-cases panic = inr refl

-- Checks one after the other pass exactly if each does.
pub >>-ok :
    (first rest : Outcome (Unit {0}))
    → ((first >> rest) ≡ ok tt) ↔ ((first ≡ ok tt) × (rest ≡ ok tt))
>>-ok (ok tt) rest = (λ h. (refl, h), λ h. h.1)
>>-ok (err e) rest = (λ h. cc, λ h. cc (h.0))
>>-ok panic rest = (λ h. cc, λ h. cc (h.0))

pub fail_if-not : (b : Bool) (e : Error) → (fail_if (not b) e ≡ ok tt) ↔ (b ≡ true)
fail_if-not true e = (λ h. refl, λ h. refl)
fail_if-not false e = (λ h. cc, λ h. cc)

-- A call that succeeds, split at its first step.
pub bind-cases {ℓ} :
    {S A : Type ℓ} (r : Outcome A × S) → ((a : A) × (s : S) × (r ≡ (ok a, s))) ⊎ (is_ok r.0 ≡ false)
bind-cases (ok a, s) = inl (a, s, refl)
bind-cases (err e, s) = inr refl
bind-cases (panic, s) = inr refl
