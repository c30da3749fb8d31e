-- ===== src/Twasm/Handler/Requests.antt =====
-- `handlePrivilege` of x/twasm/keeper/handler_plugin.go: the request of a privilege by a contract whose
-- stored details are valid, and its release after that.
use tgrade.Base.{
  ℕ, ◌≤◌, ◌≡◌, refl, ap, ◌∙◌, ⊤, true, false, Option, none, some, [], ◌∷◌, ◌++◌, arith, Outcome, ok,
  err, panic, Error, duplicate, update, is_some, subst,
}
use mathlib.Core.List.{append-nil}
use tgrade.Twasm.Privilege.{string, validate_basic, is_singleton}
use tgrade.Twasm.Privilege.Names.{privilege_type_from-string}
use tgrade.Twasm.Details.{RegisteredPrivilege, add_registered_privilege, has_registered_privilege}
use tgrade.Twasm.Details.Valid.{IsValid}
use tgrade.Twasm.Keeper.{WasmKeeper, State, set_contract_details, append_to_privileged_contracts}
use tgrade.Twasm.Keeper.Index.{Appends, append_to_privileged_contracts-Appends}
use tgrade.Twasm.Keeper.Laws.{WasmLaws}
use tgrade.Twasm.Messages.{PrivilegeMsg}
use tgrade.Twasm.Handler.{register, handle_privilege}
use tgrade.Twasm.Details.Edit.{Entries, type-positive, IsValid-snoc}
use tgrade.Twasm.Handler.Privileges.{
  Stores, set_contract_details-Stores, handle_privilege-register, handle_privilege-Releases,
}

update_back :
    (f g : ℕ → ℕ → Option ℕ) (t p v q : ℕ) (o : Option ℕ)
    → g ≡ update f t (update (f t) p o)
    → f t p ≡ none
    → update g t (update (g t) p none) v q ≡ f v q
update_back f g t p v q o e h = rw e (ground (arith, h))

module _ (k : WasmKeeper) (a : ℕ) where
  -- What a request does, by how it ends.
  abbrev pub Requests : Entries → ℕ → State k.W → Outcome ⊤ × State k.W → Type 0
  Requests ps t s (ok _, s') =
      (p : ℕ) × (1 ≤ p)
      × (p ≤ 255)
      × Stores k a s' (ps ++ record { privilege_type = string t; position = p } ∷ [])
      × ((q : ℕ) → p ≤ q → q ≤ 255 → s.index t q ≡ none)
      × (s'.index ≡ update s.index t (update (s.index t) p (some a)))
      × (s'.flags ≡ s.flags)
  Requests ps t s (err e, s') =
      (e ≡ duplicate)
      × (s' ≡ s)
      × (is_singleton t ≡ true)
      × ((q : ℕ) × (q ≤ 255) × (is_some (s.index t q) ≡ true))
  Requests ps t s (panic, s') = (is_some (s.index t 255) ≡ true) × (is_singleton t ≡ false)

module _ (k : WasmKeeper) (laws : WasmLaws k) (a : ℕ) where
  abbrev new_entry : ℕ → ℕ → RegisteredPrivilege
  new_entry t p = record { privilege_type = string t; position = p }

  register-stored :
      (ps : Entries) (t p : ℕ) (s s₁ : State k.W)
      → has_registered_privilege t ps ≡ false
      → append_to_privileged_contracts t a s ≡ (ok p, s₁)
      → register k a ps t s ≡ set_contract_details k a (ps ++ new_entry t p ∷ []) s₁
  unfolding register add_registered_privilege
  register-stored ps t p s s₁ free e = ground (arith, free, e)

  register-refused :
      (ps : Entries) (t : ℕ) (x : Error) (s s₁ : State k.W)
      → has_registered_privilege t ps ≡ false
      → append_to_privileged_contracts t a s ≡ (err x, s₁)
      → register k a ps t s ≡ (err x, s₁)
  unfolding register
  register-refused ps t x s s₁ free e = ground (arith, free, e)

  register-panics :
      (ps : Entries) (t : ℕ) (s s₁ : State k.W)
      → has_registered_privilege t ps ≡ false
      → append_to_privileged_contracts t a s ≡ (panic, s₁)
      → register k a ps t s ≡ (panic, s₁)
  unfolding register
  register-panics ps t s s₁ free e = ground (arith, free, e)

  new_entry-IsValid :
      (ps : Entries) (t p : ℕ)
      → IsValid ps
      → validate_basic t ≡ ok tt
      → has_registered_privilege t ps ≡ false
      → 1 ≤ p
      → p ≤ 255
      → IsValid (ps ++ new_entry t p ∷ [])
  unfolding has_registered_privilege
  new_entry-IsValid ps t p valid known free low high =
      IsValid-snoc ps (new_entry t p) valid
        (record {
          positive = low;
          byte = high;
          known = rw (privilege_type_from-string t known) refl;
        })
        free

  register-Requests :
      (ps : Entries) (t : ℕ) (s : State k.W)
      → Stores k a s ps
      → IsValid ps
      → validate_basic t ≡ ok tt
      → has_registered_privilege t ps ≡ false
      → Requests k a ps t s (register k a ps t s)
  register-Requests ps t s (info, found, read) valid known free =
      go (append_to_privileged_contracts t a s) refl (append_to_privileged_contracts-Appends t a s)
    where
      stored :
          (p : ℕ) (s₁ : State k.W) (r : Outcome ⊤ × State k.W)
          → Appends t a s (ok p, s₁)
          → (r.0 ≡ ok tt)
            × Stores k a r.1 (ps ++ new_entry t p ∷ [])
            × (r.1.index ≡ s₁.index)
            × (r.1.flags ≡ s₁.flags)
          → Requests k a ps t s r
      stored p s₁ (ok _, s') (low, high, next, above, index, flags, wasm, single) (d, st, i, f) =
          (p, low, high, st, above, i ∙ index, f ∙ flags)
      stored p s₁ (err x, s') h (d, x₁, x₂, x₃) = absurd (ground arith)
      stored p s₁ (panic, s') h (d, x₁, x₂, x₃) = absurd (ground arith)

      go :
          (r : Outcome ℕ × State k.W)
          → append_to_privileged_contracts t a s ≡ r
          → Appends t a s r
          → Requests k a ps t s (register k a ps t s)
      go (ok p, s₁) e h = rw (register-stored ps t p s s₁ free e) (
          stored p s₁ (set_contract_details k a (ps ++ new_entry t p ∷ []) s₁) h (
            set_contract_details-Stores k laws a s₁ info (ps ++ new_entry t p ∷ [])
              (ap (k.get_contract_info a) h.6 ∙ found)
              (new_entry-IsValid ps t p valid known free h.0 h.1)))
      go (err x, s₁) e h = rw (register-refused ps t x s s₁ free e) h
      go (panic, s₁) e h = rw (register-panics ps t s s₁ free e) h

  -- A request of a registered type, by a contract whose stored details are valid and do not list
  -- it, registers the contract at a position of its own, above all that are taken, and appends the
  -- entry to the details. It is refused, with nothing written, only where the type is exclusive and
  -- taken, and panics only where the last position is taken.
  pub handle_privilege-Requests :
      (ps : Entries) (msg : PrivilegeMsg) (s : State k.W)
      → Stores k a s ps
      → IsValid ps
      → msg.release ≡ 0
      → validate_basic msg.request ≡ ok tt
      → has_registered_privilege msg.request ps ≡ false
      → Requests k a ps msg.request s (handle_privilege k a msg s)
  handle_privilege-Requests ps msg s st valid none_released known free =
      rw
        (handle_privilege-register k laws a s msg ps st none_released (
          type-positive (string msg.request) msg.request
            (privilege_type_from-string msg.request known)))
        (register-Requests ps msg.request s st valid known free)

  -- A privilege of a registered type that a contract with valid details, which do not list it,
  -- requests and then releases leaves no trace in its details, in the index or in the flags, where
  -- the request succeeds.
  pub handle_privilege-undo :
      (ps : Entries) (t : ℕ) (s s' : State k.W)
      → Stores k a s ps
      → IsValid ps
      → validate_basic t ≡ ok tt
      → has_registered_privilege t ps ≡ false
      → handle_privilege k a (record { request = t; release = 0 }) s ≡ (ok tt, s')
      → let (o, u) = handle_privilege k a (record { request = 0; release = t }) s' in
        (o ≡ ok tt)
        × Stores k a u ps
        × ((v q : ℕ) → u.index v q ≡ s.index v q)
        × (u.flags ≡ s.flags)
  handle_privilege-undo ps t s s' st valid known free run =
      let request : PrivilegeMsg = record { request = t; release = 0 } in
      let (p, low, high, stored, above, index, flags) =
        subst (Requests k a ps t s) run
          (handle_privilege-Requests ps request s st valid refl known free) in
      let entry = new_entry t p in
      let (done, left, cleared, same) =
        handle_privilege-Releases k laws a ps [] entry (record { request = 0; release = t }) s'
          stored (new_entry-IsValid ps t p valid known free low high)
          (privilege_type_from-string t known) in
      (
        done,
        rw (append-nil ps) at left,
        λ v q.
            cleared v q
            ∙ update_back s.index s'.index t p v q (some a) index (above p (omega arith) high),
        same ∙ flags,
      )
