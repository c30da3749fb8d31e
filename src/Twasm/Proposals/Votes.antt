-- ===== src/Twasm/Proposals/Votes.antt =====
-- What a governance proposal does to the privileges, x/twasm/keeper/proposal_handler.go.
use tgrade.Base.{
  ℕ, ⊤, String, eq_iff, ◌≡◌, ◌≤◌, refl, false, Option, none, some, Outcome, ok, err, panic, is_ok,
  unknown_request, arith, ◌⊎◌, inl, inr, ◌↔◌,
}
use tgrade.Twasm.Keeper.{WasmKeeper, State, Action}
use tgrade.Twasm.Keeper.Privileged.{Contracts, set_privileged, unset_privileged}
use tgrade.Twasm.Proposals.{
  PrivilegeProposal, ProposalKind, promote_contract, demote_contract, other_content,
  ProposalServices, is_unknown_request, validate_proposal_commons, validate_proposal,
  proposal_address, handle_promote_contract_proposal, handle_demote_contract_proposal, handle_own,
  handle_proposal,
}

module _ {W X : Type 0} (v : ProposalServices W X) where
  -- A text that is not blank, has no white space around it, and is not too long.
  abbrev pub IsText : ℕ → String → Type 0
  IsText most t = (v.trim_space t ≡ t) × (1 ≤ v.byte_length t) × (v.byte_length t ≤ most)

  -- A proposal that is valid, for the contract at `a`.
  abbrev pub IsFor : PrivilegeProposal → ℕ → Type 0
  IsFor p a =
      IsText v.max_title_length p.title
      × IsText v.max_description_length p.description
      × (v.acc_address_from_bech32 p.contract ≡ ok a)

  validate_proposal_commons-IsText :
      (t d : String)
      → validate_proposal_commons v t d ≡ ok tt
      → IsText v.max_title_length t × IsText v.max_description_length d
  unfolding validate_proposal_commons
  validate_proposal_commons-IsText t d h =
      ground (arith, eq_iff (v.trim_space t) t, eq_iff (v.trim_space d) d)

  proposal_address-IsFor : (p : PrivilegeProposal) (a : ℕ) → proposal_address v p ≡ ok a → IsFor p a
  unfolding proposal_address validate_proposal
  proposal_address-IsFor p a h =
      ground (arith, validate_proposal_commons-IsText p.title p.description)

  commons-ok :
      (t d : String)
      → IsText v.max_title_length t
      → IsText v.max_description_length d
      → validate_proposal_commons v t d ≡ ok tt
  unfolding validate_proposal_commons
  commons-ok t d h k = ground (arith, eq_iff (v.trim_space t) t, eq_iff (v.trim_space d) d)

  IsFor-proposal_address : (p : PrivilegeProposal) (a : ℕ) → IsFor p a → proposal_address v p ≡ ok a
  unfolding proposal_address validate_proposal
  IsFor-proposal_address p a h = ground (arith, commons-ok p.title p.description h.0 h.1)

  -- The address that a proposal is carried out for exists exactly where the proposal is valid.
  proposal_address_iff : (p : PrivilegeProposal) (a : ℕ) → (proposal_address v p ≡ ok a) ↔ IsFor p a
  proposal_address_iff p a = (proposal_address-IsFor p a, IsFor-proposal_address p a)

module _ (k : WasmKeeper) (c : Contracts k.W) {X : Type 0} (v : ProposalServices k.W X) where
  -- A valid proposal runs `act` on its contract; any other fails and writes nothing.
  abbrev pub Acts :
      (ℕ → Action k.W ⊤) → PrivilegeProposal → State k.W → Outcome ⊤ × State k.W → Type 0
  Acts act p s r =
      ((a : ℕ) × IsFor v p a × (r ≡ act a s))
      ⊎ (((a : ℕ) → ¬ IsFor v p a) × (is_ok r.0 ≡ false) × (r.1 ≡ s))

  -- By the content of the proposal.
  abbrev pub Carries : Option (ProposalKind X) → State k.W → Outcome ⊤ × State k.W → Type 0
  Carries none s r = r ≡ (err unknown_request, s)
  Carries (some (promote_contract p)) s r = Acts (set_privileged k c) p s r
  Carries (some (demote_contract p)) s r = Acts (unset_privileged k c) p s r
  Carries (some (other_content x)) s r = r ≡ (err unknown_request, s)

  acts :
      (act : ℕ → Action k.W ⊤) (p : PrivilegeProposal) (s : State k.W) (o : Outcome ℕ)
      → proposal_address v p ≡ o
      → Acts act p s (elim o [ ok a ↦ act a s | err e ↦ (err e, s) | panic ↦ (panic, s) ])
  acts act p s (ok a) e = inl (a, proposal_address-IsFor v p a e, refl)
  acts act p s (err x) e =
      inr (λ a h. ground (arith, e, IsFor-proposal_address v p a h), refl, refl)
  acts act p s panic e = inr (λ a h. ground (arith, e, IsFor-proposal_address v p a h), refl, refl)

  handle_own-Carries :
      (content : Option (ProposalKind X)) (s : State k.W)
      → Carries content s (handle_own k c v content s)
  unfolding handle_own handle_promote_contract_proposal handle_demote_contract_proposal
  handle_own-Carries none s = refl
  handle_own-Carries (some (promote_contract p)) s =
      acts (set_privileged k c) p s (proposal_address v p) refl
  handle_own-Carries (some (demote_contract p)) s =
      acts (unset_privileged k c) p s (proposal_address v p) refl
  handle_own-Carries (some (other_content x)) s = refl

  handle_proposal-own :
      (content : Option (ProposalKind X)) (s s₁ : State k.W)
      → v.wasm_handler content s ≡ (err unknown_request, s₁)
      → handle_proposal k c v content s ≡ handle_own k c v content s₁
  unfolding handle_proposal is_unknown_request
  handle_proposal-own content s s₁ e = ground (arith, e)

  -- A content that the wasm module does not know is carried out here: a valid proposal promotes or
  -- demotes exactly the contract that it names, an invalid one fails and writes nothing, and no other
  -- content is accepted. Valid is a proposal whose title and description are not blank, have no white
  -- space around them and are not too long, and whose address can be parsed.
  pub handle_proposal-Carries :
      (content : Option (ProposalKind X)) (s s₁ : State k.W)
      → v.wasm_handler content s ≡ (err unknown_request, s₁)
      → Carries content s₁ (handle_proposal k c v content s)
  handle_proposal-Carries content s s₁ e =
      rw (handle_proposal-own content s s₁ e) (handle_own-Carries content s₁)
