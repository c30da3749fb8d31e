-- ===== src/Twasm/Messages/Gov.antt =====
-- The governance content of x/twasm/contract/incoming_msgs.go that a message of a contract stands for.
use tgrade.Base.{⊤, String, ◌≡◌, refl, Option, none, some, arith}
use tgrade.Twasm.Messages.{
  ProposalContent, ExecuteGovProposal, Content, text, cancel_upgrade, ibc_client_update,
  software_upgrade, parameter_change, promote, demote, instantiate, store_code, migrate, set_admin,
  clear_admin, pin_codes, unpin_codes, contract_content, privilege_content, proposal_content,
  get_proposal_content,
}

-- Title and description of a content.
abbrev pub heading : {P : Type 0} → Content P → String × String
heading (text x) = (x.title, x.description)
heading (cancel_upgrade x) = (x.title, x.description)
heading (ibc_client_update x) = (x.title, x.description)
heading (software_upgrade x) = (x.title, x.description)
heading (parameter_change x) = (x.title, x.description)
heading (promote x) = (x.title, x.description)
heading (demote x) = (x.title, x.description)
heading (instantiate x) = (x.title, x.description)
heading (store_code x) = (x.title, x.description)
heading (migrate x) = (x.title, x.description)
heading (set_admin x) = (x.title, x.description)
heading (clear_admin x) = (x.title, x.description)
heading (pin_codes x) = (x.title, x.description)
heading (unpin_codes x) = (x.title, x.description)

-- The account that a content acts for, where it has one.
abbrev pub actor : {P : Type 0} → Content P → Option String
actor (instantiate x) = some x.run_as
actor (store_code x) = some x.run_as
actor _ = none

abbrev pub ActsFor : {P : Type 0} → String → Content P → Type 0
ActsFor sender c = (a : String) → actor c ≡ some a → a ≡ sender

abbrev IsFrom : {P : Type 0} → String → String → String → Option (Content P) → Type 0
IsFrom title description sender none = ⊤
IsFrom title description sender (some c) = (heading c ≡ (title, description)) × ActsFor sender c

contract_content-IsFrom :
    {P : Type 0} (t d s : String) (p : ProposalContent P) → IsFrom t d s (contract_content t d s p)
unfolding contract_content
contract_content-IsFrom t d s p = ground arith

privilege_content-IsFrom :
    {P : Type 0} (t d s : String) (p : ProposalContent P) → IsFrom t d s (privilege_content t d s p)
unfolding privilege_content
privilege_content-IsFrom t d s p = ground (arith, contract_content-IsFrom t d s p)

proposal_content-IsFrom :
    {P : Type 0} (t d s : String) (p : ProposalContent P) → IsFrom t d s (proposal_content t d s p)
unfolding proposal_content
proposal_content-IsFrom t d s p = ground (arith, privilege_content-IsFrom t d s p)

-- No pointer of a proposal is set.
pub record IsBlank {P : Type 0} (p : ProposalContent P) : Type 0 where
  pub no_text : p.text ≡ none
  pub no_upgrade : p.register_upgrade ≡ none
  pub no_cancel : p.cancel_upgrade ≡ none
  pub no_params : p.change_params ≡ none
  pub no_client : p.ibc_client_update ≡ none
  pub no_promotion : p.promote_to_privileged_contract ≡ none
  pub no_demotion : p.demote_privileged_contract ≡ none
  pub no_instance : p.instantiate_contract ≡ none
  pub no_code : p.store_code ≡ none
  pub no_migration : p.migrate_contract ≡ none
  pub no_admin : p.set_contract_admin ≡ none
  pub no_clearing : p.clear_contract_admin ≡ none
  pub no_pins : p.pin_codes ≡ none
  pub no_unpins : p.unpin_codes ≡ none

contract_content-none :
    {P : Type 0} (t d s : String) (p : ProposalContent P)
    → contract_content t d s p ≡ none
    → (p.migrate_contract ≡ none)
      × (p.set_contract_admin ≡ none)
      × (p.clear_contract_admin ≡ none)
      × (p.pin_codes ≡ none)
      × (p.unpin_codes ≡ none)
unfolding contract_content
contract_content-none t d s p e = ground arith

privilege_content-none :
    {P : Type 0} (t d s : String) (p : ProposalContent P)
    → privilege_content t d s p ≡ none
    → (p.promote_to_privileged_contract ≡ none)
      × (p.demote_privileged_contract ≡ none)
      × (p.instantiate_contract ≡ none)
      × (p.store_code ≡ none)
      × (contract_content t d s p ≡ none)
unfolding privilege_content
privilege_content-none t d s p e = ground arith

proposal_content-none :
    {P : Type 0} (t d s : String) (p : ProposalContent P)
    → proposal_content t d s p ≡ none
    → IsBlank p
unfolding proposal_content
proposal_content-none t d s p e =
    ground (arith, privilege_content-none t d s p, contract_content-none t d s p)

abbrev pub BlankOrFrom : {P : Type 0} → String → ExecuteGovProposal P → Option (Content P) → Type 0
BlankOrFrom sender g none = IsBlank g.proposal
BlankOrFrom sender g (some c) = (heading c ≡ (g.title, g.description)) × ActsFor sender c

-- A governance message without a content has no pointer set. Any content carries the title and the
-- description of the message, and one that acts for an account acts for the sender of the message,
-- whatever account the contract wrote into it.
pub get_proposal_content-BlankOrFrom :
    {P : Type 0} (sender : String) (g : ExecuteGovProposal P)
    → BlankOrFrom sender g (get_proposal_content sender g)
unfolding get_proposal_content
get_proposal_content-BlankOrFrom {P} sender g =
    go (proposal_content g.title g.description sender g.proposal)
      (proposal_content-none g.title g.description sender g.proposal)
      (proposal_content-IsFrom g.title g.description sender g.proposal)
  where
    go :
        (o : Option (Content P))
        → (o ≡ none → IsBlank g.proposal)
        → IsFrom g.title g.description sender o
        → BlankOrFrom sender g o
    go none blank from = blank refl
    go (some x) blank from = from
