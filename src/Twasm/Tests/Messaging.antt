-- ===== src/Twasm/Tests/Messaging.antt =====
-- Concrete runs of the message handlers of x/twasm.
use tgrade.Base.{ℕ, ⊤, String, ◌≡◌, refl, none, some, List, [], ◌∷◌, ok}
use tgrade.Base.Int.{pos}
use tgrade.Twasm.Privilege.{privilege_type_from, type_in, name_in, registry, string, validate_basic}
use tgrade.Twasm.Details.{
  RegisteredPrivilege, validate_entry, contains, has_name, has_registered_privilege,
  validate_basic as validate_details,
}
use tgrade.Twasm.Details.Valid.{IsValid, validate_basic_iff}
use tgrade.Twasm.Keeper.{
  tokens_minted, Event, State, is_privileged, get_contract_details, append_to_privileged_contracts,
  last_below, set_contract_details,
}
use tgrade.Twasm.Messages.{
  MintTokens, PetriMsg, ExecuteGovProposal, ProposalContent, ParamChange, PrivilegeMsg,
  get_proposal_content, proposal_content,
}
use tgrade.Twasm.Messages.Gov.{BlankOrFrom, get_proposal_content-BlankOrFrom}
use tgrade.Twasm.Handler.{handle_privilege, register, load_details}
use tgrade.Twasm.Handler.Dispatch.{dispatch_msg, handle_gov_proposal_execution}
use tgrade.Twasm.Handler.Authority.{
  Refuses, dispatch_msg-Refuses, handle_gov_proposal_execution-Refuses,
}
use tgrade.Twasm.Handler.Privileges.{Stores, Releases, handle_privilege-Releases}
use tgrade.Twasm.Handler.Requests.{Requests, handle_privilege-Requests, handle_privilege-undo}
use tgrade.Twasm.Handler.Minting.{Mints}
use tgrade.Twasm.Tests.{entry, Store, keeper, keeper_laws, world, services}

abbrev nothing : PetriMsg ⊤
nothing = record {
  privilege = none;
  execute_gov_proposal = none;
  mint_tokens = none;
  consensus_params = none;
  delegate = none;
  undelegate = none;
}

abbrev mint_msg : PetriMsg ⊤
mint_msg = record nothing {
  mint_tokens = some (record { denom = "utgd"; amount = "5"; recipient_addr = "furya1" });
}

-- The sender may execute proposals, but not mint.
abbrev governor : List RegisteredPrivilege
governor = entry "gov_proposal_executor" 1 ∷ []

dispatch_msg-Refuses_example :
    Refuses (world governor) (dispatch_msg keeper services 9 (some (ok mint_msg)) (world governor))
unfolding get_contract_details has_registered_privilege has_name string name_in registry
    is_privileged
dispatch_msg-Refuses_example = dispatch_msg-Refuses keeper services 9 mint_msg (world governor) refl

abbrev blank : ProposalContent ⊤
blank = record {
  text = none;
  register_upgrade = none;
  cancel_upgrade = none;
  change_params = none;
  ibc_client_update = none;
  promote_to_privileged_contract = none;
  demote_privileged_contract = none;
  instantiate_contract = none;
  store_code = none;
  migrate_contract = none;
  set_contract_admin = none;
  clear_contract_admin = none;
  pin_codes = none;
  unpin_codes = none;
}

abbrev change : String → ParamChange
change s = record { subspace = s; key = "k"; value = "v" }

abbrev change_msg : ExecuteGovProposal ⊤
change_msg = record {
  title = "t";
  description = "d";
  proposal = record blank { change_params = some (change "bank" ∷ change "baseapp" ∷ []) };
}

handle_gov_proposal_execution-Refuses_example :
    Refuses
      (world governor)
      (handle_gov_proposal_execution keeper services 9 change_msg (world governor))
unfolding get_proposal_content proposal_content
handle_gov_proposal_execution-Refuses_example =
    handle_gov_proposal_execution-Refuses keeper services 9 change_msg
      (record { title = "t"; description = "d"; body = change "bank" ∷ change "baseapp" ∷ [] })
      (change "bank" ∷ []) [] (change "baseapp") (world governor) refl refl refl refl

get_proposal_content-BlankOrFrom_example :
    BlankOrFrom "furya1" change_msg (get_proposal_content "furya1" change_msg)
get_proposal_content-BlankOrFrom_example = get_proposal_content-BlankOrFrom "furya1" change_msg

abbrev held : List RegisteredPrivilege
held = entry "begin_blocker" 1 ∷ entry "delegator" 2 ∷ []

held-IsValid : IsValid held
unfolding validate_details validate_entry privilege_type_from type_in registry contains
held-IsValid = (validate_basic_iff held).0 refl

abbrev release_msg : PrivilegeMsg
release_msg = record { request = 0; release = 7 }

handle_privilege-Releases_example :
    Releases keeper 9
      (entry "begin_blocker" 1 ∷ [])
      []
      (entry "delegator" 2)
      7
      (world held)
      (handle_privilege keeper 9 release_msg (world held))
unfolding privilege_type_from type_in registry
handle_privilege-Releases_example =
    handle_privilege-Releases keeper keeper_laws 9 (entry "begin_blocker" 1 ∷ []) []
      (entry "delegator" 2) release_msg (world held) ((1, held), refl, refl) held-IsValid refl

abbrev request_msg : PrivilegeMsg
request_msg = record { request = 5; release = 0 }

handle_privilege-Requests_example :
    Requests keeper 9 held 5 (world held) (handle_privilege keeper 9 request_msg (world held))
unfolding validate_basic has_registered_privilege has_name string name_in registry
handle_privilege-Requests_example =
    handle_privilege-Requests keeper keeper_laws 9 held request_msg (world held)
      ((1, held), refl, refl) held-IsValid refl refl refl

-- The state after the request.
abbrev granted : State Store
granted = (handle_privilege keeper 9 request_msg (world held)).1

handle_privilege-undo_example :
    let (o, u) = handle_privilege keeper 9 (record { request = 0; release = 5 }) granted in
    (o ≡ ok tt)
    × Stores keeper 9 u held
    × ((v q : ℕ) → u.index v q ≡ (world held).index v q)
    × (u.flags ≡ (world held).flags)
unfolding validate_basic has_registered_privilege has_name string name_in registry handle_privilege
    load_details register append_to_privileged_contracts last_below set_contract_details
handle_privilege-undo_example =
    handle_privilege-undo keeper keeper_laws 9 held 5 (world held) granted ((1, held), refl, refl)
      held-IsValid refl refl refl

abbrev minter : List RegisteredPrivilege
minter = entry "token_minter" 1 ∷ []

abbrev five_tokens : MintTokens
five_tokens = record { denom = "utgd"; amount = "5"; recipient_addr = "furya1" }

abbrev minted : List Event
minted = tokens_minted 9 (record { denom = "utgd"; amount = pos 5 }) "furya1" ∷ []

-- The right-hand side of the witness holds.
minted-Mints : Mints keeper services 9 five_tokens (world minter) minted (world minter)
unfolding is_privileged get_contract_details has_registered_privilege has_name string name_in
    registry
minted-Mints = (
  refl,
  refl,
  (9, pos 5, (world minter).wasm, (world minter).wasm, refl, refl, refl, refl, refl, refl, refl),
)
