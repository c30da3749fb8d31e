-- ===== src/Twasm/Tests/Governing.antt =====
-- Concrete runs of the proposals and of the genesis import of x/twasm.
use tgrade.Base.{⊤, ◌≡◌, refl, true, some, List, [], ◌∷◌, ok, err, unknown_request, All}
use tgrade.Twasm.Privilege.{privilege_type_from, type_in, registry}
use tgrade.Twasm.Details.{RegisteredPrivilege}
use tgrade.Twasm.Keeper.{
  State, is_privileged, set_privileged_flag, store_contract_privilege_registration,
}
use tgrade.Twasm.Keeper.Privileged.{import_registrations, import_privileged}
use tgrade.Twasm.Proposals.{ProposalKind, promote_contract, ProposalServices, handle_proposal}
use tgrade.Twasm.Proposals.Votes.{Carries, handle_proposal-Carries}
use tgrade.Twasm.Genesis.Import.{IsImported, KeepsAll, import_privileged-Imports}
use tgrade.Twasm.Tests.{entry, Store, keeper, contracts, world}

abbrev services : ProposalServices Store ⊤
services = record {
  wasm_handler = λ c s. (err unknown_request, s);
  acc_address_from_bech32 = λ x. ok 9;
  trim_space = λ x. x;
  byte_length = λ x. 5;
  max_title_length = 140;
  max_description_length = 5000;
}

abbrev proposal : ProposalKind ⊤
proposal = promote_contract (record { title = "title"; description = "words"; contract = "furya1" })

handle_proposal-Carries_example :
    Carries keeper contracts services
      (some proposal)
      (world [])
      (handle_proposal keeper contracts services (some proposal) (world []))
handle_proposal-Carries_example =
    handle_proposal-Carries keeper contracts services (some proposal) (world []) (world []) refl

abbrev imported : List RegisteredPrivilege
imported = entry "begin_blocker" 1 ∷ []

abbrev after_import : State Store
after_import = (import_privileged keeper contracts 9 1 imported (world imported)).1

import_privileged-Imports_example :
    (is_privileged 9 after_import ≡ true)
    × All (IsImported keeper contracts 9 after_import) imported
    × KeepsAll keeper contracts 9 (world imported) after_import
unfolding import_privileged import_registrations privilege_type_from type_in registry
    set_privileged_flag store_contract_privilege_registration
import_privileged-Imports_example =
    import_privileged-Imports keeper contracts 9 1 imported (world imported) after_import refl
