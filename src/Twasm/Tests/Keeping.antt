-- ===== src/Twasm/Tests/Keeping.antt =====
-- Concrete runs of the keeper of x/twasm and of its types.
use tgrade.Base.{
  ℕ, ◌<◌, ◌≡◌, refl, ◌↔◌, true, none, some, List, [], ◌∷◌, ◌==◌, if◌then◌else◌, ok, arith, is_some,
  ltb,
}
use tgrade.Base.Int.{pos, negsuc}
use tgrade.Twasm.Privilege.{registry, type_in, privilege_type_from}
use tgrade.Twasm.Callbacks.{SudoMsg}
use tgrade.Twasm.Details.{
  RegisteredPrivilege, validate_entry, contains, validate_basic as validate_details,
}
use tgrade.Twasm.Details.Valid.{IsValid, validate_basic_iff}
use tgrade.Twasm.Keeper.{
  State, append_to_privileged_contracts, exists_any_privileged_contract,
  privileged_contracts_by_type,
}
use tgrade.Twasm.Keeper.Privileged.{call_sudo, unpin_unshared, unset_privileged}
use tgrade.Twasm.Keeper.Index.{
  Appends, append_to_privileged_contracts-Appends, entry_at, IsAscending,
  privileged_contracts_by_type_lem, exists_any_privileged_contract_iff,
}
use tgrade.Twasm.Keeper.Demote.{
  Leaves, Clears, unset_privileged_keeps_second, unset_privileged-Clears,
}
use tgrade.Twasm.Abci.{AbciEvidence, AbciEvidenceType, begin_blocker, end_blocker}
use tgrade.Twasm.Abci.Blocks.{Sends, end_blocker-Sends}
use tgrade.Twasm.Abci.Begin.{Begins, begin_blocker-Begins}
use tgrade.Twasm.Tests.{entry, Store, keeper, keeper_laws, contracts, world}

abbrev two : List RegisteredPrivilege
two = entry "begin_blocker" 1 ∷ entry "delegator" 2 ∷ []

abbrev three : List RegisteredPrivilege
three = entry "begin_blocker" 1 ∷ entry "delegator" 2 ∷ entry "token_minter" 1 ∷ []

two-IsValid : IsValid two
unfolding validate_details validate_entry privilege_type_from type_in registry contains
two-IsValid = (validate_basic_iff two).0 refl

three-IsValid : IsValid three
unfolding validate_details validate_entry privilege_type_from type_in registry contains
three-IsValid = (validate_basic_iff three).0 refl

unset_privileged_keeps_second_example :
    Leaves keeper 9
      (entry "delegator" 2)
      7
      (world three)
      (unset_privileged keeper contracts 9 (world three))
unfolding unpin_unshared call_sudo privilege_type_from type_in registry
unset_privileged_keeps_second_example =
    unset_privileged_keeps_second keeper contracts keeper_laws 9 (1, three) (world three) refl refl
      (world three) [] refl (entry "begin_blocker" 1) (entry "delegator" 2) (entry "token_minter" 1)
      [] 7 refl three-IsValid refl

unset_privileged-Clears_example :
    Clears keeper 9 two (unset_privileged keeper contracts 9 (world two))
unfolding unpin_unshared call_sudo
unset_privileged-Clears_example =
    unset_privileged-Clears keeper contracts keeper_laws 9 (1, two) (world two) refl refl
      (world two) [] refl two refl two-IsValid (omega arith)

append_to_privileged_contracts-Appends_example :
    Appends 1 9 (world []) (append_to_privileged_contracts 1 9 (world []))
append_to_privileged_contracts-Appends_example =
    append_to_privileged_contracts-Appends 1 9 (world [])

privileged_contracts_by_type_lem_example :
    ((q : ℕ)
      → entry_at q (privileged_contracts_by_type 1 (world []))
        ≡ (if ltb q 256 then (world []).index 1 q else none))
    × IsAscending 0 (privileged_contracts_by_type 1 (world []))
privileged_contracts_by_type_lem_example = privileged_contracts_by_type_lem 1 (world [])

-- Position 255 alone is taken.
abbrev full : State Store
full = record (world []) { index = λ t p. if p == 255 then some 9 else none }

exists_any_privileged_contract_iff_example :
    (exists_any_privileged_contract 1 full ≡ true)
    ↔ ((p : ℕ) × (p < 255) × (is_some (full.index 1 p) ≡ true))
exists_any_privileged_contract_iff_example = exists_any_privileged_contract_iff 1 full

validate_basic_iff_example : (validate_details three ≡ ok tt) ↔ IsValid three
validate_basic_iff_example = validate_basic_iff three

abbrev offence : AbciEvidence
offence = record {
  evidence_type = AbciEvidenceType.duplicate_vote;
  address = [];
  power = pos 5;
  height = pos 3;
  unix_time = pos 100;
  total_voting_power = negsuc 0;
}

begin_blocker-Begins_example :
    Begins contracts (offence ∷ []) (world []) (begin_blocker contracts (offence ∷ []) (world []))
begin_blocker-Begins_example = begin_blocker-Begins contracts (offence ∷ []) (world [])

end_blocker-Sends_example : Sends contracts SudoMsg.end_block 2 full (end_blocker contracts full)
end_blocker-Sends_example = end_blocker-Sends contracts full
