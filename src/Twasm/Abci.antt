-- ===== src/Twasm/Abci.antt =====
-- x/twasm/abci.go: the block callbacks. A callback acts on a branch of the state, which is kept only if
-- the contract succeeds; a panic of the contract is recovered. Logging and telemetry are left out.
-- The iterator is taken over the registrations that stand when the block callback begins.
pub mod Blocks
pub mod Begin
use tgrade.Base.{
  ℕ, ⊤, Bool, true, false, Option, none, some, List, [], ◌∷◌, if◌then◌else◌, Outcome, ok, err,
  panic, ◌>>=◌,
}
use tgrade.Base.Int.{ℤ, pos, negsuc}
use tgrade.Twasm.Privilege
use tgrade.Twasm.Callbacks.{EvidenceType, Evidence, SudoMsg}
use tgrade.Twasm.Keeper.{State, privileged_contracts_by_type}
use tgrade.Twasm.Keeper.Privileged.{Contracts, branch, commit}

-- The evidence of the consensus engine; `time` is in seconds.
pub data AbciEvidenceType : Type 0 where
  unknown duplicate_vote light_client_attack : AbciEvidenceType

pub record AbciEvidence : Type 0 where
  pub evidence_type : AbciEvidenceType
  pub address : List ℕ
  pub power : ℤ
  pub height : ℤ
  pub unix_time : ℤ
  pub total_voting_power : ℤ

unfoldable pub conv_uint64 : ℤ → Outcome ℕ
conv_uint64 (pos n) = ok n
conv_uint64 (negsuc n) = panic

abbrev pub known_type : AbciEvidenceType → Option EvidenceType
known_type AbciEvidenceType.unknown = none
known_type AbciEvidenceType.duplicate_vote = some EvidenceType.duplicate_vote
known_type AbciEvidenceType.light_client_attack = some EvidenceType.light_client_attack

unfoldable pub convert : EvidenceType → AbciEvidence → Outcome Evidence
convert t e = do
  power ← conv_uint64 e.power
  height ← conv_uint64 e.height
  time ← conv_uint64 e.unix_time
  total ← conv_uint64 e.total_voting_power
  ok (record {
    evidence_type = t;
    validator = record { address = e.address; power = power };
    height = height;
    time = time;
    total_voting_power = total;
  })

-- The loop of `BeginBlocker`: evidence of an unknown type is skipped.
unfoldable pub collect_evidence : List AbciEvidence → Outcome (List Evidence)
collect_evidence [] = ok []
collect_evidence (e ∷ es) =
    let rest = collect_evidence es in
    elim (known_type e.evidence_type) [
      | none ↦ rest
      | some t ↦ (convert t e >>= λ x. rest >>= λ xs. ok (x ∷ xs))
    ]

module _ {W : Type 0} (c : Contracts W) where
  -- `abciContractCallback`: commit on success, nothing otherwise.
  unfoldable pub abci_contract_callback : List ℕ → ℕ → State W → State W
  abci_contract_callback msg_bz a s =
      let (o, s') = c.sudo a msg_bz (branch s) in
      elim o [ ok _ ↦ commit c s s' | err _ ↦ s | panic ↦ s ]

  unfoldable pub callbacks : List ℕ → List (ℕ × ℕ) → State W → State W
  callbacks msg_bz [] s = s
  callbacks msg_bz ((p, a) ∷ es) s = callbacks msg_bz es (abci_contract_callback msg_bz a s)

  unfoldable pub send_all : SudoMsg → ℕ → State W → Outcome ⊤ × State W
  send_all msg t s = elim (c.marshal msg) [
    | none ↦ (panic, s)
    | some msg_bz ↦ (ok tt, callbacks msg_bz (privileged_contracts_by_type t s) s)
  ]

  unfoldable pub begin_blocker : List AbciEvidence → State W → Outcome ⊤ × State W
  begin_blocker byzantine s = elim (collect_evidence byzantine) [
    | ok evidence ↦ send_all (SudoMsg.begin_block evidence) Privilege.begin_block s
    | err e ↦ (err e, s)
    | panic ↦ (panic, s)
  ]

  unfoldable pub end_blocker : State W → Outcome ⊤ × State W
  end_blocker s = send_all SudoMsg.end_block Privilege.end_block s
