-- ===== src/Twasm/Handler/Params.antt =====
-- `mergeConsensusParamsUpdate` of x/twasm/keeper/handler_plugin.go: what an update of the consensus
-- parameters changes.
use tgrade.Base.{
  ℕ, ◌*◌, ◌<◌, ◌^◌, ◌≡◌, true, Option, none, some, ok, panic, is_some, arith, or_zero,
}
use tgrade.Base.Int.{pos, mul_int64, to_int64-to_uint64, ◌*ℤ◌}
use tgrade.Twasm.Messages.{ConsensusParamsUpdate, BlockParams}
use tgrade.Twasm.Handler.{
  BlockLimits, EvidenceLimits, ConsensusParams, merge_consensus_params_update, merge_block,
  merge_evidence, second,
}

-- A field of a group that may be absent.
abbrev pub given : {A B : Type 0} → (A → Option B) → Option A → Option B
given f none = none
given f (some a) = f a

mul_second : (d : ℕ) → pos d *ℤ second ≡ pos (d * 1_000_000_000)
unfolding ◌*ℤ◌
mul_second d = ground arith

mul_int64-second :
    (d : ℕ) → d * 1_000_000_000 < 2 ^ 63 → mul_int64 (pos d) second ≡ pos (d * 1_000_000_000)
unfolding mul_int64
mul_int64-second d h =
    rw (mul_second d) (to_int64-to_uint64 (pos (d * 1_000_000_000)) h (omega arith))

-- An update of groups that are there sets exactly the parameters that it gives and leaves the others as
-- they are.
pub merge_consensus_params_update_lem :
    (b : BlockLimits) (e : EvidenceLimits) (u : ConsensusParamsUpdate)
    → merge_consensus_params_update (record { block = some b; evidence = some e }) u
      ≡ ok (record {
        block = some (record {
          max_bytes = or_zero b.max_bytes (given (λ p. p.max_bytes) u.block);
          max_gas = or_zero b.max_gas (given (λ p. p.max_gas) u.block);
        });
        evidence = some (record {
          max_age_num_blocks =
              or_zero e.max_age_num_blocks (given (λ p. p.max_age_num_blocks) u.evidence);
          max_age_duration = elim (given (λ p. p.max_age_duration) u.evidence) [
            | none ↦ e.max_age_duration
            | some d ↦ mul_int64 d second
          ];
          max_bytes = or_zero e.max_bytes (given (λ p. p.max_bytes) u.evidence);
        });
      })
unfolding merge_consensus_params_update merge_block merge_evidence
merge_consensus_params_update_lem b e u = ground arith

-- An update that gives a parameter of a group that is nil panics.
pub merge_consensus_params_update_nil :
    (src : ConsensusParams) (u : ConsensusParamsUpdate) (p : BlockParams)
    → src.block ≡ none
    → u.block ≡ some p
    → is_some p.max_bytes ≡ true
    → merge_consensus_params_update src u ≡ panic
unfolding merge_consensus_params_update merge_block
merge_consensus_params_update_nil src u p missing given_block set =
    ground (arith, missing, given_block, set)
