-- ===== src/SyncState/Verify.antt =====
-- internal/syncer/state.go: `RecordOperationVerification`. Its loop runs over the map while it
-- changes it: the model walks the entries in the map's order and returns the entries with the
-- changes made up to an error.
use skret.Base.{
  ℕ, ◌+◌, Bool, true, false, not, ◌&&◌, ◌||◌, [], ◌∷◌, Option, none, some, Str, Map, ◌==◌,
  if◌then◌else◌, str_eq,
}
use skret.SyncState.{
  OutcomeStatus, OperationPhase, VerificationState, OperationMetadata, KeyOutcome, SyncState,
  OperationError, Returned, is_succeeded,
}
use skret.SyncState.Metadata.{valid_acknowledged_hash, reconciliation_state_for}
use skret.SyncState.Begin.{check_operation}
use skret.SyncState.Record.{deadline_over}
use skret.SyncState.Finalize.{finalize_operation}

-- Is the deadline of some owned outcome over?
unfoldable pub any_deadline_over : Str → ℕ → Map KeyOutcome → Bool
any_deadline_over operation_id completed [] = false
any_deadline_over operation_id completed ((k, o) ∷ m) =
    str_eq o.operation_id operation_id && deadline_over o.metadata completed
    || any_deadline_over operation_id completed m

-- The evidence that `RecordOperationVerification` writes into metadata.
unfoldable pub with_evidence : Bool → Bool → OperationMetadata → OperationMetadata
with_evidence canary postconditions m = record m {
  canary_state = if canary then VerificationState.passed else VerificationState.failed;
  postcondition_state =
      if canary
      then (if postconditions then VerificationState.passed else VerificationState.failed)
      else VerificationState.pending;
  reconciliation_state =
      if not canary || not postconditions
      then reconciliation_state_for m.capability
      else m.reconciliation_state;
}

unfoldable pub verified : Bool → Bool → ℕ → KeyOutcome → OperationMetadata → KeyOutcome
unfolding with_evidence
verified canary postconditions completed o m = record o {
  metadata = some (with_evidence canary postconditions m);
  updated_at = completed;
  status =
      if not canary || not postconditions then OutcomeStatus.needs_reconciliation else o.status;
}

-- The entries after the loop, with the number of owned ones, or without one at the mismatch that
-- ended the loop.
pub data VerifyScan : Type 0 where
  seen : Map KeyOutcome → ℕ → VerifyScan
  broken : Map KeyOutcome → VerifyScan

abbrev pub keep_verified : Str → KeyOutcome → ℕ → VerifyScan → VerifyScan
keep_verified k o more (seen m n) = seen ((k, o) ∷ m) (more + n)
keep_verified k o more (broken m) = broken ((k, o) ∷ m)

-- The metadata of an outcome that is ready for verification.
unfoldable pub ready : KeyOutcome → Option OperationMetadata
ready o =
    if not (is_succeeded o.status) || not (valid_acknowledged_hash o.acknowledged_hash)
    then none
    else o.metadata

-- The loop of `RecordOperationVerification`.
unfoldable pub verify_scan : Str → Bool → Bool → ℕ → Map KeyOutcome → VerifyScan
unfolding ready verified
verify_scan operation_id canary postconditions completed [] = seen [] 0
verify_scan operation_id canary postconditions completed ((k, o) ∷ m) =
    let rest = verify_scan operation_id canary postconditions completed m in
    if not (str_eq o.operation_id operation_id) then keep_verified k o 0 rest else elim (ready o) [
      | none ↦ broken ((k, o) ∷ m)
      | some d ↦ keep_verified k (verified canary postconditions completed o d) 1 rest
    ]

abbrev pub phase_awaiting : OperationPhase → Bool
phase_awaiting OperationPhase.awaiting_verification = true
phase_awaiting _ = false

-- What follows the loop; the flags are those after the test of the deadlines.
unfoldable pub settle_verification :
    SyncState → Str → Bool → Bool → ℕ → Bool → VerifyScan → Returned
settle_verification s operation_id canary postconditions completed late (broken m) =
    (record s { outcomes = m }, some OperationError.phase_mismatch)
settle_verification s operation_id canary postconditions completed late (seen m n) =
    if n == 0
    then (record s { outcomes = m }, some OperationError.empty)
    else if not canary || not postconditions
    then (
      record s {
        outcomes = m;
        phase = OperationPhase.needs_reconciliation;
        completed_at = some completed;
      },
      if late then some OperationError.deadline_exceeded else none,
    )
    else finalize_operation (record s { outcomes = m }) operation_id completed

-- `RecordOperationVerification`
unfoldable pub record_verification : SyncState → Str → Bool → Bool → ℕ → Returned
unfolding any_deadline_over settle_verification
record_verification s operation_id canary postconditions completed =
    elim (check_operation s operation_id) [
      | some e ↦ (s, some e)
      | none ↦
          if not (phase_awaiting s.phase)
          then (s, some OperationError.phase_mismatch)
          else let late = any_deadline_over operation_id completed s.outcomes in
            let canary' = not late && canary in
            let postconditions' = not late && postconditions in
            settle_verification s operation_id canary' postconditions' completed late
              (verify_scan operation_id canary' postconditions' completed s.outcomes)
    ]
