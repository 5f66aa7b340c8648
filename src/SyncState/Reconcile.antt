-- ===== src/SyncState/Reconcile.antt =====
-- internal/syncer/state.go: `RecordKeyNeedsReconciliation`, `RecordNeedsReconciliation`, the check of
-- a batch and `ApproveOwnerRiskReconciliation`.
use skret.Base.{
  ℕ, Bool, true, false, not, ◌&&◌, List, [], ◌∷◌, Option, none, some, Str, if◌then◌else◌, str_eq,
  lookup,
}
use skret.Provider.{Secret}
use skret.SyncState.{
  ReconciliationState, OperationMetadata, KeyOutcome, SyncState, OperationError, Returned,
  is_succeeded, is_needs_reconciliation, is_owner_risk, is_approved,
}
use skret.SyncState.Metadata.{check_outcome, owner_risk_approved}
use skret.SyncState.Begin.{check_operation}
use skret.SyncState.Record.{own, owned_outcome, put_outcome, refuse, send_to_reconciliation}

-- `recordKeyNeedsReconciliation` behind `ownedOutcome`.
unfoldable pub record_owned_reconciliation : SyncState → Secret → KeyOutcome → ℕ → Returned
unfolding send_to_reconciliation
record_owned_reconciliation s secret o completed = elim (check_outcome o) [
  | some e ↦ (s, some e)
  | none ↦
      if is_succeeded o.status
      then (s, some OperationError.phase_mismatch)
      else if is_needs_reconciliation o.status
      then (s, none)
      else (send_to_reconciliation s secret.key o completed, none)
]

-- `recordKeyNeedsReconciliation`
unfoldable pub record_reconciliation : SyncState → Str → Option Secret → ℕ → Returned
record_reconciliation s operation_id secret completed = elim (owned_outcome s operation_id secret) [
  | refuse e ↦ (s, some e)
  | own sec o ↦ record_owned_reconciliation s sec o completed
]

-- `RecordKeyNeedsReconciliation`
unfoldable pub record_key_reconciliation : SyncState → Str → Option Secret → ℕ → Returned
record_key_reconciliation s operation_id secret completed = elim (check_operation s operation_id) [
  | some e ↦ (s, some e)
  | none ↦ record_reconciliation s operation_id secret completed
]

-- `validateBatch`: what it refuses of one outcome; the flag is `status == OutcomeSucceeded`.
unfoldable pub check_batch_outcome : Bool → KeyOutcome → Option OperationError
check_batch_outcome true o =
    if is_needs_reconciliation o.status && not (owner_risk_approved o)
    then some OperationError.phase_mismatch
    else none
check_batch_outcome false o =
    if is_succeeded o.status then some OperationError.phase_mismatch else none

unfoldable pub check_each : Bool → SyncState → Str → List (Option Secret) → Option OperationError
unfolding check_batch_outcome
check_each success s operation_id [] = none
check_each success s operation_id (secret ∷ secrets) = elim (owned_outcome s operation_id secret) [
  | refuse e ↦ some e
  | own sec o ↦ elim (check_batch_outcome success o) [
    | some e ↦ some e
    | none ↦ check_each success s operation_id secrets
  ]
]

unfoldable pub validate_batch :
    Bool → SyncState → Str → List (Option Secret) → Option OperationError
unfolding check_each
validate_batch success s operation_id [] = some OperationError.empty
validate_batch success s operation_id (secret ∷ secrets) =
    check_each success s operation_id (secret ∷ secrets)

-- The loop of `RecordNeedsReconciliation` over the secrets.
unfoldable pub reconcile_each : SyncState → Str → List (Option Secret) → ℕ → Returned
reconcile_each s operation_id [] completed = (s, none)
reconcile_each s operation_id (secret ∷ secrets) completed =
    let r = record_reconciliation s operation_id secret completed in
    elim r.1 [ some e ↦ (r.0, some e) | none ↦ reconcile_each r.0 operation_id secrets completed ]

-- `RecordNeedsReconciliation`
unfoldable pub record_needs_reconciliation : SyncState → Str → List (Option Secret) → ℕ → Returned
record_needs_reconciliation s operation_id secrets completed =
    elim (check_operation s operation_id) [
      | some e ↦ (s, some e)
      | none ↦ elim (validate_batch false s operation_id secrets) [
        | some e ↦ (s, some e)
        | none ↦ reconcile_each s operation_id secrets completed
      ]
    ]

-- `ApproveOwnerRiskReconciliation` behind the look-up.
unfoldable pub approve_owned : SyncState → Str → KeyOutcome → OperationMetadata → ℕ → Returned
approve_owned s key o m approved_at = elim (check_outcome o) [
  | some e ↦ (s, some e)
  | none ↦
      if not (is_owner_risk m.capability)
      then (s, some OperationError.capability_invalid)
      else if is_approved m.reconciliation_state
      then (s, none)
      else (
        put_outcome s key (record o {
          metadata = some (record m { reconciliation_state = ReconciliationState.approved });
          updated_at = approved_at;
        }),
        none,
      )
]

unfoldable pub approve_outcome : SyncState → Str → Str → Option KeyOutcome → ℕ → Returned
unfolding approve_owned
approve_outcome s operation_id key none approved_at = (s, some OperationError.key_mismatch)
approve_outcome s operation_id key (some o) approved_at =
    if not (str_eq o.operation_id operation_id)
    then (s, some OperationError.key_mismatch)
    else if not (is_needs_reconciliation o.status)
    then (s, some OperationError.phase_mismatch)
    else elim o.metadata [
      | none ↦ (s, some OperationError.phase_mismatch)
      | some m ↦ approve_owned s key o m approved_at
    ]

-- `ApproveOwnerRiskReconciliation`
unfoldable pub approve_owner_risk : SyncState → Str → Str → ℕ → Returned
unfolding approve_outcome
approve_owner_risk s operation_id key approved_at = elim (check_operation s operation_id) [
  | some e ↦ (s, some e)
  | none ↦ approve_outcome s operation_id key (lookup key s.outcomes) approved_at
]
