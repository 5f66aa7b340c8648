-- ===== src/SyncState/Invariant/Outcomes.antt =====
-- Each change that an operation makes to one outcome keeps `IsWell`.
use skret.Base.{
  ℕ, ◌≡◌, refl, arith, true, false, none, some, Str, str_eq, ◌⊎◌, inl, inr, Option-cases,
}
use skret.SyncState.{
  OutcomeStatus, OperationPhase, OperationMetadata, KeyOutcome, is_succeeded, phase_succeeded,
  is_pending,
}
use skret.SyncState.Metadata.{
  validate_persisted, references_retained, generation_promoted, reconciliation_state_for,
  owner_risk_approved, with_reconciliation, capability_allows_success, valid_acknowledged_hash,
}
use skret.SyncState.Metadata.Keep.{succeed-validate_persisted, demote-validate_persisted}
use skret.SyncState.Record.{capability_gate, demote}
use skret.SyncState.Finalize.{must_demote}
use skret.SyncState.Persist.{check_stored, check_stored_metadata, check_phase}
use skret.SyncState.Invariant.{IsWell}

-- No outcome is in the way when an operation that has not succeeded goes to reconciliation.
pub reconcile-IsWell :
    (current : Str) (phase : OperationPhase) (o : KeyOutcome)
    → phase_succeeded phase ≡ false
    → IsWell current phase o
    → IsWell current OperationPhase.needs_reconciliation o
unfolding check_stored check_stored_metadata check_phase validate_persisted
reconcile-IsWell current phase o p w = record {
  stored = ground (arith, w.stored);
  justified = w.justified;
  committed = refl;
  uniform = refl;
}

-- Nor is one when it goes back to pending.
pub reopen-IsWell :
    (current : Str) (phase : OperationPhase) (o : KeyOutcome)
    → phase_succeeded phase ≡ false
    → IsWell current phase o
    → IsWell current OperationPhase.pending o
unfolding check_stored check_stored_metadata check_phase validate_persisted
reopen-IsWell current phase o p w = record {
  stored = ground (arith, w.stored);
  justified = w.justified;
  committed = refl;
  uniform = refl;
}

abbrev pub reconciled : OperationMetadata → OperationMetadata
reconciled m = record m { reconciliation_state = reconciliation_state_for m.capability }

pub reconciled-retained :
    (m : OperationMetadata) → references_retained (reconciled m) ≡ references_retained m
unfolding references_retained
reconciled-retained m = refl

pub reconciled-promoted :
    (m : OperationMetadata) → generation_promoted (reconciled m) ≡ generation_promoted m
unfolding generation_promoted
reconciled-promoted m = refl

-- Metadata of the current operation is not promoted while an outcome has not succeeded.
pub unpromoted :
    (current : Str) (phase : OperationPhase) (o : KeyOutcome) (m : OperationMetadata)
    → IsWell current phase o
    → o.metadata ≡ some m
    → str_eq o.operation_id current ≡ true
    → is_succeeded o.status ≡ false
    → generation_promoted m ≡ false
unfolding check_stored check_stored_metadata check_phase
unpromoted current phase o m w e own st = ground (arith, w.stored, w.committed)

pub demote-IsWell :
    (current : Str) (phase : OperationPhase) (o : KeyOutcome) (t : ℕ)
    → IsWell current phase o
    → str_eq o.operation_id current ≡ true
    → is_succeeded o.status ≡ false
    → IsWell current OperationPhase.needs_reconciliation (demote o t)
unfolding check_stored check_stored_metadata check_phase with_reconciliation must_demote
demote-IsWell current phase o t w own st = record {
  stored = elim (Option-cases o.metadata) [
    | inl e ↦ ground (arith, w.stored)
    | inr (m, e) ↦ ground (
      arith,
      w.stored,
      unpromoted current phase o m w e own st,
      demote-validate_persisted m o.status,
      reconciled-retained m,
      reconciled-promoted m,
    )
  ];
  justified = refl;
  committed = refl;
  uniform = refl;
}

-- The acknowledgement of an outcome without metadata.
pub succeed-IsWell :
    (current : Str) (phase : OperationPhase) (o : KeyOutcome) (t : ℕ)
    → IsWell current phase o
    → o.metadata ≡ none
    → IsWell current phase (record o { status = OutcomeStatus.succeeded; updated_at = t })
unfolding check_stored must_demote capability_allows_success
succeed-IsWell current phase o t w e = record {
  stored = ground (arith, w.stored);
  justified = ground arith;
  committed = ground arith;
  uniform = ground (arith, w.uniform);
}

-- The acknowledgement of an outcome with metadata, which keeps a hash for later.
pub acknowledge-IsWell :
    (current : Str) (phase : OperationPhase) (o : KeyOutcome) (m : OperationMetadata) (t : ℕ)
    (h : Str)
    → IsWell current phase o
    → o.metadata ≡ some m
    → str_eq o.operation_id current ≡ true
    → is_succeeded o.status ≡ false
    → (is_pending o.status ≡ true) ⊎ (owner_risk_approved o ≡ true)
    → capability_gate o ≡ none
    → valid_acknowledged_hash h ≡ true
    → IsWell current phase
        (record o { status = OutcomeStatus.succeeded; updated_at = t; acknowledged_hash = h })
unfolding check_stored check_stored_metadata check_phase must_demote capability_allows_success
    capability_gate owner_risk_approved
acknowledge-IsWell current phase o m t h w e own st c g v = record {
  stored = ground (
    arith,
    w.stored,
    w.committed,
    unpromoted current phase o m w e own st,
    succeed-validate_persisted m o.status,
  );
  justified = ground arith;
  committed = ground (arith, w.committed);
  uniform = ground (arith, w.uniform);
}
