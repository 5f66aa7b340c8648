-- ===== src/SyncState/Invariant/Promote.antt =====
-- Promotion, interruption and enrolment keep `IsWell`.
use skret.Base.{
  ℕ, ◌≡◌, refl, arith, true, false, not, ◌&&◌, ◌||◌, [], Option, none, some, Str, str_eq, inl, inr,
  Option-cases, Bool-cases, str_eq_refl,
}
use skret.SyncState.{OutcomeStatus, OperationPhase, OperationMetadata, KeyOutcome, phase_succeeded}
use skret.SyncState.Metadata.{
  validate_persisted, references_retained, generation_promoted, check_promotion, promote_metadata,
  verification_passed, owner_risk_approved, with_reconciliation, capability_allows_success,
}
use skret.SyncState.Metadata.Keep.{
  promote-validate_persisted, validate-validate_persisted, validate-retained,
  demote-validate_persisted,
}
use skret.SyncState.Begin.{interrupt, fresh_outcome, check_metadata, is_unpromoted}
use skret.SyncState.Finalize.{must_demote, promote_outcome}
use skret.SyncState.Persist.{check_stored, check_stored_metadata, check_phase}
use skret.SyncState.Invariant.{IsWell}
use skret.SyncState.Invariant.Outcomes.{reconciled-retained, reconciled-promoted}
use skret.SyncState.Invariant.Changes.{allowed-eq, promoted-facts}

-- A success of an operation that has not been committed holds a retained generation.
pub success-retained :
    (current : Str) (phase : OperationPhase) (o : KeyOutcome) (m : OperationMetadata)
    → phase_succeeded phase ≡ false
    → IsWell current phase o
    → o.metadata ≡ some m
    → str_eq o.operation_id current ≡ true
    → o.status ≡ OutcomeStatus.succeeded
    → (validate_persisted m OutcomeStatus.succeeded ≡ none) × (references_retained m ≡ true)
unfolding check_stored check_stored_metadata check_phase validate_persisted
success-retained current phase o m p w e own st =
    (ground (arith, w.stored), ground (arith, w.stored))

promote-other :
    (current : Str) (phase : OperationPhase) (o : KeyOutcome)
    → IsWell current phase o
    → str_eq o.operation_id current ≡ false
    → IsWell current OperationPhase.succeeded (promote_outcome current o)
unfolding check_stored check_stored_metadata promote_outcome
promote-other current phase o w other = rw other (record {
  stored = ground (arith, w.stored);
  justified = w.justified;
  committed = ground arith;
  uniform = refl;
})

promote-bare :
    (current : Str) (phase : OperationPhase) (o : KeyOutcome)
    → IsWell current phase o
    → o.status ≡ OutcomeStatus.succeeded
    → o.metadata ≡ none
    → IsWell current OperationPhase.succeeded (promote_outcome current o)
unfolding check_stored promote_outcome
promote-bare current phase o w st e =
    let same : promote_outcome current o ≡ o = ground arith in
    rw same (record {
      stored = ground (arith, w.stored);
      justified = w.justified;
      committed = ground arith;
      uniform = refl;
    })

abbrev committed_outcome : KeyOutcome → OperationMetadata → KeyOutcome
committed_outcome o m = record o { acknowledged_hash = []; metadata = some (promote_metadata m) }

promote-eq :
    (current : Str) (o : KeyOutcome) (m : OperationMetadata)
    → o.metadata ≡ some m
    → str_eq o.operation_id current ≡ true
    → o.status ≡ OutcomeStatus.succeeded
    → promote_outcome current o ≡ committed_outcome o m
unfolding promote_outcome
promote-eq current o m e own st = ground arith

promote-outcome :
    (current : Str) (phase : OperationPhase) (o : KeyOutcome) (m : OperationMetadata)
    → phase_succeeded phase ≡ false
    → IsWell current phase o
    → o.metadata ≡ some m
    → str_eq o.operation_id current ≡ true
    → o.status ≡ OutcomeStatus.succeeded
    → verification_passed m ≡ true
    → IsWell current OperationPhase.succeeded (committed_outcome o m)
unfolding check_stored check_stored_metadata check_phase must_demote capability_allows_success
    owner_risk_approved
promote-outcome current phase o m p w e own st passed =
    let (v, r) = success-retained current phase o m p w e own st in
    let facts = promoted-facts m v r in
    record {
      stored = ground (
        arith,
        facts,
        own,
        promote-validate_persisted m v r passed (allowed-eq o m e st w.justified),
      );
      justified = unfold promote_metadata in ground (arith, w.justified);
      committed = ground arith;
      uniform = refl;
    }

-- The commit: an owned success with verified metadata is promoted, and its hash handed over.
pub promote-IsWell :
    (current : Str) (phase : OperationPhase) (o : KeyOutcome)
    → phase_succeeded phase ≡ false
    → IsWell current phase o
    → (str_eq o.operation_id current ≡ true → o.status ≡ OutcomeStatus.succeeded)
    → ((m : OperationMetadata)
        → str_eq o.operation_id current ≡ true
        → o.metadata ≡ some m
        → verification_passed m ≡ true)
    → IsWell current OperationPhase.succeeded (promote_outcome current o)
promote-IsWell current phase o p w st passed = elim (Bool-cases (str_eq o.operation_id current)) [
  | inr other ↦ promote-other current phase o w other
  | inl own ↦ elim (Option-cases o.metadata) [
    | inl e ↦ promote-bare current phase o w (st own) e
    | inr (m, e) ↦
        rw (promote-eq current o m e own (st own))
          (promote-outcome current phase o m p w e own (st own) (passed m own e))
  ]
]

-- An outcome of an earlier operation, once another one starts.
pub supersede-IsWell :
    (current next : Str) (phase : OperationPhase) (o : KeyOutcome)
    → IsWell current phase o
    → (phase_succeeded phase || not (str_eq o.operation_id current && is_unpromoted o.metadata))
      ≡ true
    → str_eq o.operation_id next ≡ false
    → IsWell next OperationPhase.pending o
unfolding check_stored check_stored_metadata check_phase is_unpromoted validate_persisted
supersede-IsWell current next phase o w free fresh = record {
  stored = ground (arith, w.stored, free);
  justified = w.justified;
  committed = refl;
  uniform = refl;
}

-- A new pending outcome.
pub fresh-IsWell :
    (current : Str) (t : ℕ) (metadata : Option OperationMetadata)
    → check_metadata metadata t ≡ none
    → IsWell current OperationPhase.pending (fresh_outcome current t metadata)
unfolding check_stored check_stored_metadata check_phase check_metadata must_demote
fresh-IsWell current t none h = record {
  stored = refl;
  justified = refl;
  committed = refl;
  uniform = refl;
}
fresh-IsWell current t (some m) h = record {
  stored =
      ground
        (arith, validate-validate_persisted m t h, validate-retained m t h, str_eq_refl current);
  justified = refl;
  committed = refl;
  uniform = refl;
}

pending_unpromoted :
    (m : OperationMetadata)
    → validate_persisted m OutcomeStatus.pending ≡ none
    → generation_promoted m ≡ false
unfolding validate_persisted check_promotion
pending_unpromoted m h = ground arith

-- What an interruption does to an outcome that is not of the next operation.
pub interrupt-IsWell :
    (current next : Str) (t : ℕ) (o : KeyOutcome)
    → IsWell next OperationPhase.pending o
    → str_eq o.operation_id next ≡ false
    → str_eq current next ≡ false
    → (m : Option OperationMetadata) → o.metadata ≡ m
    → IsWell next OperationPhase.pending (interrupt current t o)
unfolding check_stored check_stored_metadata check_phase interrupt must_demote with_reconciliation
interrupt-IsWell current next t o w fresh ne none e = record {
  stored = ground (arith, w.stored);
  justified = ground (arith, w.justified);
  committed = refl;
  uniform = refl;
}
interrupt-IsWell current next t o w fresh ne (some m) e = record {
  stored = ground (
    arith,
    w.stored,
    demote-validate_persisted m o.status,
    pending_unpromoted m,
    reconciled-retained m,
    reconciled-promoted m,
  );
  justified = ground (arith, w.justified);
  committed = refl;
  uniform = refl;
}
