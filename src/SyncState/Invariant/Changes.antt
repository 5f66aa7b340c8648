-- ===== src/SyncState/Invariant/Changes.antt =====
-- Verification and approval keep `IsWell`.
use skret.Base.{ℕ, ◌≡◌, refl, arith, Bool, true, false, not, ◌||◌, none, some, Str, str_eq}
use skret.SyncState.{
  OutcomeStatus, OperationPhase, OperationMetadata, KeyOutcome, is_needs_reconciliation,
  ReconciliationState, is_owner_risk,
}
use skret.SyncState.Metadata.{
  validate_persisted, references_retained, generation_promoted, promote_metadata,
  verification_failed, owner_risk_approved, capability_allows_success, valid_operation_reference,
  valid_acknowledged_hash,
}
use skret.SyncState.Metadata.Keep.{allowed, evidence-validate_persisted, approve-validate_persisted}
use skret.SyncState.Finalize.{must_demote}
use skret.SyncState.Verify.{verified, with_evidence}
use skret.SyncState.Persist.{check_stored, check_stored_metadata, check_phase}
use skret.SyncState.Invariant.{IsWell}

evidence-retained :
    (m : OperationMetadata) (c p : Bool)
    → references_retained (with_evidence c p m) ≡ references_retained m
unfolding references_retained with_evidence
evidence-retained m c p = refl

evidence-promoted :
    (m : OperationMetadata) (c p : Bool)
    → generation_promoted (with_evidence c p m) ≡ generation_promoted m
unfolding generation_promoted with_evidence
evidence-promoted m c p = refl

-- An outcome that awaits verification is a success with metadata that is retained.
pub awaiting-ready :
    (current : Str) (o : KeyOutcome) (m : OperationMetadata)
    → IsWell current OperationPhase.awaiting_verification o
    → o.metadata ≡ some m
    → str_eq o.operation_id current ≡ true
    → (o.status ≡ OutcomeStatus.succeeded)
      × (validate_persisted m OutcomeStatus.succeeded ≡ none)
      × (references_retained m ≡ true)
      × (generation_promoted m ≡ false)
      × (valid_acknowledged_hash o.acknowledged_hash ≡ true)
      × (verification_failed m ≡ false)
unfolding check_stored check_stored_metadata check_phase validate_persisted
awaiting-ready current o m w e own = (
  ground (arith, w.stored),
  ground (arith, w.stored),
  ground (arith, w.stored),
  ground (arith, w.stored),
  ground (arith, w.stored),
  ground (arith, w.stored),
)

-- Failed evidence: the whole operation goes to reconciliation.
pub reject-IsWell :
    (current : Str) (o : KeyOutcome) (m : OperationMetadata) (canary post : Bool) (t : ℕ)
    → IsWell current OperationPhase.awaiting_verification o
    → o.metadata ≡ some m
    → str_eq o.operation_id current ≡ true
    → (not canary || not post) ≡ true
    → IsWell current OperationPhase.needs_reconciliation (verified canary post t o m)
unfolding check_stored check_stored_metadata check_phase verified must_demote
reject-IsWell current o m canary post t w e own bad =
    let (st, v, r, p, h, f) = awaiting-ready current o m w e own in
    record {
      stored = ground (
        arith,
        w.stored,
        st,
        v,
        p,
        h,
        evidence-validate_persisted m canary post,
        evidence-retained m canary post,
        evidence-promoted m canary post,
      );
      justified = ground arith;
      committed = refl;
      uniform = refl;
    }

-- Passed evidence: the operation goes on waiting, for the step that commits it.
pub pass-IsWell :
    (current : Str) (o : KeyOutcome) (m : OperationMetadata) (t : ℕ)
    → IsWell current OperationPhase.awaiting_verification o
    → o.metadata ≡ some m
    → str_eq o.operation_id current ≡ true
    → IsWell current OperationPhase.awaiting_verification (verified true true t o m)
unfolding check_stored check_stored_metadata check_phase verified must_demote
    capability_allows_success owner_risk_approved verification_failed
pass-IsWell current o m t w e own =
    let (st, v, r, p, h, f) = awaiting-ready current o m w e own in
    record {
      stored = ground (
        arith,
        w.stored,
        st,
        v,
        p,
        h,
        r,
        evidence-validate_persisted m true true,
        evidence-retained m true true,
        evidence-promoted m true true,
      );
      justified = unfold with_evidence in ground (arith, w.justified);
      committed = refl;
      uniform = ground arith;
    }

pub allowed-eq :
    (o : KeyOutcome) (m : OperationMetadata)
    → o.metadata ≡ some m
    → o.status ≡ OutcomeStatus.succeeded
    → must_demote o ≡ false
    → allowed m ≡ true
unfolding must_demote capability_allows_success owner_risk_approved
allowed-eq o m e st h = ground arith

pub promoted-facts :
    (m : OperationMetadata)
    → validate_persisted m OutcomeStatus.succeeded ≡ none
    → references_retained m ≡ true
    → (references_retained (promote_metadata m) ≡ false)
      × (generation_promoted (promote_metadata m) ≡ true)
unfolding references_retained generation_promoted promote_metadata valid_operation_reference
promoted-facts m v r = (ground arith, ground arith)

abbrev approved : OperationMetadata → OperationMetadata
approved m = record m { reconciliation_state = ReconciliationState.approved }

approved-keeps :
    (m : OperationMetadata)
    → (references_retained (approved m) ≡ references_retained m)
      × (generation_promoted (approved m) ≡ generation_promoted m)
      × (verification_failed (approved m) ≡ verification_failed m)
unfolding references_retained generation_promoted verification_failed
approved-keeps m = (refl, refl, refl)

-- The approval of an owner risk.
pub approve-IsWell :
    (current : Str) (phase : OperationPhase) (o : KeyOutcome) (m : OperationMetadata) (t : ℕ)
    → IsWell current phase o
    → o.metadata ≡ some m
    → str_eq o.operation_id current ≡ true
    → is_needs_reconciliation o.status ≡ true
    → is_owner_risk m.capability ≡ true
    → IsWell current phase (record o {
      metadata = some (record m { reconciliation_state = ReconciliationState.approved });
      updated_at = t;
    })
unfolding check_stored check_stored_metadata check_phase must_demote
approve-IsWell current phase o m t w e own st c = record {
  stored = ground (arith, w.stored, w.committed, approve-validate_persisted m, approved-keeps m);
  justified = ground arith;
  committed = ground (arith, w.committed);
  uniform = ground (arith, w.uniform);
}
