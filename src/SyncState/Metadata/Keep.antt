-- ===== src/SyncState/Metadata/Keep.antt =====
-- How the changes that the operations make keep `validatePersisted` satisfied.
use skret.Base.{if◌then◌else◌, not, ℕ, ◌||◌, ◌≡◌, arith, Bool, true, false, none, ◌⊎◌}
use skret.Provider.{Capability}
use skret.SyncState.{
  ReconciliationState, OutcomeStatus, OperationMetadata, is_owner_risk, is_pending, is_succeeded,
  is_approved,
}
use skret.SyncState.Verify.{with_evidence}
use skret.SyncState.Metadata.{
  valid_operation_reference, valid_verification_states, verification_passed, promote_metadata,
  validate, validate_persisted, references_retained, generation_promoted, check_promotion,
  check_reconciliation, reconciliation_state_for,
}

abbrev pub allowed : OperationMetadata → Bool
allowed m = elim m.capability [
  | Capability.native_cas ↦ true
  | Capability.enforced_exclusive ↦ true
  | Capability.owner_risk_gate ↦ is_approved m.reconciliation_state
  | _ ↦ false
]

-- A success that the capability allows.
pub succeed-validate_persisted :
    (m : OperationMetadata) (status : OutcomeStatus)
    → validate_persisted m status ≡ none
    → generation_promoted m ≡ false
    → allowed m ≡ true
    → is_succeeded status ≡ false
    → (is_pending status ≡ true) ⊎ (is_owner_risk m.capability ≡ true)
    → validate_persisted m OutcomeStatus.succeeded ≡ none
unfolding validate_persisted check_promotion check_reconciliation
succeed-validate_persisted m status h p a n c = ground arith

-- A demotion, with the reconciliation state that belongs to the capability.
pub demote-validate_persisted :
    (m : OperationMetadata) (status : OutcomeStatus)
    → validate_persisted m status ≡ none
    → generation_promoted m ≡ false
    → validate_persisted
        (record m { reconciliation_state = reconciliation_state_for m.capability })
        OutcomeStatus.needs_reconciliation
      ≡ none
unfolding validate_persisted check_promotion check_reconciliation reconciliation_state_for
    generation_promoted references_retained
demote-validate_persisted m status h p = ground arith

-- Verification evidence for a retained generation; a failure goes to reconciliation.
pub evidence-validate_persisted :
    (m : OperationMetadata) (canary postconditions : Bool)
    → validate_persisted m OutcomeStatus.succeeded ≡ none
    → generation_promoted m ≡ false
    → validate_persisted (with_evidence canary postconditions m) (
        if not canary || not postconditions
        then OutcomeStatus.needs_reconciliation
        else OutcomeStatus.succeeded)
      ≡ none
unfolding validate_persisted check_promotion check_reconciliation reconciliation_state_for
    generation_promoted references_retained valid_verification_states with_evidence
evidence-validate_persisted m true true h p = ground arith
evidence-validate_persisted m true false h p = ground arith
evidence-validate_persisted m false post h p = ground arith

-- The promotion of a verified success that its capability allows.
pub promote-validate_persisted :
    (m : OperationMetadata)
    → validate_persisted m OutcomeStatus.succeeded ≡ none
    → references_retained m ≡ true
    → verification_passed m ≡ true
    → allowed m ≡ true
    → validate_persisted (promote_metadata m) OutcomeStatus.succeeded ≡ none
unfolding validate_persisted check_promotion check_reconciliation generation_promoted
    references_retained valid_operation_reference promote_metadata verification_passed
promote-validate_persisted m h r v a = ground arith

-- The explicit approval of an owner risk.
pub approve-validate_persisted :
    (m : OperationMetadata)
    → validate_persisted m OutcomeStatus.needs_reconciliation ≡ none
    → is_owner_risk m.capability ≡ true
    → validate_persisted
        (record m { reconciliation_state = ReconciliationState.approved })
        OutcomeStatus.needs_reconciliation
      ≡ none
unfolding validate_persisted check_promotion check_reconciliation generation_promoted
    references_retained verification_passed
approve-validate_persisted m h c = ground arith

-- What `validate` accepts at a start is accepted as a stored pending outcome.
pub validate-validate_persisted :
    (m : OperationMetadata) (started : ℕ)
    → validate m started ≡ none
    → validate_persisted m OutcomeStatus.pending ≡ none
unfolding validate validate_persisted check_promotion check_reconciliation generation_promoted
    references_retained valid_verification_states
validate-validate_persisted m started h = ground arith

pub validate-retained :
    (m : OperationMetadata) (started : ℕ)
    → validate m started ≡ none
    → (references_retained m ≡ true) × (generation_promoted m ≡ false)
unfolding validate references_retained generation_promoted
validate-retained m started h = ground arith
