-- ===== src/SyncState.antt =====
-- internal/syncer/state.go: the journal of one sync target. This file has its data; the children
-- have the checks of operation metadata, the operations, and what is proved of them.
-- Go's `time.Time` is a number here, 0 for the zero time; a nil map is an empty one; JSON texts that
-- are none of the named constants are `other`, and the empty text is `unset`.
pub mod Metadata
pub mod Begin
pub mod Record
pub mod Reconcile
pub mod Finalize
pub mod Verify
pub mod Persist
pub mod Call
pub mod Invariant
pub mod Safety
pub mod Commit
mod Tests
pub use skret.Base.{ℤ, pos, negsuc}
use skret.Base.{ℕ, Bool, true, false, Option, Str, Map}
use skret.Provider.{Capability}

-- `OutcomeStatus`
pub data OutcomeStatus : Type 0 where
  pending succeeded needs_reconciliation : OutcomeStatus
  other : Str → OutcomeStatus

-- `OperationPhase`
pub data OperationPhase : Type 0 where
  unset pending awaiting_verification succeeded needs_reconciliation : OperationPhase
  other : Str → OperationPhase

-- `ReconciliationState`
pub data ReconciliationState : Type 0 where
  unset pending owner_risk_required approved : ReconciliationState
  other : Str → ReconciliationState

-- `VerificationState`
pub data VerificationState : Type 0 where
  unset pending passed failed : VerificationState
  other : Str → VerificationState

pub record OperationMetadata : Type 0 where
  pub old_generation : ℕ
  pub current_generation : ℕ
  pub intended_generation : ℕ
  pub lifecycle_label : Str
  pub kms_envelope_ref : Str
  pub capability : Capability
  pub deadline : Option ℕ
  pub attempts : ℤ
  pub reconciliation_state : ReconciliationState
  pub canary_state : VerificationState
  pub postcondition_state : VerificationState

pub record KeyOutcome : Type 0 where
  pub status : OutcomeStatus
  pub operation_id : Str
  pub updated_at : ℕ
  pub metadata : Option OperationMetadata
  pub acknowledged_hash : Str

pub record SyncState : Type 0 where
  pub target : Str
  pub id : Str
  pub hashes : Map Str
  pub updated : ℕ
  pub hash_domain : Str
  pub operation_method : Str
  pub source_identity : Str
  pub source_digest : Str
  pub operation_id : Str
  pub phase : OperationPhase
  pub intent : Str
  pub started_at : Option ℕ
  pub completed_at : Option ℕ
  pub last_success : Option ℕ
  pub outcomes : Map KeyOutcome

-- The errors: the named ones, and one for each message of a `fmt.Errorf`.
pub data OperationError : Type 0 where
  mismatch key_mismatch phase_mismatch empty : OperationError
  capability_invalid capability_blocked owner_risk_approval_required : OperationError
  verification_required deadline_exceeded : OperationError
  id_required nil_secret key_required : OperationError
  generation_order_invalid lifecycle_label_invalid kms_reference_invalid : OperationError
  deadline_not_after_start attempts_out_of_range : OperationError
  reconciliation_not_empty verification_not_pending : OperationError
  status_invalid verification_invalid retention_invalid promoted_unverified : OperationError
  pending_with_evidence owner_risk_not_explicit pending_reconciliation_invalid : OperationError
  owner_risk_not_pending approval_invalid reconciliation_invalid : OperationError
  acknowledgement_missing : OperationError
  method_invalid identity_too_long digest_invalid unexpected_hash hash_invalid : OperationError
  orphaned_generation success_not_promoted wait_invalid premature_promotion : OperationError
  identity_mismatch : OperationError

-- The state after a method and the error that it returns; a method may fail after a change.
abbrev pub Returned : Type 0
Returned = SyncState × Option OperationError

abbrev pub is_pending : OutcomeStatus → Bool
is_pending OutcomeStatus.pending = true
is_pending _ = false

abbrev pub is_succeeded : OutcomeStatus → Bool
is_succeeded OutcomeStatus.succeeded = true
is_succeeded _ = false

abbrev pub is_needs_reconciliation : OutcomeStatus → Bool
is_needs_reconciliation OutcomeStatus.needs_reconciliation = true
is_needs_reconciliation _ = false

abbrev pub phase_succeeded : OperationPhase → Bool
phase_succeeded OperationPhase.succeeded = true
phase_succeeded _ = false

abbrev pub is_owner_risk : Capability → Bool
is_owner_risk Capability.owner_risk_gate = true
is_owner_risk _ = false

abbrev pub verification_pending : VerificationState → Bool
verification_pending VerificationState.pending = true
verification_pending _ = false

abbrev pub is_passed : VerificationState → Bool
is_passed VerificationState.passed = true
is_passed _ = false

abbrev pub is_failed : VerificationState → Bool
is_failed VerificationState.failed = true
is_failed _ = false

abbrev pub is_approved : ReconciliationState → Bool
is_approved ReconciliationState.approved = true
is_approved _ = false

abbrev pub reconciliation_unset : ReconciliationState → Bool
reconciliation_unset ReconciliationState.unset = true
reconciliation_unset _ = false

-- The first of two checks that fails.
abbrev pub first_error : Option OperationError → Option OperationError → Option OperationError
first_error (Option.some e) next = Option.some e
first_error Option.none next = next
