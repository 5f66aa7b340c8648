-- ===== src/SyncState/Metadata.antt =====
-- The methods of `OperationMetadata` in internal/syncer/state.go, and the predicates on outcomes.
pub mod Keep
use skret.Base.{
  ℕ, Bool, true, false, not, ◌&&◌, ◌||◌, [], Option, none, some, Str, ◌==◌, ltb, leb, within,
  if◌then◌else◌, is_empty, all_bytes, length, is_lower, is_upper, is_digit,
}
use skret.Provider.{Capability, valid_capability}
use skret.SyncState.{
  OutcomeStatus, ReconciliationState, VerificationState, ℤ, pos, negsuc, OperationMetadata,
  KeyOutcome, OperationError, is_pending, is_succeeded, is_needs_reconciliation, is_owner_risk,
  verification_pending, is_passed, is_failed, is_approved, reconciliation_unset, first_error,
}

-- `validOperationReference`
unfoldable pub valid_operation_reference : Str → Bool
valid_operation_reference value =
    not (is_empty value || ltb 512 (length value))
    && all_bytes
        (λ c.
          is_lower c
          || is_upper c
          || is_digit c
          || c == b'-'
          || c == b'_'
          || c == b'.'
          || c == b':'
          || c == b'/')
        value

-- `validAcknowledgedHash`: 64 hexadecimal digits in lower case.
unfoldable pub valid_acknowledged_hash : Str → Bool
valid_acknowledged_hash value =
    length value == 64 && all_bytes (λ c. is_digit c || within b'a' b'f' c) value

-- `metadata.Attempts < 0 || metadata.Attempts > maxOperationAttempts`
unfoldable pub attempts_out : ℤ → Bool
attempts_out (pos n) = ltb 3 n
attempts_out (negsuc n) = true

-- `metadata.Deadline == nil || !metadata.Deadline.After(started)`
unfoldable pub deadline_missing : Option ℕ → ℕ → Bool
deadline_missing none started = true
deadline_missing (some d) started = not (ltb started d)

-- `validate`
unfoldable pub validate : OperationMetadata → ℕ → Option OperationError
unfolding attempts_out deadline_missing
validate m started =
    if leb m.intended_generation m.current_generation || ltb m.current_generation m.old_generation
    then some OperationError.generation_order_invalid
    else if not (valid_capability m.capability)
    then some OperationError.capability_invalid
    else if not (valid_operation_reference m.lifecycle_label)
    then some OperationError.lifecycle_label_invalid
    else if not (valid_operation_reference m.kms_envelope_ref)
    then some OperationError.kms_reference_invalid
    else if deadline_missing m.deadline started
    then some OperationError.deadline_not_after_start
    else if attempts_out m.attempts
    then some OperationError.attempts_out_of_range
    else if not (reconciliation_unset m.reconciliation_state)
    then some OperationError.reconciliation_not_empty
    else if not (verification_pending m.canary_state)
        || not (verification_pending m.postcondition_state)
    then some OperationError.verification_not_pending
    else none

-- `metadata.Deadline != nil && !metadata.Deadline.IsZero()`
unfoldable pub deadline_set : Option ℕ → Bool
deadline_set none = false
deadline_set (some d) = ltb 0 d

-- `referencesRetained`
unfoldable pub references_retained : OperationMetadata → Bool
unfolding deadline_set
references_retained m =
    ltb m.current_generation m.intended_generation
    && leb m.old_generation m.current_generation
    && valid_operation_reference m.lifecycle_label
    && valid_operation_reference m.kms_envelope_ref
    && deadline_set m.deadline

abbrev pub no_deadline : Option ℕ → Bool
no_deadline none = true
no_deadline (some _) = false

-- `generationPromoted`
unfoldable pub generation_promoted : OperationMetadata → Bool
generation_promoted m =
    ltb 0 m.intended_generation
    && m.current_generation == m.intended_generation
    && m.old_generation == 0
    && is_empty m.lifecycle_label
    && is_empty m.kms_envelope_ref
    && no_deadline m.deadline

-- `validVerificationStates`, on the canary's state and the postconditions'.
unfoldable pub valid_verification_states : VerificationState → VerificationState → Bool
valid_verification_states VerificationState.pending p = verification_pending p
valid_verification_states VerificationState.failed p = verification_pending p
valid_verification_states VerificationState.passed p =
    verification_pending p || is_passed p || is_failed p
valid_verification_states _ p = false

-- `verificationPassed`
unfoldable pub verification_passed : OperationMetadata → Bool
verification_passed m = is_passed m.canary_state && is_passed m.postcondition_state

-- `verificationFailed`
unfoldable pub verification_failed : OperationMetadata → Bool
verification_failed m = is_failed m.canary_state || is_failed m.postcondition_state

abbrev pub known_status : OutcomeStatus → Bool
known_status (OutcomeStatus.other _) = false
known_status _ = true

abbrev pub same : Bool → Bool → Bool
same true b = b
same false b = not b

-- The part of `validatePersisted` on promotion.
unfoldable pub check_promotion : OperationMetadata → OutcomeStatus → Option OperationError
unfolding generation_promoted verification_passed
check_promotion m status =
    if generation_promoted m
    then if not (is_succeeded status) || not (verification_passed m)
      then some OperationError.promoted_unverified
      else none
    else if is_pending status && not (verification_pending m.canary_state)
    then some OperationError.pending_with_evidence
    else none

-- The switch of `validatePersisted` on the reconciliation state; the flag is
-- `metadata.Capability == provider.CapabilityOwnerRiskGate`.
unfoldable pub check_reconciliation :
    ReconciliationState → Bool → OutcomeStatus → Option OperationError
check_reconciliation ReconciliationState.unset owner_risk status =
    if owner_risk && is_needs_reconciliation status
    then some OperationError.owner_risk_not_explicit
    else none
check_reconciliation ReconciliationState.pending owner_risk status =
    if owner_risk || not (is_needs_reconciliation status)
    then some OperationError.pending_reconciliation_invalid
    else none
check_reconciliation ReconciliationState.owner_risk_required owner_risk status =
    if not owner_risk || not (is_needs_reconciliation status)
    then some OperationError.owner_risk_not_pending
    else none
check_reconciliation ReconciliationState.approved owner_risk status =
    if not owner_risk || not (is_needs_reconciliation status) && not (is_succeeded status)
    then some OperationError.approval_invalid
    else none
check_reconciliation (ReconciliationState.other _) owner_risk status =
    some OperationError.reconciliation_invalid

abbrev pub is_blocked : Capability → Bool
is_blocked Capability.blocked = true
is_blocked _ = false

-- `validatePersisted`
unfoldable pub validate_persisted : OperationMetadata → OutcomeStatus → Option OperationError
validate_persisted m status =
    if not (known_status status)
    then some OperationError.status_invalid
    else if not (valid_capability m.capability)
    then some OperationError.capability_invalid
    else if attempts_out m.attempts
    then some OperationError.attempts_out_of_range
    else if not (valid_verification_states m.canary_state m.postcondition_state)
    then some OperationError.verification_invalid
    else if same (references_retained m) (generation_promoted m)
    then some OperationError.retention_invalid
    else first_error (check_promotion m status) (
        first_error
          (check_reconciliation m.reconciliation_state (is_owner_risk m.capability) status)
          (if is_blocked m.capability && is_succeeded status
            then some OperationError.capability_blocked
            else none))

-- `outcome.Metadata.validatePersisted(outcome.Status)` where there is metadata.
unfoldable pub check_outcome : KeyOutcome → Option OperationError
check_outcome o = elim o.metadata [ none ↦ none | some m ↦ validate_persisted m o.status ]

-- `ownerRiskApproved`
unfoldable pub owner_risk_approved : KeyOutcome → Bool
owner_risk_approved o = elim o.metadata [
  | none ↦ false
  | some m ↦ is_owner_risk m.capability && is_approved m.reconciliation_state
]

-- `reconciliationStateFor`
unfoldable pub reconciliation_state_for : Capability → ReconciliationState
reconciliation_state_for c =
    if is_owner_risk c then ReconciliationState.owner_risk_required else ReconciliationState.pending

-- The assignment `outcome.Metadata.ReconciliationState = reconciliationStateFor(...)`, which the
-- source makes where there is metadata.
unfoldable pub with_reconciliation : Option OperationMetadata → Option OperationMetadata
unfolding reconciliation_state_for
with_reconciliation none = none
with_reconciliation (some m) =
    some (record m { reconciliation_state = reconciliation_state_for m.capability })

-- `outcomeCapabilityAllowsSuccess`
unfoldable pub capability_allows_success : KeyOutcome → Bool
capability_allows_success o = elim o.metadata [
  | none ↦ true
  | some m ↦ elim m.capability [
    | Capability.native_cas ↦ true
    | Capability.enforced_exclusive ↦ true
    | Capability.owner_risk_gate ↦ owner_risk_approved o
    | _ ↦ false
  ]
]

-- `promoteMetadata`
unfoldable pub promote_metadata : OperationMetadata → OperationMetadata
promote_metadata m = record m {
  current_generation = m.intended_generation;
  old_generation = 0;
  lifecycle_label = [];
  kms_envelope_ref = [];
  deadline = none;
  reconciliation_state =
      if not (is_owner_risk m.capability)
      then ReconciliationState.unset
      else m.reconciliation_state;
}
