-- ===== src/SyncState/Begin.antt =====
-- internal/syncer/state.go: `beginOperation` and the questions about the operation under way.
use skret.Base.{
  ℕ, Bool, true, false, not, ◌&&◌, ◌||◌, List, [], ◌∷◌, Option, none, some, Str, Map, ◌==◌,
  if◌then◌else◌, is_empty, str_eq, trim_space, insert,
}
use skret.Provider.{Secret}
use skret.SyncState.{
  OutcomeStatus, OperationPhase, VerificationState, OperationMetadata, KeyOutcome, SyncState,
  OperationError, Returned, is_pending, is_succeeded, phase_succeeded,
}
use skret.SyncState.Metadata.{validate, generation_promoted, with_reconciliation}

-- `checkOperation`
unfoldable pub check_operation : SyncState → Str → Option OperationError
check_operation s operation_id =
    if is_empty operation_id || not (str_eq operation_id s.operation_id)
    then some OperationError.mismatch
    else none

-- Does some outcome pass the test?
unfoldable pub any_outcome : (KeyOutcome → Bool) → Map KeyOutcome → Bool
any_outcome test [] = false
any_outcome test ((k, o) ∷ m) = test o || any_outcome test m

-- `metadata != nil && !metadata.generationPromoted()`
unfoldable pub is_unpromoted : Option OperationMetadata → Bool
is_unpromoted none = false
is_unpromoted (some m) = not (generation_promoted m)

-- `hasRetainedMetadataOperation`
unfoldable pub has_retained_operation : SyncState → Bool
unfolding any_outcome is_unpromoted
has_retained_operation s =
    if is_empty s.operation_id || phase_succeeded s.phase
    then false
    else any_outcome (λ o. str_eq o.operation_id s.operation_id && is_unpromoted o.metadata)
        s.outcomes

abbrev pub is_none : Option ℕ → Bool
is_none none = true
is_none (some _) = false

-- The phases in which `operationPending` needs no look at the outcomes.
unfoldable pub phase_pending : OperationPhase → Option ℕ → Bool
phase_pending OperationPhase.pending completed = true
phase_pending OperationPhase.awaiting_verification completed = true
phase_pending OperationPhase.unset completed = is_none completed
phase_pending _ completed = false

-- `operationPending`
unfoldable pub operation_pending : SyncState → Bool
unfolding any_outcome phase_pending
operation_pending s =
    if is_empty s.operation_id
    then false
    else if phase_pending s.phase s.completed_at
    then true
    else any_outcome (λ o. str_eq o.operation_id s.operation_id && is_pending o.status) s.outcomes

-- The phases that `RequiresReconciliation` decides on alone.
unfoldable pub phase_ambiguous : OperationPhase → Bool
phase_ambiguous OperationPhase.needs_reconciliation = true
phase_ambiguous OperationPhase.awaiting_verification = true
phase_ambiguous _ = false

-- `RequiresReconciliation`
unfoldable pub requires_reconciliation : SyncState → Bool
unfolding any_outcome phase_ambiguous
requires_reconciliation s =
    if is_empty s.operation_id || phase_succeeded s.phase
    then false
    else if phase_ambiguous s.phase
    then true
    else any_outcome (λ o. str_eq o.operation_id s.operation_id && not (is_succeeded o.status))
        s.outcomes

abbrev pub default_pending : VerificationState → VerificationState
default_pending VerificationState.unset = VerificationState.pending
default_pending v = v

-- The defaults that `beginOperation` fills in.
unfoldable pub normalize : OperationMetadata → OperationMetadata
normalize m = record m {
  old_generation = if m.old_generation == 0 then m.current_generation else m.old_generation;
  canary_state = default_pending m.canary_state;
  postcondition_state = default_pending m.postcondition_state;
}

unfoldable pub normalized : Option OperationMetadata → Option OperationMetadata
unfolding normalize
normalized none = none
normalized (some m) = some (normalize m)

-- `normalized.validate(started)` where there is metadata.
unfoldable pub check_metadata : Option OperationMetadata → ℕ → Option OperationError
check_metadata none started = none
check_metadata (some m) started = validate m started

unfoldable pub any_nil : List (Option Secret) → Bool
any_nil [] = false
any_nil (none ∷ secrets) = true
any_nil (some _ ∷ secrets) = any_nil secrets

-- What becomes of an outcome that the interrupted operation `previous` left pending.
unfoldable pub interrupt : Str → ℕ → KeyOutcome → KeyOutcome
interrupt previous started o =
    if not (is_pending o.status)
      || (not (is_empty o.operation_id) && not (str_eq o.operation_id previous))
    then o
    else record o {
      status = OutcomeStatus.needs_reconciliation;
      operation_id = if is_empty o.operation_id then previous else o.operation_id;
      metadata = with_reconciliation o.metadata;
      updated_at = started;
    }

unfoldable pub interrupt_all : Str → ℕ → Map KeyOutcome → Map KeyOutcome
unfolding interrupt
interrupt_all previous started [] = []
interrupt_all previous started ((k, o) ∷ m) =
    (k, interrupt previous started o) ∷ interrupt_all previous started m

abbrev pub fresh_outcome : Str → ℕ → Option OperationMetadata → KeyOutcome
fresh_outcome operation_id started metadata = record {
  status = OutcomeStatus.pending;
  operation_id = operation_id;
  updated_at = started;
  metadata = metadata;
  acknowledged_hash = [];
}

-- One pending outcome for each secret; `nil` secrets were refused before.
unfoldable pub enroll : KeyOutcome → List (Option Secret) → Map KeyOutcome → Map KeyOutcome
enroll o [] m = m
enroll o (none ∷ secrets) m = enroll o secrets m
enroll o (some secret ∷ secrets) m = enroll o secrets (insert secret.key o m)

-- The changes of `beginOperation`, once nothing stands against it.
unfoldable pub start_operation :
    SyncState → Str → Str → List (Option Secret) → ℕ → Option OperationMetadata → SyncState
unfolding interrupt_all enroll
start_operation s operation_id intent secrets started metadata =
    let settled =
      if operation_pending s then interrupt_all s.operation_id started s.outcomes else s.outcomes in
    record s {
      operation_id = operation_id;
      phase = OperationPhase.pending;
      intent = intent;
      started_at = some started;
      completed_at = none;
      outcomes = enroll (fresh_outcome operation_id started metadata) secrets settled;
    }

-- `beginOperation`
unfoldable pub begin_operation :
    SyncState → Str → Str → List (Option Secret) → ℕ → Option OperationMetadata → Returned
begin_operation s operation_id intent secrets started metadata =
    if has_retained_operation s
    then (s, some OperationError.phase_mismatch)
    else elim (check_metadata (normalized metadata) started) [
      | some e ↦ (s, some e)
      | none ↦
          if is_empty (trim_space operation_id)
          then (s, some OperationError.id_required)
          else if any_nil secrets
          then (s, some OperationError.nil_secret)
          else (start_operation s operation_id intent secrets started (normalized metadata), none)
    ]
