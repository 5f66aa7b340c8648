-- ===== src/SyncState/Invariant.antt =====
-- The invariant of the journal of internal/syncer/state.go: what holds of each outcome, and of the
-- journal as a whole.

pub mod Outcomes
pub mod Changes
pub mod Promote
pub mod Record
pub mod Acknowledge
pub mod Batch
pub mod Scan
pub mod Finalize
pub mod Settle
pub mod Verify
pub mod Begin
use skret.Base.{
  ℕ, ◌≡◌, refl, arith, Bool, true, false, not, ◌&&◌, ◌||◌, [], ◌∷◌, Option, none, some, Str, Map,
  All, str_eq, is_empty, ltb, length,
}
use skret.SyncState.{
  OperationPhase, OperationMetadata, KeyOutcome, SyncState, is_succeeded, phase_succeeded,
}
use skret.SyncState.Metadata.{valid_operation_reference, valid_acknowledged_hash}
use skret.SyncState.Begin.{any_outcome}
use skret.SyncState.Finalize.{must_demote}
use skret.SyncState.Verify.{phase_awaiting}
use skret.SyncState.Persist.{check_stored, has_metadata}

-- One outcome, under the current operation and the phase.
pub record IsWell (current : Str) (phase : OperationPhase) (o : KeyOutcome) : Type 0 where
  -- a save accepts it
  pub stored : check_stored current phase o ≡ none
  -- a success is one that its capability allows
  pub justified : must_demote o ≡ false
  -- a committed operation has only successes
  pub committed :
      (phase_succeeded phase && str_eq o.operation_id current && not (is_succeeded o.status))
      ≡ false
  -- an operation that awaits verification has metadata throughout
  pub uniform :
      (phase_awaiting phase && str_eq o.operation_id current && not (has_metadata o)) ≡ false

abbrev pub AllWell : Str → OperationPhase → Map KeyOutcome → Type 0
AllWell current phase = All (λ e. IsWell current phase e.1)

abbrev pub is_awaited : Str → KeyOutcome → Bool
is_awaited current o = has_metadata o && str_eq o.operation_id current

-- The fields that no call changes.
abbrev pub HeaderValid : SyncState → Type 0
HeaderValid s =
    ((not (is_empty s.operation_method) && not (valid_operation_reference s.operation_method))
      ≡ false)
    × (ltb 512 (length s.source_identity) ≡ false)
    × ((not (is_empty s.source_digest) && not (valid_acknowledged_hash s.source_digest)) ≡ false)

pub record IsConsistent (s : SyncState) : Type 0 where
  pub header : HeaderValid s
  pub each : AllWell s.operation_id s.phase s.outcomes
  pub waits :
      (phase_awaiting s.phase && not (any_outcome (is_awaited s.operation_id) s.outcomes)) ≡ false
  pub idle : is_empty s.operation_id ≡ true → s.outcomes ≡ []
