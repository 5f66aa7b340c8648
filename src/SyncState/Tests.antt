-- ===== src/SyncState/Tests.antt =====
-- Runs of the journal of internal/syncer/state.go, and its theorems at concrete inputs.
use skret.Base.{
  ◌≡◌, refl, Bool, true, false, List, [], ◌∷◌, Option, none, some, Str, codes, inl, inr, str_eq,
  all_bytes, Bool-cases, if◌then◌else◌, lookup, insert, trim_space, take, not, ◌||◌,
}
use skret.Provider.{Capability, Secret, valid_capability}
use skret.SyncState.{
  OutcomeStatus, ReconciliationState, VerificationState, pos, OperationMetadata, KeyOutcome,
  SyncState, OperationError, phase_succeeded,
}
use skret.SyncState.Metadata.{
  valid_acknowledged_hash, capability_allows_success, validate_persisted, validate,
  valid_operation_reference, check_outcome, valid_verification_states, references_retained,
  generation_promoted, check_promotion, check_reconciliation, owner_risk_approved,
  with_reconciliation, verification_passed, verification_failed, promote_metadata,
}
use skret.SyncState.Begin.{
  begin_operation, has_retained_operation, check_metadata, normalized, any_nil, start_operation,
  operation_pending, check_operation,
}
use skret.SyncState.Record.{
  record_key_success, record_success, owned_outcome, record_owned_success, capability_gate,
  send_to_reconciliation, record_each_success, acknowledge, acknowledge_again,
}
use skret.SyncState.Reconcile.{approve_owner_risk, validate_batch}
use skret.SyncState.Finalize.{record_all_success, finalize_operation, finalize_scan, decide_phase}
use skret.SyncState.Verify.{record_verification, verify_scan}
use skret.SyncState.Invariant.Begin.{IsFresh}
use skret.SyncState.Persist.{
  validate_state, empty_state, check_outcomes, check_stored, check_stored_metadata, check_phase,
}
use skret.SyncState.Call.{
  Call, begin, key_success, all_success, approve, verification, perform, run,
}
use skret.SyncState.Commit.{finalize-hashes, begin-PendingIsCurrent, PendingIsCurrent}
use skret.SyncState.Safety.{RunsFresh, validate_state-run, succeeded-justified}

abbrev digits_a : Str
digits_a = codes "aaaaaaaaaaaaaaaaaaaaaaaaaaaaaaaaaaaaaaaaaaaaaaaaaaaaaaaaaaaaaaaa"

abbrev digits_b : Str
digits_b = codes "bbbbbbbbbbbbbbbbbbbbbbbbbbbbbbbbbbbbbbbbbbbbbbbbbbbbbbbbbbbbbbbb"

-- A stand-in for the keyed hash that tells one value from the others.
abbrev toy_hash : Str → Str
toy_hash v = if str_eq v (codes "one") then digits_a else digits_b

toy_hash-valid : (v : Str) → valid_acknowledged_hash (toy_hash v) ≡ true
unfolding valid_acknowledged_hash all_bytes
toy_hash-valid v = elim (Bool-cases (str_eq v (codes "one"))) [ inl e ↦ rw e | inr e ↦ rw e ]

abbrev guarded : OperationMetadata
guarded = record {
  old_generation = 0;
  current_generation = 3;
  intended_generation = 4;
  lifecycle_label = codes "live";
  kms_envelope_ref = codes "kms/4";
  capability = Capability.owner_risk_gate;
  deadline = some 100;
  attempts = pos 0;
  reconciliation_state = ReconciliationState.unset;
  canary_state = VerificationState.unset;
  postcondition_state = VerificationState.unset;
}

abbrev secret_one : Option Secret
secret_one = some (record { key = codes "A"; value = codes "one" })

-- An owner-risk operation: refused, sent to reconciliation, approved, acknowledged, verified.
abbrev approved_calls : List Call
approved_calls =
    begin (codes "op-1") [] (secret_one ∷ []) 10 (some guarded)
    ∷ key_success (codes "op-1") secret_one 11
    ∷ approve (codes "op-1") (codes "A") 12
    ∷ all_success (codes "op-1") (secret_one ∷ []) 13
    ∷ verification (codes "op-1") true true 14
    ∷ begin (codes "op-2") [] (secret_one ∷ []) 20 none
    ∷ []

abbrev reached : SyncState
reached = run toy_hash false (empty_state (codes "github") (codes "o/r")) approved_calls

-- All that a run calls.
executes : Bool
unfolding run perform begin_operation has_retained_operation check_metadata normalized validate
    valid_capability valid_operation_reference all_bytes trim_space any_nil start_operation
    operation_pending insert lookup str_eq record_key_success check_operation record_success
    owned_outcome record_owned_success check_outcome validate_persisted valid_verification_states
    references_retained generation_promoted check_promotion check_reconciliation capability_gate
    owner_risk_approved send_to_reconciliation with_reconciliation approve_owner_risk
    record_all_success validate_batch record_each_success acknowledge acknowledge_again
    finalize_operation finalize_scan decide_phase capability_allows_success valid_acknowledged_hash
    verification_passed verification_failed record_verification verify_scan promote_metadata
    validate_state check_outcomes check_stored check_stored_metadata check_phase
executes = true

reached-hash : lookup (codes "A") reached.hashes ≡ some digits_a
unfolding executes
reached-hash = refl

empty_state-IsFresh : IsFresh (codes "op-1") (empty_state (codes "github") (codes "o/r"))
unfolding executes
empty_state-IsFresh = record { not_current = refl; unused = refl }

approved_calls-RunsFresh :
    RunsFresh toy_hash (empty_state (codes "github") (codes "o/r")) approved_calls
unfolding executes
approved_calls-RunsFresh = (
  empty_state-IsFresh,
  (tt, (tt, (tt, (tt, (record { not_current = refl; unused = refl }, tt))))),
)

validate_state-run_example : validate_state reached ≡ none
validate_state-run_example =
    validate_state-run toy_hash toy_hash-valid (codes "github") (codes "o/r") approved_calls
      approved_calls-RunsFresh

-- The same up to the verification.
abbrev verified_calls : List Call
verified_calls = take 5 approved_calls

verified_calls-RunsFresh :
    RunsFresh toy_hash (empty_state (codes "github") (codes "o/r")) verified_calls
unfolding executes
verified_calls-RunsFresh = (empty_state-IsFresh, (tt, (tt, (tt, (tt, tt)))))

abbrev promoted : KeyOutcome
promoted = record {
  status = OutcomeStatus.succeeded;
  operation_id = codes "op-1";
  updated_at = 14;
  metadata = some (record guarded {
    old_generation = 0;
    current_generation = 4;
    lifecycle_label = [];
    kms_envelope_ref = [];
    deadline = none;
    reconciliation_state = ReconciliationState.approved;
    canary_state = VerificationState.passed;
    postcondition_state = VerificationState.passed;
  });
  acknowledged_hash = [];
}

lookup-promoted :
    lookup
      (codes "A")
      (run toy_hash false (empty_state (codes "github") (codes "o/r")) verified_calls).outcomes
    ≡ some promoted
unfolding executes
lookup-promoted = refl

succeeded-justified_example : capability_allows_success promoted ≡ true
succeeded-justified_example =
    succeeded-justified toy_hash toy_hash-valid (codes "github") (codes "o/r") verified_calls
      verified_calls-RunsFresh (codes "A") promoted lookup-promoted refl

-- An operation without metadata, acknowledged but not finalized.
abbrev plain_state : SyncState
plain_state = run toy_hash false (empty_state (codes "github") (codes "o/r")) (
    begin (codes "op-1") [] (secret_one ∷ []) 10 none
    ∷ key_success (codes "op-1") secret_one 11
    ∷ [])

abbrev plain_final : SyncState
plain_final = (finalize_operation plain_state (codes "op-1") 12).0

abbrev plain_outcome : KeyOutcome
plain_outcome = record {
  status = OutcomeStatus.succeeded;
  operation_id = codes "op-1";
  updated_at = 11;
  metadata = none;
  acknowledged_hash = [];
}

-- The guarded operation after its acknowledgement and before its verification.
abbrev waiting_state : SyncState
waiting_state =
    run toy_hash false (empty_state (codes "github") (codes "o/r")) (take 4 approved_calls)

abbrev waiting_final : SyncState
waiting_final = (finalize_operation waiting_state (codes "op-1") 12).0

waiting-outside :
    (phase_succeeded waiting_state.phase || not (phase_succeeded waiting_final.phase)) ≡ true
unfolding executes
waiting-outside = refl

finalize-hashes_example : waiting_final.hashes ≡ waiting_state.hashes
finalize-hashes_example = finalize-hashes waiting_state (codes "op-1") 12 waiting-outside

-- An operation that is interrupted before any acknowledgement, and the next one.
abbrev started_state : SyncState
started_state =
    run toy_hash false (empty_state (codes "github") (codes "o/r"))
      (begin (codes "op-1") [] (secret_one ∷ []) 10 none ∷ [])

abbrev second_secrets : List (Option Secret)
second_secrets = some (record { key = codes "B"; value = codes "two" }) ∷ []

abbrev second_state : SyncState
second_state = (begin_operation started_state (codes "op-2") [] second_secrets 20 none).0

second-returns :
    begin_operation started_state (codes "op-2") [] second_secrets 20 none ≡ (second_state, none)
unfolding executes
second-returns = refl

started-busy : PendingIsCurrent true started_state.operation_id started_state.outcomes
unfolding executes
started-busy = (refl, tt)

begin-PendingIsCurrent_example :
    (second_state.operation_id ≡ codes "op-2")
    × PendingIsCurrent (not (operation_pending started_state)) (codes "op-2") second_state.outcomes
begin-PendingIsCurrent_example =
    begin-PendingIsCurrent started_state second_state (codes "op-2") [] second_secrets 20 none
      second-returns started-busy

-- Under an ephemeral hash key a repeated acknowledgement of a promoted key stores its hash again,
-- and a save refuses the journal.
ephemeral-repeat :
    validate_state
      (record_key_success toy_hash true
        (run toy_hash true (empty_state (codes "github") (codes "o/r")) verified_calls)
        (codes "op-1")
        secret_one
        15).0
    ≡ some OperationError.success_not_promoted
unfolding executes
ephemeral-repeat = refl

-- Under a stable key the same repetition is an error.
stable-repeat :
    (record_key_success toy_hash false
      (run toy_hash false (empty_state (codes "github") (codes "o/r")) verified_calls)
      (codes "op-1")
      secret_one
      15).1
    ≡ some OperationError.key_mismatch
unfolding executes
stable-repeat = refl
