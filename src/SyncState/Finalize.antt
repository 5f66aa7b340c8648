-- ===== src/SyncState/Finalize.antt =====
-- internal/syncer/state.go: `FinalizeOperation` and `RecordSuccess`.
-- The first loop runs over the map while it changes it: the model walks the entries in the map's
-- order and returns the entries with the changes made up to an error.
use skret.Base.{
  ℕ, suc, Bool, true, false, not, ◌&&◌, ◌||◌, List, [], ◌∷◌, Option, none, some, Str, Map, ◌==◌,
  ltb, if◌then◌else◌, str_eq, insert,
}
use skret.Provider.{Secret}
use skret.SyncState.{
  OperationPhase, OperationMetadata, KeyOutcome, SyncState, OperationError, Returned, is_succeeded,
  is_needs_reconciliation, phase_succeeded, first_error,
}
use skret.SyncState.Metadata.{
  validate_persisted, references_retained, verification_passed, verification_failed,
  valid_acknowledged_hash, capability_allows_success, promote_metadata,
}
use skret.SyncState.Begin.{check_operation}
use skret.SyncState.Record.{demote, record_each_success}
use skret.SyncState.Reconcile.{validate_batch}

-- What the first loop of `FinalizeOperation` counts.
pub record Tally : Type 0 where
  pub owned : ℕ
  pub metadata_owned : ℕ
  pub has_pending : Bool
  pub has_needs_reconciliation : Bool
  pub verification_pending : Bool
  pub verification_failed : Bool

abbrev pub no_tally : Tally
no_tally = record {
  owned = 0;
  metadata_owned = 0;
  has_pending = false;
  has_needs_reconciliation = false;
  verification_pending = false;
  verification_failed = false;
}

-- Why the loop gives up at an owned outcome.
unfoldable pub finalize_check : KeyOutcome → Option OperationError
finalize_check o = elim o.metadata [
  | none ↦ none
  | some m ↦ first_error (validate_persisted m o.status) (
      if is_succeeded o.status
        && references_retained m
        && not (valid_acknowledged_hash o.acknowledged_hash)
      then some OperationError.acknowledgement_missing
      else none)
]

-- Is the outcome a success that its capability does not allow?
unfoldable pub must_demote : KeyOutcome → Bool
must_demote o = is_succeeded o.status && not (capability_allows_success o)

unfoldable pub count_metadata : Option OperationMetadata → Tally → Tally
count_metadata none t = t
count_metadata (some m) t = record t {
  metadata_owned = suc t.metadata_owned;
  verification_pending = t.verification_pending || not (verification_passed m);
  verification_failed = t.verification_failed || verification_failed m;
}

-- What the loop adds for an owned outcome.
unfoldable pub count_outcome : KeyOutcome → Tally → Tally
unfolding count_metadata must_demote
count_outcome o t =
    let u = count_metadata o.metadata (record t { owned = suc t.owned }) in
    record u {
      has_pending =
          u.has_pending || not (is_succeeded o.status) && not (is_needs_reconciliation o.status);
      has_needs_reconciliation =
          u.has_needs_reconciliation || is_needs_reconciliation o.status || must_demote o;
    }

-- The entries after the loop, and its count or its error.
pub data Scan : Type 0 where
  counted : Map KeyOutcome → Tally → Scan
  stopped : Map KeyOutcome → OperationError → Scan

abbrev pub keep_entry : Str → KeyOutcome → Scan → Scan
keep_entry k o (counted m t) = counted ((k, o) ∷ m) t
keep_entry k o (stopped m e) = stopped ((k, o) ∷ m) e

-- The first loop of `FinalizeOperation`.
unfoldable pub finalize_scan : Str → ℕ → Map KeyOutcome → Tally → Scan
unfolding finalize_check must_demote count_outcome
finalize_scan operation_id completed [] t = counted [] t
finalize_scan operation_id completed ((k, o) ∷ m) t =
    let skipped = keep_entry k o (finalize_scan operation_id completed m t) in
    let kept =
      keep_entry k (if must_demote o then demote o completed else o)
        (finalize_scan operation_id completed m (count_outcome o t)) in
    if not (str_eq o.operation_id operation_id)
    then skipped
    else elim (finalize_check o) [ some e ↦ stopped ((k, o) ∷ m) e | none ↦ kept ]

-- The second loop: the owned successes with metadata give their hash to the drift cache.
unfoldable pub is_promotable : Str → KeyOutcome → Bool
is_promotable operation_id o = str_eq o.operation_id operation_id && is_succeeded o.status

unfoldable pub promote_hashes : Str → Map KeyOutcome → Map Str → Map Str
unfolding is_promotable
promote_hashes operation_id [] hashes = hashes
promote_hashes operation_id ((k, o) ∷ m) hashes = promote_hashes operation_id m (
    if is_promotable operation_id o
    then elim o.metadata [ none ↦ hashes | some _ ↦ insert k o.acknowledged_hash hashes ]
    else hashes)

unfoldable pub promote_outcome : Str → KeyOutcome → KeyOutcome
unfolding is_promotable
promote_outcome operation_id o =
    if is_promotable operation_id o
    then elim o.metadata [
      | none ↦ o
      | some m ↦ record o { acknowledged_hash = []; metadata = some (promote_metadata m) }
    ]
    else o

unfoldable pub promote_all : Str → Map KeyOutcome → Map KeyOutcome
unfolding promote_outcome
promote_all operation_id [] = []
promote_all operation_id ((k, o) ∷ m) =
    (k, promote_outcome operation_id o) ∷ promote_all operation_id m

abbrev pub or_now : Option ℕ → ℕ → Option ℕ
or_now none now = some now
or_now (some t) now = some t

abbrev pub with_phase : SyncState → OperationPhase → Option ℕ → SyncState
with_phase s phase completed_at = record s { phase = phase; completed_at = completed_at }

-- The success of the whole operation.
unfoldable pub commit_operation : SyncState → Str → ℕ → SyncState
unfolding promote_hashes promote_all
commit_operation s operation_id completed = if phase_succeeded s.phase then s else record s {
  hashes = promote_hashes operation_id s.outcomes s.hashes;
  outcomes = promote_all operation_id s.outcomes;
  phase = OperationPhase.succeeded;
  completed_at = some completed;
  last_success = some completed;
}

-- What `FinalizeOperation` decides behind the first loop; `s` has the entries after it.
unfoldable pub decide_phase : SyncState → Str → ℕ → Tally → Returned
unfolding commit_operation
decide_phase s operation_id completed t =
    if t.owned == 0
    then (s, some OperationError.empty)
    else if not (t.metadata_owned == 0) && not (t.metadata_owned == t.owned)
    then (s, some OperationError.phase_mismatch)
    else if t.has_needs_reconciliation || t.verification_failed
    then (with_phase s OperationPhase.needs_reconciliation (or_now s.completed_at completed), none)
    else if t.has_pending
    then (with_phase s OperationPhase.pending none, none)
    else if ltb 0 t.metadata_owned && t.verification_pending
    then (with_phase s OperationPhase.awaiting_verification none, none)
    else (commit_operation s operation_id completed, none)

-- `FinalizeOperation`
unfoldable pub finalize_operation : SyncState → Str → ℕ → Returned
unfolding decide_phase
finalize_operation s operation_id completed = elim (check_operation s operation_id) [
  | some e ↦ (s, some e)
  | none ↦ elim (finalize_scan operation_id completed s.outcomes no_tally) [
    | stopped m e ↦ (record s { outcomes = m }, some e)
    | counted m t ↦ decide_phase (record s { outcomes = m }) operation_id completed t
  ]
]

-- `RecordSuccess`
unfoldable pub record_all_success :
    (Str → Str) → Bool → SyncState → Str → List (Option Secret) → ℕ → Returned
record_all_success hash_secret ephemeral s operation_id secrets completed =
    elim (check_operation s operation_id) [
      | some e ↦ (s, some e)
      | none ↦ elim (validate_batch true s operation_id secrets) [
        | some e ↦ (s, some e)
        | none ↦
            let r = record_each_success hash_secret ephemeral s operation_id secrets completed in
            elim r.1 [
              | some e ↦ (r.0, some e)
              | none ↦ finalize_operation r.0 operation_id completed
            ]
      ]
    ]
