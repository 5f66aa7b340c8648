-- ===== src/SyncState/Persist.antt =====
-- internal/syncer/state.go: the check that `SaveSyncState` and `LoadSyncState` make of a journal,
-- the reset at a change of the hash key, and the drift filter. Files and JSON are left out: a load
-- is given the journal that the file holds, or none where there is no file.
use skret.Base.{
  ℕ, Bool, true, false, not, ◌&&◌, ◌||◌, List, [], ◌∷◌, Option, none, some, Str, Map, ltb,
  if◌then◌else◌, is_empty, str_eq, length, lookup, insert,
}
use skret.Provider.{Secret}
use skret.SyncState.{
  OperationPhase, OperationMetadata, KeyOutcome, SyncState, OperationError, is_succeeded,
  first_error,
}
use skret.SyncState.Metadata.{
  valid_operation_reference, valid_acknowledged_hash, references_retained, generation_promoted,
  verification_failed, validate_persisted,
}
use skret.SyncState.Verify.{phase_awaiting}

-- The switch on the phase, for metadata of the current operation.
unfoldable pub check_phase : OperationPhase → KeyOutcome → OperationMetadata → Option OperationError
check_phase OperationPhase.succeeded o m =
    if not (generation_promoted m) || not (is_empty o.acknowledged_hash)
    then some OperationError.success_not_promoted
    else none
check_phase OperationPhase.awaiting_verification o m =
    if not (is_succeeded o.status)
      || not (references_retained m)
      || not (valid_acknowledged_hash o.acknowledged_hash)
      || verification_failed m
    then some OperationError.wait_invalid
    else none
check_phase _ o m = if generation_promoted m then some OperationError.premature_promotion else none

-- The body of the loop over the outcomes, where there is metadata.
unfoldable pub check_stored_metadata :
    Str → OperationPhase → KeyOutcome → OperationMetadata → Option OperationError
check_stored_metadata current phase o m = first_error (validate_persisted m o.status) (
    if not (is_empty o.acknowledged_hash) && not (valid_acknowledged_hash o.acknowledged_hash)
    then some OperationError.hash_invalid
    else if references_retained m && not (str_eq o.operation_id current)
    then some OperationError.orphaned_generation
    else if not (str_eq o.operation_id current)
    then none
    else check_phase phase o m)

-- The body of the loop over the outcomes.
unfoldable pub check_stored : Str → OperationPhase → KeyOutcome → Option OperationError
check_stored current phase o = elim o.metadata [
  | none ↦ if not (is_empty o.acknowledged_hash) then some OperationError.unexpected_hash else none
  | some m ↦ check_stored_metadata current phase o m
]

abbrev pub has_metadata : KeyOutcome → Bool
has_metadata o = elim o.metadata [ none ↦ false | some _ ↦ true ]

-- The loop over the outcomes; the flag is `currentMetadata != 0`.
unfoldable pub check_outcomes : Str → OperationPhase → Bool → Map KeyOutcome → Option OperationError
check_outcomes current phase found [] =
    if phase_awaiting phase && not found then some OperationError.verification_required else none
check_outcomes current phase found ((k, o) ∷ m) =
    first_error (check_stored current phase o)
      (check_outcomes current phase (found || has_metadata o && str_eq o.operation_id current) m)

-- `validatePersistedOperationMetadata`
unfoldable pub validate_state : SyncState → Option OperationError
validate_state s =
    if not (is_empty s.operation_method) && not (valid_operation_reference s.operation_method)
    then some OperationError.method_invalid
    else if ltb 512 (length s.source_identity)
    then some OperationError.identity_too_long
    else if not (is_empty s.source_digest) && not (valid_acknowledged_hash s.source_digest)
    then some OperationError.digest_invalid
    else check_outcomes s.operation_id s.phase false s.outcomes

-- The journal of a target that has no file yet.
abbrev pub empty_state : Str → Str → SyncState
empty_state target id = record {
  target = target;
  id = id;
  hashes = [];
  updated = 0;
  hash_domain = [];
  operation_method = [];
  source_identity = [];
  source_digest = [];
  operation_id = [];
  phase = OperationPhase.unset;
  intent = [];
  started_at = none;
  completed_at = none;
  last_success = none;
  outcomes = [];
}

-- What a load forgets where the hashes are of another key.
unfoldable pub reset_domain : Str → SyncState → SyncState
reset_domain domain s = if str_eq s.hash_domain domain then s else record s {
  hash_domain = domain;
  hashes = [];
  source_digest = [];
  operation_id = [];
  phase = OperationPhase.unset;
  intent = [];
  started_at = none;
  completed_at = none;
  last_success = none;
  outcomes = [];
}

pub data Loaded : Type 0 where
  loaded : SyncState → Loaded
  failed : OperationError → Loaded

unfoldable pub load_stored : Str → Str → Str → SyncState → Loaded
unfolding reset_domain
load_stored domain target id s =
    if not (str_eq s.target target) || not (str_eq s.id id)
    then failed OperationError.identity_mismatch
    else elim (validate_state (reset_domain domain s)) [
      | some e ↦ failed e
      | none ↦ loaded (reset_domain domain s)
    ]

-- `LoadSyncState`, under the domain of the active hash key.
unfoldable pub load_state : Str → Str → Str → Option SyncState → Loaded
unfolding load_stored
load_state domain target id none = loaded (empty_state target id)
load_state domain target id (some s) = load_stored domain target id s

pub data Saved : Type 0 where
  saved : SyncState → Saved
  refused : OperationError → Saved

-- `SaveSyncState`: what goes to the file, at the time `now`.
unfoldable pub save_state : Str → ℕ → SyncState → Saved
save_state domain now s = elim (validate_state s) [
  | some e ↦ refused e
  | none ↦ saved (record s { hash_domain = domain; updated = now })
]

module _ (hash_secret : Str → Str) where
  -- A missing hash reads as the empty text.
  unfoldable pub hash_of : Map Str → Str → Str
  hash_of hashes key = elim (lookup key hashes) [ none ↦ [] | some h ↦ h ]

  -- `FilterUnchanged`
  unfoldable pub filter_unchanged : SyncState → List Secret → List Secret
  filter_unchanged s [] = []
  filter_unchanged s (secret ∷ secrets) =
      let rest = filter_unchanged s secrets in
      if not (str_eq (hash_of s.hashes secret.key) (hash_secret secret.value))
      then secret ∷ rest
      else rest

  -- The loop of `Update`.
  unfoldable pub update_hashes : List Secret → Map Str → Map Str
  update_hashes [] hashes = hashes
  update_hashes (secret ∷ secrets) hashes =
      update_hashes secrets (insert secret.key (hash_secret secret.value) hashes)

  -- `Update`
  unfoldable pub update : SyncState → List Secret → SyncState
  unfolding update_hashes
  update s secrets = record s { hashes = update_hashes secrets s.hashes }
