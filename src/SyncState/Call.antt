-- ===== src/SyncState/Call.antt =====
-- The methods of `SyncState` (internal/syncer/state.go) as calls that a client makes one after the
-- other, whatever error each returns.
use skret.Base.{ℕ, Bool, List, [], ◌∷◌, Option, Str}
use skret.Provider.{Secret}
use skret.SyncState.{OperationMetadata, SyncState, Returned}
use skret.SyncState.Begin.{begin_operation}
use skret.SyncState.Record.{record_key_success}
use skret.SyncState.Reconcile.{
  record_key_reconciliation, record_needs_reconciliation, approve_owner_risk,
}
use skret.SyncState.Finalize.{finalize_operation, record_all_success}
use skret.SyncState.Verify.{record_verification}

pub data Call : Type 0 where
  -- `BeginOperation`, `BeginOperationWithIntent` and `BeginOperationWithMetadata`: the operation,
  -- its intent, the secrets, the start and the metadata
  begin : Str → Str → List (Option Secret) → ℕ → Option OperationMetadata → Call
  key_success : Str → Option Secret → ℕ → Call
  all_success : Str → List (Option Secret) → ℕ → Call
  key_reconciliation : Str → Option Secret → ℕ → Call
  all_reconciliation : Str → List (Option Secret) → ℕ → Call
  approve : Str → Str → ℕ → Call
  verification : Str → Bool → Bool → ℕ → Call
  finalize : Str → ℕ → Call

module _ (hash_secret : Str → Str) (ephemeral : Bool) where
  unfoldable pub perform : SyncState → Call → Returned
  perform s (begin op intent secrets t metadata) = begin_operation s op intent secrets t metadata
  perform s (key_success op secret t) = record_key_success hash_secret ephemeral s op secret t
  perform s (all_success op secrets t) = record_all_success hash_secret ephemeral s op secrets t
  perform s (key_reconciliation op secret t) = record_key_reconciliation s op secret t
  perform s (all_reconciliation op secrets t) = record_needs_reconciliation s op secrets t
  perform s (approve op key t) = approve_owner_risk s op key t
  perform s (verification op canary post t) = record_verification s op canary post t
  perform s (finalize op t) = finalize_operation s op t

  -- The state after a list of calls.
  unfoldable pub run : SyncState → List Call → SyncState
  run s [] = s
  run s (c ∷ calls) = run (perform s c).0 calls
