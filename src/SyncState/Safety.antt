-- ===== src/SyncState/Safety.antt =====
-- What holds of the journal of internal/syncer/state.go after any calls of its methods.
use skret.Base.{
  ℕ, ◌≡◌, refl, arith, Bool, true, false, not, ◌&&◌, ◌||◌, List, [], ◌∷◌, Option, none, some, Str,
  Map, str_eq, inl, inr, Option-cases, lookup, All-lookup,
}
use skret.Provider.{Secret}
use skret.SyncState.{OperationPhase, KeyOutcome, SyncState, is_succeeded}
use skret.SyncState.Metadata.{valid_acknowledged_hash, capability_allows_success}
use skret.SyncState.Begin.{any_outcome, check_operation}
use skret.SyncState.Finalize.{must_demote, record_all_success}
use skret.SyncState.Verify.{phase_awaiting}
use skret.SyncState.Record.{record_each_success}
use skret.SyncState.Reconcile.{validate_batch}
use skret.SyncState.Persist.{validate_state, check_outcomes, has_metadata, empty_state}
use skret.SyncState.Call.{
  Call, begin, key_success, all_success, key_reconciliation, all_reconciliation, approve,
  verification, finalize, perform, run,
}
use skret.SyncState.Invariant.{IsWell, AllWell, IsConsistent, is_awaited}
use skret.SyncState.Invariant.Batch.{
  record_key_success-IsKept, record_each_success-IsKept, record_key_reconciliation-IsKept,
  record_needs_reconciliation-IsKept, approve_owner_risk-IsKept,
}
use skret.SyncState.Invariant.Verify.{record_verification-IsKept}
use skret.SyncState.Invariant.Settle.{finalize_operation-IsKept}
use skret.SyncState.Invariant.Begin.{IsFresh, begin_operation-IsConsistent}

-- The identifier of an operation that a call begins is a new one; `NewOperationID` draws it at
-- random.
abbrev pub BeginsFresh : SyncState → Call → Type 0
BeginsFresh s (begin op intent secrets t metadata) = IsFresh op s
BeginsFresh s _ = Unit

-- Every call of the list begins with a new identifier, if it begins an operation.
abbrev pub RunsFresh : (Str → Str) → SyncState → List Call → Type 0
RunsFresh hash_secret s [] = Unit
RunsFresh hash_secret s (call ∷ calls) =
    BeginsFresh s call × RunsFresh hash_secret (perform hash_secret false s call).0 calls

module _ (hash_secret : Str → Str)
    (hash_valid : (v : Str) → valid_acknowledged_hash (hash_secret v) ≡ true) where
  record_all_success-IsConsistent :
      (s : SyncState) (op : Str) (secrets : List (Option Secret)) (t : ℕ)
      → IsConsistent s
      → IsConsistent (record_all_success hash_secret false s op secrets t).0
  unfolding record_all_success
  record_all_success-IsConsistent s op secrets t c = elim (Option-cases (check_operation s op)) [
    | inr (e, q) ↦ rw (q, record_all_success) c
    | inl q ↦ elim (Option-cases (validate_batch true s op secrets)) [
      | inr (e, b) ↦ rw (q, b, record_all_success) c
      | inl b ↦
          let k = record_each_success-IsKept hash_secret hash_valid secrets s op t c q in
          elim (Option-cases (record_each_success hash_secret false s op secrets t).1) [
            | inr (e, x) ↦ rw (q, b, x, record_all_success) k.consistent
            | inl x ↦
                rw (q, b, x, record_all_success)
                  (finalize_operation-IsKept
                    (record_each_success hash_secret false s op secrets t).0 op t
                    k.consistent).consistent
          ]
    ]
  ]

  perform-IsConsistent :
      (s : SyncState) (call : Call)
      → IsConsistent s
      → BeginsFresh s call
      → IsConsistent (perform hash_secret false s call).0
  unfolding perform
  perform-IsConsistent s (begin op intent secrets t metadata) c f =
      begin_operation-IsConsistent s op intent secrets t metadata c f
  perform-IsConsistent s (key_success op secret t) c f =
      (record_key_success-IsKept s c op hash_secret hash_valid secret t).consistent
  perform-IsConsistent s (all_success op secrets t) c f =
      record_all_success-IsConsistent s op secrets t c
  perform-IsConsistent s (key_reconciliation op secret t) c f =
      (record_key_reconciliation-IsKept s c op secret t).consistent
  perform-IsConsistent s (all_reconciliation op secrets t) c f =
      (record_needs_reconciliation-IsKept s c op secrets t).consistent
  perform-IsConsistent s (approve op key t) c f =
      (approve_owner_risk-IsKept s c op key t).consistent
  perform-IsConsistent s (verification op canary post t) c f =
      (record_verification-IsKept s op canary post t c).consistent
  perform-IsConsistent s (finalize op t) c f = (finalize_operation-IsKept s op t c).consistent

  run-IsConsistent :
      (calls : List Call) (s : SyncState)
      → IsConsistent s
      → RunsFresh hash_secret s calls
      → IsConsistent (run hash_secret false s calls)
  unfolding run
  run-IsConsistent [] s c f = c
  run-IsConsistent (call ∷ calls) s c f =
      run-IsConsistent calls (perform hash_secret false s call).0
        (perform-IsConsistent s call c f.0) f.1

check_outcomes-none :
    (current : Str) (phase : OperationPhase) (m : Map KeyOutcome) (found : Bool)
    → AllWell current phase m
    → (phase_awaiting phase && not (found || any_outcome (is_awaited current) m)) ≡ false
    → check_outcomes current phase found m ≡ none
unfolding check_outcomes any_outcome
check_outcomes-none current phase [] found w h = ground (arith, h)
check_outcomes-none current phase ((k, o) ∷ m) found w h = ground (
  arith,
  w.0.stored,
  check_outcomes-none current phase m (found || has_metadata o && str_eq o.operation_id current)
      w.1,
)

validate_state-IsConsistent : (s : SyncState) → IsConsistent s → validate_state s ≡ none
unfolding validate_state
validate_state-IsConsistent s c =
    ground
      (arith, c.header, check_outcomes-none s.operation_id s.phase s.outcomes false c.each c.waits)

empty-IsConsistent : (target id : Str) → IsConsistent (empty_state target id)
empty-IsConsistent target id = record {
  header = (refl, refl, refl);
  each = tt;
  waits = refl;
  idle = λ _. refl;
}

module _ (hash_secret : Str → Str)
    (hash_valid : (v : Str) → valid_acknowledged_hash (hash_secret v) ≡ true) (target id : Str)
    (calls : List Call) (fresh : RunsFresh hash_secret (empty_state target id) calls) where
  reached : IsConsistent (run hash_secret false (empty_state target id) calls)
  reached =
      run-IsConsistent hash_secret hash_valid calls (empty_state target id)
        (empty-IsConsistent target id) fresh

  -- Let hashes be 64 lower-case hexadecimal digits under a hash key that is not ephemeral. From the
  -- empty journal of a target, whatever methods are called, in whatever order and with whatever
  -- arguments and errors, as long as each `BeginOperation` brings an identifier that the journal
  -- does not hold: the check that a save makes of the journal accepts it.
  pub validate_state-run :
      validate_state (run hash_secret false (empty_state target id) calls) ≡ none
  validate_state-run = validate_state-IsConsistent _ reached

  -- Let hashes be 64 lower-case hexadecimal digits under a hash key that is not ephemeral. From the
  -- empty journal of a target, whatever methods are called, in whatever order and with whatever
  -- arguments and errors, as long as each `BeginOperation` brings an identifier that the journal
  -- does not hold: every outcome that the journal holds as succeeded is one whose write capability
  -- allows success: none without metadata aside, it is native compare-and-swap, enforced exclusive,
  -- or an owner-risk gate that was approved.
  pub succeeded-justified :
      (key : Str) (o : KeyOutcome)
      → lookup key (run hash_secret false (empty_state target id) calls).outcomes ≡ some o
      → is_succeeded o.status ≡ true
      → capability_allows_success o ≡ true
  unfolding must_demote
  succeeded-justified key o found st =
      let w = All-lookup (IsWell _ _) key o _ found reached.each in ground (arith, w.justified)
