-- ===== src/SyncState/Record.antt =====
-- internal/syncer/state.go: `RecordKeySuccess` and the loop of `RecordSuccess`. `hash_secret` and `ephemeral` are what the source has from
-- `hashSecret` (HMAC-SHA256 under the installation's key, in hexadecimal) and `hashKeyIsEphemeral`.
use skret.Base.{
  ℕ, Bool, false, not, ◌&&◌, List, [], ◌∷◌, Option, none, some, Str, ltb, if◌then◌else◌, is_empty,
  str_eq, trim_space, lookup, insert,
}
use skret.Provider.{Capability, Secret}
use skret.SyncState.{
  OutcomeStatus, OperationPhase, OperationMetadata, KeyOutcome, SyncState, OperationError, Returned,
  is_succeeded, is_needs_reconciliation,
}
use skret.SyncState.Metadata.{check_outcome, owner_risk_approved, with_reconciliation}
use skret.SyncState.Begin.{check_operation}

-- The result of `ownedOutcome`: the outcome with the secret that it is of, or an error.
pub data Owned : Type 0 where
  own : Secret → KeyOutcome → Owned
  refuse : OperationError → Owned

-- The outcome of `key`, if the operation owns it.
unfoldable pub owned_by : Str → Secret → Option KeyOutcome → Owned
owned_by operation_id secret none = refuse OperationError.key_mismatch
owned_by operation_id secret (some o) =
    if not (str_eq o.operation_id operation_id)
    then refuse OperationError.key_mismatch
    else own secret o

-- `ownedOutcome`
unfoldable pub owned_outcome : SyncState → Str → Option Secret → Owned
unfolding owned_by
owned_outcome s operation_id none = refuse OperationError.nil_secret
owned_outcome s operation_id (some secret) =
    if is_empty (trim_space secret.key)
    then refuse OperationError.key_required
    else owned_by operation_id secret (lookup secret.key s.outcomes)

abbrev pub put_outcome : SyncState → Str → KeyOutcome → SyncState
put_outcome s key o = record s { outcomes = insert key o s.outcomes }

-- An outcome that goes to reconciliation.
abbrev pub demote : KeyOutcome → ℕ → KeyOutcome
demote o completed = record o {
  status = OutcomeStatus.needs_reconciliation;
  updated_at = completed;
  metadata = with_reconciliation o.metadata;
}

-- The outcome is stored for reconciliation, and the phase follows it.
unfoldable pub send_to_reconciliation : SyncState → Str → KeyOutcome → ℕ → SyncState
send_to_reconciliation s key o completed = record s {
  outcomes = insert key (demote o completed) s.outcomes;
  phase = OperationPhase.needs_reconciliation;
  completed_at = some completed;
}

-- `rejectCapability`
unfoldable pub reject_capability : SyncState → Str → KeyOutcome → ℕ → OperationError → Returned
unfolding send_to_reconciliation
reject_capability s key o completed rejection =
    if not (is_needs_reconciliation o.status)
    then (send_to_reconciliation s key o completed, some rejection)
    else (s, some rejection)

-- Is the deadline over? (`completed.After(*outcome.Metadata.Deadline)`, where there is one.)
unfoldable pub deadline_over : Option OperationMetadata → ℕ → Bool
deadline_over none completed = false
deadline_over (some m) completed = elim m.deadline [ none ↦ false | some d ↦ ltb d completed ]

-- The switch of `recordKeySuccess` on the capability: the rejection, if it is one.
unfoldable pub capability_gate : KeyOutcome → Option OperationError
capability_gate o = elim o.metadata [
  | none ↦ none
  | some m ↦ elim m.capability [
    | Capability.native_cas ↦ none
    | Capability.enforced_exclusive ↦ none
    | Capability.owner_risk_gate ↦
        if not (owner_risk_approved o)
        then some OperationError.owner_risk_approval_required
        else none
    | Capability.blocked ↦ some OperationError.capability_blocked
    | Capability.unknown _ ↦ some OperationError.capability_invalid
  ]
]

module _ (hash_secret : Str → Str) (ephemeral : Bool) where
  -- `Update` for one secret.
  abbrev pub update_hash : SyncState → Secret → SyncState
  update_hash s secret = record s { hashes = insert secret.key (hash_secret secret.value) s.hashes }

  -- An acknowledgement of a key that has succeeded already.
  unfoldable pub acknowledge_again : SyncState → Secret → KeyOutcome → Returned
  acknowledge_again s secret o = elim o.metadata [
    | none ↦ (s, none)
    | some m ↦
        if str_eq o.acknowledged_hash (hash_secret secret.value)
        then (s, none)
        else if ephemeral
        then (
          put_outcome s secret.key (record o { acknowledged_hash = hash_secret secret.value }),
          none,
        )
        else (s, some OperationError.key_mismatch)
  ]

  -- The first acknowledgement of a key: the drift cache is updated at once only where no
  -- metadata waits for verification.
  unfoldable pub acknowledge : SyncState → Secret → KeyOutcome → ℕ → SyncState
  acknowledge s secret o completed = elim o.metadata [
    | none ↦
        put_outcome (update_hash s secret) secret.key
          (record o { status = OutcomeStatus.succeeded; updated_at = completed })
    | some m ↦ put_outcome s secret.key (record o {
      status = OutcomeStatus.succeeded;
      updated_at = completed;
      acknowledged_hash = hash_secret secret.value;
    })
  ]

  -- `recordKeySuccess` behind `ownedOutcome`.
  unfoldable pub record_owned_success : SyncState → Secret → KeyOutcome → ℕ → Returned
  unfolding reject_capability deadline_over
  record_owned_success s secret o completed = elim (check_outcome o) [
    | some e ↦ (s, some e)
    | none ↦
        if is_succeeded o.status
        then acknowledge_again s secret o
        else if deadline_over o.metadata completed
        then reject_capability s secret.key o completed OperationError.deadline_exceeded
        else elim (capability_gate o) [
          | some e ↦ reject_capability s secret.key o completed e
          | none ↦
              if is_needs_reconciliation o.status && not (owner_risk_approved o)
              then (s, some OperationError.phase_mismatch)
              else (acknowledge s secret o completed, none)
        ]
  ]

  -- `recordKeySuccess`
  unfoldable pub record_success : SyncState → Str → Option Secret → ℕ → Returned
  record_success s operation_id secret completed = elim (owned_outcome s operation_id secret) [
    | refuse e ↦ (s, some e)
    | own sec o ↦ record_owned_success s sec o completed
  ]

  -- `RecordKeySuccess`
  unfoldable pub record_key_success : SyncState → Str → Option Secret → ℕ → Returned
  record_key_success s operation_id secret completed = elim (check_operation s operation_id) [
    | some e ↦ (s, some e)
    | none ↦ record_success s operation_id secret completed
  ]

  -- The loop of `RecordSuccess` over the secrets.
  unfoldable pub record_each_success : SyncState → Str → List (Option Secret) → ℕ → Returned
  record_each_success s operation_id [] completed = (s, none)
  record_each_success s operation_id (secret ∷ secrets) completed =
      let r = record_success s operation_id secret completed in
      elim r.1 [
        | some e ↦ (r.0, some e)
        | none ↦ record_each_success r.0 operation_id secrets completed
      ]
