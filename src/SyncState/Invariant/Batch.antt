-- ===== src/SyncState/Invariant/Batch.antt =====
-- `RecordKeySuccess`, `RecordKeyNeedsReconciliation`, `RecordNeedsReconciliation`, the loop of
-- `RecordSuccess` and `ApproveOwnerRiskReconciliation` keep the journal consistent.
use skret.Base.{
  ℕ, ◌≡◌, refl, ◌∙◌, arith, true, false, List, [], ◌∷◌, Option, none, some, Str, str_eq, str_eq_iff,
  ◌⊎◌, inl, inr, Option-cases, Bool-cases, ◌&&◌, lookup,
}
use skret.Provider.{Secret}
use skret.SyncState.{
  KeyOutcome, SyncState, OperationError, OperationMetadata, is_needs_reconciliation,
}
use skret.SyncState.Metadata.{valid_acknowledged_hash}
use skret.SyncState.Begin.{check_operation}
use skret.SyncState.Record.{
  Owned, own, refuse, owned_outcome, record_success, record_key_success, record_each_success,
}
use skret.SyncState.Reconcile.{
  record_reconciliation, record_key_reconciliation, reconcile_each, record_needs_reconciliation,
  approve_owned, approve_outcome, approve_owner_risk, validate_batch,
}
use skret.SyncState.Invariant.{IsConsistent}
use skret.SyncState.Invariant.Acknowledge.{
  IsKept, IsKept-refl, owned_outcome-IsOwn, record_owned_success-IsKept,
  record_owned_reconciliation-IsKept, approve_owned-IsKept,
}

Owned-cases :
    (r : Owned)
    → ((e : OperationError) × (r ≡ refuse e))
      ⊎ ((sec : Secret) × (o : KeyOutcome) × (r ≡ own sec o))
Owned-cases (own sec o) = inr (sec, o, refl)
Owned-cases (refuse e) = inl (e, refl)

-- Kept from one state to the next, and from that to a third.
IsKept-trans : (s r u : SyncState) → IsKept s r → IsKept r u → IsKept s u
IsKept-trans s r u a b = record {
  consistent = b.consistent;
  same_operation = b.same_operation ∙ a.same_operation;
}

check_operation-same :
    (s r : SyncState) (op : Str)
    → r.operation_id ≡ s.operation_id
    → check_operation s op ≡ none
    → check_operation r op ≡ none
unfolding check_operation
check_operation-same s r op e h =
    ground (arith, e, str_eq_iff op s.operation_id, str_eq_iff op r.operation_id)

module _ (s : SyncState) (c : IsConsistent s) (op : Str) (ok : check_operation s op ≡ none) where
  record_reconciliation-IsKept :
      (secret : Option Secret) (t : ℕ) → IsKept s (record_reconciliation s op secret t).0
  unfolding record_reconciliation
  record_reconciliation-IsKept secret t = elim (Owned-cases (owned_outcome s op secret)) [
    | inl (e, q) ↦ rw (q, record_reconciliation) (IsKept-refl s c)
    | inr (sec, o, q) ↦
        rw (q, record_reconciliation)
          (record_owned_reconciliation-IsKept s c sec o t
            (owned_outcome-IsOwn s op secret sec o ok q))
  ]

module _ (hash_secret : Str → Str)
    (hash_valid : (v : Str) → valid_acknowledged_hash (hash_secret v) ≡ true) (s : SyncState)
    (c : IsConsistent s) (op : Str) (ok : check_operation s op ≡ none) where
  record_success-IsKept :
      (secret : Option Secret) (t : ℕ) → IsKept s (record_success hash_secret false s op secret t).0
  unfolding record_success
  record_success-IsKept secret t = elim (Owned-cases (owned_outcome s op secret)) [
    | inl (e, q) ↦ rw (q, record_success) (IsKept-refl s c)
    | inr (sec, o, q) ↦
        rw (q, record_success)
          (record_owned_success-IsKept hash_secret hash_valid s c sec o t
            (owned_outcome-IsOwn s op secret sec o ok q))
  ]

-- The loops, from a state where the operation is the current one.
pub reconcile_each-IsKept :
    (secrets : List (Option Secret)) (s : SyncState) (op : Str) (t : ℕ)
    → IsConsistent s
    → check_operation s op ≡ none
    → IsKept s (reconcile_each s op secrets t).0
unfolding reconcile_each
reconcile_each-IsKept [] s op t c ok = IsKept-refl s c
reconcile_each-IsKept (secret ∷ secrets) s op t c ok =
    let k = record_reconciliation-IsKept s c op ok secret t in
    let r = (record_reconciliation s op secret t).0 in
    elim (Option-cases (record_reconciliation s op secret t).1) [
      | inr (e, q) ↦ rw (q, reconcile_each) k
      | inl q ↦
          rw (q, reconcile_each)
            (IsKept-trans s r _ k (
              reconcile_each-IsKept secrets r op t k.consistent
                (check_operation-same s r op k.same_operation ok)))
    ]

pub record_each_success-IsKept :
    (hash_secret : Str → Str)
    → ((v : Str) → valid_acknowledged_hash (hash_secret v) ≡ true)
    → (secrets : List (Option Secret)) (s : SyncState) (op : Str) (t : ℕ) → IsConsistent s
    → check_operation s op ≡ none
    → IsKept s (record_each_success hash_secret false s op secrets t).0
unfolding record_each_success
record_each_success-IsKept hash valid [] s op t c ok = IsKept-refl s c
record_each_success-IsKept hash valid (secret ∷ secrets) s op t c ok =
    let k = record_success-IsKept hash valid s c op ok secret t in
    let r = (record_success hash false s op secret t).0 in
    elim (Option-cases (record_success hash false s op secret t).1) [
      | inr (e, q) ↦ rw (q, record_each_success) k
      | inl q ↦
          rw (q, record_each_success)
            (IsKept-trans s r _ k (
              record_each_success-IsKept hash valid secrets r op t k.consistent
                (check_operation-same s r op k.same_operation ok)))
    ]

module _ (s : SyncState) (c : IsConsistent s) (op : Str) where
  pub record_key_reconciliation-IsKept :
      (secret : Option Secret) (t : ℕ) → IsKept s (record_key_reconciliation s op secret t).0
  unfolding record_key_reconciliation
  record_key_reconciliation-IsKept secret t = elim (Option-cases (check_operation s op)) [
    | inr (e, q) ↦ rw (q, record_key_reconciliation) (IsKept-refl s c)
    | inl q ↦ rw (q, record_key_reconciliation) (record_reconciliation-IsKept s c op q secret t)
  ]

  pub record_needs_reconciliation-IsKept :
      (secrets : List (Option Secret)) (t : ℕ)
      → IsKept s (record_needs_reconciliation s op secrets t).0
  unfolding record_needs_reconciliation
  record_needs_reconciliation-IsKept secrets t = elim (Option-cases (check_operation s op)) [
    | inr (e, q) ↦ rw (q, record_needs_reconciliation) (IsKept-refl s c)
    | inl q ↦ elim (Option-cases (validate_batch false s op secrets)) [
      | inr (e, b) ↦ rw (q, b, record_needs_reconciliation) (IsKept-refl s c)
      | inl b ↦ rw (q, b, record_needs_reconciliation) (reconcile_each-IsKept secrets s op t c q)
    ]
  ]

  pub record_key_success-IsKept :
      (hash_secret : Str → Str)
      → ((v : Str) → valid_acknowledged_hash (hash_secret v) ≡ true)
      → (secret : Option Secret) (t : ℕ)
      → IsKept s (record_key_success hash_secret false s op secret t).0
  unfolding record_key_success
  record_key_success-IsKept hash valid secret t = elim (Option-cases (check_operation s op)) [
    | inr (e, q) ↦ rw (q, record_key_success) (IsKept-refl s c)
    | inl q ↦ rw (q, record_key_success) (record_success-IsKept hash valid s c op q secret t)
  ]

  approve_outcome-cases :
      (key : Str) (found : Option KeyOutcome) (t : ℕ)
      → ((approve_outcome s op key found t).0 ≡ s)
        ⊎ ((o : KeyOutcome) × (m : OperationMetadata) × (found ≡ some o)
            × (str_eq o.operation_id op ≡ true)
            × (is_needs_reconciliation o.status ≡ true)
            × (o.metadata ≡ some m)
            × ((approve_outcome s op key found t).0 ≡ (approve_owned s key o m t).0))
  unfolding approve_outcome
  approve_outcome-cases key none t = inl refl
  approve_outcome-cases key (some o) t = elim (Option-cases o.metadata) [
    | inl e ↦ inl (ground arith)
    | inr (m, e) ↦
        elim (Bool-cases (str_eq o.operation_id op && is_needs_reconciliation o.status)) [
          | inl h ↦ inr (o, m, refl, ground arith, ground arith, e, ground arith)
          | inr h ↦ inl (ground arith)
        ]
  ]

  pub approve_owner_risk-IsKept : (key : Str) (t : ℕ) → IsKept s (approve_owner_risk s op key t).0
  unfolding approve_owner_risk
  approve_owner_risk-IsKept key t = elim (Option-cases (check_operation s op)) [
    | inr (e, q) ↦ rw (q, approve_owner_risk) (IsKept-refl s c)
    | inl q ↦
        rw (q, approve_owner_risk)
          (elim (approve_outcome-cases key (lookup key s.outcomes) t) [
            | inl e ↦ rw e (IsKept-refl s c)
            | inr (o, m, f, mine, n, e, r) ↦ rw r (
                approve_owned-IsKept s c key o m t
                  (record {
                    found = f;
                    owned = unfold check_operation in ground (arith, str_eq_iff op s.operation_id);
                  })
                  e n)
          ])
  ]
