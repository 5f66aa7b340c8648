-- ===== src/SyncState/Invariant/Acknowledge.antt =====
-- Acknowledgements and approvals, single and in batches, keep the journal consistent.
use skret.Base.{
  ℕ, ◌≡◌, refl, subst⁻¹, arith, true, false, not, ◌&&◌, Option, none, some, Str, str_eq_iff, ◌⊎◌,
  inl, inr, Option-cases, lookup,
}
use skret.Provider.{Secret}
use skret.SyncState.{
  OutcomeStatus, ReconciliationState, OperationMetadata, KeyOutcome, SyncState, is_succeeded,
  is_needs_reconciliation, is_pending, is_owner_risk,
}
use skret.SyncState.Metadata.{
  check_outcome, owner_risk_approved, valid_acknowledged_hash, validate_persisted,
}
use skret.SyncState.Begin.{check_operation}
use skret.SyncState.Record.{
  own, owned_outcome, put_outcome, update_hash, send_to_reconciliation, acknowledge_again,
  acknowledge, record_owned_success, capability_gate,
}
use skret.SyncState.Reconcile.{record_owned_reconciliation, approve_owned}
use skret.SyncState.Invariant.{IsConsistent}
use skret.SyncState.Invariant.Outcomes.{succeed-IsWell, acknowledge-IsWell}
use skret.SyncState.Invariant.Changes.{approve-IsWell}
use skret.SyncState.Invariant.Record.{IsOwn, own-IsWell, put-IsConsistent, send-IsConsistent}

-- A state that an operation leaves: consistent, and of the same operation.
pub record IsKept (s : SyncState) (r : SyncState) : Type 0 where
  pub consistent : IsConsistent r
  pub same_operation : r.operation_id ≡ s.operation_id

pub IsKept-refl : (s : SyncState) → IsConsistent s → IsKept s s
IsKept-refl s c = record { consistent = c; same_operation = refl }

pub owned_outcome-IsOwn :
    (s : SyncState) (op : Str) (secret : Option Secret) (sec : Secret) (o : KeyOutcome)
    → check_operation s op ≡ none
    → owned_outcome s op secret ≡ own sec o
    → IsOwn s sec.key o
unfolding owned_outcome check_operation
owned_outcome-IsOwn s op none sec o ok e = cc
owned_outcome-IsOwn s op (some secret) sec o ok e =
    elim (Option-cases (lookup secret.key s.outcomes)) [
      | inl q ↦ ground (arith, q)
      | inr (v, q) ↦ record {
        found = ground (arith, q);
        owned = ground (arith, q, str_eq_iff op s.operation_id);
      }
    ]

module _ (s : SyncState) (sec : Secret) (o : KeyOutcome) (t : ℕ) where
  reconciliation-cases :
      ((record_owned_reconciliation s sec o t).0 ≡ s)
      ⊎ (((record_owned_reconciliation s sec o t).0 ≡ send_to_reconciliation s sec.key o t)
          × (is_succeeded o.status ≡ false))
  unfolding record_owned_reconciliation
  reconciliation-cases = ground arith

  -- What a stable hash key leaves of the branches of `recordKeySuccess`.
  success-cases :
      (hash_secret : Str → Str)
      → ((record_owned_success hash_secret false s sec o t).0 ≡ s)
        ⊎ ((((record_owned_success hash_secret false s sec o t).0
                ≡ send_to_reconciliation s sec.key o t)
              × (is_succeeded o.status ≡ false))
            ⊎ (((record_owned_success hash_secret false s sec o t).0
                  ≡ acknowledge hash_secret false s sec o t)
                × (is_succeeded o.status ≡ false)
                × (check_outcome o ≡ none)
                × (capability_gate o ≡ none)
                × ((is_needs_reconciliation o.status && not (owner_risk_approved o)) ≡ false)))
  unfolding record_owned_success acknowledge_again
  success-cases hash_secret = ground arith

approve-cases :
    (s : SyncState) (k : Str) (o : KeyOutcome) (m : OperationMetadata) (t : ℕ)
    → ((approve_owned s k o m t).0 ≡ s)
      ⊎ (((approve_owned s k o m t).0
            ≡ put_outcome s k (record o {
              metadata = some (record m { reconciliation_state = ReconciliationState.approved });
              updated_at = t;
            }))
          × (is_owner_risk m.capability ≡ true))
unfolding approve_owned
approve-cases s k o m t = ground arith

acknowledge-bare :
    (hash_secret : Str → Str) (s : SyncState) (sec : Secret) (o : KeyOutcome) (t : ℕ)
    → o.metadata ≡ none
    → acknowledge hash_secret false s sec o t
      ≡ put_outcome
          (update_hash hash_secret false s sec)
          sec.key
          (record o { status = OutcomeStatus.succeeded; updated_at = t })
unfolding acknowledge
acknowledge-bare hash_secret s sec o t e = ground arith

acknowledge-metadata :
    (hash_secret : Str → Str) (s : SyncState) (sec : Secret) (o : KeyOutcome)
    (m : OperationMetadata) (t : ℕ)
    → o.metadata ≡ some m
    → acknowledge hash_secret false s sec o t
      ≡ put_outcome s sec.key (record o {
        status = OutcomeStatus.succeeded;
        updated_at = t;
        acknowledged_hash = hash_secret sec.value;
      })
unfolding acknowledge
acknowledge-metadata hash_secret s sec o m t e = ground arith

-- A known status that is neither a success nor waits for approval is pending.
pending_or_approved :
    (o : KeyOutcome) (m : OperationMetadata)
    → o.metadata ≡ some m
    → check_outcome o ≡ none
    → is_succeeded o.status ≡ false
    → (is_needs_reconciliation o.status && not (owner_risk_approved o)) ≡ false
    → (is_pending o.status ≡ true) ⊎ (owner_risk_approved o ≡ true)
unfolding check_outcome validate_persisted
pending_or_approved o m e q st n = ground arith

module _ (s : SyncState) (c : IsConsistent s) where
  send-IsKept :
      (k : Str) (o : KeyOutcome) (t : ℕ)
      → IsOwn s k o
      → is_succeeded o.status ≡ false
      → IsKept s (send_to_reconciliation s k o t)
  unfolding send_to_reconciliation
  send-IsKept k o t owner st = record {
    consistent = send-IsConsistent s k o owner c t st;
    same_operation = refl;
  }

  pub record_owned_reconciliation-IsKept :
      (sec : Secret) (o : KeyOutcome) (t : ℕ)
      → IsOwn s sec.key o
      → IsKept s (record_owned_reconciliation s sec o t).0
  record_owned_reconciliation-IsKept sec o t owner = elim (reconciliation-cases s sec o t) [
    | inl e ↦ rw e (IsKept-refl s c)
    | inr (e, st) ↦ rw e (send-IsKept sec.key o t owner st)
  ]

  pub approve_owned-IsKept :
      (k : Str) (o : KeyOutcome) (m : OperationMetadata) (t : ℕ)
      → IsOwn s k o
      → o.metadata ≡ some m
      → is_needs_reconciliation o.status ≡ true
      → IsKept s (approve_owned s k o m t).0
  approve_owned-IsKept k o m t owner e n = elim (approve-cases s k o m t) [
    | inl q ↦ rw q (IsKept-refl s c)
    | inr (q, g) ↦ rw q (record {
      consistent =
          put-IsConsistent s k o owner c _
            (approve-IsWell s.operation_id s.phase o m t (own-IsWell s k o owner c) e owner.owned n
              g)
            (λ h. owner.owned);
      same_operation = refl;
    })
  ]

-- The hash of a secret is 64 hexadecimal digits, and the key of the hash is a stable one.
module _ (hash_secret : Str → Str)
    (hash_valid : (v : Str) → valid_acknowledged_hash (hash_secret v) ≡ true) (s : SyncState)
    (c : IsConsistent s) where
  acknowledge-IsKept :
      (sec : Secret) (o : KeyOutcome) (t : ℕ)
      → IsOwn s sec.key o
      → is_succeeded o.status ≡ false
      → check_outcome o ≡ none
      → capability_gate o ≡ none
      → (is_needs_reconciliation o.status && not (owner_risk_approved o)) ≡ false
      → IsKept s (acknowledge hash_secret false s sec o t)
  acknowledge-IsKept sec o t owner st q g n =
      let w = own-IsWell s sec.key o owner c in
      elim (Option-cases o.metadata) [
        | inl e ↦
            let k : IsConsistent (
                put_outcome s sec.key
                  (record o { status = OutcomeStatus.succeeded; updated_at = t })) =
              put-IsConsistent s sec.key o owner c _ (succeed-IsWell s.operation_id s.phase o t w e)
                (λ h. h) in
            subst⁻¹ (IsKept s) (acknowledge-bare hash_secret s sec o t e) (record {
              consistent = record {
                each = k.each;
                waits = k.waits;
                idle = k.idle;
                header = k.header;
              };
              same_operation = refl;
            })
        | inr (m, e) ↦ subst⁻¹ (IsKept s) (acknowledge-metadata hash_secret s sec o m t e) (record {
          consistent =
              put-IsConsistent s sec.key o owner c _
                (acknowledge-IsWell s.operation_id s.phase o m t (hash_secret sec.value) w e
                  owner.owned st (pending_or_approved o m e q st n) g (hash_valid sec.value))
                (λ h. h);
          same_operation = refl;
        })
      ]

  pub record_owned_success-IsKept :
      (sec : Secret) (o : KeyOutcome) (t : ℕ)
      → IsOwn s sec.key o
      → IsKept s (record_owned_success hash_secret false s sec o t).0
  record_owned_success-IsKept sec o t owner = elim (success-cases s sec o t hash_secret) [
    | inl e ↦ rw e (IsKept-refl s c)
    | inr (inl (e, st)) ↦ rw e (send-IsKept s c sec.key o t owner st)
    | inr (inr (e, st, q, g, n)) ↦ rw e (acknowledge-IsKept sec o t owner st q g n)
  ]
