-- ===== src/SyncState/Invariant/Verify.antt =====
-- `RecordOperationVerification` keeps the journal consistent.
use skret.Base.{
  ℕ, suc, ◌+◌, ◌<◌, ◌≡◌, refl, sym, ap, subst, ◌-◌, arith, Bool, true, false, not, ◌&&◌, ◌||◌, [],
  ◌∷◌, some, Str, Map, str_eq, inl, inr, Option-cases, Bool-cases, is_empty, if◌then◌else◌,
}
use skret.SyncState.{OperationPhase, KeyOutcome, SyncState, OperationMetadata}
use skret.SyncState.Begin.{any_outcome, check_operation}
use skret.SyncState.Finalize.{finalize_operation}
use skret.SyncState.Verify.{
  seen, verify_scan, ready, verified, settle_verification, record_verification, any_deadline_over,
  phase_awaiting,
}
use skret.SyncState.Invariant.{IsWell, AllWell, IsConsistent, is_awaited}
use skret.SyncState.Invariant.Outcomes.{reconcile-IsWell}
use skret.SyncState.Invariant.Changes.{awaiting-ready, reject-IsWell, pass-IsWell}
use skret.SyncState.Invariant.Acknowledge.{IsKept, IsKept-refl}
use skret.SyncState.Invariant.Settle.{finalize_operation-IsKept, check_operation-eq}

-- The phase that the evidence leads to, before the commit.
abbrev next_phase : Bool → Bool → OperationPhase
next_phase canary post =
    if not canary || not post
    then OperationPhase.needs_reconciliation
    else OperationPhase.awaiting_verification

verified-IsWell :
    (op : Str) (o : KeyOutcome) (m : OperationMetadata) (canary post : Bool) (t : ℕ)
    → IsWell op OperationPhase.awaiting_verification o
    → o.metadata ≡ some m
    → str_eq o.operation_id op ≡ true
    → IsWell op (next_phase canary post) (verified canary post t o m)
verified-IsWell op o m true true t w e own = pass-IsWell op o m t w e own
verified-IsWell op o m true false t w e own = reject-IsWell op o m true false t w e own refl
verified-IsWell op o m false post t w e own = reject-IsWell op o m false post t w e own refl

passing-IsWell :
    (op : Str) (o : KeyOutcome) (canary post : Bool)
    → IsWell op OperationPhase.awaiting_verification o
    → IsWell op (next_phase canary post) o
passing-IsWell op o true true w = w
passing-IsWell op o true false w = reconcile-IsWell op OperationPhase.awaiting_verification o refl w
passing-IsWell op o false post w = reconcile-IsWell op OperationPhase.awaiting_verification o refl w

-- The loop passes over every outcome, and leaves each well under the phase to come.
record Passes (op : Str) (canary post : Bool) (t : ℕ) (m : Map KeyOutcome) : Type 0 where
  after : Map KeyOutcome
  count : ℕ
  scans : verify_scan op canary post t m ≡ seen after count
  each : AllWell op (next_phase canary post) after
  keeps : any_outcome (is_awaited op) m ≡ true → any_outcome (is_awaited op) after ≡ true
  positive : any_outcome (is_awaited op) m ≡ true → 0 < count

verify_scan-Passes :
    (op : Str) (canary post : Bool) (t : ℕ) (m : Map KeyOutcome)
    → AllWell op OperationPhase.awaiting_verification m
    → Passes op canary post t m
unfolding verify_scan any_outcome
verify_scan-Passes op canary post t [] w = record {
  after = [];
  count = 0;
  scans = refl;
  each = tt;
  keeps = λ h. h;
  positive = λ h. absurd (cc h);
}
verify_scan-Passes op canary post t ((k, o) ∷ m) w =
    let r = verify_scan-Passes op canary post t m w.1 in
    elim (Bool-cases (str_eq o.operation_id op)) [
      | inr other ↦ record {
        after = (k, o) ∷ r.after;
        count = r.count;
        scans = ground (arith, r.scans, other);
        each = (passing-IsWell op o canary post w.0, r.each);
        keeps = λ h. ground (arith, r.keeps, h, other);
        positive = λ h. r.positive (ground (arith, h, other));
      }
      | inl mine ↦ elim (Option-cases o.metadata) [
        | inl e ↦ absurd (ground (arith, w.0.uniform, mine, e))
        | inr (d, e) ↦
            let facts = awaiting-ready op o d w.0 e mine in
            record {
              after = (k, verified canary post t o d) ∷ r.after;
              count = 1 + r.count;
              scans = unfold ready in ground (arith, r.scans, mine, e, facts);
              each = (verified-IsWell op o d canary post t w.0 e mine, r.each);
              keeps = λ h. unfold verified in ground (arith, mine);
              positive = λ _. omega arith;
            }
      ]
    ]

settle-passed :
    (s : SyncState) (op : Str) (late : Bool) (t n : ℕ) (m : Map KeyOutcome)
    → settle_verification s op true true t late (seen m (suc n))
      ≡ finalize_operation (record s { outcomes = m }) op t
unfolding settle_verification
settle-passed s op late t n m = ground arith

settle-failed :
    (s : SyncState) (op : Str) (canary post late : Bool) (t n : ℕ) (m : Map KeyOutcome)
    → (not canary || not post) ≡ true
    → (settle_verification s op canary post t late (seen m (suc n))).0 ≡ record s {
      outcomes = m;
      phase = OperationPhase.needs_reconciliation;
      completed_at = some t;
    }
unfolding settle_verification
settle-failed s op canary post late t n m h = ground arith

module _ (s : SyncState) (c : IsConsistent s)
    (waiting : s.phase ≡ OperationPhase.awaiting_verification) where
  awaited_some : any_outcome (is_awaited s.operation_id) s.outcomes ≡ true
  awaited_some = ground (arith, c.waits, waiting)

  abbrev with_outcomes : Map KeyOutcome → SyncState
  with_outcomes m = record s { outcomes = m }

  never_idle : is_empty s.operation_id ≡ true → ⊥
  unfolding any_outcome
  never_idle e = cc (awaited_some, ap (any_outcome (is_awaited s.operation_id)) (c.idle e))

  failed-IsKept :
      (m : Map KeyOutcome) (t : ℕ)
      → AllWell s.operation_id OperationPhase.needs_reconciliation m
      → IsKept s (record s {
        outcomes = m;
        phase = OperationPhase.needs_reconciliation;
        completed_at = some t;
      })
  failed-IsKept m t w = record {
    consistent = record {
      each = w;
      waits = refl;
      header = c.header;
      idle = λ e. absurd (never_idle e);
    };
    same_operation = refl;
  }

  passed-IsConsistent :
      (m : Map KeyOutcome)
      → AllWell s.operation_id OperationPhase.awaiting_verification m
      → any_outcome (is_awaited s.operation_id) m ≡ true
      → IsConsistent (with_outcomes m)
  passed-IsConsistent m w a = record {
    each = rw waiting w;
    waits = ground (arith, a);
    header = c.header;
    idle = λ e. absurd (never_idle e);
  }

  settled-IsKept :
      (canary post late : Bool) (t : ℕ) (m : Map KeyOutcome) (n : ℕ)
      → AllWell s.operation_id (next_phase canary post) m
      → any_outcome (is_awaited s.operation_id) m ≡ true
      → IsKept s (settle_verification s s.operation_id canary post t late (seen m (suc n))).0
  settled-IsKept true true late t m n w a =
      let k =
        finalize_operation-IsKept (with_outcomes m) s.operation_id t (passed-IsConsistent m w a) in
      rw settle-passed (record { consistent = k.consistent; same_operation = k.same_operation })
  settled-IsKept true false late t m n w a =
      rw (settle-failed s s.operation_id true false late t n m refl) (failed-IsKept m t w)
  settled-IsKept false post late t m n w a =
      rw (settle-failed s s.operation_id false post late t n m refl) (failed-IsKept m t w)

  settle-IsKept :
      (canary post late : Bool) (t : ℕ)
      → IsKept s
          (settle_verification s s.operation_id canary post t late
            (verify_scan s.operation_id canary post t s.outcomes)).0
  settle-IsKept canary post late t =
      let r = verify_scan-Passes s.operation_id canary post t s.outcomes (rw waiting at c.each) in
      let p : r.count ≡ suc (r.count - 1) = omega (arith, r.positive awaited_some) in
      rw r.scans (
        rw p
          (settled-IsKept canary post late t r.after (r.count - 1) r.each (r.keeps awaited_some)))

pub record_verification-IsKept :
    (s : SyncState) (op : Str) (canary post : Bool) (t : ℕ)
    → IsConsistent s
    → IsKept s (record_verification s op canary post t).0
unfolding record_verification
record_verification-IsKept s op canary post t c = elim (Option-cases (check_operation s op)) [
  | inr (e, q) ↦ rw (q, record_verification) (IsKept-refl s c)
  | inl ok ↦ elim (Bool-cases (phase_awaiting s.phase)) [
    | inr p ↦ rw (ok, p, record_verification) (IsKept-refl s c)
    | inl p ↦
        let waiting : s.phase ≡ OperationPhase.awaiting_verification = ground (arith, p) in
        let late = any_deadline_over op t s.outcomes in
        rw (ok, p, record_verification)
          (subst
            (λ x.
              IsKept s
                (settle_verification s x (not late && canary) (not late && post) t late
                  (verify_scan x (not late && canary) (not late && post) t s.outcomes)).0)
            (sym (check_operation-eq s op ok))
            (settle-IsKept s c waiting (not late && canary) (not late && post) late t))
  ]
]
