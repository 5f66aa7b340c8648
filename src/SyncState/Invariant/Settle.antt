-- ===== src/SyncState/Invariant/Settle.antt =====
-- `FinalizeOperation` keeps the journal consistent: every decision, and the loop before it.
use skret.Base.{
  ℕ, ◌≡◌, refl, arith, true, false, none, Str, Map, str_eq_iff, ◌⊎◌, inl, inr, Option-cases,
  Bool-cases, All-map,
}
use skret.SyncState.{OperationPhase, KeyOutcome, SyncState, OperationError, phase_succeeded}
use skret.SyncState.Begin.{check_operation}
use skret.SyncState.Finalize.{
  Tally, no_tally, Scan, counted, stopped, finalize_scan, commit_operation, promote_all,
  decide_phase, finalize_operation,
}
use skret.SyncState.Invariant.{IsConsistent}
use skret.SyncState.Invariant.Outcomes.{reconcile-IsWell, reopen-IsWell}
use skret.SyncState.Invariant.Acknowledge.{IsKept, IsKept-refl}
use skret.SyncState.Invariant.Scan.{finalize_scan-same, Counts, scan-Counts}
use skret.SyncState.Invariant.Finalize.{NoFlag, quiet_scan, decide-cases, await-All, commit-All}

module _ (s : SyncState) (c : IsConsistent s) (time : ℕ) (u : Tally) where
  abbrev fixed : Str
  fixed = s.operation_id

  decide-IsKept :
      phase_succeeded s.phase ≡ false
      → Counts fixed s.outcomes no_tally u
      → IsKept s (decide_phase s fixed time u).0
  unfolding commit_operation
  decide-IsKept p k = elim (decide-cases s fixed time u) [
    | inl e ↦ rw e (IsKept-refl s c)
    | inr (inl (e, _)) ↦ rw e (record {
      consistent = record {
        each = All-map s.outcomes (λ x. reconcile-IsWell fixed s.phase x.1 p) c.each;
        waits = refl;
        header = c.header;
        idle = c.idle;
      };
      same_operation = refl;
    })
    | inr (inr (inl (e, _))) ↦ rw e (record {
      consistent = record {
        each = All-map s.outcomes (λ x. reopen-IsWell fixed s.phase x.1 p) c.each;
        waits = refl;
        header = c.header;
        idle = c.idle;
      };
      same_operation = refl;
    })
    | inr (inr (inr (inl (e, n, f, q, pos, eq, _)))) ↦ rw e (record {
      consistent = record {
        each = await-All fixed s.phase u p s.outcomes c.each k.every n f q eq;
        waits = ground (arith, k.awaited, pos);
        header = c.header;
        idle = c.idle;
      };
      same_operation = refl;
    })
    | inr (inr (inr (inr (e, n, f, q, v)))) ↦
        rw (e, p)
          (record {
            consistent = record {
              each = commit-All fixed s.phase u p s.outcomes c.each k.every n q v;
              waits = refl;
              header = c.header;
              idle = λ x. rw (c.idle x) (unfold promote_all in refl);
            };
            same_operation = refl;
          })
  ]

  -- A committed operation stays as it is.
  decide_committed : phase_succeeded s.phase ≡ true → NoFlag u → (decide_phase s fixed time u).0 ≡ s
  unfolding commit_operation
  decide_committed p f = elim (decide-cases s fixed time u) [
    | inl e ↦ e
    | inr (inl (e, n)) ↦ cc (f.0, f.1, n)
    | inr (inr (inl (e, n))) ↦ cc (f.2, n)
    | inr (inr (inr (inl (e, n, x, q, pos, eq, v)))) ↦ cc (f.3, v)
    | inr (inr (inr (inr (e, n, x, q, v)))) ↦ rw (e, p)
  ]

pub Scan-cases :
    (r : Scan)
    → ((m : Map KeyOutcome) × (x : OperationError) × (r ≡ stopped m x))
      ⊎ ((m : Map KeyOutcome) × (u : Tally) × (r ≡ counted m u))
Scan-cases (stopped m x) = inl (m, x, refl)
Scan-cases (counted m u) = inr (m, u, refl)

pub check_operation-eq :
    (s : SyncState) (op : Str) → check_operation s op ≡ none → op ≡ s.operation_id
unfolding check_operation
check_operation-eq s op h = ground (arith, str_eq_iff op s.operation_id)

finalize-counted :
    (s : SyncState) (time : ℕ) (m : Map KeyOutcome) (u : Tally)
    → IsConsistent s
    → finalize_scan s.operation_id time s.outcomes no_tally ≡ counted m u
    → IsKept s (decide_phase s s.operation_id time u).0
finalize-counted s time m u c q = elim (Bool-cases (phase_succeeded s.phase)) [
  | inr p ↦
      decide-IsKept s c time u p
        (scan-Counts s.operation_id time s.outcomes m no_tally u (omega arith) q)
  | inl p ↦
      let at_end : s.phase ≡ OperationPhase.succeeded = ground arith in
      rw
        (decide_committed s c time u p (
          quiet_scan s.operation_id time s.outcomes m no_tally u (rw at_end at c.each)
            (refl, refl, refl, refl) q))
        (IsKept-refl s c)
]

-- Where the loop gives up, and where it counts, the outcomes are those of before.
finalize-stopped-eq :
    (s : SyncState) (time : ℕ) (m : Map KeyOutcome) (x : OperationError)
    → check_operation s s.operation_id ≡ none
    → finalize_scan s.operation_id time s.outcomes no_tally ≡ stopped m x
    → m ≡ s.outcomes
    → (finalize_operation s s.operation_id time).0 ≡ s
unfolding finalize_operation
finalize-stopped-eq s time m x ok q e = ground arith

pub finalize-counted-eq :
    (s : SyncState) (time : ℕ) (m : Map KeyOutcome) (u : Tally)
    → check_operation s s.operation_id ≡ none
    → finalize_scan s.operation_id time s.outcomes no_tally ≡ counted m u
    → m ≡ s.outcomes
    → finalize_operation s s.operation_id time ≡ decide_phase s s.operation_id time u
unfolding finalize_operation
finalize-counted-eq s time m u ok q e = ground arith

finalize_current-IsKept :
    (s : SyncState) (time : ℕ)
    → IsConsistent s
    → check_operation s s.operation_id ≡ none
    → IsKept s (finalize_operation s s.operation_id time).0
finalize_current-IsKept s time c ok =
    let same = finalize_scan-same s.operation_id time s.phase s.outcomes no_tally c.each in
    elim (Scan-cases (finalize_scan s.operation_id time s.outcomes no_tally)) [
      | inl (m, x, q) ↦ rw (finalize-stopped-eq s time m x ok q (rw q at same)) (IsKept-refl s c)
      | inr (m, u, q) ↦
          rw (finalize-counted-eq s time m u ok q (rw q at same)) (finalize-counted s time m u c q)
    ]

pub finalize_operation-IsKept :
    (s : SyncState) (op : Str) (time : ℕ)
    → IsConsistent s
    → IsKept s (finalize_operation s op time).0
unfolding finalize_operation
finalize_operation-IsKept s op time c = elim (Option-cases (check_operation s op)) [
  | inr (e, q) ↦ rw (q, finalize_operation) (IsKept-refl s c)
  | inl ok ↦
      let eq = check_operation-eq s op ok in rw eq (finalize_current-IsKept s time c (rw eq at ok))
]
