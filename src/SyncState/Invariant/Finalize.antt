-- ===== src/SyncState/Invariant/Finalize.antt =====
-- What the count of `FinalizeOperation` says of each outcome, and how it decides by it.
use skret.Base.{
  ℕ, ◌<◌, ◌≡◌, refl, arith, true, false, ◌||◌, [], ◌∷◌, none, Str, Map, str_eq, ◌⊎◌, inl, inr,
  Option-cases, Bool-cases, All, if◌then◌else◌,
}
use skret.SyncState.{OperationPhase, KeyOutcome, SyncState, phase_succeeded}
use skret.SyncState.Metadata.{
  verification_passed, verification_failed, validate_persisted, check_promotion,
}
use skret.SyncState.Finalize.{
  Tally, counted, finalize_scan, finalize_check, must_demote, count_outcome, with_phase, or_now,
  commit_operation, promote_all, decide_phase,
}
use skret.SyncState.Persist.{check_stored, check_stored_metadata, check_phase}
use skret.SyncState.Invariant.{IsWell, AllWell}
use skret.SyncState.Invariant.Promote.{promote-IsWell, success-retained}
use skret.SyncState.Invariant.Scan.{IsCounted, keep_entry-counted}
use skret.SyncState.Record.{demote}

-- An outcome of a committed operation raises no flag.
quiet :
    (op : Str) (o : KeyOutcome) (t : Tally)
    → IsWell op OperationPhase.succeeded o
    → str_eq o.operation_id op ≡ true
    → t.has_needs_reconciliation ≡ false
    → t.verification_failed ≡ false
    → t.has_pending ≡ false
    → t.verification_pending ≡ false
    → ((count_outcome o t).has_needs_reconciliation ≡ false)
      × ((count_outcome o t).verification_failed ≡ false)
      × ((count_outcome o t).has_pending ≡ false)
      × ((count_outcome o t).verification_pending ≡ false)
unfolding count_outcome check_stored check_stored_metadata check_phase validate_persisted
    check_promotion verification_passed verification_failed
quiet op o t w own a b c d = (
  ground (arith, w.committed, w.justified),
  ground (arith, w.stored),
  ground (arith, w.committed),
  ground (arith, w.stored),
)

abbrev pub NoFlag : Tally → Type 0
NoFlag t =
    (t.has_needs_reconciliation ≡ false)
    × (t.verification_failed ≡ false)
    × (t.has_pending ≡ false)
    × (t.verification_pending ≡ false)

pub quiet_scan :
    (op : Str) (time : ℕ) (m m' : Map KeyOutcome) (t u : Tally)
    → AllWell op OperationPhase.succeeded m
    → NoFlag t
    → finalize_scan op time m t ≡ counted m' u
    → NoFlag u
unfolding finalize_scan
quiet_scan op time [] m' t u w f e = ground (arith, e, f)
quiet_scan op time ((k, o) ∷ m) m' t u w f e = elim (Bool-cases (str_eq o.operation_id op)) [
  | inr other ↦
      let (n, q) =
        keep_entry-counted k o (finalize_scan op time m t) m' u (ground (arith, e, other)) in
      quiet_scan op time m n t u w.1 f q
  | inl mine ↦ elim (Option-cases (finalize_check o)) [
    | inr (x, q) ↦ absurd (ground (arith, e, q, mine))
    | inl c ↦
        let t' = count_outcome o t in
        let (n, q) =
          keep_entry-counted k (if must_demote o then demote o time else o)
            (finalize_scan op time m t') m' u (ground (arith, e, c, mine)) in
        quiet_scan op time m n t' u w.1 (quiet op o t w.0 mine f.0 f.1 f.2 f.3) q
  ]
]

module _ (s : SyncState) (op : Str) (time : ℕ) (u : Tally) where
  pub decide-cases :
      ((decide_phase s op time u).0 ≡ s)
      ⊎ ((((decide_phase s op time u).0
              ≡ with_phase s OperationPhase.needs_reconciliation (or_now s.completed_at time))
            × ((u.has_needs_reconciliation || u.verification_failed) ≡ true))
          ⊎ ((((decide_phase s op time u).0 ≡ with_phase s OperationPhase.pending none)
                × (u.has_pending ≡ true))
              ⊎ ((((decide_phase s op time u).0
                      ≡ with_phase s OperationPhase.awaiting_verification none)
                    × (u.has_needs_reconciliation ≡ false)
                    × (u.verification_failed ≡ false)
                    × (u.has_pending ≡ false)
                    × (0 < u.metadata_owned)
                    × (u.metadata_owned ≡ u.owned)
                    × (u.verification_pending ≡ true))
                  ⊎ (((decide_phase s op time u).0 ≡ commit_operation s op time)
                      × (u.has_needs_reconciliation ≡ false)
                      × (u.verification_failed ≡ false)
                      × (u.has_pending ≡ false)
                      × ((0 < u.metadata_owned → u.verification_pending ≡ false))))))
  unfolding decide_phase
  decide-cases = ground arith

-- What the final count of a complete and sound operation says of one outcome.
await-IsWell :
    (op : Str) (phase : OperationPhase) (o : KeyOutcome) (u : Tally)
    → phase_succeeded phase ≡ false
    → IsWell op phase o
    → IsCounted op u o
    → u.has_needs_reconciliation ≡ false
    → u.verification_failed ≡ false
    → u.has_pending ≡ false
    → u.metadata_owned ≡ u.owned
    → IsWell op OperationPhase.awaiting_verification o
unfolding check_stored check_stored_metadata check_phase finalize_check
await-IsWell op phase o u p w k n f q eq = elim (Bool-cases (str_eq o.operation_id op)) [
  | inr other ↦ record {
    stored = ground (arith, w.stored, other);
    justified = w.justified;
    committed = refl;
    uniform = ground (arith, other);
  }
  | inl mine ↦ elim (Option-cases o.metadata) [
    | inl e ↦ absurd (omega (arith, k.counts_bare mine e, eq))
    | inr (m, e) ↦
        let st = k.settled mine q n in
        let (v, r) = success-retained op phase o m p w e mine st in
        record {
          stored = ground (arith, w.stored, st, v, r, mine, k.checked mine, k.unfailed m mine e f);
          justified = w.justified;
          committed = refl;
          uniform = ground (arith, e);
        }
  ]
]

module _ (op : Str) (phase : OperationPhase) (u : Tally) (p : phase_succeeded phase ≡ false) where
  pub await-All :
      (m : Map KeyOutcome)
      → AllWell op phase m
      → All (λ e. IsCounted op u e.1) m
      → u.has_needs_reconciliation ≡ false
      → u.verification_failed ≡ false
      → u.has_pending ≡ false
      → u.metadata_owned ≡ u.owned
      → AllWell op OperationPhase.awaiting_verification m
  await-All [] w k n f q eq = tt
  await-All ((j, o) ∷ m) w k n f q eq =
      (await-IsWell op phase o u p w.0 k.0 n f q eq, await-All m w.1 k.1 n f q eq)

  pub commit-All :
      (m : Map KeyOutcome)
      → AllWell op phase m
      → All (λ e. IsCounted op u e.1) m
      → u.has_needs_reconciliation ≡ false
      → u.has_pending ≡ false
      → (0 < u.metadata_owned → u.verification_pending ≡ false)
      → AllWell op OperationPhase.succeeded (promote_all op m)
  unfolding promote_all
  commit-All [] w k n q v = tt
  commit-All ((j, o) ∷ m) w k n q v = (
    promote-IsWell op phase o p w.0 (λ mine. k.0.settled mine q n)
        (λ d mine e. k.0.passed d mine e (v (k.0.counts_metadata d mine e))),
    commit-All m w.1 k.1 n q v,
  )
