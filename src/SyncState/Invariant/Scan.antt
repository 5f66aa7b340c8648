-- ===== src/SyncState/Invariant/Scan.antt =====
-- The first loop of `FinalizeOperation`: what its count tells of the outcomes.
use skret.Base.{
  ℕ, ◌+◌, ◌≤◌, ◌<◌, ◌≡◌, refl, arith, true, false, [], ◌∷◌, none, some, Str, Map, str_eq, inl, inr,
  Option-cases, Bool-cases, All, if◌then◌else◌,
}
use skret.SyncState.{OutcomeStatus, OperationPhase, KeyOutcome, OperationMetadata}
use skret.SyncState.Metadata.{verification_passed, verification_failed}
use skret.SyncState.Begin.{any_outcome}
use skret.SyncState.Finalize.{
  Tally, Scan, counted, stopped, finalize_scan, finalize_check, must_demote, count_outcome,
  keep_entry,
}
use skret.SyncState.Record.{demote}
use skret.SyncState.Persist.{has_metadata}
use skret.SyncState.Invariant.{AllWell, is_awaited}

-- The entries after the loop are those before it.
abbrev pub entries : Scan → Map KeyOutcome
entries (counted m t) = m
entries (stopped m e) = m

pub finalize_scan-same :
    (op : Str) (t : ℕ) (phase : OperationPhase) (m : Map KeyOutcome) (tally : Tally)
    → AllWell op phase m
    → entries (finalize_scan op t m tally) ≡ m
unfolding finalize_scan
finalize_scan-same op t phase [] tally h = refl
finalize_scan-same op t phase ((k, o) ∷ m) tally h = ground (
  arith,
  h.0.justified,
  finalize_scan-same op t phase m tally h.1,
  finalize_scan-same op t phase m (count_outcome o tally) h.1,
)

-- What a final count tells of one owned outcome.
pub record IsCounted (op : Str) (t : Tally) (o : KeyOutcome) : Type 0 where
  pub checked : str_eq o.operation_id op ≡ true → finalize_check o ≡ none
  pub settled :
      str_eq o.operation_id op ≡ true
      → t.has_pending ≡ false
      → t.has_needs_reconciliation ≡ false
      → o.status ≡ OutcomeStatus.succeeded
  pub unfailed :
      (m : OperationMetadata)
      → str_eq o.operation_id op ≡ true
      → o.metadata ≡ some m
      → t.verification_failed ≡ false
      → verification_failed m ≡ false
  pub passed :
      (m : OperationMetadata)
      → str_eq o.operation_id op ≡ true
      → o.metadata ≡ some m
      → t.verification_pending ≡ false
      → verification_passed m ≡ true
  pub counts_metadata :
      (m : OperationMetadata)
      → str_eq o.operation_id op ≡ true
      → o.metadata ≡ some m
      → 0 < t.metadata_owned
  pub counts_bare : str_eq o.operation_id op ≡ true → o.metadata ≡ none → t.metadata_owned < t.owned

-- The flags of a count never fall, and the outcomes without metadata never get fewer.
pub record Grows (t u : Tally) : Type 0 where
  pub pending : u.has_pending ≡ false → t.has_pending ≡ false
  pub needs : u.has_needs_reconciliation ≡ false → t.has_needs_reconciliation ≡ false
  pub unverified : u.verification_pending ≡ false → t.verification_pending ≡ false
  pub failures : u.verification_failed ≡ false → t.verification_failed ≡ false
  pub numbers : t.metadata_owned ≤ u.metadata_owned
  pub bare : t.owned + u.metadata_owned ≤ u.owned + t.metadata_owned

Grows-refl : (t : Tally) → Grows t t
Grows-refl t = record {
  pending = λ h. h;
  needs = λ h. h;
  unverified = λ h. h;
  failures = λ h. h;
  numbers = omega arith;
  bare = omega arith;
}

Grows-trans : (t u v : Tally) → Grows t u → Grows u v → Grows t v
Grows-trans t u v a b = record {
  pending = λ h. a.pending (b.pending h);
  needs = λ h. a.needs (b.needs h);
  unverified = λ h. a.unverified (b.unverified h);
  failures = λ h. a.failures (b.failures h);
  numbers = omega (arith, a.numbers, b.numbers);
  bare = omega (arith, a.bare, b.bare);
}

count-Grows : (o : KeyOutcome) (t : Tally) → Grows t (count_outcome o t)
unfolding count_outcome
count-Grows o t = record {
  pending = λ h. ground (arith, h);
  needs = λ h. ground (arith, h);
  unverified = λ h. ground (arith, h);
  failures = λ h. ground (arith, h);
  numbers = ground arith;
  bare = ground arith;
}

bare_numbers :
    (o : KeyOutcome) (t : Tally)
    → has_metadata o ≡ false
    → (count_outcome o t).metadata_owned ≡ t.metadata_owned
unfolding count_outcome
bare_numbers o t h = ground arith

abbrev pub WellCounted : Tally → Type 0
WellCounted t = t.metadata_owned ≤ t.owned

count-WellCounted : (o : KeyOutcome) (t : Tally) → WellCounted t → WellCounted (count_outcome o t)
unfolding count_outcome
count-WellCounted o t h = ground arith

head-IsCounted :
    (op : Str) (o : KeyOutcome) (t u : Tally)
    → WellCounted t
    → finalize_check o ≡ none
    → Grows (count_outcome o t) u
    → IsCounted op u o
unfolding count_outcome
head-IsCounted op o t u wc c g = record {
  checked = λ _. c;
  settled = λ _ p n. ground (arith, g.pending p, g.needs n);
  unfailed = λ m _ e f. ground (arith, e, g.failures f);
  passed = λ m _ e f. ground (arith, e, g.unverified f);
  counts_metadata = λ m _ e. ground (arith, e, g.numbers);
  counts_bare = λ _ e. ground (arith, e, g.bare);
}

other-IsCounted :
    (op : Str) (o : KeyOutcome) (u : Tally) → str_eq o.operation_id op ≡ false → IsCounted op u o
other-IsCounted op o u other = record {
  checked = λ h. cc (other, h);
  settled = λ h _ _. cc (other, h);
  unfailed = λ m h _ _. cc (other, h);
  passed = λ m h _ _. cc (other, h);
  counts_metadata = λ m h _. absurd (cc (other, h));
  counts_bare = λ h _. absurd (cc (other, h));
}

-- A completed loop: its count grew, and tells of every outcome.
pub record Counts (op : Str) (m : Map KeyOutcome) (t u : Tally) : Type 0 where
  pub grows : Grows t u
  pub every : All (λ e. IsCounted op u e.1) m
  pub awaited : any_outcome (is_awaited op) m ≡ false → u.metadata_owned ≤ t.metadata_owned

pub keep_entry-counted :
    (k : Str) (o : KeyOutcome) (r : Scan) (m : Map KeyOutcome) (u : Tally)
    → keep_entry k o r ≡ counted m u
    → (m' : Map KeyOutcome) × (r ≡ counted m' u)
keep_entry-counted k o (counted m' u') m u e = (m', cc e)
keep_entry-counted k o (stopped m' x) m u e = cc e

pub scan-Counts :
    (op : Str) (time : ℕ) (m m' : Map KeyOutcome) (t u : Tally)
    → WellCounted t
    → finalize_scan op time m t ≡ counted m' u
    → Counts op m t u
unfolding finalize_scan any_outcome
scan-Counts op time [] m' t u wc e =
    let same : t ≡ u = ground (arith, e) in
    rw (← same) (record { grows = Grows-refl t; every = tt; awaited = λ _. omega arith })
scan-Counts op time ((k, o) ∷ m) m' t u wc e = elim (Bool-cases (str_eq o.operation_id op)) [
  | inr other ↦
      let (n, q) =
        keep_entry-counted k o (finalize_scan op time m t) m' u (ground (arith, e, other)) in
      let r = scan-Counts op time m n t u wc q in
      record {
        grows = r.grows;
        every = (other-IsCounted op o u other, r.every);
        awaited = λ h. r.awaited (ground (arith, other, h));
      }
  | inl mine ↦ elim (Option-cases (finalize_check o)) [
    | inr (x, q) ↦ absurd (ground (arith, e, q, mine))
    | inl c ↦
        let t' = count_outcome o t in
        let (n, q) =
          keep_entry-counted k (if must_demote o then demote o time else o)
            (finalize_scan op time m t') m' u (ground (arith, e, c, mine)) in
        let r = scan-Counts op time m n t' u (count-WellCounted o t wc) q in
        record {
          grows = Grows-trans t t' u (count-Grows o t) r.grows;
          every = (head-IsCounted op o t u wc c r.grows, r.every);
          awaited = λ h. ground (arith, r.awaited, bare_numbers o t, h, mine);
        }
  ]
]
