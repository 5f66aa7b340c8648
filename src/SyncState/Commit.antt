-- ===== src/SyncState/Commit.antt =====
-- What a commit of `FinalizeOperation` rests on, and what a start of an operation leaves behind
-- (internal/syncer/state.go).
use skret.Base.{
  ℕ, ◌≡◌, refl, sym, subst, arith, true, false, not, ◌&&◌, ◌||◌, List, [], ◌∷◌, Option, none, some,
  Str, Map, str_eq, str_eq_refl, inl, inr, Bool-cases, Option-cases, Bool, All, All-insert,
  is_empty, if◌then◌else◌,
}
use skret.Provider.{Secret}
use skret.SyncState.{
  Returned, KeyOutcome, SyncState, OperationError, OperationMetadata, is_pending, phase_succeeded,
}
use skret.SyncState.Begin.{
  check_operation, begin_operation, start_operation, interrupt_all, enroll, fresh_outcome,
  normalized, operation_pending, any_outcome,
}
use skret.SyncState.Finalize.{
  Tally, no_tally, finalize_scan, decide_phase, finalize_operation, commit_operation,
}
use skret.SyncState.Invariant.Finalize.{decide-cases}
use skret.SyncState.Invariant.Settle.{Scan-cases}

-- A call of FinalizeOperation, also one that returns an error, changes the drift cache only where
-- the journal is not in success before and is in success after it.
pub finalize-hashes :
    (s : SyncState) (op : Str) (time : ℕ)
    → let s' = (finalize_operation s op time).0 in
      (phase_succeeded s.phase || not (phase_succeeded s'.phase)) ≡ true → s'.hashes ≡ s.hashes
unfolding finalize_operation commit_operation
finalize-hashes s op time = elim (Option-cases (check_operation s op)) [
  | inr (e, c) ↦
      let r : finalize_operation s op time ≡ (s, some e) = ground (arith, c) in
      subst Kept (sym r) (λ _. refl)
  | inl c ↦ elim (Scan-cases (finalize_scan op time s.outcomes no_tally)) [
    | inl (m, x, q) ↦
        let r : finalize_operation s op time ≡ (record s { outcomes = m }, some x) =
          ground (arith, c, q) in
        subst Kept (sym r) (λ _. refl)
    | inr (m, u, q) ↦
        let r : finalize_operation s op time ≡ decide_phase (record s { outcomes = m }) op time u =
          ground (arith, c, q) in
        subst Kept (sym r) (decided m u)
  ]
]
  where
    Kept : Returned → Type 0
    Kept r =
        (phase_succeeded s.phase || not (phase_succeeded r.0.phase)) ≡ true → r.0.hashes ≡ s.hashes

    decided :
        (m : Map KeyOutcome) (u : Tally)
        → let s' = (decide_phase (record s { outcomes = m }) op time u).0 in
          (phase_succeeded s.phase || not (phase_succeeded s'.phase)) ≡ true → s'.hashes ≡ s.hashes
    decided m u outside = elim (decide-cases (record s { outcomes = m }) op time u) [
      | inl e ↦ ground (arith, e)
      | inr (inl (e, n)) ↦ ground (arith, e)
      | inr (inr (inl (e, n))) ↦ ground (arith, e)
      | inr (inr (inr (inl (e, n, f, p, pos, eq, v)))) ↦ ground (arith, e)
      | inr (inr (inr (inr (e, n, f, p, v)))) ↦ ground (arith, e, outside)
    ]

-- `BeginOperation` that returns an error has changed nothing.
begin-error :
    (s s' : SyncState) (op intent : Str) (secrets : List (Option Secret)) (t : ℕ)
    (metadata : Option OperationMetadata) (e : OperationError)
    → begin_operation s op intent secrets t metadata ≡ (s', some e)
    → s' ≡ s
unfolding begin_operation
begin-error s s' op intent secrets t metadata e h = ground arith

-- Every pending outcome belongs to the operation, or has no operation where `loose` allows it.
abbrev pub PendingIsCurrent : Bool → Str → Map KeyOutcome → Type 0
PendingIsCurrent loose current = All (λ e.
    (is_pending e.1.status
      && not (str_eq e.1.operation_id current || loose && is_empty e.1.operation_id))
    ≡ false)

interrupt_all-none_pending :
    (loose : Bool) (current next : Str) (t : ℕ) (m : Map KeyOutcome)
    → PendingIsCurrent true current m
    → PendingIsCurrent loose next (interrupt_all current t m)
unfolding interrupt_all
interrupt_all-none_pending loose current next t [] h = tt
interrupt_all-none_pending loose current next t ((k, o) ∷ m) h =
    (ground (arith, h.0), interrupt_all-none_pending loose current next t m h.1)

str_eq_empty : (a c : Str) → is_empty c ≡ true → str_eq a c ≡ is_empty a
unfolding str_eq
str_eq_empty [] [] h = refl
str_eq_empty (x ∷ a) [] h = refl
str_eq_empty a (y ∷ c) h = absurd (ground (arith, h))

idle-none_pending :
    (current next : Str) (m : Map KeyOutcome)
    → PendingIsCurrent true current m
    → (is_empty current ≡ false
        → any_outcome (λ o. str_eq o.operation_id current && is_pending o.status) m ≡ false)
    → PendingIsCurrent true next m
unfolding any_outcome
idle-none_pending current next [] h n = tt
idle-none_pending current next ((k, o) ∷ m) h n = (
  elim (Bool-cases (is_empty current)) [
    | inl e ↦ ground (arith, h.0, str_eq_empty o.operation_id current e)
    | inr e ↦ ground (arith, h.0, n e)
  ],
  idle-none_pending current next m h.1 (λ e. ground (arith, n e)),
)

enroll-PendingIsCurrent :
    (loose : Bool) (next : Str) (t : ℕ) (metadata : Option OperationMetadata)
    (secrets : List (Option Secret)) (m : Map KeyOutcome)
    → PendingIsCurrent loose next m
    → PendingIsCurrent loose next (enroll (fresh_outcome next t metadata) secrets m)
unfolding enroll
enroll-PendingIsCurrent loose next t metadata [] m h = h
enroll-PendingIsCurrent loose next t metadata (none ∷ secrets) m h =
    enroll-PendingIsCurrent loose next t metadata secrets m h
enroll-PendingIsCurrent loose next t metadata (some secret ∷ secrets) m h =
    enroll-PendingIsCurrent loose next t metadata secrets _ (
      All-insert
        (λ o.
          (is_pending o.status
            && not (str_eq o.operation_id next || loose && is_empty o.operation_id))
          ≡ false)
        secret.key (fresh_outcome next t metadata) m (ground (arith, str_eq_refl next)) h)

settled-PendingIsCurrent :
    (s : SyncState) (next : Str) (t : ℕ)
    → PendingIsCurrent true s.operation_id s.outcomes
    → PendingIsCurrent
        (not (operation_pending s))
        next
        (if operation_pending s then interrupt_all s.operation_id t s.outcomes else s.outcomes)
settled-PendingIsCurrent s next t h = elim (Bool-cases (operation_pending s)) [
  | inl p ↦ rw p (interrupt_all-none_pending false s.operation_id next t s.outcomes h)
  | inr p ↦ rw p (
      idle-none_pending s.operation_id next s.outcomes h
        (unfold operation_pending in λ e. ground (arith, p, e)))
]

-- After BeginOperation succeeds over a journal whose pending outcomes are those of the operation
-- before or have no operation, every pending outcome is one of the new operation. The one exception
-- is an outcome without an operation where the operation before had nothing pending.
pub begin-PendingIsCurrent :
    (s s' : SyncState) (op intent : Str) (secrets : List (Option Secret)) (t : ℕ)
    (metadata : Option OperationMetadata)
    → begin_operation s op intent secrets t metadata ≡ (s', none)
    → PendingIsCurrent true s.operation_id s.outcomes
    → (s'.operation_id ≡ op) × PendingIsCurrent (not (operation_pending s)) op s'.outcomes
begin-PendingIsCurrent s s' op intent secrets t metadata h p =
    let started : start_operation s op intent secrets t (normalized metadata) ≡ s' =
      unfold begin_operation in ground (arith, h) in
    rw (← started) (
      unfold start_operation in
      (
        refl,
        enroll-PendingIsCurrent (not (operation_pending s)) op t (normalized metadata) secrets _
            (settled-PendingIsCurrent s op t p),
      ))
