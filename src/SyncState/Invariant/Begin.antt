-- ===== src/SyncState/Invariant/Begin.antt =====
-- `beginOperation` keeps the journal consistent, if the operation's identifier is a new one.
use skret.Base.{
  ℕ, ◌≡◌, refl, arith, true, false, not, ◌&&◌, ◌||◌, List, [], ◌∷◌, Option, none, some, Str, Map,
  str_eq, ◌⊎◌, inl, inr, Bool-cases, All, All-map, All-insert, is_empty, trim_space,
}
use skret.Provider.{Secret}
use skret.SyncState.{OperationPhase, KeyOutcome, SyncState, OperationMetadata, phase_succeeded}
use skret.SyncState.Begin.{
  any_outcome, has_retained_operation, is_unpromoted, operation_pending, begin_operation,
  start_operation, interrupt_all, enroll, fresh_outcome, check_metadata, normalized,
}
use skret.SyncState.Invariant.{IsWell, AllWell, IsConsistent}
use skret.SyncState.Invariant.Promote.{supersede-IsWell, fresh-IsWell, interrupt-IsWell}

-- No outcome of the journal belongs to the operation `op`, and `op` is not the current one.
pub record IsFresh (op : Str) (s : SyncState) : Type 0 where
  pub not_current : str_eq s.operation_id op ≡ false
  pub unused : any_outcome (λ o. str_eq o.operation_id op) s.outcomes ≡ false

module _ (op : Str) where
  supersede-All :
      (current : Str) (phase : OperationPhase) (m : Map KeyOutcome)
      → AllWell current phase m
      → (phase_succeeded phase
          || not (any_outcome (λ o. str_eq o.operation_id current && is_unpromoted o.metadata) m))
        ≡ true
      → any_outcome (λ o. str_eq o.operation_id op) m ≡ false
      → All (λ e. IsWell op OperationPhase.pending e.1 × (str_eq e.1.operation_id op ≡ false)) m
  unfolding any_outcome
  supersede-All current phase [] w free fresh = tt
  supersede-All current phase ((k, o) ∷ m) w free fresh = (
    (
      supersede-IsWell current op phase o w.0 (ground (arith, free)) (ground (arith, fresh)),
      ground (arith, fresh),
    ),
    supersede-All current phase m w.1 (ground (arith, free)) (ground (arith, fresh)),
  )

  interrupt_all-AllWell :
      (current : Str) (t : ℕ) (m : Map KeyOutcome)
      → str_eq current op ≡ false
      → All (λ e. IsWell op OperationPhase.pending e.1 × (str_eq e.1.operation_id op ≡ false)) m
      → AllWell op OperationPhase.pending (interrupt_all current t m)
  unfolding interrupt_all
  interrupt_all-AllWell current t [] ne w = tt
  interrupt_all-AllWell current t ((k, o) ∷ m) ne w = (
    interrupt-IsWell current op t o w.0.0 w.0.1 ne o.metadata refl,
    interrupt_all-AllWell current t m ne w.1,
  )

  enroll-AllWell :
      (o : KeyOutcome) (secrets : List (Option Secret)) (m : Map KeyOutcome)
      → IsWell op OperationPhase.pending o
      → AllWell op OperationPhase.pending m
      → AllWell op OperationPhase.pending (enroll o secrets m)
  unfolding enroll
  enroll-AllWell o [] m w ws = ws
  enroll-AllWell o (none ∷ secrets) m w ws = enroll-AllWell o secrets m w ws
  enroll-AllWell o (some secret ∷ secrets) m w ws =
      enroll-AllWell o secrets _ w
        (All-insert (IsWell op OperationPhase.pending) secret.key o m w ws)

module _ (s : SyncState) (c : IsConsistent s) (op : Str) (fresh : IsFresh op s) where
  -- Nothing that the journal holds stands in the way of the next operation.
  free-All :
      has_retained_operation s ≡ false
      → All
          (λ e. IsWell op OperationPhase.pending e.1 × (str_eq e.1.operation_id op ≡ false))
          s.outcomes
  unfolding has_retained_operation
  free-All h = elim (Bool-cases (is_empty s.operation_id)) [
    | inl idle ↦ rw (c.idle idle) tt
    | inr busy ↦
        supersede-All op s.operation_id s.phase s.outcomes c.each (ground (arith, h, busy))
          fresh.unused
  ]

  start-AllWell :
      (intent : Str) (secrets : List (Option Secret)) (t : ℕ) (metadata : Option OperationMetadata)
      → has_retained_operation s ≡ false
      → check_metadata metadata t ≡ none
      → AllWell op OperationPhase.pending (start_operation s op intent secrets t metadata).outcomes
  unfolding start_operation
  start-AllWell intent secrets t metadata h m =
      let free = free-All h in
      enroll-AllWell op (fresh_outcome op t metadata) secrets _ (fresh-IsWell op t metadata m)
        (elim (Bool-cases (operation_pending s)) [
          | inl p ↦
              rw p (interrupt_all-AllWell op s.operation_id t s.outcomes fresh.not_current free)
          | inr p ↦ rw p (All-map s.outcomes (λ e w. w.0) free)
        ])

  start-IsConsistent :
      (intent : Str) (secrets : List (Option Secret)) (t : ℕ) (metadata : Option OperationMetadata)
      → has_retained_operation s ≡ false
      → check_metadata metadata t ≡ none
      → is_empty op ≡ false
      → IsConsistent (start_operation s op intent secrets t metadata)
  start-IsConsistent intent secrets t metadata h m ne =
      let w = start-AllWell intent secrets t metadata h m in
      unfold start_operation in
      record { each = w; waits = refl; header = c.header; idle = λ e. cc (ne, e) }

begin-cases :
    (s : SyncState) (op intent : Str) (secrets : List (Option Secret)) (t : ℕ)
    (metadata : Option OperationMetadata)
    → ((begin_operation s op intent secrets t metadata).0 ≡ s)
      ⊎ (((begin_operation s op intent secrets t metadata).0
            ≡ start_operation s op intent secrets t (normalized metadata))
          × (has_retained_operation s ≡ false)
          × (check_metadata (normalized metadata) t ≡ none)
          × (is_empty (trim_space op) ≡ false))
unfolding begin_operation
begin-cases s op intent secrets t metadata = ground arith

trim_space-ne_empty : (op : Str) → is_empty (trim_space op) ≡ false → is_empty op ≡ false
unfolding trim_space
trim_space-ne_empty [] h = cc h
trim_space-ne_empty (c ∷ op) h = refl

pub begin_operation-IsConsistent :
    (s : SyncState) (op intent : Str) (secrets : List (Option Secret)) (t : ℕ)
    (metadata : Option OperationMetadata)
    → IsConsistent s
    → IsFresh op s
    → IsConsistent (begin_operation s op intent secrets t metadata).0
begin_operation-IsConsistent s op intent secrets t metadata c fresh =
    elim (begin-cases s op intent secrets t metadata) [
      | inl e ↦ rw e c
      | inr (e, h, m, ne) ↦ rw e (
          start-IsConsistent s c op fresh intent secrets t (normalized metadata) h m
            (trim_space-ne_empty op ne))
    ]
