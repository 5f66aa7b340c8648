-- ===== src/SyncState/Invariant/Record.antt =====
-- Acknowledgements and approvals keep the journal consistent.
use skret.Base.{
  ℕ, ◌≡◌, refl, arith, Bool, true, false, [], ◌∷◌, some, Str, Map, All-map, All-insert, All-lookup,
  str_eq, str_eq_iff, is_empty, inl, inr, Bool-cases, lookup, insert,
}
use skret.SyncState.{OperationPhase, KeyOutcome, SyncState, is_succeeded, phase_succeeded}
use skret.SyncState.Begin.{any_outcome}
use skret.SyncState.Record.{put_outcome, demote, send_to_reconciliation}
use skret.SyncState.Invariant.{IsWell, IsConsistent, is_awaited}
use skret.SyncState.Invariant.Outcomes.{reconcile-IsWell, demote-IsWell}

any_outcome-insert :
    (test : KeyOutcome → Bool) (k : Str) (o o' : KeyOutcome) (m : Map KeyOutcome)
    → lookup k m ≡ some o
    → (test o ≡ true → test o' ≡ true)
    → any_outcome test m ≡ true
    → any_outcome test (insert k o' m) ≡ true
unfolding any_outcome insert lookup
any_outcome-insert test k o o' [] e f h = cc
any_outcome-insert test k o o' ((j, w) ∷ m) e f h =
    ground (arith, str_eq_iff j k, any_outcome-insert test k o o' m)

-- The outcome that an operation works on: it stands in the journal, and is of that operation.
pub record IsOwn (s : SyncState) (k : Str) (o : KeyOutcome) : Type 0 where
  pub found : lookup k s.outcomes ≡ some o
  pub owned : str_eq o.operation_id s.operation_id ≡ true

module _ (s : SyncState) (k : Str) (o : KeyOutcome) (own : IsOwn s k o) (c : IsConsistent s) where
  pub own-IsWell : IsWell s.operation_id s.phase o
  own-IsWell = All-lookup (IsWell s.operation_id s.phase) k o s.outcomes own.found c.each

  not_idle : is_empty s.operation_id ≡ false
  unfolding lookup
  not_idle = elim (Bool-cases (is_empty s.operation_id)) [
    | inr e ↦ e
    | inl e ↦ ground (arith, own.found, c.idle e)
  ]

  pub put-IsConsistent :
      (o' : KeyOutcome)
      → IsWell s.operation_id s.phase o'
      → (is_awaited s.operation_id o ≡ true → is_awaited s.operation_id o' ≡ true)
      → IsConsistent (put_outcome s k o')
  put-IsConsistent o' w f = record {
    each = All-insert (IsWell s.operation_id s.phase) k o' s.outcomes w c.each;
    waits = ground (
      arith,
      c.waits,
      any_outcome-insert (is_awaited s.operation_id) k o o' s.outcomes own.found f,
    );
    header = c.header;
    idle = λ e. cc (not_idle, e);
  }

  pub send-IsConsistent :
      (t : ℕ) → is_succeeded o.status ≡ false → IsConsistent (send_to_reconciliation s k o t)
  unfolding send_to_reconciliation
  send-IsConsistent t st =
      let open_phase : phase_succeeded s.phase ≡ false =
        ground (arith, own-IsWell.committed, own.owned, st) in
      record {
        each =
            All-insert (IsWell s.operation_id OperationPhase.needs_reconciliation) k (demote o t)
              s.outcomes (demote-IsWell s.operation_id s.phase o t own-IsWell own.owned st)
              (All-map s.outcomes (λ e. reconcile-IsWell s.operation_id s.phase e.1 open_phase)
                c.each);
        waits = refl;
        header = c.header;
        idle = λ e. cc (not_idle, e);
      }
