-- ===== src/Retention/Exhausted.antt =====
-- What a pruning leaves: at most a batch goes, and without a full batch nothing is left to delete.
use prep_watchdeck.Prelude.{
  ℕ, ◌≤◌, ◌≡◌, ◌⊎◌, inl, inr, Bool, true, false, not, ◌||◌, List, arith, filter, count, Bool-cases,
  ◌==◌, ok, >>-eq-ok,
}
use prep_watchdeck.Time.{DateTime}
use prep_watchdeck.Retention.{check_arguments, delete_batch, is_expired, raw_retention}
use prep_watchdeck.Retention.Batch.{delete_batch-keeps, delete_batch-le, full_or_exhausted}
use prep_watchdeck.Retention.Selected.{
  SelectedTables, SelectedRetentionResult, RawRow, RawRetentionResult, is_doomed_selected,
  is_doomed_row, is_doomed_lease, is_doomed_raw, delete_selected_rows, prune_tables,
  prune_selected_history, prune_raw_market_history,
}
use prep_watchdeck.Retention.Leases.{committed, history_ok}

young_not_doomed :
    (now : ℕ) (r : RawRow)
    → not (is_expired raw_retention now r.observed_at) ≡ true
    → is_doomed_raw now r ≡ false
unfolding is_doomed_raw
young_not_doomed now r h = ground (arith, h)

-- what may still be deleted
abbrev pub IsPruned : ℕ → SelectedTables → SelectedTables → Type 0
IsPruned now before t =
    (count (is_doomed_selected now) t.raw ≡ 0)
    × (count (is_doomed_row now before.leases) t.depth ≡ 0)
    × (count (is_doomed_row now before.leases) t.trades ≡ 0)
    × (count (is_doomed_lease now t.raw t.depth t.trades) t.leases ≡ 0)

tables_bounded :
    (now n : ℕ) (t : SelectedTables)
    → let r = (prune_tables now n t).0 in
      (r.raw_deleted ≤ n) × (r.depth_deleted ≤ n) × (r.trades_deleted ≤ n) × (r.leases_deleted ≤ n)
unfolding prune_tables delete_selected_rows
tables_bounded now n t = (
  delete_batch-le _ _ n t.raw,
  delete_batch-le _ _ n t.depth,
  delete_batch-le _ _ n t.trades,
  delete_batch-le _ _ n t.leases,
)

tables_exhausted :
    (now n : ℕ) (t : SelectedTables)
    → (prune_tables now n t).0.has_more ≡ false
    → IsPruned now t (prune_tables now n t).1
unfolding prune_tables delete_selected_rows
tables_exhausted now n t h =
    let (raw, depth, trades, leases) = none_full _ _ _ _ h in
    (
      full_or_exhausted _ _ n t.raw raw,
      full_or_exhausted _ _ n t.depth depth,
      full_or_exhausted _ _ n t.trades trades,
      full_or_exhausted _ _ n t.leases leases,
    )
  where
    none_full :
        (a b c d : Bool)
        → (a || b || c || d) ≡ false
        → (a ≡ false) × (b ≡ false) × (c ≡ false) × (d ≡ false)
    none_full a b c d e =
        (ground (arith, e), ground (arith, e), ground (arith, e), ground (arith, e))

-- A pruning that is committed deletes at most a batch of each table; and if it reports no more, then
-- no row is left that its statements could have deleted.
pub history_exhausts :
    (now : DateTime) (n : ℕ) (broken : Bool) (t : SelectedTables)
    (x : SelectedRetentionResult × SelectedTables)
    → prune_selected_history now n broken t ≡ ok x
    → ((x.0.raw_deleted ≤ n)
        × (x.0.depth_deleted ≤ n)
        × (x.0.trades_deleted ≤ n)
        × (x.0.leases_deleted ≤ n))
      × ((x.0.has_more ≡ true) ⊎ IsPruned now.instant t x.1)
history_exhausts now n broken t x h =
    let (pos, same) = history_ok now n broken t x h in
    rw (← same) (
      tables_bounded now.instant n t,
      elim (Bool-cases (prune_tables now.instant n t).0.has_more) [
        | inl e ↦ inl e
        | inr e ↦ inr (tables_exhausted now.instant n t e)
      ],
    )

-- A pruning of the raw observations that is committed keeps every row younger than seven days and
-- two hours, deletes at most a batch, and reports more or leaves no older row that is not locked.
pub raw_exhausts :
    (now : DateTime) (n : ℕ) (broken : Bool) (rows : List RawRow)
    (x : RawRetentionResult × List RawRow)
    → prune_raw_market_history now n broken rows ≡ ok x
    → (filter (λ r. not (is_expired raw_retention now.instant r.observed_at)) x.1
        ≡ filter (λ r. not (is_expired raw_retention now.instant r.observed_at)) rows)
      × (x.0.deleted ≤ n)
      × ((x.0.has_more ≡ true) ⊎ (count (is_doomed_raw now.instant) x.1 ≡ 0))
unfolding prune_raw_market_history
raw_exhausts now n broken rows x h =
    let doomed = is_doomed_raw now.instant in
    let (checked, r) = >>-eq-ok (check_arguments now n) _ h in
    let same = committed broken _ x r in
    rw (← same) (
      delete_batch-keeps doomed (λ r. r.observed_at)
          (λ r. not (is_expired raw_retention now.instant r.observed_at))
          (λ r k. young_not_doomed now.instant r k) n rows,
      delete_batch-le doomed (λ r. r.observed_at) n rows,
      elim (Bool-cases ((delete_batch doomed (λ r. r.observed_at) n rows).1 == n)) [
        | inl e ↦ inl e
        | inr e ↦ inr (full_or_exhausted doomed (λ r. r.observed_at) n rows e)
      ],
    )
