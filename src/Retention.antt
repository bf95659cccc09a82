-- ===== src/Retention.antt =====
-- The bounded deletions of apps/market-core/src/prep_watchdeck_market/retention.py. A table is a
-- list of rows; a statement that deletes one batch is `delete_batch`.
pub mod Selected
pub mod Archived
pub mod Batch
pub mod Leases
pub mod Exhausted
pub mod Evidence
mod Tests
use prep_watchdeck.Prelude.{
  ℕ, zero, suc, ◌+◌, min, Bool, true, false, not, ◌&&◌, ◌||◌, Option, none, some, List, [], ◌∷◌,
  leb, ltb, ◌==◌, if◌then◌else◌, Result, ok, err, ◌>>=◌, ◌>>◌, raise_if,
}
use prep_watchdeck.Time.{DateTime, is_aware_zone}

-- 7 days and 2 hours, in microseconds
abbrev pub raw_retention : ℕ
raw_retention = 612000000000

-- 8 days
abbrev pub normalized_retention : ℕ
normalized_retention = 691200000000

abbrev pub default_delete_batch_size : ℕ
default_delete_batch_size = 10000

pub data RetentionFault : Type 0 where
  naive_now bad_batch_size : RetentionFault
  -- `RetentionError`
  unreadable_manifest bad_timestamp escaping_path prune_failed : RetentionFault

-- `_require_aware(now)` and the check on the batch size
abbrev pub check_arguments : DateTime → ℕ → Result RetentionFault Unit
check_arguments now batch_size = do
  raise_if (not (is_aware_zone now.zone)) naive_now
  raise_if (batch_size == 0 || ltb default_delete_batch_size batch_size) bad_batch_size

-- `at < now - retention`: the difference may be negative there
abbrev pub is_expired : ℕ → ℕ → ℕ → Bool
is_expired retention now at = ltb (at + retention) now

abbrev pub min_some : ℕ → Option ℕ → Option ℕ
min_some k none = some k
min_some k (some j) = some (min k j)

module _ {ℓ} {A : Type ℓ} where
  -- the least key of the rows that the test selects
  unfoldable pub oldest : (A → Bool) → (A → ℕ) → List A → Option ℕ
  oldest doomed key [] = none
  oldest doomed key (r ∷ rows) =
      let rest = oldest doomed key rows in if doomed r then min_some (key r) rest else rest

  -- the rows without the first one that the test selects at the key
  unfoldable pub remove_at : (A → Bool) → (A → ℕ) → ℕ → List A → List A
  remove_at doomed key k [] = []
  remove_at doomed key k (r ∷ rows) =
      let rest = remove_at doomed key k rows in if doomed r && key r == k then rows else r ∷ rest

  -- SELECT … WHERE doomed ORDER BY key LIMIT n, and the DELETE of what it selects: the rows that are
  -- left, and the row count. One row is taken after another, the least key first.
  unfoldable pub delete_batch : (A → Bool) → (A → ℕ) → ℕ → List A → List A × ℕ
  unfolding oldest remove_at
  delete_batch doomed key zero rows = (rows, 0)
  delete_batch doomed key (suc n) rows = elim (oldest doomed key rows) [
    | none ↦ (rows, 0)
    | some k ↦
        let (rest, deleted) = delete_batch doomed key n (remove_at doomed key k rows) in
        (rest, suc deleted)
  ]
