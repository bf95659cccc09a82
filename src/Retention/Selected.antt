-- ===== src/Retention/Selected.antt =====
-- `prune_raw_market_history`, `prune_selected_history` and `_delete_selected_rows` of retention.py.
-- `locked` says of a row whether another transaction holds its lock, so that SKIP LOCKED passes it
-- over. Of a row the model keeps what the statements read.
use prep_watchdeck.Prelude.{
  ℕ, Bool, true, false, not, ◌&&◌, ◌||◌, Option, none, some, List, [], ◌∷◌, any, ◌==◌,
  if◌then◌else◌, Result, ok, err, ◌>>◌,
}
use prep_watchdeck.Time.{DateTime}
use prep_watchdeck.Retention.{
  RetentionFault, prune_failed, check_arguments, is_expired, raw_retention, normalized_retention,
  delete_batch,
}

-- a row of `raw_market_observations`
pub record RawRow : Type 0 where
  pub observed_at : ℕ
  pub locked : Bool

pub record RawRetentionResult : Type 0 where
  pub deleted : ℕ
  pub has_more : Bool

unfoldable pub is_doomed_raw : ℕ → RawRow → Bool
is_doomed_raw now r = is_expired raw_retention now r.observed_at && not r.locked

-- whether the database fails, which rolls the transaction back
abbrev pub commit : {A : Type 0} → Bool → A → Result RetentionFault A
commit true a = err prune_failed
commit false a = ok a

unfoldable pub prune_raw_market_history :
    DateTime → ℕ → Bool → List RawRow → Result RetentionFault (RawRetentionResult × List RawRow)
prune_raw_market_history now batch_size broken rows = do
  check_arguments now batch_size
  let (rest, deleted) =
      delete_batch (is_doomed_raw now.instant) (λ r. r.observed_at) batch_size rows
  commit broken (record { deleted = deleted; has_more = deleted == batch_size }, rest)

-- a row of `selected_raw_observations`
pub record SelectedRaw : Type 0 where
  pub raw_selection : ℕ
  pub observed_at : ℕ
  pub locked : Bool

-- a row of `selected_depth_levels` or of `selected_trades`
pub record SelectedRow : Type 0 where
  pub selection : ℕ
  pub locked : Bool

-- a row of `selected_group_leases`; `selection_id` is its primary key
pub record Lease : Type 0 where
  pub selection_id : ℕ
  pub superseded_at : Option ℕ
  pub cleaned_at : Option ℕ
  pub locked : Bool

pub record SelectedTables : Type 0 where
  pub raw : List SelectedRaw
  pub depth : List SelectedRow
  pub trades : List SelectedRow
  pub leases : List Lease

pub record SelectedRetentionResult : Type 0 where
  pub raw_deleted : ℕ
  pub depth_deleted : ℕ
  pub trades_deleted : ℕ
  pub leases_deleted : ℕ
  pub has_more : Bool

abbrev pub coalesce : Option ℕ → ℕ → ℕ
coalesce none at = at
coalesce (some cleaned) at = cleaned

abbrev pub is_ended_at : ℕ → Option ℕ → Option ℕ → Bool
is_ended_at now none cleaned = false
is_ended_at now (some at) cleaned = is_expired normalized_retention now (coalesce cleaned at)

-- `superseded_at IS NOT NULL AND COALESCE(cleaned_at, superseded_at) < cutoff`
abbrev pub is_ended : ℕ → Lease → Bool
is_ended now l = is_ended_at now l.superseded_at l.cleaned_at

abbrev pub order_of : Option ℕ → ℕ
order_of none = 0
order_of (some at) = at

-- the lease of the primary key
unfoldable pub lease_of : List Lease → ℕ → Option Lease
lease_of [] id = none
lease_of (l ∷ leases) id =
    let rest = lease_of leases id in if l.selection_id == id then some l else rest

abbrev pub lease_is_ended : ℕ → Option Lease → Bool
lease_is_ended now none = false
lease_is_ended now (some l) = is_ended now l

abbrev pub superseded_of : Option Lease → ℕ
superseded_of none = 0
superseded_of (some l) = order_of l.superseded_at

unfoldable pub is_doomed_selected : ℕ → SelectedRaw → Bool
is_doomed_selected now r = is_expired raw_retention now r.observed_at && not r.locked

-- the row joined with its lease
unfoldable pub is_doomed_row : ℕ → List Lease → SelectedRow → Bool
is_doomed_row now leases r = lease_is_ended now (lease_of leases r.selection) && not r.locked

-- `_delete_selected_rows`, which is the same statement on either table
unfoldable pub delete_selected_rows : ℕ → ℕ → List Lease → List SelectedRow → List SelectedRow × ℕ
unfolding is_doomed_row
delete_selected_rows now batch_size leases rows =
    delete_batch (is_doomed_row now leases) (λ r. superseded_of (lease_of leases r.selection))
      batch_size rows

-- no row of the three tables has the selection
unfoldable pub is_unreferenced : List SelectedRaw → List SelectedRow → List SelectedRow → ℕ → Bool
is_unreferenced raw depth trades id =
    not (any (λ r. r.raw_selection == id) raw)
    && not (any (λ r. r.selection == id) depth)
    && not (any (λ r. r.selection == id) trades)

unfoldable pub is_doomed_lease :
    ℕ → List SelectedRaw → List SelectedRow → List SelectedRow → Lease → Bool
unfolding is_unreferenced
is_doomed_lease now raw depth trades l =
    is_ended now l && is_unreferenced raw depth trades l.selection_id && not l.locked

-- the four statements of the transaction
unfoldable pub prune_tables : ℕ → ℕ → SelectedTables → SelectedRetentionResult × SelectedTables
unfolding delete_selected_rows is_doomed_lease is_doomed_selected
prune_tables now batch_size t =
    let (raw, raw_deleted) =
      delete_batch (is_doomed_selected now) (λ r. r.observed_at) batch_size t.raw in
    let (depth, depth_deleted) = delete_selected_rows now batch_size t.leases t.depth in
    let (trades, trades_deleted) = delete_selected_rows now batch_size t.leases t.trades in
    let (leases, leases_deleted) =
      delete_batch (is_doomed_lease now raw depth trades) (λ l. order_of l.superseded_at) batch_size
        t.leases in
    (
      record {
        raw_deleted = raw_deleted;
        depth_deleted = depth_deleted;
        trades_deleted = trades_deleted;
        leases_deleted = leases_deleted;
        has_more =
            raw_deleted == batch_size
            || depth_deleted == batch_size
            || trades_deleted == batch_size
            || leases_deleted == batch_size;
      },
      record { raw = raw; depth = depth; trades = trades; leases = leases },
    )

unfoldable pub prune_selected_history :
    DateTime
    → ℕ
    → Bool
    → SelectedTables
    → Result RetentionFault (SelectedRetentionResult × SelectedTables)
unfolding prune_tables
prune_selected_history now batch_size broken t = do
  check_arguments now batch_size
  commit broken (prune_tables now.instant batch_size t)
