-- ===== src/Retention/Tests.antt =====
-- Prunings of concrete tables, and the theorems at them.
use prep_watchdeck.Prelude.{
  ℕ, ◌≤◌, ◌≡◌, ◌⊎◌, refl, true, false, Option, none, some, List, [], ◌∷◌, arith, filter, ok,
}
use prep_watchdeck.Time.{DateTime, utc}
use prep_watchdeck.Venue.{bitget}
use prep_watchdeck.Retention.{delete_batch}
use prep_watchdeck.Retention.Selected.{
  RawRow, RawRetentionResult, SelectedRow, Lease, SelectedTables, SelectedRetentionResult, lease_of,
  prune_selected_history, delete_selected_rows, is_doomed_lease, is_doomed_row, is_doomed_selected,
}
use prep_watchdeck.Retention.Leases.{
  is_active, has_row, IsReferential, active_kept, prune-IsReferential,
}
use prep_watchdeck.Retention.Exhausted.{IsPruned, history_exhausts}
use prep_watchdeck.Retention.Archived.{
  candle_1m, dataset_eq, TimedRow, NormalizedTables, rows_of, Manifest, RetentionResult,
  ArchiveInput, has_late_correction, is_doomed, prune_archived_partition,
}
use prep_watchdeck.Retention.Evidence.{IsArchived, deletes-IsArchived, stays, partition_keeps}

abbrev now : DateTime
now = record { instant = 1000000000000; zone = utc }

abbrev lease : ℕ → Option ℕ → Lease
lease id superseded = record {
  selection_id = id;
  superseded_at = superseded;
  cleaned_at = none;
  locked = false;
}

abbrev level : ℕ → SelectedRow
level id = record { selection = id; locked = false }

-- lease 1 is active; lease 2 ended long ago
abbrev tables : SelectedTables
tables = record {
  raw = record { raw_selection = 1; observed_at = 900000000000; locked = false } ∷ [];
  depth = level 2 ∷ level 1 ∷ [];
  trades = level 1 ∷ [];
  leases = lease 1 none ∷ lease 2 (some 7) ∷ [];
}

abbrev pruned : SelectedRetentionResult × SelectedTables
pruned = (
  record {
    raw_deleted = 0;
    depth_deleted = 1;
    trades_deleted = 0;
    leases_deleted = 1;
    has_more = false;
  },
  record {
    raw = record { raw_selection = 1; observed_at = 900000000000; locked = false } ∷ [];
    depth = level 1 ∷ [];
    trades = level 1 ∷ [];
    leases = lease 1 none ∷ [];
  },
)

tables-pruned : prune_selected_history now 10 false tables ≡ ok pruned
unfolding prune_selected_history delete_batch delete_selected_rows is_doomed_lease is_doomed_row
    is_doomed_selected lease_of
tables-pruned = refl

active_kept_example :
    (filter is_active pruned.1.leases ≡ filter is_active tables.leases)
    × (filter (has_row 1) pruned.1.depth ≡ filter (has_row 1) tables.depth)
    × (filter (has_row 1) pruned.1.trades ≡ filter (has_row 1) tables.trades)
unfolding lease_of
active_kept_example =
    active_kept now 10 false tables pruned 1 (lease 1 none) tables-pruned refl refl

tables-IsReferential : IsReferential tables
tables-IsReferential = record {
  raw = λ id h. ground (arith, h);
  depth = λ id h. ground (arith, h);
  trades = λ id h. ground (arith, h);
}

prune-IsReferential_example : IsReferential pruned.1
prune-IsReferential_example =
    prune-IsReferential now 10 false tables pruned tables-pruned tables-IsReferential

history_exhausts_example :
    ((0 ≤ 10) × (1 ≤ 10) × (0 ≤ 10) × (1 ≤ 10))
    × ((pruned.0.has_more ≡ true) ⊎ IsPruned now.instant tables pruned.1)
history_exhausts_example = history_exhausts now 10 false tables pruned tables-pruned

abbrev raw_row : ℕ → RawRow
raw_row at = record { observed_at = at; locked = false }

abbrev raw_rows : List RawRow
raw_rows = raw_row 900000000000 ∷ raw_row 9 ∷ raw_row 5 ∷ []

abbrev raw_pruned : RawRetentionResult × List RawRow
raw_pruned = (record { deleted = 1; has_more = true }, raw_row 900000000000 ∷ raw_row 9 ∷ [])

abbrev candle_row : ℕ → TimedRow
candle_row at = record { venue = bitget; at = at; observed_at = 100; locked = false }

abbrev candle_manifest : Manifest
candle_manifest = record {
  manifest_id = 3;
  dataset = candle_1m;
  venue = bitget;
  partition_date = 0;
  is_current = true;
  relative_path = "a";
  sha256 = "d";
  confirmed_at = some (record { instant = 200; zone = utc });
}

abbrev input : ArchiveInput
input = record {
  manifests = candle_manifest ∷ [];
  unreadable = false;
  escapes = λ path. false;
  digest_at = λ path. some "d";
  locked_manifests = candle_manifest ∷ [];
  broken = false;
}

abbrev normalized : NormalizedTables
normalized = record {
  market_states = [];
  candles = candle_row 60000000 ∷ candle_row 990000000000 ∷ [];
  fundings = [];
}

abbrev archived : RetentionResult × NormalizedTables
archived = (
  record {
    manifest_id = some 3;
    normalized_deleted = 1;
    raw_deleted = 0;
    has_more = false;
    reason = none;
  },
  record { market_states = []; candles = candle_row 990000000000 ∷ []; fundings = [] },
)

partition-pruned : prune_archived_partition input candle_1m bitget 0 now 10 normalized ≡ ok archived
unfolding prune_archived_partition has_late_correction delete_batch is_doomed
partition-pruned = refl

deletes-IsArchived_example : IsArchived input candle_1m bitget 0 normalized
deletes-IsArchived_example =
    deletes-IsArchived input candle_1m bitget 0 now 10 normalized archived partition-pruned
      (omega arith)

partition_keeps_example :
    filter
      (stays (dataset_eq candle_1m candle_1m) bitget 0 now.instant)
      (rows_of candle_1m archived.1)
    ≡ filter
        (stays (dataset_eq candle_1m candle_1m) bitget 0 now.instant)
        (rows_of candle_1m normalized)
partition_keeps_example =
    partition_keeps input candle_1m candle_1m bitget 0 now 10 normalized archived partition-pruned
