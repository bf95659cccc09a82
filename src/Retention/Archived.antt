-- ===== src/Retention/Archived.antt =====
-- `prune_archived_partition` of retention.py with its helpers. The three tables of normalized
-- observations have one shape: the venue of the row's instrument version, the time by which it is
-- partitioned, and its last observation.
use prep_watchdeck.Prelude.{
  ℕ, ◌/◌, Bool, true, false, not, ◌&&◌, String, Option, none, some, List, [], ◌∷◌, any, leb, ltb,
  ◌==◌, if◌then◌else◌, Result, ok, err, ◌>>=◌, ◌>>◌, raise_if,
}
use prep_watchdeck.Time.{DateTime, is_aware_zone}
use prep_watchdeck.Text.{str_eq}
use prep_watchdeck.Venue.{Venue, venue_eq}
use prep_watchdeck.Retention.{
  RetentionFault, unreadable_manifest, bad_timestamp, escaping_path, prune_failed, check_arguments,
  is_expired, normalized_retention, delete_batch,
}

pub data ArchiveDataset : Type 0 where
  market_state_1m candle_1m funding_events : ArchiveDataset

abbrev pub dataset_eq : ArchiveDataset → ArchiveDataset → Bool
dataset_eq market_state_1m market_state_1m = true
dataset_eq candle_1m candle_1m = true
dataset_eq funding_events funding_events = true
dataset_eq _ _ = false

pub record TimedRow : Type 0 where
  pub venue : Venue
  pub at : ℕ
  pub observed_at : ℕ
  pub locked : Bool

pub record NormalizedTables : Type 0 where
  pub market_states : List TimedRow
  pub candles : List TimedRow
  pub fundings : List TimedRow

abbrev pub rows_of : ArchiveDataset → NormalizedTables → List TimedRow
rows_of market_state_1m t = t.market_states
rows_of candle_1m t = t.candles
rows_of funding_events t = t.fundings

abbrev pub with_rows : ArchiveDataset → List TimedRow → NormalizedTables → NormalizedTables
with_rows market_state_1m rows t = record t { market_states = rows }
with_rows candle_1m rows t = record t { candles = rows }
with_rows funding_events rows t = record t { fundings = rows }

-- a row of `archive_manifests`; `is_current` is `status = 'confirmed' AND superseded_at IS NULL`
pub record Manifest : Type 0 where
  pub manifest_id : ℕ
  pub dataset : ArchiveDataset
  pub venue : Venue
  pub partition_date : ℕ
  pub is_current : Bool
  pub relative_path : String
  pub sha256 : String
  pub confirmed_at : Option DateTime

pub data Reason : Type 0 where
  confirmed_manifest_missing archive_file_missing archive_checksum_mismatch : Reason
  manifest_changed archive_stale_late_correction : Reason

pub record RetentionResult : Type 0 where
  pub manifest_id : Option ℕ
  pub normalized_deleted : ℕ
  pub raw_deleted : ℕ
  pub has_more : Bool
  pub reason : Option Reason

-- `(at AT TIME ZONE 'UTC')::date`, in days since the epoch
abbrev pub date_of : ℕ → ℕ
date_of at = at / 86400000000

abbrev pub is_manifest_of : ArchiveDataset → Venue → ℕ → Manifest → Bool
is_manifest_of dataset venue date m =
    dataset_eq m.dataset dataset
    && venue_eq m.venue venue
    && m.partition_date == date
    && m.is_current

-- a manifest and the instant of its `confirmed_at`
abbrev pub Confirmed : Type 0
Confirmed = Manifest × ℕ

abbrev pub with_timestamp : Manifest → Option DateTime → Result RetentionFault (Option Confirmed)
with_timestamp m none = err bad_timestamp
with_timestamp m (some at) =
    if is_aware_zone at.zone then ok (some (m, at.instant)) else err bad_timestamp

-- `_confirmed_manifest`: a unique index allows one row at most
unfoldable pub confirmed_manifest :
    ArchiveDataset → Venue → ℕ → List Manifest → Result RetentionFault (Option Confirmed)
confirmed_manifest dataset venue date [] = ok none
confirmed_manifest dataset venue date (m ∷ manifests) =
    let rest = confirmed_manifest dataset venue date manifests in
    if is_manifest_of dataset venue date m then with_timestamp m m.confirmed_at else rest

abbrev pub in_partition : Venue → ℕ → TimedRow → Bool
in_partition venue date r = venue_eq r.venue venue && date_of r.at == date

-- `_has_late_correction`
unfoldable pub has_late_correction : Venue → ℕ → ℕ → List TimedRow → Bool
has_late_correction venue date confirmed_at rows =
    any (λ r. in_partition venue date r && ltb confirmed_at r.observed_at) rows

-- the WHERE of `_delete_normalized`, and SKIP LOCKED
unfoldable pub is_doomed : Venue → ℕ → ℕ → ℕ → TimedRow → Bool
is_doomed venue date now confirmed_at r =
    in_partition venue date r
    && is_expired normalized_retention now r.at
    && leb r.observed_at confirmed_at
    && not r.locked

-- What other systems answer. The manifests are read in a transaction of their own and may have
-- changed when the second one locks a manifest. A path is resolved below the archive's root, or
-- escapes it; `digest_at` is the checksum of the file at the path, if it is one.
pub record ArchiveInput : Type 0 where
  pub manifests : List Manifest
  pub unreadable : Bool
  pub escapes : String → Bool
  pub digest_at : String → Option String
  pub locked_manifests : List Manifest
  pub broken : Bool

-- `WHERE manifest_id = … AND status = 'confirmed' AND superseded_at IS NULL FOR SHARE`
abbrev pub is_still_current : ℕ → List Manifest → Bool
is_still_current id = any (λ m. m.manifest_id == id && m.is_current)

abbrev pub nothing_deleted : Option ℕ → Reason → RetentionResult
nothing_deleted id reason = record {
  manifest_id = id;
  normalized_deleted = 0;
  raw_deleted = 0;
  has_more = false;
  reason = some reason;
}

-- the transaction that deletes
unfoldable pub prune_confirmed :
    ArchiveDataset
    → Venue
    → ℕ
    → ℕ
    → ℕ
    → Confirmed
    → List Manifest
    → NormalizedTables
    → RetentionResult × NormalizedTables
prune_confirmed dataset venue date now batch_size m manifests t =
    let (rest, deleted) =
      delete_batch (is_doomed venue date now m.1) (λ r. r.at) batch_size (rows_of dataset t) in
    if not (is_still_current m.0.manifest_id manifests)
    then (nothing_deleted (some m.0.manifest_id) manifest_changed, t)
    else if has_late_correction venue date m.1 (rows_of dataset t)
    then (nothing_deleted (some m.0.manifest_id) archive_stale_late_correction, t)
    else (
      record {
        manifest_id = some m.0.manifest_id;
        normalized_deleted = deleted;
        raw_deleted = 0;
        has_more = deleted == batch_size;
        reason = none;
      },
      with_rows dataset rest t,
    )

abbrev pub commit_archived :
    Bool
    → RetentionResult × NormalizedTables
    → Result RetentionFault (RetentionResult × NormalizedTables)
commit_archived true x = err prune_failed
commit_archived false x = ok x

-- the file is there and is the archived one
abbrev pub check_digest : Manifest → Option String → Option Reason
check_digest m none = some archive_file_missing
check_digest m (some digest) =
    if str_eq digest m.sha256 then none else some archive_checksum_mismatch

unfoldable pub prune_manifest :
    ArchiveInput
    → ArchiveDataset
    → Venue
    → ℕ
    → ℕ
    → ℕ
    → NormalizedTables
    → Option Confirmed
    → Result RetentionFault (RetentionResult × NormalizedTables)
unfolding prune_confirmed
prune_manifest i dataset venue date now batch_size t none =
    ok (nothing_deleted none confirmed_manifest_missing, t)
prune_manifest i dataset venue date now batch_size t (some m) =
    if i.escapes m.0.relative_path
    then err escaping_path
    else elim (check_digest m.0 (i.digest_at m.0.relative_path)) [
      | some reason ↦ ok (nothing_deleted (some m.0.manifest_id) reason, t)
      | none ↦
          commit_archived i.broken
            (prune_confirmed dataset venue date now batch_size m i.locked_manifests t)
    ]

unfoldable pub prune_archived_partition :
    ArchiveInput
    → ArchiveDataset
    → Venue
    → ℕ
    → DateTime
    → ℕ
    → NormalizedTables
    → Result RetentionFault (RetentionResult × NormalizedTables)
unfolding confirmed_manifest prune_manifest
prune_archived_partition i dataset venue date now batch_size t = do
  check_arguments now batch_size
  raise_if i.unreadable unreadable_manifest
  manifest ← confirmed_manifest dataset venue date i.manifests
  prune_manifest i dataset venue date now.instant batch_size t manifest
