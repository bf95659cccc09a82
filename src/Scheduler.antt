-- ===== src/Scheduler.antt =====
-- The fixed-grid scheduler of the L1 fetches: `L1Scheduler` of
-- apps/market-core/src/prep_watchdeck_market/scheduler.py, with `MarketBatch` of market_state.py.
pub mod Cycle
pub mod Batches
pub mod Grid
pub mod Loop
mod Tests
use prep_watchdeck.Prelude.{
  ℕ, ◌*◌, Bool, true, false, not, ◌||◌, ◌&&◌, List, [], ◌∷◌, String, Option, none, some, ltb, leb,
  any, ◌==◌, if◌then◌else◌, Result, ok, err, ◌>>=◌, ◌>>◌, raise_if,
}
use prep_watchdeck.Venue.{Venue, venue_eq, SourceCode, SourceFault}

-- `O` is the type of observations. `raw_payload` takes no part in a comparison and is left out.
pub record MarketBatch (O : Type 0) : Type 0 where
  pub venue : Venue
  pub cycle_at : ℕ
  pub observed_at : ℕ
  pub endpoint : String
  pub payload_hash : String
  pub observations : List O

pub record VenueFetcher : Type 0 where
  pub venue : Venue
  pub endpoint : String

pub data CycleStatus : Type 0 where
  succeeded partial failed skipped : CycleStatus

-- `f"{venue}:{code}"`, and the two codes of the persistence
pub data ErrorCode : Type 0 where
  source : Venue → SourceCode → ErrorCode
  contract_mismatch : Venue → ErrorCode
  cycle_deadline_exceeded : ErrorCode
  persistence_error : ErrorCode

-- of `MarketStoreResult`, what the scheduler reads
pub record StoreResult : Type 0 where
  pub status : CycleStatus

pub record CycleRunResult : Type 0 where
  pub cycle_at : ℕ
  pub status : CycleStatus
  pub store_result : Option StoreResult
  pub error_codes : List ErrorCode

-- durations in microseconds
pub record L1Scheduler : Type 0 where
  pub fetchers : List VenueFetcher
  pub interval : ℕ
  pub deadline : ℕ
  pub grid_skips : ℕ

pub data SchedulerFault : Type 0 where
  bad_fetchers bad_interval bad_deadline naive_time : SchedulerFault

abbrev pub has_venue : Venue → List VenueFetcher → Bool
has_venue v = any (λ f. venue_eq f.venue v)

-- `len(set(venues)) != len(venues)`
pub has_duplicate : List VenueFetcher → Bool
has_duplicate [] = false
has_duplicate (f ∷ fetchers) = has_venue f.venue fetchers || has_duplicate fetchers

abbrev pub is_empty {ℓ} : {A : Type ℓ} → List A → Bool
is_empty [] = true
is_empty (x ∷ xs) = false

-- `__init__`: a venue is one of the four by its type; the interval is in seconds
pub create : List VenueFetcher → ℕ → ℕ → Result SchedulerFault L1Scheduler
unfolding has_duplicate
create fetchers interval_seconds deadline = do
  raise_if (is_empty fetchers || has_duplicate fetchers) bad_fetchers
  raise_if (interval_seconds == 0) bad_interval
  raise_if (deadline == 0 || leb (interval_seconds * 1000000) deadline) bad_deadline
  ok (record {
    fetchers = fetchers;
    interval = interval_seconds * 1000000;
    deadline = deadline;
    grid_skips = 0;
  })
