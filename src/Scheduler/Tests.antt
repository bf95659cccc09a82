-- ===== src/Scheduler/Tests.antt =====
-- Cycles on a concrete grid, and the theorems at them.
use prep_watchdeck.Prelude.{
  ℕ, ◌+◌, ◌*◌, ◌≤◌, ◌<◌, ◌≡◌, refl, Bool, true, false, some, List, [], ◌∷◌, length, String, arith,
  if◌then◌else◌, ok,
}
use prep_watchdeck.Time.{Zone, DateTime, utc, elsewhere, second}
use prep_watchdeck.Venue.{
  Venue, bitget, aster, timeout, fetch_timeout, venue_eq, safe_source_error_code,
}
use prep_watchdeck.Scheduler.{
  MarketBatch, L1Scheduler, ErrorCode, StoreResult, CycleRunResult, partial, source,
}
use prep_watchdeck.Scheduler.Cycle.{
  TaskEnd, raised, returned, CycleClock, stored, run_cycle, judge, unavailable_batch,
}
use prep_watchdeck.Scheduler.Batches.{AreBatchesOf, persisted-AreBatchesOf, reported_status}
use prep_watchdeck.Scheduler.Grid.{next_grid_at, next_grid_at_least, OnGrid}
use prep_watchdeck.Scheduler.Loop.{
  LoopRound, run_forever, skip_grid, Ascends, cycles-Ascends, grid_accounts,
}

abbrev now : DateTime
now = record { instant = 61000001; zone = utc }

-- a zone that puts its clocks back by an hour
abbrev set_back : ℕ → ℕ → ℕ
set_back t delta = t + delta + 3600 * second

next_grid_at_least_example :
    (61000001 ≤ 120000000)
    × (120000000 < 61000001 + 60 * second)
    × OnGrid 60 120000000
    × ◌≡◌ {A = Zone} utc utc
unfolding next_grid_at
next_grid_at_least_example =
    next_grid_at_least set_back now (record { instant = 120000000; zone = utc }) 60
      (λ t delta. refl) refl

-- In a zone that puts its clocks back meanwhile, the time returned is an hour late.
hour_late :
    next_grid_at set_back (record { instant = 61000001; zone = elsewhere }) 60
    ≡ ok (record { instant = 3720000000; zone = elsewhere })
unfolding next_grid_at
hour_late = refl

abbrev long_cycle : List LoopRound
long_cycle =
    record { stops = false; raises = false; finished_at = 100 }
    ∷ record { stops = false; raises = false; finished_at = 250000000 }
    ∷ record { stops = false; raises = false; finished_at = 310000000 }
    ∷ record { stops = true; raises = false; finished_at = 0 }
    ∷ []

-- The second cycle is finished after three more grid times.
long_cycle_skips :
    run_forever 60000000 long_cycle 60000000 0
    ≡ (60000000 ∷ 120000000 ∷ 300000000 ∷ [], 360000000, 2, false)
unfolding run_forever skip_grid
long_cycle_skips = refl

-- The store fails in the second cycle.
raising_cycle :
    run_forever 60000000
      (record { stops = false; raises = false; finished_at = 100 }
        ∷ record { stops = false; raises = true; finished_at = 0 }
        ∷ [])
      60000000
      0
    ≡ (60000000 ∷ 120000000 ∷ [], 120000000, 0, true)
unfolding run_forever skip_grid
raising_cycle = refl

cycles-Ascends_example : Ascends (run_forever 60000000 long_cycle 60000000 0).0 long_cycle
cycles-Ascends_example = cycles-Ascends 60000000 long_cycle 60000000 0 (omega arith)

grid_accounts_example :
    let (cycles, last, total, failed) = run_forever 60000000 long_cycle 60000000 0 in
    last + (if failed then 60000000 else 0) + 0 * 60000000
    ≡ 60000000 + (length cycles + total) * 60000000
grid_accounts_example = grid_accounts 60000000 long_cycle 60000000 0

abbrev scheduler : L1Scheduler
scheduler = record {
  fetchers =
      record { venue = bitget; endpoint = "a" } ∷ record { venue = aster; endpoint = "b" } ∷ [];
  interval = 60000000;
  deadline = 50000000;
  grid_skips = 0;
}

abbrev good : MarketBatch ℕ
good = record {
  venue = bitget;
  cycle_at = 120000000;
  observed_at = 121000000;
  endpoint = "a";
  payload_hash = "h";
  observations = 5 ∷ [];
}

abbrev tasks : Venue → TaskEnd ℕ
tasks v = if venue_eq v bitget then returned good else raised timeout

abbrev clock : CycleClock
clock = record { locked_at = 0; waiting_at = 1; fetched_at = 2000000; observed_at = λ v. 122000000 }

abbrev hash : ℕ → ErrorCode → Venue → String
hash at code venue = "hash"

abbrev at : DateTime
at = record { instant = 120000000; zone = utc }

abbrev outcome : StoreResult
outcome = record { status = partial }

abbrev missing : MarketBatch ℕ
missing = record {
  venue = aster;
  cycle_at = 120000000;
  observed_at = 122000000;
  endpoint = "b";
  payload_hash = "hash";
  observations = [];
}

persisted-AreBatchesOf_example :
    AreBatchesOf hash 120000000 tasks scheduler.fetchers (good ∷ missing ∷ [])
unfolding run_cycle judge unavailable_batch safe_source_error_code
persisted-AreBatchesOf_example =
    persisted-AreBatchesOf hash scheduler at false clock tasks (λ b. stored outcome)
      (good ∷ missing ∷ []) refl

abbrev report : CycleRunResult
report = record {
  cycle_at = 120000000;
  status = partial;
  store_result = some outcome;
  error_codes = source aster fetch_timeout ∷ [];
}

reported_status_example :
    ◌≡◌ {A = Bool} false false
    × (2000000 < 0 + 50000000)
    × (batches : List (MarketBatch ℕ)) × (result : StoreResult) × ((run_cycle hash scheduler at
          false clock tasks
          (λ b. stored outcome)).1
        ≡ some batches)
    × (stored outcome ≡ stored result)
    × (report.status ≡ result.status)
    × (report.cycle_at ≡ 120000000)
unfolding run_cycle judge unavailable_batch safe_source_error_code
reported_status_example =
    reported_status hash scheduler at false clock tasks (λ b. stored outcome) report refl (λ e. cc)
      (λ e. cc)
