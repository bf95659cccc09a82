-- ===== src/Scheduler/Cycle.antt =====
-- `run_cycle` of `L1Scheduler`: what the tasks of the venues come to, and the persistence.
use Prim.Native.Nat.{min}
use prep_watchdeck.Prelude.{
  ℕ, ◌+◌, ◌-◌, Bool, not, ◌||◌, List, [], ◌∷◌, ◌++◌, String, Option, none, some, leb, ◌==◌,
  if◌then◌else◌, Result, ok, err,
}
use prep_watchdeck.Time.{DateTime, is_aware_zone}
use prep_watchdeck.Venue.{Venue, venue_eq, SourceFault, safe_source_error_code, fetch_timeout}
use prep_watchdeck.Scheduler.{
  MarketBatch, VenueFetcher, failed, skipped, ErrorCode, source, contract_mismatch,
  cycle_deadline_exceeded, persistence_error, StoreResult, CycleRunResult, L1Scheduler,
  SchedulerFault, naive_time,
}

-- how the task of a venue stands when its result is read
pub data TaskEnd (O : Type 0) : Type 0 where
  cancelled : TaskEnd O
  raised : SourceFault → TaskEnd O
  returned : MarketBatch O → TaskEnd O

-- how `wait_for(self._persist_cycle(…))` ends
pub data PersistEnd : Type 0 where
  stored : StoreResult → PersistEnd
  timed_out : PersistEnd
  broken : PersistEnd

pub data CycleEnd : Type 0 where
  -- `run_cycle` returned
  finished : CycleRunResult → CycleEnd
  -- it raised what the persistence raised, after it logged the result
  propagated : CycleRunResult → CycleEnd
  refused : SchedulerFault → CycleEnd

-- readings of the loop's clock and of `self._clock`
pub record CycleClock : Type 0 where
  pub locked_at : ℕ
  pub waiting_at : ℕ
  pub fetched_at : ℕ
  pub observed_at : Venue → ℕ

abbrev pub fetch_deadline : ℕ
fetch_deadline = 20000000

-- the timeout of `asyncio.wait`; `-` stops at 0, as `max(0.0, …)` does
pub fetch_timeout_of : ℕ → CycleClock → ℕ
fetch_timeout_of deadline clock = min fetch_deadline (clock.locked_at + deadline - clock.waiting_at)

abbrev failure : ℕ → List ErrorCode → CycleRunResult
failure cycle_at codes = record {
  cycle_at = cycle_at;
  status = failed;
  store_result = none;
  error_codes = codes;
}

unfoldable pub conclude : ℕ → List ErrorCode → PersistEnd → CycleEnd
conclude cycle_at codes (stored result) = finished (record {
  cycle_at = cycle_at;
  status = result.status;
  store_result = some result;
  error_codes = codes;
})
conclude cycle_at codes timed_out =
    finished (failure cycle_at (codes ++ cycle_deadline_exceeded ∷ []))
conclude cycle_at codes broken = propagated (failure cycle_at (codes ++ persistence_error ∷ []))

-- `hash` is `canonical_json_sha256` of the cycle, the code and the venue
module _ {O : Type 0} (hash : ℕ → ErrorCode → Venue → String) where
  unfoldable pub unavailable_batch : VenueFetcher → ℕ → ℕ → ErrorCode → MarketBatch O
  unavailable_batch f cycle_at observed_at code = record {
    venue = f.venue;
    cycle_at = cycle_at;
    observed_at = observed_at;
    endpoint = f.endpoint;
    payload_hash = hash cycle_at code f.venue;
    observations = [];
  }

  -- the error code of a task, or its batch
  unfoldable pub judge : VenueFetcher → ℕ → TaskEnd O → Result ErrorCode (MarketBatch O)
  judge f cycle_at cancelled = err (source f.venue fetch_timeout)
  judge f cycle_at (raised fault) = err (source f.venue (safe_source_error_code fault))
  judge f cycle_at (returned batch) =
      if not (venue_eq batch.venue f.venue) || not (batch.cycle_at == cycle_at)
      then err (contract_mismatch f.venue)
      else ok batch

  abbrev pub batch_of : VenueFetcher → ℕ → ℕ → Result ErrorCode (MarketBatch O) → MarketBatch O
  batch_of f cycle_at observed_at (ok batch) = batch
  batch_of f cycle_at observed_at (err code) = unavailable_batch f cycle_at observed_at code

  abbrev pub code_of : Result ErrorCode (MarketBatch O) → List ErrorCode
  code_of (ok batch) = []
  code_of (err code) = code ∷ []

  -- the loop over the fetchers: the batches and the error codes, in their order
  unfoldable pub collect :
      ℕ
      → CycleClock
      → (Venue → TaskEnd O)
      → List VenueFetcher
      → List (MarketBatch O) × List ErrorCode
  collect cycle_at clock tasks [] = ([], [])
  collect cycle_at clock tasks (f ∷ fetchers) =
      let (batches, codes) = collect cycle_at clock tasks fetchers in
      let judged = judge f cycle_at (tasks f.venue) in
      (batch_of f cycle_at (clock.observed_at f.venue) judged ∷ batches, code_of judged ++ codes)

  -- the end of the cycle, and the batches that were handed to the persistence, if it was called
  unfoldable pub run_cycle :
      L1Scheduler
      → DateTime
      → Bool
      → CycleClock
      → (Venue → TaskEnd O)
      → (List (MarketBatch O) → PersistEnd)
      → CycleEnd × Option (List (MarketBatch O))
  unfolding collect conclude
  run_cycle s at locked clock tasks persist =
      let (batches, codes) = collect at.instant clock tasks s.fetchers in
      if not (is_aware_zone at.zone)
      then (refused naive_time, none)
      else if locked
      then (
        finished (record {
          cycle_at = at.instant;
          status = skipped;
          store_result = none;
          error_codes = [];
        }),
        none,
      )
      else if leb (clock.locked_at + s.deadline) clock.fetched_at
      then (finished (failure at.instant (codes ++ cycle_deadline_exceeded ∷ [])), none)
      else (conclude at.instant codes (persist batches), some batches)
