-- ===== src/Scheduler/Batches.antt =====
-- What a cycle hands to the persistence: one batch for each fetcher, of its venue and of this cycle.
use prep_watchdeck.Prelude.{
  ℕ, ◌+◌, ◌<◌, ◌⊎◌, ◌≡◌, ◌≢◌, refl, inl, inr, Bool, false, not, ◌||◌, List, [], ◌∷◌, String, some,
  arith, Bool-cases, leb, ◌==◌,
}
use mathlib.Core.Path.{subst}
use prep_watchdeck.Time.{DateTime, is_aware_zone}
use prep_watchdeck.Venue.{Venue, venue_eq, venue_eq_sound}
use prep_watchdeck.Scheduler.{
  MarketBatch, VenueFetcher, failed, skipped, ErrorCode, CycleRunResult, L1Scheduler, StoreResult,
}
use prep_watchdeck.Scheduler.Cycle.{
  TaskEnd, cancelled, raised, returned, PersistEnd, stored, timed_out, broken, finished, CycleClock,
  unavailable_batch, judge, batch_of, collect, conclude, run_cycle,
}

-- a conclusion that is not a failure comes from the store
concluded :
    (cycle_at : ℕ) (codes : List ErrorCode) (p : PersistEnd) (r : CycleRunResult)
    → conclude cycle_at codes p ≡ finished r
    → r.status ≢ failed
    → (result : StoreResult) × (p ≡ stored result)
      × (r.status ≡ result.status)
      × (r.cycle_at ≡ cycle_at)
unfolding conclude
concluded cycle_at codes (stored result) r h n =
    (result, refl, ground (arith, h), ground (arith, h))
concluded cycle_at codes timed_out r h n = absurd (n (ground (arith, h)))
concluded cycle_at codes broken r h n = absurd (cc)

module _ {O : Type 0} (hash : ℕ → ErrorCode → Venue → String) where
  -- a batch of the venue and the cycle, that is either what its task returned or has no observations
  pub record IsBatchOf (cycle_at : ℕ) (tasks : Venue → TaskEnd O) (f : VenueFetcher)
      (b : MarketBatch O) : Type 0 where
    pub venue : b.venue ≡ f.venue
    pub cycle : b.cycle_at ≡ cycle_at
    pub origin : (tasks f.venue ≡ returned b) ⊎ (b.observations ≡ [])

  pub data AreBatchesOf (cycle_at : ℕ) (tasks : Venue → TaskEnd O)
      : List VenueFetcher → List (MarketBatch O) → Type 0 where
    none_left : AreBatchesOf cycle_at tasks [] []
    one_more :
        {f : VenueFetcher} {b : MarketBatch O} {fs : List VenueFetcher} {bs : List (MarketBatch O)}
        → IsBatchOf cycle_at tasks f b
        → AreBatchesOf cycle_at tasks fs bs
        → AreBatchesOf cycle_at tasks (f ∷ fs) (b ∷ bs)

  module _ (cycle_at : ℕ) (clock : CycleClock) (tasks : Venue → TaskEnd O) where
    judged-IsBatchOf :
        (f : VenueFetcher) (t : TaskEnd O)
        → tasks f.venue ≡ t
        → IsBatchOf cycle_at tasks f
            (batch_of hash f cycle_at (clock.observed_at f.venue) (judge hash f cycle_at t))
    unfolding judge unavailable_batch
    judged-IsBatchOf f cancelled e = record { venue = refl; cycle = refl; origin = inr refl }
    judged-IsBatchOf f (raised x) e = record { venue = refl; cycle = refl; origin = inr refl }
    judged-IsBatchOf f (returned b) e =
        elim (Bool-cases (not (venue_eq b.venue f.venue) || not (b.cycle_at == cycle_at))) [
          | inl k ↦ rw k (record { venue = refl; cycle = refl; origin = inr refl })
          | inr k ↦ rw k (record {
            venue = venue_eq_sound b.venue f.venue (ground (arith, k));
            cycle = ground (arith, k);
            origin = inl e;
          })
        ]

    collect-AreBatchesOf :
        (fs : List VenueFetcher)
        → AreBatchesOf cycle_at tasks fs (collect hash cycle_at clock tasks fs).0
    unfolding collect
    collect-AreBatchesOf [] = none_left
    collect-AreBatchesOf (f ∷ fs) =
        one_more (judged-IsBatchOf f (tasks f.venue) refl) (collect-AreBatchesOf fs)

  -- Whatever the tasks come to, the persistence is called with one batch for each fetcher, in their
  -- order: of the fetcher's venue and of this cycle, and either the very batch that its task
  -- returned or one without observations.
  pub persisted-AreBatchesOf :
      (s : L1Scheduler) (at : DateTime) (locked : Bool) (clock : CycleClock)
      (tasks : Venue → TaskEnd O) (persist : List (MarketBatch O) → PersistEnd)
      (batches : List (MarketBatch O))
      → (run_cycle hash s at locked clock tasks persist).1 ≡ some batches
      → AreBatchesOf at.instant tasks s.fetchers batches
  unfolding run_cycle
  persisted-AreBatchesOf s at locked clock tasks persist batches h =
      let same : (collect hash at.instant clock tasks s.fetchers).0 ≡ batches = ground (arith, h) in
      subst (λ (bs : List (MarketBatch O)). AreBatchesOf at.instant tasks s.fetchers bs) same
        (collect-AreBatchesOf at.instant clock tasks s.fetchers)

  -- A cycle that reports a status other than skipped or failed is one whose batches the persistence
  -- stored with that very status, and then the lock was free and the deadline had not passed.
  pub reported_status :
      (s : L1Scheduler) (at : DateTime) (locked : Bool) (clock : CycleClock)
      (tasks : Venue → TaskEnd O) (persist : List (MarketBatch O) → PersistEnd) (r : CycleRunResult)
      → (run_cycle hash s at locked clock tasks persist).0 ≡ finished r
      → r.status ≢ skipped
      → r.status ≢ failed
      → (locked ≡ false)
        × (clock.fetched_at < clock.locked_at + s.deadline)
        × (batches : List (MarketBatch O)) × (result : StoreResult) × ((run_cycle hash s at locked
              clock tasks persist).1
            ≡ some batches)
        × (persist batches ≡ stored result)
        × (r.status ≡ result.status)
        × (r.cycle_at ≡ at.instant)
  unfolding run_cycle
  reported_status s at locked clock tasks persist r h not_skipped not_failed =
      let cs = collect hash at.instant clock tasks s.fetchers in
      elim (Bool-cases (not (is_aware_zone at.zone))) [
        | inl e ↦ absurd (ground (arith, e))
        | inr e ↦ elim (Bool-cases locked) [
          | inl l ↦ absurd (not_skipped (ground (arith, e, l)))
          | inr l ↦ elim (Bool-cases (leb (clock.locked_at + s.deadline) clock.fetched_at)) [
            | inl d ↦ absurd (not_failed (ground (arith, e, l, d)))
            | inr d ↦
                let (result, p, st, c) =
                  concluded at.instant cs.1 (persist cs.0) r (ground (arith, e, l, d)) not_failed in
                (l, ground (arith, d), cs.0, result, ground (arith, e, l, d), p, st, c)
          ]
        ]
      ]
