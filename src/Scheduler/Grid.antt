-- ===== src/Scheduler/Grid.antt =====
-- `next_grid_at`, and the inner loop of `run_forever` that skips grid times.
use prep_watchdeck.Prelude.{
  ℕ, ◌+◌, ◌-◌, ◌*◌, ◌/◌, ◌%◌, ◌≤◌, ◌<◌, ◌≡◌, not, ◌&&◌, arith, inl, inr, Bool-cases, ◌==◌,
  if◌then◌else◌, Result, ok, err, ◌∙◌, refl,
}
use native.Mathlib.Nat.{mod-lt, div-add-mod'}
use prep_watchdeck.Time.{Zone, utc, DateTime, is_aware_zone, second}
use prep_watchdeck.Scheduler.{SchedulerFault, naive_time, bad_interval}

-- `datetime + timedelta`, which adds on the wall clock of the zone: in UTC it adds to the instant; in
-- a zone whose offset changes in between it does not, and `shift` is what `tzinfo` makes of it.
abbrev pub wall_clock_add : (ℕ → ℕ → ℕ) → Zone → ℕ → ℕ → ℕ
wall_clock_add shift utc t delta = t + delta
wall_clock_add shift _ t delta = shift t delta

-- The instant that `next_grid_at` returns. Offsets are of whole seconds, so the microseconds of the
-- wall clock are those of the instant; `int(value.timestamp())` is its whole seconds, which the float
-- holds exactly in the years that the program meets.
unfoldable pub grid_time : (ℕ → ℕ → ℕ) → ℕ → ℕ → ℕ
grid_time add v interval =
    let epoch_seconds = v / second in
    let remainder = epoch_seconds % interval in
    if remainder == 0 && v % second == 0
    then v
    else add (v - v % second) ((interval - remainder) * second)

unfoldable pub next_grid_at : (ℕ → ℕ → ℕ) → DateTime → ℕ → Result SchedulerFault DateTime
unfolding grid_time
next_grid_at shift value interval =
    if not (is_aware_zone value.zone)
    then err naive_time
    else if interval == 0
    then err bad_interval
    else ok (record value {
      instant = grid_time (wall_clock_add shift value.zone) value.instant interval;
    })

abbrev pub grid_instant : ℕ → ℕ → ℕ
grid_instant = grid_time ◌+◌

grid_time_fixed :
    (add : ℕ → ℕ → ℕ) (v i : ℕ)
    → ((t delta : ℕ) → add t delta ≡ t + delta)
    → grid_time add v i ≡ grid_instant v i
unfolding grid_time
grid_time_fixed add v i fixed = rw (fixed (v - v % second) ((i - (v / second) % i) * second)) refl

grid_time_ge : (v i : ℕ) → 0 < i → v ≤ grid_instant v i
unfolding grid_time
grid_time_ge v i pos = ground (arith, mod-lt (v / second) pos)

grid_time_lt : (v i : ℕ) → 0 < i → grid_instant v i < v + i * second
unfolding grid_time
grid_time_lt v i pos = ground (arith, mod-lt (v / second) pos)

abbrev pub OnGrid : ℕ → ℕ → Type 0
OnGrid i t = (k : ℕ) × (t ≡ k * i * second)

grid_time-OnGrid : (v i : ℕ) → 0 < i → OnGrid i (grid_instant v i)
unfolding grid_time
grid_time-OnGrid v i pos =
    let q = v / second in
    elim (Bool-cases (q % i == 0 && v % second == 0)) [
      | inl e ↦ (q / i, rw e (ground (arith, e, div-add-mod' q i)))
      | inr e ↦ (q / i + 1, rw e (ground (arith, e, div-add-mod' q i, mod-lt q pos)))
    ]

-- Let the zone of a time have a fixed offset, as UTC has: adding a timedelta to it adds to the
-- instant. Then `next_grid_at` returns, of a time with a timezone and a positive interval, the first
-- multiple of the interval that is not before the time, in the same timezone.
pub next_grid_at_least :
    (shift : ℕ → ℕ → ℕ) (value g : DateTime) (interval : ℕ)
    → ((t delta : ℕ) → wall_clock_add shift value.zone t delta ≡ t + delta)
    → next_grid_at shift value interval ≡ ok g
    → (value.instant ≤ g.instant)
      × (g.instant < value.instant + interval * second)
      × OnGrid interval g.instant
      × (g.zone ≡ value.zone)
unfolding next_grid_at
next_grid_at_least shift value g interval fixed h =
    let add = wall_clock_add shift value.zone in
    let same = grid_time_fixed add value.instant interval fixed in
    let e : (g.instant ≡ grid_time add value.instant interval)
        × (g.zone ≡ value.zone)
        × (0 < interval) =
      ground arith in
    let i : g.instant ≡ grid_instant value.instant interval = e.0 ∙ same in
    (
      rw i (grid_time_ge value.instant interval e.2),
      rw i (grid_time_lt value.instant interval e.2),
      rw i (grid_time-OnGrid value.instant interval e.2),
      e.1,
    )
