-- ===== src/Scheduler/Loop.antt =====
-- `run_forever` of `L1Scheduler`: which cycles run, and which grid times are counted as skipped.
use prep_watchdeck.Prelude.{
  ℕ, zero, suc, ◌+◌, ◌*◌, ◌≤◌, ◌<◌, ◌≡◌, ◌⊎◌, refl, Bool, List, [], ◌∷◌, arith, inl, inr, length,
  Bool-cases, leb, if◌then◌else◌, true, false,
}

-- An iteration of the outer loop: whether the stop event came during the wait, whether `run_cycle`
-- raised, and what the clock read after the cycle.
pub record LoopRound : Type 0 where
  pub stops : Bool
  pub raises : Bool
  pub finished_at : ℕ

-- `while next_cycle <= now`, with the rounds that are left
unfoldable pub skip_grid : ℕ → ℕ → ℕ → ℕ → ℕ → ℕ × ℕ
skip_grid zero interval now next skips = (next, skips)
skip_grid (suc fuel) interval now next skips =
    let rest = skip_grid fuel interval now (next + interval) (skips + 1) in
    if leb next now then rest else (next, skips)

-- A round of the inner loop moves `next` by at least 1, so `now + 1` rounds are enough.
skip_grid_past :
    (fuel interval now next skips : ℕ)
    → 0 < interval
    → now < fuel + next
    → now < (skip_grid fuel interval now next skips).0
unfolding skip_grid
skip_grid_past zero interval now next skips pos h = omega arith
skip_grid_past (suc fuel) interval now next skips pos h =
    ground (arith, skip_grid_past fuel interval now (next + interval) (skips + 1) pos)

skip_grid_counts :
    (fuel interval now next skips : ℕ)
    → (skip_grid fuel interval now next skips).0 + skips * interval
      ≡ next + (skip_grid fuel interval now next skips).1 * interval
unfolding skip_grid
skip_grid_counts zero interval now next skips = refl
skip_grid_counts (suc fuel) interval now next skips =
    ground (arith, skip_grid_counts fuel interval now (next + interval) (skips + 1))

-- a grid time is skipped only if it has passed
skip_grid_tight :
    (fuel interval now next skips : ℕ)
    → ((skip_grid fuel interval now next skips).0 ≡ next)
      ⊎ ((skip_grid fuel interval now next skips).0 ≤ now + interval)
unfolding skip_grid
skip_grid_tight zero interval now next skips = inl refl
skip_grid_tight (suc fuel) interval now next skips = elim (Bool-cases (leb next now)) [
  | inr e ↦ rw e (inl refl)
  | inl e ↦ rw e (elim (skip_grid_tight fuel interval now (next + interval) (skips + 1)) [
    | inl same ↦ inr (ground (arith, e, same))
    | inr le ↦ inr le
  ])
]

-- The outer loop: the cycles that run, and at its end the next cycle, the count of skips and whether
-- an exception ended it. `run_cycle` logs an error of the store other than a timeout and raises it
-- again, and nothing catches it here: the loop ends before `next_cycle` moves on. The clock is the
-- default one, in UTC, so that adding a timedelta adds to the instant.
unfoldable pub run_forever : ℕ → List LoopRound → ℕ → ℕ → List ℕ × ℕ × ℕ × Bool
run_forever interval [] next skips = ([], next, skips, false)
run_forever interval (r ∷ rounds) next skips =
    let (next', skips') =
      skip_grid (suc r.finished_at) interval r.finished_at (next + interval) skips in
    let (cycles, last, total, raised) = run_forever interval rounds next' skips' in
    if r.stops
    then ([], next, skips, false)
    else if r.raises
    then (next ∷ [], next, skips, true)
    else (next ∷ cycles, last, total, raised)

-- Each cycle is later than the one before it, and than the time at which that one was finished.
abbrev pub Ascends : List ℕ → List LoopRound → Type 0
Ascends [] rounds = Unit
Ascends (c ∷ []) rounds = Unit
Ascends (c ∷ d ∷ cycles) [] = ⊥
Ascends (c ∷ d ∷ cycles) (r ∷ rounds) = (r.finished_at < d) × (c < d) × Ascends (d ∷ cycles) rounds

first_cycle :
    (interval : ℕ) (rounds : List LoopRound) (next skips : ℕ)
    → ((run_forever interval rounds next skips).0 ≡ [])
      ⊎ ((rest : List ℕ) × ((run_forever interval rounds next skips).0 ≡ next ∷ rest))
unfolding run_forever
first_cycle interval [] next skips = inl refl
first_cycle interval (r ∷ rounds) next skips = elim (Bool-cases r.stops) [
  | inl e ↦ rw e (inl refl)
  | inr e ↦ elim (Bool-cases r.raises) [
    | inl x ↦ rw (e, x) (inr (_, refl))
    | inr x ↦ rw (e, x) (inr (_, refl))
  ]
]

Ascends-cons :
    (c next : ℕ) (r : LoopRound) (rounds : List LoopRound) (cycles : List ℕ)
    → (cycles ≡ []) ⊎ ((rest : List ℕ) × (cycles ≡ next ∷ rest))
    → r.finished_at < next
    → c < next
    → Ascends cycles rounds
    → Ascends (c ∷ cycles) (r ∷ rounds)
Ascends-cons c next r rounds cycles (inl e) f l h = rw e tt
Ascends-cons c next r rounds cycles (inr (rest, e)) f l h = rw e (f, l, rw e at h)

skip_grid_grows :
    (fuel interval now next skips : ℕ) → next ≤ (skip_grid fuel interval now next skips).0
unfolding skip_grid
skip_grid_grows zero interval now next skips = omega arith
skip_grid_grows (suc fuel) interval now next skips =
    ground (arith, skip_grid_grows fuel interval now (next + interval) (skips + 1))

-- The cycles run in strictly ascending order, and none starts on a grid time that had passed when
-- the cycle before it was finished, whatever the clock reads.
pub cycles-Ascends :
    (interval : ℕ) (rounds : List LoopRound) (next skips : ℕ)
    → 0 < interval
    → Ascends (run_forever interval rounds next skips).0 rounds
unfolding run_forever
cycles-Ascends interval [] next skips pos = tt
cycles-Ascends interval (r ∷ rounds) next skips pos =
    let fuel = suc r.finished_at in
    let s = skip_grid fuel interval r.finished_at (next + interval) skips in
    elim (Bool-cases r.stops) [
      | inl e ↦ simp e tt
      | inr e ↦ elim (Bool-cases r.raises) [
        | inl x ↦ simp (e, x) tt
        | inr x ↦
            simp (e, x)
              (Ascends-cons next s.0 r rounds (run_forever interval rounds s.0 s.1).0
                (first_cycle interval rounds s.0 s.1)
                (skip_grid_past fuel interval r.finished_at (next + interval) skips pos
                  (omega arith))
                (omega (arith, skip_grid_grows fuel interval r.finished_at (next + interval) skips))
                (cycles-Ascends interval rounds s.0 s.1 pos))
      ]
    ]

-- Every grid time from the first cycle on is either run or counted in `grid_skips`: the next cycle
-- is as many intervals after the first as cycles ran and grid times were skipped. When an exception
-- ended the loop, the next cycle is the one that raised, which is among those that ran.
pub grid_accounts :
    (interval : ℕ) (rounds : List LoopRound) (next skips : ℕ)
    → let (cycles, last, total, raised) = run_forever interval rounds next skips in
      last + (if raised then interval else 0) + skips * interval
      ≡ next + (length cycles + total) * interval
unfolding run_forever
grid_accounts interval [] next skips = ground arith
grid_accounts interval (r ∷ rounds) next skips =
    let fuel = suc r.finished_at in
    let s = skip_grid fuel interval r.finished_at (next + interval) skips in
    elim (Bool-cases r.stops) [
      | inl e ↦ rw e (ground arith)
      | inr e ↦ elim (Bool-cases r.raises) [
        | inl x ↦ rw (e, x) (ground arith)
        | inr x ↦
            rw (e, x)
              (omega (
                arith,
                grid_accounts interval rounds s.0 s.1,
                skip_grid_counts fuel interval r.finished_at (next + interval) skips,
              ))
      ]
    ]
