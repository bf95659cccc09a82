-- ===== src/MexcBudget/Retry.antt =====
-- The retry loops of `MexcHttpBudget` end: each round sleeps at least a millisecond, or up to the
-- deadline. Also the loop of `MexcHttpBudget.cooldown`.
use Prim.Native.Nat.{min, max}
use prep_watchdeck.Prelude.{
  ℕ, zero, suc, ◌+◌, ◌-◌, ◌*◌, ◌/◌, ◌≤◌, ◌≢◌, Bool, true, false, Option, none, some, List, [], ◌∷◌,
  arith, length, inl, inr, leb, Bool-cases, if◌then◌else◌, Result, ok, err,
}
use prep_watchdeck.MexcBudget.{BudgetLane, BudgetError, transaction}
use prep_watchdeck.MexcBudget.Limits.{run, step}
use prep_watchdeck.MexcBudget.Acquire.{
  Round, Progress, admitted, refused, waiting, World, try_acquire, round_delay, pause,
  acquire_rounds, acquire,
}

-- The clock never runs backwards, and a sleep lasts as long as was asked for.
abbrev pub IsPaced : BudgetLane → ℕ → List Round → World → Type 0
IsPaced lane deadline [] w = Unit
IsPaced lane deadline (r ∷ []) w = r.before ≤ r.after
IsPaced lane deadline (r ∷ s ∷ rounds) w =
    (r.before ≤ r.after)
    × (r.after + pause (deadline - r.after) (round_delay lane r w) ≤ s.before)
    × IsPaced lane deadline (s ∷ rounds) (try_acquire lane deadline r w).1

pause_ge : (remaining delay : ℕ) → min remaining 1000 ≤ pause remaining delay
unfolding pause
pause_ge remaining delay = omega arith

rounds_end :
    (n : ℕ) (lane : BudgetLane) (deadline : ℕ) (r : Round) (rounds : List Round) (w : World)
    → deadline ≤ r.before + 1000 * n
    → n ≤ length rounds
    → IsPaced lane deadline (r ∷ rounds) w
    → (acquire_rounds lane deadline (r ∷ rounds) w).0 ≢ waiting
unfolding acquire_rounds
rounds_end zero lane deadline r rounds w d l p = ground arith
rounds_end (suc n) lane deadline r [] w d l p = absurd (omega arith)
rounds_end (suc n) lane deadline r (s ∷ rounds) w d l p =
    elim (Bool-cases (leb deadline r.before)) [
      | inl e ↦ rw e (λ h. cc)
      | inr e ↦ rw e (elim (Bool-cases (try_acquire lane deadline r w).0) [
        | inl t ↦ rw t (λ h. cc)
        | inr t ↦ rw t (
            rounds_end n lane deadline s rounds (try_acquire lane deadline r w).1
              (omega (arith, pause_ge (deadline - r.after) (round_delay lane r w))) (omega arith)
              p.2)
      ])
    ]

-- With a clock that does not run backwards and sleeps that last, `acquire` has returned or raised
-- after at most one round for each millisecond of its timeout, and two more.
pub acquire_ends :
    (lane : BudgetLane) (timeout start : ℕ) (r : Round) (rounds : List Round) (w : World)
    → start ≤ r.before
    → timeout / 1000 + 1 ≤ length rounds
    → IsPaced lane (start + timeout) (r ∷ rounds) w
    → (acquire lane (some timeout) start (r ∷ rounds) w).0 ≢ waiting
unfolding acquire
acquire_ends lane zero start r rounds w b l p = λ h. cc
acquire_ends lane (suc t) start r rounds w b l p =
    rounds_end (suc t / 1000 + 1) lane (start + suc t) r rounds w (omega arith) l p

-- `math.ceil(max(2, seconds) * 1_000)` of a duration in microseconds; `none` where it is not finite
-- or is negative, which counts as 2 seconds
pub cooldown_millis : Option ℕ → ℕ
cooldown_millis none = 2000
cooldown_millis (some micros) = (max 2000000 micros + 999) / 1000

abbrev is_ok : Result BudgetError ℕ → Bool
is_ok (ok delay) = true
is_ok (err e) = false

own_cooldown : Option ℕ → ℕ → World → Bool × World
own_cooldown none millis w = (false, w)
own_cooldown (some now) millis w = (
  is_ok (transaction none millis now w.0).0,
  step (record { lane = none; cooldown_ms = millis; now = now }) w,
)

pub cooldown_rounds : ℕ → ℕ → List Round → World → Progress × World
unfolding own_cooldown
cooldown_rounds millis deadline [] w = (waiting, w)
cooldown_rounds millis deadline (r ∷ rounds) w =
    let (done, w') = own_cooldown r.wall_ms millis (run r.others w) in
    let rest = cooldown_rounds millis deadline rounds w' in
    if leb deadline r.before then (refused, w) else if done then (admitted, w') else rest

pub cooldown : Option ℕ → ℕ → ℕ → List Round → World → Progress × World
unfolding cooldown_millis cooldown_rounds
cooldown seconds timeout start rounds w =
    cooldown_rounds (cooldown_millis seconds) (start + timeout) rounds w
