-- ===== src/MexcBudget/Acquire.antt =====
-- `acquire` and `cooldown` of `MexcHttpBudget`: the retry loops around the transaction.
-- Times of the monotonic clock are in microseconds. A round of a loop holds what the environment
-- does in it: the clock readings, the transactions of other processes before it, and whether its
-- own transaction reaches the file (`none`: `sqlite3.Error` or `OSError`).
use Prim.Native.Nat.{min, max}
use prep_watchdeck.Prelude.{
  ℕ, zero, ◌+◌, ◌*◌, ◌≡◌, Bool, true, false, Option, none, some, List, [], ◌∷◌, ◌++◌, ltb, leb,
  if◌then◌else◌, ◌&&◌, Result, ok, err,
}
use prep_watchdeck.MexcBudget.{Attempt, BudgetLane, BudgetError, Database, transaction}
use prep_watchdeck.MexcBudget.Limits.{Call, step, run}

pub record Round : Type 0 where
  pub before : ℕ
  pub others : List Call
  pub wall_ms : Option ℕ
  pub after : ℕ

pub data Progress : Type 0 where
  admitted refused waiting : Progress

abbrev pub World : Type 0
World = Database × List Attempt

abbrev pub is_zero : Result BudgetError ℕ → Bool
is_zero (ok zero) = true
is_zero _ = false

abbrev pub own_call : BudgetLane → ℕ → Call
own_call lane now = record { lane = some lane; cooldown_ms = 0; now = now }

abbrev pub reply : BudgetLane → ℕ → World → Result BudgetError ℕ
reply lane now w = (transaction (some lane) 0 now w.0).0

-- one transaction of the loop: whether `acquire` returns after it, and the file
own_try : Option ℕ → BudgetLane → ℕ → ℕ → World → Bool × World
own_try none lane deadline after w = (false, w)
own_try (some now) lane deadline after w =
    (is_zero (reply lane now w) && ltb after deadline, step (own_call lane now) w)

unfoldable pub try_acquire : BudgetLane → ℕ → Round → World → Bool × World
unfolding own_try
try_acquire lane deadline r w = own_try r.wall_ms lane deadline r.after (run r.others w)

abbrev pub delay_or_fifty : Result BudgetError ℕ → ℕ
delay_or_fifty (ok delay) = delay
delay_or_fifty (err e) = 50

-- `delay_ms`: 50 where the transaction raised
unfoldable pub round_delay : BudgetLane → Round → World → ℕ
round_delay lane r w = elim r.wall_ms [
  | none ↦ 50
  | some now ↦ delay_or_fifty (reply lane now (run r.others w))
]

-- `min(remaining, max(0.001, delay_ms / 1_000), 0.25)`, in microseconds
unfoldable pub pause : ℕ → ℕ → ℕ
pause remaining delay_ms = min remaining (min (max 1000 (delay_ms * 1000)) 250000)

unfoldable pub acquire_rounds : BudgetLane → ℕ → List Round → World → Progress × World
unfolding try_acquire
acquire_rounds lane deadline [] w = (waiting, w)
acquire_rounds lane deadline (r ∷ rounds) w =
    let (done, w') = try_acquire lane deadline r w in
    let rest = acquire_rounds lane deadline rounds w' in
    if leb deadline r.before then (refused, w) else if done then (admitted, w') else rest

-- `timeout` is `none` where it is not finite; a timeout that is not positive is 0
unfoldable pub acquire : BudgetLane → Option ℕ → ℕ → List Round → World → Progress × World
unfolding acquire_rounds
acquire lane none start rounds w = (refused, w)
acquire lane (some zero) start rounds w = (refused, w)
acquire lane (some timeout) start rounds w = acquire_rounds lane (start + timeout) rounds w

abbrev EndsWith : BudgetLane → World → Type 0
EndsWith lane w =
    (now : ℕ) × (rows : List Attempt) × (w.1 ≡ rows ++ record { at_ms = now; lane = lane } ∷ [])
