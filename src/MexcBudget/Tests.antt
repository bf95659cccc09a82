-- ===== src/MexcBudget/Tests.antt =====
-- Tests of the admission, and its theorems at concrete inputs.
use prep_watchdeck.Prelude.{
  ℕ, ◌+◌, ◌≤◌, ◌≡◌, ◌≢◌, refl, Option, none, some, List, [], ◌∷◌, All, arith,
}
use prep_watchdeck.MexcBudget.{
  BudgetLane, funding, foreground, recovery, transaction, admission_delay, capacity_wait,
  order_by_time, insert_by_time,
}
use prep_watchdeck.MexcBudget.Limits.{Call, run, new_file, KeepsLimits}
use prep_watchdeck.MexcBudget.Window.{run-KeepsLimits}
use prep_watchdeck.MexcBudget.Cooldown.{requests, cooldown_blocks}
use prep_watchdeck.MexcBudget.Acquire.{Round, waiting, acquire, round_delay, pause}
use prep_watchdeck.MexcBudget.Retry.{acquire_ends}

abbrev ask : BudgetLane → ℕ → Call
ask lane now = record { lane = some lane; cooldown_ms = 0; now = now }

abbrev asks : List Call
asks =
    ask foreground 1000
    ∷ ask foreground 1001
    ∷ ask foreground 1002
    ∷ ask funding 900
    ∷ ask recovery 1003
    ∷ ask foreground 3000
    ∷ []

-- The third foreground request waits, the one whose clock is behind is refused.
asks_admit :
    (run asks (new_file, [])).1
    ≡ record { at_ms = 1000; lane = foreground }
      ∷ record { at_ms = 1001; lane = foreground }
      ∷ record { at_ms = 1003; lane = recovery }
      ∷ record { at_ms = 3000; lane = foreground }
      ∷ []
unfolding run transaction admission_delay capacity_wait order_by_time insert_by_time
asks_admit = refl

run-KeepsLimits_example : KeepsLimits (run asks (new_file, [])).1
run-KeepsLimits_example = run-KeepsLimits asks

cooldown_blocks_example :
    All
      (λ a. 1000 + 2500 ≤ a.at_ms)
      (requests
        (ask foreground 1500 ∷ ask foreground 3600 ∷ [])
        (transaction none 2500 1000 new_file).1)
unfolding transaction
cooldown_blocks_example =
    cooldown_blocks 2500 1000 new_file (ask foreground 1500 ∷ ask foreground 3600 ∷ []) refl

abbrev round : ℕ → Option ℕ → ℕ → Round
round before wall after = record { before = before; others = []; wall_ms = wall; after = after }

abbrev rounds : List Round
rounds = round 0 none 10 ∷ round 500 (some 1000) 510 ∷ []

-- The first round does not reach the file.
abbrev later_rounds : List Round
later_rounds = round 0 none 10 ∷ round 100 (some 5000) 110 ∷ []

acquire_ends_example : (acquire foreground (some 500) 0 rounds (new_file, [])).0 ≢ waiting
unfolding pause round_delay
acquire_ends_example =
    acquire_ends foreground 500 0 (round 0 none 10) (round 500 (some 1000) 510 ∷ []) (new_file, [])
      (omega arith) (omega arith) (omega arith, omega arith, omega arith)
