-- ===== src/MexcBudget/Limits.antt =====
-- Whatever the processes ask for and whatever their clocks show, the admitted requests keep to the
-- window and the lanes. The log is every request that `transaction` ever admitted, also those whose
-- rows are deleted.
use prep_watchdeck.Prelude.{
  ℕ, zero, ◌+◌, ◌≤◌, ◌<◌, ◌≡◌, Bool, true, false, Option, none, some, List, [], ◌∷◌, ◌++◌, arith,
  length, count, filter, length-filter, count-append, count_mono, count-filter-ge, inl, inr, ltb,
  leb, Bool-cases, ◌&&◌, Result, ok,
}
use prep_watchdeck.MexcBudget.{
  Attempt, BudgetLane, BudgetError, Meta, Database, is_recent, in_lane, lane_limit, lane_eq,
  window_ms, transaction,
}

-- one transaction of some process: the lane, or `none` for a cooldown, and the clock reading
pub record Call : Type 0 where
  pub lane : Option BudgetLane
  pub cooldown_ms : ℕ
  pub now : ℕ

-- what a transaction admitted: a delay of 0 for a lane
abbrev pub granted : Option BudgetLane → ℕ → Result BudgetError ℕ → List Attempt
granted (some lane) now (ok zero) = record { at_ms = now; lane = lane } ∷ []
granted _ now _ = []

abbrev pub step : Call → Database × List Attempt → Database × List Attempt
step c w =
    let (r, db') = transaction c.lane c.cooldown_ms c.now w.0 in
    (db', w.1 ++ granted c.lane c.now r)

unfoldable pub run : List Call → Database × List Attempt → Database × List Attempt
run [] w = w
run (c ∷ calls) w = run calls (step c w)

-- the file before the first transaction
abbrev pub new_file : Database
new_file = record { application = 0; has_tables = false; meta = none; attempts = [] }

abbrev pub in_window : ℕ → Attempt → Bool
in_window t a = leb t a.at_ms && ltb a.at_ms (t + window_ms)

abbrev pub in_window_lane : ℕ → BudgetLane → Attempt → Bool
in_window_lane t lane a = in_window t a && in_lane lane a

pub record KeepsLimits (log : List Attempt) : Type 0 where
  pub whole : (t : ℕ) → count (in_window t) log ≤ 8
  pub part : (t : ℕ) (lane : BudgetLane) → count (in_window_lane t lane) log ≤ lane_limit lane

-- The rows show, of the log, all that is recent at the clock or later.
abbrev Mirrors : Meta → List Attempt → List Attempt → Type 0
Mirrors meta rows log =
    (now : ℕ) → meta.last_clock_ms ≤ now → filter (is_recent now) rows ≡ filter (is_recent now) log

-- What a request at `now` adds to a window is at most what is recent at `now`, and itself.
window-le-recent :
    (t now : ℕ) (log : List Attempt)
    → now < t + window_ms
    → count (in_window t) log ≤ length (filter (is_recent now) log)
window-le-recent t now log h =
    rw length-filter (count_mono (in_window t) (is_recent now) (λ a e. ground (arith, e)) log)

lane-le-recent :
    (t now : ℕ) (lane : BudgetLane) (log : List Attempt)
    → now < t + window_ms
    → count (in_window_lane t lane) log ≤ count (in_lane lane) (filter (is_recent now) log)
lane-le-recent t now lane log h =
    count-filter-ge (in_window_lane t lane) (in_lane lane) (is_recent now)
      (λ a e. (ground (arith, e), ground (arith, e))) log

lane_eq_refl : (x y : BudgetLane) → lane_eq x y ≡ true → x ≡ y
lane_eq_refl x y h = ground arith

-- One more request at a time when the window and its lane have room.
module _ (lane : BudgetLane) (now : ℕ) (log : List Attempt)
    (room : length (filter (is_recent now) log) < 8)
    (lane_room : count (in_lane lane) (filter (is_recent now) log) < lane_limit lane)
    (h : KeepsLimits log) where
  abbrev pub new_request : Attempt
  new_request = record { at_ms = now; lane = lane }

  whole-append : (t : ℕ) → count (in_window t) (log ++ new_request ∷ []) ≤ 8
  whole-append t = elim (Bool-cases (in_window t new_request)) [
    | inl e ↦ rw count-append (ground (arith, e, window-le-recent t now log (ground (arith, e))))
    | inr e ↦ rw count-append (ground (arith, e, h.whole t))
  ]

  part-append :
      (t : ℕ) (l : BudgetLane) → count (in_window_lane t l) (log ++ new_request ∷ []) ≤ lane_limit l
  part-append t l = elim (Bool-cases (in_window_lane t l new_request)) [
    | inl e ↦
        let same : lane ≡ l = lane_eq_refl lane l (ground (arith, e)) in
        rw count-append
          (rw e (rw (← same) (omega (arith, lane-le-recent t now lane log (ground (arith, e))))))
    | inr e ↦ rw count-append (ground (arith, e, h.part t l))
  ]

  pub KeepsLimits-append : KeepsLimits (log ++ new_request ∷ [])
  KeepsLimits-append = record { whole = whole-append; part = part-append }
