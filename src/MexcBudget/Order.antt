-- ===== src/MexcBudget/Order.antt =====
-- ORDER BY keeps the rows, and a full window of recent rows always waits.
use prep_watchdeck.Prelude.{
  ℕ, suc, ◌-◌, ◌≤◌, ◌<◌, ◌≡◌, refl, Bool, true, List, [], ◌∷◌, arith, length, count, filter, All,
  All-get_elem?, All-filter_of, length-filter, inl, inr, ltb, leb, Bool-cases,
}
use prep_watchdeck.MexcBudget.{
  Attempt, BudgetLane, Meta, insert_by_time, order_by_time, capacity_wait, is_recent, in_lane,
  lane_limit, admission_delay,
}

count-insert :
    (p : Attempt → Bool) (a : Attempt) (rows : List Attempt)
    → count p (insert_by_time a rows) ≡ count p (a ∷ rows)
unfolding insert_by_time
count-insert p a [] = refl
count-insert p a (b ∷ rows) = ground (arith, count-insert p a rows)

pub count-order_by_time :
    (p : Attempt → Bool) (rows : List Attempt) → count p (order_by_time rows) ≡ count p rows
unfolding order_by_time
count-order_by_time p [] = refl
count-order_by_time p (a ∷ rows) =
    ground (arith, count-insert p a (order_by_time rows), count-order_by_time p rows)

length-insert :
    (a : Attempt) (rows : List Attempt) → length (insert_by_time a rows) ≡ suc (length rows)
unfolding insert_by_time
length-insert a [] = refl
length-insert a (b ∷ rows) = ground (arith, length-insert a rows)

pub length-order_by_time : (rows : List Attempt) → length (order_by_time rows) ≡ length rows
unfolding order_by_time
length-order_by_time [] = refl
length-order_by_time (a ∷ rows) =
    omega (arith, length-insert a (order_by_time rows), length-order_by_time rows)

module _ (P : Attempt → Type 0) where
  All-insert :
      (a : Attempt) (rows : List Attempt) → P a → All P rows → All P (insert_by_time a rows)
  unfolding insert_by_time
  All-insert a [] h hs = (h, tt)
  All-insert a (b ∷ rows) h hs = elim (Bool-cases (ltb b.at_ms a.at_ms)) [
    | inl e ↦ rw e (hs.0, All-insert a rows h hs.1)
    | inr e ↦ rw e (h, (hs.0, hs.1))
  ]

  pub All-order_by_time : (rows : List Attempt) → All P rows → All P (order_by_time rows)
  unfolding order_by_time
  All-order_by_time [] hs = tt
  All-order_by_time (a ∷ rows) hs =
      All-insert a (order_by_time rows) hs.0 (All-order_by_time rows hs.1)

-- At the limit, the row that has to leave first is still in the window.
wait_of_full :
    (now limit : ℕ) (rows : List Attempt)
    → 0 < limit
    → limit ≤ length rows
    → All (λ a. is_recent now a ≡ true) rows
    → 0 < capacity_wait now limit rows
unfolding capacity_wait
wait_of_full now limit rows pos full recent =
    let (a, found, h) =
      All-get_elem? (λ a. is_recent now a ≡ true) rows (length rows - limit) (omega arith) recent in
    rw found (ground (arith, h))

pub room_of_no_wait :
    (now limit : ℕ) (rows : List Attempt)
    → 0 < limit
    → All (λ a. is_recent now a ≡ true) rows
    → capacity_wait now limit rows ≡ 0
    → length rows < limit
room_of_no_wait now limit rows pos recent none_left = elim (Bool-cases (leb limit (length rows))) [
  | inl e ↦ absurd (ground (arith, wait_of_full now limit rows pos (ground (arith, e)) recent))
  | inr e ↦ ground (arith, e)
]

lane_limit_pos : (lane : BudgetLane) → 0 < lane_limit lane
lane_limit_pos BudgetLane.funding = omega arith
lane_limit_pos BudgetLane.foreground = omega arith
lane_limit_pos BudgetLane.recovery = omega arith

-- A delay of 0 leaves room in the window and in the lane, and no cooldown is running.
pub room_of_no_delay :
    (now : ℕ) (lane : BudgetLane) (meta : Meta) (kept : List Attempt)
    → All (λ a. is_recent now a ≡ true) kept
    → admission_delay now lane meta (order_by_time kept) ≡ 0
    → (length kept < 8)
      × (count (in_lane lane) kept < lane_limit lane)
      × (meta.cooldown_until_ms ≤ now)
unfolding admission_delay
room_of_no_delay now lane meta kept recent e =
    let rows = order_by_time kept in
    let ordered = All-order_by_time (λ a. is_recent now a ≡ true) kept recent in
    let mine = filter (in_lane lane) rows in
    let whole = room_of_no_wait now 8 rows (omega arith) ordered (omega arith) in
    let part =
      room_of_no_wait now (lane_limit lane) mine (lane_limit_pos lane)
        (All-filter_of (λ a. is_recent now a ≡ true) (in_lane lane) rows ordered) (omega arith) in
    (
      omega (arith, whole, length-order_by_time kept),
      omega
          (arith, part, length-filter (in_lane lane) rows, count-order_by_time (in_lane lane) kept),
      omega arith,
    )
