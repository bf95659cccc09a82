-- ===== src/MexcBudget.antt =====
-- The shared admission of MEXC HTTP requests:
-- apps/market-core/src/prep_watchdeck_market/mexc_budget.py.
-- The SQLite file is the record `Database`; one `BEGIN IMMEDIATE` transaction is one call of
-- `transaction`, so the processes that share the file interleave whole transactions.
mod Order
pub mod Limits
pub mod Acquire
pub mod Retry
pub mod Window
pub mod Cooldown
mod Tests
use prep_watchdeck.Prelude.{
  ℕ, zero, suc, ◌+◌, ◌-◌, max, ◌&&◌, Bool, true, false, Option, none, some, List, [], ◌∷◌, ◌++◌,
  length, get_elem?, filter, not, leb, ltb, ◌==◌, if◌then◌else◌, Result, ok, err,
}

pub data BudgetLane : Type 0 where
  funding foreground recovery : BudgetLane

abbrev pub lane_limit : BudgetLane → ℕ
lane_limit funding = 4
lane_limit foreground = 2
lane_limit recovery = 2

abbrev pub lane_eq : BudgetLane → BudgetLane → Bool
lane_eq funding funding = true
lane_eq foreground foreground = true
lane_eq recovery recovery = true
lane_eq _ _ = false

abbrev pub window_ms : ℕ
window_ms = 2000

abbrev pub application_id : ℕ
application_id = 1296390211

pub data BudgetError : Type 0 where
  -- `MexcBudgetUnavailable`
  unavailable : BudgetError
  -- the `TypeError` of unpacking a missing row
  malformed : BudgetError

-- a row of `mexc_budget_attempts`
pub record Attempt : Type 0 where
  pub at_ms : ℕ
  pub lane : BudgetLane

-- the row of `mexc_budget_meta`
pub record Meta : Type 0 where
  pub version : ℕ
  pub cooldown_until_ms : ℕ
  pub last_clock_ms : ℕ

pub record Database : Type 0 where
  pub application : ℕ
  -- whether `sqlite_master` lists a table
  pub has_tables : Bool
  pub meta : Option Meta
  pub attempts : List Attempt

abbrev pub fresh_meta : Meta
fresh_meta = record { version = 1; cooldown_until_ms = 0; last_clock_ms = 0 }

-- PRAGMA application_id, CREATE TABLE and the first row
abbrev pub create_tables : Database → Database
create_tables db = record {
  application = application_id;
  has_tables = true;
  meta = some fresh_meta;
  attempts = [];
}

open_admission : Database → Result BudgetError Database
open_admission db =
    if db.application == 0
    then (if db.has_tables then err unavailable else ok (create_tables db))
    else if db.application == application_id
    then ok db
    else err unavailable

-- ORDER BY at_ms
pub insert_by_time : Attempt → List Attempt → List Attempt
insert_by_time a [] = a ∷ []
insert_by_time a (b ∷ rows) =
    let rest = insert_by_time a rows in if ltb b.at_ms a.at_ms then b ∷ rest else a ∷ b ∷ rows

pub order_by_time : List Attempt → List Attempt
order_by_time [] = []
order_by_time (a ∷ rows) = insert_by_time a (order_by_time rows)

-- what `DELETE … WHERE at_ms <= now - WINDOW_MS` leaves; the difference may be negative there, so
-- the comparison is written as a sum
abbrev pub is_recent : ℕ → Attempt → Bool
is_recent now a = ltb now (a.at_ms + window_ms)

abbrev pub in_lane : BudgetLane → Attempt → Bool
in_lane lane a = lane_eq a.lane lane

-- `max(0, rows[-limit][0] + WINDOW_MS - now)` once the rows reach the limit, else 0: `-` stops at
-- 0, as `max(0, *waits)` does
pub capacity_wait : ℕ → ℕ → List Attempt → ℕ
capacity_wait now limit rows =
    if leb limit (length rows)
    then (elim (get_elem? rows (length rows - limit)) [
      | none ↦ 0
      | some a ↦ a.at_ms + window_ms - now
    ])
    else 0

pub admission_delay : ℕ → BudgetLane → Meta → List Attempt → ℕ
admission_delay now lane meta rows = max (meta.cooldown_until_ms - now) (
    max (capacity_wait now 8 rows)
      (capacity_wait now (lane_limit lane) (filter (in_lane lane) rows)))

-- the part of the transaction after the clock check, for an admission
pub admit : BudgetLane → ℕ → Meta → Database → ℕ × Database
admit lane now meta db =
    let kept = filter (is_recent now) db.attempts in
    let delay = admission_delay now lane meta (order_by_time kept) in
    let db' = record db { meta = some (record meta { last_clock_ms = now }); attempts = kept } in
    if delay == 0
    then (0, record db' { attempts = kept ++ record { at_ms = now; lane = lane } ∷ [] })
    else (delay, db')

-- the part of the transaction after the clock check, for a cooldown
pub extend_cooldown : ℕ → ℕ → Meta → Database → ℕ × Database
extend_cooldown cooldown_ms now meta db = (
  0,
  record db {
    meta = some (record meta {
      last_clock_ms = now;
      cooldown_until_ms = max meta.cooldown_until_ms (now + cooldown_ms);
    });
  },
)

pub after_clock : Option BudgetLane → ℕ → ℕ → Meta → Database → ℕ × Database
unfolding extend_cooldown admit
after_clock none cooldown_ms now meta db = extend_cooldown cooldown_ms now meta db
after_clock (some lane) cooldown_ms now meta db = admit lane now meta db

pub check_meta :
    Option BudgetLane → ℕ → ℕ → Option Meta → Database → Result BudgetError (ℕ × Database)
unfolding after_clock
check_meta lane cooldown_ms now none db = err malformed
check_meta lane cooldown_ms now (some meta) db =
    if not (meta.version == 1)
    then err unavailable
    else if ltb now meta.last_clock_ms
    then err unavailable
    else ok (after_clock lane cooldown_ms now meta db)

-- a raise inside the transaction ends in ROLLBACK
abbrev pub settle : Database → Result BudgetError (ℕ × Database) → Result BudgetError ℕ × Database
settle db (ok (delay, db')) = (ok delay, db')
settle db (err e) = (err e, db)

-- `_transaction(lane, cooldown_ms)` with the clock reading that it makes, in milliseconds
unfoldable pub transaction : Option BudgetLane → ℕ → ℕ → Database → Result BudgetError ℕ × Database
unfolding open_admission check_meta
transaction lane cooldown_ms now db = settle db (elim (open_admission db) [
  | err e ↦ err e
  | ok db' ↦ check_meta lane cooldown_ms now db'.meta db'
])
