-- ===== src/BookWalk.antt =====
-- The estimates of walking an order book: `estimate_book_walks`, `unavailable_book_walks` and
-- `_walk_levels` of apps/market-core/src/prep_watchdeck_market/selection.py. Python's decimal
-- arithmetic rounds, so its operations are a parameter, and nothing is assumed of them.
pub mod Walks
mod Tests
use Prim.Native.String
use prep_watchdeck.Prelude.{
  ℕ, ◌+◌, Bool, true, false, not, ◌||◌, String, Option, none, some, List, [], ◌∷◌, map, ltb,
  if◌then◌else◌, Result, ok, err, ◌>>=◌, ◌>>◌, raise_if,
}
use prep_watchdeck.Time.{DateTime, is_utc_zone, second}
use prep_watchdeck.Text.{is_blank}
use prep_watchdeck.Depth.{is_usd_like}

pub record DecimalOps (D : Type 0) : Type 0 where
  pub number : ℕ → D
  pub add : D → D → D
  pub sub : D → D → D
  pub mul : D → D → D
  pub div : D → D → D
  pub less : D → D → Bool

pub record Level (D : Type 0) : Type 0 where
  pub price : D
  pub size_base : D

pub record BookWalkFill (D : Type 0) : Type 0 where
  pub base_size : D
  pub average_price : D
  pub top_price_impact_bps : D

pub data WalkReason : Type 0 where
  non_usd_like_quote invalid_depth_time stale_depth insufficient_depth : WalkReason
  -- a reason that the caller of `unavailable_book_walks` gives
  given : String → WalkReason

pub data WalkFault : Type 0 where
  not_utc empty_reason : WalkFault

-- the last three fields are constants of the class
pub record BookWalkEstimate (D : Type 0) : Type 0 where
  pub notional_quote : D
  pub buy : Option (BookWalkFill D)
  pub sell : Option (BookWalkFill D)
  pub buy_unavailable_reason : Option WalkReason
  pub sell_unavailable_reason : Option WalkReason

abbrev pub book_depth_max_age : ℕ
book_depth_max_age = 10000000

abbrev pub require_utc : DateTime → Result WalkFault Unit
require_utc value = raise_if (not (is_utc_zone value.zone)) not_utc

abbrev pub reason_if_none {ℓ} : {A : Type ℓ} → Option A → Option WalkReason
reason_if_none none = some insufficient_depth
reason_if_none (some fill) = none

-- `now - received_at > BOOK_DEPTH_MAX_AGE` once the depth is not later than now
unfoldable pub unavailable_reason : (String → String) → String → ℕ → ℕ → Option WalkReason
unavailable_reason upper quote_asset received now =
    if not (is_usd_like upper quote_asset)
    then some non_usd_like_quote
    else if ltb now received
    then some invalid_depth_time
    else if ltb (received + book_depth_max_age) now
    then some stale_depth
    else none

module _ {D : Type 0} (ops : DecimalOps D) where
  abbrev pub notionals : List D
  notionals = ops.number 100 ∷ ops.number 500 ∷ ops.number 1000 ∷ []

  -- `min(a, b)` and `max(a, b)`: the first where neither is the better
  abbrev pub min_of : D → D → D
  min_of a b = if ops.less b a then b else a

  abbrev pub max_of : D → D → D
  max_of a b = if ops.less a b then b else a

  abbrev pub positive : D → Bool
  positive d = ops.less (ops.number 0) d

  -- what a level takes of the remaining quote
  abbrev pub consumed : Level D → D → D
  consumed l remaining = min_of remaining (ops.mul l.price l.size_base)

  -- the loop over the levels: the remaining quote and the base size
  unfoldable pub walk : List (Level D) → D → D → D × D
  walk [] remaining base_size = (remaining, base_size)
  walk (l ∷ levels) remaining base_size =
      let left = ops.sub remaining (consumed l remaining) in
      let base' = ops.add base_size (ops.div (consumed l remaining) l.price) in
      let rest = walk levels left base' in if not (positive left) then (left, base') else rest

  abbrev pub impact_bps : Bool → D → D → D
  impact_bps true average top =
      ops.mul (ops.sub (ops.div average top) (ops.number 1)) (ops.number 10000)
  impact_bps false average top =
      ops.mul (ops.sub (ops.number 1) (ops.div average top)) (ops.number 10000)

  abbrev pub fill : Bool → D → D → D → BookWalkFill D
  fill is_buy top notional base_size =
      let average = ops.div notional base_size in
      record {
        base_size = base_size;
        average_price = average;
        top_price_impact_bps = max_of (ops.number 0) (impact_bps is_buy average top);
      }

  -- `_walk_levels`
  unfoldable pub walk_levels : List (Level D) → D → Bool → Option (BookWalkFill D)
  unfolding walk
  walk_levels [] notional is_buy = none
  walk_levels (l ∷ levels) notional is_buy =
      let (remaining, base_size) = walk (l ∷ levels) notional (ops.number 0) in
      if positive remaining || not (positive base_size)
      then none
      else some (fill is_buy l.price notional base_size)

  abbrev pub unavailable : WalkReason → D → BookWalkEstimate D
  unavailable reason notional = record {
    notional_quote = notional;
    buy = none;
    sell = none;
    buy_unavailable_reason = some reason;
    sell_unavailable_reason = some reason;
  }

  abbrev pub estimated : List (Level D) → List (Level D) → D → BookWalkEstimate D
  estimated bids asks notional = record {
    notional_quote = notional;
    buy = walk_levels asks notional true;
    sell = walk_levels bids notional false;
    buy_unavailable_reason = reason_if_none (walk_levels asks notional true);
    sell_unavailable_reason = reason_if_none (walk_levels bids notional false);
  }

  -- one turn of the loop over the notionals
  abbrev pub estimate : List (Level D) → List (Level D) → Option WalkReason → D → BookWalkEstimate D
  estimate bids asks (some reason) notional = unavailable reason notional
  estimate bids asks none notional = estimated bids asks notional

  unfoldable pub estimate_book_walks :
      (String → String)
      → List (Level D)
      → List (Level D)
      → String
      → DateTime
      → DateTime
      → Result WalkFault (List (BookWalkEstimate D))
  unfolding unavailable_reason walk_levels
  estimate_book_walks upper bids asks quote_asset received_at now = do
    require_utc received_at
    require_utc now
    ok (
        map
          (estimate bids asks
            (unavailable_reason upper quote_asset received_at.instant now.instant))
          notionals)

  unfoldable pub unavailable_book_walks : String → Result WalkFault (List (BookWalkEstimate D))
  unavailable_book_walks reason = do
    raise_if (is_blank reason) empty_reason
    ok (map (unavailable (given reason)) notionals)
