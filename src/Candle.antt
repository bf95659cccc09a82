-- ===== src/Candle.antt =====
-- One-minute candles: `Candle1m` of apps/market-core/src/prep_watchdeck_market/candles.py, and which
-- of two candles of one key is kept.
pub mod Shape
pub mod Preference
pub mod Store
pub mod Writer
pub mod Run
mod Unique
mod Received
mod Elements
pub mod Versions
pub mod Flushes
pub mod Batching
mod Tests
use prep_watchdeck.Prelude.{
  ℕ, ◌+◌, ◌%◌, Bool, true, false, not, ◌&&◌, ◌||◌, String, Option, none, some, max, ltb, ◌==◌,
  if◌then◌else◌, Result, ok, err, ◌>>=◌, ◌>>◌, raise_if,
}
use prep_watchdeck.Time.{DateTime, is_utc_zone, minute}
use prep_watchdeck.Text.{is_blank, str_eq}
use prep_watchdeck.Decimal.{Decimal, is_finite, is_positive, is_negative, dec_ltb}
use prep_watchdeck.Venue.{Venue, venue_eq}

pub data CandleFinality : Type 0 where
  confirmed derived_final : CandleFinality

-- an `int`, or a `bool`, which Python takes for one
pub data TradeCount : Type 0 where
  trades : ℕ → TradeCount
  negative : ℕ → TradeCount
  boolean : Bool → TradeCount

pub record Candle1m : Type 0 where
  pub venue : Venue
  pub source_symbol : String
  pub bucket_start : DateTime
  pub open_price : Decimal
  pub high_price : Decimal
  pub low_price : Decimal
  pub close_price : Decimal
  pub volume_base : Option Decimal
  pub volume_notional : Option Decimal
  pub trade_count : Option TradeCount
  pub finality : CandleFinality
  pub source_at : Option DateTime
  pub observed_at : DateTime
  pub finalized_at : Option DateTime
  pub source_contract_multiplier : Option Decimal

pub data CandleError : Type 0 where
  empty_symbol not_utc not_aligned early_finality bad_price bad_high bad_low bad_volume :
      CandleError
  bad_trade_count : CandleError

abbrev pub bucket_end : Candle1m → ℕ
bucket_end c = c.bucket_start.instant + minute

abbrev pub require_utc_datetime : DateTime → Result CandleError Unit
require_utc_datetime value = raise_if (not (is_utc_zone value.zone)) not_utc

abbrev pub check_finalized : Candle1m → Option DateTime → Result CandleError Unit
check_finalized c none = ok tt
check_finalized c (some at) = do
  require_utc_datetime at
  raise_if (ltb at.instant (max c.observed_at.instant (bucket_end c))) early_finality

abbrev pub check_source : Option DateTime → Result CandleError Unit
check_source none = ok tt
check_source (some at) = require_utc_datetime at

abbrev pub check_price : Decimal → Result CandleError Unit
check_price value = raise_if (not (is_finite value) || not (is_positive value)) bad_price

-- `max(a, b)` and `min(a, b)`: the first where neither is the better
abbrev pub dec_max : Decimal → Decimal → Decimal
dec_max a b = if dec_ltb a b then b else a

abbrev pub dec_min : Decimal → Decimal → Decimal
dec_min a b = if dec_ltb b a then b else a

abbrev pub check_volume : Option Decimal → Result CandleError Unit
check_volume none = ok tt
check_volume (some value) = raise_if (not (is_finite value) || is_negative value) bad_volume

abbrev pub check_trade_count : Option TradeCount → Result CandleError Unit
check_trade_count none = ok tt
check_trade_count (some (trades n)) = ok tt
check_trade_count (some (negative n)) = err bad_trade_count
check_trade_count (some (boolean b)) = err bad_trade_count

unfoldable pub check_times : Candle1m → Result CandleError Unit
check_times c = do
  raise_if (is_blank c.source_symbol) empty_symbol
  require_utc_datetime c.bucket_start
  raise_if (not (c.bucket_start.instant % minute == 0)) not_aligned
  require_utc_datetime c.observed_at
  check_finalized c c.finalized_at
  check_source c.source_at

unfoldable pub check_prices : Candle1m → Result CandleError Unit
check_prices c = do
  check_price c.open_price
  check_price c.high_price
  check_price c.low_price
  check_price c.close_price
  raise_if (dec_ltb c.high_price (dec_max (dec_max c.open_price c.close_price) c.low_price))
      bad_high
  raise_if (dec_ltb (dec_min (dec_min c.open_price c.close_price) c.high_price) c.low_price) bad_low

-- `__post_init__`
unfoldable pub post_init : Candle1m → Result CandleError Unit
unfolding check_times check_prices
post_init c = do
  check_times c
  check_prices c
  check_volume c.volume_base
  check_volume c.volume_notional
  check_trade_count c.trade_count

-- equality of `storage_key`: the venue, the symbol and the bucket
unfoldable pub same_key : Candle1m → Candle1m → Bool
same_key a b =
    venue_eq a.venue b.venue
    && str_eq a.source_symbol b.source_symbol
    && a.bucket_start.instant == b.bucket_start.instant

abbrev pub is_confirmed : CandleFinality → Bool
is_confirmed confirmed = true
is_confirmed derived_final = false

abbrev pub same_finality : CandleFinality → CandleFinality → Bool
same_finality confirmed confirmed = true
same_finality derived_final derived_final = true
same_finality _ _ = false

-- whether a candle gives way to a later one of its key; this is the `WHERE` of the upsert, too
unfoldable pub gives_way : Candle1m → Candle1m → Bool
gives_way previous candidate =
    not (is_confirmed previous.finality) && is_confirmed candidate.finality
    || same_finality previous.finality candidate.finality
      && ltb previous.observed_at.instant candidate.observed_at.instant

unfoldable pub preferred_candle : Option Candle1m → Candle1m → Candle1m
preferred_candle none candidate = candidate
preferred_candle (some previous) candidate =
    if gives_way previous candidate then candidate else previous
