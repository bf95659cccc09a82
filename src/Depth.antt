-- ===== src/Depth.antt =====
-- The depth and trades of the selected group: `DepthLevel`, `SelectedDepth`, `SelectedTrade` and
-- `validate_selected_instrument` of apps/market-core/src/prep_watchdeck_market/selected_market.py.
-- `raw_payload` takes no part in a check and is left out.
pub mod Book
pub mod Selectable
mod Tests
use Prim.Native.String
use prep_watchdeck.Prelude.{
  ℕ, Bool, true, false, not, ◌&&◌, ◌||◌, String, Option, none, some, List, [], ◌∷◌, length, ltb,
  if◌then◌else◌, Result, ok, err, ◌>>=◌, ◌>>◌, raise_if,
}
use prep_watchdeck.Time.{DateTime, is_utc_zone}
use prep_watchdeck.Text.{is_blank, str_eq}
use prep_watchdeck.Decimal.{Decimal, is_finite, is_positive, dec_ltb}
use prep_watchdeck.Venue.{Venue}
use prep_watchdeck.Catalog.{CatalogInstrument, quantity_normalizable}

-- `SelectedContractError`, by its message
pub data ContractError : Type 0 where
  bad_price bad_size empty_text not_utc : ContractError
  one_sided too_deep bids_unordered asks_unordered crossed : ContractError
  no_trade_id bad_side : ContractError
  inactive not_clob not_linear not_usd_like not_normalizable : ContractError

pub record DepthLevel : Type 0 where
  pub price : Decimal
  pub size_base : Decimal

pub record SelectedDepth : Type 0 where
  pub venue : Venue
  pub source_symbol : String
  pub bids : List DepthLevel
  pub asks : List DepthLevel
  pub source_at : Option DateTime
  pub received_at : DateTime
  pub source_channel : String

abbrev pub is_bad : Decimal → Bool
is_bad value = not (is_finite value) || not (is_positive value)

-- `__post_init__` of a price and a size in base units
abbrev pub check_amounts : Decimal → Decimal → Result ContractError Unit
check_amounts price size = do raise_if (is_bad price) bad_price; raise_if (is_bad size) bad_size

-- `DepthLevel(price, size_base)`
unfoldable pub depth_level : Decimal → Decimal → Result ContractError DepthLevel
depth_level price size = do
  check_amounts price size
  ok (record { price = price; size_base = size })

abbrev pub require_utc : DateTime → Result ContractError Unit
require_utc value = raise_if (not (is_utc_zone value.zone)) not_utc

abbrev pub require_utc_if : Option DateTime → Result ContractError Unit
require_utc_if none = ok tt
require_utc_if (some value) = require_utc value

-- `_validate_common`
unfoldable pub validate_common :
    String → Option DateTime → DateTime → String → Result ContractError Unit
validate_common symbol source_at received_at channel = do
  raise_if (is_blank symbol || is_blank channel) empty_text
  require_utc received_at
  require_utc_if source_at

-- `any(left.price <= right.price …)` over neighbours; levels have finite prices
unfoldable pub rises : List DepthLevel → Bool
rises [] = false
rises (l ∷ []) = false
rises (l ∷ r ∷ levels) = not (dec_ltb r.price l.price) || rises (r ∷ levels)

-- `any(left.price >= right.price …)` over neighbours
unfoldable pub falls : List DepthLevel → Bool
falls [] = false
falls (l ∷ []) = false
falls (l ∷ r ∷ levels) = not (dec_ltb l.price r.price) || falls (r ∷ levels)

abbrev pub is_empty : List DepthLevel → Bool
is_empty [] = true
is_empty (l ∷ levels) = false

-- `bids[0].price >= asks[0].price`
abbrev pub is_crossed : List DepthLevel → List DepthLevel → Bool
is_crossed (b ∷ bids) (a ∷ asks) = not (dec_ltb b.price a.price)
is_crossed _ _ = false

unfoldable pub check_sides : List DepthLevel → List DepthLevel → Result ContractError Unit
check_sides bids asks = do
  raise_if (is_empty bids || is_empty asks) one_sided
  raise_if (ltb 20 (length bids) || ltb 20 (length asks)) too_deep
  raise_if (rises bids) bids_unordered
  raise_if (falls asks) asks_unordered
  raise_if (is_crossed bids asks) crossed

-- `__post_init__` of `SelectedDepth`
unfoldable pub check_depth : SelectedDepth → Result ContractError Unit
unfolding check_sides validate_common
check_depth d = do
  validate_common d.source_symbol d.source_at d.received_at d.source_channel
  check_sides d.bids d.asks

pub record SelectedTrade : Type 0 where
  pub venue : Venue
  pub source_symbol : String
  pub trade_id : String
  pub side : String
  pub price : Decimal
  pub size_base : Decimal
  pub source_at : Option DateTime
  pub received_at : DateTime
  pub source_channel : String

-- `__post_init__` of `SelectedTrade`
unfoldable pub check_trade : SelectedTrade → Result ContractError Unit
unfolding validate_common
check_trade t = do
  validate_common t.source_symbol t.source_at t.received_at t.source_channel
  raise_if (is_blank t.trade_id) no_trade_id
  raise_if (not (str_eq t.side "buy" || str_eq t.side "sell")) bad_side
  check_amounts t.price t.size_base

-- `asset.upper() in USD_LIKE_ASSETS`; `upper` is `str.upper`
abbrev pub is_usd_like : (String → String) → String → Bool
is_usd_like upper asset =
    str_eq (upper asset) "USD" || str_eq (upper asset) "USDC" || str_eq (upper asset) "USDT"

abbrev pub is_usd_like_if : (String → String) → Option String → Bool
is_usd_like_if upper none = false
is_usd_like_if upper (some asset) = is_usd_like upper asset

unfoldable pub validate_selected_instrument :
    (String → String) → CatalogInstrument → Result ContractError Unit
validate_selected_instrument upper i = do
  raise_if (not i.active) inactive
  raise_if (not (str_eq i.execution_model "clob")) not_clob
  raise_if (not (str_eq i.market_type "linear_perpetual")) not_linear
  raise_if
      (not (
        is_usd_like upper i.quote_asset
        && is_usd_like upper i.settle_asset
        && is_usd_like_if upper i.collateral_asset))
      not_usd_like
  raise_if (not (quantity_normalizable i)) not_normalizable
