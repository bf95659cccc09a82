-- ===== src/Depth/Tests.antt =====
-- A concrete book and instrument, and the theorems at them.
use prep_watchdeck.Prelude.{ℕ, ◌≡◌, refl, true, false, String, none, some, [], ◌∷◌, if◌then◌else◌}
use prep_watchdeck.Time.{utc}
use prep_watchdeck.Text.{str_eq}
use prep_watchdeck.Decimal.{plus, one_unit}
use prep_watchdeck.Venue.{bitget}
use prep_watchdeck.Catalog.{CatalogInstrument, base, quantity_normalizable}
use prep_watchdeck.Identity.{individual_unmapped_reason}
use prep_watchdeck.Depth.{
  DepthLevel, SelectedDepth, check_depth, check_sides, rises, falls, validate_common,
  validate_selected_instrument,
}
use prep_watchdeck.Depth.Book.{IsBook, check_depth-IsBook}
use prep_watchdeck.Depth.Selectable.{selectable_groups}

abbrev level : ℕ → DepthLevel
level price = record { price = plus price; size_base = plus 1 }

abbrev depth : SelectedDepth
depth = record {
  venue = bitget;
  source_symbol = "BTCUSDT";
  bids = level 9 ∷ level 7 ∷ [];
  asks = level 10 ∷ level 12 ∷ [];
  source_at = none;
  received_at = record { instant = 5; zone = utc };
  source_channel = "books";
}

check_depth-IsBook_example : IsBook depth
unfolding check_depth check_sides rises falls validate_common
check_depth-IsBook_example = check_depth-IsBook depth refl

-- `str.upper` on the one lower-case text that is used
abbrev upper : String → String
upper asset = if str_eq asset "usdt" then "USDT" else asset

abbrev instrument : CatalogInstrument
instrument = record {
  venue = bitget;
  source_symbol = "BTCUSDT";
  active = true;
  source_status = "live";
  asset_class = "crypto";
  market_type = "linear_perpetual";
  execution_model = "clob";
  base_asset = "BTC";
  quote_asset = "usdt";
  settle_asset = "USDT";
  collateral_asset = some "USDT";
  quantity_unit = base;
  contract_multiplier = some (record { value = plus one_unit; text = "1" });
  price_tick = none;
  amount_step = none;
  funding_interval_seconds = none;
  raw_definition = record {
    identity_evidence = none;
    quantity_evidence = none;
    alias_required = false;
  };
}

selectable_groups_example : individual_unmapped_reason instrument ≡ none
unfolding validate_selected_instrument quantity_normalizable
selectable_groups_example = selectable_groups upper instrument refl refl refl refl
