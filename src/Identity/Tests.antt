-- ===== src/Identity/Tests.antt =====
-- Groups of a few instruments, and the theorems at them.
use prep_watchdeck.Prelude.{
  ◌≤◌, ◌≡◌, refl, true, false, none, some, List, [], ◌∷◌, String, count, map,
}
use prep_watchdeck.Decimal.{plus}
use prep_watchdeck.Venue.{Venue, bitget, aster}
use prep_watchdeck.Catalog.{CatalogInstrument, base}
use prep_watchdeck.Identity.{
  crypto, resolve, resolve_market_groups, IdentityResolution, individual_unmapped_reason,
  native_only_identity, is_candidate, collides,
}
use prep_watchdeck.Identity.Groups.{in_group, group_unique, IsComparable, grouped-IsComparable}

abbrev instrument : Venue → String → String → CatalogInstrument
instrument venue symbol asset = record {
  venue = venue;
  source_symbol = symbol;
  active = true;
  source_status = "live";
  asset_class = "crypto";
  market_type = "linear_perpetual";
  execution_model = "clob";
  base_asset = asset;
  quote_asset = "USDT";
  settle_asset = "USDT";
  collateral_asset = none;
  quantity_unit = base;
  contract_multiplier = some (record { value = plus 1000000000000000000; text = "1" });
  price_tick = none;
  amount_step = none;
  funding_interval_seconds = none;
  raw_definition = record {
    identity_evidence = none;
    quantity_evidence = none;
    alias_required = false;
  };
}

abbrev instruments : List CatalogInstrument
instruments =
    instrument bitget "BTCUSDT" "BTC"
    ∷ instrument aster "BTCUSDT" "BTC"
    ∷ instrument aster "ETHUSDT" "ETH"
    ∷ instrument aster "ETHUSDC" "ETH"
    ∷ []

groups :
    map (λ (r : IdentityResolution). r.group_id) (resolve_market_groups instruments)
    ≡ some (crypto "BTC") ∷ some (crypto "BTC") ∷ none ∷ none ∷ []
unfolding resolve_market_groups individual_unmapped_reason native_only_identity is_candidate
    collides
groups = refl

group_unique_example : count (in_group "BTC" aster) (resolve_market_groups instruments) ≤ 1
group_unique_example = group_unique instruments "BTC" aster

grouped-IsComparable_example : IsComparable "BTC" (instrument bitget "BTCUSDT" "BTC")
unfolding resolve individual_unmapped_reason native_only_identity is_candidate collides
grouped-IsComparable_example =
    grouped-IsComparable instruments "BTC" (instrument bitget "BTCUSDT" "BTC") refl
