-- ===== src/CatalogStore/Tests.antt =====
-- A catalog of one venue that changes, and the theorems at it.
use prep_watchdeck.Prelude.{
  ℕ, ◌≤◌, ◌≡◌, refl, true, false, String, none, some, List, [], ◌∷◌, arith, count, Result, ok, err,
}
use prep_watchdeck.Time.{utc}
use prep_watchdeck.Decimal.{plus, one_unit}
use prep_watchdeck.Venue.{bitget}
use prep_watchdeck.Catalog.{CatalogInstrument, base}
use prep_watchdeck.Identity.{IdentityResolution, crypto, exact_base_heuristic}
use prep_watchdeck.CatalogStore.{
  CatalogBatch, CatalogRow, CatalogTables, CatalogFault, not_later, CatalogStoreResult, is_current,
}
use prep_watchdeck.CatalogStore.Validate.{check_instruments}
use prep_watchdeck.CatalogStore.Versions.{Made, sync_versions}
use prep_watchdeck.CatalogStore.Persist.{persist_catalog}
use prep_watchdeck.CatalogStore.Exact.{check_instruments-IsListed}
use prep_watchdeck.CatalogStore.Current.{IsKeyed}
use prep_watchdeck.CatalogStore.Persisted.{persisted-count}
use prep_watchdeck.CatalogStore.Repeat.{repeat_keeps}

abbrev instrument : String → String → String → CatalogInstrument
instrument symbol asset status = record {
  venue = bitget;
  source_symbol = symbol;
  active = true;
  source_status = status;
  asset_class = "crypto";
  market_type = "linear_perpetual";
  execution_model = "clob";
  base_asset = asset;
  quote_asset = "USDT";
  settle_asset = "USDT";
  collateral_asset = some "USDT";
  quantity_unit = base;
  contract_multiplier = some (record { value = plus one_unit; text = "1" });
  price_tick = none;
  amount_step = none;
  funding_interval_seconds = none;
  raw_definition = record {
    identity_evidence = none;
    quantity_evidence = none;
    alias_required = false;
  };
}

-- the digests are texts of the definition here
abbrev digest : CatalogInstrument → String
digest i = i.source_status

abbrev open_row : ℕ → CatalogInstrument → CatalogRow
open_row version i = record {
  version = version;
  definition_hash = digest i;
  valid_from = 10;
  valid_to = none;
  instrument = i;
}

-- a symbol that changes, one that is delisted, and one that stays
abbrev tables : CatalogTables
tables = record {
  raw_payloads = [];
  exclusions = [];
  versions =
      open_row 1 (instrument "BTCUSDT" "BTC" "old")
      ∷ open_row 2 (instrument "GONE" "GONE" "live")
      ∷ open_row 3 (instrument "ETHUSDT" "ETH" "live")
      ∷ [];
  capabilities = [];
  groups = [];
  identities = [];
  memberships = [];
  next_raw = 1;
  next_version = 4;
  next_identity = 1;
  next_membership = 1;
}

abbrev instruments : List CatalogInstrument
instruments =
    instrument "BTCUSDT" "BTC" "new"
    ∷ instrument "ETHUSDT" "ETH" "live"
    ∷ instrument "SOLUSDT" "SOL" "live"
    ∷ []

abbrev mapped : String → String → IdentityResolution
mapped symbol asset = record {
  venue = bitget;
  source_symbol = symbol;
  group_id = some (crypto asset);
  mapping_method = some exact_base_heuristic;
  unmapped_reason = none;
}

abbrev identities : List IdentityResolution
identities = mapped "BTCUSDT" "BTC" ∷ mapped "ETHUSDT" "ETH" ∷ mapped "SOLUSDT" "SOL" ∷ []

abbrev batch_at : ℕ → CatalogBatch
batch_at at = record {
  venue = bitget;
  endpoint = "catalog";
  observed_at = record { instant = at; zone = utc };
  source_at = none;
  payload_hash = "payload";
  raw_payload = "payload";
  instruments = instruments;
  capabilities = [];
  exclusions = [];
}

abbrev persist : ℕ → Result CatalogFault (CatalogStoreResult × CatalogTables)
persist at = persist_catalog (λ s. s) digest digest (batch_at at) identities tables

abbrev no_result : CatalogStoreResult
no_result = record {
  raw_payload_id = 0;
  raw_payload_inserted = false;
  exclusions_inserted = 0;
  instrument_versions_created = 0;
  instrument_versions_unchanged = 0;
  instrument_versions_closed = 0;
  capabilities_upserted = 0;
  identity_resolutions_created = 0;
  memberships_opened = 0;
  memberships_closed = 0;
}

abbrev value_of :
    Result CatalogFault (CatalogStoreResult × CatalogTables) → CatalogStoreResult × CatalogTables
value_of (ok x) = x
value_of (err e) = (no_result, tables)

persist_counts : (value_of (persist 20)).0 ≡ record {
  raw_payload_id = 1;
  raw_payload_inserted = true;
  exclusions_inserted = 0;
  instrument_versions_created = 2;
  instrument_versions_unchanged = 1;
  instrument_versions_closed = 2;
  capabilities_upserted = 0;
  identity_resolutions_created = 3;
  memberships_opened = 3;
  memberships_closed = 0;
}
unfolding persist_catalog
persist_counts = refl

-- A change must be observed after the version that it ends began.
early_change : persist 10 ≡ err not_later
unfolding persist_catalog
early_change = refl

keyed : IsKeyed tables.versions
keyed = ((refl, (refl, tt)), ((refl, tt), (tt, tt)))

persisted-count_example : count (is_current bitget "BTCUSDT") (value_of (persist 20)).1.versions ≡ 1
unfolding persist_catalog
persisted-count_example =
    persisted-count (λ s. s) digest digest (batch_at 20) identities tables (value_of (persist 20)).1
      (value_of (persist 20)).0 "BTCUSDT" refl keyed (omega arith)

abbrev made_or : Result CatalogFault (Made × ℕ) → Made × ℕ
made_or (ok x) = x
made_or (err e) = (record { tables = tables; version_ids = []; created = 0; unchanged = 0 }, 0)

abbrev first_made : Made × ℕ
first_made = made_or (sync_versions digest digest bitget 20 instruments tables)

open_once : (symbol : String) → count (is_current bitget symbol) tables.versions ≤ 1
unfolding check_instruments
open_once symbol =
    (check_instruments-IsListed bitget []
        (instrument "BTCUSDT" "BTC" "old"
          ∷ instrument "GONE" "GONE" "live"
          ∷ instrument "ETHUSDT" "ETH" "live"
          ∷ [])
        refl).2
      symbol

repeat_keeps_example :
    (made : Made) × (sync_versions digest digest bitget 20 instruments first_made.0.tables
      ≡ ok (made, 0))
    × (made.tables ≡ first_made.0.tables)
    × (made.created ≡ 0)
    × (made.unchanged ≡ 3)
unfolding sync_versions check_instruments
repeat_keeps_example =
    repeat_keeps digest digest bitget 20 20 instruments tables first_made refl keyed open_once refl
