-- ===== src/Lease/Tests.antt =====
-- Leases of two selections, and the theorems at them.
use prep_watchdeck.Prelude.{
  ℕ, ◌≡◌, ◌≢◌, refl, true, false, String, none, some, List, [], ◌∷◌, arith, err, if◌then◌else◌,
}
use prep_watchdeck.Time.{DateTime, utc}
use prep_watchdeck.Text.{str_eq}
use prep_watchdeck.Decimal.{plus, one_unit}
use prep_watchdeck.Venue.{bitget}
use prep_watchdeck.Catalog.{CatalogInstrument, base, quantity_normalizable}
use prep_watchdeck.Depth.{validate_selected_instrument}
use prep_watchdeck.Lease.{
  SelectionLease, second_active, bad_row, activate_selection, heartbeat_selection,
  mark_selection_cleaned, active_row, is_row_valid,
}
use prep_watchdeck.Lease.Slot.{LeaseCall, activates, heartbeats, cleans, committed, Holds}
use prep_watchdeck.Lease.Refines.{run, replay, run_refines}
use prep_watchdeck.Lease.Cleaning.{activate_keeps_index, superseded_row, late_cleanup_raises}
use prep_watchdeck.Lease.Ids.{parse_instrument_id, instrument_id, parse-instrument_id}
use prep_watchdeck.Lease.Members.{is_eligible, validated_eligible}

abbrev at : ℕ → DateTime
at n = record { instant = n; zone = utc }

abbrev first_lease : SelectionLease
first_lease = record {
  selection_id = 1;
  group_id = "g";
  primary_version = 7;
  activated_at = 100;
  heartbeat_at = 100;
  expires_at = 900000100;
  superseded_at = none;
  cleanup_deadline_at = none;
  cleaned_at = none;
}

abbrev calls : List LeaseCall
calls =
    activates 1 "g" (some 7) (at 100) none
    ∷ heartbeats 1 (at 50)
    ∷ activates 2 "h" (some 8) (at 300) none
    ∷ cleans 1 (at 20000000)
    ∷ cleans 1 (at 400)
    ∷ []

-- The acknowledgement that comes too late is not committed.
calls_committed :
    (run calls []).1
    ≡ activates 1 "g" (some 7) (at 100) none
      ∷ heartbeats 1 (at 50)
      ∷ activates 2 "h" (some 8) (at 300) none
      ∷ cleans 1 (at 400)
      ∷ []
unfolding run committed activate_selection heartbeat_selection mark_selection_cleaned
calls_committed = refl

run_refines_example : Holds (replay (run calls []).1 (active_row [])) (run calls []).0
run_refines_example = run_refines calls [] (omega arith)

activate_keeps_index_example :
    activate_selection 2 "h" (some 8) (at 300) none (first_lease ∷ []) ≢ err second_active
activate_keeps_index_example =
    activate_keeps_index 2 "h" (some 8) (at 300) none (first_lease ∷ []) (omega arith)

-- what the first lease is superseded by
abbrev second_lease : SelectionLease
second_lease = record {
  selection_id = 2;
  group_id = "h";
  primary_version = 8;
  activated_at = 300;
  heartbeat_at = 300;
  expires_at = 900000300;
  superseded_at = none;
  cleanup_deadline_at = none;
  cleaned_at = none;
}

late_cleanup_raises_example :
    mark_selection_cleaned 1 (at 20000000) (superseded_row first_lease 300 ∷ second_lease ∷ [])
    ≡ err bad_row
unfolding is_row_valid
late_cleanup_raises_example =
    late_cleanup_raises [] (second_lease ∷ []) first_lease 300 (at 20000000) refl refl refl refl
      (omega arith)

parse-instrument_id_example :
    parse_instrument_id (instrument_id bitget "BTC:USDT") ≡ some (bitget, "BTC:USDT")
parse-instrument_id_example = parse-instrument_id bitget "BTC:USDT" refl

abbrev upper : String → String
upper asset = if str_eq asset "usdt" then "USDT" else asset

abbrev instrument : CatalogInstrument
instrument = record {
  venue = bitget;
  source_symbol = "BTCUSDT";
  active = true;
  source_status = "live";
  asset_class = "crypto";
  market_type = "linear_perpetual";
  execution_model = "clob";
  base_asset = "BTC";
  quote_asset = "usdt";
  settle_asset = "USDT";
  collateral_asset = some "USDT";
  quantity_unit = base;
  contract_multiplier = some (record { value = plus one_unit; text = "1" });
  price_tick = none;
  amount_step = none;
  funding_interval_seconds = none;
  raw_definition = record {
    identity_evidence = none;
    quantity_evidence = none;
    alias_required = false;
  };
}

validated_eligible_example :
    is_eligible upper (record { version = 7; instrument = instrument; valid_to = none }) ≡ true
unfolding validate_selected_instrument quantity_normalizable
validated_eligible_example = validated_eligible upper instrument 7 refl
