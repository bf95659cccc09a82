-- ===== src/SelectedStore/Tests.antt =====
-- A selection of one instrument, what a store of its events leaves, and the theorems at it.
use prep_watchdeck.Prelude.{
  ℕ, ◌+◌, ◌-◌, ◌*◌, ◌/◌, ◌≤◌, ◌<◌, ◌≡◌, refl, Bool, true, false, String, none, some, List, [], ◌∷◌,
  ◌++◌, arith, any, count, length, ltb, All, Result, ok, err, if◌then◌else◌,
}
use prep_watchdeck.Time.{DateTime, utc}
use prep_watchdeck.Text.{str_eq}
use prep_watchdeck.Decimal.{Decimal, plus, one_unit}
use prep_watchdeck.Venue.{bitget}
use prep_watchdeck.Catalog.{CatalogInstrument, base}
use prep_watchdeck.Depth.{SelectedDepth, SelectedTrade}
use prep_watchdeck.BookWalk.{DecimalOps}
use prep_watchdeck.Lease.{SelectionLease}
use prep_watchdeck.Lease.Members.{VersionRow, eligible_version, quantity_eligible}
use prep_watchdeck.SelectedStore.{
  Database, SelectedStoreResult, StoreFault, Payload, SelectedEvent, depth, trade, TradeRow,
}
use prep_watchdeck.SelectedStore.Store.{
  active_selection, has_changed, store_selected_events, no_result, prune_trades,
}
use prep_watchdeck.SelectedStore.Guard.{IsStorable, stored-IsStorable}
use prep_watchdeck.SelectedStore.Newest.{own, others, IsFirst, dropped, pruned_newest}
use prep_watchdeck.SelectedStore.Trades.{stored_trades}
use prep_watchdeck.SelectedStore.View.{
  SelectedMarketView, read_selected_market, current_lease, version_named,
}
use prep_watchdeck.SelectedStore.Reads.{Any}
use prep_watchdeck.SelectedStore.Shown.{ShowsDepth, stored-ShowsDepth}

abbrev whole : DecimalOps ℕ
whole = record {
  number = λ n. n;
  add = λ a b. a + b;
  sub = λ a b. a - b;
  mul = λ a b. a * b;
  div = λ a b. a / b;
  less = λ a b. ltb a b;
}

abbrev units : Decimal → ℕ
units (plus n) = n
units _ = 0

abbrev upper : String → String
upper asset = if str_eq asset "usdt" then "USDT" else asset

abbrev earlier : VersionRow → VersionRow → Bool
earlier v w = ltb v.version w.version

abbrev at : ℕ → DateTime
at n = record { instant = n; zone = utc }

abbrev instrument : CatalogInstrument
instrument = record {
  venue = bitget;
  source_symbol = "BTCUSDT";
  active = true;
  source_status = "live";
  asset_class = "crypto";
  market_type = "linear_perpetual";
  execution_model = "clob";
  base_asset = "BTC";
  quote_asset = "usdt";
  settle_asset = "USDT";
  collateral_asset = some "USDT";
  quantity_unit = base;
  contract_multiplier = some (record { value = plus one_unit; text = "1" });
  price_tick = none;
  amount_step = none;
  funding_interval_seconds = none;
  raw_definition = record {
    identity_evidence = none;
    quantity_evidence = none;
    alias_required = false;
  };
}

abbrev row : VersionRow
row = record { version = 7; instrument = instrument; valid_to = none }

abbrev lease : SelectionLease
lease = record {
  selection_id = 1;
  group_id = "g";
  primary_version = 7;
  activated_at = 100;
  heartbeat_at = 100;
  expires_at = 900;
  superseded_at = none;
  cleanup_deadline_at = none;
  cleaned_at = none;
}

abbrev database : Database
database = record {
  leases = lease ∷ [];
  memberships = record { group_id = "g"; version = 7; valid_to = none } ∷ [];
  versions = row ∷ [];
  raw = [];
  depths = [];
  trades = [];
  next_trade = 1;
}

abbrev payload : Payload
payload = record { hash = "hash"; base_per_contract = none }

abbrev book : ℕ → SelectedDepth
book price = record {
  venue = bitget;
  source_symbol = "BTCUSDT";
  bids =
      record { price = plus price; size_base = plus 4 }
      ∷ record { price = plus 5; size_base = plus 6 }
      ∷ [];
  asks = record { price = plus 30; size_base = plus 8 } ∷ [];
  source_at = none;
  received_at = at 200;
  source_channel = "books";
}

abbrev sold : SelectedTrade
sold = record {
  venue = bitget;
  source_symbol = "BTCUSDT";
  trade_id = "t";
  side = "sell";
  price = plus 20;
  size_base = plus 3;
  source_at = some (at 190);
  received_at = at 200;
  source_channel = "trades";
}

abbrev events : List SelectedEvent
events = depth (book 20) payload ∷ trade sold payload ∷ trade sold payload ∷ []

abbrev result_or :
    Result StoreFault (SelectedStoreResult × Database) → SelectedStoreResult × Database
result_or (ok x) = x
result_or (err e) = (no_result, database)

abbrev stored : SelectedStoreResult × Database
stored = result_or (store_selected_events upper 1 (events ++ depth (book 21) payload ∷ []) database)

-- The trade that comes twice is stored once.
stored_counts : stored.0 ≡ record {
  depth_snapshots = 2;
  trades_received = 2;
  trades_stored = 1;
  trades_retained = 1;
  raw_observations_stored = 4;
}
unfolding store_selected_events eligible_version quantity_eligible
stored_counts = refl

stored-IsStorable_example :
    (l : SelectionLease) × (active_selection 1 database.leases ≡ some l)
    × (any (has_changed upper l.group_id database) (events ++ depth (book 21) payload ∷ []) ≡ false)
    × All (IsStorable upper l database) (events ++ depth (book 21) payload ∷ [])
unfolding store_selected_events eligible_version quantity_eligible
stored-IsStorable_example =
    stored-IsStorable upper 1 (depth (book 20) payload)
      (trade sold payload ∷ trade sold payload ∷ depth (book 21) payload ∷ []) database stored.1
      stored.0 refl

stored_trades_example :
    (others 1 stored.1.trades ≡ [])
    × (stored.0.trades_retained ≡ length (own 1 stored.1.trades))
    × (0 < stored.0.trades_received → stored.0.trades_retained ≤ 100)
unfolding store_selected_events eligible_version quantity_eligible
stored_trades_example =
    stored_trades upper 1 (depth (book 20) payload)
      (trade sold payload ∷ trade sold payload ∷ depth (book 21) payload ∷ []) database stored.1
      stored.0 refl

pruned_newest_example :
    ((q : TradeRow → Bool)
      → count q (own 1 (prune_trades 1 stored.1.trades)) + count q (dropped 1 stored.1.trades)
        ≡ count q (own 1 stored.1.trades))
    × All (λ a. IsFirst a (dropped 1 stored.1.trades)) (own 1 (prune_trades 1 stored.1.trades))
    × (length (own 1 (prune_trades 1 stored.1.trades)) ≤ 100)
pruned_newest_example = pruned_newest 1 stored.1.trades

stored-ShowsDepth_example :
    (view : SelectedMarketView ℕ) × (read_selected_market whole units upper earlier utc
        (at 300)
        stored.1
      ≡ ok (some view))
    × Any (ShowsDepth (book 21)) view.instruments
unfolding store_selected_events eligible_version quantity_eligible current_lease version_named
stored-ShowsDepth_example =
    stored-ShowsDepth whole units upper earlier utc 1 lease row events (book 21) payload database
      stored.1 stored.0 (at 300) refl refl (omega arith) refl refl refl refl (refl, tt)
