-- ===== src/SelectedStore.antt =====
-- The store of selected events: `store_selected_events` of
-- apps/market-core/src/prep_watchdeck_market/selected_store.py, as one transaction on rows. Events
-- are as their constructors leave them (Depth), so the CHECKs on prices, sides and level indices hold.
-- Of a row the source channel, the date of its partition and the payload itself are left out.
pub mod Store
pub mod Guard
pub mod Newest
pub mod Trades
pub mod View
pub mod ReadBack
pub mod Reads
pub mod Shown
mod Tests
use prep_watchdeck.Prelude.{
  ℕ, zero, suc, ◌+◌, Bool, true, false, not, ◌&&◌, ◌||◌, String, Option, none, some, List, [], ◌∷◌,
  ◌++◌, map, filter, any, count, take, length, leb, ltb, ◌==◌, if◌then◌else◌, Result, ok, err,
  ◌>>=◌, ◌>>◌, raise_if,
}
use prep_watchdeck.Time.{DateTime}
use prep_watchdeck.Text.{str_eq}
use prep_watchdeck.Decimal.{Decimal}
use prep_watchdeck.Venue.{Venue, mexc, venue_eq}
use prep_watchdeck.Catalog.{Multiplier, is_text}
use prep_watchdeck.Depth.{DepthLevel, SelectedDepth, SelectedTrade}
use prep_watchdeck.Lease.{SelectionLease, is_active, has_id}
use prep_watchdeck.Lease.Members.{VersionRow, Membership, eligible_version}

-- `SelectedDepthInvalidated`
pub record SelectedDepthInvalidated : Type 0 where
  pub venue : Venue
  pub source_symbol : String
  pub received_at : DateTime
  pub source_channel : String
  pub source_at : Option DateTime

-- of `raw_payload`, its hash and its entry `watchdeckBasePerContract`, if that is a text
pub record Payload : Type 0 where
  pub hash : String
  pub base_per_contract : Option String

pub data SelectedEvent : Type 0 where
  depth : SelectedDepth → Payload → SelectedEvent
  trade : SelectedTrade → Payload → SelectedEvent
  invalidated : SelectedDepthInvalidated → Payload → SelectedEvent

abbrev pub venue_of : SelectedEvent → Venue
venue_of (depth d p) = d.venue
venue_of (trade t p) = t.venue
venue_of (invalidated i p) = i.venue

abbrev pub symbol_of : SelectedEvent → String
symbol_of (depth d p) = d.source_symbol
symbol_of (trade t p) = t.source_symbol
symbol_of (invalidated i p) = i.source_symbol

abbrev pub received_of : SelectedEvent → ℕ
received_of (depth d p) = d.received_at.instant
received_of (trade t p) = t.received_at.instant
received_of (invalidated i p) = i.received_at.instant

abbrev pub source_of : SelectedEvent → Option DateTime
source_of (depth d p) = d.source_at
source_of (trade t p) = t.source_at
source_of (invalidated i p) = i.source_at

abbrev pub payload_of : SelectedEvent → Payload
payload_of (depth d p) = p
payload_of (trade t p) = p
payload_of (invalidated i p) = p

abbrev pub instant_of : Option DateTime → Option ℕ
instant_of none = none
instant_of (some at) = some at.instant

pub data Side : Type 0 where
  bid ask : Side

abbrev pub side_eq : Side → Side → Bool
side_eq bid bid = true
side_eq ask ask = true
side_eq _ _ = false

pub data ObservationKind : Type 0 where
  of_depth of_trade : ObservationKind

abbrev pub kind_of : SelectedEvent → ObservationKind
kind_of (depth d p) = of_depth
kind_of (trade t p) = of_trade
kind_of (invalidated i p) = of_depth

-- a row of `selected_raw_observations`
pub record RawObservation : Type 0 where
  pub selection : ℕ
  pub group_id : String
  pub version : ℕ
  pub kind : ObservationKind
  pub observed_at : ℕ
  pub source_at : Option ℕ
  pub payload_hash : String

-- a row of `selected_depth_levels`
pub record DepthRow : Type 0 where
  pub selection : ℕ
  pub version : ℕ
  pub side : Side
  pub level_index : ℕ
  pub level : DepthLevel
  pub source_at : Option ℕ
  pub received_at : ℕ
  pub payload_hash : String

-- a row of `selected_trades`
pub record TradeRow : Type 0 where
  pub id : ℕ
  pub selection : ℕ
  pub version : ℕ
  pub trade_id : String
  pub side : String
  pub price : Decimal
  pub size_base : Decimal
  pub source_at : Option ℕ
  pub received_at : ℕ
  pub payload_hash : String

pub record Database : Type 0 where
  pub leases : List SelectionLease
  pub memberships : List Membership
  pub versions : List VersionRow
  pub raw : List RawObservation
  pub depths : List DepthRow
  pub trades : List TradeRow
  -- the next value of the identity column of `selected_trades`
  pub next_trade : ℕ

pub record SelectedStoreResult : Type 0 where
  pub depth_snapshots : ℕ
  pub trades_received : ℕ
  pub trades_stored : ℕ
  pub trades_retained : ℕ
  pub raw_observations_stored : ℕ

-- `InvalidSelectionError`, by its message
pub data StoreFault : Type 0 where
  not_active definition_changed outside_lease not_member : StoreFault
