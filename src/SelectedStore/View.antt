-- ===== src/SelectedStore/View.antt =====
-- The selected market as it is read: `read_selected_market` of selected_store.py. `before` is the
-- ORDER BY on venue and source symbol, `upper` Python's, `ops` its decimals and `value` their numbers.
-- `session` is the time zone of the database session, in which psycopg returns a timestamptz: the
-- connection sets none.
use prep_watchdeck.Prelude.{
  ℕ, Bool, not, ◌&&◌, ◌||◌, String, Option, none, some, List, [], ◌∷◌, map, filter, take, ltb, ◌==◌,
  if◌then◌else◌, Result, ok, err, ◌>>=◌, ◌>>◌, raise_if,
}
use prep_watchdeck.Time.{DateTime, Zone, is_utc_zone}
use prep_watchdeck.Text.{str_eq}
use prep_watchdeck.Decimal.{Decimal}
use prep_watchdeck.Venue.{Venue}
use prep_watchdeck.Depth.{DepthLevel}
use prep_watchdeck.BookWalk.{
  DecimalOps, Level, BookWalkEstimate, WalkFault, estimate_book_walks, unavailable_book_walks,
}
use prep_watchdeck.Lease.{SelectionLease, is_active}
use prep_watchdeck.Lease.Ids.{instrument_id}
use prep_watchdeck.Lease.Members.{VersionRow, Membership, is_open, is_member}
use prep_watchdeck.SelectedStore.{Database, DepthRow, TradeRow, Side, bid, ask, side_eq}
use prep_watchdeck.SelectedStore.Store.{is_depth_of, sort_newest, of_selection}

pub record SelectedTradeView : Type 0 where
  pub version : ℕ
  pub venue : Venue
  pub source_symbol : String
  pub trade_id : String
  pub side : String
  pub price : Decimal
  pub size_base : Decimal
  pub source_at : Option ℕ
  pub received_at : ℕ

pub record SelectedInstrumentView (D : Type 0) : Type 0 where
  pub version : ℕ
  pub venue : Venue
  pub source_symbol : String
  pub quote_asset : String
  pub depth_received_at : Option ℕ
  pub bids : List DepthLevel
  pub asks : List DepthLevel
  pub book_walks : List (BookWalkEstimate D)

pub record SelectedMarketView (D : Type 0) : Type 0 where
  pub selection_id : ℕ
  pub group_id : String
  pub primary_venue_instrument_id : String
  pub expires_at : ℕ
  pub instruments : List (SelectedInstrumentView D)
  pub trades : List SelectedTradeView

pub data ReadFault : Type 0 where
  not_utc bad_side : ReadFault
  walk_fault : WalkFault → ReadFault

-- the row of a version, as a join finds it
unfoldable pub version_named : ℕ → List VersionRow → Option VersionRow
version_named version [] = none
version_named version (v ∷ versions) =
    let rest = version_named version versions in if v.version == version then some v else rest

-- the lease that is not superseded and not expired; a unique index admits one
unfoldable pub current_lease : ℕ → List SelectionLease → Option SelectionLease
current_lease now [] = none
current_lease now (l ∷ leases) =
    let rest = current_lease now leases in
    if is_active l && ltb now l.expires_at then some l else rest

-- ORDER BY level_index
unfoldable pub insert_level : DepthRow → List DepthRow → List DepthRow
insert_level r [] = r ∷ []
insert_level r (s ∷ rows) =
    let rest = insert_level r rows in
    if ltb s.level_index r.level_index then s ∷ rest else r ∷ s ∷ rows

unfoldable pub sort_levels : List DepthRow → List DepthRow
unfolding insert_level
sort_levels [] = []
sort_levels (r ∷ rows) = insert_level r (sort_levels rows)

abbrev pub is_side : ℕ → ℕ → Side → DepthRow → Bool
is_side selection version side r = is_depth_of selection version r && side_eq r.side side

-- a list of the entry of a version in the dictionary `depths`
unfoldable pub side_levels : ℕ → ℕ → Side → List DepthRow → List DepthLevel
unfolding sort_levels
side_levels selection version side rows =
    map (λ (r : DepthRow). r.level) (sort_levels (filter (is_side selection version side) rows))

abbrev pub later : ℕ → Option ℕ → Option ℕ
later at none = some at
later at (some best) = if ltb best at then some at else some best

-- the entry's `received_at`, `none` where the version has no row
unfoldable pub depth_received : ℕ → ℕ → List DepthRow → Option ℕ
depth_received selection version [] = none
depth_received selection version (r ∷ rows) =
    let rest = depth_received selection version rows in
    if is_depth_of selection version r then later r.received_at rest else rest

abbrev pub walks_of :
    {D : Type 0}
    → Result WalkFault (List (BookWalkEstimate D))
    → Result ReadFault (List (BookWalkEstimate D))
walks_of (ok walks) = ok walks
walks_of (err e) = err (walk_fault e)

abbrev pub shown_instrument :
    {D : Type 0}
    → ℕ
    → List DepthRow
    → VersionRow
    → List (BookWalkEstimate D)
    → SelectedInstrumentView D
shown_instrument selection rows v walks = record {
  version = v.version;
  venue = v.instrument.venue;
  source_symbol = v.instrument.source_symbol;
  quote_asset = v.instrument.quote_asset;
  depth_received_at = depth_received selection v.version rows;
  bids = side_levels selection v.version bid rows;
  asks = side_levels selection v.version ask rows;
  book_walks = walks;
}

abbrev pub shown_market :
    {D : Type 0}
    → SelectionLease
    → VersionRow
    → List (SelectedInstrumentView D)
    → List SelectedTradeView
    → SelectedMarketView D
shown_market lease primary instruments trades = record {
  selection_id = lease.selection_id;
  group_id = lease.group_id;
  primary_venue_instrument_id =
      instrument_id primary.instrument.venue primary.instrument.source_symbol;
  expires_at = lease.expires_at;
  instruments = instruments;
  trades = trades;
}

abbrev pub level_of : {D : Type 0} → (Decimal → D) → DepthLevel → Level D
level_of value l = record { price = value l.price; size_base = value l.size_base }

module _ {D : Type 0} (ops : DecimalOps D) (value : Decimal → D) (session : Zone) where
  -- the branch on the entry of `depths`
  abbrev pub walks_at :
      (String → String)
      → VersionRow
      → Option ℕ
      → List DepthLevel
      → List DepthLevel
      → DateTime
      → Result WalkFault (List (BookWalkEstimate D))
  walks_at upper v none bids asks now = unavailable_book_walks ops "depth_unavailable"
  walks_at upper v (some at) bids asks now =
      estimate_book_walks ops upper (map (level_of value) bids) (map (level_of value) asks)
        v.instrument.quote_asset (record { instant = at; zone = session }) now

  -- one turn of the loop over the instruments
  unfoldable pub instrument_view :
      (String → String)
      → ℕ
      → List DepthRow
      → DateTime
      → VersionRow
      → Result ReadFault (SelectedInstrumentView D)
  unfolding side_levels depth_received
  instrument_view upper selection rows now v = do
    walks ← walks_of (
        walks_at upper v (depth_received selection v.version rows)
          (side_levels selection v.version bid rows) (side_levels selection v.version ask rows) now)
    ok (shown_instrument selection rows v walks)

  unfoldable pub instrument_views :
      (String → String)
      → ℕ
      → List DepthRow
      → DateTime
      → List VersionRow
      → Result ReadFault (List (SelectedInstrumentView D))
  unfolding instrument_view
  instrument_views upper selection rows now [] = ok []
  instrument_views upper selection rows now (v ∷ versions) = do
    view ← instrument_view upper selection rows now v
    views ← instrument_views upper selection rows now versions
    ok (view ∷ views)

-- the query of the instruments, and its order
abbrev pub is_shown : String → List Membership → VersionRow → Bool
is_shown group memberships v =
    is_member group memberships v && (is_open v.valid_to && v.instrument.active)

unfoldable pub insert_version :
    (VersionRow → VersionRow → Bool) → VersionRow → List VersionRow → List VersionRow
insert_version before v [] = v ∷ []
insert_version before v (w ∷ versions) =
    let rest = insert_version before v versions in if before w v then w ∷ rest else v ∷ w ∷ versions

unfoldable pub shown_versions :
    (VersionRow → VersionRow → Bool) → String → List Membership → List VersionRow → List VersionRow
unfolding insert_version
shown_versions before group memberships [] = []
shown_versions before group memberships (v ∷ versions) =
    let rest = shown_versions before group memberships versions in
    if is_shown group memberships v then insert_version before v rest else rest

abbrev pub trade_view : VersionRow → TradeRow → SelectedTradeView
trade_view v t = record {
  version = t.version;
  venue = v.instrument.venue;
  source_symbol = v.instrument.source_symbol;
  trade_id = t.trade_id;
  side = t.side;
  price = t.price;
  size_base = t.size_base;
  source_at = t.source_at;
  received_at = t.received_at;
}

abbrev pub with_view :
    Option VersionRow → TradeRow → List SelectedTradeView → List SelectedTradeView
with_view none t views = views
with_view (some v) t views = trade_view v t ∷ views

-- the join of the trades with their versions
unfoldable pub joined_trades : List VersionRow → List TradeRow → List SelectedTradeView
unfolding version_named
joined_trades versions [] = []
joined_trades versions (t ∷ trades) =
    with_view (version_named t.version versions) t (joined_trades versions trades)

-- `_trade_side` of each row
unfoldable pub check_sides : List SelectedTradeView → Result ReadFault Unit
check_sides [] = ok tt
check_sides (t ∷ trades) = do
  raise_if (not (str_eq t.side "buy" || str_eq t.side "sell")) bad_side
  check_sides trades

unfoldable pub trade_views : ℕ → Database → List SelectedTradeView
unfolding joined_trades
trade_views selection db =
    take 100 (joined_trades db.versions (sort_newest (filter (of_selection selection) db.trades)))

module _ {D : Type 0} (ops : DecimalOps D) (value : Decimal → D) (upper : String → String)
    (before : VersionRow → VersionRow → Bool) (session : Zone) where
  -- what follows the query of the lease, with the row of its primary version
  unfoldable pub read_lease :
      DateTime
      → Database
      → SelectionLease
      → VersionRow
      → Result ReadFault (Option (SelectedMarketView D))
  unfolding shown_versions instrument_views trade_views check_sides
  read_lease now db lease primary = do
    let trades = trade_views lease.selection_id db
    instruments ←
        instrument_views ops value session upper lease.selection_id db.depths now
          (shown_versions before lease.group_id db.memberships db.versions)
    check_sides trades
    ok (some (shown_market lease primary instruments trades))

  abbrev pub read_joined :
      DateTime
      → Database
      → SelectionLease
      → Option VersionRow
      → Result ReadFault (Option (SelectedMarketView D))
  read_joined now db lease none = ok none
  read_joined now db lease (some primary) = read_lease now db lease primary

  abbrev pub read_current :
      DateTime → Database → Option SelectionLease → Result ReadFault (Option (SelectedMarketView D))
  read_current now db none = ok none
  read_current now db (some lease) =
      read_joined now db lease (version_named lease.primary_version db.versions)

  unfoldable pub read_selected_market :
      DateTime → Database → Result ReadFault (Option (SelectedMarketView D))
  unfolding current_lease version_named read_lease
  read_selected_market now db = do
    raise_if (not (is_utc_zone now.zone)) not_utc
    read_current now db (current_lease now.instant db.leases)
