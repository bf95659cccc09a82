-- ===== src/SelectedStore/Store.antt =====
-- `store_selected_events` and its helpers of selected_store.py. The queries of the rows of the catalog
-- see no write of the loop.
use prep_watchdeck.Prelude.{
  ℕ, ◌+◌, Bool, true, false, not, ◌&&◌, ◌||◌, String, Option, none, some, List, [], ◌∷◌, ◌++◌,
  filter, any, count, take, leb, ltb, ◌==◌, if◌then◌else◌, Result, ok, err, ◌>>=◌, ◌>>◌, raise_if,
}
use prep_watchdeck.Text.{str_eq}
use prep_watchdeck.Venue.{mexc, venue_eq}
use prep_watchdeck.Catalog.{is_text}
use prep_watchdeck.Depth.{DepthLevel, SelectedDepth, SelectedTrade}
use prep_watchdeck.Lease.{SelectionLease, is_active, has_id}
use prep_watchdeck.Lease.Members.{VersionRow, eligible_version}
use prep_watchdeck.SelectedStore.{
  Database, DepthRow, Payload, SelectedEvent, SelectedStoreResult, Side, StoreFault, TradeRow, ask,
  bid, definition_changed, depth, instant_of, invalidated, kind_of, not_active, not_member,
  outside_lease, payload_of, received_of, source_of, symbol_of, trade, venue_of,
}

-- `_active_selection`
unfoldable pub active_selection : ℕ → List SelectionLease → Option SelectionLease
active_selection id [] = none
active_selection id (l ∷ leases) =
    let rest = active_selection id leases in if has_id id l && is_active l then some l else rest

-- `format(factor, "f")` of the row's multiplier
abbrev pub factor_matches : Option VersionRow → Payload → Bool
factor_matches none p = false
factor_matches (some v) p = elim v.instrument.contract_multiplier [
  | none ↦ false
  | some m ↦ is_text m.text p.base_per_contract
]

abbrev pub is_depth_or_trade : SelectedEvent → Bool
is_depth_or_trade (depth d p) = true
is_depth_or_trade (trade t p) = true
is_depth_or_trade (invalidated i p) = false

-- `upper` is SQL's `upper`
module _ (upper : String → String) where
  -- the row that `_selected_versions` finds for an event
  unfoldable pub row_of : String → Database → SelectedEvent → Option VersionRow
  row_of group db e =
      eligible_version upper group db.memberships (venue_of e) (symbol_of e) db.versions

  -- whether the size of a MEXC event was computed by another multiplier
  unfoldable pub has_changed : String → Database → SelectedEvent → Bool
  unfolding row_of
  has_changed group db e =
      venue_eq (venue_of e) mexc
      && is_depth_or_trade e
      && not (factor_matches (row_of group db e) (payload_of e))

unfoldable pub insert_raw : ℕ → String → ℕ → SelectedEvent → Database → Database
insert_raw selection group version e db = record db {
  raw =
      db.raw
      ++ record {
        selection = selection;
        group_id = group;
        version = version;
        kind = kind_of e;
        observed_at = received_of e;
        source_at = instant_of (source_of e);
        payload_hash = (payload_of e).hash;
      }
        ∷ [];
}

abbrev pub is_depth_of : ℕ → ℕ → DepthRow → Bool
is_depth_of selection version r = r.selection == selection && r.version == version

-- the rows of one side, numbered from an index
unfoldable pub level_rows :
    ℕ → ℕ → SelectedDepth → Payload → Side → ℕ → List DepthLevel → List DepthRow
level_rows selection version d p side index [] = []
level_rows selection version d p side index (l ∷ levels) =
    record {
      selection = selection;
      version = version;
      side = side;
      level_index = index;
      level = l;
      source_at = instant_of d.source_at;
      received_at = d.received_at.instant;
      payload_hash = p.hash;
    }
    ∷ level_rows selection version d p side (index + 1) levels

unfoldable pub delete_depth : ℕ → ℕ → Database → Database
delete_depth selection version db = record db {
  depths = filter (λ r. not (is_depth_of selection version r)) db.depths;
}

-- `_replace_depth`
unfoldable pub replace_depth : ℕ → ℕ → SelectedDepth → Payload → Database → Database
unfolding level_rows
replace_depth selection version d p db = record db {
  depths =
      filter (λ r. not (is_depth_of selection version r)) db.depths
      ++ (level_rows selection version d p bid 0 d.bids
          ++ level_rows selection version d p ask 0 d.asks);
}

abbrev pub is_trade : ℕ → ℕ → String → TradeRow → Bool
is_trade selection version trade_id r =
    r.selection == selection && r.version == version && str_eq r.trade_id trade_id

-- `_insert_trade`: the identity column moves on even if the row is there already
unfoldable pub insert_trade : ℕ → ℕ → SelectedTrade → Payload → Database → Database × ℕ
insert_trade selection version t p db =
    if any (is_trade selection version t.trade_id) db.trades
    then (record db { next_trade = db.next_trade + 1 }, 0)
    else (
      record db {
        next_trade = db.next_trade + 1;
        trades =
            db.trades
            ++ record {
              id = db.next_trade;
              selection = selection;
              version = version;
              trade_id = t.trade_id;
              side = t.side;
              price = t.price;
              size_base = t.size_base;
              source_at = instant_of t.source_at;
              received_at = t.received_at.instant;
              payload_hash = p.hash;
            }
              ∷ [];
      },
      1,
    )

-- the branch on the kind of the event, with the counts
unfoldable pub apply_event :
    ℕ → ℕ → SelectedEvent → Database × SelectedStoreResult → Database × SelectedStoreResult
unfolding delete_depth replace_depth insert_trade
apply_event selection version (invalidated i p) (db, r) = (delete_depth selection version db, r)
apply_event selection version (depth d p) (db, r) =
    (replace_depth selection version d p db, record r { depth_snapshots = r.depth_snapshots + 1 })
apply_event selection version (trade t p) (db, r) =
    let (db', stored) = insert_trade selection version t p db in
    (
      db',
      record r {
        trades_received = r.trades_received + 1;
        trades_stored = r.trades_stored + stored;
      },
    )

abbrev pub is_outside : SelectionLease → SelectedEvent → Bool
is_outside lease e = ltb (received_of e) lease.activated_at || leb lease.expires_at (received_of e)

abbrev pub require_version : Option VersionRow → Result StoreFault ℕ
require_version none = err not_member
require_version (some v) = ok v.version

module _ (upper : String → String) where
  -- one turn of the loop; the queries of the rows see no write of the loop
  unfoldable pub store_event :
      SelectionLease
      → SelectedEvent
      → Database × SelectedStoreResult
      → Result StoreFault (Database × SelectedStoreResult)
  unfolding apply_event insert_raw row_of
  store_event lease e (db, r) = do
    raise_if (is_outside lease e) outside_lease
    version ← require_version (row_of upper lease.group_id db e)
    ok (
        apply_event lease.selection_id version e (
          insert_raw lease.selection_id lease.group_id version e db,
          record r { raw_observations_stored = r.raw_observations_stored + 1 },
        ))

  unfoldable pub store_loop :
      SelectionLease
      → List SelectedEvent
      → Database × SelectedStoreResult
      → Result StoreFault (Database × SelectedStoreResult)
  unfolding store_event
  store_loop lease [] x = ok x
  store_loop lease (e ∷ events) x = do y ← store_event lease e x; store_loop lease events y

abbrev pub no_result : SelectedStoreResult
no_result = record {
  depth_snapshots = 0;
  trades_received = 0;
  trades_stored = 0;
  trades_retained = 0;
  raw_observations_stored = 0;
}

-- `a` comes before `b` in ORDER BY source_at DESC NULLS LAST, received_at DESC, selected_trade_id DESC
abbrev pub newer_received : TradeRow → TradeRow → Bool
newer_received a b =
    if a.received_at == b.received_at then ltb b.id a.id else ltb b.received_at a.received_at

abbrev pub newer_source : Option ℕ → Option ℕ → Bool → Bool
newer_source none none rest = rest
newer_source none (some t) rest = false
newer_source (some s) none rest = true
newer_source (some s) (some t) rest = if s == t then rest else ltb t s

unfoldable pub is_newer : TradeRow → TradeRow → Bool
is_newer a b = newer_source a.source_at b.source_at (newer_received a b)

unfoldable pub insert_newest : TradeRow → List TradeRow → List TradeRow
insert_newest t [] = t ∷ []
insert_newest t (u ∷ trades) =
    let rest = insert_newest t trades in if is_newer u t then u ∷ rest else t ∷ u ∷ trades

unfoldable pub sort_newest : List TradeRow → List TradeRow
unfolding insert_newest
sort_newest [] = []
sort_newest (t ∷ trades) = insert_newest t (sort_newest trades)

abbrev pub of_selection : ℕ → TradeRow → Bool
of_selection selection t = t.selection == selection

-- `_prune_trades`: the selection's trades after the first 100 are deleted
unfoldable pub prune_trades : ℕ → List TradeRow → List TradeRow
unfolding sort_newest
prune_trades selection trades =
    filter (λ t. not (of_selection selection t)) trades
    ++ take 100 (sort_newest (filter (of_selection selection) trades))

-- the pruning, and the count of what is retained
unfoldable pub finish : ℕ → Database × SelectedStoreResult → SelectedStoreResult × Database
unfolding prune_trades
finish selection (db, r) =
    let trades = if r.trades_received == 0 then db.trades else prune_trades selection db.trades in
    (
      record r { trades_retained = count (of_selection selection) trades },
      record db { trades = trades },
    )

module _ (upper : String → String) where
  unfoldable pub store_active :
      Option SelectionLease
      → List SelectedEvent
      → Database
      → Result StoreFault (SelectedStoreResult × Database)
  unfolding store_loop has_changed finish
  store_active none events db = err not_active
  store_active (some lease) events db = do
    raise_if (any (has_changed upper lease.group_id db) events) definition_changed
    x ← store_loop upper lease events (db, no_result)
    ok (finish lease.selection_id x)

  unfoldable pub store_selected_events :
      ℕ → List SelectedEvent → Database → Result StoreFault (SelectedStoreResult × Database)
  unfolding store_active active_selection
  store_selected_events selection [] db = ok (no_result, db)
  store_selected_events selection (e ∷ events) db =
      store_active (active_selection selection db.leases) (e ∷ events) db
