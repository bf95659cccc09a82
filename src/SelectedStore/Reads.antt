-- ===== src/SelectedStore/Reads.antt =====
-- That a read of the selected market returns, and which instruments it shows.
use mathlib.Core.Path.{subst}
use prep_watchdeck.Prelude.{
  ℕ, Bool, true, ◌||◌, ◌≡◌, refl, sym, ◌⊎◌, String, Option, none, some, List, [], ◌∷◌, map, All,
  All-take, All-filter_of, Bool-cases, Option-cases, inl, inr, ok,
}
use prep_watchdeck.Time.{DateTime, Zone, is_utc_zone}
use prep_watchdeck.Text.{str_eq}
use prep_watchdeck.Decimal.{Decimal}
use prep_watchdeck.Depth.{DepthLevel}
use prep_watchdeck.BookWalk.{
  DecimalOps, BookWalkEstimate, estimate_book_walks, unavailable_book_walks, estimate,
  unavailable_reason, notionals,
}
use prep_watchdeck.Lease.{SelectionLease}
use prep_watchdeck.Lease.Members.{VersionRow, Membership}
use prep_watchdeck.SelectedStore.{Database, DepthRow, TradeRow, bid, ask}
use prep_watchdeck.SelectedStore.Store.{of_selection}
use prep_watchdeck.SelectedStore.Newest.{All-sort_newest}
use prep_watchdeck.SelectedStore.View.{
  SelectedInstrumentView, SelectedMarketView, SelectedTradeView, side_levels, depth_received,
  walks_at, level_of, shown_instrument, shown_market, walks_of, instrument_view, instrument_views,
  is_shown, insert_version, shown_versions, version_named, joined_trades, check_sides, trade_views,
  read_lease, current_lease, read_selected_market,
}

abbrev pub Any : {A : Type 0} → (A → Type 0) → List A → Type 0
Any P [] = ⊥
Any P (x ∷ xs) = P x ⊎ Any P xs

insert_version-first :
    (before : VersionRow → VersionRow → Bool) (v : VersionRow) (versions : List VersionRow)
    → Any (λ w. w ≡ v) (insert_version before v versions)
unfolding insert_version
insert_version-first before v [] = inl refl
insert_version-first before v (w ∷ versions) = elim (Bool-cases (before w v)) [
  | inl e ↦ rw e (inr (insert_version-first before v versions))
  | inr e ↦ rw e (inl refl)
]

insert_version-Any :
    (before : VersionRow → VersionRow → Bool) (v row : VersionRow) (versions : List VersionRow)
    → Any (λ w. w ≡ row) versions
    → Any (λ w. w ≡ row) (insert_version before v versions)
unfolding insert_version
insert_version-Any before v row [] h = elim h [ ]
insert_version-Any before v row (w ∷ versions) (inl eq) = elim (Bool-cases (before w v)) [
  | inl e ↦ rw e (inl eq)
  | inr e ↦ rw e (inr (inl eq))
]
insert_version-Any before v row (w ∷ versions) (inr k) = elim (Bool-cases (before w v)) [
  | inl e ↦ rw e (inr (insert_version-Any before v row versions k))
  | inr e ↦ rw e (inr (inr k))
]

pub shown_versions-Any :
    (before : VersionRow → VersionRow → Bool) (group : String) (memberships : List Membership)
    (versions : List VersionRow) (row : VersionRow)
    → is_shown group memberships row ≡ true
    → Any (λ v. v ≡ row) versions
    → Any (λ v. v ≡ row) (shown_versions before group memberships versions)
unfolding shown_versions
shown_versions-Any before group memberships [] row h k = elim k [ ]
shown_versions-Any before group memberships (v ∷ versions) row h (inl eq) =
    rw (subst (λ w. is_shown group memberships w ≡ true) (sym eq) h) (
      subst
        (λ w.
          Any (λ u. u ≡ w)
            (insert_version before v (shown_versions before group memberships versions)))
        eq (insert_version-first before v _))
shown_versions-Any before group memberships (v ∷ versions) row h (inr k) =
    elim (Bool-cases (is_shown group memberships v)) [
      | inl e ↦ rw e (
          insert_version-Any before v row _
            (shown_versions-Any before group memberships versions row h k))
      | inr e ↦ rw e (shown_versions-Any before group memberships versions row h k)
    ]

-- what the view of an instrument says of its row and its depth
abbrev pub IsViewOf :
    {D : Type 0} → ℕ → List DepthRow → VersionRow → SelectedInstrumentView D → Type 0
IsViewOf selection rows row view =
    (view.version ≡ row.version)
    × (view.venue ≡ row.instrument.venue)
    × (view.source_symbol ≡ row.instrument.source_symbol)
    × (view.depth_received_at ≡ depth_received selection row.version rows)
    × (view.bids ≡ side_levels selection row.version bid rows)
    × (view.asks ≡ side_levels selection row.version ask rows)

module _ {D : Type 0} (ops : DecimalOps D) (value : Decimal → D) (upper : String → String)
    (session : Zone) (now : DateTime) (in_utc : is_utc_zone session ≡ true)
    (is_utc : is_utc_zone now.zone ≡ true) where
  walks_total :
      (v : VersionRow) (at : Option ℕ) (bids asks : List DepthLevel)
      → (walks : List (BookWalkEstimate D)) × (walks_of
            (walks_at ops value session upper v at bids asks now)
          ≡ ok walks)
  unfolding unavailable_book_walks estimate_book_walks
  walks_total v none bids asks = (_, refl)
  walks_total v (some at) bids asks = (
    map
        (estimate ops (map (level_of value) bids) (map (level_of value) asks)
          (unavailable_reason upper v.instrument.quote_asset at now.instant))
        (notionals ops),
    rw (in_utc, is_utc) refl,
  )

  instrument_view_total :
      (selection : ℕ) (rows : List DepthRow) (v : VersionRow)
      → (view : SelectedInstrumentView D) × (instrument_view ops value session upper selection rows
            now v
          ≡ ok view)
        × IsViewOf selection rows v view
  unfolding instrument_view
  instrument_view_total selection rows v =
      let (walks, eq) =
        walks_total v (depth_received selection v.version rows)
          (side_levels selection v.version bid rows) (side_levels selection v.version ask rows) in
      (shown_instrument selection rows v walks, rw eq refl, (refl, refl, refl, refl, refl, refl))

  instrument_views_total :
      (selection : ℕ) (rows : List DepthRow) (versions : List VersionRow)
      → (views : List (SelectedInstrumentView D)) × (instrument_views ops value session upper
            selection rows now versions
          ≡ ok views)
        × ((row : VersionRow)
            → Any (λ v. v ≡ row) versions
            → Any (IsViewOf selection rows row) views)
  unfolding instrument_views
  instrument_views_total selection rows [] = ([], refl, λ row h. elim h [ ])
  instrument_views_total selection rows (v ∷ versions) =
      let (view, eq, h) = instrument_view_total selection rows v in
      let (views, eqs, k) = instrument_views_total selection rows versions in
      (
        view ∷ views,
        rw (eq, eqs) refl,
        λ row a. elim a [
          | inl same ↦ inl (subst (λ w. IsViewOf selection rows w view) same h)
          | inr later ↦ inr (k row later)
        ],
      )

abbrev pub is_sided : String → Bool
is_sided side = str_eq side "buy" || str_eq side "sell"

abbrev pub IsSided : TradeRow → Type 0
IsSided t = is_sided t.side ≡ true

joined_trades-sided :
    (versions : List VersionRow) (trades : List TradeRow)
    → All IsSided trades
    → All (λ (t : SelectedTradeView). is_sided t.side ≡ true) (joined_trades versions trades)
unfolding joined_trades
joined_trades-sided versions [] h = tt
joined_trades-sided versions (t ∷ trades) h =
    elim (Option-cases (version_named t.version versions)) [
      | inl e ↦ rw e (joined_trades-sided versions trades h.1)
      | inr (v, e) ↦ rw e (h.0, joined_trades-sided versions trades h.1)
    ]

check_sides_lem :
    (views : List SelectedTradeView)
    → All (λ (t : SelectedTradeView). is_sided t.side ≡ true) views
    → check_sides views ≡ ok tt
unfolding check_sides
check_sides_lem [] h = refl
check_sides_lem (t ∷ views) h = rw (h.0, check_sides_lem views h.1) refl

trade_views-sided :
    (selection : ℕ) (db : Database)
    → All IsSided db.trades
    → check_sides (trade_views selection db) ≡ ok tt
unfolding trade_views
trade_views-sided selection db h = check_sides_lem _ (
    All-take _ 100 _ (
      joined_trades-sided db.versions _
        (All-sort_newest IsSided _ (All-filter_of IsSided (of_selection selection) db.trades h))))

-- In a session whose time zone is UTC, a read at a time in UTC, of a current lease whose primary version has a row, returns a view of
-- each version that is shown, where every trade has one of the two sides.
pub read_total :
    {D : Type 0} (ops : DecimalOps D) (value : Decimal → D) (upper : String → String)
    (before : VersionRow → VersionRow → Bool) (session : Zone) (now : DateTime) (db : Database)
    (lease : SelectionLease) (primary : VersionRow)
    → is_utc_zone session ≡ true
    → is_utc_zone now.zone ≡ true
    → current_lease now.instant db.leases ≡ some lease
    → version_named lease.primary_version db.versions ≡ some primary
    → All IsSided db.trades
    → (view : SelectedMarketView D) × (read_selected_market ops value upper before session now db
        ≡ ok (some view))
      × ((row : VersionRow)
          → is_shown lease.group_id db.memberships row ≡ true
          → Any (λ v. v ≡ row) db.versions
          → Any (IsViewOf lease.selection_id db.depths row) view.instruments)
unfolding read_selected_market read_lease
read_total ops value upper before session now db lease primary in_utc h current named sided =
    let (views, eq, shown) =
      instrument_views_total ops value upper session now in_utc h lease.selection_id db.depths
        (shown_versions before lease.group_id db.memberships db.versions) in
    (
      shown_market lease primary views (trade_views lease.selection_id db),
      rw (h, current, named, eq, trade_views-sided lease.selection_id db sided) refl,
      λ row k l.
          shown row (shown_versions-Any before lease.group_id db.memberships db.versions row k l),
    )
