-- ===== src/SelectedStore/Shown.antt =====
-- That a depth which was stored last is shown by the next read of its selection.
use mathlib.Core.Path.{subst}
use prep_watchdeck.Prelude.{
  ℕ, ◌<◌, Bool, true, ◌&&◌, ◌≡◌, refl, sym, ap, ◌∙◌, String, some, List, [], ◌∷◌, ◌++◌, length,
  arith, All, Bool-cases, inl, inr, ok,
}
use prep_watchdeck.Time.{DateTime, Zone, is_utc_zone}
use prep_watchdeck.Text.{str_eq}
use prep_watchdeck.Decimal.{Decimal}
use prep_watchdeck.Venue.{Venue, venue_eq}
use prep_watchdeck.Depth.{SelectedDepth}
use prep_watchdeck.BookWalk.{DecimalOps}
use prep_watchdeck.Lease.{SelectionLease}
use prep_watchdeck.Lease.Members.{
  VersionRow, Membership, is_member, is_symbol, is_eligible, eligible_version,
}
use prep_watchdeck.SelectedStore.{
  Database, SelectedStoreResult, Payload, SelectedEvent, depth, bid, ask,
}
use prep_watchdeck.SelectedStore.Store.{
  active_selection, row_of, replace_depth, store_loop, store_active, store_selected_events,
  insert_raw, apply_event, finish, no_result,
}
use prep_watchdeck.SelectedStore.Guard.{
  IsSameCatalog, stored_event, store_loop-ok, store_active-ok, row_of_same,
}
use prep_watchdeck.SelectedStore.ReadBack.{
  bids-replace_depth, asks-replace_depth, received-replace_depth,
}
use prep_watchdeck.SelectedStore.Reads.{Any, IsSided, read_total}
use prep_watchdeck.SelectedStore.View.{
  SelectedInstrumentView, SelectedMarketView, side_levels, depth_received, is_shown, version_named,
  current_lease, read_selected_market,
}

same_trans : (a b c : Database) → IsSameCatalog a b → IsSameCatalog b c → IsSameCatalog a c
unfolding IsSameCatalog
same_trans a b c (h, k, l) (h', k', l') = (h ∙ h', k ∙ k', l ∙ l')

-- What a loop leaves whose last event is a depth.
loop_last :
    (upper : String → String) (lease : SelectionLease) (events : List SelectedEvent)
    (d : SelectedDepth) (p : Payload) (db : Database) (r : SelectedStoreResult)
    (y : Database × SelectedStoreResult)
    → store_loop upper lease (events ++ depth d p ∷ []) (db, r) ≡ ok y
    → (row : VersionRow) × (row_of upper lease.group_id db (depth d p) ≡ some row)
      × IsSameCatalog db y.0
      × (mid : Database) × (y.0.depths
          ≡ (replace_depth lease.selection_id row.version d p mid).depths)
unfolding store_loop stored_event apply_event
loop_last upper lease [] d p db r y h =
    let (_, row, found, same, rest) = store_loop-ok upper lease (depth d p) [] db r y h in
    let eq : stored_event lease row.version (depth d p) (db, r) ≡ y = cc in
    (
      row,
      found,
      subst (λ (z : Database × SelectedStoreResult). IsSameCatalog db z.0) eq same,
      insert_raw lease.selection_id lease.group_id row.version (depth d p) db,
      ap (λ (z : Database × SelectedStoreResult). z.0.depths) (sym eq),
    )
loop_last upper lease (e ∷ events) d p db r y h =
    let (_, row, found, same, rest) =
      store_loop-ok upper lease e (events ++ depth d p ∷ []) db r y h in
    let (row', found', same', mid, eq) = loop_last upper lease events d p _ _ y rest in
    (
      row',
      sym (row_of_same upper lease.group_id (depth d p) db _ same) ∙ found',
      same_trans db _ y.0 same same',
      mid,
      eq,
    )

-- the row of an event, among the rows of the catalog
eligible_version-Any :
    (upper : String → String) (group : String) (memberships : List Membership) (venue : Venue)
    (symbol : String) (versions : List VersionRow) (row : VersionRow)
    → eligible_version upper group memberships venue symbol versions ≡ some row
    → (is_shown group memberships row ≡ true)
      × (is_symbol venue symbol row ≡ true)
      × Any (λ v. v ≡ row) versions
unfolding eligible_version is_eligible
eligible_version-Any upper group memberships venue symbol [] row h = absurd (cc)
eligible_version-Any upper group memberships venue symbol (v ∷ versions) row h =
    elim (Bool-cases
      (is_member group memberships v && is_symbol venue symbol v && is_eligible upper v)) [
        | inl e ↦
            let shown : some v ≡ some row = sym (rw e refl) ∙ h in
            let eq : v ≡ row = cc in
            (
              subst (λ w. is_shown group memberships w ≡ true) eq (ground (arith, e)),
              subst (λ w. is_symbol venue symbol w ≡ true) eq (ground (arith, e)),
              inl eq,
            )
        | inr e ↦
            let (h1, h2, h3) =
              eligible_version-Any upper group memberships venue symbol versions row
                (sym (rw e refl) ∙ h) in
            (h1, h2, inr h3)
      ]

-- What a store leaves whose last event is a depth.
store_last :
    (upper : String → String) (lease : SelectionLease) (events : List SelectedEvent)
    (d : SelectedDepth) (p : Payload) (db db' : Database) (r : SelectedStoreResult)
    → store_active upper (some lease) (events ++ depth d p ∷ []) db ≡ ok (r, db')
    → (row : VersionRow) × (row_of upper lease.group_id db (depth d p) ≡ some row)
      × IsSameCatalog db db'
      × (mid : Database) × (db'.depths
          ≡ (replace_depth lease.selection_id row.version d p mid).depths)
unfolding finish IsSameCatalog
store_last upper lease events d p db db' r h =
    let (l, same_lease, _, x, loop, done) =
      store_active-ok upper (some lease) (events ++ depth d p ∷ []) db db' r h in
    let eq : l ≡ lease = cc in
    let (row, found, same, mid, depths) =
      loop_last upper lease events d p db no_result x (
        subst (λ k. store_loop upper k (events ++ depth d p ∷ []) (db, no_result) ≡ ok x) eq
          loop) in
    let left : (finish l.selection_id x).1 ≡ db' =
      ap (λ (y : SelectedStoreResult × Database). y.1) done in
    (
      row,
      found,
      subst (λ z. IsSameCatalog db z) left same,
      mid,
      sym (ap (λ (z : Database). z.depths) left) ∙ depths,
    )

-- the instrument of a depth with the depth's levels and time
unfoldable pub ShowsDepth : {D : Type 0} → SelectedDepth → SelectedInstrumentView D → Type 0
ShowsDepth d view =
    (venue_eq view.venue d.venue ≡ true)
    × (str_eq view.source_symbol d.source_symbol ≡ true)
    × (view.depth_received_at ≡ some d.received_at.instant)
    × (view.bids ≡ d.bids)
    × (view.asks ≡ d.asks)

Any-map :
    {A : Type 0} {P Q : A → Type 0} → ((x : A) → P x → Q x) → (xs : List A) → Any P xs → Any Q xs
Any-map f [] h = elim h [ ]
Any-map f (x ∷ xs) (inl h) = inl (f x h)
Any-map f (x ∷ xs) (inr h) = inr (Any-map f xs h)

active-ShowsDepth :
    {D : Type 0} (ops : DecimalOps D) (value : Decimal → D) (upper : String → String)
    (before : VersionRow → VersionRow → Bool) (session : Zone) (lease : SelectionLease)
    (primary : VersionRow) (events : List SelectedEvent) (d : SelectedDepth) (p : Payload)
    (db db' : Database) (r : SelectedStoreResult) (now : DateTime)
    → store_active upper (some lease) (events ++ depth d p ∷ []) db ≡ ok (r, db')
    → 0 < length d.bids
    → is_utc_zone session ≡ true
    → is_utc_zone now.zone ≡ true
    → current_lease now.instant db.leases ≡ some lease
    → version_named lease.primary_version db.versions ≡ some primary
    → All IsSided db'.trades
    → (view : SelectedMarketView D) × (read_selected_market ops value upper before session now db'
        ≡ ok (some view))
      × Any (ShowsDepth d) view.instruments
unfolding IsSameCatalog ShowsDepth row_of
active-ShowsDepth ops value upper before session lease primary events d p db db' r now h some_bids
      in_utc is_utc current named sided =
    let (row, found, (leases, memberships, versions), mid, depths) =
      store_last upper lease events d p db db' r h in
    let (shown, symbol, here) =
      eligible_version-Any upper lease.group_id db.memberships d.venue d.source_symbol db.versions
        row found in
    let (view, eq, views) =
      read_total ops value upper before session now db' lease primary in_utc is_utc
        (ap (current_lease now.instant) (sym leases) ∙ current)
        (ap (version_named lease.primary_version) (sym versions) ∙ named) sided in
    (
      view,
      eq,
      Any-map
          (λ i (_, venue, source_symbol, received, bids, asks). (
            rw venue (ground (arith, symbol)),
            rw source_symbol (ground (arith, symbol)),
            received
                ∙ ap (depth_received lease.selection_id row.version) depths
                ∙ received-replace_depth lease.selection_id row.version d p mid some_bids,
            bids
                ∙ ap (side_levels lease.selection_id row.version bid) depths
                ∙ bids-replace_depth lease.selection_id row.version d p mid,
            asks
                ∙ ap (side_levels lease.selection_id row.version ask) depths
                ∙ asks-replace_depth lease.selection_id row.version d p mid,
          ))
          view.instruments
          (views row (subst (λ m. is_shown lease.group_id m row ≡ true) memberships shown)
            (subst (λ v. Any (λ w. w ≡ row) v) versions here)),
    )

-- After a store of events whose last one is a depth with bids, a read at a time in UTC, in a database
-- session whose time zone is UTC, before the lease expires returns a view that shows the depth's instrument with exactly its
-- bids, its asks and its time, where the primary version has a row and each trade one of two sides.
pub stored-ShowsDepth :
    {D : Type 0} (ops : DecimalOps D) (value : Decimal → D) (upper : String → String)
    (before : VersionRow → VersionRow → Bool) (session : Zone) (selection : ℕ)
    (lease : SelectionLease) (primary : VersionRow) (events : List SelectedEvent)
    (d : SelectedDepth) (p : Payload) (db db' : Database) (r : SelectedStoreResult) (now : DateTime)
    → active_selection selection db.leases ≡ some lease
    → store_selected_events upper selection (events ++ depth d p ∷ []) db ≡ ok (r, db')
    → 0 < length d.bids
    → is_utc_zone session ≡ true
    → is_utc_zone now.zone ≡ true
    → current_lease now.instant db.leases ≡ some lease
    → version_named lease.primary_version db.versions ≡ some primary
    → All IsSided db'.trades
    → (view : SelectedMarketView D) × (read_selected_market ops value upper before session now db'
        ≡ ok (some view))
      × Any (ShowsDepth d) view.instruments
unfolding store_selected_events
stored-ShowsDepth ops value upper before session selection lease primary [] d p db db' r now active
      h =
    active-ShowsDepth ops value upper before session lease primary [] d p db db' r now
      (ap (λ o. store_active upper o (depth d p ∷ []) db) (sym active) ∙ h)
stored-ShowsDepth ops value upper before session selection lease primary (e ∷ events) d p db db' r
      now active h =
    active-ShowsDepth ops value upper before session lease primary (e ∷ events) d p db db' r now
      (ap (λ o. store_active upper o (e ∷ events ++ depth d p ∷ []) db) (sym active) ∙ h)
