-- ===== src/SelectedStore/Guard.antt =====
-- What a store of selected events that succeeds has checked.
use mathlib.Core.Path.{subst}
use prep_watchdeck.Prelude.{
  ℕ, ◌+◌, ◌≤◌, ◌<◌, Bool-cases, inl, inr, ◌&&◌, true, false, ◌≡◌, refl, sym, ◌∙◌, String, Option,
  none, some, List, [], ◌∷◌, any, arith, All, All-map, ok, raise_if, raise_if-eq-ok, >>-eq-ok,
  >>=-eq-ok,
}
use prep_watchdeck.Lease.{SelectionLease}
use prep_watchdeck.Lease.Members.{
  VersionRow, Membership, is_member, is_symbol, is_eligible, eligible_version,
}
use prep_watchdeck.Venue.{Venue}
use prep_watchdeck.SelectedStore.{
  Database, venue_of, symbol_of, received_of, SelectedEvent, SelectedStoreResult, outside_lease,
  definition_changed, depth, trade, invalidated,
}
use prep_watchdeck.SelectedStore.Store.{
  active_selection, row_of, insert_raw, apply_event, insert_trade, replace_depth, delete_depth,
  is_outside, require_version, store_event, store_loop, has_changed, finish, store_active,
  no_result, store_selected_events,
}

-- the leases and the catalog's rows, which a store only reads
unfoldable pub IsSameCatalog : Database → Database → Type 0
IsSameCatalog a b =
    (a.leases ≡ b.leases) × (a.memberships ≡ b.memberships) × (a.versions ≡ b.versions)

insert_trade-IsSameCatalog :
    (selection version : ℕ) (db : Database)
    → (t : _) (p : _) → IsSameCatalog db (insert_trade selection version t p db).0
unfolding IsSameCatalog insert_trade
insert_trade-IsSameCatalog selection version db t p = ground arith

apply_event-IsSameCatalog :
    (selection version : ℕ) (e : SelectedEvent) (db : Database) (r : SelectedStoreResult)
    → IsSameCatalog db (apply_event selection version e (db, r)).0
unfolding IsSameCatalog apply_event replace_depth delete_depth
apply_event-IsSameCatalog selection version (depth d p) db r = (refl, refl, refl)
apply_event-IsSameCatalog selection version (trade t p) db r =
    insert_trade-IsSameCatalog selection version db t p
apply_event-IsSameCatalog selection version (invalidated i p) db r = (refl, refl, refl)

require_version-ok :
    (o : Option VersionRow) (v : ℕ)
    → require_version o ≡ ok v
    → (row : VersionRow) × (o ≡ some row) × (row.version ≡ v)
require_version-ok none v h = absurd (cc)
require_version-ok (some row) v h = (row, refl, cc)

-- the writes of one turn of the loop
unfoldable pub stored_event :
    SelectionLease
    → ℕ
    → SelectedEvent
    → Database × SelectedStoreResult
    → Database × SelectedStoreResult
unfolding apply_event insert_raw
stored_event lease version e (db, r) = apply_event lease.selection_id version e (
  insert_raw lease.selection_id lease.group_id version e db,
  record r { raw_observations_stored = r.raw_observations_stored + 1 },
)

-- What one turn of the loop has checked, and what it returns.
pub store_event-ok :
    (upper : String → String) (lease : SelectionLease) (e : SelectedEvent) (db : Database)
    (r : SelectedStoreResult) (y : Database × SelectedStoreResult)
    → store_event upper lease e (db, r) ≡ ok y
    → (is_outside lease e ≡ false)
      × (row : VersionRow) × (row_of upper lease.group_id db e ≡ some row)
      × (y ≡ stored_event lease row.version e (db, r))
unfolding store_event stored_event
store_event-ok upper lease e db r y h =
    let (h1, h2) = >>-eq-ok (raise_if (is_outside lease e) outside_lease) _ h in
    let (v, h3, h4) = >>=-eq-ok (require_version (row_of upper lease.group_id db e)) _ h2 in
    let (row, h5, h6) = require_version-ok _ v h3 in
    (raise_if-eq-ok _ outside_lease h1, row, h5, cc)

pub row_of_same :
    (upper : String → String) (group : String) (e : SelectedEvent) (a b : Database)
    → IsSameCatalog a b
    → row_of upper group b e ≡ row_of upper group a e
unfolding row_of IsSameCatalog
row_of_same upper group e a b (_, m, v) = rw (m, v) refl

-- What an event needs to be stored under a lease: the lease covers the time at which it was
-- received, and the catalog has an eligible version of its instrument in the lease's group.
pub IsStorable : (String → String) → SelectionLease → Database → SelectedEvent → Type 0
IsStorable upper lease db e =
    (lease.activated_at ≤ received_of e)
    × (received_of e < lease.expires_at)
    × (row : VersionRow) × (row_of upper lease.group_id db e ≡ some row)
    × (is_member lease.group_id db.memberships row ≡ true)
    × (is_symbol (venue_of e) (symbol_of e) row ≡ true)
    × (is_eligible upper row ≡ true)

eligible_version-some :
    (upper : String → String) (group : String) (memberships : List Membership) (venue : Venue)
    (symbol : String) (versions : List VersionRow) (row : VersionRow)
    → eligible_version upper group memberships venue symbol versions ≡ some row
    → (is_member group memberships row ≡ true)
      × (is_symbol venue symbol row ≡ true)
      × (is_eligible upper row ≡ true)
unfolding eligible_version
eligible_version-some upper group memberships venue symbol [] row h = absurd (cc)
eligible_version-some upper group memberships venue symbol (v ∷ versions) row h =
    elim (Bool-cases
      (is_member group memberships v && is_symbol venue symbol v && is_eligible upper v)) [
        | inl e ↦
            let found : some v ≡ some row = sym (rw e refl) ∙ h in
            let eq : v ≡ row = cc in
            subst
              (λ w.
                (is_member group memberships w ≡ true)
                × (is_symbol venue symbol w ≡ true)
                × (is_eligible upper w ≡ true))
              eq (ground (arith, e), ground (arith, e), ground (arith, e))
        | inr e ↦
            eligible_version-some upper group memberships venue symbol versions row
              (sym (rw e refl) ∙ h)
      ]

inside_lease :
    (lease : SelectionLease) (e : SelectedEvent)
    → is_outside lease e ≡ false
    → (lease.activated_at ≤ received_of e) × (received_of e < lease.expires_at)
inside_lease lease e h = (ground (arith, h), ground (arith, h))

IsStorable-same :
    (upper : String → String) (lease : SelectionLease) (a b : Database)
    → IsSameCatalog a b
    → (e : SelectedEvent) → IsStorable upper lease b e
    → IsStorable upper lease a e
unfolding IsStorable IsSameCatalog
IsStorable-same upper lease a b same e (h, k, row, found, member, symbol, eligible) = (
  h,
  k,
  row,
  sym (row_of_same upper lease.group_id e a b same) ∙ found,
  subst (λ m. is_member lease.group_id m row ≡ true) (sym same.1) member,
  symbol,
  eligible,
)

-- A loop that returns has stored its first event, and goes on from there with the same catalog.
pub store_loop-ok :
    (upper : String → String) (lease : SelectionLease) (e : SelectedEvent)
    (events : List SelectedEvent) (db : Database) (r : SelectedStoreResult)
    (y : Database × SelectedStoreResult)
    → store_loop upper lease (e ∷ events) (db, r) ≡ ok y
    → (is_outside lease e ≡ false)
      × (row : VersionRow) × (row_of upper lease.group_id db e ≡ some row)
      × IsSameCatalog db (stored_event lease row.version e (db, r)).0
      × (store_loop upper lease events (stored_event lease row.version e (db, r)) ≡ ok y)
unfolding store_loop stored_event insert_raw IsSameCatalog
store_loop-ok upper lease e events db r y h =
    let (x, h1, h2) = >>=-eq-ok (store_event upper lease e (db, r)) _ h in
    let (inside, row, found, eq) = store_event-ok upper lease e db r x h1 in
    (
      inside,
      row,
      found,
      apply_event-IsSameCatalog lease.selection_id row.version e _ _,
      rw (sym eq) h2,
    )

store_loop-IsStorable :
    (upper : String → String) (lease : SelectionLease) (events : List SelectedEvent) (db : Database)
    (r : SelectedStoreResult) (y : Database × SelectedStoreResult)
    → store_loop upper lease events (db, r) ≡ ok y
    → All (IsStorable upper lease db) events
unfolding store_loop IsStorable row_of
store_loop-IsStorable upper lease [] db r y h = tt
store_loop-IsStorable upper lease (e ∷ events) db r y h =
    let (inside, row, found, same, rest) = store_loop-ok upper lease e events db r y h in
    let (member, symbol, eligible) =
      eligible_version-some upper lease.group_id db.memberships (venue_of e) (symbol_of e)
        db.versions row found in
    (
      (
        (inside_lease lease e inside).0,
        (inside_lease lease e inside).1,
        row,
        found,
        member,
        symbol,
        eligible,
      ),
      All-map (IsStorable-same upper lease db _ same) events
          (store_loop-IsStorable upper lease events _ _ y rest),
    )

-- A store of events that returns has gone through its loop.
pub store_active-ok :
    (upper : String → String) (found : Option SelectionLease) (events : List SelectedEvent)
    (db db' : Database) (r : SelectedStoreResult)
    → store_active upper found events db ≡ ok (r, db')
    → (lease : SelectionLease) × (found ≡ some lease)
      × (any (has_changed upper lease.group_id db) events ≡ false)
      × (x : Database × SelectedStoreResult) × (store_loop upper lease events (db, no_result)
          ≡ ok x)
      × (finish lease.selection_id x ≡ (r, db'))
unfolding store_active
store_active-ok upper none events db db' r h = absurd (cc)
store_active-ok upper (some lease) events db db' r h =
    let (h1, h2) =
      >>-eq-ok (raise_if (any (has_changed upper lease.group_id db) events) definition_changed) _
        h in
    let (x, h3, h4) = >>=-eq-ok (store_loop upper lease events (db, no_result)) _ h2 in
    (lease, refl, raise_if-eq-ok _ definition_changed h1, x, h3, cc)

-- A store that returns found the selection's active lease, no size computed by an outdated
-- multiplier, and for every event a time within the lease, from its activation to before its
-- expiry, and an eligible version of the event's instrument that is a member of the lease's group.
pub stored-IsStorable :
    (upper : String → String) (selection : ℕ) (e : SelectedEvent) (events : List SelectedEvent)
    (db db' : Database) (r : SelectedStoreResult)
    → store_selected_events upper selection (e ∷ events) db ≡ ok (r, db')
    → (lease : SelectionLease) × (active_selection selection db.leases ≡ some lease)
      × (any (has_changed upper lease.group_id db) (e ∷ events) ≡ false)
      × All (IsStorable upper lease db) (e ∷ events)
unfolding store_selected_events
stored-IsStorable upper selection e events db db' r h =
    let (lease, active, unchanged, x, loop, done) =
      store_active-ok upper (active_selection selection db.leases) (e ∷ events) db db' r h in
    (lease, active, unchanged, store_loop-IsStorable upper lease (e ∷ events) db no_result x loop)
