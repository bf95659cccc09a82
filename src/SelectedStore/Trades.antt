-- ===== src/SelectedStore/Trades.antt =====
-- The trades that a store keeps: the newest hundred of the selection, as `_prune_trades` leaves them.
use mathlib.Core.Path.{subst}
use prep_watchdeck.Prelude.{
  ℕ, ◌≤◌, ◌<◌, ◌&&◌, ◌≡◌, refl, sym, ap, ◌∙◌, String, some, List, [], ◌∷◌, any, length, arith,
  filter_snoc, length-filter, Bool-cases, inl, inr, ok, ◌==◌, ==_iff,
}
use prep_watchdeck.Lease.{SelectionLease, is_active, has_id}
use prep_watchdeck.SelectedStore.{
  Database, SelectedEvent, SelectedStoreResult, depth, trade, invalidated,
}
use prep_watchdeck.SelectedStore.Store.{
  active_selection, insert_raw, is_trade, of_selection, apply_event, insert_trade, replace_depth,
  delete_depth, store_loop, finish, no_result, prune_trades, store_selected_events,
}
use prep_watchdeck.SelectedStore.Newest.{others, own, others-prune, pruned_newest}
use prep_watchdeck.SelectedStore.Guard.{stored_event, store_loop-ok, store_active-ok}

insert_trade-others :
    (selection version : ℕ) (db : Database)
    → (t : _) (p : _)
    → others selection (insert_trade selection version t p db).0.trades ≡ others selection db.trades
unfolding insert_trade
insert_trade-others selection version db t p =
    elim (Bool-cases (any (is_trade selection version t.trade_id) db.trades)) [
      | inl e ↦ rw e refl
      | inr e ↦ rw e (filter_snoc _ db.trades _ (ground arith))
    ]

stored_event-others :
    (lease : SelectionLease) (version : ℕ) (e : SelectedEvent) (db : Database)
    (r : SelectedStoreResult)
    → others lease.selection_id (stored_event lease version e (db, r)).0.trades
      ≡ others lease.selection_id db.trades
unfolding stored_event apply_event replace_depth delete_depth insert_raw
stored_event-others lease version (depth d p) db r = refl
stored_event-others lease version (trade t p) db r =
    insert_trade-others lease.selection_id version _ t p
stored_event-others lease version (invalidated i p) db r = refl

store_loop-others :
    (upper : String → String) (lease : SelectionLease) (events : List SelectedEvent) (db : Database)
    (r : SelectedStoreResult) (y : Database × SelectedStoreResult)
    → store_loop upper lease events (db, r) ≡ ok y
    → others lease.selection_id y.0.trades ≡ others lease.selection_id db.trades
unfolding store_loop
store_loop-others upper lease [] db r y h = cc
store_loop-others upper lease (e ∷ events) db r y h =
    let (_, row, _, _, rest) = store_loop-ok upper lease e events db r y h in
    store_loop-others upper lease events _ _ y rest ∙ stored_event-others lease row.version e db r

has_id_eq :
    (selection : ℕ) (leases : List SelectionLease) (lease : SelectionLease)
    → active_selection selection leases ≡ some lease
    → lease.selection_id ≡ selection
unfolding active_selection
has_id_eq selection [] lease h = absurd (cc)
has_id_eq selection (l ∷ leases) lease h = elim (Bool-cases (has_id selection l && is_active l)) [
  | inl e ↦ ground (arith, h, e)
  | inr e ↦ has_id_eq selection leases lease (sym (rw e refl) ∙ h)
]

finish_trades :
    (selection : ℕ) (db : Database) (s : SelectedStoreResult)
    → (others selection (finish selection (db, s)).1.trades ≡ others selection db.trades)
      × ((finish selection (db, s)).0.trades_retained
          ≡ length (own selection (finish selection (db, s)).1.trades))
      × (0 < (finish selection (db, s)).0.trades_received
          → (finish selection (db, s)).0.trades_retained ≤ 100)
unfolding finish
finish_trades selection db s = elim (Bool-cases (s.trades_received == 0)) [
  | inl e ↦ rw e (
    refl,
    sym (length-filter _ db.trades),
    λ h. absurd (omega (arith, (==_iff s.trades_received 0).0 e, h)),
  )
  | inr e ↦ rw e (
    others-prune selection db.trades,
    sym (length-filter _ (prune_trades selection db.trades)),
    λ h. omega (
      arith,
      length-filter (of_selection selection) (prune_trades selection db.trades),
      (pruned_newest selection db.trades).2,
    ),
  )
]

-- A store that returns leaves the other selections' trades as they were, counts the selection's
-- trades that it leaves, and leaves at most 100 if it was given any.
pub stored_trades :
    (upper : String → String) (selection : ℕ) (e : SelectedEvent) (events : List SelectedEvent)
    (db db' : Database) (r : SelectedStoreResult)
    → store_selected_events upper selection (e ∷ events) db ≡ ok (r, db')
    → (others selection db'.trades ≡ others selection db.trades)
      × (r.trades_retained ≡ length (own selection db'.trades))
      × (0 < r.trades_received → r.trades_retained ≤ 100)
unfolding store_selected_events finish
stored_trades upper selection e events db db' r h =
    let (lease, active, _, x, loop, done) =
      store_active-ok upper (active_selection selection db.leases) (e ∷ events) db db' r h in
    let id = has_id_eq selection db.leases lease active in
    subst
      (λ (y : SelectedStoreResult × Database).
        (others selection y.1.trades ≡ others selection db.trades)
        × (y.0.trades_retained ≡ length (own selection y.1.trades))
        × (0 < y.0.trades_received → y.0.trades_retained ≤ 100))
      (ap (λ s. finish s x) (sym id) ∙ done)
      (
        (finish_trades selection x.0 x.1).0
            ∙ subst (λ s. others s x.0.trades ≡ others s db.trades) id
                (store_loop-others upper lease (e ∷ events) db no_result x loop),
        (finish_trades selection x.0 x.1).1,
        (finish_trades selection x.0 x.1).2,
      )
