-- ===== src/Selection/Trace.antt =====
-- The controller in its environment: every event, in any order, and the subscriptions that are open
-- at the venue side. `opened` are the ids whose `_subscribe` returned and whose `_unsubscribe` has
-- not; `lost` are those of a stale activation whose cleanup raised, which nothing refers to any more.
use prep_watchdeck.Prelude.{ℕ, not, Option, some, List, [], ◌∷◌, String, filter, ◌==◌}
use prep_watchdeck.Time.{DateTime}
use prep_watchdeck.Selection.{
  Phase, idle, expiring, replacing, subscribing, discarding, stopping, Controller, Outcome,
}
use prep_watchdeck.Selection.Request
use prep_watchdeck.Selection.Reconcile
use prep_watchdeck.Selection.Reconcile.{Cleanup, cleaned, timed_out, failed}

pub data Event : Type 0 where
  request : String → String → DateTime → Option DateTime → Event
  heartbeat : ℕ → DateTime → Event
  reconcile : DateTime → Event
  stop : Event
  cleanup_done : Cleanup → Event
  subscribe_done : Option ℕ → Event

unfoldable pub step : Event → Controller → Outcome × Controller
unfolding Request.request Request.heartbeat Reconcile.reconcile Reconcile.stop
    Reconcile.cleanup_done Reconcile.subscribe_done
step (Event.request group primary at expires) c = Request.request group primary at expires c
step (Event.heartbeat id at) c = Request.heartbeat id at c
step (Event.reconcile now) c = Reconcile.reconcile now c
step Event.stop c = Reconcile.stop c
step (Event.cleanup_done how) c = Reconcile.cleanup_done how c
step (Event.subscribe_done s) c = Reconcile.subscribe_done s c

-- the ids of open subscriptions, and of those that are lost
pub record Ledger : Type 0 where
  pub opened : List ℕ
  pub lost : List ℕ

abbrev pub without : ℕ → List ℕ → List ℕ
without id = filter (λ j. not (j == id))

abbrev pub close : Phase → Ledger → Ledger
close idle l = l
close (subscribing _ _ _ _) l = l
close (expiring _ t) l = record l { opened = without t.selection_id l.opened }
close (replacing _ _ _ t) l = record l { opened = without t.selection_id l.opened }
close (discarding t) l = record l { opened = without t.selection_id l.opened }
close (stopping t) l = record l { opened = without t.selection_id l.opened }

-- a cleanup that raised: a stale activation is held by nothing else
abbrev pub lose : Phase → Ledger → Ledger
lose (discarding t) l = record {
  opened = without t.selection_id l.opened;
  lost = t.selection_id ∷ l.lost;
}
lose _ l = l

abbrev pub open_new : Option ℕ → Phase → Ledger → Ledger
open_new (some s) (subscribing _ _ _ id) l = record l { opened = id ∷ l.opened }
open_new _ _ l = l

abbrev pub account : Event → Phase → Ledger → Ledger
account (Event.cleanup_done cleaned) p l = close p l
account (Event.cleanup_done timed_out) p l = lose p l
account (Event.cleanup_done failed) p l = lose p l
account (Event.subscribe_done s) p l = open_new s p l
account _ p l = l

unfoldable pub run : List Event → Controller × Ledger → Controller × Ledger
run [] w = w
run (e ∷ events) w = run events ((step e w.0).1, account e w.0.phase w.1)
