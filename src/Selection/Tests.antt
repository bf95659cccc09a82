-- ===== src/Selection/Tests.antt =====
-- A selection from its request to its end, and the theorems at that run.
use prep_watchdeck.Prelude.{ℕ, ◌≤◌, ◌≡◌, refl, none, some, List, [], ◌∷◌, length, ok}
use prep_watchdeck.Time.{DateTime, utc}
use prep_watchdeck.Selection.{Settings, Controller, ActiveSelection, reconciled, idle}
use prep_watchdeck.Selection.Request.{create}
use prep_watchdeck.Selection.Trace.{Event, step, run}
use prep_watchdeck.Selection.Subscriptions.{one_subscription}
use prep_watchdeck.Selection.Tracking.{Tracked}
use prep_watchdeck.Selection.Activation.{IsLatest, activates-IsLatest}

abbrev settings : Settings
settings = record {
  debounce = 500000;
  ttl = 900000000;
  heartbeat_interval = 300000000;
  cleanup_timeout = 10000000;
}

abbrev fresh : Controller
fresh = record {
  settings = settings;
  pending = none;
  active = none;
  revision = 0;
  phase = idle;
  next_object = 0;
  next_id = 0;
}

fresh_created : create settings ≡ ok fresh
unfolding create
fresh_created = refl

abbrev at : ℕ → DateTime
at t = record { instant = t; zone = utc }

abbrev first_events : List Event
first_events =
    Event.request "crypto:BTC:linear-perp" "bitget:BTCUSDT" (at 1000000) none
    ∷ Event.reconcile (at 1200000)
    ∷ Event.reconcile (at 1500000)
    ∷ []

abbrev first_active : ActiveSelection
first_active = record {
  object = 0;
  selection_id = 0;
  group_id = "crypto:BTC:linear-perp";
  primary_venue_instrument_id = "bitget:BTCUSDT";
  subscription = 7;
  activated_at = 1500000;
  heartbeat_at = 1500000;
  expires_at = 901500000;
}

one_subscription_example :
    let w =
      run (Event.reconcile (at 5) ∷ first_events) (fresh, record { opened = []; lost = [] }) in
    (length w.1.opened ≤ 1) × Tracked w.0.phase w.0.active w.1.opened
one_subscription_example =
    one_subscription settings fresh (Event.reconcile (at 5) ∷ first_events) fresh_created

first_activation :
    (step
      (Event.subscribe_done (some 7))
      (run first_events (fresh, record { opened = []; lost = [] })).0).0
    ≡ reconciled (some first_active)
unfolding step run
first_activation = refl

activates-IsLatest_example :
    let c = (run first_events (fresh, record { opened = []; lost = [] })).0 in
    IsLatest c (step (Event.subscribe_done (some 7)) c).1 first_active
activates-IsLatest_example =
    activates-IsLatest settings fresh first_events (record { opened = []; lost = [] }) (some 7)
      first_active fresh_created first_activation
