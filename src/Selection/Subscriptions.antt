-- ===== src/Selection/Subscriptions.antt =====
-- At most one venue subscription is open, in every order of events.
use prep_watchdeck.Prelude.{
  ℕ, ◌≤◌, ◌≡◌, refl, inl, inr, Option, none, some, List, [], ◌∷◌, String, arith, length, Bool-cases,
  ltb, leb, not, ◌==◌, Result, ok, err,
}
use prep_watchdeck.Time.{DateTime, is_utc_zone}
use prep_watchdeck.Selection.{
  ActiveSelection, Phase, idle, expiring, replacing, subscribing, discarding, stopping, Settings,
  Controller, Fault,
}
use prep_watchdeck.Selection.Request
use prep_watchdeck.Selection.Reconcile
use prep_watchdeck.Selection.Trace.{Event, Ledger, step, account, run, open_new}
use prep_watchdeck.Selection.Tracking.{
  AtMost, Held, Held-nil, Tracked, pending-Tracked, cleanup-Tracked,
}

after_subscribe-Tracked :
    (s : Option ℕ) (p : Phase) (c : Controller) (l : Ledger)
    → c.phase ≡ p
    → Tracked p c.active l.opened
    → let c' = (Reconcile.after_subscribe s p c).1 in
      Tracked c'.phase c'.active (open_new s p l).opened
unfolding Reconcile.after_subscribe
after_subscribe-Tracked none (subscribing now p x id) c l e h = rw h (Held-nil c.active)
after_subscribe-Tracked (some s) (subscribing now p x id) c l e h =
    elim (Bool-cases (Reconcile.same_revision c.pending p)) [
      | inl k ↦ rw (k, h) (inr refl)
      | inr k ↦ rw (k, h) refl
    ]
after_subscribe-Tracked none idle c l e h = rw e h
after_subscribe-Tracked none (expiring now t) c l e h = rw e h
after_subscribe-Tracked none (replacing now p x t) c l e h = rw e h
after_subscribe-Tracked none (discarding t) c l e h = rw e h
after_subscribe-Tracked none (stopping t) c l e h = rw e h
after_subscribe-Tracked (some s) idle c l e h = rw e h
after_subscribe-Tracked (some s) (expiring now t) c l e h = rw e h
after_subscribe-Tracked (some s) (replacing now p x t) c l e h = rw e h
after_subscribe-Tracked (some s) (discarding t) c l e h = rw e h
after_subscribe-Tracked (some s) (stopping t) c l e h = rw e h

module _ (opened : List ℕ) where
  active-Tracked :
      (now : ℕ) (active : Option ActiveSelection) (c : Controller)
      → c.active ≡ active
      → Held c.active opened
      → let c' = (Reconcile.reconcile_active now active c).1 in Tracked c'.phase c'.active opened
  unfolding Reconcile.reconcile_active
  active-Tracked now none c e h = pending-Tracked opened now c.pending c h
  active-Tracked now (some a) c e h = elim (Bool-cases (leb a.expires_at now)) [
    | inl o ↦ rw o (simp e at h, simp e refl)
    | inr o ↦ rw o (pending-Tracked opened now c.pending c h)
  ]

  locked-Tracked :
      (now : ℕ) (p : Phase) (c : Controller)
      → c.phase ≡ p
      → Tracked p c.active opened
      → let c' = (Reconcile.reconcile_locked now p c).1 in Tracked c'.phase c'.active opened
  unfolding Reconcile.reconcile_locked
  locked-Tracked now idle c e h = active-Tracked now c.active c refl h
  locked-Tracked now (subscribing n p x id) c e h = rw e h
  locked-Tracked now (expiring n t) c e h = rw e h
  locked-Tracked now (replacing n p x t) c e h = rw e h
  locked-Tracked now (discarding t) c e h = rw e h
  locked-Tracked now (stopping t) c e h = rw e h

  stop_active-Tracked :
      (active : Option ActiveSelection) (c : Controller)
      → c.active ≡ active
      → Held c.active opened
      → let c' = (Reconcile.stop_active active c).1 in Tracked c'.phase c'.active opened
  unfolding Reconcile.stop_active
  stop_active-Tracked none c e h = h
  stop_active-Tracked (some a) c e h = (simp e at h, simp e refl)

  stop-Tracked :
      (p : Phase) (c : Controller)
      → c.phase ≡ p
      → Tracked p c.active opened
      → let c' = (Reconcile.stop_locked p c).1 in Tracked c'.phase c'.active opened
  unfolding Reconcile.stop_locked
  stop-Tracked idle c e h = stop_active-Tracked c.active (record c { pending = none }) refl h
  stop-Tracked (subscribing n p x id) c e h = rw e h
  stop-Tracked (expiring n t) c e h = rw e h
  stop-Tracked (replacing n p x t) c e h = rw e h
  stop-Tracked (discarding t) c e h = rw e h
  stop-Tracked (stopping t) c e h = rw e h

  -- a heartbeat keeps the id
  renewed-Tracked :
      (p : Phase) (object at expires : ℕ) (a : ActiveSelection)
      → Tracked p (some a) opened
      → Tracked p (some (Request.renew object at expires a)) opened
  renewed-Tracked idle object at expires a h = h
  renewed-Tracked (subscribing n p x id) object at expires a h = h
  renewed-Tracked (expiring n t) object at expires a h = h
  renewed-Tracked (replacing n p x t) object at expires a h = h
  renewed-Tracked (discarding t) object at expires a h = h
  renewed-Tracked (stopping t) object at expires a h = h

  beat-Tracked :
      (id at : ℕ) (active : Option ActiveSelection) (c : Controller)
      → c.active ≡ active
      → Tracked c.phase c.active opened
      → let c' = (Request.beat id at active c).1 in Tracked c'.phase c'.active opened
  unfolding Request.beat
  beat-Tracked id at none c e h = h
  beat-Tracked id at (some a) c e h = elim (Bool-cases (not (a.selection_id == id))) [
    | inl k ↦ rw k h
    | inr k ↦ rw k (elim (Bool-cases (ltb at a.heartbeat_at)) [
      | inl b ↦ rw b h
      | inr b ↦ rw b (renewed-Tracked c.phase c.next_object at _ a (simp e at h))
    ])
  ]

  request-Tracked :
      (group primary : String) (at : DateTime) (expires : Option DateTime) (c : Controller)
      → Tracked c.phase c.active opened
      → let c' = (Request.request group primary at expires c).1 in Tracked c'.phase c'.active opened
  unfolding Request.request
  request-Tracked group primary at expires c h =
      go (Request.check_request group primary at expires) refl
    where
      go :
          (r : Result Fault (Option ℕ))
          → Request.check_request group primary at expires ≡ r
          → let c' = (Request.request group primary at expires c).1 in
            Tracked c'.phase c'.active opened
      go (ok x) e = rw (e, Request.request) h
      go (err x) e = rw (e, Request.request) h

step-Tracked :
    (e : Event) (c : Controller) (l : Ledger)
    → Tracked c.phase c.active l.opened
    → let c' = (step e c).1 in Tracked c'.phase c'.active (account e c.phase l).opened
unfolding step Request.heartbeat Reconcile.reconcile Reconcile.stop Reconcile.subscribe_done
step-Tracked (Event.request g q at x) c l h = request-Tracked l.opened g q at x c h
step-Tracked (Event.heartbeat id at) c l h = elim (Bool-cases (is_utc_zone at.zone)) [
  | inl u ↦ rw u (beat-Tracked l.opened id at.instant c.active c refl h)
  | inr u ↦ rw u h
]
step-Tracked (Event.reconcile now) c l h = elim (Bool-cases (is_utc_zone now.zone)) [
  | inl u ↦ rw u (locked-Tracked l.opened now.instant c.phase c refl h)
  | inr u ↦ rw u h
]
step-Tracked Event.stop c l h = stop-Tracked l.opened c.phase c refl h
step-Tracked (Event.cleanup_done how) c l h = cleanup-Tracked how c l h
step-Tracked (Event.subscribe_done s) c l h = after_subscribe-Tracked s c.phase c l refl h

run-Tracked :
    (events : List Event) (c : Controller) (l : Ledger)
    → Tracked c.phase c.active l.opened
    → let w = run events (c, l) in Tracked w.0.phase w.0.active w.1.opened
unfolding run
run-Tracked [] c l h = h
run-Tracked (e ∷ events) c l h =
    run-Tracked events (step e c).1 (account e c.phase l) (step-Tracked e c l h)

pub length-le-one : (id : ℕ) (opened : List ℕ) → AtMost id opened → length opened ≤ 1
length-le-one id opened (inl e) = rw e (omega arith)
length-le-one id opened (inr e) = rw e (omega arith)

opened_le_one :
    (p : Phase) (active : Option ActiveSelection) (opened : List ℕ)
    → Tracked p active opened
    → length opened ≤ 1
opened_le_one idle none opened h = rw h (omega arith)
opened_le_one idle (some a) opened h = length-le-one a.selection_id opened h
opened_le_one (expiring n t) active opened h = length-le-one t.selection_id opened h.0
opened_le_one (replacing n p x t) active opened h = length-le-one t.selection_id opened h.0
opened_le_one (stopping t) active opened h = length-le-one t.selection_id opened h.0
opened_le_one (subscribing n p x id) active opened h = rw h (omega arith)
opened_le_one (discarding t) active opened h = rw h (omega arith)

create-Tracked :
    (s : Settings) (c : Controller) → Request.create s ≡ ok c → Tracked c.phase c.active []
unfolding Request.create
create-Tracked s c h = ground arith

-- From a new controller, after any events in any order (requests and heartbeats between the awaits,
-- cleanups and subscriptions that fail): at most one subscription is open, apart from those of stale
-- activations whose own cleanup raised, and an open one is that of the active selection, of the
-- cleanup under way, or of the stale activation being discarded.
pub one_subscription :
    (s : Settings) (c : Controller) (events : List Event)
    → Request.create s ≡ ok c
    → let w = run events (c, record { opened = []; lost = [] }) in
      (length w.1.opened ≤ 1) × Tracked w.0.phase w.0.active w.1.opened
one_subscription s c events h =
    let w = run events (c, record { opened = []; lost = [] }) in
    let t = run-Tracked events c (record { opened = []; lost = [] }) (create-Tracked s c h) in
    (opened_le_one w.0.phase w.0.active w.1.opened t, t)
