-- ===== src/Selection/Activation.antt =====
-- What is subscribed is the latest request, due and not expired.
use prep_watchdeck.Prelude.{
  ℕ, ◌+◌, ◌≤◌, ◌<◌, ◌≡◌, refl, ap, inl, inr, true, Option, none, some, List, [], ◌∷◌, String, arith,
  Bool-cases, ltb, leb, not, ◌==◌, if◌then◌else◌, Result, ok, err,
}
use prep_watchdeck.Time.{DateTime, is_utc_zone}
use prep_watchdeck.Selection.{
  ActiveSelection, PendingSelection, Phase, idle, expiring, replacing, subscribing, discarding,
  stopping, Settings, Controller, reconciled, stopped, blocked, raised, Fault, cleanup_timeout,
  cleanup_failed, subscribe_failed,
}
use prep_watchdeck.Selection.Request
use prep_watchdeck.Selection.Reconcile
use prep_watchdeck.Selection.Reconcile.{Cleanup, cleaned, timed_out, failed}
use prep_watchdeck.Selection.Trace.{Event, Ledger, step, run, account}
use prep_watchdeck.Selection.Fresh.{
  Agrees, Waits, IsFresh, leave-IsFresh, start-IsFresh, pending-IsFresh,
}

snapshot_of :
    (c : Controller) → IsFresh c → (p : Phase) → c.phase ≡ p → Waits p c.revision c.pending
snapshot_of c h p e = simp (← e) h.waits

after_cleanup-IsFresh :
    (p : Phase) (c : Controller) → c.phase ≡ p → IsFresh c → IsFresh (Reconcile.after_cleanup p c).1
unfolding Reconcile.after_cleanup
after_cleanup-IsFresh idle c e h = h
after_cleanup-IsFresh (subscribing n p x id) c e h = h
after_cleanup-IsFresh (expiring now t) c e h =
    pending-IsFresh now c.pending (Reconcile.release t c) refl h.lives h.bounded
after_cleanup-IsFresh (replacing now p x t) c e h =
    start-IsFresh now p x (Reconcile.release t c) h.lives h.bounded
      (snapshot_of c h (replacing now p x t) e)
after_cleanup-IsFresh (discarding t) c e h = leave-IsFresh (reconciled c.active) c h.lives h.bounded
after_cleanup-IsFresh (stopping t) c e h =
    leave-IsFresh stopped (Reconcile.release t c) h.lives h.bounded

raised-IsFresh :
    (f : Fault) (c : Controller)
    → IsFresh c
    → IsFresh
        (if Reconcile.is_cleaning c.phase then Reconcile.leave (raised f) c else (blocked, c)).1
raised-IsFresh f c h = elim (Bool-cases (Reconcile.is_cleaning c.phase)) [
  | inl k ↦ rw k (leave-IsFresh (raised f) c h.lives h.bounded)
  | inr k ↦ rw k h
]

after_subscribe-IsFresh :
    (s : Option ℕ) (p : Phase) (c : Controller)
    → IsFresh c
    → IsFresh (Reconcile.after_subscribe s p c).1
unfolding Reconcile.after_subscribe
after_subscribe-IsFresh none (subscribing now p x id) c h =
    leave-IsFresh (raised subscribe_failed) c h.lives h.bounded
after_subscribe-IsFresh (some s) (subscribing now p x id) c h =
    elim (Bool-cases (Reconcile.same_revision c.pending p)) [
      | inl k ↦ rw k (record { lives = h.lives; bounded = tt; waits = tt })
      | inr k ↦ rw k (record { lives = h.lives; bounded = h.bounded; waits = tt })
    ]
after_subscribe-IsFresh none idle c h = h
after_subscribe-IsFresh none (expiring now t) c h = h
after_subscribe-IsFresh none (replacing now p x t) c h = h
after_subscribe-IsFresh none (discarding t) c h = h
after_subscribe-IsFresh none (stopping t) c h = h
after_subscribe-IsFresh (some s) idle c h = h
after_subscribe-IsFresh (some s) (expiring now t) c h = h
after_subscribe-IsFresh (some s) (replacing now p x t) c h = h
after_subscribe-IsFresh (some s) (discarding t) c h = h
after_subscribe-IsFresh (some s) (stopping t) c h = h

active-IsFresh :
    (now : ℕ) (active : Option ActiveSelection) (c : Controller)
    → IsFresh c
    → IsFresh (Reconcile.reconcile_active now active c).1
unfolding Reconcile.reconcile_active
active-IsFresh now none c h = pending-IsFresh now c.pending c refl h.lives h.bounded
active-IsFresh now (some a) c h = elim (Bool-cases (leb a.expires_at now)) [
  | inl o ↦ rw o (record { lives = h.lives; bounded = h.bounded; waits = tt })
  | inr o ↦ rw o (pending-IsFresh now c.pending c refl h.lives h.bounded)
]

locked-IsFresh :
    (now : ℕ) (p : Phase) (c : Controller)
    → IsFresh c
    → IsFresh (Reconcile.reconcile_locked now p c).1
unfolding Reconcile.reconcile_locked
locked-IsFresh now idle c h = active-IsFresh now c.active c h
locked-IsFresh now _ c h = h

stop-IsFresh :
    (p : Phase) (active : Option ActiveSelection) (c : Controller)
    → c.active ≡ active
    → IsFresh c
    → IsFresh (Reconcile.stop_locked p c).1
unfolding Reconcile.stop_locked Reconcile.stop_active
stop-IsFresh idle none c e h = simp e (record { lives = h.lives; bounded = tt; waits = tt })
stop-IsFresh idle (some a) c e h = simp e (record { lives = h.lives; bounded = tt; waits = tt })
stop-IsFresh (expiring now t) active c e h = h
stop-IsFresh (replacing now p x t) active c e h = h
stop-IsFresh (subscribing now p x id) active c e h = h
stop-IsFresh (discarding t) active c e h = h
stop-IsFresh (stopping t) active c e h = h

beat-IsFresh :
    (id at : ℕ) (active : Option ActiveSelection) (c : Controller)
    → IsFresh c
    → IsFresh (Request.beat id at active c).1
unfolding Request.beat
beat-IsFresh id at none c h = h
beat-IsFresh id at (some a) c h = elim (Bool-cases (not (a.selection_id == id))) [
  | inl k ↦ rw k h
  | inr k ↦ rw k (elim (Bool-cases (ltb at a.heartbeat_at)) [
    | inl b ↦ rw b h
    | inr b ↦ rw b (record { lives = h.lives; bounded = h.bounded; waits = h.waits })
  ])
]

-- a newer request agrees with no snapshot, since its revision is new
newer-Waits :
    (p : Phase) (revision : ℕ) (old : Option PendingSelection) (q : PendingSelection)
    → q.revision ≡ revision + 1
    → Waits p revision old
    → Waits p (revision + 1) (some q)
newer-Waits idle revision old q e h = tt
newer-Waits (expiring n t) revision old q e h = tt
newer-Waits (discarding t) revision old q e h = tt
newer-Waits (stopping t) revision old q e h = tt
newer-Waits (replacing n p x t) revision old q e h =
    (h.0, h.1, omega arith, λ same. absurd (omega arith))
newer-Waits (subscribing n p x id) revision old q e h =
    (h.0, h.1, omega arith, λ same. absurd (omega arith))

request-IsFresh :
    (group primary : String) (at : DateTime) (expires : Option DateTime) (c : Controller)
    → IsFresh c
    → IsFresh (Request.request group primary at expires c).1
unfolding Request.request
request-IsFresh group primary at expires c h =
    go (Request.check_request group primary at expires) refl
  where
    go :
        (r : Result Fault (Option ℕ))
        → Request.check_request group primary at expires ≡ r
        → IsFresh (Request.request group primary at expires c).1
    go (ok x) e =
        rw (e, Request.request)
          (record {
            lives = h.lives;
            bounded = omega arith;
            waits = newer-Waits c.phase c.revision c.pending _ refl h.waits;
          })
    go (err x) e = rw (e, Request.request) h

step-IsFresh : (e : Event) (c : Controller) → IsFresh c → IsFresh (step e c).1
unfolding step Request.heartbeat Reconcile.reconcile Reconcile.stop Reconcile.subscribe_done
    Reconcile.cleanup_done
step-IsFresh (Event.request g q at x) c h = request-IsFresh g q at x c h
step-IsFresh (Event.heartbeat id at) c h = elim (Bool-cases (is_utc_zone at.zone)) [
  | inl u ↦ rw u (beat-IsFresh id at.instant c.active c h)
  | inr u ↦ rw u h
]
step-IsFresh (Event.reconcile now) c h = elim (Bool-cases (is_utc_zone now.zone)) [
  | inl u ↦ rw u (locked-IsFresh now.instant c.phase c h)
  | inr u ↦ rw u h
]
step-IsFresh Event.stop c h = stop-IsFresh c.phase c.active c refl h
step-IsFresh (Event.cleanup_done cleaned) c h = after_cleanup-IsFresh c.phase c refl h
step-IsFresh (Event.cleanup_done timed_out) c h = raised-IsFresh cleanup_timeout c h
step-IsFresh (Event.cleanup_done failed) c h = raised-IsFresh cleanup_failed c h
step-IsFresh (Event.subscribe_done s) c h = after_subscribe-IsFresh s c.phase c h

run-IsFresh :
    (events : List Event) (c : Controller) (l : Ledger) → IsFresh c → IsFresh (run events (c, l)).0
unfolding run
run-IsFresh [] c l h = h
run-IsFresh (e ∷ events) c l h =
    run-IsFresh events (step e c).1 (account e c.phase l) (step-IsFresh e c h)

create_facts :
    (s : Settings) (c : Controller)
    → Request.create s ≡ ok c
    → (0 < c.settings.ttl) × (c.pending ≡ none) × (c.phase ≡ idle)
unfolding Request.create
create_facts s c h = ground arith

create-IsFresh : (s : Settings) (c : Controller) → Request.create s ≡ ok c → IsFresh c
create-IsFresh s c h =
    let (lives, no_pending, at_rest) = create_facts s c h in
    record { lives = lives; bounded = simp no_pending tt; waits = simp at_rest tt }

-- What holds of the selection `a` that a completed subscription made active.
pub record IsLatest (before after : Controller) (a : ActiveSelection) : Type 0 where
  pub pending : PendingSelection
  pub is_pending : before.pending ≡ some pending
  pub group : a.group_id ≡ pending.group_id
  pub primary : a.primary_venue_instrument_id ≡ pending.primary_venue_instrument_id
  pub due : pending.activate_at ≤ a.activated_at
  pub lives : a.activated_at < a.expires_at
  pub is_active : after.active ≡ some a
  pub is_done : after.pending ≡ none

same_pending :
    (pending : Option PendingSelection) (p : PendingSelection)
    → Agrees pending p
    → Reconcile.same_revision pending p ≡ true
    → pending ≡ some p
same_pending none p h e = cc
same_pending (some q) p h e = ap (λ (x : PendingSelection). some x) (h (ground (arith, e)))

activated-IsLatest :
    (s : Option ℕ) (p : Phase) (c : Controller) (a : ActiveSelection)
    → c.phase ≡ p
    → IsFresh c
    → (Reconcile.after_subscribe s p c).0 ≡ reconciled (some a)
    → IsLatest c (Reconcile.after_subscribe s p c).1 a
unfolding Reconcile.after_subscribe
activated-IsLatest (some s) (subscribing now p x id) c a e h r =
    elim (Bool-cases (Reconcile.same_revision c.pending p)) [
      | inl k ↦
          let w = snapshot_of c h (subscribing now p x id) e in
          record {
            pending = p;
            is_pending = same_pending c.pending p w.3 k;
            group = ground (arith, k);
            primary = ground (arith, k);
            due = ground (arith, k, w);
            lives = ground (arith, k, w);
            is_active = ground (arith, k);
            is_done = ground (arith, k);
          }
      | inr k ↦ absurd (ground (arith, k))
    ]
activated-IsLatest none (subscribing now p x id) c a e h r = absurd (cc)
activated-IsLatest none idle c a e h r = absurd (cc)
activated-IsLatest none (expiring now t) c a e h r = absurd (cc)
activated-IsLatest none (replacing now p x t) c a e h r = absurd (cc)
activated-IsLatest none (discarding t) c a e h r = absurd (cc)
activated-IsLatest none (stopping t) c a e h r = absurd (cc)
activated-IsLatest (some s) idle c a e h r = absurd (cc)
activated-IsLatest (some s) (expiring now t) c a e h r = absurd (cc)
activated-IsLatest (some s) (replacing now p x t) c a e h r = absurd (cc)
activated-IsLatest (some s) (discarding t) c a e h r = absurd (cc)
activated-IsLatest (some s) (stopping t) c a e h r = absurd (cc)

-- After any events from a new controller: where a completed `_subscribe` makes a selection active,
-- that selection is of the request that is pending at that time (the latest one), which was due when
-- `reconcile` took it, has not expired by then, and is done with.
pub activates-IsLatest :
    (s : Settings) (c : Controller) (events : List Event) (l : Ledger) (subscription : Option ℕ)
    (a : ActiveSelection)
    → Request.create s ≡ ok c
    → (step (Event.subscribe_done subscription) (run events (c, l)).0).0 ≡ reconciled (some a)
    → IsLatest
        (run events (c, l)).0
        (step (Event.subscribe_done subscription) (run events (c, l)).0).1
        a
unfolding step Reconcile.subscribe_done
activates-IsLatest s c events l subscription a h r =
    let c' = (run events (c, l)).0 in
    activated-IsLatest subscription c'.phase c' a refl
      (run-IsFresh events c l (create-IsFresh s c h)) r
