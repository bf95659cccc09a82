-- ===== src/Selection/Reconcile.antt =====
-- `reconcile`, `stop` and `_cleanup_active` of `SelectionController`, cut at their awaits.
use prep_watchdeck.Prelude.{
  ℕ, ◌+◌, Bool, true, false, ◌&&◌, Option, none, some, ltb, leb, ◌==◌, if◌then◌else◌,
}
use prep_watchdeck.Time.{DateTime, is_utc_zone}
use prep_watchdeck.Text.{str_eq}
use prep_watchdeck.Selection.{
  ActiveSelection, PendingSelection, Phase, idle, expiring, replacing, subscribing, discarding,
  stopping, Controller, not_utc, cleanup_timeout, cleanup_failed, subscribe_failed, Outcome,
  reconciled, stopped, suspended, blocked, raised,
}
use prep_watchdeck.Selection.Request.{renew}

-- how `wait_for(self._unsubscribe(active), …)` ends
pub data Cleanup : Type 0 where
  cleaned timed_out failed : Cleanup

-- leaving the lock with a result
abbrev pub leave : Outcome → Controller → Outcome × Controller
leave o c = (o, record c { phase = idle })

abbrev pub await : Phase → Controller → Outcome × Controller
await p c = (suspended, record c { phase = p })

abbrev pub same_revision : Option PendingSelection → PendingSelection → Bool
same_revision none p = false
same_revision (some q) p = q.revision == p.revision

-- `if self._active is active: self._active = None`
abbrev pub release : ActiveSelection → Controller → Controller
release target c = record c {
  active = elim c.active [
    | none ↦ none
    | some a ↦ if a.object == target.object then none else some a
  ];
}

-- from the check of the revision on, with the lock held
unfoldable pub start_subscribe : ℕ → PendingSelection → ℕ → Controller → Outcome × Controller
start_subscribe now p expires c =
    if same_revision c.pending p
    then await (subscribing now p expires c.next_id) (record c { next_id = c.next_id + 1 })
    else leave (reconciled c.active) c

abbrev pub same_group : ActiveSelection → PendingSelection → Bool
same_group a p =
    str_eq a.group_id p.group_id
    && str_eq a.primary_venue_instrument_id p.primary_venue_instrument_id

-- a pending request that is due and not expired
unfoldable pub activate :
    ℕ → PendingSelection → ℕ → Option ActiveSelection → Controller → Outcome × Controller
unfolding start_subscribe
activate now p expires none c = start_subscribe now p expires c
activate now p expires (some a) c =
    if same_group a p
    then leave (reconciled (some (renew c.next_object now expires a))) (record c {
      active = some (renew c.next_object now expires a);
      next_object = c.next_object + 1;
      pending = if same_revision c.pending p then none else c.pending;
    })
    else await (replacing now p expires a) c

abbrev pub is_over : ℕ → Option ℕ → Bool
is_over now none = false
is_over now (some e) = leb e now

abbrev pub expiry_or : ℕ → Option ℕ → ℕ
expiry_or default none = default
expiry_or default (some e) = e

-- the body of `reconcile` after the expired selection is dealt with
unfoldable pub reconcile_pending : ℕ → Option PendingSelection → Controller → Outcome × Controller
unfolding activate
reconcile_pending now none c = leave (reconciled c.active) c
reconcile_pending now (some p) c =
    if ltb now p.activate_at
    then leave (reconciled c.active) c
    else if is_over now p.expires_at
    then leave (reconciled c.active) (record c { pending = none })
    else activate now p (expiry_or (now + c.settings.ttl) p.expires_at) c.active c

unfoldable pub reconcile_active : ℕ → Option ActiveSelection → Controller → Outcome × Controller
unfolding reconcile_pending
reconcile_active now none c = reconcile_pending now c.pending c
reconcile_active now (some a) c =
    if leb a.expires_at now then await (expiring now a) c else reconcile_pending now c.pending c

unfoldable pub reconcile_locked : ℕ → Phase → Controller → Outcome × Controller
unfolding reconcile_active
reconcile_locked now idle c = reconcile_active now c.active c
reconcile_locked now _ c = (blocked, c)

unfoldable pub reconcile : DateTime → Controller → Outcome × Controller
unfolding reconcile_locked
reconcile now c =
    if is_utc_zone now.zone then reconcile_locked now.instant c.phase c else (raised not_utc, c)

unfoldable pub stop_active : Option ActiveSelection → Controller → Outcome × Controller
stop_active none c = leave stopped c
stop_active (some a) c = await (stopping a) c

unfoldable pub stop_locked : Phase → Controller → Outcome × Controller
unfolding stop_active
stop_locked idle c = stop_active c.active (record c { pending = none })
stop_locked _ c = (blocked, c)

unfoldable pub stop : Controller → Outcome × Controller
unfolding stop_locked
stop c = stop_locked c.phase c

-- what follows an unsubscribe that succeeded
unfoldable pub after_cleanup : Phase → Controller → Outcome × Controller
unfolding reconcile_pending start_subscribe
after_cleanup (expiring now target) c = reconcile_pending now c.pending (release target c)
after_cleanup (replacing now p expires target) c = start_subscribe now p expires (release target c)
after_cleanup (discarding stale) c = leave (reconciled c.active) c
after_cleanup (stopping target) c = leave stopped (release target c)
after_cleanup _ c = (blocked, c)

abbrev pub is_cleaning : Phase → Bool
is_cleaning idle = false
is_cleaning (subscribing _ _ _ _) = false
is_cleaning _ = true

unfoldable pub cleanup_done : Cleanup → Controller → Outcome × Controller
unfolding after_cleanup
cleanup_done cleaned c = after_cleanup c.phase c
cleanup_done timed_out c =
    if is_cleaning c.phase then leave (raised cleanup_timeout) c else (blocked, c)
cleanup_done failed c =
    if is_cleaning c.phase then leave (raised cleanup_failed) c else (blocked, c)

-- what follows `await self._subscribe(…)`
unfoldable pub after_subscribe : Option ℕ → Phase → Controller → Outcome × Controller
after_subscribe none (subscribing now p expires id) c = leave (raised subscribe_failed) c
after_subscribe (some subscription) (subscribing now p expires id) c =
    let made : ActiveSelection = record {
      object = c.next_object;
      selection_id = id;
      group_id = p.group_id;
      primary_venue_instrument_id = p.primary_venue_instrument_id;
      subscription = subscription;
      activated_at = now;
      heartbeat_at = now;
      expires_at = expires;
    } in
    if same_revision c.pending p
    then leave (reconciled (some made))
        (record c { active = some made; pending = none; next_object = c.next_object + 1 })
    else await (discarding made) (record c { next_object = c.next_object + 1 })
after_subscribe _ _ c = (blocked, c)

-- the subscription, or `none` where `_subscribe` raised
unfoldable pub subscribe_done : Option ℕ → Controller → Outcome × Controller
unfolding after_subscribe
subscribe_done s c = after_subscribe s c.phase c
