-- ===== src/Selection.antt =====
-- The controller of the one selected group: `SelectionController` of
-- apps/market-core/src/prep_watchdeck_market/selection.py.
-- A coroutine that awaits is cut at its awaits: `Phase` says where the holder of `_transition_lock`
-- waits, and each event runs the code up to the next await. `request` and `heartbeat` take no lock
-- and may come in any phase.
pub mod Request
pub mod Reconcile
pub mod Trace
mod Tracking
pub mod Subscriptions
mod Fresh
pub mod Activation
mod Tests
use prep_watchdeck.Prelude.{ℕ, Option, none, some, Bool, String}

pub record ActiveSelection : Type 0 where
  -- the identity of the object, which `is` compares and `replace` makes anew
  pub object : ℕ
  -- the UUID: a number of a supply that never repeats
  pub selection_id : ℕ
  pub group_id : String
  pub primary_venue_instrument_id : String
  pub subscription : ℕ
  pub activated_at : ℕ
  pub heartbeat_at : ℕ
  pub expires_at : ℕ

pub record PendingSelection : Type 0 where
  pub revision : ℕ
  pub group_id : String
  pub primary_venue_instrument_id : String
  pub requested_at : ℕ
  pub activate_at : ℕ
  pub expires_at : Option ℕ

-- Where the holder of the lock waits.
pub data Phase : Type 0 where
  -- nobody holds the lock
  idle : Phase
  -- `reconcile` cleans up an expired selection
  expiring : ℕ → ActiveSelection → Phase
  -- `reconcile` cleans up the old group before it subscribes the pending one, to expire at the time
  replacing : ℕ → PendingSelection → ℕ → ActiveSelection → Phase
  -- `reconcile` awaits `_subscribe` of the id
  subscribing : ℕ → PendingSelection → ℕ → ℕ → Phase
  -- `reconcile` cleans up a subscription that a newer request made stale
  discarding : ActiveSelection → Phase
  -- `stop` cleans up
  stopping : ActiveSelection → Phase

-- the durations are in microseconds
pub record Settings : Type 0 where
  pub debounce : ℕ
  pub ttl : ℕ
  pub heartbeat_interval : ℕ
  pub cleanup_timeout : ℕ

pub record Controller : Type 0 where
  pub settings : Settings
  pub pending : Option PendingSelection
  pub active : Option ActiveSelection
  pub revision : ℕ
  pub phase : Phase
  -- the supplies of object identities and of UUIDs
  pub next_object : ℕ
  pub next_id : ℕ

pub data Fault : Type 0 where
  invalid_settings not_utc expiry_order empty_group empty_primary heartbeat_backwards : Fault
  cleanup_timeout cleanup_failed subscribe_failed : Fault

pub data Outcome : Type 0 where
  -- `request` returned a revision
  revised : ℕ → Outcome
  -- `heartbeat` returned
  beaten : Bool → Outcome
  -- `reconcile` returned
  reconciled : Option ActiveSelection → Outcome
  -- `stop` returned
  stopped : Outcome
  -- the coroutine waits at its next await
  suspended : Outcome
  -- the lock is taken, or nothing waits for this completion
  blocked : Outcome
  raised : Fault → Outcome
