-- ===== src/Selection/Request.antt =====
-- Construction, `request` and `heartbeat` of `SelectionController`, and its read-only properties.
use prep_watchdeck.Prelude.{
  ℕ, ◌+◌, ◌*◌, true, false, not, ◌||◌, Option, none, some, List, [], ◌∷◌, String, ltb, leb, ◌==◌,
  if◌then◌else◌, Result, ok, err, ◌>>=◌, ◌>>◌, raise_if,
}
use prep_watchdeck.Time.{DateTime, is_utc_zone, second}
use prep_watchdeck.Text.{is_blank}
use prep_watchdeck.Selection.{
  ActiveSelection, idle, Settings, Controller, Fault, invalid_settings, not_utc, expiry_order,
  empty_group, empty_primary, heartbeat_backwards, Outcome, revised, beaten, raised,
}

-- `__init__`: a duration below zero is no ℕ, so the test on `debounce` has no case
unfoldable pub create : Settings → Result Fault Controller
create s = do
  raise_if (s.ttl == 0 || s.heartbeat_interval == 0) invalid_settings
  raise_if (leb s.ttl s.heartbeat_interval) invalid_settings
  raise_if (s.cleanup_timeout == 0 || ltb (10 * second) s.cleanup_timeout) invalid_settings
  ok (record {
    settings = s;
    pending = none;
    active = none;
    revision = 0;
    phase = idle;
    next_object = 0;
    next_id = 0;
  })

unfoldable pub active_groups : Controller → List String
active_groups c = elim c.active [ none ↦ [] | some a ↦ a.group_id ∷ [] ]

unfoldable pub pending_expires_at : Controller → Option ℕ
pending_expires_at c = elim c.pending [ none ↦ none | some p ↦ p.expires_at ]

unfoldable pub heartbeat_due_at : Controller → Option ℕ
heartbeat_due_at c = elim c.active [
  | none ↦ none
  | some a ↦ some (a.heartbeat_at + c.settings.heartbeat_interval)
]

-- the checks on the optional expiry
unfoldable pub check_expiry : DateTime → Option DateTime → Result Fault (Option ℕ)
check_expiry requested none = ok none
check_expiry requested (some expires) = do
  raise_if (not (is_utc_zone expires.zone)) not_utc
  raise_if (leb expires.instant requested.instant) expiry_order
  ok (some expires.instant)

unfoldable pub check_request :
    String → String → DateTime → Option DateTime → Result Fault (Option ℕ)
unfolding check_expiry
check_request group primary requested expires = do
  raise_if (not (is_utc_zone requested.zone)) not_utc
  expiry ← check_expiry requested expires
  raise_if (is_blank group) empty_group
  raise_if (is_blank primary) empty_primary
  ok expiry

unfoldable pub request :
    String → String → DateTime → Option DateTime → Controller → Outcome × Controller
unfolding check_request
request group primary requested expires c = elim (check_request group primary requested expires) [
  | err e ↦ (raised e, c)
  | ok expiry ↦ (
    revised (c.revision + 1),
    record c {
      revision = c.revision + 1;
      pending = some (record {
        revision = c.revision + 1;
        group_id = group;
        primary_venue_instrument_id = primary;
        requested_at = requested.instant;
        activate_at = requested.instant + c.settings.debounce;
        expires_at = expiry;
      });
    },
  )
]

-- `replace(active, heartbeat_at=…, expires_at=…)`: a new object
abbrev pub renew : ℕ → ℕ → ℕ → ActiveSelection → ActiveSelection
renew object heartbeat_at expires_at a = record a {
  object = object;
  heartbeat_at = heartbeat_at;
  expires_at = expires_at;
}

unfoldable pub beat : ℕ → ℕ → Option ActiveSelection → Controller → Outcome × Controller
beat selection_id at none c = (beaten false, c)
beat selection_id at (some a) c =
    if not (a.selection_id == selection_id)
    then (beaten false, c)
    else if ltb at a.heartbeat_at
    then (raised heartbeat_backwards, c)
    else (
      beaten true,
      record c {
        active = some (renew c.next_object at (at + c.settings.ttl) a);
        next_object = c.next_object + 1;
      },
    )

unfoldable pub heartbeat : ℕ → DateTime → Controller → Outcome × Controller
unfolding beat
heartbeat selection_id at c =
    if is_utc_zone at.zone then beat selection_id at.instant c.active c else (raised not_utc, c)
