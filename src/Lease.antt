-- ===== src/Lease.antt =====
-- The leases of selected groups: `activate_selection`, `heartbeat_selection`, `close_selection` and
-- `mark_selection_cleaned` of apps/market-core/src/prep_watchdeck_market/selected_store.py, on the
-- table `selected_group_leases` of apps/market-core/migrations/0004_selected_market.sql. A statement
-- that a constraint of the table refuses raises, and the transaction is rolled back.
pub mod Members
pub mod Ids
mod Rows
pub mod Slot
pub mod Refines
pub mod Cleaning
mod Tests
use prep_watchdeck.Prelude.{
  ℕ, ◌+◌, Bool, true, false, not, ◌&&◌, ◌||◌, String, Option, none, some, List, [], ◌∷◌, ◌++◌, map,
  leb, ltb, ◌==◌, if◌then◌else◌, Result, ok, err, ◌>>=◌, ◌>>◌, raise_if, any, all, count,
}
use prep_watchdeck.Time.{DateTime, is_utc_zone}
use prep_watchdeck.Text.{str_eq, is_blank}

-- a row of `selected_group_leases`
pub record SelectionLease : Type 0 where
  pub selection_id : ℕ
  pub group_id : String
  pub primary_version : ℕ
  pub activated_at : ℕ
  pub heartbeat_at : ℕ
  pub expires_at : ℕ
  pub superseded_at : Option ℕ
  pub cleanup_deadline_at : Option ℕ
  pub cleaned_at : Option ℕ

pub record SelectionTransition : Type 0 where
  pub current : SelectionLease
  pub previous : Option SelectionLease

-- `SELECTION_TTL` and `_CLEANUP_DEADLINE`, in microseconds
abbrev pub selection_ttl : ℕ
selection_ttl = 900000000

abbrev pub cleanup_deadline : ℕ
cleanup_deadline = 10000000

pub data LeaseFault : Type 0 where
  -- `ValueError`
  not_utc empty_group : LeaseFault
  -- `InvalidSelectionError`
  unbounded_lease changed_identity bad_primary : LeaseFault
  -- `SelectedStoreError`, by the constraint that refused: the primary key, the index that admits one
  -- active lease, or a CHECK
  duplicate_id second_active bad_row : LeaseFault

abbrev pub is_active : SelectionLease → Bool
is_active l = elim l.superseded_at [ none ↦ true | some at ↦ false ]

abbrev pub has_id : ℕ → SelectionLease → Bool
has_id id l = l.selection_id == id

-- `cleaned_at` is NULL, or lies between the other two; a CHECK that is NULL passes
abbrev pub is_clean_range : Option ℕ → ℕ → ℕ → Bool
is_clean_range none superseded deadline = true
is_clean_range (some cleaned) superseded deadline = leb superseded cleaned && leb cleaned deadline

abbrev pub is_end_valid : ℕ → Option ℕ → Option ℕ → Option ℕ → Bool
is_end_valid activated none none none = true
is_end_valid activated none none (some cleaned) = false
is_end_valid activated none (some deadline) cleaned = false
is_end_valid activated (some superseded) none none = leb activated superseded
is_end_valid activated (some superseded) none (some cleaned) = false
is_end_valid activated (some superseded) (some deadline) cleaned =
    leb activated superseded
    && leb superseded deadline
    && is_clean_range cleaned superseded deadline

-- the CHECKs of the table
unfoldable pub is_row_valid : SelectionLease → Bool
is_row_valid l =
    leb l.activated_at l.heartbeat_at
    && ltb l.heartbeat_at l.expires_at
    && is_end_valid l.activated_at l.superseded_at l.cleanup_deadline_at l.cleaned_at

-- UPDATE … SET … WHERE: the table and the row count. A new row that a CHECK refuses raises.
unfoldable pub update_rows :
    (SelectionLease → Bool)
    → (SelectionLease → SelectionLease)
    → List SelectionLease
    → List SelectionLease
update_rows chosen change [] = []
update_rows chosen change (l ∷ leases) =
    (if chosen l then change l else l) ∷ update_rows chosen change leases

unfoldable pub update :
    (SelectionLease → Bool)
    → (SelectionLease → SelectionLease)
    → List SelectionLease
    → Result LeaseFault (List SelectionLease × ℕ)
unfolding update_rows is_row_valid
update chosen change leases = do
  raise_if (any (λ l. chosen l && not (is_row_valid (change l))) leases) bad_row
  ok (update_rows chosen change leases, count chosen leases)

-- INSERT INTO selected_group_leases, of an active row
unfoldable pub insert :
    SelectionLease → List SelectionLease → Result LeaseFault (List SelectionLease)
unfolding is_row_valid
insert new leases = do
  raise_if (not (is_row_valid new)) bad_row
  raise_if (any (has_id new.selection_id) leases) duplicate_id
  raise_if (any is_active leases) second_active
  ok (leases ++ new ∷ [])

-- SELECT … WHERE superseded_at IS NULL
unfoldable pub active_row : List SelectionLease → Option SelectionLease
active_row [] = none
active_row (l ∷ leases) = let rest = active_row leases in if is_active l then some l else rest

unfoldable pub active_lease : ℕ → String → ℕ → ℕ → ℕ → SelectionLease
active_lease id group primary activated expires = record {
  selection_id = id;
  group_id = group;
  primary_version = primary;
  activated_at = activated;
  heartbeat_at = activated;
  expires_at = expires;
  superseded_at = none;
  cleanup_deadline_at = none;
  cleaned_at = none;
}

abbrev pub extend : ℕ → ℕ → SelectionLease → SelectionLease
extend heartbeat expires l = record l { heartbeat_at = heartbeat; expires_at = expires }

abbrev pub supersede : ℕ → SelectionLease → SelectionLease
supersede at l = record l {
  superseded_at = some at;
  cleanup_deadline_at = some (at + cleanup_deadline);
}

abbrev pub close_row : ℕ → SelectionLease → SelectionLease
close_row at l = record l {
  superseded_at = some at;
  cleanup_deadline_at = some (at + cleanup_deadline);
  cleaned_at = some at;
}

-- what the caller is told of the lease that was replaced
abbrev pub superseded_lease : ℕ → SelectionLease → SelectionLease
superseded_lease at l = record (supersede at l) { cleaned_at = none }

-- the active lease has the id already: its times are moved on
unfoldable pub reactivate :
    SelectionLease
    → SelectionLease
    → List SelectionLease
    → Result LeaseFault (SelectionTransition × List SelectionLease)
unfolding update
reactivate current new leases = do
  raise_if
      (not (str_eq current.group_id new.group_id)
        || not (current.primary_version == new.primary_version))
      changed_identity
  (leases', n) ← update (has_id new.selection_id) (extend new.activated_at new.expires_at) leases
  ok (record { current = new; previous = none }, leases')

-- another lease is active: it is superseded, and the new one inserted
unfoldable pub replace_active :
    SelectionLease
    → SelectionLease
    → List SelectionLease
    → Result LeaseFault (SelectionTransition × List SelectionLease)
unfolding update insert
replace_active old new leases = do
  (superseded, n) ← update (has_id old.selection_id) (supersede new.activated_at) leases
  inserted ← insert new superseded
  ok (record { current = new; previous = some (superseded_lease new.activated_at old) }, inserted)

unfoldable pub activate_row :
    Option SelectionLease
    → SelectionLease
    → List SelectionLease
    → Result LeaseFault (SelectionTransition × List SelectionLease)
unfolding reactivate replace_active insert
activate_row none new leases = do
  inserted ← insert new leases
  ok (record { current = new; previous = none }, inserted)
activate_row (some a) new leases =
    if has_id new.selection_id a then reactivate a new leases else replace_active a new leases

abbrev pub require_utc : DateTime → Result LeaseFault Unit
require_utc value = raise_if (not (is_utc_zone value.zone)) not_utc

abbrev pub expiry : DateTime → Option DateTime → DateTime
expiry activated none = record activated { instant = activated.instant + selection_ttl }
expiry activated (some expires) = expires

abbrev pub found : Option ℕ → Result LeaseFault ℕ
found none = err bad_primary
found (some version) = ok version

-- `primary` is what `_selected_primary_version` finds
unfoldable pub activate_selection :
    ℕ
    → String
    → Option ℕ
    → DateTime
    → Option DateTime
    → List SelectionLease
    → Result LeaseFault (SelectionTransition × List SelectionLease)
unfolding activate_row active_row active_lease
activate_selection id group primary activated expires leases = do
  require_utc activated
  require_utc (expiry activated expires)
  let end = (expiry activated expires).instant
  raise_if (not (ltb activated.instant end && leb end (activated.instant + selection_ttl)))
      unbounded_lease
  raise_if (is_blank group) empty_group
  version ← found primary
  activate_row (active_row leases) (active_lease id group version activated.instant end) leases

unfoldable pub heartbeat_selection :
    ℕ → DateTime → List SelectionLease → Result LeaseFault (Bool × List SelectionLease)
unfolding update
heartbeat_selection id at leases = do
  require_utc at
  (leases', n) ←
      update (λ l. has_id id l && is_active l && leb l.heartbeat_at at.instant)
        (extend at.instant (at.instant + selection_ttl)) leases
  ok (n == 1, leases')

unfoldable pub close_selection :
    ℕ → DateTime → List SelectionLease → Result LeaseFault (Bool × List SelectionLease)
unfolding update
close_selection id at leases = do
  require_utc at
  (leases', n) ← update (λ l. has_id id l && is_active l) (close_row at.instant) leases
  ok (n == 1, leases')

abbrev pub is_uncleaned_by : ℕ → Option ℕ → Option ℕ → Bool
is_uncleaned_by at none cleaned = false
is_uncleaned_by at (some superseded) none = leb superseded at
is_uncleaned_by at (some superseded) (some cleaned) = false

unfoldable pub mark_selection_cleaned :
    ℕ → DateTime → List SelectionLease → Result LeaseFault (Bool × List SelectionLease)
unfolding update
mark_selection_cleaned id at leases = do
  require_utc at
  (leases', n) ←
      update (λ l. has_id id l && is_uncleaned_by at.instant l.superseded_at l.cleaned_at)
        (λ l. record l { cleaned_at = some at.instant }) leases
  ok (n == 1, leases')
