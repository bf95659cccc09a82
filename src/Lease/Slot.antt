-- ===== src/Lease/Slot.antt =====
-- What each committed call does to the one active lease.
use prep_watchdeck.Prelude.{
  ℕ, ◌+◌, ◌≤◌, ◌≡◌, refl, ◌∙◌, inl, inr, Bool, true, false, not, ◌&&◌, ◌||◌, String, Option, none,
  some, List, arith, count, leb, ltb, ◌==◌, Bool-cases, Option-cases, if◌then◌else◌, Result, ok,
  err, raise_if, >>-eq-ok,
}
use prep_watchdeck.Time.{DateTime}
use prep_watchdeck.Text.{is_blank, str_eq}
use prep_watchdeck.Lease.{
  SelectionLease, SelectionTransition, LeaseFault, changed_identity, unbounded_lease, empty_group,
  is_active, has_id, update_rows, update, insert, active_row, active_lease, extend, supersede,
  close_row, reactivate, replace_active, activate_row, found, expiry, require_utc, selection_ttl,
  activate_selection, heartbeat_selection, close_selection, is_uncleaned_by, mark_selection_cleaned,
}
use prep_watchdeck.Lease.Rows.{
  active_row-IsActive, extend_slot, count-end, end_slot, update_ok, insert_ok, bind_ok,
}

-- one call of the module, by any client
pub data LeaseCall : Type 0 where
  activates : ℕ → String → Option ℕ → DateTime → Option DateTime → LeaseCall
  heartbeats : ℕ → DateTime → LeaseCall
  closes : ℕ → DateTime → LeaseCall
  cleans : ℕ → DateTime → LeaseCall

abbrev table_of :
    {A : Type 0}
    → Result LeaseFault (A × List SelectionLease)
    → Result LeaseFault (List SelectionLease)
table_of (ok x) = ok x.1
table_of (err e) = err e

-- the table that a call commits
unfoldable pub committed : LeaseCall → List SelectionLease → Result LeaseFault (List SelectionLease)
committed (activates id group primary at expires) leases =
    table_of (activate_selection id group primary at expires leases)
committed (heartbeats id at) leases = table_of (heartbeat_selection id at leases)
committed (closes id at) leases = table_of (close_selection id at leases)
committed (cleans id at) leases = table_of (mark_selection_cleaned id at leases)

-- A slot for one lease: opened or moved on, moved on, emptied, untouched.
abbrev pub opens : SelectionLease → Option SelectionLease → Option SelectionLease
opens new none = some new
opens new (some a) =
    if has_id new.selection_id a then some (extend new.activated_at new.expires_at a) else some new

abbrev pub version_or_zero : Option ℕ → ℕ
version_or_zero none = 0
version_or_zero (some version) = version

unfoldable pub slot_step : LeaseCall → Option SelectionLease → Option SelectionLease
slot_step (activates id group primary at expires) slot =
    opens (active_lease id group (version_or_zero primary) at.instant (expiry at expires).instant)
      slot
slot_step (heartbeats id at) none = none
slot_step (heartbeats id at) (some a) = some (
    if has_id id a && leb a.heartbeat_at at.instant
    then extend at.instant (at.instant + selection_ttl) a
    else a)
slot_step (closes id at) none = none
slot_step (closes id at) (some a) = if has_id id a then none else some a
slot_step (cleans id at) slot = slot

-- what is active in the table, and that it is one lease at most
abbrev pub Holds : Option SelectionLease → List SelectionLease → Type 0
Holds slot leases = (active_row leases ≡ slot) × (count is_active leases ≤ 1)

reactivate-Holds :
    (old new : SelectionLease) (leases : List SelectionLease)
    (x : SelectionTransition × List SelectionLease)
    → active_row leases ≡ some old
    → count is_active leases ≤ 1
    → has_id new.selection_id old ≡ true
    → reactivate old new leases ≡ ok x
    → Holds (some (extend new.activated_at new.expires_at old)) x.1
unfolding reactivate
reactivate-Holds old new leases x a c e h =
    let (h1, r1) =
      >>-eq-ok
        (raise_if
          (not (str_eq old.group_id new.group_id)
            || not (old.primary_version == new.primary_version))
          changed_identity)
        _ h in
    let (u, is_u, k) =
      bind_ok (update (has_id new.selection_id) (extend new.activated_at new.expires_at) leases) _ x
        r1 in
    let rows =
      update_ok (has_id new.selection_id) (extend new.activated_at new.expires_at) leases u is_u in
    let (slot, active) =
      extend_slot (has_id new.selection_id) new.activated_at new.expires_at leases in
    let same : update_rows (has_id new.selection_id) (extend new.activated_at new.expires_at) leases
        ≡ x.1 =
      cc in
    rw (← same) (slot ∙ rw (a, e) refl, omega (arith, active))

replace_Holds :
    (old new : SelectionLease) (leases : List SelectionLease)
    (x : SelectionTransition × List SelectionLease)
    → is_active new ≡ true
    → replace_active old new leases ≡ ok x
    → Holds (some new) x.1
unfolding replace_active
replace_Holds old new leases x n h =
    let (u, is_u, k) =
      bind_ok (update (has_id old.selection_id) (supersede new.activated_at) leases) _ x h in
    let (inserted, i, m) = bind_ok (insert new u.0) _ x k in
    let same : inserted ≡ x.1 = cc m in rw (← same) (insert_ok new u.0 inserted n i)

activate_Holds :
    (o : Option SelectionLease) (new : SelectionLease) (leases : List SelectionLease)
    (x : SelectionTransition × List SelectionLease)
    → is_active new ≡ true
    → active_row leases ≡ o
    → count is_active leases ≤ 1
    → activate_row o new leases ≡ ok x
    → Holds (opens new o) x.1
unfolding activate_row
activate_Holds none new leases x n a c h =
    let (inserted, i, k) = bind_ok (insert new leases) _ x h in
    let same : inserted ≡ x.1 = cc k in rw (← same) (insert_ok new leases inserted n i)
activate_Holds (some old) new leases x n a c h = elim (Bool-cases (has_id new.selection_id old)) [
  | inl e ↦ rw e (reactivate-Holds old new leases x a c e (rw e at h))
  | inr e ↦ rw e (replace_Holds old new leases x n (rw e at h))
]

table_ok :
    {A : Type 0} (r : Result LeaseFault (A × List SelectionLease)) (x : List SelectionLease)
    → table_of r ≡ ok x
    → (a : A) × (r ≡ ok (a, x))
table_ok (ok (a, y)) x h = (a, cc)
table_ok (err e) x h = absurd (cc)

found_ok : (primary : Option ℕ) (version : ℕ) → found primary ≡ ok version → primary ≡ some version
found_ok none version h = absurd (cc)
found_ok (some v) version h = cc

activates_Holds :
    (id : ℕ) (group : String) (primary : Option ℕ) (at : DateTime) (expires : Option DateTime)
    (leases : List SelectionLease) (x : SelectionTransition × List SelectionLease)
    → count is_active leases ≤ 1
    → activate_selection id group primary at expires leases ≡ ok x
    → Holds (slot_step (activates id group primary at expires) (active_row leases)) x.1
unfolding activate_selection slot_step active_lease
activates_Holds id group primary at expires leases x c h =
    let end = (expiry at expires).instant in
    let (h1, r1) = >>-eq-ok (require_utc at) _ h in
    let (h2, r2) = >>-eq-ok (require_utc (expiry at expires)) _ r1 in
    let (h3, r3) =
      >>-eq-ok
        (raise_if (not (ltb at.instant end && leb end (at.instant + selection_ttl)))
          unbounded_lease)
        _ r2 in
    let (h4, r4) = >>-eq-ok (raise_if (is_blank group) empty_group) _ r3 in
    let (version, is_version, k) = bind_ok (found primary) _ x r4 in
    rw (found_ok primary version is_version) (
      activate_Holds (active_row leases) (active_lease id group version at.instant end) leases x
        refl refl c k)

moved_Holds :
    (chosen : SelectionLease → Bool) (heartbeat expires : ℕ) (leases : List SelectionLease)
    (o : Option SelectionLease)
    → count is_active leases ≤ 1
    → active_row leases ≡ o
    → Holds
        (elim o [
          | none ↦ none
          | some a ↦ some (if chosen a then extend heartbeat expires a else a)
        ])
        (update_rows chosen (extend heartbeat expires) leases)
moved_Holds chosen heartbeat expires leases o c a =
    let (slot, active) = extend_slot chosen heartbeat expires leases in
    (slot ∙ rw a refl, omega (arith, active))

heartbeats_Holds :
    (id : ℕ) (at : DateTime) (leases : List SelectionLease) (x : Bool × List SelectionLease)
    → count is_active leases ≤ 1
    → heartbeat_selection id at leases ≡ ok x
    → Holds (slot_step (heartbeats id at) (active_row leases)) x.1
unfolding heartbeat_selection slot_step
heartbeats_Holds id at leases x c h =
    let chosen =
      λ (l : SelectionLease). has_id id l && is_active l && leb l.heartbeat_at at.instant in
    let (h1, r1) = >>-eq-ok (require_utc at) _ h in
    let (u, is_u, k) =
      bind_ok (update chosen (extend at.instant (at.instant + selection_ttl)) leases) _ x r1 in
    let rows = update_ok chosen (extend at.instant (at.instant + selection_ttl)) leases u is_u in
    let same : update_rows chosen (extend at.instant (at.instant + selection_ttl)) leases ≡ x.1 =
      cc in
    rw (← same) (elim (Option-cases (active_row leases)) [
      | inl e ↦ rw e (moved_Holds chosen at.instant (at.instant + selection_ttl) leases none c e)
      | inr (a, e) ↦ rw e (
          ground (
            arith,
            moved_Holds chosen at.instant (at.instant + selection_ttl) leases (some a) c e,
            active_row-IsActive leases a e,
          ))
    ])

ended_Holds :
    (chosen : SelectionLease → Bool) (change : SelectionLease → SelectionLease)
    (leases : List SelectionLease) (o : Option SelectionLease)
    → ((l : SelectionLease) → chosen l ≡ true → is_active (change l) ≡ false)
    → count is_active leases ≤ 1
    → active_row leases ≡ o
    → Holds
        (elim o [ none ↦ none | some a ↦ if chosen a then none else some a ])
        (update_rows chosen change leases)
ended_Holds chosen change leases o ends c a = (
  end_slot chosen change ends leases c ∙ rw a refl,
  omega (arith, count-end chosen change ends leases),
)

closes_Holds :
    (id : ℕ) (at : DateTime) (leases : List SelectionLease) (x : Bool × List SelectionLease)
    → count is_active leases ≤ 1
    → close_selection id at leases ≡ ok x
    → Holds (slot_step (closes id at) (active_row leases)) x.1
unfolding close_selection slot_step
closes_Holds id at leases x c h =
    let chosen = λ (l : SelectionLease). has_id id l && is_active l in
    let (h1, r1) = >>-eq-ok (require_utc at) _ h in
    let (u, is_u, k) = bind_ok (update chosen (close_row at.instant) leases) _ x r1 in
    let rows = update_ok chosen (close_row at.instant) leases u is_u in
    let same : update_rows chosen (close_row at.instant) leases ≡ x.1 = cc in
    rw (← same) (elim (Option-cases (active_row leases)) [
      | inl e ↦ rw e (ended_Holds chosen (close_row at.instant) leases none (λ l k. refl) c e)
      | inr (a, e) ↦ rw e (
          ground (
            arith,
            ended_Holds chosen (close_row at.instant) leases (some a) (λ l k. refl) c e,
            active_row-IsActive leases a e,
          ))
    ])

uncleaned-ended :
    (id at : ℕ) (l : SelectionLease)
    → (has_id id l && is_uncleaned_by at l.superseded_at l.cleaned_at) ≡ true
    → is_active l ≡ false
uncleaned-ended id at l h = elim (Option-cases l.superseded_at) [
  | inl e ↦ absurd (ground (arith, e, h))
  | inr (superseded, e) ↦ ground (arith, e)
]

cleans_Holds :
    (id : ℕ) (at : DateTime) (leases : List SelectionLease) (x : Bool × List SelectionLease)
    → count is_active leases ≤ 1
    → mark_selection_cleaned id at leases ≡ ok x
    → Holds (slot_step (cleans id at) (active_row leases)) x.1
unfolding mark_selection_cleaned slot_step
cleans_Holds id at leases x c h =
    let chosen = λ (l : SelectionLease).
      has_id id l && is_uncleaned_by at.instant l.superseded_at l.cleaned_at in
    let change = λ (l : SelectionLease). record l { cleaned_at = some at.instant } in
    let (h1, r1) = >>-eq-ok (require_utc at) _ h in
    let (u, is_u, k) = bind_ok (update chosen change leases) _ x r1 in
    let rows = update_ok chosen change leases u is_u in
    let same : update_rows chosen change leases ≡ x.1 = cc in
    let ends = λ (l : SelectionLease) (e : chosen l ≡ true). uncleaned-ended id at.instant l e in
    rw (← same) (elim (Option-cases (active_row leases)) [
      | inl e ↦ rw e (ended_Holds chosen change leases none ends c e)
      | inr (a, e) ↦ rw e (
          ground (
            arith,
            ended_Holds chosen change leases (some a) ends c e,
            active_row-IsActive leases a e,
          ))
    ])

pub call_Holds :
    (c : LeaseCall) (leases x : List SelectionLease)
    → count is_active leases ≤ 1
    → committed c leases ≡ ok x
    → Holds (slot_step c (active_row leases)) x
unfolding committed
call_Holds (activates id group primary at expires) leases x c h =
    let (r, e) = table_ok (activate_selection id group primary at expires leases) x h in
    activates_Holds id group primary at expires leases (r, x) c e
call_Holds (heartbeats id at) leases x c h =
    let (r, e) = table_ok (heartbeat_selection id at leases) x h in
    heartbeats_Holds id at leases (r, x) c e
call_Holds (closes id at) leases x c h =
    let (r, e) = table_ok (close_selection id at leases) x h in closes_Holds id at leases (r, x) c e
call_Holds (cleans id at) leases x c h =
    let (r, e) = table_ok (mark_selection_cleaned id at leases) x h in
    cleans_Holds id at leases (r, x) c e
