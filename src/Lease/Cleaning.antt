-- ===== src/Lease/Cleaning.antt =====
-- Which errors the operations on leases cannot end in, and when a cleanup is recorded.
use prep_watchdeck.Prelude.{
  ℕ, ◌+◌, ◌≤◌, ◌≡◌, ◌≢◌, refl, ap, ◌∙◌, inl, inr, Bool, true, false, not, ◌&&◌, ◌||◌, String,
  Option, none, some, List, [], ◌∷◌, ◌++◌, arith, any, count, leb, ltb, ◌==◌, Bool-cases,
  if◌then◌else◌, Result, ok, err, ◌>>=◌, raise_if,
}
use prep_watchdeck.Time.{DateTime, is_utc_zone}
use prep_watchdeck.Text.{is_blank, str_eq}
use prep_watchdeck.Lease.{
  SelectionLease, LeaseFault, empty_group, unbounded_lease, changed_identity, bad_row,
  second_active, is_active, has_id, is_row_valid, update_rows, update, insert, active_row,
  active_lease, extend, supersede, reactivate, replace_active, activate_row, expiry, require_utc,
  selection_ttl, activate_selection, cleanup_deadline, is_uncleaned_by, mark_selection_cleaned,
  found,
}
use prep_watchdeck.Lease.Rows.{any-active_row, end_slot, update_ok}

insert_free :
    (new : SelectionLease) (leases : List SelectionLease)
    → any is_active leases ≡ false
    → insert new leases ≢ err second_active
unfolding insert
insert_free new leases f = ground (arith, f)

update_free :
    (chosen : SelectionLease → Bool) (change : SelectionLease → SelectionLease)
    (leases : List SelectionLease)
    → update chosen change leases ≢ err second_active
unfolding update
update_free chosen change leases = ground arith

bind_free :
    {A B : Type 0} (r : Result LeaseFault A) (k : A → Result LeaseFault B)
    → r ≢ err second_active
    → ((a : A) → r ≡ ok a → k a ≢ err second_active)
    → (r >>= k) ≢ err second_active
bind_free (ok a) k h f = f a refl
bind_free (err e) k h f = λ q. h (ground (arith, q))

reactivate_free :
    (old new : SelectionLease) (leases : List SelectionLease)
    → reactivate old new leases ≢ err second_active
unfolding reactivate
reactivate_free old new leases =
    bind_free
      (raise_if
        (not (str_eq old.group_id new.group_id) || not (old.primary_version == new.primary_version))
        changed_identity)
      _ (ground arith)
      (λ u h.
        bind_free (update (has_id new.selection_id) (extend new.activated_at new.expires_at) leases)
          _ (update_free (has_id new.selection_id) (extend new.activated_at new.expires_at) leases)
          (λ x k. λ e. cc))

replace_free :
    (old new : SelectionLease) (leases : List SelectionLease)
    → active_row leases ≡ some old
    → count is_active leases ≤ 1
    → replace_active old new leases ≢ err second_active
unfolding replace_active
replace_free old new leases a c =
    let chosen = has_id old.selection_id in
    let change = supersede new.activated_at in
    bind_free (update chosen change leases) _ (update_free chosen change leases) (λ u h.
      let rows = update_ok chosen change leases u h in
      let free : active_row u.0 ≡ none =
        ap (λ (x : List SelectionLease × ℕ). active_row x.0) rows
        ∙ end_slot chosen change (λ l k. refl) leases c
        ∙ rw a (ground arith) in
      bind_free (insert new u.0) _ (insert_free new u.0 (any-active_row u.0 free)) (λ x k. λ e. cc))

activate_row_free :
    (o : Option SelectionLease) (new : SelectionLease) (leases : List SelectionLease)
    → active_row leases ≡ o
    → count is_active leases ≤ 1
    → activate_row o new leases ≢ err second_active
unfolding activate_row
activate_row_free none new leases a c =
    bind_free (insert new leases) _ (insert_free new leases (any-active_row leases a))
      (λ x h. λ e. cc)
activate_row_free (some old) new leases a c = elim (Bool-cases (has_id new.selection_id old)) [
  | inl e ↦ rw e (reactivate_free old new leases)
  | inr e ↦ rw e (replace_free old new leases a c)
]

found_free : (primary : Option ℕ) → found primary ≢ err second_active
found_free none = ground arith
found_free (some version) = ground arith

-- From a table with at most one active lease, an activation never fails on the index that admits one
-- active lease only: the lease that is active is superseded or moved on first.
pub activate_keeps_index :
    (id : ℕ) (group : String) (primary : Option ℕ) (at : DateTime) (expires : Option DateTime)
    (leases : List SelectionLease)
    → count is_active leases ≤ 1
    → activate_selection id group primary at expires leases ≢ err second_active
unfolding activate_selection
activate_keeps_index id group primary at expires leases c =
    let end = (expiry at expires).instant in
    bind_free (require_utc at) _ (ground arith) (λ u1 h1.
      bind_free (require_utc (expiry at expires)) _ (ground arith) (λ u2 h2.
        bind_free
          (raise_if (not (ltb at.instant end && leb end (at.instant + selection_ttl)))
            unbounded_lease)
          _ (ground arith)
          (λ u3 h3. bind_free (raise_if (is_blank group) empty_group) _ (ground arith) (λ u4 h4.
            bind_free (found primary) _ (found_free primary) (λ version h5.
              activate_row_free (active_row leases) (active_lease id group version at.instant end)
                leases refl c)))))

-- A lease that waits for its cleanup.
abbrev pub superseded_row : SelectionLease → ℕ → SelectionLease
superseded_row l at = record (supersede at l) { cleaned_at = none }

module _ (chosen : SelectionLease → Bool) (change : SelectionLease → SelectionLease) where
  -- rows that are not chosen stay, and are neither checked nor counted
  unchosen :
      (leases : List SelectionLease)
      → any chosen leases ≡ false
      → (any (λ x. chosen x && not (is_row_valid (change x))) leases ≡ false)
        × (update_rows chosen change leases ≡ leases)
        × (count chosen leases ≡ 0)
  unfolding update_rows
  unchosen [] h = (refl, refl, refl)
  unchosen (l ∷ leases) h =
      let (checked, rows, n) = unchosen leases (ground (arith, h)) in
      let free : chosen l ≡ false = ground (arith, h) in
      (rw (free, checked) refl, rw (free, rows) refl, rw (free, n) refl)

  one_chosen :
      (before : List SelectionLease) (l : SelectionLease) (after : List SelectionLease)
      → any chosen before ≡ false
      → chosen l ≡ true
      → any chosen after ≡ false
      → (any (λ x. chosen x && not (is_row_valid (change x))) (before ++ l ∷ after)
          ≡ not (is_row_valid (change l)))
        × (update_rows chosen change (before ++ l ∷ after) ≡ before ++ change l ∷ after)
        × (count chosen (before ++ l ∷ after) ≡ 1)
  unfolding update_rows
  one_chosen [] l after f h g =
      let (checked, rows, n) = unchosen after g in
      (rw (h, checked) (ground arith), rw (h, rows) refl, rw (h, n) refl)
  one_chosen (b ∷ before) l after f h g =
      let (checked, rows, n) = one_chosen before l after (ground (arith, f)) h g in
      let free : chosen b ≡ false = ground (arith, f) in
      (rw (free, checked) refl, rw (free, rows) refl, rw (free, n) refl)

  -- the statement on a table with one chosen row
  update_one :
      (before : List SelectionLease) (l : SelectionLease) (after : List SelectionLease)
      → any chosen before ≡ false
      → chosen l ≡ true
      → any chosen after ≡ false
      → update chosen change (before ++ l ∷ after)
        ≡ (if is_row_valid (change l) then ok (before ++ change l ∷ after, 1) else err bad_row)
  unfolding update
  update_one before l after f h g =
      let (checked, rows, n) = one_chosen before l after f h g in
      rw (checked, rows, n) (ground arith)

any_and :
    (p q : SelectionLease → Bool) (leases : List SelectionLease)
    → any p leases ≡ false
    → any (λ x. p x && q x) leases ≡ false
any_and p q [] h = refl
any_and p q (l ∷ leases) h = ground (arith, any_and p q leases, h)

-- whether the acknowledgement is in time is what the CHECK of the row comes to
cleaned-is_row_valid :
    (l : SelectionLease) (superseded at : ℕ)
    → is_row_valid (superseded_row l superseded) ≡ true
    → superseded ≤ at
    → is_row_valid (record (superseded_row l superseded) { cleaned_at = some at })
      ≡ leb at (superseded + cleanup_deadline)
unfolding is_row_valid
cleaned-is_row_valid l superseded at v le = ground arith

-- In a table with one row of its id, let the cleanup of a superseded lease, whose row keeps the
-- table's constraints, be acknowledged at a time in UTC that is not before the supersession. It is
-- recorded if it comes no later than ten seconds after; the other rows stay. If it comes later, the
-- acknowledgement raises, and nothing is recorded.
pub late_cleanup_raises :
    (before after : List SelectionLease) (l : SelectionLease) (superseded : ℕ) (at : DateTime)
    → any (has_id l.selection_id) before ≡ false
    → any (has_id l.selection_id) after ≡ false
    → is_row_valid (superseded_row l superseded) ≡ true
    → is_utc_zone at.zone ≡ true
    → superseded ≤ at.instant
    → let row = superseded_row l superseded in
      mark_selection_cleaned l.selection_id at (before ++ row ∷ after) ≡ (
        if leb at.instant (superseded + 10000000)
        then ok (true, before ++ record row { cleaned_at = some at.instant } ∷ after)
        else err bad_row)
unfolding mark_selection_cleaned
late_cleanup_raises before after l superseded at f g v z le =
    let waits = λ (x : SelectionLease). is_uncleaned_by at.instant x.superseded_at x.cleaned_at in
    let same =
      update_one (λ x. has_id l.selection_id x && waits x)
        (λ x. record x { cleaned_at = some at.instant }) before (superseded_row l superseded) after
        (any_and (has_id l.selection_id) waits before f) (ground arith)
        (any_and (has_id l.selection_id) waits after g) in
    rw (z, same, cleaned-is_row_valid l superseded at.instant v le)
      (elim (Bool-cases (leb at.instant (superseded + cleanup_deadline))) [
        | inl e ↦ rw e refl
        | inr e ↦ rw e refl
      ])
