-- ===== src/Lease/Rows.antt =====
-- Lemmas on updated and inserted rows of the table of leases.
use prep_watchdeck.Prelude.{
  ℕ, ◌≤◌, ◌≡◌, refl, Bool, true, false, not, ◌&&◌, none, some, List, [], ◌∷◌, ◌++◌, arith, any,
  count, if◌then◌else◌, Result, ok, err, ◌>>=◌, raise_if, >>-eq-ok, raise_if-eq-ok,
}
use prep_watchdeck.Lease.{
  SelectionLease, LeaseFault, bad_row, duplicate_id, second_active, is_active, has_id, is_row_valid,
  update_rows, update, insert, active_row, extend,
}

pub any-active_row :
    (leases : List SelectionLease) → active_row leases ≡ none → any is_active leases ≡ false
unfolding active_row
any-active_row [] h = refl
any-active_row (l ∷ leases) h = ground (arith, any-active_row leases)

pub active_row-IsActive :
    (leases : List SelectionLease) (a : SelectionLease)
    → active_row leases ≡ some a
    → is_active a ≡ true
unfolding active_row
active_row-IsActive [] a h = absurd (cc)
active_row-IsActive (l ∷ leases) a h = ground (arith, active_row-IsActive leases a)

module _ (chosen : SelectionLease → Bool) where
  -- a row that is moved on stays active
  pub extend_slot :
      (heartbeat expires : ℕ) (leases : List SelectionLease)
      → (active_row (update_rows chosen (extend heartbeat expires) leases)
          ≡ elim (active_row leases) [
            | none ↦ none
            | some a ↦ some (if chosen a then extend heartbeat expires a else a)
          ])
        × (count is_active (update_rows chosen (extend heartbeat expires) leases)
            ≡ count is_active leases)
  unfolding active_row update_rows
  extend_slot heartbeat expires [] = (refl, refl)
  extend_slot heartbeat expires (l ∷ leases) = ground (arith, extend_slot heartbeat expires leases)

  module _ (change : SelectionLease → SelectionLease)
      (ends : (l : SelectionLease) → chosen l ≡ true → is_active (change l) ≡ false) where
    -- a row that is chosen is not active afterwards
    pub count-end :
        (leases : List SelectionLease)
        → count is_active (update_rows chosen change leases) ≤ count is_active leases
    unfolding update_rows
    count-end [] = omega arith
    count-end (l ∷ leases) = ground (arith, count-end leases, ends l)

    none_active :
        (leases : List SelectionLease) → count is_active leases ≡ 0 → active_row leases ≡ none
    unfolding active_row
    none_active [] h = refl
    none_active (l ∷ leases) h = ground (arith, none_active leases)

    pub end_slot :
        (leases : List SelectionLease)
        → count is_active leases ≤ 1
        → active_row (update_rows chosen change leases)
          ≡ elim (active_row leases) [ none ↦ none | some a ↦ if chosen a then none else some a ]
    unfolding active_row update_rows
    end_slot [] h = refl
    end_slot (l ∷ leases) h = ground (
      arith,
      end_slot leases,
      ends l,
      count-end leases,
      none_active (update_rows chosen change leases),
    )

pub update_ok :
    (chosen : SelectionLease → Bool) (change : SelectionLease → SelectionLease)
    (leases : List SelectionLease) (x : List SelectionLease × ℕ)
    → update chosen change leases ≡ ok x
    → x ≡ (update_rows chosen change leases, count chosen leases)
unfolding update
update_ok chosen change leases x h =
    let (checked, r) =
      >>-eq-ok (raise_if (any (λ l. chosen l && not (is_row_valid (change l))) leases) bad_row) _
        h in
    cc

insert_slot :
    (new : SelectionLease) (leases : List SelectionLease)
    → is_active new ≡ true
    → any is_active leases ≡ false
    → (active_row (leases ++ new ∷ []) ≡ some new) × (count is_active (leases ++ new ∷ []) ≡ 1)
unfolding active_row
insert_slot new [] n h = ground (arith, n)
insert_slot new (l ∷ leases) n h = ground (arith, insert_slot new leases n, h)

pub insert_ok :
    (new : SelectionLease) (leases x : List SelectionLease)
    → is_active new ≡ true
    → insert new leases ≡ ok x
    → (active_row x ≡ some new) × (count is_active x ≤ 1)
unfolding insert
insert_ok new leases x n h =
    let (h1, r1) = >>-eq-ok (raise_if (not (is_row_valid new)) bad_row) _ h in
    let (h2, r2) = >>-eq-ok (raise_if (any (has_id new.selection_id) leases) duplicate_id) _ r1 in
    let (h3, r3) = >>-eq-ok (raise_if (any is_active leases) second_active) _ r2 in
    let free : any is_active leases ≡ false = raise_if-eq-ok _ second_active h3 in
    let same : leases ++ new ∷ [] ≡ x = cc r3 in
    let (s, c) = insert_slot new leases n free in rw (← same) (s, omega (arith, c))

pub bind_ok :
    {A B : Type 0} (r : Result LeaseFault A) (k : A → Result LeaseFault B) (x : B)
    → (r >>= k) ≡ ok x
    → (a : A) × (r ≡ ok a) × (k a ≡ ok x)
bind_ok (ok a) k x h = (a, refl, h)
bind_ok (err e) k x h = absurd (cc)
