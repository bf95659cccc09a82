-- ===== src/Retention/Leases.antt =====
-- What a pruning of the selected history keeps, and what is left when it reports no more.
use prep_watchdeck.Prelude.{
  ℕ, ◌<◌, ◌≡◌, refl, ap, sym, ◌∙◌, Bool, true, false, none, some, List, [], ◌∷◌, arith, filter, any,
  ◌==◌, ok, >>-eq-ok,
}
use prep_watchdeck.Time.{DateTime}
use prep_watchdeck.Retention.{check_arguments}
use prep_watchdeck.Retention.Batch.{delete_batch-keeps, delete_batch-any}
use prep_watchdeck.Retention.Selected.{
  SelectedRaw, SelectedRow, Lease, SelectedTables, SelectedRetentionResult, commit, lease_of,
  superseded_of, order_of, is_doomed_selected, is_doomed_row, is_doomed_lease, is_unreferenced,
  delete_selected_rows, prune_tables, prune_selected_history,
}

abbrev pub is_active : Lease → Bool
is_active l = elim l.superseded_at [ none ↦ true | some at ↦ false ]

abbrev pub has_raw : ℕ → SelectedRaw → Bool
has_raw id r = r.raw_selection == id

abbrev pub has_row : ℕ → SelectedRow → Bool
has_row id r = r.selection == id

abbrev pub has_lease : ℕ → Lease → Bool
has_lease id l = l.selection_id == id

-- the foreign keys to the leases
pub record IsReferential (t : SelectedTables) : Type 0 where
  pub raw : (id : ℕ) → any (has_raw id) t.raw ≡ true → any (has_lease id) t.leases ≡ true
  pub depth : (id : ℕ) → any (has_row id) t.depth ≡ true → any (has_lease id) t.leases ≡ true
  pub trades : (id : ℕ) → any (has_row id) t.trades ≡ true → any (has_lease id) t.leases ≡ true

pub committed : {A : Type 0} (broken : Bool) (a b : A) → commit broken a ≡ ok b → a ≡ b
committed true a b h = absurd (cc)
committed false a b h = cc

pub history_ok :
    (now : DateTime) (n : ℕ) (broken : Bool) (t : SelectedTables)
    (x : SelectedRetentionResult × SelectedTables)
    → prune_selected_history now n broken t ≡ ok x
    → (0 < n) × (prune_tables now.instant n t ≡ x)
unfolding prune_selected_history
history_ok now n broken t x h =
    let (checked, r) = >>-eq-ok (check_arguments now n) _ h in
    (ground (arith, checked), committed broken (prune_tables now.instant n t) x r)

any-filter : {A : Type 0} (p : A → Bool) (xs : List A) → any p (filter p xs) ≡ any p xs
any-filter p [] = refl
any-filter p (x ∷ xs) = ground (arith, any-filter p xs)

row_not_doomed :
    (now id : ℕ) (l : Lease) (leases : List Lease) (r : SelectedRow)
    → lease_of leases id ≡ some l
    → l.superseded_at ≡ none
    → has_row id r ≡ true
    → is_doomed_row now leases r ≡ false
unfolding is_doomed_row
row_not_doomed now id l leases r e a h =
    let same : r.selection ≡ id = ground (arith, h) in rw (same, e) (ground (arith, a))

row_kept :
    (now n id : ℕ) (l : Lease) (leases : List Lease) (rows : List SelectedRow)
    → lease_of leases id ≡ some l
    → l.superseded_at ≡ none
    → filter (has_row id) (delete_selected_rows now n leases rows).0 ≡ filter (has_row id) rows
unfolding delete_selected_rows
row_kept now n id l leases rows e a =
    delete_batch-keeps (is_doomed_row now leases) (λ r. superseded_of (lease_of leases r.selection))
      (has_row id) (λ r h. row_not_doomed now id l leases r e a h) n rows

active_not_doomed :
    (now : ℕ) (raw : List SelectedRaw) (depth trades : List SelectedRow) (l : Lease)
    → is_active l ≡ true
    → is_doomed_lease now raw depth trades l ≡ false
unfolding is_doomed_lease
active_not_doomed now raw depth trades l h = ground (arith, h)

referenced_not_doomed :
    (now id : ℕ) (raw : List SelectedRaw) (depth trades : List SelectedRow) (l : Lease)
    → is_unreferenced raw depth trades id ≡ false
    → has_lease id l ≡ true
    → is_doomed_lease now raw depth trades l ≡ false
unfolding is_doomed_lease
referenced_not_doomed now id raw depth trades l u h =
    let same : l.selection_id ≡ id = ground (arith, h) in rw same (ground (arith, u))

raw_referenced :
    (id : ℕ) (raw : List SelectedRaw) (depth trades : List SelectedRow)
    → any (has_raw id) raw ≡ true
    → is_unreferenced raw depth trades id ≡ false
unfolding is_unreferenced
raw_referenced id raw depth trades h = ground (arith, h)

depth_referenced :
    (id : ℕ) (raw : List SelectedRaw) (depth trades : List SelectedRow)
    → any (has_row id) depth ≡ true
    → is_unreferenced raw depth trades id ≡ false
unfolding is_unreferenced
depth_referenced id raw depth trades h = ground (arith, h)

trades_referenced :
    (id : ℕ) (raw : List SelectedRaw) (depth trades : List SelectedRow)
    → any (has_row id) trades ≡ true
    → is_unreferenced raw depth trades id ≡ false
unfolding is_unreferenced
trades_referenced id raw depth trades h = ground (arith, h)

module _ (now n : ℕ) (t : SelectedTables) where
  abbrev left : SelectedTables
  left = (prune_tables now n t).1

  lease_kept :
      (q : Lease → Bool)
      → ((l : Lease) → q l ≡ true → is_doomed_lease now left.raw left.depth left.trades l ≡ false)
      → filter q left.leases ≡ filter q t.leases
  unfolding prune_tables
  lease_kept q h =
      delete_batch-keeps (is_doomed_lease now left.raw left.depth left.trades)
        (λ l. order_of l.superseded_at) q h n t.leases

  -- a selection that is referenced after the pruning keeps its lease
  referenced_kept :
      (id : ℕ)
      → is_unreferenced left.raw left.depth left.trades id ≡ false
      → any (has_lease id) t.leases ≡ true
      → any (has_lease id) left.leases ≡ true
  referenced_kept id u h =
      sym (any-filter (has_lease id) left.leases)
      ∙ ap (λ (ls : List Lease). any (has_lease id) ls)
          (lease_kept (has_lease id)
            (λ l k. referenced_not_doomed now id left.raw left.depth left.trades l u k))
      ∙ any-filter (has_lease id) t.leases
      ∙ h

  raw_was : (id : ℕ) → any (has_raw id) left.raw ≡ true → any (has_raw id) t.raw ≡ true
  unfolding prune_tables
  raw_was id h =
      delete_batch-any (is_doomed_selected now) (λ r. r.observed_at) (has_raw id) n t.raw h

  depth_was : (id : ℕ) → any (has_row id) left.depth ≡ true → any (has_row id) t.depth ≡ true
  unfolding prune_tables delete_selected_rows
  depth_was id h =
      delete_batch-any (is_doomed_row now t.leases)
        (λ r. superseded_of (lease_of t.leases r.selection)) (has_row id) n t.depth h

  trades_was : (id : ℕ) → any (has_row id) left.trades ≡ true → any (has_row id) t.trades ≡ true
  unfolding prune_tables delete_selected_rows
  trades_was id h =
      delete_batch-any (is_doomed_row now t.leases)
        (λ r. superseded_of (lease_of t.leases r.selection)) (has_row id) n t.trades h

  tables-IsReferential : IsReferential t → IsReferential left
  tables-IsReferential i = record {
    raw = λ id h.
        referenced_kept id (raw_referenced id left.raw left.depth left.trades h)
          (i.raw id (raw_was id h));
    depth = λ id h.
        referenced_kept id (depth_referenced id left.raw left.depth left.trades h)
          (i.depth id (depth_was id h));
    trades = λ id h.
        referenced_kept id (trades_referenced id left.raw left.depth left.trades h)
          (i.trades id (trades_was id h));
  }

  tables-keep-active :
      (id : ℕ) (l : Lease)
      → lease_of t.leases id ≡ some l
      → l.superseded_at ≡ none
      → (filter is_active left.leases ≡ filter is_active t.leases)
        × (filter (has_row id) left.depth ≡ filter (has_row id) t.depth)
        × (filter (has_row id) left.trades ≡ filter (has_row id) t.trades)
  unfolding prune_tables
  tables-keep-active id l e a = (
    lease_kept is_active (λ m k. active_not_doomed now left.raw left.depth left.trades m k),
    row_kept now n id l t.leases t.depth e a,
    row_kept now n id l t.leases t.trades e a,
  )

-- A pruning that is committed keeps every active lease, and of an active lease every depth level and
-- every trade; rows of `selected_raw_observations` are not protected.
pub active_kept :
    (now : DateTime) (n : ℕ) (broken : Bool) (t : SelectedTables)
    (x : SelectedRetentionResult × SelectedTables) (id : ℕ) (l : Lease)
    → prune_selected_history now n broken t ≡ ok x
    → lease_of t.leases id ≡ some l
    → l.superseded_at ≡ none
    → (filter is_active x.1.leases ≡ filter is_active t.leases)
      × (filter (has_row id) x.1.depth ≡ filter (has_row id) t.depth)
      × (filter (has_row id) x.1.trades ≡ filter (has_row id) t.trades)
active_kept now n broken t x id l h e a =
    let (pos, same) = history_ok now n broken t x h in
    rw (← same) (tables-keep-active now.instant n t id l e a)

-- A pruning that is committed leaves no row of the three tables without its lease, if there was none.
pub prune-IsReferential :
    (now : DateTime) (n : ℕ) (broken : Bool) (t : SelectedTables)
    (x : SelectedRetentionResult × SelectedTables)
    → prune_selected_history now n broken t ≡ ok x
    → IsReferential t
    → IsReferential x.1
prune-IsReferential now n broken t x h i =
    let (pos, same) = history_ok now n broken t x h in
    rw (← same) (tables-IsReferential now.instant n t i)
