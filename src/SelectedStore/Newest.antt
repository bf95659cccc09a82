-- ===== src/SelectedStore/Newest.antt =====
-- The order of a selection's trades, newest first, and what `_prune_trades` keeps in it.
use prep_watchdeck.Prelude.{
  ℕ, zero, suc, ◌+◌, ◌≤◌, Bool, true, false, not, ◌≡◌, refl, ◌∙◌, List, [], ◌∷◌, count, filter,
  take, length, arith, All, filter_accepts, filter_accepts, filter_rejects, append_nil, All-take,
  All-map, All-filter, filter-append, filter-filter, length-take-le, Bool-cases, inl, inr,
}
use prep_watchdeck.SelectedStore.{TradeRow}
use prep_watchdeck.SelectedStore.Store.{
  of_selection, prune_trades, sort_newest, insert_newest, is_newer,
}

-- the trades of the other selections
abbrev pub others : ℕ → List TradeRow → List TradeRow
others selection trades = filter (λ t. not (of_selection selection t)) trades

not_newer_trans :
    (a b c : TradeRow) → is_newer b a ≡ false → is_newer c b ≡ false → is_newer c a ≡ false
unfolding is_newer
not_newer_trans a b c h k = ground arith

newer_asym : (a b : TradeRow) → is_newer a b ≡ true → is_newer b a ≡ false
unfolding is_newer
newer_asym a b h = ground arith

-- `a` is not overtaken by an item of a list
abbrev pub IsFirst : TradeRow → List TradeRow → Type 0
IsFirst a trades = All (λ b. is_newer b a ≡ false) trades

abbrev pub IsNewestFirst : List TradeRow → Type 0
IsNewestFirst [] = Unit
IsNewestFirst (t ∷ trades) = IsFirst t trades × IsNewestFirst trades

insert_newest-IsFirst :
    (a t : TradeRow) (trades : List TradeRow)
    → is_newer t a ≡ false
    → IsFirst a trades
    → IsFirst a (insert_newest t trades)
unfolding insert_newest
insert_newest-IsFirst a t [] h k = (h, tt)
insert_newest-IsFirst a t (u ∷ trades) h k = elim (Bool-cases (is_newer u t)) [
  | inl e ↦ rw e (k.0, insert_newest-IsFirst a t trades h k.1)
  | inr e ↦ rw e (h, k)
]

insert_newest-IsNewestFirst :
    (t : TradeRow) (trades : List TradeRow)
    → IsNewestFirst trades
    → IsNewestFirst (insert_newest t trades)
unfolding insert_newest
insert_newest-IsNewestFirst t [] h = (tt, tt)
insert_newest-IsNewestFirst t (u ∷ trades) h = elim (Bool-cases (is_newer u t)) [
  | inl e ↦ rw e (
    insert_newest-IsFirst u t trades (newer_asym u t e) h.0,
    insert_newest-IsNewestFirst t trades h.1,
  )
  | inr e ↦ rw e ((e, All-map (λ b k. not_newer_trans t u b e k) trades h.0), h)
]

sort_newest-IsNewestFirst : (trades : List TradeRow) → IsNewestFirst (sort_newest trades)
unfolding sort_newest
sort_newest-IsNewestFirst [] = tt
sort_newest-IsNewestFirst (t ∷ trades) =
    insert_newest-IsNewestFirst t (sort_newest trades) (sort_newest-IsNewestFirst trades)

-- the items that `take` leaves
abbrev pub drop : ℕ → List TradeRow → List TradeRow
drop zero xs = xs
drop (suc n) [] = []
drop (suc n) (x ∷ xs) = drop n xs

All-drop : (P : TradeRow → Type 0) (n : ℕ) (xs : List TradeRow) → All P xs → All P (drop n xs)
All-drop P zero xs h = h
All-drop P (suc n) [] h = tt
All-drop P (suc n) (x ∷ xs) h = All-drop P n xs h.1

take-IsFirst :
    (n : ℕ) (xs : List TradeRow) → IsNewestFirst xs → All (λ a. IsFirst a (drop n xs)) (take n xs)
take-IsFirst zero xs h = tt
take-IsFirst (suc n) [] h = tt
take-IsFirst (suc n) (x ∷ xs) h = (All-drop _ n xs h.0, take-IsFirst n xs h.1)

count-insert_newest :
    (q : TradeRow → Bool) (t : TradeRow) (trades : List TradeRow)
    → count q (insert_newest t trades) ≡ count q (t ∷ trades)
unfolding insert_newest
count-insert_newest q t [] = refl
count-insert_newest q t (u ∷ trades) = ground (arith, count-insert_newest q t trades)

count-sort_newest :
    (q : TradeRow → Bool) (trades : List TradeRow) → count q (sort_newest trades) ≡ count q trades
unfolding sort_newest
count-sort_newest q [] = refl
count-sort_newest q (t ∷ trades) =
    ground (arith, count-insert_newest q t (sort_newest trades), count-sort_newest q trades)

count-take-drop :
    (q : TradeRow → Bool) (n : ℕ) (xs : List TradeRow)
    → count q (take n xs) + count q (drop n xs) ≡ count q xs
count-take-drop q zero xs = omega arith
count-take-drop q (suc n) [] = refl
count-take-drop q (suc n) (x ∷ xs) = ground (arith, count-take-drop q n xs)

All-insert_newest :
    (P : TradeRow → Type 0) (t : TradeRow) (trades : List TradeRow)
    → P t
    → All P trades
    → All P (insert_newest t trades)
unfolding insert_newest
All-insert_newest P t [] h k = (h, tt)
All-insert_newest P t (u ∷ trades) h k = elim (Bool-cases (is_newer u t)) [
  | inl e ↦ rw e (k.0, All-insert_newest P t trades h k.1)
  | inr e ↦ rw e (h, k)
]

pub All-sort_newest :
    (P : TradeRow → Type 0) (trades : List TradeRow) → All P trades → All P (sort_newest trades)
unfolding sort_newest
All-sort_newest P [] h = tt
All-sort_newest P (t ∷ trades) h =
    All-insert_newest P t (sort_newest trades) h.0 (All-sort_newest P trades h.1)

-- the trades of the selection, and of those the kept and the dropped ones
abbrev pub own : ℕ → List TradeRow → List TradeRow
own selection trades = filter (of_selection selection) trades

unfoldable kept : ℕ → List TradeRow → List TradeRow
kept selection trades = take 100 (sort_newest (own selection trades))

unfoldable pub dropped : ℕ → List TradeRow → List TradeRow
dropped selection trades = drop 100 (sort_newest (own selection trades))

kept-own :
    (selection : ℕ) (trades : List TradeRow)
    → All (λ t. of_selection selection t ≡ true) (kept selection trades)
unfolding kept
kept-own selection trades =
    All-take _ 100 _ (All-sort_newest _ _ (All-filter (of_selection selection) trades))

own-prune :
    (selection : ℕ) (trades : List TradeRow)
    → own selection (prune_trades selection trades) ≡ kept selection trades
unfolding prune_trades kept
own-prune selection trades =
    filter-append (of_selection selection) (others selection trades) (kept selection trades)
    ∙ rw
        (
          filter_rejects (of_selection selection) (others selection trades)
              (All-map (λ t h. ground (arith, h)) _ (All-filter _ trades)),
          filter_accepts (of_selection selection) (kept selection trades)
              (kept-own selection trades),
        )
        refl

pub others-prune :
    (selection : ℕ) (trades : List TradeRow)
    → others selection (prune_trades selection trades) ≡ others selection trades
unfolding prune_trades kept
others-prune selection trades =
    filter-append (λ t. not (of_selection selection t)) (others selection trades)
      (kept selection trades)
    ∙ rw
        (
          filter-filter (λ t. not (of_selection selection t)) (λ t. not (of_selection selection t))
              (λ t h. h) trades,
          filter_rejects (λ t. not (of_selection selection t)) (kept selection trades)
              (All-map (λ t h. ground (arith, h)) _ (kept-own selection trades)),
        )
        (append_nil _)

-- What pruning keeps of a selection's trades and what it drops are together those that it had; none
-- that is dropped is newer than one that is kept, and at most 100 are kept.
pub pruned_newest :
    (selection : ℕ) (trades : List TradeRow)
    → ((q : TradeRow → Bool)
        → count q (own selection (prune_trades selection trades))
            + count q (dropped selection trades)
          ≡ count q (own selection trades))
      × All
          (λ a. IsFirst a (dropped selection trades))
          (own selection (prune_trades selection trades))
      × (length (own selection (prune_trades selection trades)) ≤ 100)
unfolding dropped kept
pruned_newest selection trades =
    let e = own-prune selection trades in
    (
      (λ q. rw e (
          count-take-drop q 100 (sort_newest (own selection trades))
          ∙ count-sort_newest q (own selection trades))),
      rw e (take-IsFirst 100 _ (sort_newest-IsNewestFirst (own selection trades))),
      rw e (length-take-le 100 _),
    )
