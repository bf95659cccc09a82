-- ===== src/Recovery/Details.antt =====
-- Unresolved targets are the first to be shown.
use prep_watchdeck.Prelude.{
  ℕ, zero, suc, ◌≡◌, refl, ap, ◌∙◌, inl, inr, true, false, List, [], ◌∷◌, ◌++◌, arith, filter, take,
  Bool-cases,
}
use prep_watchdeck.Recovery.{
  RecoveryTargetDetail, is_unresolved, insert_by_key, sort_by_key, bounded_recovery_details,
  sort_key,
}

-- the unresolved details, then the others, each in their order
unfoldable pub unresolved_first : List RecoveryTargetDetail → List RecoveryTargetDetail
unresolved_first details = filter is_unresolved details ++ filter sort_key details

insert_unresolved :
    (d : RecoveryTargetDetail) (details : List RecoveryTargetDetail)
    → is_unresolved d ≡ true
    → insert_by_key d details ≡ d ∷ details
unfolding insert_by_key
insert_unresolved d [] u = refl
insert_unresolved d (e ∷ details) u = ground (arith, u)

insert_resolved :
    (d : RecoveryTargetDetail) (xs ys : List RecoveryTargetDetail)
    → is_unresolved d ≡ false
    → insert_by_key d (filter is_unresolved xs ++ filter sort_key ys)
      ≡ filter is_unresolved xs ++ d ∷ filter sort_key ys
unfolding insert_by_key
insert_resolved d [] [] u = refl
insert_resolved d [] (y ∷ ys) u = elim (Bool-cases (is_unresolved y)) [
  | inl e ↦ rw e (insert_resolved d [] ys u)
  | inr e ↦ rw (e, u) (ground (arith, e, u))
]
insert_resolved d (x ∷ xs) ys u = elim (Bool-cases (is_unresolved x)) [
  | inl e ↦ ground (arith, e, u, insert_resolved d xs ys u)
  | inr e ↦ rw e (insert_resolved d xs ys u)
]

sort-unresolved_first :
    (details : List RecoveryTargetDetail) → sort_by_key details ≡ unresolved_first details
unfolding sort_by_key unresolved_first
sort-unresolved_first [] = refl
sort-unresolved_first (d ∷ details) =
    ap (λ (l : List RecoveryTargetDetail). insert_by_key d l) (sort-unresolved_first details)
    ∙ elim (Bool-cases (is_unresolved d)) [
      | inl e ↦ rw e (insert_unresolved d _ e)
      | inr e ↦ rw e (insert_resolved d details details e)
    ]

filter_resolved : (xs : List RecoveryTargetDetail) → filter is_unresolved (filter sort_key xs) ≡ []
filter_resolved [] = refl
filter_resolved (x ∷ xs) = ground (arith, filter_resolved xs)

take-none :
    (n : ℕ) (xs : List RecoveryTargetDetail)
    → filter is_unresolved (take n (filter sort_key xs)) ≡ []
take-none zero xs = refl
take-none (suc n) [] = refl
take-none (suc n) (x ∷ xs) = elim (Bool-cases (is_unresolved x)) [
  | inl e ↦ rw e (take-none (suc n) xs)
  | inr e ↦ rw e (rw e (take-none n xs))
]

take-unresolved :
    (n : ℕ) (xs ys : List RecoveryTargetDetail)
    → filter is_unresolved (take n (filter is_unresolved xs ++ filter sort_key ys))
      ≡ take n (filter is_unresolved xs)
take-unresolved zero xs ys = refl
take-unresolved (suc n) [] ys = take-none (suc n) ys
take-unresolved (suc n) (x ∷ xs) ys = elim (Bool-cases (is_unresolved x)) [
  | inl e ↦ rw e (rw e (ap (λ (l : List RecoveryTargetDetail). x ∷ l) (take-unresolved n xs ys)))
  | inr e ↦ rw e (take-unresolved (suc n) xs ys)
]

-- The details shown are the first 128 of the unresolved targets followed by the resolved ones, each
-- in their order; so of the unresolved targets the first 128 are shown, whatever is cut off.
pub bounded-unresolved_first :
    (details : List RecoveryTargetDetail)
    → (bounded_recovery_details details ≡ take 128 (unresolved_first details))
      × (filter is_unresolved (bounded_recovery_details details)
          ≡ take 128 (filter is_unresolved details))
unfolding bounded_recovery_details unresolved_first
bounded-unresolved_first details =
    let shown =
      ap (λ (l : List RecoveryTargetDetail). take 128 l) (sort-unresolved_first details) in
    (
      shown,
      ap (λ (l : List RecoveryTargetDetail). filter is_unresolved l) shown
          ∙ take-unresolved 128 details details,
    )
