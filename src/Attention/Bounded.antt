-- ===== src/Attention/Bounded.antt =====
-- How many assets are chosen, and that each is one that may be.
use prep_watchdeck.Prelude.{
  ℕ, suc, ◌≤◌, ◌<◌, Bool, true, false, not, ◌&&◌, ◌≡◌, refl, String, List, [], ◌∷◌, ◌++◌, filter,
  any, length, take, leb, ltb, All, All-append, All-take, All-filter_of, any_self, arith,
  length-append, length-take-le, Bool-cases, inl, inr,
}
use prep_watchdeck.Text.{str_eq, str_eq_iff}
use prep_watchdeck.Attention.{
  FloatOps, AllocationPolicy, PolicyKind, top_k, hysteresis, cost_aware, ShadowSlot, Candidate,
  insert_by, sort_by, same_asset,
}
use prep_watchdeck.Attention.Choice.{
  is_worse, candidate_named, prepend_if, still_eligible, is_chosen, is_held, is_kept_before, fill,
  choose_hysteresis, remove_asset, is_worth, replace_worst, consider, greedy, choose,
}

module _ {A : Type 0} (before : A → A → Bool) where
  length-insert_by : (x : A) (xs : List A) → length (insert_by before x xs) ≡ suc (length xs)
  unfolding insert_by
  length-insert_by x [] = refl
  length-insert_by x (y ∷ ys) = ground (arith, length-insert_by x ys)

  pub length-sort_by : (xs : List A) → length (sort_by before xs) ≡ length xs
  unfolding sort_by
  length-sort_by [] = refl
  length-sort_by (x ∷ xs) = omega (arith, length-insert_by x (sort_by before xs), length-sort_by xs)

  All-insert_by :
      (P : A → Type 0) (x : A) (xs : List A) → P x → All P xs → All P (insert_by before x xs)
  unfolding insert_by
  All-insert_by P x [] h k = (h, tt)
  All-insert_by P x (y ∷ ys) h k = elim (Bool-cases (before y x)) [
    | inl e ↦ rw e (k.0, All-insert_by P x ys h k.1)
    | inr e ↦ rw e (h, k)
  ]

  pub All-sort_by : (P : A → Type 0) (xs : List A) → All P xs → All P (sort_by before xs)
  unfolding sort_by
  All-sort_by P [] h = tt
  All-sort_by P (x ∷ xs) h = All-insert_by P x (sort_by before xs) h.0 (All-sort_by P xs h.1)

module _ {F : Type 0} (ops : FloatOps F) (P : Candidate F → Type 0) where
  candidate_named-All :
      (asset : String) (eligible : List (Candidate F))
      → All P eligible
      → (rest : List (Candidate F)) → All P rest
      → All P (prepend_if ops (candidate_named ops asset eligible) rest)
  unfolding candidate_named
  candidate_named-All asset [] h rest k = k
  candidate_named-All asset (c ∷ eligible) h rest k = elim (Bool-cases (str_eq c.asset_id asset)) [
    | inl e ↦ rw e (h.0, k)
    | inr e ↦ rw e (candidate_named-All asset eligible h.1 rest k)
  ]

  All-still_eligible :
      (slots : List (ShadowSlot F)) (eligible : List (Candidate F))
      → All P eligible
      → All P (still_eligible ops slots eligible)
  unfolding still_eligible
  All-still_eligible [] eligible h = tt
  All-still_eligible (s ∷ slots) eligible h =
      candidate_named-All s.asset_id eligible h (still_eligible ops slots eligible)
        (All-still_eligible slots eligible h)

  module _ (decision_at : ℕ) (policy : AllocationPolicy F) (old : List (ShadowSlot F)) where
    -- at most k candidates, each of which has P
    abbrev pub IsBounded : List (Candidate F) → Type 0
    IsBounded chosen = (length chosen ≤ policy.k) × All P chosen

    snoc-IsBounded :
        (chosen : List (Candidate F)) (c : Candidate F)
        → length chosen < policy.k
        → All P chosen
        → P c
        → IsBounded (chosen ++ c ∷ [])
    snoc-IsBounded chosen c h k p =
        (omega (arith, length-append chosen (c ∷ []), h), All-append P chosen (c ∷ []) k (p, tt))

    take-IsBounded : (xs : List (Candidate F)) → All P xs → IsBounded (take policy.k xs)
    take-IsBounded xs h = (length-take-le policy.k xs, All-take P policy.k xs h)

    fill-IsBounded :
        (chosen ordered : List (Candidate F))
        → IsBounded chosen
        → All P ordered
        → IsBounded (fill ops decision_at policy old chosen ordered)
    unfolding fill
    fill-IsBounded chosen [] h k = h
    fill-IsBounded chosen (c ∷ ordered) h k = elim (Bool-cases (leb policy.k (length chosen))) [
      | inl e ↦ rw e h
      | inr e ↦ elim (Bool-cases (not (is_chosen ops chosen c) && leb c.rank policy.k)) [
        | inl new ↦
            rw (e, new)
              (fill-IsBounded (chosen ++ c ∷ []) ordered
                (snoc-IsBounded chosen c (ground (arith, e)) h.1 k.0) k.1)
        | inr new ↦ rw (e, new) (fill-IsBounded chosen ordered h k.1)
      ]
    ]

    -- a chosen candidate that is removed makes one place
    remove_asset-less :
        (c : Candidate F) (chosen : List (Candidate F))
        → any (same_asset c) chosen ≡ true
        → suc (length (remove_asset ops decision_at policy old c chosen)) ≡ length chosen
    unfolding remove_asset
    remove_asset-less c [] h = absurd (cc)
    remove_asset-less c (d ∷ chosen) h = ground (arith, remove_asset-less c chosen, h)

    All-remove_asset :
        (c : Candidate F) (chosen : List (Candidate F))
        → All P chosen
        → All P (remove_asset ops decision_at policy old c chosen)
    unfolding remove_asset
    All-remove_asset c [] h = tt
    All-remove_asset c (d ∷ chosen) h = elim (Bool-cases (same_asset c d)) [
      | inl e ↦ rw e h.1
      | inr e ↦ rw e (h.0, All-remove_asset c chosen h.1)
    ]

    replace_worst-IsBounded :
        (chosen : List (Candidate F)) (c : Candidate F) (removable : List (Candidate F))
        → IsBounded chosen
        → P c
        → All (λ a. any (same_asset a) chosen ≡ true) removable
        → IsBounded (replace_worst ops decision_at policy old chosen c removable)
    replace_worst-IsBounded chosen c [] h p k = h
    replace_worst-IsBounded chosen c (worst ∷ removable) h p k =
        elim (Bool-cases (is_worth ops decision_at policy old chosen worst c)) [
          | inl e ↦ rw e (
              snoc-IsBounded (remove_asset ops decision_at policy old worst chosen) c
                (omega (arith, remove_asset-less worst chosen k.0, h.0))
                (All-remove_asset worst chosen h.1) p)
          | inr e ↦ rw e h
        ]

    removable-All :
        (chosen : List (Candidate F))
        → All
            (λ a. any (same_asset a) chosen ≡ true)
            (sort_by
              (is_worse ops)
              (filter (λ a. not (is_held ops decision_at policy old a)) chosen))
    removable-All chosen = All-sort_by (is_worse ops) _ _ (
        All-filter_of _ _ chosen
          (any_self same_asset (λ a. (str_eq_iff a.asset_id a.asset_id).1 refl) chosen))

    consider-IsBounded :
        (chosen : List (Candidate F)) (c : Candidate F)
        → IsBounded chosen
        → P c
        → IsBounded (consider ops decision_at policy old chosen c)
    unfolding consider
    consider-IsBounded chosen c h p = elim (Bool-cases (is_chosen ops chosen c)) [
      | inl e ↦ rw e h
      | inr e ↦ elim (Bool-cases (ltb (length chosen) policy.k)) [
        | inl free ↦ rw (e, free) (snoc-IsBounded chosen c (ground (arith, free)) h.1 p)
        | inr free ↦ rw (e, free) (replace_worst-IsBounded chosen c _ h p (removable-All chosen))
      ]
    ]

    greedy-IsBounded :
        (chosen ordered : List (Candidate F))
        → IsBounded chosen
        → All P ordered
        → IsBounded (greedy ops decision_at policy old chosen ordered)
    unfolding greedy
    greedy-IsBounded chosen [] h k = h
    greedy-IsBounded chosen (c ∷ ordered) h k =
        greedy-IsBounded (consider ops decision_at policy old chosen c) ordered
          (consider-IsBounded chosen c h k.0) k.1

    pub choose-IsBounded :
        (comparable : Bool) (eligible ordered : List (Candidate F))
        → All P eligible
        → All P ordered
        → IsBounded (choose ops decision_at policy old comparable eligible ordered)
    unfolding choose choose_hysteresis
    choose-IsBounded false eligible ordered h k = take-IsBounded ordered k
    choose-IsBounded true eligible ordered h k = kinds policy.kind
      where
        kinds :
            (kind : PolicyKind)
            → IsBounded (elim kind [
              | top_k ↦ take policy.k ordered
              | hysteresis ↦ choose_hysteresis ops decision_at policy old eligible ordered
              | cost_aware ↦
                  greedy ops decision_at policy old
                    (take policy.k (still_eligible ops old eligible))
                    ordered
            ])
        kinds top_k = take-IsBounded ordered k
        kinds hysteresis =
            fill-IsBounded _ ordered
              (take-IsBounded _ (
                All-sort_by (is_kept_before ops decision_at policy old) P _
                  (All-filter_of P _ _ (All-still_eligible old eligible h))))
              k
        kinds cost_aware =
            greedy-IsBounded _ ordered (take-IsBounded _ (All-still_eligible old eligible h)) k
