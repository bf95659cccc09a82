-- ===== src/Attention/Choice.antt =====
-- Which assets are chosen: the three policies of `allocate_shadow_hotset`, and the slots they get.
use prep_watchdeck.Prelude.{
  ℕ, ◌+◌, ◌*◌, Bool, false, not, ◌&&◌, ◌||◌, String, Option, none, some, List, [], ◌∷◌, ◌++◌, map,
  filter, any, length, take, leb, ltb, ◌==◌, if◌then◌else◌,
}
use prep_watchdeck.Text.{str_eq}
use prep_watchdeck.Attention.{
  FloatOps, Status, AttentionRow, AllocationPolicy, top_k, hysteresis, cost_aware, ShadowSlot,
  Candidate, str_ltb, sort_by, has_text, distinct, minus, same_asset, eligible_rows,
}

abbrev pub minute : ℕ
minute = 60000

pub record ShadowAllocation (F : Type 0) : Type 0 where
  pub comparable : Bool
  pub slots : List (ShadowSlot F)
  pub added : List String
  pub removed : List String
  pub retained : List String
  pub added_groups : List String
  pub removed_groups : List String
  pub churn : F
  pub estimated_switch_cost : F

module _ {F : Type 0} (ops : FloatOps F) where
  -- by `(-score, asset)`
  abbrev pub is_better : Candidate F → Candidate F → Bool
  is_better a b =
      if ops.equal a.score b.score then str_ltb a.asset_id b.asset_id else ops.less b.score a.score

  -- by `(score, asset)`
  abbrev pub is_worse : Candidate F → Candidate F → Bool
  is_worse a b =
      if ops.equal a.score b.score then str_ltb a.asset_id b.asset_id else ops.less a.score b.score

  unfoldable pub slot_of : List (ShadowSlot F) → String → Option (ShadowSlot F)
  slot_of [] asset = none
  slot_of (s ∷ slots) asset =
      let rest = slot_of slots asset in if str_eq s.asset_id asset then some s else rest

  -- `decision_at - entered_at < hold * MINUTE`
  abbrev pub is_within : ℕ → AllocationPolicy F → Option (ShadowSlot F) → Bool
  is_within decision_at policy none = false
  is_within decision_at policy (some s) =
      ltb decision_at (s.entered_at + policy.minimum_hold_minutes * minute)

  abbrev pub entered_of : ℕ → Option (ShadowSlot F) → ℕ
  entered_of decision_at none = decision_at
  entered_of decision_at (some s) = s.entered_at

  -- the candidates among the old slots, in their order
  unfoldable pub candidate_named : String → List (Candidate F) → Option (Candidate F)
  candidate_named asset [] = none
  candidate_named asset (c ∷ candidates) =
      let rest = candidate_named asset candidates in
      if str_eq c.asset_id asset then some c else rest

  abbrev pub prepend_if : Option (Candidate F) → List (Candidate F) → List (Candidate F)
  prepend_if none candidates = candidates
  prepend_if (some c) candidates = c ∷ candidates

  unfoldable pub still_eligible : List (ShadowSlot F) → List (Candidate F) → List (Candidate F)
  unfolding candidate_named
  still_eligible [] eligible = []
  still_eligible (s ∷ slots) eligible =
      prepend_if (candidate_named s.asset_id eligible) (still_eligible slots eligible)

  -- `transition_cost`, of assets with their groups
  abbrev pub all_groups : List (String × List String) → List String
  all_groups [] = []
  all_groups ((asset, groups) ∷ slots) = groups ++ all_groups slots

  abbrev pub unmapped : List (String × List String) → List String
  unmapped [] = []
  unmapped ((asset, []) ∷ slots) = asset ∷ unmapped slots
  unmapped ((asset, g ∷ groups) ∷ slots) = unmapped slots

  unfoldable pub transition_cost :
      AllocationPolicy F → List (String × List String) → List (String × List String) → F
  transition_cost policy before after =
      let additions =
        length (minus (all_groups after) (all_groups before))
        + length (minus (unmapped after) (unmapped before)) in
      let removals =
        length (minus (all_groups before) (all_groups after))
        + length (minus (unmapped before) (unmapped after)) in
      ops.add (ops.mul policy.switch_penalty (ops.number (additions + removals)))
        (ops.mul policy.warm_up_cost (ops.number additions))

  abbrev pub grouped : Candidate F → String × List String
  grouped c = (c.asset_id, c.groups)

  abbrev pub is_chosen : List (Candidate F) → Candidate F → Bool
  is_chosen chosen c = any (same_asset c) chosen

  module _ (decision_at : ℕ) (policy : AllocationPolicy F) (old : List (ShadowSlot F)) where
    abbrev pub is_held : Candidate F → Bool
    is_held c = is_within decision_at policy (slot_of old c.asset_id)

    abbrev pub entered : Candidate F → ℕ
    entered c = entered_of decision_at (slot_of old c.asset_id)

    -- by `(not held, entered_at, -score, asset)`
    abbrev pub is_kept_before : Candidate F → Candidate F → Bool
    is_kept_before a b =
        is_held a && not (is_held b)
        || (is_held a && is_held b || not (is_held a) && not (is_held b))
          && (ltb (entered a) (entered b) || (entered a == entered b && is_better a b))

    -- the loop that fills the free places, until there are k
    unfoldable pub fill : List (Candidate F) → List (Candidate F) → List (Candidate F)
    fill chosen [] = chosen
    fill chosen (c ∷ ordered) =
        let next =
          if not (is_chosen chosen c) && leb c.rank policy.k then chosen ++ c ∷ [] else chosen in
        let rest = fill next ordered in if leb policy.k (length chosen) then chosen else rest

    unfoldable pub choose_hysteresis : List (Candidate F) → List (Candidate F) → List (Candidate F)
    unfolding fill still_eligible sort_by
    choose_hysteresis eligible ordered =
        fill
          (take policy.k (
            sort_by is_kept_before (
              filter (λ c. is_held c || leb c.rank (policy.k + policy.buffer))
                (still_eligible old eligible))))
          ordered

    unfoldable pub remove_asset : Candidate F → List (Candidate F) → List (Candidate F)
    remove_asset c [] = []
    remove_asset c (d ∷ chosen) =
        let rest = remove_asset c chosen in if same_asset c d then chosen else d ∷ rest

    -- whether the benefit of a replacement exceeds its cost
    abbrev pub is_worth : List (Candidate F) → Candidate F → Candidate F → Bool
    is_worth chosen worst c =
        ops.less
          (transition_cost policy (map grouped chosen)
            (map grouped (filter (λ a. not (same_asset worst a)) chosen) ++ grouped c ∷ []))
          (ops.div (ops.sub c.score worst.score) (ops.number 100))

    abbrev pub replace_worst :
        List (Candidate F) → Candidate F → List (Candidate F) → List (Candidate F)
    replace_worst chosen c [] = chosen
    replace_worst chosen c (worst ∷ removable) =
        if is_worth chosen worst c then remove_asset worst chosen ++ c ∷ [] else chosen

    -- one turn of the loop of the greedy policy
    unfoldable pub consider : List (Candidate F) → Candidate F → List (Candidate F)
    unfolding transition_cost remove_asset sort_by
    consider chosen c =
        if is_chosen chosen c
        then chosen
        else if ltb (length chosen) policy.k
        then chosen ++ c ∷ []
        else replace_worst chosen c (sort_by is_worse (filter (λ a. not (is_held a)) chosen))

    unfoldable pub greedy : List (Candidate F) → List (Candidate F) → List (Candidate F)
    unfolding consider
    greedy chosen [] = chosen
    greedy chosen (c ∷ ordered) = greedy (consider chosen c) ordered

    unfoldable pub choose : Bool → List (Candidate F) → List (Candidate F) → List (Candidate F)
    unfolding choose_hysteresis greedy still_eligible
    choose comparable eligible ordered =
        if not comparable then take policy.k ordered else elim policy.kind [
          | top_k ↦ take policy.k ordered
          | hysteresis ↦ choose_hysteresis eligible ordered
          | cost_aware ↦ greedy (take policy.k (still_eligible old eligible)) ordered
        ]

    abbrev pub new_slot : Candidate F → ShadowSlot F
    new_slot c = record {
      asset_id = c.asset_id;
      group_ids = sort_by str_ltb c.groups;
      entered_at = entered c;
      score = c.score;
      rank = c.rank;
    }

    abbrev pub grouped_slot : ShadowSlot F → String × List String
    grouped_slot s = (s.asset_id, s.group_ids)

    -- the result, from the chosen assets in their order
    abbrev pub allocated : Bool → List (ShadowSlot F) → ShadowAllocation F
    allocated comparable slots =
        let current = map (λ (s : ShadowSlot F). s.asset_id) slots in
        let before = map (λ (s : ShadowSlot F). s.asset_id) old in
        let new_groups = all_groups (map grouped_slot slots) in
        let old_groups = all_groups (map grouped_slot old) in
        let added = minus current before in
        let removed = minus before current in
        record {
          comparable = comparable;
          slots = slots;
          added = sort_by str_ltb added;
          removed = sort_by str_ltb removed;
          retained = sort_by str_ltb (filter (has_text current) (distinct before));
          added_groups = sort_by str_ltb (minus new_groups old_groups);
          removed_groups = sort_by str_ltb (minus old_groups new_groups);
          churn =
              if comparable
              then ops.div (ops.number (length added + length removed)) (ops.number (2 * policy.k))
              else ops.number 0;
          estimated_switch_cost =
              transition_cost policy (map grouped_slot old) (map grouped_slot slots);
        }

  -- `comparable` and the previous slots are as the caller finds them; without comparison there are none
  unfoldable pub allocate_shadow_hotset :
      Status
      → ℕ
      → AllocationPolicy F
      → List (AttentionRow F)
      → Bool
      → List (ShadowSlot F)
      → ShadowAllocation F
  unfolding eligible_rows choose
  allocate_shadow_hotset status decision_at policy rows comparable previous =
      let old = if comparable then previous else [] in
      let eligible = eligible_rows status decision_at policy rows [] in
      let chosen = choose decision_at policy old comparable eligible (sort_by is_better eligible) in
      allocated decision_at policy old comparable
        (map (new_slot decision_at policy old) (sort_by is_better chosen))
