-- ===== src/Attention/Allowed.antt =====
-- What the slots of an allocation are: at most k, each of an asset that the response allows.
use mathlib.Core.Path.{subst}
use prep_watchdeck.Prelude.{
  ℕ, suc, ◌+◌, ◌≤◌, Bool, true, false, not, ◌&&◌, ◌||◌, ◌≡◌, refl, ap, String, some, List, [], ◌∷◌,
  map, any, length, leb, All, any_self, arith, Bool-cases, Option-cases, inl, inr, if◌then◌else◌,
}
use prep_watchdeck.Text.{str_eq, str_eq_iff}
use prep_watchdeck.Attention.{
  FloatOps, Component, ready, unavailable, Status, is_usable, AttentionRow, AllocationPolicy,
  ShadowSlot, Candidate, sort_by, same_asset, candidate_of, candidate_if, put_if, put_candidate,
  eligible_rows,
}
use prep_watchdeck.Attention.Choice.{is_better, choose, new_slot, allocate_shadow_hotset}
use prep_watchdeck.Attention.Bounded.{length-sort_by, All-sort_by, choose-IsBounded}

module _ {F : Type 0} (status : Status) (decision_at : ℕ) (policy : AllocationPolicy F) where
  abbrev pub is_scored : Component F → Bool
  is_scored unavailable = false
  is_scored (ready score rank) = true

  -- a usable row of at most 150 seconds, whose component of the policy is ready
  abbrev pub is_allowed : AttentionRow F → Bool
  is_allowed row =
      is_usable status
      && is_usable row.identity_status
      && leb row.data_as_of decision_at
      && leb decision_at (row.data_as_of + 150000)
      && is_scored (row.components policy.component)

  abbrev pub IsAllowed : List (AttentionRow F) → String → Type 0
  IsAllowed rows asset =
      any (λ (r : AttentionRow F). str_eq r.asset_id asset && is_allowed r) rows ≡ true

  candidate_if-some :
      (usable : Bool) (row : AttentionRow F) (component : Component F) (c : Candidate F)
      → candidate_if usable row component ≡ some c
      → (usable && is_scored component ≡ true) × (row.asset_id ≡ c.asset_id)
  candidate_if-some usable row unavailable c h = absurd (cc)
  candidate_if-some true row (ready score rank) c h = (refl, cc)
  candidate_if-some false row (ready score rank) c h = absurd (cc)

  abbrev supports : AttentionRow F → AttentionRow F → Bool
  supports row r = str_eq r.asset_id row.asset_id && (not (is_allowed row) || is_allowed r)

  supported :
      (row : AttentionRow F) (rows : List (AttentionRow F))
      → is_allowed row ≡ true
      → any (supports row) rows ≡ true
      → IsAllowed rows row.asset_id
  supported row [] h k = k
  supported row (r ∷ rows) h k = ground (arith, supported row rows h, h, k)

  -- a list of candidates whose assets are allowed
  abbrev AreAllowed : List (AttentionRow F) → List (Candidate F) → Type 0
  AreAllowed rows candidates = All (λ (c : Candidate F). IsAllowed rows c.asset_id) candidates

  put_candidate-AreAllowed :
      (rows : List (AttentionRow F)) (c : Candidate F) (candidates : List (Candidate F))
      → IsAllowed rows c.asset_id
      → AreAllowed rows candidates
      → AreAllowed rows (put_candidate c candidates)
  unfolding put_candidate
  put_candidate-AreAllowed rows c [] h k = (h, tt)
  put_candidate-AreAllowed rows c (d ∷ candidates) h k = elim (Bool-cases (same_asset c d)) [
    | inl e ↦ rw e (h, k.1)
    | inr e ↦ rw e (k.0, put_candidate-AreAllowed rows c candidates h k.1)
  ]

  put_if-AreAllowed :
      (rows : List (AttentionRow F)) (row : AttentionRow F) (candidates : List (Candidate F))
      → any (supports row) rows ≡ true
      → AreAllowed rows candidates
      → AreAllowed rows (put_if (candidate_of status decision_at policy row) candidates)
  put_if-AreAllowed rows row candidates h k =
      elim (Option-cases (candidate_of status decision_at policy row)) [
        | inl e ↦ rw e k
        | inr (c, e) ↦
            let (allowed, same) = candidate_if-some _ row (row.components policy.component) c e in
            rw e (
              put_candidate-AreAllowed rows c candidates
                (subst (IsAllowed rows) same (supported row rows (ground (arith, allowed)) h)) k)
      ]

  eligible_rows-AreAllowed :
      (rows later : List (AttentionRow F)) (candidates : List (Candidate F))
      → All (λ row. any (supports row) rows ≡ true) later
      → AreAllowed rows candidates
      → AreAllowed rows (eligible_rows status decision_at policy later candidates)
  unfolding eligible_rows
  eligible_rows-AreAllowed rows [] candidates h k = k
  eligible_rows-AreAllowed rows (row ∷ later) candidates h k =
      eligible_rows-AreAllowed rows later _ h.1 (put_if-AreAllowed rows row candidates h.0 k)

  supports_refl : (row : AttentionRow F) → supports row row ≡ true
  supports_refl row = rw ((str_eq_iff row.asset_id row.asset_id).1 refl) (ground arith)

  length-map :
      (f : Candidate F → ShadowSlot F) (xs : List (Candidate F)) → length (map f xs) ≡ length xs
  length-map f [] = refl
  length-map f (x ∷ xs) = ap suc (length-map f xs)

  All-map_slots :
      (P : ShadowSlot F → Type 0) (f : Candidate F → ShadowSlot F) (xs : List (Candidate F))
      → All (λ c. P (f c)) xs
      → All P (map f xs)
  All-map_slots P f [] h = tt
  All-map_slots P f (x ∷ xs) h = (h.0, All-map_slots P f xs h.1)

  -- Under each policy, with a previous allocation or without, at most k slots are recommended, and
  -- the asset of each has a row that the response allows: usable, at most 150 seconds old, its
  -- component of the policy ready.
  pub slots-AreAllowed :
      (ops : FloatOps F) (rows : List (AttentionRow F)) (comparable : Bool)
      (previous : List (ShadowSlot F))
      → (length
            (allocate_shadow_hotset ops status decision_at policy rows comparable previous).slots
          ≤ policy.k)
        × All
            (λ (s : ShadowSlot F). IsAllowed rows s.asset_id)
            (allocate_shadow_hotset ops status decision_at policy rows comparable previous).slots
  unfolding allocate_shadow_hotset
  slots-AreAllowed ops rows comparable previous =
      let old = if comparable then previous else [] in
      let eligible = eligible_rows status decision_at policy rows [] in
      let allowed =
        eligible_rows-AreAllowed rows rows [] (any_self supports supports_refl rows) tt in
      let chosen =
        choose ops decision_at policy old comparable eligible (sort_by (is_better ops) eligible) in
      let bounded =
        choose-IsBounded ops (λ c. IsAllowed rows c.asset_id) decision_at policy old comparable
          eligible _ allowed
          (All-sort_by (is_better ops) (λ c. IsAllowed rows c.asset_id) eligible allowed) in
      (
        omega (
          arith,
          bounded.0,
          length-sort_by (is_better ops) chosen,
          length-map (new_slot ops decision_at policy old) (sort_by (is_better ops) chosen),
        ),
        All-map_slots (λ s. IsAllowed rows s.asset_id) (new_slot ops decision_at policy old)
            (sort_by (is_better ops) chosen)
            (All-sort_by (is_better ops) (λ c. IsAllowed rows c.asset_id) chosen bounded.1),
      )
