-- ===== src/Attention.antt =====
-- The recommended hot set: `allocate_shadow_hotset` of
-- apps/attention-core/src/prep_watchdeck_attention/allocation.py. Floating-point numbers are a
-- parameter. A component that is ready has its score and its rank, as its validator has it.
pub mod Choice
pub mod Bounded
pub mod Allowed
mod Tests
use Prim.Native.Char.{code}
use Prim.Native.String.{String}
use prep_watchdeck.Prelude.{
  ℕ, ◌+◌, ◌*◌, Bool, true, false, not, ◌&&◌, ◌||◌, Option, none, some, List, [], ◌∷◌, ◌++◌, map,
  filter, any, leb, ltb, ◌==◌, if◌then◌else◌,
}
use prep_watchdeck.Text.{str_eq}

pub record FloatOps (F : Type 0) : Type 0 where
  pub number : ℕ → F
  pub add : F → F → F
  pub sub : F → F → F
  pub mul : F → F → F
  pub div : F → F → F
  pub less : F → F → Bool
  pub equal : F → F → Bool

pub data Component (F : Type 0) : Type 0 where
  ready : F → ℕ → Component F
  unavailable : Component F

pub data Status : Type 0 where
  is_ready is_partial is_other : Status

abbrev pub is_usable : Status → Bool
is_usable is_ready = true
is_usable is_partial = true
is_usable is_other = false

pub record OriginalReference : Type 0 where
  pub group_id : Option String
  pub current : Bool

pub record AttentionRow (F : Type 0) : Type 0 where
  pub asset_id : String
  pub identity_status : Status
  pub components : String → Component F
  pub data_as_of : ℕ
  pub originals : List OriginalReference

pub data PolicyKind : Type 0 where
  top_k hysteresis cost_aware : PolicyKind

pub record AllocationPolicy (F : Type 0) : Type 0 where
  pub kind : PolicyKind
  pub component : String
  pub k : ℕ
  pub buffer : ℕ
  pub minimum_hold_minutes : ℕ
  pub switch_penalty : F
  pub warm_up_cost : F

pub record ShadowSlot (F : Type 0) : Type 0 where
  pub asset_id : String
  pub group_ids : List String
  pub entered_at : ℕ
  pub score : F
  pub rank : ℕ

-- a row of the dictionary `eligible`, with what the code reads of it
pub record Candidate (F : Type 0) : Type 0 where
  pub asset_id : String
  pub groups : List String
  pub score : F
  pub rank : ℕ

-- Python's order of texts, by code points
unfoldable pub str_ltb : String → String → Bool
str_ltb String.[] String.[] = false
str_ltb String.[] (String.◌∷◌ d s) = true
str_ltb (String.◌∷◌ c r) String.[] = false
str_ltb (String.◌∷◌ c r) (String.◌∷◌ d s) =
    ltb (code c) (code d) || (code c == code d && str_ltb r s)

-- a stable sort
unfoldable pub insert_by {ℓ} : {A : Type ℓ} → (A → A → Bool) → A → List A → List A
insert_by before x [] = x ∷ []
insert_by before x (y ∷ ys) =
    let rest = insert_by before x ys in if before y x then y ∷ rest else x ∷ y ∷ ys

unfoldable pub sort_by {ℓ} : {A : Type ℓ} → (A → A → Bool) → List A → List A
unfolding insert_by
sort_by before [] = []
sort_by before (x ∷ xs) = insert_by before x (sort_by before xs)

abbrev pub has_text : List String → String → Bool
has_text texts t = any (str_eq t) texts

-- the members of a set
unfoldable pub distinct : List String → List String
distinct [] = []
distinct (t ∷ texts) = let rest = distinct texts in if has_text texts t then rest else t ∷ rest

abbrev pub minus : List String → List String → List String
minus a b = filter (λ t. not (has_text b t)) (distinct a)

-- `groups(asset)`, a set
abbrev pub with_group : OriginalReference → List String → List String
with_group o groups = elim o.group_id [
  | none ↦ groups
  | some g ↦ if o.current then g ∷ groups else groups
]

unfoldable pub groups_of : List OriginalReference → List String
groups_of [] = []
groups_of (o ∷ originals) = with_group o (groups_of originals)

module _ {F : Type 0} where
  abbrev pub same_asset : Candidate F → Candidate F → Bool
  same_asset a b = str_eq a.asset_id b.asset_id

  -- `eligible[row.asset_id] = row` keeps the place of an asset that is there
  unfoldable pub put_candidate : Candidate F → List (Candidate F) → List (Candidate F)
  put_candidate c [] = c ∷ []
  put_candidate c (d ∷ candidates) =
      let rest = put_candidate c candidates in if same_asset c d then c ∷ candidates else d ∷ rest

  abbrev pub candidate_if : Bool → AttentionRow F → Component F → Option (Candidate F)
  candidate_if usable row unavailable = none
  candidate_if usable row (ready score rank) =
      if usable
      then some (record {
        asset_id = row.asset_id;
        groups = distinct (groups_of row.originals);
        score = score;
        rank = rank;
      })
      else none

  -- the conditions on a row, the response's status first
  abbrev pub candidate_of : Status → ℕ → AllocationPolicy F → AttentionRow F → Option (Candidate F)
  candidate_of status decision_at policy row =
      candidate_if
        (is_usable status
          && is_usable row.identity_status
          && leb row.data_as_of decision_at
          && leb decision_at (row.data_as_of + 150000))
        row (row.components policy.component)

  abbrev pub put_if : Option (Candidate F) → List (Candidate F) → List (Candidate F)
  put_if none candidates = candidates
  put_if (some c) candidates = put_candidate c candidates

  unfoldable pub eligible_rows :
      Status
      → ℕ
      → AllocationPolicy F
      → List (AttentionRow F)
      → List (Candidate F)
      → List (Candidate F)
  unfolding put_candidate
  eligible_rows status decision_at policy [] candidates = candidates
  eligible_rows status decision_at policy (row ∷ rows) candidates =
      eligible_rows status decision_at policy rows
        (put_if (candidate_of status decision_at policy row) candidates)
