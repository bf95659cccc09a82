-- ===== src/SelectedStore/ReadBack.antt =====
-- What is read of a depth that was stored.
use prep_watchdeck.Prelude.{
  ℕ, suc, length, length-append, ◌+◌, ◌<◌, true, false, not, ◌≡◌, refl, ap, ◌∙◌, some, List, [],
  ◌∷◌, ◌++◌, map, filter, arith, All, All-append, All-map, All-filter, filter-append,
  filter_rejects, filter_accepts, append_nil,
}
use prep_watchdeck.Depth.{DepthLevel, SelectedDepth}
use prep_watchdeck.SelectedStore.{Database, DepthRow, Side, bid, ask, side_eq, Payload}
use prep_watchdeck.SelectedStore.Store.{level_rows, replace_depth, is_depth_of}
use prep_watchdeck.SelectedStore.View.{
  side_levels, sort_levels, insert_level, is_side, depth_received,
}

module _ (selection version : ℕ) (d : SelectedDepth) (p : Payload) where
  sort-level_rows :
      (side : Side) (i : ℕ) (levels : List DepthLevel)
      → sort_levels (level_rows selection version d p side i levels)
        ≡ level_rows selection version d p side i levels
  unfolding level_rows sort_levels insert_level
  sort-level_rows side i [] = refl
  sort-level_rows side i (l ∷ []) = refl
  sort-level_rows side i (l ∷ k ∷ levels) =
      rw (sort-level_rows side (i + 1) (k ∷ levels)) (ground arith)

  map-level_rows :
      (side : Side) (i : ℕ) (levels : List DepthLevel)
      → map (λ (r : DepthRow). r.level) (level_rows selection version d p side i levels) ≡ levels
  unfolding level_rows
  map-level_rows side i [] = refl
  map-level_rows side i (l ∷ levels) =
      ap (λ (t : List DepthLevel). l ∷ t) (map-level_rows side (i + 1) levels)

  -- what each row of a side has
  level_rows-All :
      (P : DepthRow → Type 0) (side : Side)
      → ((r : DepthRow)
          → r.selection ≡ selection
          → r.version ≡ version
          → r.side ≡ side
          → r.received_at ≡ d.received_at.instant
          → P r)
      → (i : ℕ) (levels : List DepthLevel) → All P (level_rows selection version d p side i levels)
  unfolding level_rows
  level_rows-All P side f i [] = tt
  level_rows-All P side f i (l ∷ levels) =
      (f _ refl refl refl refl, level_rows-All P side f (i + 1) levels)

  is_side_own :
      (side : Side) (i : ℕ) (levels : List DepthLevel)
      → filter (is_side selection version side) (level_rows selection version d p side i levels)
        ≡ level_rows selection version d p side i levels
  is_side_own side i levels =
      filter_accepts _ _ (level_rows-All _ side (λ r h k l _. ground (arith, h, k, l)) i levels)

  is_side_other :
      (side other : Side)
      → side_eq other side ≡ false
      → (i : ℕ) (levels : List DepthLevel)
      → filter (is_side selection version side) (level_rows selection version d p other i levels)
        ≡ []
  is_side_other side other h i levels =
      filter_rejects _ _ (level_rows-All _ other (λ r _ _ l _. ground (arith, h, l)) i levels)

  -- the rows that stay when a depth is replaced
  abbrev pub other_rows : List DepthRow → List DepthRow
  other_rows rows = filter (λ r. not (is_depth_of selection version r)) rows

  is_side-other_rows :
      (side : Side) (rows : List DepthRow)
      → filter (is_side selection version side) (other_rows rows) ≡ []
  is_side-other_rows side rows = filter_rejects _ _ (
      All-map (λ r h. ground (arith, h)) _
        (All-filter (λ r. not (is_depth_of selection version r)) rows))

  abbrev pub new_rows : List DepthRow
  new_rows =
      level_rows selection version d p bid 0 d.bids ++ level_rows selection version d p ask 0 d.asks

  is_side-rows :
      (side : Side) (rows : List DepthRow)
      → filter (is_side selection version side) (other_rows rows ++ new_rows)
        ≡ filter (is_side selection version side) (level_rows selection version d p bid 0 d.bids)
          ++ filter (is_side selection version side) (level_rows selection version d p ask 0 d.asks)
  is_side-rows side rows =
      filter-append (is_side selection version side) (other_rows rows) new_rows
      ∙ rw (is_side-other_rows side rows) (
          filter-append (is_side selection version side)
            (level_rows selection version d p bid 0 d.bids) _)

  bid_rows :
      (rows : List DepthRow)
      → filter (is_side selection version bid) (other_rows rows ++ new_rows)
        ≡ level_rows selection version d p bid 0 d.bids
  bid_rows rows =
      is_side-rows bid rows
      ∙ rw (is_side_own bid 0 d.bids, is_side_other bid ask refl 0 d.asks) (append_nil _)

  ask_rows :
      (rows : List DepthRow)
      → filter (is_side selection version ask) (other_rows rows ++ new_rows)
        ≡ level_rows selection version d p ask 0 d.asks
  ask_rows rows =
      is_side-rows ask rows
      ∙ rw (is_side_other ask bid refl 0 d.bids, is_side_own ask 0 d.asks) refl

  -- the levels that are read of a version whose depth was replaced
  pub bids-replace_depth :
      (db : Database)
      → side_levels selection version bid (replace_depth selection version d p db).depths ≡ d.bids
  unfolding side_levels replace_depth
  bids-replace_depth db =
      ap (λ rows. map (λ (r : DepthRow). r.level) (sort_levels rows)) (bid_rows db.depths)
      ∙ rw (sort-level_rows bid 0 d.bids) (map-level_rows bid 0 d.bids)

  pub asks-replace_depth :
      (db : Database)
      → side_levels selection version ask (replace_depth selection version d p db).depths ≡ d.asks
  unfolding side_levels replace_depth
  asks-replace_depth db =
      ap (λ rows. map (λ (r : DepthRow). r.level) (sort_levels rows)) (ask_rows db.depths)
      ∙ rw (sort-level_rows ask 0 d.asks) (map-level_rows ask 0 d.asks)

  -- a row of the depth that was stored
  abbrev pub IsNew : DepthRow → Type 0
  IsNew r = (is_depth_of selection version r ≡ true) × (r.received_at ≡ d.received_at.instant)

  depth_received-skip :
      (rows more : List DepthRow)
      → depth_received selection version (other_rows rows ++ more)
        ≡ depth_received selection version more
  unfolding depth_received
  depth_received-skip [] more = refl
  depth_received-skip (r ∷ rows) more = ground (arith, depth_received-skip rows more)

  depth_received-IsNew :
      (r : DepthRow) (rows : List DepthRow)
      → IsNew r
      → All IsNew rows
      → depth_received selection version (r ∷ rows) ≡ some d.received_at.instant
  unfolding depth_received
  depth_received-IsNew r [] h k = ground (arith, h.0, h.1)
  depth_received-IsNew r (s ∷ rows) h k =
      rw (h.0, depth_received-IsNew s rows k.0 k.1, h.1) (ground arith)

  new_rows-IsNew : All IsNew new_rows
  new_rows-IsNew =
      All-append IsNew _ _ (level_rows-All IsNew bid is_new 0 d.bids)
        (level_rows-All IsNew ask is_new 0 d.asks)
    where
      is_new :
          {side : Side} (r : DepthRow)
          → r.selection ≡ selection
          → r.version ≡ version
          → r.side ≡ side
          → r.received_at ≡ d.received_at.instant
          → IsNew r
      is_new r h k _ l = (ground (arith, h, k), l)

  received_new :
      (rows : List DepthRow)
      → 0 < length rows
      → All IsNew rows
      → depth_received selection version rows ≡ some d.received_at.instant
  received_new [] h k = absurd (omega (arith, h))
  received_new (r ∷ rows) h k = depth_received-IsNew r rows k.0 k.1

  length-level_rows :
      (side : Side) (i : ℕ) (levels : List DepthLevel)
      → length (level_rows selection version d p side i levels) ≡ length levels
  unfolding level_rows
  length-level_rows side i [] = refl
  length-level_rows side i (l ∷ levels) = ap suc (length-level_rows side (i + 1) levels)

  pub received-replace_depth :
      (db : Database)
      → 0 < length d.bids
      → depth_received selection version (replace_depth selection version d p db).depths
        ≡ some d.received_at.instant
  unfolding replace_depth
  received-replace_depth db h =
      depth_received-skip db.depths new_rows
      ∙ received_new new_rows
          (omega (
            arith,
            length-append (level_rows selection version d p bid 0 d.bids)
                (level_rows selection version d p ask 0 d.asks),
            length-level_rows bid 0 d.bids,
            h,
          ))
          new_rows-IsNew
