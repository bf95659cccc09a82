-- ===== src/CatalogStore/Repeat.antt =====
-- That a batch which is persisted again changes no version.
use mathlib.Core.Path.{subst}
use prep_watchdeck.Prelude.{
  any_self, ℕ, ◌+◌, ◌≤◌, true, ◌&&◌, ◌≡◌, refl, ◌∙◌, String, Option, none, some, List, [], ◌∷◌,
  filter, count, length, All, All-map, arith, count_cong, filter_rejects, ok, >>=-eq-ok,
  ok_injective,
}
use prep_watchdeck.Venue.{Venue}
use prep_watchdeck.Catalog.{CatalogInstrument}
use prep_watchdeck.CatalogStore.{CatalogRow, CatalogTables, is_current}
use prep_watchdeck.CatalogStore.Validate.{check_instruments}
use prep_watchdeck.CatalogStore.Versions.{
  current_row, close_loop, Made, is_unchanged, is_to_close, keep, keep_or_create, create_loop,
  sync_versions,
}
use prep_watchdeck.CatalogStore.Current.{IsKeyed, is_kept}
use prep_watchdeck.CatalogStore.Exact.{
  has_symbol, check_instruments-IsListed, kept_in, kept_equal, count_split, sync_versions-count,
}
use prep_watchdeck.CatalogStore.Stays.{
  Stays, is_like, is_like_refl, none_counted, close_loop-Stays, create_loop-Stays,
}

module _ (definition_hash semantic_hash : CatalogInstrument → String) where
  keep_known :
      (observed : ℕ) (found : Option CatalogRow) (i : CatalogInstrument) (m : Made)
      → is_kept definition_hash semantic_hash found i ≡ true
      → (made : Made) × (keep_or_create definition_hash semantic_hash observed found i m ≡ ok made)
        × (made.tables ≡ m.tables)
        × (made.created ≡ m.created)
        × (made.unchanged ≡ m.unchanged + 1)
  unfolding keep_or_create
  keep_known observed none i m h = absurd (cc)
  keep_known observed (some r) i m h =
      (keep definition_hash semantic_hash i r m, rw h refl, refl, refl, refl)

  keeps :
      (venue : Venue) (observed : ℕ) (before : List CatalogRow)
      (instruments : List CatalogInstrument) (m : Made)
      → All (λ i. kept_in definition_hash semantic_hash venue before i ≡ true) instruments
      → (made : Made) × (create_loop definition_hash semantic_hash venue observed before instruments
            m
          ≡ ok made)
        × (made.tables ≡ m.tables)
        × (made.created ≡ m.created)
        × (made.unchanged ≡ m.unchanged + length instruments)
  unfolding create_loop
  keeps venue observed before [] m h = (m, refl, refl, refl, omega arith)
  keeps venue observed before (i ∷ instruments) m h =
      let (first, h1, t1, c1, u1) =
        keep_known observed (current_row venue i.source_symbol before) i m h.0 in
      let (made, h2, t2, c2, u2) = keeps venue observed before instruments first h.1 in
      (made, rw (h1, h2) refl, t2 ∙ t1, c2 ∙ c1, omega (arith, u1, u2))

  current-Stays :
      (venue : Venue) (symbol : String) (instruments : List CatalogInstrument)
      (rows : List CatalogRow)
      → All (Stays definition_hash semantic_hash venue instruments) rows
      → count (is_current venue symbol) rows
        ≡ count
            (λ r.
              is_current venue symbol r && is_unchanged definition_hash semantic_hash instruments r)
            rows
  current-Stays venue symbol instruments rows h =
      count_cong (is_current venue symbol) _ rows (All-map (λ r k. ground (arith, k)) rows h)

  -- Persisting the instruments of a checked batch once more, at any time, closes no version and
  -- creates none: it keeps each, where ids are different and no symbol was open twice before.
  pub repeat_keeps :
      (venue : Venue) (observed later : ℕ) (instruments : List CatalogInstrument)
      (t : CatalogTables) (y : Made × ℕ)
      → check_instruments venue [] instruments ≡ ok tt
      → IsKeyed t.versions
      → ((symbol : String) → count (is_current venue symbol) t.versions ≤ 1)
      → sync_versions definition_hash semantic_hash venue observed instruments t ≡ ok y
      → (made : Made) × (sync_versions definition_hash semantic_hash venue later instruments
            y.0.tables
          ≡ ok (made, 0))
        × (made.tables ≡ y.0.tables)
        × (made.created ≡ 0)
        × (made.unchanged ≡ length instruments)
  unfolding sync_versions close_loop
  repeat_keeps venue observed later instruments t y checked keyed once h =
      let (_, _, listed) = check_instruments-IsListed venue [] instruments checked in
      let (x, h1, h2) =
        >>=-eq-ok
          (close_loop observed
            (filter (is_to_close definition_hash semantic_hash venue instruments) t.versions)
            (t, 0))
          _ h in
      let (m, h3, h4) =
        >>=-eq-ok
          (create_loop definition_hash semantic_hash venue observed t.versions instruments
            (record { tables = x.0; version_ids = []; created = 0; unchanged = 0 }))
          _ h2 in
      let all_stay : All (Stays definition_hash semantic_hash venue instruments)
          y.0.tables.versions =
        subst
          (λ (z : Made × ℕ).
            All (Stays definition_hash semantic_hash venue instruments) z.0.tables.versions)
          (ok_injective _ y h4)
          (create_loop-Stays definition_hash semantic_hash venue instruments observed t.versions
            instruments _ m
            (any_self (is_like definition_hash semantic_hash)
              (is_like_refl definition_hash semantic_hash) instruments)
            h3
            (close_loop-Stays definition_hash semantic_hash venue instruments observed t x keyed
              h1)) in
      let exact = λ (symbol : String).
        sync_versions-count definition_hash semantic_hash venue observed instruments t y checked
          keyed symbol (once symbol) h in
      let (made, k1, k2, k3, k4) =
        keeps venue later y.0.tables.versions instruments
          (record { tables = y.0.tables; version_ids = []; created = 0; unchanged = 0 })
          (none_counted (kept_in definition_hash semantic_hash venue y.0.tables.versions)
            instruments
            (λ symbol. omega (
              arith,
              exact symbol,
              listed symbol,
              current-Stays venue symbol instruments y.0.tables.versions all_stay,
              kept_equal definition_hash semantic_hash venue symbol y.0.tables.versions instruments
                  (omega (arith, exact symbol, listed symbol)) (listed symbol),
              count_split (has_symbol symbol)
                  (kept_in definition_hash semantic_hash venue y.0.tables.versions) instruments,
            ))) in
      (
        made,
        rw
            (
              filter_rejects (is_to_close definition_hash semantic_hash venue instruments)
                  y.0.tables.versions all_stay,
              k1,
            )
            refl,
        k2,
        k3,
        omega (arith, k4),
      )
