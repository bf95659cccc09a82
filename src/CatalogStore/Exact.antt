-- ===== src/CatalogStore/Exact.antt =====
-- Which versions are open after the catalog of a venue was persisted.
use mathlib.Core.Path.{subst}
use prep_watchdeck.Prelude.{
  ℕ, ◌+◌, ◌≤◌, Bool, true, false, not, ◌&&◌, ◌≡◌, refl, sym, ap, ◌∙◌, String, Option, none, some,
  List, [], ◌∷◌, filter, any, count, All, All-map, arith, count_cong, count-map, count_once,
  count_mono, Bool-cases, Option-cases, inl, inr, if◌then◌else◌, ok, >>=-eq-ok, >>-eq-ok, raise_if,
  raise_if-eq-ok, ok_injective,
}
use prep_watchdeck.Text.{str_eq, str_eq_iff}
use prep_watchdeck.Venue.{Venue, venue_eq}
use prep_watchdeck.Catalog.{CatalogInstrument}
use prep_watchdeck.CatalogStore.{
  CatalogRow, CatalogTables, wrong_venue, duplicate_symbol, is_current,
}
use prep_watchdeck.CatalogStore.Validate.{check_instruments}
use prep_watchdeck.CatalogStore.Versions.{
  current_row, close_loop, Made, is_unchanged_by, is_unchanged, is_to_close, create_loop,
  sync_versions,
}
use prep_watchdeck.CatalogStore.Current.{
  IsKeyed, named_filter, closed_by, close_loop-versions, current-closed_by, is_kept,
  create_loop-count,
}

abbrev pub has_symbol : String → CatalogInstrument → Bool
has_symbol symbol i = str_eq i.source_symbol symbol

-- checked instruments are of the venue, and each symbol is there once
seen_symbol :
    (seen : List CatalogInstrument) (symbol : String) (i : CatalogInstrument)
    → any (has_symbol i.source_symbol) seen ≡ false
    → any (has_symbol symbol) seen ≡ true
    → has_symbol symbol i ≡ false
seen_symbol seen symbol i h k = elim (Bool-cases (has_symbol symbol i)) [
  | inl e ↦
      let same : any (has_symbol i.source_symbol) seen ≡ true =
        subst (λ s. any (has_symbol s) seen ≡ true) (sym ((str_eq_iff i.source_symbol symbol).0 e))
          k in
      absurd (cc)
  | inr e ↦ e
]

abbrev pub IsListed : Venue → List CatalogInstrument → List CatalogInstrument → Type 0
IsListed venue seen instruments =
    All (λ (i : CatalogInstrument). venue_eq i.venue venue ≡ true) instruments
    × ((symbol : String)
        → any (has_symbol symbol) seen ≡ true
        → count (has_symbol symbol) instruments ≡ 0)
    × ((symbol : String) → count (has_symbol symbol) instruments ≤ 1)

pub check_instruments-IsListed :
    (venue : Venue) (seen instruments : List CatalogInstrument)
    → check_instruments venue seen instruments ≡ ok tt
    → IsListed venue seen instruments
unfolding check_instruments
check_instruments-IsListed venue seen [] h = (tt, λ symbol k. refl, λ symbol. omega arith)
check_instruments-IsListed venue seen (i ∷ instruments) h =
    let (h1, r1) = >>-eq-ok (raise_if (not (venue_eq i.venue venue)) wrong_venue) _ h in
    let (h2, r2) =
      >>-eq-ok (raise_if (any (has_symbol i.source_symbol) seen) duplicate_symbol) _ r1 in
    let (venues, none_later, once) = check_instruments-IsListed venue (i ∷ seen) instruments r2 in
    (
      (ground (arith, raise_if-eq-ok _ wrong_venue h1), venues),
      λ symbol k. ground (
        arith,
        seen_symbol seen symbol i (raise_if-eq-ok _ duplicate_symbol h2) k,
        none_later symbol,
        k,
      ),
      λ symbol. ground (arith, none_later symbol, once symbol),
    )

pub current_row-none :
    (venue : Venue) (symbol : String) (q : CatalogRow → Bool) (rows : List CatalogRow)
    → current_row venue symbol rows ≡ none
    → count (λ r. is_current venue symbol r && q r) rows ≡ 0
unfolding current_row
current_row-none venue symbol q [] h = refl
current_row-none venue symbol q (r ∷ rows) h = elim (Bool-cases (is_current venue symbol r)) [
  | inl e ↦ absurd (some_none r (sym (rw e refl) ∙ h))
  | inr e ↦ rw e (current_row-none venue symbol q rows (sym (rw e refl) ∙ h))
]
  where
    some_none : (r : CatalogRow) → ◌≡◌ {A = Option CatalogRow} (some r) none → ⊥
    some_none r k = absurd (cc)

none_current :
    (venue : Venue) (symbol : String) (q : CatalogRow → Bool) (rows : List CatalogRow)
    → count (is_current venue symbol) rows ≤ 0
    → count (λ r. is_current venue symbol r && q r) rows ≡ 0
none_current venue symbol q rows h = omega (
  arith,
  h,
  count_mono (λ r. is_current venue symbol r && q r) (is_current venue symbol)
      (λ r k. ground (arith, k)) rows,
)

-- the one open row of a symbol is the one that is found
current_row-some :
    (venue : Venue) (symbol : String) (q : CatalogRow → Bool) (rows : List CatalogRow)
    (r : CatalogRow)
    → current_row venue symbol rows ≡ some r
    → count (is_current venue symbol) rows ≤ 1
    → (is_current venue symbol r ≡ true)
      × (count (λ r'. is_current venue symbol r' && q r') rows ≡ (if q r then 1 else 0))
unfolding current_row
current_row-some venue symbol q [] r h k = absurd (cc)
current_row-some venue symbol q (s ∷ rows) r h k = elim (Bool-cases (is_current venue symbol s)) [
  | inl e ↦
      let found : some s ≡ some r = sym (rw e refl) ∙ h in
      let eq : s ≡ r = cc in
      (
        subst (λ w. is_current venue symbol w ≡ true) eq e,
        subst
            (λ w.
              count (λ r'. is_current venue symbol r' && q r') (s ∷ rows) ≡ (if q w then 1 else 0))
            eq (ground (arith, e, none_current venue symbol q rows (ground (arith, e, k)))),
      )
  | inr e ↦
      let (h1, h2) =
        current_row-some venue symbol q rows r (sym (rw e refl) ∙ h) (ground (arith, e, k)) in
      (h1, ground (arith, e, h2))
]

pub count_split :
    (p q : CatalogInstrument → Bool) (xs : List CatalogInstrument)
    → count (λ i. p i && q i) xs + count (λ i. p i && not (q i)) xs ≡ count p xs
count_split p q [] = refl
count_split p q (x ∷ xs) = ground (arith, count_split p q xs)

pub All-of : {A : Type 0} {P : A → Type 0} → ((x : A) → P x) → (xs : List A) → All P xs
All-of f [] = tt
All-of f (x ∷ xs) = (f x, All-of f xs)

module _ (definition_hash semantic_hash : CatalogInstrument → String) where
  abbrev pub kept_in : Venue → List CatalogRow → CatalogInstrument → Bool
  kept_in venue rows i =
      is_kept definition_hash semantic_hash (current_row venue i.source_symbol rows) i

  -- of the instruments with a symbol, those that are kept are kept by that symbol's row
  kept_by :
      (venue : Venue) (symbol : String) (rows : List CatalogRow) (found : Option CatalogRow)
      (instruments : List CatalogInstrument)
      → current_row venue symbol rows ≡ found
      → count (λ i. has_symbol symbol i && kept_in venue rows i) instruments
        ≡ count
            (λ i. has_symbol symbol i && is_kept definition_hash semantic_hash found i)
            instruments
  kept_by venue symbol rows found instruments h =
      count_cong _ _ instruments (All-of same instruments)
    where
      same :
          (i : CatalogInstrument)
          → has_symbol symbol i && kept_in venue rows i
            ≡ has_symbol symbol i && is_kept definition_hash semantic_hash found i
      same i = elim (Bool-cases (has_symbol symbol i)) [
        | inl e ↦
            ap (λ o. has_symbol symbol i && is_kept definition_hash semantic_hash o i)
              (ap (λ s. current_row venue s rows) ((str_eq_iff i.source_symbol symbol).0 e) ∙ h)
        | inr e ↦ rw e refl
      ]

  any_same :
      (symbol : String) (r : CatalogRow) (instruments : List CatalogInstrument)
      → r.instrument.source_symbol ≡ symbol
      → any
          (λ i. has_symbol symbol i && is_unchanged_by definition_hash semantic_hash r i)
          instruments
        ≡ is_unchanged definition_hash semantic_hash instruments r
  any_same symbol r instruments h = rw h refl

  -- an open row is kept as often as an instrument is
  pub kept_equal :
      (venue : Venue) (symbol : String) (rows : List CatalogRow)
      (instruments : List CatalogInstrument)
      → count (is_current venue symbol) rows ≤ 1
      → count (has_symbol symbol) instruments ≤ 1
      → count
          (λ r.
            is_current venue symbol r && is_unchanged definition_hash semantic_hash instruments r)
          rows
        ≡ count (λ i. has_symbol symbol i && kept_in venue rows i) instruments
  kept_equal venue symbol rows instruments h k =
      elim (Option-cases (current_row venue symbol rows)) [
        | inl e ↦
            current_row-none venue symbol _ rows e
            ∙ sym (kept_by venue symbol rows none instruments e ∙ count_zero instruments)
        | inr (r, e) ↦
            let (current, eq) =
              current_row-some venue symbol (is_unchanged definition_hash semantic_hash instruments)
                rows r e h in
            let named : str_eq r.instrument.source_symbol symbol ≡ true = ground (arith, current) in
            eq
            ∙ sym (
                kept_by venue symbol rows (some r) instruments e
                ∙ count_once
                    (λ i. has_symbol symbol i && is_unchanged_by definition_hash semantic_hash r i)
                    instruments
                    (omega (
                      arith,
                      k,
                      count_mono
                          (λ i.
                            has_symbol symbol i
                            && is_unchanged_by definition_hash semantic_hash r i)
                          (has_symbol symbol) (λ i l. ground (arith, l)) instruments,
                    ))
                ∙ rw
                    (any_same symbol r instruments
                      ((str_eq_iff r.instrument.source_symbol symbol).0 named))
                    refl)
      ]
    where
      count_zero : (xs : List CatalogInstrument) → count (λ i. has_symbol symbol i && false) xs ≡ 0
      count_zero [] = refl
      count_zero (x ∷ xs) = ground (arith, count_zero xs)

  -- the rows that stay open when the others are closed
  closed-count :
      (venue : Venue) (symbol : String) (observed : ℕ) (instruments : List CatalogInstrument)
      (t : CatalogTables) (n : ℕ) (y : CatalogTables × ℕ)
      → IsKeyed t.versions
      → close_loop observed
          (filter (is_to_close definition_hash semantic_hash venue instruments) t.versions)
          (t, n)
        ≡ ok y
      → count (is_current venue symbol) y.0.versions
        ≡ count
            (λ r.
              is_current venue symbol r && is_unchanged definition_hash semantic_hash instruments r)
            t.versions
  closed-count venue symbol observed instruments t n y keyed h =
      let q = is_to_close definition_hash semantic_hash venue instruments in
      ap (count (is_current venue symbol))
        (close_loop-versions observed (filter q t.versions) t n y h)
      ∙ count-map (is_current venue symbol) (closed_by observed (filter q t.versions)) t.versions
      ∙ count_cong _ _ t.versions (
          All-map
            (λ r named.
              current-closed_by venue symbol observed (filter q t.versions) r
              ∙ rw named (ground arith))
            t.versions (named_filter q t.versions keyed))

  -- After both loops, each symbol has as many open rows as the checked batch has instruments of it.
  pub sync_versions-count :
      (venue : Venue) (observed : ℕ) (instruments : List CatalogInstrument) (t : CatalogTables)
      (y : Made × ℕ)
      → check_instruments venue [] instruments ≡ ok tt
      → IsKeyed t.versions
      → (symbol : String) → count (is_current venue symbol) t.versions ≤ 1
      → sync_versions definition_hash semantic_hash venue observed instruments t ≡ ok y
      → count (is_current venue symbol) y.0.tables.versions ≡ count (has_symbol symbol) instruments
  unfolding sync_versions
  sync_versions-count venue observed instruments t y checked keyed symbol once h =
      let (venues, _, listed) = check_instruments-IsListed venue [] instruments checked in
      let (x, h1, h2) =
        >>=-eq-ok
          (close_loop observed
            (filter (is_to_close definition_hash semantic_hash venue instruments) t.versions)
            (t, 0))
          _ h in
      let (m, h3, h4) =
        >>=-eq-ok
          (create_loop definition_hash semantic_hash venue observed t.versions instruments
            (record { tables = x.0; version_ids = []; created = 0; unchanged = 0 }))
          _ h2 in
      ap (λ (z : Made × ℕ). count (is_current venue symbol) z.0.tables.versions)
        (sym (ok_injective _ y h4))
      ∙ create_loop-count definition_hash semantic_hash venue symbol observed t.versions instruments
          _ m venues h3
      ∙ omega (
        arith,
        closed-count venue symbol observed instruments t 0 x keyed h1,
        kept_equal venue symbol t.versions instruments once (listed symbol),
        count_split (has_symbol symbol) (kept_in venue t.versions) instruments,
      )
