-- ===== src/CatalogStore/Current.antt =====
-- What the two loops over the versions do to the number of open rows of a symbol.
use prep_watchdeck.Prelude.{
  ℕ, ◌+◌, Bool, true, false, not, ◌&&◌, ◌≡◌, refl, sym, ap, ◌∙◌, String, Option, none, some, List,
  [], ◌∷◌, map, filter, any, count, All, All-filter_of, arith, count-append, Bool-cases, inl, inr,
  ◌==◌, if◌then◌else◌, ok, >>=-eq-ok, >>-eq-ok, raise_if, ok_injective,
}
use prep_watchdeck.Text.{str_eq}
use prep_watchdeck.Venue.{Venue, venue_eq}
use prep_watchdeck.Catalog.{CatalogInstrument}
use prep_watchdeck.CatalogStore.{
  bad_interval, CatalogRow, CatalogTables, second_version, bad_number, is_current, require_later,
}
use prep_watchdeck.CatalogStore.Versions.{
  current_row, close_row, close_version, are_earlier, close_loop, Made, insert_version,
  are_numbers_ok, conflicts, is_unchanged_by, create, keep, keep_or_create, create_loop,
}

-- the version ids are different, as a primary key's are
abbrev pub IsKeyed : List CatalogRow → Type 0
IsKeyed [] = Unit
IsKeyed (r ∷ rows) = All (λ s. (s.version == r.version) ≡ false) rows × IsKeyed rows

abbrev pub is_named : CatalogRow → CatalogRow → Bool
is_named r c = r.version == c.version

named_absent :
    (r : CatalogRow) (rows : List CatalogRow)
    → All (λ s. (s.version == r.version) ≡ false) rows
    → any (is_named r) rows ≡ false
named_absent r [] h = refl
named_absent r (s ∷ rows) h = ground (arith, h.0, named_absent r rows h.1)

named_skip :
    (q : CatalogRow → Bool) (r : CatalogRow) (rows : List CatalogRow) (s : CatalogRow)
    → (s.version == r.version) ≡ false
    → any (is_named s) (filter q rows) ≡ q s
    → any (is_named s) (filter q (r ∷ rows)) ≡ q s
named_skip q r rows s h k = elim (Bool-cases (q r)) [ inl e ↦ rw (e, h) k | inr e ↦ rw e k ]

named_tail :
    (q : CatalogRow → Bool) (r : CatalogRow) (rows more : List CatalogRow)
    → All (λ s. (s.version == r.version) ≡ false) more
    → All (λ s. any (is_named s) (filter q rows) ≡ q s) more
    → All (λ s. any (is_named s) (filter q (r ∷ rows)) ≡ q s) more
named_tail q r rows [] h k = tt
named_tail q r rows (s ∷ more) h k =
    (named_skip q r rows s h.0 k.0, named_tail q r rows more h.1 k.1)

-- a row is named by a selected row only if it is selected itself
pub named_filter :
    (q : CatalogRow → Bool) (rows : List CatalogRow)
    → IsKeyed rows
    → All (λ r. any (is_named r) (filter q rows) ≡ q r) rows
named_filter q [] h = tt
named_filter q (r ∷ rows) h = (
  elim (Bool-cases (q r)) [
    | inl e ↦ rw e (ground arith)
    | inr e ↦ rw e (named_absent r (filter q rows) (All-filter_of _ q rows h.0))
  ],
  named_tail q r rows rows h.0 (named_filter q rows h.1),
)

unfoldable pub closed_by : ℕ → List CatalogRow → CatalogRow → CatalogRow
closed_by observed [] r = r
closed_by observed (c ∷ cs) r = closed_by observed cs (close_row c.version observed r)

map-map :
    (f g : CatalogRow → CatalogRow) (rows : List CatalogRow)
    → map f (map g rows) ≡ map (λ r. f (g r)) rows
map-map f g [] = refl
map-map f g (r ∷ rows) = ap (λ (t : List CatalogRow). f (g r) ∷ t) (map-map f g rows)

map_same : (rows : List CatalogRow) → map (λ r. r) rows ≡ rows
map_same [] = refl
map_same (r ∷ rows) = ap (λ (t : List CatalogRow). r ∷ t) (map_same rows)

pub close_loop-versions :
    (observed : ℕ) (cs : List CatalogRow) (t : CatalogTables) (n : ℕ) (y : CatalogTables × ℕ)
    → close_loop observed cs (t, n) ≡ ok y
    → y.0.versions ≡ map (closed_by observed cs) t.versions
unfolding close_loop close_version closed_by
close_loop-versions observed [] t n y h =
    let eq : (t, n) ≡ y = cc in
    ap (λ (z : CatalogTables × ℕ). z.0.versions) (sym eq) ∙ sym (map_same t.versions)
close_loop-versions observed (c ∷ cs) t n y h =
    let (h1, h2) = >>-eq-ok (require_later observed c.valid_from) _ h in
    let (x, h3, h4) = >>=-eq-ok (close_version c.version observed t) _ h2 in
    let (h5, h6) = >>-eq-ok (raise_if (not (are_earlier c.version observed t)) bad_interval) _ h3 in
    close_loop-versions observed cs x.0 (n + x.1) y h4
    ∙ ap (λ (z : CatalogTables × ℕ). map (closed_by observed cs) z.0.versions)
        (sym (ok_injective _ x h6))
    ∙ map-map (closed_by observed cs) (close_row c.version observed) t.versions

current-close_row :
    (venue : Venue) (symbol : String) (version observed : ℕ) (r : CatalogRow)
    → is_current venue symbol (close_row version observed r)
      ≡ is_current venue symbol r && not (r.version == version)
current-close_row venue symbol version observed r = ground arith

version-close_row :
    (version observed : ℕ) (r : CatalogRow) → (close_row version observed r).version ≡ r.version
version-close_row version observed r = ground arith

named_close :
    (version observed : ℕ) (r : CatalogRow) (cs : List CatalogRow)
    → any (is_named (close_row version observed r)) cs ≡ any (is_named r) cs
named_close version observed r [] = refl
named_close version observed r (c ∷ cs) =
    rw (version-close_row version observed r, named_close version observed r cs) refl

pub current-closed_by :
    (venue : Venue) (symbol : String) (observed : ℕ) (cs : List CatalogRow) (r : CatalogRow)
    → is_current venue symbol (closed_by observed cs r)
      ≡ is_current venue symbol r && not (any (is_named r) cs)
unfolding closed_by
current-closed_by venue symbol observed [] r = ground arith
current-closed_by venue symbol observed (c ∷ cs) r =
    current-closed_by venue symbol observed cs (close_row c.version observed r)
    ∙ rw (current-close_row venue symbol c.version observed r, named_close c.version observed r cs)
        (ground arith)

module _ (definition_hash semantic_hash : CatalogInstrument → String) where
  abbrev pub is_same : String → CatalogInstrument → Bool
  is_same symbol i = str_eq i.source_symbol symbol

  abbrev pub is_kept : Option CatalogRow → CatalogInstrument → Bool
  is_kept none i = false
  is_kept (some r) i = is_unchanged_by definition_hash semantic_hash r i

  create-count :
      (venue : Venue) (symbol : String) (observed : ℕ) (i : CatalogInstrument) (m m' : Made)
      → venue_eq i.venue venue ≡ true
      → create definition_hash semantic_hash observed i m ≡ ok m'
      → count (is_current venue symbol) m'.tables.versions
        ≡ count (is_current venue symbol) m.tables.versions + (if is_same symbol i then 1 else 0)
  unfolding insert_version
  create-count venue symbol observed i m m' v h =
      let (t, h1, h2) =
        >>=-eq-ok (insert_version definition_hash semantic_hash observed i m.tables) _ h in
      let (h3, h4) = >>-eq-ok (raise_if (not (are_numbers_ok i)) bad_number) _ h1 in
      let (h5, h6) =
        >>-eq-ok (raise_if (any (conflicts observed i) m.tables.versions) second_version) _ h4 in
      ap (λ (z : Made). count (is_current venue symbol) z.tables.versions)
        (sym (ok_injective _ m' h2))
      ∙ ap (λ (z : CatalogTables). count (is_current venue symbol) z.versions)
          (sym (ok_injective _ t h6))
      ∙ count-append (is_current venue symbol) m.tables.versions _
      ∙ rw v (ground arith)

  keep_or_create-count :
      (venue : Venue) (symbol : String) (observed : ℕ) (found : Option CatalogRow)
      (i : CatalogInstrument) (m m' : Made)
      → venue_eq i.venue venue ≡ true
      → keep_or_create definition_hash semantic_hash observed found i m ≡ ok m'
      → count (is_current venue symbol) m'.tables.versions
        ≡ count (is_current venue symbol) m.tables.versions
          + (if is_same symbol i && not (is_kept found i) then 1 else 0)
  unfolding keep_or_create
  keep_or_create-count venue symbol observed none i m m' v h =
      create-count venue symbol observed i m m' v h ∙ ground arith
  keep_or_create-count venue symbol observed (some r) i m m' v h =
      elim (Bool-cases (is_kept (some r) i)) [
        | inl e ↦
            ap (λ (z : Made). count (is_current venue symbol) z.tables.versions)
              (sym
                (ok_injective (keep definition_hash semantic_hash i r m) m' (sym (rw e refl) ∙ h)))
            ∙ ground (arith, e)
        | inr e ↦
            create-count venue symbol observed i m m' v (sym (rw e refl) ∙ h) ∙ ground (arith, e)
      ]

  pub create_loop-count :
      (venue : Venue) (symbol : String) (observed : ℕ) (before : List CatalogRow)
      (instruments : List CatalogInstrument) (m m' : Made)
      → All (λ (i : CatalogInstrument). venue_eq i.venue venue ≡ true) instruments
      → create_loop definition_hash semantic_hash venue observed before instruments m ≡ ok m'
      → count (is_current venue symbol) m'.tables.versions
        ≡ count (is_current venue symbol) m.tables.versions
          + count
              (λ i. is_same symbol i && not (is_kept (current_row venue i.source_symbol before) i))
              instruments
  unfolding create_loop
  create_loop-count venue symbol observed before [] m m' v h =
      let eq : m ≡ m' = cc in
      ap (λ (z : Made). count (is_current venue symbol) z.tables.versions) (sym eq) ∙ omega arith
  create_loop-count venue symbol observed before (i ∷ instruments) m m' v h =
      let (made, h1, h2) =
        >>=-eq-ok
          (keep_or_create definition_hash semantic_hash observed
            (current_row venue i.source_symbol before) i m)
          _ h in
      ground (
        arith,
        create_loop-count venue symbol observed before instruments made m' v.1 h2,
        keep_or_create-count venue symbol observed (current_row venue i.source_symbol before) i m
            made v.0 h1,
      )
