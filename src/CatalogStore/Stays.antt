-- ===== src/CatalogStore/Stays.antt =====
-- The rows that a further batch of the same instruments would not close.
use mathlib.Core.Path.{subst}
use prep_watchdeck.Prelude.{
  ℕ, Bool, true, false, not, ◌&&◌, ◌||◌, ◌≡◌, refl, sym, ◌∙◌, String, Option, none, some, List, [],
  ◌∷◌, map, filter, any, count, All, All-map, All-append, arith, Bool-cases, inl, inr, ◌==◌, ok,
  >>=-eq-ok, >>-eq-ok, raise_if, ok_injective,
}
use prep_watchdeck.Text.{str_eq, str_eq_iff}
use prep_watchdeck.Venue.{Venue}
use prep_watchdeck.Catalog.{CatalogInstrument}
use prep_watchdeck.CatalogStore.{CatalogRow, CatalogTables, second_version, bad_number, is_open}
use prep_watchdeck.CatalogStore.Versions.{
  current_row, close_row, close_loop, Made, insert_version, are_numbers_ok, conflicts,
  is_unchanged_by, is_to_close, create, keep, keep_or_create, create_loop,
}
use prep_watchdeck.CatalogStore.Current.{
  IsKeyed, is_named, named_filter, closed_by, close_loop-versions,
}
use prep_watchdeck.CatalogStore.Exact.{has_symbol}

str_eq_refl : (s : String) → str_eq s s ≡ true
str_eq_refl s = (str_eq_iff s s).1 refl

All-map_of :
    (P : CatalogRow → Type 0) (f : CatalogRow → CatalogRow) (rows : List CatalogRow)
    → All (λ r. P (f r)) rows
    → All P (map f rows)
All-map_of P f [] h = tt
All-map_of P f (r ∷ rows) h = (h.0, All-map_of P f rows h.1)

pub none_counted :
    (k : CatalogInstrument → Bool) (xs : List CatalogInstrument)
    → ((symbol : String) → count (λ i. has_symbol symbol i && not (k i)) xs ≡ 0)
    → All (λ i. k i ≡ true) xs
none_counted k [] h = tt
none_counted k (x ∷ xs) h = (
  ground (arith, h x.source_symbol, str_eq_refl x.source_symbol),
  none_counted k xs (λ symbol. ground (arith, h symbol)),
)

module _ (definition_hash semantic_hash : CatalogInstrument → String) where
  abbrev pub Stays : Venue → List CatalogInstrument → CatalogRow → Type 0
  Stays venue instruments r = is_to_close definition_hash semantic_hash venue instruments r ≡ false

  abbrev pub is_like : CatalogInstrument → CatalogInstrument → Bool
  is_like i j =
      str_eq j.source_symbol i.source_symbol
      && (str_eq (definition_hash i) (definition_hash j)
          || str_eq (semantic_hash i) (semantic_hash j))

  pub is_like_refl : (i : CatalogInstrument) → is_like i i ≡ true
  is_like_refl i = rw (str_eq_refl i.source_symbol, str_eq_refl (definition_hash i)) refl

  to_close-close_row :
      (venue : Venue) (instruments : List CatalogInstrument) (version observed : ℕ) (r : CatalogRow)
      → is_to_close definition_hash semantic_hash venue instruments (close_row version observed r)
        ≡ is_to_close definition_hash semantic_hash venue instruments r
          && not (r.version == version)
  to_close-close_row venue instruments version observed r =
      elim (Bool-cases (r.version == version && is_open r.valid_to)) [
        | inl e ↦ rw e (ground (arith, e))
        | inr e ↦ rw e (ground (arith, e))
      ]

  named_same :
      (version observed : ℕ) (r : CatalogRow) (cs : List CatalogRow)
      → any (is_named (close_row version observed r)) cs ≡ any (is_named r) cs
  named_same version observed r cs =
      elim (Bool-cases (r.version == version && is_open r.valid_to)) [
        | inl e ↦ rw e refl
        | inr e ↦ rw e refl
      ]

  to_close-closed_by :
      (venue : Venue) (instruments : List CatalogInstrument) (observed : ℕ) (cs : List CatalogRow)
      (r : CatalogRow)
      → is_to_close definition_hash semantic_hash venue instruments (closed_by observed cs r)
        ≡ is_to_close definition_hash semantic_hash venue instruments r && not (any (is_named r) cs)
  unfolding closed_by
  to_close-closed_by venue instruments observed [] r = ground arith
  to_close-closed_by venue instruments observed (c ∷ cs) r =
      to_close-closed_by venue instruments observed cs (close_row c.version observed r)
      ∙ rw
          (
            to_close-close_row venue instruments c.version observed r,
            named_same c.version observed r cs,
          )
          (ground arith)

  pub close_loop-Stays :
      (venue : Venue) (instruments : List CatalogInstrument) (observed : ℕ) (t : CatalogTables)
      (y : CatalogTables × ℕ)
      → IsKeyed t.versions
      → close_loop observed
          (filter (is_to_close definition_hash semantic_hash venue instruments) t.versions)
          (t, 0)
        ≡ ok y
      → All (Stays venue instruments) y.0.versions
  close_loop-Stays venue instruments observed t y keyed h =
      let q = is_to_close definition_hash semantic_hash venue instruments in
      subst (All (Stays venue instruments))
        (sym (close_loop-versions observed (filter q t.versions) t 0 y h))
        (All-map_of (Stays venue instruments) (closed_by observed (filter q t.versions)) t.versions
          (All-map
            (λ r named.
              to_close-closed_by venue instruments observed (filter q t.versions) r
              ∙ rw named (ground arith))
            t.versions (named_filter q t.versions keyed)))

  create-Stays :
      (venue : Venue) (instruments : List CatalogInstrument) (observed : ℕ) (i : CatalogInstrument)
      (m m' : Made)
      → any (is_like i) instruments ≡ true
      → create definition_hash semantic_hash observed i m ≡ ok m'
      → All (Stays venue instruments) m.tables.versions
      → All (Stays venue instruments) m'.tables.versions
  unfolding insert_version
  create-Stays venue instruments observed i m m' like h k =
      let (t, h1, h2) =
        >>=-eq-ok (insert_version definition_hash semantic_hash observed i m.tables) _ h in
      let (h3, h4) = >>-eq-ok (raise_if (not (are_numbers_ok i)) bad_number) _ h1 in
      let (h5, h6) =
        >>-eq-ok (raise_if (any (conflicts observed i) m.tables.versions) second_version) _ h4 in
      subst (λ (z : Made). All (Stays venue instruments) z.tables.versions) (ok_injective _ m' h2)
        (subst (λ (z : CatalogTables). All (Stays venue instruments) z.versions)
          (ok_injective _ t h6)
          (All-append (Stays venue instruments) m.tables.versions _ k (rw like (ground arith), tt)))

  keep_or_create-Stays :
      (venue : Venue) (instruments : List CatalogInstrument) (observed : ℕ)
      (found : Option CatalogRow) (i : CatalogInstrument) (m m' : Made)
      → any (is_like i) instruments ≡ true
      → keep_or_create definition_hash semantic_hash observed found i m ≡ ok m'
      → All (Stays venue instruments) m.tables.versions
      → All (Stays venue instruments) m'.tables.versions
  unfolding keep_or_create
  keep_or_create-Stays venue instruments observed none i m m' like h k =
      create-Stays venue instruments observed i m m' like h k
  keep_or_create-Stays venue instruments observed (some r) i m m' like h k =
      elim (Bool-cases (is_unchanged_by definition_hash semantic_hash r i)) [
        | inl e ↦
            subst (λ (z : Made). All (Stays venue instruments) z.tables.versions)
              (ok_injective (keep definition_hash semantic_hash i r m) m' (sym (rw e refl) ∙ h)) k
        | inr e ↦ create-Stays venue instruments observed i m m' like (sym (rw e refl) ∙ h) k
      ]

  pub create_loop-Stays :
      (venue : Venue) (instruments : List CatalogInstrument) (observed : ℕ)
      (before : List CatalogRow) (rest : List CatalogInstrument) (m m' : Made)
      → All (λ i. any (is_like i) instruments ≡ true) rest
      → create_loop definition_hash semantic_hash venue observed before rest m ≡ ok m'
      → All (Stays venue instruments) m.tables.versions
      → All (Stays venue instruments) m'.tables.versions
  unfolding create_loop
  create_loop-Stays venue instruments observed before [] m m' like h k =
      subst (λ (z : Made). All (Stays venue instruments) z.tables.versions) (ok_injective m m' h) k
  create_loop-Stays venue instruments observed before (i ∷ rest) m m' like h k =
      let (made, h1, h2) =
        >>=-eq-ok
          (keep_or_create definition_hash semantic_hash observed
            (current_row venue i.source_symbol before) i m)
          _ h in
      create_loop-Stays venue instruments observed before rest made m' like.1 h2 (
        keep_or_create-Stays venue instruments observed (current_row venue i.source_symbol before) i
          m made like.0 h1 k)
