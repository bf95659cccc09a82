-- ===== src/Candle/Versions.antt =====
-- Candles of one key find one version, and a version has one instrument.
use prep_watchdeck.Prelude.{
  ℕ, ◌≡◌, refl, sym, ◌∙◌, inl, inr, Bool, true, false, ◌&&◌, none, some, List, [], ◌∷◌, arith, ◌==◌,
  Bool-cases, All, any, filter, Option-cases, ap,
}
use mathlib.Core.Path.{subst}
use prep_watchdeck.Text.{str_eq_iff}
use prep_watchdeck.Candle.{Candle1m, same_key}
use prep_watchdeck.Candle.Preference.{same_key_refl, same_key_sym, same_key_trans}
use prep_watchdeck.Candle.Elements.{
  IsIn, All-members, All-lookup, any-member, any-witness, filter-member, filter-cong,
}
use prep_watchdeck.Candle.Store.{InstrumentVersion, is_none, covers, unambiguous, version_of}

-- the primary key of `venue_instrument_versions`
abbrev pub UniqueIds : List InstrumentVersion → Type 0
UniqueIds [] = Unit
UniqueIds (v ∷ versions) = All (λ w. (v.id == w.id) ≡ false) versions × UniqueIds versions

-- whether the candle is stored in the row
abbrev pub goes_to : List InstrumentVersion → ℕ → ℕ → Candle1m → Bool
goes_to versions version bucket c = elim (version_of versions c) [
  | none ↦ false
  | some w ↦ w == version && c.bucket_start.instant == bucket
]

abbrev pub IsKnown : List InstrumentVersion → Candle1m → Type 0
IsKnown versions c = is_none (version_of versions c) ≡ false

unambiguous_one :
    (c : Candle1m) (rows : List InstrumentVersion) (w : ℕ)
    → unambiguous c rows ≡ some w
    → (v : InstrumentVersion) × (rows ≡ v ∷ []) × (v.id ≡ w)
unambiguous_one c [] w h = absurd (cc)
unambiguous_one c (v ∷ []) w h = (v, refl, ground (arith, h))
unambiguous_one c (v ∷ u ∷ rows) w h = absurd (cc)

-- the row that a candle finds
version_of_one :
    (versions : List InstrumentVersion) (c : Candle1m) (w : ℕ)
    → version_of versions c ≡ some w
    → (v : InstrumentVersion) × (filter (covers c) versions ≡ v ∷ [])
      × (v.id ≡ w)
      × IsIn v versions
      × (covers c v ≡ true)
unfolding version_of
version_of_one versions c w h =
    let (v, found, same) = unambiguous_one c (filter (covers c) versions) w h in
    let (m, k) =
      filter-member (covers c) versions v (subst (λ l. IsIn v l) (sym found) (inl refl)) in
    (v, found, same, m, k)

same_id :
    (versions : List InstrumentVersion) (v u : InstrumentVersion)
    → UniqueIds versions
    → IsIn v versions
    → IsIn u versions
    → v.id ≡ u.id
    → v ≡ u
same_id [] v u unique m n h = elim m [ ]
same_id (x ∷ versions) v u unique (inl e) (inl f) h = sym e ∙ f
same_id (x ∷ versions) v u unique (inr m) (inr n) h = same_id versions v u unique.1 m n h
same_id (x ∷ versions) v u unique (inl e) (inr n) h = absurd (
    let differs = All-lookup (λ w. (x.id == w.id) ≡ false) versions u unique.0 n in
    ground (arith, differs, subst (λ z. z.id ≡ u.id) (sym e) h))
same_id (x ∷ versions) v u unique (inr m) (inl f) h = absurd (
    let differs = All-lookup (λ w. (x.id == w.id) ≡ false) versions v unique.0 m in
    ground (arith, differs, subst (λ z. v.id ≡ z.id) (sym f) h))

covers_key :
    (a b : Candle1m) → same_key a b ≡ true → (v : InstrumentVersion) → covers a v ≡ covers b v
unfolding covers same_key
covers_key a b h v = ground (
  arith,
  str_eq_iff a.source_symbol b.source_symbol,
  str_eq_iff a.source_symbol v.source_symbol,
  str_eq_iff b.source_symbol v.source_symbol,
)

pub known :
    (versions : List InstrumentVersion) (c : Candle1m)
    → IsKnown versions c
    → (w : ℕ) × (version_of versions c ≡ some w)
known versions c h = elim (Option-cases (version_of versions c)) [
  | inl e ↦ absurd (let k = rw e at h in cc)
  | inr found ↦ found
]

-- known candles of one key find one version: a MEXC row of another multiplier would be unknown
version_of-same_key :
    (versions : List InstrumentVersion) (a b : Candle1m)
    → IsKnown versions a
    → IsKnown versions b
    → same_key a b ≡ true
    → version_of versions a ≡ version_of versions b
version_of-same_key versions a b h k same =
    let (w, e) = known versions a h in
    let (u, f) = known versions b k in
    let (v, rows_a, id_a, m, cov) = version_of_one versions a w e in
    let (x, rows_b, id_b, n, cov') = version_of_one versions b u f in
    let rows = filter-cong (covers a) (covers b) versions (covers_key a b same) in
    let one : v ∷ [] ≡ x ∷ [] = sym rows_a ∙ rows ∙ rows_b in
    let ids : w ≡ u = cc in e ∙ ap (λ (z : ℕ). some z) ids ∙ sym f

goes_to-same_key :
    (versions : List InstrumentVersion) (version bucket : ℕ) (a b : Candle1m)
    → IsKnown versions a
    → IsKnown versions b
    → same_key a b ≡ true
    → goes_to versions version bucket a ≡ goes_to versions version bucket b
unfolding same_key
goes_to-same_key versions version bucket a b h k same =
    let (u, f) = known versions b k in
    rw (goes_to, version_of-same_key versions a b h k same ∙ f, f) (ground (arith, same))

covered_key :
    (a b : Candle1m) (v : InstrumentVersion)
    → covers a v ≡ true
    → covers b v ≡ true
    → a.bucket_start.instant ≡ b.bucket_start.instant
    → same_key a b ≡ true
unfolding covers same_key
covered_key a b v h k t = ground (
  arith,
  str_eq_iff a.source_symbol b.source_symbol,
  str_eq_iff a.source_symbol v.source_symbol,
  str_eq_iff b.source_symbol v.source_symbol,
)

-- candles that go to one row have one key
goes_to-single :
    (versions : List InstrumentVersion) (version bucket : ℕ) (a b : Candle1m)
    → UniqueIds versions
    → goes_to versions version bucket a ≡ true
    → goes_to versions version bucket b ≡ true
    → same_key a b ≡ true
goes_to-single versions version bucket a b unique h k =
    elim (Option-cases (version_of versions a)) [
      | inl e ↦ absurd (let x = rw (goes_to, e) at h in cc)
      | inr (w, e) ↦ elim (Option-cases (version_of versions b)) [
        | inl f ↦ absurd (let x = rw (goes_to, f) at k in cc)
        | inr (u, f) ↦
            let (v, rows_a, id_a, m, cov) = version_of_one versions a w e in
            let (x, rows_b, id_b, n, cov') = version_of_one versions b u f in
            let h' = rw (goes_to, e) at h in
            let k' = rw (goes_to, f) at k in
            let same = same_id versions v x unique m n (ground (arith, h', k', id_a, id_b)) in
            covered_key a b x (subst (λ z. covers a z ≡ true) same cov) cov'
              (ground (arith, h', k'))
      ]
    ]

-- whether a received candle of the key goes to the row: of the key alone, for any candle
module _ (versions : List InstrumentVersion) (version bucket : ℕ) (items : List Candle1m) where
  abbrev pub key_goes_to : Candle1m → Bool
  key_goes_to c = any (λ a. same_key a c && goes_to versions version bucket a) items

  pub key_goes_to-respects : (c d : Candle1m) → same_key c d ≡ true → key_goes_to c ≡ key_goes_to d
  key_goes_to-respects c d h = respects items
    where
      respects :
          (l : List Candle1m)
          → any (λ a. same_key a c && goes_to versions version bucket a) l
            ≡ any (λ a. same_key a d && goes_to versions version bucket a) l
      respects [] = refl
      respects (a ∷ l) =
          let k : same_key a c ≡ same_key a d =
            same_key_sym a c ∙ same_key_trans d c a (same_key_sym d c ∙ h) ∙ same_key_sym d a in
          rw (k, respects l) refl

  pub key_goes_to-single :
      UniqueIds versions
      → (c d : Candle1m) → key_goes_to c ≡ true
      → key_goes_to d ≡ true
      → same_key c d ≡ true
  key_goes_to-single unique c d h k =
      let (a, m, ha) =
        any-witness (λ a. same_key a c && goes_to versions version bucket a) items h in
      let (b, n, hb) =
        any-witness (λ a. same_key a d && goes_to versions version bucket a) items k in
      let ab = goes_to-single versions version bucket a b unique (ground arith) (ground arith) in
      let ac : same_key a c ≡ true = ground arith in
      let bd : same_key b d ≡ true = ground arith in
      let ad : same_key a d ≡ true = sym (same_key_trans a b d ab) ∙ bd in
      sym (same_key_trans c a d (same_key_sym c a ∙ ac)) ∙ ad

  pub key_goes_to-known :
      All (IsKnown versions) items
      → All (λ c. key_goes_to c ≡ goes_to versions version bucket c) items
  key_goes_to-known ks = All-members items (λ c m.
      elim (Bool-cases (goes_to versions version bucket c)) [
        | inl e ↦
            any-member (λ a. same_key a c && goes_to versions version bucket a) items c m
              (rw (same_key_refl c, e) refl)
            ∙ sym e
        | inr e ↦ elim (Bool-cases (key_goes_to c)) [
          | inr f ↦ f ∙ sym e
          | inl f ↦
              let (a, n, ha) =
                any-witness (λ a. same_key a c && goes_to versions version bucket a) items f in
              let ac = goes_to-same_key versions version bucket a c in
              absurd (
                let same =
                  ac (All-lookup _ items a ks n) (All-lookup _ items c ks m) (ground arith) in
                ground (arith, same, e, ha))
        ]
      ])
