-- ===== src/Candle/Unique.antt =====
-- The pending candles have distinct keys, and sorting and filtering keep that.
use prep_watchdeck.Prelude.{
  ◌≡◌, refl, ◌∙◌, inl, inr, Bool, true, false, some, List, [], ◌∷◌, arith, Bool-cases, any, filter,
  All, All-map, All-filter_of,
}
use prep_watchdeck.Candle.{Candle1m, preferred_candle, same_key, gives_way}
use prep_watchdeck.Candle.Preference.{same_key_sym, same_key_trans}
use prep_watchdeck.Candle.Store.{has_duplicate}
use prep_watchdeck.Candle.Writer.{put_preferred, insert_by_key, sort_by_key, key_before}

abbrev pub UniqueKeys : List Candle1m → Type 0
UniqueKeys [] = Unit
UniqueKeys (c ∷ candles) = All (λ d. same_key c d ≡ false) candles × UniqueKeys candles

module _ (P : Candle1m → Type 0) where
  pub All-put_preferred :
      (c : Candle1m) (pending : List Candle1m)
      → P c
      → All P pending
      → All P (put_preferred c pending)
  unfolding put_preferred preferred_candle
  All-put_preferred c [] h a = (h, tt)
  All-put_preferred c (d ∷ pending) h a = elim (Bool-cases (same_key d c)) [
    | inr e ↦ rw e (a.0, All-put_preferred c pending h a.1)
    | inl e ↦
        rw e (elim (Bool-cases (gives_way d c)) [ inl g ↦ rw g (h, a.1) | inr g ↦ rw g (a.0, a.1) ])
  ]

  pub All-insert_by_key :
      (c : Candle1m) (l : List Candle1m) → P c → All P l → All P (insert_by_key c l)
  unfolding insert_by_key
  All-insert_by_key c [] h a = (h, tt)
  All-insert_by_key c (d ∷ l) h a = elim (Bool-cases (key_before d c)) [
    | inl e ↦ rw e (a.0, All-insert_by_key c l h a.1)
    | inr e ↦ rw e (h, (a.0, a.1))
  ]

  pub All-sort_by_key : (l : List Candle1m) → All P l → All P (sort_by_key l)
  unfolding sort_by_key
  All-sort_by_key [] a = tt
  All-sort_by_key (c ∷ l) a = All-insert_by_key c (sort_by_key l) a.0 (All-sort_by_key l a.1)

-- what replaces an entry has its key
preferred_key :
    (d c x : Candle1m)
    → same_key d c ≡ true
    → same_key (preferred_candle (some d) c) x ≡ same_key d x
unfolding preferred_candle
preferred_key d c x h = ground (arith, same_key_trans d c x h)

pub put_preferred-UniqueKeys :
    (c : Candle1m) (pending : List Candle1m)
    → UniqueKeys pending
    → UniqueKeys (put_preferred c pending)
unfolding put_preferred
put_preferred-UniqueKeys c [] u = (tt, tt)
put_preferred-UniqueKeys c (d ∷ pending) u = elim (Bool-cases (same_key d c)) [
  | inl e ↦ rw e (All-map (λ x k. preferred_key d c x e ∙ k) pending u.0, u.1)
  | inr e ↦ rw e (
    All-put_preferred (λ x. same_key d x ≡ false) c pending e u.0,
    put_preferred-UniqueKeys c pending u.1,
  )
]

insert_by_key-UniqueKeys :
    (c : Candle1m) (l : List Candle1m)
    → All (λ d. same_key c d ≡ false) l
    → UniqueKeys l
    → UniqueKeys (insert_by_key c l)
unfolding insert_by_key
insert_by_key-UniqueKeys c [] a u = (tt, tt)
insert_by_key-UniqueKeys c (d ∷ l) a u = elim (Bool-cases (key_before d c)) [
  | inl e ↦ rw e (
    All-insert_by_key (λ x. same_key d x ≡ false) c l (same_key_sym d c ∙ a.0) u.0,
    insert_by_key-UniqueKeys c l a.1 u.1,
  )
  | inr e ↦ rw e ((a.0, a.1), (u.0, u.1))
]

pub sort_by_key-UniqueKeys : (l : List Candle1m) → UniqueKeys l → UniqueKeys (sort_by_key l)
unfolding sort_by_key
sort_by_key-UniqueKeys [] u = tt
sort_by_key-UniqueKeys (c ∷ l) u =
    insert_by_key-UniqueKeys c (sort_by_key l) (All-sort_by_key (λ d. same_key c d ≡ false) l u.0)
      (sort_by_key-UniqueKeys l u.1)

pub filter-UniqueKeys :
    (p : Candle1m → Bool) (l : List Candle1m) → UniqueKeys l → UniqueKeys (filter p l)
filter-UniqueKeys p [] u = tt
filter-UniqueKeys p (c ∷ l) u = elim (Bool-cases (p c)) [
  | inl e ↦ rw e (All-filter_of (λ d. same_key c d ≡ false) p l u.0, filter-UniqueKeys p l u.1)
  | inr e ↦ rw e (filter-UniqueKeys p l u.1)
]

no_match :
    (c : Candle1m) (l : List Candle1m)
    → All (λ d. same_key c d ≡ false) l
    → any (same_key c) l ≡ false
no_match c [] a = refl
no_match c (d ∷ l) a = ground (arith, no_match c l a.1, a.0)

pub UniqueKeys-has_duplicate : (l : List Candle1m) → UniqueKeys l → has_duplicate l ≡ false
unfolding has_duplicate
UniqueKeys-has_duplicate [] u = refl
UniqueKeys-has_duplicate (c ∷ l) u =
    ground (arith, no_match c l u.0, UniqueKeys-has_duplicate l u.1)
