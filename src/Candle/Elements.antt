-- ===== src/Candle/Elements.antt =====
-- Elements of a list, for the candles that were received and the versions that are known.
use prep_watchdeck.Prelude.{
  ◌≡◌, ◌⊎◌, refl, sym, inl, inr, Bool, true, List, [], ◌∷◌, arith, Bool-cases, All, any, filter,
}
use mathlib.Core.Path.{subst}

abbrev pub IsIn : {A : Type 0} → A → List A → Type 0
IsIn x [] = ⊥
IsIn x (y ∷ xs) = (y ≡ x) ⊎ IsIn x xs

module _ {A : Type 0} where
  pub All-members : {P : A → Type 0} (xs : List A) → ((x : A) → IsIn x xs → P x) → All P xs
  All-members [] f = tt
  All-members (x ∷ xs) f = (f x (inl refl), All-members xs (λ y m. f y (inr m)))

  pub All-lookup : (P : A → Type 0) (xs : List A) (x : A) → All P xs → IsIn x xs → P x
  All-lookup P [] x h m = elim m [ ]
  All-lookup P (y ∷ xs) x h (inl e) = subst P e h.0
  All-lookup P (y ∷ xs) x h (inr m) = All-lookup P xs x h.1 m

  pub any-member : (p : A → Bool) (xs : List A) (x : A) → IsIn x xs → p x ≡ true → any p xs ≡ true
  any-member p [] x m h = elim m [ ]
  any-member p (y ∷ xs) x (inl e) h = let k = subst (λ z. p z ≡ true) (sym e) h in rw k refl
  any-member p (y ∷ xs) x (inr m) h = ground (arith, any-member p xs x m h)

  pub any-witness :
      (p : A → Bool) (xs : List A) → any p xs ≡ true → (x : A) × IsIn x xs × (p x ≡ true)
  any-witness p [] h = absurd (cc)
  any-witness p (x ∷ xs) h = elim (Bool-cases (p x)) [
    | inl e ↦ (x, inl refl, e)
    | inr e ↦ let (y, m, k) = any-witness p xs (ground (arith, e, h)) in (y, inr m, k)
  ]

  pub filter-member :
      (p : A → Bool) (xs : List A) (x : A) → IsIn x (filter p xs) → IsIn x xs × (p x ≡ true)
  filter-member p [] x m = elim m [ ]
  filter-member p (y ∷ xs) x m = elim (Bool-cases (p y)) [
    | inr e ↦ let (n, k) = filter-member p xs x (rw e at m) in (inr n, k)
    | inl e ↦ elim (rw e at m) [
      | inl same ↦ (inl same, subst (λ z. p z ≡ true) same e)
      | inr later ↦ let (n, k) = filter-member p xs x later in (inr n, k)
    ]
  ]

  pub filter-cong :
      (p q : A → Bool) (xs : List A) → ((x : A) → p x ≡ q x) → filter p xs ≡ filter q xs
  filter-cong p q [] h = refl
  filter-cong p q (x ∷ xs) h = rw (h x, filter-cong p q xs h) refl
