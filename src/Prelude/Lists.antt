-- ===== src/Prelude/Lists.antt =====
-- Lists measured, indexed and filtered by native numbers and Boolean tests.
use Prim.Native.Nat.{ℕ, zero, suc, ◌+◌, ◌≤◌, ◌<◌}
use mathlib.Core.Path.{◌≡◌, refl, ap}
use mathlib.Core.Logic.{inl, inr}
use mathlib.Core.Bool.{Bool, true, false, ◌&&◌, ◌||◌}
use mathlib.Core.List.{List, [], ◌∷◌, ◌++◌, map}
use mathlib.Core.Option.{Option, none, some}
use native.Mathlib.Omega.{arith}
use prep_watchdeck.Prelude.Tests.{if◌then◌else◌, Bool-cases}

module _ {ℓ} {A : Type ℓ} where
  abbrev pub length : List A → ℕ
  length [] = 0
  length (x ∷ xs) = suc (length xs)

  abbrev pub get_elem? : List A → ℕ → Option A
  get_elem? [] i = none
  get_elem? (x ∷ xs) zero = some x
  get_elem? (x ∷ xs) (suc i) = get_elem? xs i

  abbrev pub take : ℕ → List A → List A
  take zero xs = []
  take (suc n) [] = []
  take (suc n) (x ∷ xs) = x ∷ take n xs

  -- The items that pass a Boolean test, in their order.
  abbrev pub filter : (A → Bool) → List A → List A
  filter p [] = []
  filter p (x ∷ xs) = let rest = filter p xs in if p x then x ∷ rest else rest

  abbrev pub any : (A → Bool) → List A → Bool
  any p [] = false
  any p (x ∷ xs) = p x || any p xs

  abbrev pub all : (A → Bool) → List A → Bool
  all p [] = true
  all p (x ∷ xs) = p x && all p xs

  -- How many items pass a Boolean test.
  abbrev pub count : (A → Bool) → List A → ℕ
  count p [] = 0
  count p (x ∷ xs) = let rest = count p xs in if p x then suc rest else rest

  abbrev pub All {κ} : (A → Type κ) → List A → Type κ
  All P [] = Unit
  All P (x ∷ xs) = P x × All P xs

  pub length-append : (xs ys : List A) → length (xs ++ ys) ≡ length xs + length ys
  length-append [] ys = omega arith
  length-append (x ∷ xs) ys = omega (arith, length-append xs ys)

  pub length-take-le : (n : ℕ) (xs : List A) → length (take n xs) ≤ n
  length-take-le zero xs = omega arith
  length-take-le (suc n) [] = omega arith
  length-take-le (suc n) (x ∷ xs) = omega (arith, length-take-le n xs)

  pub length-take : (n : ℕ) (xs : List A) → length xs ≤ n → take n xs ≡ xs
  length-take zero [] h = refl
  length-take zero (x ∷ xs) h = absurd (omega arith)
  length-take (suc n) [] h = refl
  length-take (suc n) (x ∷ xs) h = ap (λ (t : List A). x ∷ t) (length-take n xs (omega arith))

module _ {ℓ} {A : Type ℓ} where
  pub filter-append :
      (p : A → Bool) (xs ys : List A) → filter p (xs ++ ys) ≡ filter p xs ++ filter p ys
  filter-append p [] ys = refl
  filter-append p (x ∷ xs) ys = ground (arith, filter-append p xs ys)

  pub count-append : (p : A → Bool) (xs ys : List A) → count p (xs ++ ys) ≡ count p xs + count p ys
  count-append p [] ys = omega arith
  count-append p (x ∷ xs) ys = ground (arith, count-append p xs ys)

  pub length-filter : (p : A → Bool) (xs : List A) → length (filter p xs) ≡ count p xs
  length-filter p [] = refl
  length-filter p (x ∷ xs) = ground (arith, length-filter p xs)

  pub count-le-length : (p : A → Bool) (xs : List A) → count p xs ≤ length xs
  count-le-length p [] = omega arith
  count-le-length p (x ∷ xs) = ground (arith, count-le-length p xs)

  -- A test that is at least as strict counts no more.
  pub count_mono :
      (p q : A → Bool)
      → ((x : A) → p x ≡ true → q x ≡ true)
      → (xs : List A) → count p xs ≤ count q xs
  count_mono p q h [] = omega arith
  count_mono p q h (x ∷ xs) = ground (arith, count_mono p q h xs, h x)

  -- A second filter that is implied by the test of the first one changes nothing.
  pub filter-filter :
      (p q : A → Bool)
      → ((x : A) → p x ≡ true → q x ≡ true)
      → (xs : List A) → filter p (filter q xs) ≡ filter p xs
  filter-filter p q h [] = refl
  filter-filter p q h (x ∷ xs) = ground (arith, filter-filter p q h xs, h x)

  pub All-filter : (p : A → Bool) (xs : List A) → All (λ x. p x ≡ true) (filter p xs)
  All-filter p [] = tt
  All-filter p (x ∷ xs) = ground (arith, All-filter p xs)

  pub All-append {κ} : (P : A → Type κ) (xs ys : List A) → All P xs → All P ys → All P (xs ++ ys)
  All-append P [] ys hx hy = hy
  All-append P (x ∷ xs) ys hx hy = (hx.0, All-append P xs ys hx.1 hy)

  pub All-filter_of {κ} :
      (P : A → Type κ) (p : A → Bool) (xs : List A) → All P xs → All P (filter p xs)
  All-filter_of P p [] h = tt
  All-filter_of P p (x ∷ xs) h = elim (Bool-cases (p x)) [
    | inl e ↦ rw e (h.0, All-filter_of P p xs h.1)
    | inr e ↦ rw e (All-filter_of P p xs h.1)
  ]

  pub All-map {κ} : {P Q : A → Type κ} → ((x : A) → P x → Q x) → (xs : List A) → All P xs → All Q xs
  All-map f [] h = tt
  All-map f (x ∷ xs) h = (f x h.0, All-map f xs h.1)

  -- An index in range has an item, and that has what all items have.
  pub All-get_elem? {κ} :
      (P : A → Type κ) (xs : List A) (i : ℕ)
      → i < length xs
      → All P xs
      → (x : A) × (get_elem? xs i ≡ some x) × P x
  All-get_elem? P [] i h a = elim h [ ]
  All-get_elem? P (x ∷ xs) zero h a = (x, refl, a.0)
  All-get_elem? P (x ∷ xs) (suc i) h a = All-get_elem? P xs i (omega arith) a.1

  -- A test that implies two others counts no more than the first does on what passes the second.
  pub count-filter-ge :
      (p q r : A → Bool)
      → ((x : A) → p x ≡ true → (q x ≡ true) × (r x ≡ true))
      → (xs : List A) → count p xs ≤ count q (filter r xs)
  count-filter-ge p q r h [] = omega arith
  count-filter-ge p q r h (x ∷ xs) = ground (arith, count-filter-ge p q r h xs, h x)

  pub filter_accepts : (p : A → Bool) (xs : List A) → All (λ x. p x ≡ true) xs → filter p xs ≡ xs
  filter_accepts p [] h = refl
  filter_accepts p (x ∷ xs) h = rw (h.0, filter_accepts p xs h.1) refl

  pub filter_rejects : (p : A → Bool) (xs : List A) → All (λ x. p x ≡ false) xs → filter p xs ≡ []
  filter_rejects p [] h = refl
  filter_rejects p (x ∷ xs) h = rw (h.0, filter_rejects p xs h.1) refl

  pub filter_snoc :
      (p : A → Bool) (xs : List A) (x : A) → p x ≡ false → filter p (xs ++ x ∷ []) ≡ filter p xs
  filter_snoc p [] x h = ground (arith, h)
  filter_snoc p (y ∷ xs) x h = ground (arith, filter_snoc p xs x h)

  pub append_nil : (xs : List A) → xs ++ [] ≡ xs
  append_nil [] = refl
  append_nil (x ∷ xs) = ap (λ (t : List A). x ∷ t) (append_nil xs)

  pub All-take {κ} : (P : A → Type κ) (n : ℕ) (xs : List A) → All P xs → All P (take n xs)
  All-take P zero xs h = tt
  All-take P (suc n) [] h = tt
  All-take P (suc n) (x ∷ xs) h = (h.0, All-take P n xs h.1)

  pub count_cong :
      (p q : A → Bool) (xs : List A) → All (λ x. p x ≡ q x) xs → count p xs ≡ count q xs
  count_cong p q [] h = refl
  count_cong p q (x ∷ xs) h = rw (h.0, count_cong p q xs h.1) refl

  pub count-map :
      (p : A → Bool) (f : A → A) (xs : List A) → count p (map f xs) ≡ count (λ x. p (f x)) xs
  count-map p f [] = refl
  count-map p f (x ∷ xs) = rw (count-map p f xs) refl

  -- What is counted at most once is counted as often as it is found.
  pub count_once :
      (p : A → Bool) (xs : List A) → count p xs ≤ 1 → count p xs ≡ (if any p xs then 1 else 0)
  count_once p [] h = refl
  count_once p (x ∷ xs) h = ground (arith, count_once p xs, h)

  any_more :
      (R : A → A → Bool) (x : A) (xs more : List A)
      → All (λ i. any (R i) xs ≡ true) more
      → All (λ i. any (R i) (x ∷ xs) ≡ true) more
  any_more R x xs [] h = tt
  any_more R x xs (i ∷ more) h = (ground (arith, h.0), any_more R x xs more h.1)

  -- A relation that each item has to itself, it has to some item of the list.
  pub any_self :
      (R : A → A → Bool)
      → ((i : A) → R i i ≡ true)
      → (xs : List A) → All (λ i. any (R i) xs ≡ true) xs
  any_self R h [] = tt
  any_self R h (x ∷ xs) = (ground (arith, h x), any_more R x xs xs (any_self R h xs))
