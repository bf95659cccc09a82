-- ===== src/Candle/Received.antt =====
-- Reducing candles by key does not change the preferred candle of a row.
use prep_watchdeck.Prelude.{
  ◌≡◌, refl, sym, ap, ◌∙◌, inl, inr, Bool, true, false, Option, some, List, [], ◌∷◌, arith,
  Bool-cases, All,
}
use prep_watchdeck.Candle.{Candle1m, preferred_candle, same_key}
use prep_watchdeck.Candle.Preference.{preferred_assoc}
use prep_watchdeck.Candle.Writer.{put_preferred, insert_by_key, sort_by_key, key_before}
use prep_watchdeck.Candle.Unique.{
  UniqueKeys, put_preferred-UniqueKeys, All-sort_by_key, All-put_preferred,
}

-- what is pending after the candles were received, with no flush between
unfoldable pub receive : List Candle1m → List Candle1m → List Candle1m
receive [] pending = pending
receive (c ∷ items) pending = receive items (put_preferred c pending)

-- the candles of a row, met one after another
abbrev pub prefer_if : Bool → Option Candle1m → Candle1m → Option Candle1m
prefer_if true o c = some (preferred_candle o c)
prefer_if false o c = o

unfoldable pub prefer_all : (Candle1m → Bool) → Option Candle1m → List Candle1m → Option Candle1m
prefer_all p o [] = o
prefer_all p o (c ∷ candles) = prefer_all p (prefer_if (p c) o c) candles

pub prefer_all-cong :
    (p q : Candle1m → Bool) (l : List Candle1m) (o : Option Candle1m)
    → All (λ c. p c ≡ q c) l
    → prefer_all p o l ≡ prefer_all q o l
unfolding prefer_all
prefer_all-cong p q [] o h = refl
prefer_all-cong p q (c ∷ l) o h =
    ap (λ b. prefer_all p (prefer_if b o c) l) h.0 ∙ prefer_all-cong p q l (prefer_if (q c) o c) h.1

pub All-receive :
    (P : Candle1m → Type 0) (items pending : List Candle1m)
    → All P items
    → All P pending
    → All P (receive items pending)
unfolding receive
All-receive P [] pending h k = k
All-receive P (c ∷ items) pending h k =
    All-receive P items (put_preferred c pending) h.1 (All-put_preferred P c pending h.0 k)

pub receive-UniqueKeys :
    (items pending : List Candle1m) → UniqueKeys pending → UniqueKeys (receive items pending)
unfolding receive
receive-UniqueKeys [] pending u = u
receive-UniqueKeys (c ∷ items) pending u =
    receive-UniqueKeys items (put_preferred c pending) (put_preferred-UniqueKeys c pending u)

module _ (p : Candle1m → Bool) (respects : (a b : Candle1m) → same_key a b ≡ true → p a ≡ p b)
    (single : (a b : Candle1m) → p a ≡ true → p b ≡ true → same_key a b ≡ true) where
  -- candles of other keys than one that goes to the row do not
  skips :
      (o : Option Candle1m) (c : Candle1m) (l : List Candle1m)
      → p c ≡ true
      → All (λ d. same_key c d ≡ false) l
      → prefer_all p o l ≡ o
  unfolding prefer_all
  skips o c [] h a = refl
  skips o c (d ∷ l) h a = elim (Bool-cases (p d)) [
    | inl e ↦ absurd (ground (arith, single c d h e, a.0))
    | inr e ↦ rw e (skips o c l h a.1)
  ]

  preferred_respects :
      (d c : Candle1m) → same_key d c ≡ true → p (preferred_candle (some d) c) ≡ p d
  unfolding preferred_candle
  preferred_respects d c h = ground (arith, respects d c h)

  skip_first :
      (o : Option Candle1m) (d x : Candle1m) (l : List Candle1m)
      → p d ≡ false
      → p x ≡ false
      → (c : Candle1m) → p c ≡ false
      → prefer_all p (prefer_if (p x) o x) l
        ≡ prefer_if (p c) (prefer_all p (prefer_if (p d) o d) l) c
  skip_first o d x l hd hx c hc = rw (hd, hx, hc) refl

  merge_first :
      (o : Option Candle1m) (d c : Candle1m) (b : Bool)
      → p d ≡ true
      → p c ≡ true
      → b ≡ true
      → prefer_if b o (preferred_candle (some d) c) ≡ prefer_if (p c) (prefer_if (p d) o d) c
  merge_first o d c b hd hc hb =
      rw (hb, hc, hd) (ap (λ (x : Candle1m). some x) (preferred_assoc o d c))

  merged :
      (o : Option Candle1m) (d c : Candle1m) (pending : List Candle1m)
      → same_key d c ≡ true
      → All (λ x. same_key d x ≡ false) pending
      → prefer_all p o (preferred_candle (some d) c ∷ pending)
        ≡ prefer_if (p c) (prefer_all p o (d ∷ pending)) c
  unfolding prefer_all
  merged o d c pending e u = elim (Bool-cases (p d)) [
    | inr k ↦
        skip_first o d (preferred_candle (some d) c) pending k (preferred_respects d c e ∙ k) c
          (sym (respects d c e) ∙ k)
    | inl k ↦
        skips _ d pending k u
        ∙ merge_first o d c (p (preferred_candle (some d) c)) k (sym (respects d c e) ∙ k)
            (preferred_respects d c e ∙ k)
        ∙ ap (λ (y : Option Candle1m). prefer_if (p c) y c)
            (sym (skips (prefer_if (p d) o d) d pending k u))
  ]

  put_prefers :
      (o : Option Candle1m) (c : Candle1m) (pending : List Candle1m)
      → UniqueKeys pending
      → prefer_all p o (put_preferred c pending) ≡ prefer_if (p c) (prefer_all p o pending) c
  unfolding prefer_all put_preferred
  put_prefers o c [] u = refl
  put_prefers o c (d ∷ pending) u = elim (Bool-cases (same_key d c)) [
    | inr e ↦ rw e (put_prefers (prefer_if (p d) o d) c pending u.1)
    | inl e ↦ rw e (merged o d c pending e u.0)
  ]

  -- the order of a sort does not matter, since one candle at most goes to the row
  insert_prefers :
      (o : Option Candle1m) (c : Candle1m) (l : List Candle1m)
      → All (λ d. same_key c d ≡ false) l
      → prefer_all p o (insert_by_key c l) ≡ prefer_all p o (c ∷ l)
  unfolding prefer_all insert_by_key
  insert_prefers o c [] a = refl
  insert_prefers o c (d ∷ l) a = elim (Bool-cases (key_before d c)) [
    | inr e ↦ rw e refl
    | inl e ↦ rw e (
        insert_prefers (prefer_if (p d) o d) c l a.1
        ∙ ap (λ (y : Option Candle1m). prefer_all p y l) (swap o c d a.0))
  ]
    where
      swap :
          (o : Option Candle1m) (c d : Candle1m)
          → same_key c d ≡ false
          → prefer_if (p c) (prefer_if (p d) o d) c ≡ prefer_if (p d) (prefer_if (p c) o c) d
      swap o c d k = elim (Bool-cases (p c)) [
        | inr n ↦ rw n refl
        | inl y ↦ elim (Bool-cases (p d)) [
          | inr n ↦ rw n refl
          | inl z ↦ absurd (ground (arith, single c d y z, k))
        ]
      ]

  pub sort_prefers :
      (l : List Candle1m) (o : Option Candle1m)
      → UniqueKeys l
      → prefer_all p o (sort_by_key l) ≡ prefer_all p o l
  unfolding prefer_all sort_by_key
  sort_prefers [] o u = refl
  sort_prefers (c ∷ l) o u =
      insert_prefers o c (sort_by_key l) (All-sort_by_key (λ d. same_key c d ≡ false) l u.0)
      ∙ sort_prefers l (prefer_if (p c) o c) u.1

  pub receive_prefers :
      (o : Option Candle1m) (items pending : List Candle1m)
      → UniqueKeys pending
      → prefer_all p o (receive items pending) ≡ prefer_all p (prefer_all p o pending) items
  unfolding prefer_all receive
  receive_prefers o [] pending u = refl
  receive_prefers o (c ∷ items) pending u =
      receive_prefers o items (put_preferred c pending) (put_preferred-UniqueKeys c pending u)
      ∙ ap (λ (y : Option Candle1m). prefer_all p y items) (put_prefers o c pending u)
