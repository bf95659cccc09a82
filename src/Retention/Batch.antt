-- ===== src/Retention/Batch.antt =====
-- What one batch of deletions takes and what it leaves.
use prep_watchdeck.Prelude.{
  ℕ, zero, suc, ◌+◌, ◌≤◌, ◌<◌, ◌≡◌, refl, ◌∙◌, inl, inr, Bool, true, false, Option, none, some,
  List, [], ◌∷◌, arith, filter, any, count, Bool-cases, Option-cases, ◌==◌,
}
use prep_watchdeck.Retention.{oldest, remove_at, delete_batch, min_some}

min_some-none : (k : ℕ) (o : Option ℕ) → min_some k o ≡ none → ⊥
min_some-none k none h = cc
min_some-none k (some j) h = cc

module _ {ℓ} {A : Type ℓ} (doomed : A → Bool) (key : A → ℕ) where
  oldest-none : (rows : List A) → oldest doomed key rows ≡ none → count doomed rows ≡ 0
  unfolding oldest
  oldest-none [] h = refl
  oldest-none (r ∷ rows) h = elim (Bool-cases (doomed r)) [
    | inl e ↦ absurd (min_some-none (key r) (oldest doomed key rows) (rw e at h))
    | inr e ↦ rw e (oldest-none rows (rw e at h))
  ]

  oldest-some :
      (rows : List A) (k : ℕ)
      → oldest doomed key rows ≡ some k
      → count doomed (remove_at doomed key k rows) + 1 ≡ count doomed rows
  unfolding oldest remove_at
  oldest-some [] k h = absurd (cc)
  oldest-some (r ∷ rows) k h = elim (Option-cases (oldest doomed key rows)) [
    | inl e ↦ ground (arith, e)
    | inr (j, e) ↦ ground (arith, e, oldest-some rows j e, oldest-some rows k)
  ]

  -- rows that the test does not select stay, in their order
  remove_at-keeps :
      (q : A → Bool)
      → ((r : A) → q r ≡ true → doomed r ≡ false)
      → (k : ℕ) (rows : List A) → filter q (remove_at doomed key k rows) ≡ filter q rows
  unfolding remove_at
  remove_at-keeps q h k [] = refl
  remove_at-keeps q h k (r ∷ rows) = ground (arith, remove_at-keeps q h k rows, h r)

  pub delete_batch-keeps :
      (q : A → Bool)
      → ((r : A) → q r ≡ true → doomed r ≡ false)
      → (n : ℕ) (rows : List A) → filter q (delete_batch doomed key n rows).0 ≡ filter q rows
  unfolding delete_batch
  delete_batch-keeps q h zero rows = refl
  delete_batch-keeps q h (suc n) rows = elim (Option-cases (oldest doomed key rows)) [
    | inl e ↦ rw (e, delete_batch) refl
    | inr (k, e) ↦
        rw (e, delete_batch)
          (delete_batch-keeps q h n (remove_at doomed key k rows) ∙ remove_at-keeps q h k rows)
  ]

  remove_at-any :
      (q : A → Bool) (k : ℕ) (rows : List A)
      → any q (remove_at doomed key k rows) ≡ true
      → any q rows ≡ true
  unfolding remove_at
  remove_at-any q k [] h = h
  remove_at-any q k (r ∷ rows) h = ground (arith, remove_at-any q k rows)

  pub delete_batch-any :
      (q : A → Bool) (n : ℕ) (rows : List A)
      → any q (delete_batch doomed key n rows).0 ≡ true
      → any q rows ≡ true
  unfolding delete_batch
  delete_batch-any q zero rows h = h
  delete_batch-any q (suc n) rows h = elim (Option-cases (oldest doomed key rows)) [
    | inl e ↦ rw (e, delete_batch) at h
    | inr (k, e) ↦
        remove_at-any q k rows
          (delete_batch-any q n (remove_at doomed key k rows) (rw (e, delete_batch) at h))
  ]

  pub delete_batch-le : (n : ℕ) (rows : List A) → (delete_batch doomed key n rows).1 ≤ n
  unfolding delete_batch
  delete_batch-le zero rows = omega arith
  delete_batch-le (suc n) rows = elim (Option-cases (oldest doomed key rows)) [
    | inl e ↦ rw (e, delete_batch) (omega arith)
    | inr (k, e) ↦
        rw (e, delete_batch) (omega (arith, delete_batch-le n (remove_at doomed key k rows)))
  ]

  pub delete_batch-counts :
      (n : ℕ) (rows : List A)
      → count doomed (delete_batch doomed key n rows).0 + (delete_batch doomed key n rows).1
        ≡ count doomed rows
  unfolding delete_batch
  delete_batch-counts zero rows = omega arith
  delete_batch-counts (suc n) rows = elim (Option-cases (oldest doomed key rows)) [
    | inl e ↦ rw (e, delete_batch) (omega arith)
    | inr (k, e) ↦
        rw (e, delete_batch)
          (omega (arith, delete_batch-counts n (remove_at doomed key k rows), oldest-some rows k e))
  ]

  -- a batch that is not full leaves nothing behind
  pub delete_batch-exhausts :
      (n : ℕ) (rows : List A)
      → (delete_batch doomed key n rows).1 < n
      → count doomed (delete_batch doomed key n rows).0 ≡ 0
  unfolding delete_batch
  delete_batch-exhausts zero rows h = absurd (omega arith)
  delete_batch-exhausts (suc n) rows h = elim (Option-cases (oldest doomed key rows)) [
    | inl e ↦ rw (e, delete_batch) (oldest-none rows e)
    | inr (k, e) ↦
        rw (e, delete_batch)
          (delete_batch-exhausts n (remove_at doomed key k rows)
            (let h' = rw (e, delete_batch) at h in omega (arith, h')))
  ]

  pub full_or_exhausted :
      (n : ℕ) (rows : List A)
      → ((delete_batch doomed key n rows).1 == n) ≡ false
      → count doomed (delete_batch doomed key n rows).0 ≡ 0
  full_or_exhausted n rows h =
      delete_batch-exhausts n rows (ground (arith, h, delete_batch-le n rows))
