-- ===== src/Selection/Fresh.antt =====
-- What is subscribed is the latest request, due and not expired.
use prep_watchdeck.Prelude.{
  ℕ, ◌+◌, ◌≤◌, ◌<◌, ◌≡◌, refl, inl, inr, false, Option, none, some, arith, Bool-cases, ltb,
  if◌then◌else◌,
}
use prep_watchdeck.Selection.{
  ActiveSelection, PendingSelection, Phase, replacing, subscribing, Controller, Outcome, reconciled,
}
use prep_watchdeck.Selection.Reconcile
use prep_watchdeck.Selection.Reconcile.{Cleanup, cleaned, timed_out, failed, is_over, expiry_or}

abbrev pub Agrees : Option PendingSelection → PendingSelection → Type 0
Agrees none p = Unit
Agrees (some q) p = q.revision ≡ p.revision → q ≡ p

abbrev pub Bounded : Option PendingSelection → ℕ → Type 0
Bounded none revision = Unit
Bounded (some q) revision = q.revision ≤ revision

-- a request that was taken from `_pending` before an await
abbrev pub Snapshot : ℕ → PendingSelection → ℕ → ℕ → Option PendingSelection → Type 0
Snapshot now p expires revision pending =
    (p.activate_at ≤ now) × (now < expires) × (p.revision ≤ revision) × Agrees pending p

abbrev pub Waits : Phase → ℕ → Option PendingSelection → Type 0
Waits (replacing now p x t) revision pending = Snapshot now p x revision pending
Waits (subscribing now p x id) revision pending = Snapshot now p x revision pending
Waits _ revision pending = Unit

pub record IsFresh (c : Controller) : Type 0 where
  pub lives : 0 < c.settings.ttl
  pub bounded : Bounded c.pending c.revision
  pub waits : Waits c.phase c.revision c.pending

pub leave-IsFresh :
    (o : Outcome) (c : Controller)
    → 0 < c.settings.ttl
    → Bounded c.pending c.revision
    → IsFresh (Reconcile.leave o c).1
leave-IsFresh o c l b = record { lives = l; bounded = b; waits = tt }

module _ (now : ℕ) (p : PendingSelection) (expires : ℕ) (c : Controller)
    (lives : 0 < c.settings.ttl) (bounded : Bounded c.pending c.revision)
    (s : Snapshot now p expires c.revision c.pending) where
  pub start-IsFresh : IsFresh (Reconcile.start_subscribe now p expires c).1
  unfolding Reconcile.start_subscribe
  start-IsFresh = elim (Bool-cases (Reconcile.same_revision c.pending p)) [
    | inl e ↦ rw e (record { lives = lives; bounded = bounded; waits = s })
    | inr e ↦ rw e (leave-IsFresh (reconciled c.active) c lives bounded)
  ]

  cleared : Bounded (if Reconcile.same_revision c.pending p then none else c.pending) c.revision
  cleared = elim (Bool-cases (Reconcile.same_revision c.pending p)) [
    | inl e ↦ rw e tt
    | inr e ↦ rw e bounded
  ]

  activate-IsFresh :
      (active : Option ActiveSelection) → IsFresh (Reconcile.activate now p expires active c).1
  unfolding Reconcile.activate
  activate-IsFresh none = start-IsFresh
  activate-IsFresh (some a) = elim (Bool-cases (Reconcile.same_group a p)) [
    | inl e ↦ rw e (record { lives = lives; bounded = cleared; waits = tt })
    | inr e ↦ rw e (record { lives = lives; bounded = bounded; waits = s })
  ]

expiry_after :
    (now ttl : ℕ) (x : Option ℕ) → 0 < ttl → is_over now x ≡ false → now < expiry_or (now + ttl) x
expiry_after now ttl none l e = omega arith
expiry_after now ttl (some x) l e = ground (arith, e)

pub pending-IsFresh :
    (now : ℕ) (pending : Option PendingSelection) (c : Controller)
    → c.pending ≡ pending
    → 0 < c.settings.ttl
    → Bounded c.pending c.revision
    → IsFresh (Reconcile.reconcile_pending now pending c).1
unfolding Reconcile.reconcile_pending
pending-IsFresh now none c e l b = leave-IsFresh (reconciled c.active) c l b
pending-IsFresh now (some p) c e l b = elim (Bool-cases (ltb now p.activate_at)) [
  | inl d ↦ rw d (leave-IsFresh (reconciled c.active) c l b)
  | inr d ↦ rw d (elim (Bool-cases (is_over now p.expires_at)) [
    | inl o ↦ rw o (leave-IsFresh (reconciled c.active) (record c { pending = none }) l tt)
    | inr o ↦ rw o (
        activate-IsFresh now p _ c l b
          (
            ground (arith, d),
            expiry_after now c.settings.ttl p.expires_at l o,
            simp e at b,
            simp e (λ k. refl),
          )
          c.active)
  ])
]
