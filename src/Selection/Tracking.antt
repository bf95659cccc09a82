-- ===== src/Selection/Tracking.antt =====
-- No subscription is forgotten: at most one is open, and the controller can name it.
use prep_watchdeck.Prelude.{
  ℕ, ◌≡◌, refl, ◌⊎◌, inl, inr, true, false, Option, none, some, List, [], ◌∷◌, arith, Bool-cases,
  ltb,
}
use prep_watchdeck.Selection.{
  ActiveSelection, PendingSelection, Phase, idle, expiring, replacing, subscribing, discarding,
  stopping, Controller,
}
use prep_watchdeck.Selection.Reconcile
use prep_watchdeck.Selection.Reconcile.{
  Cleanup, cleaned, timed_out, failed, start_subscribe, activate, reconcile_pending, release,
  after_cleanup, after_subscribe, cleanup_done,
}
use prep_watchdeck.Selection.Trace.{Event, Ledger, account, close, lose, without}

-- nothing is open but perhaps the id
abbrev pub AtMost : ℕ → List ℕ → Type 0
AtMost id opened = (opened ≡ []) ⊎ (opened ≡ id ∷ [])

abbrev pub Held : Option ActiveSelection → List ℕ → Type 0
Held none opened = opened ≡ []
Held (some a) opened = AtMost a.selection_id opened

abbrev pub Names : Option ActiveSelection → ActiveSelection → Type 0
Names none target = ⊥
Names (some a) target = a.selection_id ≡ target.selection_id

abbrev pub Tracked : Phase → Option ActiveSelection → List ℕ → Type 0
Tracked idle active opened = Held active opened
Tracked (expiring _ t) active opened = AtMost t.selection_id opened × Names active t
Tracked (replacing _ _ _ t) active opened = AtMost t.selection_id opened × Names active t
Tracked (stopping t) active opened = AtMost t.selection_id opened × Names active t
Tracked (subscribing _ _ _ id) active opened = opened ≡ []
Tracked (discarding t) active opened = opened ≡ t.selection_id ∷ []

pub Held-nil : (active : Option ActiveSelection) → Held active []
Held-nil none = refl
Held-nil (some a) = inl refl

start-Tracked :
    (now : ℕ) (p : PendingSelection) (expires : ℕ) (c : Controller)
    → let c' = (start_subscribe now p expires c).1 in Tracked c'.phase c'.active []
unfolding start_subscribe
start-Tracked now p expires c = elim (Bool-cases (Reconcile.same_revision c.pending p)) [
  | inl e ↦ rw e refl
  | inr e ↦ rw e (Held-nil c.active)
]

module _ (opened : List ℕ) (now : ℕ) where
  activate-Tracked :
      (p : PendingSelection) (expires : ℕ) (active : Option ActiveSelection) (c : Controller)
      → c.active ≡ active
      → Held active opened
      → let c' = (activate now p expires active c).1 in Tracked c'.phase c'.active opened
  unfolding activate
  activate-Tracked p expires none c e h = rw h (start-Tracked now p expires c)
  activate-Tracked p expires (some a) c e h = elim (Bool-cases (Reconcile.same_group a p)) [
    | inl s ↦ rw s h
    | inr s ↦ rw s (h, simp e refl)
  ]

  pub pending-Tracked :
      (pending : Option PendingSelection) (c : Controller)
      → Held c.active opened
      → let c' = (reconcile_pending now pending c).1 in Tracked c'.phase c'.active opened
  unfolding reconcile_pending
  pending-Tracked none c h = h
  pending-Tracked (some p) c h = elim (Bool-cases (ltb now p.activate_at)) [
    | inl e ↦ rw e h
    | inr e ↦ rw e (elim (Bool-cases (Reconcile.is_over now p.expires_at)) [
      | inl o ↦ rw o h
      | inr o ↦ rw o (activate-Tracked p _ c.active c refl h)
    ])
  ]

-- an open subscription that is closed is gone
without-AtMost : (id : ℕ) (opened : List ℕ) → AtMost id opened → without id opened ≡ []
without-AtMost id opened (inl e) = rw e
without-AtMost id opened (inr e) = rw e (ground arith)

after_cleanup-Tracked :
    (p : Phase) (c : Controller) (l : Ledger)
    → Reconcile.is_cleaning p ≡ true
    → c.phase ≡ p
    → Tracked p c.active l.opened
    → let c' = (after_cleanup p c).1 in Tracked c'.phase c'.active (close p l).opened
unfolding after_cleanup
after_cleanup-Tracked idle c l k e h = absurd (cc)
after_cleanup-Tracked (subscribing now p x id) c l k e h = absurd (cc)
after_cleanup-Tracked (expiring now t) c l k e h =
    rw (without-AtMost t.selection_id l.opened h.0)
      (pending-Tracked [] now c.pending (release t c) (Held-nil (release t c).active))
after_cleanup-Tracked (replacing now p x t) c l k e h =
    rw (without-AtMost t.selection_id l.opened h.0) (start-Tracked now p x (release t c))
after_cleanup-Tracked (discarding t) c l k e h =
    rw (without-AtMost t.selection_id l.opened (inr h)) (Held-nil c.active)
after_cleanup-Tracked (stopping t) c l k e h =
    rw (without-AtMost t.selection_id l.opened h.0) (Held-nil (release t c).active)

Names-Held :
    (active : Option ActiveSelection) (t : ActiveSelection) (opened : List ℕ)
    → AtMost t.selection_id opened
    → Names active t
    → Held active opened
Names-Held none t opened h n = absurd n
Names-Held (some a) t opened h n = rw n h

-- a cleanup that raised keeps the selection, unless it was stale
raised-Held :
    (p : Phase) (c : Controller) (l : Ledger)
    → Reconcile.is_cleaning p ≡ true
    → Tracked p c.active l.opened
    → Held c.active (lose p l).opened
raised-Held idle c l k h = absurd (cc)
raised-Held (subscribing now p x id) c l k h = absurd (cc)
raised-Held (expiring now t) c l k h = Names-Held c.active t l.opened h.0 h.1
raised-Held (replacing now p x t) c l k h = Names-Held c.active t l.opened h.0 h.1
raised-Held (discarding t) c l k h =
    rw (without-AtMost t.selection_id l.opened (inr h)) (Held-nil c.active)
raised-Held (stopping t) c l k h = Names-Held c.active t l.opened h.0 h.1

uncleaning :
    (p : Phase) (l : Ledger) → Reconcile.is_cleaning p ≡ false → (close p l ≡ l) × (lose p l ≡ l)
uncleaning idle l k = (refl, refl)
uncleaning (subscribing now p x id) l k = (refl, refl)
uncleaning (expiring now t) l k = absurd (cc)
uncleaning (replacing now p x t) l k = absurd (cc)
uncleaning (discarding t) l k = absurd (cc)
uncleaning (stopping t) l k = absurd (cc)

blocked_cleanup :
    (p : Phase) (c : Controller) → Reconcile.is_cleaning p ≡ false → (after_cleanup p c).1 ≡ c
unfolding after_cleanup
blocked_cleanup idle c k = refl
blocked_cleanup (subscribing now p x id) c k = refl
blocked_cleanup (expiring now t) c k = absurd (cc)
blocked_cleanup (replacing now p x t) c k = absurd (cc)
blocked_cleanup (discarding t) c k = absurd (cc)
blocked_cleanup (stopping t) c k = absurd (cc)

pub cleanup-Tracked :
    (how : Cleanup) (c : Controller) (l : Ledger)
    → Tracked c.phase c.active l.opened
    → let c' = (cleanup_done how c).1 in
      Tracked c'.phase c'.active (account (Event.cleanup_done how) c.phase l).opened
unfolding cleanup_done
cleanup-Tracked cleaned c l h = elim (Bool-cases (Reconcile.is_cleaning c.phase)) [
  | inl k ↦ after_cleanup-Tracked c.phase c l k refl h
  | inr k ↦ rw ((uncleaning c.phase l k).0) (rw (blocked_cleanup c.phase c k) h)
]
cleanup-Tracked timed_out c l h = elim (Bool-cases (Reconcile.is_cleaning c.phase)) [
  | inl k ↦ rw k (raised-Held c.phase c l k h)
  | inr k ↦ rw (k, (uncleaning c.phase l k).1) h
]
cleanup-Tracked failed c l h = elim (Bool-cases (Reconcile.is_cleaning c.phase)) [
  | inl k ↦ rw k (raised-Held c.phase c l k h)
  | inr k ↦ rw (k, (uncleaning c.phase l k).1) h
]
