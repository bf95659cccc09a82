-- ===== src/MexcBudget/Window.antt =====
-- The window holds in every run of transactions on one file.
use prep_watchdeck.Prelude.{
  ℕ, zero, suc, ◌+◌, ◌≤◌, ◌≡◌, refl, ap, ◌∙◌, false, Option, none, some, List, [], ◌∷◌, ◌++◌, arith,
  filter, All-filter, filter-append, filter-filter, inl, inr, ltb, Bool-cases, ◌==◌, Result, ok,
  err,
}
use Prim.Native.Nat.{max}
use mathlib.Core.List.{append-nil}
use prep_watchdeck.MexcBudget.{
  Attempt, BudgetLane, BudgetError, Meta, Database, order_by_time, is_recent, admission_delay,
  admit, extend_cooldown, after_clock, check_meta, open_admission, settle, transaction, fresh_meta,
  application_id, create_tables,
}
use prep_watchdeck.MexcBudget.Order.{room_of_no_delay}
use prep_watchdeck.MexcBudget.Limits.{
  Call, granted, step, run, new_file, KeepsLimits, KeepsLimits-append,
}

-- The rows show, of the log, all that is recent at the clock or later.
abbrev Mirrors : ℕ → List Attempt → List Attempt → Type 0
Mirrors clock rows log =
    (now : ℕ) → clock ≤ now → filter (is_recent now) rows ≡ filter (is_recent now) log

Mirrors-purge :
    (clock now : ℕ) (rows log : List Attempt)
    → clock ≤ now
    → Mirrors clock rows log
    → Mirrors now (filter (is_recent now) rows) log
Mirrors-purge clock now rows log c m later h =
    filter-filter (is_recent later) (is_recent now) (λ a e. ground (arith, e)) rows
    ∙ m later (omega arith)

Mirrors-append :
    (clock : ℕ) (rows log new : List Attempt)
    → Mirrors clock rows log
    → Mirrors clock (rows ++ new) (log ++ new)
Mirrors-append clock rows log new m later h =
    rw (filter-append (is_recent later) rows new, filter-append (is_recent later) log new)
      (ap (λ (l : List Attempt). l ++ filter (is_recent later) new) (m later h))

record IsSound (db : Database) (log : List Attempt) : Type 0 where
  opened : db.application ≡ application_id
  meta : Meta
  meta_eq : db.meta ≡ some meta
  version_eq : meta.version ≡ 1
  mirrors : Mirrors meta.last_clock_ms db.attempts log
  limits : KeepsLimits log

granted_wait :
    (lane : BudgetLane) (now delay : ℕ)
    → (delay == 0) ≡ false
    → granted (some lane) now (ok delay) ≡ []
granted_wait lane now zero h = absurd (ground (arith, h))
granted_wait lane now (suc d) h = refl

module _ (now : ℕ) (meta : Meta) (db : Database) (log : List Attempt)
    (is_open : db.application ≡ application_id) (version_eq : meta.version ≡ 1)
    (mirrors : Mirrors meta.last_clock_ms db.attempts log) (limits : KeepsLimits log)
    (clock : meta.last_clock_ms ≤ now) where
  admit-IsSound :
      (lane : BudgetLane)
      → let (delay, db') = admit lane now meta db in
        IsSound db' (log ++ granted (some lane) now (ok delay))
  unfolding admit
  admit-IsSound lane =
      let kept = filter (is_recent now) db.attempts in
      let delay = admission_delay now lane meta (order_by_time kept) in
      let mirror = Mirrors-purge meta.last_clock_ms now db.attempts log clock mirrors in
      let same : kept ≡ filter (is_recent now) log = mirrors now clock in
      elim (Bool-cases (delay == 0)) [
        | inl e ↦
            let room =
              room_of_no_delay now lane meta kept (All-filter (is_recent now) db.attempts)
                (ground (arith, e)) in
            rw e (record {
              opened = is_open;
              meta = record meta { last_clock_ms = now };
              meta_eq = refl;
              version_eq = version_eq;
              mirrors =
                  Mirrors-append now kept log (record { at_ms = now; lane = lane } ∷ []) mirror;
              limits =
                  KeepsLimits-append lane now log (rw (← same) room.0) (rw (← same) room.1) limits;
            })
        | inr e ↦ rw e (
            rw (granted_wait lane now delay e, append-nil)
              (record {
                opened = is_open;
                meta = record meta { last_clock_ms = now };
                meta_eq = refl;
                version_eq = version_eq;
                mirrors = mirror;
                limits = limits;
              }))
      ]

  cooldown-IsSound :
      (cooldown_ms : ℕ) → IsSound (extend_cooldown cooldown_ms now meta db).1 (log ++ [])
  unfolding extend_cooldown
  cooldown-IsSound cooldown_ms = rw append-nil (record {
    opened = is_open;
    meta = record {
      version = meta.version;
      last_clock_ms = now;
      cooldown_until_ms = max meta.cooldown_until_ms (now + cooldown_ms);
    };
    meta_eq = refl;
    version_eq = version_eq;
    mirrors = λ later h. mirrors later (omega arith);
    limits = limits;
  })

  after_clock-IsSound :
      (lane : Option BudgetLane) (cooldown_ms : ℕ)
      → let (delay, db') = after_clock lane cooldown_ms now meta db in
        IsSound db' (log ++ granted lane now (ok delay))
  unfolding after_clock
  after_clock-IsSound none cooldown_ms = cooldown-IsSound cooldown_ms
  after_clock-IsSound (some lane) cooldown_ms = admit-IsSound lane

granted_err : (lane : Option BudgetLane) (now : ℕ) (e : BudgetError) → granted lane now (err e) ≡ []
granted_err none now e = refl
granted_err (some lane) now e = refl

granted-none : (now : ℕ) (r : Result BudgetError ℕ) → granted none now r ≡ []
granted-none now r = refl

-- What `settle` keeps of a checked transaction that starts from a sound file.
check_meta-IsSound :
    (c : Call) (db : Database) (log : List Attempt)
    → IsSound db log
    → let (r, db') = settle db (check_meta c.lane c.cooldown_ms c.now db.meta db) in
      IsSound db' (log ++ granted c.lane c.now r)
unfolding check_meta
check_meta-IsSound c db log s = simp s.meta_eq (
    simp s.version_eq (elim (Bool-cases (ltb c.now s.meta.last_clock_ms)) [
      | inl e ↦ rw e (rw (granted_err c.lane c.now BudgetError.unavailable, append-nil) s)
      | inr e ↦ rw e (
          after_clock-IsSound c.now s.meta db log s.opened s.version_eq s.mirrors s.limits
            (ground (arith, e)) c.lane c.cooldown_ms)
    ]))

step-IsSound :
    (c : Call) (w : Database × List Attempt) → IsSound w.0 w.1 → IsSound (step c w).0 (step c w).1
unfolding transaction open_admission
step-IsSound c w s = simp s.opened (check_meta-IsSound c w.0 w.1 s)

run-IsSound :
    (calls : List Call) (w : Database × List Attempt)
    → IsSound w.0 w.1
    → KeepsLimits (run calls w).1
unfolding run
run-IsSound [] w s = s.limits
run-IsSound (c ∷ calls) w s = run-IsSound calls (step c w) (step-IsSound c w s)

KeepsLimits-nil : KeepsLimits []
KeepsLimits-nil = record { whole = λ t. omega arith; part = λ t lane. omega arith }

-- The first transaction creates the tables.
first-IsSound : (c : Call) → IsSound (step c (new_file, [])).0 (step c (new_file, [])).1
unfolding transaction open_admission check_meta
first-IsSound c =
    let e : ltb c.now 0 ≡ false = ground arith in
    simp e (
      after_clock-IsSound c.now fresh_meta (create_tables new_file) [] refl refl (λ later h. refl)
        KeepsLimits-nil (omega arith) c.lane c.cooldown_ms)

-- Whatever lanes and cooldowns the processes ask for, and whatever their clocks read (also
-- backwards), of the requests that were ever admitted on one file at most 8 lie in any window of
-- 2,000 ms, and of each lane at most its limit.
pub run-KeepsLimits : (calls : List Call) → KeepsLimits (run calls (new_file, [])).1
unfolding run
run-KeepsLimits [] = KeepsLimits-nil
run-KeepsLimits (c ∷ calls) = run-IsSound calls (step c (new_file, [])) (first-IsSound c)
