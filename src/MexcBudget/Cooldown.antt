-- ===== src/MexcBudget/Cooldown.antt =====
-- A cooldown holds for every process that shares the file.
use Prim.Native.Nat.{max}
use prep_watchdeck.Prelude.{
  ℕ, zero, suc, ◌+◌, ◌≤◌, ◌≡◌, refl, false, Option, none, some, List, [], ◌∷◌, ◌++◌, arith, filter,
  All, All-append, All-filter, inl, inr, ltb, Bool-cases, ◌==◌, ok, err,
}
use prep_watchdeck.MexcBudget.{
  Attempt, BudgetLane, BudgetError, Meta, Database, order_by_time, is_recent, admission_delay,
  admit, extend_cooldown, after_clock, check_meta, open_admission, settle, transaction,
  application_id, fresh_meta, create_tables,
}
use prep_watchdeck.MexcBudget.Order.{room_of_no_delay}
use prep_watchdeck.MexcBudget.Limits.{Call, granted, run}

-- the requests that a run admits, without those before it
abbrev pub requests : List Call → Database → List Attempt
requests calls db = (run calls (db, [])).1

abbrev NotBefore : ℕ → List Attempt → Type 0
NotBefore c = All (λ a. c ≤ a.at_ms)

pub record IsCooling (c : ℕ) (db : Database) : Type 0 where
  pub opened : db.application ≡ application_id
  pub meta : Meta
  pub meta_eq : db.meta ≡ some meta
  pub until : c ≤ meta.cooldown_until_ms

record Holds (c : ℕ) (db : Database) (new : List Attempt) : Type 0 where
  cooling : IsCooling c db
  late : NotBefore c new

admit-Holds :
    (c now : ℕ) (lane : BudgetLane) (meta : Meta) (db : Database)
    → db.application ≡ application_id
    → c ≤ meta.cooldown_until_ms
    → let (delay, db') = admit lane now meta db in Holds c db' (granted (some lane) now (ok delay))
unfolding admit
admit-Holds c now lane meta db o u =
    let kept = filter (is_recent now) db.attempts in
    let cool = record meta { last_clock_ms = now } in
    elim (Bool-cases (admission_delay now lane meta (order_by_time kept) == 0)) [
      | inl e ↦
          let room =
            room_of_no_delay now lane meta kept (All-filter (is_recent now) db.attempts)
              (ground (arith, e)) in
          rw e (record {
            cooling = record { opened = o; meta = cool; meta_eq = refl; until = u };
            late = (omega arith, tt);
          })
      | inr e ↦ rw e (record {
        cooling = record { opened = o; meta = cool; meta_eq = refl; until = u };
        late = late_of_wait (admission_delay now lane meta (order_by_time kept)) e;
      })
    ]
  where
    late_of_wait : (d : ℕ) → (d == 0) ≡ false → NotBefore c (granted (some lane) now (ok d))
    late_of_wait zero e = absurd (ground (arith, e))
    late_of_wait (suc d) e = tt

after_clock-Holds :
    (c now cooldown_ms : ℕ) (lane : Option BudgetLane) (meta : Meta) (db : Database)
    → db.application ≡ application_id
    → c ≤ meta.cooldown_until_ms
    → let (delay, db') = after_clock lane cooldown_ms now meta db in
      Holds c db' (granted lane now (ok delay))
unfolding after_clock extend_cooldown
after_clock-Holds c now cooldown_ms none meta db o u = record {
  cooling = record {
    opened = o;
    meta = record {
      version = meta.version;
      last_clock_ms = now;
      cooldown_until_ms = max meta.cooldown_until_ms (now + cooldown_ms);
    };
    meta_eq = refl;
    until = omega arith;
  };
  late = tt;
}
after_clock-Holds c now cooldown_ms (some lane) meta db o u = admit-Holds c now lane meta db o u

err-Holds :
    (c : ℕ) (lane : Option BudgetLane) (now : ℕ) (e : BudgetError) (db : Database)
    → IsCooling c db
    → Holds c db (granted lane now (err e))
err-Holds c none now e db h = record { cooling = h; late = tt }
err-Holds c (some lane) now e db h = record { cooling = h; late = tt }

check_meta-Holds :
    (c : ℕ) (call : Call) (db : Database)
    → IsCooling c db
    → let (r, db') = settle db (check_meta call.lane call.cooldown_ms call.now db.meta db) in
      Holds c db' (granted call.lane call.now r)
unfolding check_meta
check_meta-Holds c call db h = simp h.meta_eq (elim (Bool-cases (h.meta.version == 1)) [
  | inr e ↦ rw e (err-Holds c call.lane call.now BudgetError.unavailable db h)
  | inl v ↦ rw v (elim (Bool-cases (ltb call.now h.meta.last_clock_ms)) [
    | inl e ↦ rw e (err-Holds c call.lane call.now BudgetError.unavailable db h)
    | inr e ↦
        rw e (after_clock-Holds c call.now call.cooldown_ms call.lane h.meta db h.opened h.until)
  ])
])

step-Holds :
    (c : ℕ) (call : Call) (db : Database)
    → IsCooling c db
    → let (r, db') = transaction call.lane call.cooldown_ms call.now db in
      Holds c db' (granted call.lane call.now r)
unfolding transaction open_admission
step-Holds c call db h = simp h.opened (check_meta-Holds c call db h)

run-NotBefore :
    (c : ℕ) (calls : List Call) (db : Database) (log : List Attempt)
    → IsCooling c db
    → NotBefore c log
    → NotBefore c (run calls (db, log)).1
unfolding run
run-NotBefore c [] db log h l = l
run-NotBefore c (call ∷ calls) db log h l =
    let s = step-Holds c call db h in
    let (r, db') = transaction call.lane call.cooldown_ms call.now db in
    run-NotBefore c calls db' (log ++ granted call.lane call.now r) s.cooling
      (All-append (λ a. c ≤ a.at_ms) log (granted call.lane call.now r) l s.late)

checked_sets :
    (cooldown_ms now : ℕ) (meta : Option Meta) (old db : Database)
    → db.application ≡ application_id
    → (settle old (check_meta none cooldown_ms now meta db)).0 ≡ ok 0
    → IsCooling (now + cooldown_ms) (settle old (check_meta none cooldown_ms now meta db)).1
unfolding check_meta after_clock extend_cooldown
checked_sets cooldown_ms now none old db o h = cc
checked_sets cooldown_ms now (some meta) old db o h = elim (Bool-cases (meta.version == 1)) [
  | inr e ↦ absurd (ground (arith, e))
  | inl v ↦ elim (Bool-cases (ltb now meta.last_clock_ms)) [
    | inl e ↦ absurd (ground (arith, e, v))
    | inr e ↦
        simp (v, e)
          (record {
            opened = o;
            meta = record {
              version = meta.version;
              last_clock_ms = now;
              cooldown_until_ms = max meta.cooldown_until_ms (now + cooldown_ms);
            };
            meta_eq = refl;
            until = omega arith;
          })
  ]
]

cooldown_sets :
    (cooldown_ms now : ℕ) (db : Database)
    → (transaction none cooldown_ms now db).0 ≡ ok 0
    → IsCooling (now + cooldown_ms) (transaction none cooldown_ms now db).1
unfolding transaction open_admission
cooldown_sets cooldown_ms now db h = elim (Bool-cases (db.application == 0)) [
  | inl zero_id ↦ elim (Bool-cases db.has_tables) [
    | inl e ↦ absurd (ground (arith, zero_id, e))
    | inr e ↦
        simp (zero_id, e)
          (checked_sets cooldown_ms now (some fresh_meta) db (create_tables db) refl
            (simp (zero_id, e) at h))
  ]
  | inr e ↦ elim (Bool-cases (db.application == application_id)) [
    | inl own ↦
        simp (e, own)
          (checked_sets cooldown_ms now db.meta db db (ground (arith, own)) (simp (e, own) at h))
    | inr other ↦ absurd (ground (arith, e, other))
  ]
]

-- After a cooldown of `cooldown_ms` that the file accepted at `now`, no process is admitted at a
-- clock reading before `now + cooldown_ms`, whatever they ask for and whatever their clocks read.
pub cooldown_blocks :
    (cooldown_ms now : ℕ) (db : Database) (calls : List Call)
    → (transaction none cooldown_ms now db).0 ≡ ok 0
    → All
        (λ a. now + cooldown_ms ≤ a.at_ms)
        (requests calls (transaction none cooldown_ms now db).1)
cooldown_blocks cooldown_ms now db calls h =
    run-NotBefore (now + cooldown_ms) calls (transaction none cooldown_ms now db).1 []
      (cooldown_sets cooldown_ms now db h) tt
