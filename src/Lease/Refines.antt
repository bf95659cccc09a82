-- ===== src/Lease/Refines.antt =====
-- The table of leases refines a single slot: whatever is committed acts on one active lease.
use prep_watchdeck.Prelude.{
  ◌≤◌, ◌≡◌, ◌⊎◌, refl, inl, inr, Option, List, [], ◌∷◌, count, Result, ok, err,
}
use prep_watchdeck.Lease.{SelectionLease, LeaseFault, is_active, active_row}
use prep_watchdeck.Lease.Slot.{LeaseCall, committed, slot_step, Holds, call_Holds}

-- Calls one after another: the table, and the calls that were committed. A call that raises is rolled
-- back.
unfoldable pub run : List LeaseCall → List SelectionLease → List SelectionLease × List LeaseCall
run [] leases = (leases, [])
run (c ∷ calls) leases = elim (committed c leases) [
  | err e ↦ run calls leases
  | ok leases' ↦ let (end, log) = run calls leases' in (end, c ∷ log)
]

unfoldable pub replay : List LeaseCall → Option SelectionLease → Option SelectionLease
replay [] slot = slot
replay (c ∷ calls) slot = replay calls (slot_step c slot)

Result-cases :
    {A : Type 0} (r : Result LeaseFault A)
    → ((a : A) × (r ≡ ok a)) ⊎ ((e : LeaseFault) × (r ≡ err e))
Result-cases (ok a) = inl (a, refl)
Result-cases (err e) = inr (e, refl)

-- From a table with at most one active lease, after any calls, the active lease is the one that the
-- slot holds after the committed calls alone; and still at most one lease is active.
pub run_refines :
    (calls : List LeaseCall) (leases : List SelectionLease)
    → count is_active leases ≤ 1
    → Holds (replay (run calls leases).1 (active_row leases)) (run calls leases).0
unfolding run replay
run_refines [] leases c = (refl, c)
run_refines (call ∷ calls) leases c = elim (Result-cases (committed call leases)) [
  | inr (e, k) ↦ rw (k, run) (run_refines calls leases c)
  | inl (x, k) ↦
      let (slot, active) = call_Holds call leases x c k in
      rw (k, run) (rw slot at (run_refines calls x active))
]
