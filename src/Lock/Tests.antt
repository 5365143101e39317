-- ===== src/Lock/Tests.antt =====
-- Two processors at a spinlock of root/src/kernel/lib/lock.h.
use qword.Prelude.{ℕ, ◌≡◌, ◌⊎◌, refl, arith}
use qword.Lock.{Place, System, goes, try_once, Step, start, Reach}
use qword.Lock.Exclusion.{mutual_exclusion}

abbrev first_spins : System
first_spins = record start { place = goes start.place 0 Place.spinning }

abbrev first_holds : System
first_holds = try_once first_spins 0

-- Processor 0 holds the lock, and processor 1 spins.
abbrev contended : System
contended = record first_holds { place = goes first_holds.place 1 Place.spinning }

contended-Reach : Reach 2 contended
contended-Reach =
    Reach.next
      (Reach.next (Reach.next Reach.here (Step.acquire 0 (omega arith) refl refl))
        (Step.try 0 (omega arith) refl refl))
      (Step.acquire 1 (omega arith) refl refl)

mutual_exclusion_example :
    ((i j : ℕ) → contended.place i ≡ Place.holding → contended.place j ≡ Place.holding → i ≡ j)
    × ((i : ℕ)
        → contended.place i ≡ Place.spinning
        → ((j : ℕ) × (contended.place j ≡ Place.holding))
          ⊎ ((try_once contended i).place i ≡ Place.holding))
mutual_exclusion_example = mutual_exclusion 2 contended-Reach
