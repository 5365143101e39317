-- ===== src/Lock/Exclusion.antt =====
-- Mutual exclusion for the spinlock of root/src/kernel/lib/lock.h.
use qword.Prelude.{ℕ, ◌-◌, ◌%◌, ◌<◌, ◌==◌, ◌≡◌, ◌≢◌, ◌⊎◌, inl, inr, arith, Bool-cases}
use qword.Lock.{Place, System, try_once, Step, start, Reach, here, next}

-- The bit tells whether a processor holds the lock, and at most one does.
pub record Inv (s : System) : Type 0 where
  pub bit : s.lock < 2
  pub free : s.lock ≡ 1 → (i : ℕ) → s.place i ≢ Place.holding
  pub taken : s.lock ≡ 0 → (i : ℕ) × (s.place i ≡ Place.holding)
  pub unique : (i j : ℕ) → s.place i ≡ Place.holding → s.place j ≡ Place.holding → i ≡ j

start-Inv : Inv start
start-Inv = record {
  bit = omega arith;
  free = λ e i h. ground arith;
  taken = λ e. ground arith;
  unique = λ i j h k. ground arith;
}

Step-Inv : (n : ℕ) (s t : System) → Inv s → Step n s t → Inv t
Step-Inv n s t inv (Step.acquire i lt e step) = rw step (record {
  bit = inv.bit;
  free = λ l j h. ground (arith, inv.free l j);
  taken = λ l. let (j, h) = inv.taken l in (j, ground arith);
  unique = λ j k hj hk. ground (arith, inv.unique j k);
})
Step-Inv n s t inv (Step.try i lt e step) = elim (Bool-cases (s.lock % 2 == 1)) [
  | inl got ↦
      rw (step, got)
        (record {
          bit = ground (arith, inv.bit);
          free = λ l. ground (arith, inv.bit);
          taken = λ l. (i, ground arith);
          unique = λ j k hj hk. ground (
            arith,
            inv.bit,
            inv.free (ground (arith, inv.bit)) j,
            inv.free (ground (arith, inv.bit)) k,
          );
        })
  | inr busy ↦
      let same : s.lock - s.lock % 2 ≡ s.lock = ground (arith, inv.bit) in rw (step, busy, same) inv
]
Step-Inv n s t inv (Step.release i lt e step) = rw step (record {
  bit = ground (arith, inv.bit);
  free = λ l j h. ground (arith, inv.unique i j);
  taken = λ l. ground (arith, inv.bit);
  unique = λ j k hj hk. ground (arith, inv.unique i j, inv.unique i k);
})

Reach-Inv : (n : ℕ) {s : System} → Reach n s → Inv s
Reach-Inv n here = start-Inv
Reach-Inv n (next {s} {t} r st) = Step-Inv n s t (Reach-Inv n r) st

-- However the processors take turns, two of them never hold a lock together; and where one of them
-- spins, either some processor holds the lock, or the next round of the loop takes it.
pub mutual_exclusion :
    (n : ℕ) {s : System}
    → Reach n s
    → ((i j : ℕ) → s.place i ≡ Place.holding → s.place j ≡ Place.holding → i ≡ j)
      × ((i : ℕ)
          → s.place i ≡ Place.spinning
          → ((j : ℕ) × (s.place j ≡ Place.holding)) ⊎ ((try_once s i).place i ≡ Place.holding))
mutual_exclusion n {s} r =
    let inv = Reach-Inv n r in
    (
      inv.unique,
      λ i spins. elim (Bool-cases (s.lock % 2 == 1)) [
        | inl got ↦ inr (rw got (ground arith))
        | inr busy ↦ inl (inv.taken (ground (arith, inv.bit)))
      ],
    )
