-- ===== src/Lock.antt =====
-- The spinlock of root/src/kernel/lib/lock.h, and processors that take turns at it.
--
-- Bit 0 of the word is set while the lock is free. An access with the `lock` prefix is one step.
pub mod Exclusion
mod Tests
use qword.Prelude.{ℕ, ◌+◌, ◌-◌, ◌%◌, ◌<◌, ◌==◌, ◌≡◌, if◌then◌else◌, Bool, true, false}

-- `new_lock`
abbrev pub new_lock : ℕ
new_lock = 1

-- `lock btr`: the bit before, and the word with the bit cleared.
abbrev pub spinlock_test_and_acquire : ℕ → Bool × ℕ
spinlock_test_and_acquire lock = (lock % 2 == 1, lock - lock % 2)

-- `lock bts`
abbrev pub spinlock_release : ℕ → ℕ
spinlock_release lock = lock - lock % 2 + 1

-- Where a processor stands: outside, in the loop of `spinlock_acquire`, or behind it.
pub data Place : Type 0 where
  outside : Place
  spinning : Place
  holding : Place

pub record System : Type 0 where
  pub lock : ℕ
  pub place : ℕ → Place

abbrev pub goes : (ℕ → Place) → ℕ → Place → ℕ → Place
goes place i p j = if j == i then p else place j

-- A round of the loop of `spinlock_acquire`.
abbrev pub try_once : System → ℕ → System
try_once s i =
    let (got, lock) = spinlock_test_and_acquire s.lock in
    record { lock = lock; place = if got then goes s.place i Place.holding else s.place }

-- The processors, in any order.
pub data Step (n : ℕ) (s : System) (t : System) : Type 0 where
  acquire :
      (i : ℕ)
      → i < n
      → s.place i ≡ Place.outside
      → t ≡ record s { place = goes s.place i Place.spinning }
      → Step n s t
  try : (i : ℕ) → i < n → s.place i ≡ Place.spinning → t ≡ try_once s i → Step n s t
  release :
      (i : ℕ)
      → i < n
      → s.place i ≡ Place.holding
      → t ≡ record { lock = spinlock_release s.lock; place = goes s.place i Place.outside }
      → Step n s t

abbrev pub start : System
start = record { lock = new_lock; place = λ i. Place.outside }

pub data Reach (n : ℕ) : System → Type 0 where
  here : Reach n start
  next : {s t : System} → Reach n s → Step n s t → Reach n t
