-- ===== src/Rand/Reload.antt =====
-- A reload of the array of root/src/kernel/lib/rand.c in place against its recurrence.
use Prim.Native.Nat.{bit_xor}
use qword.Prelude.{ℕ, zero, suc, ◌+◌, ◌-◌, ◌<◌, ◌≤◌, ◌==◌, ◌≡◌, refl, arith, if◌then◌else◌, ltb}
use qword.Rand.{Status, put, mix, n, m, reload_low, reload_high, reload}

-- Entries that the loop has not reached are as they were.
record Low (status after : Status) (kk rounds : ℕ) : Type 0 where
  pub before : (i : ℕ) → i < kk → after i ≡ status i
  pub behind : (i : ℕ) → kk + rounds ≤ i → after i ≡ status i
  pub done :
      (i : ℕ)
      → kk ≤ i
      → i < kk + rounds
      → after i ≡ bit_xor (status (i + m)) (mix (status i) (status (i + 1)))

reload_low_lem :
    (status : Status) (kk rounds : ℕ)
    → kk + rounds ≤ n - m
    → Low status (reload_low status kk rounds) kk rounds
unfolding reload_low
reload_low_lem status kk zero h = record {
  before = λ i l. refl;
  behind = λ i l. refl;
  done = λ i l u. ground (arith, l, u);
}
reload_low_lem status kk (suc rounds) h =
    let v = bit_xor (status (kk + m)) (mix (status kk) (status (kk + 1))) in
    let rest = reload_low_lem (put status kk v) (kk + 1) rounds (omega arith) in
    record {
      before = λ i l. ground (arith, l, rest.before i);
      behind = λ i l. ground (arith, l, rest.behind i);
      done = λ i l u. ground (arith, l, u, rest.before i, rest.done i);
    }

record High (status after : Status) (kk rounds : ℕ) : Type 0 where
  pub before : (i : ℕ) → i < kk → after i ≡ status i
  pub behind : (i : ℕ) → kk + rounds ≤ i → after i ≡ status i
  pub done :
      (i : ℕ)
      → kk ≤ i
      → i < kk + rounds
      → after i ≡ bit_xor (after (i + m - n)) (mix (status i) (status (i + 1)))

reload_high_lem :
    (status : Status) (kk rounds : ℕ)
    → n - m ≤ kk
    → High status (reload_high status kk rounds) kk rounds
unfolding reload_high
reload_high_lem status kk zero h = record {
  before = λ i l. refl;
  behind = λ i l. refl;
  done = λ i l u. ground (arith, l, u);
}
reload_high_lem status kk (suc rounds) h =
    let v = bit_xor (status (kk + m - n)) (mix (status kk) (status (kk + 1))) in
    let rest = reload_high_lem (put status kk v) (kk + 1) rounds (omega arith) in
    record {
      before = λ i l. ground (arith, l, rest.before i);
      behind = λ i l. ground (arith, l, rest.behind i);
      done = λ i l u. ground (arith, l, u, h, rest.before i, rest.before (i + m - n), rest.done i);
    }

-- The number after `i`, across the end of the array.
abbrev pub following : Status → Status → ℕ → ℕ
following status after i = if i == n - 1 then after 0 else status (i + 1)

-- The number `m` after `i`, across the end of the array.
abbrev pub distant : Status → Status → ℕ → ℕ
distant status after i = if ltb i (n - m) then status (i + m) else after (i + m - n)

pub reload_lem :
    (status : Status) (i : ℕ)
    → i < n
    → reload status i
      ≡ bit_xor
          (distant status (reload status) i)
          (mix (status i) (following status (reload status) i))
unfolding reload
reload_lem status i h =
    let low = reload_low_lem status 0 (n - m) (omega arith) in
    let high =
      reload_high_lem (reload_low status 0 (n - m)) (n - m) (n - 1 - (n - m)) (omega arith) in
    ground (
      arith,
      h,
      low.done i,
      low.behind i,
      low.behind (i + 1),
      high.before i,
      high.behind i,
      high.done i,
    )
