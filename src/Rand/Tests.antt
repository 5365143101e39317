-- ===== src/Rand/Tests.antt =====
-- The sequence of root/src/kernel/lib/rand.c for the seed 5489.
use Prim.Native.Nat.{bit_xor}
use qword.Prelude.{ℕ, ◌+◌, ◌-◌, ◌*◌, ◌/◌, ◌%◌, ◌^◌, ◌<◌, ◌≡◌, refl}
use qword.Rand.{Rand, n, m, mix, temper, srand, rand32, seed_from}
use qword.Rand.Sequence.{sequence, after_calls, rand32-recurrence}

abbrev zeros : Rand
zeros = record { status = λ i. 0; ctr = 0 }

-- The second entry for the seed.
srand_5489 : (srand zeros 5489).status 1 ≡ 1301868182
unfolding srand seed_from
srand_5489 = refl

rand32-recurrence_example :
    (sequence (srand zeros 5489).status 0 ≡ 5489)
    × ((k : ℕ)
        → 0 < k
        → k < n
        → sequence (srand zeros 5489).status k
          ≡ (1812433253
                * bit_xor
                    (sequence (srand zeros 5489).status (k - 1))
                    (sequence (srand zeros 5489).status (k - 1) / 2 ^ 30)
              + k)
            % 2 ^ 32)
    × ((k : ℕ)
        → sequence (srand zeros 5489).status (k + n)
          ≡ bit_xor (sequence (srand zeros 5489).status (k + m)) (
              mix
                (sequence (srand zeros 5489).status k)
                (sequence (srand zeros 5489).status (k + 1))))
    × ((k : ℕ)
        → (rand32 (after_calls (srand zeros 5489) k)).0
          ≡ temper (sequence (srand zeros 5489).status (k + n)))
rand32-recurrence_example = rand32-recurrence zeros 5489
