-- ===== src/Rand/Sequence.antt =====
-- The numbers of root/src/kernel/lib/rand.c as one sequence.
use Prim.Native.Nat.{bit_xor}
use qword.Prelude.{
  ℕ, zero, suc, ◌+◌, ◌-◌, ◌*◌, ◌/◌, ◌%◌, ◌^◌, ◌<◌, ◌≤◌, ◌==◌, leb, ltb, ◌≡◌, inl, inr, refl, sym,
  ap, ◌∙◌, arith, Bool-cases,
}
use qword.Rand.{put, seed_from, Rand, Status, mix, n, m, reload, temper, srand, rand32}
use qword.Rand.Reload.{following, distant, reload_lem}

-- The array after `j` reloads.
unfoldable pub block : Status → ℕ → Status
block status zero = status
block status (suc j) = reload (block status j)

-- The arrays one after the other.
unfoldable pub sequence : Status → ℕ → ℕ
sequence status k = block status (k / n) (k % n)

-- The state after `k` calls of `rand32`.
unfoldable pub after_calls : Rand → ℕ → Rand
after_calls r zero = r
after_calls r (suc k) = (rand32 (after_calls r k)).1

sequence-at :
    (status : Status) (k j i : ℕ) → k / n ≡ j → k % n ≡ i → sequence status k ≡ block status j i
unfolding sequence
sequence-at status k j i e f = ap (λ q. block status q (k % n)) e ∙ ap (block status j) f

-- A reload makes the numbers of the sequence from those before them.
recurrence :
    (status : Status) (k : ℕ)
    → sequence status (k + n)
      ≡ bit_xor (sequence status (k + m)) (mix (sequence status k) (sequence status (k + 1)))
unfolding block
recurrence status k =
    let j = k / n in
    let i = k % n in
    let old = block status j in
    let made = sequence-at status (k + n) (suc j) i (omega arith) (omega arith) in
    let here = sequence-at status k j i refl refl in
    let after : sequence status (k + 1) ≡ following old (reload old) i =
      elim (Bool-cases (i == n - 1)) [
        | inl last ↦
            sequence-at status (k + 1) (suc j) 0 (ground (arith, last)) (ground (arith, last))
            ∙ rw last refl
        | inr inner ↦
            sequence-at status (k + 1) j (i + 1) (ground (arith, inner)) (ground (arith, inner))
            ∙ rw inner refl
      ] in
    let far : sequence status (k + m) ≡ distant old (reload old) i =
      elim (Bool-cases (ltb i (n - m))) [
        | inl near ↦
            sequence-at status (k + m) j (i + m) (ground (arith, near)) (ground (arith, near))
            ∙ rw near refl
        | inr over ↦
            sequence-at status (k + m) (suc j) (i + m - n) (ground (arith, over))
              (ground (arith, over))
            ∙ rw over refl
      ] in
    made
    ∙ reload_lem old i (omega arith)
    ∙ ap (λ x. bit_xor x (mix (old i) (following old (reload old) i))) (sym far)
    ∙ ap (λ x. bit_xor (sequence status (k + m)) (mix x (following old (reload old) i))) (sym here)
    ∙ ap (λ x. bit_xor (sequence status (k + m)) (mix (sequence status k) x)) (sym after)

-- Where the calls are in the sequence: the array is that of a block, and the counter goes over it.
record At (status : Status) (r : Rand) (k : ℕ) : Type 0 where
  pub number : ℕ
  pub array : r.status ≡ block status number
  pub place : number * n + r.ctr ≡ k + n
  pub low : r.ctr ≤ n

rand32-At :
    (status : Status) (r : Rand) (k : ℕ)
    → At status r k
    → At status (rand32 r).1 (suc k) × ((rand32 r).0 ≡ temper (sequence status (k + n)))
unfolding rand32 block
rand32-At status r k at = elim (Bool-cases (leb n r.ctr)) [
  | inl used_up ↦
      let value =
        sequence-at status (k + n) (suc at.number) 0 (ground (arith, used_up, at.place, at.low))
          (ground (arith, used_up, at.place, at.low)) in
      rw (rand32, used_up)
        (
          record {
            number = suc at.number;
            array = ap reload at.array;
            place = ground (arith, used_up, at.place, at.low);
            low = omega arith;
          },
          ap (λ s. temper (reload s 0)) at.array ∙ ap temper (sym value),
        )
  | inr left ↦
      let value =
        sequence-at status (k + n) at.number r.ctr (ground (arith, left, at.place))
          (ground (arith, left, at.place)) in
      rw (rand32, left)
        (
          record {
            number = at.number;
            array = at.array;
            place = omega (arith, at.place);
            low = ground (arith, left);
          },
          ap (λ s. temper (s r.ctr)) at.array ∙ ap temper (sym value),
        )
]

after_calls-At : (r : Rand) (k : ℕ) → r.ctr ≡ n → At r.status (after_calls r k) k
unfolding after_calls block
after_calls-At r zero full = record {
  number = 0;
  array = refl;
  place = omega (arith, full);
  low = omega (arith, full);
}
after_calls-At r (suc k) full = (rand32-At r.status (after_calls r k) k (after_calls-At r k full)).0

-- Entries before the loop of `srand` stay, and the others are made from the entry before.
record Seeded (status after : Status) (ctr rounds : ℕ) : Type 0 where
  pub before : (i : ℕ) → i < ctr → after i ≡ status i
  pub done :
      (i : ℕ)
      → ctr ≤ i
      → i < ctr + rounds
      → after i ≡ (1812433253 * bit_xor (after (i - 1)) (after (i - 1) / 2 ^ 30) + i) % 2 ^ 32

seed_from_lem :
    (status : Status) (ctr rounds : ℕ)
    → 0 < ctr
    → Seeded status (seed_from status ctr rounds) ctr rounds
unfolding seed_from
seed_from_lem status ctr zero pos = record {
  before = λ i l. refl;
  done = λ i l u. ground (arith, l, u);
}
seed_from_lem status ctr (suc rounds) pos =
    let v = (1812433253 * bit_xor (status (ctr - 1)) (status (ctr - 1) / 2 ^ 30) + ctr) % 2 ^ 32 in
    let rest = seed_from_lem (put status ctr v) (ctr + 1) rounds (omega arith) in
    record {
      before = λ i l. ground (arith, l, rest.before i);
      done = λ i l u. ground (arith, l, u, pos, rest.before i, rest.before (i - 1), rest.done i);
    }

-- After `srand` the calls of `rand32` return the numbers of one sequence, tempered. It starts with
-- the seed, the next 623 come from the number before by the multiplication with 1812433253, and from
-- there on it is the recurrence of the Mersenne twister with the distances 624 and 397: a reload in
-- place, one for 624 calls, computes it.
pub rand32-recurrence :
    (r : Rand) (seed : ℕ)
    → let started = srand r seed in
      let x = sequence started.status in
      (x 0 ≡ seed)
      × ((k : ℕ)
          → 0 < k
          → k < n
          → x k ≡ (1812433253 * bit_xor (x (k - 1)) (x (k - 1) / 2 ^ 30) + k) % 2 ^ 32)
      × ((k : ℕ) → x (k + n) ≡ bit_xor (x (k + m)) (mix (x k) (x (k + 1))))
      × ((k : ℕ) → (rand32 (after_calls started k)).0 ≡ temper (x (k + n)))
unfolding srand block
rand32-recurrence r seed =
    let status = (srand r seed).status in
    let seeded = seed_from_lem (put r.status 0 seed) 1 (n - 1) (omega arith) in
    let first : (k : ℕ) → k < n → sequence status k ≡ status k =
      λ k h. sequence-at status k 0 k (omega (arith, h)) (omega (arith, h)) in
    (
      first 0 (omega arith) ∙ seeded.before 0 (omega arith),
      λ k pos h.
          first k h
          ∙ seeded.done k pos h
          ∙ ap (λ y. (1812433253 * bit_xor y (y / 2 ^ 30) + k) % 2 ^ 32)
              (sym (first (k - 1) (omega (arith, h)))),
      λ k. recurrence status k,
      λ k.
          (rand32-At status (after_calls (srand r seed) k) k
            (after_calls-At (srand r seed) k refl)).1,
    )
