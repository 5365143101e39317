-- ===== src/Rand.antt =====
-- The random numbers of root/src/kernel/lib/rand.c, a Mersenne twister.
--
-- The array `status` is a function from its 624 indices; a call holds `rand_lock`, so it is one step.
pub mod Reload
pub mod Sequence
mod Tests
use Prim.Native.Nat.{bit_and, bit_or, bit_xor}
use qword.Prelude.{ℕ, zero, suc, ◌+◌, ◌-◌, ◌*◌, ◌/◌, ◌%◌, ◌^◌, ◌==◌, leb, if◌then◌else◌}

abbrev pub n : ℕ
n = 624

abbrev pub m : ℕ
m = 397

abbrev pub matrix_a : ℕ
matrix_a = 0x9908b0df

abbrev pub msb : ℕ
msb = 0x80000000

abbrev pub lsbs : ℕ
lsbs = 0x7fffffff

abbrev pub Status : Type 0
Status = ℕ → ℕ

pub record Rand : Type 0 where
  pub status : Status
  pub ctr : ℕ

abbrev pub put : Status → ℕ → ℕ → Status
put status k v i = if i == k then v else status i

-- `(y >> 1) ^ mag01[y & 1]` for the first bit of one number and the rest of another.
unfoldable pub mix : ℕ → ℕ → ℕ
mix high low =
    let y = bit_or (bit_and high msb) (bit_and low lsbs) in
    bit_xor (y / 2) (if y % 2 == 1 then matrix_a else 0)

-- The loop of `srand`, with `rounds` to go, at `ctr`.
unfoldable pub seed_from : Status → ℕ → ℕ → Status
seed_from status ctr zero = status
seed_from status ctr (suc rounds) =
    let last = status (ctr - 1) in
    seed_from (put status ctr ((1812433253 * bit_xor last (last / 2 ^ 30) + ctr) % 2 ^ 32))
      (ctr + 1) rounds

unfoldable pub srand : Rand → ℕ → Rand
srand r s = record { status = seed_from (put r.status 0 s) 1 (n - 1); ctr = n }

-- The first two loops of `rand32`, with `rounds` to go, at `kk`.
unfoldable pub reload_low : Status → ℕ → ℕ → Status
reload_low status kk zero = status
reload_low status kk (suc rounds) =
    reload_low (put status kk (bit_xor (status (kk + m)) (mix (status kk) (status (kk + 1)))))
      (kk + 1) rounds

unfoldable pub reload_high : Status → ℕ → ℕ → Status
reload_high status kk zero = status
reload_high status kk (suc rounds) =
    reload_high (put status kk (bit_xor (status (kk + m - n)) (mix (status kk) (status (kk + 1)))))
      (kk + 1) rounds

unfoldable pub reload : Status → Status
reload status =
    let high = reload_high (reload_low status 0 (n - m)) (n - m) (n - 1 - (n - m)) in
    put high (n - 1) (bit_xor (high (m - 1)) (mix (high (n - 1)) (high 0)))

-- What is done to a number of the array before it is returned.
unfoldable pub temper : ℕ → ℕ
temper x =
    let a = bit_xor x (x / 2 ^ 11) in
    let b = bit_xor a (bit_and (a * 2 ^ 7 % 2 ^ 32) 0x9d2c5680) in
    let c = bit_xor b (bit_and (b * 2 ^ 15 % 2 ^ 32) 0xefc60000) in bit_xor c (c / 2 ^ 18)

unfoldable pub rand32 : Rand → ℕ × Rand
rand32 r =
    let full : Rand = record { status = reload r.status; ctr = 0 } in
    let ready = if leb n r.ctr then full else r in
    (temper (ready.status ready.ctr), record ready { ctr = ready.ctr + 1 })

-- The first number that is drawn is the high half.
unfoldable pub rand64 : Rand → ℕ × Rand
rand64 r = let (high, r1) = rand32 r in let (low, r2) = rand32 r1 in (high * 2 ^ 32 + low, r2)
