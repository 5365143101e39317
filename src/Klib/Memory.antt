-- ===== src/Klib/Memory.antt =====
-- `memcpy`, `memcpy64`, `memset`, `memset64`, `memmove` and `memcmp` of root/src/kernel/lib/klib.c.
pub mod Copy
pub mod Compare
use qword.Prelude.{ℕ, zero, suc, ◌+◌, ◌*◌, ◌/◌, ◌%◌, ◌^◌, ◌==◌, ltb, if◌then◌else◌}
use qword.Prelude.Int.{ℤ, pos, negsuc}
use qword.Klib.{Mem, store}

-- `for (i = 0; i < count; i++) dest2[i] = src2[i]`, with `rounds` to go.
pub memcpy_from : Mem → ℕ → ℕ → ℕ → ℕ → Mem
memcpy_from mem dest src i zero = mem
memcpy_from mem dest src i (suc rounds) =
    memcpy_from (store mem (dest + i) (mem (src + i))) dest src (i + 1) rounds

unfoldable pub memcpy : Mem → ℕ → ℕ → ℕ → Mem
memcpy mem dest src count = memcpy_from mem dest src 0 count

-- The loop of `memmove` that counts down.
pub memcpy_down : Mem → ℕ → ℕ → ℕ → Mem
memcpy_down mem dest src zero = mem
memcpy_down mem dest src (suc i) = memcpy_down (store mem (dest + i) (mem (src + i))) dest src i

unfoldable pub memmove : Mem → ℕ → ℕ → ℕ → Mem
memmove mem dest src count =
    if ltb dest src
    then memcpy_from mem dest src 0 count
    else (if ltb src dest then memcpy_down mem dest src count else mem)

-- `for (; p != end; p++) *p = (uint8_t)c`, with `rounds` to go.
pub memset_from : Mem → ℕ → ℕ → ℕ → Mem
memset_from mem p c zero = mem
memset_from mem p c (suc rounds) = memset_from (store mem p (c % 2 ^ 8)) (p + 1) c rounds

unfoldable pub memset : Mem → ℕ → ℕ → ℕ → Mem
memset mem s c count = memset_from mem s c count

-- A `uint64_t` access, lowest byte first.
abbrev pub store64 : Mem → ℕ → ℕ → Mem
store64 mem a v =
    store
      (store
        (store
          (store
            (store
              (store (store (store mem a (v % 2 ^ 8)) (a + 1) (v / 2 ^ 8 % 2 ^ 8)) (a + 2)
                (v / 2 ^ 16 % 2 ^ 8))
              (a + 3) (v / 2 ^ 24 % 2 ^ 8))
            (a + 4) (v / 2 ^ 32 % 2 ^ 8))
          (a + 5) (v / 2 ^ 40 % 2 ^ 8))
        (a + 6) (v / 2 ^ 48 % 2 ^ 8))
      (a + 7) (v / 2 ^ 56 % 2 ^ 8)

abbrev pub load64 : Mem → ℕ → ℕ
load64 mem a =
    mem a
    + 2 ^ 8 * mem (a + 1)
    + 2 ^ 16 * mem (a + 2)
    + 2 ^ 24 * mem (a + 3)
    + 2 ^ 32 * mem (a + 4)
    + 2 ^ 40 * mem (a + 5)
    + 2 ^ 48 * mem (a + 6)
    + 2 ^ 56 * mem (a + 7)

pub memset64_from : Mem → ℕ → ℕ → ℕ → ℕ → Mem
memset64_from mem ptr c i zero = mem
memset64_from mem ptr c i (suc rounds) =
    memset64_from (store64 mem (ptr + 8 * i) c) ptr c (i + 1) rounds

unfoldable pub memset64 : Mem → ℕ → ℕ → ℕ → Mem
memset64 mem ptr c count = memset64_from mem ptr c 0 count

pub memcpy64_from : Mem → ℕ → ℕ → ℕ → ℕ → Mem
memcpy64_from mem dest src i zero = mem
memcpy64_from mem dest src i (suc rounds) =
    memcpy64_from (store64 mem (dest + 8 * i) (load64 mem (src + 8 * i))) dest src (i + 1) rounds

-- `count` is a number of bytes; what is over a multiple of eight is not copied.
unfoldable pub memcpy64 : Mem → ℕ → ℕ → ℕ → Mem
memcpy64 mem dest src count = memcpy64_from mem dest src 0 (count / 8)

-- The result of `memcmp`: -1, 1 or 0, by the first byte that differs.
pub memcmp_from : Mem → ℕ → ℕ → ℕ → ℕ → ℤ
memcmp_from mem a b i zero = pos 0
memcmp_from mem a b i (suc rounds) =
    let rest = memcmp_from mem a b (i + 1) rounds in
    if ltb (mem (a + i)) (mem (b + i))
    then negsuc 0
    else (if ltb (mem (b + i)) (mem (a + i)) then pos 1 else rest)

unfoldable pub memcmp : Mem → ℕ → ℕ → ℕ → ℤ
memcmp mem s1 s2 n = memcmp_from mem s1 s2 0 n
