-- ===== src/Klib/Memory/Copy.antt =====
-- What the copying routines of root/src/kernel/lib/klib.c leave in memory.
use qword.Prelude.{ℕ, zero, suc, ◌+◌, ◌-◌, ◌%◌, ◌^◌, ◌≤◌, ◌≡◌, ◌⊎◌}
use qword.Prelude.{ltb, leb, ◌&&◌, if◌then◌else◌, Bool, arith}
use qword.Klib.{Mem, store}
use qword.Klib.Memory.{memcpy_from, memcpy, memcpy_down, memmove, memset_from, memset}

-- Address `x` is one of `n` addresses from `a` on.
abbrev pub inside : ℕ → ℕ → ℕ → Bool
inside a n x = leb a x && ltb x (a + n)

-- The copy as a whole: the bytes of `src` at `dest`, all else as before.
abbrev pub copied : Mem → ℕ → ℕ → ℕ → Mem
copied mem dest src n x = if inside dest n x then mem (src + (x - dest)) else mem x

memcpy_from_lem :
    (mem : Mem) (dest src n i r x : ℕ)
    → (dest ≤ src) ⊎ (src + n ≤ dest)
    → i + r ≤ n
    → memcpy_from mem dest src i r x
      ≡ (if inside (dest + i) r x then mem (src + (x - dest)) else mem x)
unfolding memcpy_from
memcpy_from_lem mem dest src n i zero x apart h = ground arith
memcpy_from_lem mem dest src n i (suc r) x apart h =
    ground
      (arith, memcpy_from_lem (store mem (dest + i) (mem (src + i))) dest src n (i + 1) r x apart)

memcpy_down_lem :
    (mem : Mem) (dest src n x : ℕ)
    → src ≤ dest
    → memcpy_down mem dest src n x ≡ copied mem dest src n x
unfolding memcpy_down
memcpy_down_lem mem dest src zero x h = ground arith
memcpy_down_lem mem dest src (suc i) x h =
    ground (arith, memcpy_down_lem (store mem (dest + i) (mem (src + i))) dest src i x)

-- `memcpy` copies where the destination does not overlap the rest of the source from behind.
pub memcpy_lem :
    (mem : Mem) (dest src count x : ℕ)
    → (dest ≤ src) ⊎ (src + count ≤ dest)
    → memcpy mem dest src count x ≡ copied mem dest src count x
unfolding memcpy
memcpy_lem mem dest src count x apart =
    ground (arith, memcpy_from_lem mem dest src count 0 count x apart)

-- `memmove` copies `count` bytes as they were before the call, however the two areas overlap, and
-- changes nothing else.
pub memmove_lem :
    (mem : Mem) (dest src count x : ℕ) → memmove mem dest src count x ≡ copied mem dest src count x
unfolding memmove
memmove_lem mem dest src count x =
    ground
      (arith, memcpy_from_lem mem dest src count 0 count x, memcpy_down_lem mem dest src count x)

pub memset_lem :
    (mem : Mem) (s c count x : ℕ)
    → memset mem s c count x ≡ (if inside s count x then c % 2 ^ 8 else mem x)
unfolding memset memset_from
memset_lem mem s c zero x = ground arith
memset_lem mem s c (suc count) x =
    ground (arith, memset_lem (store mem s (c % 2 ^ 8)) (s + 1) c count x)
