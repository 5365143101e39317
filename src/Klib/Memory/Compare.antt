-- ===== src/Klib/Memory/Compare.antt =====
-- What `memcmp` of root/src/kernel/lib/klib.c tells.
use qword.Prelude.{ℕ, zero, suc, ◌+◌, ◌≤◌, ◌<◌, ◌≡◌, ltb, ◌⊎◌, inl, inr, arith}
use qword.Prelude.{refl, subst, Bool-cases, ltb→lt}
use native.Mathlib.Decide.{dec_lt}
use qword.Prelude.Int.{ℤ, pos, negsuc}
use qword.Klib.{Mem}
use qword.Klib.Memory.{memcmp_from, memcmp}

-- The first `k` bytes of the two areas agree.
abbrev pub AgreeFrom : Mem → ℕ → ℕ → ℕ → ℕ → Type 0
AgreeFrom mem a b i k = (j : ℕ) → i ≤ j → j < i + k → mem (a + j) ≡ mem (b + j)

-- What a result of `memcmp` says of the `n` bytes from `i` on.
abbrev pub Tells : Mem → ℕ → ℕ → ℕ → ℕ → ℤ → Type 0
Tells mem a b i n r =
    ((r ≡ pos 0) × AgreeFrom mem a b i n)
    ⊎ ((k : ℕ) × (k < n)
        × AgreeFrom mem a b i k
        × (((r ≡ negsuc 0) × (mem (a + (i + k)) < mem (b + (i + k))))
            ⊎ ((r ≡ pos 1) × (mem (b + (i + k)) < mem (a + (i + k))))))

AgreeFrom-cons :
    (mem : Mem) (a b i k : ℕ)
    → mem (a + i) ≡ mem (b + i)
    → AgreeFrom mem a b (i + 1) k
    → AgreeFrom mem a b i (k + 1)
AgreeFrom-cons mem a b i k e later j lo hi = elim (dec_lt i j) [
  | yes lt ↦ later j (omega arith) (omega arith)
  | no ge ↦ subst (λ j. mem (a + j) ≡ mem (b + j)) (omega arith) e
]

Tells-step :
    (mem : Mem) (a b i n : ℕ) (r : ℤ)
    → mem (a + i) ≡ mem (b + i)
    → Tells mem a b (i + 1) n r
    → Tells mem a b i (suc n) r
Tells-step mem a b i n r e (inl (zero_r, agree)) =
    inl (zero_r, subst (AgreeFrom mem a b i) (omega arith) (AgreeFrom-cons mem a b i n e agree))
Tells-step mem a b i n r e (inr (k, lt, agree, differ)) = inr (
  k + 1,
  omega arith,
  AgreeFrom-cons mem a b i k e agree,
  subst
      (λ j.
        ((r ≡ negsuc 0) × (mem (a + j) < mem (b + j)))
        ⊎ ((r ≡ pos 1) × (mem (b + j) < mem (a + j))))
      (omega arith) differ,
)

Tells-here :
    (mem : Mem) (a b i n : ℕ) (r : ℤ)
    → ((r ≡ negsuc 0) × (mem (a + i) < mem (b + i))) ⊎ ((r ≡ pos 1) × (mem (b + i) < mem (a + i)))
    → Tells mem a b i (suc n) r
Tells-here mem a b i n r differ = inr (
  0,
  omega arith,
  λ j lo hi. absurd (omega arith),
  subst
      (λ j.
        ((r ≡ negsuc 0) × (mem (a + j) < mem (b + j)))
        ⊎ ((r ≡ pos 1) × (mem (b + j) < mem (a + j))))
      (omega arith) differ,
)

memcmp_from-Tells : (mem : Mem) (a b i n : ℕ) → Tells mem a b i n (memcmp_from mem a b i n)
unfolding memcmp_from
memcmp_from-Tells mem a b i zero = inl (refl, λ j lo hi. absurd (omega arith))
memcmp_from-Tells mem a b i (suc n) = elim (Bool-cases (ltb (mem (a + i)) (mem (b + i)))) [
  | inl less ↦ rw less (Tells-here mem a b i n (negsuc 0) (inl (refl, ltb→lt _ _ less)))
  | inr not_less ↦ elim (Bool-cases (ltb (mem (b + i)) (mem (a + i)))) [
    | inl more ↦ rw (not_less, more) (Tells-here mem a b i n (pos 1) (inr (refl, ltb→lt _ _ more)))
    | inr same ↦
        rw (not_less, same)
          (Tells-step mem a b i n (memcmp_from mem a b (i + 1) n) (ground arith)
            (memcmp_from-Tells mem a b (i + 1) n))
  ]
]

-- `memcmp` returns 0 exactly where the areas agree, and otherwise the order of the first bytes that
-- differ.
pub memcmp-Tells : (mem : Mem) (s1 s2 n : ℕ) → Tells mem s1 s2 0 n (memcmp mem s1 s2 n)
unfolding memcmp
memcmp-Tells mem s1 s2 n = memcmp_from-Tells mem s1 s2 0 n
