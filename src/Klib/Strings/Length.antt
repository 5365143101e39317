-- ===== src/Klib/Strings/Length.antt =====
-- Strings in memory, and `strlen` and `strchrnul` of root/src/kernel/lib/klib.c on them.
use qword.Prelude.{ℕ, zero, suc, ◌+◌, ◌<◌, ◌≡◌, ◌==◌, if◌then◌else◌, arith, subst, sym, ap, ◌∙◌}
use qword.Prelude.{List, [], ◌∷◌, length, some, Bool-cases, true, false, inl, inr}
use qword.Klib.{Mem}
use qword.Klib.Strings.{strlen_from, strlen, strchrnul}

-- At `p` lie the bytes of `xs`, none of them zero, and then a zero.
abbrev pub IsText : Mem → ℕ → List ℕ → Type 0
IsText mem p [] = mem p ≡ 0
IsText mem p (x ∷ xs) = (mem p ≡ x) × (0 < x) × IsText mem (p + 1) xs

pub IsText-shift :
    (mem : Mem) (p i : ℕ) (xs : List ℕ) → IsText mem (p + i + 1) xs → IsText mem (p + (i + 1)) xs
IsText-shift mem p i xs text = subst (λ q. IsText mem q xs) (omega arith) text

strlen_from_lem :
    (mem : Mem) (str fuel len : ℕ) (xs : List ℕ)
    → IsText mem (str + len) xs
    → length xs < fuel
    → strlen_from mem str fuel len ≡ some (len + length xs)
unfolding strlen_from
strlen_from_lem mem str zero len xs text h = absurd (omega arith)
strlen_from_lem mem str (suc fuel) len [] text h = ground arith
strlen_from_lem mem str (suc fuel) len (x ∷ xs) text h = ground (
  arith,
  strlen_from_lem mem str fuel (len + 1) xs (IsText-shift mem str len xs text.2) (omega arith),
)

-- `strlen` returns the number of bytes before the first zero.
pub strlen_lem :
    (mem : Mem) (str fuel : ℕ) (xs : List ℕ)
    → IsText mem str xs
    → length xs < fuel
    → strlen fuel mem str ≡ some (length xs)
unfolding strlen
strlen_lem mem str fuel xs text h =
    let here : str + 0 ≡ str = omega arith in
    strlen_from_lem mem str fuel 0 xs (subst (λ p. IsText mem p xs) (sym here) text) h
    ∙ ap some (omega arith)

-- The text behind the first byte `c`, or nothing where there is none.
unfoldable pub after_byte : ℕ → List ℕ → List ℕ
after_byte c [] = []
after_byte c (x ∷ xs) = if x == c then xs else after_byte c xs

-- `strchrnul` returns the address behind the first byte `c`, where the text goes on, or that of the
-- terminating zero.
pub strchrnul_lem :
    (mem : Mem) (s c fuel : ℕ) (xs : List ℕ)
    → IsText mem s xs
    → length xs < fuel
    → (q : ℕ) × (strchrnul fuel mem s c ≡ some q) × IsText mem q (after_byte c xs)
unfolding strchrnul after_byte
strchrnul_lem mem s c zero xs text h = absurd (omega arith)
strchrnul_lem mem s c (suc fuel) [] text h =
    let end : (mem s == 0) ≡ true = ground arith in (s, rw end, text)
strchrnul_lem mem s c (suc fuel) (x ∷ xs) text h =
    let going : (mem s == 0) ≡ false = ground arith in
    elim (Bool-cases (x == c)) [
      | inl hit ↦
          let hit' : (mem s == c) ≡ true = ground arith in (s + 1, rw (going, hit'), rw hit text.2)
      | inr miss ↦
          let miss' : (mem s == c) ≡ false = ground arith in
          let (q, e, tail) = strchrnul_lem mem (s + 1) c fuel xs text.2 (omega arith) in
          (q, rw (going, miss') e, rw miss tail)
    ]
