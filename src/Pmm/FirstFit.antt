-- ===== src/Pmm/FirstFit.antt =====
-- What `pmm_alloc` is meant to find: the first run of free pages, by trying each start in turn.
use qword.Prelude.{ℕ, zero, suc, ◌+◌, ◌≤◌, ◌<◌, ◌≡◌, inl, inr, arith}
use qword.Prelude.{Bool, true, false, not, ◌&&◌, if◌then◌else◌, Option, none, some}
use qword.Prelude.{Bool-cases, subst}
use native.Mathlib.Decide.{dec_lt}
use qword.Pmm.{Pmm, read_bitmap}
use qword.Pmm.Scan.{RunFree, NoRun}

module _ (s : Pmm) where
  unfoldable pub all_free : ℕ → ℕ → Bool
  all_free p zero = true
  all_free p (suc n) = not (read_bitmap s p) && all_free (p + 1) n

  unfoldable pub first_fit : ℕ → ℕ → ℕ → Option ℕ
  first_fit n lo zero = none
  first_fit n lo (suc tries) =
      let rest = first_fit n (lo + 1) tries in if all_free lo n then some lo else rest

  all_free-step :
      (p n : ℕ)
      → all_free p (suc n) ≡ true
      → (read_bitmap s p ≡ false) × (all_free (p + 1) n ≡ true)
  unfolding all_free
  all_free-step p n e = ground arith

  all_free-RunFree : (p n : ℕ) → all_free p n ≡ true → RunFree s p n
  all_free-RunFree p zero e i h = absurd (omega arith)
  all_free-RunFree p (suc n) e zero h =
      subst (λ k. read_bitmap s k ≡ false) (omega arith) (all_free-step p n e).0
  all_free-RunFree p (suc n) e (suc i) h =
      subst (λ k. read_bitmap s k ≡ false) (omega arith)
        (all_free-RunFree (p + 1) n (all_free-step p n e).1 i (omega arith))

  all_free-used :
      (p n : ℕ) → all_free p n ≡ false → (i : ℕ) × (i < n) × (read_bitmap s (p + i) ≡ true)
  unfolding all_free
  all_free-used p zero e = absurd (cc)
  all_free-used p (suc n) e = elim (Bool-cases (read_bitmap s p)) [
    | inl used ↦ (0, omega arith, subst (λ k. read_bitmap s k ≡ true) (omega arith) used)
    | inr free ↦
        let (i, h, used) = all_free-used (p + 1) n (ground arith) in
        (i + 1, omega arith, subst (λ k. read_bitmap s k ≡ true) (omega arith) used)
  ]

  -- A start that fails, before those of `first`.
  NoRun-cons : (n lo hi : ℕ) → all_free lo n ≡ false → NoRun s n (lo + 1) hi → NoRun s n lo hi
  NoRun-cons n lo hi e later q h k = elim (dec_lt lo q) [
    | yes lt ↦ later q (omega arith) k
    | no ge ↦
        subst (λ x. (i : ℕ) × (i < n) × (read_bitmap s (x + i) ≡ true)) (omega arith)
          (all_free-used lo n e)
  ]

  pub first_fit-some :
      (n lo tries : ℕ) {p : ℕ}
      → first_fit n lo tries ≡ some p
      → (lo ≤ p) × (p < lo + tries) × RunFree s p n × NoRun s n lo p
  unfolding first_fit
  first_fit-some n lo zero e = absurd (cc)
  first_fit-some n lo (suc tries) {p} e = elim (Bool-cases (all_free lo n)) [
    | inl fits ↦
        let here : lo ≡ p = ground arith in
        (
          omega arith,
          omega arith,
          subst (λ x. RunFree s x n) here (all_free-RunFree lo n fits),
          λ q h k. absurd (omega arith),
        )
    | inr fails ↦
        let (lo_le, lt, run, before) = first_fit-some n (lo + 1) tries {p = p} (ground arith) in
        (omega arith, omega arith, run, NoRun-cons n lo p fails before)
  ]

  pub first_fit-none : (n lo tries : ℕ) → first_fit n lo tries ≡ none → NoRun s n lo (lo + tries)
  unfolding first_fit
  first_fit-none n lo zero e = λ q h k. absurd (omega arith)
  first_fit-none n lo (suc tries) e = elim (Bool-cases (all_free lo n)) [
    | inl fits ↦ absurd (ground arith)
    | inr fails ↦
        subst (NoRun s n lo) (omega arith)
          (NoRun-cons n lo (lo + 1 + tries) fails (first_fit-none n (lo + 1) tries (ground arith)))
  ]
