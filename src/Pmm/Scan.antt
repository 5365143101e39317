-- ===== src/Pmm/Scan.antt =====
-- The loop of `pmm_alloc` (root/src/kernel/mm/pmm.c) against the runs of free pages.
use qword.Prelude.{ℕ, zero, suc, ◌+◌, ◌-◌, ◌≤◌, ◌<◌, ◌≡◌, ◌⊎◌, inl, inr, ◌≢◌, arith}
use qword.Prelude.{Bool, true, false, Bool-cases, if◌then◌else◌, ◌==◌, refl, sym, ap, subst, ◌∙◌}
use native.Mathlib.Decide.{dec_lt}
use qword.Pmm.{Pmm, bitmap_base, word, read_bitmap, write_bits, rewind, pred_size, scan}

-- The end of the bitmap, as a page number.
abbrev pub limit : Pmm → ℕ
limit s = bitmap_base + s.entries

-- The `n` pages from `p` on are free.
abbrev pub RunFree : Pmm → ℕ → ℕ → Type 0
RunFree s p n = (i : ℕ) → i < n → read_bitmap s (p + i) ≡ false

-- No `n` pages from a page of `lo` to `hi` (excluded) on are all free.
abbrev pub NoRun : Pmm → ℕ → ℕ → ℕ → Type 0
NoRun s n lo hi = (q : ℕ) → lo ≤ q → q < hi → (i : ℕ) × (i < n) × (read_bitmap s (q + i) ≡ true)

-- A write of a run of bits, read back.
pub write_bits_lem :
    (bits : ℕ → Bool) (j n : ℕ) (v : Bool) (o : ℕ)
    → ((j ≤ o) × (o < j + n) × (write_bits bits j n v o ≡ v))
      ⊎ (((o < j) ⊎ (j + n ≤ o)) × (write_bits bits j n v o ≡ bits o))
unfolding write_bits
write_bits_lem bits j zero v o = ground arith
write_bits_lem bits j (suc n) v o =
    ground (arith, write_bits_lem (λ o. if o == j then v else bits o) (j + 1) n v o)

module _ (s : Pmm) (n : ℕ) where
  rewind_lem : (c : ℕ) → c ≢ limit s → rewind s n c ≡ c
  rewind_lem c ne = ground arith

  step_used :
      (rounds k c : ℕ)
      → c ≢ limit s
      → read_bitmap s c ≡ true
      → scan s n (suc rounds) k c ≡ scan s n rounds n (c + 1)
  unfolding scan
  step_used rounds k c ne used = rw (rewind_lem c ne, used)

  step_free :
      (rounds k c : ℕ)
      → c ≢ limit s
      → k < word
      → 1 < k
      → read_bitmap s c ≡ false
      → scan s n (suc rounds) k c ≡ scan s n rounds (k - 1) (c + 1)
  unfolding scan
  step_free rounds k c ne kw k1 free =
      let pred : pred_size k ≡ k - 1 = omega arith in
      let test : (k - 1 == 0) ≡ false = ground arith in rw (rewind_lem c ne, free, pred, test)

  step_found :
      (rounds c : ℕ)
      → c ≢ limit s
      → read_bitmap s c ≡ false
      → scan s n (suc rounds) 1 c ≡ (true, c + 1)
  unfolding scan
  step_found rounds c ne free = rw (rewind_lem c ne, free)

  -- A used page inside the run at `p` is none: the run lies behind it.
  run_behind :
      (q r p : ℕ) → r < n → q ≤ p → RunFree s p n → read_bitmap s (q + r) ≡ true → q + r + 1 ≤ p
  run_behind q r p rn qp run used = elim (dec_lt (q + r) p) [
    | yes h ↦ omega arith
    | no h ↦
        let e : p + (q + r - p) ≡ q + r = omega arith in
        let free : read_bitmap s (q + r) ≡ false = rw e at (run (q + r - p) (omega arith)) in
        absurd (cc)
  ]

  RunFree-suc : (q r : ℕ) → RunFree s q r → read_bitmap s (q + r) ≡ false → RunFree s q (r + 1)
  RunFree-suc q r behind free i h = elim (dec_lt i r) [
    | yes lt ↦ behind i lt
    | no ge ↦ let e : i ≡ r = omega arith in rw e free
  ]

  -- Where the run that ends at the cursor is long enough, it is the first one.
  run_here : (q p : ℕ) → q ≤ p → RunFree s q n → NoRun s n q p → q ≡ p
  run_here q p qp run first = elim (dec_lt q p) [
    | yes lt ↦
        let (i, h, used) = first q (omega arith) lt in
        let free : read_bitmap s (q + i) ≡ false = run i h in absurd (cc)
    | no ge ↦ omega arith
  ]

  -- With `r` free pages behind the cursor, the loop stops behind the first run, at `p`.
  pub scan_first :
      (rounds r q p : ℕ)
      → n < word
      → r < n
      → q ≤ p
      → p + n ≤ limit s
      → p + n ≤ q + r + rounds
      → RunFree s q r
      → RunFree s p n
      → NoRun s n q p
      → scan s n rounds (n - r) (q + r) ≡ (true, p + n)
  scan_first zero r q p nw rn qp end more behind run first = absurd (omega arith)
  scan_first (suc rounds) r q p nw rn qp end more behind run first =
      elim (Bool-cases (read_bitmap s (q + r))) [
        | inl used ↦
            let past : q + r + 1 ≤ p = run_behind q r p rn qp run used in
            step_used rounds (n - r) (q + r) (omega arith) used
            ∙ subst (λ k. scan s n rounds k (q + r + 1) ≡ (true, p + n)) (omega arith)
                (subst (λ c. scan s n rounds (n - 0) c ≡ (true, p + n)) (omega arith)
                  (scan_first rounds 0 (q + r + 1) p nw (omega arith) past end (omega arith)
                    (λ i h. absurd (omega arith)) run (λ x lo hi. first x (omega arith) hi)))
        | inr free ↦ elim (dec_lt (r + 1) n) [
          | yes room ↦
              step_free rounds (n - r) (q + r) (omega arith) (omega arith) (omega arith) free
              ∙ subst (λ k. scan s n rounds k (q + r + 1) ≡ (true, p + n)) (omega arith)
                  (subst (λ c. scan s n rounds (n - (r + 1)) c ≡ (true, p + n)) (omega arith)
                    (scan_first rounds (r + 1) q p nw room qp end (omega arith)
                      (RunFree-suc q r behind free) run first))
          | no full ↦
              let e : n ≡ r + 1 = omega arith in
              let here : q ≡ p =
                run_here q p qp (subst (RunFree s q) (sym e) (RunFree-suc q r behind free)) first in
              subst (λ k. scan s n (suc rounds) k (q + r) ≡ (true, p + n)) (omega arith)
                (step_found rounds (q + r) (omega arith) free ∙ ap (λ c. (true, c)) (omega arith))
        ]
      ]

  -- Where no run of `n` free pages is left up to the limit, a loop that does not reach it fails.
  pub scan_none :
      (rounds r q : ℕ)
      → n < word
      → r < n
      → q + r + rounds ≤ limit s
      → RunFree s q r
      → NoRun s n q (limit s + 1 - n)
      → (scan s n rounds (n - r) (q + r)).0 ≡ false
  unfolding scan
  scan_none zero r q nw rn end behind none_left = refl
  scan_none (suc rounds) r q nw rn end behind none_left =
      elim (Bool-cases (read_bitmap s (q + r))) [
        | inl used ↦ rw (step_used rounds (n - r) (q + r) (omega arith) used) (
            subst (λ k. (scan s n rounds k (q + r + 1)).0 ≡ false) (omega arith)
              (subst (λ c. (scan s n rounds (n - 0) c).0 ≡ false) (omega arith)
                (scan_none rounds 0 (q + r + 1) nw (omega arith) (omega arith)
                  (λ i h. absurd (omega arith)) (λ x lo hi. none_left x (omega arith) hi))))
        | inr free ↦ elim (dec_lt (r + 1) n) [
          | yes room ↦
              rw (step_free rounds (n - r) (q + r) (omega arith) (omega arith) (omega arith) free) (
                subst (λ k. (scan s n rounds k (q + r + 1)).0 ≡ false) (omega arith)
                  (subst (λ c. (scan s n rounds (n - (r + 1)) c).0 ≡ false) (omega arith)
                    (scan_none rounds (r + 1) q nw room (omega arith) (RunFree-suc q r behind free)
                      none_left)))
          | no full ↦
              let (i, h, used) = none_left q (omega arith) (omega arith) in
              let unused : read_bitmap s (q + i) ≡ false =
                RunFree-suc q r behind free i (omega arith) in
              absurd (cc)
        ]
      ]
