-- ===== src/Pmm/Rewind.antt =====
-- The cursor of `pmm_alloc` (root/src/kernel/mm/pmm.c) at the end of the bitmap.
use qword.Prelude.{ℕ, zero, suc, ◌+◌, ◌-◌, ◌*◌, ◌≤◌, ◌<◌, ◌≡◌, arith, true, subst, sym, ap, ◌∙◌}
use qword.Pmm.{Pmm, page_size, memory_base, bitmap_base, rewind, scan, pmm_alloc}
use qword.Pmm.Scan.{limit, RunFree, scan_first}
use qword.Pmm.Alloc.{Addressable, pmm_alloc-found}

module _ (s : Pmm) (n : ℕ) (below : n < limit s) where
  rewind-limit : rewind s n (limit s) ≡ n
  rewind-limit = ground arith

  rewind-below : rewind s n n ≡ n
  rewind-below = ground arith

  -- At the end the loop goes on from page `n`.
  scan-limit : (rounds k : ℕ) → scan s n (suc rounds) k (limit s) ≡ scan s n (suc rounds) k n
  unfolding scan
  scan-limit rounds k = rw (rewind-limit, rewind-below)

  scan-limit_of_pos :
      (rounds k : ℕ) → 0 < rounds → scan s n rounds k (limit s) ≡ scan s n rounds k n
  scan-limit_of_pos zero k h = absurd (omega arith)
  scan-limit_of_pos (suc rounds) k h = scan-limit rounds k

-- At the end of the bitmap `pmm_alloc` does not go back to the first page: it sets the cursor to the
-- page count. Where the memory read for the pages `n` to `2 * n - 1` happens to hold zeros, it
-- returns page `n`, an address below the memory that the bitmap speaks of.
pub pmm_alloc-rewinds :
    (s : Pmm) (n : ℕ)
    → Addressable s
    → s.cur_ptr ≡ limit s
    → 0 < n
    → n ≤ s.entries
    → n < bitmap_base
    → RunFree s n n
    → ((pmm_alloc s n).0 ≡ n * page_size) × ((pmm_alloc s n).0 < memory_base)
pmm_alloc-rewinds s n small end pos fits low run =
    let all : n - 0 ≡ n = omega arith in
    let cur : n + 0 ≡ n = omega arith in
    let found : scan s n s.entries (n - 0) (n + 0) ≡ (true, n + n) =
      scan_first s n s.entries 0 n n (omega arith) pos (omega arith) (omega arith) (omega arith)
        (λ i h. absurd (omega arith)) run (λ q lo hi. absurd (omega arith)) in
    let from_n : scan s n s.entries n n ≡ (true, n + n) =
      subst (λ k. scan s n s.entries k n ≡ (true, n + n)) all
        (subst (λ c. scan s n s.entries (n - 0) c ≡ (true, n + n)) cur found) in
    let from_end : scan s n s.entries n s.cur_ptr ≡ (true, n + n) =
      subst (λ c. scan s n s.entries n c ≡ (true, n + n)) (sym end)
        (scan-limit_of_pos s n (omega arith) s.entries n (omega arith) ∙ from_n) in
    let ptr = ap (λ r. r.0) (pmm_alloc-found s n n pos (omega arith) from_end) in
    (ptr, omega (arith, ptr))
