-- ===== src/Pmm/Alloc.antt =====
-- What `pmm_alloc` and `pmm_free` (root/src/kernel/mm/pmm.c) do to the pages of the bitmap.
use qword.Prelude.{ℕ, ◌+◌, ◌-◌, ◌*◌, ◌/◌, ◌%◌, ◌^◌, ◌≤◌, ◌<◌, ◌≡◌, ◌⊎◌, inl, inr, arith}
use qword.Prelude.{
  Bool, true, false, ◌&&◌, if◌then◌else◌, ltb, leb, none, some, refl, subst, sym, ap, ◌∙◌,
  Option-cases, Bool-cases,
}
use qword.Pmm.{Pmm, page_size, bitmap_base, word, offset, run_length, read_bitmap, set_bitmap}
use qword.Pmm.{unset_bitmap, scan, pmm_alloc, pmm_free}
use qword.Pmm.Scan.{limit, write_bits_lem, RunFree, NoRun, scan_first, scan_none}
use qword.Pmm.FirstFit.{first_fit, first_fit-some, first_fit-none}

-- Every page address fits in 64 bits.
abbrev pub Addressable : Pmm → Type 0
Addressable s = limit s ≤ 2 ^ 52

-- Page `q` is one of the `n` pages from `p` on.
abbrev pub within : ℕ → ℕ → ℕ → Bool
within p n q = leb p q && ltb q (p + n)

-- The starts that leave room for `n` pages between page `lo` and the limit.
abbrev pub starts : Pmm → ℕ → ℕ → ℕ
starts s n lo = limit s + 1 - n - lo

pub read-set_bitmap :
    (s : Pmm) (p n q : ℕ)
    → bitmap_base ≤ p
    → p + n ≤ 2 ^ 52
    → bitmap_base ≤ q
    → q < word
    → read_bitmap (set_bitmap s p n) q ≡ (if within p n q then true else read_bitmap s q)
unfolding read_bitmap set_bitmap
read-set_bitmap s p n q bp small bq wq =
    ground (arith, write_bits_lem s.bits (offset p) (run_length (offset p) n) true (offset q))

pub read-unset_bitmap :
    (s : Pmm) (p n q : ℕ)
    → bitmap_base ≤ p
    → p + n ≤ 2 ^ 52
    → bitmap_base ≤ q
    → q < word
    → read_bitmap (unset_bitmap s p n) q ≡ (if within p n q then false else read_bitmap s q)
unfolding read_bitmap unset_bitmap
read-unset_bitmap s p n q bp small bq wq =
    ground (arith, write_bits_lem s.bits (offset p) (run_length (offset p) n) false (offset q))

pub cur_ptr-set_bitmap : (s : Pmm) (p n : ℕ) → (set_bitmap s p n).cur_ptr ≡ s.cur_ptr
unfolding set_bitmap
cur_ptr-set_bitmap s p n = refl

pub entries-set_bitmap : (s : Pmm) (p n : ℕ) → (set_bitmap s p n).entries ≡ s.entries
unfolding set_bitmap
entries-set_bitmap s p n = refl

pub entries-unset_bitmap : (s : Pmm) (p n : ℕ) → (unset_bitmap s p n).entries ≡ s.entries
unfolding unset_bitmap
entries-unset_bitmap s p n = refl

scan-first_fit :
    (s : Pmm) (n : ℕ) {p : ℕ}
    → Addressable s
    → 0 < n
    → bitmap_base ≤ s.cur_ptr
    → first_fit s n s.cur_ptr (starts s n s.cur_ptr) ≡ some p
    → (scan s n s.entries n s.cur_ptr ≡ (true, p + n)) × (s.cur_ptr ≤ p) × (p + n ≤ limit s)
scan-first_fit s n {p} small pos base e =
    let (lo, hi, run, before) = first_fit-some s n s.cur_ptr (starts s n s.cur_ptr) {p = p} e in
    let cur : s.cur_ptr + 0 ≡ s.cur_ptr = omega arith in
    let all : n - 0 ≡ n = omega arith in
    (
      subst (λ c. scan s n s.entries n c ≡ (true, p + n)) cur
          (subst (λ k. scan s n s.entries k (s.cur_ptr + 0) ≡ (true, p + n)) all
            (scan_first s n s.entries 0 s.cur_ptr p (omega arith) pos lo (omega arith) (omega arith)
              (λ i h. absurd (omega arith)) run before)),
      lo,
      omega arith,
    )

-- The two ends of the loop.
pub pmm_alloc-found :
    (s : Pmm) (n p : ℕ)
    → 0 < n
    → p + n ≤ 2 ^ 52
    → scan s n s.entries n s.cur_ptr ≡ (true, p + n)
    → pmm_alloc s n ≡ (p * page_size, set_bitmap (record s { cur_ptr = p + n }) p n)
unfolding pmm_alloc
pmm_alloc-found s n p pos small e =
    let start : (p + n + word - n) % word ≡ p = omega arith in
    let address : p * page_size % word ≡ p * page_size = omega arith in rw (e, start, address)

pmm_alloc-missing :
    (s : Pmm) (n : ℕ)
    → (scan s n s.entries n s.cur_ptr).0 ≡ false
    → ((pmm_alloc s n).0 ≡ 0) × ((pmm_alloc s n).1.bits ≡ s.bits)
unfolding pmm_alloc
pmm_alloc-missing s n e = (rw e, rw e)

-- Where a run of `n` free pages is left between the cursor and the end of the bitmap, `pmm_alloc`
-- returns the address of the first such run, moves the cursor behind it and marks exactly the pages
-- of the run as used.
pub pmm_alloc-first_fit :
    (s : Pmm) (n : ℕ) {p : ℕ}
    → Addressable s
    → 0 < n
    → bitmap_base ≤ s.cur_ptr
    → first_fit s n s.cur_ptr (starts s n s.cur_ptr) ≡ some p
    → let (ptr, s') = pmm_alloc s n in
      (ptr ≡ p * page_size)
      × (s'.cur_ptr ≡ p + n)
      × (s'.entries ≡ s.entries)
      × ((q : ℕ)
          → bitmap_base ≤ q
          → q < word
          → read_bitmap s' q ≡ (if within p n q then true else read_bitmap s q))
unfolding read_bitmap
pmm_alloc-first_fit s n {p} small pos base e =
    let (found, lo, hi) = scan-first_fit s n {p = p} small pos base e in
    rw (pmm_alloc-found s n p pos (omega arith) found) (
      refl,
      cur_ptr-set_bitmap _ p n,
      entries-set_bitmap _ p n,
      λ q bq wq.
          read-set_bitmap (record s { cur_ptr = p + n }) p n q (omega arith) (omega arith) bq wq,
    )

-- With the cursor at the first page of the bitmap, `pmm_alloc` agrees with the first-fit search over
-- all of it: it returns the address of the first run of `n` free pages, or NULL, with no bit changed,
-- where there is none.
pub pmm_alloc-from_base :
    (s : Pmm) (n : ℕ)
    → Addressable s
    → 0 < n
    → n < word
    → s.cur_ptr ≡ bitmap_base
    → let (ptr, s') = pmm_alloc s n in
      let search = first_fit s n bitmap_base (starts s n bitmap_base) in
      ((p : ℕ) × (search ≡ some p) × (ptr ≡ p * page_size) × (bitmap_base ≤ p) × (p + n ≤ limit s))
      ⊎ ((search ≡ none) × (ptr ≡ 0) × (s'.bits ≡ s.bits))
pmm_alloc-from_base s n small pos nw base =
    elim (Option-cases (first_fit s n bitmap_base (starts s n bitmap_base))) [
      | inl missing ↦
          let none_left : NoRun s n bitmap_base (limit s + 1 - n) = λ q lo hi.
            first_fit-none s n bitmap_base (starts s n bitmap_base) missing q lo (omega arith) in
          let failed : (scan s n s.entries (n - 0) (bitmap_base + 0)).0 ≡ false =
            scan_none s n s.entries 0 bitmap_base nw pos (omega arith) (λ i h. absurd (omega arith))
              none_left in
          let all : n - 0 ≡ n = omega arith in
          let cur : bitmap_base + 0 ≡ s.cur_ptr = omega arith in
          let stopped : (scan s n s.entries n s.cur_ptr).0 ≡ false =
            subst (λ k. (scan s n s.entries k s.cur_ptr).0 ≡ false) all
              (subst (λ c. (scan s n s.entries (n - 0) c).0 ≡ false) cur failed) in
          let (null, same) = pmm_alloc-missing s n stopped in inr (missing, null, same)
      | inr (p, e) ↦
          let e' : first_fit s n s.cur_ptr (starts s n s.cur_ptr) ≡ some p =
            subst (λ c. first_fit s n c (starts s n c) ≡ some p) (sym base) e in
          let (found, lo, hi) = scan-first_fit s n {p = p} small pos (omega arith) e' in
          let ptr = ap (λ r. r.0) (pmm_alloc-found s n p pos (omega arith) found) in
          inl (p, e, ptr, omega arith, hi)
    ]

run_within : (s : Pmm) (p n q : ℕ) → RunFree s p n → within p n q ≡ true → read_bitmap s q ≡ false
run_within s p n q run inside =
    let bounds : (p ≤ q) × (q < p + n) = ground arith in
    subst (λ x. read_bitmap s x ≡ false) (omega arith) (run (q - p) (omega arith))

-- Freeing what `pmm_alloc` returned gives every page of the bitmap the state that it had before.
pub pmm_free-pmm_alloc :
    (s : Pmm) (n : ℕ) {p : ℕ}
    → Addressable s
    → 0 < n
    → bitmap_base ≤ s.cur_ptr
    → first_fit s n s.cur_ptr (starts s n s.cur_ptr) ≡ some p
    → let (ptr, s') = pmm_alloc s n in
      (q : ℕ) → bitmap_base ≤ q → q < word → read_bitmap (pmm_free s' ptr n) q ≡ read_bitmap s q
unfolding pmm_free read_bitmap
pmm_free-pmm_alloc s n {p} small pos base e q bq wq =
    let (found, lo, hi) = scan-first_fit s n {p = p} small pos base e in
    let page : p * page_size / page_size ≡ p = omega arith in
    let used =
      read-set_bitmap (record s { cur_ptr = p + n }) p n q (omega arith) (omega arith) bq wq in
    let freed =
      read-unset_bitmap (set_bitmap (record s { cur_ptr = p + n }) p n) p n q (omega arith)
        (omega arith) bq wq in
    rw (pmm_alloc-found s n p pos (omega arith) found, page)
      (elim (Bool-cases (within p n q)) [
        | inl inside ↦
            freed
            ∙ rw inside
                (sym (run_within s p n q (first_fit-some s n s.cur_ptr _ {p = p} e).2 inside))
        | inr outside ↦ freed ∙ rw outside (used ∙ rw outside refl)
      ])
