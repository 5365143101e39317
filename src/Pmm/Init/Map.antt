-- ===== src/Pmm/Init/Map.antt =====
-- What `init_pmm` (root/src/kernel/mm/pmm.c) makes of a memory map that fits the bitmap.
use qword.Prelude.{ℕ, ◌+◌, ◌*◌, ◌/◌, ◌^◌, ◌≤◌, ◌<◌, ◌≡◌, ◌==◌, ltb, not}
use qword.Prelude.{if◌then◌else◌, Bool, true, false, some, List, [], ◌∷◌, arith}
use qword.Prelude.{refl, subst, sym, ap, ◌∙◌, Bool-cases, inl, inr}
use qword.Pmm.{page_size, bitmap_base, word, pmm_alloc, read_bitmap}
use qword.Pmm.{scan}
use qword.Pmm.Scan.{limit}
use qword.Pmm.Alloc.{within}
use qword.Pmm.Init.{Region, Boot, aligned_base, aligned_length, init_pages}
use qword.Pmm.Init.{init_regions, init_pmm, boot_pmm, fresh_bits, bits_per_page}
use qword.Pmm.Init.Pages.{Keeps, page_change, init_pages-Keeps}

-- Whether the page is used, by a map that speaks of it in some of its regions: the last of them
-- decides.
unfoldable pub covers : Region → ℕ → Bool
covers r q = within (aligned_base r / page_size) (aligned_length r / page_size) q

unfoldable pub used_by_map : List Region → ℕ → Bool → Bool
used_by_map [] q used = used
used_by_map (r ∷ rs) q used =
    let rest = used_by_map rs q (if covers r q then not (r.kind == 1) else used) in
    if r.kind == 0 then used else rest

-- No region reaches behind page `top`, and no address wraps.
abbrev pub FitsBelow : ℕ → List Region → Type 0
FitsBelow top [] = Unit {0}
FitsBelow top (r ∷ rs) =
    (r.base + page_size < word)
    × (aligned_base r + aligned_length r ≤ top * page_size)
    × FitsBelow top rs

-- The value of the firmware's map at a page, region by region.
Keeps-map : (rs : List Region) → Boot → Boot → Type 0
Keeps-map rs b b' = Keeps b b' (λ q v. if ltb bitmap_base q then used_by_map rs q v else v)

used_by_map-cons :
    (r : Region) (rs : List Region) (q : ℕ) (v : Bool)
    → (r.kind == 0) ≡ false
    → (if ltb bitmap_base q
        then used_by_map rs q
            (page_change r.kind (aligned_base r / page_size) (aligned_length r / page_size) q v)
        else page_change r.kind (aligned_base r / page_size) (aligned_length r / page_size) q v)
      ≡ (if ltb bitmap_base q then used_by_map (r ∷ rs) q v else v)
unfolding used_by_map covers
used_by_map-cons r rs q v live = elim (Bool-cases (ltb bitmap_base q)) [
  | inl above ↦ rw (above, live)
  | inr below ↦ rw below
]

Keeps-cons :
    (r : Region) (rs : List Region) (b b₁ b₂ : Boot)
    → (r.kind == 0) ≡ false
    → Keeps b b₁ (page_change r.kind (aligned_base r / page_size) (aligned_length r / page_size))
    → Keeps-map rs b₁ b₂
    → Keeps-map (r ∷ rs) b b₂
unfolding Keeps-map
Keeps-cons r rs b b₁ b₂ live k₁ k₂ = record {
  same_entries = k₂.same_entries ∙ k₁.same_entries;
  same_bitmap = k₂.same_bitmap ∙ k₁.same_bitmap;
  pages = λ q bq wq.
      k₂.pages q bq wq
      ∙ ap (λ v. if ltb bitmap_base q then used_by_map rs q v else v) (k₁.pages q bq wq)
      ∙ used_by_map-cons r rs q (read_bitmap b.pmm q) live;
}

aligned_base_lem :
    (r : Region)
    → r.base + page_size < word
    → aligned_base r / page_size * page_size ≡ aligned_base r
unfolding aligned_base
aligned_base_lem r h = ground arith

aligned_length_lem : (r : Region) → aligned_length r / page_size * page_size ≡ aligned_length r
unfolding aligned_length
aligned_length_lem r = ground arith

module _ (around : ℕ → ℕ → Bool) where
  init_regions-step :
      (r : Region) (rs : List Region) (b b₁ : Boot)
      → (r.kind == 0) ≡ false
      → init_pages around r.kind (aligned_base r) 0 (aligned_length r / page_size) b ≡ some b₁
      → init_regions around (r ∷ rs) b ≡ init_regions around rs b₁
  unfolding init_regions
  init_regions-step r rs b b₁ live e = rw (live, e)

  -- The loop over the map, where no region asks for a larger bitmap.
  init_regions-Keeps :
      (rs : List Region) (b : Boot)
      → FitsBelow (limit b.pmm) rs
      → limit b.pmm ≤ 2 ^ 51
      → (b' : Boot) × (init_regions around rs b ≡ some b') × Keeps-map rs b b'
  unfolding init_regions Keeps-map used_by_map
  init_regions-Keeps [] b fits small =
      (b, refl, record { same_entries = refl; same_bitmap = refl; pages = λ q bq wq. ground arith })
  init_regions-Keeps (r ∷ rs) b fits small = elim (Bool-cases (r.kind == 0)) [
    | inl end ↦ (
      b,
      rw end,
      record { same_entries = refl; same_bitmap = refl; pages = λ q bq wq. rw end (ground arith) },
    )
    | inr live ↦
        let (b₁, e₁, k₁) =
          init_pages-Keeps around r.kind (aligned_base r / page_size) (aligned_length r / page_size)
            0 b (omega (arith, aligned_base_lem r fits.0, aligned_length_lem r)) small in
        let (b₂, e₂, k₂) =
          init_regions-Keeps rs b₁
            (subst (λ n. FitsBelow (bitmap_base + n) rs) (sym k₁.same_entries) fits.2)
            (omega (arith, k₁.same_entries)) in
        (
          b₂,
          init_regions-step r rs b b₁ live (
                subst (λ a. init_pages around r.kind a 0 (aligned_length r / page_size) b ≡ some b₁)
                  (aligned_base_lem r fits.0) e₁)
              ∙ e₂,
          Keeps-cons r rs b b₁ b₂ live
              (subst (λ x. Keeps b b₁ (page_change r.kind x (aligned_length r / page_size)))
                (omega arith) k₁)
              k₂,
        )
  ]

-- The page of the first bitmap: BITMAP_BASE and the number of the clear bit of `initial_bitmap`.
abbrev pub first_bitmap : ℕ
first_bitmap = (bitmap_base + 7) * page_size

module _ (around : ℕ → ℕ → Bool) (image : ℕ) where
  first_alloc : (pmm_alloc (boot_pmm around image) 1).0 ≡ first_bitmap
  unfolding pmm_alloc scan boot_pmm read_bitmap
  first_alloc = refl

  abbrev first_boot : Boot
  first_boot = record {
    pmm = record (pmm_alloc (boot_pmm around image) 1).1 {
      bits =
          fresh_bits around (pmm_alloc (boot_pmm around image) 1).0 0 1
            (pmm_alloc (boot_pmm around image) 1).1.bits;
      entries = bits_per_page;
    };
    bitmap = (pmm_alloc (boot_pmm around image) 1).0;
  }

  init_pmm-regions :
      (rs : List Region) → init_pmm around image rs ≡ init_regions around rs first_boot
  unfolding init_pmm
  init_pmm-regions rs =
      let some_page : ((pmm_alloc (boot_pmm around image) 1).0 == 0) ≡ false = rw first_alloc in
      rw some_page

  first_boot-used :
      (q : ℕ)
      → bitmap_base ≤ q
      → q < bitmap_base + bits_per_page
      → read_bitmap first_boot.pmm q ≡ true
  unfolding read_bitmap fresh_bits
  first_boot-used q lo hi = ground arith

  -- Of a map whose regions fit the first bitmap `init_pmm` makes a bitmap in which a page behind the
  -- first is free exactly where the last region that covers it is usable, and the first page and the
  -- pages that no region covers are used; the bitmap lies at the page that `initial_bitmap` leaves.
  pub init_pmm-map :
      (rs : List Region)
      → FitsBelow (bitmap_base + bits_per_page) rs
      → (b : Boot) × (init_pmm around image rs ≡ some b)
        × (b.bitmap ≡ first_bitmap)
        × (b.pmm.entries ≡ bits_per_page)
        × ((q : ℕ)
            → bitmap_base ≤ q
            → q < bitmap_base + bits_per_page
            → read_bitmap b.pmm q ≡ (if ltb bitmap_base q then used_by_map rs q true else true))
  unfolding Keeps-map
  init_pmm-map rs fits =
      let (b, e, k) = init_regions-Keeps around rs first_boot fits (omega arith) in
      (
        b,
        init_pmm-regions rs ∙ e,
        k.same_bitmap ∙ first_alloc,
        k.same_entries,
        λ q lo hi.
            k.pages q lo (omega arith)
            ∙ ap (λ v. if ltb bitmap_base q then used_by_map rs q v else v)
                (first_boot-used q lo hi),
      )
