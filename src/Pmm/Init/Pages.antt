-- ===== src/Pmm/Init/Pages.antt =====
-- The loop of `init_pmm` (root/src/kernel/mm/pmm.c) over the pages of one region.
use qword.Prelude.{ℕ, zero, suc, ◌+◌, ◌*◌, ◌/◌, ◌%◌, ◌^◌, ◌≤◌, ◌<◌, ◌≡◌, ◌==◌, ltb, not}
use qword.Prelude.{if◌then◌else◌, ◌&&◌, Bool, true, false, some, arith}
use qword.Prelude.{refl, subst, sym, ap, ◌∙◌, Bool-cases, lt→ltb, inl, inr}
use native.Mathlib.Decide.{dec_lt}
use qword.Pmm.{page_size, memory_base, bitmap_base, word, read_bitmap}
use qword.Pmm.Scan.{limit}
use qword.Pmm.Alloc.{within, read-set_bitmap, read-unset_bitmap, entries-set_bitmap}
use qword.Pmm.Alloc.{entries-unset_bitmap}
use qword.Pmm.Init.{Boot, mark, init_page, init_pages}

-- The bitmap of `b'` has the size of that of `b`, and `change` tells the pages of `b'`.
pub record Keeps (b b' : Boot) (change : ℕ → Bool → Bool) : Type 0 where
  pub same_entries : b'.pmm.entries ≡ b.pmm.entries
  pub same_bitmap : b'.bitmap ≡ b.bitmap
  pub pages :
      (q : ℕ) → bitmap_base ≤ q → q < word → read_bitmap b'.pmm q ≡ change q (read_bitmap b.pmm q)

abbrev pub page_change : ℕ → ℕ → ℕ → ℕ → Bool → Bool
page_change kind first n q v = if ltb bitmap_base q && within first n q then not (kind == 1) else v

page_change-above :
    (kind page q : ℕ) (v : Bool)
    → bitmap_base < page
    → (if within page 1 q then not (kind == 1) else v) ≡ page_change kind page 1 q v
page_change-above kind page q v above = ground arith

page_change-below :
    (kind page q : ℕ) (v : Bool) → ¬ (bitmap_base < page) → v ≡ page_change kind page 1 q v
page_change-below kind page q v below = ground arith

page_change-join :
    (kind page n q : ℕ) (v : Bool)
    → page_change kind (page + 1) n q (page_change kind page 1 q v)
      ≡ page_change kind page (suc n) q v
page_change-join kind page n q v = ground arith

page_change-zero : (kind page q : ℕ) (v : Bool) → page_change kind page 0 q v ≡ v
page_change-zero kind page q v = ground arith

Keeps-join :
    (kind page n : ℕ) (b b₁ b₂ : Boot)
    → Keeps b b₁ (page_change kind page 1)
    → Keeps b₁ b₂ (page_change kind (page + 1) n)
    → Keeps b b₂ (page_change kind page (suc n))
Keeps-join kind page n b b₁ b₂ k₁ k₂ = record {
  same_entries = k₂.same_entries ∙ k₁.same_entries;
  same_bitmap = k₂.same_bitmap ∙ k₁.same_bitmap;
  pages = λ q bq wq.
      k₂.pages q bq wq
      ∙ ap (page_change kind (page + 1) n q) (k₁.pages q bq wq)
      ∙ page_change-join kind page n q (read_bitmap b.pmm q);
}

module _ (around : ℕ → ℕ → Bool) where
  mark-Keeps :
      (kind page : ℕ) (b : Boot)
      → bitmap_base ≤ page
      → page < 2 ^ 52
      → Keeps b (mark around kind page b) (λ q v. if within page 1 q then not (kind == 1) else v)
  unfolding mark
  mark-Keeps kind page b lo hi = elim (Bool-cases (kind == 1)) [
    | inl usable ↦
        rw (usable, mark)
          (record {
            same_entries = entries-unset_bitmap b.pmm page 1;
            same_bitmap = refl;
            pages = λ q bq wq. read-unset_bitmap b.pmm page 1 q lo (omega arith) bq wq;
          })
    | inr reserved ↦
        rw (reserved, mark)
          (record {
            same_entries = entries-set_bitmap b.pmm page 1;
            same_bitmap = refl;
            pages = λ q bq wq. read-set_bitmap b.pmm page 1 q lo (omega arith) bq wq;
          })
  ]

  -- A round of the page loop, for the page with the number `page`.
  init_page-Keeps :
      (kind page : ℕ) (b : Boot)
      → page < limit b.pmm
      → limit b.pmm ≤ 2 ^ 51
      → (b' : Boot) × (init_page around kind (page * page_size) b ≡ some b')
        × Keeps b b' (page_change kind page 1)
  unfolding init_page
  init_page-Keeps kind page b hi small = elim (dec_lt bitmap_base page) [
    | yes above ↦
        let kept = mark-Keeps kind page b (omega arith) (omega arith) in
        let skip : ltb (page * page_size) (memory_base + page_size) ≡ false = ground arith in
        let fits : ltb (page * page_size) (memory_base + b.pmm.entries * page_size) ≡ true =
          lt→ltb _ _ (omega arith) in
        let number : page * page_size / page_size ≡ page = omega arith in
        (
          mark around kind page b,
          rw (skip, fits, number),
          record {
            same_entries = kept.same_entries;
            same_bitmap = kept.same_bitmap;
            pages = λ q bq wq.
                kept.pages q bq wq ∙ page_change-above kind page q (read_bitmap b.pmm q) above;
          },
        )
    | no below ↦
        let skip : ltb (page * page_size) (memory_base + page_size) ≡ true =
          lt→ltb _ _ (omega arith) in
        (
          b,
          rw skip,
          record {
            same_entries = refl;
            same_bitmap = refl;
            pages = λ q bq wq. page_change-below kind page q (read_bitmap b.pmm q) below;
          },
        )
  ]

  init_pages-step :
      (kind aligned j n addr : ℕ) (b b₁ : Boot)
      → (aligned + j * page_size) % word ≡ addr
      → init_page around kind addr b ≡ some b₁
      → init_pages around kind aligned j (suc n) b ≡ init_pages around kind aligned (j + 1) n b₁
  unfolding init_pages
  init_pages-step kind aligned j n addr b b₁ address e = rw (address, e, init_pages)

  -- The page loop, for `n` pages from number `first + j` on.
  pub init_pages-Keeps :
      (kind first n j : ℕ) (b : Boot)
      → first + j + n ≤ limit b.pmm
      → limit b.pmm ≤ 2 ^ 51
      → (b' : Boot) × (init_pages around kind (first * page_size) j n b ≡ some b')
        × Keeps b b' (page_change kind (first + j) n)
  unfolding init_pages
  init_pages-Keeps kind first zero j b hi small = (
    b,
    refl,
    record {
      same_entries = refl;
      same_bitmap = refl;
      pages = λ q bq wq. sym (page_change-zero kind (first + j) q _);
    },
  )
  init_pages-Keeps kind first (suc n) j b hi small =
      let (b₁, e₁, k₁) = init_page-Keeps kind (first + j) b (omega arith) small in
      let (b₂, e₂, k₂) =
        init_pages-Keeps kind first n (j + 1) b₁ (omega (arith, k₁.same_entries))
          (omega (arith, k₁.same_entries)) in
      (
        b₂,
        init_pages-step kind (first * page_size) j n ((first + j) * page_size) b b₁ (omega arith) e₁
            ∙ e₂,
        Keeps-join kind (first + j) n b b₁ b₂ k₁
            (subst (λ x. Keeps b₁ b₂ (page_change kind x n)) (omega arith) k₂),
      )
