-- ===== src/Pmm/Init/Grow.antt =====
-- "Reallocate bitmap" in `init_pmm` (root/src/kernel/mm/pmm.c), where the map has a hole.
use qword.Prelude.{ℕ, ◌+◌, ◌*◌, ◌/◌, ◌≤◌, ◌≡◌, ltb, inl, inr}
use qword.Prelude.{Bool, false, some, ap, sym, arith, Option-cases}
use qword.Pmm.{Pmm, page_size, memory_base, pmm_alloc, pmm_free, unset_bitmap}
use qword.Pmm.{set_bitmap}
use qword.Pmm.Scan.{limit}
use qword.Pmm.Init.{Boot, bits_per_page, grow, mark, init_page}

entries-pmm_alloc : (s : Pmm) (n : ℕ) → (pmm_alloc s n).1.entries ≡ s.entries
unfolding pmm_alloc set_bitmap
entries-pmm_alloc s n = ground arith

module _ (around : ℕ → ℕ → Bool) where
  entries-mark : (kind page : ℕ) (b : Boot) → (mark around kind page b).pmm.entries ≡ b.pmm.entries
  unfolding mark set_bitmap unset_bitmap
  entries-mark kind page b = ground arith

  -- A larger bitmap is larger by one step.
  entries-grow :
      (b b' : Boot) → grow around b ≡ some b' → b'.pmm.entries ≡ b.pmm.entries + bits_per_page
  unfolding grow pmm_free unset_bitmap
  entries-grow b b' e =
      ground (arith, entries-pmm_alloc b.pmm (b.pmm.entries / 32 * 4 / page_size + 1))

  -- `init_pmm` makes room once for a page: where the page lies more than one step behind the end of
  -- the bitmap, as behind a hole of the map, its bit is written although the bitmap still ends
  -- before it.
  pub init_page-beyond :
      (kind page : ℕ) (b b' : Boot)
      → limit b.pmm + bits_per_page ≤ page
      → init_page around kind (page * page_size) b ≡ some b'
      → (g : Boot) × (grow around b ≡ some g)
        × (b' ≡ mark around kind page g)
        × (limit g.pmm ≤ page)
        × (limit b'.pmm ≤ page)
  unfolding init_page
  init_page-beyond kind page b b' far e =
      let low : ltb (page * page_size) (memory_base + page_size) ≡ false = ground arith in
      let over : ltb (page * page_size) (memory_base + b.pmm.entries * page_size) ≡ false =
        ground arith in
      let number : page * page_size / page_size ≡ page = omega arith in
      elim (Option-cases (grow around b)) [
        | inl halted ↦ absurd (ground (arith, low, over, halted))
        | inr (g, grown) ↦
            let marked : mark around kind page g ≡ b' = ground (arith, low, over, grown, number) in
            (
              g,
              grown,
              sym marked,
              omega (arith, entries-grow b g grown),
              omega (
                arith,
                entries-grow b g grown,
                entries-mark kind page g,
                ap (λ (x : Boot). x.pmm.entries) marked,
              ),
            )
      ]
