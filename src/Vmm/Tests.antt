-- ===== src/Vmm/Tests.antt =====
-- A page map without pages, of root/src/kernel/mm/vmm.c, and memory for its tables.
use qword.Pmm.{Pmm, pmm_alloc, scan, read_bitmap, write_bits, set_bitmap, bitmap_base}
use qword.Pmm.FirstFit.{first_fit, all_free}
use qword.Vmm.{Machine, bit_or, map_page, unmap_page, remap_page, page_size}
use qword.Vmm.Walk.{child, walk}
use qword.Vmm.Grow.{Ready, Space}
use qword.Vmm.Pages.{entry_of, Mapped, map_page-Mapped}
use qword.Vmm.Unmap.{Changed, Refused, unmap_page-remap_page}
use qword.Prelude.{ℕ, ◌-◌, ◌%◌, ◌==◌, ◌≡◌, ◌⊎◌, refl, sym, ◌∙◌}
use qword.Prelude.{Option-cases, some, List, [], ◌∷◌, arith}

-- The first page is the root, and the others are free.
abbrev pages : Pmm
pages = record { bits = λ o. o == 0; entries = 32; cur_ptr = bitmap_base }

abbrev blank : Machine
blank = record { pmm = pages; mem = λ t j. 0 }

blank-walk : (q : List ℕ) (t : ℕ) → walk blank.mem 4096 q ≡ some t → (q ≡ []) × (t ≡ 4096)
unfolding walk child
blank-walk [] t e = (refl, ground (arith, e))
blank-walk (i ∷ q) t e = ground (arith, e, Option-cases (walk blank.mem 4096 q))

pages-Ready : Ready pages 3
unfolding Ready first_fit all_free read_bitmap pmm_alloc scan set_bitmap write_bits
pages-Ready = (
  omega arith,
  omega arith,
  (
    4097,
    refl,
    (
      omega arith,
      omega arith,
      (4098, refl, (omega arith, omega arith, (4099, refl, (omega arith, omega arith)))),
    ),
  ),
)

blank-Space : Space blank 4096 3
unfolding read_bitmap
blank-Space = record {
  distinct = λ p q t hp hq e f. (blank-walk p t e).0 ∙ sym (blank-walk q t f).0;
  marked = λ q t h e.
      let root = (blank-walk q t e).1 in
      (omega (arith, root), omega (arith, root), ground (arith, root));
  ready = pages-Ready;
}

map_page-Mapped_example :
    Mapped blank 4096 0 0x7fff00001000
      (bit_or 64 0x2000000 7)
      (map_page blank 4096 0x2000000 0x7fff00001000 7)
map_page-Mapped_example = map_page-Mapped blank 4096 0x2000000 0x7fff00001000 7 blank-Space

abbrev one_page : Machine
one_page = (map_page blank 4096 0x2000000 0x7fff00001000 7).1

unmap_page-remap_page_example :
    (Changed one_page 4096 0x7fff00001000 0 (unmap_page one_page 4096 0x7fff00001000)
      × Changed one_page 4096 0x7fff00001000
          (bit_or 64
            (entry_of one_page 4096 0x7fff00001000
              - entry_of one_page 4096 0x7fff00001000 % page_size)
            1)
          (remap_page one_page 4096 0x7fff00001000 1))
    ⊎ (Refused one_page 4096 0x7fff00001000 (unmap_page one_page 4096 0x7fff00001000)
        × Refused one_page 4096 0x7fff00001000 (remap_page one_page 4096 0x7fff00001000 1))
unmap_page-remap_page_example =
    unmap_page-remap_page one_page 4096 0x7fff00001000 1
      (map_page-Mapped blank 4096 0x2000000 0x7fff00001000 7 blank-Space).1.distinct
