-- ===== src/Pmm/Init.antt =====
-- `init_pmm` of root/src/kernel/mm/pmm.c: the bitmap is built from the memory map of the firmware,
-- and moved to a larger place as the map goes on.
pub mod Pages
pub mod Map
pub mod Grow
use qword.Prelude.{ℕ, zero, suc, ◌+◌, ◌-◌, ◌*◌, ◌/◌, ◌%◌, ◌==◌, ltb, not, if◌then◌else◌, ◌&&◌}
use qword.Prelude.{Bool, true, Option, none, some, List, [], ◌∷◌}
use qword.Pmm.{Pmm, page_size, memory_base, bitmap_base, word, pmm_alloc, pmm_free}
use qword.Pmm.{set_bitmap, unset_bitmap}

-- `struct e820_entry_t`; `kind` is the field `type`, 0 behind the last entry and 1 for usable memory.
pub record Region : Type 0 where
  pub base : ℕ
  pub length : ℕ
  pub kind : ℕ

-- The allocator with the physical address at which its bitmap lies.
pub record Boot : Type 0 where
  pub pmm : Pmm
  pub bitmap : ℕ

-- BMREALLOC_STEP pages of bitmap hold this many bits.
abbrev pub bits_per_page : ℕ
bits_per_page = page_size / 4 * 32

unfoldable pub aligned_base : Region → ℕ
aligned_base r =
    if r.base % page_size == 0 then r.base else (r.base + (page_size - r.base % page_size)) % word

unfoldable pub aligned_length : Region → ℕ
aligned_length r =
    let len = r.length / page_size * page_size in
    if not (r.base % page_size == 0) && not (len == 0) then len - page_size else len

-- `around a o` is the bit that lies at offset `o` from address `a`, outside of a bitmap there.
module _ (around : ℕ → ℕ → Bool) where
  -- A bitmap of `pages` pages at `ptr`, whose first `old` bits are copied and whose rest is used.
  unfoldable pub fresh_bits : ℕ → ℕ → ℕ → (ℕ → Bool) → ℕ → Bool
  fresh_bits ptr old pages bits o =
      if ltb o old then bits o else (if ltb o (pages * bits_per_page) then true else around ptr o)

  -- "Reallocate bitmap"; `none` is the halt on a failed allocation.
  unfoldable pub grow : Boot → Option Boot
  grow b =
      let cur_pages = b.pmm.entries / 32 * 4 / page_size in
      let (ptr, p) = pmm_alloc b.pmm (cur_pages + 1) in
      let bigger : Pmm = record {
        bits = fresh_bits ptr (cur_pages * bits_per_page) (cur_pages + 1) p.bits;
        entries = p.entries + bits_per_page;
        cur_ptr = p.cur_ptr;
      } in
      if ptr == 0
      then none
      else some (record { pmm = pmm_free bigger b.bitmap cur_pages; bitmap = ptr })

  -- The last step for a page: it is free if its region is usable.
  unfoldable pub mark : ℕ → ℕ → Boot → Boot
  mark kind page b =
      if kind == 1
      then record b { pmm = unset_bitmap b.pmm page 1 }
      else record b { pmm = set_bitmap b.pmm page 1 }

  -- One round of the loop over the pages of a region, for the page at `addr`.
  unfoldable pub init_page : ℕ → ℕ → Boot → Option Boot
  init_page kind addr b =
      if ltb addr (memory_base + page_size)
      then some b
      else (if ltb addr (memory_base + b.pmm.entries * page_size)
          then some (mark kind (addr / page_size) b)
          else (elim (grow b) [ none ↦ none | some b' ↦ some (mark kind (addr / page_size) b') ]))

  pub init_pages : ℕ → ℕ → ℕ → ℕ → Boot → Option Boot
  init_pages kind aligned j zero b = some b
  init_pages kind aligned j (suc rounds) b =
      elim (init_page kind ((aligned + j * page_size) % word) b) [
        | none ↦ none
        | some b' ↦ init_pages kind aligned (j + 1) rounds b'
      ]

  -- The loop over the map, which ends at the first entry of type 0. `aligned_length` is a multiple of
  -- the page size, so `j * PAGE_SIZE < aligned_length` holds for as many `j` as it has pages.
  pub init_regions : List Region → Boot → Option Boot
  init_regions [] b = some b
  init_regions (r ∷ rs) b =
      let rest : Option Boot =
        elim (init_pages r.kind (aligned_base r) 0 (aligned_length r / page_size) b) [
          | none ↦ none
          | some b' ↦ init_regions rs b'
        ] in
      if r.kind == 0 then some b else rest

  -- The state at the start: `initial_bitmap`, one word that lies at address `image` of the kernel
  -- image, and in which bit 7 alone is clear.
  pub boot_pmm : ℕ → Pmm
  boot_pmm image = record {
    bits = λ o. if ltb o 32 then not (o == 7) else around image o;
    entries = 32;
    cur_ptr = bitmap_base;
  }

  pub init_pmm : ℕ → List Region → Option Boot
  init_pmm image regions =
      let (ptr, p) = pmm_alloc (boot_pmm image) 1 in
      let first : Boot = record {
        pmm = record p { bits = fresh_bits ptr 0 1 p.bits; entries = bits_per_page };
        bitmap = ptr;
      } in
      if ptr == 0 then none else init_regions regions first
