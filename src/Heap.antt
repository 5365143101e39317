-- ===== src/Heap.antt =====
-- The kernel heap, root/src/kernel/lib/alloc.c, on the page allocator of root/src/kernel/mm/pmm.c.
--
-- Addresses are physical, 0 for NULL; memory is a function from them to bytes. The page before an
-- object has its metadata, which stand in a function from the numbers of pages.
pub mod Objects
pub mod Resize
mod Tests
use qword.Prelude.{ℕ, ◌+◌, ◌-◌, ◌*◌, ◌/◌, ◌%◌, ◌^◌, ◌==◌, ltb, if◌then◌else◌, Bool}
use qword.Klib.{Mem}
use qword.Klib.Memory.{memcpy}
use qword.Klib.Memory.Copy.{inside}
use qword.Pmm.{Pmm, pmm_alloc, pmm_free, page_size, word}
use qword.Pmm.Alloc.{within}

-- `alloc_metadata_t`
pub record AllocMetadata : Type 0 where
  pub pages : ℕ
  pub size : ℕ

pub record Heap : Type 0 where
  pub pmm : Pmm
  pub mem : Mem
  pub metadata : ℕ → AllocMetadata

abbrev pub no_metadata : AllocMetadata
no_metadata = record { pages = 0; size = 0 }

-- `pmm_allocz`
unfoldable pub alloc_zeroed : Heap → ℕ → ℕ × Heap
alloc_zeroed h pg_count =
    let (ptr, pmm) = pmm_alloc h.pmm pg_count in
    if ptr == 0 then (0, record h { pmm = pmm }) else (
      ptr,
      record {
        pmm = pmm;
        mem = λ x. if inside ptr (pg_count * page_size) x then 0 else h.mem x;
        metadata = λ p. if within (ptr / page_size) pg_count p then no_metadata else h.metadata p;
      },
    )

-- The pages of an object.
abbrev pub page_count : ℕ → ℕ
page_count size = size / page_size + (if size % page_size == 0 then 0 else 1)

-- The number of the page with the metadata of an object.
abbrev pub metadata_page : ℕ → ℕ
metadata_page ptr = ptr / page_size - 1

abbrev pub set_metadata : Heap → ℕ → AllocMetadata → Heap
set_metadata h page m = record h { metadata = λ p. if p == page then m else h.metadata p }

unfoldable pub kalloc : Heap → ℕ → ℕ × Heap
kalloc h size =
    let (ptr, h1) = alloc_zeroed h (page_count size + 1) in
    if ptr == 0 then (0, h1) else (
      ptr + page_size,
      set_metadata h1 (ptr / page_size) (record { pages = page_count size; size = size }),
    )

unfoldable pub kfree : Heap → ℕ → Heap
kfree h ptr = record h {
  pmm = pmm_free h.pmm (ptr - page_size) ((h.metadata (metadata_page ptr)).pages + 1);
}

-- The test whether the pages that an object has are enough, on a `size_t`.
abbrev pub same_pages : ℕ → ℕ → Bool
same_pages old new =
    (old + page_size - 1) % word / page_size == (new + page_size - 1) % word / page_size

unfoldable pub krealloc : Heap → ℕ → ℕ → ℕ × Heap
krealloc h ptr new =
    let old = h.metadata (metadata_page ptr) in
    let (new_ptr, h1) = kalloc h new in
    let size = (h1.metadata (metadata_page ptr)).size in
    let copied = record h1 {
      mem = memcpy h1.mem new_ptr ptr (if ltb new size then new else size);
    } in
    if ptr == 0
    then kalloc h new
    else (if new == 0
        then (0, kfree h ptr)
        else (if same_pages old.size new
            then (ptr, set_metadata h (metadata_page ptr) (record old { size = new }))
            else (if new_ptr == 0 then (0, h1) else (new_ptr, kfree copied ptr))))
