-- ===== src/Heap/Tests.antt =====
-- An object of the heap of root/src/kernel/lib/alloc.c that grows.
use qword.Prelude.{ℕ, ◌+◌, ◌*◌, ◌/◌, ◌<◌, ◌≤◌, false, ◌≡◌, ◌≢◌, refl, arith}
use qword.Pmm.{pmm_alloc, scan, read_bitmap, write_bits, set_bitmap, bitmap_base, page_size}
use qword.Pmm.FirstFit.{first_fit, all_free}
use qword.Heap.{Heap, no_metadata, page_count, metadata_page, kalloc, krealloc}
use qword.Heap.Objects.{Object, Room, Apart, with_object, with_object_lem, kalloc_lem}
use qword.Heap.Resize.{krealloc_lem}

abbrev empty : Heap
empty = record {
  pmm = record { bits = λ o. false; entries = 32; cur_ptr = bitmap_base };
  mem = λ x. 7;
  metadata = λ p. no_metadata;
}

empty-Room : Room empty 100 4096
unfolding first_fit all_free read_bitmap
empty-Room = record { small = omega arith; base = omega arith; run = refl }

kalloc_lem_example :
    Object (kalloc empty 100).1 (kalloc empty 100).0 100
    × ((x : ℕ)
        → (kalloc empty 100).0 ≤ x
        → x < (kalloc empty 100).0 + 100
        → (kalloc empty 100).1.mem x ≡ 0)
    × ((other other_size : ℕ)
        → Object empty other other_size
        → Object (kalloc empty 100).1 other other_size
          × Apart (kalloc empty 100).0 100 other other_size
          × ((x : ℕ)
              → other ≤ x
              → x < other + other_size
              → (kalloc empty 100).1.mem x ≡ empty.mem x))
kalloc_lem_example = kalloc_lem empty 100 4096 empty-Room

-- The heap with an object of 100 bytes.
abbrev one_object : Heap
one_object = with_object empty 100 4096

one_object-Object : Object one_object (4097 * page_size) 100
one_object-Object = (with_object_lem empty 100 4096 empty-Room).0

krealloc_lem_example :
    (page_count 100 ≡ page_count 5000
      → ((krealloc one_object (4097 * page_size) 5000).0 ≡ 4097 * page_size)
        × Object (krealloc one_object (4097 * page_size) 5000).1 (4097 * page_size) 5000
        × ((krealloc one_object (4097 * page_size) 5000).1.mem ≡ one_object.mem))
    × ((p : ℕ)
        → page_count 100 ≢ page_count 5000
        → Room one_object 5000 p
        → Object
            (krealloc one_object (4097 * page_size) 5000).1
            (krealloc one_object (4097 * page_size) 5000).0
            5000
          × ((i : ℕ)
              → i < 100
              → i < 5000
              → (krealloc one_object (4097 * page_size) 5000).1.mem
                  ((krealloc one_object (4097 * page_size) 5000).0 + i)
                ≡ one_object.mem (4097 * page_size + i))
          × ((r : ℕ)
              → metadata_page (4097 * page_size) ≤ r
              → r < 4097 * page_size / page_size + page_count 100
              → read_bitmap (krealloc one_object (4097 * page_size) 5000).1.pmm r ≡ false))
krealloc_lem_example =
    krealloc_lem one_object (4097 * page_size) 100 5000 one_object-Object (omega arith)
      (omega arith) (omega arith)

one_object-Room : Room one_object 5000 4098
unfolding first_fit all_free read_bitmap pmm_alloc scan set_bitmap write_bits
one_object-Room = record { small = omega arith; base = omega arith; run = refl }
