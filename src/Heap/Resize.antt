-- ===== src/Heap/Resize.antt =====
-- `krealloc` and `kfree` of root/src/kernel/lib/alloc.c on objects of the heap.
use qword.Prelude.{ℕ, ◌+◌, ◌-◌, ◌*◌, ◌/◌, ◌%◌, ◌^◌, ◌<◌, ◌≤◌, ◌==◌, ltb, if◌then◌else◌, true, false}
use qword.Prelude.{◌≡◌, ◌≢◌, ◌⊎◌, inl, inr, refl, ap, ◌∙◌, arith}
use qword.Klib.Memory.{memcpy}
use qword.Klib.Memory.Copy.{inside, memcpy_lem}
use qword.Pmm.{pmm_free, read_bitmap, bitmap_base, word, page_size}
use qword.Pmm.Alloc.{within, read-unset_bitmap}
use qword.Heap.{Heap, page_count, metadata_page, set_metadata, same_pages, kfree, krealloc}
use qword.Heap.Objects.{Object, Room, with_object, kalloc_result, with_object_lem}

-- `kfree` frees the pages of the object and the one before them, and no others.
read-kfree :
    (h : Heap) (ptr size q : ℕ)
    → Object h ptr size
    → bitmap_base ≤ q
    → q < word
    → read_bitmap (kfree h ptr).pmm q
      ≡ (if within (metadata_page ptr) (page_count size + 1) q then false else read_bitmap h.pmm q)
unfolding kfree pmm_free
read-kfree h ptr size q o b t =
    let first : (ptr - page_size) / page_size ≡ metadata_page ptr =
      omega (arith, o.aligned, o.base) in
    rw (o.metadata, first)
      (read-unset_bitmap h.pmm (metadata_page ptr) (page_count size + 1) q (omega (arith, o.base))
        (omega (arith, o.base, o.top)) b t)

same_pages_lem :
    (old new : ℕ)
    → old < 2 ^ 63
    → new < 2 ^ 63
    → same_pages old new ≡ (page_count old == page_count new)
same_pages_lem old new h k =
    let a : (old + page_size - 1) % word / page_size ≡ page_count old = ground (arith, h) in
    let b : (new + page_size - 1) % word / page_size ≡ page_count new = ground (arith, k) in
    rw (a, b) refl

krealloc_same :
    (h : Heap) (ptr old new : ℕ)
    → Object h ptr old
    → 0 < new
    → same_pages old new ≡ true
    → krealloc h ptr new
      ≡ (ptr, set_metadata h (metadata_page ptr) (record { pages = page_count old; size = new }))
unfolding krealloc
krealloc_same h ptr old new o pos same =
    let real : (ptr == 0) ≡ false = ground (arith, o.base) in
    let some_bytes : (new == 0) ≡ false = ground (arith, pos) in
    rw (krealloc, real, some_bytes, o.metadata, same) refl

-- The heap with the bytes copied, before the old object is freed.
abbrev copied_to : Heap → ℕ → ℕ → ℕ → ℕ → Heap
copied_to h ptr old new p = record (with_object h new p) {
  mem =
      memcpy (with_object h new p).mem ((p + 1) * page_size) ptr (if ltb new old then new else old);
}

krealloc_moved :
    (h : Heap) (ptr old new p : ℕ)
    → Object h ptr old
    → Object (with_object h new p) ptr old
    → Room h new p
    → 0 < new
    → same_pages old new ≡ false
    → krealloc h ptr new ≡ ((p + 1) * page_size, kfree (copied_to h ptr old new p) ptr)
unfolding krealloc
krealloc_moved h ptr old new p o o1 room pos other =
    let real : (ptr == 0) ≡ false = ground (arith, o.base) in
    let some_bytes : (new == 0) ≡ false = ground (arith, pos) in
    let differ : same_pages (h.metadata (metadata_page ptr)).size new ≡ false =
      ap (λ m. same_pages m.size new) o.metadata ∙ other in
    let given : ((p + 1) * page_size == 0) ≡ false = ground arith in
    let size : ((with_object h new p).metadata (metadata_page ptr)).size ≡ old =
      ap (λ m. m.size) o1.metadata in
    rw (krealloc, kalloc_result h new p room, real, some_bytes, differ, given)
      (ap
        (λ s. (
          (p + 1) * page_size,
          kfree
              (record (with_object h new p) {
                mem =
                    memcpy (with_object h new p).mem ((p + 1) * page_size) ptr
                      (if ltb new s then new else s);
              })
              ptr,
        ))
        size)

-- `krealloc` to a size with as many pages leaves the object where it is, with its bytes. To another
-- size, with memory for it, it returns an object that has the bytes of the old one, as far as both
-- sizes go, and the pages of the old one are free.
pub krealloc_lem :
    (h : Heap) (ptr old new : ℕ)
    → Object h ptr old
    → 0 < new
    → old < 2 ^ 63
    → new < 2 ^ 63
    → let (q, h') = krealloc h ptr new in
      (page_count old ≡ page_count new → (q ≡ ptr) × Object h' ptr new × (h'.mem ≡ h.mem))
      × ((p : ℕ)
          → page_count old ≢ page_count new
          → Room h new p
          → Object h' q new
            × ((i : ℕ) → i < old → i < new → h'.mem (q + i) ≡ h.mem (ptr + i))
            × ((r : ℕ)
                → metadata_page ptr ≤ r
                → r < ptr / page_size + page_count old
                → read_bitmap h'.pmm r ≡ false))
unfolding kfree
krealloc_lem h ptr old new o pos small_old small_new =
    let test = same_pages_lem old new small_old small_new in
    (
      λ equal.
          let same : same_pages old new ≡ true = test ∙ ground (arith, equal) in
          rw (krealloc_same h ptr old new o pos same) (
            refl,
            record {
              aligned = o.aligned;
              base = o.base;
              top = omega (arith, o.top, equal);
              metadata = ground (arith, equal);
              used = λ q l u. o.used q l (omega (arith, u, equal));
            },
            refl,
          ),
      λ p apart room.
          let (fresh, zeros, others) = with_object_lem h new p room in
          let (o1, away, bytes) = others ptr old o in
          let other : same_pages old new ≡ false = test ∙ ground (arith, apart) in
          let dest : ℕ = (p + 1) * page_size in
          let count : ℕ = if ltb new old then new else old in
          let order : (dest ≤ ptr) ⊎ (ptr + count ≤ dest) = elim away [
            | inl l ↦ inl (omega (arith, l, o.base))
            | inr l ↦ inr (ground (arith, l, o.aligned))
          ] in
          let moved = copied_to h ptr old new p in
          let o2 : Object moved ptr old = record {
            aligned = o1.aligned;
            base = o1.base;
            top = o1.top;
            metadata = o1.metadata;
            used = o1.used;
          } in
          rw (krealloc_moved h ptr old new p o o1 room pos other) (
            record {
              aligned = fresh.aligned;
              base = fresh.base;
              top = fresh.top;
              metadata = fresh.metadata;
              used = λ q l u.
                  read-kfree moved ptr old q o2 (omega (arith, l, fresh.base))
                    (omega (arith, u, fresh.top))
                  ∙ ground (arith, away, l, u, fresh.used q l u, o.base);
            },
            λ i a b.
                memcpy_lem (with_object h new p).mem dest ptr count (dest + i) order
                ∙ (let hit : inside dest count (dest + i) ≡ true = ground (arith, a, b) in
                    let off : ptr + (dest + i - dest) ≡ ptr + i = omega arith in
                    rw hit (ap (with_object h new p).mem off))
                ∙ bytes (ptr + i) (omega arith) (omega (arith, a)),
            λ r l u.
                read-kfree moved ptr old r o2 (omega (arith, l, o.base)) (omega (arith, u, o.top))
                ∙ ground (arith, l, u, o.base),
          ),
    )
