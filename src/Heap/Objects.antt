-- ===== src/Heap/Objects.antt =====
-- Objects of the kernel heap of root/src/kernel/lib/alloc.c: `kalloc` keeps them apart.
use qword.Prelude.{
  ℕ, ◌+◌, ◌-◌, ◌*◌, ◌/◌, ◌%◌, ◌^◌, ◌<◌, ◌≤◌, ◌==◌, leb, if◌then◌else◌, true, false, Bool-cases,
}
use qword.Prelude.{some, ◌≡◌, ◌⊎◌, inl, inr, refl, sym, ap, subst, ◌∙◌, arith}
use qword.Klib.Memory.Copy.{inside}
use qword.Pmm.{pmm_alloc, read_bitmap, bitmap_base, page_size}
use qword.Pmm.Scan.{RunFree}
use qword.Pmm.FirstFit.{first_fit, first_fit-some}
use qword.Pmm.Alloc.{Addressable, within, starts, pmm_alloc-first_fit}
use qword.Heap.{no_metadata, Heap, alloc_zeroed, page_count, metadata_page, set_metadata, kalloc}

-- An object: its pages and the one before them are used, and its metadata are right.
pub record Object (h : Heap) (ptr size : ℕ) : Type 0 where
  pub aligned : ptr % page_size ≡ 0
  pub base : bitmap_base + 1 ≤ ptr / page_size
  pub top : ptr / page_size + page_count size ≤ 2 ^ 52
  pub metadata : h.metadata (metadata_page ptr) ≡ record { pages = page_count size; size = size }
  pub used :
      (q : ℕ)
      → metadata_page ptr ≤ q
      → q < ptr / page_size + page_count size
      → read_bitmap h.pmm q ≡ true

-- Memory for an object of a size: the first run of free pages that is long enough starts at page `p`.
pub record Room (h : Heap) (size p : ℕ) : Type 0 where
  pub small : Addressable h.pmm
  pub base : bitmap_base ≤ h.pmm.cur_ptr
  pub run :
      first_fit h.pmm
        (page_count size + 1)
        h.pmm.cur_ptr
        (starts h.pmm (page_count size + 1) h.pmm.cur_ptr)
      ≡ some p

-- Two objects, with the pages of their metadata, share no page.
abbrev pub Apart : ℕ → ℕ → ℕ → ℕ → Type 0
Apart a size b other_size =
    (a / page_size + page_count size ≤ metadata_page b)
    ⊎ (b / page_size + page_count other_size ≤ metadata_page a)

-- The heap after `kalloc`, where the pages start at address `a` and number `p`.
abbrev pub built : Heap → ℕ → ℕ → ℕ → Heap
built h size a p =
    set_metadata
      (record {
        pmm = (pmm_alloc h.pmm (page_count size + 1)).1;
        mem = λ x. if inside a ((page_count size + 1) * page_size) x then 0 else h.mem x;
        metadata = λ q. if within p (page_count size + 1) q then no_metadata else h.metadata q;
      })
      p (record { pages = page_count size; size = size })

abbrev pub with_object : Heap → ℕ → ℕ → Heap
with_object h size p = built h size (p * page_size) p

kalloc-built :
    (h : Heap) (size : ℕ)
    → ((pmm_alloc h.pmm (page_count size + 1)).0 == 0) ≡ false
    → let a = (pmm_alloc h.pmm (page_count size + 1)).0 in
      kalloc h size ≡ (a + page_size, built h size a (a / page_size))
unfolding kalloc alloc_zeroed
kalloc-built h size real = rw (kalloc, alloc_zeroed, real, real) refl

pub kalloc_result :
    (h : Heap) (size p : ℕ)
    → Room h size p
    → kalloc h size ≡ ((p + 1) * page_size, with_object h size p)
kalloc_result h size p room =
    let n = page_count size + 1 in
    let (ptr, cur, entries, bits) =
      pmm_alloc-first_fit h.pmm n {p = p} room.small (omega arith) room.base room.run in
    let (lo, hi, run, before) =
      first_fit-some h.pmm n h.pmm.cur_ptr (starts h.pmm n h.pmm.cur_ptr) {p = p} room.run in
    let real : ((pmm_alloc h.pmm n).0 == 0) ≡ false = ground (arith, ptr, lo, room.base) in
    let page : p * page_size / page_size ≡ p = omega arith in
    let next : p * page_size + page_size ≡ (p + 1) * page_size = omega arith in
    kalloc-built h size real
    ∙ ap (λ a. (a + page_size, built h size a (a / page_size))) ptr
    ∙ ap (λ q. (p * page_size + page_size, built h size (p * page_size) q)) page
    ∙ ap (λ a. (a, with_object h size p)) next

-- Free pages are apart from every object.
free-Apart :
    (h : Heap) (size p other other_size : ℕ)
    → Object h other other_size
    → RunFree h.pmm p (page_count size + 1)
    → (p + 1 + page_count size ≤ metadata_page other)
      ⊎ (other / page_size + page_count other_size ≤ p + 1 - 1)
free-Apart h size p other other_size o run = elim (Bool-cases (leb p (metadata_page other))) [
  | inl before ↦ elim (Bool-cases (leb (p + 1 + page_count size) (metadata_page other))) [
    | inl apart ↦ inl (ground (arith, apart))
    | inr within_it ↦
        let first : metadata_page other - p < page_count size + 1 =
          ground (arith, before, within_it) in
        let free = run (metadata_page other - p) first in
        let same : p + (metadata_page other - p) ≡ metadata_page other = ground (arith, before) in
        let busy = o.used (metadata_page other) (omega arith) (omega (arith, o.base)) in
        ground (arith, sym free ∙ ap (read_bitmap h.pmm) same ∙ busy)
  ]
  | inr after ↦ elim (Bool-cases (leb (other / page_size + page_count other_size) p)) [
    | inl apart ↦ inr (ground (arith, apart))
    | inr within_it ↦
        let busy = o.used p (ground (arith, after)) (ground (arith, within_it)) in
        let free = run 0 (omega arith) in
        let same : p + 0 ≡ p = omega arith in
        ground (arith, sym free ∙ ap (read_bitmap h.pmm) same ∙ busy)
  ]
]

-- The new object, its zeros, and the objects that were there before.
pub with_object_lem :
    (h : Heap) (size p : ℕ)
    → Room h size p
    → let ptr = (p + 1) * page_size in
      let h' = with_object h size p in
      Object h' ptr size
      × ((x : ℕ) → ptr ≤ x → x < ptr + size → h'.mem x ≡ 0)
      × ((other other_size : ℕ)
          → Object h other other_size
          → Object h' other other_size
            × Apart ptr size other other_size
            × ((x : ℕ) → other ≤ x → x < other + other_size → h'.mem x ≡ h.mem x))
with_object_lem h size p room =
    let n = page_count size + 1 in
    let (ptr, cur, entries, bits) =
      pmm_alloc-first_fit h.pmm n {p = p} room.small (omega arith) room.base room.run in
    let (lo, hi, run, before) =
      first_fit-some h.pmm n h.pmm.cur_ptr (starts h.pmm n h.pmm.cur_ptr) {p = p} room.run in
    let page : (p + 1) * page_size / page_size ≡ p + 1 = omega arith in
    (
      record {
        aligned = omega arith;
        base = omega (arith, lo, room.base);
        top = omega (arith, hi, room.small);
        metadata = ground arith;
        used = λ q l u.
            bits q (omega (arith, lo, room.base, l)) (omega (arith, u, hi, room.small))
            ∙ ground (arith, l, u);
      },
      λ x l u. ground (arith, l, u),
      λ other other_size o.
          let apart = free-Apart h size p other other_size o run in
          (
            record {
              aligned = o.aligned;
              base = o.base;
              top = o.top;
              metadata = ground (arith, apart, o.base, o.metadata);
              used = λ q l u.
                  bits q (omega (arith, l, o.base)) (omega (arith, u, o.top))
                  ∙ ground (arith, o.used q l u);
            },
            subst
                (λ k.
                  (k + page_count size ≤ metadata_page other)
                  ⊎ (other / page_size + page_count other_size ≤ k - 1))
                (sym page) apart,
            λ x l u. ground (arith, apart, l, u, o.base, o.aligned),
          ),
    )

-- With memory `kalloc` returns an object with zeros. Every object that was there before is an object
-- with the same bytes, and shares no page with the new one.
pub kalloc_lem :
    (h : Heap) (size p : ℕ)
    → Room h size p
    → let (ptr, h') = kalloc h size in
      Object h' ptr size
      × ((x : ℕ) → ptr ≤ x → x < ptr + size → h'.mem x ≡ 0)
      × ((other other_size : ℕ)
          → Object h other other_size
          → Object h' other other_size
            × Apart ptr size other other_size
            × ((x : ℕ) → other ≤ x → x < other + other_size → h'.mem x ≡ h.mem x))
kalloc_lem h size p room = rw (kalloc_result h size p room) (with_object_lem h size p room)
