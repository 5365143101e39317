-- ===== src/Vmm/Unmap.antt =====
-- `unmap_page` and `remap_page` of root/src/kernel/mm/vmm.c against a map from the addresses of pages
-- to entries.
use qword.Pmm.{pmm_free, read_bitmap, bitmap_base, page_size}
use qword.Pmm.Alloc.{read-unset_bitmap}
use qword.Vmm.{
  Machine, set_entry, index_at, bit_or, tables_of, unmap_page, remap_page, table_free, free_empty,
  free_table,
}
use qword.Vmm.Walk.{walk, Distinct, entry_at}
use qword.Vmm.Leaf.{written, walk-written, entry-written, entry-unwritten}
use qword.Vmm.Grow.{Space}
use qword.Vmm.Pages.{
  path_of, page_number, entry_of, page_number-apart, tables_of-walk, tables_of-none,
}
use qword.Prelude.{
  ℕ, ◌-◌, ◌*◌, ◌/◌, ◌%◌, ◌^◌, ◌<◌, ◌≤◌, ◌≡◌, ◌≢◌, ◌⊎◌, inl, inr, refl, sym, ap, subst, ◌∙◌,
}
use qword.Prelude.{
  Bool, true, false, Bool-cases, Option-cases, none, some, List, [], ◌∷◌, length, arith,
}

-- Freed tables keep what they hold.
mem-free_empty : (m : Machine) (pdpt pd pt : ℕ) → (free_empty m pdpt pd pt).mem ≡ m.mem
unfolding free_table
mem-free_empty m pdpt pd pt = elim (Bool-cases (table_free m pt)) [
  | inr full ↦ rw full refl
  | inl none_left ↦ elim (Bool-cases (table_free m pd)) [
    | inr full ↦ rw (none_left, full) refl
    | inl none_there ↦ elim (Bool-cases (table_free m pdpt)) [
      | inr full ↦ rw (none_left, none_there, full) refl
      | inl no_more ↦ rw (none_left, none_there, no_more) refl
    ]
  ]
]

-- The call went well, its page has entry `v`, the other pages have what they had before, and every
-- table is where it was.
abbrev pub Changed : Machine → ℕ → ℕ → ℕ → Bool × Machine → Type 0
Changed m root virt_addr v result =
    (result.0 ≡ true)
    × (entry_of result.1 root virt_addr ≡ v)
    × ((other : ℕ)
        → page_number other ≢ page_number virt_addr
        → entry_of result.1 root other ≡ entry_of m root other)
    × ((q : List ℕ) → length q ≤ 3 → walk result.1.mem root q ≡ walk m.mem root q)

-- A page without tables is left alone.
abbrev pub Refused : Machine → ℕ → ℕ → Bool × Machine → Type 0
Refused m root virt_addr result =
    (result ≡ (false, m)) × (walk m.mem root (path_of virt_addr) ≡ none)

written-Changed :
    (m after : Machine) (root t virt_addr v : ℕ)
    → Distinct m.mem root
    → walk m.mem root (path_of virt_addr) ≡ some t
    → after.mem ≡ written m.mem t (index_at 12 virt_addr) v
    → Changed m root virt_addr v (true, after)
written-Changed m after root t virt_addr v distinct here e =
    let i = index_at 12 virt_addr in
    let p = path_of virt_addr in
    (
      refl,
      ap (λ mem. entry_at mem root p i) e ∙ entry-written m.mem root t i v p distinct refl here,
      λ other apart.
          ap (λ mem. entry_at mem root (path_of other) (index_at 12 other)) e
          ∙ entry-unwritten m.mem root t i v p distinct refl here (path_of other)
              (index_at 12 other) refl (page_number-apart other virt_addr apart),
      λ q h. ap (λ mem. walk mem root q) e ∙ walk-written m.mem root t i v p distinct refl here q h,
    )

-- `unmap_page` takes the entry of its page away and leaves those of the other pages, and `remap_page`
-- keeps the address of its page and sets the flags; both move no table, and refuse a page that has no
-- tables, with nothing changed.
pub unmap_page-remap_page :
    (m : Machine) (root virt_addr flags : ℕ)
    → Distinct m.mem root
    → (Changed m root virt_addr 0 (unmap_page m root virt_addr)
        × Changed m root virt_addr
            (bit_or 64 (entry_of m root virt_addr - entry_of m root virt_addr % page_size) flags)
            (remap_page m root virt_addr flags))
      ⊎ (Refused m root virt_addr (unmap_page m root virt_addr)
          × Refused m root virt_addr (remap_page m root virt_addr flags))
unfolding unmap_page remap_page set_entry entry_at
unmap_page-remap_page m root virt_addr flags distinct =
    elim (Option-cases (tables_of m root virt_addr)) [
      | inl missing ↦
          let gone = tables_of-none m root virt_addr missing in
          inr ((rw (unmap_page, missing) refl, gone), (rw (remap_page, missing) refl, gone))
      | inr ((pdpt, pd, pt), there) ↦
          let here = (tables_of-walk m root virt_addr pdpt pd pt there).0 in
          let i = index_at 12 virt_addr in
          let cleared = set_entry m pt i 0 in
          let changed : ℕ → ℕ = λ entry. bit_or 64 (entry - entry % page_size) flags in
          let unmaps : unmap_page m root virt_addr ≡ (true, free_empty cleared pdpt pd pt) =
            rw (unmap_page, there) refl in
          let value : m.mem pt i ≡ entry_of m root virt_addr = rw (entry_at, here) refl in
          let remaps : remap_page m root virt_addr flags
              ≡ (true, set_entry m pt i (changed (entry_of m root virt_addr))) =
            rw (remap_page, there) (ap (λ e. (true, set_entry m pt i (changed e))) value) in
          inl (
            subst (Changed m root virt_addr 0) (sym unmaps) (
                written-Changed m (free_empty cleared pdpt pd pt) root pt virt_addr 0 distinct here
                  (mem-free_empty cleared pdpt pd pt)),
            subst (Changed m root virt_addr (changed (entry_of m root virt_addr))) (sym remaps) (
                written-Changed m (set_entry m pt i (changed (entry_of m root virt_addr))) root pt
                  virt_addr (changed (entry_of m root virt_addr)) distinct here refl),
          )
    ]

-- A page that is freed is free, and free pages stay free.
read-free_table :
    (m : Machine) (t q : ℕ)
    → bitmap_base ≤ t
    → t < 2 ^ 52
    → bitmap_base ≤ q
    → q < 2 ^ 52
    → (t ≡ q) ⊎ (read_bitmap m.pmm q ≡ false)
    → read_bitmap (free_table m t).pmm q ≡ false
unfolding free_table pmm_free
read-free_table m t q bt ht bq hq free =
    let page : t * page_size / page_size ≡ t = omega arith in
    let read = read-unset_bitmap m.pmm t 1 q bt (omega (arith, ht)) bq (omega (arith, hq)) in
    rw page (read ∙ ground (arith, free))

-- A table that is empty after `unmap_page` is free for the page allocator, and still a table of the
-- page map.
unmap_page-dangles :
    (m : Machine) (root n virt_addr pdpt pd pt : ℕ)
    → Space m root n
    → tables_of m root virt_addr ≡ some (pdpt, pd, pt)
    → table_free (set_entry m pt (index_at 12 virt_addr) 0) pt ≡ true
    → let after = (unmap_page m root virt_addr).1 in
      (walk after.mem root (path_of virt_addr) ≡ some pt) × (read_bitmap after.pmm pt ≡ false)
unfolding unmap_page set_entry
unmap_page-dangles m root n virt_addr pdpt pd pt space there empty =
    let (at_pt, at_pd, at_pdpt) = tables_of-walk m root virt_addr pdpt pd pt there in
    let (b1, t1, u1) = space.marked (path_of virt_addr) pt (omega arith) at_pt in
    let (b2, t2, u2) =
      space.marked (index_at 30 virt_addr ∷ index_at 39 virt_addr ∷ []) pd (omega arith) at_pd in
    let (b3, t3, u3) = space.marked (index_at 39 virt_addr ∷ []) pdpt (omega arith) at_pdpt in
    let cleared = set_entry m pt (index_at 12 virt_addr) 0 in
    let m1 = free_table cleared pt in
    let m2 = free_table m1 pd in
    let free1 : read_bitmap m1.pmm pt ≡ false =
      read-free_table cleared pt pt b1 t1 b1 t1 (inl refl) in
    let free2 : read_bitmap m2.pmm pt ≡ false = read-free_table m1 pd pt b2 t2 b1 t1 (inr free1) in
    let free3 = read-free_table m2 pdpt pt b3 t3 b1 t1 (inr free2) in
    let after : unmap_page m root virt_addr ≡ (true, free_empty cleared pdpt pd pt) =
      rw (unmap_page, there) refl in
    let kept : walk cleared.mem root (path_of virt_addr) ≡ some pt =
      walk-written m.mem root pt (index_at 12 virt_addr) 0 (path_of virt_addr) space.distinct refl
        at_pt (path_of virt_addr) (omega arith)
      ∙ at_pt in
    (
      ap (λ r. walk r.1.mem root (path_of virt_addr)) after
          ∙ ap (λ mem. walk mem root (path_of virt_addr)) (mem-free_empty cleared pdpt pd pt)
          ∙ kept,
      ap (λ r. read_bitmap r.1.pmm pt) after ∙ elim (Bool-cases (table_free m1 pd)) [
        | inr full ↦ rw (empty, full) free1
        | inl none_left ↦ elim (Bool-cases (table_free m2 pdpt)) [
          | inr full ↦ rw (empty, none_left, full) free2
          | inl no_more ↦ rw (empty, none_left, no_more) free3
        ]
      ],
    )
