-- ===== src/Vmm/NoMemory.antt =====
-- `map_page` of root/src/kernel/mm/vmm.c where memory runs out.
use qword.Vmm.{
  Machine, present, page_of, set_entry, table_entry, pmm_allocz, index_at, map_in_pt, map_in_pd,
  map_in_pdpt, map_page,
}
use qword.Prelude.{ℕ, ◌≡◌, ◌≢◌, true, false, arith}

map_in_pd-succeeds :
    (m : Machine) (pdpt pd phys virt flags : ℕ)
    → pdpt ≢ 0
    → (map_in_pd m phys virt flags pdpt pd).0 ≡ true
unfolding map_in_pd map_in_pt
map_in_pd-succeeds m pdpt pd phys virt flags pos = ground (arith, pos)

map_in_pdpt-succeeds :
    (m : Machine) (pdpt phys virt flags : ℕ)
    → pdpt ≢ 0
    → (map_in_pdpt m phys virt flags pdpt).0 ≡ true
unfolding map_in_pdpt
map_in_pdpt-succeeds m pdpt phys virt flags pos = ground (
  arith,
  pos,
  map_in_pd-succeeds m pdpt (page_of (m.mem pdpt (index_at 30 virt))) phys virt flags pos,
  map_in_pd-succeeds
      (set_entry (pmm_allocz m).1 pdpt (index_at 30 virt) (table_entry (pmm_allocz m).0)) pdpt
      (pmm_allocz m).0 phys virt flags pos,
)

-- `map_page` reports a failure only if the first table below the root is missing and there is no
-- memory for it; whatever memory there is for the other two, it reports success.
map_page-fails :
    (m : Machine) (root phys virt flags : ℕ)
    → page_of (m.mem root (index_at 39 virt)) ≢ 0
    → (map_page m root phys virt flags).0 ≡ false
    → (present (m.mem root (index_at 39 virt)) ≡ false) × ((pmm_allocz m).0 ≡ 0)
unfolding map_page
map_page-fails m root phys virt flags pos e = ground (
  arith,
  pos,
  e,
  map_in_pdpt-succeeds m (page_of (m.mem root (index_at 39 virt))) phys virt flags pos,
  map_in_pdpt-succeeds
      (set_entry (pmm_allocz m).1 root (index_at 39 virt) (table_entry (pmm_allocz m).0))
      (pmm_allocz m).0 phys virt flags,
)
