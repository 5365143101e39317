-- ===== src/Vmm.antt =====
-- The page tables of root/src/kernel/mm/vmm.c.
--
-- Physical memory is read and written here as tables: `mem` takes the number of a page and the index
-- of one of its 512 entries. A pointer to a table is the number of its page, 0 for NULL. A call holds
-- the lock of its page map, so it is one step; the flush of the processor's cache of entries has no
-- counterpart.
pub mod Walk
pub mod Leaf
pub mod Grow
pub mod Pages
pub mod Unmap
pub mod NoMemory
mod Tests
use qword.Prelude.{
  Option, none, some, ℕ, zero, suc, ◌+◌, ◌-◌, ◌*◌, ◌/◌, ◌%◌, ◌^◌, ◌==◌, if◌then◌else◌, Bool, true,
  false, not, ◌&&◌, ◌||◌,
}
use qword.Pmm.{Pmm, pmm_alloc, pmm_free, page_size}

abbrev pub page_table_entries : ℕ
page_table_entries = 512

pub record Machine : Type 0 where
  pub pmm : Pmm
  pub mem : ℕ → ℕ → ℕ

-- `entry & 0x1`
abbrev pub present : ℕ → Bool
present entry = entry % 2 == 1

-- `entry & 0xfffffffffffff000`, as the number of a page.
abbrev pub page_of : ℕ → ℕ
page_of entry = entry / page_size

-- `(virt_addr & (0x1ff << shift)) >> shift`
abbrev pub index_at : ℕ → ℕ → ℕ
index_at shift virt_addr = virt_addr / 2 ^ shift % page_table_entries

-- The address of a table with the flags present, writable and user.
abbrev pub table_entry : ℕ → ℕ
table_entry table = table * page_size + 7

-- `a | b` on numbers of `w` bits.
pub bit_or : ℕ → ℕ → ℕ → ℕ
bit_or zero a b = 0
bit_or (suc w) a b = (if a % 2 == 1 || b % 2 == 1 then 1 else 0) + 2 * bit_or w (a / 2) (b / 2)

unfoldable pub set_entry : Machine → ℕ → ℕ → ℕ → Machine
set_entry m table i entry = record m {
  mem = λ t j. if t == table && j == i then entry else m.mem t j;
}

-- `pmm_allocz(1)`
unfoldable pub pmm_allocz : Machine → ℕ × Machine
pmm_allocz m =
    let (ptr, pmm) = pmm_alloc m.pmm 1 in
    if ptr == 0 then (0, record m { pmm = pmm }) else (
      ptr / page_size,
      record { pmm = pmm; mem = λ t j. if t == ptr / page_size then 0 else m.mem t j },
    )

unfoldable pub free_table : Machine → ℕ → Machine
free_table m table = record m { pmm = pmm_free m.pmm (table * page_size) 1 }

-- The loop over a table that looks for an entry in use: `rounds` entries from `i` on.
unfoldable pub is_empty : (ℕ → ℕ) → ℕ → ℕ → Bool
is_empty table zero i = true
is_empty table (suc rounds) i =
    let rest = is_empty table rounds (i + 1) in if present (table i) then false else rest

abbrev pub table_free : Machine → ℕ → Bool
table_free m table = is_empty (m.mem table) page_table_entries 0

-- `fail2` and `fail3` of `map_page`
abbrev pub fail2 : Machine → ℕ → Bool × Machine
fail2 m pdpt = (false, if table_free m pdpt then free_table m pdpt else m)

abbrev pub fail3 : Machine → ℕ → ℕ → Bool × Machine
fail3 m pdpt pd = if table_free m pd then fail2 (free_table m pd) pdpt else (false, m)

-- `map_page` with the table of the page.
unfoldable pub map_in_pt : Machine → ℕ → ℕ → ℕ → ℕ → Bool × Machine
map_in_pt m phys_addr virt_addr flags pt =
    (true, set_entry m pt (index_at 12 virt_addr) (bit_or 64 phys_addr flags))

-- From the directory on. The test is on `pdpt`, as in the source.
unfoldable pub map_in_pd : Machine → ℕ → ℕ → ℕ → ℕ → ℕ → Bool × Machine
map_in_pd m phys_addr virt_addr flags pdpt pd =
    let i = index_at 21 virt_addr in
    let (pt, m1) = pmm_allocz m in
    if present (m.mem pd i)
    then map_in_pt m phys_addr virt_addr flags (page_of (m.mem pd i))
    else (if pdpt == 0
        then fail3 m1 pdpt pd
        else map_in_pt (set_entry m1 pd i (table_entry pt)) phys_addr virt_addr flags pt)

unfoldable pub map_in_pdpt : Machine → ℕ → ℕ → ℕ → ℕ → Bool × Machine
map_in_pdpt m phys_addr virt_addr flags pdpt =
    let i = index_at 30 virt_addr in
    let (pd, m1) = pmm_allocz m in
    if present (m.mem pdpt i)
    then map_in_pd m phys_addr virt_addr flags pdpt (page_of (m.mem pdpt i))
    else (if pdpt == 0
        then fail2 m1 pdpt
        else map_in_pd (set_entry m1 pdpt i (table_entry pd)) phys_addr virt_addr flags pdpt pd)

-- Whether the page was mapped.
unfoldable pub map_page : Machine → ℕ → ℕ → ℕ → ℕ → Bool × Machine
map_page m pml4 phys_addr virt_addr flags =
    let i = index_at 39 virt_addr in
    let (pdpt, m1) = pmm_allocz m in
    if present (m.mem pml4 i)
    then map_in_pdpt m phys_addr virt_addr flags (page_of (m.mem pml4 i))
    else (if pdpt == 0
        then (false, m1)
        else map_in_pdpt (set_entry m1 pml4 i (table_entry pdpt)) phys_addr virt_addr flags pdpt)

-- The tables of an address, the directory pointers first, or none where one of them is missing.
unfoldable pub tables_of : Machine → ℕ → ℕ → Option (ℕ × ℕ × ℕ)
tables_of m pml4 virt_addr =
    let e3 = m.mem pml4 (index_at 39 virt_addr) in
    let e2 = m.mem (page_of e3) (index_at 30 virt_addr) in
    let e1 = m.mem (page_of e2) (index_at 21 virt_addr) in
    if present e3 && present e2 && present e1
    then some (page_of e3, page_of e2, page_of e1)
    else none

-- The end of `unmap_page`: tables that have become empty are freed, and their parents keep them.
abbrev pub free_empty : Machine → ℕ → ℕ → ℕ → Machine
free_empty m pdpt pd pt =
    if table_free m pt
    then (let m1 = free_table m pt in
        if table_free m1 pd
        then (let m2 = free_table m1 pd in if table_free m2 pdpt then free_table m2 pdpt else m2)
        else m1)
    else m

unfoldable pub unmap_page : Machine → ℕ → ℕ → Bool × Machine
unmap_page m pml4 virt_addr = elim (tables_of m pml4 virt_addr) [
  | none ↦ (false, m)
  | some tables ↦
      let (pdpt, pd, pt) = tables in
      (true, free_empty (set_entry m pt (index_at 12 virt_addr) 0) pdpt pd pt)
]

unfoldable pub remap_page : Machine → ℕ → ℕ → ℕ → Bool × Machine
remap_page m pml4 virt_addr flags = elim (tables_of m pml4 virt_addr) [
  | none ↦ (false, m)
  | some tables ↦
      let (pdpt, pd, pt) = tables in
      let i = index_at 12 virt_addr in
      let entry = m.mem pt i in
      (true, set_entry m pt i (bit_or 64 (entry - entry % page_size) flags))
]
