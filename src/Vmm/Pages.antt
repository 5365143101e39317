-- ===== src/Vmm/Pages.antt =====
-- `map_page` of root/src/kernel/mm/vmm.c against a map from the addresses of pages to entries.
use qword.Vmm.{
  Machine, page_of, set_entry, table_entry, index_at, bit_or, map_in_pt, map_in_pd, map_in_pdpt,
  map_page, tables_of, page_size,
}
use qword.Vmm.Walk.{child, walk, entry_at}
use qword.Vmm.Leaf.{walk-written, written-Distinct, entry-written, entry-unwritten}
use qword.Vmm.Grow.{Space, Space-less, level}
use qword.Prelude.{ℕ, suc, ◌/◌, ◌%◌, ◌^◌, ◌==◌, ◌≡◌, ◌≢◌, ◌⊎◌, inl, inr, refl, sym, ap, subst, ◌∙◌}
use qword.Prelude.{Bool, true, false, Bool-cases, none, some, get_or, List, [], ◌∷◌, length, arith}

-- The path to the table of a page, and its entry.
abbrev pub path_of : ℕ → List ℕ
path_of virt_addr = index_at 21 virt_addr ∷ index_at 30 virt_addr ∷ index_at 39 virt_addr ∷ []

-- The part of an address that the tables look at, without the place in the page.
abbrev pub page_number : ℕ → ℕ
page_number virt_addr = virt_addr / page_size % 2 ^ 36

abbrev pub entry_of : Machine → ℕ → ℕ → ℕ
entry_of m root virt_addr = entry_at m.mem root (path_of virt_addr) (index_at 12 virt_addr)

-- The call went well, the page map is in order, its page has entry `v`, and the other pages have what
-- they had before.
abbrev pub Mapped : Machine → ℕ → ℕ → ℕ → ℕ → Bool × Machine → Type 0
Mapped m root n virt_addr v result =
    (result.0 ≡ true)
    × Space result.1 root n
    × (entry_of result.1 root virt_addr ≡ v)
    × ((other : ℕ)
        → page_number other ≢ page_number virt_addr
        → entry_of result.1 root other ≡ entry_of m root other)

-- Pages with two numbers differ in a table or in the entry.
pub page_number-apart :
    (a b : ℕ)
    → page_number a ≢ page_number b
    → (path_of a ≢ path_of b) ⊎ (index_at 12 a ≢ index_at 12 b)
page_number-apart a b h = elim (Bool-cases (index_at 12 a == index_at 12 b)) [
  | inl same ↦
      let equal : index_at 12 a ≡ index_at 12 b = ground (arith, same) in
      inl (λ e. h (
        omega (
          arith,
          equal,
          ap (λ l. get_or l 0 0) e,
          ap (λ l. get_or l 1 0) e,
          ap (λ l. get_or l 2 0) e,
        )))
  | inr differ ↦ inr (ground arith)
]

-- A change that leaves the entries of all pages alone does not matter.
from-Mapped :
    (m before : Machine) (root n virt_addr v : ℕ) (result : Bool × Machine)
    → ((q : List ℕ) (d : ℕ) → length q ≡ 3 → entry_at m.mem root q d ≡ entry_at before.mem root q d)
    → Mapped m root n virt_addr v result
    → Mapped before root n virt_addr v result
from-Mapped m before root n virt_addr v result same (done, space, here, apart) =
    (done, space, here, λ other h. apart other h ∙ same (path_of other) (index_at 12 other) refl)

less-Mapped :
    (m : Machine) (root n virt_addr v : ℕ) (result : Bool × Machine)
    → Mapped m root (suc n) virt_addr v result
    → Mapped m root n virt_addr v result
less-Mapped m root n virt_addr v result (done, space, here, apart) =
    (done, Space-less space, here, apart)

pub written-Mapped :
    (m : Machine) (root n t virt_addr v : ℕ)
    → Space m root n
    → walk m.mem root (path_of virt_addr) ≡ some t
    → Mapped m root n virt_addr v (true, set_entry m t (index_at 12 virt_addr) v)
unfolding set_entry
written-Mapped m root n t virt_addr v space here =
    let p = path_of virt_addr in
    let i = index_at 12 virt_addr in
    (
      refl,
      record {
        distinct = written-Distinct m.mem root t i v p space.distinct refl here;
        marked = λ q s h e.
            space.marked q s h
              (sym (walk-written m.mem root t i v p space.distinct refl here q h) ∙ e);
        ready = space.ready;
      },
      entry-written m.mem root t i v p space.distinct refl here,
      λ other apart.
          entry-unwritten m.mem root t i v p space.distinct refl here (path_of other)
            (index_at 12 other) refl (page_number-apart other virt_addr apart),
    )

map_in_pd-Mapped :
    (m : Machine) (root pdpt pd phys virt flags : ℕ)
    → Space m root 1
    → pdpt ≢ 0
    → walk m.mem root (index_at 30 virt ∷ index_at 39 virt ∷ []) ≡ some pd
    → Mapped m root 0 virt (bit_or 64 phys flags) (map_in_pd m phys virt flags pdpt pd)
unfolding map_in_pt map_in_pd
map_in_pd-Mapped m root pdpt pd phys virt flags space pos here =
    let i = index_at 21 virt in
    let entry = bit_or 64 phys flags in
    let real : (pdpt == 0) ≡ false = ground (arith, pos) in
    elim (level m root 0 pd i (index_at 30 virt ∷ index_at 39 virt ∷ []) space here (omega arith)
      (omega arith)) [
        | inl (there, found) ↦
            let goes : map_in_pd m phys virt flags pdpt pd
                ≡ map_in_pt m phys virt flags (page_of (m.mem pd i)) =
              rw (map_in_pd, there) refl in
            subst (Mapped m root 0 virt entry) (sym goes)
              (written-Mapped m root 0 (page_of (m.mem pd i)) virt entry (Space-less space) found)
        | inr (missing, (g, m1, e, pos1, grown, found, same)) ↦
            let m2 = set_entry m1 pd i (table_entry g) in
            let goes : map_in_pd m phys virt flags pdpt pd ≡ map_in_pt m2 phys virt flags g =
              rw (map_in_pd, missing, e, real) refl in
            subst (Mapped m root 0 virt entry) (sym goes) (
              from-Mapped m2 m root 0 virt entry (map_in_pt m2 phys virt flags g) same
                (written-Mapped m2 root 0 g virt entry grown found))
      ]

map_in_pdpt-Mapped :
    (m : Machine) (root pdpt phys virt flags : ℕ)
    → Space m root 2
    → pdpt ≢ 0
    → walk m.mem root (index_at 39 virt ∷ []) ≡ some pdpt
    → Mapped m root 0 virt (bit_or 64 phys flags) (map_in_pdpt m phys virt flags pdpt)
unfolding map_in_pdpt
map_in_pdpt-Mapped m root pdpt phys virt flags space pos here =
    let i = index_at 30 virt in
    let entry = bit_or 64 phys flags in
    let real : (pdpt == 0) ≡ false = ground (arith, pos) in
    elim (level m root 1 pdpt i (index_at 39 virt ∷ []) space here (omega arith) (omega arith)) [
      | inl (there, found) ↦
          let pd = page_of (m.mem pdpt i) in
          let goes : map_in_pdpt m phys virt flags pdpt ≡ map_in_pd m phys virt flags pdpt pd =
            rw (map_in_pdpt, there) refl in
          subst (Mapped m root 0 virt entry) (sym goes)
            (map_in_pd-Mapped m root pdpt pd phys virt flags (Space-less space) pos found)
      | inr (missing, (g, m1, e, pos1, grown, found, same)) ↦
          let m2 = set_entry m1 pdpt i (table_entry g) in
          let goes : map_in_pdpt m phys virt flags pdpt ≡ map_in_pd m2 phys virt flags pdpt g =
            rw (map_in_pdpt, missing, e, real) refl in
          subst (Mapped m root 0 virt entry) (sym goes) (
            from-Mapped m2 m root 0 virt entry (map_in_pd m2 phys virt flags pdpt g) same
              (map_in_pd-Mapped m2 root pdpt g phys virt flags grown pos found))
    ]

-- With memory for three tables `map_page` succeeds, keeps the page map in order, gives the page its
-- address with the flags, and leaves every other page as it was.
pub map_page-Mapped :
    (m : Machine) (root phys virt flags : ℕ)
    → Space m root 3
    → Mapped m root 0 virt (bit_or 64 phys flags) (map_page m root phys virt flags)
unfolding map_page walk
map_page-Mapped m root phys virt flags space =
    let i = index_at 39 virt in
    let entry = bit_or 64 phys flags in
    elim (level m root 2 root i [] space refl (omega arith) (omega arith)) [
      | inl (there, found) ↦
          let pdpt = page_of (m.mem root i) in
          let goes : map_page m root phys virt flags ≡ map_in_pdpt m phys virt flags pdpt =
            rw (map_page, there) refl in
          let marked = space.marked (i ∷ []) pdpt (omega arith) found in
          subst (Mapped m root 0 virt entry) (sym goes) (
            map_in_pdpt-Mapped m root pdpt phys virt flags (Space-less space)
              (omega (arith, marked.0)) found)
      | inr (missing, (g, m1, e, pos1, grown, found, same)) ↦
          let m2 = set_entry m1 root i (table_entry g) in
          let real : (g == 0) ≡ false = ground (arith, pos1) in
          let goes : map_page m root phys virt flags ≡ map_in_pdpt m2 phys virt flags g =
            rw (map_page, missing, e, real) refl in
          subst (Mapped m root 0 virt entry) (sym goes) (
            from-Mapped m2 m root 0 virt entry (map_in_pdpt m2 phys virt flags g) same
              (map_in_pdpt-Mapped m2 root g phys virt flags grown pos1 found))
    ]

pub tables_of-walk :
    (m : Machine) (root virt_addr pdpt pd pt : ℕ)
    → tables_of m root virt_addr ≡ some (pdpt, pd, pt)
    → (walk m.mem root (path_of virt_addr) ≡ some pt)
      × (walk m.mem root (index_at 30 virt_addr ∷ index_at 39 virt_addr ∷ []) ≡ some pd)
      × (walk m.mem root (index_at 39 virt_addr ∷ []) ≡ some pdpt)
unfolding tables_of walk child
tables_of-walk m root virt_addr pdpt pd pt e =
    (ground (arith, e), ground (arith, e), ground (arith, e))

pub tables_of-none :
    (m : Machine) (root virt_addr : ℕ)
    → tables_of m root virt_addr ≡ none
    → walk m.mem root (path_of virt_addr) ≡ none
unfolding tables_of walk child
tables_of-none m root virt_addr e = ground (arith, e)
