-- ===== src/Vmm/Grow.antt =====
-- New page tables from the page allocator: root/src/kernel/mm/vmm.c on root/src/kernel/mm/pmm.c.
use mathlib.Core.Option.{some-injective}
use qword.Pmm.{Pmm, pmm_alloc, read_bitmap, bitmap_base, word, page_size}
use qword.Pmm.FirstFit.{first_fit, first_fit-some}
use qword.Pmm.Alloc.{Addressable, within, starts, pmm_alloc-first_fit}
use qword.Vmm.{Machine, present, page_of, page_table_entries, set_entry, table_entry, pmm_allocz}
use qword.Vmm.Walk.{
  walk-cons-some, child, walk, Distinct, Outside, entry_at, walk-linked, linked-Distinct,
  linked-path, entry-linked,
}
use qword.Prelude.{
  ℕ, zero, suc, ◌*◌, ◌/◌, ◌^◌, ◌<◌, ◌≤◌, ◌==◌, ◌≡◌, ◌≢◌, ◌⊎◌, inl, inr, sym, ap, subst, ◌∙◌,
  if◌then◌else◌,
}
use qword.Prelude.{true, false, Bool-cases, none, some, List, ◌∷◌, length, arith}

-- `n` more pages can be allocated one after the other, before the search reaches the end of the
-- bitmap.
unfoldable pub Ready : Pmm → ℕ → Type 0
Ready s zero = Addressable s × (bitmap_base ≤ s.cur_ptr)
Ready s (suc n) =
    Addressable s
    × (bitmap_base ≤ s.cur_ptr)
    × ((p : ℕ) × (first_fit s 1 s.cur_ptr (starts s 1 s.cur_ptr) ≡ some p)
        × Ready (pmm_alloc s 1).1 n)

-- The tables of a page map are pages that the bitmap marks as used.
abbrev pub Marked : Machine → ℕ → Type 0
Marked m root =
    (q : List ℕ) (t : ℕ)
    → length q ≤ 3
    → walk m.mem root q ≡ some t
    → (bitmap_base ≤ t) × (t < 2 ^ 52) × (read_bitmap m.pmm t ≡ true)

-- A page map in order, with memory for `n` more tables.
pub record Space (m : Machine) (root : ℕ) (n : ℕ) : Type 0 where
  pub distinct : Distinct m.mem root
  pub marked : Marked m root
  pub ready : Ready m.pmm n

Ready-less : (s : Pmm) (n : ℕ) → Ready s (suc n) → Ready s n
unfolding Ready
Ready-less s zero r = (r.0, r.1)
Ready-less s (suc n) r =
    let (small, base, (p, e, rest)) = r in
    (small, base, (p, e, Ready-less (pmm_alloc s 1).1 n rest))

pub Space-less : {m : Machine} {root n : ℕ} → Space m root (suc n) → Space m root n
Space-less {m} {root} {n} space = record {
  distinct = space.distinct;
  marked = space.marked;
  ready = Ready-less m.pmm n space.ready;
}

abbrev zeroed : Machine → ℕ → Machine
zeroed m p = record { pmm = (pmm_alloc m.pmm 1).1; mem = λ t j. if t == p then 0 else m.mem t j }

-- An allocation with enough memory: a page that was free, marked as used, with zeros.
record Allocated (m : Machine) (n : ℕ) (p : ℕ) : Type 0 where
  pub base : bitmap_base ≤ p
  pub top : p < 2 ^ 52
  pub free : read_bitmap m.pmm p ≡ false
  pub result : pmm_allocz m ≡ (p, zeroed m p)
  pub bits :
      (q : ℕ)
      → bitmap_base ≤ q
      → q < word
      → read_bitmap (pmm_alloc m.pmm 1).1 q ≡ (if within p 1 q then true else read_bitmap m.pmm q)
  pub ready : Ready (pmm_alloc m.pmm 1).1 n

pmm_allocz_result :
    (m : Machine) (p : ℕ)
    → (pmm_alloc m.pmm 1).0 ≡ p * page_size
    → 0 < p
    → pmm_allocz m ≡ (p, zeroed m p)
unfolding pmm_allocz
pmm_allocz_result m p e pos =
    let some_page : ((pmm_alloc m.pmm 1).0 == 0) ≡ false = ground (arith, e, pos) in
    let page : (pmm_alloc m.pmm 1).0 / page_size ≡ p = omega (arith, e) in
    rw (pmm_allocz, some_page) (ap (λ k. (k, zeroed m k)) page)

pmm_allocz_lem : (m : Machine) (n : ℕ) → Ready m.pmm (suc n) → (p : ℕ) × Allocated m n p
unfolding Ready pmm_allocz
pmm_allocz_lem m n r =
    let (small, base, (p, e, rest)) = r in
    let (ptr, cur, entries, bits) =
      pmm_alloc-first_fit m.pmm 1 {p = p} small (omega arith) base e in
    let (lo, hi, run, before) =
      first_fit-some m.pmm 1 m.pmm.cur_ptr (starts m.pmm 1 m.pmm.cur_ptr) {p = p} e in
    (
      p,
      record {
        base = omega (arith, lo, base);
        top = omega (arith, hi, small);
        free = subst (λ q. read_bitmap m.pmm q ≡ false) (omega arith) (run 0 (omega arith));
        result = pmm_allocz_result m p ptr (omega (arith, lo, base));
        bits = bits;
        ready = rest;
      },
    )

-- One level down: the entry has a table, or gets a new one.
pub level :
    (m : Machine) (root n t i : ℕ) (p : List ℕ)
    → Space m root (suc n)
    → walk m.mem root p ≡ some t
    → length p ≤ 2
    → i < page_table_entries
    → ((present (m.mem t i) ≡ true) × (walk m.mem root (i ∷ p) ≡ some (page_of (m.mem t i))))
      ⊎ ((present (m.mem t i) ≡ false)
          × ((g : ℕ) × (m1 : Machine) × (pmm_allocz m ≡ (g, m1))
              × (g ≢ 0)
              × Space (set_entry m1 t i (table_entry g)) root n
              × (walk (set_entry m1 t i (table_entry g)).mem root (i ∷ p) ≡ some g)
              × ((q : List ℕ) (d : ℕ)
                  → length q ≡ 3
                  → entry_at (set_entry m1 t i (table_entry g)).mem root q d
                    ≡ entry_at m.mem root q d)))
unfolding set_entry child
level m root n t i p space here short inside = elim (Bool-cases (present (m.mem t i))) [
  | inl there ↦ inl (there, walk-cons-some m.mem root i t p here ∙ ground (arith, there, inside))
  | inr missing ↦
      let (g, allocated) = pmm_allocz_lem m n space.ready in
      let gone : child m.mem t i ≡ none = ground (arith, missing) in
      let outside : Outside m.mem root g =
        λ q h e. ground (arith, allocated.free, space.marked q g h e) in
      inr (
        missing,
        (
          g,
          zeroed m g,
          allocated.result,
          omega (arith, allocated.base),
          record {
            distinct =
                linked-Distinct m.mem root t i g p space.distinct short here inside gone outside;
            marked = λ q s h e.
                elim (walk-linked m.mem root t i g p space.distinct short here inside gone outside q
                  h) [
                    | inl same ↦
                        let (base, top, used) = space.marked q s h (sym same ∙ e) in
                        (
                          base,
                          top,
                          allocated.bits s base (omega (arith, top)) ∙ ground (arith, used),
                        )
                    | inr (new, nowhere, at) ↦
                        let which : g ≡ s = some-injective g s (sym at ∙ e) in
                        (
                          omega (arith, which, allocated.base),
                          omega (arith, which, allocated.top),
                          subst (λ u. read_bitmap (pmm_alloc m.pmm 1).1 u ≡ true) which
                              (allocated.bits g allocated.base (omega (arith, allocated.top))
                                ∙ ground arith),
                        )
                  ];
            ready = allocated.ready;
          },
          linked-path m.mem root t i g p space.distinct short here inside gone outside,
          entry-linked m.mem root t i g p space.distinct short here inside gone outside,
        ),
      )
]
