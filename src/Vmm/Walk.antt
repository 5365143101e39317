-- ===== src/Vmm/Walk.antt =====
-- The tree of page tables of root/src/kernel/mm/vmm.c, and how an entry changes it.
use qword.Vmm.{present, page_of, page_table_entries, table_entry}
use mathlib.Core.Option.{none-ne-some}
use qword.Prelude.{
  ℕ, ◌<◌, ◌≤◌, ◌==◌, ltb, ◌≡◌, ◌≢◌, ◌⊎◌, inl, inr, refl, sym, ap, ◌∙◌, if◌then◌else◌,
}
use qword.Prelude.{
  false, Bool-cases, ◌&&◌, Option, Option-cases, none, some, ◌>>=◌, List, [], ◌∷◌, length, arith,
}

abbrev pub Memory : Type 0
Memory = ℕ → ℕ → ℕ

-- The table behind an entry.
unfoldable pub child : Memory → ℕ → ℕ → Option ℕ
child mem t i =
    if ltb i page_table_entries && present (mem t i) then some (page_of (mem t i)) else none

-- The table at the end of a path of indices, the last one first.
unfoldable pub walk : Memory → ℕ → List ℕ → Option ℕ
walk mem root [] = some root
walk mem root (i ∷ path) = do t ← walk mem root path; child mem t i

-- The entry `d` of the table at the end of a path, zero without the table.
unfoldable pub entry_at : Memory → ℕ → List ℕ → ℕ → ℕ
entry_at mem root path d = elim (walk mem root path) [ none ↦ 0 | some pt ↦ mem pt d ]

-- No table is at the end of two paths; tables are at most three entries below the root.
abbrev pub Distinct : Memory → ℕ → Type 0
Distinct mem root =
    (p q : List ℕ) (t : ℕ)
    → length p ≤ 3
    → length q ≤ 3
    → walk mem root p ≡ some t
    → walk mem root q ≡ some t
    → p ≡ q

-- A page that is no table.
abbrev pub Outside : Memory → ℕ → ℕ → Type 0
Outside mem root n = (q : List ℕ) → length q ≤ 3 → walk mem root q ≢ some n

-- A new table, all zeros, below the entry `i` of the table `t`.
abbrev pub linked : Memory → ℕ → ℕ → ℕ → Memory
linked mem t i n s j = if s == t && j == i then table_entry n else (if s == n then 0 else mem s j)

pub walk-cons-some :
    (mem : Memory) (root i t : ℕ) (q : List ℕ)
    → walk mem root q ≡ some t
    → walk mem root (i ∷ q) ≡ child mem t i
unfolding walk
walk-cons-some mem root i t q e = rw (walk, e) refl

pub walk-cons-none :
    (mem : Memory) (root i : ℕ) (q : List ℕ) → walk mem root q ≡ none → walk mem root (i ∷ q) ≡ none
unfolding walk
walk-cons-none mem root i q e = rw (walk, e) refl

child-linked :
    (mem : Memory) (t i n : ℕ) → i < page_table_entries → child (linked mem t i n) t i ≡ some n
unfolding child
child-linked mem t i n h = ground arith

child-other :
    (mem : Memory) (t i n s j : ℕ)
    → s ≢ n
    → (s == t && j == i) ≡ false
    → child (linked mem t i n) s j ≡ child mem s j
unfolding child
child-other mem t i n s j other miss = ground arith

child-new : (mem : Memory) (t i n j : ℕ) → n ≢ t → child (linked mem t i n) n j ≡ none
unfolding child
child-new mem t i n j other = ground arith

module _ (mem : Memory) (root t i n : ℕ) (p : List ℕ) (distinct : Distinct mem root)
    (short : length p ≤ 2) (here : walk mem root p ≡ some t) (inside : i < page_table_entries)
    (free : child mem t i ≡ none) (outside : Outside mem root n) where
  -- The new table is at the end of the new path, and the others are where they were.
  pub walk-linked :
      (q : List ℕ)
      → length q ≤ 3
      → (walk (linked mem t i n) root q ≡ walk mem root q)
        ⊎ ((q ≡ i ∷ p) × (walk mem root q ≡ none) × (walk (linked mem t i n) root q ≡ some n))
  unfolding walk child
  walk-linked [] h = inl refl
  walk-linked (j ∷ q) h = elim (walk-linked q (omega arith)) [
    | inl same ↦ elim (Option-cases (walk mem root q)) [
      | inl gone ↦ inl (
          walk-cons-none (linked mem t i n) root j q (same ∙ gone)
          ∙ sym (walk-cons-none mem root j q gone))
      | inr (s, at) ↦ elim (Bool-cases (s == t && j == i)) [
        | inl hit ↦
            let there : (s ≡ t) × (j ≡ i) = ground arith in
            let path : q ≡ p =
              distinct q p t (omega arith) (omega arith) (at ∙ ap some (there.0)) here in
            inr (
              ap (λ k. k ∷ q) (there.1) ∙ ap (λ r. i ∷ r) path,
              walk-cons-some mem root j s q at
                  ∙ ap (λ u. child mem u j) (there.0)
                  ∙ ap (child mem t) (there.1)
                  ∙ free,
              walk-cons-some (linked mem t i n) root j s q (same ∙ at)
                  ∙ ap (λ u. child (linked mem t i n) u j) (there.0)
                  ∙ ap (child (linked mem t i n) t) (there.1)
                  ∙ child-linked mem t i n inside,
            )
        | inr miss ↦
            let other : s ≢ n = λ e. outside q (omega arith) (at ∙ ap some e) in
            inl (
              walk-cons-some (linked mem t i n) root j s q (same ∙ at)
              ∙ child-other mem t i n s j other miss
              ∙ sym (walk-cons-some mem root j s q at))
      ]
    ]
    | inr (new, gone, at) ↦
        let other : n ≢ t = λ e. outside p (omega arith) (here ∙ ap some (sym e)) in
        inl (
          walk-cons-some (linked mem t i n) root j n q at
          ∙ child-new mem t i n j other
          ∙ sym (walk-cons-none mem root j q gone))
  ]

  pub linked-Distinct : Distinct (linked mem t i n) root
  linked-Distinct q r s hq hr e f = elim (walk-linked q hq) [
    | inl same ↦ elim (walk-linked r hr) [
      | inl also ↦ distinct q r s hq hr (sym same ∙ e) (sym also ∙ f)
      | inr (new, gone, at) ↦ absurd (outside q hq (sym same ∙ e ∙ sym f ∙ at))
    ]
    | inr (new, gone, at) ↦ elim (walk-linked r hr) [
      | inl also ↦ absurd (outside r hr (sym also ∙ f ∙ sym e ∙ at))
      | inr (newer, none_too, there) ↦ new ∙ sym newer
    ]
  ]

  pub linked-path : walk (linked mem t i n) root (i ∷ p) ≡ some n
  linked-path = elim (walk-linked p (omega arith)) [
    | inl same ↦
        walk-cons-some (linked mem t i n) root i t p (same ∙ here) ∙ child-linked mem t i n inside
    | inr (new, gone, at) ↦ absurd (none-ne-some t (sym gone ∙ here))
  ]

  -- No page is mapped otherwise.
  pub entry-linked :
      (q : List ℕ) (d : ℕ)
      → length q ≡ 3
      → entry_at (linked mem t i n) root q d ≡ entry_at mem root q d
  unfolding entry_at
  entry-linked q d full = elim (walk-linked q (omega (arith, full))) [
    | inr (new, gone, at) ↦
        let other : n ≢ t = λ e. outside p (omega arith) (here ∙ ap some (sym e)) in
        rw (entry_at, gone, at) (ground (arith, other))
    | inl same ↦ elim (Option-cases (walk mem root q)) [
      | inl gone ↦ rw (entry_at, same, gone) refl
      | inr (s, at) ↦
          let deep : s ≢ t = λ e. absurd (
            omega (
              arith,
              full,
              ap length (distinct q p t (omega (arith, full)) (omega arith) (at ∙ ap some e) here),
            )) in
          let other : s ≢ n = λ e. outside q (omega (arith, full)) (at ∙ ap some e) in
          rw (entry_at, same, at) (ground (arith, deep, other))
    ]
  ]
