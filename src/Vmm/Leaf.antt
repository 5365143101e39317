-- ===== src/Vmm/Leaf.antt =====
-- A write to the last table of a path, of root/src/kernel/mm/vmm.c.
use qword.Vmm.Walk.{Memory, child, walk, Distinct, entry_at, walk-cons-some, walk-cons-none}
use qword.Prelude.{ℕ, ◌≤◌, ◌==◌, ◌≡◌, ◌≢◌, ◌⊎◌, inl, inr, refl, sym, ap, ◌∙◌, if◌then◌else◌}
use qword.Prelude.{◌&&◌, Option-cases, some, List, [], ◌∷◌, length, arith}

abbrev pub written : Memory → ℕ → ℕ → ℕ → Memory
written mem t i v s j = if s == t && j == i then v else mem s j

child-written :
    (mem : Memory) (t i v s j : ℕ) → s ≢ t → child (written mem t i v) s j ≡ child mem s j
unfolding child
child-written mem t i v s j other = ground (arith, other)

module _ (mem : Memory) (root t i v : ℕ) (p : List ℕ) (distinct : Distinct mem root)
    (full : length p ≡ 3) (here : walk mem root p ≡ some t) where
  -- A table that is less deep is another one.
  shallow : (q : List ℕ) (s : ℕ) → length q ≤ 2 → walk mem root q ≡ some s → s ≢ t
  shallow q s h at e = omega (
    arith,
    h,
    full,
    ap length (distinct q p t (omega arith) (omega (arith, full)) (at ∙ ap some e) here),
  )

  pub walk-written : (q : List ℕ) → length q ≤ 3 → walk (written mem t i v) root q ≡ walk mem root q
  unfolding walk
  walk-written [] h = refl
  walk-written (j ∷ q) h =
      let same = walk-written q (omega arith) in
      elim (Option-cases (walk mem root q)) [
        | inl gone ↦
            walk-cons-none (written mem t i v) root j q (same ∙ gone)
            ∙ sym (walk-cons-none mem root j q gone)
        | inr (s, at) ↦
            walk-cons-some (written mem t i v) root j s q (same ∙ at)
            ∙ child-written mem t i v s j (shallow q s (omega arith) at)
            ∙ sym (walk-cons-some mem root j s q at)
      ]

  pub written-Distinct : Distinct (written mem t i v) root
  written-Distinct q r s hq hr e f =
      distinct q r s hq hr (sym (walk-written q hq) ∙ e) (sym (walk-written r hr) ∙ f)

  pub entry-written : entry_at (written mem t i v) root p i ≡ v
  unfolding entry_at
  entry-written = rw (entry_at, walk-written p (omega (arith, full)), here) (ground arith)

  pub entry-unwritten :
      (q : List ℕ) (d : ℕ)
      → length q ≡ 3
      → (q ≢ p) ⊎ (d ≢ i)
      → entry_at (written mem t i v) root q d ≡ entry_at mem root q d
  unfolding entry_at
  entry-unwritten q d deep other =
      let same = walk-written q (omega (arith, deep)) in
      elim (Option-cases (walk mem root q)) [
        | inl gone ↦ rw (entry_at, same, gone) refl
        | inr (s, at) ↦ elim other [
          | inl apart ↦
              let differ : s ≢ t = λ e. apart (
                distinct q p t (omega (arith, deep)) (omega (arith, full)) (at ∙ ap some e) here) in
              rw (entry_at, same, at) (ground (arith, differ))
          | inr away ↦ rw (entry_at, same, at) (ground (arith, away))
        ]
      ]
