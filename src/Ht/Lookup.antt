-- ===== src/Ht/Lookup.antt =====
-- Names, and what a removal from a hash table of root/src/kernel/lib/ht.h leaves to look up.
use qword.Prelude.{ℕ, ◌==◌, if◌then◌else◌, true, false, ◌&&◌, Bool-cases}
use qword.Prelude.{List, [], ◌∷◌, none, ◌≡◌, refl, sym, ◌∙◌, ap, subst, arith, inl, inr}
use qword.Ht.{Entry, empty, elem, table, write, ht_get, ht_remove, ht_hash_str, same_name}

pub same_name_refl : (s : List ℕ) → same_name s s ≡ true
same_name_refl [] = refl
same_name_refl (c ∷ s) = let head : (c == c) ≡ true = ground arith in rw (head) (same_name_refl s)

pub same_name→≡ : (s u : List ℕ) → same_name s u ≡ true → s ≡ u
same_name→≡ [] [] h = refl
same_name→≡ [] (d ∷ ds) h = absurd (ground arith)
same_name→≡ (c ∷ cs) [] h = absurd (ground arith)
same_name→≡ (c ∷ cs) (d ∷ ds) h = elim (Bool-cases (c == d)) [
  | inl e ↦
      let same : c ≡ d = ground arith in
      let rest : same_name cs ds ≡ true = subst (λ b. (b && same_name cs ds) ≡ true) e h in
      ap (λ x. x ∷ cs) same ∙ ap (λ xs. d ∷ xs) (same_name→≡ cs ds rest)
  | inr e ↦ absurd (ground arith)
]

module _ {ℓ} {A : Type ℓ} (name : A → List ℕ) where
  -- Names for which the hash differs differ.
  pub hash-differs :
      (m n : List ℕ) (seed : ℕ)
      → (ht_hash_str m seed == ht_hash_str n seed) ≡ false
      → same_name m n ≡ false
  hash-differs m n seed h = elim (Bool-cases (same_name m n)) [
    | inl e ↦ let same = ap (λ s. ht_hash_str s seed) (same_name→≡ m n e) in absurd (ground arith)
    | inr e ↦ e
  ]

  -- A lookup in a table one entry of which has been written.
  pub ht_get-write :
      (m : List ℕ) (seed h : ℕ) (slots : ℕ → Entry A) (e : Entry A)
      → ht_get name m (table seed (write slots h e))
        ≡ (if ht_hash_str m seed == h then ht_get name m e else ht_get name m (table seed slots))
  unfolding ht_get
  ht_get-write m seed h slots e = elim (Bool-cases (ht_hash_str m seed == h)) [
    | inl here ↦ rw (ht_get, here) refl
    | inr away ↦ rw (ht_get, away) refl
  ]

  pub get-table :
      (m : List ℕ) (seed h : ℕ) (slots : ℕ → Entry A)
      → (ht_hash_str m seed == h) ≡ true
      → ht_get name m (table seed slots) ≡ ht_get name m (slots h)
  unfolding ht_get
  get-table m seed h slots e =
      let same : ht_hash_str m seed ≡ h = ground arith in ap (λ i. ht_get name m (slots i)) same

  removed-elem :
      (m n : List ℕ) (a : A)
      → same_name n (name a) ≡ true
      → (if same_name m n then none else ht_get name m (elem a)) ≡ none
  unfolding ht_get
  removed-elem m n a e = elim (Bool-cases (same_name m n)) [
    | inl same ↦ rw same refl
    | inr differ ↦
        let other : same_name m (name a) ≡ false =
          subst (λ s. same_name m s ≡ false) (same_name→≡ n (name a) e) differ in
        rw (ht_get, differ, other) refl
  ]

  kept-elem :
      (m n : List ℕ) (a : A)
      → same_name n (name a) ≡ false
      → ht_get name m (elem a) ≡ (if same_name m n then none else ht_get name m (elem a))
  unfolding ht_get
  kept-elem m n a e = elim (Bool-cases (same_name m n)) [
    | inl same ↦
        let other : same_name m (name a) ≡ false =
          subst (λ s. same_name s (name a) ≡ false) (sym (same_name→≡ m n same)) e in
        rw (ht_get, same, other) refl
    | inr differ ↦ rw (differ) refl
  ]

  -- `ht_remove` returns what a lookup of the name gives; afterwards the name is free, and a lookup of
  -- any other name gives what it gave before.
  pub ht_remove_lem :
      (n : List ℕ) (e : Entry A)
      → let (found, e') = ht_remove name n e in
        (found ≡ ht_get name n e)
        × ((m : List ℕ) → ht_get name m e' ≡ (if same_name m n then none else ht_get name m e))
  unfolding ht_get ht_remove
  ht_remove_lem n empty =
      (refl, λ m. elim (Bool-cases (same_name m n)) [ inl e ↦ rw e refl | inr e ↦ rw e refl ])
  ht_remove_lem n (elem a) = elim (Bool-cases (same_name n (name a))) [
    | inl same ↦ (rw (same) refl, λ m. rw (same) (sym (removed-elem m n a same)))
    | inr differ ↦ (rw (differ) refl, λ m. rw (differ) (kept-elem m n a differ))
  ]
  ht_remove_lem n (table seed slots) =
      let h = ht_hash_str n seed in
      let (found, after) = ht_remove_lem n (slots h) in
      (
        found,
        λ m.
            ht_get-write m seed h slots (ht_remove name n (slots h)).1
            ∙ elim (Bool-cases (ht_hash_str m seed == h)) [
              | inl here ↦ rw (here, get-table m seed h slots here) (after m)
              | inr away ↦ rw (away, hash-differs m n seed away) refl
            ],
      )
