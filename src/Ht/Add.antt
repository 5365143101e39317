-- ===== src/Ht/Add.antt =====
-- `ht_add` of root/src/kernel/lib/ht.h: what can be looked up afterwards, and when it ends.
use qword.Prelude.{ℕ, ◌==◌, if◌then◌else◌, Bool, true, false, Bool-cases, Option-cases}
use qword.Prelude.{List, [], ◌∷◌, Option, none, some, ◌≡◌, refl, sym, ◌∙◌, ap, subst, inl, inr, ◌⊎◌}
use qword.Prelude.Int.{ℤ, pos, negsuc}
use mathlib.Core.Option.{some-injective, none-ne-some}
use qword.Ht.{Entry, empty, elem, table, write, no_entries, ht_get, ht_add, ht_hash_str, same_name}
use qword.Ht.Lookup.{hash-differs, ht_get-write, get-table}

-- Whether an allocation fails.
abbrev pub out_of_memory : List (Option ℕ) → Bool
out_of_memory [] = false
out_of_memory (none ∷ levels) = true
out_of_memory (some seed ∷ levels) = out_of_memory levels

out_of_memory-∷ :
    (l : Option ℕ) (levels : List (Option ℕ))
    → out_of_memory levels ≡ true
    → out_of_memory (l ∷ levels) ≡ true
out_of_memory-∷ none levels h = refl
out_of_memory-∷ (some seed) levels h = h

module _ {ℓ} {A : Type ℓ} (name : A → List ℕ) where
  -- A lookup after `a` has been added to what `e` holds.
  abbrev pub Extends : A → Entry A → Entry A → Type ℓ
  Extends a e e' =
      (m : List ℕ) → ht_get name m e' ≡ (if same_name m (name a) then some a else ht_get name m e)

  abbrev pub Unchanged : Entry A → Entry A → Type ℓ
  Unchanged e e' = (m : List ℕ) → ht_get name m e' ≡ ht_get name m e

  -- The name is taken, or there is no memory for a further table.
  abbrev pub Refused : A → List (Option ℕ) → Entry A → Type ℓ
  Refused a levels e = ((b : A) × (ht_get name (name a) e ≡ some b)) ⊎ (out_of_memory levels ≡ true)

  -- The two ends: `a` was added under a name that was free, or it was refused and nothing that can
  -- be looked up has changed.
  abbrev pub Ends : A → List (Option ℕ) → Entry A → ℤ × Entry A → Type ℓ
  Ends a levels e (r, e') =
      ((r ≡ pos 0) × (ht_get name (name a) e ≡ none) × Extends a e e')
      ⊎ ((r ≡ negsuc 0) × Refused a levels e × Unchanged e e')

  Ends-Unchanged :
      (a : A) (l : Option ℕ) (levels : List (Option ℕ)) (e e1 : Entry A) (out : ℤ × Entry A)
      → Unchanged e e1
      → Ends a levels e1 out
      → Ends a (l ∷ levels) e out
  Ends-Unchanged a l levels e e1 out same (inl (ok, free, ext)) = inl (
    ok,
    sym (same (name a)) ∙ free,
    λ m. ext m ∙ ap (λ x. if same_name m (name a) then some a else x) (same m),
  )
  Ends-Unchanged a l levels e e1 out same (inr (bad, why, kept)) = inr (
    bad,
    elim why [
      | inl (b, taken) ↦ inl (b, sym (same (name a)) ∙ taken)
      | inr memory ↦ inr (out_of_memory-∷ l levels memory)
    ],
    λ m. kept m ∙ same m,
  )

  ht_add-table :
      (a : A) (levels : List (Option ℕ)) (seed : ℕ) (slots : ℕ → Entry A)
      → ht_add name a levels (table seed slots)
        ≡ elim (ht_add name a levels (slots (ht_hash_str (name a) seed))) [
          | none ↦ none
          | some r ↦ some (r.0, table seed (write slots (ht_hash_str (name a) seed) r.1))
        ]
  unfolding ht_add
  ht_add-table a [] seed slots = refl
  ht_add-table a (l ∷ levels) seed slots = refl

  -- An element that is moved to a table of its own can be looked up as before.
  get-moved :
      (seed : ℕ) (b : A)
      → Unchanged (elem b) (table seed (write no_entries (ht_hash_str (name b) seed) (elem b)))
  unfolding ht_get
  get-moved seed b m =
      ht_get-write name m seed (ht_hash_str (name b) seed) no_entries (elem b)
      ∙ elim (Bool-cases (ht_hash_str m seed == ht_hash_str (name b) seed)) [
        | inl here ↦ rw here refl
        | inr away ↦ rw (away, hash-differs name m (name b) seed away) refl
      ]

  pub add-empty :
      (a : A) (levels : List (Option ℕ)) → ht_add name a levels empty ≡ some (pos 0, elem a)
  unfolding ht_add
  add-empty a [] = refl
  add-empty a (l ∷ levels) = refl

  -- The table that `ht_add` makes for an element that it moves.
  abbrev pub moved : ℕ → A → Entry A
  moved seed b = table seed (write no_entries (ht_hash_str (name b) seed) (elem b))

  pub add-stuck : (a b : A) → same_name (name a) (name b) ≡ false → ht_add name a [] (elem b) ≡ none
  unfolding ht_add
  add-stuck a b h = rw (ht_add, h) refl

  pub add-taken :
      (a b : A) (l : List (Option ℕ))
      → same_name (name a) (name b) ≡ true
      → ht_add name a l (elem b) ≡ some (negsuc 0, elem b)
  unfolding ht_add
  add-taken a b [] h = rw (ht_add, h) refl
  add-taken a b (none ∷ levels) h = refl
  add-taken a b (some seed ∷ levels) h = rw (ht_add, h) refl

  pub add-refused :
      (a b : A) (levels : List (Option ℕ))
      → ht_add name a (none ∷ levels) (elem b) ≡ some (negsuc 0, elem b)
  unfolding ht_add
  add-refused a b levels = refl

  pub add-level :
      (a b : A) (seed : ℕ) (levels : List (Option ℕ))
      → same_name (name a) (name b) ≡ false
      → ht_add name a (some seed ∷ levels) (elem b) ≡ ht_add name a levels (moved seed b)
  unfolding ht_add
  add-level a b seed levels h = rw (ht_add, h) refl

  pub add-slot :
      (a : A) (levels : List (Option ℕ)) (seed : ℕ) (slots : ℕ → Entry A) {r : ℤ × Entry A}
      → ht_add name a levels (slots (ht_hash_str (name a) seed)) ≡ some r
      → ht_add name a levels (table seed slots)
        ≡ some (r.0, table seed (write slots (ht_hash_str (name a) seed) r.1))
  add-slot a levels seed slots e = ht_add-table a levels seed slots ∙ rw (e) refl

  pub add-slot_stuck :
      (a : A) (levels : List (Option ℕ)) (seed : ℕ) (slots : ℕ → Entry A)
      → ht_add name a levels (slots (ht_hash_str (name a) seed)) ≡ none
      → ht_add name a levels (table seed slots) ≡ none
  add-slot_stuck a levels seed slots e = ht_add-table a levels seed slots ∙ rw (e) refl

  pub own_slot :
      (n : List ℕ) (seed : ℕ) (slots : ℕ → Entry A)
      → ht_get name n (table seed slots) ≡ ht_get name n (slots (ht_hash_str n seed))
  unfolding ht_get
  own_slot n seed slots = refl

  Ends-table :
      (a : A) (levels : List (Option ℕ)) (seed : ℕ) (slots : ℕ → Entry A) (out : ℤ × Entry A)
      → Ends a levels (slots (ht_hash_str (name a) seed)) out
      → Ends a levels
          (table seed slots)
          (out.0, table seed (write slots (ht_hash_str (name a) seed) out.1))
  Ends-table a levels seed slots out (inl (ok, free, ext)) = inl (
    ok,
    own_slot (name a) seed slots ∙ free,
    λ m.
        ht_get-write name m seed (ht_hash_str (name a) seed) slots out.1
        ∙ elim (Bool-cases (ht_hash_str m seed == ht_hash_str (name a) seed)) [
          | inl here ↦
              rw (here, get-table name m seed (ht_hash_str (name a) seed) slots here) (ext m)
          | inr away ↦ rw (away, hash-differs name m (name a) seed away) refl
        ],
  )
  Ends-table a levels seed slots out (inr (bad, why, kept)) = inr (
    bad,
    elim why [
      | inl (b, taken) ↦ inl (b, own_slot (name a) seed slots ∙ taken)
      | inr memory ↦ inr memory
    ],
    λ m.
        ht_get-write name m seed (ht_hash_str (name a) seed) slots out.1
        ∙ elim (Bool-cases (ht_hash_str m seed == ht_hash_str (name a) seed)) [
          | inl here ↦
              rw (here, get-table name m seed (ht_hash_str (name a) seed) slots here) (kept m)
          | inr away ↦ rw (away) refl
        ],
  )

  -- An element against an element: the names agree, or the table grows.
  Ends-taken :
      (a b : A) (levels : List (Option ℕ))
      → same_name (name a) (name b) ≡ true
      → Ends a levels (elem b) (negsuc 0, elem b)
  unfolding ht_get
  Ends-taken a b levels same = inr (refl, inl (b, rw (ht_get, same) refl), λ m. refl)

  Ends-empty : (a : A) (levels : List (Option ℕ)) → Ends a levels empty (pos 0, elem a)
  unfolding ht_get
  Ends-empty a levels = inl (refl, refl, λ m. refl)

  -- When `ht_add` returns, it has either added the element under a name that was free, and a lookup
  -- gives it under that name and what it gave before under every other; or it returns -1, because
  -- the name is taken or an allocation failed, and every lookup gives what it gave before.
  pub ht_add_lem :
      (a : A) (levels : List (Option ℕ)) (e : Entry A) (out : ℤ × Entry A)
      → ht_add name a levels e ≡ some out
      → Ends a levels e out
  unfolding ht_add
  ht_add_lem a levels empty out h =
      subst (Ends a levels empty) (some-injective _ _ (sym (add-empty a levels) ∙ h))
        (Ends-empty a levels)
  ht_add_lem a [] (elem b) out h = elim (Bool-cases (same_name (name a) (name b))) [
    | inl same ↦
        subst (Ends a [] (elem b)) (some-injective _ _ (sym (add-taken a b [] same) ∙ h))
          (Ends-taken a b [] same)
    | inr differ ↦ absurd (none-ne-some _ (sym (add-stuck a b differ) ∙ h))
  ]
  ht_add_lem a (none ∷ levels) (elem b) out h =
      subst (Ends a (none ∷ levels) (elem b)) (some-injective _ _ h)
        (inr (refl, inr refl, λ m. refl))
  ht_add_lem a (some seed ∷ levels) (elem b) out h =
      elim (Bool-cases (same_name (name a) (name b))) [
        | inl same ↦
            subst (Ends a (some seed ∷ levels) (elem b))
              (some-injective _ _ (sym (add-taken a b (some seed ∷ levels) same) ∙ h))
              (Ends-taken a b (some seed ∷ levels) same)
        | inr differ ↦
            Ends-Unchanged a (some seed) levels (elem b) (moved seed b) out (get-moved seed b)
              (ht_add_lem a levels (moved seed b) out (sym (add-level a b seed levels differ) ∙ h))
      ]
  ht_add_lem a levels (table seed slots) out h =
      elim (Option-cases (ht_add name a levels (slots (ht_hash_str (name a) seed)))) [
        | inl stuck ↦ absurd (none-ne-some _ (sym (add-slot_stuck a levels seed slots stuck) ∙ h))
        | inr (r, done) ↦
            subst (Ends a levels (table seed slots))
              (some-injective _ _ (sym (add-slot a levels seed slots {r = r} done) ∙ h))
              (Ends-table a levels seed slots r
                (ht_add_lem a levels (slots (ht_hash_str (name a) seed)) r done))
      ]
