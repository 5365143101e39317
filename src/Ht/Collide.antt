-- ===== src/Ht/Collide.antt =====
-- When `ht_add` of root/src/kernel/lib/ht.h ends, and names for which it does not.
use qword.Prelude.{ℕ, ◌+◌, ◌<◌, ◌==◌, if◌then◌else◌, Bool, true, false, not, ◌||◌, Bool-cases}
use qword.Prelude.{
  List, [], ◌∷◌, ◌++◌, Option, none, some, ◌≡◌, ◌≢◌, refl, sym, ◌∙◌, ap, subst, arith, inl, inr,
  ◌⊎◌,
}
use qword.Prelude.Int.{ℤ, negsuc}
use mathlib.Core.Option.{some-injective, none-ne-some}
use qword.Ht.{Entry, empty, elem, table, write, no_entries, ht_add, ht_get, ht_hash_str, same_name}
use qword.Ht.Add.{
  out_of_memory, add-level, add-slot, add-slot_stuck, add-stuck, add-taken, add-refused, own_slot,
  add-empty,
}
use qword.Ht.Hash.{ht_hash_str-collides}

same_name-apart :
    (before after : List ℕ) (x y : ℕ)
    → same_name (before ++ (x + 1) ∷ y ∷ after) (before ++ x ∷ (y + 33) ∷ after) ≡ false
same_name-apart [] after x y = let head : (x + 1 == x) ≡ false = ground arith in rw (head) refl
same_name-apart (c ∷ before) after x y =
    let head : (c == c) ≡ true = ground arith in rw (head) (same_name-apart before after x y)

module _ {ℓ} {A : Type ℓ} (name : A → List ℕ) where
  -- Names that differ, and that hash alike under every seed.
  abbrev pub Inseparable : A → A → Type 0
  Inseparable a b =
      (same_name (name a) (name b) ≡ false)
      × ((seed : ℕ) → ht_hash_str (name a) seed ≡ ht_hash_str (name b) seed)

  -- The loop goes on as long as there is memory, and returns -1 where an allocation fails.
  abbrev pub Never : List (Option ℕ) → Option (ℤ × Entry A) → Type ℓ
  Never levels out =
      ((out_of_memory levels ≡ false) × (out ≡ none))
      ⊎ ((out_of_memory levels ≡ true) × (e : Entry A) × (out ≡ some (negsuc 0, e)))

  Never-slot :
      (a : A) (levels : List (Option ℕ)) (seed : ℕ) (slots : ℕ → Entry A)
      → Never levels (ht_add name a levels (slots (ht_hash_str (name a) seed)))
      → Never levels (ht_add name a levels (table seed slots))
  Never-slot a levels seed slots (inl (memory, stuck)) =
      inl (memory, add-slot_stuck name a levels seed slots stuck)
  Never-slot a levels seed slots (inr (memory, e, done)) =
      inr (memory, _, add-slot name a levels seed slots {r = (negsuc 0, e)} done)

  in_slot :
      (a b : A) (seed : ℕ)
      → ((seed : ℕ) → ht_hash_str (name a) seed ≡ ht_hash_str (name b) seed)
      → elem b ≡ write no_entries (ht_hash_str (name b) seed) (elem b) (ht_hash_str (name a) seed)
  in_slot a b seed alike =
      let e = alike seed in
      let here : (ht_hash_str (name a) seed == ht_hash_str (name b) seed) ≡ true = ground arith in
      rw (here) refl

  Never-elem :
      (a b : A) (levels : List (Option ℕ))
      → Inseparable a b
      → Never levels (ht_add name a levels (elem b))
  Never-elem a b [] (differ, alike) = inl (refl, add-stuck name a b differ)
  Never-elem a b (none ∷ levels) (differ, alike) = inr (refl, elem b, add-refused name a b levels)
  Never-elem a b (some seed ∷ levels) (differ, alike) =
      subst (Never levels) (sym (add-level name a b seed levels differ)) (
        Never-slot a levels seed (write no_entries (ht_hash_str (name b) seed) (elem b)) (
          subst (λ e. Never levels (ht_add name a levels e)) (in_slot a b seed alike)
            (Never-elem a b levels (differ, alike))))

  get-elem : (n : List ℕ) (c b : A) → ht_get name n (elem c) ≡ some b → c ≡ b
  unfolding ht_get
  get-elem n c b h = elim (Bool-cases (same_name n (name c))) [
    | inl same ↦ some-injective _ _ (subst (λ t. (if t then some c else none) ≡ some b) same h)
    | inr differ ↦
        absurd (none-ne-some _ (subst (λ t. (if t then some c else none) ≡ some b) differ h))
  ]

  no_empty : (n : List ℕ) (b : A) → ht_get name n empty ≢ some b
  unfolding ht_get
  no_empty n b h = none-ne-some _ h

  Never-found :
      (a b : A) (levels : List (Option ℕ)) (e : Entry A)
      → Inseparable a b
      → ht_get name (name b) e ≡ some b
      → Never levels (ht_add name a levels e)
  Never-found a b levels empty apart found = absurd (no_empty (name b) b found)
  Never-found a b levels (elem c) apart found =
      subst (λ x. Never levels (ht_add name a levels (elem x))) (sym (get-elem (name b) c b found))
        (Never-elem a b levels apart)
  Never-found a b levels (table seed slots) apart found = Never-slot a levels seed slots (
      Never-found a b levels (slots (ht_hash_str (name a) seed)) apart (
        ap (λ h. ht_get name (name b) (slots h)) (apart.1 seed)
        ∙ sym (own_slot name (name b) seed slots)
        ∙ found))

  -- While an object whose name has the characters x and y + 33 at some place is in a table, an object
  -- whose name has x + 1 and y there instead is never added: whatever numbers `rand64` gives to the
  -- tables that `ht_add` allocates, it does not return as long as the allocations succeed, and returns
  -- -1 where one fails.
  pub ht_add-Never :
      (a b : A) (levels : List (Option ℕ)) (e : Entry A) (before after : List ℕ) (x y : ℕ)
      → x + 1 < 128
      → y + 33 < 128
      → name a ≡ before ++ (x + 1) ∷ y ∷ after
      → name b ≡ before ++ x ∷ (y + 33) ∷ after
      → ht_get name (name b) e ≡ some b
      → Never levels (ht_add name a levels e)
  ht_add-Never a b levels e before after x y hx hy na nb found =
      let apart : same_name (name a) (name b) ≡ false =
        rw (na, nb) (same_name-apart before after x y) in
      let alike : (seed : ℕ) → ht_hash_str (name a) seed ≡ ht_hash_str (name b) seed = λ seed.
        ap (λ s. ht_hash_str s seed) na
        ∙ sym (ht_hash_str-collides before after x y seed hx hy)
        ∙ ap (λ s. ht_hash_str s seed) (sym nb) in
      Never-found a b levels e (apart, alike) found

  -- The element in which the path of a name ends.
  abbrev pub met : List ℕ → Entry A → Option A
  met n empty = none
  met n (elem b) = some b
  met n (table seed slots) = met n (slots (ht_hash_str n seed))

  -- Some table that `ht_add` gets tells the names apart, or an allocation fails before.
  abbrev pub separates : A → A → List (Option ℕ) → Bool
  separates a b [] = same_name (name a) (name b)
  separates a b (none ∷ levels) = true
  separates a b (some seed ∷ levels) =
      not (ht_hash_str (name a) seed == ht_hash_str (name b) seed) || separates a b levels

  ends-slot :
      (a : A) (levels : List (Option ℕ)) (seed : ℕ) (slots : ℕ → Entry A)
      → (out : ℤ × Entry A) × (ht_add name a levels (slots (ht_hash_str (name a) seed)) ≡ some out)
      → (out : ℤ × Entry A) × (ht_add name a levels (table seed slots) ≡ some out)
  ends-slot a levels seed slots (r, done) = (_, add-slot name a levels seed slots {r = r} done)

  ends-elem :
      (a b : A) (levels : List (Option ℕ))
      → separates a b levels ≡ true
      → (out : ℤ × Entry A) × (ht_add name a levels (elem b) ≡ some out)
  ends-elem a b [] h = (_, add-taken name a b [] h)
  ends-elem a b (none ∷ levels) h = (_, add-refused name a b levels)
  ends-elem a b (some seed ∷ levels) h = elim (Bool-cases (same_name (name a) (name b))) [
    | inl same ↦ (_, add-taken name a b (some seed ∷ levels) same)
    | inr differ ↦
        subst (λ x. (out : ℤ × Entry A) × (x ≡ some out))
          (sym (add-level name a b seed levels differ))
          (ends-slot a levels seed (write no_entries (ht_hash_str (name b) seed) (elem b))
            (elim (Bool-cases (ht_hash_str (name a) seed == ht_hash_str (name b) seed)) [
              | inl here ↦ rw (here) (
                  ends-elem a b levels (subst (λ t. (not t || separates a b levels) ≡ true) here h))
              | inr away ↦ rw (away) (_, add-empty name a levels)
            ]))
  ]

  -- Where some table that `ht_add` gets tells the new name from the one that it meets, or an
  -- allocation fails before, `ht_add` returns.
  pub ht_add-returns :
      (a : A) (levels : List (Option ℕ)) (e : Entry A)
      → ((b : A) → met (name a) e ≡ some b → separates a b levels ≡ true)
      → (out : ℤ × Entry A) × (ht_add name a levels e ≡ some out)
  ht_add-returns a levels empty apart = (_, add-empty name a levels)
  ht_add-returns a levels (elem b) apart = ends-elem a b levels (apart b refl)
  ht_add-returns a levels (table seed slots) apart =
      ends-slot a levels seed slots
        (ht_add-returns a levels (slots (ht_hash_str (name a) seed)) apart)
