-- ===== src/Ht/Dump.antt =====
-- `ht_dump` of root/src/kernel/lib/ht.h: what the list holds, and what cuts it off.
use qword.Prelude.{ℕ, zero, suc, ◌+◌, ◌-◌, ◌<◌, ◌≤◌, Bool, true}
use qword.Prelude.{
  List, [], ◌∷◌, ◌++◌, Option, none, some, ◌≡◌, ◌≢◌, refl, sym, ◌∙◌, ap, subst, arith,
}
use mathlib.Core.List.{append-nil, append_assoc}
use qword.Ht.{Entry, empty, elem, table, listed, unless_null, gather, visit, ht_dump}

-- Enough memory for every buffer.
abbrev pub all_work : ℕ → Bool
all_work n = true

module _ {ℓ} {A : Type ℓ} where
  -- The elements of the entries, one after the other.
  abbrev pub concat : (ℕ → List A) → ℕ → ℕ → List A
  concat f i zero = []
  concat f i (suc k) = f i ++ concat f (i + 1) k

  abbrev pub contents : Entry A → List A
  contents empty = []
  contents (elem a) = a ∷ []
  contents (table seed slots) = concat (λ i. contents (slots i)) 1 4095

  -- No further table is empty.
  abbrev pub Filled : Entry A → Type ℓ
  Filled empty = Unit
  Filled (elem a) = Unit
  Filled (table seed slots) = ((i : ℕ) → Filled (slots i)) × (contents (table seed slots) ≢ [])

  -- A buffer to which elements are appended.
  abbrev pub join : Option (List A) → List A → Option (List A)
  join buf [] = buf
  join buf (x ∷ xs) = some (listed buf ++ x ∷ xs)

  join-join : (buf : Option (List A)) (xs ys : List A) → join (join buf xs) ys ≡ join buf (xs ++ ys)
  join-join buf [] ys = refl
  join-join buf (x ∷ xs) [] = ap (λ l. some (listed buf ++ x ∷ l)) (sym (append-nil xs))
  join-join buf (x ∷ xs) (y ∷ ys) = ap some (append_assoc (listed buf) (x ∷ xs) (y ∷ ys))

  gather_lem :
      (step : ℕ → Option (List A) → Option (Option (List A))) (f : ℕ → List A) (i k : ℕ)
      (buf : Option (List A))
      → ((i : ℕ) (buf : Option (List A)) → step i buf ≡ some (join buf (f i)))
      → gather step i k buf ≡ join buf (concat f i k)
  unfolding gather
  gather_lem step f i zero buf h = refl
  gather_lem step f i (suc k) buf h =
      rw (gather, h i buf)
        (gather_lem step f (i + 1) k (join buf (f i)) h ∙ join-join buf (f i) (concat f (i + 1) k))

  kept :
      (buf : Option (List A)) (xs : List A)
      → xs ≢ []
      → unless_null (join buf xs) ≡ some (join buf xs)
  kept buf [] h = absurd (h refl)
  kept buf (x ∷ xs) h = refl

  visit_lem :
      (e : Entry A) (buf : Option (List A))
      → Filled e
      → visit all_work e buf ≡ some (join buf (contents e))
  unfolding visit
  visit_lem empty buf h = refl
  visit_lem (elem a) buf h = refl
  visit_lem (table seed slots) buf (filled, some_in) =
      let all =
        gather_lem (λ i. visit all_work (slots i)) (λ i. contents (slots i)) 1 4095 buf
          (λ i b. visit_lem (slots i) b (filled i)) in
      ap unless_null all ∙ kept buf (contents (table seed slots)) some_in

  -- With memory for the list, and without an empty table inside the table, `ht_dump` returns the
  -- elements of all tables in the order of their entries, and NULL if there are none.
  pub ht_dump_lem :
      (slots : ℕ → Entry A)
      → ((i : ℕ) → Filled (slots i))
      → ht_dump all_work slots ≡ join none (concat (λ i. contents (slots i)) 1 4095)
  unfolding ht_dump
  ht_dump_lem slots filled =
      gather_lem (λ i. visit all_work (slots i)) (λ i. contents (slots i)) 1 4095 none
        (λ i b. visit_lem (slots i) b (filled i))

  -- Entries that leave the buffer as it is.
  gather-idle :
      (step : ℕ → Option (List A) → Option (Option (List A))) (i k : ℕ) (buf : Option (List A))
      → ((j : ℕ) → i ≤ j → j < i + k → step j buf ≡ some buf)
      → gather step i k buf ≡ buf
  unfolding gather
  gather-idle step i zero buf h = refl
  gather-idle step i (suc k) buf h =
      rw (gather, h i (omega arith) (omega arith))
        (gather-idle step (i + 1) k buf (λ j lo hi. h j (omega arith) (omega arith)))

  -- An entry that ends the dump behind some that leave the buffer as it is.
  gather-stops :
      (step : ℕ → Option (List A) → Option (Option (List A))) (i n k : ℕ) (buf : Option (List A))
      → n < k
      → ((j : ℕ) → i ≤ j → j < i + n → step j buf ≡ some buf)
      → step (i + n) buf ≡ none
      → gather step i k buf ≡ none
  unfolding gather
  gather-stops step i n zero buf lt h stop = absurd (omega arith)
  gather-stops step i zero (suc k) buf lt h stop =
      let here : step i buf ≡ none = subst (λ x. step x buf ≡ none) (omega arith) stop in
      rw (gather, here) refl
  gather-stops step i (suc n) (suc k) buf lt h stop =
      rw (gather, h i (omega arith) (omega arith))
        (gather-stops step (i + 1) n k buf (omega arith)
          (λ j lo hi. h j (omega arith) (omega arith))
          (subst (λ x. step x buf ≡ none) (omega arith) stop))

  visit-empty : (works : ℕ → Bool) (e : Entry A) → e ≡ empty → visit works e none ≡ some none
  unfolding visit
  visit-empty works e h = ap (λ x. visit works x none) h

  visit-empty_table :
      (works : ℕ → Bool) (seed : ℕ) (inner : ℕ → Entry A) (e : Entry A)
      → e ≡ table seed inner
      → ((i : ℕ) → 0 < i → i < 4096 → inner i ≡ empty)
      → visit works e none ≡ none
  unfolding visit
  visit-empty_table works seed inner e h gone =
      ap (λ x. visit works x none) h
      ∙ ap unless_null (
          gather-idle (λ i. visit works (inner i)) 1 4095 none
            (λ i lo hi. visit-empty works (inner i) (gone i (omega arith) (omega arith))))

  -- An empty table as the first thing in a table makes `ht_dump` return NULL, whatever follows it.
  pub ht_dump-cut_off :
      (works : ℕ → Bool) (slots : ℕ → Entry A) (j seed : ℕ) (inner : ℕ → Entry A)
      → 0 < j
      → j < 4096
      → ((i : ℕ) → 0 < i → i < j → slots i ≡ empty)
      → slots j ≡ table seed inner
      → ((i : ℕ) → 0 < i → i < 4096 → inner i ≡ empty)
      → ht_dump works slots ≡ none
  unfolding ht_dump
  ht_dump-cut_off works slots j seed inner pos hj before here gone =
      gather-stops (λ i. visit works (slots i)) 1 (j - 1) 4095 none (omega arith)
        (λ i lo hi. visit-empty works (slots i) (before i (omega arith) (omega arith)))
        (visit-empty_table works seed inner (slots (1 + (j - 1)))
          (subst (λ x. slots x ≡ table seed inner) (omega arith) here) gone)
