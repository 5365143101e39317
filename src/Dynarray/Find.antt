-- ===== src/Dynarray/Find.antt =====
-- `dynarray_search` of root/src/kernel/lib/dynarray.h: the first object that fits.
use qword.Prelude.{ℕ, zero, suc, ◌+◌, ◌<◌, ◌≤◌, Bool, true, false, ◌&&◌, ltb}
use qword.Prelude.{get_elem?, get_elem?-at, length, Option, none, some, arith}
use qword.Prelude.{◌≡◌, refl, sym, subst, ◌∙◌, ap, Bool-cases, inl, inr, ◌⊎◌}
use mathlib.Core.Option.{some-injective}
use qword.Dynarray.{Slot, Table, put, inc, search_from, dynarray_search}

-- The slot holds an object that is in the table and fits.
abbrev pub fits {ℓ} : {A : Type ℓ} → (A → Bool) → Option (Slot A) → Bool
fits cond none = false
fits cond (some s) = s.present && cond s.value

-- No slot from `lo` up to `hi` holds an object that fits.
abbrev pub NoneFits {ℓ} : {A : Type ℓ} → (A → Bool) → Table A → ℕ → ℕ → Type ℓ
NoneFits cond t lo hi =
    (j : ℕ) → lo ≤ j → j < hi → (s : _) → get_elem? t.slots j ≡ some s → fits cond s ≡ false

search-here {ℓ} :
    {A : Type ℓ} (cond : A → Bool) (t : Table A) (i k : ℕ) {s : Slot A}
    → get_elem? t.slots i ≡ some (some s)
    → fits cond (some s) ≡ true
    → search_from cond t i (suc k)
      ≡ some (some i, put t i (some (record s { refcount = inc s.refcount })))
unfolding search_from
search-here cond t i k e f = rw (search_from, e, f) refl

search-on {ℓ} :
    {A : Type ℓ} (cond : A → Bool) (t : Table A) (i k : ℕ) (s : Option (Slot A))
    → get_elem? t.slots i ≡ some s
    → fits cond s ≡ false
    → search_from cond t i (suc k) ≡ search_from cond t (i + 1) k
unfolding search_from
search-on cond t i k none e f = rw (search_from, e) refl
search-on cond t i k (some s) e f = rw (search_from, e, f) refl

-- What the search finds from slot `i` on, with `k` slots to go.
abbrev Search {ℓ} : {A : Type ℓ} → (A → Bool) → Table A → ℕ → ℕ → Type ℓ
Search {A = A} cond t i k =
    ((p : ℕ) × (s : Slot A) × (get_elem? t.slots p ≡ some (some s))
      × (fits cond (some s) ≡ true)
      × (i ≤ p)
      × (p < i + k)
      × NoneFits cond t i p
      × (search_from cond t i k
          ≡ some (some p, put t p (some (record s { refcount = inc s.refcount })))))
    ⊎ (NoneFits cond t i (i + k) × (search_from cond t i k ≡ some (none, t)))

NoneFits-∷ {ℓ} :
    {A : Type ℓ} (cond : A → Bool) (t : Table A) (lo hi : ℕ) (s : Option (Slot A))
    → get_elem? t.slots lo ≡ some s
    → fits cond s ≡ false
    → NoneFits cond t (lo + 1) hi
    → NoneFits cond t lo hi
NoneFits-∷ cond t lo hi s here f rest j from to s' e = elim (Bool-cases (ltb lo j)) [
  | inl above ↦ rest j (ground arith) to s' e
  | inr eq ↦
      let same : lo ≡ j = ground arith in
      subst (λ x. fits cond x ≡ false)
        (some-injective _ _ (sym here ∙ ap (get_elem? t.slots) same ∙ e)) f
]

Search-found {ℓ} :
    {A : Type ℓ} (cond : A → Bool) (t : Table A) (i k : ℕ) (x : Option (Slot A))
    → get_elem? t.slots i ≡ some x
    → fits cond x ≡ true
    → Search cond t i (suc k)
Search-found cond t i k none here fit = absurd (ground arith)
Search-found cond t i k (some s) here fit = inl (
  i,
  s,
  here,
  fit,
  omega arith,
  omega arith,
  λ j lo hi. absurd (omega arith),
  search-here cond t i k {s = s} here fit,
)

search_lem {ℓ} :
    {A : Type ℓ} (cond : A → Bool) (t : Table A) (i k : ℕ)
    → i + k ≤ length t.slots
    → Search cond t i k
unfolding search_from
search_lem cond t i zero h = inr (λ j lo hi. absurd (omega arith), refl)
search_lem cond t i (suc k) h =
    let (x, here) = get_elem?-at t.slots i (omega arith) in
    elim (Bool-cases (fits cond x)) [
      | inl fit ↦ Search-found cond t i k x here fit
      | inr f ↦
          let shift : i + 1 + k ≡ i + suc k = omega arith in
          elim (search_lem cond t (i + 1) k (omega arith)) [
            | inl (p, s, at_p, fit, lo, hi, before, e) ↦ inl (
              p,
              s,
              at_p,
              fit,
              omega arith,
              omega arith,
              NoneFits-∷ cond t i p x here f before,
              search-on cond t i k x here f ∙ e,
            )
            | inr (before, e) ↦ inr (
              NoneFits-∷ cond t i (i + suc k) x here f
                  (subst (NoneFits cond t (i + 1)) shift before),
              search-on cond t i k x here f ∙ e,
            )
          ]
    ]

-- The first object that fits is found, and its count raised; or there is none.
abbrev pub Found {ℓ} : {A : Type ℓ} → (A → Bool) → Table A → Type ℓ
Found {A = A} cond t =
    ((p : ℕ) × (s : Slot A) × (get_elem? t.slots p ≡ some (some s))
      × (fits cond (some s) ≡ true)
      × NoneFits cond t 0 p
      × (dynarray_search cond t
          ≡ some (some p, put t p (some (record s { refcount = inc s.refcount })))))
    ⊎ (NoneFits cond t 0 t.i × (dynarray_search cond t ≡ some (none, t)))

-- `dynarray_search` returns the first object of the table for which the condition holds, with one
-- more reference to it and no other change, or NULL where there is none.
pub dynarray_search-first {ℓ} :
    {A : Type ℓ} (cond : A → Bool) (t : Table A) → length t.slots ≡ t.i → Found cond t
unfolding dynarray_search
dynarray_search-first cond t sized = elim (search_lem cond t 0 t.i (omega arith)) [
  | inl (p, s, at_p, fit, lo, hi, before, e) ↦ inl (p, s, at_p, fit, before, e)
  | inr (before, e) ↦ inr (λ j lo hi. before j lo (omega arith), e)
]
