-- ===== src/Dynarray/Add.antt =====
-- `dynarray_add` of root/src/kernel/lib/dynarray.h: the lowest free slot, and the ends of the table.
use qword.Prelude.{ℕ, zero, suc, ◌+◌, ◌<◌, ◌≤◌, Bool, true, false, ltb}
use qword.Prelude.{
  List, get_elem?, get_elem?-at, get_elem?-append, get_elem?-past, get_elem?-set_self,
  get_elem?-set_ne, length-set, length-append, length-replicate, ap, length, replicate, Option,
  none, some, arith,
}
use qword.Prelude.{◌≡◌, ◌≢◌, refl, sym, subst, ◌∙◌, Option-cases, Bool-cases, inl, inr, ◌⊎◌}
use qword.Prelude.Int.{ℤ, pos, negsuc}
use mathlib.Core.Option.{some-injective, none-ne-some}
use qword.Dynarray.{Slot, Table, fill, enlarge, first_empty, dynarray_add}

-- Slot `e` is in use.
abbrev pub Used {ℓ} : {A : Type ℓ} → List (Option (Slot A)) → ℕ → Type ℓ
Used {A = A} slots e = (s : Slot A) × (get_elem? slots e ≡ some (some s))

first_empty-step {ℓ} :
    {A : Type ℓ} (slots : List (Option (Slot A))) (i k : ℕ) {s : Slot A}
    → get_elem? slots i ≡ some (some s)
    → first_empty slots i (suc k) ≡ first_empty slots (i + 1) k
unfolding first_empty
first_empty-step slots i k e = rw (first_empty, e) refl

first_empty-here {ℓ} :
    {A : Type ℓ} (slots : List (Option (Slot A))) (i k : ℕ)
    → get_elem? slots i ≡ some none
    → first_empty slots i (suc k) ≡ some i
unfolding first_empty
first_empty-here slots i k e = rw (first_empty, e) refl

-- Slot `r` is the first empty one from `i` on, or lies behind the `k` slots there.
unfoldable pub FirstEmpty {ℓ} : {A : Type ℓ} → List (Option (Slot A)) → ℕ → ℕ → ℕ → Type ℓ
FirstEmpty slots i k r =
    (i ≤ r)
    × (r ≤ i + k)
    × ((r ≡ i + k) ⊎ (get_elem? slots r ≡ some none))
    × ((j : ℕ) → i ≤ j → j < r → Used slots j)

pub first_empty_lem {ℓ} :
    {A : Type ℓ} (slots : List (Option (Slot A))) (i k : ℕ)
    → i + k ≤ length slots
    → (r : ℕ) × (first_empty slots i k ≡ some r) × FirstEmpty slots i k r
unfolding first_empty FirstEmpty
first_empty_lem slots i zero h =
    (i, refl, (omega arith, omega arith, inl (omega arith), λ j lo hi. absurd (omega arith)))
first_empty_lem slots i (suc k) h =
    let (x, here) = get_elem?-at slots i (omega arith) in
    elim (Option-cases x) [
      | inl e ↦
          let empty : get_elem? slots i ≡ some none = here ∙ ap some e in
          (
            i,
            first_empty-here slots i k empty,
            (omega arith, omega arith, inr empty, λ j lo hi. absurd (omega arith)),
          )
      | inr (s, e) ↦
          let full : get_elem? slots i ≡ some (some s) = here ∙ ap some e in
          let (r, found, (lo, hi, end, before)) = first_empty_lem slots (i + 1) k (omega arith) in
          (
            r,
            first_empty-step slots i k {s = s} full ∙ found,
            (
              omega arith,
              omega arith,
              elim end [ inl e ↦ inl (omega arith) | inr e ↦ inr e ],
              λ j from to. elim (Bool-cases (ltb i j)) [
                | inl above ↦ before j (ground arith) to
                | inr eq ↦ subst (Used slots) (ground arith) (s, full)
              ],
            ),
          )
    ]

-- The table has the size that it thinks it has.
abbrev pub Sized {ℓ} : {A : Type ℓ} → Table A → Type 0
Sized t = length t.slots ≡ t.i

abbrev pub fresh {ℓ} : {A : Type ℓ} → A → Option (Slot A)
fresh a = some (record { refcount = 1; present = true; value = a })

-- The object stands in the lowest free slot of the table, or in the first of 256 new ones, with one
-- reference, and every other slot is as it was.
abbrev pub AddedAt {ℓ} : {A : Type ℓ} → Table A → A → ℕ → Table A → Type ℓ
AddedAt t a r t' =
    ((r ≡ t.i) ⊎ (get_elem? t.slots r ≡ some none))
    × ((j : ℕ) → j < r → Used t.slots j)
    × (get_elem? t'.slots r ≡ some (fresh a))
    × ((j : ℕ) → j < t.i → r ≢ j → get_elem? t'.slots j ≡ get_elem? t.slots j)
    × Sized t'

-- The end of `dynarray_add`: a number and the table with the object, or -1 and the old slots.
abbrev pub Ends {ℓ} : {A : Type ℓ} → Table A → A → ℤ → Table A → Type ℓ
Ends t a r t' =
    ((p : ℕ) × (r ≡ pos p) × AddedAt t a p t')
    ⊎ ((r ≡ negsuc 0) × ((j : ℕ) → j < t.i → get_elem? t'.slots j ≡ get_elem? t.slots j))

-- What `fill` does in a table `g` that extends `t`.
fill_lem {ℓ} :
    {A : Type ℓ} (alloc : Bool) (t g : Table A) (p : ℕ) (a : A)
    → Sized g
    → p < g.i
    → ((p ≡ t.i) ⊎ (get_elem? t.slots p ≡ some none))
    → ((j : ℕ) → j < p → Used t.slots j)
    → ((j : ℕ) → j < t.i → get_elem? g.slots j ≡ get_elem? t.slots j)
    → Ends t a (fill alloc g p a).0 (fill alloc g p a).1
fill_lem true t g p a sized inside free used same = inl (
  p,
  refl,
  (
    free,
    used,
    get_elem?-set_self g.slots p (fresh a) (omega arith),
    λ j lt ne. get_elem?-set_ne g.slots (fresh a) ne ∙ same j lt,
    length-set g.slots p (fresh a) ∙ sized,
  ),
)
fill_lem false t g p a sized inside free used same = inr (refl, same)

pub enlarged {ℓ} :
    {A : Type ℓ} (t : Table A)
    → Sized t
    → Sized (enlarge t) × ((j : ℕ) → j < t.i → get_elem? (enlarge t).slots j ≡ get_elem? t.slots j)
enlarged {A = A} t sized = (
  length-append t.slots (replicate 256 none)
      ∙ omega (arith, length-replicate {A = Option (Slot A)} 256 none),
  λ j lt. get_elem?-append t.slots (replicate 256 none) j (omega arith),
)

-- `dynarray_add` puts the object into the lowest free slot of the table, or into the first of 256
-- new ones where the table is full, returns its number, and changes no other slot; without memory it
-- returns -1 and no slot changes.
pub dynarray_add_lem {ℓ} :
    {A : Type ℓ} (realloc_works alloc_works : Bool) (t : Table A) (a : A)
    → Sized t
    → (r : ℤ) × (t' : Table A) × (dynarray_add realloc_works alloc_works t a ≡ some (r, t'))
      × Ends t a r t'
unfolding dynarray_add FirstEmpty
dynarray_add_lem works alloc t a sized =
    let (p, found, (lo, hi, end, used)) = first_empty_lem t.slots 0 t.i (omega arith) in
    let free : (p ≡ t.i) ⊎ (get_elem? t.slots p ≡ some none) = elim end [
      | inl e ↦ inl (omega arith)
      | inr e ↦ inr e
    ] in
    elim (Bool-cases (ltb p t.i)) [
      | inl inside ↦ (
        _,
        _,
        rw (dynarray_add, found, inside) refl,
        fill_lem alloc t t p a sized (ground arith) free (λ j. used j (omega arith)) (λ j lt. refl),
      )
      | inr full ↦ elim (Bool-cases works) [
        | inl grows ↦
            let (sized', same) = enlarged t sized in
            (
              _,
              _,
              rw (dynarray_add, found, full, grows) refl,
              fill_lem alloc t (enlarge t) p a sized' (ground arith) free
                  (λ j. used j (omega arith)) same,
            )
        | inr fails ↦ (
          negsuc 0,
          record t { i = t.i + 256 },
          rw (dynarray_add, found, full, fails) refl,
          inr (refl, λ j lt. refl),
        )
      ]
    ]

-- Every slot of the table is in use.
abbrev pub Full {ℓ} : {A : Type ℓ} → Table A → Type ℓ
Full t = (j : ℕ) → j < t.i → Used t.slots j

first_empty-outside {ℓ} :
    {A : Type ℓ} (slots : List (Option (Slot A))) (i k : ℕ)
    → i ≤ length slots
    → length slots < i + k
    → ((j : ℕ) → j < length slots → Used slots j)
    → first_empty slots i k ≡ none
unfolding first_empty
first_empty-outside slots i zero inside short used = absurd (omega arith)
first_empty-outside slots i (suc k) inside short used = elim (Bool-cases (ltb i (length slots))) [
  | inl lt ↦
      let (s, here) = used i (ground arith) in
      first_empty-step slots i k {s = s} here
      ∙ first_empty-outside slots (i + 1) k (ground arith) (omega arith) used
  | inr ge ↦
      let past : get_elem? slots i ≡ none = get_elem?-past slots i (ground arith) in
      rw (first_empty, past) refl
]

-- After a call of `dynarray_add` on a full table for which `krealloc` failed, `name_i` counts slots
-- that do not exist: the next call reads behind the end of the table.
pub dynarray_add-overreads {ℓ} :
    {A : Type ℓ} (realloc_works alloc_works : Bool) (t : Table A) (a b : A)
    → Sized t
    → Full t
    → (t' : Table A) × (dynarray_add false alloc_works t a ≡ some (negsuc 0, t'))
      × (dynarray_add realloc_works alloc_works t' b ≡ none)
unfolding dynarray_add FirstEmpty
dynarray_add-overreads works alloc t a b sized full =
    let (p, found, (lo, hi, end, used)) = first_empty_lem t.slots 0 t.i (omega arith) in
    elim (Bool-cases (ltb p t.i)) [
      | inl inside ↦
          let (s, here) = full p (ground arith) in
          elim end [
            | inl e ↦ absurd (ground arith)
            | inr empty ↦ absurd (none-ne-some s (some-injective _ _ (sym empty ∙ here)))
          ]
      | inr outside ↦
          let t' : Table _ = record t { i = t.i + 256 } in
          let over : first_empty t'.slots 0 t'.i ≡ none =
            first_empty-outside t.slots 0 (t.i + 256) (omega arith) (omega arith)
              (λ j lt. full j (omega arith)) in
          (t', rw (dynarray_add, found, outside) refl, rw (dynarray_add, over) refl)
    ]

no_failure {ℓ} :
    {A : Type ℓ} (t : Table A) (a : A) (t' : Table A)
    → dynarray_add true true t a ≢ some (negsuc 0, t')
unfolding dynarray_add
no_failure t a t' e = ground (arith, e)

-- With memory `dynarray_add` always finds a place.
pub dynarray_add-succeeds {ℓ} :
    {A : Type ℓ} (t : Table A) (a : A)
    → Sized t
    → (p : ℕ) × (t' : Table A) × (dynarray_add true true t a ≡ some (pos p, t')) × AddedAt t a p t'
unfolding dynarray_add
dynarray_add-succeeds t a sized =
    let (r, t', added, ends) = dynarray_add_lem true true t a sized in
    elim ends [
      | inl (p, e, at) ↦ (p, t', added ∙ ap (λ z. some (z, t')) e, at)
      | inr (e, same) ↦ absurd (no_failure t a t' (added ∙ ap (λ z. some (z, t')) e))
    ]
