-- ===== src/Dynarray/Kept.antt =====
-- What `dynarray_add` of root/src/kernel/lib/dynarray.h does to the objects of a table, with memory.
use qword.Prelude.{
  ℕ, zero, suc, ◌<◌, ◌≡◌, ◌≢◌, inl, inr, refl, sym, ◌∙◌, true, Bool-cases, arith, List, [], ◌∷◌,
  ◌++◌, replicate, Option, none, some, get_elem?, get_elem?-set_self, get_elem?-set_ne,
  get_elem?-lt, length-set, ltb, subst,
}
use mathlib.Core.Option.{some-injective, none-ne-some}
use qword.Prelude.Int.{pos}
use qword.Dynarray.{Slot, Table, put, enlarge, dynarray_add}
use qword.Dynarray.Add.{Sized, fresh, enlarged, first_empty_lem, FirstEmpty}

-- A slot holds something.
abbrev pub Holds {ℓ} : {A : Type ℓ} → Table A → ℕ → Slot A → Type ℓ
Holds t j x = get_elem? t.slots j ≡ some (some x)

-- The object is added at a place that was free, and all other objects are as before.
pub record Kept {ℓ} {A : Type ℓ} (t : Table A) (a : A) (p : ℕ) (t' : Table A) : Type ℓ where
  pub sized : Sized t'
  pub added : get_elem? t'.slots p ≡ some (fresh a)
  pub free : (x : Slot A) → ¬ Holds t p x
  pub old : (j : ℕ) (x : Slot A) → Holds t j x → Holds t' j x
  pub others : (j : ℕ) (x : Slot A) → p ≢ j → Holds t' j x → Holds t j x

no_replicated {ℓ} :
    {A : Type ℓ} (k j : ℕ) (x : Slot A) → get_elem? (replicate k none) j ≢ some (some x)
no_replicated zero j x h = none-ne-some _ h
no_replicated (suc k) zero x h = none-ne-some _ (some-injective _ _ h)
no_replicated (suc k) (suc j) x h = no_replicated k j x h

append_nones {ℓ} :
    {A : Type ℓ} (slots : List (Option (Slot A))) (k j : ℕ) (x : Slot A)
    → get_elem? (slots ++ replicate k none) j ≡ some (some x)
    → get_elem? slots j ≡ some (some x)
append_nones [] k j x h = absurd (no_replicated k j x h)
append_nones (s ∷ slots) k zero x h = h
append_nones (s ∷ slots) k (suc j) x h = append_nones slots k j x h

-- The object is put into a table that holds the same objects.
put-Kept {ℓ} :
    {A : Type ℓ} (t g : Table A) (p : ℕ) (a : A)
    → Sized g
    → p < g.i
    → ((x : Slot A) → ¬ Holds t p x)
    → ((j : ℕ) (x : Slot A) → Holds t j x → Holds g j x)
    → ((j : ℕ) (x : Slot A) → Holds g j x → Holds t j x)
    → Kept t a p (put g p (fresh a))
put-Kept t g p a sized inside free up down = record {
  sized = length-set g.slots p (fresh a) ∙ sized;
  added = get_elem?-set_self g.slots p (fresh a) (omega (arith, inside, sized));
  free = free;
  old = λ j x h.
      get_elem?-set_ne g.slots (fresh a) (λ e. free x (subst (λ k. Holds t k x) (sym e) h))
      ∙ up j x h;
  others = λ j x ne h. down j x (sym (get_elem?-set_ne g.slots (fresh a) ne) ∙ h);
}

pub dynarray_add-Kept {ℓ} :
    {A : Type ℓ} (t : Table A) (a : A)
    → Sized t
    → (p : ℕ) × (t' : Table A) × (dynarray_add true true t a ≡ some (pos p, t')) × Kept t a p t'
unfolding dynarray_add FirstEmpty
dynarray_add-Kept t a sized =
    let (p, found, (lo, hi, end, used)) = first_empty_lem t.slots 0 t.i (omega arith) in
    let free : (x : Slot _) → ¬ Holds t p x = λ x h. elim end [
      | inl e ↦ absurd (omega (arith, e, sized, get_elem?-lt t.slots p h))
      | inr e ↦ absurd (none-ne-some _ (some-injective _ _ (sym e ∙ h)))
    ] in
    elim (Bool-cases (ltb p t.i)) [
      | inl inside ↦ (
        p,
        put t p (fresh a),
        rw (dynarray_add, found, inside) refl,
        put-Kept t t p a sized (ground (arith, inside)) free (λ j x h. h) (λ j x h. h),
      )
      | inr full ↦
          let (sized', same) = enlarged t sized in
          (
            p,
            put (enlarge t) p (fresh a),
            rw (dynarray_add, found, full) refl,
            put-Kept t (enlarge t) p a sized' (omega (arith, hi)) free
                (λ j x h. same j (omega (arith, sized, get_elem?-lt t.slots j h)) ∙ h)
                (λ j x h. append_nones t.slots 256 j x h),
          )
    ]
