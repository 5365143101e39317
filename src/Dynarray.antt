-- ===== src/Dynarray.antt =====
-- The tables of objects of root/src/kernel/lib/dynarray.h: slots with a reference count.
--
-- Every macro holds the lock of its table from its start to its end, so a call is one step of the
-- table. The result of a call is `none` where the C code reads a slot outside of the table. What
-- `dynarray_getelem` and `dynarray_search` return is a pointer into a slot: it is modelled by the
-- number of the slot, and accesses through it by `load` and `store`.
pub mod Find
pub mod Kept
pub mod Lifetime
pub mod Add
pub mod Borrow
mod Tests
use qword.Prelude.{
  ℕ, zero, suc, ◌+◌, ◌-◌, ◌%◌, ◌^◌, ◌==◌, ltb, if◌then◌else◌, Bool, true, false, not, ◌&&◌,
}
use qword.Prelude.{
  List, [], ◌∷◌, ◌++◌, get_elem?, set, replicate, length, ◌>>=◌, Option, none, some,
}
use qword.Prelude.Int.{ℤ, pos, negsuc}

module _ {ℓ} (A : Type ℓ) where
  -- `refcount` is an `int`, kept as its 32 bits.
  pub record Slot : Type ℓ where
    pub refcount : ℕ
    pub present : Bool
    pub value : A

  -- `name` and `name_i`: an empty slot is a null pointer.
  pub record Table : Type ℓ where
    pub slots : List (Option Slot)
    pub i : ℕ

-- `locked_inc` and `locked_dec` on the count.
abbrev pub inc : ℕ → ℕ
inc n = (n + 1) % 2 ^ 32

abbrev pub dec : ℕ → ℕ
dec n = (n + 2 ^ 32 - 1) % 2 ^ 32

module _ {ℓ} {A : Type ℓ} where
  -- `dynarray_new`
  abbrev pub empty_table : Table A
  empty_table = record { slots = []; i = 0 }

  abbrev pub put : Table A → ℕ → Option (Slot A) → Table A
  put t e s = record t { slots = set t.slots e s }

  -- The slot after its count is decremented: it is freed at zero.
  abbrev pub drop_ref : Slot A → Option (Slot A)
  drop_ref s = if dec s.refcount == 0 then none else some (record s { refcount = dec s.refcount })

  pub dynarray_remove : Table A → ℕ → Option (ℤ × Table A)
  dynarray_remove t e = elim (get_elem? t.slots e) [
    | none ↦ none
    | some none ↦ some (negsuc 0, t)
    | some (some s) ↦ some (pos 0, put t e (drop_ref (record s { present = false })))
  ]

  pub dynarray_unref : Table A → ℕ → Option (Table A)
  dynarray_unref t e = elim (get_elem? t.slots e) [
    | none ↦ none
    | some none ↦ some t
    | some (some s) ↦ some (put t e (drop_ref s))
  ]

  -- The pointer is null where the slot is empty or its object has been removed.
  unfoldable pub dynarray_getelem : Table A → ℕ → Option (Option ℕ × Table A)
  dynarray_getelem t e = elim (get_elem? t.slots e) [
    | none ↦ none
    | some none ↦ some (none, t)
    | some (some s) ↦
        if s.present
        then some (some e, put t e (some (record s { refcount = inc s.refcount })))
        else some (none, t)
  ]

  -- Accesses through the pointer to the object of a slot.
  pub load : Table A → ℕ → Option A
  load t e = elim (get_elem? t.slots e) [
    | none ↦ none
    | some none ↦ none
    | some (some s) ↦ some s.value
  ]

  pub store : Table A → ℕ → A → Table A
  store t e a = elim (get_elem? t.slots e) [
    | none ↦ t
    | some none ↦ t
    | some (some s) ↦ put t e (some (record s { value = a }))
  ]

  -- The loop of `dynarray_add`, with `rounds` to go from slot `i` on: the first empty slot before
  -- `name_i`, or `name_i`; `none` for a read outside of the table.
  pub first_empty : List (Option (Slot A)) → ℕ → ℕ → Option ℕ
  first_empty slots i zero = some i
  first_empty slots i (suc rounds) =
      let rest = first_empty slots (i + 1) rounds in
      elim (get_elem? slots i) [ none ↦ none | some none ↦ some i | some (some s) ↦ rest ]

  -- `krealloc` gives 256 more slots, of memory that is zero.
  abbrev pub enlarge : Table A → Table A
  enlarge t = record { slots = t.slots ++ replicate 256 none; i = t.i + 256 }

  -- The label `fnd`: the object goes to slot `i`, if `kalloc` works.
  abbrev pub fill : Bool → Table A → ℕ → A → ℤ × Table A
  fill alloc_works t i a =
      if alloc_works
      then (pos i, put t i (some (record { refcount = 1; present = true; value = a })))
      else (negsuc 0, t)

  -- Whether `krealloc` and `kalloc` succeed is an argument. `name_i` is raised before `krealloc` is
  -- called.
  unfoldable pub dynarray_add : Bool → Bool → Table A → A → Option (ℤ × Table A)
  dynarray_add realloc_works alloc_works t a = elim (first_empty t.slots 0 t.i) [
    | none ↦ none
    | some i ↦ some (
        if ltb i t.i
        then fill alloc_works t i a
        else (if realloc_works
            then fill alloc_works (enlarge t) i a
            else (negsuc 0, record t { i = t.i + 256 })))
  ]

  -- `dynarray_search`, with `rounds` to go: the first object for which `cond` holds.
  pub search_from : (A → Bool) → Table A → ℕ → ℕ → Option (Option ℕ × Table A)
  search_from cond t i zero = some (none, t)
  search_from cond t i (suc rounds) =
      let rest = search_from cond t (i + 1) rounds in
      elim (get_elem? t.slots i) [
        | none ↦ none
        | some none ↦ rest
        | some (some s) ↦
            if s.present && cond s.value
            then some (some i, put t i (some (record s { refcount = inc s.refcount })))
            else rest
      ]

  pub dynarray_search : (A → Bool) → Table A → Option (Option ℕ × Table A)
  dynarray_search cond t = search_from cond t 0 t.i

-- The pattern in which the kernel uses an object: a reference is taken, the object is read and
-- written through it, and the reference is given back. A null pointer that is used is `none`.
module _ {ℓ κ} {A : Type ℓ} {R : Type κ} where
  pub borrow : (A → R × A) → Table A → ℕ → Option (R × Table A)
  borrow f t e = do
    got ← dynarray_getelem t e
    ptr ← got.0
    a ← load got.1 ptr
    freed ← dynarray_unref (store got.1 ptr (f a).1) e
    some ((f a).0, freed)
