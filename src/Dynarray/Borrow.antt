-- ===== src/Dynarray/Borrow.antt =====
-- A reference to an object of a table that is taken, used and given back
-- (root/src/kernel/lib/dynarray.h).
use qword.Prelude.{ℕ, zero, suc, ◌+◌, ◌-◌, ◌<◌, ◌%◌, ◌^◌, ◌==◌, true, false}
use qword.Prelude.{
  get_elem?, get_elem?-set_self, get_elem?-lt, set-set, set-get, Option, none, some, arith,
}
use qword.Prelude.{◌≡◌, refl, ◌∙◌, ap}
use qword.Dynarray.{Slot, Table, put, inc, dec, drop_ref, dynarray_getelem, dynarray_unref, load}
use qword.Dynarray.{store, borrow, dynarray_remove}
use qword.Prelude.Int.{pos}

-- Slot `e` holds the object `a`, with `suc n` references.
abbrev pub Has {ℓ} : {A : Type ℓ} → Table A → ℕ → ℕ → A → Type ℓ
Has t e n a =
    get_elem? t.slots e ≡ some (some (record { refcount = suc n; present = true; value = a }))

abbrev pub holding {ℓ} : {A : Type ℓ} → Table A → ℕ → ℕ → A → Table A
holding t e n a = put t e (some (record { refcount = suc n; present = true; value = a }))

pub holding-Has {ℓ} :
    {A : Type ℓ} (t : Table A) (e n : ℕ) (a : A) {s : Option (Slot A)}
    → get_elem? t.slots e ≡ some s
    → Has (holding t e n a) e n a
holding-Has t e n a h = get_elem?-set_self t.slots e _ (get_elem?-lt t.slots e h)

pub getelem-Has {ℓ} :
    {A : Type ℓ} (t : Table A) (e n : ℕ) (a : A)
    → n < 2 ^ 31
    → Has t e n a
    → dynarray_getelem t e ≡ some (some e, holding t e (suc n) a)
unfolding dynarray_getelem
getelem-Has t e n a small h =
    let up : (suc n + 1) % 2 ^ 32 ≡ suc (suc n) = omega arith in
    rw (dynarray_getelem, h, inc, up) refl

pub load-Has {ℓ} : {A : Type ℓ} (t : Table A) (e n : ℕ) (a : A) → Has t e n a → load t e ≡ some a
unfolding load
load-Has t e n a h = rw (load, h) refl

pub store-Has {ℓ} :
    {A : Type ℓ} (t : Table A) (e n : ℕ) (a b : A) → Has t e n a → store t e b ≡ holding t e n b
unfolding store
store-Has t e n a b h = rw (store, h) refl

pub unref-Has {ℓ} :
    {A : Type ℓ} (t : Table A) (e n : ℕ) (a : A)
    → n < 2 ^ 31
    → Has t e (suc n) a
    → dynarray_unref t e ≡ some (holding t e n a)
unfolding dynarray_unref
unref-Has t e n a small h =
    let down : (suc (suc n) + 2 ^ 32 - 1) % 2 ^ 32 ≡ suc n = omega arith in
    let left : (suc n == 0) ≡ false = ground arith in rw (dynarray_unref, h, dec, down, left) refl

pub holding-holding {ℓ} :
    {A : Type ℓ} (t : Table A) (e n k : ℕ) (a b : A)
    → holding (holding t e n a) e k b ≡ holding t e k b
holding-holding t e n k a b = ap (λ s. record t { slots = s }) (set-set t.slots e _ _)

-- What a borrower does to the object is what happens: afterwards the object has the value that it
-- gave it, as many references as before, and no other slot is changed.
pub borrow-Has {ℓ κ} :
    {A : Type ℓ} {R : Type κ} (f : A → R × A) (t : Table A) (e n : ℕ) (a : A)
    → n < 2 ^ 31
    → Has t e n a
    → borrow f t e ≡ some ((f a).0, holding t e n (f a).1)
unfolding borrow
borrow-Has f t e n a small h =
    let has = holding-Has t e (suc n) a h in
    let stored = store-Has (holding t e (suc n) a) e (suc n) a (f a).1 has in
    let has' = holding-Has (holding t e (suc n) a) e (suc n) (f a).1 has in
    let loaded = load-Has (holding t e (suc n) a) e (suc n) a has in
    let freed =
      unref-Has (holding (holding t e (suc n) a) e (suc n) (f a).1) e n (f a).1 small has' in
    let same =
      holding-holding (holding t e (suc n) a) e (suc n) n (f a).1 (f a).1
      ∙ holding-holding t e (suc n) n a (f a).1 in
    rw (borrow, getelem-Has t e n a small h, loaded, stored, freed)
      (ap (λ x. some ((f a).0, x)) same)

-- The slot of an object that has been removed and to which there are still `n` references.
abbrev pub removed {ℓ} : {A : Type ℓ} → ℕ → A → Option (Slot A)
removed zero a = none
removed (suc n) a = some (record { refcount = suc n; present = false; value = a })

drop_ref-removed {ℓ} :
    {A : Type ℓ} (n : ℕ) (a : A)
    → n < 2 ^ 31
    → drop_ref (record { refcount = suc n; present = false; value = a }) ≡ removed n a
drop_ref-removed zero a small = refl
drop_ref-removed (suc n) a small =
    let down : (suc (suc n) + 2 ^ 32 - 1) % 2 ^ 32 ≡ suc n = omega arith in
    let left : (suc n == 0) ≡ false = ground arith in rw (down, left) refl

pub remove-Has {ℓ} :
    {A : Type ℓ} (t : Table A) (e n : ℕ) (a : A)
    → n < 2 ^ 31
    → Has t e n a
    → dynarray_remove t e ≡ some (pos 0, put t e (removed n a))
unfolding dynarray_remove
remove-Has t e n a small h = rw (dynarray_remove, h, drop_ref-removed n a small) refl

-- Without an object that is in the table a borrower follows a null pointer.
pub borrow-removed {ℓ κ} :
    {A : Type ℓ} {R : Type κ} (f : A → R × A) (t : Table A) (e n : ℕ) (a : A)
    → get_elem? t.slots e ≡ some (removed n a)
    → borrow f t e ≡ none
unfolding borrow dynarray_getelem
borrow-removed f t e zero a h = rw (borrow, dynarray_getelem, h) refl
borrow-removed f t e (suc n) a h = rw (borrow, dynarray_getelem, h) refl

pub put-holding {ℓ} :
    {A : Type ℓ} (t : Table A) (e n : ℕ) (a : A) (s : Option (Slot A))
    → put (holding t e n a) e s ≡ put t e s
put-holding t e n a s = ap (λ x. record t { slots = x }) (set-set t.slots e _ s)

pub holding-same {ℓ} :
    {A : Type ℓ} (t : Table A) (e n : ℕ) (a : A) → Has t e n a → holding t e n a ≡ t
holding-same t e n a h = ap (λ x. record t { slots = x }) (set-get t.slots e {v = _} h)
