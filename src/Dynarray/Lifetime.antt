-- ===== src/Dynarray/Lifetime.antt =====
-- How long an object of a table lives: `dynarray_getelem`, `dynarray_unref` and `dynarray_remove` of
-- root/src/kernel/lib/dynarray.h against the references that are held.
use qword.Prelude.{ℕ, zero, suc, ◌+◌, ◌-◌, ◌<◌, ◌^◌, ◌%◌, ◌==◌, if◌then◌else◌, Bool, true, false}
use qword.Prelude.{List, [], ◌∷◌, get_elem?, length, Option, none, some, arith, get_elem?-set_self}
use qword.Prelude.{
  Option-cases, length, ◌≤◌, subst, sym, ◌∙◌, inl, inr, ◌≡◌, ◌≢◌, refl, get_elem?-set_ne,
  get_elem?-lt,
}
use mathlib.Core.Option.{some-injective, none-ne-some}
use qword.Dynarray.{Slot, Table, put, inc, drop_ref, dynarray_getelem, dynarray_unref}
use qword.Dynarray.{dynarray_remove}

-- What a reader of the code knows of an object: how many references `dynarray_getelem` has handed
-- out and not got back, and whether the object is still in the table.
pub record Owners : Type 0 where
  pub held : ℕ
  pub listed : Bool

pub data Use : Type 0 where
  getelem : Use
  unref : Use
  remove : Use

-- The uses that the code means to make: only a held reference is given back, and an object is
-- removed once.
abbrev pub after_use : Use → Owners → Option Owners
after_use getelem o = some (if o.listed then record { held = suc o.held; listed = true } else o)
after_use unref o = elim o.held [
  | zero ↦ none
  | suc h ↦ some (record { held = h; listed = o.listed })
]
after_use remove o = if o.listed then some (record { held = o.held; listed = false }) else none

abbrev pub after_uses : List Use → Owners → Option Owners
after_uses [] o = some o
after_uses (u ∷ us) o = elim (after_use u o) [ none ↦ none | some o' ↦ after_uses us o' ]

abbrev pub call {ℓ} : {A : Type ℓ} → Use → Table A → ℕ → Option (Table A)
call getelem t e = elim (dynarray_getelem t e) [ none ↦ none | some r ↦ some r.1 ]
call unref t e = dynarray_unref t e
call remove t e = elim (dynarray_remove t e) [ none ↦ none | some r ↦ some r.1 ]

abbrev pub calls {ℓ} : {A : Type ℓ} → List Use → Table A → ℕ → Option (Table A)
calls [] t e = some t
calls (u ∷ us) t e = elim (call u t e) [ none ↦ none | some t' ↦ calls us t' e ]

-- The references that these owners amount to.
abbrev pub refs : Owners → ℕ
refs o = if o.listed then suc o.held else o.held

-- The slot of an object to which there are this many references: empty once there is none.
abbrev pub slot_with {ℓ} : {A : Type ℓ} → ℕ → Bool → A → Option (Slot A)
slot_with zero p a = none
slot_with (suc n) p a = some (record { refcount = suc n; present = p; value = a })

abbrev pub slot_of {ℓ} : {A : Type ℓ} → Owners → A → Option (Slot A)
slot_of o a = slot_with (refs o) o.listed a

-- Slot `e` of the table is `s`, and every other one is as in `t`.
abbrev pub Holds {ℓ} : {A : Type ℓ} → Table A → ℕ → Option (Slot A) → Table A → Type ℓ
Holds t e s t' =
    (get_elem? t'.slots e ≡ some s)
    × ((j : ℕ) → e ≢ j → get_elem? t'.slots j ≡ get_elem? t.slots j)
    × (t'.i ≡ t.i)

Holds-put {ℓ} :
    {A : Type ℓ} (t : Table A) (e : ℕ) {s : Option (Slot A)} (s' : Option (Slot A))
    → get_elem? t.slots e ≡ some s
    → Holds t e s' (put t e s')
Holds-put t e s' h = (
  get_elem?-set_self t.slots e s' (get_elem?-lt t.slots e h),
  λ j ne. get_elem?-set_ne t.slots s' ne,
  refl,
)

drop_ref_lem {ℓ} :
    {A : Type ℓ} (n : ℕ) (p : Bool) (a : A)
    → n < 2 ^ 31
    → drop_ref (record { refcount = suc n; present = p; value = a }) ≡ slot_with n p a
drop_ref_lem zero p a small = refl
drop_ref_lem (suc n) p a small =
    let wrap : (suc (suc n) + 2 ^ 32 - 1) % 2 ^ 32 ≡ suc n = omega arith in
    let left : (suc n == 0) ≡ false = ground arith in rw (wrap, left) refl

-- The call turns slot `e` into `s`.
abbrev Calls {ℓ} : {A : Type ℓ} → Use → Table A → ℕ → Option (Slot A) → Type ℓ
Calls {A = A} u t e s = (t' : Table A) × (call u t e ≡ some t') × Holds t e s t'

getelem_lem {ℓ} :
    {A : Type ℓ} (t : Table A) (e n : ℕ) (a : A)
    → n + 2 < 2 ^ 31
    → get_elem? t.slots e ≡ some (slot_with (suc n) true a)
    → Calls getelem t e (slot_with (suc (suc n)) true a)
unfolding dynarray_getelem
getelem_lem t e n a small slot =
    let wrap : (suc n + 1) % 2 ^ 32 ≡ suc (suc n) = omega arith in
    (
      put t e (slot_with (suc (suc n)) true a),
      rw (call, dynarray_getelem, slot, inc, wrap) refl,
      Holds-put t e _ slot,
    )

getelem-removed {ℓ} :
    {A : Type ℓ} (t : Table A) (e n : ℕ) (a : A)
    → get_elem? t.slots e ≡ some (slot_with n false a)
    → Calls getelem t e (slot_with n false a)
unfolding dynarray_getelem
getelem-removed t e zero a slot =
    (t, rw (call, dynarray_getelem, slot) refl, (slot, λ j ne. refl, refl))
getelem-removed t e (suc n) a slot =
    (t, rw (call, dynarray_getelem, slot) refl, (slot, λ j ne. refl, refl))

unref_lem {ℓ} :
    {A : Type ℓ} (t : Table A) (e n : ℕ) (p : Bool) (a : A)
    → n < 2 ^ 31
    → get_elem? t.slots e ≡ some (slot_with (suc n) p a)
    → Calls unref t e (slot_with n p a)
unfolding dynarray_unref
unref_lem t e n p a small slot = (
  put t e (slot_with n p a),
  rw (call, dynarray_unref, slot, drop_ref_lem n p a small) refl,
  Holds-put t e _ slot,
)

remove_lem {ℓ} :
    {A : Type ℓ} (t : Table A) (e n : ℕ) (p : Bool) (a : A)
    → n < 2 ^ 31
    → get_elem? t.slots e ≡ some (slot_with (suc n) p a)
    → Calls remove t e (slot_with n false a)
unfolding dynarray_remove
remove_lem t e n p a small slot = (
  put t e (slot_with n false a),
  rw (call, dynarray_remove, slot, drop_ref_lem n false a small) refl,
  Holds-put t e _ slot,
)

call_lem {ℓ} :
    {A : Type ℓ} (u : Use) (t : Table A) (e h : ℕ) (l : Bool) (o' : Owners) (a : A)
    → h + 3 < 2 ^ 31
    → after_use u (record { held = h; listed = l }) ≡ some o'
    → get_elem? t.slots e ≡ some (slot_of (record { held = h; listed = l }) a)
    → Calls u t e (slot_of o' a)
call_lem getelem t e h true o' a small legal slot =
    subst (λ x. Calls getelem t e (slot_of x a)) (some-injective _ _ legal)
      (getelem_lem t e h a (omega arith) slot)
call_lem getelem t e h false o' a small legal slot =
    subst (λ x. Calls getelem t e (slot_of x a)) (some-injective _ _ legal)
      (getelem-removed t e h a slot)
call_lem unref t e zero l o' a small legal slot = absurd (none-ne-some _ legal)
call_lem unref t e (suc h) true o' a small legal slot =
    subst (λ x. Calls unref t e (slot_of x a)) (some-injective _ _ legal)
      (unref_lem t e (suc h) true a (omega arith) slot)
call_lem unref t e (suc h) false o' a small legal slot =
    subst (λ x. Calls unref t e (slot_of x a)) (some-injective _ _ legal)
      (unref_lem t e h false a (omega arith) slot)
call_lem remove t e h true o' a small legal slot =
    subst (λ x. Calls remove t e (slot_of x a)) (some-injective _ _ legal)
      (remove_lem t e h true a (omega arith) slot)
call_lem remove t e h false o' a small legal slot = absurd (none-ne-some _ legal)

held_bound :
    (u : Use) (h : ℕ) (l : Bool) (o' : Owners)
    → after_use u (record { held = h; listed = l }) ≡ some o'
    → o'.held ≤ suc h
held_bound getelem h true o' legal =
    subst (λ x. x.held ≤ suc h) (some-injective _ _ legal) (omega arith)
held_bound getelem h false o' legal =
    subst (λ x. x.held ≤ suc h) (some-injective _ _ legal) (omega arith)
held_bound unref zero l o' legal = absurd (none-ne-some _ legal)
held_bound unref (suc h) l o' legal =
    subst (λ x. x.held ≤ suc (suc h)) (some-injective _ _ legal) (omega arith)
held_bound remove h true o' legal =
    subst (λ x. x.held ≤ suc h) (some-injective _ _ legal) (omega arith)
held_bound remove h false o' legal = absurd (none-ne-some _ legal)

after_uses-none :
    (u : Use) (us : List Use) (o : Owners) → after_use u o ≡ none → after_uses (u ∷ us) o ≡ none
after_uses-none u us o e = rw (after_uses, e) refl

after_uses-some :
    (u : Use) (us : List Use) (o : Owners) {o1 : Owners}
    → after_use u o ≡ some o1
    → after_uses (u ∷ us) o ≡ after_uses us o1
after_uses-some u us o e = rw (after_uses, e) refl

-- However the references to an object are taken and given back, and whenever it is removed from the
-- table: as long as only held references are given back and it is removed once, the slot of the
-- object holds its value until the last owner is gone and is empty from then on, and no other slot
-- changes.
pub calls-slot_of {ℓ} :
    {A : Type ℓ} (us : List Use) (t : Table A) (e : ℕ) (o o' : Owners) (a : A)
    → length us + o.held + 3 < 2 ^ 31
    → after_uses us o ≡ some o'
    → get_elem? t.slots e ≡ some (slot_of o a)
    → (t' : Table A) × (calls us t e ≡ some t') × Holds t e (slot_of o' a) t'
calls-slot_of [] t e o o' a small legal slot = (
  t,
  refl,
  subst (λ x. Holds t e (slot_of x a) t) (some-injective _ _ legal) (slot, λ j ne. refl, refl),
)
calls-slot_of (u ∷ us) t e o o' a small legal slot = elim (Option-cases (after_use u o)) [
  | inl illegal ↦ absurd (none-ne-some _ (sym (after_uses-none u us o illegal) ∙ legal))
  | inr (o1, first) ↦
      let (t1, called, (now, others, same)) =
        call_lem u t e o.held o.listed o1 a (omega arith) first slot in
      let bound = held_bound u o.held o.listed o1 first in
      let (t2, rest, (last, kept, still)) =
        calls-slot_of us t1 e o1 o' a (omega arith)
          (sym (after_uses-some u us o {o1 = o1} first) ∙ legal) now in
      (t2, rw (calls, called) rest, (last, λ j ne. kept j ne ∙ others j ne, still ∙ same))
]
