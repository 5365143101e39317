-- ===== src/Dynarray/Tests.antt =====
-- Runs of the macros of root/src/kernel/lib/dynarray.h on small tables.
use qword.Prelude.{ℕ, ◌≡◌, refl, List, [], ◌∷◌, some, none, true, false, arith, zero, suc}
use qword.Prelude.Int.{ℤ}
use qword.Dynarray.{Table, dynarray_add}
use qword.Dynarray.Lifetime.{Use, calls, Holds, calls-slot_of}
use qword.Dynarray.Add.{dynarray_add_lem, Full, Ends}

abbrev one_object : Table ℕ
one_object = record {
  slots = some (record { refcount = 1; present = true; value = 7 }) ∷ [];
  i = 1;
}

abbrev shared_uses : List Use
shared_uses = Use.getelem ∷ Use.getelem ∷ Use.remove ∷ Use.getelem ∷ Use.unref ∷ Use.unref ∷ []

calls-slot_of_example :
    (t' : Table ℕ) × (calls shared_uses one_object 0 ≡ some t') × Holds one_object 0 none t'
calls-slot_of_example =
    calls-slot_of shared_uses one_object 0 (record { held = 0; listed = true })
      (record { held = 0; listed = false }) 7 (omega arith) refl refl

dynarray_add_lem_example :
    (r : ℤ) × (t' : Table ℕ) × (dynarray_add true true one_object 9 ≡ some (r, t'))
    × Ends one_object 9 r t'
dynarray_add_lem_example = dynarray_add_lem true true one_object 9 refl

one_object-Full : Full one_object
one_object-Full zero h = (_, refl)
one_object-Full (suc j) h = absurd (omega arith)
