-- ===== src/Vfs/Dup.antt =====
-- `vfs_dup` of root/src/kernel/fd/vfs/vfs.c copies the number of its handle.
use mathlib.Core.Option.{some-injective, none-ne-some}
use qword.Prelude.{
  ℕ, suc, ◌<◌, ◌^◌, true, false, Bool-cases, none, some, get_elem?, get_elem?-set_ne, get_elem?-lt,
  length-set,
}
use qword.Prelude.{◌≡◌, ◌≢◌, ◌⊎◌, inl, inr, refl, sym, ap, ◌∙◌, arith}
use qword.Prelude.Int.{pos, negsuc, is_minus_one}
use qword.Dynarray.Borrow.{
  Has, holding, holding-same, getelem-Has, load-Has, unref-Has, holding-Has, holding-holding,
}
use qword.Dynarray.Add.{Sized, dynarray_add-succeeds}
use qword.Vfs.{VfsHandle}
use qword.Vfs.Handles.{Handles, vfs_dup}

module _ {W : Type 0} where
  -- `vfs_dup` asks the file system for a second number. Where it refuses, the handles are as before.
  -- Else, with memory, there is one more handle, and it has the number of the first one: what the file
  -- system returned is lost.
  pub vfs_dup_lem :
      (t : Handles W) (fd n : ℕ) (h : VfsHandle W) (w : W)
      → n < 2 ^ 31
      → Sized t
      → Has t fd n h
      → let r = h.fs.dup h.intern_fd w in
        ((is_minus_one r.0 ≡ true) × (vfs_dup true true t fd w ≡ some (negsuc 0, t, r.1)))
        ⊎ ((is_minus_one r.0 ≡ false)
            × ((new : ℕ) × (t' : Handles W) × (vfs_dup true true t fd w ≡ some (pos new, t', r.1))
                × (new ≢ fd)
                × Has t' new 0 h
                × Has t' fd n h))
  unfolding vfs_dup
  vfs_dup_lem t fd n h w small sized has =
      let r = h.fs.dup h.intern_fd w in
      let t1 : Handles W = holding t fd (suc n) h in
      let got = getelem-Has t fd n h small has in
      let has1 = holding-Has t fd (suc n) h has in
      let sized1 : Sized t1 = length-set t.slots fd _ ∙ sized in
      let (new, t2, added, (free, used, at_new, others, sized2)) =
        dynarray_add-succeeds t1 h sized1 in
      let inside : fd < t1.i = omega (arith, get_elem?-lt t1.slots fd has1, sized1) in
      let apart : new ≢ fd = λ e. elim free [
        | inl end ↦ omega (arith, end, e, inside)
        | inr gone ↦
            none-ne-some _ (some-injective none _ (sym gone ∙ ap (get_elem? t1.slots) e ∙ has1))
      ] in
      let has2 : Has t2 fd (suc n) h = others fd inside apart ∙ has1 in
      elim (Bool-cases (is_minus_one r.0)) [
        | inl refused ↦ inl (
          refused,
          rw (vfs_dup, got, load-Has t1 fd (suc n) h has1, refused, unref-Has t1 fd n h small has1)
              (ap (λ t. some (negsuc 0, t, r.1))
                (holding-holding t fd (suc n) n h h ∙ holding-same t fd n h has)),
        )
        | inr given ↦ inr (
          given,
          (
            new,
            holding t2 fd n h,
            rw
                (
                  vfs_dup,
                  got,
                  load-Has t1 fd (suc n) h has1,
                  given,
                  added,
                  unref-Has t2 fd n h small has2,
                )
                refl,
            apart,
            get_elem?-set_ne t2.slots {i = fd} {j = new} _ (λ e. apart (sym e)) ∙ at_new,
            holding-Has t2 fd n h has2,
          ),
        )
      ]
