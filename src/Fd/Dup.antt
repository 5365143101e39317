-- ===== src/Fd/Dup.antt =====
-- `dup` of root/src/kernel/fd/fd.c.
use qword.Prelude.{ℕ, ◌<◌, ◌^◌, some, ◌≡◌, refl, Bool, true, false, ◌⊎◌, inl, inr}
use qword.Prelude.{Bool-cases}
use qword.Prelude.Int.{ℤ, pos, negsuc, is_minus_one}
use qword.Dynarray.{Table}
use qword.Dynarray.Borrow.{Has, holding-same, borrow-Has, load-Has}
use qword.Dynarray.Add.{Sized, Ends, dynarray_add_lem}
use qword.Fd.{FileDescriptor, dup, add_copy, fd_create}

module _ {W : Type 0} where
  -- The descriptor that `dup` makes of `d`.
  abbrev pub copy_of : FileDescriptor W → ℤ → FileDescriptor W
  copy_of d new_intern_fd = record {
    intern_fd = new_intern_fd;
    fdflags = pos 0;
    fd_handler = d.fd_handler;
  }

  -- `dup` asks the file for a second internal number. Where the file refuses, `dup` fails and the
  -- table is as before. Else the copy, with the handlers of the first descriptor, the new internal
  -- number and no flags, goes to the lowest free number, which is returned, and the first descriptor
  -- stays as it is; without memory for it, the result is -1 and no descriptor changes.
  pub dup_lem :
      (realloc_works alloc_works : Bool) (t : Table (FileDescriptor W)) (fd n : ℕ)
      (d : FileDescriptor W) (w : W)
      → n < 2 ^ 31
      → Sized t
      → Has t fd n d
      → let r = d.fd_handler.dup d.intern_fd w in
        ((is_minus_one r.0 ≡ true)
          × (dup realloc_works alloc_works t fd w ≡ some (negsuc 0, t, r.1)))
        ⊎ ((is_minus_one r.0 ≡ false)
            × (new : ℤ) × (t' : Table (FileDescriptor W)) × (dup realloc_works alloc_works t fd w
                ≡ some (new, t', r.1))
            × Ends t (copy_of d r.0) new t')
  unfolding dup add_copy fd_create
  dup_lem works alloc t fd n d w small sized has =
      let borrowed = borrow-Has (λ d. (d.fd_handler.dup d.intern_fd w, d)) t fd n d small has in
      let same = holding-same t fd n d has in
      elim (Bool-cases (is_minus_one (d.fd_handler.dup d.intern_fd w).0)) [
        | inl refused ↦ inl (refused, rw (dup, borrowed, same, refused) refl)
        | inr given ↦
            let (new, t', added, ends) =
              dynarray_add_lem works alloc t (copy_of d (d.fd_handler.dup d.intern_fd w).0) sized in
            inr (
              given,
              new,
              t',
              rw (dup, borrowed, same, given, add_copy, load-Has t fd n d has, fd_create, added)
                  refl,
              ends,
            )
      ]
