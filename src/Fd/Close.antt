-- ===== src/Fd/Close.antt =====
-- `close` of root/src/kernel/fd/fd.c.
use qword.Prelude.{ℕ, ◌<◌, ◌^◌, none, some, ◌≡◌, ◌≢◌, refl, ap, ◌∙◌, if◌then◌else◌}
use qword.Prelude.{get_elem?, get_elem?-set_self, get_elem?-set_ne, get_elem?-lt}
use qword.Prelude.Int.{pos, negsuc, is_zero}
use qword.Dynarray.{Table, put}
use qword.Dynarray.Borrow.{Has, holding-same, borrow-Has, remove-Has, removed}
use qword.Fd.{FileDescriptor, close}
use qword.Fd.Dispatch.{Request, serve, serve-closed}

module _ {W : Type 0} where
  pub close-Has :
      (t : Table (FileDescriptor W)) (fd n : ℕ) (d : FileDescriptor W) (w : W)
      → n < 2 ^ 31
      → Has t fd n d
      → let r = d.fd_handler.close d.intern_fd w in
        close t fd w ≡ some (if is_zero r.0 then pos 0 else negsuc 0, put t fd (removed n d), r.1)
  unfolding close
  close-Has t fd n d w small has =
      rw
        (
          close,
          borrow-Has (λ d. (d, d)) t fd n d small has,
          holding-same t fd n d has,
          remove-Has t fd n d small has,
        )
        refl

  -- `close` calls the handler of the file once, on its internal number, and fails if that fails. The
  -- descriptor is gone at once, whatever the handler answers: every later call on it follows a null
  -- pointer. Its slot is empty if no other call is still using it, and every other slot is as before.
  pub close_lem :
      (t : Table (FileDescriptor W)) (fd n : ℕ) (d : FileDescriptor W) (w : W)
      → n < 2 ^ 31
      → Has t fd n d
      → let r = d.fd_handler.close d.intern_fd w in
        (t' : Table (FileDescriptor W)) × (close t fd w
          ≡ some (if is_zero r.0 then pos 0 else negsuc 0, t', r.1))
        × ((c : Request) (v : W) → serve c t' fd v ≡ none)
        × (n ≡ 0 → get_elem? t'.slots fd ≡ some none)
        × ((j : ℕ) → fd ≢ j → get_elem? t'.slots j ≡ get_elem? t.slots j)
  close_lem t fd n d w small has =
      let gone = get_elem?-set_self t.slots fd (removed n d) (get_elem?-lt t.slots fd has) in
      (
        put t fd (removed n d),
        close-Has t fd n d w small has,
        λ c v. serve-closed c _ fd n d v gone,
        λ e. gone ∙ ap (λ k. some (removed k d)) e,
        λ j ne. get_elem?-set_ne t.slots (removed n d) ne,
      )
