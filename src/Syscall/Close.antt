-- ===== src/Syscall/Close.antt =====
-- `syscall_close` of root/src/kernel/proc/syscalls.c and the calls on the number it has freed.
use qword.Prelude.{ℕ, ◌==◌, false, Option, some}
use qword.Prelude.{◌≡◌, arith}
use qword.Prelude.Int.{ℤ, pos, negsuc}
use qword.Syscall.{ebadf, privilege_check, syscall_io, syscall_close}

module _ {S : Type 0} (set_errno : ℕ → S → S) (close : ℤ → S → Option (ℤ × S))
    (file_handles : ℕ → ℤ) (fd : ℕ) (s t : S) where
  -- A close that succeeds frees the number and no other, and the next read of it or write to it fails
  -- with EBADF.
  syscall_close-frees :
      (call : ℤ → ℕ → ℕ → S → Option (ℤ × S)) (fuel buf len : ℕ) (file_handles' : ℕ → ℤ)
      → syscall_close set_errno close file_handles fd s ≡ some (pos 0, file_handles', t)
      → privilege_check buf len ≡ false
      → (syscall_io set_errno call fuel file_handles' fd buf len t
          ≡ some (negsuc 0, set_errno ebadf t))
        × ((other : ℕ) → (other == fd) ≡ false → file_handles' other ≡ file_handles other)
  unfolding syscall_close syscall_io
  syscall_close-frees call fuel buf len file_handles' closed user = ground (arith, closed, user)
