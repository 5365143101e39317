-- ===== src/Syscall/Numbers/Descriptors.antt =====
-- The calls of root/src/kernel/fd/fd.c as the kernel behind those of root/src/kernel/proc/syscalls.c,
-- with memory.
--
-- `open` makes a descriptor for what a file system opens, and `pipe` one for each end; both are
-- arguments, as is what an operation on a file does to the rest of the state.
pub mod Kept
pub mod Served
use qword.Prelude.{ℕ, Bool, true, false, Option, none, some, ◌>>=◌, ◌≡◌, get_elem?}
use qword.Prelude.Int.{ℤ, pos, negsuc, is_zero}
use qword.Vfs.{Text}
use qword.Dynarray.{Slot, Table}
use qword.Dynarray.Add.{Sized, fresh}
use qword.Dynarray.Kept.{Holds}
use qword.Fd.{FdHandler, FileDescriptor, Call, fd_create, close, dup}
use qword.Fd.{getfdflags, setfdflags, getflflags, setflflags, lseek}
use qword.Syscall.Numbers.{Kernel}

-- The table of descriptors and the rest.
pub record Descriptors (W : Type 0) : Type 0 where
  pub table : Table (FileDescriptor W)
  pub rest : W

module _ {W : Type 0} where
  abbrev pub on_number : Call W → ℤ → Descriptors W → Option (ℤ × Descriptors W)
  on_number call (pos fd) s = do
    done ← call s.table fd s.rest
    some (done.0, record { table = done.1; rest = done.2 })
  on_number call (negsuc fd) s = none

  abbrev pub create : FileDescriptor W → Descriptors W → Option (ℤ × Descriptors W)
  create d s = do
    added ← fd_create true true d s.table
    some (added.0, record s { table = added.1 })

  -- A number of the table that is in use.
  abbrev pub in_use : Option (Option (Slot (FileDescriptor W))) → Bool
  in_use none = false
  in_use (some none) = false
  in_use (some (some x)) = true

  abbrev pub live : Descriptors W → ℤ → Bool
  live s (pos fd) = in_use (get_elem? s.table.slots fd)
  live s (negsuc fd) = false

  -- A file that can be closed.
  abbrev pub Closes : FileDescriptor W → Type 0
  Closes d = (fd : ℤ) (w : W) → is_zero (d.fd_handler.close fd w).0 ≡ true

  -- No call is at work on a descriptor, and every file can be closed.
  pub record Sound (s : Descriptors W) : Type 0 where
    pub sized : Sized s.table
    pub idle :
        (fd : ℕ) (x : Slot (FileDescriptor W))
        → Holds s.table fd x
        → (x ≡ record { refcount = 1; present = true; value = x.value }) × Closes x.value

  module _ (set_errno : ℕ → W → W) (vfs_file : Text → ℤ → W → Option (FileDescriptor W) × W)
      (pipe_ends : W → FileDescriptor W × FileDescriptor W × W) where
    abbrev pub fd_kernel : Kernel (Descriptors W)
    fd_kernel = record {
      open_path = λ path mode s.
          let opened = vfs_file path mode s.rest in
          let t : Descriptors W = record s { rest = opened.1 } in
          elim opened.0 [ none ↦ some (negsuc 0, t) | some d ↦ create d t ];
      close = on_number close;
      dup = on_number (dup true true);
      pipe = λ s.
          let ends = pipe_ends s.rest in
          (do
            a ← create ends.0 (record s { rest = ends.2 })
            b ← create ends.1 a.1
            some (a.0, b.0, b.1));
      getfdflags = on_number getfdflags;
      setfdflags = λ fd flags. on_number (setfdflags flags) fd;
      getflflags = on_number getflflags;
      setflflags = λ fd flags. on_number (setflflags flags) fd;
      lseek = λ fd offset type. on_number (lseek offset type) fd;
      set_errno = λ e s. record s { rest = set_errno e s.rest };
    }
