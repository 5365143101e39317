-- ===== src/Fd.antt =====
-- The open files of root/src/kernel/fd: the handlers of fd/fd.h and the calls of fd/fd.c.
--
-- What a handler works on besides the descriptor (the tables of its own file system, the memory that
-- its pointers address) is a type of states that the calls pass on; a pointer is an address in it.
-- A handler does not touch the table of descriptors. The result of a call is `none` where the C code
-- follows a null pointer.
pub mod Dispatch
pub mod Close
pub mod Dup
mod Tests
use qword.Prelude.{ℕ, Option, none, some, ◌>>=◌, Bool, if◌then◌else◌}
use qword.Prelude.Int.{ℤ, pos, negsuc, is_zero, is_minus_one}
use qword.Dynarray.{
  Slot, Table, dynarray_add, dynarray_getelem, dynarray_unref, dynarray_remove, load,
}
use qword.Dynarray.{borrow}

-- `fd_handler_t`: each function gets the internal number of the file first.
pub record FdHandler (W : Type 0) : Type 0 where
  pub close : ℤ → W → ℤ × W
  pub fstat : ℤ → ℕ → W → ℤ × W
  pub read : ℤ → ℕ → ℕ → W → ℤ × W
  pub write : ℤ → ℕ → ℕ → W → ℤ × W
  pub lseek : ℤ → ℤ → ℤ → W → ℤ × W
  pub dup : ℤ → W → ℤ × W
  pub readdir : ℤ → ℕ → W → ℤ × W
  pub isatty : ℤ → W → ℤ × W
  pub tcgetattr : ℤ → ℕ → W → ℤ × W
  pub tcsetattr : ℤ → ℤ → ℕ → W → ℤ × W
  pub tcflow : ℤ → ℤ → W → ℤ × W
  pub getflflags : ℤ → W → ℤ × W
  pub setflflags : ℤ → ℤ → W → ℤ × W
  pub perfmon_attach : ℤ → W → ℤ × W
  pub unlink : ℤ → W → ℤ × W

-- `file_descriptor_t`
pub record FileDescriptor (W : Type 0) : Type 0 where
  pub intern_fd : ℤ
  pub fdflags : ℤ
  pub fd_handler : FdHandler W

abbrev pub einval : ℕ
einval = 1026

abbrev pub eio : ℕ
eio = 1027

abbrev pub enotdir : ℕ
enotdir = 1053

abbrev pub enotty : ℕ
enotty = 1058

-- The defaults, which set `errno` and fail; a default `isatty` answers 0.
module _ {W : Type 0} (set_errno : ℕ → W → W) where
  abbrev bogus : ℕ → W → ℤ × W
  bogus e w = (negsuc 0, set_errno e w)

  abbrev pub default_fd_handler : FdHandler W
  default_fd_handler = record {
    close = λ fd. bogus eio;
    fstat = λ fd st. bogus einval;
    read = λ fd buf len. bogus einval;
    write = λ fd buf len. bogus einval;
    lseek = λ fd offset type. bogus einval;
    dup = λ fd. bogus einval;
    readdir = λ fd buf. bogus enotdir;
    isatty = λ fd w. (pos 0, w);
    tcgetattr = λ fd buf. bogus enotty;
    tcsetattr = λ fd actions buf. bogus enotty;
    tcflow = λ fd action. bogus enotty;
    getflflags = λ fd. bogus einval;
    setflflags = λ fd flags. bogus einval;
    perfmon_attach = λ fd. bogus einval;
    unlink = λ fd. bogus einval;
  }

-- What a call leaves: its result, the table of descriptors and the rest of the state.
abbrev pub Call : Type 0 → Type 0
Call W = Table (FileDescriptor W) → ℕ → W → Option (ℤ × Table (FileDescriptor W) × W)

module _ {W : Type 0} where
  -- A reference to the descriptor is taken, a handler is called, and the reference is given back.
  unfoldable pub with_fd : (FileDescriptor W → W → ℤ × W) → Call W
  with_fd handler t fd w = do
    done ← borrow (λ d. (handler d w, d)) t fd
    some (done.0.0, done.1, done.0.1)

  unfoldable pub fd_create :
      Bool
      → Bool
      → FileDescriptor W
      → Table (FileDescriptor W)
      → Option (ℤ × Table (FileDescriptor W))
  fd_create realloc_works alloc_works d t = dynarray_add realloc_works alloc_works t d

  unfoldable pub getfdflags : Call W
  getfdflags t fd w = do done ← borrow (λ d. (d.fdflags, d)) t fd; some (done.0, done.1, w)

  unfoldable pub setfdflags : ℤ → Call W
  setfdflags fdflags t fd w = do
    done ← borrow (λ d. (pos 0, record d { fdflags = fdflags })) t fd
    some (done.0, done.1, w)

  unfoldable pub getflflags : Call W
  getflflags = with_fd (λ d. d.fd_handler.getflflags d.intern_fd)

  unfoldable pub setflflags : ℤ → Call W
  setflflags flflags = with_fd (λ d. d.fd_handler.setflflags d.intern_fd flflags)

  pub tcsetattr : ℤ → ℕ → Call W
  tcsetattr optional_actions buf =
      with_fd (λ d. d.fd_handler.tcsetattr d.intern_fd optional_actions buf)

  pub tcgetattr : ℕ → Call W
  tcgetattr buf = with_fd (λ d. d.fd_handler.tcgetattr d.intern_fd buf)

  pub tcflow : ℤ → Call W
  tcflow action = with_fd (λ d. d.fd_handler.tcflow d.intern_fd action)

  pub isatty : Call W
  isatty = with_fd (λ d. d.fd_handler.isatty d.intern_fd)

  pub perfmon_attach : Call W
  perfmon_attach = with_fd (λ d. d.fd_handler.perfmon_attach d.intern_fd)

  pub readdir : ℕ → Call W
  readdir buf = with_fd (λ d. d.fd_handler.readdir d.intern_fd buf)

  pub read : ℕ → ℕ → Call W
  read buf len = with_fd (λ d. d.fd_handler.read d.intern_fd buf len)

  pub write : ℕ → ℕ → Call W
  write buf len = with_fd (λ d. d.fd_handler.write d.intern_fd buf len)

  pub unlink : Call W
  unlink = with_fd (λ d. d.fd_handler.unlink d.intern_fd)

  unfoldable pub lseek : ℤ → ℤ → Call W
  lseek offset type = with_fd (λ d. d.fd_handler.lseek d.intern_fd offset type)

  pub fstat : ℕ → Call W
  fstat st = with_fd (λ d. d.fd_handler.fstat d.intern_fd st)

  -- The copy's entry: its handlers are read from the table after the reference has been given back.
  unfoldable pub add_copy : Bool → Bool → ℤ → Call W
  add_copy realloc_works alloc_works new_intern_fd t fd w = do
    d ← load t fd
    added ←
        fd_create realloc_works alloc_works
          (record { intern_fd = new_intern_fd; fdflags = pos 0; fd_handler = d.fd_handler }) t
    some (added.0, added.1, w)

  unfoldable pub dup : Bool → Bool → Call W
  dup realloc_works alloc_works t fd w = do
    done ← borrow (λ d. (d.fd_handler.dup d.intern_fd w, d)) t fd
    let added = add_copy realloc_works alloc_works done.0.0 done.1 fd done.0.1
    if is_minus_one done.0.0 then some (negsuc 0, done.1, done.0.1) else added

  pub close : Call W
  close t fd w = do
    copied ← borrow (λ d. (d, d)) t fd
    removed ← dynarray_remove copied.1 fd
    let closed = copied.0.fd_handler.close copied.0.intern_fd w
    some (if is_zero closed.0 then pos 0 else negsuc 0, removed.1, closed.1)
