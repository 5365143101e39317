-- ===== src/Vfs/Handles.antt =====
-- The handles of open files, `open`, `mkdir`, `mount` and `vfs_sync` of root/src/kernel/fd/vfs/vfs.c.
use qword.Prelude.{ℕ, Bool, if◌then◌else◌, Option, none, some, ◌>>=◌, List, [], ◌∷◌}
use qword.Prelude.Int.{ℤ, pos, negsuc, is_zero, is_minus_one}
use qword.Dynarray.{
  Table, dynarray_add, dynarray_getelem, dynarray_unref, dynarray_remove, load, borrow,
}
use qword.Fd.{FdHandler, FileDescriptor, fd_create, default_fd_handler}
use qword.Ht.{Entry, ht_get, ht_add}
use qword.Vfs.{Text, Fs, VfsHandle, Mnt, vfs_get_mountpoint}

abbrev pub Handles : Type 0 → Type 0
Handles W = Table (VfsHandle W)

-- What a call on a handle leaves: its result, the handles and the rest of the state.
abbrev pub HandleCall : Type 0 → Type 0
HandleCall W = Handles W → ℕ → W → Option (ℤ × Handles W × W)

-- The state behind the descriptors: the handles and the rest, or `none` after a null pointer.
abbrev pub Behind : Type 0 → Type 0
Behind W = Option (Handles W × W)

module _ {W : Type 0} where
  -- A reference to the handle is taken, the file system is called, and the reference is given back.
  unfoldable pub with_handle : (VfsHandle W → W → ℤ × W) → HandleCall W
  with_handle call t fd w = do
    done ← borrow (λ h. (call h w, h)) t fd
    some (done.0.0, done.1, done.0.1)

  abbrev pub vfs_readdir : ℕ → HandleCall W
  vfs_readdir buf = with_handle (λ h. h.fs.readdir h.intern_fd buf)

  abbrev pub vfs_read : ℕ → ℕ → HandleCall W
  vfs_read buf len = with_handle (λ h. h.fs.read h.intern_fd buf len)

  abbrev pub vfs_write : ℕ → ℕ → HandleCall W
  vfs_write buf len = with_handle (λ h. h.fs.write h.intern_fd buf len)

  abbrev pub vfs_lseek : ℤ → ℤ → HandleCall W
  vfs_lseek offset type = with_handle (λ h. h.fs.lseek h.intern_fd offset type)

  abbrev pub vfs_fstat : ℕ → HandleCall W
  vfs_fstat st = with_handle (λ h. h.fs.fstat h.intern_fd st)

  abbrev pub vfs_tcgetattr : ℕ → HandleCall W
  vfs_tcgetattr buf = with_handle (λ h. h.fs.tcgetattr h.intern_fd buf)

  abbrev pub vfs_tcsetattr : ℤ → ℕ → HandleCall W
  vfs_tcsetattr actions buf = with_handle (λ h. h.fs.tcsetattr h.intern_fd actions buf)

  abbrev pub vfs_tcflow : ℤ → HandleCall W
  vfs_tcflow action = with_handle (λ h. h.fs.tcflow h.intern_fd action)

  abbrev pub vfs_isatty : HandleCall W
  vfs_isatty = with_handle (λ h. h.fs.isatty h.intern_fd)

  abbrev pub vfs_unlink : HandleCall W
  vfs_unlink = with_handle (λ h. h.fs.unlink h.intern_fd)

  -- The number that the file system gives is compared with -1 and dropped: the copy is added as it is.
  unfoldable pub vfs_dup : Bool → Bool → HandleCall W
  vfs_dup realloc_works alloc_works t fd w = do
    got ← dynarray_getelem t fd
    ptr ← got.0
    h ← load got.1 ptr
    let r = h.fs.dup h.intern_fd w
    let failed = do freed ← dynarray_unref got.1 fd; some (negsuc 0, freed, r.1)
    let copied = do
      added ← dynarray_add realloc_works alloc_works got.1 h
      freed ← dynarray_unref added.1 fd
      some (added.0, freed, r.1)
    if is_minus_one r.0 then failed else copied

  unfoldable pub vfs_close : HandleCall W
  vfs_close t fd w = do
    copied ← borrow (λ h. (h, h)) t fd
    removed ← dynarray_remove copied.1 fd
    let closed = copied.0.fs.close copied.0.intern_fd w
    some (if is_zero closed.0 then pos 0 else negsuc 0, removed.1, closed.1)

  -- A call on handles as a handler of descriptors; a handle of -1 is read before the table.
  unfoldable pub lifted : HandleCall W → ℤ → Behind W → ℤ × Behind W
  lifted call fd none = (negsuc 0, none)
  lifted call (negsuc fd) (some s) = (negsuc 0, none)
  lifted call (pos fd) (some s) = elim (call s.0 fd s.1) [
    | none ↦ (negsuc 0, none)
    | some r ↦ (r.0, some (r.1, r.2))
  ]

  abbrev pub set_errno_behind : (ℕ → W → W) → ℕ → Behind W → Behind W
  set_errno_behind set_errno e none = none
  set_errno_behind set_errno e (some s) = some (s.0, set_errno e s.1)

  -- `vfs_functions` of `open`
  abbrev pub vfs_functions : (ℕ → W → W) → Bool → Bool → FdHandler (Behind W)
  vfs_functions set_errno realloc_works alloc_works =
      record (default_fd_handler (set_errno_behind set_errno)) {
        close = lifted vfs_close;
        fstat = λ fd st. lifted (vfs_fstat st) fd;
        read = λ fd buf len. lifted (vfs_read buf len) fd;
        write = λ fd buf len. lifted (vfs_write buf len) fd;
        lseek = λ fd offset type. lifted (vfs_lseek offset type) fd;
        dup = lifted (vfs_dup realloc_works alloc_works);
        readdir = λ fd buf. lifted (vfs_readdir buf) fd;
        tcgetattr = λ fd buf. lifted (vfs_tcgetattr buf) fd;
        tcsetattr = λ fd actions buf. lifted (vfs_tcsetattr actions buf) fd;
        tcflow = λ fd action. lifted (vfs_tcflow action) fd;
        isatty = lifted vfs_isatty;
        unlink = lifted vfs_unlink;
      }

  -- `mkdir`, on the mount points of a dump.
  unfoldable pub mkdir : Text → List (Mnt W) → W → ℤ × W
  mkdir path mnts w = elim (vfs_get_mountpoint path mnts) [
    | none ↦ (negsuc 0, w)
    | some found ↦ found.0.fs.mkdir found.1 found.0.magic w
  ]

  -- `open`, on the mount points of a dump. A handle that could not be added has number -1.
  unfoldable pub open_path :
      (ℕ → W → W)
      → Bool
      → Bool
      → Text
      → ℤ
      → List (Mnt W)
      → Table (FileDescriptor (Behind W))
      → Handles W
      → W
      → Option (ℤ × Table (FileDescriptor (Behind W)) × Handles W × W)
  open_path set_errno realloc_works alloc_works path mode mnts fds handles w =
      elim (vfs_get_mountpoint path mnts) [
        | none ↦ some (negsuc 0, fds, handles, w)
        | some found ↦
            let r = found.0.fs.fs_open found.1 mode found.0.magic w in
            let opened = do
              added ←
                  dynarray_add realloc_works alloc_works handles
                    (record { fs = found.0.fs; intern_fd = r.0 })
              created ←
                  fd_create realloc_works alloc_works
                    (record {
                      intern_fd = added.0;
                      fdflags = pos 0;
                      fd_handler = vfs_functions set_errno realloc_works alloc_works;
                    })
                    fds
              some (created.0, created.1, added.1, r.1)
            in if is_minus_one r.0 then some (negsuc 0, fds, handles, r.1) else opened
      ]

  -- `mount`, with what `ht_add` needs of memory.
  unfoldable pub mount :
      Text
      → ℕ
      → Text
      → Text
      → ℕ
      → List (Option ℕ)
      → Entry (Fs W)
      → Entry (Mnt W)
      → W
      → Option (ℤ × Entry (Mnt W) × W)
  mount source options target fs_type m_flags levels filesystems mountpoints w =
      elim (ht_get (λ fs. fs.name) fs_type filesystems) [
        | none ↦ some (negsuc 0, mountpoints, w)
        | some fs ↦
            let res = fs.mount source m_flags options w in
            let added = do
              r ←
                  ht_add (λ m. m.name) (record { name = target; fs = fs; magic = res.0 }) levels
                    mountpoints
              some (r.0, r.1, res.1)
            in if is_minus_one res.0 then some (negsuc 0, mountpoints, res.1) else added
      ]

  -- `vfs_sync`, on the file systems of a dump.
  unfoldable pub vfs_sync : List (Fs W) → W → W
  vfs_sync [] w = w
  vfs_sync (fs ∷ rest) w = vfs_sync rest (fs.sync w).1
