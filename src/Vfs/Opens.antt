-- ===== src/Vfs/Opens.antt =====
-- From the path to the file system: `open` of root/src/kernel/fd/vfs/vfs.c and the calls on the
-- descriptor that it returns.
use qword.Prelude.{ℕ, ◌<◌, ◌^◌, true, false, some, List, get_elem?}
use qword.Prelude.{◌≡◌, ◌≢◌, refl, ap, ◌∙◌, arith}
use qword.Prelude.Int.{ℤ, pos, is_minus_one}
use qword.Dynarray.{Table}
use qword.Dynarray.Borrow.{Has, holding, holding-same, borrow-Has}
use qword.Dynarray.Add.{Sized, dynarray_add-succeeds}
use qword.Fd.{FileDescriptor, fd_create}
use qword.Fd.Dispatch.{Request, serve, serve-answer}
use qword.Vfs.{Text, VfsHandle, Mnt, vfs_get_mountpoint}
use qword.Vfs.Handles.{
  Handles, Behind, with_handle, vfs_read, vfs_write, vfs_functions, lifted, open_path,
}

module _ {W : Type 0} where
  -- What the file system of a handle does on a request to a descriptor.
  with_handle-Has :
      (call : VfsHandle W → W → ℤ × W) (t : Handles W) (fd n : ℕ) (h : VfsHandle W) (w : W)
      → n < 2 ^ 31
      → Has t fd n h
      → with_handle call t fd w ≡ some ((call h w).0, t, (call h w).1)
  unfolding with_handle
  with_handle-Has call t fd n h w small has =
      rw (with_handle, borrow-Has (λ h. (call h w, h)) t fd n h small has)
        (ap (λ t. some ((call h w).0, t, (call h w).1)) (holding-same t fd n h has))

  pub lifted-Has :
      (call : VfsHandle W → W → ℤ × W) (t : Handles W) (fd n : ℕ) (h : VfsHandle W) (w : W)
      → n < 2 ^ 31
      → Has t fd n h
      → lifted (with_handle call) (pos fd) (some (t, w)) ≡ ((call h w).0, some (t, (call h w).1))
  unfolding lifted
  lifted-Has call t fd n h w small has = rw (lifted, with_handle-Has call t fd n h w small has) refl

  -- With memory, `open` gives the file that the file system opens on the path inside of its mount
  -- point a handle and a descriptor, and a read or a write on that descriptor is the file system's on
  -- the number that it returned, with all descriptors and handles as they were.
  pub open_path_lem :
      (set_errno : ℕ → W → W) (path : Text) (mode : ℤ) (mnts : List (Mnt W))
      (fds : Table (FileDescriptor (Behind W))) (handles : Handles W) (w : W) (m : Mnt W)
      (local : Text)
      → Sized fds
      → Sized handles
      → vfs_get_mountpoint path mnts ≡ some (m, local)
      → is_minus_one (m.fs.fs_open local mode m.magic w).0 ≡ false
      → let (intern_fd, w1) = m.fs.fs_open local mode m.magic w in
        (fd : ℕ) × (fds' : Table (FileDescriptor (Behind W))) × (handles' : Handles W) × (open_path
            set_errno true true path mode mnts fds handles w
          ≡ some (pos fd, fds', handles', w1))
        × ((j : ℕ) → j < fds.i → fd ≢ j → get_elem? fds'.slots j ≡ get_elem? fds.slots j)
        × ((buf len : ℕ) (v : W)
            → (serve (Request.ask_read buf len) fds' fd (some (handles', v))
                ≡ some (
                  (m.fs.read intern_fd buf len v).0,
                  fds',
                  some (handles', (m.fs.read intern_fd buf len v).1),
                ))
              × (serve (Request.ask_write buf len) fds' fd (some (handles', v))
                  ≡ some (
                    (m.fs.write intern_fd buf len v).0,
                    fds',
                    some (handles', (m.fs.write intern_fd buf len v).1),
                  )))
  unfolding open_path fd_create
  open_path_lem set_errno path mode mnts fds handles w m local sized_fds sized_handles there
        opened =
      let r = m.fs.fs_open local mode m.magic w in
      let handle : VfsHandle W = record { fs = m.fs; intern_fd = r.0 } in
      let (p, handles', added, at_p) = dynarray_add-succeeds handles handle sized_handles in
      let d : FileDescriptor (Behind W) = record {
        intern_fd = pos p;
        fdflags = pos 0;
        fd_handler = vfs_functions set_errno true true;
      } in
      let (fd, fds', created, at_fd) = dynarray_add-succeeds fds d sized_fds in
      let has = at_p.2 in
      let fd_has = at_fd.2 in
      let opens : open_path set_errno true true path mode mnts fds handles w
          ≡ some (pos fd, fds', handles', r.1) =
        rw (open_path, there, opened, added, fd_create, created) refl in
      let reads : (buf len : ℕ) (v : W)
          → lifted (vfs_read buf len) (pos p) (some (handles', v))
            ≡ ((m.fs.read r.0 buf len v).0, some (handles', (m.fs.read r.0 buf len v).1)) =
        λ buf len v.
          lifted-Has (λ h. h.fs.read h.intern_fd buf len) handles' p 0 handle v (omega arith) has in
      let writes : (buf len : ℕ) (v : W)
          → lifted (vfs_write buf len) (pos p) (some (handles', v))
            ≡ ((m.fs.write r.0 buf len v).0, some (handles', (m.fs.write r.0 buf len v).1)) =
        λ buf len v.
          lifted-Has (λ h. h.fs.write h.intern_fd buf len) handles' p 0 handle v (omega arith)
            has in
      (
        fd,
        fds',
        handles',
        opens,
        at_fd.3,
        λ buf len v. (
          serve-answer (Request.ask_read buf len) fds' fd 0 d (some (handles', v)) (omega arith)
                fd_has
              ∙ ap (λ a. some (a.0, holding fds' fd 0 d, a.1)) (reads buf len v)
              ∙ ap
                  (λ t.
                    some (
                      (m.fs.read r.0 buf len v).0,
                      t,
                      some (handles', (m.fs.read r.0 buf len v).1),
                    ))
                  (holding-same fds' fd 0 d fd_has),
          serve-answer (Request.ask_write buf len) fds' fd 0 d (some (handles', v)) (omega arith)
                fd_has
              ∙ ap (λ a. some (a.0, holding fds' fd 0 d, a.1)) (writes buf len v)
              ∙ ap
                  (λ t. some (
                    (m.fs.write r.0 buf len v).0,
                    t,
                    some (handles', (m.fs.write r.0 buf len v).1),
                  ))
                  (holding-same fds' fd 0 d fd_has),
        ),
      )
