-- ===== src/Vfs/Tests.antt =====
-- Two mount points and an open file of root/src/kernel/fd/vfs/vfs.c.
use qword.Prelude.{ℕ, ◌+◌, ◌<◌, true, false, none, some, List, [], ◌∷◌, get_elem?}
use qword.Prelude.{◌≡◌, ◌≢◌, ◌⊎◌, refl, arith}
use qword.Prelude.Int.{pos, negsuc, is_minus_one}
use qword.Dynarray.{Table}
use qword.Dynarray.Borrow.{Has}
use qword.Fd.{FileDescriptor}
use qword.Fd.Dispatch.{Request, serve}
use qword.Klib.Strings.Compare.{starts_with}
use qword.Vfs.{
  Text, Fs, VfsHandle, Mnt, covers, root_name, scan_mounts, local_path, vfs_get_mountpoint,
}
use qword.Vfs.Handles.{Handles, Behind, vfs_dup, open_path}
use qword.Vfs.Mountpoint.{Inside, vfs_get_mountpoint_lem}
use qword.Vfs.Opens.{open_path_lem}
use qword.Vfs.Dup.{vfs_dup_lem}

-- A file system that opens everything as its file 5, and counts the calls.
abbrev counting : Text → Fs ℕ
counting name = record {
  name = name;
  mount = λ source flags options w. (pos 0, w + 1);
  fs_open = λ path mode magic w. (pos 5, w + 1);
  close = λ fd w. (pos 0, w + 1);
  fstat = λ fd st w. (pos 0, w + 1);
  read = λ fd buf len w. (pos len, w + 1);
  write = λ fd buf len w. (pos len, w + 1);
  lseek = λ fd offset type w. (offset, w + 1);
  dup = λ fd w. (pos 6, w + 1);
  readdir = λ fd buf w. (pos 0, w + 1);
  sync = λ w. (pos 0, w + 1);
  tcgetattr = λ fd buf w. (pos 0, w + 1);
  tcsetattr = λ fd actions buf w. (pos 0, w + 1);
  tcflow = λ fd action w. (pos 0, w + 1);
  isatty = λ fd w. (pos 0, w + 1);
  unlink = λ fd w. (pos 0, w + 1);
  mkdir = λ path magic w. (pos 0, w + 1);
}

-- "/dev" and "/dev/tty"
abbrev dev : Text
dev = 47 ∷ 100 ∷ 101 ∷ 118 ∷ []

abbrev dev_tty : Text
dev_tty = 47 ∷ 100 ∷ 101 ∷ 118 ∷ 47 ∷ 116 ∷ 116 ∷ 121 ∷ []

abbrev on_root : Mnt ℕ
on_root = record { name = root_name; fs = counting root_name; magic = pos 0 }

abbrev on_dev : Mnt ℕ
on_dev = record { name = dev; fs = counting dev; magic = pos 1 }

abbrev mounts : List (Mnt ℕ)
mounts = on_root ∷ on_dev ∷ []

-- "/tty" in "/dev"
dev_tty-found : vfs_get_mountpoint dev_tty mounts ≡ some (on_dev, 47 ∷ 116 ∷ 116 ∷ 121 ∷ [])
unfolding vfs_get_mountpoint scan_mounts local_path starts_with
dev_tty-found = refl

vfs_get_mountpoint_lem_example :
    ((found : Mnt ℕ × Text) × (vfs_get_mountpoint dev_tty mounts ≡ some found)
      × Inside dev_tty mounts found)
    ⊎ ((vfs_get_mountpoint dev_tty mounts ≡ none)
        × ((i : ℕ) (k : Mnt ℕ)
            → get_elem? mounts i ≡ some k
            → covers k.name dev_tty ≡ true
            → k.name ≡ []))
vfs_get_mountpoint_lem_example = vfs_get_mountpoint_lem dev_tty mounts

abbrev no_files : Table (FileDescriptor (Behind ℕ))
no_files = record { slots = []; i = 0 }

abbrev no_handles : Handles ℕ
no_handles = record { slots = []; i = 0 }

open_path_lem_example :
    (fd : ℕ) × (fds' : Table (FileDescriptor (Behind ℕ))) × (handles' : Handles ℕ) × (open_path
        (λ e w. w)
        true
        true
        dev_tty
        (pos 0)
        mounts
        no_files
        no_handles
        0
      ≡ some (pos fd, fds', handles', 1))
    × ((j : ℕ) → j < 0 → fd ≢ j → get_elem? fds'.slots j ≡ get_elem? no_files.slots j)
    × ((buf len : ℕ) (v : ℕ)
        → (serve (Request.ask_read buf len) fds' fd (some (handles', v))
            ≡ some (pos len, fds', some (handles', v + 1)))
          × (serve (Request.ask_write buf len) fds' fd (some (handles', v))
              ≡ some (pos len, fds', some (handles', v + 1))))
open_path_lem_example =
    open_path_lem (λ e w. w) dev_tty (pos 0) mounts no_files no_handles 0 on_dev
      (47 ∷ 116 ∷ 116 ∷ 121 ∷ []) refl refl dev_tty-found refl

abbrev tty : VfsHandle ℕ
tty = record { fs = counting dev; intern_fd = pos 5 }

abbrev one_handle : Handles ℕ
one_handle = record {
  slots = some (record { refcount = 1; present = true; value = tty }) ∷ [];
  i = 1;
}

vfs_dup_lem_example :
    ((is_minus_one (pos 6) ≡ true)
      × (vfs_dup true true one_handle 0 3 ≡ some (negsuc 0, one_handle, 4)))
    ⊎ ((is_minus_one (pos 6) ≡ false)
        × ((new : ℕ) × (t' : Handles ℕ) × (vfs_dup true true one_handle 0 3 ≡ some (pos new, t', 4))
            × (new ≢ 0)
            × Has t' new 0 tty
            × Has t' 0 0 tty))
vfs_dup_lem_example = vfs_dup_lem one_handle 0 0 tty 3 (omega arith) refl refl
