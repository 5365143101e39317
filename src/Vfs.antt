-- ===== src/Vfs.antt =====
-- The virtual file system of root/src/kernel/fd/vfs: file systems, mount points, and the handles of
-- open files.
--
-- As in Fd, what the file systems work on is a type of states, an address in it stands for a pointer,
-- and a result of `none` follows a null pointer. Paths are their characters.
pub mod Handles
pub mod Opens
pub mod Dup
mod Tests
pub mod Mountpoint
pub mod Paths
use qword.Prelude.{
  ℕ, zero, suc, ◌+◌, ◌==◌, ltb, ◌&&◌, ◌||◌, Bool, true, false, if◌then◌else◌, Option, none, some,
  ◌>>=◌, List, [], ◌∷◌,
}
use qword.Prelude.{length, get_or, drop}
use qword.Prelude.Int.{ℤ, pos, negsuc, is_zero, is_minus_one}
use qword.Dynarray.{
  Table, dynarray_add, dynarray_getelem, dynarray_unref, dynarray_remove, load, borrow,
}
use qword.Fd.{FdHandler, FileDescriptor, fd_create, default_fd_handler}
use qword.Ht.{Entry, ht_get, ht_add, same_name}
use qword.Klib.Strings.Compare.{starts_with}

abbrev pub Text : Type 0
Text = List ℕ

-- `fs_t`
pub record Fs (W : Type 0) : Type 0 where
  pub name : Text
  pub mount : Text → ℕ → ℕ → W → ℤ × W
  pub fs_open : Text → ℤ → ℤ → W → ℤ × W
  pub close : ℤ → W → ℤ × W
  pub fstat : ℤ → ℕ → W → ℤ × W
  pub read : ℤ → ℕ → ℕ → W → ℤ × W
  pub write : ℤ → ℕ → ℕ → W → ℤ × W
  pub lseek : ℤ → ℤ → ℤ → W → ℤ × W
  pub dup : ℤ → W → ℤ × W
  pub readdir : ℤ → ℕ → W → ℤ × W
  pub sync : W → ℤ × W
  pub tcgetattr : ℤ → ℕ → W → ℤ × W
  pub tcsetattr : ℤ → ℤ → ℕ → W → ℤ × W
  pub tcflow : ℤ → ℤ → W → ℤ × W
  pub isatty : ℤ → W → ℤ × W
  pub unlink : ℤ → W → ℤ × W
  pub mkdir : Text → ℤ → W → ℤ × W

-- `vfs_handle_t`
pub record VfsHandle (W : Type 0) : Type 0 where
  pub fs : Fs W
  pub intern_fd : ℤ

-- `mnt_t`
pub record Mnt (W : Type 0) : Type 0 where
  pub name : Text
  pub fs : Fs W
  pub magic : ℤ

-- `"/"`
abbrev pub root_name : Text
root_name = 47 ∷ []

-- The test on a mount point: its name begins the path, up to a slash or the end, or is "/".
abbrev pub covers : Text → Text → Bool
covers name path =
    starts_with path name
    && (get_or path (length name) 0 == 47
        || get_or path (length name) 0 == 0
        || same_name name root_name)

abbrev pub or_root : Text → Text
or_root [] = root_name
or_root (c ∷ cs) = c ∷ cs

-- `*local_path`: the root of the mount point where nothing is left.
unfoldable pub local_path : Text → ℕ → Text
local_path path guess_size = or_root (if ltb 1 guess_size then drop guess_size path else path)

module _ {W : Type 0} where
  -- The loop of `vfs_get_mountpoint` over the mount points: the best one so far with its length.
  unfoldable pub scan_mounts : Text → List (Mnt W) → Option (Mnt W) → ℕ → Option (Mnt W) × ℕ
  scan_mounts path [] guess guess_size = (guess, guess_size)
  scan_mounts path (m ∷ mnts) guess guess_size =
      let better = covers m.name path && ltb guess_size (length m.name) in
      scan_mounts path mnts (if better then some m else guess)
        (if better then length m.name else guess_size)

  -- On the mount points that `ht_dump` lists: the mount point and the path inside of it.
  unfoldable pub vfs_get_mountpoint : Text → List (Mnt W) → Option (Mnt W × Text)
  vfs_get_mountpoint path mnts =
      let (guess, guess_size) = scan_mounts path mnts none 0 in
      elim guess [ none ↦ none | some m ↦ some (m, local_path path guess_size) ]
