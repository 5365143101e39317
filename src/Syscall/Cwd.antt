-- ===== src/Syscall/Cwd.antt =====
-- The working directory of a process in root/src/kernel/proc/syscalls.c: `syscall_chdir` and
-- `syscall_getcwd`.
--
-- `cwd` is the string of the process; the calls of the kernel that chdir makes are arguments, and
-- `fstat` gives the mode of the file.
pub mod Directory
mod Tests
use qword.Prelude.{
  ℕ, ◌+◌, ◌/◌, ◌%◌, ◌==◌, leb, ltb, if◌then◌else◌, Option, none, some, ◌>>=◌, length,
}
use qword.Prelude.Int.{ℤ, pos, negsuc, is_minus_one}
use qword.Klib.{Mem}
use qword.Vfs.{Text}
use qword.Syscall.{privilege_check}
use qword.Syscall.Numbers.{efault, abs_path}

abbrev pub enotdir : ℕ
enotdir = 1053

abbrev pub erange : ℕ
erange = 3

abbrev pub o_rdonly : ℤ
o_rdonly = pos 2

module _ {S : Type 0} (set_errno : ℕ → S → S) where
  -- The result, what is written to the buffer of the caller, and the state.
  unfoldable pub syscall_getcwd : Text → ℕ → ℕ → S → ℤ × Option Text × S
  syscall_getcwd cwd buf limit s =
      if privilege_check buf limit
      then (negsuc 0, none, set_errno efault s)
      else if ltb limit (length cwd + 1)
      then (negsuc 0, none, set_errno erange s)
      else (pos 0, some cwd, s)

  module _ (open_path : Text → ℤ → S → Option (ℤ × S)) (fstat : ℤ → S → Option (ℕ × S))
      (close : ℤ → S → Option (ℤ × S)) where
    -- With the new `cwd`. The bit of `S_IFDIR` is tested.
    unfoldable pub syscall_chdir : Mem → ℕ → Text → Text → S → Option (ℤ × Text × S)
    syscall_chdir buf rdi new_path cwd s =
        let checked = λ (abs : Text) (fd : ℤ) (t : S). (do
          st ← fstat fd t
          c ← close fd st.1
          some (
              if st.0 / 0x400 % 2 == 0
              then (negsuc 0, cwd, set_errno enotdir c.1)
              else (pos 0, abs, c.1))) in
        let moved : Option (ℤ × Text × S) = (do
          abs ← abs_path buf new_path cwd
          o ← open_path abs o_rdonly s
          if is_minus_one o.0 then some (negsuc 0, cwd, o.1) else checked abs o.0 o.1) in
        if privilege_check rdi (length new_path + 1) then some (negsuc 0, cwd, s) else moved
