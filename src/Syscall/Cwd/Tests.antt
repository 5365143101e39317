-- ===== src/Syscall/Cwd/Tests.antt =====
-- A change of directory, for root/src/kernel/proc/syscalls.c.
use qword.Prelude.{ℕ, Option, none, some, [], ◌∷◌, ◌≡◌, refl, arith}
use qword.Prelude.Int.{ℤ, pos, negsuc}
use qword.Klib.{Mem}
use qword.Vfs.{Text}
use qword.Vfs.Paths.Buffers.{absolute}
use qword.Vfs.Paths.Resolve.{resolve, joined}
use qword.Vfs.Paths.Absolute.{origin}
use qword.Syscall.Cwd.{syscall_chdir, syscall_getcwd, erange}
use qword.Syscall.Cwd.Directory.{Directory, Answers, syscall_chdir-Directory}

abbrev a : Text
a = 97 ∷ []

abbrev two_dots : Text
two_dots = 46 ∷ 46 ∷ []

abbrev clean : Mem
clean j = 0

-- The state is the number of the last error; every path is a directory.
abbrev set_errno : ℕ → ℕ → ℕ
set_errno e s = e

abbrev open_path : Text → ℤ → ℕ → Option (ℤ × ℕ)
open_path path mode s = some (pos 3, s)

abbrev fstat : ℤ → ℕ → Option (ℕ × ℕ)
fstat fd s = some (0x400, s)

abbrev close : ℤ → ℕ → Option (ℤ × ℕ)
close fd s = some (pos 0, s)

-- "/a" and its zero do not fit two bytes.
getcwd_short : syscall_getcwd set_errno (47 ∷ a) 4096 2 0 ≡ (negsuc 0, none, erange)
unfolding syscall_getcwd
getcwd_short = refl

-- "/" is open, with descriptor 3, and is a directory.
root_Answers : Answers set_errno open_path fstat close (absolute []) 0 (pos 3) 0x400 0 0
root_Answers = record {
  after_fstat = 0;
  closed = pos 0;
  opens = refl;
  stats = λ given. refl;
  closes = λ given. refl;
}

syscall_chdir-Directory_example :
    Directory (resolve (origin (a ∷ []) two_dots []) (two_dots ∷ []))
    × (syscall_chdir set_errno open_path fstat close clean 4096
          (joined two_dots [])
          (absolute (a ∷ []))
          0
        ≡ some (pos 0, 47 ∷ [], 0))
syscall_chdir-Directory_example =
    syscall_chdir-Directory set_errno open_path fstat close clean 4096 (a ∷ []) two_dots [] 0
      (pos 3) 0x400 0 0 (omega arith) (record { names = omega arith; clean = omega arith })
      (omega arith) tt (omega arith) root_Answers
