-- ===== src/Syscall/Numbers/Tests.antt =====
-- The descriptors of root/src/kernel/fd/fd.c behind the calls of root/src/kernel/proc/syscalls.c.
use qword.Prelude.{ℕ, Option, some, List, [], ◌∷◌}
use qword.Prelude.Int.{ℤ, pos, negsuc}
use qword.Vfs.{Text}
use qword.Fd.{FdHandler, FileDescriptor, default_fd_handler}
use qword.Syscall.Numbers.{Kernel, Files}
use qword.Syscall.Numbers.Owned.{Owned}
use qword.Syscall.Numbers.Descriptors.{Descriptors, fd_kernel}
use qword.Vfs.Paths.Buffers.{absolute}
use qword.Vfs.Paths.Resolve.{joined}
use qword.Klib.{Mem}
use qword.Syscall.Numbers.Sequences.{
  Request, close_file, dup2_file, make_pipe, control, seek, open_file,
}

-- The rest of the state is the last error number; a file can be copied and closed.
abbrev set_errno : ℕ → ℕ → ℕ
set_errno e w = e

abbrev copying : FdHandler ℕ
copying = record (default_fd_handler set_errno) {
  close = λ fd w. (pos 0, w);
  dup = λ fd w. (fd, w);
}

abbrev a_file : FileDescriptor ℕ
a_file = record { intern_fd = pos 4; fdflags = pos 0; fd_handler = copying }

-- Every path is a file.
abbrev vfs_file : Text → ℤ → ℕ → Option (FileDescriptor ℕ) × ℕ
vfs_file path mode w = (some a_file, w)

abbrev pipe_ends : ℕ → FileDescriptor ℕ × FileDescriptor ℕ × ℕ
pipe_ends w = (a_file, a_file, w)

abbrev kernel : Kernel (Descriptors ℕ)
kernel = fd_kernel set_errno vfs_file pipe_ends

abbrev no_files : Files
no_files fd = negsuc 0

abbrev none_open : Descriptors ℕ
none_open = record { table = record { slots = []; i = 0 }; rest = 0 }

abbrev clean : Mem
clean j = 0

-- "a"
abbrev a : Text
a = 97 ∷ []

-- A pipe, a copy of its second end over the first, the second end closed, and "a" opened from "/".
abbrev some_calls : List Request
some_calls =
    make_pipe 4096 (pos 0)
    ∷ dup2_file 1 0
    ∷ close_file 1
    ∷ control 0 5 0
    ∷ seek 0 (pos 7) (pos 0)
    ∷ open_file clean (absolute []) 4096 (joined a []) (pos 2)
    ∷ []
