-- ===== src/Syscall/Numbers/Sequences.antt =====
-- Any sequence of the calls of root/src/kernel/proc/syscalls.c that give out, copy and free the numbers
-- of a process.
use qword.Prelude.{ℕ, ◌<◌, Bool, Option, some, ◌≡◌, refl, ◌>>=◌, List, [], ◌∷◌}
use qword.Prelude.Int.{ℤ}
use qword.Klib.{Mem}
use qword.Vfs.{Text}
use qword.Syscall.{max_file_handles, syscall_close}
use qword.Syscall.Numbers.{
  Kernel, Files, Result, abs_path, syscall_open, syscall_dup2, syscall_pipe, syscall_fcntl,
  syscall_lseek,
}
use qword.Syscall.Numbers.Owned.{Laws, Owned}
use qword.Syscall.Numbers.Calls.{
  Keeps, syscall_open-Keeps, syscall_close-Keeps, syscall_dup2-Keeps, syscall_fcntl-Keeps,
  syscall_lseek-Keeps,
}
use qword.Syscall.Numbers.PipeEnds.{syscall_pipe-Keeps}

-- A call with its arguments; for `open`, with what the buffer on the stack and `cwd` hold.
pub data Request : Type 0 where
  open_file : Mem → Text → ℕ → Text → ℤ → Request
  close_file : ℕ → Request
  dup2_file : ℕ → ℕ → Request
  make_pipe : ℕ → ℤ → Request
  control : ℕ → ℕ → ℕ → Request
  seek : ℕ → ℤ → ℤ → Request

-- The arguments that the calls take for granted: a path that fits the buffer, numbers in range.
abbrev pub Expected : Request → Type 0
Expected (open_file buf cwd rdi path mode) = (abs : Text) × (abs_path buf path cwd ≡ some abs)
Expected (close_file fd) = Unit {0}
Expected (dup2_file old_fd new_fd) = (old_fd < max_file_handles) × (new_fd < max_file_handles)
Expected (make_pipe pipefd flflags) = Unit {0}
Expected (control fd cmd arg) = fd < max_file_handles
Expected (seek fd offset type) = Unit {0}

abbrev pub AllExpected : List Request → Type 0
AllExpected [] = Unit {0}
AllExpected (r ∷ rs) = Expected r × AllExpected rs

module _ {S : Type 0} (k : Kernel S) where
  abbrev pub serve : Request → Files → S → Result k
  serve (open_file buf cwd rdi path mode) files s = syscall_open k buf cwd rdi path mode files s
  serve (close_file fd) files s = syscall_close k.set_errno k.close files fd s
  serve (dup2_file old_fd new_fd) files s = syscall_dup2 k old_fd new_fd files s
  serve (make_pipe pipefd flflags) files s = do
    done ← syscall_pipe k pipefd flflags files s
    some done.0
  serve (control fd cmd arg) files s = syscall_fcntl k fd cmd arg files s
  serve (seek fd offset type) files s = syscall_lseek k fd offset type files s

  unfoldable pub serve_all : List Request → Files → S → Option (Files × S)
  serve_all [] files s = some (files, s)
  serve_all (r ∷ rs) files s = do done ← serve r files s; serve_all rs done.1 done.2

module _ {S : Type 0} (live : S → ℤ → Bool) (Sound : S → Type 0) (k : Kernel S)
    (laws : Laws live Sound k) where
  serve-Keeps :
      (r : Request) (files : Files) (s : S) (o : Owned live Sound files s)
      → Expected r
      → Keeps live Sound k laws files s o (serve k r files s)
  serve-Keeps (open_file buf cwd rdi path mode) files s o (abs, e) =
      syscall_open-Keeps live Sound k laws files s o buf cwd rdi path mode abs e
  serve-Keeps (close_file fd) files s o e = syscall_close-Keeps live Sound k laws files s o fd
  serve-Keeps (dup2_file old_fd new_fd) files s o e =
      syscall_dup2-Keeps live Sound k laws files s o old_fd new_fd e.0 e.1
  serve-Keeps (make_pipe pipefd flflags) files s o e =
      let (ret, files', s', out, done, kept) =
        syscall_pipe-Keeps live Sound k laws files pipefd flflags s o in
      rw (done) (ret, files', s', refl, kept)
  serve-Keeps (control fd cmd arg) files s o e =
      syscall_fcntl-Keeps live Sound k laws files s o fd cmd arg e
  serve-Keeps (seek fd offset type) files s o e =
      syscall_lseek-Keeps live Sound k laws files s o fd offset type

  -- For a kernel that opens descriptors which were not open, closes none but the one that it is given,
  -- and that with success, and whose pipe succeeds: any sequence of open, close, dup2, pipe, fcntl and
  -- lseek of a process, with paths that fit the buffer and with the numbers of dup2 and fcntl in range,
  -- is served to its end, whatever open, dup and the tests of the calls refuse on the way; and if each
  -- number of the process stood for an open descriptor of the kernel and no two for the same, so it
  -- is afterwards.
  pub serve_all-Owned :
      (rs : List Request) (files : Files) (s : S)
      → AllExpected rs
      → Owned live Sound files s
      → (files' : Files) × (s' : S) × (serve_all k rs files s ≡ some (files', s'))
        × Owned live Sound files' s'
  unfolding serve_all
  serve_all-Owned [] files s e o = (files, s, refl, o)
  serve_all-Owned (r ∷ rs) files s e o =
      let (ret, files', s', done, kept) = serve-Keeps r files s o e.0 in
      let (files'', s'', rest, end) = serve_all-Owned rs files' s' e.1 kept in
      (files'', s'', rw (done) rest, end)
