-- ===== src/Syscall/Numbers.antt =====
-- The calls of root/src/kernel/proc/syscalls.c that give out the file numbers of a process.
--
-- The kernel's own calls are a record, with the state that they work on. Numbers are natural: the
-- code does not test for the range of one, nor for a negative one, where the definition does not.
pub mod Descriptors
pub mod Owned
pub mod Calls
pub mod PipeEnds
pub mod Sequences
mod Tests
use qword.Prelude.{
  ℕ, zero, suc, ◌+◌, ◌-◌, ◌==◌, leb, if◌then◌else◌, Bool, true, false, Option, none, some, ◌>>=◌,
  ◌||◌, length, List, [], ◌∷◌,
}
use qword.Prelude.Int.{ℤ, pos, negsuc, is_minus_one}
use qword.Klib.{Mem}
use qword.Vfs.{Text}
use qword.Vfs.Paths.{vfs_get_absolute_path}
use qword.Syscall.{max_file_handles, ebadf, privilege_check}

abbrev pub enosys : ℕ
enosys = 1051

abbrev pub efault : ℕ
efault = 1020

abbrev pub emfile : ℕ
emfile = 1031

abbrev pub einval : ℕ
einval = 1026

-- The calls of the kernel, on its descriptors.
pub record Kernel (S : Type 0) : Type 0 where
  pub open_path : Text → ℤ → S → Option (ℤ × S)
  pub close : ℤ → S → Option (ℤ × S)
  pub dup : ℤ → S → Option (ℤ × S)
  pub pipe : S → Option (ℤ × ℤ × S)
  pub getfdflags : ℤ → S → Option (ℤ × S)
  pub setfdflags : ℤ → ℤ → S → Option (ℤ × S)
  pub getflflags : ℤ → S → Option (ℤ × S)
  pub setflflags : ℤ → ℤ → S → Option (ℤ × S)
  pub lseek : ℤ → ℤ → ℤ → S → Option (ℤ × S)
  pub set_errno : ℕ → S → S

abbrev pub Files : Type 0
Files = ℕ → ℤ

abbrev pub put_handle : Files → ℕ → ℤ → Files
put_handle files fd v i = if i == fd then v else files i

-- The lowest number from `fd` on that is free, in some rounds.
unfoldable pub lowest_free : Files → ℕ → ℕ → Option ℕ
lowest_free files zero fd = none
lowest_free files (suc rounds) fd =
    let rest = lowest_free files rounds (fd + 1) in
    if is_minus_one (files fd) then some fd else rest

abbrev pub same_ℤ : ℤ → ℤ → Bool
same_ℤ (pos a) (pos b) = a == b
same_ℤ (pos a) (negsuc b) = false
same_ℤ (negsuc a) (pos b) = false
same_ℤ (negsuc a) (negsuc b) = a == b

abbrev pub is_negative : ℤ → Bool
is_negative (pos a) = false
is_negative (negsuc a) = true

-- The string at an index, of fewer bytes than the rounds.
unfoldable pub text_at : ℕ → Mem → ℕ → Option Text
text_at zero buf i = none
text_at (suc rounds) buf i =
    let rest : Option Text = (do s ← text_at rounds buf (i + 1); some (buf i ∷ s)) in
    if buf i == 0 then some [] else rest

-- The path in the buffer of 2048 bytes that the calls have.
unfoldable pub abs_path : Mem → Text → Text → Option Text
abs_path buf path cwd = do filled ← vfs_get_absolute_path buf path cwd; text_at 2048 filled 0

module _ {S : Type 0} (k : Kernel S) where
  abbrev pub Result : Type 0
  Result = Option (ℤ × Files × S)

  abbrev pub fail : ℕ → Files → S → Result
  fail e files s = some (negsuc 0, files, k.set_errno e s)

  -- `rdi` is the address of the path, and `buf` what the buffer on the stack holds before.
  unfoldable pub syscall_open : Mem → Text → ℕ → Text → ℤ → Files → S → Result
  syscall_open buf cwd rdi path mode files s =
      let at_number = λ (fd : ℕ). (do
        abs ← abs_path buf path cwd
        o ← k.open_path abs mode s
        some (
            if is_negative o.0
            then (o.0, files, o.1)
            else (pos fd, put_handle files fd o.0, o.1))) in
      if privilege_check rdi (length path + 1)
      then fail efault files s
      else elim (lowest_free files max_file_handles 0) [
        | none ↦ some (negsuc 0, files, s)
        | some fd ↦ at_number fd
      ]

  unfoldable pub fcntl_dupfd : ℕ → ℕ → Files → S → Result
  fcntl_dupfd fd lowest_fd files s =
      let at_number = λ (new_fd : ℕ). (do
        d ← k.dup (files fd) s
        some (pos new_fd, put_handle files new_fd d.0, d.1)) in
      if is_minus_one (files fd)
      then fail ebadf files s
      else elim (lowest_free files (max_file_handles - lowest_fd) lowest_fd) [
        | none ↦ fail einval files s
        | some new_fd ↦ at_number new_fd
      ]

  unfoldable pub syscall_dup2 : ℕ → ℕ → Files → S → Result
  syscall_dup2 old_fd new_fd files s =
      let closed : Option (ℤ × S) =
        if is_minus_one (files new_fd) then some (pos 0, s) else k.close (files new_fd) s in
      let moved : Result = (do
        c ← closed
        d ← k.dup (files old_fd) c.1
        some (pos new_fd, put_handle files new_fd d.0, d.1)) in
      if is_minus_one (files old_fd)
      then fail ebadf files s
      else if same_ℤ (files old_fd) (files new_fd)
      then some (pos new_fd, files, s)
      else moved

  abbrev pub PipeResult : Type 0
  PipeResult = Option ((ℤ × Files × S) × Option (ℕ × ℕ))

  -- From the search for the first number on, with both ends of the pipe. The second part is what is
  -- written to `pipefd`.
  unfoldable pub pipe_numbers : ℤ → ℤ → ℤ → Files → S → PipeResult
  pipe_numbers a b flflags files s =
      let give_up : Files → PipeResult = λ files'. (do
        c ← k.close a s
        d ← k.close b c.1
        some ((negsuc 0, files', k.set_errno emfile d.1), none)) in
      let give : ℕ → ℕ → Files → PipeResult = λ read write files'. (do
        f ← k.setflflags a flflags s
        g ← k.setflflags b flflags f.1
        some ((pos 0, files', g.1), some (read, write))) in
      elim (lowest_free files max_file_handles 0) [
        | none ↦ give_up files
        | some read ↦ elim (lowest_free (put_handle files read a) max_file_handles 0) [
          | none ↦ give_up (put_handle files read (negsuc 0))
          | some write ↦ give read write (put_handle (put_handle files read a) write b)
        ]
      ]

  unfoldable pub syscall_pipe : ℕ → ℤ → Files → S → PipeResult
  syscall_pipe pipefd flflags files s =
      let made : PipeResult = (do p ← k.pipe s; pipe_numbers p.0 p.1 flflags files p.2) in
      if privilege_check pipefd 8 then some ((negsuc 0, files, s), none) else made

  -- A call on the descriptor behind a number.
  abbrev pub on_handle : (ℤ → S → Option (ℤ × S)) → ℕ → Files → S → Result
  on_handle call fd files s =
      let done : Result = (do r ← call (files fd) s; some (r.0, files, r.1)) in
      if is_minus_one (files fd) then fail ebadf files s else done

  unfoldable pub syscall_fcntl : ℕ → ℕ → ℕ → Files → S → Result
  syscall_fcntl fd cmd arg files s =
      if cmd == 1 || cmd == 2
      then fcntl_dupfd fd arg files s
      else if cmd == 3
      then on_handle k.getfdflags fd files s
      else if cmd == 4
      then on_handle (λ d. k.setfdflags d (pos arg)) fd files s
      else if cmd == 5
      then on_handle k.getflflags fd files s
      else if cmd == 6
      then on_handle (λ d. k.setflflags d (pos arg)) fd files s
      else fail enosys files s

  unfoldable pub syscall_lseek : ℕ → ℤ → ℤ → Files → S → Result
  syscall_lseek fd offset type files s =
      if leb max_file_handles fd
      then some (negsuc 0, files, s)
      else on_handle (λ d. k.lseek d offset type) fd files s
