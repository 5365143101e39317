-- ===== src/Syscall/Tests.antt =====
-- A file with 18000000 bytes behind the calls of root/src/kernel/proc/syscalls.c.
use qword.Prelude.{
  ℕ, ◌+◌, ◌-◌, ◌^◌, min, if◌then◌else◌, Option, some, List, [], ◌∷◌, ◌≡◌, refl, arith,
}
use qword.Prelude.Int.{ℤ, pos, negsuc, is_minus_one}
use qword.Syscall.{io_step, io_loop, syscall_io, syscall_close, privilege_check, int_of_size, ebadf}
use qword.Syscall.Io.{Moves, syscall_io_lem, io_loop-fails}

-- The state is the number of bytes that are left.
abbrev transfer : ℤ → ℕ → ℕ → ℕ → Option (ℤ × ℕ)
transfer handle address step left = some (pos (min step left), left - min step left)

-- The places of the calls, the last one first.
abbrev tried : ℕ → ℕ → List ℕ → List ℕ
tried address step places = address ∷ places

abbrev failing : ℕ → ℕ → List ℕ → Option (ℤ × List ℕ)
failing address step places = some (negsuc 0, tried address step places)

abbrev set_errno : ℕ → ℕ → ℕ
set_errno e left = left

abbrev one_file : ℕ → ℤ
one_file fd = pos 3

-- A second step asks for what is over.
io_step_20000000 : io_step 16777216 20000000 ≡ 3222784
unfolding io_step
io_step_20000000 = refl

-- A number that is out of range is not closed.
syscall_close_256 :
    syscall_close set_errno (λ handle left. some (pos 0, left)) one_file 256 7
    ≡ some (negsuc 0, one_file, 7)
unfolding syscall_close
syscall_close_256 = refl

transfer-Moves :
    Moves
      (λ ptr step. transfer (one_file 0) (4096 + ptr) step)
      (λ left. left)
      (λ ptr k left. left - k)
transfer-Moves = record {
  moves = λ ptr step left h. refl;
  less = λ ptr k left. refl;
  together = λ ptr j k left. omega arith;
}

syscall_io_lem_example : syscall_io set_errno transfer 3 one_file 0 4096 20000000 18000000 ≡ (
    if privilege_check 4096 20000000
    then some (negsuc 0, 18000000)
    else if is_minus_one (one_file 0)
    then some (negsuc 0, set_errno ebadf 18000000)
    else some (int_of_size (min 20000000 18000000), 18000000 - min 20000000 18000000))
syscall_io_lem_example =
    syscall_io_lem set_errno transfer one_file 0 4096 20000000 3 18000000 (λ left. left)
      (λ ptr k left. left - k) transfer-Moves (omega arith) (omega arith) (omega arith)

io_loop-fails_example : io_loop failing 5 9 3 [] ≡ some (2 ^ 64 - 1, 0 ∷ 1 ∷ 2 ∷ 3 ∷ [])
io_loop-fails_example =
    io_loop-fails failing tried 9 3 [] (λ at step s. refl) (omega arith) (omega arith)
