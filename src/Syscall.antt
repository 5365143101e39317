-- ===== src/Syscall.antt =====
-- The calls of root/src/kernel/proc/syscalls.c that read, write and close a file of the process.
--
-- The table of the process takes its numbers to descriptors of the kernel, -1 where there is none,
-- and is a function of the register, since the code reads it out of range too. A type of states, which
-- a parameter sets `errno` in, stands for what the calls of the kernel work on. The result is `none`
-- where a call of the kernel follows a null pointer, or without fuel.
pub mod Io
pub mod Numbers
pub mod Cwd
mod Close
mod Tests
use qword.Prelude.{ℕ, zero, suc, ◌+◌, ◌-◌, ◌/◌, ◌%◌, ◌^◌, ◌==◌, leb, ltb, if◌then◌else◌}
use qword.Prelude.{Bool, true, false, ◌||◌, Option, none, some, ◌>>=◌}
use qword.Prelude.Int.{ℤ, pos, negsuc, is_minus_one}

abbrev pub io_cap : ℕ
io_cap = 16777216

abbrev pub max_file_handles : ℕ
max_file_handles = 256

abbrev pub ebadf : ℕ
ebadf = 1008

-- An `int` where a `size_t` is wanted.
abbrev pub size_of_int : ℤ → ℕ
size_of_int (pos k) = k
size_of_int (negsuc k) = 2 ^ 64 - 1 - k

-- A `size_t` where an `int` is wanted.
abbrev pub int_of_size : ℕ → ℤ
int_of_size k =
    let low = k % 2 ^ 32 in if ltb low (2 ^ 31) then pos low else negsuc (2 ^ 32 - 1 - low)

-- Bit 47 of an address, which the half of the kernel has.
abbrev pub kernel_half : ℕ → Bool
kernel_half address = address / 2 ^ 47 % 2 == 1

abbrev pub privilege_check : ℕ → ℕ → Bool
privilege_check base len = kernel_half base || kernel_half ((base + len) % 2 ^ 64)

-- The length that is asked for at `ptr`.
unfoldable pub io_step : ℕ → ℕ → ℕ
io_step ptr len = if ltb len ((ptr + io_cap) % 2 ^ 64) then len % io_cap else io_cap

module _ {S : Type 0} where
  -- The loop of `syscall_read` and of `syscall_write` at `ptr`.
  unfoldable pub io_loop : (ℕ → ℕ → S → Option (ℤ × S)) → ℕ → ℕ → ℕ → S → Option (ℕ × S)
  io_loop call zero len ptr s = none
  io_loop call (suc fuel) len ptr s =
      let round : Option (ℕ × S) = (do
        done ← call ptr (io_step ptr len) s
        let next = (ptr + size_of_int done.0) % 2 ^ 64
        let rest = io_loop call fuel len next done.1
        if ltb (size_of_int done.0) (io_step ptr len) then some (next, done.1) else rest) in
      if ltb ptr len then round else some (ptr, s)

  module _ (set_errno : ℕ → S → S) where
    -- `syscall_read` with `read` of the kernel, and `syscall_write` with its `write`.
    unfoldable pub syscall_io :
        (ℤ → ℕ → ℕ → S → Option (ℤ × S)) → ℕ → (ℕ → ℤ) → ℕ → ℕ → ℕ → S → Option (ℤ × S)
    syscall_io call fuel file_handles fd buf len s =
        let moved : Option (ℤ × S) = (do
          done ← io_loop (λ ptr step. call (file_handles fd) (buf + ptr) step) fuel len 0 s
          some (int_of_size done.0, done.1)) in
        if privilege_check buf len
        then some (negsuc 0, s)
        else if is_minus_one (file_handles fd)
        then some (negsuc 0, set_errno ebadf s)
        else moved

    unfoldable pub syscall_close :
        (ℤ → S → Option (ℤ × S)) → (ℕ → ℤ) → ℕ → S → Option (ℤ × (ℕ → ℤ) × S)
    syscall_close close file_handles fd s =
        let closed : Option (ℤ × (ℕ → ℤ) × S) = (do
          done ← close (file_handles fd) s
          let freed : ℕ → ℤ = λ other. if other == fd then negsuc 0 else file_handles other
          some (
              if is_minus_one done.0
              then (negsuc 0, file_handles, done.1)
              else (pos 0, freed, done.1))) in
        if leb max_file_handles fd
        then some (negsuc 0, file_handles, s)
        else if is_minus_one (file_handles fd)
        then some (negsuc 0, file_handles, set_errno ebadf s)
        else closed
