-- ===== src/Klib.antt =====
-- The kernel's library of routines, root/src/kernel/lib/klib.c, over a memory of bytes.
--
-- A pointer is its address. A routine that writes memory takes it and returns the new one; each loop
-- reads the memory that its earlier rounds have left, so overlapping operands behave as in C.
pub mod Memory
pub mod Strings
pub mod Print
mod Tests
use qword.Prelude.{ℕ, ◌==◌, if◌then◌else◌}

-- A byte at each address.
abbrev pub Mem : Type 0
Mem = ℕ → ℕ

abbrev pub store : Mem → ℕ → ℕ → Mem
store mem a v x = if x == a then v else mem x
