-- ===== src/Pmm.antt =====
-- The physical page allocator, root/src/kernel/mm/pmm.c.
--
-- A bitmap is a function from the 64-bit offset that `bt`, `bts` and `btr` are given. The offsets
-- below `entries` are the bits of the array; any other offset reads or writes the memory that
-- happens to lie there, since the instructions check no bound. Each function holds `pmm_lock` from
-- its start to its end, so a call is one step of the state.
pub mod Scan
pub mod FirstFit
pub mod Alloc
pub mod Rewind
pub mod Init
mod Tests
use qword.Prelude.{ℕ, zero, suc, ◌+◌, ◌-◌, ◌*◌, ◌/◌, ◌%◌, ◌^◌, ◌==◌, if◌then◌else◌}
use qword.Prelude.{Bool, true, false}

abbrev pub page_size : ℕ
page_size = 4096

abbrev pub memory_base : ℕ
memory_base = 0x1000000

-- BITMAP_BASE, the first page that the bitmap speaks of.
abbrev pub bitmap_base : ℕ
bitmap_base = memory_base / page_size

abbrev pub word : ℕ
word = 2 ^ 64

pub record Pmm : Type 0 where
  pub bits : ℕ → Bool
  pub entries : ℕ
  pub cur_ptr : ℕ

-- `i -= BITMAP_BASE` on a `size_t`.
abbrev pub offset : ℕ → ℕ
offset i = (i + word - bitmap_base) % word

unfoldable pub read_bitmap : Pmm → ℕ → Bool
read_bitmap s i = s.bits (offset i)

-- `n` rounds of `set_bit` or `reset_bit`, from offset `j` on.
unfoldable pub write_bits : (ℕ → Bool) → ℕ → ℕ → Bool → ℕ → Bool
write_bits bits j zero v = bits
write_bits bits j (suc n) v = write_bits (λ o. if o == j then v else bits o) (j + 1) n v

-- `for (j = i; j < i + count; j++)` from offset `i`, where the bound is a `size_t` sum.
abbrev pub run_length : ℕ → ℕ → ℕ
run_length i count = (i + count) % word - i

unfoldable pub set_bitmap : Pmm → ℕ → ℕ → Pmm
set_bitmap s i count = record s {
  bits = write_bits s.bits (offset i) (run_length (offset i) count) true;
}

unfoldable pub unset_bitmap : Pmm → ℕ → ℕ → Pmm
unset_bitmap s i count = record s {
  bits = write_bits s.bits (offset i) (run_length (offset i) count) false;
}

-- The test at the head of the loop of `pmm_alloc`: at the end the cursor is set to BITMAP_BASE and
-- at once to the page count.
abbrev pub rewind : Pmm → ℕ → ℕ → ℕ
rewind s pg_count cur = if cur == bitmap_base + s.entries then pg_count else cur

-- `--pg_cnt` on a `size_t`.
abbrev pub pred_size : ℕ → ℕ
pred_size n = (n + word - 1) % word

-- The loop of `pmm_alloc` with `rounds` to go: whether it goes to `found`, and the cursor then.
unfoldable pub scan : Pmm → ℕ → ℕ → ℕ → ℕ → Bool × ℕ
scan s pg_count zero pg_cnt cur = (false, cur)
scan s pg_count (suc rounds) pg_cnt cur =
    let c = rewind s pg_count cur in
    let used = scan s pg_count rounds pg_count (c + 1) in
    let free = scan s pg_count rounds (pred_size pg_cnt) (c + 1) in
    if read_bitmap s c then used else (if pred_size pg_cnt == 0 then (true, c + 1) else free)

-- The physical address, 0 for NULL.
unfoldable pub pmm_alloc : Pmm → ℕ → ℕ × Pmm
pmm_alloc s pg_count =
    let (found, cur) = scan s pg_count s.entries pg_count s.cur_ptr in
    let moved : Pmm = record s { cur_ptr = cur } in
    let start = (cur + word - pg_count) % word in
    if found then (start * page_size % word, set_bitmap moved start pg_count) else (0, moved)

unfoldable pub pmm_free : Pmm → ℕ → ℕ → Pmm
pmm_free s ptr pg_count = unset_bitmap s (ptr / page_size) pg_count
