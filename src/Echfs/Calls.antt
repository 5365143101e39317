-- ===== src/Echfs/Calls.antt =====
-- `echfs_read` and `echfs_write` of root/src/kernel/fs/echfs/echfs.c on an open file.
use qword.Prelude.{ℕ, ◌+◌, ◌-◌, ◌/◌, ◌%◌, ◌^◌, ◌==◌, leb, ltb, if◌then◌else◌, Bool, true, false}
use qword.Prelude.{Option, none, some, ◌>>=◌}
use qword.Prelude.Int.{ℤ, pos, negsuc}
use qword.Klib.{Mem}
use qword.Syscall.{int_of_size}
use qword.Echfs.{Echfs, read_loop, write_loop}
pub mod RoundTrip

abbrev pub directory_type : ℕ
directory_type = 1

abbrev pub o_append : ℕ
o_append = 0x8

abbrev pub eio : ℕ
eio = 1027

abbrev pub eisdir : ℕ
eisdir = 1029

-- `echfs_handle_t`
pub record EchfsHandle : Type 0 where
  pub type : ℕ
  pub flags : ℕ
  pub ptr : ℕ
  pub end : ℕ

-- How much is read: what is asked for, or what is left, in 64 bits.
unfoldable pub count_to_end : EchfsHandle → ℕ → ℕ
count_to_end h count =
    if leb h.end ((h.ptr + count) % 2 ^ 64) then (2 ^ 64 + h.end - h.ptr) % 2 ^ 64 else count

-- The number of `errno` where it is set, the result, the handle, the buffer, and the file. What the
-- buffer holds after EIO is left out.
module _ (alloc_works : Bool) (table bps rounds : ℕ) where
  unfoldable pub echfs_read :
      EchfsHandle → Mem → ℕ → Echfs → Option (ℕ × ℤ × EchfsHandle × Mem × Echfs)
  echfs_read h buf count f =
      let left = count_to_end h count in
      let done : Option (ℕ × ℤ × EchfsHandle × Mem × Echfs) = (do
        r ← read_loop alloc_works table bps h.ptr left rounds 0 buf f
        some (elim r.0 [
          | none ↦ (eio, negsuc 0, h, buf, r.1)
          | some buf' ↦ (0, int_of_size left, record h { ptr = (h.ptr + left) % 2 ^ 64 }, buf', r.1)
        ])) in
      if h.type == directory_type then some (eisdir, negsuc 0, h, buf, f) else done

  unfoldable pub echfs_write : EchfsHandle → Mem → ℕ → Echfs → Option (ℕ × ℤ × EchfsHandle × Echfs)
  echfs_write h buf count f =
      let at = if h.flags / o_append % 2 == 0 then h.ptr else h.end in
      let next = (at + count) % 2 ^ 64 in
      let longer = ltb h.end next in
      let done : Option (ℕ × ℤ × EchfsHandle × Echfs) = (do
        r ← write_loop alloc_works table bps at count rounds 0 buf f
        some (
            if r.0
            then (
              0,
              int_of_size count,
              record h { ptr = next; end = if longer then next else h.end },
              record r.1 {
                size = if longer then next else r.1.size;
                changed_entry = if longer then true else r.1.changed_entry;
              },
            )
            else (eio, negsuc 0, record h { ptr = at }, r.1))) in
      if h.type == directory_type then some (eisdir, negsuc 0, h, f) else done
