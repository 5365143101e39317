-- ===== src/Echfs/Calls/RoundTrip.antt =====
-- What `echfs_write` has written, `echfs_read` reads: root/src/kernel/fs/echfs/echfs.c.
use qword.Prelude.{ℕ, ◌+◌, ◌-◌, ◌*◌, ◌/◌, ◌%◌, ◌^◌, ◌<◌, ◌≤◌, ◌==◌, leb, ltb, ◌&&◌, if◌then◌else◌}
use qword.Prelude.{Bool, true, false, Option, none, some, ◌>>=◌}
use qword.Prelude.{◌≡◌, refl, sym, subst, arith}
use qword.Prelude.Int.{ℤ, pos, negsuc}
use qword.Klib.{Mem}
use qword.Syscall.{int_of_size}
use qword.Echfs.{Block, Echfs, read_loop}
use qword.Echfs.Cache.{Represents}
use qword.Echfs.Transfers.{byte, read_loop_lem}
use qword.Echfs.Writes.{write_loop_lem}
use qword.Echfs.Calls.{
  EchfsHandle, directory_type, o_append, count_to_end, echfs_read, echfs_write, eio,
}

-- A file that is open at a place, with blocks for what is to be written there.
pub record Fits (h : EchfsHandle) (f : Echfs) (bps count : ℕ) : Type 0 where
  pub file : (h.type == directory_type) ≡ false
  pub plain : (h.flags / o_append % 2 == 0) ≡ true
  pub inside : h.ptr + count ≤ f.total_blocks * bps
  pub small : h.ptr + count < 2 ^ 63
  pub few : count < 2 ^ 31

-- The handle behind what is written.
abbrev moved_on : EchfsHandle → ℕ → EchfsHandle
moved_on h count = record h {
  ptr = h.ptr + count;
  end = if ltb h.end (h.ptr + count) then h.ptr + count else h.end;
}

int_of_size-small : (k : ℕ) → k < 2 ^ 31 → int_of_size k ≡ pos k
int_of_size-small k l = ground (arith, l)

count_to_end-inside :
    (h : EchfsHandle) (count : ℕ)
    → h.ptr + count ≤ h.end
    → h.ptr + count < 2 ^ 63
    → h.end < 2 ^ 64
    → count_to_end h count ≡ count
unfolding count_to_end
count_to_end-inside h count within small top = ground (arith, within, small, top)

with_size :
    (f : Echfs) (content : ℕ → Block) (size : ℕ) (changed : Bool)
    → Represents f content
    → Represents (record f { size = size; changed_entry = changed }) content
with_size f content size changed r = record {
  cached = r.cached;
  inside = r.inside;
  unique = r.unique;
  clean = r.clean;
  apart = r.apart;
  slot = r.slot;
}

module _ (table bps rounds : ℕ) (p : 0 < bps) where
  echfs_write_lem :
      (h : EchfsHandle) (buf : Mem) (count : ℕ) (f : Echfs) (content : ℕ → Block)
      → Represents f content
      → Fits h f bps count
      → count < rounds
      → (content' : ℕ → Block) × (f' : Echfs) × (echfs_write true table bps rounds h buf count f
          ≡ some (0, pos count, moved_on h count, f'))
        × Represents f' content'
        × (f'.total_blocks ≡ f.total_blocks)
        × ((x : ℕ)
            → byte content' bps x ≡ (
                if leb h.ptr x && ltb x (h.ptr + count)
                then buf (x - h.ptr)
                else byte content bps x))
  unfolding echfs_write
  echfs_write_lem h buf count f content r fits enough =
      let (content', f', goes, r', total, bytes) =
        write_loop_lem table bps h.ptr count p rounds 0 buf f content r fits.inside
          (omega (arith, enough)) in
      let next : (h.ptr + count) % 2 ^ 64 ≡ h.ptr + count = ground (arith, fits.small) in
      let start : h.ptr + 0 ≡ h.ptr = omega arith in
      let longer = ltb h.end (h.ptr + count) in
      (
        content',
        record f' {
          size = if longer then h.ptr + count else f'.size;
          changed_entry = if longer then true else f'.changed_entry;
        },
        rw (fits.file, fits.plain, goes, next, int_of_size-small count fits.few) refl,
        with_size f' content' _ _ r',
        total,
        λ x. rw start at (bytes x),
      )

  echfs_read_lem :
      (h : EchfsHandle) (buf : Mem) (count : ℕ) (f : Echfs) (content : ℕ → Block)
      → Represents f content
      → Fits h f bps count
      → h.ptr + count ≤ h.end
      → h.end < 2 ^ 64
      → count < rounds
      → (buf' : Mem) × (h' : EchfsHandle) × (f' : Echfs) × (echfs_read true table bps rounds h buf
            count f
          ≡ some (0, pos count, h', buf', f'))
        × Represents f' content
        × ((j : ℕ) → buf' j ≡ (if ltb j count then byte content bps (h.ptr + j) else buf j))
  unfolding echfs_read
  echfs_read_lem h buf count f content r fits within top enough =
      let (buf', f', goes, r', bytes) =
        read_loop_lem table bps h.ptr count p rounds 0 buf f content r fits.inside
          (omega (arith, enough)) in
      let left = count_to_end-inside h count within fits.small top in
      let next : (h.ptr + count) % 2 ^ 64 ≡ h.ptr + count = ground (arith, fits.small) in
      let Result : Type 0 = Option (ℕ × ℤ × EchfsHandle × Mem × Echfs) in
      let run : ℕ → Result = λ c. (do
        r ← read_loop true table bps h.ptr c rounds 0 buf f
        some (elim r.0 [
          | none ↦ (eio, negsuc 0, h, buf, r.1)
          | some b ↦ (0, int_of_size c, record h { ptr = (h.ptr + c) % 2 ^ 64 }, b, r.1)
        ])) in
      let result : Result = some (0, pos count, record h { ptr = h.ptr + count }, buf', f') in
      let ends : run count ≡ result = rw (goes, next, int_of_size-small count fits.few) refl in
      (
        buf',
        record h { ptr = h.ptr + count },
        f',
        rw (fits.file) (subst (λ c. run c ≡ result) (sym left) ends),
        r',
        λ j. ground (arith, bytes j),
      )

  -- For a file without O_APPEND that has blocks for the bytes, fewer than 2 ^ 31 of them at places below
  -- 2 ^ 63, with memory for the cache and a round for each byte and one more: `echfs_write` returns the
  -- number of bytes; the file has them at the place of the handle, and all other bytes of it are as
  -- they were; and `echfs_read` from that place returns the same number and leaves the bytes in the
  -- buffer, and the rest of the buffer as it was.
  pub echfs_read-echfs_write :
      (h : EchfsHandle) (buf into : Mem) (count : ℕ) (f : Echfs) (content : ℕ → Block)
      → Represents f content
      → Fits h f bps count
      → h.end < 2 ^ 64
      → count < rounds
      → (content' : ℕ → Block) × (h' : EchfsHandle) × (f' : Echfs) × (echfs_write true table bps
            rounds h buf count f
          ≡ some (0, pos count, h', f'))
        × Represents f' content'
        × ((x : ℕ)
            → byte content' bps x ≡ (
                if leb h.ptr x && ltb x (h.ptr + count)
                then buf (x - h.ptr)
                else byte content bps x))
        × (into' : Mem) × (h'' : EchfsHandle) × (f'' : Echfs) × (echfs_read true table bps rounds
              (record h' { ptr = h.ptr })
              into
              count
              f'
            ≡ some (0, pos count, h'', into', f''))
        × Represents f'' content'
        × ((j : ℕ) → into' j ≡ (if ltb j count then buf j else into j))
  echfs_read-echfs_write h buf into count f content r fits top enough =
      let (content', f', wrote, r', total, bytes) =
        echfs_write_lem h buf count f content r fits enough in
      let again : EchfsHandle = record (moved_on h count) { ptr = h.ptr } in
      let fits' : Fits again f' bps count = record {
        file = fits.file;
        plain = fits.plain;
        inside = rw (total) fits.inside;
        small = fits.small;
        few = fits.few;
      } in
      let (into', h'', f'', was_read, r'', found) =
        echfs_read_lem again into count f' content' r' fits' (ground arith)
          (ground (arith, top, fits.small)) enough in
      (
        content',
        moved_on h count,
        f',
        wrote,
        r',
        bytes,
        into',
        h'',
        f'',
        was_read,
        r'',
        λ j. ground (arith, found j, bytes (h.ptr + j)),
      )
