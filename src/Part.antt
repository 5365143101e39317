-- ===== src/Part.antt =====
-- Reads and writes of partitions: root/src/kernel/lib/part.c.
--
-- The device under a partition is a pair of functions on a type of states that the calls pass on.
pub mod Bounds
mod Tests
use qword.Prelude.{ℕ, ◌+◌, ◌*◌, ◌%◌, ◌^◌, leb, if◌then◌else◌, Option, none, some, ◌>>=◌}
use qword.Prelude.Int.{ℤ, pos}
use qword.Dynarray.{Table, dynarray_getelem, dynarray_unref, load}

-- `partinfo_t`, with the two calls of the device that are used: number, buffer, place and count.
pub record PartInfo (W : Type 0) : Type 0 where
  pub fd : ℤ
  pub first_sect : ℕ
  pub sect_count : ℕ
  pub dev_read : ℤ → ℕ → ℕ → ℕ → W → ℤ × W
  pub dev_write : ℤ → ℕ → ℕ → ℕ → W → ℤ × W

-- Sectors in bytes, and places on the device, are 64 bits.
abbrev pub bytes_in : ℕ → ℕ
bytes_in sectors = sectors * 512 % 2 ^ 64

abbrev pub device_place : ℕ → ℕ → ℕ
device_place loc first_sect = (loc + bytes_in first_sect) % 2 ^ 64

module _ {W : Type 0} where
  -- With the partition: nothing outside of it, else the call of the device.
  transfer :
      (PartInfo W → ℤ → ℕ → ℕ → ℕ → W → ℤ × W)
      → ℕ
      → ℕ
      → ℕ
      → Table (PartInfo W)
      → ℕ
      → W
      → PartInfo W
      → Option (ℤ × Table (PartInfo W) × W)
  transfer call buf loc count t pi w p =
      let done = call p p.fd buf (device_place loc p.first_sect) count w in
      let freed = dynarray_unref t pi >>= (λ t'. some (done.0, t', done.1)) in
      if leb (bytes_in p.sect_count) loc then some (pos 0, t, w) else freed

  -- The common text of `part_read` and `part_write`, on one of the calls of the device.
  pub part_io :
      (PartInfo W → ℤ → ℕ → ℕ → ℕ → W → ℤ × W)
      → ℕ
      → ℕ
      → ℕ
      → Table (PartInfo W)
      → ℕ
      → W
      → Option (ℤ × Table (PartInfo W) × W)
  part_io call buf loc count t pi w = do
    got ← dynarray_getelem t pi
    elim got.0 [
      | none ↦ some (pos 0, got.1, w)
      | some ptr ↦ load got.1 ptr >>= transfer call buf loc count got.1 pi w
    ]

  pub part_read : ℕ → ℕ → ℕ → Table (PartInfo W) → ℕ → W → Option (ℤ × Table (PartInfo W) × W)
  part_read = part_io (λ p. p.dev_read)

  pub part_write : ℕ → ℕ → ℕ → Table (PartInfo W) → ℕ → W → Option (ℤ × Table (PartInfo W) × W)
  part_write = part_io (λ p. p.dev_write)
