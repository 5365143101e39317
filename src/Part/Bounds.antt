-- ===== src/Part/Bounds.antt =====
-- Where a read or write of a partition (root/src/kernel/lib/part.c) goes.
use qword.Prelude.{
  ℕ, suc, ◌+◌, ◌*◌, ◌^◌, ◌≤◌, ◌<◌, ltb, leb, if◌then◌else◌, Bool-cases, inl, inr, true, false,
  Option, some, ◌>>=◌, ◌≡◌, refl, ◌∙◌, ap, arith,
}
use qword.Prelude.Int.{ℤ, pos}
use qword.Dynarray.{Table}
use qword.Dynarray.Borrow.{
  Has, holding, holding-Has, holding-holding, holding-same, getelem-Has, load-Has, unref-Has,
}
use qword.Part.{PartInfo, bytes_in, device_place, transfer, part_io, part_read, part_write}

-- The two directions.
pub data Direction : Type 0 where
  reading : Direction
  writing : Direction

module _ {W : Type 0} where
  abbrev pub part_call :
      Direction → ℕ → ℕ → ℕ → Table (PartInfo W) → ℕ → W → Option (ℤ × Table (PartInfo W) × W)
  part_call reading = part_read
  part_call writing = part_write

  abbrev pub device_call : Direction → PartInfo W → ℤ → ℕ → ℕ → ℕ → W → ℤ × W
  device_call reading p = p.dev_read
  device_call writing p = p.dev_write

  io-Has :
      (call : PartInfo W → ℤ → ℕ → ℕ → ℕ → W → ℤ × W) (buf loc count : ℕ) (t : Table (PartInfo W))
      (pi n : ℕ) (p : PartInfo W) (w : W)
      → n < 2 ^ 31
      → Has t pi n p
      → part_io call buf loc count t pi w
        ≡ transfer call buf loc count (holding t pi (suc n) p) pi w p
  unfolding part_io
  io-Has call buf loc count t pi n p w small has =
      let got = holding-Has t pi (suc n) p has in
      rw (part_io, getelem-Has t pi n p small has)
        (ap (λ o. o >>= transfer call buf loc count (holding t pi (suc n) p) pi w)
          (load-Has (holding t pi (suc n) p) pi (suc n) p got))

  transfer-inside :
      (call : PartInfo W → ℤ → ℕ → ℕ → ℕ → W → ℤ × W) (buf loc count : ℕ) (t : Table (PartInfo W))
      (pi n : ℕ) (p : PartInfo W) (w : W)
      → n < 2 ^ 31
      → Has t pi (suc n) p
      → loc < bytes_in p.sect_count
      → let r = call p p.fd buf (device_place loc p.first_sect) count w in
        transfer call buf loc count t pi w p ≡ some (r.0, holding t pi n p, r.1)
  unfolding transfer
  transfer-inside call buf loc count t pi n p w small has inside =
      let within : leb (bytes_in p.sect_count) loc ≡ false = ground arith in
      rw (transfer, within, unref-Has t pi n p small has) refl

  transfer-outside :
      (call : PartInfo W → ℤ → ℕ → ℕ → ℕ → W → ℤ × W) (buf loc count : ℕ) (t : Table (PartInfo W))
      (pi : ℕ) (p : PartInfo W) (w : W)
      → bytes_in p.sect_count ≤ loc
      → transfer call buf loc count t pi w p ≡ some (pos 0, t, w)
  unfolding transfer
  transfer-outside call buf loc count t pi p w outside =
      let behind : leb (bytes_in p.sect_count) loc ≡ true = ground arith in
      rw (transfer, behind) refl

  io-inside :
      (call : PartInfo W → ℤ → ℕ → ℕ → ℕ → W → ℤ × W) (buf loc count : ℕ) (t : Table (PartInfo W))
      (pi n : ℕ) (p : PartInfo W) (w : W)
      → n < 2 ^ 31
      → Has t pi n p
      → loc < bytes_in p.sect_count
      → let r = call p p.fd buf (device_place loc p.first_sect) count w in
        part_io call buf loc count t pi w ≡ some (r.0, t, r.1)
  io-inside call buf loc count t pi n p w small has inside =
      let got = holding-Has t pi (suc n) p has in
      io-Has call buf loc count t pi n p w small has
      ∙ transfer-inside call buf loc count (holding t pi (suc n) p) pi n p w small got inside
      ∙ ap
          (λ x. some (
            (call p p.fd buf (device_place loc p.first_sect) count w).0,
            x,
            (call p p.fd buf (device_place loc p.first_sect) count w).1,
          ))
          (holding-holding t pi (suc n) n p p ∙ holding-same t pi n p has)

  -- A transfer that starts behind the end leaves the reference to the partition with it.
  io-outside :
      (call : PartInfo W → ℤ → ℕ → ℕ → ℕ → W → ℤ × W) (buf loc count : ℕ) (t : Table (PartInfo W))
      (pi n : ℕ) (p : PartInfo W) (w : W)
      → n < 2 ^ 31
      → Has t pi n p
      → bytes_in p.sect_count ≤ loc
      → part_io call buf loc count t pi w ≡ some (pos 0, holding t pi (suc n) p, w)
  io-outside call buf loc count t pi n p w small has outside =
      io-Has call buf loc count t pi n p w small has
      ∙ transfer-outside call buf loc count (holding t pi (suc n) p) pi p w outside

  io_lem :
      (call : PartInfo W → ℤ → ℕ → ℕ → ℕ → W → ℤ × W) (buf loc count : ℕ) (t : Table (PartInfo W))
      (pi n : ℕ) (p : PartInfo W) (w : W)
      → n < 2 ^ 31
      → Has t pi n p
      → (p.first_sect + p.sect_count) * 512 < 2 ^ 64
      → let r = call p p.fd buf (p.first_sect * 512 + loc) count w in
        part_io call buf loc count t pi w ≡ (
          if ltb loc (p.sect_count * 512)
          then some (r.0, t, r.1)
          else some (pos 0, holding t pi (suc n) p, w))
  io_lem call buf loc count t pi n p w small has fits =
      let size : bytes_in p.sect_count ≡ p.sect_count * 512 = ground (arith, fits) in
      elim (Bool-cases (ltb loc (p.sect_count * 512))) [
        | inl inside ↦
            let place : device_place loc p.first_sect ≡ p.first_sect * 512 + loc =
              ground (arith, fits, inside) in
            rw (inside, ← place)
              (io-inside call buf loc count t pi n p w small has (ground (arith, size, inside)))
        | inr outside ↦
            rw (outside)
              (io-outside call buf loc count t pi n p w small has (ground (arith, size, outside)))
      ]

  -- For a partition whose sectors have places of 64 bits: a read or write that starts in it is passed to
  -- the device once, as far behind the first sector as it was to go and with the same count, however
  -- far behind the end of the partition that reaches, and the table of partitions is as before; one
  -- that starts behind it returns 0 and transfers nothing, but leaves its reference to the partition
  -- in the table.
  pub part_call_lem :
      (dir : Direction) (buf loc count : ℕ) (t : Table (PartInfo W)) (pi n : ℕ) (p : PartInfo W)
      (w : W)
      → n < 2 ^ 31
      → Has t pi n p
      → (p.first_sect + p.sect_count) * 512 < 2 ^ 64
      → let r = device_call dir p p.fd buf (p.first_sect * 512 + loc) count w in
        part_call dir buf loc count t pi w ≡ (
          if ltb loc (p.sect_count * 512)
          then some (r.0, t, r.1)
          else some (pos 0, holding t pi (suc n) p, w))
  unfolding part_read part_write
  part_call_lem reading buf loc count t pi n p w small has fits =
      io_lem (λ p. p.dev_read) buf loc count t pi n p w small has fits
  part_call_lem writing buf loc count t pi n p w small has fits =
      io_lem (λ p. p.dev_write) buf loc count t pi n p w small has fits
