-- ===== src/Part/Tests.antt =====
-- Runs of the reads and writes of root/src/kernel/lib/part.c on a table with one partition.
use qword.Prelude.{ℕ, ◌+◌, ◌≡◌, refl, some, [], ◌∷◌, arith, true}
use qword.Prelude.Int.{pos}
use qword.Dynarray.{Table}
use qword.Part.{PartInfo}
use qword.Part.Bounds.{Direction, part_call, part_call_lem}

-- The state of the device is the end of the last transfer.
abbrev boot : PartInfo ℕ
boot = record {
  fd = pos 3;
  first_sect = 8;
  sect_count = 2;
  dev_read = λ fd buf loc count w. (pos count, loc + count);
  dev_write = λ fd buf loc count w. (pos count, loc + count);
}

abbrev partitions : Table (PartInfo ℕ)
partitions = record {
  slots = some (record { refcount = 1; present = true; value = boot }) ∷ [];
  i = 1;
}

part_call_lem_example :
    part_call Direction.writing 0 1000 512 partitions 0 7 ≡ some (pos 512, partitions, 5608)
part_call_lem_example =
    part_call_lem Direction.writing 0 1000 512 partitions 0 0 boot 7 (omega arith) refl
      (omega arith)
