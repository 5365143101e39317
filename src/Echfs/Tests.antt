-- ===== src/Echfs/Tests.antt =====
-- A file of two blocks of four bytes, for root/src/kernel/fs/echfs/echfs.c.
use qword.Prelude.{
  ℕ, ◌+◌, ◌-◌, leb, ltb, ◌&&◌, if◌then◌else◌, true, false, ◌≡◌, inr, some, refl, arith,
}
use qword.Prelude.Int.{pos}
use qword.Klib.{Mem}
use qword.Echfs.{
  Block, CachedBlock, Echfs, max_cached_blocks, cache_dirty, with_at, allocate_empty_block,
  load_block, synchronise_cached_file,
}
use qword.Echfs.Cache.{Represents, load_block-Represents, patched_Represents}
use qword.Echfs.Transfers.{byte}
use qword.Echfs.Flush.{Marked, Synchronised, synchronise_cached_file_lem}
use qword.Echfs.Calls.{EchfsHandle, echfs_read, echfs_write}
use qword.Echfs.Calls.RoundTrip.{Fits, echfs_read-echfs_write}

abbrev empty_slot : CachedBlock
empty_slot = record { cache = λ i. 0; block = 0; status = 0 }

-- Nothing is cached; block `b` of the file is block `b + 20` of the device.
abbrev file : Echfs
file = record {
  cached_blocks = λ t. empty_slot;
  overwritten_slot = 0;
  alloc_map = λ b. b + 20;
  total_blocks = 2;
  payload = 20;
  size = 8;
  changed_entry = false;
  changed_cache = false;
  unlinked = false;
  regular = true;
  saved = (20, 8);
  fat = λ i. if ltb i 22 then 1 else 0;
  blocks = λ i j. i;
}

abbrev content : ℕ → Block
content b j = b + 20

file-Represents : Represents file content
file-Represents = record {
  cached = λ t l on. absurd (on refl);
  inside = λ t l on. absurd (on refl);
  unique = λ t u l m on. absurd (on refl);
  clean = λ b l no_dirty. refl;
  apart = λ a b l m e. omega (arith, e);
  slot = omega arith;
}

abbrev handle : EchfsHandle
handle = record { type = 0; flags = 0; ptr = 2; end = 5 }

handle-Fits : Fits handle file 4 6
handle-Fits = record {
  file = refl;
  plain = refl;
  inside = omega arith;
  small = omega arith;
  few = omega arith;
}

-- The first free entry is taken and put behind the block before.
allocate_empty_block_22 :
    (i : ℕ) × (fat : ℕ → ℕ) × (allocate_empty_block 40 file.fat 21 ≡ some (i, fat))
    × (i ≡ 22)
    × (fat 21 ≡ 22)
unfolding allocate_empty_block qword.Echfs.zero_entry
allocate_empty_block_22 = (22, _, refl, refl, refl)

-- Six bytes from the third on, over the end of the first block.
echfs_read-echfs_write_example :
    (content' : ℕ → Block) × (h' : EchfsHandle) × (f' : Echfs) × (echfs_write true 40 4 7 handle
        (λ j. j + 60)
        6
        file
      ≡ some (0, pos 6, h', f'))
    × Represents f' content'
    × ((x : ℕ)
        → byte content' 4 x ≡ (if leb 2 x && ltb x (2 + 6) then (x - 2) + 60 else byte content 4 x))
    × (into' : Mem) × (h'' : EchfsHandle) × (f'' : Echfs) × (echfs_read true 40 4 7
          (record h' { ptr = 2 })
          (λ j. 0)
          6
          f'
        ≡ some (0, pos 6, h'', into', f''))
    × Represents f'' content'
    × ((j : ℕ) → into' j ≡ (if ltb j 6 then j + 60 else 0))
echfs_read-echfs_write_example =
    echfs_read-echfs_write 40 4 7 (omega arith) handle (λ j. j + 60) (λ j. 0) 6 file content
      file-Represents handle-Fits (omega arith) (omega arith)

-- With the second block in the first slot, and then changed there.
abbrev loaded : Echfs
loaded = load_block 0 1 file

abbrev sevens : Block
sevens i = 7

abbrev changed : Echfs
changed = record loaded {
  cached_blocks =
      with_at loaded.cached_blocks 0
        (record (loaded.cached_blocks 0) { cache = sevens; status = cache_dirty });
  changed_cache = true;
}

abbrev changed_content : ℕ → Block
changed_content = with_at content (loaded.cached_blocks 0).block sevens

loaded-Represents : Represents loaded content
loaded-Represents =
    load_block-Represents file content file-Represents 0 1 (omega arith) (omega arith)
      (λ t l. inr refl) (λ wrong. absurd (ground (arith, wrong)))

changed-Represents : Represents changed changed_content
unfolding load_block
changed-Represents =
    patched_Represents loaded content loaded-Represents 0 sevens true (omega arith)
      (λ wrong. absurd (ground (arith, wrong)))

changed-Marked : Marked changed
unfolding load_block
changed-Marked = record {
  cache = λ wrong t l dirty. absurd (ground (arith, wrong));
  entry = λ e. refl;
}

changed-tests : (changed.regular ≡ true) × (changed.unlinked ≡ false)
unfolding load_block
changed-tests = (refl, refl)

synchronise_cached_file_lem_example :
    Synchronised changed changed_content (synchronise_cached_file changed)
synchronise_cached_file_lem_example =
    synchronise_cached_file_lem changed changed_content changed-Represents changed-Marked
      changed-tests.0 changed-tests.1
