-- ===== src/Echfs.antt =====
-- Files of root/src/kernel/fs/echfs/echfs.c: the cache of the blocks of a file, and reads and writes
-- through it.
--
-- The device is taken apart into the allocation table and the blocks, which an image keeps in different
-- places; a read or a write of the device succeeds, since the code does not test it. A block is its
-- bytes. Locks are left out: each call holds that of the mount.
pub mod Cache
pub mod Loads
pub mod Transfers
pub mod Writes
pub mod Flush
pub mod Calls
mod Tests
use qword.Prelude.{
  ℕ, zero, suc, ◌+◌, ◌-◌, ◌/◌, ◌%◌, ◌==◌, ltb, leb, ◌&&◌, not, if◌then◌else◌, Bool, true, false,
  Option, none, some, ◌>>=◌,
}
use qword.Klib.{Mem}

abbrev pub max_cached_blocks : ℕ
max_cached_blocks = 8192

abbrev pub cache_notready : ℕ
cache_notready = 0

abbrev pub cache_ready : ℕ
cache_ready = 1

abbrev pub cache_dirty : ℕ
cache_dirty = 2

abbrev pub end_of_chain : ℕ
end_of_chain = 0xffffffffffffffff

abbrev pub Block : Type 0
Block = ℕ → ℕ

-- `cached_block_t`
pub record CachedBlock : Type 0 where
  pub cache : Block
  pub block : ℕ
  pub status : ℕ

-- What of `cached_file_t`, its entry and the device the calls work on; of the entry, the first block
-- and the size.
pub record Echfs : Type 0 where
  pub cached_blocks : ℕ → CachedBlock
  pub overwritten_slot : ℕ
  pub alloc_map : ℕ → ℕ
  pub total_blocks : ℕ
  pub payload : ℕ
  pub size : ℕ
  pub changed_entry : Bool
  pub changed_cache : Bool
  pub unlinked : Bool
  -- The type is FILE_TYPE, and the file was found.
  pub regular : Bool
  -- The first block and the size in the entry on the device.
  pub saved : ℕ × ℕ
  pub fat : ℕ → ℕ
  pub blocks : ℕ → Block

abbrev pub with_at {ℓ} : {A : Type ℓ} → (ℕ → A) → ℕ → A → ℕ → A
with_at f i v j = if j == i then v else f j

-- From an entry of the table on, for some rounds; the code goes on behind the end of the table.
unfoldable pub zero_entry : (ℕ → ℕ) → ℕ → ℕ → Option ℕ
zero_entry fat zero i = none
zero_entry fat (suc rounds) i =
    let rest = zero_entry fat rounds (i + 1) in if fat i == 0 then some i else rest

unfoldable pub allocate_empty_block : ℕ → (ℕ → ℕ) → ℕ → Option (ℕ × (ℕ → ℕ))
allocate_empty_block rounds fat prev_block = do
  i ← zero_entry fat rounds 0
  let taken = with_at fat i end_of_chain
  some (i, if prev_block == 0 then taken else with_at taken prev_block i)

unfoldable pub find_from : (ℕ → CachedBlock) → ℕ → ℕ → ℕ → Option ℕ
find_from slots block zero i = none
find_from slots block (suc rounds) i =
    let rest = find_from slots block rounds (i + 1) in
    if (slots i).block == block && not ((slots i).status == 0) then some i else rest

-- `none` stands for -1.
unfoldable pub find_block : Echfs → ℕ → Option ℕ
find_block f block = find_from f.cached_blocks block max_cached_blocks 0

unfoldable pub empty_from : (ℕ → CachedBlock) → ℕ → ℕ → Option ℕ
empty_from slots zero i = none
empty_from slots (suc rounds) i =
    let rest = empty_from slots rounds (i + 1) in if (slots i).status == 0 then some i else rest

-- The slot to overwrite, when none is empty, with its block written to the device if it is dirty.
unfoldable pub overwrite : Echfs → ℕ × Echfs
overwrite f =
    let targ = if f.overwritten_slot == max_cached_blocks then 0 else f.overwritten_slot in
    let slot = f.cached_blocks targ in
    (
      targ,
      record f {
        overwritten_slot = targ + 1;
        blocks =
            if slot.status == cache_dirty
            then with_at f.blocks (f.alloc_map slot.block) slot.cache
            else f.blocks;
      },
    )

-- New blocks of the file, from `i` on; `table` is the number of entries that may be looked at.
unfoldable pub give_blocks_from : ℕ → ℕ → ℕ → Echfs → Option Echfs
give_blocks_from table zero i f = some f
give_blocks_from table (suc rounds) i f = do
  new ← allocate_empty_block table f.fat (if i == 0 then 0 else f.alloc_map (i - 1))
  give_blocks_from table rounds (i + 1) (record f {
    alloc_map = with_at f.alloc_map i new.0;
    payload = if i == 0 then new.0 else f.payload;
    changed_entry = if i == 0 then true else f.changed_entry;
    fat = new.1;
  })

unfoldable pub give_blocks : ℕ → ℕ → Echfs → Option Echfs
give_blocks table block f =
    let grown : Option Echfs = (do
      g ← give_blocks_from table (block + 1 - f.total_blocks) f.total_blocks f
      some (record g { total_blocks = block + 1 })) in
    if leb f.total_blocks block then grown else some f

unfoldable pub load_block : ℕ → ℕ → Echfs → Echfs
load_block targ block f = record f {
  cached_blocks =
      with_at f.cached_blocks targ
        (record { cache = f.blocks (f.alloc_map block); block = block; status = cache_ready });
}

-- The slot, or -1 where there is no memory for the bytes of an empty one.
unfoldable pub cache_block : Bool → ℕ → ℕ → Echfs → Option (Option ℕ × Echfs)
cache_block alloc_works table block f =
    let into = λ (targ : ℕ) (g : Echfs). (do
      h ← give_blocks table block g
      some (some targ, load_block targ block h)) in
    elim (empty_from f.cached_blocks max_cached_blocks 0) [
      | none ↦ into (overwrite f).0 (overwrite f).1
      | some targ ↦ if alloc_works then into targ f else some (none, f)
    ]

-- The slot of a block, cached first where it is not.
unfoldable pub cached_slot : Bool → ℕ → ℕ → Echfs → Option (Option ℕ × Echfs)
cached_slot alloc_works table block f = elim (find_block f block) [
  | some slot ↦ some (some slot, f)
  | none ↦ cache_block alloc_works table block f
]

-- `memcpy` of `chunk` bytes from an index of a block to an index of the buffer, and the other way.
abbrev pub copy_out : Mem → ℕ → Block → ℕ → ℕ → Mem
copy_out buf progress cache offset chunk j =
    if leb progress j && ltb j (progress + chunk) then cache (offset + (j - progress)) else buf j

abbrev pub copy_in : Block → ℕ → Mem → ℕ → ℕ → Block
copy_in cache offset buf progress chunk j =
    if leb offset j && ltb j (offset + chunk) then buf (progress + (j - offset)) else cache j

abbrev pub chunk_at : ℕ → ℕ → ℕ → ℕ
chunk_at bps at left = if ltb (bps - at % bps) left then bps - at % bps else left

-- The loops of `echfs_read` and `echfs_write`, in some rounds; the inner `none` is EIO.
module _ (alloc_works : Bool) (table bps ptr count : ℕ) where
  unfoldable pub read_loop : ℕ → ℕ → Mem → Echfs → Option (Option Mem × Echfs)
  read_loop zero progress buf f = none
  read_loop (suc rounds) progress buf f =
      let at = ptr + progress in
      let chunk = chunk_at bps at (count - progress) in
      let round : Option (Option Mem × Echfs) = (do
        found ← cached_slot alloc_works table (at / bps) f
        elim found.0 [
          | none ↦ some (none, found.1)
          | some slot ↦
              read_loop rounds (progress + chunk)
                (copy_out buf progress (found.1.cached_blocks slot).cache (at % bps) chunk) found.1
        ]) in
      if ltb progress count then round else some (some buf, f)

  unfoldable pub write_loop : ℕ → ℕ → Mem → Echfs → Option (Bool × Echfs)
  write_loop zero progress buf f = none
  write_loop (suc rounds) progress buf f =
      let at = ptr + progress in
      let chunk = chunk_at bps at (count - progress) in
      let round : Option (Bool × Echfs) = (do
        found ← cached_slot alloc_works table (at / bps) f
        elim found.0 [
          | none ↦ some (false, found.1)
          | some slot ↦
              let g = found.1 in
              let old = g.cached_blocks slot in
              write_loop rounds (progress + chunk) buf (record g {
                cached_blocks = with_at g.cached_blocks slot (record old {
                  cache = copy_in old.cache (at % bps) buf progress chunk;
                  status = cache_dirty;
                });
                changed_cache = true;
              })
        ]) in
      if ltb progress count then round else some (true, f)

-- The loop of `synchronise_cached_file` over the slots, with some rounds to go.
unfoldable pub flush_from : ℕ → ℕ → Echfs → Echfs
flush_from zero i f = f
flush_from (suc rounds) i f =
    let slot = f.cached_blocks i in
    flush_from rounds (i + 1) (
      if slot.status == cache_dirty
      then record f {
        blocks = with_at f.blocks (f.alloc_map slot.block) slot.cache;
        cached_blocks = with_at f.cached_blocks i (record slot { status = cache_ready });
      }
      else f)

unfoldable pub write_entry : Echfs → Echfs
write_entry f =
    if not f.unlinked && f.changed_entry
    then record f { saved = (f.payload, f.size); changed_entry = false }
    else f

unfoldable pub flush : Echfs → Echfs
flush f =
    if f.changed_cache
    then record (flush_from max_cached_blocks 0 f) { changed_cache = false }
    else f

unfoldable pub synchronise_cached_file : Echfs → Echfs
synchronise_cached_file f = if f.regular then flush (write_entry f) else write_entry f
