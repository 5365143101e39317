-- ===== src/Echfs/Loads.antt =====
-- A block of a file in root/src/kernel/fs/echfs/echfs.c is found in the cache or loaded into it.
use qword.Prelude.{ℕ, ◌+◌, ◌<◌, ◌≤◌, ◌==◌, leb, if◌then◌else◌, true, false, Bool-cases}
use qword.Prelude.{some, ◌≡◌, ◌≢◌, inl, inr, refl, ap, ◌∙◌, arith}
use qword.Echfs.{
  Block, Echfs, max_cached_blocks, cache_dirty, find_block, overwrite, give_blocks, load_block,
  cache_block, cached_slot,
}
use qword.Echfs.Cache.{
  Represents, Uncached, written_back, written_back-Represents, load_block-Represents, find_from_lem,
  empty_from_lem,
}

-- The slot has the block, and the file is what it was.
pub record Found (f : Echfs) (content : ℕ → Block) (b t : ℕ) (f' : Echfs) : Type 0 where
  pub represents : Represents f' content
  pub in_range : t < max_cached_blocks
  pub live : (f'.cached_blocks t).status ≢ 0
  pub block : (f'.cached_blocks t).block ≡ b
  pub total : f'.total_blocks ≡ f.total_blocks

give_blocks-inside : (table b : ℕ) (f : Echfs) → b < f.total_blocks → give_blocks table b f ≡ some f
unfolding give_blocks
give_blocks-inside table b f l =
    let inside : leb f.total_blocks b ≡ false = ground (arith, l) in rw inside refl

loaded :
    (f g : Echfs) (content : ℕ → Block) (b t : ℕ)
    → g.total_blocks ≡ f.total_blocks
    → Represents g content
    → t < max_cached_blocks
    → b < f.total_blocks
    → Uncached g b
    → ((g.cached_blocks t).status ≡ cache_dirty
        → g.blocks (g.alloc_map (g.cached_blocks t).block) ≡ content (g.cached_blocks t).block)
    → Found f content b t (load_block t b g)
unfolding load_block
loaded f g content b t total r l u uncached back = record {
  represents = load_block-Represents g content r t b l (ground (arith, u, total)) uncached back;
  in_range = l;
  live = ground arith;
  block = ground arith;
  total = total;
}

with_slot :
    (f : Echfs) (content : ℕ → Block) (k : ℕ)
    → Represents f content
    → k ≤ max_cached_blocks
    → Represents (record f { overwritten_slot = k }) content
with_slot f content k r l = record {
  cached = r.cached;
  inside = r.inside;
  unique = r.unique;
  clean = r.clean;
  apart = r.apart;
  slot = l;
}

-- A slot whose block is written back if it is dirty.
abbrev cleaned : Echfs → ℕ → Echfs
cleaned f t = record f {
  overwritten_slot = t + 1;
  blocks =
      if (f.cached_blocks t).status == cache_dirty then (written_back f t).blocks else f.blocks;
}

cleaned-Represents :
    (f : Echfs) (content : ℕ → Block) (t : ℕ)
    → Represents f content
    → t < max_cached_blocks
    → Represents (cleaned f t) content
      × ((f.cached_blocks t).status ≡ cache_dirty
          → (cleaned f t).blocks (f.alloc_map (f.cached_blocks t).block)
            ≡ content (f.cached_blocks t).block)
cleaned-Represents f content t r l = elim (Bool-cases ((f.cached_blocks t).status == cache_dirty)) [
  | inl dirty ↦
      let (r', back) = written_back-Represents f content r t l (ground (arith, dirty)) in
      rw (dirty) (with_slot (written_back f t) content (t + 1) r' (omega (arith, l)), λ d. back)
  | inr kept ↦
      rw (kept) (with_slot f content (t + 1) r (omega (arith, l)), λ d. ground (arith, d, kept))
]

-- The slot to overwrite, with its block on the device.
overwrite_lem :
    (f : Echfs) (content : ℕ → Block)
    → Represents f content
    → let (t, g) = overwrite f in
      (t < max_cached_blocks)
      × Represents g content
      × (g.cached_blocks ≡ f.cached_blocks)
      × (g.total_blocks ≡ f.total_blocks)
      × ((g.cached_blocks t).status ≡ cache_dirty
          → g.blocks (g.alloc_map (g.cached_blocks t).block) ≡ content (g.cached_blocks t).block)
unfolding overwrite
overwrite_lem f content r =
    let t = if f.overwritten_slot == max_cached_blocks then 0 else f.overwritten_slot in
    let l : t < max_cached_blocks = ground (arith, r.slot) in
    let (r', back) = cleaned-Represents f content t r l in (l, r', refl, refl, back)

pub cached_slot_lem :
    (table b : ℕ) (f : Echfs) (content : ℕ → Block)
    → Represents f content
    → b < f.total_blocks
    → (t : ℕ) × (f' : Echfs) × (cached_slot true table b f ≡ some (some t, f'))
      × Found f content b t f'
unfolding cached_slot cache_block find_block
cached_slot_lem table b f content r l = elim (find_from_lem f.cached_blocks b max_cached_blocks 0) [
  | inr (t, e, u, same, on) ↦ (
    t,
    f,
    rw (cached_slot, find_block, e) refl,
    record { represents = r; in_range = u; live = on; block = same; total = refl },
  )
  | inl (e, uncached) ↦ elim (empty_from_lem f.cached_blocks max_cached_blocks 0) [
    | inr (t, found, u, free) ↦ (
      t,
      load_block t b f,
      rw (cached_slot, find_block, e, cache_block, found, give_blocks-inside table b f l) refl,
      loaded f f content b t refl r u l (λ v m. uncached v (omega arith) m)
          (λ dirty. ground (arith, dirty, free)),
    )
    | inl full ↦
        let (u, r', slots, total, back) = overwrite_lem f content r in
        let t = (overwrite f).0 in
        let g = (overwrite f).1 in
        (
          t,
          load_block t b g,
          rw
              (
                cached_slot,
                find_block,
                e,
                cache_block,
                full,
                give_blocks-inside table b g (ground (arith, l, total)),
              )
              refl,
          loaded f g content b t total r' u l (λ v m. rw (slots) (uncached v (omega arith) m)) back,
        )
  ]
]

pub Found-cache :
    (f : Echfs) (content : ℕ → Block) (b t : ℕ) (f' : Echfs)
    → Found f content b t f'
    → (f'.cached_blocks t).cache ≡ content b
Found-cache f content b t f' found =
    found.represents.cached t found.in_range found.live ∙ ap content found.block
