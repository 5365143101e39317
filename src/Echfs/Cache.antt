-- ===== src/Echfs/Cache.antt =====
-- What the cache of root/src/kernel/fs/echfs/echfs.c and the device hold together of a file.
use qword.Prelude.{ℕ, zero, suc, ◌+◌, ◌<◌, ◌≤◌, ◌==◌, ◌&&◌, not, Bool, Bool-cases}
use qword.Prelude.{none, some, ◌≡◌, ◌≢◌, ◌⊎◌, inl, inr, refl, sym, ap, subst, ◌∙◌, arith}
use qword.Echfs.{
  Block, CachedBlock, Echfs, max_cached_blocks, cache_dirty, with_at, find_from, empty_from,
  load_block,
}

-- Block `b` of the file is `content b`: a slot with a block has it, and so has the device where no
-- slot with the block is dirty.
pub record Represents (f : Echfs) (content : ℕ → Block) : Type 0 where
  pub cached :
      (t : ℕ)
      → t < max_cached_blocks
      → (f.cached_blocks t).status ≢ 0
      → (f.cached_blocks t).cache ≡ content (f.cached_blocks t).block
  pub inside :
      (t : ℕ)
      → t < max_cached_blocks
      → (f.cached_blocks t).status ≢ 0
      → (f.cached_blocks t).block < f.total_blocks
  pub unique :
      (t u : ℕ)
      → t < max_cached_blocks
      → u < max_cached_blocks
      → (f.cached_blocks t).status ≢ 0
      → (f.cached_blocks u).status ≢ 0
      → (f.cached_blocks t).block ≡ (f.cached_blocks u).block
      → t ≡ u
  pub clean :
      (b : ℕ)
      → b < f.total_blocks
      → ((t : ℕ)
          → t < max_cached_blocks
          → (f.cached_blocks t).block ≡ b
          → (f.cached_blocks t).status ≢ cache_dirty)
      → f.blocks (f.alloc_map b) ≡ content b
  pub apart :
      (a b : ℕ) → a < f.total_blocks → b < f.total_blocks → f.alloc_map a ≡ f.alloc_map b → a ≡ b
  pub slot : f.overwritten_slot ≤ max_cached_blocks

-- No slot has the block.
abbrev pub Uncached : Echfs → ℕ → Type 0
Uncached f b =
    (t : ℕ)
    → t < max_cached_blocks
    → ((f.cached_blocks t).block ≢ b) ⊎ ((f.cached_blocks t).status ≡ 0)

-- The block of a dirty slot is written to the device.
abbrev pub written_back : Echfs → ℕ → Echfs
written_back f t = record f {
  blocks = with_at f.blocks (f.alloc_map (f.cached_blocks t).block) (f.cached_blocks t).cache;
}

module _ (f : Echfs) (content : ℕ → Block) (r : Represents f content) where
  pub written_back-Represents :
      (t : ℕ)
      → t < max_cached_blocks
      → (f.cached_blocks t).status ≡ cache_dirty
      → Represents (written_back f t) content
        × ((written_back f t).blocks (f.alloc_map (f.cached_blocks t).block)
            ≡ content (f.cached_blocks t).block)
  written_back-Represents t l dirty =
      let live : (f.cached_blocks t).status ≢ 0 = ground (arith, dirty) in
      let it = r.cached t l live in
      let own = (f.cached_blocks t).block in
      (
        record {
          cached = r.cached;
          inside = r.inside;
          unique = r.unique;
          clean = λ b u no_dirty. elim (Bool-cases (f.alloc_map b == f.alloc_map own)) [
            | inl e ↦
                let same : b ≡ own = r.apart b own u (r.inside t l live) (ground (arith, e)) in
                rw (e) (it ∙ ap content (sym same))
            | inr e ↦ rw (e) (r.clean b u no_dirty)
          ];
          apart = r.apart;
          slot = r.slot;
        },
        ground (arith, it),
      )

  -- A slot gets a block that none has, its own block being on the device.
  pub load_block-Represents :
      (t b : ℕ)
      → t < max_cached_blocks
      → b < f.total_blocks
      → Uncached f b
      → ((f.cached_blocks t).status ≡ cache_dirty
          → f.blocks (f.alloc_map (f.cached_blocks t).block) ≡ content (f.cached_blocks t).block)
      → Represents (load_block t b f) content
  unfolding load_block
  load_block-Represents t b l u uncached back =
      let fresh : f.blocks (f.alloc_map b) ≡ content b =
        r.clean b u (λ v m e. ground (arith, e, uncached v m)) in
      record {
        cached = λ v m live. ground (arith, live, fresh, r.cached v m);
        inside = λ v m live. ground (arith, live, u, r.inside v m);
        unique = λ v w m n live live' e.
            ground (arith, live, live', e, uncached v m, uncached w n, r.unique v w m n);
        clean = λ c m no_dirty.
            elim (Bool-cases
              ((f.cached_blocks t).block == c && (f.cached_blocks t).status == cache_dirty)) [
                | inl lost ↦
                    let here : (f.cached_blocks t).block ≡ c = ground (arith, lost) in
                    subst (λ k. f.blocks (f.alloc_map k) ≡ content k) here
                      (back (ground (arith, lost)))
                | inr kept ↦ r.clean c m (λ v n e. ground (arith, kept, e, no_dirty v n))
              ];
        apart = r.apart;
        slot = r.slot;
      }

  -- The block of a slot is changed in the slot.
  pub patched_Represents :
      (t : ℕ) (v : Block) (changed : Bool)
      → t < max_cached_blocks
      → (f.cached_blocks t).status ≢ 0
      → Represents
          (record f {
            cached_blocks =
                with_at f.cached_blocks t
                  (record (f.cached_blocks t) { cache = v; status = cache_dirty });
            changed_cache = changed;
          })
          (with_at content (f.cached_blocks t).block v)
  patched_Represents t v changed l live = record {
    cached = λ u m on. ground (arith, on, live, r.cached u m, r.unique u t m l);
    inside = λ u m on. ground (arith, on, live, r.inside u m, r.inside t l);
    unique = λ u w m n on on' e. ground (arith, on, on', e, live, r.unique u w m n);
    clean = λ c m no_dirty. elim (Bool-cases (c == (f.cached_blocks t).block)) [
      | inl e ↦ absurd (no_dirty t l (ground (arith, e)) (ground arith))
      | inr e ↦ rw (e) (r.clean c m (λ u n same. ground (arith, same, e, no_dirty u n)))
    ];
    apart = r.apart;
    slot = r.slot;
  }

pub find_from_lem :
    (slots : ℕ → CachedBlock) (b rounds i : ℕ)
    → ((find_from slots b rounds i ≡ none)
        × ((t : ℕ) → i ≤ t → t < i + rounds → ((slots t).block ≢ b) ⊎ ((slots t).status ≡ 0)))
      ⊎ ((t : ℕ) × (find_from slots b rounds i ≡ some t)
          × (t < i + rounds)
          × ((slots t).block ≡ b)
          × ((slots t).status ≢ 0))
unfolding find_from
find_from_lem slots b zero i = inl (refl, λ t l u. absurd (omega (arith, l, u)))
find_from_lem slots b (suc rounds) i =
    elim (Bool-cases ((slots i).block == b && not ((slots i).status == 0))) [
      | inl hit ↦ inr (i, rw hit refl, omega arith, ground (arith, hit), ground (arith, hit))
      | inr miss ↦ elim (find_from_lem slots b rounds (i + 1)) [
        | inl (e, all) ↦ inl (rw miss e, λ t l u. ground (arith, miss, l, u, all t))
        | inr (t, e, u, same, on) ↦ inr (t, rw miss e, omega (arith, u), same, on)
      ]
    ]

pub empty_from_lem :
    (slots : ℕ → CachedBlock) (rounds i : ℕ)
    → (empty_from slots rounds i ≡ none)
      ⊎ ((t : ℕ) × (empty_from slots rounds i ≡ some t) × (t < i + rounds) × ((slots t).status ≡ 0))
unfolding empty_from
empty_from_lem slots zero i = inl refl
empty_from_lem slots (suc rounds) i = elim (Bool-cases ((slots i).status == 0)) [
  | inl free ↦ inr (i, rw free refl, omega arith, ground (arith, free))
  | inr taken ↦ elim (empty_from_lem slots rounds (i + 1)) [
    | inl e ↦ inl (rw taken e)
    | inr (t, e, u, free) ↦ inr (t, rw taken e, omega (arith, u), free)
  ]
]
