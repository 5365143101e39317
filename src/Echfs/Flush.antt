-- ===== src/Echfs/Flush.antt =====
-- `synchronise_cached_file` of root/src/kernel/fs/echfs/echfs.c brings the file to the device.
use qword.Prelude.{
  ℕ, zero, suc, ◌+◌, ◌<◌, ◌≤◌, ◌==◌, if◌then◌else◌, not, ◌&&◌, Bool, true, false, Bool-cases,
}
use qword.Prelude.{◌≡◌, ◌≢◌, inl, inr, refl, ap, subst, ◌∙◌, arith}
use qword.Echfs.{
  Block, CachedBlock, Echfs, max_cached_blocks, cache_ready, cache_dirty, with_at, flush_from,
  flush, write_entry, synchronise_cached_file,
}
use qword.Echfs.Cache.{Represents, written_back, written_back-Represents}

-- A slot written back is not dirty.
abbrev flushed : Echfs → ℕ → Echfs
flushed f t = record (written_back f t) {
  cached_blocks = with_at f.cached_blocks t (record (f.cached_blocks t) { status = cache_ready });
}

flushed-Represents :
    (f : Echfs) (content : ℕ → Block) (t : ℕ)
    → Represents f content
    → t < max_cached_blocks
    → (f.cached_blocks t).status ≡ cache_dirty
    → Represents (flushed f t) content
flushed-Represents f content t r l dirty =
    let (r', back) = written_back-Represents f content r t l dirty in
    record {
      cached = λ u m on. ground (arith, on, dirty, r.cached u m);
      inside = λ u m on. ground (arith, on, dirty, r.inside u m);
      unique = λ u w m n on on' e. ground (arith, on, on', e, dirty, r.unique u w m n);
      clean = λ b m no_dirty. elim (Bool-cases ((f.cached_blocks t).block == b)) [
        | inl e ↦
            subst (λ k. (written_back f t).blocks (f.alloc_map k) ≡ content k) (ground (arith, e))
              back
        | inr e ↦ r'.clean b m (λ u n same. ground (arith, same, e, no_dirty u n))
      ];
      apart = r.apart;
      slot = r.slot;
    }

-- What the loop leaves.
record Flushed (f : Echfs) (content : ℕ → Block) (i rounds : ℕ) (g : Echfs) : Type 0 where
  pub represents : Represents g content
  pub ready : (t : ℕ) → i ≤ t → t < i + rounds → (g.cached_blocks t).status ≢ cache_dirty
  pub rest : (t : ℕ) → t < i → g.cached_blocks t ≡ f.cached_blocks t
  pub total : g.total_blocks ≡ f.total_blocks
  pub map : g.alloc_map ≡ f.alloc_map
  pub saved : g.saved ≡ f.saved

flush_from_lem :
    (rounds i : ℕ) (f : Echfs) (content : ℕ → Block)
    → Represents f content
    → i + rounds ≤ max_cached_blocks
    → Flushed f content i rounds (flush_from rounds i f)
unfolding flush_from
flush_from_lem zero i f content r l = record {
  represents = r;
  ready = λ t a b. absurd (omega (arith, a, b));
  rest = λ t a. refl;
  total = refl;
  map = refl;
  saved = refl;
}
flush_from_lem (suc rounds) i f content r l =
    elim (Bool-cases ((f.cached_blocks i).status == cache_dirty)) [
      | inl dirty ↦
          let r' = flushed-Represents f content i r (omega (arith, l)) (ground (arith, dirty)) in
          let rest = flush_from_lem rounds (i + 1) (flushed f i) content r' (omega (arith, l)) in
          rw (dirty) (record {
            represents = rest.represents;
            ready = λ t a b. elim (Bool-cases (t == i)) [
              | inl e ↦ λ d.
                  ground
                    (arith, d, e, ap (λ (s : CachedBlock). s.status) (rest.rest i (omega arith)))
              | inr e ↦ rest.ready t (ground (arith, e, a)) (omega (arith, b))
            ];
            rest = λ t a. rest.rest t (omega (arith, a)) ∙ ground (arith, a);
            total = rest.total;
            map = rest.map;
            saved = rest.saved;
          })
      | inr clean ↦
          let rest = flush_from_lem rounds (i + 1) f content r (omega (arith, l)) in
          rw (clean) (record {
            represents = rest.represents;
            ready = λ t a b. elim (Bool-cases (t == i)) [
              | inl e ↦ λ d. ground (
                arith,
                d,
                e,
                clean,
                ap (λ (s : CachedBlock). s.status) (rest.rest i (omega arith)),
              )
              | inr e ↦ rest.ready t (ground (arith, e, a)) (omega (arith, b))
            ];
            rest = λ t a. rest.rest t (omega (arith, a));
            total = rest.total;
            map = rest.map;
            saved = rest.saved;
          })
    ]

abbrev pub entry_of : Echfs → ℕ × ℕ
entry_of f = (f.payload, f.size)

-- The device has every block of the file and the entry, and the cache is not marked as changed.
abbrev pub Synchronised : Echfs → (ℕ → Block) → Echfs → Type 0
Synchronised f content g =
    Represents g content
    × (g.changed_cache ≡ false)
    × ((b : ℕ) → b < f.total_blocks → g.blocks (f.alloc_map b) ≡ content b)
    × (g.saved ≡ entry_of f)

-- The cache is marked as changed where a slot is dirty, and the entry where it is not on the device.
pub record Marked (f : Echfs) : Type 0 where
  pub cache :
      f.changed_cache ≡ false
      → (t : ℕ) → t < max_cached_blocks
      → (f.cached_blocks t).status ≢ cache_dirty
  pub entry : f.changed_entry ≡ false → f.saved ≡ entry_of f

with_marks :
    (f : Echfs) (content : ℕ → Block) (cache entry : Bool) (saved : ℕ × ℕ)
    → Represents f content
    → Represents (record f { changed_cache = cache; changed_entry = entry; saved = saved }) content
with_marks f content cache entry saved r = record {
  cached = r.cached;
  inside = r.inside;
  unique = r.unique;
  clean = r.clean;
  apart = r.apart;
  slot = r.slot;
}

flush_lem :
    (f : Echfs) (content : ℕ → Block) (changed : Bool)
    → Represents f content
    → (changed ≡ false
        → (f.changed_cache ≡ false)
          × ((t : ℕ) → t < max_cached_blocks → (f.cached_blocks t).status ≢ cache_dirty))
    → f.saved ≡ entry_of f
    → Synchronised f content
        (if changed then record (flush_from max_cached_blocks 0 f) { changed_cache = false } else f)
flush_lem f content true r marked current =
    let l = flush_from_lem max_cached_blocks 0 f content r (omega arith) in
    let g = flush_from max_cached_blocks 0 f in
    (
      with_marks g content false g.changed_entry g.saved l.represents,
      refl,
      (λ b u.
          subst (λ m. g.blocks (m b) ≡ content b) l.map
            (l.represents.clean b (rw (l.total) u)
              (λ t m e. l.ready t (omega arith) (omega (arith, m))))),
      l.saved ∙ current,
    )
flush_lem f content false r marked current =
    (r, (marked refl).0, (λ b u. r.clean b u (λ t m e. (marked refl).1 t m)), current)

synchronised :
    (f : Echfs) (content : ℕ → Block) (changed : Bool)
    → Represents f content
    → Marked f
    → (changed ≡ false → f.changed_entry ≡ false)
    → Synchronised f content (
        flush
          (if changed then record f { saved = (f.payload, f.size); changed_entry = false } else f))
unfolding flush
synchronised f content true r marked same =
    flush_lem (record f { saved = entry_of f; changed_entry = false }) content f.changed_cache
      (with_marks f content f.changed_cache false (entry_of f) r) (λ e. (e, marked.cache e)) refl
synchronised f content false r marked same =
    flush_lem f content f.changed_cache r (λ e. (e, marked.cache e)) (marked.entry (same refl))

-- The two tests of the call, taken apart from the file.
tested :
    (f : Echfs) (content : ℕ → Block) (regular unlinked : Bool)
    → Represents f content
    → Marked f
    → regular ≡ true
    → unlinked ≡ false
    → let g : Echfs =
        if not unlinked && f.changed_entry
        then record f { saved = (f.payload, f.size); changed_entry = false }
        else f in
      Synchronised f content (if regular then flush g else g)
tested f content true false r marked _ _ = synchronised f content f.changed_entry r marked (λ e. e)
tested f content false _ r marked wrong _ = absurd (ground (arith, wrong))
tested f content true true r marked _ wrong = absurd (ground (arith, wrong))

-- For a file that is not deleted, marked as changed where its cache or its entry is not on the
-- device: afterwards the device has every block of the file and its entry, the file is the same, and
-- the cache is not marked.
pub synchronise_cached_file_lem :
    (f : Echfs) (content : ℕ → Block)
    → Represents f content
    → Marked f
    → f.regular ≡ true
    → f.unlinked ≡ false
    → Synchronised f content (synchronise_cached_file f)
unfolding synchronise_cached_file write_entry
synchronise_cached_file_lem f content r marked regular linked =
    tested f content f.regular f.unlinked r marked regular linked
