-- ===== src/Echfs/Writes.antt =====
-- The loop of `echfs_write` in root/src/kernel/fs/echfs/echfs.c on the bytes of a file.
use qword.Prelude.{
  ℕ, zero, suc, ◌+◌, ◌-◌, ◌*◌, ◌/◌, ◌%◌, ◌<◌, ◌≤◌, ◌==◌, leb, ltb, ◌&&◌, if◌then◌else◌,
}
use qword.Prelude.{true, false, Bool-cases, some}
use qword.Prelude.{◌≡◌, inl, inr, refl, sym, ap, subst, ◌∙◌, arith}
use native.Mathlib.Nat.{div-add-mod', div-lt_iff_lt-mul}
use qword.Klib.{Mem}
use qword.Echfs.{Block, Echfs, with_at, copy_in, chunk_at, cache_dirty, write_loop}
use qword.Echfs.Cache.{Represents, patched_Represents}
use qword.Echfs.Loads.{Found-cache, cached_slot_lem}
use qword.Echfs.Transfers.{byte, shift_lem, chunk_lem}

module _ (table bps ptr count : ℕ) (p : 0 < bps) where
  -- The file after a chunk.
  abbrev patched : (ℕ → Block) → Block → Mem → ℕ → ℕ → ℕ → Block
  patched content cache buf progress chunk =
      with_at content ((ptr + progress) / bps)
        (copy_in cache ((ptr + progress) % bps) buf progress chunk)

  byte-patched :
      (content : ℕ → Block) (cache : Block) (buf : Mem) (progress chunk x : ℕ)
      → cache ≡ content ((ptr + progress) / bps)
      → chunk ≤ bps - (ptr + progress) % bps
      → byte (patched content cache buf progress chunk) bps x ≡ (
          if leb (ptr + progress) x && ltb x (ptr + progress + chunk)
          then buf (x - ptr)
          else byte content bps x)
  byte-patched content cache buf progress chunk x same fits =
      let at = ptr + progress in
      elim (Bool-cases (leb at x && ltb x (at + chunk))) [
        | inl here ↦
            let (block, offset) = shift_lem bps at (x - at) p (ground (arith, here, fits)) in
            let place : at + (x - at) ≡ x = ground (arith, here) in
            let block' : x / bps ≡ at / bps = subst (λ y. y / bps ≡ at / bps) place block in
            let offset' : x % bps ≡ at % bps + (x - at) =
              subst (λ y. y % bps ≡ at % bps + (x - at)) place offset in
            let hit : (x / bps == at / bps) ≡ true = ground (arith, block') in
            let within : (leb (at % bps) (x % bps) && ltb (x % bps) (at % bps + chunk)) ≡ true =
              ground (arith, offset', here) in
            let index : progress + (x % bps - at % bps) ≡ x - ptr = ground (arith, offset', here) in
            rw (here, hit, within, index) refl
        | inr other ↦ elim (Bool-cases (x / bps == at / bps)) [
          | inl block ↦
              let one : x / bps ≡ at / bps = ground (arith, block) in
              let start : x / bps * bps ≡ at / bps * bps = ap (λ (b : ℕ). b * bps) one in
              let outside : (leb (at % bps) (x % bps) && ltb (x % bps) (at % bps + chunk)) ≡ false =
                ground (arith, other, start, div-add-mod' x bps, div-add-mod' at bps) in
              rw (other, block, outside, same) (ap (λ b. content b (x % bps)) (sym one))
          | inr block ↦ rw (other, block) refl
        ]
      ]

  -- The bytes after a chunk and the later rounds.
  write_bytes :
      (content content' : ℕ → Block) (cache : Block) (buf : Mem) (progress chunk x : ℕ)
      → cache ≡ content ((ptr + progress) / bps)
      → chunk ≤ bps - (ptr + progress) % bps
      → chunk ≤ count - progress
      → byte content' bps x ≡ (
          if leb (ptr + (progress + chunk)) x && ltb x (ptr + count)
          then buf (x - ptr)
          else byte (patched content cache buf progress chunk) bps x)
      → byte content' bps x ≡ (
          if leb (ptr + progress) x && ltb x (ptr + count)
          then buf (x - ptr)
          else byte content bps x)
  write_bytes content content' cache buf progress chunk x same fits few rest =
      rest ∙ rw (byte-patched content cache buf progress chunk x same fits) (ground (arith, few))

  after_total :
      (f' g f : Echfs)
      → f'.total_blocks ≡ g.total_blocks
      → g.total_blocks ≡ f.total_blocks
      → f'.total_blocks ≡ f.total_blocks
  after_total f' g f a b = a ∙ b

  pub write_loop_lem :
      (rounds progress : ℕ) (buf : Mem) (f : Echfs) (content : ℕ → Block)
      → Represents f content
      → ptr + count ≤ f.total_blocks * bps
      → count - progress < rounds
      → (content' : ℕ → Block) × (f' : Echfs) × (write_loop true table bps ptr count rounds progress
            buf f
          ≡ some (true, f'))
        × Represents f' content'
        × (f'.total_blocks ≡ f.total_blocks)
        × ((x : ℕ)
            → byte content' bps x ≡ (
                if leb (ptr + progress) x && ltb x (ptr + count)
                then buf (x - ptr)
                else byte content bps x))
  unfolding write_loop
  write_loop_lem zero progress buf f content r inside enough = absurd (omega (arith, enough))
  write_loop_lem (suc rounds) progress buf f content r inside enough =
      elim (Bool-cases (ltb progress count)) [
        | inr done ↦ (content, f, rw done refl, r, refl, λ x. ground (arith, done))
        | inl more ↦
            let at = ptr + progress in
            let chunk = chunk_at bps at (count - progress) in
            let (some_bytes, few, fits) =
              chunk_lem bps at (count - progress) p (ground (arith, more)) in
            let below : at / bps < f.total_blocks =
              (div-lt_iff_lt-mul p).1 (ground (arith, more, inside)) in
            let (t, g, found, ok) = cached_slot_lem table (at / bps) f content r below in
            let cache = (g.cached_blocks t).cache in
            let same = Found-cache f content (at / bps) t g ok in
            let content1 = patched content cache buf progress chunk in
            let r1 =
              patched_Represents g content ok.represents t
                (copy_in cache (at % bps) buf progress chunk) true ok.in_range ok.live in
            let f1 : Echfs = record g {
              cached_blocks = with_at g.cached_blocks t (record (g.cached_blocks t) {
                cache = copy_in cache (at % bps) buf progress chunk;
                status = cache_dirty;
              });
              changed_cache = true;
            } in
            let r2 : Represents f1 content1 =
              subst
                (λ b.
                  Represents f1 (with_at content b (copy_in cache (at % bps) buf progress chunk)))
                ok.block r1 in
            let (content', f', goes, r', total, bytes) =
              write_loop_lem rounds (progress + chunk) buf f1 content1 r2 (rw (ok.total) inside)
                (omega (arith, enough, some_bytes)) in
            (
              content',
              f',
              rw (more, found) goes,
              r',
              after_total f' f1 f total ok.total,
              λ x. write_bytes content content' cache buf progress chunk x same fits few (bytes x),
            )
      ]
