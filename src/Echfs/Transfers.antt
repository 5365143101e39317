-- ===== src/Echfs/Transfers.antt =====
-- The loop of `echfs_read` in root/src/kernel/fs/echfs/echfs.c on the bytes of a
-- file.
use qword.Prelude.{ℕ, zero, suc, ◌+◌, ◌-◌, ◌*◌, ◌/◌, ◌%◌, ◌<◌, ◌≤◌, leb, ltb, ◌&&◌, if◌then◌else◌}
use qword.Prelude.{true, false, Bool-cases, some}
use qword.Prelude.{◌≡◌, inl, inr, refl, sym, ap, subst, ◌∙◌, arith}
use native.Mathlib.Nat.{div-eq_of_lt-le, div-add-mod', div-lt_iff_lt-mul, mod-lt}
use qword.Klib.{Mem}
use qword.Echfs.{Block, Echfs, copy_out, chunk_at, read_loop}
use qword.Echfs.Cache.{Represents}
use qword.Echfs.Loads.{Found-cache, cached_slot_lem}

-- A byte of the file.
abbrev pub byte : (ℕ → Block) → ℕ → ℕ → ℕ
byte content bps x = content (x / bps) (x % bps)

-- Behind a place of the file, to the end of its block.
pub shift_lem :
    (bps x k : ℕ)
    → 0 < bps
    → k < bps - x % bps
    → ((x + k) / bps ≡ x / bps) × ((x + k) % bps ≡ x % bps + k)
shift_lem bps x k p l =
    let parts = div-add-mod' x bps in
    let q = x / bps in
    let next : (q + 1) * bps ≡ q * bps + bps = grind arith in
    let whole : (x + k) / bps ≡ q =
      div-eq_of_lt-le bps (omega (arith, parts)) (omega (arith, parts, next, l)) in
    let again : (x + k) / bps * bps + (x + k) % bps ≡ x + k = div-add-mod' (x + k) bps in
    let same : (x + k) / bps * bps ≡ q * bps = ap (λ (t : ℕ). t * bps) whole in
    (whole, omega (arith, parts, again, same))

pub chunk_lem :
    (bps at left : ℕ)
    → 0 < bps
    → 0 < left
    → (0 < chunk_at bps at left)
      × (chunk_at bps at left ≤ left)
      × (chunk_at bps at left ≤ bps - at % bps)
chunk_lem bps at left p l = ground (arith, p, l, mod-lt at p)

module _ (table bps ptr count : ℕ) (p : 0 < bps) where
  -- What a read of a chunk leaves in the buffer.
  copied :
      (content : ℕ → Block) (buf : Mem) (cache : Block) (progress chunk j : ℕ)
      → cache ≡ content ((ptr + progress) / bps)
      → chunk ≤ bps - (ptr + progress) % bps
      → progress ≤ j
      → j < progress + chunk
      → copy_out buf progress cache ((ptr + progress) % bps) chunk j ≡ byte content bps (ptr + j)
  copied content buf cache progress chunk j same fits l u =
      let at = ptr + progress in
      let (block, offset) = shift_lem bps at (j - progress) p (omega (arith, fits, l, u)) in
      let place : at + (j - progress) ≡ ptr + j = omega (arith, l) in
      let inside : (leb progress j && ltb j (progress + chunk)) ≡ true = ground (arith, l, u) in
      let here : byte content bps (ptr + j) ≡ content (at / bps) (at % bps + (j - progress)) =
        subst (λ x. byte content bps x ≡ content (at / bps) (at % bps + (j - progress))) place
          (rw (block, offset) refl) in
      rw (inside, same) (sym here)

  -- The bytes after a chunk and what the later rounds leave.
  read_bytes :
      (content : ℕ → Block) (buf buf' : Mem) (cache : Block) (progress chunk j : ℕ)
      → cache ≡ content ((ptr + progress) / bps)
      → chunk ≤ bps - (ptr + progress) % bps
      → chunk ≤ count - progress
      → buf' j ≡ (
          if leb (progress + chunk) j && ltb j count
          then byte content bps (ptr + j)
          else copy_out buf progress cache ((ptr + progress) % bps) chunk j)
      → buf' j ≡ (if leb progress j && ltb j count then byte content bps (ptr + j) else buf j)
  read_bytes content buf buf' cache progress chunk j same fits few rest =
      elim (Bool-cases (leb progress j && ltb j (progress + chunk))) [
        | inl here ↦
            let it =
              copied content buf cache progress chunk j same fits (ground (arith, here))
                (ground (arith, here)) in
            let later : (leb (progress + chunk) j && ltb j count) ≡ false = ground (arith, here) in
            let now : (leb progress j && ltb j count) ≡ true = ground (arith, here, few) in
            rw (now) (rest ∙ rw (later) it)
        | inr other ↦ elim (Bool-cases (leb (progress + chunk) j && ltb j count)) [
          | inl later ↦
              let now : (leb progress j && ltb j count) ≡ true = ground (arith, later) in
              rw (now) (rest ∙ rw (later) refl)
          | inr later ↦
              let now : (leb progress j && ltb j count) ≡ false =
                ground (arith, later, other, few) in
              rw (now) (rest ∙ rw (later, other) refl)
        ]
      ]

  pub read_loop_lem :
      (rounds progress : ℕ) (buf : Mem) (f : Echfs) (content : ℕ → Block)
      → Represents f content
      → ptr + count ≤ f.total_blocks * bps
      → count - progress < rounds
      → (buf' : Mem) × (f' : Echfs) × (read_loop true table bps ptr count rounds progress buf f
          ≡ some (some buf', f'))
        × Represents f' content
        × ((j : ℕ)
            → buf' j
              ≡ (if leb progress j && ltb j count then byte content bps (ptr + j) else buf j))
  unfolding read_loop
  read_loop_lem zero progress buf f content r inside enough = absurd (omega (arith, enough))
  read_loop_lem (suc rounds) progress buf f content r inside enough =
      elim (Bool-cases (ltb progress count)) [
        | inr done ↦ (buf, f, rw done refl, r, λ j. ground (arith, done))
        | inl more ↦
            let at = ptr + progress in
            let chunk = chunk_at bps at (count - progress) in
            let (some_bytes, few, fits) =
              chunk_lem bps at (count - progress) p (ground (arith, more)) in
            let below : at / bps < f.total_blocks =
              (div-lt_iff_lt-mul p).1 (ground (arith, more, inside)) in
            let (t, g, found, ok) = cached_slot_lem table (at / bps) f content r below in
            let cache = (g.cached_blocks t).cache in
            let same : cache ≡ content (at / bps) = Found-cache f content (at / bps) t g ok in
            let buf1 = copy_out buf progress cache (at % bps) chunk in
            let (buf', f', goes, r', bytes) =
              read_loop_lem rounds (progress + chunk) buf1 g content ok.represents
                (rw (ok.total) inside) (omega (arith, enough, some_bytes)) in
            (
              buf',
              f',
              rw (more, found) goes,
              r',
              λ j. read_bytes content buf buf' cache progress chunk j same fits few (bytes j),
            )
      ]
