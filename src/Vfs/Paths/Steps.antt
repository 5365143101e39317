-- ===== src/Vfs/Paths/Steps.antt =====
-- The end of `vfs_get_absolute_path` and the copy of a name, on what the buffer holds.
use qword.Prelude.{ℕ, zero, suc, ◌+◌, ◌-◌, ◌<◌, ◌≤◌}
use qword.Prelude.{Option, none, some, List, [], ◌∷◌, ◌++◌, length, length-append}
use qword.Prelude.{◌≡◌, ◌≢◌, ◌⊎◌, inl, inr, refl, sym, ap, subst, ◌∙◌, arith}
use qword.Klib.{Mem, store}
use qword.Vfs.{Text}
use qword.Vfs.Paths.{continue, finish, loop, round}
use qword.Vfs.Paths.Buffers.{
  Holds, Holds-same, Holds-++, Slashless, IsName, Names, spelled, absolute, Written, Out, top,
}

-- The buffer holds the names as a string.
pub record Ends (buf : Mem) (cs : List Text) : Type 0 where
  pub text : Holds buf 0 (absolute cs)
  pub ended : buf (length (absolute cs)) ≡ 0

abbrev pub Answer : Option Mem → List Text → Type 0
Answer none cs = ⊥
Answer (some buf) cs = Ends buf cs

written-Ends :
    (buf buf' : Mem) (ptr : ℕ) (cs : List Text)
    → Written buf ptr cs
    → ((j : ℕ) → j < ptr → buf' j ≡ buf j)
    → buf' ptr ≡ 0
    → Ends buf' cs
written-Ends buf buf' ptr cs out same zero_there = record {
  text = Holds-same buf buf' 0 (absolute cs) (λ j l. same j (omega (arith, l, out.size))) out.text;
  ended = subst (λ k. buf' k ≡ 0) out.size zero_there;
}

-- Where the last byte is no slash, or the only one, it stays.
finish-plain :
    (buf : Mem) (before : ℕ)
    → (buf before ≢ 47) ⊎ (before ≡ 0)
    → finish buf (suc before) ≡ some (store buf (suc before) 0)
unfolding finish
finish-plain buf before plain = ground arith

pub last_byte :
    (buf : Mem) (ptr : ℕ) (cs : List Text)
    → Written buf ptr cs
    → Names cs
    → (before : ℕ) × (ptr ≡ suc before) × ((buf before ≢ 47) ⊎ (before ≡ 0))
last_byte buf ptr [] out names = (0, out.size, inr refl)
last_byte buf ptr (w ∷ cs) out names =
    let last = top buf ptr w cs out names.0 in
    (
      ptr - 1,
      omega (arith, last.room),
      inl (last.behind (ptr - 1) (omega (arith, last.room)) (omega (arith, last.room))),
    )

pub finish_lem :
    (buf : Mem) (ptr : ℕ) (cs : List Text)
    → Written buf ptr cs
    → Names cs
    → Answer (finish buf ptr) cs
finish_lem buf ptr cs out names =
    let (before, size, plain) = last_byte buf ptr cs out names in
    rw (size, finish-plain buf before plain)
      (written-Ends buf (store buf (suc before) 0) ptr cs out (λ j l. ground (arith, l, size))
        (ground (arith, size)))

finish-taken : (buf : Mem) (n : ℕ) → buf n ≡ 47 → n ≢ 0 → finish buf (suc n) ≡ some (store buf n 0)
unfolding finish
finish-taken buf n slash some_names = ground (arith, slash, some_names)

-- A slash behind the names is taken off.
pub finish-slash :
    (buf : Mem) (n : ℕ) (cs : List Text)
    → Written buf n cs
    → buf n ≡ 47
    → n ≢ 0
    → Answer (finish buf (suc n)) cs
finish-slash buf n cs out slash some_names =
    rw (finish-taken buf n slash some_names)
      (written-Ends buf (store buf n 0) n cs out (λ j l. ground (arith, l)) (ground arith))

-- A name at an index of the buffer.
unfoldable pub chars : Mem → ℕ → Text → Mem
chars buf i [] = buf
chars buf i (c ∷ s) = chars (store buf i c) (i + 1) s

pub chars-before : (buf : Mem) (i : ℕ) (s : Text) (j : ℕ) → j < i → chars buf i s j ≡ buf j
unfolding chars
chars-before buf i [] j l = refl
chars-before buf i (c ∷ s) j l =
    chars-before (store buf i c) (i + 1) s j (omega (arith, l)) ∙ ground (arith, l)

pub chars-behind :
    (buf : Mem) (i : ℕ) (s : Text) (j : ℕ) → i + length s ≤ j → chars buf i s j ≡ buf j
unfolding chars
chars-behind buf i [] j l = refl
chars-behind buf i (c ∷ s) j l =
    chars-behind (store buf i c) (i + 1) s j (omega (arith, l)) ∙ ground (arith, l)

pub chars-Holds : (buf : Mem) (i : ℕ) (s : Text) → Holds (chars buf i s) i s
unfolding chars
chars-Holds buf i [] = tt
chars-Holds buf i (c ∷ s) = (
  chars-before (store buf i c) (i + 1) s i (omega arith) ∙ ground arith,
  chars-Holds (store buf i c) (i + 1) s,
)

pub loop-copy :
    (s path : Text) (fuel : ℕ) (buf : Mem) (ptr : ℕ)
    → Slashless s
    → length s ≤ fuel
    → loop fuel (continue (s ++ path) buf ptr)
      ≡ loop (fuel - length s) (continue path (chars buf ptr s) (ptr + length s))
unfolding loop round chars
loop-copy [] path fuel buf ptr free enough =
    let a : fuel - 0 ≡ fuel = omega arith in let b : ptr + 0 ≡ ptr = omega arith in rw (a, b) refl
loop-copy (c ∷ s) path zero buf ptr free enough = absurd (omega (arith, enough))
loop-copy (c ∷ s) path (suc fuel) buf ptr free enough =
    let step : round (c ∷ s ++ path) buf ptr ≡ continue (s ++ path) (store buf ptr c) (ptr + 1) =
      ground (arith, free.0) in
    let a : suc fuel - suc (length s) ≡ fuel - length s = omega arith in
    let b : ptr + suc (length s) ≡ ptr + 1 + length s = omega arith in
    ap (loop fuel) step
    ∙ rw (a, b) (loop-copy s path fuel (store buf ptr c) (ptr + 1) free.1 (omega (arith, enough)))

-- A name is added behind a slash.
pub chars-Out :
    (buf slashed : Mem) (ptr : ℕ) (w : Text) (cs : List Text)
    → Out buf ptr cs
    → Holds buf 0 (spelled cs)
    → IsName w
    → slashed (length (spelled cs)) ≡ 47
    → ((j : ℕ) → j < length (spelled cs) → slashed j ≡ buf j)
    → ((j : ℕ) → length (spelled cs) < j → slashed j ≢ 47)
    → Out (chars slashed (length (spelled cs) + 1) w) (length (spelled cs) + 1 + length w) (w ∷ cs)
chars-Out buf slashed ptr w cs out below name slash same stale =
    let n = length (spelled cs) in
    let final = chars slashed (n + 1) w in
    let front : Holds final 0 (spelled cs) =
      Holds-same buf final 0 (spelled cs)
        (λ j l. chars-before slashed (n + 1) w j (omega (arith, l)) ∙ same j (omega (arith, l)))
        below in
    let at_slash : final n ≡ 47 = chars-before slashed (n + 1) w n (omega arith) ∙ slash in
    record {
      written = record {
        text = Holds-++ final 0 (spelled cs) (47 ∷ w) front (
            subst (λ k. Holds final k (47 ∷ w)) (omega arith)
              (let it : Holds final n (47 ∷ w) = (at_slash, chars-Holds slashed (n + 1) w) in it));
        size = omega (arith, length-append (spelled cs) (47 ∷ w));
      };
      stale = λ j l same_byte.
          stale j (omega (arith, l)) (sym (chars-behind slashed (n + 1) w j l) ∙ same_byte);
    }
