-- ===== src/Vfs/Paths/Absolute.antt =====
-- `vfs_get_absolute_path` of root/src/kernel/fd/vfs/vfs.c on every path, from a directory.
use qword.Prelude.{
  ℕ, suc, ◌+◌, ◌==◌, not, true, false, ◌-◌, some, inl, List, [], ◌∷◌, ◌++◌, length, length-append,
}
use qword.Prelude.{◌≡◌, ◌≢◌, refl, ◌∙◌, arith}
use qword.Klib.{Mem, store}
use qword.Vfs.{Text}
use qword.Vfs.Paths.{back, ascend, put_text, vfs_get_absolute_path}
use qword.Vfs.Paths.Buffers.{Holds-same, Names, absolute, Out}
use qword.Vfs.Paths.Steps.{
  Ends, Answer, finish_lem, loop-copy, chars, chars-before, chars-behind, chars-Holds,
}
use qword.Vfs.Paths.Starts.{
  Component, Component-Slashless, kind_of, name, name-IsName, first_run-name, first_run-parent,
}
use qword.Vfs.Paths.Resolve.{resolve, joined, Components, resolves, loop-slash, loop-term}

put_text_lem :
    (buf : Mem) (i : ℕ) (s : Text) → put_text buf i s ≡ store (chars buf i s) (i + length s) 0
unfolding put_text chars
put_text_lem buf i [] = let e : i + 0 ≡ i = omega arith in rw e refl
put_text_lem buf i (c ∷ s) =
    let e : i + suc (length s) ≡ i + 1 + length s = omega arith in
    rw (e) (put_text_lem (store buf i c) (i + 1) s)

-- The directory is copied with its zero.
put_text-Ends : (buf : Mem) (cs : List Text) → Ends (put_text buf 0 (absolute cs)) cs
put_text-Ends buf cs =
    let s = absolute cs in
    rw (put_text_lem buf 0 s) (record {
      text =
          Holds-same (chars buf 0 s) (store (chars buf 0 s) (0 + length s) 0) 0 s
            (λ j l. ground (arith, l)) (chars-Holds buf 0 s);
      ended = ground arith;
    })

put_text-Out :
    (buf : Mem) (cs : List Text)
    → ((j : ℕ) → buf j ≢ 47)
    → Out (put_text buf 0 (absolute cs)) (length (absolute cs)) cs
put_text-Out buf cs clean =
    let s = absolute cs in
    record {
      written = record { text = (put_text-Ends buf cs).text; size = refl };
      stale = λ j l. rw (put_text_lem buf 0 s) (ground (arith, l, chars-behind buf 0 s j, clean j));
    }

-- A path that begins with a slash is resolved from the root.
abbrev pub origin : List Text → Text → List Text → List Text
origin base [] (v ∷ ws) = []
origin base [] [] = base
origin base (c ∷ w) ws = base

-- In a buffer that holds no slash before, `vfs_get_absolute_path` leaves the string of the names that
-- the path resolves to, from the root if it begins with a slash and from the names of `pwd`
-- otherwise: nothing and "." stay, ".." leaves the last name, and at the root stays. It reads nothing
-- before the buffer.
pub vfs_get_absolute_path_lem :
    (buf : Mem) (base : List Text) (w : Text) (ws : List Text)
    → ((j : ℕ) → buf j ≢ 47)
    → Names base
    → Component w
    → Components ws
    → Answer
        (vfs_get_absolute_path buf (joined w ws) (absolute base))
        (resolve (origin base w ws) (w ∷ ws))
unfolding vfs_get_absolute_path
vfs_get_absolute_path_lem buf base [] [] clean names h hs = put_text-Ends buf base
vfs_get_absolute_path_lem buf base [] (v ∷ ws) clean names h hs =
    resolves v ws hs.0 hs.1 [] (length (47 ∷ joined v ws) + 1) (store buf 0 47) 1
      (record {
        written = record { text = (ground arith, tt); size = refl };
        stale = λ j l. ground (arith, l, clean j);
      })
      tt (omega arith)
vfs_get_absolute_path_lem buf base (c ∷ w) [] clean names h hs =
    let other : not (c == 47) ≡ true = ground (arith, h.0) in
    rw (other) (
      resolves (c ∷ w) [] h hs base (length (c ∷ w) + 1) (put_text buf 0 (absolute base))
        (length (absolute base)) (put_text-Out buf base clean) names (omega arith))
vfs_get_absolute_path_lem buf base (c ∷ w) (v ∷ ws) clean names h hs =
    let other : not (c == 47) ≡ true = ground (arith, h.0) in
    rw (other) (
      resolves (c ∷ w) (v ∷ ws) h hs base (length (joined (c ∷ w) (v ∷ ws)) + 1)
        (put_text buf 0 (absolute base)) (length (absolute base)) (put_text-Out buf base clean)
        names (omega arith))

ascend-here : (buf : Mem) (ptr : ℕ) → buf (suc ptr) ≡ 47 → ascend buf (suc ptr) ≡ some (suc ptr)
unfolding ascend back
ascend-here buf ptr slash =
    let inside : (suc ptr == 0) ≡ false = ground arith in rw (slash, inside) refl

-- Where the byte behind a name has been a slash in the buffer, ".." after the name does not leave
-- it: what is left is the name.
pub vfs_get_absolute_path-stale :
    (buf : Mem) (pwd w : Text)
    → kind_of w ≡ name
    → Component w
    → buf (suc (length w)) ≡ 47
    → Answer (vfs_get_absolute_path buf (47 ∷ joined w ((46 ∷ 46 ∷ []) ∷ [])) pwd) (w ∷ [])
unfolding vfs_get_absolute_path
vfs_get_absolute_path-stale buf pwd w k h slash =
    let begun = store buf 0 47 in
    let final = chars begun 1 w in
    let rest : Text = 47 ∷ 46 ∷ 46 ∷ [] in
    let fuel = length (47 ∷ (w ++ rest)) + 1 in
    let size = length-append w rest in
    let copied = loop-copy w rest fuel begun 1 (Component-Slashless w h) (omega (arith, size)) in
    let left : fuel - length w ≡ suc (fuel - length w - 1) = omega (arith, size) in
    let there : final (suc (length w)) ≡ 47 =
      chars-behind begun 1 w (suc (length w)) (omega arith) ∙ ground (arith, slash) in
    let place : 1 + length w ≡ suc (length w) = omega arith in
    let stays =
      first_run-parent final (suc (length w)) (suc (length w)) (omega arith)
        (ascend-here final (length w) there) in
    rw
      (
        first_run-name w rest begun 0 (inl k) h refl,
        copied,
        left,
        loop-slash (fuel - length w - 1) (46 ∷ 46 ∷ []) final (1 + length w),
        place,
        stays.0,
        loop-term (fuel - length w - 1) final (suc (length w)),
      )
      (finish_lem final (suc (length w)) (w ∷ [])
        (record {
          text = (chars-before begun 1 w 0 (omega arith) ∙ ground arith, chars-Holds begun 1 w);
          size = refl;
        })
        (name-IsName w k h, tt))
