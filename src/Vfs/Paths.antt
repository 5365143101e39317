-- ===== src/Vfs/Paths.antt =====
-- `vfs_get_absolute_path` of root/src/kernel/fd/vfs/vfs.c: the resolution of a path in a buffer.
--
-- The buffer is what its bytes hold, counted from `orig_ptr`; its size is not checked by the code and
-- is not modelled. A result of `none` reads a byte before the buffer.
pub mod Buffers
pub mod Steps
pub mod Starts
pub mod Resolve
pub mod Absolute
mod Tests
use qword.Prelude.{
  ℕ, zero, suc, ◌+◌, ◌-◌, ◌==◌, ◌&&◌, ◌||◌, Bool, true, false, not, if◌then◌else◌, Option, none,
  some, ◌>>=◌, List, [], ◌∷◌, length, drop,
}
use qword.Klib.{Mem, store}
use qword.Vfs.{Text}

-- `!strncmp(path, s, strlen(s))`, where `s` may end in a zero, that of the path.
abbrev pub is_at : Text → Text → Bool
is_at [] path = true
is_at (c ∷ s) [] = c == 0
is_at (c ∷ s) (d ∷ path) = c == d && is_at s path

-- `while (*path_ptr != '/') path_ptr--;`
unfoldable pub back : Mem → ℕ → Option ℕ
back buf zero = if buf 0 == 47 then some 0 else none
back buf (suc ptr) = let rest = back buf ptr in if buf (suc ptr) == 47 then some (suc ptr) else rest

-- To the slash before the last component, or behind it where it is the root.
unfoldable pub ascend : Mem → ℕ → Option ℕ
ascend buf ptr = do slash ← back buf ptr; some (if slash == 0 then 1 else slash)

-- How a round goes on: with the path that is left and the place behind what is written, or at `term`.
pub data Round : Type 0 where
  continue : Text → Mem → ℕ → Round
  term : Mem → ℕ → Round
  outside : Round

abbrev pub at_parent : Option ℕ → (ℕ → Round) → Round
at_parent none f = outside
at_parent (some ptr) f = f ptr

-- The lines at `first_run`, at the start of a component. A place at the start of the buffer, which only
-- an empty `pwd` leads to, is taken as outside whatever the path is.
unfoldable pub first_run : Text → Mem → ℕ → Round
first_run path buf zero = outside
first_run path buf (suc before) =
    let ptr = suc before in
    if is_at (47 ∷ []) path
    then continue path buf ptr
    else if is_at (46 ∷ 0 ∷ []) path || is_at (46 ∷ 47 ∷ 0 ∷ []) path
    then term buf ptr
    else if is_at (46 ∷ 46 ∷ 0 ∷ []) path || is_at (46 ∷ 46 ∷ 47 ∷ 0 ∷ []) path
    then at_parent (ascend buf ptr) (λ p. term buf p)
    else if is_at (46 ∷ 46 ∷ 47 ∷ []) path
    then at_parent (ascend buf ptr) (λ p. continue (drop 2 path) (store buf p 0) p)
    else if is_at (46 ∷ 47 ∷ []) path
    then continue (drop 1 path) buf ptr
    else if not (before == 0) && not (buf before == 47)
    then continue path (store buf ptr 47) (ptr + 1)
    else continue path buf ptr

-- The switch.
unfoldable pub round : Text → Mem → ℕ → Round
round [] buf ptr = term buf ptr
round (c ∷ path) buf ptr =
    if c == 47 then first_run path buf ptr else continue path (store buf ptr c) (ptr + 1)

-- The lines at `term`.
unfoldable pub finish : Mem → ℕ → Option Mem
finish buf zero = none
finish buf (suc before) =
    some (store buf (if buf before == 47 && not (before == 0) then before else suc before) 0)

unfoldable pub loop : ℕ → Round → Option Mem
loop fuel outside = none
loop fuel (term buf ptr) = finish buf ptr
loop zero (continue path buf ptr) = none
loop (suc fuel) (continue path buf ptr) = loop fuel (round path buf ptr)

-- `strcpy`, at an index of the buffer.
unfoldable pub put_text : Mem → ℕ → Text → Mem
put_text buf i [] = store buf i 0
put_text buf i (c ∷ s) = put_text (store buf i c) (i + 1) s

-- Each round moves on in the path by a byte at least, but the one that ends it.
unfoldable pub vfs_get_absolute_path : Mem → Text → Text → Option Mem
vfs_get_absolute_path buf [] pwd = some (put_text buf 0 pwd)
vfs_get_absolute_path buf (c ∷ path) pwd =
    let relative = first_run (c ∷ path) (put_text buf 0 pwd) (length pwd) in
    let absolute = first_run path (store buf 0 47) 1 in
    loop (length (c ∷ path) + 1) (if not (c == 47) then relative else absolute)
