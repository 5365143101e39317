-- ===== src/Vfs/Paths/Tests.antt =====
-- Paths in a clean buffer and in a used one, for root/src/kernel/fd/vfs/vfs.c.
use qword.Prelude.{◌==◌, if◌then◌else◌, [], ◌∷◌, ◌≡◌, refl, arith}
use qword.Klib.{Mem}
use qword.Vfs.{Text}
use qword.Vfs.Paths.{vfs_get_absolute_path}
use qword.Vfs.Paths.Buffers.{absolute}
use qword.Vfs.Paths.Steps.{Answer}
use qword.Vfs.Paths.Resolve.{resolve, joined}
use qword.Vfs.Paths.Absolute.{vfs_get_absolute_path_lem, vfs_get_absolute_path-stale}

abbrev a : Text
a = 97 ∷ []

abbrev b : Text
b = 98 ∷ []

abbrev two_dots : Text
two_dots = 46 ∷ 46 ∷ []

abbrev clean : Mem
clean j = 0

-- The byte behind "/a" is a slash.
abbrev used : Mem
used j = if j == 2 then 47 else 0

-- "../b/./" from "/a/b" is "/a/b".
resolved : resolve (b ∷ a ∷ []) (two_dots ∷ b ∷ (46 ∷ []) ∷ [] ∷ []) ≡ b ∷ a ∷ []
resolved = refl

vfs_get_absolute_path_lem_example :
    Answer
      (vfs_get_absolute_path clean
        (joined two_dots (b ∷ (46 ∷ []) ∷ [] ∷ []))
        (absolute (b ∷ a ∷ [])))
      (resolve (b ∷ a ∷ []) (two_dots ∷ b ∷ (46 ∷ []) ∷ [] ∷ []))
vfs_get_absolute_path_lem_example =
    vfs_get_absolute_path_lem clean (b ∷ a ∷ []) two_dots (b ∷ (46 ∷ []) ∷ [] ∷ []) (omega arith)
      (omega arith) (omega arith) (omega arith)

-- "/a/.."
vfs_get_absolute_path-stale_example :
    Answer (vfs_get_absolute_path used (47 ∷ joined a (two_dots ∷ [])) []) (a ∷ [])
vfs_get_absolute_path-stale_example = vfs_get_absolute_path-stale used [] a refl (omega arith) refl
