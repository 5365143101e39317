-- ===== src/Klib/Strings.antt =====
-- The string routines of root/src/kernel/lib/klib.c. A string is the address of its first byte.
--
-- A loop that runs to the terminating zero takes fuel, and is `none` where the fuel runs out; with a
-- string of fewer bytes than the fuel it never is.
pub mod Length
pub mod Compare
pub mod CopyString
use qword.Prelude.{ℕ, zero, suc, ◌+◌, ◌==◌, leb, not, if◌then◌else◌, ◌&&◌, Option, none, some}
use qword.Klib.{Mem, store}

pub strlen_from : Mem → ℕ → ℕ → ℕ → Option ℕ
strlen_from mem str zero len = none
strlen_from mem str (suc fuel) len =
    let rest = strlen_from mem str fuel (len + 1) in if mem (str + len) == 0 then some len else rest

unfoldable pub strlen : ℕ → Mem → ℕ → Option ℕ
strlen fuel mem str = strlen_from mem str fuel 0

pub strcpy_from : Mem → ℕ → ℕ → ℕ → ℕ → Option Mem
strcpy_from mem dest src zero i = none
strcpy_from mem dest src (suc fuel) i =
    let rest = strcpy_from (store mem (dest + i) (mem (src + i))) dest src fuel (i + 1) in
    if mem (src + i) == 0 then some (store mem (dest + i) 0) else rest

unfoldable pub strcpy : ℕ → Mem → ℕ → ℕ → Option Mem
strcpy fuel mem dest src = strcpy_from mem dest src fuel 0

-- It copies `cnt` bytes, whatever they are, and adds no zero.
pub strncpy_from : Mem → ℕ → ℕ → ℕ → ℕ → Mem
strncpy_from mem dest src i zero = mem
strncpy_from mem dest src i (suc rounds) =
    strncpy_from (store mem (dest + i) (mem (src + i))) dest src (i + 1) rounds

unfoldable pub strncpy : Mem → ℕ → ℕ → ℕ → Mem
strncpy mem dest src cnt = strncpy_from mem dest src 0 cnt

-- 0 for equal strings, 1 for others.
pub strcmp_from : Mem → ℕ → ℕ → ℕ → ℕ → Option ℕ
strcmp_from mem dst src zero i = none
strcmp_from mem dst src (suc fuel) i =
    let rest = strcmp_from mem dst src fuel (i + 1) in
    if mem (dst + i) == mem (src + i)
    then (if mem (dst + i) == 0 && mem (src + i) == 0 then some 0 else rest)
    else some 1

unfoldable pub strcmp : ℕ → Mem → ℕ → ℕ → Option ℕ
strcmp fuel mem dst src = strcmp_from mem dst src fuel 0

-- It compares `count` bytes, also behind a zero.
pub strncmp_from : Mem → ℕ → ℕ → ℕ → ℕ → ℕ
strncmp_from mem dst src i zero = 0
strncmp_from mem dst src i (suc rounds) =
    let rest = strncmp_from mem dst src (i + 1) rounds in
    if not (mem (dst + i) == mem (src + i)) then 1 else rest

unfoldable pub strncmp : Mem → ℕ → ℕ → ℕ → ℕ
strncmp mem dst src count = strncmp_from mem dst src 0 count

-- `while (*s) if ((*s++) == c) break;`: the pointer is moved on before the loop is left.
unfoldable pub strchrnul : ℕ → Mem → ℕ → ℕ → Option ℕ
strchrnul zero mem s c = none
strchrnul (suc fuel) mem s c =
    let rest = strchrnul fuel mem (s + 1) c in
    if mem s == 0 then some s else (if mem s == c then some (s + 1) else rest)

pub tolower : ℕ → ℕ
tolower c = if leb 0x41 c && leb c 0x5a then c + 0x20 else c
