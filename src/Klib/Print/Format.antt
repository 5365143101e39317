-- ===== src/Klib/Print/Format.antt =====
-- `kvprint` and `print_timestamp` of root/src/kernel/lib/klib.c: the format of the kernel log.
--
-- The arguments are a list of values, each with the type that it was passed with; `none` stands for
-- what C leaves undefined: a conversion with no argument of its type, a read behind a string, and a format that ends in a
-- percent sign, behind which `kvprint` reads on.
pub mod Text
use qword.Prelude.{ℕ, ◌+◌, ◌-◌, ◌%◌, ◌==◌, leb, length, if◌then◌else◌, true, false}
use qword.Prelude.{List, [], ◌∷◌, Option, none, some}
use qword.Prelude.Int.{ℤ, pos, negsuc}
use qword.Klib.Print.{KprintBuf, kputs, knputs, kputchar, kprn_ui, kprn_i, kprn_x}

pub data Arg : Type 0 where
  str : Option (List ℕ) → Arg
  size : ℕ → Arg
  int int64 : ℤ → Arg
  uint uint64 : ℕ → Arg

-- The first argument of `kprint`: KPRN_INFO to KPRN_PANIC.
pub data Level : Type 0 where
  info warn err dbg panic : Level

-- A variadic call reads the clock of the kernel when it stamps a line.
pub record Uptime : Type 0 where
  pub sec : ℕ
  pub raw : ℕ

-- "\e[36minfo\e[37m: " and the others.
unfoldable pub level_text : Level → List ℕ
level_text info =
    27 ∷ b'[' ∷ b'3' ∷ b'6' ∷ b'm' ∷ b'i' ∷ b'n' ∷ b'f' ∷ b'o' ∷ 27 ∷ b'[' ∷ b'3' ∷ b'7' ∷ b'm'
    ∷ b':' ∷ b' ' ∷ []
level_text warn =
    27 ∷ b'[' ∷ b'3' ∷ b'3' ∷ b'm' ∷ b'w' ∷ b'a' ∷ b'r' ∷ b'n' ∷ b'i' ∷ b'n' ∷ b'g' ∷ 27 ∷ b'['
    ∷ b'3' ∷ b'7' ∷ b'm' ∷ b':' ∷ b' ' ∷ []
level_text err =
    27 ∷ b'[' ∷ b'3' ∷ b'1' ∷ b'm' ∷ b'E' ∷ b'R' ∷ b'R' ∷ b'O' ∷ b'R' ∷ 27 ∷ b'[' ∷ b'3' ∷ b'7'
    ∷ b'm' ∷ b':' ∷ b' ' ∷ []
level_text dbg =
    27 ∷ b'[' ∷ b'3' ∷ b'6' ∷ b'm' ∷ b'D' ∷ b'E' ∷ b'B' ∷ b'U' ∷ b'G' ∷ 27 ∷ b'[' ∷ b'3' ∷ b'7'
    ∷ b'm' ∷ b':' ∷ b' ' ∷ []
level_text panic =
    27 ∷ b'[' ∷ b'3' ∷ b'1' ∷ b'm' ∷ b'P' ∷ b'A' ∷ b'N' ∷ b'I' ∷ b'C' ∷ 27 ∷ b'[' ∷ b'3' ∷ b'7'
    ∷ b'm' ∷ b':' ∷ b' ' ∷ []

-- "\e[37m["
abbrev pub stamp_open : List ℕ
stamp_open = 27 ∷ b'[' ∷ b'3' ∷ b'7' ∷ b'm' ∷ b'[' ∷ []

-- "(null)"
abbrev pub null_text : List ℕ
null_text = b'(' ∷ b'n' ∷ b'u' ∷ b'l' ∷ b'l' ∷ b')' ∷ []

-- A byte of the value that `(char)` keeps.
abbrev pub char_of : ℤ → ℕ
char_of (pos n) = n % 256
char_of (negsuc n) = 255 - n % 256

module _ (now : Uptime) (level : Level) where
  unfoldable pub print_timestamp : KprintBuf → KprintBuf
  print_timestamp b =
      kputs
        (kputs (kprn_ui (kputs (kprn_ui (kputs b stamp_open) now.sec) (b'.' ∷ [])) now.raw)
          (b']' ∷ b' ' ∷ []))
        (level_text level)

  -- A byte of the format that is no percent sign; a new line is stamped.
  unfoldable pub put_plain : KprintBuf → ℕ → KprintBuf
  put_plain b c = let b' = kputchar b c in if c == 10 then print_timestamp b' else b'

unfoldable pub convert_s : KprintBuf → List Arg → Option (KprintBuf × List Arg)
convert_s b (str none ∷ args) = some (kputs b null_text, args)
convert_s b (str (some s) ∷ args) = some (kputs b s, args)
convert_s b _ = none

unfoldable pub convert_sized : KprintBuf → List Arg → Option (KprintBuf × List Arg)
convert_sized b (size n ∷ str (some s) ∷ args) =
    if leb n (length s) then some (knputs b s n, args) else none
convert_sized b _ = none

unfoldable pub convert_d : KprintBuf → List Arg → Option (KprintBuf × List Arg)
convert_d b (int z ∷ args) = some (kprn_i b z, args)
convert_d b _ = none

unfoldable pub convert_D : KprintBuf → List Arg → Option (KprintBuf × List Arg)
convert_D b (int64 z ∷ args) = some (kprn_i b z, args)
convert_D b _ = none

unfoldable pub convert_u : KprintBuf → List Arg → Option (KprintBuf × List Arg)
convert_u b (uint x ∷ args) = some (kprn_ui b x, args)
convert_u b _ = none

unfoldable pub convert_U : KprintBuf → List Arg → Option (KprintBuf × List Arg)
convert_U b (uint64 x ∷ args) = some (kprn_ui b x, args)
convert_U b _ = none

unfoldable pub convert_x : KprintBuf → List Arg → Option (KprintBuf × List Arg)
convert_x b (uint x ∷ args) = some (kprn_x b x, args)
convert_x b _ = none

unfoldable pub convert_X : KprintBuf → List Arg → Option (KprintBuf × List Arg)
convert_X b (uint64 x ∷ args) = some (kprn_x b x, args)
convert_X b _ = none

unfoldable pub convert_c : KprintBuf → List Arg → Option (KprintBuf × List Arg)
convert_c b (int z ∷ args) = some (kputchar b (char_of z), args)
convert_c b _ = none

-- `switch (*fmt++)`
unfoldable pub convert : KprintBuf → ℕ → List Arg → Option (KprintBuf × List Arg)
convert b d args =
    if d == b's'
    then convert_s b args
    else (if d == b'S'
        then convert_sized b args
        else (if d == b'd'
            then convert_d b args
            else (if d == b'D'
                then convert_D b args
                else (if d == b'u'
                    then convert_u b args
                    else (if d == b'U'
                        then convert_U b args
                        else (if d == b'x'
                            then convert_x b args
                            else (if d == b'X'
                                then convert_X b args
                                else (if d == b'c'
                                    then convert_c b args
                                    else some (kputchar b b'?', args)))))))))

module _ (now : Uptime) (level : Level) where
  unfoldable pub kvprint_loop : KprintBuf → List ℕ → List Arg → Option KprintBuf
  kvprint_loop b [] args = some (kputchar b 10)
  kvprint_loop b (c ∷ []) args =
      if c == b'%' then none else some (kputchar (put_plain now level b c) 10)
  kvprint_loop b (c ∷ d ∷ fmt) args = elim (c == b'%') [
    | true ↦ elim (convert b d args) [ none ↦ none | some (b', rest) ↦ kvprint_loop b' fmt rest ]
    | false ↦ kvprint_loop (put_plain now level b c) (d ∷ fmt) args
  ]

  -- What is handed to the flush of the level; `scratch` is what the array on the stack holds.
  unfoldable pub kvprint : (ℕ → ℕ) → List ℕ → List Arg → Option KprintBuf
  kvprint scratch fmt args =
      kvprint_loop (print_timestamp now level (record { buf = scratch; i = 0 })) fmt args
