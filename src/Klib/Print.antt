-- ===== src/Klib/Print.antt =====
-- The kernel log, `kprint` and its helpers in root/src/kernel/lib/klib.c.
--
-- A string argument is the list of its bytes. The digits of a number are written from the end of a
-- local array to its front, so the array is modelled by the text from the last written byte on.
pub mod Buffer
pub mod Digits
pub mod Format
use qword.Prelude.{
  ℕ, zero, suc, ◌+◌, ◌-◌, ◌*◌, ◌/◌, ◌%◌, ◌<◌, ◌==◌, ltb, if◌then◌else◌, Bool, true, false,
}
use qword.Prelude.{List, [], ◌∷◌, ◌++◌, take, length, Option, none, some}
use qword.Prelude.Int.{ℤ, pos, negsuc}
use qword.Klib.{Mem, store}

-- KPRINT_BUF_MAX
abbrev pub buf_max : ℕ
buf_max = 256

-- `kprint_buf` with `kprint_buf_i`.
pub record KprintBuf : Type 0 where
  pub buf : Mem
  pub i : ℕ

-- `kprint_buf[*kprint_buf_i] = 0`
pub terminate : KprintBuf → KprintBuf
terminate b = record b { buf = store b.buf b.i 0 }

-- `kprint_buf[(*kprint_buf_i)++] = c`
pub push_byte : KprintBuf → ℕ → KprintBuf
push_byte b c = record { buf = store b.buf b.i c; i = b.i + 1 }

pub kputs_from : KprintBuf → List ℕ → KprintBuf
kputs_from b [] = b
kputs_from b (c ∷ cs) =
    let rest = kputs_from (push_byte b c) cs in if b.i == buf_max - 1 then b else rest

unfoldable pub kputs : KprintBuf → List ℕ → KprintBuf
kputs b string = terminate (kputs_from b string)

-- The first `len` bytes of the string.
unfoldable pub knputs : KprintBuf → List ℕ → ℕ → KprintBuf
knputs b string len = terminate (kputs_from b (take len string))

unfoldable pub kputchar : KprintBuf → ℕ → KprintBuf
kputchar b c = terminate (if ltb b.i (buf_max - 1) then push_byte b c else b)

-- `for (i = …; x; i--) { buf[i] = …; x = x / base; }`; `text` is what `buf + i + 1` holds.
unfoldable pub digits_from : (ℕ → ℕ) → ℕ → ℕ → ℕ → List ℕ → List ℕ
digits_from ascii base zero x text = text
digits_from ascii base (suc fuel) x text =
    let rest = digits_from ascii base fuel (x / base) (ascii (x % base) ∷ text) in
    if x == 0 then text else rest

abbrev pub dec_ascii : ℕ → ℕ
dec_ascii d = d + 0x30

-- `hex_to_ascii_tab`
abbrev pub hex_ascii : ℕ → ℕ
hex_ascii d = if ltb d 10 then d + b'0' else d - 10 + b'a'

unfoldable pub kprn_ui : KprintBuf → ℕ → KprintBuf
kprn_ui b x = if x == 0 then kputchar b b'0' else kputs b (digits_from dec_ascii 10 20 x [])

-- `-x` is the opposite number: the least `int64_t` has none, and C leaves its case undefined.
unfoldable pub kprn_i : KprintBuf → ℤ → KprintBuf
kprn_i b (pos x) = if x == 0 then kputchar b b'0' else kputs b (digits_from dec_ascii 10 20 x [])
kprn_i b (negsuc n) = kputs b (b'-' ∷ digits_from dec_ascii 10 20 (suc n) [])

unfoldable pub kprn_x : KprintBuf → ℕ → KprintBuf
kprn_x b x =
    if x == 0
    then kputs b (b'0' ∷ b'x' ∷ b'0' ∷ [])
    else kputs (kputs b (b'0' ∷ b'x' ∷ [])) (digits_from hex_ascii 16 16 x [])
