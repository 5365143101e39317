-- ===== src/Klib/Print/Format/Text.antt =====
-- The text that a call of `kprint` (root/src/kernel/lib/klib.c) stands for, with no bound on its
-- length, and the buffer that the call fills.
use qword.Prelude.{ℕ, ◌≤◌, ◌<◌, ◌≡◌, ◌==◌, leb, length, take, ◌||◌, Bool, true, false, arith}
use qword.Prelude.{List, [], ◌∷◌, ◌++◌, Option, none, some, subst, refl, ◌∙◌}
use mathlib.Core.List.{append_assoc}
use qword.Prelude.Int.{ℤ}
use qword.Klib.{Mem}
use qword.Klib.Print.{KprintBuf, kputs, knputs, kputchar, kprn_ui, kprn_i, kprn_x, buf_max}
use qword.Klib.Print.Buffer.{
  Holds, Filling, kputs-Holds, kputs-Filling, knputs-Holds, kputchar-Holds, Holds-fits,
  Holds-Filling, empty-Filling,
}
use qword.Klib.Print.Digits.{
  dec_text, int_text, hex_text, kprn_ui-Holds, kprn_i-Holds, kprn_x-Holds,
}
use qword.Klib.Print.Format.{Arg, str, size, int, int64, uint, uint64, Level, Uptime, level_text}
use qword.Klib.Print.Format.{stamp_open, null_text, char_of, print_timestamp, put_plain, convert}
use qword.Klib.Print.Format.{convert_s, convert_sized, convert_d, convert_D, convert_u, convert_U}
use qword.Klib.Print.Format.{convert_x, convert_X, convert_c, kvprint_loop, kvprint}

-- The letters of the conversions.
unfoldable pub known : ℕ → Bool
known d =
    d == b's'
    || d == b'S'
    || d == b'd'
    || d == b'D'
    || d == b'u'
    || d == b'U'
    || d == b'x'
    || d == b'X'
    || d == b'c'

-- What the conversion `d` prints of the arguments, and the arguments that it leaves.
pub data Converts (d : ℕ) : List Arg → List ℕ → List Arg → Type 0 where
  null : {rest : List Arg} → d ≡ b's' → Converts d (str none ∷ rest) null_text rest
  string : {s : List ℕ} {rest : List Arg} → d ≡ b's' → Converts d (str (some s) ∷ rest) s rest
  sized :
      {n : ℕ} {s : List ℕ} {rest : List Arg}
      → d ≡ b'S'
      → n ≤ length s
      → Converts d (size n ∷ str (some s) ∷ rest) (take n s) rest
  signed : {z : ℤ} {rest : List Arg} → d ≡ b'd' → Converts d (int z ∷ rest) (int_text z) rest
  signed64 : {z : ℤ} {rest : List Arg} → d ≡ b'D' → Converts d (int64 z ∷ rest) (int_text z) rest
  unsigned : {x : ℕ} {rest : List Arg} → d ≡ b'u' → Converts d (uint x ∷ rest) (dec_text x) rest
  unsigned64 : {x : ℕ} {rest : List Arg} → d ≡ b'U' → Converts d (uint64 x ∷ rest) (dec_text x) rest
  hex : {x : ℕ} {rest : List Arg} → d ≡ b'x' → Converts d (uint x ∷ rest) (hex_text x) rest
  hex64 : {x : ℕ} {rest : List Arg} → d ≡ b'X' → Converts d (uint64 x ∷ rest) (hex_text x) rest
  char : {z : ℤ} {rest : List Arg} → d ≡ b'c' → Converts d (int z ∷ rest) (char_of z ∷ []) rest
  unknown : {args : List Arg} → known d ≡ false → Converts d args (b'?' ∷ []) args

-- The text of a line's stamp.
unfoldable pub stamp : Uptime → Level → List ℕ
stamp now level =
    stamp_open
    ++ (dec_text now.sec ++ (b'.' ∷ (dec_text now.raw ++ (b']' ∷ b' ' ∷ level_text level))))

-- The format prints the text: a byte as it is, with a stamp behind a new line, a conversion as above,
-- and a new line at the end.
pub data Prints (now : Uptime) (level : Level) : List ℕ → List Arg → List ℕ → Type 0 where
  end : {args : List Arg} → Prints now level [] args (10 ∷ [])
  plain :
      {c : ℕ} {fmt : List ℕ} {args : List Arg} {text : List ℕ}
      → (c == b'%') ≡ false
      → (c == 10) ≡ false
      → Prints now level fmt args text
      → Prints now level (c ∷ fmt) args ((c ∷ []) ++ text)
  new_line :
      {c : ℕ} {fmt : List ℕ} {args : List Arg} {text : List ℕ}
      → (c == b'%') ≡ false
      → (c == 10) ≡ true
      → Prints now level fmt args text
      → Prints now level (c ∷ fmt) args (((c ∷ []) ++ stamp now level) ++ text)
  conversion :
      {c d : ℕ} {fmt : List ℕ} {args rest : List Arg} {s text : List ℕ}
      → (c == b'%') ≡ true
      → Converts d args s rest
      → Prints now level fmt rest text
      → Prints now level (c ∷ d ∷ fmt) args (s ++ text)

-- A result that holds the text.
abbrev pub Fills : Mem → List ℕ → Option KprintBuf → Type 0
Fills scratch text r = (b : KprintBuf) × (r ≡ some b) × Holds scratch text b

module _ {scratch : Mem} where
  convert-Converts :
      (text : List ℕ) (b : KprintBuf) {d : ℕ} {args rest : List Arg} {s : List ℕ}
      → Holds scratch text b
      → Converts d args s rest
      → (b' : KprintBuf) × (convert b d args ≡ some (b', rest)) × Holds scratch (text ++ s) b'
  unfolding known convert convert_s convert_sized convert_d convert_D convert_u convert_U convert_x
      convert_X convert_c
  convert-Converts text b h (null e) = (kputs b null_text, rw e, kputs-Holds text null_text b h)
  convert-Converts text b h (string {s = s} e) = (kputs b s, rw e, kputs-Holds text s b h)
  convert-Converts text b h (sized {n = n} {s = s} e fits) =
      let test : leb n (length s) ≡ true = ground arith in
      (knputs b s n, rw (e, test), knputs-Holds text s n b h)
  convert-Converts text b h (signed {z = z} e) = (kprn_i b z, rw e, kprn_i-Holds text z b h)
  convert-Converts text b h (signed64 {z = z} e) = (kprn_i b z, rw e, kprn_i-Holds text z b h)
  convert-Converts text b h (unsigned {x = x} e) = (kprn_ui b x, rw e, kprn_ui-Holds text x b h)
  convert-Converts text b h (unsigned64 {x = x} e) = (kprn_ui b x, rw e, kprn_ui-Holds text x b h)
  convert-Converts text b h (hex {x = x} e) = (kprn_x b x, rw e, kprn_x-Holds text x b h)
  convert-Converts text b h (hex64 {x = x} e) = (kprn_x b x, rw e, kprn_x-Holds text x b h)
  convert-Converts text b h (char {z = z} e) =
      (kputchar b (char_of z), rw e, kputchar-Holds text (char_of z) b h)
  convert-Converts text b h (unknown e) =
      (kputchar b b'?', ground arith, kputchar-Holds text b'?' b h)

module _ (now : Uptime) (level : Level) where
  kvprint_loop-plain :
      (b : KprintBuf) (c : ℕ) (fmt : List ℕ) (args : List Arg)
      → (c == b'%') ≡ false
      → kvprint_loop now level b (c ∷ fmt) args
        ≡ kvprint_loop now level (put_plain now level b c) fmt args
  unfolding kvprint_loop
  kvprint_loop-plain b c [] args other = rw other
  kvprint_loop-plain b c (d ∷ fmt) args other = rw (other, kvprint_loop)

  kvprint_loop-conversion :
      (b b' : KprintBuf) (c d : ℕ) (fmt : List ℕ) (args rest : List Arg)
      → (c == b'%') ≡ true
      → convert b d args ≡ some (b', rest)
      → kvprint_loop now level b (c ∷ d ∷ fmt) args ≡ kvprint_loop now level b' fmt rest
  unfolding kvprint_loop
  kvprint_loop-conversion b b' c d fmt args rest percent e = rw (percent, e, kvprint_loop)

module _ {scratch : Mem} (now : Uptime) (level : Level) where
  print_timestamp-Holds :
      (text : List ℕ) (b : KprintBuf)
      → Filling scratch text b
      → Holds scratch (text ++ stamp now level) (print_timestamp now level b)
  unfolding print_timestamp stamp
  print_timestamp-Holds text b f =
      let h₁ = kputs-Filling text stamp_open b f in
      let h₂ = kprn_ui-Holds _ now.sec _ h₁ in
      let h₃ = kputs-Holds _ (b'.' ∷ []) _ h₂ in
      let h₄ = kprn_ui-Holds _ now.raw _ h₃ in
      let h₅ = kputs-Holds _ (b']' ∷ b' ' ∷ []) _ h₄ in
      let h₆ = kputs-Holds _ (level_text level) _ h₅ in simp append_assoc at h₆

  put_plain-quiet :
      (before : List ℕ) (b : KprintBuf) (c : ℕ)
      → Holds scratch before b
      → (c == 10) ≡ false
      → Holds scratch (before ++ c ∷ []) (put_plain now level b c)
  unfolding put_plain
  put_plain-quiet before b c h quiet = rw quiet (kputchar-Holds before c b h)

  put_plain-stamped :
      (before : List ℕ) (b : KprintBuf) (c : ℕ)
      → Holds scratch before b
      → (c == 10) ≡ true
      → Holds scratch (before ++ ((c ∷ []) ++ stamp now level)) (put_plain now level b c)
  unfolding put_plain
  put_plain-stamped before b c h stamped = rw stamped (
      subst (λ t. Holds scratch t (print_timestamp now level (kputchar b c)))
        (append_assoc before (c ∷ []) (stamp now level))
        (print_timestamp-Holds (before ++ c ∷ []) (kputchar b c)
          (Holds-Filling (before ++ c ∷ []) (kputchar b c) (kputchar-Holds before c b h))))

  -- With the text so far in the buffer, the loop appends what the rest of the format prints.
  kvprint_loop-Fills :
      (before : List ℕ) (b : KprintBuf) {fmt : List ℕ} {args : List Arg} {text : List ℕ}
      → Holds scratch before b
      → Prints now level fmt args text
      → Fills scratch (before ++ text) (kvprint_loop now level b fmt args)
  unfolding kvprint_loop
  kvprint_loop-Fills before b h end = (kputchar b 10, refl, kputchar-Holds before 10 b h)
  kvprint_loop-Fills before b h
        (plain {c = c} {fmt = fmt} {args = args} {text = text} other quiet more) =
      let (b', e, filled) =
        kvprint_loop-Fills (before ++ c ∷ []) (put_plain now level b c)
          (put_plain-quiet before b c h quiet) more in
      (b', kvprint_loop-plain now level b c fmt args other ∙ e, simp append_assoc at filled)
  kvprint_loop-Fills before b h
        (new_line {c = c} {fmt = fmt} {args = args} {text = text} other stamped more) =
      let (b', e, filled) =
        kvprint_loop-Fills (before ++ ((c ∷ []) ++ stamp now level)) (put_plain now level b c)
          (put_plain-stamped before b c h stamped) more in
      (
        b',
        kvprint_loop-plain now level b c fmt args other ∙ e,
        subst (λ t. Holds scratch t b') (append_assoc before ((c ∷ []) ++ stamp now level) text)
            filled,
      )
  kvprint_loop-Fills before b h
        (conversion {c = c} {d = d} {fmt = fmt} {args = args} {rest = rest} {s = s} {text = text}
          percent conv more) =
      let (b₁, e₁, h₁) = convert-Converts before b h conv in
      let (b₂, e₂, h₂) = kvprint_loop-Fills (before ++ s) b₁ h₁ more in
      (
        b₂,
        kvprint_loop-conversion now level b b₁ c d fmt args rest percent e₁ ∙ e₂,
        subst (λ t. Holds scratch t b₂) (append_assoc before s text) h₂,
      )

module _ (now : Uptime) (level : Level) where
  -- A call of `kprint` whose format has a meaning for its arguments fills its buffer with the stamp of
  -- the line and the text that the format prints, cut off at 255 bytes and ended by a zero, and what
  -- lies behind the 256 bytes of the array is as it was.
  pub kvprint_lem :
      (scratch : ℕ → ℕ) {fmt : List ℕ} {args : List Arg} {text : List ℕ}
      → Prints now level fmt args text
      → (b : KprintBuf) × (kvprint now level scratch fmt args ≡ some b)
        × Holds scratch (stamp now level ++ text) b
        × (b.i < buf_max)
  unfolding kvprint
  kvprint_lem scratch p =
      let start =
        print_timestamp-Holds now level [] (record { buf = scratch; i = 0 })
          (empty-Filling scratch) in
      let (b, e, h) = kvprint_loop-Fills now level (stamp now level) _ start p in
      (b, e, h, Holds-fits h)
