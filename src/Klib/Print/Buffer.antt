-- ===== src/Klib/Print/Buffer.antt =====
-- The bounded buffer of `kprint` (root/src/kernel/lib/klib.c) against the text that was put.
use qword.Prelude.{ℕ, zero, suc, ◌-◌, ◌≤◌, ◌<◌, ◌≡◌, ◌==◌, ltb, min, arith}
use qword.Prelude.{refl, sym, ap, subst, ◌∙◌, false, Bool-cases, inl, inr, ltb→lt}
use mathlib.Core.List.{append-nil, append_assoc}
use qword.Prelude.{List, [], ◌∷◌, ◌++◌, take, length, get_or, length-append}
use native.Mathlib.Decide.{dec_lt}
use qword.Klib.{Mem, store}
use qword.Klib.Print.{KprintBuf, buf_max, terminate, push_byte, kputs_from, kputs, knputs, kputchar}

-- The buffer holds `text`, as far as it has room for it: 255 bytes of it and a zero behind them; what
-- is not in the array is as `scratch` has it.
pub record Holds (scratch : Mem) (text : List ℕ) (b : KprintBuf) : Type 0 where
  pub index : b.i ≡ min (length text) (buf_max - 1)
  pub bytes : (j : ℕ) → j < b.i → b.buf j ≡ get_or text j 0
  pub outside : (j : ℕ) → buf_max ≤ j → b.buf j ≡ scratch j
  pub ended : b.buf b.i ≡ 0

-- So it is a string that fits the array.
pub Holds-fits :
    {scratch : Mem} {text : List ℕ} {b : KprintBuf} → Holds scratch text b → b.i < buf_max
Holds-fits h = omega (arith, h.index)

-- The same without the zero, inside of a loop.
pub record Filling (scratch : Mem) (text : List ℕ) (b : KprintBuf) : Type 0 where
  pub index : b.i ≡ min (length text) (buf_max - 1)
  pub bytes : (j : ℕ) → j < b.i → b.buf j ≡ get_or text j 0
  pub outside : (j : ℕ) → buf_max ≤ j → b.buf j ≡ scratch j

-- The empty text fills the start of any array.
pub empty-Filling : (scratch : ℕ → ℕ) → Filling scratch [] (record { buf = scratch; i = 0 })
empty-Filling scratch = record {
  index = omega arith;
  bytes = λ j h. absurd (omega arith);
  outside = λ j h. refl;
}

get_or-append_left :
    (xs ys : List ℕ) (j : ℕ) → j < length xs → get_or (xs ++ ys) j 0 ≡ get_or xs j 0
get_or-append_left [] ys j h = absurd (omega arith)
get_or-append_left (x ∷ xs) ys zero h = refl
get_or-append_left (x ∷ xs) ys (suc j) h = get_or-append_left xs ys j (omega arith)

get_or-append_length : (xs : List ℕ) (y : ℕ) → get_or (xs ++ y ∷ []) (length xs) 0 ≡ y
get_or-append_length [] y = refl
get_or-append_length (x ∷ xs) y = get_or-append_length xs y

store_other : (mem : Mem) (a v x : ℕ) → x < a → store mem a v x ≡ mem x
store_other mem a v x h = ground arith

store_beyond : (mem : Mem) (a v x : ℕ) → a < x → store mem a v x ≡ mem x
store_beyond mem a v x h = ground arith

store_here : (mem : Mem) (a v x : ℕ) → x ≡ a → store mem a v x ≡ v
store_here mem a v x h = ground arith

module _ {scratch : Mem} where
  push_byte-Filling :
      (text : List ℕ) (b : KprintBuf) (c : ℕ)
      → Filling scratch text b
      → b.i < buf_max - 1
      → Filling scratch (text ++ c ∷ []) (push_byte b c)
  unfolding push_byte
  push_byte-Filling text b c f room = record {
    index = omega (arith, f.index, length-append text (c ∷ []));
    bytes = λ j h. elim (dec_lt j b.i) [
      | yes old ↦
          store_other b.buf b.i c j (omega arith)
          ∙ f.bytes j old
          ∙ sym (get_or-append_left text (c ∷ []) j (omega (arith, f.index)))
      | no new ↦
          let last : j ≡ length text = omega (arith, f.index) in
          let here : j ≡ b.i = omega arith in
          store_here b.buf b.i c j here
          ∙ sym (ap (λ k. get_or (text ++ c ∷ []) k 0) last ∙ get_or-append_length text c)
    ];
    outside = λ j h. store_beyond b.buf b.i c j (omega (arith, h, room)) ∙ f.outside j h;
  }

  -- A full buffer holds what is put behind it too.
  full-Filling :
      (text more : List ℕ) (b : KprintBuf)
      → Filling scratch text b
      → b.i ≡ buf_max - 1
      → Filling scratch (text ++ more) b
  full-Filling text more b f full = record {
    index = omega (arith, f.index, length-append text more);
    bytes = λ j h. f.bytes j h ∙ sym (get_or-append_left text more j (omega (arith, f.index)));
    outside = f.outside;
  }

  terminate-Holds :
      (text : List ℕ) (b : KprintBuf) → Filling scratch text b → Holds scratch text (terminate b)
  unfolding terminate
  terminate-Holds text b f = record {
    index = f.index;
    bytes = λ j h. store_other b.buf b.i 0 j (omega arith) ∙ f.bytes j h;
    ended = ground arith;
    outside = λ j h. store_beyond b.buf b.i 0 j (omega (arith, h, f.index)) ∙ f.outside j h;
  }

  pub Holds-Filling :
      (text : List ℕ) (b : KprintBuf) → Holds scratch text b → Filling scratch text b
  Holds-Filling text b h = record { index = h.index; bytes = h.bytes; outside = h.outside }

  below_full :
      (text : List ℕ) (b : KprintBuf)
      → Filling scratch text b
      → (b.i == buf_max - 1) ≡ false
      → b.i < buf_max - 1
  below_full text b f room =
      let bound : b.i ≤ buf_max - 1 = omega (arith, f.index) in ground (arith, bound)

  at_full :
      (text : List ℕ) (b : KprintBuf)
      → Holds scratch text b
      → ltb b.i (buf_max - 1) ≡ false
      → b.i ≡ buf_max - 1
  at_full text b h full =
      let bound : b.i ≤ buf_max - 1 = omega (arith, h.index) in ground (arith, bound)

  kputs_from-Filling :
      (text s : List ℕ) (b : KprintBuf)
      → Filling scratch text b
      → Filling scratch (text ++ s) (kputs_from b s)
  unfolding kputs_from
  kputs_from-Filling text [] b f = subst (λ t. Filling scratch t b) (sym (append-nil text)) f
  kputs_from-Filling text (c ∷ cs) b f = elim (Bool-cases (b.i == buf_max - 1)) [
    | inl full ↦ rw full (full-Filling text (c ∷ cs) b f (ground arith))
    | inr room ↦ rw room (
        subst (λ t. Filling scratch t (kputs_from (push_byte b c) cs))
          (append_assoc text (c ∷ []) cs)
          (kputs_from-Filling (text ++ c ∷ []) cs (push_byte b c)
            (push_byte-Filling text b c f (below_full text b f room))))
  ]

  pub kputs-Filling :
      (text s : List ℕ) (b : KprintBuf)
      → Filling scratch text b
      → Holds scratch (text ++ s) (kputs b s)
  unfolding kputs
  kputs-Filling text s b f =
      terminate-Holds (text ++ s) (kputs_from b s) (kputs_from-Filling text s b f)

  -- Putting a string appends it to the text, as far as there is room.
  pub kputs-Holds :
      (text s : List ℕ) (b : KprintBuf)
      → Holds scratch text b
      → Holds scratch (text ++ s) (kputs b s)
  unfolding kputs
  kputs-Holds text s b h =
      terminate-Holds (text ++ s) (kputs_from b s)
        (kputs_from-Filling text s b (Holds-Filling text b h))

  pub knputs-Holds :
      (text s : List ℕ) (n : ℕ) (b : KprintBuf)
      → Holds scratch text b
      → Holds scratch (text ++ take n s) (knputs b s n)
  unfolding knputs
  knputs-Holds text s n b h =
      terminate-Holds (text ++ take n s) (kputs_from b (take n s))
        (kputs_from-Filling text (take n s) b (Holds-Filling text b h))

  pub kputchar-Holds :
      (text : List ℕ) (c : ℕ) (b : KprintBuf)
      → Holds scratch text b
      → Holds scratch (text ++ c ∷ []) (kputchar b c)
  unfolding kputchar
  kputchar-Holds text c b h = elim (Bool-cases (ltb b.i (buf_max - 1))) [
    | inl room ↦ rw room (
        terminate-Holds (text ++ c ∷ []) (push_byte b c)
          (push_byte-Filling text b c (Holds-Filling text b h) (ltb→lt _ _ room)))
    | inr full ↦ rw full (
        terminate-Holds (text ++ c ∷ []) b
          (full-Filling text (c ∷ []) b (Holds-Filling text b h) (at_full text b h full)))
  ]
