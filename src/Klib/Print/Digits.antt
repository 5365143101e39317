-- ===== src/Klib/Print/Digits.antt =====
-- The numbers that `kprn_ui`, `kprn_i` and `kprn_x` (root/src/kernel/lib/klib.c) print.
use qword.Prelude.{ℕ, zero, suc, ◌+◌, ◌-◌, ◌*◌, ◌/◌, ◌%◌, ◌^◌, ◌≤◌, ◌<◌, ◌≡◌, ◌==◌, ltb, arith}
use qword.Prelude.{if◌then◌else◌, refl, ap, subst, ◌∙◌, true, false, Bool-cases, inl, inr}
use qword.Prelude.{List, [], ◌∷◌, ◌++◌, length}
use mathlib.Core.List.{append_assoc}
use qword.Prelude.Int.{ℤ, pos, negsuc}
use qword.Klib.{Mem}
use qword.Klib.Print.{KprintBuf, kputs, digits_from, dec_ascii, hex_ascii}
use qword.Klib.Print.{kprn_ui, kprn_i, kprn_x}
use qword.Klib.Print.Buffer.{Holds, kputs-Holds, kputchar-Holds}

-- base ^ n, by the digits.
abbrev pub room : ℕ → ℕ → ℕ
room base zero = 1
room base (suc n) = room base n * base

-- The number that digits stand for, read on from `acc`.
unfoldable pub value : (ℕ → ℕ) → ℕ → ℕ → List ℕ → ℕ
value digit base acc [] = acc
value digit base acc (c ∷ cs) = value digit base (acc * base + digit c) cs

abbrev pub dec_digit : ℕ → ℕ
dec_digit c = c - 0x30

abbrev pub hex_digit : ℕ → ℕ
hex_digit c = if ltb c b'a' then c - b'0' else c - b'a' + 10

module _ (digit ascii : ℕ → ℕ) (base : ℕ) (one : 1 < base) where
  digits_from-value :
      (inverse : (d : ℕ) → d < base → digit (ascii d) ≡ d)
      → (fuel x : ℕ) (text : List ℕ) → x < room base fuel
      → value digit base 0 (digits_from ascii base fuel x text) ≡ value digit base x text
  unfolding digits_from value
  digits_from-value inverse zero x text h = ap (λ k. value digit base k text) (omega arith)
  digits_from-value inverse (suc fuel) x text h = elim (Bool-cases (x == 0)) [
    | inl done ↦ let e : 0 ≡ x = ground arith in rw done (ap (λ k. value digit base k text) e)
    | inr more ↦
        let last : x / base * base + digit (ascii (x % base)) ≡ x =
          rw (inverse (x % base) (grind arith)) (grind arith) in
        rw more (
          digits_from-value inverse fuel (x / base) (ascii (x % base) ∷ text) (grind arith)
          ∙ ap (λ k. value digit base k text) last)
  ]

  length-digits_from :
      (fuel k x : ℕ) (text : List ℕ)
      → x < room base k
      → length (digits_from ascii base fuel x text) ≤ k + length text
  unfolding digits_from
  length-digits_from zero k x text h = omega arith
  length-digits_from (suc fuel) zero x text h =
      let done : (x == 0) ≡ true = ground arith in rw done (omega arith)
  length-digits_from (suc fuel) (suc k) x text h = elim (Bool-cases (x == 0)) [
    | inl done ↦ rw done (omega arith)
    | inr more ↦ rw more (
        omega (arith, length-digits_from fuel k (x / base) (ascii (x % base) ∷ text) (grind arith)))
  ]

-- The texts of the three kinds of numbers.
unfoldable pub dec_text : ℕ → List ℕ
dec_text x = if x == 0 then b'0' ∷ [] else digits_from dec_ascii 10 20 x []

unfoldable pub int_text : ℤ → List ℕ
int_text (pos x) = dec_text x
int_text (negsuc n) = b'-' ∷ dec_text (suc n)

unfoldable pub hex_digits : ℕ → List ℕ
hex_digits x = if x == 0 then b'0' ∷ [] else digits_from hex_ascii 16 16 x []

unfoldable pub hex_text : ℕ → List ℕ
hex_text x = b'0' ∷ b'x' ∷ hex_digits x

-- The text `s` is the decimal text of the integer.
abbrev pub IntText : ℤ → List ℕ → Type 0
IntText (pos x) s = (value dec_digit 10 0 s ≡ x) × (length s ≤ 19)
IntText (negsuc n) s =
    (t : List ℕ) × (s ≡ b'-' ∷ t) × (value dec_digit 10 0 t ≡ suc n) × (length t ≤ 19)

-- The integers from -(2 ^ 63 - 1) to 2 ^ 63 - 1, which have an opposite.
abbrev pub InRange64 : ℤ → Type 0
InRange64 (pos x) = x < 2 ^ 63
InRange64 (negsuc n) = suc n < 2 ^ 63

dec_inverse : (d : ℕ) → d < 10 → dec_digit (dec_ascii d) ≡ d
dec_inverse d h = omega arith

hex_inverse : (d : ℕ) → d < 16 → hex_digit (hex_ascii d) ≡ d
hex_inverse d h = ground arith

value-dec_text : (x : ℕ) → x < 2 ^ 64 → value dec_digit 10 0 (dec_text x) ≡ x
unfolding dec_text value
value-dec_text x h = elim (Bool-cases (x == 0)) [
  | inl none_left ↦ rw none_left (ground arith)
  | inr some_left ↦
      rw some_left
        (digits_from-value dec_digit dec_ascii 10 (omega arith) dec_inverse 20 x [] (omega arith))
]

length-dec_text : (k x : ℕ) → 0 < k → x < room 10 k → length (dec_text x) ≤ k
unfolding dec_text
length-dec_text k x pos_k h = elim (Bool-cases (x == 0)) [
  | inl none_left ↦ rw none_left (omega arith)
  | inr some_left ↦
      rw some_left
        (omega (arith, length-digits_from dec_digit dec_ascii 10 (omega arith) 20 k x [] h))
]

value-hex_digits : (x : ℕ) → x < 2 ^ 64 → value hex_digit 16 0 (hex_digits x) ≡ x
unfolding hex_digits value
value-hex_digits x h = elim (Bool-cases (x == 0)) [
  | inl none_left ↦ rw none_left (ground arith)
  | inr some_left ↦
      rw some_left
        (digits_from-value hex_digit hex_ascii 16 (omega arith) hex_inverse 16 x [] (omega arith))
]

length-hex_digits : (x : ℕ) → x < 2 ^ 64 → length (hex_digits x) ≤ 16
unfolding hex_digits
length-hex_digits x h = elim (Bool-cases (x == 0)) [
  | inl none_left ↦ rw none_left (omega arith)
  | inr some_left ↦ rw some_left (
      omega
        (arith, length-digits_from hex_digit hex_ascii 16 (omega arith) 16 16 x [] (omega arith)))
]

dec_text_of_suc : (n : ℕ) → digits_from dec_ascii 10 20 (suc n) [] ≡ dec_text (suc n)
unfolding dec_text
dec_text_of_suc n = let some_left : (suc n == 0) ≡ false = ground arith in rw some_left

int_text-IntText : (z : ℤ) → InRange64 z → IntText z (int_text z)
unfolding int_text
int_text-IntText (pos x) h =
    (value-dec_text x (omega arith), length-dec_text 19 x (omega arith) (omega arith))
int_text-IntText (negsuc n) h = (
  dec_text (suc n),
  refl,
  value-dec_text (suc n) (omega arith),
  length-dec_text 19 (suc n) (omega arith) (omega arith),
)

module _ {scratch : Mem} where
  pub kprn_ui-Holds :
      (text : List ℕ) (x : ℕ) (b : KprintBuf)
      → Holds scratch text b
      → Holds scratch (text ++ dec_text x) (kprn_ui b x)
  unfolding kprn_ui dec_text
  kprn_ui-Holds text x b h = elim (Bool-cases (x == 0)) [
    | inl none_left ↦ rw none_left (kputchar-Holds text b'0' b h)
    | inr some_left ↦ rw some_left (kputs-Holds text _ b h)
  ]

  pub kprn_i-Holds :
      (text : List ℕ) (z : ℤ) (b : KprintBuf)
      → Holds scratch text b
      → Holds scratch (text ++ int_text z) (kprn_i b z)
  unfolding kprn_i kprn_ui int_text
  kprn_i-Holds text (pos x) b h = kprn_ui-Holds text x b h
  kprn_i-Holds text (negsuc n) b h =
      rw (← dec_text_of_suc n)
        (kputs-Holds text (b'-' ∷ digits_from dec_ascii 10 20 (suc n) []) b h)

  pub kprn_x-Holds :
      (text : List ℕ) (x : ℕ) (b : KprintBuf)
      → Holds scratch text b
      → Holds scratch (text ++ hex_text x) (kprn_x b x)
  unfolding kprn_x hex_text hex_digits
  kprn_x-Holds text x b h = elim (Bool-cases (x == 0)) [
    | inl none_left ↦ rw none_left (kputs-Holds text _ b h)
    | inr some_left ↦ rw some_left (
        subst
          (λ t.
            Holds scratch t (kputs (kputs b (b'0' ∷ b'x' ∷ [])) (digits_from hex_ascii 16 16 x [])))
          (append_assoc text (b'0' ∷ b'x' ∷ []) (digits_from hex_ascii 16 16 x []))
          (kputs-Holds (text ++ b'0' ∷ b'x' ∷ []) (digits_from hex_ascii 16 16 x [])
            (kputs b (b'0' ∷ b'x' ∷ [])) (kputs-Holds text (b'0' ∷ b'x' ∷ []) b h)))
  ]

  -- A number is appended to the log by digits that stand for it, with a minus for a negative one, and
  -- its digits fit the local array of 21 bytes.
  pub kprn_i_lem :
      (text : List ℕ) (z : ℤ) (b : KprintBuf)
      → Holds scratch text b
      → InRange64 z
      → (s : List ℕ) × Holds scratch (text ++ s) (kprn_i b z) × IntText z s
  kprn_i_lem text z b h range = (int_text z, kprn_i-Holds text z b h, int_text-IntText z range)

  -- So for an unsigned number in decimal and in hexadecimal.
  pub kprn_u_lem :
      (text : List ℕ) (x : ℕ) (b : KprintBuf)
      → Holds scratch text b
      → x < 2 ^ 64
      → ((s : List ℕ) × Holds scratch (text ++ s) (kprn_ui b x)
          × (value dec_digit 10 0 s ≡ x)
          × (length s ≤ 20))
        × ((s : List ℕ) × Holds scratch (text ++ b'0' ∷ b'x' ∷ s) (kprn_x b x)
            × (value hex_digit 16 0 s ≡ x)
            × (length s ≤ 16))
  unfolding hex_text
  kprn_u_lem text x b h range = (
    (
      dec_text x,
      kprn_ui-Holds text x b h,
      value-dec_text x range,
      length-dec_text 20 x (omega arith) (omega arith),
    ),
    (hex_digits x, kprn_x-Holds text x b h, value-hex_digits x range, length-hex_digits x range),
  )
