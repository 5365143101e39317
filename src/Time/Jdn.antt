-- ===== src/Time/Jdn.antt =====
-- What `get_jdn` of root/src/kernel/lib/time.c computes, on natural numbers.
use qword.Prelude.{
  ℕ, ◌+◌, ◌-◌, ◌*◌, ◌/◌, ◌%◌, ◌≤◌, ◌==◌, leb, if◌then◌else◌, Bool, true, false, not, ◌&&◌, ◌||◌,
  ◌≡◌, inl, inr, Bool-cases, ap, ◌∙◌, arith,
}
use qword.Prelude.Int.{pos, negsuc, sub_ℕ, ◌+ℤ◌, neg_ℤ}
use qword.Time.{get_jdn, div_ℤ, mul_ℤ}

abbrev pub leap : ℕ → Bool
leap y = y % 4 == 0 && not (y % 100 == 0) || y % 400 == 0

abbrev pub days_in : ℕ → ℕ → ℕ
days_in m y =
    if m == 2
    then (if leap y then 29 else 28)
    else (if m == 4 || m == 6 || m == 9 || m == 11 then 30 else 31)

-- The number that `get_jdn` computes.
abbrev pub day_number : ℕ → ℕ → ℕ → ℕ
day_number d m y =
    if leb m 2
    then 1461 * (y + 4799) / 4 + 367 * (m + 10) / 12 + d - 3 * ((y + 4899) / 100) / 4 - 32075
    else 1461 * (y + 4800) / 4 + 367 * (m - 2) / 12 + d - 3 * ((y + 4900) / 100) / 4 - 32075

before_early : (m : ℕ) → 1 ≤ m → m ≤ 2 → div_ℤ (sub_ℕ m 14) 12 ≡ negsuc 0
before_early m lo hi = ground arith

before_late : (m : ℕ) → 3 ≤ m → m ≤ 12 → div_ℤ (sub_ℕ m 14) 12 ≡ pos 0
before_late m lo hi = ground arith

total :
    (a b c d : ℕ)
    → c + 32075 ≤ a + b + d
    → pos a +ℤ pos b +ℤ neg_ℤ (pos c) +ℤ pos d +ℤ sub_ℕ 0 32075 ≡ pos (a + b + d - c - 32075)
total a b c d h = ground arith

year_term : (y : ℕ) → div_ℤ (mul_ℤ 1461 (pos (y + 4800) +ℤ pos 0)) 4 ≡ pos (1461 * (y + 4800) / 4)
year_term y = ground arith

century_term :
    (y : ℕ)
    → div_ℤ (mul_ℤ 3 (div_ℤ (pos (y + 4900) +ℤ pos 0) 100)) 4 ≡ pos (3 * ((y + 4900) / 100) / 4)
century_term y = ground arith

month_term :
    (m : ℕ)
    → 2 ≤ m
    → div_ℤ (mul_ℤ 367 (sub_ℕ m 2 +ℤ mul_ℤ 12 (neg_ℤ (pos 0)))) 12 ≡ pos (367 * (m - 2) / 12)
month_term m lo = ground arith

year_term_early :
    (y : ℕ) → div_ℤ (mul_ℤ 1461 (pos (y + 4800) +ℤ negsuc 0)) 4 ≡ pos (1461 * (y + 4799) / 4)
year_term_early y = ground arith

century_term_early :
    (y : ℕ)
    → div_ℤ (mul_ℤ 3 (div_ℤ (pos (y + 4900) +ℤ negsuc 0) 100)) 4 ≡ pos (3 * ((y + 4899) / 100) / 4)
century_term_early y = ground arith

month_term_early :
    (m : ℕ)
    → 1 ≤ m
    → div_ℤ (mul_ℤ 367 (sub_ℕ m 2 +ℤ mul_ℤ 12 (neg_ℤ (negsuc 0)))) 12 ≡ pos (367 * (m + 10) / 12)
month_term_early m lo = ground arith

jdn_early : (d m y : ℕ) → 1 ≤ m → m ≤ 2 → get_jdn d m y ≡ pos (day_number d m y)
unfolding get_jdn
jdn_early d m y lo hi =
    let first : leb m 2 ≡ true = ground arith in
    rw
      (
        get_jdn,
        before_early m lo hi,
        year_term_early y,
        month_term_early m lo,
        century_term_early y,
        first,
      )
      (total (1461 * (y + 4799) / 4) (367 * (m + 10) / 12) (3 * ((y + 4899) / 100) / 4) d
          (omega arith)
        ∙ ap pos (omega arith))

jdn_late : (d m y : ℕ) → 3 ≤ m → m ≤ 12 → get_jdn d m y ≡ pos (day_number d m y)
unfolding get_jdn
jdn_late d m y lo hi =
    let first : leb m 2 ≡ false = ground arith in
    rw
      (get_jdn, before_late m lo hi, year_term y, month_term m (omega arith), century_term y, first)
      (total (1461 * (y + 4800) / 4) (367 * (m - 2) / 12) (3 * ((y + 4900) / 100) / 4) d
          (omega arith)
        ∙ ap pos (omega arith))

pub get_jdn-number : (d m y : ℕ) → 1 ≤ m → m ≤ 12 → get_jdn d m y ≡ pos (day_number d m y)
get_jdn-number d m y lo hi = elim (Bool-cases (leb m 2)) [
  | inl early ↦ jdn_early d m y lo (ground arith)
  | inr late ↦ jdn_late d m y (ground arith) hi
]
