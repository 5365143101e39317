-- ===== src/Time/Calendar.antt =====
-- `get_jdn` and `get_unix_epoch` of root/src/kernel/lib/time.c against the Gregorian calendar.
use qword.Prelude.{
  ℕ, ◌+◌, ◌-◌, ◌*◌, ◌%◌, ◌≤◌, ◌<◌, ◌^◌, ◌==◌, leb, ltb, if◌then◌else◌, false, ◌≡◌, refl, subst, sym,
  inl, inr, Bool-cases, ap, ◌∙◌, arith,
}
use qword.Prelude.Int.{pos, ◌+ℤ◌}
use qword.Time.{get_unix_epoch, get_jdn}
use qword.Time.Jdn.{days_in, day_number, get_jdn-number}

same_month : (d m y : ℕ) → 1 ≤ m → m ≤ 12 → day_number (d + 1) m y ≡ day_number d m y + 1
same_month d m y lo hi = ground arith

next_year : (y : ℕ) → day_number 1 1 (y + 1) ≡ day_number 31 12 y + 1
next_year y = ground arith

month_end-january : (y : ℕ) → day_number 1 2 y ≡ day_number 31 1 y + 1
month_end-january y = ground arith

month_end-february : (y : ℕ) → day_number 1 3 y ≡ day_number (days_in 2 y) 2 y + 1
month_end-february y = ground arith

month_end-late :
    (m y : ℕ) → 3 ≤ m → m ≤ 11 → day_number 1 (m + 1) y ≡ day_number (days_in m y) m y + 1
month_end-late m y lo hi = ground arith

days_in_end : (d n : ℕ) → d ≤ n → ltb d n ≡ false → d ≡ n
days_in_end d n le h = ground arith

month_end : (m y : ℕ) → 1 ≤ m → m ≤ 11 → day_number 1 (m + 1) y ≡ day_number (days_in m y) m y + 1
month_end m y lo hi =
    let Ends : ℕ → Type 0 = λ k. day_number 1 (k + 1) y ≡ day_number (days_in k y) k y + 1 in
    elim (Bool-cases (leb 3 m)) [
      | inl later ↦ month_end-late m y (ground arith) hi
      | inr early ↦ elim (Bool-cases (m == 1)) [
        | inl first ↦ let one : 1 ≡ m = ground arith in subst Ends one (month_end-january y)
        | inr second ↦ let two : 2 ≡ m = ground arith in subst Ends two (month_end-february y)
      ]
    ]

-- A date, and the one after it.
abbrev pub next_day : ℕ → ℕ → ℕ → ℕ × ℕ × ℕ
next_day d m y =
    if ltb d (days_in m y)
    then (d + 1, m, y)
    else (if ltb m 12 then (1, m + 1, y) else (1, 1, y + 1))

abbrev pub IsDate : ℕ → ℕ → ℕ → Type 0
IsDate d m y = (1 ≤ d) × (d ≤ days_in m y) × (1 ≤ m) × (m ≤ 12) × (1970 ≤ y) × (y < 2 ^ 20)

number-next_day :
    (d m y : ℕ)
    → IsDate d m y
    → let (d', m', y') = next_day d m y in
      (day_number d' m' y' ≡ day_number d m y + 1) × (1 ≤ m') × (m' ≤ 12)
number-next_day d m y (d1, d2, m1, m2, y1, y2) = elim (Bool-cases (ltb d (days_in m y))) [
  | inl within ↦ rw within (same_month d m y m1 m2, m1, m2)
  | inr last ↦
      let end : d ≡ days_in m y = days_in_end d (days_in m y) d2 last in
      elim (Bool-cases (ltb m 12)) [
        | inl more ↦
            rw (last, more)
              (
                month_end m y m1 (ground arith) ∙ ap (λ x. day_number x m y + 1) (sym end),
                omega arith,
                ground arith,
              )
        | inr december ↦
            let twelve : 12 ≡ m = ground arith in
            rw (last, december)
              (
                next_year y
                    ∙ ap (λ x. day_number x 12 y + 1)
                        (sym (end ∙ ap (λ k. days_in k y) (sym twelve)))
                    ∙ ap (λ k. day_number d k y + 1) twelve,
                omega arith,
                omega arith,
              )
      ]
]

number_bounds :
    (d m y : ℕ)
    → 1 ≤ d
    → d ≤ 31
    → 1 ≤ m
    → m ≤ 12
    → 1970 ≤ y
    → y < 2 ^ 20
    → (2440588 ≤ day_number d m y) × (day_number d m y < 2 ^ 32)
number_bounds d m y d1 d2 m1 m2 y1 y2 = elim (Bool-cases (leb m 2)) [
  | inl early ↦ rw early (omega arith, omega arith)
  | inr late ↦ let march : 3 ≤ m = ground arith in rw late (omega arith, omega arith)
]

days_in_bound : (m y : ℕ) → days_in m y ≤ 31
days_in_bound m y = ground arith

number-epoch :
    (s mi h d m y : ℕ)
    → 1 ≤ m
    → m ≤ 12
    → 2440588 ≤ day_number d m y
    → day_number d m y < 2 ^ 33
    → get_unix_epoch s mi h d m y
      ≡ ((day_number d m y - 2440588) * (60 * 60 * 24) + h * 3600 + mi * 60 + s) % 2 ^ 64
unfolding get_unix_epoch
number-epoch s mi h d m y m1 m2 lo hi =
    let start : get_jdn 1 1 1970 ≡ pos 2440588 =
      get_jdn-number 1 1 1970 (omega arith) (omega arith) in
    let diff : (day_number d m y + 2 ^ 64 - 2440588) % 2 ^ 64 ≡ day_number d m y - 2440588 =
      omega arith in
    rw (get_unix_epoch, get_jdn-number d m y m1 m2, start, diff) refl

one_more : (n : ℕ) → pos (n + 1) ≡ pos n +ℤ pos 1
one_more n = ground arith

day_more :
    (n s mi h : ℕ)
    → 2440588 ≤ n
    → n < 2 ^ 32
    → h < 24
    → mi < 60
    → s < 60
    → ((n + 1 - 2440588) * (60 * 60 * 24) + h * 3600 + mi * 60 + s) % 2 ^ 64
      ≡ ((n - 2440588) * (60 * 60 * 24) + h * 3600 + mi * 60 + s) % 2 ^ 64 + 86400
day_more n s mi h lo hi hh hm hs = omega arith

-- From a date to the next one `get_jdn` counts one more day, over the ends of months and years and
-- with the leap days of the Gregorian calendar; `get_unix_epoch`, which starts with 0 at the start of
-- 1970, counts 86400 seconds more. This is for the years from 1970 to 2 ^ 20, in which no `int` of
-- the computation overflows.
pub get_unix_epoch-next_day :
    (s mi h d m y : ℕ)
    → IsDate d m y
    → h < 24
    → mi < 60
    → s < 60
    → let (d', m', y') = next_day d m y in
      (get_jdn d' m' y' ≡ get_jdn d m y +ℤ pos 1)
      × (get_unix_epoch s mi h d' m' y' ≡ get_unix_epoch s mi h d m y + 86400)
      × (get_unix_epoch 0 0 0 1 1 1970 ≡ 0)
get_unix_epoch-next_day s mi h d m y date hh hm hs =
    let (d1, d2, m1, m2, y1, y2) = date in
    let (d', m', y') = next_day d m y in
    let (next, m1', m2') = number-next_day d m y date in
    let (lo, hi) = number_bounds d m y d1 (omega (arith, days_in_bound m y)) m1 m2 y1 y2 in
    let today = number-epoch s mi h d m y m1 m2 lo (omega arith) in
    let tomorrow =
      number-epoch s mi h d' m' y' m1' m2' (omega (arith, next)) (omega (arith, next)) in
    (
      get_jdn-number d' m' y' m1' m2'
          ∙ ap pos next
          ∙ one_more (day_number d m y)
          ∙ ap (λ x. x +ℤ pos 1) (sym (get_jdn-number d m y m1 m2)),
      tomorrow
          ∙ ap (λ n. ((n - 2440588) * (60 * 60 * 24) + h * 3600 + mi * 60 + s) % 2 ^ 64) next
          ∙ day_more (day_number d m y) s mi h lo hi hh hm hs
          ∙ ap (λ x. x + 86400) (sym today),
      number-epoch 0 0 0 1 1 1970 (omega arith) (omega arith) (omega arith) (omega arith),
    )
