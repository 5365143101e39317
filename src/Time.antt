-- ===== src/Time.antt =====
-- Dates and durations: root/src/kernel/lib/time.c.
--
-- The arithmetic of `get_jdn` is that of `int`, whose division cuts off towards zero. The terms that
-- may be below zero are integers; the dates for which no `int` overflows are those of the theorems.
pub mod Jdn
pub mod Calendar
pub mod Duration
mod Tests
use qword.Prelude.{ℕ, suc, ◌+◌, ◌-◌, ◌*◌, ◌/◌, ◌%◌, ◌^◌, leb, if◌then◌else◌}
use qword.Prelude.Int.{ℤ, pos, negsuc, sub_ℕ, ◌+ℤ◌, neg_ℤ, pos_part}

-- Division by a positive number, towards zero, and a product with a positive number.
abbrev pub div_ℤ : ℤ → ℕ → ℤ
div_ℤ (pos n) d = pos (n / d)
div_ℤ (negsuc n) d = sub_ℕ 0 (suc n / d)

abbrev pub mul_ℤ : ℕ → ℤ → ℤ
mul_ℤ k (pos n) = pos (k * n)
mul_ℤ k (negsuc n) = sub_ℕ 0 (k * suc n)

-- The Julian day number. (months - 14) / 12 is -1 for the first two months and 0 for the others.
pub get_jdn : ℕ → ℕ → ℕ → ℤ
get_jdn days months years =
    let before = div_ℤ (sub_ℕ months 14) 12 in
    div_ℤ (mul_ℤ 1461 (pos (years + 4800) +ℤ before)) 4
    +ℤ div_ℤ (mul_ℤ 367 (sub_ℕ months 2 +ℤ mul_ℤ 12 (neg_ℤ before))) 12
    +ℤ neg_ℤ (div_ℤ (mul_ℤ 3 (div_ℤ (pos (years + 4900) +ℤ before) 100)) 4)
    +ℤ pos days
    +ℤ sub_ℕ 0 32075

-- Seconds since 1970, in 64 bits.
pub get_unix_epoch : ℕ → ℕ → ℕ → ℕ → ℕ → ℕ → ℕ
get_unix_epoch seconds minutes hours days months years =
    let jdn_diff = pos_part (get_jdn days months years) + 2 ^ 64 - pos_part (get_jdn 1 1 1970) in
    (jdn_diff % 2 ^ 64 * (60 * 60 * 24) + hours * 3600 + minutes * 60 + seconds) % 2 ^ 64

pub record Timeval : Type 0 where
  pub tv_sec : ℕ
  pub tv_usec : ℕ

pub add_timeval : Timeval → Timeval → Timeval
add_timeval val to_add =
    let sec = val.tv_sec + to_add.tv_sec in
    let usec = val.tv_usec + to_add.tv_usec in
    if leb 1000000 usec
    then record { tv_sec = sec + 1; tv_usec = usec - 1000000 }
    else record { tv_sec = sec; tv_usec = usec }

-- `rusage_t`: the times that are added.
pub record Rusage : Type 0 where
  pub ru_utime : Timeval
  pub ru_stime : Timeval

pub add_usage : Rusage → Rusage → Rusage
add_usage usage to_add = record {
  ru_utime = add_timeval usage.ru_utime to_add.ru_utime;
  ru_stime = add_timeval usage.ru_stime to_add.ru_stime;
}
