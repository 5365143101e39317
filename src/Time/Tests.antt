-- ===== src/Time/Tests.antt =====
-- Runs of root/src/kernel/lib/time.c on a leap day and on short durations.
use qword.Prelude.{◌+◌, ◌≡◌, arith}
use qword.Prelude.Int.{pos, ◌+ℤ◌}
use qword.Time.{Timeval, Rusage, get_jdn, get_unix_epoch}
use qword.Time.Calendar.{get_unix_epoch-next_day}

get_unix_epoch-next_day_example :
    (get_jdn 1 3 2020 ≡ get_jdn 29 2 2020 +ℤ pos 1)
    × (get_unix_epoch 5 4 3 1 3 2020 ≡ get_unix_epoch 5 4 3 29 2 2020 + 86400)
    × (get_unix_epoch 0 0 0 1 1 1970 ≡ 0)
get_unix_epoch-next_day_example =
    get_unix_epoch-next_day 5 4 3 29 2 2020
      (omega arith, omega arith, omega arith, omega arith, omega arith, omega arith) (omega arith)
      (omega arith) (omega arith)

abbrev short : Timeval
short = record { tv_sec = 1; tv_usec = 700000 }

abbrev usage : Rusage
usage = record { ru_utime = short; ru_stime = short }
