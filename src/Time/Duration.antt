-- ===== src/Time/Duration.antt =====
-- Sums of durations: `add_timeval` and `add_usage` of root/src/kernel/lib/time.c.
use qword.Prelude.{ℕ, ◌+◌, ◌*◌, ◌<◌, ◌≡◌, arith}
use qword.Time.{Timeval, Rusage, add_timeval, add_usage}

abbrev pub IsTimeval : Timeval → Type 0
IsTimeval t = t.tv_usec < 1000000

-- A duration in microseconds.
abbrev pub in_usec : Timeval → ℕ
in_usec t = t.tv_sec * 1000000 + t.tv_usec

abbrev pub IsSum : Timeval → Timeval → Timeval → Type 0
IsSum a b c = IsTimeval c × (in_usec c ≡ in_usec a + in_usec b)

add_timeval-IsSum : (a b : Timeval) → IsTimeval a → IsTimeval b → IsSum a b (add_timeval a b)
unfolding add_timeval
add_timeval-IsSum a b ha hb = (ground arith, ground arith)

-- The times that `add_usage` leaves are the sums of the times that it was given, with the
-- microseconds below a million again.
pub add_usage-IsSum :
    (a b : Rusage)
    → IsTimeval a.ru_utime
    → IsTimeval a.ru_stime
    → IsTimeval b.ru_utime
    → IsTimeval b.ru_stime
    → IsSum a.ru_utime b.ru_utime (add_usage a b).ru_utime
      × IsSum a.ru_stime b.ru_stime (add_usage a b).ru_stime
unfolding add_usage
add_usage-IsSum a b h1 h2 h3 h4 =
    (add_timeval-IsSum a.ru_utime b.ru_utime h1 h3, add_timeval-IsSum a.ru_stime b.ru_stime h2 h4)
