-- ===== src/Task/Kill.antt =====
-- The end of a thread by `task_tkill` and its pause by `task_tpause`, of root/src/kernel/proc/task.c.
use qword.Task.{Thread, TaskSlot, Sched}
use qword.Task.Switch.{save, task_resched}
use qword.Task.Threads.{linked, tpause_finish, tkill_finish}
use qword.Task.Exclusive.{Placed}
use qword.Prelude.{ℕ, ◌≡◌, ◌≢◌}
use qword.Prelude.{none, some, arith}

-- A kill that still finds the thread where it was when the kill began takes it off its processor:
-- then no processor runs it, and its entries are free. A kill that waited for the end of a system
-- call, and finds a thread running that ran nowhere before, frees it under the processor: the next
-- `task_resched` there goes through an entry that is no thread.
pub tkill_finish_lem :
    (stray : ℕ) (s : Sched) (pid tid n : ℕ) (th : Thread)
    → Placed s
    → s.scheduler_lock ≡ 1
    → linked s pid tid ≡ some (n, th)
    → ((t : Sched)
        → tkill_finish s pid tid th.active_on_cpu ≡ some t
        → ((c : ℕ) → (t.cpus c).current_task ≢ some n)
          × (t.tasks n ≡ TaskSlot.dead)
          × (linked t pid tid ≡ none))
      × ((t : Sched) (c : ℕ)
          → tkill_finish s pid tid none ≡ some t
          → (s.cpus c).current_task ≡ some n
          → task_resched stray t c ≡ none)
unfolding tkill_finish task_resched save
tkill_finish_lem stray s pid tid n th placed free link = (
  λ t e. (
    λ c f. ground (arith, link, e, placed c n),
    ground (arith, link, e),
    ground (arith, link, e),
  ),
  λ t c e f. ground (arith, free, link, e, f),
)

-- A pause of a thread that runs does not stop it: its processor goes on with it.
tpause_finish-runs :
    (stray : ℕ) (s : Sched) (pid tid n c : ℕ) (th : Thread)
    → linked s pid tid ≡ some (n, th)
    → (s.cpus c).current_task ≡ some n
    → (tpause_finish stray s pid tid (some c) ≢ none)
      × ((t : Sched)
          → tpause_finish stray s pid tid (some c) ≡ some t
          → (t.cpus c).current_task ≡ some n)
unfolding tpause_finish task_resched
tpause_finish-runs stray s pid tid n c th link runs =
    (λ e. ground (arith, link, e), λ t e. ground (arith, link, e, runs))
