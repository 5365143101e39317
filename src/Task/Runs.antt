-- ===== src/Task/Runs.antt =====
-- Runs of the scheduler of root/src/kernel/proc/task.c: the calls of all processors, in any order.
use qword.Task.{Thread, TaskSlot, Sched, max_tasks}
use qword.Task.Switch.{relaxed_sleep, task_resched}
use qword.Task.Threads.{
  max_threads, free_slot, free_link, first_free, linked, tcreate_reserve, tcreate_abandon,
  tcreate_enable, abort_event, task_tresume, tpause_finish, tkill_finish, new_thread,
}
use qword.Task.Events.{event_trigger, event_await}
use qword.Task.Exclusive.{runs_on_unique, runs_on-thread, Placed, task_resched-Placed}
use qword.Prelude.{ℕ, zero, suc, ◌+◌, ◌≡◌, Bool, true}
use qword.Prelude.{Option, Option-cases, none, some, inl, inr, arith}

-- A task ID is filled or given back by the call that reserved it. A kill is finished only if the
-- thread is still where it was when the kill began.
pub data Step (stray : ℕ) (s : Sched) (t : Sched) : Type 0 where
  switch : (c : ℕ) → task_resched stray s c ≡ some t → Step stray s t
  sleep : (frequency ms c : ℕ) → relaxed_sleep frequency ms s c ≡ some t → Step stray s t
  trigger : (e : ℕ) → t ≡ event_trigger s e → Step stray s t
  await : (c e : ℕ) (goes : Bool) → event_await s c e ≡ some (goes, t) → Step stray s t
  reserve : (pid : ℕ) → t ≡ (tcreate_reserve s pid).1 → Step stray s t
  abandon :
      (pid tid n : ℕ)
      → s.tasks n ≡ TaskSlot.reserved
      → t ≡ tcreate_abandon s pid tid n
      → Step stray s t
  enable :
      (pid tid n kstack regs fs_base fxstate : ℕ)
      → s.tasks n ≡ TaskSlot.reserved
      → t ≡ tcreate_enable s pid tid n (new_thread pid tid kstack regs fs_base fxstate)
      → Step stray s t
  abort :
      (pid tid : ℕ) (active : Option ℕ) → abort_event s pid tid ≡ some (active, t) → Step stray s t
  resume : (pid tid : ℕ) → task_tresume s pid tid ≡ some t → Step stray s t
  pause :
      (pid tid : ℕ) (active : Option ℕ)
      → tpause_finish stray s pid tid active ≡ some t
      → Step stray s t
  kill :
      (pid tid n : ℕ) (th : Thread)
      → linked s pid tid ≡ some (n, th)
      → tkill_finish s pid tid th.active_on_cpu ≡ some t
      → Step stray s t
  tick : (now : ℕ) → t ≡ record s { uptime = now } → Step stray s t

first_free-free :
    (free : ℕ → Bool) (rounds i j : ℕ) → first_free free rounds i ≡ some j → free j ≡ true
unfolding first_free
first_free-free free zero i j e = ground arith
first_free-free free (suc rounds) i j e = ground (arith, e, first_free-free free rounds (i + 1) j)

Step-Placed : (stray : ℕ) (s t : Sched) → Placed s → Step stray s t → Placed t
unfolding relaxed_sleep event_trigger event_await tcreate_reserve tcreate_abandon tcreate_enable
    abort_event task_tresume tpause_finish tkill_finish task_resched
Step-Placed stray s t placed (Step.switch c e) = task_resched-Placed stray s t c placed e
Step-Placed stray s t placed (Step.sleep frequency ms c e) = λ d n f. ground (arith, e, placed d n)
Step-Placed stray s t placed (Step.trigger e h) = rw h placed
Step-Placed stray s t placed (Step.await c e goes h) = λ d n f. ground (arith, h, placed d n)
Step-Placed stray s t placed (Step.reserve pid e) = λ d n f.
    elim (Option-cases (first_free (λ i. free_link (s.threads pid i)) max_threads 0)) [
      | inl full ↦ ground (arith, e, full, placed d n)
      | inr (tid, got) ↦ elim (Option-cases (first_free (λ i. free_slot (s.tasks i)) max_tasks 0)) [
        | inl full ↦ ground (arith, e, got, full, placed d n)
        | inr (m, free) ↦ ground (
          arith,
          e,
          got,
          free,
          placed d n,
          first_free-free (λ i. free_slot (s.tasks i)) max_tasks 0 m free,
        )
      ]
    ]
Step-Placed stray s t placed (Step.abandon pid tid m r e) =
    λ d n f. ground (arith, e, r, placed d n)
Step-Placed stray s t placed (Step.enable pid tid m kstack regs fs_base fxstate r e) =
    λ d n f. ground (arith, e, r, placed d n)
Step-Placed stray s t placed (Step.abort pid tid active e) = λ d n f. ground (arith, e, placed d n)
Step-Placed stray s t placed (Step.resume pid tid e) = λ d n f. ground (arith, e, placed d n)
Step-Placed stray s t placed (Step.pause pid tid active e) = λ d n f. ground (arith, e, placed d n)
Step-Placed stray s t placed (Step.kill pid tid m th l e) =
    λ d n f. ground (arith, l, e, placed d n)
Step-Placed stray s t placed (Step.tick now e) = rw e placed

-- At the start no processor runs a thread.
pub data Reach (stray : ℕ) : Sched → Type 0 where
  here : {s : Sched} → ((c : ℕ) → (s.cpus c).current_task ≡ none) → Reach stray s
  next : {s t : Sched} → Reach stray s → Step stray s t → Reach stray t

pub Reach-Placed : (stray : ℕ) {s : Sched} → Reach stray s → Placed s
Reach-Placed stray (here {s} idle) = λ c n f. ground (arith, idle c)
Reach-Placed stray (next {s} {t} r step) = Step-Placed stray s t (Reach-Placed stray r) step

-- However the calls of the processors follow each other, a thread that a processor runs is in the
-- table of tasks, locked, with that processor as its `active_on_cpu`; so no thread runs on two
-- processors. Kills that finish late, when the thread has moved, are left out.
pub one_processor :
    (stray : ℕ) {s : Sched}
    → Reach stray s
    → ((c d n : ℕ) → (s.cpus c).current_task ≡ some n → (s.cpus d).current_task ≡ some n → c ≡ d)
      × ((c n : ℕ)
          → (s.cpus c).current_task ≡ some n
          → (th : Thread) × (s.tasks n ≡ TaskSlot.thread th)
            × (th.locked ≡ true)
            × (th.active_on_cpu ≡ some c))
one_processor stray {s} r =
    let placed = Reach-Placed stray r in
    (
      λ c d n f g. runs_on_unique (s.tasks n) c d (placed c n f) (placed d n g),
      λ c n f. runs_on-thread (s.tasks n) c (placed c n f),
    )
