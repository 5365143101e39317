-- ===== src/Task/Threads.antt =====
-- Creation and end of threads, and their pauses, of root/src/kernel/proc/task.c.
--
-- `task_tcreate` holds `scheduler_lock` twice: to reserve its entries, and to fill them or to give
-- them back. A wait of `task_tkill` or `task_tpause` for the end of a system call is between their
-- two steps, so that `active`, read in the first, may be old in the second.
use qword.Task.{
  Thread, TaskSlot, null, dead, reserved, thread, Link, no_link, dead_link, reserved_link, at,
  Sched, max_tasks, update,
}
use qword.Task.Switch.{at_cpu, at_task, idle, task_resched}
use qword.Lock.{spinlock_release}
use qword.Prelude.{
  ℕ, zero, suc, ◌+◌, ◌-◌, ◌==◌, if◌then◌else◌, Bool, true, false, Option, none, some, ◌>>=◌,
}

abbrev pub max_threads : ℕ
max_threads = 1024

abbrev pub free_slot : TaskSlot → Bool
free_slot null = true
free_slot dead = true
free_slot _ = false

abbrev pub free_link : Link → Bool
free_link no_link = true
free_link dead_link = true
free_link _ = false

-- The loops that look for a free place: `rounds` places from `i` on.
unfoldable pub first_free : (ℕ → Bool) → ℕ → ℕ → Option ℕ
first_free free zero i = none
first_free free (suc rounds) i = elim (free i) [
  | true ↦ some i
  | false ↦ first_free free rounds (i + 1)
]

abbrev pub at_link : Sched → ℕ → ℕ → Link → Sched
at_link s pid tid link = record s {
  threads = λ p. if p == pid then update (s.threads pid) tid link else s.threads p;
}

-- The first part of `task_tcreate`: the thread ID and the task ID, or no more of either.
unfoldable pub tcreate_reserve : Sched → ℕ → Option (ℕ × ℕ) × Sched
tcreate_reserve s pid = elim (first_free (λ i. free_link (s.threads pid i)) max_threads 0) [
  | none ↦ (none, s)
  | some tid ↦ elim (first_free (λ i. free_slot (s.tasks i)) max_tasks 0) [
    | none ↦ (none, at_link s pid tid Link.dead_link)
    | some t ↦ (some (tid, t), at_task (at_link s pid tid Link.reserved_link) t TaskSlot.reserved)
  ]
]

-- Its end without memory.
unfoldable pub tcreate_abandon : Sched → ℕ → ℕ → ℕ → Sched
tcreate_abandon s pid tid t = at_task (at_link s pid tid Link.dead_link) t TaskSlot.dead

-- The new thread: what `kalloc` left zero, and what is set; `regs` has the entry point and the stack.
abbrev pub new_thread : ℕ → ℕ → ℕ → ℕ → ℕ → ℕ → Thread
new_thread pid tid kstack regs fs_base default_fxstate = record {
  tid = tid;
  process = pid;
  locked = false;
  in_syscall = false;
  event_abrt = false;
  yield_target = 0;
  paused = false;
  event_ptr = none;
  active_on_cpu = none;
  total_cputime = 0;
  kstack = kstack;
  ustack = 0;
  thread_errno = 0;
  fs_base = fs_base;
  regs = regs;
  fxstate = default_fxstate;
}

-- Its end with a thread.
unfoldable pub tcreate_enable : Sched → ℕ → ℕ → ℕ → Thread → Sched
tcreate_enable s pid tid t th =
    record (at_task (at_link s pid tid (Link.at t)) t (TaskSlot.thread th)) {
      task_count = s.task_count + 1;
    }

-- The thread behind a link; a link to no thread is -1 for the caller.
abbrev pub linked : Sched → ℕ → ℕ → Option (ℕ × Thread)
linked s pid tid = elim (s.threads pid tid) [
  | no_link ↦ none
  | dead_link ↦ none
  | reserved_link ↦ none
  | at t ↦ elim (s.tasks t) [
    | null ↦ none
    | dead ↦ none
    | reserved ↦ none
    | thread th ↦ some (t, th)
  ]
]

-- The first step of `task_tkill` and `task_tpause`: what is read as `active_on_cpu`.
unfoldable pub abort_event : Sched → ℕ → ℕ → Option (Option ℕ × Sched)
abort_event s pid tid = do
  (t, th) ← linked s pid tid
  some (th.active_on_cpu, at_task s t (TaskSlot.thread (record th { event_abrt = true })))

unfoldable pub task_tresume : Sched → ℕ → ℕ → Option Sched
task_tresume s pid tid = do
  (t, th) ← linked s pid tid
  some (at_task s t (TaskSlot.thread (record th { event_abrt = false; paused = false })))

-- The second step of `task_tpause`, on another processor than the thread's. The interrupt runs
-- `task_resched` there, while `scheduler_lock` is held.
unfoldable pub tpause_finish : ℕ → Sched → ℕ → ℕ → Option ℕ → Option Sched
tpause_finish stray s pid tid active = do
  (t, th) ← linked s pid tid
  let paused = at_task s t (TaskSlot.thread (record th { paused = true }))
  elim active [
    | none ↦ some paused
    | some c ↦ do
      after ← task_resched stray (record paused { scheduler_lock = 0 }) c
      some (record after { scheduler_lock = spinlock_release after.scheduler_lock })
  ]

-- `abort_thread_exec`, up to its switch.
abbrev pub abort_thread_exec : Sched → ℕ → Sched
abort_thread_exec s c = at_cpu s c (idle (s.cpus c))

-- The second step of `task_tkill`, where the thread's processor leaves it, be it the caller's or
-- another. The counter is above zero here, since it counts the entries of the table and the thread is
-- one of them.
unfoldable pub tkill_finish : Sched → ℕ → ℕ → Option ℕ → Option Sched
tkill_finish s pid tid active = do
  (t, th) ← linked s pid tid
  let left = elim active as (λ x. Sched) [ none ↦ s | some c ↦ abort_thread_exec s c ]
  some (record (at_link (at_task left t TaskSlot.dead) pid tid Link.dead_link) {
    task_count = left.task_count - 1;
  })
