-- ===== src/Task/Switch.antt =====
-- `task_resched` of root/src/kernel/proc/task.c: a processor saves its thread and takes the next one.
--
-- A result of `none` is an access outside of the table or through a pointer to no thread.
use qword.Task.{Thread, TaskSlot, null, dead, reserved, thread, Cpu, Sched, update}
use qword.Task.Search.{unfinished, outside, nobody, found, task_get_next}
use qword.Lock.{spinlock_test_and_acquire}
use qword.Prelude.{
  ℕ, ◌+◌, ◌-◌, ◌*◌, ◌/◌, ◌%◌, ◌^◌, ◌==◌, if◌then◌else◌, Bool, true, false, Option, none, some,
  ◌>>=◌,
}

abbrev pub at_cpu : Sched → ℕ → Cpu → Sched
at_cpu s c cpu = record s { cpus = update s.cpus c cpu }

abbrev pub at_task : Sched → ℕ → TaskSlot → Sched
at_task s t slot = record s { tasks = update s.tasks t slot }

-- Any number but 0, also -1.
abbrev pub not_kernel : Option ℕ → Bool
not_kernel none = true
not_kernel (some p) = if p == 0 then false else true

-- The context of the processor, saved at its thread, which is unlocked. Times wrap around.
abbrev pub save_thread : ℕ → Cpu → Thread → Thread
save_thread uptime cpu th =
    if not_kernel cpu.current_process
    then record th {
      active_on_cpu = none;
      regs = cpu.regs;
      fxstate = cpu.fxstate;
      ustack = cpu.thread_ustack;
      thread_errno = cpu.thread_errno;
      total_cputime =
          (th.total_cputime + (uptime + 2 ^ 64 - cpu.last_schedule_time) % 2 ^ 64) % 2 ^ 64;
      locked = false;
    }
    else record th { active_on_cpu = none; regs = cpu.regs; locked = false }

unfoldable pub save : Sched → ℕ → Option Sched
save s c = elim (s.cpus c).current_task [
  | none ↦ some s
  | some t ↦ elim (s.tasks t) [
    | null ↦ none
    | dead ↦ none
    | reserved ↦ none
    | thread th ↦ some (at_task s t (TaskSlot.thread (save_thread s.uptime (s.cpus c) th)))
  ]
]

-- `idle`
abbrev pub idle : Cpu → Cpu
idle cpu = record cpu {
  current_task = none;
  current_thread = none;
  current_process = none;
  pagemap_of = 0;
}

-- The process of the thread that ran before; `stray` is what a read through no thread returns.
abbrev pub last_process : ℕ → (ℕ → TaskSlot) → Option ℕ → ℕ
last_process stray tasks none = stray
last_process stray tasks (some t) = elim (tasks t) [
  | null ↦ stray
  | dead ↦ stray
  | reserved ↦ stray
  | thread th ↦ th.process
]

-- The thread of place `n`, loaded by a processor that ran a thread of process `last`.
abbrev pub load_thread : Cpu → ℕ → Thread → ℕ → Cpu
load_thread cpu n th last =
    let named = record cpu {
      current_task = some n;
      current_thread = some th.tid;
      current_process = some th.process;
      regs = th.regs;
      pagemap_of = if last == th.process then cpu.pagemap_of else th.process;
    } in
    if th.process == 0 then named else record named {
      thread_kstack = th.kstack;
      thread_ustack = th.ustack;
      thread_errno = th.thread_errno;
      fxstate = th.fxstate;
      fs_base = th.fs_base;
    }

-- The scheduler, with `scheduler_lock` held, from the saved state on.
unfoldable pub take_next : ℕ → Sched → ℕ → Option Sched
take_next stray s c =
    let current = (s.cpus c).current_task in
    let timed = at_cpu s c (record (s.cpus c) { last_schedule_time = s.uptime }) in
    elim (task_get_next timed current) [
      | unfinished ↦ none
      | outside ↦ none
      | nobody ↦ some (at_cpu timed c (idle (timed.cpus c)))
      | found n th events ↦
          let active = at_task timed n (TaskSlot.thread (record th { active_on_cpu = some c })) in
          some
            (record (at_cpu active c
              (load_thread (timed.cpus c) n th (last_process stray active.tasks current))) {
                events = events;
              })
    ]

abbrev pub reschedule : ℕ → Sched → ℕ → Option Sched
reschedule stray s c = do saved ← save s c; take_next stray saved c

-- If the lock is taken, the processor goes on.
unfoldable pub task_resched : ℕ → Sched → ℕ → Option Sched
task_resched stray s c =
    if (spinlock_test_and_acquire s.scheduler_lock).0 then reschedule stray s c else some s

-- `relaxed_sleep` up to `force_resched`, which lets `scheduler_lock` go first.
unfoldable pub relaxed_sleep : ℕ → ℕ → Sched → ℕ → Option Sched
relaxed_sleep pit_frequency ms s c = elim (s.cpus c).current_task [
  | none ↦ none
  | some t ↦ elim (s.tasks t) [
    | null ↦ none
    | dead ↦ none
    | reserved ↦ none
    | thread th ↦
        let target = (s.uptime + ms * (pit_frequency / 1000) + 1) % 2 ^ 64 in
        some (at_task s t (TaskSlot.thread (record th { yield_target = target })))
  ]
]
