-- ===== src/Task.antt =====
-- The scheduler of root/src/kernel/proc/task.c: the table of tasks and what each processor runs.
--
-- A thread is named by its place in `task_table`, `task_id`; the pointers to it in the tables of the
-- processes are links to that place. Everything between an acquire and the release of
-- `scheduler_lock` is one step. Register and FPU contents are numbers.
pub mod Search
pub mod Scan
pub mod Turns
pub mod Switch
pub mod Threads
pub mod Processes
pub mod Events
pub mod Exclusive
pub mod Runs
pub mod Kill
mod Tests
use qword.Prelude.{ℕ, ◌==◌, if◌then◌else◌, Bool, Option}

abbrev pub max_tasks : ℕ
max_tasks = 1048576

-- `thread_t`. Numbers that are -1 for "none" are options.
pub record Thread : Type 0 where
  pub tid : ℕ
  pub process : ℕ
  pub locked : Bool
  pub in_syscall : Bool
  pub event_abrt : Bool
  pub yield_target : ℕ
  pub paused : Bool
  pub event_ptr : Option ℕ
  pub active_on_cpu : Option ℕ
  pub total_cputime : ℕ
  pub kstack : ℕ
  pub ustack : ℕ
  pub thread_errno : ℕ
  pub fs_base : ℕ
  pub regs : ℕ
  pub fxstate : ℕ

-- An entry of `task_table`: a null pointer, `EMPTY`, the placeholder -2, or a thread.
pub data TaskSlot : Type 0 where
  null : TaskSlot
  dead : TaskSlot
  reserved : TaskSlot
  thread : Thread → TaskSlot

-- `cpu_local_t`, with the registers that the scheduler loads.
pub record Cpu : Type 0 where
  pub current_task : Option ℕ
  pub current_thread : Option ℕ
  pub current_process : Option ℕ
  pub last_schedule_time : ℕ
  pub thread_kstack : ℕ
  pub thread_ustack : ℕ
  pub thread_errno : ℕ
  pub fs_base : ℕ
  pub regs : ℕ
  pub fxstate : ℕ
  pub pagemap_of : ℕ

-- A pointer to a thread in the table of a process.
pub data Link : Type 0 where
  no_link : Link
  dead_link : Link
  reserved_link : Link
  at : ℕ → Link

pub record Sched : Type 0 where
  pub tasks : ℕ → TaskSlot
  pub threads : ℕ → ℕ → Link
  pub task_count : ℕ
  pub cpus : ℕ → Cpu
  pub events : ℕ → ℕ
  pub uptime : ℕ
  pub scheduler_lock : ℕ

-- A function with one value replaced.
abbrev pub update {ℓ} : {A : Type ℓ} → (ℕ → A) → ℕ → A → ℕ → A
update f i a j = if j == i then a else f j
