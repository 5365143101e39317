-- ===== src/Task/Tests.antt =====
-- A machine with two threads at the scheduler of root/src/kernel/proc/task.c.
use qword.Task.{Thread, TaskSlot, Cpu, Link, Sched, update}
use qword.Task.Search.{NextTask, try_thread, rewind_task, search_tasks, task_get_next}
use qword.Task.Scan.{range, live, ready_at, Table}
use qword.Task.Turns.{turn, no_starvation}
use qword.Task.Switch.{save, take_next, task_resched}
use qword.Task.Threads.{first_free, linked, new_thread, tkill_finish}
use qword.Task.Runs.{Step, Reach, Reach-Placed, one_processor}
use qword.Task.Processes.{ProcessSlot, Memory, new_process, pcreate_reserve}
use qword.Task.Kill.{tkill_finish_lem}
use qword.Prelude.{
  ◌==◌, if◌then◌else◌, ◌&&◌, ℕ, suc, ◌<◌, ◌≡◌, ◌≢◌, refl, true, Option, none, some, arith,
}

abbrev idle_cpu : Cpu
idle_cpu = record {
  current_task = none;
  current_thread = none;
  current_process = none;
  last_schedule_time = 0;
  thread_kstack = 0;
  thread_ustack = 0;
  thread_errno = 0;
  fs_base = 0;
  regs = 0;
  fxstate = 0;
  pagemap_of = 0;
}

abbrev empty : Sched
empty = record {
  tasks = λ n. TaskSlot.null;
  threads = λ p i. Link.no_link;
  task_count = 0;
  cpus = λ c. idle_cpu;
  events = λ e. 0;
  uptime = 10;
  scheduler_lock = 1;
}

abbrev first_thread : Thread
first_thread = new_thread 1 0 4096 11 0 7

abbrev second_thread : Thread
second_thread = new_thread 2 0 8192 22 0 7

-- Place 0 has a thread, place 1 is free again, and place 2 has another thread.
abbrev two_threads : Sched
two_threads = record empty {
  tasks =
      update (update (update empty.tasks 0 (TaskSlot.thread first_thread)) 1 TaskSlot.dead) 2
        (TaskSlot.thread second_thread);
  threads = λ p i.
      if p == 1 && i == 0 then Link.at 0 else if p == 2 && i == 0 then Link.at 2 else Link.no_link;
  task_count = 2;
}

two_threads-Table : Table two_threads 3
unfolding live range
two_threads-Table = record {
  size = omega arith;
  used = λ i lt. ground arith;
  unused = λ h. refl;
  count = refl;
}

no_starvation_example : (k : ℕ) × (k < 3) × (turn (λ k. two_threads) (some 1) (suc k) ≡ some 0)
unfolding ready_at try_thread
no_starvation_example =
    no_starvation (λ k. two_threads) (some 1) 3 0 (λ k. two_threads-Table) (λ k. ground arith)
      (omega arith) (omega arith) (omega arith)

abbrev result_of : Option Sched → Sched
result_of none = empty
result_of (some s) = s

-- Processor 3 has taken the first thread.
unfoldable running : Sched
running = result_of (task_resched 0 two_threads 3)

two_threads-runs : task_resched 0 two_threads 3 ≡ some running
unfolding running task_resched save take_next task_get_next search_tasks try_thread rewind_task
two_threads-runs = refl

running_first : (running.cpus 3).current_task ≡ some 0
unfolding running task_resched save take_next task_get_next search_tasks try_thread rewind_task
running_first = refl

running-Reach : Reach 0 running
running-Reach = Reach.next (Reach.here (λ c. refl)) (Step.switch 3 two_threads-runs)

one_processor_example :
    ((c d n : ℕ)
      → (running.cpus c).current_task ≡ some n
      → (running.cpus d).current_task ≡ some n
      → c ≡ d)
    × ((c n : ℕ)
        → (running.cpus c).current_task ≡ some n
        → (th : Thread) × (running.tasks n ≡ TaskSlot.thread th)
          × (th.locked ≡ true)
          × (th.active_on_cpu ≡ some c))
one_processor_example = one_processor 0 running-Reach

-- The first thread, as processor 3 runs it.
abbrev first_running : Thread
first_running = record first_thread { locked = true; active_on_cpu = some 3 }

running-linked : linked running 1 0 ≡ some (0, first_running)
unfolding running task_resched save take_next task_get_next search_tasks try_thread rewind_task
running-linked = refl

running-free : running.scheduler_lock ≡ 1
unfolding running task_resched save take_next task_get_next search_tasks try_thread rewind_task
running-free = refl

tkill_finish_lem_example :
    ((t : Sched)
      → tkill_finish running 1 0 (some 3) ≡ some t
      → ((c : ℕ) → (t.cpus c).current_task ≢ some 0)
        × (t.tasks 0 ≡ TaskSlot.dead)
        × (linked t 1 0 ≡ none))
    × ((t : Sched) (c : ℕ)
        → tkill_finish running 1 0 none ≡ some t
        → (running.cpus c).current_task ≡ some 0
        → task_resched 0 t c ≡ none)
tkill_finish_lem_example =
    tkill_finish_lem 0 running 1 0 0 first_running (Reach-Placed 0 running-Reach) running-free
      running-linked

-- A search from the last place reads behind the table.
outside_at_end :
    task_get_next (record two_threads { task_count = 2 }) (some 1048575) ≡ NextTask.outside
unfolding task_get_next search_tasks
outside_at_end = refl

-- Process 0 is there, and process 1 has ended.
abbrev one_process : ℕ → ProcessSlot
one_process =
    update (update (λ i. ProcessSlot.null) 0 (ProcessSlot.process (new_process 0 0))) 1
      ProcessSlot.ended

abbrev plenty : Memory
plenty = record {
  for_process = true;
  for_threads = true;
  for_file_handles = true;
  for_pagemap = some 77;
}

one_process-next : (pcreate_reserve one_process).0 ≡ some 1
unfolding pcreate_reserve first_free
one_process-next = refl
