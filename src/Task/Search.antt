-- ===== src/Task/Search.antt =====
-- `task_get_next` of root/src/kernel/proc/task.c: the search for the next thread to run.
use qword.Task.{Thread, TaskSlot, null, dead, reserved, thread, Sched, max_tasks, update}
use qword.Prelude.{ℕ, zero, suc, ◌+◌, ◌==◌, ltb, leb, if◌then◌else◌, Bool, true, false, ◌||◌}
use qword.Prelude.{Option, none, some}
use qword.Dynarray.{dec}

-- The wait for an event at the end of a try: the thread, locked, and the counts of the events.
abbrev pub take_event : (ℕ → ℕ) → Thread → Option (Thread × (ℕ → ℕ))
take_event events th = elim th.event_ptr [
  | none ↦ some (record th { locked = true }, events)
  | some e ↦
      if th.event_abrt
      then some (record th { locked = true }, events)
      else (if events e == 0
          then none
          else some
              (record th { locked = true; event_ptr = none }, update events e (dec (events e))))
]

-- A try at a thread; nothing where the loop goes to `next`.
unfoldable pub try_thread : ℕ → (ℕ → ℕ) → Thread → Option (Thread × (ℕ → ℕ))
try_thread uptime events th =
    if ltb uptime th.yield_target || th.locked || th.paused then none else take_event events th

-- The end of the search: a read outside of the table or through a null pointer, no thread, or a
-- thread with its place, locked, and the counts of the events. `unfinished` if the loop goes on.
pub data NextTask : Type 0 where
  unfinished : NextTask
  outside : NextTask
  nobody : NextTask
  found : ℕ → Thread → (ℕ → ℕ) → NextTask

abbrev pub is_null : TaskSlot → Bool
is_null null = true
is_null _ = false

abbrev pub wrap : ℕ → ℕ
wrap n = if n == max_tasks then 0 else n

-- The place that is read: a null pointer ends the table.
unfoldable pub rewind_task : (ℕ → TaskSlot) → ℕ → ℕ
rewind_task tasks current = if is_null (tasks current) then 0 else current

-- The loop, with `rounds` to go, after `i` tries, at place `current`.
unfoldable pub search_tasks : ℕ → Sched → ℕ → ℕ → NextTask
search_tasks zero s i current = if leb s.task_count i then NextTask.nobody else NextTask.unfinished
search_tasks (suc rounds) s i current = elim (leb s.task_count i) [
  | true ↦ NextTask.nobody
  | false ↦ elim (ltb current max_tasks) [
    | false ↦ NextTask.outside
    | true ↦ elim (s.tasks (rewind_task s.tasks current)) [
      | null ↦ NextTask.outside
      | dead ↦ search_tasks rounds s i (wrap (rewind_task s.tasks current + 1))
      | reserved ↦ search_tasks rounds s i (wrap (rewind_task s.tasks current + 1))
      | thread th ↦ elim (try_thread s.uptime s.events th) [
        | none ↦ search_tasks rounds s (i + 1) (wrap (rewind_task s.tasks current + 1))
        | some result ↦ NextTask.found (rewind_task s.tasks current) (result.0) (result.1)
      ]
    ]
  ]
]

-- Where the search starts.
abbrev pub after : Option ℕ → ℕ
after none = 0
after (some current) = current + 1

unfoldable pub task_get_next : Sched → Option ℕ → NextTask
task_get_next s current = search_tasks max_tasks s 0 (after current)
