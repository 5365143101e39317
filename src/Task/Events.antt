-- ===== src/Task/Events.antt =====
-- Events of root/src/kernel/lib/event.h: counts that threads wait for.
use qword.Task.{TaskSlot, null, dead, reserved, thread, Sched, update}
use qword.Task.Switch.{at_task}
use qword.Dynarray.{inc, dec}
use qword.Prelude.{ℕ, ◌==◌, if◌then◌else◌, Bool, true, false, Option, none, some}

unfoldable pub event_trigger : Sched → ℕ → Sched
event_trigger s e = record s { events = update s.events e (inc (s.events e)) }

-- Whether the caller, the thread of processor `c`, goes on, or yields.
unfoldable pub event_await : Sched → ℕ → ℕ → Option (Bool × Sched)
event_await s c e =
    if s.events e == 0
    then elim (s.cpus c).current_task [
      | none ↦ none
      | some n ↦ elim (s.tasks n) [
        | null ↦ none
        | dead ↦ none
        | reserved ↦ none
        | thread th ↦ some (false, at_task s n (TaskSlot.thread (record th { event_ptr = some e })))
      ]
    ]
    else some (true, record s { events = update s.events e (dec (s.events e)) })
