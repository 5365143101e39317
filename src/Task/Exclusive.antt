-- ===== src/Task/Exclusive.antt =====
-- A thread runs on one processor at most, whatever the processors do with the tables of
-- root/src/kernel/proc/task.c.
use qword.Task.{Thread, TaskSlot, null, dead, reserved, thread, Sched, max_tasks}
use qword.Task.Search.{
  try_thread, NextTask, unfinished, outside, nobody, found, search_tasks, rewind_task, wrap, after,
  task_get_next,
}
use qword.Task.Scan.{ready_at}
use qword.Task.Switch.{at_cpu, at_task, save, take_next, task_resched}
use mathlib.Core.Option.{some-injective}
use qword.Prelude.{
  ℕ, ◌%◌, zero, suc, ◌+◌, ◌==◌, ◌≡◌, ◌≢◌, refl, sym, subst, ◌∙◌, Bool, true, false, Bool-cases,
  ◌&&◌,
}
use qword.Prelude.{Option, Option-cases, none, some, inl, inr, ◌⊎◌, arith}

abbrev pub is_at : Option ℕ → ℕ → Bool
is_at none c = false
is_at (some d) c = d == c

abbrev pub runs_on : TaskSlot → ℕ → Bool
runs_on (thread th) c = th.locked && is_at th.active_on_cpu c
runs_on _ c = false

-- The tasks of all processors but `out` are threads, locked, and know their processor.
abbrev pub PlacedBut : ℕ → Sched → Type 0
PlacedBut out s =
    (c n : ℕ) → c ≢ out → (s.cpus c).current_task ≡ some n → runs_on (s.tasks n) c ≡ true

abbrev pub Placed : Sched → Type 0
Placed s = (c n : ℕ) → (s.cpus c).current_task ≡ some n → runs_on (s.tasks n) c ≡ true

pub runs_on_unique :
    (slot : TaskSlot) (c d : ℕ) → runs_on slot c ≡ true → runs_on slot d ≡ true → c ≡ d
runs_on_unique null c d h k = ground arith
runs_on_unique dead c d h k = ground arith
runs_on_unique reserved c d h k = ground arith
runs_on_unique (thread th) c d h k = ground arith

pub runs_on-thread :
    (slot : TaskSlot) (c : ℕ)
    → runs_on slot c ≡ true
    → (th : Thread) × (slot ≡ TaskSlot.thread th) × (th.locked ≡ true) × (th.active_on_cpu ≡ some c)
runs_on-thread null c h = ground arith
runs_on-thread dead c h = ground arith
runs_on-thread reserved c h = ground arith
runs_on-thread (thread th) c h = (th, refl, ground arith, ground arith)

-- A slot may change for one that runs where it did.
pub at_task-Placed :
    (s : Sched) (n : ℕ) (slot : TaskSlot)
    → Placed s
    → ((c : ℕ) → runs_on (s.tasks n) c ≡ true → runs_on slot c ≡ true)
    → Placed (at_task s n slot)
at_task-Placed s n slot placed same c m e = ground (arith, placed c m e, same c)

-- The loop finds a thread that was ready.
search_tasks-ready :
    (s : Sched) (rounds i current : ℕ) (n : ℕ) (th : Thread) (events : ℕ → ℕ)
    → search_tasks rounds s i current ≡ NextTask.found n th events
    → ready_at s n ≡ some (th, events)
unfolding search_tasks ready_at
search_tasks-ready s zero i current n th events e = ground arith
search_tasks-ready s (suc rounds) i current n th events e = ground (
  arith,
  search_tasks-ready s rounds i (wrap (rewind_task s.tasks current + 1)) n th events,
  search_tasks-ready s rounds (i + 1) (wrap (rewind_task s.tasks current + 1)) n th events,
)

-- A thread that is ready runs nowhere, and is locked when it is found.
ready_at-idle :
    (s : Sched) (n : ℕ) (th : Thread) (events : ℕ → ℕ)
    → ready_at s n ≡ some (th, events)
    → ((c : ℕ) → runs_on (s.tasks n) c ≡ false) × (th.locked ≡ true)
unfolding try_thread ready_at
ready_at-idle s n th events e = (λ c. ground arith, ground arith)

-- Saving a thread leaves the others where they are.
save-PlacedBut : (s saved : Sched) (c : ℕ) → Placed s → save s c ≡ some saved → PlacedBut c saved
unfolding save
save-PlacedBut s saved c placed e d n other f =
    ground (arith, placed d n, placed c n, runs_on_unique (s.tasks n) d c)

NextTask-cases :
    (f : NextTask)
    → (f ≡ NextTask.unfinished)
      ⊎ (f ≡ NextTask.outside)
      ⊎ (f ≡ NextTask.nobody)
      ⊎ ((n : ℕ) × (th : Thread) × (events : ℕ → ℕ) × (f ≡ NextTask.found n th events))
NextTask-cases unfinished = inl refl
NextTask-cases outside = inr (inl refl)
NextTask-cases nobody = inr (inr (inl refl))
NextTask-cases (found n th events) = inr (inr (inr (n, th, events, refl)))

take_next-Placed :
    (stray : ℕ) (s next : Sched) (c : ℕ)
    → PlacedBut c s
    → take_next stray s c ≡ some next
    → Placed next
unfolding take_next task_get_next
take_next-Placed stray s next c placed e d n f =
    let current = (s.cpus c).current_task in
    let timed = at_cpu s c (record (s.cpus c) { last_schedule_time = s.uptime }) in
    elim (NextTask-cases (task_get_next timed current)) [
      | inl none_yet ↦ ground (arith, none_yet)
      | inr (inl out) ↦ ground (arith, out)
      | inr (inr (inl idles)) ↦ ground (arith, idles, placed d n)
      | inr (inr (inr (m, th, events, hit))) ↦
          let (free, locks) =
            ready_at-idle timed m th events
              (search_tasks-ready timed max_tasks 0 (after current) m th events hit) in
          ground (arith, hit, placed d n, free d, locks)
    ]

pub task_resched-Placed :
    (stray : ℕ) (s next : Sched) (c : ℕ)
    → Placed s
    → task_resched stray s c ≡ some next
    → Placed next
unfolding task_resched
task_resched-Placed stray s next c placed e = elim (Bool-cases (s.scheduler_lock % 2 == 1)) [
  | inr busy ↦
      let skips : task_resched stray s c ≡ some s = rw (task_resched, busy) refl in
      let same : s ≡ next = some-injective s next (sym skips ∙ e) in subst Placed same placed
  | inl got ↦ elim (Option-cases (save s c)) [
    | inl lost ↦ ground (arith, e, got, lost)
    | inr (saved, kept) ↦
        let goes : task_resched stray s c ≡ take_next stray saved c =
          rw (task_resched, got, kept) refl in
        take_next-Placed stray saved next c (save-PlacedBut s saved c placed kept) (sym goes ∙ e)
  ]
]
