-- ===== src/Task/Scan.antt =====
-- The search of `task_get_next` in root/src/kernel/proc/task.c against the first ready thread in
-- the order of the table.
use qword.Task.{Thread, TaskSlot, null, dead, reserved, thread, Sched, max_tasks}
use qword.Task.Search.{
  try_thread, NextTask, is_null, wrap, rewind_task, search_tasks, after, task_get_next,
}
use qword.Prelude.{ℕ, zero, suc, ◌+◌, ◌-◌, ◌≤◌, ◌<◌, ltb, leb, ◌≡◌, refl, sym, ap, subst, ◌∙◌}
use mathlib.Core.List.{append-nil}
use qword.Prelude.{
  true, false, Bool-cases, Option, Option-cases, none, some, ◌⊎◌, inl, inr, List, [], ◌∷◌, ◌++◌,
  length, length-append, arith,
}

-- The places from `c` on, `m` of them.
unfoldable pub range : ℕ → ℕ → List ℕ
range c zero = []
range c (suc m) = c ∷ range (c + 1) m

unfoldable pub live : (ℕ → TaskSlot) → List ℕ → ℕ
live tasks [] = 0
live tasks (n ∷ l) = elim (tasks n) [
  | null ↦ live tasks l
  | dead ↦ live tasks l
  | reserved ↦ live tasks l
  | thread th ↦ suc (live tasks l)
]

-- What the loop would find at a place by itself.
unfoldable pub ready_at : Sched → ℕ → Option (Thread × (ℕ → ℕ))
ready_at s n = elim (s.tasks n) [
  | null ↦ none
  | dead ↦ none
  | reserved ↦ none
  | thread th ↦ try_thread s.uptime s.events th
]

-- The first place of a list with a thread that is ready.
unfoldable pub first_ready : Sched → List ℕ → NextTask
first_ready s [] = NextTask.nobody
first_ready s (n ∷ l) = elim (ready_at s n) [
  | none ↦ first_ready s l
  | some result ↦ NextTask.found n (result.0) (result.1)
]

-- The entries before `n` are in use or have been, those from there on never were; and the count of
-- the threads is right.
pub record Table (s : Sched) (n : ℕ) : Type 0 where
  pub size : n ≤ max_tasks
  pub used : (i : ℕ) → i < n → is_null (s.tasks i) ≡ false
  pub unused : n < max_tasks → is_null (s.tasks n) ≡ true
  pub count : s.task_count ≡ live s.tasks (range 0 n)

-- The places that the loop reads from `current` on.
data Follows (s : Sched) : ℕ → List ℕ → Type 0 where
  done : {current : ℕ} → Follows s current []
  read :
      {current n : ℕ} {l : List ℕ}
      → current < max_tasks
      → rewind_task s.tasks current ≡ n
      → is_null (s.tasks n) ≡ false
      → Follows s (wrap (n + 1)) l
      → Follows s current (n ∷ l)

-- A slot is a thread or is passed over, unless it is null.
TaskSlot-cases :
    (t : TaskSlot)
    → is_null t ≡ false
    → (t ≡ TaskSlot.dead) ⊎ (t ≡ TaskSlot.reserved) ⊎ ((th : Thread) × (t ≡ TaskSlot.thread th))
TaskSlot-cases null e = ground arith
TaskSlot-cases dead e = inl refl
TaskSlot-cases reserved e = inr (inl refl)
TaskSlot-cases (thread th) e = inr (inr (th, refl))

nobody-live : (s : Sched) (l : List ℕ) → live s.tasks l ≡ 0 → first_ready s l ≡ NextTask.nobody
unfolding live first_ready ready_at
nobody-live s [] e = refl
nobody-live s (n ∷ l) e = ground (arith, nobody-live s l)

search_tasks-nobody :
    (s : Sched) (rounds i current : ℕ)
    → leb s.task_count i ≡ true
    → search_tasks rounds s i current ≡ NextTask.nobody
unfolding search_tasks
search_tasks-nobody s zero i current e = rw e refl
search_tasks-nobody s (suc rounds) i current e = rw (search_tasks, e) refl

-- The loop and the order of the table, by induction on the rounds.
search_tasks-first :
    (s : Sched) (rounds i : ℕ) {current : ℕ} (l : List ℕ)
    → Follows s current l
    → length l ≤ rounds
    → s.task_count ≡ i + live s.tasks l
    → search_tasks rounds s i current ≡ first_ready s l
unfolding search_tasks first_ready ready_at live
search_tasks-first s rounds i {current} [] f h e =
    search_tasks-nobody s rounds i current (ground (arith, e))
search_tasks-first s zero i (n ∷ l) f h e = ground arith
search_tasks-first s (suc rounds) i {current} (n ∷ l) (read lt at used f) h e =
    let inside : ltb current max_tasks ≡ true = ground (arith, lt) in
    elim (Bool-cases (leb s.task_count i)) [
      | inl all ↦
          search_tasks-nobody s (suc rounds) i current all
          ∙ sym (nobody-live s (n ∷ l) (ground (arith, all, e)))
      | inr more ↦ elim (TaskSlot-cases (s.tasks n) used) [
        | inl gone ↦
            let pass : search_tasks (suc rounds) s i current
                ≡ search_tasks rounds s i (wrap (n + 1)) =
              rw (search_tasks, more, inside, at, gone)
                (ap (λ k. search_tasks rounds s i (wrap (k + 1))) at) in
            let same : live s.tasks (n ∷ l) ≡ live s.tasks l = rw (live, gone) refl in
            let over : first_ready s (n ∷ l) ≡ first_ready s l =
              rw (first_ready, ready_at, gone) refl in
            pass
            ∙ search_tasks-first s rounds i l f (omega arith) (omega (arith, e, same))
            ∙ sym over
        | inr (inl kept) ↦
            let pass : search_tasks (suc rounds) s i current
                ≡ search_tasks rounds s i (wrap (n + 1)) =
              rw (search_tasks, more, inside, at, kept)
                (ap (λ k. search_tasks rounds s i (wrap (k + 1))) at) in
            let same : live s.tasks (n ∷ l) ≡ live s.tasks l = rw (live, kept) refl in
            let over : first_ready s (n ∷ l) ≡ first_ready s l =
              rw (first_ready, ready_at, kept) refl in
            pass
            ∙ search_tasks-first s rounds i l f (omega arith) (omega (arith, e, same))
            ∙ sym over
        | inr (inr (th, here)) ↦ elim (Option-cases (try_thread s.uptime s.events th)) [
          | inl never ↦
              let pass : search_tasks (suc rounds) s i current
                  ≡ search_tasks rounds s (i + 1) (wrap (n + 1)) =
                rw (search_tasks, more, inside, at, here, never)
                  (ap (λ k. search_tasks rounds s (i + 1) (wrap (k + 1))) at) in
              let same : live s.tasks (n ∷ l) ≡ suc (live s.tasks l) = rw (live, here) refl in
              let over : first_ready s (n ∷ l) ≡ first_ready s l =
                rw (first_ready, ready_at, here, never) refl in
              pass
              ∙ search_tasks-first s rounds (i + 1) l f (omega arith) (omega (arith, e, same))
              ∙ sym over
          | inr (result, won) ↦
              let pass : search_tasks (suc rounds) s i current
                  ≡ NextTask.found n (result.0) (result.1) =
                rw (search_tasks, more, inside, at, here, won)
                  (ap (λ k. NextTask.found k (result.0) (result.1)) at) in
              let found : first_ready s (n ∷ l) ≡ NextTask.found n (result.0) (result.1) =
                rw (first_ready, ready_at, here, won) refl in
              pass ∙ sym found
        ]
      ]
    ]

-- The places from `c` on in turn, the rest of them once around.
abbrev pub cycle : ℕ → ℕ → List ℕ
cycle c n = range c (n - c) ++ range 0 c

range-Follows :
    (s : Sched) (n m c : ℕ) (rest : List ℕ)
    → Table s n
    → c + m ≤ n
    → Follows s (wrap (c + m)) rest
    → Follows s (wrap c) (range c m ++ rest)
unfolding range rewind_task
range-Follows s n zero c rest table h f =
    let same : c + 0 ≡ c = omega arith in subst (λ k. Follows s (wrap k) rest) same f
range-Follows s n (suc m) c rest table h f =
    let used = table.used c (omega arith) in
    let same : c + suc m ≡ c + 1 + m = omega arith in
    let here : wrap c ≡ c = ground (arith, table.size) in
    subst (λ k. Follows s k (range c (suc m) ++ rest)) (sym here)
      (read (ground (arith, table.size)) (ground (arith, used)) used (
        range-Follows s n m (c + 1) rest table (omega arith)
          (subst (λ k. Follows s (wrap k) rest) same f)))

-- After the last entry in use the loop is back at the first.
again-Follows : (s : Sched) (n c : ℕ) → Table s n → c ≤ n → Follows s (wrap n) (range 0 c)
unfolding range rewind_task
again-Follows s n zero table h = done
again-Follows s n (suc c) table h =
    let rest = range-Follows s n c 1 [] table (omega arith) done in
    read (ground (arith, table.size)) (ground (arith, table.size, table.unused))
      (table.used 0 (omega arith)) (subst (λ l. Follows s (wrap 1) l) (append-nil (range 1 c)) rest)

cycle-Follows : (s : Sched) (n c : ℕ) → Table s n → c ≤ n → c < max_tasks → Follows s c (cycle c n)
cycle-Follows s n c table h inside =
    let here : wrap c ≡ c = ground (arith, inside) in
    let last : n ≡ c + (n - c) = omega arith in
    subst (λ k. Follows s k (cycle c n)) here
      (range-Follows s n (n - c) c (range 0 c) table (omega arith)
        (subst (λ k. Follows s (wrap k) (range 0 c)) last (again-Follows s n c table h)))

live-append :
    (tasks : ℕ → TaskSlot) (l k : List ℕ) → live tasks (l ++ k) ≡ live tasks l + live tasks k
unfolding live
live-append tasks [] k = omega arith
live-append tasks (n ∷ l) k = ground (arith, live-append tasks l k)

range-append : (c m k : ℕ) → range c (m + k) ≡ range c m ++ range (c + m) k
unfolding range
range-append c zero k = ground arith
range-append c (suc m) k =
    let same : c + 1 + m ≡ c + suc m = omega arith in
    let assoc : suc m + k ≡ suc (m + k) = omega arith in
    ap (range c) assoc
    ∙ ap (λ l. c ∷ l) (range-append (c + 1) m k ∙ ap (λ d. range (c + 1) m ++ range d k) same)

length-range : (c m : ℕ) → length (range c m) ≡ m
unfolding range
length-range c zero = refl
length-range c (suc m) = omega (arith, length-range (c + 1) m)

pub task_get_next_lem :
    (s : Sched) (n : ℕ) (current : Option ℕ)
    → Table s n
    → after current ≤ n
    → after current < max_tasks
    → task_get_next s current ≡ first_ready s (cycle (after current) n)
unfolding task_get_next
task_get_next_lem s n current table h inside =
    let c : ℕ = after current in
    search_tasks-first s max_tasks 0 (cycle c n) (cycle-Follows s n c table h inside)
      (omega (
        arith,
        table.size,
        length-append (range c (n - c)) (range 0 c),
        length-range c (n - c),
        length-range 0 c,
      ))
      (let parts : c + (n - c) ≡ n = omega arith in
        let first : 0 + c ≡ c = omega arith in
        let split : range 0 n ≡ range 0 c ++ range c (n - c) =
          ap (range 0) (sym parts)
          ∙ range-append 0 c (n - c)
          ∙ ap (λ d. range 0 c ++ range d (n - c)) first in
        table.count
        ∙ ap (live s.tasks) split
        ∙ omega (
          arith,
          live-append s.tasks (range 0 c) (range c (n - c)),
          live-append s.tasks (range c (n - c)) (range 0 c),
        ))
