-- ===== src/Task/Processes.antt =====
-- Creation of processes, `task_pcreate`, and their child events, of root/src/kernel/proc/task.c.
--
-- `process_table` is a function from process IDs. As with threads, an entry is reserved in one step
-- and filled in another.
use qword.Task.{update}
use qword.Dynarray.{inc}
use qword.Task.Threads.{first_free}
use qword.Prelude.{
  ℕ, zero, suc, ◌+◌, ◌-◌, ◌<◌, ◌≡◌, ◌≢◌, Bool, true, false, Option, Option-cases, none, some, List,
  [], ◌∷◌, ◌++◌, inl, inr, arith,
}

abbrev pub max_processes : ℕ
max_processes = 65536

abbrev pub base_brk_location : ℕ
base_brk_location = 131941395333120

-- `process_t`; a file handle of -1 is none, and the path of the directory is its characters.
pub record Process : Type 0 where
  pub pid : ℕ
  pub pagemap : ℕ
  pub cwd : List ℕ
  pub file_handles : ℕ → Option ℕ
  pub cur_brk : ℕ
  pub child_events : List (ℕ × ℕ)
  pub child_event : ℕ
  pub own_usage : ℕ
  pub child_usage : ℕ
  pub sa_handler : ℕ → ℕ

-- An entry: null, `EMPTY`, the placeholder -2, or a process.
pub data ProcessSlot : Type 0 where
  null : ProcessSlot
  ended : ProcessSlot
  starting : ProcessSlot
  process : Process → ProcessSlot

abbrev pub free_entry : ProcessSlot → Bool
free_entry null = true
free_entry ended = true
free_entry _ = false

-- `SIG_DFL`
abbrev pub sig_dfl : ℕ
sig_dfl = 0

-- `"/"`
abbrev pub root_path : List ℕ
root_path = 47 ∷ []

abbrev pub new_process : ℕ → ℕ → Process
new_process pid pagemap = record {
  pid = pid;
  pagemap = pagemap;
  cwd = root_path;
  file_handles = λ i. none;
  cur_brk = base_brk_location;
  child_events = [];
  child_event = 0;
  own_usage = 0;
  child_usage = 0;
  sa_handler = λ i. sig_dfl;
}

-- What the allocations of a call return: whether there is memory for the process, its threads and
-- its file handles, and the new address space.
pub record Memory : Type 0 where
  pub for_process : Bool
  pub for_threads : Bool
  pub for_file_handles : Bool
  pub for_pagemap : Option ℕ

-- The first part of `task_pcreate`; the last ID is never given out.
unfoldable pub pcreate_reserve : (ℕ → ProcessSlot) → Option ℕ × (ℕ → ProcessSlot)
pcreate_reserve table = elim (first_free (λ i. free_entry (table i)) (max_processes - 1) 0) [
  | none ↦ (none, table)
  | some pid ↦ (some pid, update table pid ProcessSlot.starting)
]

-- The second part: the ID again, or none where memory runs out.
unfoldable pub pcreate_fill : Memory → ℕ → (ℕ → ProcessSlot) → Option ℕ × (ℕ → ProcessSlot)
pcreate_fill memory pid table =
    let failed : Option ℕ × (ℕ → ProcessSlot) = (none, update table pid ProcessSlot.ended) in
    elim memory.for_process [
      | false ↦ failed
      | true ↦ elim memory.for_threads [
        | false ↦ failed
        | true ↦ elim memory.for_file_handles [
          | false ↦ failed
          | true ↦ elim memory.for_pagemap [
            | none ↦ failed
            | some pagemap ↦
                (some pid, update table pid (ProcessSlot.process (new_process pid pagemap)))
          ]
        ]
      ]
    ]

-- `task_send_child_event`, if the memory for the longer list is there.
unfoldable pub task_send_child_event : (ℕ → ProcessSlot) → ℕ → ℕ × ℕ → Option (ℕ → ProcessSlot)
task_send_child_event table pid event = elim (table pid) [
  | null ↦ none
  | ended ↦ none
  | starting ↦ none
  | process p ↦ some (
      update table pid (
        ProcessSlot.process (record p {
          child_events = p.child_events ++ (event ∷ []);
          child_event = inc p.child_event;
        })))
]

first_free_lem :
    (free : ℕ → Bool) (rounds i j : ℕ)
    → first_free free rounds i ≡ some j
    → (free j ≡ true) × (j < i + rounds)
unfolding first_free
first_free_lem free zero i j e = ground arith
first_free_lem free (suc rounds) i j e = ground (arith, e, first_free_lem free rounds (i + 1) j)

reserve-first :
    (table : ℕ → ProcessSlot) (pid : ℕ)
    → (pcreate_reserve table).0 ≡ some pid
    → first_free (λ i. free_entry (table i)) (max_processes - 1) 0 ≡ some pid
unfolding pcreate_reserve
reserve-first table pid e = ground (arith, e)

reserve-free :
    (table : ℕ → ProcessSlot) (pid : ℕ)
    → (pcreate_reserve table).0 ≡ some pid
    → free_entry (table pid) ≡ true
reserve-free table pid e =
    (first_free_lem (λ i. free_entry (table i)) (max_processes - 1) 0 pid
      (reserve-first table pid e)).0

-- Two calls that overlap get two process IDs, both below the last one. A call fails only if no ID is
-- free or memory runs out, and then no process is new; a call that succeeds leaves a new
-- process at its ID, with the address space that it got, and every other entry as it was.
pub task_pcreate_lem :
    (table : ℕ → ProcessSlot) (memory : Memory) (pid : ℕ)
    → (pcreate_reserve table).0 ≡ some pid
    → (free_entry (table pid) ≡ true)
      × (pid < max_processes - 1)
      × ((pcreate_reserve ((pcreate_reserve table).1)).0 ≢ some pid)
      × ((during : ℕ → ProcessSlot)
          → ((pcreate_fill memory pid during).0 ≡ none
              → free_entry ((pcreate_fill memory pid during).1 pid) ≡ true)
            × ((pcreate_fill memory pid during).0 ≢ none
                → (pagemap : ℕ) × (memory.for_pagemap ≡ some pagemap)
                  × ((pcreate_fill memory pid during).1 pid
                      ≡ ProcessSlot.process (new_process pid pagemap)))
            × ((i : ℕ) → i ≢ pid → (pcreate_fill memory pid during).1 i ≡ during i))
unfolding pcreate_reserve pcreate_fill
task_pcreate_lem table memory pid e =
    let (free, bound) =
      first_free_lem (λ i. free_entry (table i)) (max_processes - 1) 0 pid
        (reserve-first table pid e) in
    (
      free,
      omega (arith, bound),
      λ f. ground (arith, reserve-free (pcreate_reserve table).1 pid f, e),
      λ during. (
        λ f. ground (arith, f),
        λ f. elim (Option-cases memory.for_pagemap) [
          | inl out ↦ ground (arith, f, out)
          | inr (pagemap, got) ↦ (pagemap, got, ground (arith, f, got))
        ],
        λ i other. ground (arith, other),
      ),
    )
