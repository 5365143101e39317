-- ===== src/Task/Turns.antt =====
-- Turns of the threads at a processor: no thread that is ready is passed over for ever by
-- `task_get_next` of root/src/kernel/proc/task.c.
use qword.Task.{Thread, Sched, max_tasks}
use qword.Task.Search.{NextTask, found, after, task_get_next}
use qword.Task.Scan.{range, ready_at, first_ready, cycle, Table, task_get_next_lem}
use mathlib.Core.List.{append-nil}
use qword.Prelude.{
  ℕ, zero, suc, ◌+◌, ◌-◌, ◌≤◌, ◌<◌, ◌≡◌, ◌≢◌, refl, ap, subst, ◌∙◌, Option, Option-cases, none,
  some, inl, inr, ◌⊎◌, List, [], ◌∷◌, ◌++◌, arith, Bool-cases, leb, if◌then◌else◌,
}

-- The place of a thread that was found.
abbrev pub place : NextTask → Option ℕ
place (found n th events) = some n
place _ = none

-- What a processor runs after `k` calls, on a table that others change between them.
unfoldable pub turn : (ℕ → Sched) → Option ℕ → ℕ → Option ℕ
turn states current zero = current
turn states current (suc k) = place (task_get_next (states k) (turn states current k))

first_ready-hit :
    (s : Sched) (n : ℕ) (l : List ℕ) (result : Thread × (ℕ → ℕ))
    → ready_at s n ≡ some result
    → place (first_ready s (n ∷ l)) ≡ some n
unfolding first_ready
first_ready-hit s n l result e = rw (place, first_ready, e) refl

first_ready-miss :
    (s : Sched) (n : ℕ) (l : List ℕ) → ready_at s n ≡ none → first_ready s (n ∷ l) ≡ first_ready s l
unfolding first_ready
first_ready-miss s n l e = rw (first_ready, e) refl

-- A search that comes by a ready thread finds it or one before it.
range-found :
    (s : Sched) (n m c : ℕ) (rest : List ℕ)
    → c ≤ n
    → n < c + m
    → ready_at s n ≢ none
    → (k : ℕ) × (c ≤ k) × (k ≤ n) × (place (first_ready s (range c m ++ rest)) ≡ some k)
unfolding range
range-found s n zero c rest low high r = let never : ⊥ = omega arith in elim never [ ]
range-found s n (suc m) c rest low high r = elim (Option-cases (ready_at s c)) [
  | inr (result, hit) ↦
      (c, omega arith, low, first_ready-hit s c (range (c + 1) m ++ rest) result hit)
  | inl miss ↦
      let other : c ≢ n = λ e. r (subst (λ j. ready_at s j ≡ none) e miss) in
      let (k, l, h, e) = range-found s n m (c + 1) rest (omega (arith, other)) (omega arith) r in
      (k, omega arith, h, ap place (first_ready-miss s c (range (c + 1) m ++ rest) miss) ∙ e)
]

-- A search finds a thread of a range or goes on behind it.
range-passed :
    (s : Sched) (m c : ℕ) (rest : List ℕ)
    → ((k : ℕ) × (c ≤ k) × (k < c + m) × (place (first_ready s (range c m ++ rest)) ≡ some k))
      ⊎ (first_ready s (range c m ++ rest) ≡ first_ready s rest)
unfolding range
range-passed s zero c rest = inr refl
range-passed s (suc m) c rest = elim (Option-cases (ready_at s c)) [
  | inr (result, hit) ↦
      inl (c, omega arith, omega arith, first_ready-hit s c (range (c + 1) m ++ rest) result hit)
  | inl miss ↦
      let over : first_ready s (c ∷ (range (c + 1) m ++ rest))
          ≡ first_ready s (range (c + 1) m ++ rest) =
        first_ready-miss s c (range (c + 1) m ++ rest) miss in
      elim (range-passed s m (c + 1) rest) [
        | inl (k, l, h, e) ↦ inl (k, omega arith, omega arith, ap place over ∙ e)
        | inr passed ↦ inr (over ∙ passed)
      ]
]

-- How far a place is ahead, around a table of length `n`.
unfoldable distance : ℕ → ℕ → ℕ → ℕ
distance n c i = if leb c i then i - c else n - c + i

distance-straight :
    (n c i k : ℕ) → c ≤ k → k ≤ i → (k ≡ i) ⊎ (distance n (k + 1) i < distance n c i)
unfolding distance
distance-straight n c i k l u = ground arith

distance-around :
    (n c i k : ℕ) → i < c → c ≤ k → k < n → (k ≡ i) ⊎ (distance n (k + 1) i < distance n c i)
unfolding distance
distance-around n c i k b l u = inr (ground arith)

distance-again :
    (n c i k : ℕ) → i < c → c ≤ n → k ≤ i → (k ≡ i) ⊎ (distance n (k + 1) i < distance n c i)
unfolding distance
distance-again n c i k b h u = ground arith

distance-below : (n c i : ℕ) → c ≤ n → i < n → distance n c i < n
unfolding distance
distance-below n c i h lt = ground arith

-- One search on the way to a ready thread: it is found, or a thread before it.
cycle-found :
    (s : Sched) (n c i : ℕ)
    → c ≤ n
    → i < n
    → ready_at s i ≢ none
    → (k : ℕ) × (k < n)
      × (place (first_ready s (cycle c n)) ≡ some k)
      × ((k ≡ i) ⊎ (distance n (k + 1) i < distance n c i))
unfolding distance
cycle-found s n c i h lt r = elim (Bool-cases (leb c i)) [
  | inl ahead ↦
      let (k, l, u, e) = range-found s i (n - c) c (range 0 c) (ground arith) (omega arith) r in
      (k, omega arith, e, distance-straight n c i k l u)
  | inr behind ↦ elim (range-passed s (n - c) c (range 0 c)) [
    | inl (k, l, u, e) ↦ (k, omega arith, e, distance-around n c i k (ground arith) l (omega arith))
    | inr passed ↦
        let (k, l, u, e) = range-found s i c 0 [] (omega arith) (ground arith) r in
        (
          k,
          omega arith,
          ap place passed
              ∙ subst (λ l. place (first_ready s l) ≡ some k) (append-nil (range 0 c)) e,
          distance-again n c i k (ground arith) h u,
        )
  ]
]

turn-shift :
    (states : ℕ → Sched) (current : Option ℕ) (k : ℕ)
    → turn states current (suc k) ≡ turn (λ j. states (suc j)) (turn states current 1) k
unfolding turn
turn-shift states current zero = refl
turn-shift states current (suc k) =
    ap (λ c. place (task_get_next (states (suc k)) c)) (turn-shift states current k)

-- The same for a thread at most `d` places ahead.
soon :
    (d : ℕ) (states : ℕ → Sched) (current : Option ℕ) (n i : ℕ)
    → ((k : ℕ) → Table (states k) n)
    → ((k : ℕ) → ready_at (states k) i ≢ none)
    → n < max_tasks
    → after current ≤ n
    → i < n
    → distance n (after current) i < d
    → (k : ℕ) × (k < d) × (turn states current (suc k) ≡ some i)
unfolding turn
soon zero states current n i tables ready room low lt near =
    let never : ⊥ = omega arith in elim never [ ]
soon (suc d) states current n i tables ready room low lt near =
    let (j, inside, e, closer) = cycle-found (states 0) n (after current) i low lt (ready 0) in
    let first : turn states current 1 ≡ some j =
      ap place (task_get_next_lem (states 0) n current (tables 0) low (omega arith)) ∙ e in
    elim closer [
      | inl same ↦ (0, omega arith, first ∙ ap some same)
      | inr less ↦
          let (k, bound, hit) =
            soon d (λ k. states (suc k)) (some j) n i (λ k. tables (suc k)) (λ k. ready (suc k))
              room (omega arith) lt (omega arith) in
          (
            suc k,
            omega arith,
            turn-shift states current (suc k)
                ∙ ap (λ c. turn (λ j. states (suc j)) c (suc k)) first
                ∙ hit,
          )
    ]

-- While the table keeps its number of entries in use, and a processor runs what it finds until it
-- searches again, so that its own thread is not killed in between: a thread that is ready at each of
-- these searches is found by one of the first as many as there are entries, whatever else the others
-- change in the table between them.
pub no_starvation :
    (states : ℕ → Sched) (current : Option ℕ) (n i : ℕ)
    → ((k : ℕ) → Table (states k) n)
    → ((k : ℕ) → ready_at (states k) i ≢ none)
    → n < max_tasks
    → after current ≤ n
    → i < n
    → (k : ℕ) × (k < n) × (turn states current (suc k) ≡ some i)
no_starvation states current n i tables ready room low lt =
    soon n states current n i tables ready room low lt (distance-below n (after current) i low lt)
