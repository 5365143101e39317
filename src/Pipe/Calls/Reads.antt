-- ===== src/Pipe/Calls/Reads.antt =====
-- Reads from the table of pipes (root/src/kernel/fd/pipe/pipe.c).
use qword.Prelude.{ℕ, suc, ◌+◌, ◌/◌, ◌%◌, ◌^◌, ◌==◌, ◌<◌, Bool, true}
use qword.Prelude.{List, ◌∷◌, Option, none, some, ◌>>=◌, ◌≡◌, ◌≢◌, refl, ◌∙◌, ap, arith}
use qword.Dynarray.{load, Table}
use qword.Dynarray.Borrow.{Has, holding, holding-Has, getelem-Has, load-Has}
use qword.Pipe.{Pipe, eintr, o_nonblock}
use qword.Pipe.Calls.{pipe_read, wait_round, pipe_wait, ready_count, Wait, Waited, ReadEnd}

round-aborted :
    (others : Table Pipe → Table Pipe) (rest : Table Pipe → Option Waited) (t : Table Pipe)
    (fd count : ℕ) (p : Pipe)
    → ready_count p count ≡ none
    → p.event ≡ 0
    → wait_round (record { aborted = true; others = others }) rest t fd count p
      ≡ some (Waited.interrupted (others t))
unfolding wait_round
round-aborted others rest t fd count p e idle =
    let quiet : (p.event == 0) ≡ true = ground arith in rw (wait_round, e, quiet) refl

first-round :
    (w : Wait) (ws : List Wait) (t : Table Pipe) (fd count : ℕ) (p : Pipe)
    → load t fd ≡ some p
    → pipe_wait (w ∷ ws) t fd count
      ≡ wait_round w (λ t. pipe_wait ws (w.others t) fd count) t fd count p
unfolding pipe_wait
first-round w ws t fd count p e =
    ap (λ o. o >>= wait_round w (λ t. pipe_wait ws (w.others t) fd count) t fd count) e

-- A read that waits and is ended by a signal fails with EINTR, and does not give its reference back:
-- the slot of the pipe has one more than before the call, and what the other threads do meanwhile
-- is done to a table with that.
pub pipe_read-leaks :
    (works : Bool) (m : ℕ → ℕ) (waits : List Wait) (others : Table Pipe → Table Pipe)
    (t : Table Pipe) (fd n count : ℕ) (p : Pipe)
    → n + 1 < 2 ^ 31
    → Has t fd n p
    → p.size < count
    → p.flflags / o_nonblock % 2 ≡ 0
    → p.refcount ≢ 1
    → p.event ≡ 0
    → pipe_read works m (record { aborted = true; others = others } ∷ waits) t fd count
      ≡ some (ReadEnd.failed eintr (others (holding t fd (suc n) p)))
unfolding pipe_read
pipe_read-leaks works m waits others t fd n count p small has short block ends idle =
    let got = holding-Has t fd (suc n) p has in
    let wait : ready_count p count ≡ none = ground arith in
    let waited =
      first-round (record { aborted = true; others = others }) waits (holding t fd (suc n) p) fd
        count p (load-Has (holding t fd (suc n) p) fd (suc n) p got)
      ∙ round-aborted others (λ t. pipe_wait waits (others t) fd count) (holding t fd (suc n) p) fd
          count p wait idle in
    rw (pipe_read, getelem-Has t fd n p (omega arith) has, waited) refl
