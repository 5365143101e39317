-- ===== src/Pipe/Calls.antt =====
-- The calls of root/src/kernel/fd/pipe/pipe.c on the table of pipes.
pub mod Ends
pub mod Reads
use qword.Prelude.{
  ℕ, zero, suc, ◌+◌, ◌-◌, ◌*◌, ◌/◌, ◌%◌, ◌^◌, ◌==◌, ltb, leb, if◌then◌else◌, Bool, true, false, not,
  ◌&&◌, ◌||◌,
}
use qword.Prelude.{List, [], ◌∷◌, length, Option, none, some, ◌>>=◌}
use qword.Prelude.Int.{ℤ, pos, negsuc}
use qword.Dynarray.{
  Table, inc, dec, borrow, load, store, dynarray_getelem, dynarray_unref, dynarray_remove,
}
use qword.Pipe.{Pipe, take_bytes, put_bytes, o_nonblock, eintr}

abbrev pub espipe : ℕ
espipe = 1069

pub pipe_getflflags : Table Pipe → ℕ → Option (ℕ × Table Pipe)
pipe_getflflags = borrow (λ p. (p.flflags, p))

pub pipe_setflflags : ℕ → Table Pipe → ℕ → Option (ℤ × Table Pipe)
pipe_setflflags flflags = borrow (λ p. (pos 0, record p { flflags = flflags }))

-- The result of `lseek`, and `errno`.
abbrev pub pipe_lseek : ℤ × ℕ
pipe_lseek = (negsuc 0, espipe)

pub pipe_dup : Table Pipe → ℕ → Option (ℕ × Table Pipe)
pipe_dup t fd = borrow (λ p. (fd, record p { refcount = inc p.refcount })) t fd

-- One end is closed: whether it was the last one, for which the buffer is freed with the pipe, and
-- the pipe.
abbrev pub close_end : Pipe → Bool × Pipe
close_end p =
    if dec p.refcount == 0
    then (true, record p { refcount = dec p.refcount })
    else (false, record p { refcount = dec p.refcount; event = inc p.event })

pub pipe_close : Table Pipe → ℕ → Option (ℤ × Table Pipe)
pipe_close t fd = do
  done ← borrow close_end t fd
  let gone = dynarray_remove done.1 fd >>= (λ removed. some (pos 0, removed.1))
  if done.0 then gone else some (pos 0, done.1)

pub pipe_write : Bool → (ℕ → ℕ) → List ℕ → Table Pipe → ℕ → Option (ℤ × Table Pipe)
pipe_write works new_memory bytes t fd = do
  got ← dynarray_getelem t fd
  ptr ← got.0
  p ← load got.1 ptr
  filled ← put_bytes works new_memory p bytes
  freed ← dynarray_unref (store got.1 ptr filled) fd
  some (pos (length bytes), freed)

-- How many bytes a read takes now; `none` where it has to wait.
abbrev pub ready_count : Pipe → ℕ → Option ℕ
ready_count p count =
    if leb count p.size
    then some count
    else (if p.flflags / o_nonblock % 2 == 1 || p.refcount == 1 then some p.size else none)

-- A wait for the event of a pipe: whether a signal ends it, and what the other threads do to the
-- table before the reader goes on.
pub record Wait : Type 0 where
  pub aborted : Bool
  pub others : Table Pipe → Table Pipe

pub data Waited : Type 0 where
  ready : ℕ → Table Pipe → Waited
  interrupted : Table Pipe → Waited
  asleep : Table Pipe → Waited

-- A round of the loop: an event that has been triggered is taken at once.
pub wait_round : Wait → (Table Pipe → Option Waited) → Table Pipe → ℕ → ℕ → Pipe → Option Waited
wait_round w rest t fd count p = elim (ready_count p count) [
  | some c ↦ some (Waited.ready c t)
  | none ↦
      if p.event == 0
      then (if w.aborted then some (Waited.interrupted (w.others t)) else rest t)
      else rest (store t fd (record p { event = dec p.event }))
]

-- The loop at the start of `pipe_read`, as long as there are waits.
pub pipe_wait : List Wait → Table Pipe → ℕ → ℕ → Option Waited
pipe_wait [] t fd count = do
  p ← load t fd
  some (elim (ready_count p count) [ none ↦ Waited.asleep t | some c ↦ Waited.ready c t ])
pipe_wait (w ∷ ws) t fd count =
    let rest : Table Pipe → Option Waited = λ t. pipe_wait ws (w.others t) fd count in
    load t fd >>= wait_round w rest t fd count

-- The end of a read: the result with the bytes in the caller's buffer; -1 with `errno`; or none yet.
pub data ReadEnd : Type 0 where
  finished : ℕ → List ℕ → Table Pipe → ReadEnd
  failed : ℕ → Table Pipe → ReadEnd
  waiting : Table Pipe → ReadEnd

pub finish_read : Bool → (ℕ → ℕ) → ℕ → ℕ → Table Pipe → Option ReadEnd
finish_read works new_memory fd c t = do
  p ← load t fd
  out ← take_bytes works new_memory p c
  freed ← dynarray_unref (store t fd out.1) fd
  some (ReadEnd.finished c out.0 freed)

pub pipe_read : Bool → (ℕ → ℕ) → List Wait → Table Pipe → ℕ → ℕ → Option ReadEnd
pipe_read works new_memory waits t fd count = do
  got ← dynarray_getelem t fd
  ptr ← got.0
  waited ← pipe_wait waits got.1 ptr count
  elim waited [
    | Waited.ready c t1 ↦ finish_read works new_memory ptr c t1
    | Waited.interrupted t1 ↦ some (ReadEnd.failed eintr t1)
    | Waited.asleep t1 ↦ some (ReadEnd.waiting t1)
  ]
