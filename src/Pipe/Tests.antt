-- ===== src/Pipe/Tests.antt =====
-- Runs of the calls of root/src/kernel/fd/pipe/pipe.c on a table with one pipe.
use qword.Prelude.{ℕ, ◌+◌, ◌≡◌, refl, none, some, [], ◌∷◌, ◌++◌, arith, true, inr}
use qword.Prelude.Int.{pos}
use qword.Dynarray.{Table, put}
use qword.Dynarray.Borrow.{holding}
use qword.Pipe.{Pipe}
use qword.Pipe.Buffer.{Sound, contents}
use qword.Pipe.Calls.{pipe_close, pipe_write}
use qword.Pipe.Calls.Ends.{pipe_close_lem, pipe_write-queue, pipe_write-overruns}

-- Five bytes, and two open ends.
abbrev five : Pipe
five = record {
  flflags = 0;
  buffer = some (λ i. i + 10);
  room = 1;
  size = 5;
  event = 0;
  refcount = 2;
}

abbrev pipes : Table Pipe
pipes = record { slots = some (record { refcount = 1; present = true; value = five }) ∷ []; i = 1 }

abbrev no_memory : ℕ → ℕ
no_memory i = 0

five-Sound : Sound five
five-Sound = (omega arith, inr (omega arith, (λ i. i + 10), refl, refl))

pipe_close_lem_example :
    pipe_close pipes 0
    ≡ some (
      pos 0,
      put pipes 0 (
          some (record {
            refcount = 1;
            present = true;
            value = record five { refcount = 1; event = 1 };
          })),
    )
pipe_close_lem_example = pipe_close_lem pipes 0 0 1 five (omega arith) (omega arith) refl refl

pipe_write-queue_example :
    (p' : Pipe) × (pipe_write true no_memory (7 ∷ 8 ∷ []) pipes 0
      ≡ some (pos 2, holding pipes 0 0 p'))
    × Sound p'
    × (contents p' ≡ contents five ++ 7 ∷ 8 ∷ [])
    × (p'.refcount ≡ 2)
pipe_write-queue_example =
    pipe_write-queue no_memory (7 ∷ 8 ∷ []) pipes 0 0 five (omega arith) refl five-Sound
      (omega arith)

-- A pipe whose page is full.
abbrev full : Pipe
full = record five { size = 4096 }

abbrev full_pipes : Table Pipe
full_pipes = record {
  slots = some (record { refcount = 1; present = true; value = full }) ∷ [];
  i = 1;
}

full_page_overruns : pipe_write true no_memory (7 ∷ []) full_pipes 0 ≡ none
full_page_overruns =
    pipe_write-overruns no_memory (7 ∷ []) full_pipes 0 0 full (omega arith) refl
      (omega arith, inr (omega arith, (λ i. i + 10), refl, refl)) (omega arith) (omega arith)
