-- ===== src/Pipe.antt =====
-- The pipes of root/src/kernel/fd/pipe/pipe.c.
--
-- The table `pipes` is a table of objects; a section under the lock of a pipe is one step. The memory
-- that a pipe's buffer points to is a function from offsets to bytes, and `room` the size that it
-- was last allocated with, of which `krealloc` makes whole pages. What a read finds in the buffer of its caller afterwards is the list of
-- the bytes. The result of a call is `none` where the C code follows a null
-- pointer, or copies bytes behind the pages of the buffer.
pub mod Buffer
pub mod Queue
pub mod Calls
mod Tests
use qword.Prelude.{
  ℕ, zero, suc, ◌+◌, ◌-◌, ◌*◌, ◌/◌, ◌%◌, ◌^◌, ◌==◌, ltb, leb, if◌then◌else◌, Bool, true, false, not,
  ◌&&◌, ◌||◌,
}
use qword.Prelude.{List, [], ◌∷◌, length, get_or, Option, none, some, ◌>>=◌, min}
use qword.Prelude.Int.{ℤ, pos, negsuc}
use qword.Klib.Memory.{memmove}
use qword.Dynarray.{
  Table, inc, dec, borrow, load, store, dynarray_getelem, dynarray_unref, dynarray_remove,
}

abbrev pub pipe_buffer_step : ℕ
pipe_buffer_step = 32768

abbrev pub o_nonblock : ℕ
o_nonblock = 1024

abbrev pub eintr : ℕ
eintr = 1025

-- `pipe_t`, without its lock.
pub record Pipe : Type 0 where
  pub flflags : ℕ
  pub buffer : Option (ℕ → ℕ)
  pub room : ℕ
  pub size : ℕ
  pub event : ℕ
  pub refcount : ℕ

-- A 64-bit size in steps of the buffer, rounded up.
abbrev pub in_steps : ℕ → ℕ
in_steps size = (size + pipe_buffer_step - 1) % 2 ^ 64 / pipe_buffer_step

-- A size in pages of 4096 bytes, rounded up.
abbrev pub in_pages : ℕ → ℕ
in_pages size = (size + 4095) / 4096

-- What `krealloc` (lib/alloc.c) makes of the buffer. `new_memory` is what lies at a new place, where
-- the pages that are allocated are zero, and `works` whether there are any.
pub realloc_buffer : Bool → (ℕ → ℕ) → ℕ → Pipe → Pipe
realloc_buffer works new_memory new p =
    let cleared : ℕ → ℕ = λ i. if ltb i (in_pages new * 4096) then 0 else new_memory i in
    elim p.buffer [
      | none ↦
          if works
          then record p { buffer = some cleared; room = new }
          else record p { buffer = none; room = 0 }
      | some b ↦
          if new == 0
          then record p { buffer = none; room = 0 }
          else (if in_pages p.room == in_pages new
              then record p { room = new }
              else (if works
                  then record p {
                    buffer = some (λ i. if ltb i (min p.room new) then b i else cleared i);
                    room = new;
                  }
                  else record p { buffer = none; room = 0 }))
    ]

-- `memcpy` out of the buffer and into it.
abbrev pub bytes_of : (ℕ → ℕ) → ℕ → ℕ → List ℕ
bytes_of b i zero = []
bytes_of b i (suc n) = b i ∷ bytes_of b (i + 1) n

abbrev pub with_bytes : (ℕ → ℕ) → ℕ → List ℕ → ℕ → ℕ
with_bytes b at bytes i =
    if leb at i && ltb i (at + length bytes) then get_or bytes (i - at) 0 else b i

-- The buffer is enlarged for a size that needs more steps, or shortened for one that needs fewer.
pub grow_buffer : Bool → (ℕ → ℕ) → ℕ → Pipe → Pipe
grow_buffer works new_memory new_size p =
    if ltb (in_steps p.size) (in_steps new_size)
    then realloc_buffer works new_memory (in_steps new_size) p
    else p

pub shrink_buffer : Bool → (ℕ → ℕ) → ℕ → Pipe → Pipe
shrink_buffer works new_memory new_size p =
    if ltb (in_steps new_size) (in_steps p.size)
    then realloc_buffer works new_memory (in_steps new_size) p
    else p

-- The bytes of the pages of the buffer.
abbrev pub page_bytes : Pipe → ℕ
page_bytes p = in_pages p.room * 4096

-- The copies out of the buffer, with the move of what is behind, and into it.
pub move_out : Pipe → ℕ → Option (List ℕ × Pipe)
move_out p count = elim p.buffer [
  | none ↦ if count == 0 then some ([], p) else none
  | some b ↦
      if leb (count + count) (page_bytes p)
      then some (bytes_of b 0 count, record p { buffer = some (memmove b 0 count count) })
      else none
]

pub move_in : Pipe → ℕ → List ℕ → Option Pipe
move_in p at bytes = elim p.buffer [
  | none ↦ if length bytes == 0 then some p else none
  | some b ↦
      if leb (at + length bytes) (page_bytes p)
      then some (record p { buffer = some (with_bytes b at bytes) })
      else none
]

-- The end of `pipe_read`: `count` bytes are taken out of the buffer.
pub take_bytes : Bool → (ℕ → ℕ) → Pipe → ℕ → Option (List ℕ × Pipe)
take_bytes works new_memory p count = do
  out ← move_out p count
  let new_size = p.size - count
  some (out.0, record (shrink_buffer works new_memory new_size out.1) { size = new_size })

-- The body of `pipe_write`.
pub put_bytes : Bool → (ℕ → ℕ) → Pipe → List ℕ → Option Pipe
put_bytes works new_memory p bytes = do
  let new_size = (p.size + length bytes) % 2 ^ 64
  filled ← move_in (grow_buffer works new_memory new_size p) p.size bytes
  some (record filled { size = new_size; event = inc filled.event })
