-- ===== src/Pipe/Calls/Ends.antt =====
-- What reads, writes and closes do to the table of pipes (root/src/kernel/fd/pipe/pipe.c).
use qword.Prelude.{ℕ, zero, suc, ◌+◌, ◌-◌, ◌%◌, ◌^◌, ◌==◌, ◌≤◌, ◌<◌, if◌then◌else◌, true, false}
use qword.Prelude.{List, ◌++◌, length, none, some, ◌≡◌, refl, ◌∙◌, ap, arith}
use qword.Prelude.Int.{pos}
use qword.Dynarray.{Table, put, inc}
use qword.Dynarray.Borrow.{
  Has, holding, holding-Has, getelem-Has, load-Has, store-Has, unref-Has, holding-holding,
  borrow-Has, removed, remove-Has, put-holding,
}
use qword.Pipe.{Pipe}
use qword.Pipe.Buffer.{max_size, Sound, contents}
use qword.Pipe.Queue.{put_bytes-queue, put_bytes-overruns}
use qword.Pipe.Calls.{close_end, pipe_close, pipe_write}

close-others :
    (p : Pipe) (k : ℕ)
    → p.refcount ≡ suc (suc k)
    → k < 2 ^ 31
    → close_end p ≡ (false, record p { refcount = suc k; event = inc p.event })
close-others p k e small =
    let down : (p.refcount + 2 ^ 32 - 1) % 2 ^ 32 ≡ suc k = omega arith in
    let left : (suc k == 0) ≡ false = ground arith in rw (down, left) refl

close-last : (p : Pipe) → p.refcount ≡ 1 → close_end p ≡ (true, record p { refcount = 0 })
close-last p e = let down : (p.refcount + 2 ^ 32 - 1) % 2 ^ 32 ≡ 0 = omega arith in rw (down) refl

-- Closing one end of a pipe that has others leaves the pipe with one end less and triggers its event;
-- closing the last one removes the pipe, whose slot is empty as soon as no call uses it.
pub pipe_close_lem :
    (t : Table Pipe) (fd n k : ℕ) (p : Pipe)
    → n < 2 ^ 31
    → k < 2 ^ 31
    → Has t fd n p
    → p.refcount ≡ suc k
    → pipe_close t fd
      ≡ some (
        pos 0,
        put t fd (
            if k == 0
            then removed n (record p { refcount = 0 })
            else some (record {
              refcount = suc n;
              present = true;
              value = record p { refcount = k; event = inc p.event };
            })),
      )
unfolding pipe_close
pipe_close_lem t fd n zero p small ends has e =
    let closed = borrow-Has close_end t fd n p small has in
    let end = close-last p e in
    let last : Pipe = record p { refcount = 0 } in
    let now = holding-Has t fd n last has in
    rw (pipe_close, closed, end, remove-Has (holding t fd n last) fd n last small now)
      (ap (λ x. some (pos 0, x)) (put-holding t fd n last (removed n last)))
pipe_close_lem t fd n (suc k) p small ends has e =
    let closed = borrow-Has close_end t fd n p small has in
    let left : (suc k == 0) ≡ false = ground arith in
    rw (pipe_close, closed, close-others p k e (omega arith), left) refl

-- With memory for a buffer, a write after which a pipe holds at most 4096 bytes appends its bytes to
-- what the pipe holds, returns their number, and gives its reference back.
pub pipe_write-queue :
    (m : ℕ → ℕ) (bytes : List ℕ) (t : Table Pipe) (fd n : ℕ) (p : Pipe)
    → n < 2 ^ 31
    → Has t fd n p
    → Sound p
    → p.size + length bytes ≤ max_size
    → (p' : Pipe) × (pipe_write true m bytes t fd ≡ some (pos (length bytes), holding t fd n p'))
      × Sound p'
      × (contents p' ≡ contents p ++ bytes)
      × (p'.refcount ≡ p.refcount)
unfolding pipe_write
pipe_write-queue m bytes t fd n p small has sound total =
    let (p', done, sound', queue, size, ends, flags) = put_bytes-queue m p bytes sound total in
    let got = holding-Has t fd (suc n) p has in
    let stored = store-Has (holding t fd (suc n) p) fd (suc n) p p' got in
    let has' = holding-Has (holding t fd (suc n) p) fd (suc n) p' got in
    let freed = unref-Has (holding (holding t fd (suc n) p) fd (suc n) p') fd n p' small has' in
    let same =
      holding-holding (holding t fd (suc n) p) fd (suc n) n p' p'
      ∙ holding-holding t fd (suc n) n p p' in
    (
      p',
      rw
          (
            pipe_write,
            getelem-Has t fd n p small has,
            load-Has (holding t fd (suc n) p) fd (suc n) p got,
            done,
            stored,
            freed,
          )
          (ap (λ x. some (pos (length bytes), x)) same),
      sound',
      queue,
      ends,
    )

-- With memory for a buffer, a write after which a pipe would hold more than 4096 bytes and at most 128
-- MiB writes behind the page that the buffer has, whatever the pipe holds.
pub pipe_write-overruns :
    (m : ℕ → ℕ) (bytes : List ℕ) (t : Table Pipe) (fd n : ℕ) (p : Pipe)
    → n < 2 ^ 31
    → Has t fd n p
    → Sound p
    → max_size < p.size + length bytes
    → p.size + length bytes ≤ 2 ^ 27
    → pipe_write true m bytes t fd ≡ none
unfolding pipe_write
pipe_write-overruns m bytes t fd n p small has sound over total =
    let got = holding-Has t fd (suc n) p has in
    rw
      (
        pipe_write,
        getelem-Has t fd n p small has,
        load-Has (holding t fd (suc n) p) fd (suc n) p got,
        put_bytes-overruns m p bytes sound over total,
      )
      refl
