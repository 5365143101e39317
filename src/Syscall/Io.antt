-- ===== src/Syscall/Io.antt =====
-- The loop of `syscall_read` and `syscall_write` in root/src/kernel/proc/syscalls.c over a file that
-- gives or takes what it has.
use qword.Prelude.{ℕ, zero, suc, ◌+◌, ◌-◌, ◌*◌, ◌/◌, ◌%◌, ◌^◌, ◌<◌, ◌≤◌, min, ltb, if◌then◌else◌}
use qword.Prelude.{false, Option, some, Bool-cases}
use qword.Prelude.{◌≡◌, refl, lt→ltb, ltb→lt, ◌∙◌, inl, inr, arith}
use qword.Prelude.Int.{ℤ, pos, negsuc, is_minus_one}
use qword.Syscall.{io_cap, io_step, io_loop, syscall_io, ebadf, privilege_check, int_of_size}

-- A call that moves what is asked for, or all that is left.
pub record Moves {S : Type 0} (call : ℕ → ℕ → S → Option (ℤ × S)) (left : S → ℕ)
    (advance : ℕ → ℕ → S → S) : Type 0 where
  pub moves :
      (ptr step : ℕ) (s : S)
      → step ≤ io_cap
      → call ptr step s ≡ some (pos (min step (left s)), advance ptr (min step (left s)) s)
  pub less : (ptr k : ℕ) (s : S) → left (advance ptr k s) ≡ left s - k
  pub together :
      (ptr j k : ℕ) (s : S) → advance (ptr + j) k (advance ptr j s) ≡ advance ptr (j + k) s

io_step_lem :
    (k ptr len : ℕ)
    → ptr ≡ k * io_cap
    → ptr < len
    → len < 2 ^ 63
    → io_step ptr len ≡ min io_cap (len - ptr)
unfolding io_step
io_step_lem k ptr len at inside bound = ground (arith, at)

io_loop-end :
    {S : Type 0} (call : ℕ → ℕ → S → Option (ℤ × S)) (len fuel ptr : ℕ) (s : S)
    → len ≤ ptr
    → io_loop call (suc fuel) len ptr s ≡ some (ptr, s)
unfolding io_loop
io_loop-end call len fuel ptr s over =
    let out : ltb ptr len ≡ false = ground (arith, over) in rw (io_loop, out) refl

module _ {S : Type 0} (call : ℕ → ℕ → S → Option (ℤ × S)) (left : S → ℕ) (advance : ℕ → ℕ → S → S)
    (file : Moves call left advance) (len : ℕ) (bound : len < 2 ^ 63) where
  -- One round: the loop ends when the file had less than was asked for.
  io_loop-round :
      (fuel k ptr : ℕ) (s : S)
      → ptr ≡ k * io_cap
      → ptr < len
      → let step = min io_cap (len - ptr) in
        let moved = min step (left s) in
        io_loop call (suc fuel) len ptr s ≡ (
          if ltb moved step
          then some (ptr + moved, advance ptr moved s)
          else io_loop call fuel len (ptr + moved) (advance ptr moved s))
  unfolding io_loop
  io_loop-round fuel k ptr s at inside =
      let step = min io_cap (len - ptr) in
      let sum : (ptr + min step (left s)) % 2 ^ 64 ≡ ptr + min step (left s) =
        ground (arith, bound, inside) in
      rw
        (
          io_loop,
          lt→ltb ptr len inside,
          io_step_lem k ptr len at inside bound,
          file.moves ptr step s (ground arith),
          sum,
        )
        refl

  io_loop-from :
      (fuel k ptr : ℕ) (s : S)
      → ptr ≡ k * io_cap
      → ptr < len
      → len + io_cap ≤ ptr + fuel * io_cap
      → io_loop call fuel len ptr s
        ≡ some (ptr + min (len - ptr) (left s), advance ptr (min (len - ptr) (left s)) s)
  io_loop-from zero k ptr s at inside enough = ground (arith, at, inside, enough)
  io_loop-from (suc fuel) k ptr s at inside enough =
      let step = min io_cap (len - ptr) in
      let moved = min step (left s) in
      elim (Bool-cases (ltb moved step)) [
        | inl short ↦
            let all : moved ≡ min (len - ptr) (left s) = ground (arith, short) in
            rw (io_loop-round fuel k ptr s at inside, short, all) refl
        | inr full ↦
            let whole : moved ≡ step = ground (arith, full) in
            let go : io_loop call (suc fuel) len ptr s
                ≡ io_loop call fuel len (ptr + step) (advance ptr step s) =
              rw (io_loop-round fuel k ptr s at inside, full, whole) refl in
            go ∙ (elim (Bool-cases (ltb (ptr + step) len)) [
              | inl more ↦
                  let capped : step ≡ io_cap = ground (arith, more) in
                  let there : ptr + step ≡ suc k * io_cap = ground (arith, at, capped) in
                  let rest =
                    io_loop-from fuel (suc k) (ptr + step) (advance ptr step s) there
                      (ltb→lt (ptr + step) len more) (ground (arith, capped, enough)) in
                  let j = min (len - (ptr + step)) (left (advance ptr step s)) in
                  let sum : step + j ≡ min (len - ptr) (left s) =
                    ground (arith, whole, more, file.less ptr step s) in
                  let counted : ptr + step + j ≡ ptr + min (len - ptr) (left s) =
                    omega (arith, sum) in
                  rest ∙ rw (counted, file.together ptr step j s, sum) refl
              | inr done ↦
                  let last : ptr + step ≡ len = ground (arith, done, inside) in
                  let all : min (len - ptr) (left s) ≡ step = ground (arith, last, whole) in
                  let spare : fuel ≡ suc (fuel - 1) = ground (arith, enough, last, inside) in
                  rw (spare, all)
                    (io_loop-end call len (fuel - 1) (ptr + step) (advance ptr step s)
                      (omega (arith, last)))
            ])
      ]

-- The calls at a place and at each one before it, down to the first, where `tried` is what a call does
-- to the state.
abbrev pub tries : {S : Type 0} → (ℕ → ℕ → S → S) → ℕ → ℕ → S → S
tries tried len zero s = tried 0 (io_step 0 len) s
tries tried len (suc ptr) s = tries tried len ptr (tried (suc ptr) (io_step (suc ptr) len) s)

-- A round whose call fails.
io_loop-back :
    {S : Type 0} (call : ℕ → ℕ → S → Option (ℤ × S)) (tried : ℕ → ℕ → S → S) (len : ℕ)
    → ((at step : ℕ) (s : S) → call at step s ≡ some (negsuc 0, tried at step s))
    → len < 2 ^ 63
    → (fuel ptr : ℕ) (s : S) → ptr < len
    → io_loop call (suc fuel) len ptr s
      ≡ io_loop call fuel len ((ptr + (2 ^ 64 - 1)) % 2 ^ 64) (tried ptr (io_step ptr len) s)
unfolding io_loop io_step
io_loop-back call tried len fails bound fuel ptr s inside =
    let small : ltb (2 ^ 64 - 1) (io_step ptr len) ≡ false = ground arith in
    rw (io_loop, lt→ltb ptr len inside, fails ptr (io_step ptr len) s, small) refl

module _ {S : Type 0} (set_errno : ℕ → S → S) (call : ℤ → ℕ → ℕ → S → Option (ℤ × S))
    (file_handles : ℕ → ℤ) (fd buf len fuel : ℕ) (s : S) where
  -- For fewer than 2 ^ 63 bytes and at least one, and a call of the kernel that moves what it is asked
  -- for, at most 16777216 bytes, or what is left of the file: when the buffer reaches into the half
  -- of the kernel, the call fails and does nothing; when the process has no such file, it fails with
  -- EBADF; and otherwise `len / 16777216 + 2` rounds of the loop are enough to move all that is asked
  -- for or all that is left, as one call would, and to return its number as an `int`.
  pub syscall_io_lem :
      (left : S → ℕ) (advance : ℕ → ℕ → S → S)
      → Moves (λ ptr step. call (file_handles fd) (buf + ptr) step) left advance
      → 0 < len
      → len < 2 ^ 63
      → len / io_cap + 2 ≤ fuel
      → syscall_io set_errno call fuel file_handles fd buf len s ≡ (
          if privilege_check buf len
          then some (negsuc 0, s)
          else if is_minus_one (file_handles fd)
          then some (negsuc 0, set_errno ebadf s)
          else some (int_of_size (min len (left s)), advance 0 (min len (left s)) s))
  unfolding syscall_io
  syscall_io_lem left advance file some_bytes bound enough =
      let from_0 : len - 0 ≡ len = omega arith in
      let counted : 0 + min len (left s) ≡ min len (left s) = omega arith in
      rw
        (
          syscall_io,
          io_loop-from (λ ptr step. call (file_handles fd) (buf + ptr) step) left advance file len
              bound fuel 0 0 s refl some_bytes (ground (arith, enough)),
          from_0,
          counted,
        )
        refl

-- When `ptr` of fewer than 2 ^ 63 bytes have been moved, at least one is left, and every further call
-- of the kernel fails, whatever it does to the state: the call is made `ptr + 1` times, at `ptr` and
-- each time one byte further back, down to the first byte, and then the loop ends with -1 as a
-- `size_t`. `ptr + 2` rounds are enough.
pub io_loop-fails :
    {S : Type 0} (call : ℕ → ℕ → S → Option (ℤ × S)) (tried : ℕ → ℕ → S → S) (len ptr : ℕ) (s : S)
    → ((at step : ℕ) (s : S) → call at step s ≡ some (negsuc 0, tried at step s))
    → ptr < len
    → len < 2 ^ 63
    → io_loop call (suc (suc ptr)) len ptr s ≡ some (2 ^ 64 - 1, tries tried len ptr s)
io_loop-fails call tried len zero s fails inside bound =
    io_loop-back call tried len fails bound 1 0 s inside
    ∙ io_loop-end call len 0 (2 ^ 64 - 1) (tried 0 (io_step 0 len) s) (omega (arith, bound))
io_loop-fails call tried len (suc ptr) s fails inside bound =
    let back : (suc ptr + (2 ^ 64 - 1)) % 2 ^ 64 ≡ ptr = omega (arith, inside, bound) in
    let t = tried (suc ptr) (io_step (suc ptr) len) s in
    io_loop-back call tried len fails bound (suc (suc ptr)) (suc ptr) s inside
    ∙ rw (back) (io_loop-fails call tried len ptr t fails (omega (arith, inside)) bound)
