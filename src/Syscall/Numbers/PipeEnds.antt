-- ===== src/Syscall/Numbers/PipeEnds.antt =====
-- `syscall_pipe` of root/src/kernel/proc/syscalls.c on the numbers of a process.
use qword.Prelude.{ℕ, Bool, true, false, Bool-cases, Option, none, some}
use qword.Prelude.{◌≡◌, ◌≢◌, inl, inr, refl, arith}
use qword.Prelude.Int.{ℤ, pos, negsuc}
use qword.Syscall.{max_file_handles, privilege_check}
use qword.Syscall.Numbers.{
  Kernel, Files, emfile, put_handle, PipeResult, pipe_numbers, syscall_pipe,
}
use qword.Syscall.Numbers.Owned.{
  Laws, Same, Owned, Owned-Same, Owned-dropped, Owned-put, lowest_free_lem, Taken,
}

module _ {S : Type 0} (live : S → ℤ → Bool) (Sound : S → Type 0) (k : Kernel S)
    (laws : Laws live Sound k) (files : Files) where
  abbrev pub PipeKeeps : PipeResult k → Type 0
  PipeKeeps r =
      (ret : ℤ) × (files' : Files) × (s' : S) × (out : Option (ℕ × ℕ)) × (r
        ≡ some ((ret, files', s'), out))
      × Owned live Sound files' s'

  -- What is open stays so when another descriptor is closed, or is not.
  Taken-live :
      (s s' : S) (fd r x : ℤ)
      → Taken live Sound s fd r s'
      → x ≢ fd
      → live s x ≡ true
      → live s' x ≡ true
  Taken-live s s' fd r x (closed, sound, same) other it = same x other it

  -- Both ends are closed again.
  pub closed_both :
      (s t : S) (a b : ℤ)
      → Owned live Sound files s
      → a ≢ b
      → live s a ≡ false
      → live s b ≡ false
      → live t a ≡ true
      → live t b ≡ true
      → Same live Sound s t
      → (r : ℤ) × (u : S) × (q : ℤ) × (v : S) × (k.close a t ≡ some (r, u))
        × (k.close b u ≡ some (q, v))
        × Owned live Sound files (k.set_errno emfile v)
  closed_both s t a b o apart a_new b_new a_open b_open grows =
      let (r, u, e, done) = laws.closes a t grows.0 a_open in
      let b_still = Taken-live t u a r b done (λ same. apart (ground (arith, same))) b_open in
      let (q, v, f, done') = laws.closes b u done.1 b_still in
      let kept : (x : ℤ) → live s x ≡ true → live v x ≡ true = λ x it.
        Taken-live u v b q x done' (λ same. ground (arith, same, it, b_new))
          (Taken-live t u a r x done (λ same. ground (arith, same, it, a_new)) (grows.1 x it)) in
      (
        r,
        u,
        q,
        v,
        e,
        f,
        Owned-Same live Sound files v (k.set_errno emfile v) (laws.set_errno emfile v done'.1)
            (Owned-Same live Sound files s v (done'.1, kept) o),
      )

  -- Both ends have numbers, and flags.
  given_both :
      (s t : S) (a b flflags : ℤ) (read write : ℕ)
      → Owned live Sound files s
      → a ≢ b
      → live s a ≡ false
      → live s b ≡ false
      → live t a ≡ true
      → live t b ≡ true
      → Same live Sound s t
      → (r : ℤ) × (u : S) × (q : ℤ) × (v : S) × (k.setflflags a flflags t ≡ some (r, u))
        × (k.setflflags b flflags u ≡ some (q, v))
        × Owned live Sound (put_handle (put_handle files read a) write b) v
  given_both s t a b flflags read write o apart a_new b_new a_open b_open grows =
      let (r, u, e, same) = laws.setflflags a flflags t grows.0 a_open in
      let (q, v, f, same') = laws.setflflags b flflags u same.0 (same.1 b b_open) in
      let first : Owned live Sound (put_handle files read a) t =
        Owned-put live Sound files read a t a_open
          (λ i l n same_fd. ground (arith, same_fd, a_new, o.held i l n))
          (Owned-Same live Sound files s t grows o) in
      let second : Owned live Sound (put_handle (put_handle files read a) write b) t =
        Owned-put live Sound (put_handle files read a) write b t b_open
          (λ i l n same_fd. ground (arith, same_fd, n, b_new, apart, o.held i l)) first in
      (
        r,
        u,
        q,
        v,
        e,
        f,
        Owned-Same live Sound _ u v same' (Owned-Same live Sound _ t u same second),
      )

  pipe_numbers-Keeps :
      (s t : S) (a b flflags : ℤ)
      → Owned live Sound files s
      → a ≢ b
      → live s a ≡ false
      → live s b ≡ false
      → live t a ≡ true
      → live t b ≡ true
      → Same live Sound s t
      → PipeKeeps (pipe_numbers k a b flflags files t)
  unfolding pipe_numbers
  pipe_numbers-Keeps s t a b flflags o apart a_new b_new a_open b_open grows =
      let (r, u, q, v, c, d, kept) = closed_both s t a b o apart a_new b_new a_open b_open grows in
      elim (lowest_free_lem files max_file_handles 0) [
        | inl (full, all) ↦
            rw (pipe_numbers, full, c, d) (negsuc 0, files, k.set_errno emfile v, none, refl, kept)
        | inr (read, found, l, m, free, below) ↦
            elim (lowest_free_lem (put_handle files read a) max_file_handles 0) [
              | inl (full, all) ↦
                  rw (pipe_numbers, found, full, c, d)
                    (
                      negsuc 0,
                      put_handle files read (negsuc 0),
                      k.set_errno emfile v,
                      none,
                      refl,
                      Owned-dropped live Sound files read _ kept,
                    )
              | inr (write, found', l', m', free', below') ↦
                  let (r', u', q', v', f, g, kept') =
                    given_both s t a b flflags read write o apart a_new b_new a_open b_open grows in
                  rw (pipe_numbers, found, found', f, g)
                    (
                      pos 0,
                      put_handle (put_handle files read a) write b,
                      v',
                      some (read, write),
                      refl,
                      kept',
                    )
            ]
      ]

  pub syscall_pipe-Keeps :
      (pipefd : ℕ) (flflags : ℤ) (s : S)
      → Owned live Sound files s
      → PipeKeeps (syscall_pipe k pipefd flflags files s)
  unfolding syscall_pipe
  syscall_pipe-Keeps pipefd flflags s o =
      let (a, b, t, e, apart, a_new, b_new, a_open, b_open, grows) = laws.pipes s o.sound in
      let kept = pipe_numbers-Keeps s t a b flflags o apart a_new b_new a_open b_open grows in
      elim (Bool-cases (privilege_check pipefd 8)) [
        | inl forbidden ↦ rw forbidden (negsuc 0, files, s, none, refl, o)
        | inr user ↦ rw (user, e) kept
      ]
