-- ===== src/Syscall/Numbers/Calls.antt =====
-- The calls on the numbers of a process in root/src/kernel/proc/syscalls.c keep its descriptors apart.
use qword.Prelude.{ℕ, ◌+◌, ◌-◌, ◌<◌, ◌==◌, if◌then◌else◌, Bool, true, false, Bool-cases}
use qword.Prelude.{Option, some, ◌≡◌, ◌≢◌, inl, inr, refl, subst, fun_ext, arith}
use qword.Prelude.{length, leb, ◌||◌}
use qword.Prelude.Int.{ℤ, pos, negsuc, is_minus_one}
use qword.Klib.{Mem}
use qword.Vfs.{Text}
use qword.Syscall.{max_file_handles, ebadf, privilege_check, syscall_close}
use qword.Syscall.Numbers.{
  Kernel, Files, efault, einval, enosys, Result, fail, put_handle, same_ℤ, abs_path, syscall_open,
  fcntl_dupfd, syscall_dup2, on_handle, syscall_fcntl, syscall_lseek,
}
use qword.Syscall.Numbers.Owned.{
  Same, Laws, Owned, Owned-Same, Owned-freed, Owned-Fresh, Owned-Given, lowest_free_lem,
}

same_ℤ-ne : (a b : ℤ) → same_ℤ a b ≡ false → a ≢ b
same_ℤ-ne (pos a) (pos b) h e = ground arith
same_ℤ-ne (pos a) (negsuc b) h e = cc
same_ℤ-ne (negsuc a) (pos b) h e = cc
same_ℤ-ne (negsuc a) (negsuc b) h e = ground arith

put-put :
    (files : Files) (fd : ℕ) (d : ℤ)
    → put_handle (put_handle files fd (negsuc 0)) fd d ≡ put_handle files fd d
put-put files fd d = fun_ext (λ i. ground arith)

module _ {S : Type 0} (live : S → ℤ → Bool) (Sound : S → Type 0) (k : Kernel S)
    (laws : Laws live Sound k) (files : Files) (s : S) (o : Owned live Sound files s) where
  -- A call that returns, with the descriptors of the process apart.
  abbrev pub Keeps : Result k → Type 0
  Keeps r =
      (ret : ℤ) × (files' : Files) × (s' : S) × (r ≡ some (ret, files', s'))
      × Owned live Sound files' s'

  pub fail-Keeps : (e : ℕ) → Keeps (fail k e files s)
  fail-Keeps e = (
    negsuc 0,
    files,
    k.set_errno e s,
    refl,
    Owned-Same live Sound files s (k.set_errno e s) (laws.set_errno e s o.sound) o,
  )

  if-Keeps : (test : Bool) (a b : Result k) → Keeps a → Keeps b → Keeps (if test then a else b)
  if-Keeps true a b x y = x
  if-Keeps false a b x y = y

  on_handle-Keeps :
      (call : ℤ → S → Option (ℤ × S)) (fd : ℕ)
      → fd < max_file_handles
      → ((d : ℤ)
          → Sound s
          → live s d ≡ true
          → (r : ℤ) × (s' : S) × (call d s ≡ some (r, s')) × Same live Sound s s')
      → Keeps (on_handle k call fd files s)
  on_handle-Keeps call fd l law = elim (Bool-cases (is_minus_one (files fd))) [
    | inl free ↦ rw free (fail-Keeps ebadf)
    | inr taken ↦
        let (r, s', e, same) = law (files fd) o.sound (o.held fd l taken) in
        rw (taken, e) (r, files, s', refl, Owned-Same live Sound files s s' same o)
  ]

  pub syscall_lseek-Keeps :
      (fd : ℕ) (offset type : ℤ) → Keeps (syscall_lseek k fd offset type files s)
  unfolding syscall_lseek
  syscall_lseek-Keeps fd offset type = elim (Bool-cases (leb max_file_handles fd)) [
    | inl out ↦ rw out (negsuc 0, files, s, refl, o)
    | inr inside ↦ rw inside (
        on_handle-Keeps (λ d. k.lseek d offset type) fd (ground (arith, inside))
          (λ d. laws.lseek d offset type s))
  ]

  pub syscall_close-Keeps : (fd : ℕ) → Keeps (syscall_close k.set_errno k.close files fd s)
  unfolding syscall_close
  syscall_close-Keeps fd = elim (Bool-cases (leb max_file_handles fd)) [
    | inl out ↦ rw out (negsuc 0, files, s, refl, o)
    | inr inside ↦ elim (Bool-cases (is_minus_one (files fd))) [
      | inl free ↦ rw (inside, free) (fail-Keeps ebadf)
      | inr taken ↦
          let (r, s', e, (closed, sound, same)) =
            laws.closes (files fd) s o.sound (o.held fd (ground (arith, inside)) taken) in
          rw (inside, taken, e, closed)
            (
              pos 0,
              put_handle files fd (negsuc 0),
              s',
              refl,
              Owned-freed live Sound files fd s s' (ground (arith, inside)) taken sound same o,
            )
    ]
  ]

  pub syscall_open-Keeps :
      (buf : Mem) (cwd : Text) (rdi : ℕ) (path : Text) (mode : ℤ) (abs : Text)
      → abs_path buf path cwd ≡ some abs
      → Keeps (syscall_open k buf cwd rdi path mode files s)
  unfolding syscall_open
  syscall_open-Keeps buf cwd rdi path mode abs resolved =
      elim (Bool-cases (privilege_check rdi (length path + 1))) [
        | inl forbidden ↦ rw forbidden (fail-Keeps efault)
        | inr user ↦ elim (lowest_free_lem files max_file_handles 0) [
          | inl (e, all) ↦ rw (user, e) (negsuc 0, files, s, refl, o)
          | inr (n, e, l, u, free, below) ↦
              let (fd, s', opened, given) = laws.opens abs mode s o.sound in
              elim given [
                | inl (failed, same) ↦
                    rw (user, e, resolved, opened, failed)
                      (negsuc 0, files, s', refl, Owned-Same live Sound files s s' same o)
                | inr (d, named, fresh) ↦
                    rw (user, e, resolved, opened, named)
                      (
                        pos n,
                        put_handle files n fd,
                        s',
                        rw named refl,
                        Owned-Fresh live Sound files n fd s s' fresh o,
                      )
              ]
        ]
      ]

  fcntl_dupfd-Keeps :
      (fd lowest_fd : ℕ) → fd < max_file_handles → Keeps (fcntl_dupfd k fd lowest_fd files s)
  unfolding fcntl_dupfd
  fcntl_dupfd-Keeps fd lowest_fd inside = elim (Bool-cases (is_minus_one (files fd))) [
    | inl free ↦ rw free (fail-Keeps ebadf)
    | inr taken ↦ elim (lowest_free_lem files (max_file_handles - lowest_fd) lowest_fd) [
      | inl (e, all) ↦ rw (taken, e) (fail-Keeps einval)
      | inr (n, e, l, u, free, below) ↦
          let (new, s', made, given) = laws.dups (files fd) s o.sound (o.held fd inside taken) in
          rw (taken, e, made)
            (
              pos n,
              put_handle files n new,
              s',
              refl,
              Owned-Given live Sound files n new s s' given o,
            )
    ]
  ]

  -- After the close in `dup2`, with the number left out.
  replaced :
      (old_fd new_fd : ℕ)
      → old_fd < max_file_handles
      → new_fd < max_file_handles
      → is_minus_one (files old_fd) ≡ false
      → same_ℤ (files old_fd) (files new_fd) ≡ false
      → is_minus_one (files new_fd) ≡ false
      → (r : ℤ) × (t : S) × (k.close (files new_fd) s ≡ some (r, t))
        × (live t (files old_fd) ≡ true)
        × Owned live Sound (put_handle files new_fd (negsuc 0)) t
  replaced old_fd new_fd l u taken other busy =
      let (r, t, e, (closed, sound, same)) =
        laws.closes (files new_fd) s o.sound (o.held new_fd u busy) in
      (
        r,
        t,
        e,
        same (files old_fd) (same_ℤ-ne _ _ other) (o.held old_fd l taken),
        Owned-freed live Sound files new_fd s t u busy sound same o,
      )

  pub syscall_dup2-Keeps :
      (old_fd new_fd : ℕ)
      → old_fd < max_file_handles
      → new_fd < max_file_handles
      → Keeps (syscall_dup2 k old_fd new_fd files s)
  unfolding syscall_dup2
  syscall_dup2-Keeps old_fd new_fd l u = elim (Bool-cases (is_minus_one (files old_fd))) [
    | inl free ↦ rw free (fail-Keeps ebadf)
    | inr taken ↦ elim (Bool-cases (same_ℤ (files old_fd) (files new_fd))) [
      | inl same ↦ rw (taken, same) (pos new_fd, files, s, refl, o)
      | inr other ↦ elim (Bool-cases (is_minus_one (files new_fd))) [
        | inl free ↦
            let (d, s', made, given) = laws.dups (files old_fd) s o.sound (o.held old_fd l taken) in
            rw (taken, other, free, made)
              (
                pos new_fd,
                put_handle files new_fd d,
                s',
                refl,
                Owned-Given live Sound files new_fd d s s' given o,
              )
        | inr busy ↦
            let (r, t, e, open_still, kept) = replaced old_fd new_fd l u taken other busy in
            let (d, s', made, given) = laws.dups (files old_fd) t kept.sound open_still in
            rw (taken, other, busy, e, made)
              (
                pos new_fd,
                put_handle files new_fd d,
                s',
                refl,
                subst (λ f. Owned live Sound f s') (put-put files new_fd d)
                    (Owned-Given live Sound (put_handle files new_fd (negsuc 0)) new_fd d t s' given
                      kept),
              )
      ]
    ]
  ]

  pub syscall_fcntl-Keeps :
      (fd cmd arg : ℕ) → fd < max_file_handles → Keeps (syscall_fcntl k fd cmd arg files s)
  unfolding syscall_fcntl
  syscall_fcntl-Keeps fd cmd arg l =
      if-Keeps (cmd == 1 || cmd == 2) _ _ (fcntl_dupfd-Keeps fd arg l) (
        if-Keeps (cmd == 3) _ _ (on_handle-Keeps k.getfdflags fd l (λ d. laws.getfdflags d s)) (
          if-Keeps (cmd == 4) _ _
            (on_handle-Keeps (λ d. k.setfdflags d (pos arg)) fd l
              (λ d. laws.setfdflags d (pos arg) s))
            (if-Keeps (cmd == 5) _ _ (on_handle-Keeps k.getflflags fd l (λ d. laws.getflflags d s))
              (if-Keeps (cmd == 6) _ _
                (on_handle-Keeps (λ d. k.setflflags d (pos arg)) fd l
                  (λ d. laws.setflflags d (pos arg) s))
                (fail-Keeps enosys)))))
