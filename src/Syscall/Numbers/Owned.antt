-- ===== src/Syscall/Numbers/Owned.antt =====
-- Who holds which descriptor of the kernel: the numbers of a process in
-- root/src/kernel/proc/syscalls.c.
use qword.Prelude.{ℕ, zero, suc, ◌+◌, ◌<◌, ◌≤◌, Bool, true, false, Bool-cases}
use qword.Prelude.{none, some, ◌≡◌, ◌≢◌, ◌⊎◌, inl, inr, refl, arith}
use qword.Prelude.Int.{ℤ, pos, negsuc, is_minus_one}
use qword.Vfs.{Text}
use qword.Syscall.{max_file_handles}
use qword.Syscall.Numbers.{Kernel, Files, put_handle, lowest_free}

-- What a call does to the descriptors that are open, on states that are sound: nothing, one more, one
-- less. What else is opened is left open.
module _ {S : Type 0} (live : S → ℤ → Bool) (Sound : S → Type 0) where
  abbrev pub Same : S → S → Type 0
  Same s s' = Sound s' × ((x : ℤ) → live s x ≡ true → live s' x ≡ true)

  abbrev pub Fresh : S → ℤ → S → Type 0
  Fresh s fd s' = (live s fd ≡ false) × (live s' fd ≡ true) × Same s s'

  abbrev pub Given : S → ℤ → S → Type 0
  Given s fd s' = ((fd ≡ negsuc 0) × Same s s') ⊎ ((n : ℕ) × (fd ≡ pos n) × Fresh s fd s')

  abbrev pub Taken : S → ℤ → ℤ → S → Type 0
  Taken s fd r s' =
      (is_minus_one r ≡ false) × Sound s' × ((x : ℤ) → x ≢ fd → live s x ≡ true → live s' x ≡ true)

  -- The kernel opens descriptors that were not open, and closes none but the one that it is given.
  pub record Laws (k : Kernel S) : Type 0 where
    pub opens :
        (path : Text) (mode : ℤ) (s : S)
        → Sound s
        → (fd : ℤ) × (s' : S) × (k.open_path path mode s ≡ some (fd, s')) × Given s fd s'
    pub dups :
        (fd : ℤ) (s : S)
        → Sound s
        → live s fd ≡ true
        → (new : ℤ) × (s' : S) × (k.dup fd s ≡ some (new, s')) × Given s new s'
    pub closes :
        (fd : ℤ) (s : S)
        → Sound s
        → live s fd ≡ true
        → (r : ℤ) × (s' : S) × (k.close fd s ≡ some (r, s')) × Taken s fd r s'
    pub pipes :
        (s : S)
        → Sound s
        → (a : ℤ) × (b : ℤ) × (s' : S) × (k.pipe s ≡ some (a, b, s'))
          × (a ≢ b)
          × (live s a ≡ false)
          × (live s b ≡ false)
          × (live s' a ≡ true)
          × (live s' b ≡ true)
          × Same s s'
    pub getfdflags :
        (fd : ℤ) (s : S)
        → Sound s
        → live s fd ≡ true
        → (r : ℤ) × (s' : S) × (k.getfdflags fd s ≡ some (r, s')) × Same s s'
    pub setfdflags :
        (fd flags : ℤ) (s : S)
        → Sound s
        → live s fd ≡ true
        → (r : ℤ) × (s' : S) × (k.setfdflags fd flags s ≡ some (r, s')) × Same s s'
    pub getflflags :
        (fd : ℤ) (s : S)
        → Sound s
        → live s fd ≡ true
        → (r : ℤ) × (s' : S) × (k.getflflags fd s ≡ some (r, s')) × Same s s'
    pub setflflags :
        (fd flags : ℤ) (s : S)
        → Sound s
        → live s fd ≡ true
        → (r : ℤ) × (s' : S) × (k.setflflags fd flags s ≡ some (r, s')) × Same s s'
    pub lseek :
        (fd offset type : ℤ) (s : S)
        → Sound s
        → live s fd ≡ true
        → (r : ℤ) × (s' : S) × (k.lseek fd offset type s ≡ some (r, s')) × Same s s'
    pub set_errno : (e : ℕ) (s : S) → Sound s → Same s (k.set_errno e s)

  -- Every number stands for an open descriptor, and no two for one.
  pub record Owned (files : Files) (s : S) : Type 0 where
    pub sound : Sound s
    pub held :
        (i : ℕ) → i < max_file_handles → is_minus_one (files i) ≡ false → live s (files i) ≡ true
    pub distinct :
        (i j : ℕ)
        → i < max_file_handles
        → j < max_file_handles
        → is_minus_one (files i) ≡ false
        → files i ≡ files j
        → i ≡ j

  pub Owned-Same : (files : Files) (s s' : S) → Same s s' → Owned files s → Owned files s'
  Owned-Same files s s' same o = record {
    sound = same.0;
    held = λ i l n. same.1 (files i) (o.held i l n);
    distinct = o.distinct;
  }

  -- A number is freed and its descriptor closed.
  pub Owned-freed :
      (files : Files) (fd : ℕ) (s s' : S)
      → fd < max_file_handles
      → is_minus_one (files fd) ≡ false
      → Sound s'
      → ((x : ℤ) → x ≢ files fd → live s x ≡ true → live s' x ≡ true)
      → Owned files s
      → Owned (put_handle files fd (negsuc 0)) s'
  Owned-freed files fd s s' l n sound same o = record {
    sound = sound;
    held = λ i u m. ground (arith, u, m, o.held i u, o.distinct i fd u l, same (files i));
    distinct = λ i j u v m e. ground (arith, e, m, o.distinct i j u v);
  }

  -- A number is given a fresh descriptor.
  pub Owned-Fresh :
      (files : Files) (fd : ℕ) (new : ℤ) (s s' : S)
      → Fresh s new s'
      → Owned files s
      → Owned (put_handle files fd new) s'
  Owned-Fresh files fd new s s' fresh o = record {
    sound = fresh.2.0;
    held = λ i u m. ground (arith, m, fresh.1, o.held i u, fresh.2.1 (files i));
    distinct =
        λ i j u v m e. ground (arith, e, m, fresh.0, o.held i u, o.held j v, o.distinct i j u v);
  }

  -- A number is given what the kernel gave, or is left free where it gave nothing.
  pub Owned-Given :
      (files : Files) (fd : ℕ) (new : ℤ) (s s' : S)
      → Given s new s'
      → Owned files s
      → Owned (put_handle files fd new) s'
  Owned-Given files fd new s s' given o = elim given [
    | inl (e, same) ↦ record {
      sound = same.0;
      held = λ i u m. ground (arith, e, m, o.held i u, same.1 (files i));
      distinct = λ i j u v m c. ground (arith, e, m, c, o.distinct i j u v);
    }
    | inr (n, e, fresh) ↦ Owned-Fresh files fd new s s' fresh o
  ]

  pub Owned-dropped :
      (files : Files) (fd : ℕ) (s : S) → Owned files s → Owned (put_handle files fd (negsuc 0)) s
  Owned-dropped files fd s o =
      Owned-Given files fd (negsuc 0) s s (inl (refl, (o.sound, λ x it. it))) o

  -- A number is given a descriptor that no other number has.
  pub Owned-put :
      (files : Files) (fd : ℕ) (new : ℤ) (s : S)
      → live s new ≡ true
      → ((i : ℕ) → i < max_file_handles → is_minus_one (files i) ≡ false → files i ≢ new)
      → Owned files s
      → Owned (put_handle files fd new) s
  Owned-put files fd new s it other o = record {
    sound = o.sound;
    held = λ i u m. ground (arith, m, it, o.held i u);
    distinct = λ i j u v m e. ground (arith, m, e, other i u, other j v, o.distinct i j u v);
  }

-- `lowest_free` finds the lowest number that is free, if there is one in reach.
pub lowest_free_lem :
    (files : Files) (rounds fd : ℕ)
    → ((lowest_free files rounds fd ≡ none)
        × ((j : ℕ) → fd ≤ j → j < fd + rounds → is_minus_one (files j) ≡ false))
      ⊎ ((n : ℕ) × (lowest_free files rounds fd ≡ some n)
          × (fd ≤ n)
          × (n < fd + rounds)
          × (is_minus_one (files n) ≡ true)
          × ((j : ℕ) → fd ≤ j → j < n → is_minus_one (files j) ≡ false))
unfolding lowest_free
lowest_free_lem files zero fd = inl (refl, λ j l u. absurd (omega (arith, l, u)))
lowest_free_lem files (suc rounds) fd = elim (Bool-cases (is_minus_one (files fd))) [
  | inl free ↦
      inr (fd, rw free refl, omega arith, omega arith, free, λ j l u. absurd (omega (arith, l, u)))
  | inr taken ↦ elim (lowest_free_lem files rounds (fd + 1)) [
    | inl (e, all) ↦ inl (rw taken e, λ j l u. ground (arith, taken, l, u, all j))
    | inr (n, e, l, u, free, below) ↦ inr (
      n,
      rw taken e,
      omega (arith, l),
      omega (arith, u),
      free,
      λ j a b. ground (arith, taken, a, b, below j),
    )
  ]
]
