-- ===== src/Syscall/Numbers/Descriptors/Kept.antt =====
-- The calls of root/src/kernel/fd/fd.c open descriptors that were not open and close none but their own.
use qword.Prelude.{
  ℕ, ◌==◌, ◌<◌, ◌≡◌, ◌≢◌, ◌⊎◌, inl, inr, refl, sym, ◌∙◌, ap, subst, arith, true, false, Bool-cases,
  Option, Option-cases, none, some, get_elem?, get_elem?-set_self, get_elem?-set_ne, get_elem?-lt,
  length-set, length,
}
use mathlib.Core.Option.{some-injective, none-ne-some}
use qword.Prelude.Int.{ℤ, pos, negsuc, is_minus_one}
use qword.Vfs.{Text}
use qword.Dynarray.{Slot, Table, put}
use qword.Dynarray.Add.{fresh}
use qword.Dynarray.Borrow.{Has, holding, holding-same, borrow-Has, load-Has}
use qword.Dynarray.Kept.{Holds, Kept, dynarray_add-Kept}
use qword.Fd.{FileDescriptor, Call, with_fd, fd_create, close, dup, add_copy}
use qword.Fd.{getfdflags, setfdflags, getflflags, setflflags, lseek}
use qword.Fd.Close.{close-Has}
use qword.Syscall.Numbers.Owned.{Same, Fresh, Given, Taken, Laws}
use qword.Syscall.Numbers.Descriptors.{
  Descriptors, on_number, create, in_use, live, Closes, Sound, fd_kernel,
}

same_number : (x : ℤ) (fd : ℕ) → (x ≡ pos fd) ⊎ (x ≢ pos fd)
same_number (pos n) fd = elim (Bool-cases (n == fd)) [
  | inl e ↦ inl (ap pos (ground (arith, e)))
  | inr ne ↦ inr (λ e. ground (arith, ne, e))
]
same_number (negsuc n) fd = inr (λ e. cc)

module _ {W : Type 0} where
  used :
      (o : Option (Option (Slot (FileDescriptor W))))
      → in_use o ≡ true
      → (x : Slot (FileDescriptor W)) × (o ≡ some (some x))
  used none h = absurd (ground (arith, h))
  used (some none) h = absurd (ground (arith, h))
  used (some (some x)) h = (x, refl)

  unused :
      (o : Option (Option (Slot (FileDescriptor W))))
      → ((x : Slot (FileDescriptor W)) → o ≢ some (some x))
      → in_use o ≡ false
  unused none h = refl
  unused (some none) h = refl
  unused (some (some x)) h = absurd (h x refl)

  -- A descriptor that is open stands in the table with one reference.
  live-Has :
      (s : Descriptors W) (fd : ℕ)
      → Sound s
      → live s (pos fd) ≡ true
      → (d : FileDescriptor W) × Has s.table fd 0 d × Closes d
  live-Has s fd sound h =
      let (x, e) = used (get_elem? s.table.slots fd) h in
      let (alone, closes) = sound.idle fd x e in
      (x.value, e ∙ ap (λ y. some (some y)) alone, closes)

  held-live :
      (s : Descriptors W) (fd : ℕ) (x : Slot (FileDescriptor W))
      → Holds s.table fd x
      → live s (pos fd) ≡ true
  held-live s fd x h = ap in_use h

  -- The same table with another rest.
  rest_Same : (s : Descriptors W) (w : W) → Sound s → Same live Sound s (record s { rest = w })
  rest_Same s w sound = (record { sized = sound.sized; idle = sound.idle }, still)
    where
      still : (x : ℤ) → live s x ≡ true → live (record s { rest = w }) x ≡ true
      still (pos n) h = h
      still (negsuc n) h = h

  -- What an addition to the table leaves.
  Kept-Fresh :
      (s : Descriptors W) (d : FileDescriptor W) (p : ℕ) (t' : Table (FileDescriptor W)) (w : W)
      → Sound s
      → Closes d
      → Kept s.table d p t'
      → Fresh live Sound s (pos p) (record { table = t'; rest = w })
  Kept-Fresh s d p t' w sound closes kept =
      let s' : Descriptors W = record { table = t'; rest = w } in
      (
        unused (get_elem? s.table.slots p) kept.free,
        ap in_use kept.added,
        (
          record {
            sized = kept.sized;
            idle = λ fd x h. elim (Bool-cases (fd == p)) [
              | inl same ↦
                  let e : fd ≡ p = ground (arith, same) in
                  let it : record { refcount = 1; present = true; value = d } ≡ x =
                    some-injective _ _ (
                      some-injective _ _
                        (sym kept.added ∙ subst (λ j. get_elem? t'.slots j ≡ some (some x)) e h)) in
                  subst
                    (λ (y : Slot (FileDescriptor W)).
                      (y ≡ record { refcount = 1; present = true; value = y.value })
                      × Closes y.value)
                    it (refl, closes)
              | inr other ↦ sound.idle fd x (kept.others fd x (λ e. ground (arith, other, e)) h)
            ];
          },
          still,
        ),
      )
    where
      still : (x : ℤ) → live s x ≡ true → live (record { table = t'; rest = w }) x ≡ true
      still (pos n) h =
          let (x, e) = used (get_elem? s.table.slots n) h in ap in_use (kept.old n x e)
      still (negsuc n) h = h

  create-Fresh :
      (d : FileDescriptor W) (s : Descriptors W)
      → Sound s
      → Closes d
      → (p : ℕ) × (s' : Descriptors W) × (create d s ≡ some (pos p, s'))
        × Fresh live Sound s (pos p) s'
  unfolding fd_create
  create-Fresh d s sound closes =
      let (p, t', added, kept) = dynarray_add-Kept s.table d sound.sized in
      (
        p,
        record s { table = t' },
        rw (fd_create, added) refl,
        Kept-Fresh s d p t' s.rest sound closes kept,
      )

  -- A slot of the table is changed.
  put-Sound :
      (s : Descriptors W) (fd : ℕ) (v : Option (Slot (FileDescriptor W))) (w : W)
      → Sound s
      → ((x : Slot (FileDescriptor W))
          → v ≡ some x
          → (x ≡ record { refcount = 1; present = true; value = x.value }) × Closes x.value)
      → fd < length s.table.slots
      → Sound (record { table = put s.table fd v; rest = w })
  put-Sound s fd v w sound good inside = record {
    sized = length-set s.table.slots fd v ∙ sound.sized;
    idle = λ j x h. elim (Bool-cases (j == fd)) [
      | inl same ↦
          let e : j ≡ fd = ground (arith, same) in
          let here : get_elem? (put s.table fd v).slots fd ≡ some (some x) =
            subst (λ k. get_elem? (put s.table fd v).slots k ≡ some (some x)) e h in
          good x (some-injective _ _ (sym (get_elem?-set_self s.table.slots fd v inside) ∙ here))
      | inr other ↦
          sound.idle j x
            (sym (get_elem?-set_ne s.table.slots v (λ e. ground (arith, other, e))) ∙ h)
    ];
  }

  put-others :
      (s : Descriptors W) (fd : ℕ) (v : Option (Slot (FileDescriptor W))) (w : W) (x : ℤ)
      → x ≢ pos fd
      → live s x ≡ true
      → live (record { table = put s.table fd v; rest = w }) x ≡ true
  put-others s fd v w (pos n) other h =
      ap in_use (get_elem?-set_ne s.table.slots v (λ e. other (ap pos (sym e)))) ∙ h
  put-others s fd v w (negsuc n) other h = h

  close_law :
      (fd : ℤ) (s : Descriptors W)
      → Sound s
      → live s fd ≡ true
      → (r : ℤ) × (s' : Descriptors W) × (on_number close fd s ≡ some (r, s'))
        × Taken live Sound s fd r s'
  close_law (pos fd) s sound h =
      let (d, has, closes) = live-Has s fd sound h in
      let w = (d.fd_handler.close d.intern_fd s.rest).1 in
      (
        pos 0,
        record { table = put s.table fd none; rest = w },
        rw (close-Has s.table fd 0 d s.rest (omega arith) has, closes d.intern_fd s.rest) refl,
        (
          refl,
          put-Sound s fd none w sound (λ x e. absurd (none-ne-some _ e))
              (get_elem?-lt s.table.slots fd has),
          put-others s fd none w,
        ),
      )
  close_law (negsuc fd) s sound h = absurd (ground (arith, h))

  -- A call that gives its reference back, and gives the descriptor a value with the same handlers.
  borrowed_law :
      (call : Call W) (out : FileDescriptor W → W → ℤ × W)
      (new : FileDescriptor W → FileDescriptor W)
      → ((d : FileDescriptor W) → Closes d → Closes (new d))
      → ((t : Table (FileDescriptor W)) (fd : ℕ) (d : FileDescriptor W) (w : W)
          → Has t fd 0 d
          → call t fd w ≡ some ((out d w).0, holding t fd 0 (new d), (out d w).1))
      → (fd : ℤ) (s : Descriptors W) → Sound s
      → live s fd ≡ true
      → (r : ℤ) × (s' : Descriptors W) × (on_number call fd s ≡ some (r, s')) × Same live Sound s s'
  borrowed_law call out new good does (pos fd) s sound h =
      let (d, has, closes) = live-Has s fd sound h in
      let v : Option (Slot (FileDescriptor W)) =
        some (record { refcount = 1; present = true; value = new d }) in
      let w = (out d s.rest).1 in
      let inside = get_elem?-lt s.table.slots fd has in
      (
        (out d s.rest).0,
        record { table = put s.table fd v; rest = w },
        rw (does s.table fd d s.rest has) refl,
        (
          put-Sound s fd v w sound
              (λ x e.
                subst
                  (λ (y : Slot (FileDescriptor W)).
                    (y ≡ record { refcount = 1; present = true; value = y.value }) × Closes y.value)
                  (some-injective _ _ e) (refl, good d closes))
              inside,
          λ x l. elim (same_number x fd) [
            | inl e ↦
                subst (λ y. live (record { table = put s.table fd v; rest = w }) y ≡ true) (sym e)
                  (ap in_use (get_elem?-set_self s.table.slots fd v inside))
            | inr other ↦ put-others s fd v w x other l
          ],
        ),
      )
  borrowed_law call out new good does (negsuc fd) s sound h = absurd (ground (arith, h))

  with_fd_law :
      (handler : FileDescriptor W → W → ℤ × W) (t : Table (FileDescriptor W)) (fd : ℕ)
      (d : FileDescriptor W) (w : W)
      → Has t fd 0 d
      → with_fd handler t fd w ≡ some ((handler d w).0, holding t fd 0 d, (handler d w).1)
  unfolding with_fd
  with_fd_law handler t fd d w has =
      rw (with_fd, borrow-Has (λ d. (handler d w, d)) t fd 0 d (omega arith) has) refl

  getfdflags_law :
      (fd : ℤ) (s : Descriptors W)
      → Sound s
      → live s fd ≡ true
      → (r : ℤ) × (s' : Descriptors W) × (on_number getfdflags fd s ≡ some (r, s'))
        × Same live Sound s s'
  unfolding getfdflags
  getfdflags_law =
      borrowed_law getfdflags (λ d w. (d.fdflags, w)) (λ d. d) (λ d c. c)
        (λ t fd d w has. rw (borrow-Has (λ d. (d.fdflags, d)) t fd 0 d (omega arith) has) refl)

  setfdflags_law :
      (fd flags : ℤ) (s : Descriptors W)
      → Sound s
      → live s fd ≡ true
      → (r : ℤ) × (s' : Descriptors W) × (on_number (setfdflags flags) fd s ≡ some (r, s'))
        × Same live Sound s s'
  unfolding setfdflags
  setfdflags_law fd flags =
      borrowed_law (setfdflags flags) (λ d w. (pos 0, w)) (λ d. record d { fdflags = flags })
        (λ d c. c)
        (λ t fd d w has.
          rw (borrow-Has (λ d. (pos 0, record d { fdflags = flags })) t fd 0 d (omega arith) has)
            refl)
        fd

  -- A copy is a new descriptor.
  dup_law :
      (fd : ℤ) (s : Descriptors W)
      → Sound s
      → live s fd ≡ true
      → (new : ℤ) × (s' : Descriptors W) × (on_number (dup true true) fd s ≡ some (new, s'))
        × Given live Sound s new s'
  unfolding dup add_copy fd_create
  dup_law (negsuc fd) s sound h = absurd (ground (arith, h))
  dup_law (pos fd) s sound h =
      let (d, has, closes) = live-Has s fd sound h in
      let out = d.fd_handler.dup d.intern_fd s.rest in
      let borrowed =
        borrow-Has (λ d. (d.fd_handler.dup d.intern_fd s.rest, d)) s.table fd 0 d (omega arith)
          has in
      let same = holding-same s.table fd 0 d has in
      let copy : FileDescriptor W = record {
        intern_fd = out.0;
        fdflags = pos 0;
        fd_handler = d.fd_handler;
      } in
      let (p, t', added, kept) = dynarray_add-Kept s.table copy sound.sized in
      elim (Bool-cases (is_minus_one out.0)) [
        | inl refused ↦ (
          negsuc 0,
          record s { rest = out.1 },
          rw (borrowed, same, refused) refl,
          inl (refl, rest_Same s out.1 sound),
        )
        | inr given ↦ (
          pos p,
          record { table = t'; rest = out.1 },
          rw (borrowed, same, given, load-Has s.table fd 0 d has, added) refl,
          inr (p, refl, Kept-Fresh s copy p t' out.1 sound closes kept),
        )
      ]

  module _ (set_errno : ℕ → W → W) (vfs_file : Text → ℤ → W → Option (FileDescriptor W) × W)
      (pipe_ends : W → FileDescriptor W × FileDescriptor W × W)
      (files_close : (path : Text) (mode : ℤ) (w : W) (d : FileDescriptor W)
        → (vfs_file path mode w).0 ≡ some d
        → Closes d)
      (ends_close : (w : W) → Closes (pipe_ends w).0 × Closes (pipe_ends w).1) where
    open_law :
        (path : Text) (mode : ℤ) (s : Descriptors W)
        → Sound s
        → (fd : ℤ) × (s' : Descriptors W) × ((fd_kernel set_errno vfs_file pipe_ends).open_path path
              mode s
            ≡ some (fd, s'))
          × Given live Sound s fd s'
    open_law path mode s sound =
        let opened = vfs_file path mode s.rest in
        let same = rest_Same s opened.1 sound in
        elim (Option-cases opened.0) [
          | inl e ↦ (negsuc 0, record s { rest = opened.1 }, rw (e) refl, inl (refl, same))
          | inr (d, e) ↦
              let (p, s', made, fresh) =
                create-Fresh d (record s { rest = opened.1 }) same.0
                  (files_close path mode s.rest d e) in
              (
                pos p,
                s',
                rw (e, made) refl,
                inr (p, refl, (fresh.0, fresh.1, (fresh.2.0, fresh.2.1))),
              )
        ]

    pipe_law :
        (s : Descriptors W)
        → Sound s
        → (a : ℤ) × (b : ℤ) × (s' : Descriptors W) × ((fd_kernel set_errno vfs_file pipe_ends).pipe
              s
            ≡ some (a, b, s'))
          × (a ≢ b)
          × (live s a ≡ false)
          × (live s b ≡ false)
          × (live s' a ≡ true)
          × (live s' b ≡ true)
          × Same live Sound s s'
    pipe_law s sound =
        let ends = pipe_ends s.rest in
        let closes = ends_close s.rest in
        let same = rest_Same s ends.2 sound in
        let t : Descriptors W = record s { rest = ends.2 } in
        let (a, t₁, made, fresh) = create-Fresh ends.0 t same.0 closes.0 in
        let (b, t₂, made', fresh') = create-Fresh ends.1 t₁ fresh.2.0 closes.1 in
        let free : live s (pos b) ≡ false = elim (Bool-cases (live s (pos b))) [
          | inl busy ↦ ground (arith, fresh'.0, fresh.2.1 (pos b) (same.1 (pos b) busy))
          | inr e ↦ e
        ] in
        (
          pos a,
          pos b,
          t₂,
          rw (made, made') refl,
          (λ e.
              let busy : live t₁ (pos b) ≡ true = subst (λ x. live t₁ x ≡ true) e fresh.1 in
              ground (arith, busy, fresh'.0)),
          fresh.0,
          free,
          fresh'.2.1 (pos a) fresh.1,
          fresh'.1,
          (fresh'.2.0, (λ x h. fresh'.2.1 x (fresh.2.1 x (same.1 x h)))),
        )

    -- With memory, and files that can be closed, the calls are as the calls on numbers want them.
    pub fd_kernel-Laws : Laws live Sound (fd_kernel set_errno vfs_file pipe_ends)
    unfolding getflflags setflflags lseek
    fd_kernel-Laws = record {
      opens = open_law;
      dups = dup_law;
      closes = close_law;
      pipes = pipe_law;
      getfdflags = getfdflags_law;
      setfdflags = setfdflags_law;
      getflflags =
          borrowed_law getflflags (λ d. d.fd_handler.getflflags d.intern_fd) (λ d. d) (λ d c. c)
            (with_fd_law (λ d. d.fd_handler.getflflags d.intern_fd));
      setflflags = λ fd flags.
          borrowed_law (setflflags flags) (λ d. d.fd_handler.setflflags d.intern_fd flags) (λ d. d)
            (λ d c. c) (with_fd_law (λ d. d.fd_handler.setflflags d.intern_fd flags)) fd;
      lseek = λ fd offset type.
          borrowed_law (lseek offset type) (λ d. d.fd_handler.lseek d.intern_fd offset type)
            (λ d. d) (λ d c. c) (with_fd_law (λ d. d.fd_handler.lseek d.intern_fd offset type)) fd;
      set_errno = λ e s sound. rest_Same s (set_errno e s.rest) sound;
    }
