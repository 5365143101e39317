-- ===== src/Syscall/Cwd/Directory.antt =====
-- The working directory of root/src/kernel/proc/syscalls.c stays a path of names.
use qword.Prelude.{
  leb, if◌then◌else◌, Bool, true, ℕ, zero, suc, ◌+◌, ◌/◌, ◌%◌, ◌<◌, ◌≤◌, ◌==◌, false, Bool-cases,
  Option-cases,
}
use qword.Prelude.{Option, some, List, [], ◌∷◌, ◌++◌, length}
use qword.Prelude.{◌≡◌, ◌≢◌, inl, inr, refl, sym, subst, arith}
use qword.Prelude.Int.{ℤ, pos, negsuc, is_minus_one}
use qword.Klib.{Mem}
use qword.Vfs.{Text}
use qword.Vfs.Paths.{vfs_get_absolute_path}
use qword.Vfs.Paths.Buffers.{Holds, Names, spelled, absolute, parent}
use qword.Vfs.Paths.Steps.{Ends, Answer}
use qword.Vfs.Paths.Starts.{Component, kinds, name-IsName}
use qword.Vfs.Paths.Resolve.{resolve, enter, joined, Components}
use qword.Vfs.Paths.Absolute.{origin, vfs_get_absolute_path_lem}
use qword.Syscall.{privilege_check}
use qword.Syscall.Numbers.{abs_path, text_at}
use qword.Syscall.Cwd.{enotdir, o_rdonly, syscall_chdir, syscall_getcwd}

-- Names of a string in C.
pub record Directory (cs : List Text) : Type 0 where
  pub names : Names cs
  pub clean : Components cs

abbrev Zerofree : Text → Type 0
Zerofree [] = Unit {0}
Zerofree (c ∷ s) = (c ≢ 0) × Zerofree s

Zerofree-++ : (s t : Text) → Zerofree s → Zerofree t → Zerofree (s ++ t)
Zerofree-++ [] t h k = k
Zerofree-++ (c ∷ s) t h k = (h.0, Zerofree-++ s t h.1 k)

Component-Zerofree : (w : Text) → Component w → Zerofree w
Component-Zerofree [] h = tt
Component-Zerofree (c ∷ w) h = (h.1, Component-Zerofree w h.2)

spelled-Zerofree : (cs : List Text) → Components cs → Zerofree (spelled cs)
spelled-Zerofree [] h = tt
spelled-Zerofree (w ∷ cs) h =
    Zerofree-++ (spelled cs) (47 ∷ w) (spelled-Zerofree cs h.1)
      (omega arith, Component-Zerofree w h.0)

absolute-Zerofree : (cs : List Text) → Components cs → Zerofree (absolute cs)
absolute-Zerofree [] h = (omega arith, tt)
absolute-Zerofree (w ∷ cs) h = spelled-Zerofree (w ∷ cs) h

text_at-Holds :
    (s : Text) (rounds : ℕ) (buf : Mem) (i : ℕ)
    → Zerofree s
    → Holds buf i s
    → buf (i + length s) ≡ 0
    → length s < rounds
    → text_at rounds buf i ≡ some s
unfolding text_at
text_at-Holds s zero buf i free h end l = absurd (omega (arith, l))
text_at-Holds [] (suc rounds) buf i free h end l =
    let here : i + 0 ≡ i = omega arith in
    let it : buf i ≡ 0 = subst (λ j. buf j ≡ 0) here end in rw it refl
text_at-Holds (c ∷ s) (suc rounds) buf i free h end l =
    let there : i + suc (length s) ≡ i + 1 + length s = omega arith in
    let other : (c == 0) ≡ false = ground (arith, free.0) in
    rw
      (
        h.0,
        other,
        text_at-Holds s rounds buf (i + 1) free.1 h.1 (subst (λ j. buf j ≡ 0) there end)
            (omega (arith, l)),
      )
      refl

parent-Directory : (cs : List Text) → Directory cs → Directory (parent cs)
parent-Directory [] d = d
parent-Directory (w ∷ cs) d = record { names = d.names.1; clean = d.clean.1 }

enter-Directory : (cs : List Text) (w : Text) → Component w → Directory cs → Directory (enter cs w)
enter-Directory cs w h d = elim (kinds w) [
  | inl e ↦ subst (λ w. Directory (enter cs w)) (sym e) d
  | inr (inl e) ↦ subst (λ w. Directory (enter cs w)) (sym e) d
  | inr (inr (inl e)) ↦ subst (λ w. Directory (enter cs w)) (sym e) (parent-Directory cs d)
  | inr (inr (inr k)) ↦ rw k (record { names = (name-IsName w k h, d.names); clean = (h, d.clean) })
]

resolve-Directory :
    (ws : List Text) (cs : List Text) → Components ws → Directory cs → Directory (resolve cs ws)
resolve-Directory [] cs h d = d
resolve-Directory (w ∷ ws) cs h d =
    resolve-Directory ws (enter cs w) h.1 (enter-Directory cs w h.0 d)

origin-Directory :
    (base : List Text) (w : Text) (ws : List Text) → Directory base → Directory (origin base w ws)
origin-Directory base [] (v ∷ ws) d = record { names = tt; clean = tt }
origin-Directory base [] [] d = d
origin-Directory base (c ∷ w) ws d = d

-- The path that the calls make of their argument, in a buffer that held no slash and has room.
pub abs_path_lem :
    (buf : Mem) (base : List Text) (w : Text) (ws : List Text)
    → ((j : ℕ) → buf j ≢ 47)
    → Directory base
    → Component w
    → Components ws
    → length (absolute (resolve (origin base w ws) (w ∷ ws))) < 2048
    → abs_path buf (joined w ws) (absolute base)
      ≡ some (absolute (resolve (origin base w ws) (w ∷ ws)))
unfolding abs_path
abs_path_lem buf base w ws clean d h hs fits =
    let target = resolve (origin base w ws) (w ∷ ws) in
    let made = vfs_get_absolute_path_lem buf base w ws clean d.names h hs in
    let there =
      resolve-Directory (w ∷ ws) (origin base w ws) (h, hs) (origin-Directory base w ws d) in
    elim (Option-cases (vfs_get_absolute_path buf (joined w ws) (absolute base))) [
      | inl e ↦ absurd (subst (λ r. Answer r target) e made)
      | inr (filled, e) ↦
          let ends : Ends filled target = subst (λ r. Answer r target) e made in
          rw (e) (
            text_at-Holds (absolute target) 2048 filled 0 (absolute-Zerofree target there.clean)
              ends.text (subst (λ j. filled j ≡ 0) (omega arith) ends.ended) fits)
    ]

-- The type of the file, without its highest bit, which no type has, is `S_IFDIR` or a later one: a
-- directory, a link or a socket.
abbrev pub has_ifdir : ℕ → Bool
has_ifdir mode = leb 4 (mode / 0x100 % 8)

module _ {S : Type 0} (set_errno : ℕ → S → S) (open_path : Text → ℤ → S → Option (ℤ × S))
    (fstat : ℤ → S → Option (ℕ × S)) (close : ℤ → S → Option (ℤ × S)) where
  -- What the kernel answers to the calls that chdir makes for a path: it opens it or does not, and where
  -- it does, it tells the mode of what it has opened and closes it again.
  pub record Answers (path : Text) (s : S) (fd : ℤ) (mode : ℕ) (failed done : S) : Type 0 where
    pub after_fstat : S
    pub closed : ℤ
    pub opens : open_path path o_rdonly s ≡ some (fd, failed)
    pub stats : is_minus_one fd ≡ false → fstat fd failed ≡ some (mode, after_fstat)
    pub closes : is_minus_one fd ≡ false → close fd after_fstat ≡ some (closed, done)

  -- Where the buffer on the stack holds no slash before, the working directory is a path of names and
  -- the path that the argument resolves to has fewer than 2048 bytes, which is a path of names too:
  -- chdir returns -1 and leaves the working directory where the argument reaches into the half of the
  -- kernel; it asks the kernel for the resolved path, and returns -1 and leaves the working directory
  -- where that cannot be opened, or is opened and is no directory, link or socket, with ENOTDIR then;
  -- and otherwise returns 0 and the resolved path is the working directory. What was opened is closed.
  pub syscall_chdir-Directory :
      (buf : Mem) (rdi : ℕ) (base : List Text) (w : Text) (ws : List Text) (s : S) (fd : ℤ)
      (mode : ℕ) (failed done : S)
      → ((j : ℕ) → buf j ≢ 47)
      → Directory base
      → Component w
      → Components ws
      → length (absolute (resolve (origin base w ws) (w ∷ ws))) < 2048
      → Answers (absolute (resolve (origin base w ws) (w ∷ ws))) s fd mode failed done
      → let target = resolve (origin base w ws) (w ∷ ws) in
        Directory target
        × (syscall_chdir set_errno open_path fstat close buf rdi (joined w ws) (absolute base) s ≡ (
            if privilege_check rdi (length (joined w ws) + 1)
            then some (negsuc 0, absolute base, s)
            else if is_minus_one fd
            then some (negsuc 0, absolute base, failed)
            else if has_ifdir mode
            then some (pos 0, absolute target, done)
            else some (negsuc 0, absolute base, set_errno enotdir done)))
  unfolding syscall_chdir
  syscall_chdir-Directory buf rdi base w ws s fd mode failed done clean d h hs fits answers =
      let resolved = abs_path_lem buf base w ws clean d h hs fits in
      let there =
        resolve-Directory (w ∷ ws) (origin base w ws) (h, hs) (origin-Directory base w ws d) in
      (
        there,
        elim (Bool-cases (privilege_check rdi (length (joined w ws) + 1))) [
          | inl forbidden ↦ rw forbidden refl
          | inr user ↦ elim (Bool-cases (is_minus_one fd)) [
            | inl refused ↦ rw (user, resolved, answers.opens, refused) refl
            | inr given ↦ elim (Bool-cases (mode / 0x400 % 2 == 0)) [
              | inl file ↦
                  let lacks : has_ifdir mode ≡ false = ground (arith, file) in
                  rw
                    (
                      user,
                      resolved,
                      answers.opens,
                      given,
                      answers.stats given,
                      answers.closes given,
                      file,
                      lacks,
                    )
                    refl
              | inr directory ↦
                  let has : has_ifdir mode ≡ true = ground (arith, directory) in
                  rw
                    (
                      user,
                      resolved,
                      answers.opens,
                      given,
                      answers.stats given,
                      answers.closes given,
                      directory,
                      has,
                    )
                    refl
            ]
          ]
        ],
      )

-- What `syscall_getcwd` writes is the working directory, and fits the buffer of the caller.
syscall_getcwd-fits :
    {S : Type 0} (set_errno : ℕ → S → S) (cwd : Text) (buf limit : ℕ) (s : S) (written : Text)
    → (syscall_getcwd set_errno cwd buf limit s).1 ≡ some written
    → (written ≡ cwd) × (length cwd + 1 ≤ limit)
unfolding syscall_getcwd
syscall_getcwd-fits set_errno cwd buf limit s written h = ground (arith, h)
