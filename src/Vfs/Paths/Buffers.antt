-- ===== src/Vfs/Paths/Buffers.antt =====
-- What the buffer of `vfs_get_absolute_path` holds while a path is resolved.
use qword.Prelude.{ℕ, zero, suc, ◌+◌, ◌<◌, ◌≤◌, ◌==◌, if◌then◌else◌, false, Bool-cases, inl, inr}
use qword.Prelude.{some, List, [], ◌∷◌, ◌++◌, length, length-append}
use qword.Prelude.{◌≡◌, ◌≢◌, refl, subst, ◌∙◌, arith}
use qword.Klib.{Mem, store}
use qword.Vfs.{Text, root_name}
use qword.Vfs.Paths.{back, ascend}

-- The text stands at an index.
abbrev pub Holds : Mem → ℕ → Text → Type 0
Holds buf i [] = Unit {0}
Holds buf i (c ∷ s) = (buf i ≡ c) × Holds buf (i + 1) s

abbrev pub Slashless : Text → Type 0
Slashless [] = Unit {0}
Slashless (c ∷ s) = (c ≢ 47) × Slashless s

-- A name, with a character at least.
abbrev pub IsName : Text → Type 0
IsName [] = ⊥
IsName (c ∷ s) = (c ≢ 47) × Slashless s

abbrev pub Names : List Text → Type 0
Names [] = Unit {0}
Names (w ∷ cs) = IsName w × Names cs

-- The names behind the root, the last one first, each with its slash.
abbrev pub spelled : List Text → Text
spelled [] = []
spelled (w ∷ cs) = spelled cs ++ 47 ∷ w

abbrev pub absolute : List Text → Text
absolute [] = root_name
absolute (w ∷ cs) = spelled (w ∷ cs)

pub Holds-++ :
    (buf : Mem) (i : ℕ) (s t : Text)
    → Holds buf i s
    → Holds buf (i + length s) t
    → Holds buf i (s ++ t)
Holds-++ buf i [] t h k = subst (λ j. Holds buf j t) (omega arith) k
Holds-++ buf i (c ∷ s) t h k =
    (h.0, Holds-++ buf (i + 1) s t h.1 (subst (λ j. Holds buf j t) (omega arith) k))

pub ++-Holds :
    (buf : Mem) (i : ℕ) (s t : Text)
    → Holds buf i (s ++ t)
    → Holds buf i s × Holds buf (i + length s) t
++-Holds buf i [] t h = (tt, subst (λ j. Holds buf j t) (omega arith) h)
++-Holds buf i (c ∷ s) t h =
    let rest = ++-Holds buf (i + 1) s t h.1 in
    ((h.0, rest.0), subst (λ j. Holds buf j t) (omega arith) rest.1)

-- A write behind the text leaves it.
pub Holds-same :
    (buf buf' : Mem) (i : ℕ) (s : Text)
    → ((j : ℕ) → j < i + length s → buf' j ≡ buf j)
    → Holds buf i s
    → Holds buf' i s
Holds-same buf buf' i [] same h = tt
Holds-same buf buf' i (c ∷ s) same h = (
  same i (omega arith) ∙ h.0,
  Holds-same buf buf' (i + 1) s (λ j l. same j (omega (arith, l))) h.1,
)

Slashless-Holds :
    (buf : Mem) (i : ℕ) (s : Text)
    → Slashless s
    → Holds buf i s
    → (j : ℕ) → i ≤ j
    → j < i + length s
    → buf j ≢ 47
Slashless-Holds buf i [] free h j l u = absurd (omega (arith, l, u))
Slashless-Holds buf i (c ∷ s) free h j l u =
    ground (arith, l, u, h.0, free.0, Slashless-Holds buf (i + 1) s free.1 h.1 j)

pub IsName-Slashless : (w : Text) → IsName w → Slashless w
IsName-Slashless [] n = elim n [ ]
IsName-Slashless (c ∷ s) n = n

-- The buffer holds the names, up to `ptr`.
pub record Written (buf : Mem) (ptr : ℕ) (cs : List Text) : Type 0 where
  pub text : Holds buf 0 (absolute cs)
  pub size : ptr ≡ length (absolute cs)

-- And what lies behind has no slash in it.
pub record Out (buf : Mem) (ptr : ℕ) (cs : List Text) : Type 0 where
  pub written : Written buf ptr cs
  pub stale : (j : ℕ) → ptr ≤ j → buf j ≢ 47

-- The last slash of the names.
pub record Top (buf : Mem) (ptr : ℕ) (cs : List Text) : Type 0 where
  pub below : Holds buf 0 (spelled cs)
  pub slash : buf (length (spelled cs)) ≡ 47
  pub behind : (j : ℕ) → length (spelled cs) < j → j < ptr → buf j ≢ 47
  pub room : length (spelled cs) + 1 < ptr

pub top :
    (buf : Mem) (ptr : ℕ) (w : Text) (cs : List Text)
    → Written buf ptr (w ∷ cs)
    → IsName w
    → Top buf ptr cs
top buf ptr [] cs out n = elim n [ ]
top buf ptr (c ∷ w) cs out n =
    let parts = ++-Holds buf 0 (spelled cs) (47 ∷ c ∷ w) out.text in
    let rest : Holds buf (length (spelled cs)) (47 ∷ c ∷ w) =
      subst (λ j. Holds buf j (47 ∷ c ∷ w)) (omega arith) parts.1 in
    let size : ptr ≡ length (spelled cs) + suc (suc (length w)) =
      out.size ∙ length-append (spelled cs) (47 ∷ c ∷ w) in
    record {
      below = parts.0;
      slash = rest.0;
      behind = λ j l u.
          Slashless-Holds buf (length (spelled cs) + 1) (c ∷ w) n rest.1 j (omega (arith, l))
            (omega (arith, u, size));
      room = omega (arith, size);
    }

back_lem :
    (buf : Mem) (n ptr : ℕ)
    → n ≤ ptr
    → buf n ≡ 47
    → ((j : ℕ) → n < j → j ≤ ptr → buf j ≢ 47)
    → back buf ptr ≡ some n
unfolding back
back_lem buf n zero l slash behind =
    let here : n ≡ 0 = omega (arith, l) in
    let root : buf 0 ≡ 47 = subst (λ k. buf k ≡ 47) here slash in rw (root, here) refl
back_lem buf n (suc ptr) l slash behind = elim (Bool-cases (n == suc ptr)) [
  | inl e ↦
      let here : n ≡ suc ptr = ground (arith, e) in
      let it : buf (suc ptr) ≡ 47 = subst (λ k. buf k ≡ 47) here slash in rw (it, here) refl
  | inr e ↦
      let below : n ≤ ptr = ground (arith, e, l) in
      let other : (buf (suc ptr) == 47) ≡ false =
        ground (arith, behind (suc ptr) (omega (arith, below)) (omega arith)) in
      rw other (back_lem buf n ptr below slash (λ j a b. behind j a (omega (arith, b))))
]

abbrev pub parent : List Text → List Text
parent [] = []
parent (w ∷ cs) = cs

length-absolute :
    (cs : List Text)
    → length (absolute cs) ≡ (if length (spelled cs) == 0 then 1 else length (spelled cs))
length-absolute [] = refl
length-absolute (w ∷ cs) = ground (arith, length-append (spelled cs) (47 ∷ w))

Holds-absolute :
    (buf : Mem) (cs : List Text) → buf 0 ≡ 47 → Holds buf 0 (spelled cs) → Holds buf 0 (absolute cs)
Holds-absolute buf [] root h = (root, tt)
Holds-absolute buf (w ∷ cs) root h = h

-- The first byte is the root.
spelled-root : (buf : Mem) (w : Text) (cs : List Text) → Holds buf 0 (spelled (w ∷ cs)) → buf 0 ≡ 47
spelled-root buf w [] h = h.0
spelled-root buf w (v ∷ cs) h =
    spelled-root buf v cs (++-Holds buf 0 (spelled (v ∷ cs)) (47 ∷ w) h).0

-- What `ascend` finds, in the names that are left.
pub record Ascent (buf : Mem) (ptr : ℕ) (cs : List Text) : Type 0 where
  pub goes : ascend buf ptr ≡ some (length (absolute cs))
  pub at_term : Written buf (length (absolute cs)) cs
  pub onward : Out (store buf (length (absolute cs)) 0) (length (absolute cs)) cs

ascend-to :
    (buf : Mem) (ptr : ℕ) (cs : List Text)
    → buf 0 ≡ 47
    → Holds buf 0 (spelled cs)
    → buf (length (spelled cs)) ≡ 47
    → ((j : ℕ) → length (spelled cs) < j → buf j ≢ 47)
    → length (spelled cs) ≤ ptr
    → Ascent buf ptr cs
unfolding ascend
ascend-to buf ptr cs root below slash behind l =
    let size = length-absolute cs in
    let text = Holds-absolute buf cs root below in
    record {
      goes =
          rw (ascend, back_lem buf (length (spelled cs)) ptr l slash (λ j a b. behind j a), size)
            refl;
      at_term = record { text = text; size = refl };
      onward = record {
        written = record {
          text =
              Holds-same buf (store buf (length (absolute cs)) 0) 0 (absolute cs)
                (λ j u. ground (arith, u)) text;
          size = refl;
        };
        stale = λ j u. ground (arith, u, size, behind j);
      };
    }

pub ascend_lem :
    (buf : Mem) (ptr : ℕ) (cs : List Text) → Out buf ptr cs → Names cs → Ascent buf ptr (parent cs)
ascend_lem buf ptr [] out names =
    ascend-to buf ptr [] out.written.text.0 tt out.written.text.0
      (λ j l. out.stale j (omega (arith, l, out.written.size))) (omega arith)
ascend_lem buf ptr (w ∷ cs) out names =
    let last = top buf ptr w cs out.written names.0 in
    ascend-to buf ptr cs (spelled-root buf w cs out.written.text) last.below last.slash
      (λ j l. ground (arith, last.behind j l, out.stale j)) (omega (arith, last.room))
