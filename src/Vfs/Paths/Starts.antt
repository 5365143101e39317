-- ===== src/Vfs/Paths/Starts.antt =====
-- The start of a component in `vfs_get_absolute_path`, for each kind of component.
use qword.Prelude.{ℕ, zero, suc, ◌+◌, ◌-◌, ◌<◌, ◌==◌, if◌then◌else◌, ◌&&◌, true, not}
use qword.Prelude.{some, List, [], ◌∷◌, ◌++◌, length}
use qword.Prelude.{◌≡◌, ◌≢◌, ◌⊎◌, inl, inr, refl, sym, subst, arith}
use qword.Klib.{Mem, store}
use qword.Vfs.{Text}
use qword.Vfs.Paths.{continue, term, ascend, first_run}
use qword.Vfs.Paths.Buffers.{Slashless, IsName, Names, spelled, Out, top}

-- A component of a path in C: neither a slash nor a zero is in it.
abbrev pub Component : Text → Type 0
Component [] = Unit {0}
Component (c ∷ s) = (c ≢ 47) × (c ≢ 0) × Component s

pub Component-Slashless : (w : Text) → Component w → Slashless w
Component-Slashless [] h = tt
Component-Slashless (c ∷ w) h = (h.0, Component-Slashless w h.2)

pub data Kind : Type 0 where
  here : Kind
  up : Kind
  name : Kind

abbrev pub kind_of : Text → Kind
kind_of [] = here
kind_of (c ∷ []) = if c == 46 then here else name
kind_of (c ∷ d ∷ []) = if c == 46 && d == 46 then up else name
kind_of (c ∷ d ∷ e ∷ w) = name

pub kinds : (w : Text) → (w ≡ []) ⊎ (w ≡ 46 ∷ []) ⊎ (w ≡ 46 ∷ 46 ∷ []) ⊎ (kind_of w ≡ name)
kinds [] = inl refl
kinds (c ∷ []) = ground arith
kinds (c ∷ d ∷ []) = ground arith
kinds (c ∷ d ∷ e ∷ w) = inr (inr (inr refl))

pub name-IsName : (w : Text) → kind_of w ≡ name → Component w → IsName w
name-IsName [] k h = ground (arith, k)
name-IsName (c ∷ w) k h = Component-Slashless (c ∷ w) h

-- The end of the path, or of the component.
abbrev pub IsRest : Text → Type 0
IsRest [] = Unit {0}
IsRest (c ∷ s) = c ≡ 47

pub first_run-slash :
    (path : Text) (buf : Mem) (ptr : ℕ)
    → 0 < ptr
    → first_run (47 ∷ path) buf ptr ≡ continue (47 ∷ path) buf ptr
unfolding first_run
first_run-slash path buf zero h = absurd (omega (arith, h))
first_run-slash path buf (suc b) h = refl

pub first_run-dot :
    (buf : Mem) (ptr : ℕ)
    → 0 < ptr
    → (first_run (46 ∷ []) buf ptr ≡ term buf ptr)
      × (first_run (46 ∷ 47 ∷ []) buf ptr ≡ term buf ptr)
      × ((c : ℕ) (path : Text)
          → c ≢ 0
          → first_run (46 ∷ 47 ∷ c ∷ path) buf ptr ≡ continue (47 ∷ c ∷ path) buf ptr)
unfolding first_run
first_run-dot buf zero h = absurd (omega (arith, h))
first_run-dot buf (suc b) h = (refl, refl, λ c path n. ground (arith, n))

pub first_run-parent :
    (buf : Mem) (ptr p : ℕ)
    → 0 < ptr
    → ascend buf ptr ≡ some p
    → (first_run (46 ∷ 46 ∷ []) buf ptr ≡ term buf p)
      × (first_run (46 ∷ 46 ∷ 47 ∷ []) buf ptr ≡ term buf p)
      × ((c : ℕ) (path : Text)
          → c ≢ 0
          → first_run (46 ∷ 46 ∷ 47 ∷ c ∷ path) buf ptr
            ≡ continue (47 ∷ c ∷ path) (store buf p 0) p)
unfolding first_run
first_run-parent buf zero p h e = absurd (omega (arith, h))
first_run-parent buf (suc b) p h e = (rw (e) refl, rw (e) refl, λ c path n. ground (arith, n, e))

-- Before a name, a slash is written where none stands.
pub first_run-name :
    (w rest : Text) (buf : Mem) (before : ℕ)
    → (kind_of w ≡ name) ⊎ ((w ≡ []) × (rest ≡ []))
    → Component w
    → IsRest rest
    → first_run (w ++ rest) buf (suc before) ≡ (
        if not (before == 0) && not (buf before == 47)
        then continue (w ++ rest) (store buf (suc before) 47) (suc before + 1)
        else continue (w ++ rest) buf (suc before))
unfolding first_run
first_run-name [] [] buf before k h r = refl
first_run-name [] (d ∷ rest) buf before k h r = ground (arith, k)
first_run-name (c ∷ []) [] buf before k h r = ground (arith, k, h)
first_run-name (c ∷ []) (d ∷ rest) buf before k h r = ground (arith, k, h, r)
first_run-name (c ∷ d ∷ []) [] buf before k h r = ground (arith, k, h)
first_run-name (c ∷ d ∷ []) (e ∷ rest) buf before k h r = ground (arith, k, h, r)
first_run-name (c ∷ d ∷ e ∷ w) rest buf before k h r = ground (arith, h)

-- The buffer with the slash that a name stands behind.
pub record Slashed (path : Text) (buf : Mem) (ptr : ℕ) (cs : List Text) : Type 0 where
  pub slashed : Mem
  pub goes : first_run path buf ptr ≡ continue path slashed (length (spelled cs) + 1)
  pub slash : slashed (length (spelled cs)) ≡ 47
  pub same : (j : ℕ) → j < length (spelled cs) → slashed j ≡ buf j
  pub stale : (j : ℕ) → length (spelled cs) < j → slashed j ≢ 47

pub first_run-Slashed :
    (w rest : Text) (buf : Mem) (ptr : ℕ) (cs : List Text)
    → (kind_of w ≡ name) ⊎ ((w ≡ []) × (rest ≡ []))
    → Component w
    → IsRest rest
    → Out buf ptr cs
    → Names cs
    → Slashed (w ++ rest) buf ptr cs
first_run-Slashed w rest buf ptr [] k h r out names = record {
  slashed = buf;
  goes = rw (out.written.size, first_run-name w rest buf 0 k h r) refl;
  slash = out.written.text.0;
  same = λ j l. refl;
  stale = λ j l. out.stale j (omega (arith, l, out.written.size));
}
first_run-Slashed w rest buf ptr (v ∷ cs) k h r out names =
    let n = length (spelled (v ∷ cs)) in
    let last = top buf ptr v cs out.written names.0 in
    let size : ptr ≡ suc (ptr - 1) = omega (arith, last.room) in
    let slash : (not (ptr - 1 == 0) && not (buf (ptr - 1) == 47)) ≡ true = ground (
      arith,
      last.room,
      last.behind (ptr - 1) (omega (arith, last.room)) (omega (arith, last.room)),
    ) in
    let adds : first_run (w ++ rest) buf ptr ≡ continue (w ++ rest) (store buf ptr 47) (ptr + 1) =
      subst (λ p. first_run (w ++ rest) buf p ≡ continue (w ++ rest) (store buf p 47) (p + 1))
        (sym size) (rw (first_run-name w rest buf (ptr - 1) k h r, slash) refl) in
    record {
      slashed = store buf n 47;
      goes =
          subst (λ p. first_run (w ++ rest) buf ptr ≡ continue (w ++ rest) (store buf p 47) (p + 1))
            out.written.size adds;
      slash = ground arith;
      same = λ j l. ground (arith, l);
      stale = λ j l. ground (arith, l, out.stale j, out.written.size);
    }
