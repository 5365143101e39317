-- ===== src/Vfs/Mountpoint.antt =====
-- `vfs_get_mountpoint` of root/src/kernel/fd/vfs/vfs.c takes the longest mount point of a path.
use mathlib.Core.Option.{some-injective, none-ne-some}
use qword.Prelude.{
  ℕ, zero, suc, ◌≤◌, ◌<◌, ltb, ◌&&◌, true, Bool-cases, Option, Option-cases, none, some, List, [],
  ◌∷◌, ◌++◌,
}
use qword.Prelude.{length, get_elem?, drop, ◌≡◌, ◌⊎◌, inl, inr, refl, sym, ap, subst, ◌∙◌, arith}
use qword.Klib.Strings.Compare.{starts_with}
use qword.Vfs.{Text, Mnt, covers, root_name, local_path, scan_mounts, vfs_get_mountpoint}

List-cases : (l : Text) → (l ≡ []) ⊎ ((c : ℕ) × (cs : Text) × (l ≡ c ∷ cs))
List-cases [] = inl refl
List-cases (c ∷ cs) = inr (c, cs, refl)

length-none : (l : Text) → length l ≤ 0 → l ≡ []
length-none [] h = refl
length-none (c ∷ cs) h = ground (arith, h)

starts_with-drop :
    (path name : Text) → starts_with path name ≡ true → name ++ drop (length name) path ≡ path
unfolding starts_with
starts_with-drop path [] e = refl
starts_with-drop [] (n ∷ ns) e = ground arith
starts_with-drop (p ∷ ps) (n ∷ ns) e =
    let same : n ≡ p = ground (arith, e) in
    let rest = starts_with-drop ps ns (ground (arith, e)) in
    ap (λ c. c ∷ (ns ++ drop (length ns) ps)) same ∙ ap (λ l. p ∷ l) rest

local_path-root : (path : Text) (size : ℕ) → size ≤ 1 → (local_path path size ≡ path) ⊎ (path ≡ [])
unfolding local_path
local_path-root [] size h = inr refl
local_path-root (c ∷ cs) size h = inl (ground (arith, h))

local_path-rest :
    (path name : Text)
    → 1 < length name
    → starts_with path name ≡ true
    → (local_path path (length name) ≡ root_name) ⊎ (name ++ local_path path (length name) ≡ path)
unfolding local_path
local_path-rest path name h e =
    let long : ltb 1 (length name) ≡ true = ground (arith, h) in
    elim (List-cases (drop (length name) path)) [
      | inl nothing ↦ inl (rw (local_path, long, nothing) refl)
      | inr (c, cs, some_left) ↦ inr (
          rw (local_path, long, some_left)
            (ap (λ l. name ++ l) (sym some_left) ∙ starts_with-drop path name e))
    ]

module _ {W : Type 0} where
  -- A guess of the loop: none with size 0, or a mount point of the path with its length.
  abbrev Guess : Text → Option (Mnt W) → ℕ → Type 0
  Guess path none size = size ≡ 0
  Guess path (some m) size = (length m.name ≡ size) × (covers m.name path ≡ true) × (0 < size)

  -- The guess at the end comes from the list or was there before, and no mount point of the path is
  -- longer.
  record Longest (path : Text) (mnts : List (Mnt W)) (guess : Option (Mnt W)) (size : ℕ)
      (after : Option (Mnt W) × ℕ) : Type 0 where
    pub valid : Guess path after.0 after.1
    pub grows : size ≤ after.1
    pub source :
        (after.0 ≡ guess)
        ⊎ ((i : ℕ) × (m : Mnt W) × (get_elem? mnts i ≡ some m) × (after.0 ≡ some m))
    pub longest :
        (i : ℕ) (m : Mnt W)
        → get_elem? mnts i ≡ some m
        → covers m.name path ≡ true
        → length m.name ≤ after.1

  longest-cons :
      (path : Text) (m : Mnt W) (mnts : List (Mnt W)) (bound : ℕ)
      → (covers m.name path ≡ true → length m.name ≤ bound)
      → ((i : ℕ) (k : Mnt W)
          → get_elem? mnts i ≡ some k
          → covers k.name path ≡ true
          → length k.name ≤ bound)
      → (i : ℕ) (k : Mnt W) → get_elem? (m ∷ mnts) i ≡ some k
      → covers k.name path ≡ true
      → length k.name ≤ bound
  longest-cons path m mnts bound head tail zero k e c =
      let same : m ≡ k = some-injective m k e in
      subst (λ x. length x.name ≤ bound) same
        (head (subst (λ x. covers x.name path ≡ true) (sym same) c))
  longest-cons path m mnts bound head tail (suc i) k e c = tail i k e c

  scan_mounts_lem :
      (path : Text) (mnts : List (Mnt W)) (guess : Option (Mnt W)) (size : ℕ)
      → Guess path guess size
      → Longest path mnts guess size (scan_mounts path mnts guess size)
  unfolding scan_mounts
  scan_mounts_lem path [] guess size valid = record {
    valid = valid;
    grows = omega arith;
    source = inl refl;
    longest = λ i m e c. ground (arith, e);
  }
  scan_mounts_lem path (m ∷ mnts) guess size valid =
      elim (Bool-cases (covers m.name path && ltb size (length m.name))) [
        | inl better ↦
            let rest =
              scan_mounts_lem path mnts (some m) (length m.name)
                (refl, ground (arith, better), ground (arith, better)) in
            let goes : scan_mounts path (m ∷ mnts) guess size
                ≡ scan_mounts path mnts (some m) (length m.name) =
              rw (scan_mounts, better) refl in
            subst (Longest path (m ∷ mnts) guess size) (sym goes) (record {
              valid = rest.valid;
              grows = ground (arith, rest.grows, better);
              source = inr (elim rest.source [
                | inl e ↦ (0, m, refl, e)
                | inr (i, k, e, f) ↦ (suc i, k, e, f)
              ]);
              longest = longest-cons path m mnts _ (λ c. rest.grows) rest.longest;
            })
        | inr other ↦
            let rest = scan_mounts_lem path mnts guess size valid in
            let goes : scan_mounts path (m ∷ mnts) guess size ≡ scan_mounts path mnts guess size =
              rw (scan_mounts, other) refl in
            subst (Longest path (m ∷ mnts) guess size) (sym goes) (record {
              valid = rest.valid;
              grows = rest.grows;
              source = elim rest.source [ inl e ↦ inl e | inr (i, k, e, f) ↦ inr (suc i, k, e, f) ];
              longest =
                  longest-cons path m mnts _ (λ c. ground (arith, c, other, rest.grows))
                    rest.longest;
            })
      ]

  -- A mount point of the list that the path is inside of, none of them longer, and the path without
  -- its name, which is "/" where nothing is left; a name of one character stays.
  abbrev pub Inside : Text → List (Mnt W) → Mnt W × Text → Type 0
  Inside path mnts found =
      ((i : ℕ) × (get_elem? mnts i ≡ some found.0))
      × (covers found.0.name path ≡ true)
      × ((i : ℕ) (k : Mnt W)
          → get_elem? mnts i ≡ some k
          → covers k.name path ≡ true
          → length k.name ≤ length found.0.name)
      × ((length found.0.name ≤ 1) → (found.1 ≡ path) ⊎ (path ≡ []))
      × ((1 < length found.0.name) → (found.1 ≡ root_name) ⊎ (found.0.name ++ found.1 ≡ path))

  -- `vfs_get_mountpoint` returns a longest mount point that the path is inside of, with the path
  -- without its name, which is "/" where nothing is left; and no mount point only if the path is
  -- inside of none, but for those with an empty name.
  pub vfs_get_mountpoint_lem :
      (path : Text) (mnts : List (Mnt W))
      → ((found : Mnt W × Text) × (vfs_get_mountpoint path mnts ≡ some found)
          × Inside path mnts found)
        ⊎ ((vfs_get_mountpoint path mnts ≡ none)
            × ((i : ℕ) (k : Mnt W)
                → get_elem? mnts i ≡ some k
                → covers k.name path ≡ true
                → k.name ≡ []))
  unfolding vfs_get_mountpoint
  vfs_get_mountpoint_lem path mnts =
      let scanned = scan_mounts_lem path mnts none 0 refl in
      elim (Option-cases (scan_mounts path mnts none 0).0) [
        | inl nobody ↦
            let size : (scan_mounts path mnts none 0).1 ≡ 0 =
              subst (λ g. Guess path g (scan_mounts path mnts none 0).1) nobody scanned.valid in
            inr (
              rw (vfs_get_mountpoint, nobody) refl,
              λ i k at c. length-none k.name (omega (arith, size, scanned.longest i k at c)),
            )
        | inr (g, best) ↦
            let (full, inside, pos) : Guess path (some g) (scan_mounts path mnts none 0).1 =
              subst (λ g. Guess path g (scan_mounts path mnts none 0).1) best scanned.valid in
            let starts : starts_with path g.name ≡ true = ground (arith, inside) in
            inl (
              (g, local_path path (length g.name)),
              rw (vfs_get_mountpoint, best) (ap (λ n. some (g, local_path path n)) (sym full)),
              (
                elim scanned.source [
                  | inl e ↦ absurd (none-ne-some g (sym e ∙ best))
                  | inr (i, k, at, e) ↦ (i, at ∙ sym e ∙ best)
                ],
                inside,
                λ i k at c. omega (arith, full, scanned.longest i k at c),
                λ short. local_path-root path (length g.name) short,
                λ long. local_path-rest path g.name long starts,
              ),
            )
      ]
