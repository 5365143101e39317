-- ===== src/Klib/Strings/Compare.antt =====
-- What `strcmp` and `strncmp` of root/src/kernel/lib/klib.c tell.
use qword.Prelude.{ℕ, zero, suc, ◌+◌, ◌<◌, ◌≡◌, ◌≢◌, ◌==◌, ◌⊎◌, inl, inr, ◌&&◌, arith}
use qword.Prelude.{refl, subst, ◌∙◌, if◌then◌else◌, Bool-cases, Bool, true, false}
use qword.Prelude.{List, [], ◌∷◌, length, some}
use qword.Klib.{Mem}
use qword.Klib.Strings.{strcmp_from, strcmp, strncmp_from, strncmp}
use qword.Klib.Strings.Length.{IsText, IsText-shift}

strcmp_from_lem :
    (mem : Mem) (a b fuel i : ℕ) (xs ys : List ℕ)
    → IsText mem (a + i) xs
    → IsText mem (b + i) ys
    → length xs < fuel
    → ((xs ≡ ys) × (strcmp_from mem a b fuel i ≡ some 0))
      ⊎ ((xs ≢ ys) × (strcmp_from mem a b fuel i ≡ some 1))
unfolding strcmp_from
strcmp_from_lem mem a b zero i xs ys tx ty h = absurd (omega arith)
strcmp_from_lem mem a b (suc fuel) i [] [] tx ty h = inl (refl, ground arith)
strcmp_from_lem mem a b (suc fuel) i [] (y ∷ ys) tx ty h = inr (λ e. cc, ground arith)
strcmp_from_lem mem a b (suc fuel) i (x ∷ xs) [] tx ty h = inr (λ e. cc, ground arith)
strcmp_from_lem mem a b (suc fuel) i (x ∷ xs) (y ∷ ys) tx ty h =
    let rest =
      strcmp_from_lem mem a b fuel (i + 1) xs ys (IsText-shift mem a i xs tx.2)
        (IsText-shift mem b i ys ty.2) (omega arith) in
    elim (Bool-cases (x == y)) [
      | inl same ↦
          let step : strcmp_from mem a b (suc fuel) i ≡ strcmp_from mem a b fuel (i + 1) =
            ground arith in
          let head : x ≡ y = ground arith in
          elim rest [ inl (e, r) ↦ inl (cc, step ∙ r) | inr (ne, r) ↦ inr (λ e. ne (cc), step ∙ r) ]
      | inr differ ↦ let ne : x ≢ y = ground arith in inr (λ e. ne (cc), ground arith)
    ]

-- `strcmp` returns 0 for two equal strings and 1 for any two others.
pub strcmp_lem :
    (mem : Mem) (a b fuel : ℕ) (xs ys : List ℕ)
    → IsText mem a xs
    → IsText mem b ys
    → length xs < fuel
    → ((xs ≡ ys) × (strcmp fuel mem a b ≡ some 0)) ⊎ ((xs ≢ ys) × (strcmp fuel mem a b ≡ some 1))
unfolding strcmp
strcmp_lem mem a b fuel xs ys tx ty h =
    strcmp_from_lem mem a b fuel 0 xs ys (subst (λ p. IsText mem p xs) (omega arith) tx)
      (subst (λ p. IsText mem p ys) (omega arith) ty) h

-- The text of `ns` begins the text of `ps`.
unfoldable pub starts_with : List ℕ → List ℕ → Bool
starts_with ps [] = true
starts_with [] (n ∷ ns) = false
starts_with (p ∷ ps) (n ∷ ns) = (p == n) && starts_with ps ns

strncmp_from_lem :
    (mem : Mem) (a b i : ℕ) (ps ns : List ℕ)
    → IsText mem (a + i) ps
    → IsText mem (b + i) ns
    → strncmp_from mem a b i (length ns) ≡ (if starts_with ps ns then 0 else 1)
unfolding strncmp_from starts_with
strncmp_from_lem mem a b i [] [] tp tn = refl
strncmp_from_lem mem a b i (p ∷ ps) [] tp tn = refl
strncmp_from_lem mem a b i [] (n ∷ ns) tp tn = ground arith
strncmp_from_lem mem a b i (p ∷ ps) (n ∷ ns) tp tn =
    let rest =
      strncmp_from_lem mem a b (i + 1) ps ns (IsText-shift mem a i ps tp.2)
        (IsText-shift mem b i ns tn.2) in
    elim (Bool-cases (p == n)) [
      | inl same ↦
          let same' : (mem (a + i) == mem (b + i)) ≡ true = ground arith in rw (same, same') rest
      | inr differ ↦
          let differ' : (mem (a + i) == mem (b + i)) ≡ false = ground arith in rw (differ, differ')
    ]

-- `strncmp` with the length of its second string returns 0 exactly where that string begins the
-- first, and 1 elsewhere.
pub strncmp-starts_with :
    (mem : Mem) (a b : ℕ) (ps ns : List ℕ)
    → IsText mem a ps
    → IsText mem b ns
    → strncmp mem a b (length ns) ≡ (if starts_with ps ns then 0 else 1)
unfolding strncmp
strncmp-starts_with mem a b ps ns tp tn =
    strncmp_from_lem mem a b 0 ps ns (subst (λ p. IsText mem p ps) (omega arith) tp)
      (subst (λ p. IsText mem p ns) (omega arith) tn)
