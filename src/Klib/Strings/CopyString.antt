-- ===== src/Klib/Strings/CopyString.antt =====
-- What `strcpy` and `strncpy` of root/src/kernel/lib/klib.c leave in memory.
use qword.Prelude.{ℕ, zero, suc, ◌+◌, ◌-◌, ◌<◌, ◌≡◌, ◌==◌, ◌⊎◌, arith}
use qword.Prelude.{subst, if◌then◌else◌, false}
use qword.Prelude.{List, [], ◌∷◌, length, some}
use qword.Klib.{Mem, store}
use qword.Klib.Memory.Copy.{copied, inside}
use qword.Klib.Strings.{strcpy_from, strcpy}
use qword.Klib.Strings.Length.{IsText, IsText-shift}

-- A store elsewhere leaves a text as it is.
IsText-store :
    (mem : Mem) (p a v : ℕ) (xs : List ℕ)
    → (a < p) ⊎ (p + length xs < a)
    → IsText mem p xs
    → IsText (store mem a v) p xs
IsText-store mem p a v [] apart text = ground arith
IsText-store mem p a v (x ∷ xs) apart text =
    (ground arith, text.1, IsText-store mem (p + 1) a v xs (ground arith) text.2)

strcpy-join :
    (mem mem' : Mem) (dest src i n y : ℕ)
    → (dest + i + suc n < src + i) ⊎ (src + i + suc n < dest + i)
    → let m = store mem (dest + i) (mem (src + i)) in
      mem' y ≡ (if inside (dest + (i + 1)) (n + 1) y then m (src + (y - dest)) else m y)
      → mem' y ≡ (if inside (dest + i) (suc n + 1) y then mem (src + (y - dest)) else mem y)
strcpy-join mem mem' dest src i n y apart e = ground arith

strcpy_from_lem :
    (mem : Mem) (dest src fuel i : ℕ) (xs : List ℕ)
    → IsText mem (src + i) xs
    → (dest + i + length xs < src + i) ⊎ (src + i + length xs < dest + i)
    → length xs < fuel
    → (mem' : Mem) × (strcpy_from mem dest src fuel i ≡ some mem')
      × ((x : ℕ)
          → mem' x
            ≡ (if inside (dest + i) (length xs + 1) x then mem (src + (x - dest)) else mem x))
      × IsText mem' (dest + i) xs
unfolding strcpy_from
strcpy_from_lem mem dest src zero i xs text apart h = absurd (omega arith)
strcpy_from_lem mem dest src (suc fuel) i [] text apart h =
    (store mem (dest + i) 0, ground arith, λ x. ground arith, ground arith)
strcpy_from_lem mem dest src (suc fuel) i (x ∷ xs) text apart h =
    let m = store mem (dest + i) (mem (src + i)) in
    let (mem', e, bytes, copy) =
      strcpy_from_lem m dest src fuel (i + 1) xs
        (IsText-shift m src i xs
          (IsText-store mem (src + i + 1) (dest + i) (mem (src + i)) xs (omega arith) text.2))
        (omega arith) (omega arith) in
    let going : (mem (src + i) == 0) ≡ false = ground arith in
    let first : mem' (dest + i) ≡ x = ground (arith, bytes (dest + i)) in
    (
      mem',
      rw going e,
      λ y. strcpy-join mem mem' dest src i (length xs) y (omega arith) (bytes y),
      (first, text.1, subst (λ p. IsText mem' p xs) (omega arith) copy),
    )

-- `strcpy` copies the text with its zero where the two areas do not overlap, so that both hold it
-- afterwards, and changes nothing else.
pub strcpy_lem :
    (mem : Mem) (dest src fuel : ℕ) (xs : List ℕ)
    → IsText mem src xs
    → (dest + length xs < src) ⊎ (src + length xs < dest)
    → length xs < fuel
    → (mem' : Mem) × (strcpy fuel mem dest src ≡ some mem')
      × ((x : ℕ) → mem' x ≡ copied mem dest src (length xs + 1) x)
      × IsText mem' dest xs
unfolding strcpy
strcpy_lem mem dest src fuel xs text apart h =
    let (mem', e, bytes, copy) =
      strcpy_from_lem mem dest src fuel 0 xs (subst (λ p. IsText mem p xs) (omega arith) text)
        (omega arith) h in
    (
      mem',
      e,
      λ x.
          subst
            (λ d. mem' x ≡ (if inside d (length xs + 1) x then mem (src + (x - dest)) else mem x))
            (omega arith) (bytes x),
      subst (λ p. IsText mem' p xs) (omega arith) copy,
    )
