-- ===== src/Pipe/Buffer.antt =====
-- The buffer of a pipe (root/src/kernel/fd/pipe/pipe.c): its bytes, and what `krealloc` does to it.
use qword.Prelude.{
  ℕ, zero, suc, ◌+◌, ◌-◌, ◌*◌, ◌^◌, ◌≤◌, ◌<◌, ◌==◌, ltb, leb, if◌then◌else◌, Bool, true, false,
  ◌&&◌,
}
use qword.Prelude.{
  List, [], ◌∷◌, ◌++◌, length, get_or, take, drop, none, some, ◌≡◌, ◌⊎◌, inl, inr, Bool-cases, refl,
  ◌∙◌, ap, subst, arith,
}
use qword.Pipe.{
  Pipe, in_steps, in_pages, realloc_buffer, bytes_of, with_bytes, grow_buffer, shrink_buffer,
}

-- What the one page has room for that `krealloc` gives for up to 4096 steps.
abbrev pub max_size : ℕ
max_size = 4096

-- An empty pipe has no buffer, any other one a buffer of its number of steps.
abbrev pub Sound : Pipe → Type 0
Sound p =
    (p.size ≤ max_size)
    × (((p.size ≡ 0) × (p.buffer ≡ none))
        ⊎ ((0 < p.size) × (b : ℕ → ℕ) × (p.buffer ≡ some b) × (p.room ≡ in_steps p.size)))

-- The bytes that a pipe holds.
abbrev pub contents : Pipe → List ℕ
contents p = elim p.buffer [ none ↦ [] | some b ↦ bytes_of b 0 p.size ]

pub bytes_of-ext :
    (b c : ℕ → ℕ) (i n : ℕ)
    → ((j : ℕ) → i ≤ j → j < i + n → b j ≡ c j)
    → bytes_of b i n ≡ bytes_of c i n
bytes_of-ext b c i zero h = refl
bytes_of-ext b c i (suc n) h =
    let rest = bytes_of-ext b c (i + 1) n (λ j lo hi. h j (omega arith) (omega arith)) in
    ap (λ x. x ∷ bytes_of b (i + 1) n) (h i (omega arith) (omega arith)) ∙ ap (λ xs. c i ∷ xs) rest

pub bytes_of-shift :
    (b c : ℕ → ℕ) (i k n : ℕ)
    → ((j : ℕ) → j < n → b (i + j) ≡ c (k + j))
    → bytes_of b i n ≡ bytes_of c k n
bytes_of-shift b c i k zero h = refl
bytes_of-shift b c i k (suc n) h =
    let rest = bytes_of-shift b c (i + 1) (k + 1) n (λ j lt.
      subst (λ x. b x ≡ c (k + 1 + j)) (omega arith)
        (subst (λ x. b (i + (j + 1)) ≡ c x) (omega arith) (h (j + 1) (omega arith)))) in
    let head : b i ≡ c k =
      subst (λ x. b x ≡ c k) (omega arith)
        (subst (λ x. b (i + 0) ≡ c x) (omega arith) (h 0 (omega arith))) in
    ap (λ x. x ∷ bytes_of b (i + 1) n) head ∙ ap (λ xs. c k ∷ xs) rest

bytes_of-at : (b : ℕ → ℕ) {i j n m : ℕ} → i ≡ j → n ≡ m → bytes_of b i n ≡ bytes_of b j m
bytes_of-at b {i} {j} {n} {m} e f = ap (λ x. bytes_of b x n) e ∙ ap (λ x. bytes_of b j x) f

pub bytes_of-add :
    (b : ℕ → ℕ) (i n m : ℕ) → bytes_of b i (n + m) ≡ bytes_of b i n ++ bytes_of b (i + n) m
bytes_of-add b i zero m = bytes_of-at b (omega arith) (omega arith)
bytes_of-add b i (suc n) m =
    let shape : suc n + m ≡ suc (n + m) = omega arith in
    let next : i + 1 + n ≡ i + suc n = omega arith in
    bytes_of-at b refl shape
    ∙ ap (λ xs. b i ∷ xs) (bytes_of-add b (i + 1) n m)
    ∙ ap (λ x. b i ∷ (bytes_of b (i + 1) n ++ bytes_of b x m)) next

pub take-bytes_of : (b : ℕ → ℕ) (i c n : ℕ) → c ≤ n → take c (bytes_of b i n) ≡ bytes_of b i c
take-bytes_of b i zero n h = refl
take-bytes_of b i (suc c) zero h = absurd (omega arith)
take-bytes_of b i (suc c) (suc n) h =
    ap (λ xs. b i ∷ xs) (take-bytes_of b (i + 1) c n (omega arith))

pub drop-bytes_of :
    (b : ℕ → ℕ) (i c n : ℕ) → c ≤ n → drop c (bytes_of b i n) ≡ bytes_of b (i + c) (n - c)
drop-bytes_of b i zero n h = bytes_of-at b (omega arith) (omega arith)
drop-bytes_of b i (suc c) zero h = absurd (omega arith)
drop-bytes_of b i (suc c) (suc n) h =
    drop-bytes_of b (i + 1) c n (omega arith) ∙ bytes_of-at b (omega arith) (omega arith)

bytes_of-get_or : (bytes : List ℕ) → bytes_of (λ j. get_or bytes j 0) 0 (length bytes) ≡ bytes
bytes_of-get_or [] = refl
bytes_of-get_or (x ∷ xs) =
    let rest =
      bytes_of-shift (λ j. get_or (x ∷ xs) j 0) (λ j. get_or xs j 0) 1 0 (length xs)
        (λ j lt.
          let one : 1 + j ≡ suc j = omega arith in
          let none_added : j ≡ 0 + j = omega arith in
          ap (λ k. get_or (x ∷ xs) k 0) one ∙ ap (λ k. get_or xs k 0) none_added) in
    ap (λ ys. x ∷ ys) (rest ∙ bytes_of-get_or xs)

pub bytes_of-written :
    (bytes : List ℕ) (b : ℕ → ℕ) (at : ℕ)
    → bytes_of (with_bytes b at bytes) at (length bytes) ≡ bytes
bytes_of-written bytes b at =
    bytes_of-shift (with_bytes b at bytes) (λ j. get_or bytes j 0) at 0 (length bytes)
      (λ j lt.
        let inside : (leb at (at + j) && ltb (at + j) (at + length bytes)) ≡ true = ground arith in
        let offset : at + j - at ≡ 0 + j = omega arith in
        rw (with_bytes, inside) (ap (λ x. get_or bytes x 0) offset))
    ∙ bytes_of-get_or bytes

-- The buffer stays where it is for sizes of at most 4096 steps.
realloc-stays :
    (works : Bool) (new_memory : ℕ → ℕ) (new : ℕ) (p : Pipe) (b : ℕ → ℕ)
    → p.buffer ≡ some b
    → 0 < p.room
    → p.room ≤ 4096
    → 0 < new
    → new ≤ 4096
    → realloc_buffer works new_memory new p ≡ record p { room = new }
unfolding realloc_buffer
realloc-stays works m new p b e hr hr' hn hn' =
    let kept : (new == 0) ≡ false = ground arith in
    let same : (in_pages p.room == in_pages new) ≡ true = ground arith in
    rw (realloc_buffer, e, kept, same) (ap (λ x. record p { buffer = x; room = new }) e)

realloc-new :
    (new_memory : ℕ → ℕ) (new : ℕ) (p : Pipe)
    → p.buffer ≡ none
    → (b : ℕ → ℕ) × (realloc_buffer true new_memory new p
        ≡ record p { buffer = some b; room = new })
unfolding realloc_buffer
realloc-new m new p e =
    (λ i. if ltb i (in_pages new * 4096) then 0 else m i, rw (realloc_buffer, e) refl)

realloc-freed :
    (works : Bool) (new_memory : ℕ → ℕ) (p : Pipe) (b : ℕ → ℕ)
    → p.buffer ≡ some b
    → realloc_buffer works new_memory 0 p ≡ record p { buffer = none; room = 0 }
unfolding realloc_buffer
realloc-freed works m p b e = rw (realloc_buffer, e) refl

-- Growing a pipe that has a buffer.
pub grow_buffer-stays :
    (works : Bool) (new_memory : ℕ → ℕ) (new : ℕ) (p : Pipe) (b : ℕ → ℕ)
    → p.buffer ≡ some b
    → 0 < p.size
    → p.room ≡ in_steps p.size
    → p.size ≤ new
    → new ≤ 2 ^ 27
    → grow_buffer works new_memory new p ≡ record p { buffer = some b; room = in_steps new }
unfolding grow_buffer
grow_buffer-stays works m new p b e pos room le small =
    elim (Bool-cases (ltb (in_steps p.size) (in_steps new))) [
      | inl more ↦
          rw (grow_buffer, more)
            (realloc-stays works m (in_steps new) p b e (omega arith) (omega arith) (omega arith)
                (omega arith)
              ∙ ap (λ x. record p { buffer = x; room = in_steps new }) e)
      | inr enough ↦
          let same : p.room ≡ in_steps new = ground arith in
          rw (grow_buffer, enough)
            (ap (λ x. record p { buffer = x }) e
              ∙ ap (λ x. record p { buffer = some b; room = x }) same)
    ]

pub grow_buffer-new :
    (new_memory : ℕ → ℕ) (new : ℕ) (p : Pipe)
    → p.buffer ≡ none
    → p.size ≡ 0
    → 0 < new
    → new ≤ 2 ^ 27
    → (b : ℕ → ℕ) × (grow_buffer true new_memory new p
        ≡ record p { buffer = some b; room = in_steps new })
unfolding grow_buffer
grow_buffer-new m new p e zero_size pos small =
    let (b, made) = realloc-new m (in_steps new) p e in
    let more : ltb (in_steps p.size) (in_steps new) ≡ true = ground arith in
    (b, rw (grow_buffer, more) made)

-- Shortening a pipe that has a buffer.
pub shrink_buffer-stays :
    (works : Bool) (new_memory : ℕ → ℕ) (new : ℕ) (p : Pipe) (b : ℕ → ℕ)
    → p.buffer ≡ some b
    → 0 < new
    → p.room ≡ in_steps p.size
    → new ≤ p.size
    → p.size ≤ 2 ^ 27
    → shrink_buffer works new_memory new p ≡ record p { buffer = some b; room = in_steps new }
unfolding shrink_buffer
shrink_buffer-stays works m new p b e pos room le small =
    elim (Bool-cases (ltb (in_steps new) (in_steps p.size))) [
      | inl less ↦
          rw (shrink_buffer, less)
            (realloc-stays works m (in_steps new) p b e (omega arith) (omega arith) (omega arith)
                (omega arith)
              ∙ ap (λ x. record p { buffer = x; room = in_steps new }) e)
      | inr enough ↦
          let same : p.room ≡ in_steps new = ground arith in
          rw (shrink_buffer, enough)
            (ap (λ x. record p { buffer = x }) e
              ∙ ap (λ x. record p { buffer = some b; room = x }) same)
    ]

pub shrink_buffer-freed :
    (works : Bool) (new_memory : ℕ → ℕ) (p : Pipe) (b : ℕ → ℕ)
    → p.buffer ≡ some b
    → 0 < p.size
    → p.size ≤ 2 ^ 27
    → shrink_buffer works new_memory 0 p ≡ record p { buffer = none; room = 0 }
unfolding shrink_buffer
shrink_buffer-freed works m p b e pos small =
    let less : ltb (in_steps 0) (in_steps p.size) ≡ true = ground arith in
    rw (shrink_buffer, less) (realloc-freed works m p b e)

-- The size in steps is what the buffer is allocated with, and up to 4096 steps are one page.
pub one_page : (n : ℕ) → 0 < n → n ≤ 2 ^ 27 → in_pages (in_steps n) * 4096 ≡ 4096
one_page n some_bytes small = omega (arith, some_bytes, small)
