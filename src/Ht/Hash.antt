-- ===== src/Ht/Hash.antt =====
-- Names that `ht_hash_str` (root/src/kernel/lib/ht.h) cannot tell apart.
use qword.Prelude.{
  ℕ, ◌+◌, ◌-◌, ◌*◌, ◌<◌, ◌%◌, ◌^◌, List, [], ◌∷◌, ◌++◌, ◌≡◌, refl, ap, sym, ◌∙◌, arith,
}
use qword.Ht.{hash_step, hash_text, ht_hash_str}

hash_step-ascii : (s c : ℕ) → c < 128 → hash_step s c ≡ (33 * s + c) % 2 ^ 64
unfolding hash_step
hash_step-ascii s c h = ground arith

two_steps :
    (s x y : ℕ)
    → x + 1 < 128
    → y + 33 < 128
    → hash_step (hash_step s x) (y + 33) ≡ hash_step (hash_step s (x + 1)) y
two_steps s x y hx hy = omega (
  arith,
  hash_step-ascii s x (omega arith),
  hash_step-ascii s (x + 1) hx,
  hash_step-ascii (hash_step s x) (y + 33) hy,
  hash_step-ascii (hash_step s (x + 1)) y (omega arith),
)

hash_text-append :
    (s u : List ℕ) (seed : ℕ) → hash_text (s ++ u) seed ≡ hash_text u (hash_text s seed)
unfolding hash_text
hash_text-append [] u seed = refl
hash_text-append (c ∷ s) u seed = hash_text-append s u (hash_step seed c)

-- Two characters of a name, the first lower by one and the second higher by 33, hash alike under
-- every seed.
pub ht_hash_str-collides :
    (before after : List ℕ) (x y seed : ℕ)
    → x + 1 < 128
    → y + 33 < 128
    → ht_hash_str (before ++ x ∷ (y + 33) ∷ after) seed
      ≡ ht_hash_str (before ++ (x + 1) ∷ y ∷ after) seed
unfolding ht_hash_str hash_text
ht_hash_str-collides before after x y seed hx hy =
    let low = hash_text-append before (x ∷ (y + 33) ∷ after) seed in
    let high = hash_text-append before ((x + 1) ∷ y ∷ after) seed in
    let met = ap (hash_text after) (two_steps (hash_text before seed) x y hx hy) in
    ap (λ h. h % (4096 - 1) + 1) (low ∙ met ∙ sym high)
