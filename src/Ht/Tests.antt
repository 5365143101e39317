-- ===== src/Ht/Tests.antt =====
-- Runs of the hash tables of root/src/kernel/lib/ht.h, with names as elements.
use qword.Prelude.{ℕ, ◌≡◌, refl, some, none, List, [], ◌∷◌, arith, if◌then◌else◌}
use qword.Prelude.Int.{ℤ, pos}
use qword.Ht.{
  Entry, elem, table, write, no_entries, ht_init, ht_get, ht_add, ht_remove, ht_hash_str, hash_text,
  hash_step, same_name,
}
use qword.Ht.Lookup.{ht_remove_lem}
use qword.Ht.Add.{Ends, ht_add_lem}
use qword.Ht.Collide.{Never, ht_add-Never, ht_add-returns}

abbrev Name : Type 0
Name = List ℕ

abbrev own : Name → List ℕ
own n = n

-- "ab" and "bA": 97 98 and 98 65.
abbrev ab : Name
ab = 97 ∷ 98 ∷ []

abbrev b_a : Name
b_a = 98 ∷ 65 ∷ []

abbrev with_ab : Entry Name
with_ab = table 7 (write no_entries (ht_hash_str ab 7) (elem ab))

in_table : ht_get own ab with_ab ≡ some ab
unfolding ht_get ht_hash_str hash_text hash_step
in_table = refl

ht_remove_lem_example :
    let (found, e') = ht_remove own ab with_ab in
    (found ≡ ht_get own ab with_ab)
    × ((m : Name) → ht_get own m e' ≡ (if same_name m ab then none else ht_get own m with_ab))
ht_remove_lem_example = ht_remove_lem own ab with_ab

added :
    ht_add own (99 ∷ []) [] (ht_init 7)
    ≡ some (pos 0, table 7 (write no_entries (ht_hash_str (99 ∷ []) 7) (elem (99 ∷ []))))
unfolding ht_add ht_init
added = refl

ht_add_lem_example :
    Ends own
      (99 ∷ [])
      []
      (ht_init 7)
      (pos 0, table 7 (write no_entries (ht_hash_str (99 ∷ []) 7) (elem (99 ∷ []))))
ht_add_lem_example =
    ht_add_lem own (99 ∷ []) [] (ht_init 7)
      (pos 0, table 7 (write no_entries (ht_hash_str (99 ∷ []) 7) (elem (99 ∷ [])))) added

ht_add-Never_example :
    Never own (some 5 ∷ some 6 ∷ none ∷ []) (ht_add own b_a (some 5 ∷ some 6 ∷ none ∷ []) with_ab)
ht_add-Never_example =
    ht_add-Never own b_a ab (some 5 ∷ some 6 ∷ none ∷ []) with_ab [] [] 97 65 (omega arith)
      (omega arith) refl refl in_table

ht_add-returns_example : (out : ℤ × Entry Name) × (ht_add own b_a (none ∷ []) with_ab ≡ some out)
ht_add-returns_example = ht_add-returns own b_a (none ∷ []) with_ab (λ b h. refl)

-- A name in entry 3 behind an empty table in entry 2.
abbrev behind : ℕ → Entry Name
behind = write (write no_entries 2 (table 5 no_entries)) 3 (elem ab)
