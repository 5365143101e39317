-- ===== src/Ht.antt =====
-- The hash tables of root/src/kernel/lib/ht.h, over names: tables of 4096 entries in which an entry
-- is empty, points to an element, or points to a further table with a hash of its own.
--
-- Every macro holds the lock of its table from its start to its end, so a call is one step of the
-- table. The low bit that marks a pointer to a further table is the constructor of the entry.
pub mod Hash
pub mod Lookup
pub mod Add
pub mod Collide
pub mod Dump
mod Tests
use qword.Prelude.{
  ℕ, zero, suc, ◌+◌, ◌-◌, ◌*◌, ◌%◌, ◌^◌, ◌==◌, ltb, if◌then◌else◌, Bool, true, false, ◌&&◌,
}
use qword.Prelude.{List, [], ◌∷◌, ◌++◌, length, Option, none, some}
use qword.Prelude.Int.{ℤ, pos, negsuc}

abbrev pub entries_per_hashing_level : ℕ
entries_per_hashing_level = 4096

-- A `char` is signed; it is added to the hash as 64 bits.
abbrev pub signed_char : ℕ → ℕ
signed_char c = if ltb c 128 then c else c + 2 ^ 64 - 256

-- A round of the hash: the seed times 33, plus the character.
pub hash_step : ℕ → ℕ → ℕ
hash_step seed c = (seed * 2 ^ 5 % 2 ^ 64 + seed + signed_char c) % 2 ^ 64

pub hash_text : List ℕ → ℕ → ℕ
hash_text [] seed = seed
hash_text (c ∷ str) seed = hash_text str (hash_step seed c)

pub ht_hash_str : List ℕ → ℕ → ℕ
ht_hash_str str seed = hash_text str seed % (entries_per_hashing_level - 1) + 1

-- What `strcmp` returns 0 for.
abbrev pub same_name : List ℕ → List ℕ → Bool
same_name [] [] = true
same_name [] (d ∷ ds) = false
same_name (c ∷ cs) [] = false
same_name (c ∷ cs) (d ∷ ds) = c == d && same_name cs ds

-- A table is a number and its entries; the number is the seed of the hash, and lies in entry 0.
pub data Entry {ℓ} (A : Type ℓ) : Type ℓ where
  empty : Entry A
  elem : A → Entry A
  table : ℕ → (ℕ → Entry A) → Entry A

module _ {ℓ} {A : Type ℓ} where
  abbrev pub write : (ℕ → Entry A) → ℕ → Entry A → ℕ → Entry A
  write slots h e i = if i == h then e else slots i

  -- `ht_init`, with the number that `rand64` gives.
  abbrev pub no_entries : ℕ → Entry A
  no_entries i = empty

  pub ht_init : ℕ → Entry A
  ht_init seed = table seed no_entries

module _ {ℓ} {A : Type ℓ} (name : A → List ℕ) where
  pub ht_get : List ℕ → Entry A → Option A
  ht_get nname empty = none
  ht_get nname (elem a) = if same_name nname (name a) then some a else none
  ht_get nname (table seed slots) = ht_get nname (slots (ht_hash_str nname seed))

  pub ht_remove : List ℕ → Entry A → Option A × Entry A
  ht_remove nname empty = (none, empty)
  ht_remove nname (elem a) = if same_name nname (name a) then (some a, empty) else (none, elem a)
  ht_remove nname (table seed slots) =
      let h = ht_hash_str nname seed in
      let rest = ht_remove nname (slots h) in (rest.0, table seed (write slots h rest.1))

  -- The tables that `pmm_allocz` gives during a call, each with the number of `rand64` that becomes
  -- its seed, and `none` for an allocation that fails. The result is `none` if the loop goes on after
  -- all of them.
  pub ht_add : A → List (Option ℕ) → Entry A → Option (ℤ × Entry A)
  ht_add a levels empty = some (pos 0, elem a)
  ht_add a [] (elem b) = if same_name (name a) (name b) then some (negsuc 0, elem b) else none
  ht_add a (none ∷ levels) (elem b) = some (negsuc 0, elem b)
  ht_add a (some seed ∷ levels) (elem b) =
      let rest =
        ht_add a levels (table seed (write no_entries (ht_hash_str (name b) seed) (elem b))) in
      if same_name (name a) (name b) then some (negsuc 0, elem b) else rest
  ht_add a levels (table seed slots) =
      let h = ht_hash_str (name a) seed in
      elim (ht_add a levels (slots h)) [
        | none ↦ none
        | some r ↦ some (r.0, table seed (write slots h r.1))
      ]

-- `ht_dump`: the elements in the order of the entries. A buffer that is not allocated yet is `none`,
-- as is the NULL that ends a dump.
module _ {ℓ} {A : Type ℓ} where
  abbrev pub listed : Option (List A) → List A
  listed none = []
  listed (some l) = l

  -- The loop, with `k` entries to go from entry `i` on; a step gives the buffer, or ends the dump.
  pub gather :
      (ℕ → Option (List A) → Option (Option (List A))) → ℕ → ℕ → Option (List A) → Option (List A)
  gather step i zero buf = buf
  gather step i (suc k) buf = elim (step i buf) [
    | none ↦ none
    | some grown ↦ gather step (i + 1) k grown
  ]

  -- A NULL from the dump of a further table ends the dump.
  abbrev pub unless_null : Option (List A) → Option (Option (List A))
  unless_null none = none
  unless_null (some l) = some (some l)

-- Whether `krealloc` works for a number of pointers is an argument.
module _ {ℓ} {A : Type ℓ} (works : ℕ → Bool) where
  pub visit : Entry A → Option (List A) → Option (Option (List A))
  visit empty buf = some buf
  visit (elem a) buf =
      if works (length (listed buf) + 1) then some (some (listed buf ++ a ∷ [])) else none
  visit (table seed slots) buf =
      unless_null (gather (λ i. visit (slots i)) 1 (entries_per_hashing_level - 1) buf)

  pub ht_dump : (ℕ → Entry A) → Option (List A)
  ht_dump slots = gather (λ i. visit (slots i)) 1 (entries_per_hashing_level - 1) none
