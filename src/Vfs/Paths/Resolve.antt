-- ===== src/Vfs/Paths/Resolve.antt =====
-- `vfs_get_absolute_path` of root/src/kernel/fd/vfs/vfs.c against the resolution of a list of
-- components.
use qword.Prelude.{ℕ, zero, suc, ◌+◌, ◌-◌, ◌<◌, ◌≤◌}
use qword.Prelude.{List, [], ◌∷◌, ◌++◌, length, length-append}
use qword.Prelude.{◌≡◌, ◌≢◌, ◌⊎◌, inl, inr, refl, sym, ap, subst, ◌∙◌, arith}
use mathlib.Core.List.{append-nil}
use qword.Klib.{Mem, store}
use qword.Vfs.{Text}
use qword.Vfs.Paths.{continue, term, first_run, round, loop, finish}
use qword.Vfs.Paths.Buffers.{
  Holds, Holds-same, Names, spelled, absolute, parent, Written, Out, ascend_lem,
}
use qword.Vfs.Paths.Steps.{Answer, last_byte, finish_lem, finish-slash, loop-copy, chars, chars-Out}
use qword.Vfs.Paths.Starts.{
  Component, Component-Slashless, Kind, here, up, name, kind_of, kinds, name-IsName, IsRest,
  first_run-slash, first_run-dot, first_run-parent, first_run-Slashed,
}

-- Nothing and "." stay, ".." leaves the last name, and any other component is a name.
abbrev pub enter_as : Kind → List Text → Text → List Text
enter_as here cs w = cs
enter_as up cs w = parent cs
enter_as name cs w = w ∷ cs

abbrev pub enter : List Text → Text → List Text
enter cs w = enter_as (kind_of w) cs w

abbrev pub resolve : List Text → List Text → List Text
resolve cs [] = cs
resolve cs (w ∷ ws) = resolve (enter cs w) ws

-- The path of some components.
abbrev pub joined : Text → List Text → Text
joined w [] = w
joined w (v ∷ ws) = w ++ 47 ∷ joined v ws

abbrev pub Components : List Text → Type 0
Components [] = Unit {0}
Components (w ∷ ws) = Component w × Components ws

pub Out-pos : (buf : Mem) (ptr : ℕ) (cs : List Text) → Out buf ptr cs → Names cs → 0 < ptr
Out-pos buf ptr cs out names =
    let (before, size, last) = last_byte buf ptr cs out.written names in omega (arith, size)

-- What is proved of the rest of a path, from any names.
abbrev pub Resolves : Text → List Text → Type 0
Resolves v ws =
    (cs : List Text) (fuel : ℕ) (buf : Mem) (ptr : ℕ)
    → Out buf ptr cs
    → Names cs
    → length (joined v ws) < fuel
    → Answer (loop fuel (first_run (joined v ws) buf ptr)) (resolve cs (v ∷ ws))

-- A slash leads to the next component.
pub loop-slash :
    (fuel : ℕ) (path : Text) (buf : Mem) (ptr : ℕ)
    → loop (suc fuel) (continue (47 ∷ path) buf ptr) ≡ loop fuel (first_run path buf ptr)
unfolding loop round
loop-slash fuel path buf ptr = refl

loop-end : (fuel : ℕ) (buf : Mem) (ptr : ℕ) → loop (suc fuel) (continue [] buf ptr) ≡ finish buf ptr
unfolding loop round
loop-end zero buf ptr = refl
loop-end (suc fuel) buf ptr = refl

onward :
    (v : Text) (ws : List Text)
    → Resolves v ws
    → (cs : List Text) (fuel : ℕ) (buf : Mem) (ptr : ℕ) → Out buf ptr cs
    → Names cs
    → length (joined v ws) + 1 < fuel
    → Answer (loop fuel (continue (47 ∷ joined v ws) buf ptr)) (resolve cs (v ∷ ws))
onward v ws rest cs zero buf ptr out names enough = absurd (omega (arith, enough))
onward v ws rest cs (suc fuel) buf ptr out names enough =
    rw (loop-slash fuel (joined v ws) buf ptr)
      (rest cs fuel buf ptr out names (omega (arith, enough)))

pub loop-term : (fuel : ℕ) (buf : Mem) (ptr : ℕ) → loop fuel (term buf ptr) ≡ finish buf ptr
unfolding loop
loop-term zero buf ptr = refl
loop-term (suc fuel) buf ptr = refl

-- A path of components is empty where they are, and begins with a character of a string otherwise.
joined-cases :
    (v : Text) (ws : List Text)
    → Component v
    → ((joined v ws ≡ []) × ((cs : List Text) → resolve cs (v ∷ ws) ≡ cs))
      ⊎ ((c : ℕ) × (s : Text) × (joined v ws ≡ c ∷ s) × (c ≢ 0))
joined-cases [] [] h = inl (refl, λ cs. refl)
joined-cases [] (u ∷ us) h = inr (47, joined u us, refl, λ e. ground (arith, e))
joined-cases (c ∷ s) [] h = inr (c, s, refl, h.1)
joined-cases (c ∷ s) (u ∷ us) h = inr (c, s ++ 47 ∷ joined u us, refl, h.1)

nothing_last : Resolves [] []
nothing_last [] zero buf ptr out names enough = absurd (omega (arith, enough))
nothing_last [] (suc fuel) buf ptr out names enough =
    let s = first_run-Slashed [] [] buf ptr [] (inr (refl, refl)) tt tt out names in
    rw (s.goes, loop-end fuel s.slashed 1)
      (finish_lem s.slashed 1 [] (record { text = (s.slash, tt); size = refl }) tt)
nothing_last (v ∷ cs) zero buf ptr out names enough = absurd (omega (arith, enough))
nothing_last (v ∷ cs) (suc fuel) buf ptr out names enough =
    let s = first_run-Slashed [] [] buf ptr (v ∷ cs) (inr (refl, refl)) tt tt out names in
    let n = length (spelled (v ∷ cs)) in
    let behind : n + 1 ≡ suc n = omega arith in
    let text =
      Holds-same buf s.slashed 0 (spelled (v ∷ cs)) (λ j l. s.same j (omega (arith, l)))
        out.written.text in
    let some_name : n ≢ 0 = λ e. ground (arith, e, length-append (spelled cs) (47 ∷ v)) in
    rw (s.goes, loop-end fuel s.slashed (n + 1), behind)
      (finish-slash s.slashed n (v ∷ cs) (record { text = text; size = refl }) s.slash some_name)

nothing_more : (v : Text) (ws : List Text) → Resolves v ws → Resolves [] (v ∷ ws)
nothing_more v ws rest cs fuel buf ptr out names enough =
    rw (first_run-slash (joined v ws) buf ptr (Out-pos buf ptr cs out names))
      (onward v ws rest cs fuel buf ptr out names (omega (arith, enough)))

dot_last : Resolves (46 ∷ []) []
dot_last cs fuel buf ptr out names enough =
    rw ((first_run-dot buf ptr (Out-pos buf ptr cs out names)).0, loop-term fuel buf ptr)
      (finish_lem buf ptr cs out.written names)

dot_more : (v : Text) (ws : List Text) → Component v → Resolves v ws → Resolves (46 ∷ []) (v ∷ ws)
dot_more v ws h rest cs fuel buf ptr out names enough =
    let starts = first_run-dot buf ptr (Out-pos buf ptr cs out names) in
    elim (joined-cases v ws h) [
      | inl (e, same) ↦
          rw (e, same cs, starts.1, loop-term fuel buf ptr)
            (finish_lem buf ptr cs out.written names)
      | inr (c, s, e, n) ↦
          let go =
            subst (λ p. first_run (46 ∷ 47 ∷ p) buf ptr ≡ continue (47 ∷ p) buf ptr) (sym e)
              (starts.2 c s n) in
          rw (go) (onward v ws rest cs fuel buf ptr out names (omega (arith, enough)))
    ]

pub Names-parent : (cs : List Text) → Names cs → Names (parent cs)
Names-parent [] h = tt
Names-parent (w ∷ cs) h = h.1

parent_last : Resolves (46 ∷ 46 ∷ []) []
parent_last cs fuel buf ptr out names enough =
    let up_one = ascend_lem buf ptr cs out names in
    let p = length (absolute (parent cs)) in
    rw
      (
        (first_run-parent buf ptr p (Out-pos buf ptr cs out names) up_one.goes).0,
        loop-term fuel buf p,
      )
      (finish_lem buf p (parent cs) up_one.at_term (Names-parent cs names))

parent_more :
    (v : Text) (ws : List Text) → Component v → Resolves v ws → Resolves (46 ∷ 46 ∷ []) (v ∷ ws)
parent_more v ws h rest cs fuel buf ptr out names enough =
    let up_one = ascend_lem buf ptr cs out names in
    let p = length (absolute (parent cs)) in
    let starts = first_run-parent buf ptr p (Out-pos buf ptr cs out names) up_one.goes in
    elim (joined-cases v ws h) [
      | inl (e, same) ↦
          rw (e, same (parent cs), starts.1, loop-term fuel buf p)
            (finish_lem buf p (parent cs) up_one.at_term (Names-parent cs names))
      | inr (c, s, e, n) ↦
          let go =
            subst (λ q. first_run (46 ∷ 46 ∷ 47 ∷ q) buf ptr ≡ continue (47 ∷ q) (store buf p 0) p)
              (sym e) (starts.2 c s n) in
          rw (go) (
            onward v ws rest (parent cs) fuel (store buf p 0) p up_one.onward
              (Names-parent cs names) (omega (arith, enough)))
    ]

below : (buf : Mem) (ptr : ℕ) (cs : List Text) → Written buf ptr cs → Holds buf 0 (spelled cs)
below buf ptr [] out = tt
below buf ptr (w ∷ cs) out = out.text

-- A name is copied, and what follows it is read with the name added.
record Copied (w rest : Text) (cs : List Text) (fuel : ℕ) (buf : Mem) (ptr : ℕ) : Type 0 where
  pub buffer : Mem
  pub place : ℕ
  pub goes :
      loop fuel (first_run (w ++ rest) buf ptr)
      ≡ loop (fuel - length w) (continue rest buffer place)
  pub out : Out buffer place (w ∷ cs)

copied :
    (w rest : Text) (cs : List Text) (fuel : ℕ) (buf : Mem) (ptr : ℕ)
    → kind_of w ≡ name
    → Component w
    → IsRest rest
    → Out buf ptr cs
    → Names cs
    → length w ≤ fuel
    → Copied w rest cs fuel buf ptr
copied w rest cs fuel buf ptr k h r out names enough =
    let s = first_run-Slashed w rest buf ptr cs (inl k) h r out names in
    let n = length (spelled cs) in
    record {
      buffer = chars s.slashed (n + 1) w;
      place = n + 1 + length w;
      goes =
          ap (loop fuel) s.goes
          ∙ loop-copy w rest fuel s.slashed (n + 1) (Component-Slashless w h) enough;
      out =
          chars-Out buf s.slashed ptr w cs out (below buf ptr cs out.written) (name-IsName w k h)
            s.slash s.same s.stale;
    }

name_last : (w : Text) → kind_of w ≡ name → Component w → Resolves w []
name_last w k h cs fuel buf ptr out names enough =
    let c = copied w [] cs fuel buf ptr k h tt out names (omega (arith, enough)) in
    let whole : w ++ [] ≡ w = append-nil w in
    let left : fuel - length w ≡ suc (fuel - length w - 1) = omega (arith, enough) in
    let ends : loop fuel (first_run w buf ptr) ≡ finish c.buffer c.place =
      subst (λ p. loop fuel (first_run p buf ptr) ≡ finish c.buffer c.place) whole
        (c.goes ∙ (rw left (loop-end (fuel - length w - 1) c.buffer c.place))) in
    rw (ends, k) (finish_lem c.buffer c.place (w ∷ cs) c.out.written (name-IsName w k h, names))

name_more :
    (w : Text)
    → kind_of w ≡ name
    → Component w
    → (v : Text) (ws : List Text) → Resolves v ws
    → Resolves w (v ∷ ws)
name_more w k h v ws rest cs fuel buf ptr out names enough =
    let size = length-append w (47 ∷ joined v ws) in
    let c =
      copied w (47 ∷ joined v ws) cs fuel buf ptr k h refl out names
        (omega (arith, enough, size)) in
    rw (c.goes, k)
      (onward v ws rest (w ∷ cs) (fuel - length w) c.buffer c.place c.out (name-IsName w k h, names)
        (omega (arith, enough, size)))

pub resolves : (w : Text) (ws : List Text) → Component w → Components ws → Resolves w ws
resolves w [] h hs = elim (kinds w) [
  | inl e ↦ subst (λ w. Resolves w []) (sym e) nothing_last
  | inr (inl e) ↦ subst (λ w. Resolves w []) (sym e) dot_last
  | inr (inr (inl e)) ↦ subst (λ w. Resolves w []) (sym e) parent_last
  | inr (inr (inr k)) ↦ name_last w k h
]
resolves w (v ∷ ws) h hs =
    let rest = resolves v ws hs.0 hs.1 in
    elim (kinds w) [
      | inl e ↦ subst (λ w. Resolves w (v ∷ ws)) (sym e) (nothing_more v ws rest)
      | inr (inl e) ↦ subst (λ w. Resolves w (v ∷ ws)) (sym e) (dot_more v ws hs.0 rest)
      | inr (inr (inl e)) ↦ subst (λ w. Resolves w (v ∷ ws)) (sym e) (parent_more v ws hs.0 rest)
      | inr (inr (inr k)) ↦ name_more w k h v ws rest
    ]
