-- ===== src/Pipe/Queue.antt =====
-- A pipe as a queue of bytes (root/src/kernel/fd/pipe/pipe.c), and where it is none.
use qword.Prelude.{
  ℕ, ◌+◌, ◌-◌, ◌*◌, ◌%◌, ◌^◌, ◌≤◌, ◌<◌, ltb, leb, if◌then◌else◌, Bool, true, false, ◌&&◌,
}
use qword.Prelude.{
  List, [], ◌∷◌, ◌++◌, length, take, drop, Option, none, some, ◌>>=◌, ◌≡◌, inl, inr, Bool-cases,
  refl, sym, ◌∙◌, ap, subst, arith,
}
use qword.Dynarray.{inc}
use qword.Klib.Memory.{memmove}
use qword.Klib.Memory.Copy.{memmove_lem}
use qword.Pipe.{
  Pipe, in_steps, in_pages, bytes_of, with_bytes, grow_buffer, shrink_buffer, move_in, move_out,
  take_bytes, put_bytes,
}
use qword.Pipe.Buffer.{
  max_size, Sound, contents, bytes_of-ext, bytes_of-shift, bytes_of-add, take-bytes_of,
  drop-bytes_of, bytes_of-written, grow_buffer-stays, grow_buffer-new, shrink_buffer-stays,
  shrink_buffer-freed, one_page,
}

put-buffer :
    (works : Bool) (m : ℕ → ℕ) (p : Pipe) (bytes : List ℕ) (b : ℕ → ℕ) (k : ℕ)
    → p.size + length bytes ≤ in_pages k * 4096
    → p.size + length bytes ≤ max_size
    → grow_buffer works m (p.size + length bytes) p ≡ record p { buffer = some b; room = k }
    → put_bytes works m p bytes
      ≡ some (record p {
        buffer = some (with_bytes b p.size bytes);
        room = k;
        size = p.size + length bytes;
        event = inc p.event;
      })
unfolding put_bytes move_in
put-buffer works m p bytes b k fits small grown =
    let sum : (p.size + length bytes) % 2 ^ 64 ≡ p.size + length bytes = omega arith in
    let finish : ℕ → Pipe → Option Pipe =
      λ n q. move_in q p.size bytes >>= (λ f. some (record f { size = n; event = inc f.event })) in
    let inside : leb (p.size + length bytes) (in_pages k * 4096) ≡ true = ground (arith, fits) in
    ap (λ n. finish n (grow_buffer works m n p)) sum
    ∙ ap (finish (p.size + length bytes)) grown
    ∙ rw inside refl

-- The bytes of the buffer after a write behind the ones that it has.
written-contents :
    (p : Pipe) (b : ℕ → ℕ) (bytes : List ℕ)
    → p.buffer ≡ some b
    → bytes_of (with_bytes b p.size bytes) 0 (p.size + length bytes) ≡ contents p ++ bytes
written-contents p b bytes has =
    let old : bytes_of (with_bytes b p.size bytes) 0 p.size ≡ contents p =
      bytes_of-ext (with_bytes b p.size bytes) b 0 p.size (λ j lo hi.
        let before : (leb p.size j && ltb j (p.size + length bytes)) ≡ false = ground arith in
        rw (with_bytes, before) refl)
      ∙ rw has refl in
    let start : 0 + p.size ≡ p.size = omega arith in
    bytes_of-add (with_bytes b p.size bytes) 0 p.size (length bytes)
    ∙ ap (λ xs. xs ++ bytes_of (with_bytes b p.size bytes) (0 + p.size) (length bytes)) old
    ∙ ap (λ x. contents p ++ bytes_of (with_bytes b p.size bytes) x (length bytes)) start
    ∙ ap (λ xs. contents p ++ xs) (bytes_of-written bytes b p.size)

no-contents : (p : Pipe) → p.buffer ≡ none → contents p ≡ []
no-contents p has = rw has refl

first-contents :
    (p : Pipe) (b : ℕ → ℕ) (bytes : List ℕ)
    → p.size ≡ 0
    → bytes_of (with_bytes b p.size bytes) 0 (p.size + length bytes) ≡ bytes
first-contents p b bytes zero_size =
    let none_before : 0 + length bytes ≡ length bytes = omega arith in
    ap (λ s. bytes_of (with_bytes b s bytes) 0 (s + length bytes)) zero_size
    ∙ ap (λ n. bytes_of (with_bytes b 0 bytes) 0 n) none_before
    ∙ bytes_of-written bytes b 0

put-nothing :
    (m : ℕ → ℕ) (p : Pipe)
    → p.buffer ≡ none
    → p.size + 0 ≤ max_size
    → put_bytes true m p [] ≡ some (record p { size = p.size + 0; event = inc p.event })
unfolding put_bytes move_in grow_buffer
put-nothing m p has small =
    let sum : (p.size + 0) % 2 ^ 64 ≡ p.size + 0 = omega arith in
    let enough : ltb (in_steps p.size) (in_steps (p.size + 0)) ≡ false = ground arith in
    let finish : ℕ → Pipe → Option Pipe =
      λ n q. move_in q p.size [] >>= (λ f. some (record f { size = n; event = inc f.event })) in
    let after : Option Pipe → Option Pipe =
      λ o. o >>= (λ f. some (record f { size = p.size + 0; event = inc f.event })) in
    let same : grow_buffer true m (p.size + 0) p ≡ p = rw (grow_buffer, enough) refl in
    let inside : move_in p p.size [] ≡ some p =
      rw (move_in, has) (ap (λ x. some (record p { buffer = x })) has) in
    ap (λ n. finish n (grow_buffer true m n p)) sum
    ∙ ap (finish (p.size + 0)) same
    ∙ ap after inside

fits_page : (n : ℕ) → 0 < n → n ≤ max_size → n ≤ in_pages (in_steps n) * 4096
fits_page n some_bytes small = omega (arith, small, one_page n some_bytes (omega (arith, small)))

-- What `put_bytes` leaves of a pipe.
abbrev pub Queued : Bool → (ℕ → ℕ) → Pipe → List ℕ → Type 0
Queued works m p bytes =
    (p' : Pipe) × (put_bytes works m p bytes ≡ some p')
    × Sound p'
    × (contents p' ≡ contents p ++ bytes)
    × (p'.size ≡ p.size + length bytes)
    × (p'.refcount ≡ p.refcount)
    × (p'.flflags ≡ p.flflags)

-- A write to a pipe appends its bytes to those that the pipe holds.
pub put_bytes-queue :
    (m : ℕ → ℕ) (p : Pipe) (bytes : List ℕ)
    → Sound p
    → p.size + length bytes ≤ max_size
    → Queued true m p bytes
put_bytes-queue m p bytes (small, inr (pos, b, has, room)) total =
    let grown =
      grow_buffer-stays true m (p.size + length bytes) p b has pos room (omega arith)
        (omega (arith, total)) in
    let p' : Pipe = record p {
      buffer = some (with_bytes b p.size bytes);
      room = in_steps (p.size + length bytes);
      size = p.size + length bytes;
      event = inc p.event;
    } in
    (
      p',
      put-buffer true m p bytes b _ (fits_page _ (omega (arith, total)) total) total grown,
      (total, inr (omega arith, with_bytes b p.size bytes, refl, refl)),
      written-contents p b bytes has,
      refl,
      refl,
      refl,
    )
put_bytes-queue m p [] (small, inl (zero_size, has)) total =
    let p' : Pipe = record p { size = p.size + 0; event = inc p.event } in
    (
      p',
      put-nothing m p has total,
      (total, inl (omega arith, has)),
      no-contents p' has ∙ ap (λ xs. xs ++ []) (sym (no-contents p has)),
      refl,
      refl,
      refl,
    )
put_bytes-queue m p (x ∷ xs) (small, inl (zero_size, has)) total =
    let bytes : List ℕ = x ∷ xs in
    let (b, grown) =
      grow_buffer-new m (p.size + length bytes) p has zero_size (omega arith)
        (omega (arith, total)) in
    let p' : Pipe = record p {
      buffer = some (with_bytes b p.size bytes);
      room = in_steps (p.size + length bytes);
      size = p.size + length bytes;
      event = inc p.event;
    } in
    (
      p',
      put-buffer true m p bytes b _ (fits_page _ (omega (arith, total)) total) total grown,
      (total, inr (omega arith, with_bytes b p.size bytes, refl, refl)),
      first-contents p b bytes zero_size ∙ ap (λ xs. xs ++ bytes) (sym (no-contents p has)),
      refl,
      refl,
      refl,
    )

put-outside :
    (works : Bool) (m : ℕ → ℕ) (p : Pipe) (bytes : List ℕ) (b : ℕ → ℕ) (k : ℕ)
    → in_pages k * 4096 < p.size + length bytes
    → p.size + length bytes ≤ 2 ^ 27
    → grow_buffer works m (p.size + length bytes) p ≡ record p { buffer = some b; room = k }
    → put_bytes works m p bytes ≡ none
unfolding put_bytes move_in
put-outside works m p bytes b k over small grown =
    let sum : (p.size + length bytes) % 2 ^ 64 ≡ p.size + length bytes = omega (arith, small) in
    let finish : ℕ → Pipe → Option Pipe =
      λ n q. move_in q p.size bytes >>= (λ f. some (record f { size = n; event = inc f.event })) in
    let outside : leb (p.size + length bytes) (in_pages k * 4096) ≡ false = ground (arith, over) in
    ap (λ n. finish n (grow_buffer works m n p)) sum
    ∙ ap (finish (p.size + length bytes)) grown
    ∙ rw outside refl

-- A write after which a pipe would hold more than a page goes past the page that `krealloc` gives.
pub put_bytes-overruns :
    (m : ℕ → ℕ) (p : Pipe) (bytes : List ℕ)
    → Sound p
    → max_size < p.size + length bytes
    → p.size + length bytes ≤ 2 ^ 27
    → put_bytes true m p bytes ≡ none
put_bytes-overruns m p bytes (small, inl (zero_size, has)) over total =
    let (b, grown) =
      grow_buffer-new m (p.size + length bytes) p has zero_size (omega (arith, over)) total in
    put-outside true m p bytes b _
      (omega (arith, over, one_page (p.size + length bytes) (omega (arith, over)) total)) total
      grown
put_bytes-overruns m p bytes (small, inr (pos, b, has, room)) over total =
    put-outside true m p bytes b _
      (omega (arith, over, one_page (p.size + length bytes) (omega (arith, over)) total)) total
      (grow_buffer-stays true m (p.size + length bytes) p b has pos room (omega arith) total)

-- What `memmove` does to the bytes from the start of the buffer on.
moved-byte : (b : ℕ → ℕ) (c i : ℕ) → memmove b 0 c c i ≡ (if ltb i c then b (c + i) else b i)
moved-byte b c i = ground (arith, memmove_lem b 0 c c i)

take-buffer :
    (works : Bool) (m : ℕ → ℕ) (p : Pipe) (c : ℕ) (b : ℕ → ℕ) (q : Pipe)
    → p.buffer ≡ some b
    → c + c ≤ in_pages p.room * 4096
    → shrink_buffer works m (p.size - c) (record p { buffer = some (memmove b 0 c c) }) ≡ q
    → take_bytes works m p c ≡ some (bytes_of b 0 c, record q { size = p.size - c })
unfolding take_bytes move_out
take-buffer works m p c b q has fits shrunk =
    let inside : leb (c + c) (in_pages p.room * 4096) ≡ true = ground (arith, fits) in
    let out : move_out p c ≡ some (bytes_of b 0 c, record p { buffer = some (memmove b 0 c c) }) =
      rw (move_out, has, inside) refl in
    ap
      (λ o. o >>= (λ out.
        some (out.0, record (shrink_buffer works m (p.size - c) out.1) { size = p.size - c })))
      out
    ∙ ap (λ x. some (bytes_of b 0 c, record x { size = p.size - c })) shrunk

-- What a read leaves: the bytes in front are taken, and `rest` is left.
abbrev pub Taken : Bool → (ℕ → ℕ) → Pipe → ℕ → List ℕ → Type 0
Taken works m p c rest =
    (p' : Pipe) × (take_bytes works m p c ≡ some (take c (contents p), p'))
    × Sound p'
    × (contents p' ≡ rest)
    × (p'.size ≡ p.size - c)
    × (p'.refcount ≡ p.refcount)
    × (p'.flflags ≡ p.flflags)

-- The bytes that are left in the buffer after `c` of `n`.
abbrev rest_of : (ℕ → ℕ) → ℕ → ℕ → List ℕ
rest_of b c n = bytes_of (memmove b 0 c c) 0 (n - c)

take-Taken :
    (works : Bool) (m : ℕ → ℕ) (p : Pipe) (c : ℕ) (b : ℕ → ℕ)
    → p.size ≤ max_size
    → 0 < p.size
    → p.buffer ≡ some b
    → p.room ≡ in_steps p.size
    → c ≤ p.size
    → c + c ≤ max_size
    → Taken works m p c (rest_of b c p.size)
take-Taken works m p c b small pos has room le half =
    let fits : c + c ≤ in_pages p.room * 4096 =
      omega (arith, half, room, one_page p.size pos (omega (arith, small))) in
    let held : contents p ≡ bytes_of b 0 p.size = rw has refl in
    let front : bytes_of b 0 c ≡ take c (contents p) =
      sym (take-bytes_of b 0 c p.size le) ∙ ap (take c) (sym held) in
    let moved : Pipe = record p { buffer = some (memmove b 0 c c) } in
    elim (Bool-cases (ltb c p.size)) [
      | inl some_left ↦
          let p' : Pipe = record p {
            buffer = some (memmove b 0 c c);
            room = in_steps (p.size - c);
            size = p.size - c;
          } in
          let taken =
            take-buffer works m p c b
              (record p { buffer = some (memmove b 0 c c); room = in_steps (p.size - c) }) has fits
              (shrink_buffer-stays works m (p.size - c) moved (memmove b 0 c c) refl (ground arith)
                room (omega arith) (omega (arith, small))) in
          (
            p',
            taken ∙ ap (λ xs. some (xs, p')) front,
            (omega arith, inr (ground arith, memmove b 0 c c, refl, refl)),
            refl,
            refl,
            refl,
            refl,
          )
      | inr none_left ↦
          let p' : Pipe = record p { buffer = none; room = 0; size = p.size - c } in
          let all : p.size - c ≡ 0 = ground arith in
          let taken =
            take-buffer works m p c b (record p { buffer = none; room = 0 }) has fits
              (subst (λ x. shrink_buffer works m x moved ≡ record p { buffer = none; room = 0 })
                (sym all)
                (shrink_buffer-freed works m moved (memmove b 0 c c) refl pos
                  (omega (arith, small)))) in
          (
            p',
            taken ∙ ap (λ xs. some (xs, p')) front,
            (omega arith, inl (all, refl)),
            sym (ap (λ n. bytes_of (memmove b 0 c c) 0 n) all),
            refl,
            refl,
            refl,
          )
    ]

-- An empty pipe gives nothing.
take-Empty :
    (works : Bool) (m : ℕ → ℕ) (p : Pipe)
    → p.size ≡ 0
    → p.buffer ≡ none
    → Taken works m p 0 (contents p)
unfolding take_bytes move_out shrink_buffer
take-Empty works m p zero_size has =
    let p' : Pipe = record p { size = p.size - 0 } in
    let same : ltb (in_steps (p.size - 0)) (in_steps p.size) ≡ false = ground arith in
    let out : move_out p 0 ≡ some ([], p) =
      rw (move_out, has) (ap (λ x. some ([], record p { buffer = x })) has) in
    let unshrunk : shrink_buffer works m (p.size - 0) p ≡ p = rw (shrink_buffer, same) refl in
    (
      p',
      ap
            (λ o. o >>= (λ out.
              some
                (out.0, record (shrink_buffer works m (p.size - 0) out.1) { size = p.size - 0 })))
            out
          ∙ ap (λ q. some ([], record q { size = p.size - 0 })) unshrunk,
      (omega arith, inl (omega arith, has)),
      no-contents p' has ∙ sym (no-contents p has),
      refl,
      refl,
      refl,
    )

-- The rest of the buffer is what stood behind the bytes that were read, as far as they were moved.
rest_of-moved : (b : ℕ → ℕ) (c n : ℕ) → n - c ≤ c → c ≤ n → rest_of b c n ≡ drop c (bytes_of b 0 n)
rest_of-moved b c n few le =
    bytes_of-shift (memmove b 0 c c) b 0 (0 + c) (n - c) (λ j lt.
      let near : ltb (0 + j) c ≡ true = ground arith in
      let place : c + (0 + j) ≡ 0 + c + j = omega arith in
      moved-byte b c (0 + j) ∙ rw (near) (ap b place))
    ∙ sym (drop-bytes_of b 0 c n le)

rest_of-repeats :
    (b : ℕ → ℕ) (c n : ℕ)
    → c < n - c
    → rest_of b c n ≡ take c (drop c (bytes_of b 0 n)) ++ take (n - c - c) (drop c (bytes_of b 0 n))
rest_of-repeats b c n many =
    let after : drop c (bytes_of b 0 n) ≡ bytes_of b (0 + c) (n - c) =
      drop-bytes_of b 0 c n (omega arith) in
    let size : n - c ≡ c + (n - c - c) = omega arith in
    let near : bytes_of (memmove b 0 c c) 0 c ≡ bytes_of b (0 + c) c =
      bytes_of-shift (memmove b 0 c c) b 0 (0 + c) c (λ j lt.
        let inside : ltb (0 + j) c ≡ true = ground arith in
        let place : c + (0 + j) ≡ 0 + c + j = omega arith in
        moved-byte b c (0 + j) ∙ rw (inside) (ap b place)) in
    let far : bytes_of (memmove b 0 c c) (0 + c) (n - c - c) ≡ bytes_of b (0 + c) (n - c - c) =
      bytes_of-ext (memmove b 0 c c) b (0 + c) (n - c - c) (λ j lo hi.
        let outside : ltb j c ≡ false = ground arith in moved-byte b c j ∙ rw (outside) refl) in
    ap (bytes_of (memmove b 0 c c) 0) size
    ∙ bytes_of-add (memmove b 0 c c) 0 c (n - c - c)
    ∙ ap (λ xs. xs ++ bytes_of (memmove b 0 c c) (0 + c) (n - c - c)) near
    ∙ ap (λ xs. bytes_of b (0 + c) c ++ xs) far
    ∙ ap (λ xs. xs ++ bytes_of b (0 + c) (n - c - c))
        (sym (take-bytes_of b (0 + c) c (n - c) (omega arith)) ∙ ap (take c) (sym after))
    ∙ ap (λ xs. take c (drop c (bytes_of b 0 n)) ++ xs)
        (sym (take-bytes_of b (0 + c) (n - c - c) (n - c) (omega arith))
          ∙ ap (take (n - c - c)) (sym after))

-- A read that takes at least half of the bytes that a pipe holds returns the bytes in front and
-- leaves the others.
pub take_bytes-queue :
    (works : Bool) (m : ℕ → ℕ) (p : Pipe) (c : ℕ)
    → Sound p
    → c ≤ p.size
    → p.size - c ≤ c
    → c + c ≤ max_size
    → Taken works m p c (drop c (contents p))
take_bytes-queue works m p c (small, inl (zero_size, has)) le few half =
    let none_read : 0 ≡ c = omega arith in
    subst (λ x. Taken works m p x (drop x (contents p))) none_read
      (take-Empty works m p zero_size has)
take_bytes-queue works m p c (small, inr (pos, b, has, room)) le few half =
    let held : contents p ≡ bytes_of b 0 p.size = rw has refl in
    subst (Taken works m p c) (rest_of-moved b c p.size few le ∙ ap (drop c) (sym held))
      (take-Taken works m p c b small pos has room le half)

-- A read of c bytes out of a pipe that holds more than twice as many leaves the next c bytes, and
-- behind them the same bytes from their start on in the place of the later ones.
pub take_bytes-repeats :
    (works : Bool) (m : ℕ → ℕ) (p : Pipe) (c : ℕ)
    → Sound p
    → c < p.size - c
    → c + c ≤ max_size
    → let behind = drop c (contents p) in
      Taken works m p c (take c behind ++ take (p.size - c - c) behind)
take_bytes-repeats works m p c (small, inl (zero_size, has)) many half = absurd (omega arith)
take_bytes-repeats works m p c (small, inr (pos, b, has, room)) many half =
    let held : contents p ≡ bytes_of b 0 p.size = rw has refl in
    subst (Taken works m p c)
      (rest_of-repeats b c p.size many
        ∙ ap (λ xs. take c (drop c xs) ++ take (p.size - c - c) (drop c xs)) (sym held))
      (take-Taken works m p c b small pos has room (omega arith) half)
