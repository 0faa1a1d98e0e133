-- ===== src/Stream/Segments.antt =====
-- A stream arrives in pieces of the kernel's choice: src/UringEngine/IoUring.cpp.
use servd.Base.{
  ℕ, ◌+◌, ◌^◌, ◌%◌, ◌≤◌, ◌<◌, ◌≡◌, refl, sym, ◌∙◌, pos, true, false, List, [], ◌∷◌, ◌++◌, arith,
  All, length, drop, replicate, length-append, length-drop, length-replicate, take-append,
  drop-append, drop-drop, append_assoc, ltb, ◌==◌, ◌⊎◌, inl, inr,
}
use servd.Result.{Error, err, connection_closed}
use servd.Connection.{await_resume}
use servd.Stream.{Completion, done, threw, store_at, advance, read_loop, async_read_exact}

-- A receive that stored these bytes.
abbrev pub received : List ℕ → Completion
received bs = record { res = pos (length bs); filled = bs }

abbrev pub concat : List (List ℕ) → List ℕ
concat [] = []
concat (bs ∷ bss) = bs ++ concat bss

-- The pieces of a stream: a receive on an open connection stores at least one byte.
abbrev pub Pieces : List (List ℕ) → Type 0
Pieces = All (λ bs. 0 < length bs)

-- The completions of the pieces, before others.
abbrev pub segments : List (List ℕ) → List Completion → List Completion
segments [] rest = rest
segments (bs ∷ bss) rest = received bs ∷ segments bss rest

read_loop_full :
    (buffer : List ℕ) (n : ℕ) (rest : List Completion)
    → length buffer ≤ n
    → read_loop buffer n rest ≡ done buffer rest
unfolding read_loop
read_loop_full buffer n [] h = ground arith
read_loop_full buffer n (c ∷ cs) h =
    let full : ltb n (length buffer) ≡ false = ground arith in rw full

store_at-front :
    (got room bs : List ℕ)
    → store_at (got ++ room) (length got) bs ≡ (got ++ bs) ++ drop (length bs) room
unfolding store_at
store_at-front got room bs =
    rw
      (
        take-append (length got) got room refl,
        sym (drop-drop (length got) (length bs) (got ++ room)),
        drop-append (length got) got room refl,
      )
      (sym (append_assoc got bs (drop (length bs) room)))

-- One round of the loop, when a piece arrives.
read_loop-received :
    (buffer : List ℕ) (n : ℕ) (bs : List ℕ) (cs : List Completion)
    → n < length buffer
    → 0 < length bs
    → n + length bs < 2 ^ 64
    → read_loop buffer n (received bs ∷ cs) ≡ read_loop (store_at buffer n bs) (n + length bs) cs
unfolding read_loop await_resume advance
read_loop-received buffer n bs cs short some_bytes fits =
    let more : ltb n (length buffer) ≡ true = ground arith in
    let nonzero : (length bs == 0) ≡ false = ground arith in
    let total : (n + length bs) % 2 ^ 64 ≡ n + length bs = omega arith in rw (more, nonzero, total)

-- The invariant of the loop: what was got stands at the front of the buffer.
pub read_loop-segments :
    (got room : List ℕ) (bss : List (List ℕ)) (rest : List Completion)
    → Pieces bss
    → length (concat bss) ≡ length room
    → length got + length room < 2 ^ 64
    → read_loop (got ++ room) (length got) (segments bss rest) ≡ done (got ++ concat bss) rest
read_loop-segments got [] [] rest p n fits =
    read_loop_full (got ++ []) (length got) rest (omega (arith, length-append got []))
read_loop-segments got (x ∷ xs) [] rest p n fits = absurd (omega arith)
read_loop-segments got room (bs ∷ bss) rest p n fits =
    let sizes : length bs + length (concat bss) ≡ length room =
      sym (length-append bs (concat bss)) ∙ n in
    read_loop-received (got ++ room) (length got) bs (segments bss rest)
      (omega (arith, length-append got room)) p.0 (omega arith)
    ∙ rw
        (
          store_at-front got room bs,
          sym (length-append got bs),
          sym (append_assoc got bs (concat bss)),
        )
        (read_loop-segments (got ++ bs) (drop (length bs) room) bss rest p.1
          (omega (arith, length-drop (length bs) room))
          (omega (arith, length-append got bs, length-drop (length bs) room)))

-- However the kernel cuts a stream into pieces, a read of its length returns its bytes in order,
-- and takes no completion beyond.
pub async_read_exact-segments :
    (bss : List (List ℕ)) (rest : List Completion)
    → Pieces bss
    → length (concat bss) < 2 ^ 64
    → async_read_exact (length (concat bss)) (segments bss rest) ≡ done (concat bss) rest
unfolding async_read_exact
async_read_exact-segments bss rest p fits =
    read_loop-segments [] (replicate (length (concat bss)) 0) bss rest p
      (sym (length-replicate {A = ℕ} (length (concat bss)) 0))
      (omega (arith, length-replicate {A = ℕ} (length (concat bss)) 0))

-- A completion that ends a read: the end of the stream, or a result that `await_resume` throws.
abbrev pub Fails : Completion → Error → Type 0
Fails c e = (c ≡ received []) × (e ≡ connection_closed) ⊎ (await_resume c.res ≡ err e)

read_loop-Fails :
    (buffer : List ℕ) (n : ℕ) (c : Completion) (e : Error) (rest : List Completion)
    → n < length buffer
    → Fails c e
    → read_loop buffer n (c ∷ rest) ≡ threw e rest
unfolding read_loop await_resume
read_loop-Fails buffer n c e rest short (inl (eof, same)) =
    let more : ltb n (length buffer) ≡ true = ground arith in rw (eof, same, more)
read_loop-Fails buffer n c e rest short (inr bad) =
    let more : ltb n (length buffer) ≡ true = ground arith in rw (more, bad)

read_loop_cut :
    (got room : List ℕ) (bss : List (List ℕ)) (c : Completion) (e : Error) (rest : List Completion)
    → Pieces bss
    → length (concat bss) < length room
    → length got + length room < 2 ^ 64
    → Fails c e
    → read_loop (got ++ room) (length got) (segments bss (c ∷ rest)) ≡ threw e rest
read_loop_cut got room [] c e rest p short fits bad =
    read_loop-Fails (got ++ room) (length got) c e rest (omega (arith, length-append got room)) bad
read_loop_cut got room (bs ∷ bss) c e rest p short fits bad =
    read_loop-received (got ++ room) (length got) bs (segments bss (c ∷ rest))
      (omega (arith, length-append got room, length-append bs (concat bss))) p.0
      (omega (arith, length-append bs (concat bss)))
    ∙ rw (store_at-front got room bs, sym (length-append got bs))
        (read_loop_cut (got ++ bs) (drop (length bs) room) bss c e rest p.1
          (omega (arith, length-drop (length bs) room, length-append bs (concat bss)))
          (omega (
            arith,
            length-drop (length bs) room,
            length-append got bs,
            length-append bs (concat bss),
          ))
          bad)

-- The end of the stream, or a failed receive, before a read has all its bytes makes the read throw,
-- whatever arrived before it.
pub async_read_exact_cut :
    (n : ℕ) (bss : List (List ℕ)) (c : Completion) (e : Error) (rest : List Completion)
    → Pieces bss
    → length (concat bss) < n
    → n < 2 ^ 64
    → Fails c e
    → async_read_exact n (segments bss (c ∷ rest)) ≡ threw e rest
unfolding async_read_exact
async_read_exact_cut n bss c e rest p short fits bad =
    read_loop_cut [] (replicate n 0) bss c e rest p (rw (length-replicate {A = ℕ} n 0) short)
      (omega (arith, length-replicate {A = ℕ} n 0)) bad
