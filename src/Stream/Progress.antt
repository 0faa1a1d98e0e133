-- ===== src/Stream/Progress.antt =====
-- How many completions a reader leaves: src/UringEngine/IoUring.cpp and read_frame of FrameIO.cpp.
use servd.Base.{
  ℕ, suc, ◌≤◌, ◌<◌, ◌≡◌, true, Bool-cases, inl, inr, List, [], ◌∷◌, length, replicate, arith, ltb,
}
use servd.Result.{Result-cases}
use servd.Connection.{await_resume}
use servd.Protocol.{FrameHeader, decode_header}
use servd.Stream.{
  Completion, Outcome, done, threw, pending, Recv, and_then, is_zero, store_at, advance, read_loop,
  async_read_exact, read_payload, read_frame,
}

-- A reader that returns leaves at most `n` completions, or fewer than `n`.
abbrev pub NoMore : {A : Type 0} → ℕ → Outcome A → Type 0
NoMore n (done a rest) = length rest ≤ n
NoMore n (threw e rest) = Unit {0}
NoMore n pending = Unit {0}

abbrev pub Fewer : {A : Type 0} → ℕ → Outcome A → Type 0
Fewer n (done a rest) = length rest < n
Fewer n (threw e rest) = Unit {0}
Fewer n pending = Unit {0}

NoMore-suc : {A : Type 0} (n : ℕ) (o : Outcome A) → NoMore n o → NoMore (suc n) o
NoMore-suc n (done a rest) h = omega arith
NoMore-suc n (threw e rest) h = tt
NoMore-suc n pending h = tt

pub NoMore-Fewer : {A : Type 0} (n : ℕ) (o : Outcome A) → Fewer n o → NoMore n o
NoMore-Fewer n (done a rest) h = omega arith
NoMore-Fewer n (threw e rest) h = tt
NoMore-Fewer n pending h = tt

Fewer-NoMore : {A : Type 0} (n : ℕ) (o : Outcome A) → NoMore n o → Fewer (suc n) o
Fewer-NoMore n (done a rest) h = omega arith
Fewer-NoMore n (threw e rest) h = tt
Fewer-NoMore n pending h = tt

Fewer-below : {A : Type 0} (m n : ℕ) (o : Outcome A) → m < n → NoMore m o → Fewer n o
Fewer-below m n (done a rest) h k = omega arith
Fewer-below m n (threw e rest) h k = tt
Fewer-below m n pending h k = tt

pub and_then-Fewer :
    {A B : Type 0} (n : ℕ) (o : Outcome A) (f : A → Recv B)
    → Fewer n o
    → ((a : A) (cs : List Completion) → NoMore (length cs) (f a cs))
    → Fewer n (and_then o f)
and_then-Fewer n (done a rest) f h keep = Fewer-below (length rest) n (f a rest) h (keep a rest)
and_then-Fewer n (threw e rest) f h keep = tt
and_then-Fewer n pending f h keep = tt

NoMore-below : {A : Type 0} (m n : ℕ) (o : Outcome A) → m ≤ n → NoMore m o → NoMore n o
NoMore-below m n (done a rest) h k = omega arith
NoMore-below m n (threw e rest) h k = tt
NoMore-below m n pending h k = tt

pub and_then-NoMore :
    {A B : Type 0} (n : ℕ) (o : Outcome A) (f : A → Recv B)
    → NoMore n o
    → ((a : A) (cs : List Completion) → NoMore (length cs) (f a cs))
    → NoMore n (and_then o f)
and_then-NoMore n (done a rest) f h keep = NoMore-below (length rest) n (f a rest) h (keep a rest)
and_then-NoMore n (threw e rest) f h keep = tt
and_then-NoMore n pending f h keep = tt

read_loop-NoMore :
    (buffer : List ℕ) (n : ℕ) (cs : List Completion) → NoMore (length cs) (read_loop buffer n cs)
unfolding read_loop
read_loop-NoMore buffer n [] = elim (Bool-cases (ltb n (length buffer))) [
  | inl more ↦ rw more tt
  | inr full ↦ rw full (omega arith)
]
read_loop-NoMore buffer n (c ∷ cs) = elim (Bool-cases (ltb n (length buffer))) [
  | inr full ↦ rw full (omega arith)
  | inl more ↦ elim (Result-cases (await_resume c.res)) [
    | inr (e, failed) ↦ rw (more, failed) tt
    | inl (bytes, got) ↦ elim (Bool-cases (is_zero bytes)) [
      | inl closed ↦ rw (more, got, closed) tt
      | inr some_bytes ↦
          rw (more, got, some_bytes)
            (NoMore-suc (length cs) (read_loop (store_at buffer n c.filled) (advance n bytes) cs)
              (read_loop-NoMore (store_at buffer n c.filled) (advance n bytes) cs))
    ]
  ]
]

-- A loop that is not done yet takes a completion.
read_loop-Fewer :
    (buffer : List ℕ) (n : ℕ) (cs : List Completion)
    → ltb n (length buffer) ≡ true
    → Fewer (length cs) (read_loop buffer n cs)
unfolding read_loop
read_loop-Fewer buffer n [] more = rw more tt
read_loop-Fewer buffer n (c ∷ cs) more = elim (Result-cases (await_resume c.res)) [
  | inr (e, failed) ↦ rw (more, failed) tt
  | inl (bytes, got) ↦ elim (Bool-cases (is_zero bytes)) [
    | inl closed ↦ rw (more, got, closed) tt
    | inr some_bytes ↦
        rw (more, got, some_bytes)
          (Fewer-NoMore (length cs) (read_loop (store_at buffer n c.filled) (advance n bytes) cs)
            (read_loop-NoMore (store_at buffer n c.filled) (advance n bytes) cs))
  ]
]

pub async_read_exact-Fewer :
    (n : ℕ) (cs : List Completion) → Fewer (length cs) (async_read_exact (suc n) cs)
unfolding async_read_exact
async_read_exact-Fewer n cs = read_loop-Fewer (replicate (suc n) 0) 0 cs (ground arith)

read_payload-NoMore :
    (header : FrameHeader) (cs : List Completion) → NoMore (length cs) (read_payload header cs)
unfolding read_payload async_read_exact
read_payload-NoMore header cs =
    and_then-NoMore (length cs) (read_loop (replicate header.payload_length 0) 0 cs) _
      (read_loop-NoMore (replicate header.payload_length 0) 0 cs) (λ payload rest. omega arith)

-- A frame takes a completion.
pub read_frame-Fewer : (cs : List Completion) → Fewer (length cs) (read_frame cs)
unfolding read_frame
read_frame-Fewer cs =
    and_then-Fewer (length cs) (async_read_exact 16 cs) _ (async_read_exact-Fewer 15 cs)
      (λ bytes rest. elim (Bool-cases (ltb 0 (decode_header bytes).payload_length)) [
        | inl some_bytes ↦ rw some_bytes (read_payload-NoMore (decode_header bytes) rest)
        | inr no_bytes ↦ rw no_bytes (omega arith)
      ])
