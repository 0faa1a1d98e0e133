-- ===== src/Stream.antt =====
-- src/UringEngine/IoUring.cpp (async_read, async_read_exact) and read_frame of FrameIO.cpp.
-- A coroutine that reads a socket consumes the completions of its receives one by one, in order;
-- each is the kernel's result and the bytes that it stored in the buffer it was given.
pub mod Segments
pub mod Progress
pub mod Frames
mod Tests
use servd.Base.{
  ℕ, zero, suc, ◌+◌, ◌-◌, ◌%◌, ◌^◌, ℤ, pos, negsuc, Bool, true, false, List, [], ◌∷◌, ◌++◌, length,
  take, drop, replicate, ltb, ◌==◌, if◌then◌else◌,
}
use servd.Result.{Error, Result, ok, err, connection_closed}
use servd.Protocol.{FrameHeader, ClientFrame, decode_header, header_size}
use servd.Connection.{await_resume}

pub record Completion : Type 0 where
  pub res : ℤ
  pub filled : List ℕ

-- `pending`: the completions at hand are used up and a receive still waits.
pub data Outcome (A : Type 0) : Type 0 where
  done : A → List Completion → Outcome A
  threw : Error → List Completion → Outcome A
  pending : Outcome A

abbrev pub Recv : Type 0 → Type 0
Recv A = List Completion → Outcome A

abbrev pub return : {A : Type 0} → A → Recv A
return a cs = done a cs

abbrev pub and_then : {A B : Type 0} → Outcome A → (A → Recv B) → Outcome B
and_then (done a cs) f = f a cs
and_then (threw e cs) f = threw e cs
and_then pending f = pending

infixl 5 ◌>>=◌
abbrev pub ◌>>=◌ : {A B : Type 0} → Recv A → (A → Recv B) → Recv B
◌>>=◌ m f cs = and_then (m cs) f

-- buffer.subspan(off) takes the bytes that the kernel stored.
unfoldable pub store_at : List ℕ → ℕ → List ℕ → List ℕ
store_at buffer off bs = take off buffer ++ (bs ++ drop (off + length bs) buffer)

-- total_read += bytes, a `size_t` and an `int`.
unfoldable pub advance : ℕ → ℤ → ℕ
advance total_read (pos n) = (total_read + n) % 2 ^ 64
advance total_read (negsuc n) = (total_read + 2 ^ 64 - suc n) % 2 ^ 64

-- if (bytes == 0)
abbrev pub is_zero : ℤ → Bool
is_zero (pos n) = n == 0
is_zero (negsuc n) = false

-- The loop of async_read_exact; each round takes one completion, so it ends with them.
unfoldable pub read_loop : List ℕ → ℕ → Recv (List ℕ)
unfolding await_resume store_at advance
read_loop buffer total_read [] = if ltb total_read (length buffer) then pending else done buffer []
read_loop buffer total_read (c ∷ cs) =
    let round : Outcome (List ℕ) = elim (await_resume c.res) [
      | err e ↦ threw e cs
      | ok bytes ↦
          let again =
            read_loop (store_at buffer total_read c.filled) (advance total_read bytes) cs in
          if is_zero bytes then threw connection_closed cs else again
    ] in
    if ltb total_read (length buffer) then round else done buffer (c ∷ cs)

-- Fills a buffer of `n` bytes.
unfoldable pub async_read_exact : ℕ → Recv (List ℕ)
unfolding read_loop
async_read_exact n = read_loop (replicate n 0) 0

-- The payload is read only if there is one.
read_payload : FrameHeader → Recv ClientFrame
read_payload header = do
  payload ← async_read_exact header.payload_length
  return (record { header = header; payload = payload })

unfoldable pub read_frame : Recv ClientFrame
unfolding read_payload
read_frame = do
  bytes ← async_read_exact header_size
  let header = decode_header bytes
  let empty : ClientFrame = record { header = header; payload = [] }
  if ltb 0 header.payload_length then read_payload header else return empty
