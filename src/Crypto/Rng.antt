-- ===== src/Crypto/Rng.antt =====
-- include/servd/crypto/Rng.hpp: random bytes by getrandom, which may give fewer than were asked for.
-- A result of getrandom is its return value and the bytes that it stored.
mod Tests
use servd.Base.{
  ℕ, ◌+◌, ◌%◌, ◌^◌, ◌<◌, ◌≡◌, refl, ◌∙◌, pos, negsuc, true, false, List, [], ◌∷◌, length, replicate,
  arith, ltb, ◌==◌, if◌then◌else◌,
}
use servd.Result.{random_failed, ok, err}
use servd.Connection.{await_resume}
use servd.Stream.{
  Completion, Outcome, done, threw, pending, Recv, store_at, advance, read_loop, async_read_exact,
}
use servd.Stream.Segments.{received, concat, Pieces, segments, async_read_exact-segments}

-- The loop of Rng::fill; a result of 0 bytes makes it ask again.
unfoldable pub fill_loop : List ℕ → ℕ → Recv (List ℕ)
unfolding store_at
fill_loop buffer filled [] = if ltb filled (length buffer) then pending else done buffer []
fill_loop buffer filled (c ∷ cs) =
    let round : Outcome (List ℕ) = elim c.res [
      | negsuc n ↦ threw random_failed cs
      | pos n ↦ fill_loop (store_at buffer filled c.filled) ((filled + n) % 2 ^ 64) cs
    ] in
    if ltb filled (length buffer) then round else done buffer (c ∷ cs)

-- Rng::gen
unfoldable pub gen : ℕ → Recv (List ℕ)
unfolding fill_loop
gen n = fill_loop (replicate n 0) 0

-- Where getrandom never fails and never gives nothing, `fill` reads it as async_read_exact reads a
-- stream.
fill_loop-read_loop :
    (buffer : List ℕ) (n : ℕ) (bss : List (List ℕ))
    → Pieces bss
    → fill_loop buffer n (segments bss []) ≡ read_loop buffer n (segments bss [])
unfolding fill_loop read_loop await_resume advance
fill_loop-read_loop buffer n [] p = refl
fill_loop-read_loop buffer n (bs ∷ bss) p =
    let nonzero : (length bs == 0) ≡ false = ground (arith, p.0) in
    rw (nonzero, fill_loop-read_loop (store_at buffer n bs) ((n + length bs) % 2 ^ 64) bss p.1)

-- If getrandom gives some bytes each time, until there are as many as were asked for, `gen` returns
-- exactly these bytes, in order.
pub gen-segments :
    (bss : List (List ℕ))
    → Pieces bss
    → length (concat bss) < 2 ^ 64
    → gen (length (concat bss)) (segments bss []) ≡ done (concat bss) []
unfolding gen async_read_exact
gen-segments bss p fits =
    fill_loop-read_loop (replicate (length (concat bss)) 0) 0 bss p
    ∙ async_read_exact-segments bss [] p fits
