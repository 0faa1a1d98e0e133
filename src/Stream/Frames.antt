-- ===== src/Stream/Frames.antt =====
-- Frames over a stream: src/UringEngine/FrameIO.cpp and ConnectionImpl.cpp.
use servd.Base.{
  ℕ, ◌^◌, ◌<◌, ◌≡◌, refl, sym, ap, ◌∙◌, inl, inr, Bool-cases, ltb, length-append, List, [], ◌∷◌,
  length, arith, append-nil,
}
use servd.Protocol.{FrameHeader, IsFrameHeader, ClientFrame, encode_header, decode_header}
use servd.Protocol.RoundTrip.{length-encode_header, decode_header-encode_header}
use servd.Stream.{Completion, done, read_payload, async_read_exact, read_frame}
use servd.Stream.Segments.{concat, Pieces, segments, async_read_exact-segments}

-- A read of `n` bytes, where the pieces join to `n` bytes.
pub read_exactly :
    (n : ℕ) (bs : List ℕ) (bss : List (List ℕ)) (rest : List Completion)
    → Pieces bss
    → concat bss ≡ bs
    → length bs ≡ n
    → n < 2 ^ 64
    → async_read_exact n (segments bss rest) ≡ done bs rest
read_exactly n bs bss rest p joined size fits =
    rw (sym size, sym joined) (async_read_exact-segments bss rest p (rw joined (rw size fits)))

no-Pieces :
    (bss : List (List ℕ)) (rest : List Completion)
    → Pieces bss
    → length (concat bss) ≡ 0
    → segments bss rest ≡ rest
no-Pieces [] rest p n = refl
no-Pieces (bs ∷ bss) rest p n = absurd (omega (arith, length-append bs (concat bss), p.0))

decode_encoded : (h : FrameHeader) → IsFrameHeader h → decode_header (encode_header h) ≡ h
decode_encoded h v =
    ap decode_header (sym (append-nil (encode_header h))) ∙ decode_header-encode_header h [] v

empty_list : (bs : List ℕ) → length bs ≡ 0 → bs ≡ []
empty_list [] h = refl
empty_list (b ∷ bs) h = absurd (omega arith)

-- The reader returns exactly the frame that was written, and stops at its end, however the kernel
-- cuts the header and the payload into pieces.
pub read_frame-segments :
    (frame : ClientFrame) (head body : List (List ℕ)) (rest : List Completion)
    → IsFrameHeader frame.header
    → frame.header.payload_length ≡ length frame.payload
    → Pieces head
    → Pieces body
    → concat head ≡ encode_header frame.header
    → concat body ≡ frame.payload
    → read_frame (segments head (segments body rest)) ≡ done frame rest
unfolding read_frame read_payload
read_frame-segments frame head body rest v size hp bp hj bj =
    let h = frame.header in
    rw
      (
        read_exactly 16 (encode_header h) head (segments body rest) hp hj (length-encode_header h)
            (omega arith),
        decode_encoded h v,
      )
      (elim (Bool-cases (ltb 0 h.payload_length)) [
        | inl some_bytes ↦ rw (
          some_bytes,
          read_payload,
          read_exactly h.payload_length frame.payload body rest bp bj (sym size) (omega arith),
        )
        | inr no_bytes ↦
            let no_length : length frame.payload ≡ 0 = ground arith in
            rw (
              no_bytes,
              no-Pieces body rest bp (ap length bj ∙ no_length),
              empty_list frame.payload no_length,
            )
      ])
