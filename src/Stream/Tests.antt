-- ===== src/Stream/Tests.antt =====
-- Instances of the theorems about src/UringEngine/IoUring.cpp and FrameIO.cpp.
use servd.Base.{ℕ, ◌≡◌, refl, List, [], ◌∷◌, arith, le_bytes}
use servd.Protocol.{encode_header}
use servd.Stream.{done, read_frame}
use servd.Stream.Segments.{segments}
use servd.Stream.Frames.{read_frame-segments}
use servd.Fixtures.{ping}

-- The header in two pieces, and the payload byte by byte.
abbrev head : List (List ℕ)
head = (1 ∷ 0 ∷ 0 ∷ []) ∷ (0 ∷ 2 ∷ 0 ∷ 0 ∷ 0 ∷ 5 ∷ 0 ∷ 0 ∷ 0 ∷ 0 ∷ 0 ∷ 0 ∷ 0 ∷ []) ∷ []

abbrev body : List (List ℕ)
body = (8 ∷ []) ∷ (9 ∷ []) ∷ []

read_frame-segments_example : read_frame (segments head (segments body [])) ≡ done ping []
unfolding encode_header le_bytes
read_frame-segments_example =
    read_frame-segments ping head body [] (omega arith) refl (omega arith) (omega arith) refl refl
