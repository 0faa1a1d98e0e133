-- ===== src/Crypto/Rng/Tests.antt =====
-- An instance of the theorem about include/servd/crypto/Rng.hpp.
use servd.Base.{ℕ, ◌≡◌, List, [], ◌∷◌, arith}
use servd.Stream.{done}
use servd.Stream.Segments.{concat, segments}
use servd.Crypto.Rng.{gen, gen-segments}

-- Twelve bytes, in two pieces.
abbrev pieces : List (List ℕ)
pieces = (1 ∷ 2 ∷ 3 ∷ 4 ∷ 5 ∷ []) ∷ (6 ∷ 7 ∷ 8 ∷ 9 ∷ 10 ∷ 11 ∷ 12 ∷ []) ∷ []

gen-segments_example : gen 12 (segments pieces []) ≡ done (concat pieces) []
gen-segments_example = gen-segments pieces (omega arith, (omega arith, tt)) (omega arith)
