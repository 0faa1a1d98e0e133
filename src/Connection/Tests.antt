-- ===== src/Connection/Tests.antt =====
-- A run of the text format of frames.
use servd.Base.{◌≡◌, refl, [], ◌∷◌, decimal}
use servd.Connection.{text_frame}
use servd.Fixtures.{ping_header}

-- "1 0 5\n", the payload, "\n".
text_ping :
    text_frame ping_header (104 ∷ 105 ∷ []) ≡ 49 ∷ 32 ∷ 48 ∷ 32 ∷ 53 ∷ 10 ∷ 104 ∷ 105 ∷ 10 ∷ []
unfolding text_frame decimal
text_ping = refl
