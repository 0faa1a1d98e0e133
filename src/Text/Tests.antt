-- ===== src/Text/Tests.antt =====
-- Runs of the text protocol of src/UringEngine/FrameIO.cpp, and instances of its theorems.
use servd.Base.{ℕ, ◌≡◌, refl, List, [], ◌∷◌, ◌++◌, arith, decimal, text_eq}
use servd.Protocol.{zero_header}
use servd.Stream.{done}
use servd.Text.{
  CommandNames, from_chars, find_name, skip_space, split_token, parse_text_header, read_text_frame,
}
use servd.Text.Lines.{
  bytewise, two_lines, text_result, read_text_frame_request, read_text_frame_shifts,
}

-- "PING" is command 1.
abbrev ping_name : List ℕ
ping_name = 80 ∷ 73 ∷ 78 ∷ 71 ∷ []

abbrev names : CommandNames
names = (ping_name, 1) ∷ []

read_text_frame_request_example :
    read_text_frame names (two_lines (decimal 7 ++ (32 ∷ decimal 5)) (104 ∷ 105 ∷ []) [])
    ≡ done (text_result 7 5 (104 ∷ 105 ∷ [])) []
read_text_frame_request_example =
    read_text_frame_request names 7 5 (104 ∷ 105 ∷ []) [] (omega arith) (omega arith)
      (refl, (refl, tt)) (omega arith)

-- "QUIT" is no command.
abbrev quit_name : List ℕ
quit_name = 81 ∷ 85 ∷ 73 ∷ 84 ∷ []

read_text_frame_shifts_example :
    let between = two_lines (decimal 1 ++ (32 ∷ decimal 5)) (104 ∷ 105 ∷ []) [] in
    (read_text_frame names
        (two_lines quit_name (decimal 1 ++ (32 ∷ decimal 5)) (bytewise (104 ∷ 105 ∷ 10 ∷ []) []))
      ≡ done (record { header = zero_header; payload = [] }) between)
    × (read_text_frame names between ≡ done (text_result 1 5 (104 ∷ 105 ∷ [])) [])
unfolding parse_text_header skip_space split_token from_chars find_name text_eq
read_text_frame_shifts_example =
    read_text_frame_shifts names quit_name (104 ∷ 105 ∷ []) 1 5 []
      (refl, (refl, (refl, (refl, tt)))) refl (omega arith) (omega arith) (refl, (refl, tt))
      (omega arith)
