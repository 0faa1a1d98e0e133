-- ===== src/Text/Progress.antt =====
-- How many completions the text readers leave: src/UringEngine/FrameIO.cpp.
use servd.Base.{
  ℕ, zero, suc, ◌<◌, Bool-cases, inl, inr, Option, none, some, List, [], ◌∷◌, ◌++◌, length, arith,
  text_eq, if◌then◌else◌,
}
use servd.Stream.{Completion, Outcome, done, threw, pending, async_read_exact}
use servd.Stream.Progress.{
  NoMore, Fewer, NoMore-Fewer, and_then-Fewer, and_then-NoMore, async_read_exact-Fewer,
}
use servd.Text.{
  CommandNames, line_loop, read_text_line, parse_text_header, read_text_payload, read_text_frame,
}

line_loop_after :
    (fuel : ℕ) (line c : List ℕ) (rest : List Completion) (n : ℕ)
    → length rest < n
    → Fewer (length rest) (line_loop fuel (line ++ c) rest)
    → Fewer n (if text_eq c (10 ∷ []) then done line rest else line_loop fuel (line ++ c) rest)
line_loop_after fuel line c rest n h again = elim (Bool-cases (text_eq c (10 ∷ []))) [
  | inl end ↦ rw end h
  | inr more ↦ rw more (weaker (line_loop fuel (line ++ c) rest) again)
]
  where
    weaker : (o : Outcome (List ℕ)) → Fewer (length rest) o → Fewer n o
    weaker (done a left) k = omega arith
    weaker (threw e left) k = tt
    weaker pending k = tt

line_loop_step :
    (fuel : ℕ) (line : List ℕ) (n : ℕ) (o : Outcome (List ℕ))
    → ((next : List ℕ) (rest : List Completion) → Fewer (length rest) (line_loop fuel next rest))
    → Fewer n o
    → Fewer {A = List ℕ} n (elim o [
      | done c rest ↦
          if text_eq c (10 ∷ []) then done line rest else line_loop fuel (line ++ c) rest
      | threw e rest ↦ threw e rest
      | pending ↦ pending
    ])
line_loop_step fuel line n (done c rest) again h =
    line_loop_after fuel line c rest n h (again (line ++ c) rest)
line_loop_step fuel line n (threw e rest) again h = tt
line_loop_step fuel line n pending again h = tt

line_loop-Fewer :
    (fuel : ℕ) (line : List ℕ) (cs : List Completion) → Fewer (length cs) (line_loop fuel line cs)
unfolding line_loop
line_loop-Fewer zero line cs = tt
line_loop-Fewer (suc fuel) line cs =
    line_loop_step fuel line (length cs) (async_read_exact 1 cs)
      (λ next rest. line_loop-Fewer fuel next rest) (async_read_exact-Fewer 0 cs)

read_text_line-Fewer : (cs : List Completion) → Fewer (length cs) (read_text_line cs)
unfolding read_text_line
read_text_line-Fewer cs = line_loop-Fewer (suc (length cs)) [] cs

read_text_payload-NoMore :
    (parsed : Option (ℕ × ℕ)) (cs : List Completion)
    → NoMore (length cs) (read_text_payload parsed cs)
unfolding read_text_payload
read_text_payload-NoMore none cs = omega arith
read_text_payload-NoMore (some (cmd, sid)) cs =
    and_then-NoMore (length cs) (read_text_line cs) _
      (NoMore-Fewer (length cs) (read_text_line cs) (read_text_line-Fewer cs))
      (λ payload rest. omega arith)

-- A frame takes a completion.
pub read_text_frame-Fewer :
    (names : CommandNames) (cs : List Completion) → Fewer (length cs) (read_text_frame names cs)
unfolding read_text_frame
read_text_frame-Fewer names cs =
    and_then-Fewer (length cs) (read_text_line cs) _ (read_text_line-Fewer cs)
      (λ line rest. read_text_payload-NoMore (parse_text_header line names) rest)
