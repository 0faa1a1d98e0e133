-- ===== src/Text.antt =====
-- The text protocol of src/UringEngine/FrameIO.cpp: parse_text_header, read_text_line and
-- read_text_frame. Characters are bytes, in the C locale.
pub mod Headers
pub mod Lines
pub mod Progress
mod Tests
use servd.Base.{
  ℕ, zero, suc, ◌+◌, ◌-◌, ◌%◌, ◌^◌, Bool, true, false, ◌&&◌, ◌||◌, Option, none, some, List, [],
  ◌∷◌, ◌++◌, length, take, ltb, leb, ◌==◌, if◌then◌else◌, text_eq, is_digit, read_digits,
}
use servd.Protocol.{ClientFrame, zero_header}
use servd.Stream.{
  Completion, Outcome, done, threw, pending, Recv, return, and_then, ◌>>=◌, async_read_exact,
}
use servd.Connection.{u32}

-- std::isspace: blank, and tab to carriage return.
abbrev pub is_space : ℕ → Bool
is_space c = c == 32 || (leb 9 c && leb c 13)

unfoldable pub skip_space : List ℕ → List ℕ
skip_space [] = []
skip_space (c ∷ cs) = let rest = skip_space cs in if is_space c then rest else c ∷ cs

-- The characters up to the next space, and what follows them.
unfoldable pub split_token : List ℕ → List ℕ × List ℕ
split_token [] = ([], [])
split_token (c ∷ cs) =
    let (token, rest) = split_token cs in if is_space c then ([], c ∷ cs) else (c ∷ token, rest)

-- std::from_chars into a `uint16_t`: the digits at the front; `none` is a non-zero `ec`.
unfoldable pub from_chars : List ℕ → Option ℕ
from_chars [] = none
from_chars (c ∷ cs) =
    let value = (read_digits 0 (c ∷ cs)).0 in
    if is_digit c && ltb value (2 ^ 16) then some value else none

-- The value of the digits at the front, or the greatest one where it does not fit.
magnitude : List ℕ → Option ℕ
magnitude cs = let value = (read_digits 0 cs).0 in if ltb value (2 ^ 64) then some value else none

saturated : Option ℕ → ℕ
saturated none = 2 ^ 64 - 1
saturated (some v) = v

negated : Option ℕ → ℕ
negated none = 2 ^ 64 - 1
negated (some v) = (2 ^ 64 - v) % 2 ^ 64

extract_from : List ℕ → ℕ
unfolding magnitude saturated negated
extract_from [] = 0
extract_from (c ∷ cs) =
    if c == b'-'
    then negated (magnitude cs)
    else if c == b'+'
    then saturated (magnitude cs)
    else saturated (magnitude (c ∷ cs))

-- iss >> sid into a `uint64_t` that is 0: it stays 0 at the end of the stream, and a failed
-- extraction stores 0 or the greatest value.
unfoldable pub extract_u64 : List ℕ → ℕ
unfolding extract_from skip_space
extract_u64 cs = extract_from (skip_space cs)

-- std::unordered_map<std::string, uint16_t>
abbrev pub CommandNames : Type 0
CommandNames = List (List ℕ × ℕ)

unfoldable pub find_name : List ℕ → CommandNames → Option ℕ
find_name name [] = none
find_name name ((k, id) ∷ names) = if text_eq k name then some id else find_name name names

-- Server::add_command_name
unfoldable pub add_command_name : List ℕ → ℕ → CommandNames → CommandNames
add_command_name name command_id [] = (name, command_id) ∷ []
add_command_name name command_id ((k, id) ∷ names) =
    if text_eq k name
    then (name, command_id) ∷ names
    else (k, id) ∷ add_command_name name command_id names

command_of : Option ℕ → List ℕ → CommandNames → Option ℕ
command_of (some cmd) token cmd_names = some cmd
command_of none token cmd_names = find_name token cmd_names

with_session : Option ℕ → List ℕ → Option (ℕ × ℕ)
with_session none rest = none
with_session (some cmd) rest = some (cmd, extract_u64 rest)

parse_fields : List ℕ × List ℕ → CommandNames → Option (ℕ × ℕ)
unfolding command_of with_session
parse_fields (token, rest) cmd_names =
    with_session (command_of (from_chars token) token cmd_names) rest

-- The command and the session id; `none` is `false`.
unfoldable pub parse_text_header : List ℕ → CommandNames → Option (ℕ × ℕ)
unfolding parse_fields
parse_text_header header_line cmd_names =
    parse_fields (split_token (skip_space header_line)) cmd_names

-- The loop of read_text_line, one byte a round. Every read takes a completion, so more rounds than
-- completions are never made.
unfoldable pub line_loop : ℕ → List ℕ → Recv (List ℕ)
line_loop zero line cs = pending
line_loop (suc fuel) line cs = elim (async_read_exact 1 cs) [
  | done c rest ↦ if text_eq c (10 ∷ []) then done line rest else line_loop fuel (line ++ c) rest
  | threw e rest ↦ threw e rest
  | pending ↦ pending
]

unfoldable pub read_text_line : Recv (List ℕ)
read_text_line cs = line_loop (suc (length cs)) [] cs

read_text_payload : Option (ℕ × ℕ) → Recv ClientFrame
read_text_payload none = return (record { header = zero_header; payload = [] })
read_text_payload (some (cmd, sid)) = do
  payload_line ← read_text_line
  let size = u32 (length payload_line)
  return (record {
    header = record { command_id = cmd; flags = 0; payload_length = size; session_id = sid };
    payload = take size payload_line;
  })

unfoldable pub read_text_frame : CommandNames → Recv ClientFrame
unfolding read_text_payload
read_text_frame cmd_names = do
  header_line ← read_text_line
  read_text_payload (parse_text_header header_line cmd_names)
