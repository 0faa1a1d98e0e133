-- ===== src/Logger.antt =====
-- src/Logger.cpp: log entries on the standard error and in a file. The time, the expansion of the
-- format and what the file system allows are the caller's arguments; characters are bytes.
pub mod Lines
pub mod Column
pub mod Entries
mod Tests
use servd.Base.{
  ℕ, ◌+◌, ◌-◌, ◌%◌, ◌^◌, Bool, true, false, not, ◌&&◌, Option, none, some, List, [], ◌∷◌, ◌++◌,
  length, take, drop, replicate, ltb, ◌==◌, if◌then◌else◌, decimal,
}
use servd.Result.{Result, ok, err, out_of_range}
use servd.Config.{LogLevel, debug, info, warn, error}

-- s_file_stream: whether it is open, whether an operation on it has failed, and what was written.
pub record FileStream : Type 0 where
  pub is_open : Bool
  pub failed : Bool
  pub contents : List ℕ

pub record Logger : Type 0 where
  pub level : LogLevel
  pub log_file : List ℕ
  pub file_column_width : ℕ
  pub stream : FileStream
  pub stderr : List ℕ

-- A call of the logger: the time as text, whether stderr is a terminal, `__FILE__`, `__LINE__`, and
-- the message that the format expands to.
pub record LogCall : Type 0 where
  pub time_str : List ℕ
  pub is_tty : Bool
  pub level : LogLevel
  pub file : List ℕ
  pub line : ℕ
  pub message : List ℕ

unfoldable pub level_index : LogLevel → ℕ
level_index debug = 0
level_index info = 1
level_index warn = 2
level_index error = 3

unfoldable pub level_string : LogLevel → List ℕ
level_string debug = b'D' ∷ b'E' ∷ b'B' ∷ b'U' ∷ b'G' ∷ []
level_string info = b'I' ∷ b'N' ∷ b'F' ∷ b'O' ∷ 32 ∷ []
level_string warn = b'W' ∷ b'A' ∷ b'R' ∷ b'N' ∷ 32 ∷ []
level_string error = b'E' ∷ b'R' ∷ b'R' ∷ b'O' ∷ b'R' ∷ []

-- The escape sequence of a colour of two digits.
escape : ℕ → ℕ → List ℕ
escape tens ones = 27 ∷ b'[' ∷ tens ∷ ones ∷ b'm' ∷ []

unfoldable pub level_color : LogLevel → List ℕ
unfolding escape
level_color debug = escape b'9' b'4'
level_color info = escape b'3' b'2'
level_color warn = escape b'3' b'3'
level_color error = escape b'3' b'1'

color_reset : List ℕ
color_reset = 27 ∷ b'[' ∷ b'0' ∷ b'm' ∷ []

color_meta : List ℕ
unfolding escape
color_meta = escape b'9' b'0'

unfoldable pub set_level : LogLevel → Logger → Logger
set_level level s = record s { level = level }

unfoldable pub set_file_column_width : ℕ → Logger → Logger
set_file_column_width width s = record s { file_column_width = width }

expand_home : List ℕ → Option (List ℕ) → List ℕ
expand_home [] home = []
expand_home (c ∷ cs) none = c ∷ cs
expand_home (c ∷ cs) (some home) = if c == b'~' then home ++ cs else c ∷ cs

-- std::ofstream::open in append mode: it fails on a stream that is open already.
unfoldable pub open_stream : Bool → FileStream → FileStream
open_stream can_open s =
    if s.is_open
    then record s { failed = true }
    else if can_open
    then record s { is_open = true; failed = false }
    else record s { failed = true }

-- `path_ok` says of a path whether its directories can be made, and whether it can be opened.
unfoldable pub set_log_file : List ℕ → Option (List ℕ) → (List ℕ → Bool × Bool) → Logger → Logger
unfolding expand_home
set_log_file file_path home path_ok s =
    let (directories, can_open) = path_ok (expand_home file_path home) in
    record s {
      log_file = file_path;
      stream = if directories then open_stream can_open s.stream else s.stream;
    }

-- "(" basename ":" line ")"
unfoldable pub location : List ℕ → ℕ → List ℕ
location basename line = b'(' ∷ (basename ++ (b':' ∷ (decimal line ++ (b')' ∷ []))))

-- substr throws behind the end; the subtractions are those of `size_t`.
unfoldable pub format_file_column : ℕ → List ℕ → ℕ → Result (List ℕ)
unfolding location
format_file_column width basename line =
    let loc = location basename line in
    let start = (length loc + 2 ^ 64 - (width + 2 ^ 64 - 2) % 2 ^ 64) % 2 ^ 64 in
    if ltb width (length loc)
    then (if ltb (length loc) start then err out_of_range else ok (b'.' ∷ b'.' ∷ drop start loc))
    else ok (loc ++ replicate (width - length loc) 32)

-- The character and what it is written as.
sanitized_char : ℕ → List ℕ
sanitized_char c = if c == 10 then 92 ∷ b'n' ∷ [] else c ∷ []

-- print_sanitized, up to the end of a C string.
unfoldable pub sanitized : List ℕ → List ℕ
unfolding sanitized_char
sanitized [] = []
sanitized (c ∷ cs) = let rest = sanitized_char c ++ sanitized cs in if c == 0 then [] else rest

last_slash : Option (List ℕ) → ℕ → List ℕ → Option (List ℕ)
last_slash (some rest) c cs = some rest
last_slash none c cs = if c == b'/' then some cs else none

-- What strrchr finds, without the slash.
after_slash : List ℕ → Option (List ℕ)
unfolding last_slash
after_slash [] = none
after_slash (c ∷ cs) = last_slash (after_slash cs) c cs

or_whole : Option (List ℕ) → List ℕ → List ℕ
or_whole none file = file
or_whole (some name) file = name

unfoldable pub basename_of : List ℕ → List ℕ
unfolding after_slash or_whole
basename_of file = or_whole (after_slash file) file

-- message_buffer, which holds 2047 characters.
unfoldable pub message_buffer : List ℕ → List ℕ
message_buffer message = take 2047 message

-- What stands before the column of the file, without and with colours.
plain_head : LogCall → List ℕ
plain_head c = c.time_str ++ (32 ∷ b'[' ∷ (level_string c.level ++ (b']' ∷ 32 ∷ 32 ∷ [])))

color_head : LogCall → List ℕ
unfolding color_meta color_reset level_color level_string
color_head c =
    color_meta
    ++ (c.time_str
        ++ (32
            ∷ (color_reset
                ++ (level_color c.level
                    ++ (b'['
                        ∷ (level_string c.level
                            ++ (b']' ∷ (color_reset ++ (color_meta ++ (32 ∷ []))))))))))

-- What stands behind it, up to the end of the line.
plain_tail : LogCall → List ℕ
plain_tail c = b':' ∷ 32 ∷ (sanitized (message_buffer c.message) ++ (10 ∷ []))

color_tail : LogCall → List ℕ
unfolding color_reset
color_tail c = b':' ∷ 32 ∷ (color_reset ++ (sanitized (message_buffer c.message) ++ (10 ∷ [])))

unfoldable pub file_entry : LogCall → List ℕ → List ℕ
unfolding plain_head plain_tail
file_entry c column = plain_head c ++ (column ++ plain_tail c)

-- A stream takes nothing after a failure.
unfoldable pub write_stream : List ℕ → FileStream → FileStream
write_stream text s =
    if s.is_open && not s.failed then record s { contents = s.contents ++ text } else s

-- What follows the column: the operands of `<<` are evaluated from left to right, so the head is
-- written when the column throws.
write_entry : LogCall → Result (List ℕ) → Logger → Result (Unit {0}) × Logger
unfolding color_head color_tail plain_head plain_tail
write_entry c (err e) s =
    let head = if c.is_tty then color_head c else plain_head c in
    (err e, record s { stderr = s.stderr ++ head })
write_entry c (ok column) s =
    let text =
      if c.is_tty
      then color_head c ++ (column ++ color_tail c)
      else plain_head c ++ (column ++ plain_tail c) in
    (
      ok tt,
      record s { stderr = s.stderr ++ text; stream = write_stream (file_entry c column) s.stream },
    )

unfoldable pub log : LogCall → Logger → Result (Unit {0}) × Logger
unfolding write_entry
log c s =
    if ltb (level_index c.level) (level_index s.level)
    then (ok tt, s)
    else write_entry c (format_file_column s.file_column_width (basename_of c.file) c.line) s

-- Logger::log_s, whose body is that of Logger::log.
unfoldable pub log_s : LogCall → Logger → Result (Unit {0}) × Logger
unfolding write_entry
log_s c s =
    if ltb (level_index c.level) (level_index s.level)
    then (ok tt, s)
    else write_entry c (format_file_column s.file_column_width (basename_of c.file) c.line) s
