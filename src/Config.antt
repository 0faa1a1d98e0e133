-- ===== src/Config.antt =====
-- src/serveur/ServerConfigFile.cpp over the setters of src/serveur/ServerConfiguration.cpp. A file
-- is its bytes; characters are those of the C locale.
pub mod Files
mod Values
mod Tests
use servd.Base.{
  ℕ, ◌-◌, ◌%◌, ◌^◌, Bool, true, false, not, ◌&&◌, Option, none, some, List, [], ◌∷◌, ◌++◌, ltb, leb,
  ◌==◌, if◌then◌else◌, text_eq, is_digit, read_digits,
}
use servd.Result.{Error, Result, ok, err, invalid_argument, out_of_range, cannot_open}
use servd.Protocol.{ProtocolMode, binary}
use servd.Text.{is_space, skip_space}

-- Logger::LogLevel
pub data LogLevel : Type 0 where
  debug : LogLevel
  info : LogLevel
  warn : LogLevel
  error : LogLevel

-- The members of the server and of the logger that the file sets. `log_file` is the path; opening it
-- is the logger's.
pub record ServerConfig : Type 0 where
  pub tcp_ports : List (ℕ × ProtocolMode)
  pub udp_ports : List ℕ
  pub unix_paths : List (List ℕ × ProtocolMode)
  pub max_clients : ℕ
  pub log_level : LogLevel
  pub log_file : List ℕ

unfoldable pub enable_tcp : ServerConfig → ℕ → ProtocolMode → ServerConfig
enable_tcp s port mode = record s { tcp_ports = s.tcp_ports ++ ((port, mode) ∷ []) }

unfoldable pub enable_udp : ServerConfig → ℕ → ServerConfig
enable_udp s port = record s { udp_ports = s.udp_ports ++ (port ∷ []) }

unfoldable pub enable_unix_socket : ServerConfig → List ℕ → ProtocolMode → ServerConfig
enable_unix_socket s path mode = record s { unix_paths = s.unix_paths ++ ((path, mode) ∷ []) }

unfoldable pub set_max_clients : ServerConfig → ℕ → ServerConfig
set_max_clients s max = record s { max_clients = max }

abbrev pub debug_text : List ℕ
debug_text = b'D' ∷ b'E' ∷ b'B' ∷ b'U' ∷ b'G' ∷ []

abbrev pub info_text : List ℕ
info_text = b'I' ∷ b'N' ∷ b'F' ∷ b'O' ∷ []

abbrev pub warn_text : List ℕ
warn_text = b'W' ∷ b'A' ∷ b'R' ∷ b'N' ∷ []

abbrev pub error_text : List ℕ
error_text = b'E' ∷ b'R' ∷ b'R' ∷ b'O' ∷ b'R' ∷ []

unfoldable pub parse_log_level : List ℕ → LogLevel
parse_log_level s =
    if text_eq s debug_text
    then debug
    else if text_eq s info_text
    then info
    else if text_eq s warn_text
    then warn
    else if text_eq s error_text
    then error
    else info

is_empty : List ℕ → Bool
is_empty [] = true
is_empty (c ∷ cs) = false

unfoldable pub trim_end : List ℕ → List ℕ
unfolding is_empty
trim_end [] = []
trim_end (c ∷ cs) = let rest = trim_end cs in if is_space c && is_empty rest then [] else c ∷ rest

unfoldable pub trim : List ℕ → List ℕ
trim s = trim_end (skip_space s)

-- The sign of a number, and what follows it.
split_sign : List ℕ → Bool × List ℕ
split_sign [] = (false, [])
split_sign (c ∷ cs) =
    if c == b'-' then (true, cs) else if c == b'+' then (false, cs) else (false, c ∷ cs)

starts_number : List ℕ → Bool
starts_number [] = false
starts_number (c ∷ cs) = is_digit c

port_of : Bool × List ℕ → Result ℕ
unfolding starts_number
port_of (negative, digits) =
    let value = (read_digits 0 digits).0 in
    if not (starts_number digits)
    then err invalid_argument
    else if negative
    then (if leb value (2 ^ 31) then ok ((2 ^ 16 - value % 2 ^ 16) % 2 ^ 16) else err out_of_range)
    else if ltb value (2 ^ 31)
    then ok (value % 2 ^ 16)
    else err out_of_range

-- static_cast<uint16_t>(std::stoi(value))
unfoldable pub stoi_port : List ℕ → Result ℕ
unfolding port_of split_sign
stoi_port value = port_of (split_sign (skip_space value))

size_of : Bool × List ℕ → Result ℕ
unfolding starts_number
size_of (negative, digits) =
    let value = (read_digits 0 digits).0 in
    if not (starts_number digits)
    then err invalid_argument
    else if not (ltb value (2 ^ 64))
    then err out_of_range
    else if negative
    then ok ((2 ^ 64 - value) % 2 ^ 64)
    else ok value

-- static_cast<size_t>(std::stoul(value)); like strtoul it takes a sign and wraps.
unfoldable pub stoul_size : List ℕ → Result ℕ
unfolding size_of split_sign
stoul_size value = size_of (split_sign (skip_space value))

-- A line that throws leaves the settings as they are.
unfoldable pub with_value :
    Result ℕ → (ℕ → ServerConfig) → ServerConfig → Result (Unit {0}) × ServerConfig
with_value (ok n) f s = (ok tt, f n)
with_value (err e) f s = (err e, s)

abbrev pub tcp_key : List ℕ
tcp_key = b't' ∷ b'c' ∷ b'p' ∷ []

abbrev pub udp_key : List ℕ
udp_key = b'u' ∷ b'd' ∷ b'p' ∷ []

abbrev pub unix_key : List ℕ
unix_key = b'u' ∷ b'n' ∷ b'i' ∷ b'x' ∷ []

abbrev pub max_clients_key : List ℕ
max_clients_key = b'm' ∷ b'a' ∷ b'x' ∷ b'_' ∷ b'c' ∷ b'l' ∷ b'i' ∷ b'e' ∷ b'n' ∷ b't' ∷ b's' ∷ []

abbrev pub log_level_key : List ℕ
log_level_key = b'l' ∷ b'o' ∷ b'g' ∷ b'_' ∷ b'l' ∷ b'e' ∷ b'v' ∷ b'e' ∷ b'l' ∷ []

abbrev pub log_file_key : List ℕ
log_file_key = b'l' ∷ b'o' ∷ b'g' ∷ b'_' ∷ b'f' ∷ b'i' ∷ b'l' ∷ b'e' ∷ []

unfoldable pub set_option : List ℕ → List ℕ → ServerConfig → Result (Unit {0}) × ServerConfig
unfolding with_value
set_option key value s =
    if text_eq key tcp_key
    then with_value (stoi_port value) (λ port. enable_tcp s port binary) s
    else if text_eq key udp_key
    then with_value (stoi_port value) (λ port. enable_udp s port) s
    else if text_eq key unix_key
    then (ok tt, enable_unix_socket s value binary)
    else if text_eq key max_clients_key
    then with_value (stoul_size value) (λ max. set_max_clients s max) s
    else if text_eq key log_level_key
    then (ok tt, record s { log_level = parse_log_level value })
    else if text_eq key log_file_key
    then (ok tt, record s { log_file = value })
    else (ok tt, s)

before_eq : ℕ → Option (List ℕ × List ℕ) → Option (List ℕ × List ℕ)
before_eq c none = none
before_eq c (some (key, value)) = some (c ∷ key, value)

-- What stands before and behind the first '='.
unfoldable pub split_at_eq : List ℕ → Option (List ℕ × List ℕ)
unfolding before_eq
split_at_eq [] = none
split_at_eq (c ∷ cs) =
    let rest = split_at_eq cs in if c == b'=' then some ([], cs) else before_eq c rest

load_pair : Option (List ℕ × List ℕ) → ServerConfig → Result (Unit {0}) × ServerConfig
load_pair none s = (ok tt, s)
load_pair (some (key, value)) s = set_option (trim key) (trim value) s

load_trimmed : List ℕ → ServerConfig → Result (Unit {0}) × ServerConfig
unfolding load_pair
load_trimmed [] s = (ok tt, s)
load_trimmed (c ∷ cs) s = if c == b'#' then (ok tt, s) else load_pair (split_at_eq (c ∷ cs)) s

unfoldable pub load_line : List ℕ → ServerConfig → Result (Unit {0}) × ServerConfig
unfolding load_trimmed
load_line line s = load_trimmed (trim line) s

onto_line : ℕ → List (List ℕ) → List (List ℕ)
onto_line c [] = (c ∷ []) ∷ []
onto_line c (l ∷ ls) = (c ∷ l) ∷ ls

-- What std::getline delivers, one after the other.
unfoldable pub lines : List ℕ → List (List ℕ)
unfolding onto_line
lines [] = []
lines (c ∷ cs) = let rest = lines cs in if c == 10 then [] ∷ rest else onto_line c rest

load_next :
    Result (Unit {0}) × ServerConfig
    → (ServerConfig → Result (Unit {0}) × ServerConfig)
    → Result (Unit {0}) × ServerConfig
load_next (ok u, s) go = go s
load_next (err e, s) go = (err e, s)

unfoldable pub load_lines : List (List ℕ) → ServerConfig → Result (Unit {0}) × ServerConfig
unfolding load_next
load_lines [] s = (ok tt, s)
load_lines (l ∷ ls) s = load_next (load_line l s) (load_lines ls)

-- `none` is a file that cannot be opened. What was set before an exception stays set.
unfoldable pub load_config : Option (List ℕ) → ServerConfig → Result (Unit {0}) × ServerConfig
load_config none s = (err cannot_open, s)
load_config (some content) s = load_lines (lines content) s
