-- ===== src/Config/Files.antt =====
-- Config files, `key = value` line by line: src/serveur/ServerConfigFile.cpp.
use servd.Base.{
  ℕ, ◌^◌, ◌<◌, ◌≡◌, refl, sym, ap, ◌∙◌, false, some, List, [], ◌∷◌, ◌++◌, arith, All, append-nil,
  append_assoc, ◌==◌, text_eq, decimal, is_digit,
}
use servd.Result.{ok, err, invalid_argument}
use servd.Protocol.{binary}
use servd.Text.{skip_space}
use servd.Text.Headers.{skip_space-token, IsToken}
use servd.Text.Lines.{OneLine-append, OneLine}
use servd.Config.{
  LogLevel, ServerConfig, enable_tcp, enable_udp, enable_unix_socket, set_max_clients, trim_end,
  trim, split_sign, starts_number, port_of, stoi_port, tcp_key, udp_key, unix_key, max_clients_key,
  log_level_key, log_file_key, set_option, load_trimmed, load_line, lines, load_next, load_lines,
  load_config,
}
use servd.Config.Values.{
  IsKey, key-IsToken, tcp_key-IsKey, udp_key-IsKey, unix_key-IsKey, max_clients_key-IsKey,
  log_level_key-IsKey, log_file_key-IsKey, IsWord, level_text, pair_line, load_line-IsWord,
  decimal-IsWord, level-IsWord, parse_log_level-level_text, stoi_port-decimal, stoul_size-decimal,
}

-- What a line of a config file says.
pub data Setting : Type 0 where
  comment : List ℕ → Setting
  tcp_port : ℕ → Setting
  udp_port : ℕ → Setting
  unix_path : List ℕ → Setting
  client_limit : ℕ → Setting
  level : LogLevel → Setting
  log_to : List ℕ → Setting

abbrev pub apply : Setting → ServerConfig → ServerConfig
apply (comment text) s = s
apply (tcp_port p) s = enable_tcp s p binary
apply (udp_port p) s = enable_udp s p
apply (unix_path path) s = enable_unix_socket s path binary
apply (client_limit n) s = set_max_clients s n
apply (level l) s = record s { log_level = l }
apply (log_to path) s = record s { log_file = path }

abbrev pub apply_all : List Setting → ServerConfig → ServerConfig
apply_all [] s = s
apply_all (x ∷ xs) s = apply_all xs (apply x s)

abbrev pub line_of : Setting → List ℕ
line_of (comment text) = b'#' ∷ text
line_of (tcp_port p) = pair_line tcp_key (decimal p)
line_of (udp_port p) = pair_line udp_key (decimal p)
line_of (unix_path path) = pair_line unix_key path
line_of (client_limit n) = pair_line max_clients_key (decimal n)
line_of (level l) = pair_line log_level_key (level_text l)
line_of (log_to path) = pair_line log_file_key path

abbrev pub file_of : List Setting → List ℕ
file_of [] = []
file_of (x ∷ xs) = line_of x ++ (10 ∷ file_of xs)

abbrev pub IsSetting : Setting → Type 0
IsSetting (comment text) = OneLine text
IsSetting (tcp_port p) = p < 2 ^ 16
IsSetting (udp_port p) = p < 2 ^ 16
IsSetting (unix_path path) = IsWord path
IsSetting (client_limit n) = n < 2 ^ 64
IsSetting (level l) = Unit {0}
IsSetting (log_to path) = IsWord path

load_line-comment : (text : List ℕ) (s : ServerConfig) → load_line (b'#' ∷ text) s ≡ (ok tt, s)
unfolding load_line load_trimmed trim skip_space trim_end
load_line-comment text s = refl

-- A line that holds a setting makes it.
load_line-line_of :
    (x : Setting) (s : ServerConfig) → IsSetting x → load_line (line_of x) s ≡ (ok tt, apply x s)
unfolding set_option text_eq
load_line-line_of (comment text) s v = load_line-comment text s
load_line-line_of (tcp_port p) s v =
    rw (load_line-IsWord _ _ (decimal p) s tcp_key-IsKey (decimal-IsWord p), stoi_port-decimal p v)
load_line-line_of (udp_port p) s v =
    rw (load_line-IsWord _ _ (decimal p) s udp_key-IsKey (decimal-IsWord p), stoi_port-decimal p v)
load_line-line_of (unix_path path) s v =
    load_line-IsWord b'u' (b'n' ∷ b'i' ∷ b'x' ∷ []) path s unix_key-IsKey v
load_line-line_of (client_limit n) s v = rw (
  load_line-IsWord _ _ (decimal n) s max_clients_key-IsKey (decimal-IsWord n),
  stoul_size-decimal n v,
)
load_line-line_of (level l) s v = rw (
  load_line-IsWord _ _ (level_text l) s log_level_key-IsKey (level-IsWord l),
  parse_log_level-level_text l,
)
load_line-line_of (log_to path) s v =
    load_line-IsWord b'l' (b'o' ∷ b'g' ∷ b'_' ∷ b'f' ∷ b'i' ∷ b'l' ∷ b'e' ∷ []) path s
      log_file_key-IsKey v

lines-append : (l rest : List ℕ) → OneLine l → lines (l ++ (10 ∷ rest)) ≡ l ∷ lines rest
unfolding lines
lines-append [] rest h = refl
lines-append (c ∷ cs) rest h = rw (h.0, lines-append cs rest h.1)

token-OneLine : (cs : List ℕ) → IsToken cs → OneLine cs
token-OneLine [] h = tt
token-OneLine (c ∷ cs) h = (ground arith, token-OneLine cs h.1)

word-OneLine : (cs : List ℕ) → IsWord cs → OneLine cs
word-OneLine cs (d, ds, e, h) = rw e (token-OneLine (d ∷ ds) h)

pair_line-OneLine : (key v : List ℕ) → IsKey key → IsWord v → OneLine (pair_line key v)
pair_line-OneLine key v k h =
    OneLine-append key (32 ∷ 61 ∷ 32 ∷ v) (token-OneLine key (key-IsToken key k))
      (refl, (refl, (refl, word-OneLine v h)))

line_of-OneLine : (x : Setting) → IsSetting x → OneLine (line_of x)
line_of-OneLine (comment text) v = (refl, v)
line_of-OneLine (tcp_port p) v =
    pair_line-OneLine tcp_key (decimal p) tcp_key-IsKey (decimal-IsWord p)
line_of-OneLine (udp_port p) v =
    pair_line-OneLine udp_key (decimal p) udp_key-IsKey (decimal-IsWord p)
line_of-OneLine (unix_path path) v = pair_line-OneLine unix_key path unix_key-IsKey v
line_of-OneLine (client_limit n) v =
    pair_line-OneLine max_clients_key (decimal n) max_clients_key-IsKey (decimal-IsWord n)
line_of-OneLine (level l) v =
    pair_line-OneLine log_level_key (level_text l) log_level_key-IsKey (level-IsWord l)
line_of-OneLine (log_to path) v = pair_line-OneLine log_file_key path log_file_key-IsKey v

load_lines-file_of :
    (xs : List Setting) (rest : List ℕ) (s : ServerConfig)
    → All IsSetting xs
    → load_lines (lines (file_of xs ++ rest)) s ≡ load_lines (lines rest) (apply_all xs s)
unfolding load_lines load_next
load_lines-file_of [] rest s v = refl
load_lines-file_of (x ∷ xs) rest s v =
    rw
      (
        append_assoc (line_of x) (10 ∷ file_of xs) rest,
        lines-append (line_of x) (file_of xs ++ rest) (line_of-OneLine x v.0),
        load_line-line_of x s v.0,
      )
      (load_lines-file_of xs rest (apply x s) v.1)

-- A config file of settings and comments, one a line as `key = value`, makes exactly those
-- settings, in the file's order. Ports fit 16 bits, the client limit 64, and paths hold no blanks.
pub load_config-file_of :
    (xs : List Setting) (s : ServerConfig)
    → All IsSetting xs
    → load_config (some (file_of xs)) s ≡ (ok tt, apply_all xs s)
unfolding load_config load_lines lines
load_config-file_of xs s v =
    let all = load_lines-file_of xs [] s v in
    ap (λ (content : List ℕ). load_lines (lines content) s) (sym (append-nil (file_of xs))) ∙ all

-- A TCP port that does not start with a digit or a sign makes load_config throw: the settings above
-- it are made, and nothing behind it is read.
load_config_stops :
    (xs : List Setting) (c : ℕ) (cs rest : List ℕ) (s : ServerConfig)
    → All IsSetting xs
    → IsToken (c ∷ cs)
    → is_digit c ≡ false
    → (c == b'-') ≡ false
    → (c == b'+') ≡ false
    → load_config (some (file_of xs ++ (pair_line tcp_key (c ∷ cs) ++ (10 ∷ rest)))) s
      ≡ (err invalid_argument, apply_all xs s)
unfolding load_config load_lines load_next set_option text_eq stoi_port split_sign port_of
    starts_number
load_config_stops xs c cs rest s v word digit minus plus =
    let here : load_line (pair_line tcp_key (c ∷ cs)) (apply_all xs s)
        ≡ (err invalid_argument, apply_all xs s) =
      rw (
        load_line-IsWord _ _ (c ∷ cs) (apply_all xs s) tcp_key-IsKey (c, cs, refl, word),
        skip_space-token c cs word.0,
        minus,
        plus,
        digit,
      ) in
    load_lines-file_of xs (pair_line tcp_key (c ∷ cs) ++ (10 ∷ rest)) s v
    ∙ rw (
      lines-append (pair_line tcp_key (c ∷ cs)) rest
          (pair_line-OneLine tcp_key (c ∷ cs) tcp_key-IsKey (c, cs, refl, word)),
      here,
    )
