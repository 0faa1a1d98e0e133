-- ===== src/Config/Values.antt =====
-- The lines of a config file and their values: src/serveur/ServerConfigFile.cpp.
use servd.Base.{
  ℕ, ◌%◌, ◌^◌, ◌<◌, ◌≡◌, refl, ap, true, false, some, List, [], ◌∷◌, ◌++◌, arith, All, append-nil,
  ltb, ◌==◌, text_eq, decimal, is_digit, read_digits, read_digits-decimal, IsDigits,
  decimal-IsDigits, decimal-cons,
}
use servd.Result.{ok}
use servd.Text.{is_space, skip_space}
use servd.Text.Headers.{skip_space-token, IsToken, digit-IsToken}
use servd.Config.{
  LogLevel, debug, info, warn, error, ServerConfig, debug_text, info_text, warn_text, error_text,
  parse_log_level, trim_end, trim, split_sign, starts_number, port_of, stoi_port, size_of,
  stoul_size, tcp_key, udp_key, unix_key, max_clients_key, log_level_key, log_file_key, set_option,
  split_at_eq, load_pair, load_trimmed, load_line,
}

-- A value that is written without blanks.
abbrev pub IsWord : List ℕ → Type 0
IsWord v = (c : ℕ) × (cs : List ℕ) × (v ≡ c ∷ cs) × IsToken (c ∷ cs)

abbrev pub level_text : LogLevel → List ℕ
level_text debug = debug_text
level_text info = info_text
level_text warn = warn_text
level_text error = error_text

abbrev pub pair_line : List ℕ → List ℕ → List ℕ
pair_line key value = key ++ (32 ∷ 61 ∷ 32 ∷ value)

trim_end-append : (t rest : List ℕ) → IsToken t → trim_end (t ++ rest) ≡ t ++ trim_end rest
unfolding trim_end
trim_end-append [] rest h = refl
trim_end-append (c ∷ cs) rest h = rw (h.0, trim_end-append cs rest h.1)

trim_end-IsToken : (t : List ℕ) → IsToken t → trim_end t ≡ t
unfolding trim_end
trim_end-IsToken [] h = refl
trim_end-IsToken (c ∷ cs) h = rw (h.0, trim_end-IsToken cs h.1)

trim-IsWord : (c : ℕ) (cs : List ℕ) → IsToken (c ∷ cs) → trim (c ∷ cs) ≡ c ∷ cs
unfolding trim
trim-IsWord c cs h = rw (skip_space-token c cs h.0, trim_end-IsToken (c ∷ cs) h)

trim_end-value :
    (c : ℕ) (cs : List ℕ)
    → IsToken (c ∷ cs)
    → trim_end (32 ∷ 61 ∷ 32 ∷ c ∷ cs) ≡ 32 ∷ 61 ∷ 32 ∷ c ∷ cs
unfolding trim_end
trim_end-value c cs h = rw (h.0, trim_end-IsToken cs h.1)

trim_value : (c : ℕ) (cs : List ℕ) → IsToken (c ∷ cs) → trim (32 ∷ c ∷ cs) ≡ c ∷ cs
unfolding trim skip_space
trim_value c cs h = rw (h.0, trim_end-IsToken (c ∷ cs) h)

trim_key : (k : ℕ) (ks : List ℕ) → IsToken (k ∷ ks) → trim ((k ∷ ks) ++ (32 ∷ [])) ≡ k ∷ ks
unfolding trim trim_end
trim_key k ks h = rw (
  skip_space-token k (ks ++ (32 ∷ [])) h.0,
  trim_end-append (k ∷ ks) (32 ∷ []) h,
  append-nil (k ∷ ks),
)

-- A key is a word that neither starts a comment nor holds a '='.
abbrev pub IsKey : List ℕ → Type 0
IsKey key = All (λ c. (is_space c ≡ false) × ((c == b'#') ≡ false) × ((c == b'=') ≡ false)) key

pub key-IsToken : (key : List ℕ) → IsKey key → IsToken key
key-IsToken [] h = tt
key-IsToken (c ∷ cs) h = (h.0.0, key-IsToken cs h.1)

pub tcp_key-IsKey : IsKey tcp_key
tcp_key-IsKey = ((refl, refl, refl), ((refl, refl, refl), ((refl, refl, refl), tt)))

pub udp_key-IsKey : IsKey udp_key
udp_key-IsKey = ((refl, refl, refl), ((refl, refl, refl), ((refl, refl, refl), tt)))

pub unix_key-IsKey : IsKey unix_key
unix_key-IsKey =
    ((refl, refl, refl), ((refl, refl, refl), ((refl, refl, refl), ((refl, refl, refl), tt))))

pub max_clients_key-IsKey : IsKey max_clients_key
max_clients_key-IsKey = (
  (refl, refl, refl),
  (
    (refl, refl, refl),
    (
      (refl, refl, refl),
      (
        (refl, refl, refl),
        (
          (refl, refl, refl),
          (
            (refl, refl, refl),
            (
              (refl, refl, refl),
              (
                (refl, refl, refl),
                ((refl, refl, refl), ((refl, refl, refl), ((refl, refl, refl), tt))),
              ),
            ),
          ),
        ),
      ),
    ),
  ),
)

pub log_level_key-IsKey : IsKey log_level_key
log_level_key-IsKey = (
  (refl, refl, refl),
  (
    (refl, refl, refl),
    (
      (refl, refl, refl),
      (
        (refl, refl, refl),
        (
          (refl, refl, refl),
          (
            (refl, refl, refl),
            ((refl, refl, refl), ((refl, refl, refl), ((refl, refl, refl), tt))),
          ),
        ),
      ),
    ),
  ),
)

pub log_file_key-IsKey : IsKey log_file_key
log_file_key-IsKey = (
  (refl, refl, refl),
  (
    (refl, refl, refl),
    (
      (refl, refl, refl),
      (
        (refl, refl, refl),
        ((refl, refl, refl), ((refl, refl, refl), ((refl, refl, refl), ((refl, refl, refl), tt)))),
      ),
    ),
  ),
)

split_at_eq-append :
    (key rest : List ℕ)
    → IsKey key
    → split_at_eq (key ++ (32 ∷ 61 ∷ rest)) ≡ some (key ++ (32 ∷ []), rest)
unfolding split_at_eq
split_at_eq-append [] rest h = refl
split_at_eq-append (c ∷ cs) rest h = rw (h.0.2, split_at_eq-append cs rest h.1)

trim_pair :
    (k : ℕ) (ks : List ℕ) (c : ℕ) (cs : List ℕ)
    → IsKey (k ∷ ks)
    → IsToken (c ∷ cs)
    → trim (pair_line (k ∷ ks) (c ∷ cs)) ≡ pair_line (k ∷ ks) (c ∷ cs)
unfolding trim
trim_pair k ks c cs key value = rw (
  skip_space-token k (ks ++ (32 ∷ 61 ∷ 32 ∷ c ∷ cs)) key.0.0,
  trim_end-append (k ∷ ks) (32 ∷ 61 ∷ 32 ∷ c ∷ cs) (key-IsToken (k ∷ ks) key),
  trim_end-value c cs value,
)

load_line-pair :
    (k : ℕ) (ks : List ℕ) (c : ℕ) (cs : List ℕ) (s : ServerConfig)
    → IsKey (k ∷ ks)
    → IsToken (c ∷ cs)
    → load_line (pair_line (k ∷ ks) (c ∷ cs)) s ≡ set_option (k ∷ ks) (c ∷ cs) s
unfolding load_line load_trimmed load_pair
load_line-pair k ks c cs s key value = rw (
  trim_pair k ks c cs key value,
  key.0.1,
  split_at_eq-append (k ∷ ks) (32 ∷ c ∷ cs) key,
  trim_key k ks (key-IsToken (k ∷ ks) key),
  trim_value c cs value,
)

pub load_line-IsWord :
    (k : ℕ) (ks : List ℕ) (v : List ℕ) (s : ServerConfig)
    → IsKey (k ∷ ks)
    → IsWord v
    → load_line (pair_line (k ∷ ks) v) s ≡ set_option (k ∷ ks) v s
load_line-IsWord k ks v s key (c, cs, e, word) = rw e (load_line-pair k ks c cs s key word)

pub decimal-IsWord : (n : ℕ) → IsWord (decimal n)
decimal-IsWord n =
    let (d, ds, e) = decimal-cons n in
    let digits : IsDigits (d ∷ ds) = rw e at (decimal-IsDigits n) in
    (d, ds, e, digit-IsToken (d ∷ ds) digits)

pub level-IsWord : (l : LogLevel) → IsWord (level_text l)
level-IsWord debug = (_, _, refl, (refl, (refl, (refl, (refl, (refl, tt))))))
level-IsWord info = (_, _, refl, (refl, (refl, (refl, (refl, tt)))))
level-IsWord warn = (_, _, refl, (refl, (refl, (refl, (refl, tt)))))
level-IsWord error = (_, _, refl, (refl, (refl, (refl, (refl, (refl, tt))))))

pub parse_log_level-level_text : (l : LogLevel) → parse_log_level (level_text l) ≡ l
unfolding parse_log_level text_eq
parse_log_level-level_text debug = refl
parse_log_level-level_text info = refl
parse_log_level-level_text warn = refl
parse_log_level-level_text error = refl

decimal_value : (n : ℕ) → (read_digits 0 (decimal n)).0 ≡ n
decimal_value n =
    let value : (read_digits 0 (decimal n ++ [])).0 ≡ n =
      ap (λ (p : ℕ × List ℕ). p.0) (read_digits-decimal n [] tt) in
    rw (append-nil (decimal n)) at value

split_sign-digits :
    (c : ℕ) (cs : List ℕ) → is_digit c ≡ true → split_sign (skip_space (c ∷ cs)) ≡ (false, c ∷ cs)
unfolding split_sign
split_sign-digits c cs h =
    let no_minus : (c == b'-') ≡ false = ground arith in
    let no_plus : (c == b'+') ≡ false = ground arith in
    rw (skip_space-token c cs (ground arith), no_minus, no_plus)

stoi_port-digits :
    (c : ℕ) (cs : List ℕ) (n : ℕ)
    → is_digit c ≡ true
    → (read_digits 0 (c ∷ cs)).0 ≡ n
    → n < 2 ^ 16
    → stoi_port (c ∷ cs) ≡ ok n
unfolding stoi_port port_of starts_number
stoi_port-digits c cs n digit value fits =
    let small : ltb n (2 ^ 31) ≡ true = ground arith in
    let same : n % 2 ^ 16 ≡ n = omega arith in
    rw (split_sign-digits c cs digit, digit, value, small, same)

pub stoi_port-decimal : (n : ℕ) → n < 2 ^ 16 → stoi_port (decimal n) ≡ ok n
stoi_port-decimal n fits =
    let (d, ds, e) = decimal-cons n in
    let digits : IsDigits (d ∷ ds) = rw e at (decimal-IsDigits n) in
    let value : (read_digits 0 (d ∷ ds)).0 ≡ n = rw e at (decimal_value n) in
    rw e (stoi_port-digits d ds n digits.0 value fits)

stoul_size-digits :
    (c : ℕ) (cs : List ℕ) (n : ℕ)
    → is_digit c ≡ true
    → (read_digits 0 (c ∷ cs)).0 ≡ n
    → n < 2 ^ 64
    → stoul_size (c ∷ cs) ≡ ok n
unfolding stoul_size size_of starts_number
stoul_size-digits c cs n digit value fits =
    let small : ltb n (2 ^ 64) ≡ true = ground arith in
    rw (split_sign-digits c cs digit, digit, value, small)

pub stoul_size-decimal : (n : ℕ) → n < 2 ^ 64 → stoul_size (decimal n) ≡ ok n
stoul_size-decimal n fits =
    let (d, ds, e) = decimal-cons n in
    let digits : IsDigits (d ∷ ds) = rw e at (decimal-IsDigits n) in
    let value : (read_digits 0 (d ∷ ds)).0 ≡ n = rw e at (decimal_value n) in
    rw e (stoul_size-digits d ds n digits.0 value fits)
