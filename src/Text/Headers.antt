-- ===== src/Text/Headers.antt =====
-- What src/UringEngine/FrameIO.cpp's parse_text_header makes of a header line.
use servd.Base.{
  ℕ, ◌^◌, ◌<◌, ◌≡◌, refl, ap, true, false, none, some, ◌⊎◌, inl, inr, append-nil, List, [], ◌∷◌,
  ◌++◌, arith, All, ltb, ◌==◌, decimal, is_digit, read_digits, read_digits-decimal, NoDigit,
  IsDigits, decimal-IsDigits, decimal-cons,
}
use servd.Text.{
  is_space, skip_space, split_token, from_chars, extract_from, extract_u64, CommandNames, find_name,
  command_of, parse_text_header,
}

-- No byte is a space.
abbrev pub IsToken : List ℕ → Type 0
IsToken = All (λ c. is_space c ≡ false)

-- The rest of a line behind a token.
abbrev pub StartsWithSpace : List ℕ → Type 0
StartsWithSpace [] = Unit {0}
StartsWithSpace (c ∷ cs) = is_space c ≡ true

split_token-append :
    (token rest : List ℕ)
    → IsToken token
    → StartsWithSpace rest
    → split_token (token ++ rest) ≡ (token, rest)
unfolding split_token
split_token-append [] [] t s = refl
split_token-append [] (c ∷ cs) t s = rw s
split_token-append (c ∷ cs) rest t s = rw (t.0, split_token-append cs rest t.1 s)

pub skip_space-token : (c : ℕ) (cs : List ℕ) → is_space c ≡ false → skip_space (c ∷ cs) ≡ c ∷ cs
unfolding skip_space
skip_space-token c cs h = rw h

pub digit-IsToken : (cs : List ℕ) → IsDigits cs → IsToken cs
digit-IsToken [] h = tt
digit-IsToken (c ∷ cs) h = (ground arith, digit-IsToken cs h.1)

-- The first digit of a printed number, and the rest of it.
digits_value : (n : ℕ) (tail : List ℕ) → NoDigit tail → (read_digits 0 (decimal n ++ tail)).0 ≡ n
digits_value n tail stop = ap (λ (p : ℕ × List ℕ). p.0) (read_digits-decimal n tail stop)

from_chars_digits :
    (c : ℕ) (cs : List ℕ) (n : ℕ)
    → is_digit c ≡ true
    → (read_digits 0 (c ∷ cs)).0 ≡ n
    → n < 2 ^ 16
    → from_chars (c ∷ cs) ≡ some n
unfolding from_chars
from_chars_digits c cs n digit value fits =
    let small : ltb n (2 ^ 16) ≡ true = ground arith in rw (digit, value, small)

pub from_chars-decimal : (n : ℕ) → n < 2 ^ 16 → from_chars (decimal n) ≡ some n
from_chars-decimal n fits =
    let (d, ds, e) = decimal-cons n in
    let digits : IsDigits (d ∷ ds) = rw e at (decimal-IsDigits n) in
    let value : (read_digits 0 (d ∷ ds)).0 ≡ n = rw (e, append-nil) at (digits_value n [] tt) in
    rw e (from_chars_digits d ds n digits.0 value fits)

extract_from_digits :
    (c : ℕ) (cs : List ℕ) (n : ℕ)
    → is_digit c ≡ true
    → (read_digits 0 (c ∷ cs)).0 ≡ n
    → n < 2 ^ 64
    → extract_from (c ∷ cs) ≡ n
unfolding extract_from
extract_from_digits c cs n digit value fits =
    let small : ltb n (2 ^ 64) ≡ true = ground arith in
    let no_minus : (c == b'-') ≡ false = ground arith in
    let no_plus : (c == b'+') ≡ false = ground arith in rw (no_minus, no_plus, value, small)

extract_u64-decimal :
    (n : ℕ) (tail : List ℕ) → n < 2 ^ 64 → NoDigit tail → extract_u64 (32 ∷ (decimal n ++ tail)) ≡ n
unfolding extract_u64
extract_u64-decimal n tail fits stop =
    let (d, ds, e) = decimal-cons n in
    let digits : IsDigits (d ∷ ds) = rw e at (decimal-IsDigits n) in
    let value : (read_digits 0 (d ∷ (ds ++ tail))).0 ≡ n = rw e at (digits_value n tail stop) in
    rw (e, skip_space-token d (ds ++ tail) (ground arith))
      (extract_from_digits d (ds ++ tail) n digits.0 value fits)

-- The command of a token: its number, or its entry among the names.
abbrev pub Names : CommandNames → List ℕ → ℕ → Type 0
Names cmd_names token cmd =
    ((from_chars token ≡ some cmd)
      ⊎ ((from_chars token ≡ none) × (find_name token cmd_names ≡ some cmd)))

command_of-Names :
    (cmd_names : CommandNames) (token : List ℕ) (cmd : ℕ)
    → Names cmd_names token cmd
    → command_of (from_chars token) token cmd_names ≡ some cmd
unfolding command_of
command_of-Names cmd_names token cmd (inl number) = rw number
command_of-Names cmd_names token cmd (inr (not_number, named)) = rw not_number named

-- A header line that is a token which stands for a command, a blank and a printed number reads as
-- that command on the session of that number; whatever follows the number is ignored.
parse_text_header_reads :
    (cmd_names : CommandNames) (c : ℕ) (cs : List ℕ) (cmd sid : ℕ) (tail : List ℕ)
    → IsToken (c ∷ cs)
    → Names cmd_names (c ∷ cs) cmd
    → sid < 2 ^ 64
    → NoDigit tail
    → parse_text_header ((c ∷ cs) ++ (32 ∷ (decimal sid ++ tail))) cmd_names ≡ some (cmd, sid)
unfolding parse_text_header
parse_text_header_reads cmd_names c cs cmd sid tail token named fits stop = rw (
  skip_space-token c (cs ++ (32 ∷ (decimal sid ++ tail))) token.0,
  split_token-append (c ∷ cs) (32 ∷ (decimal sid ++ tail)) token refl,
  command_of-Names cmd_names (c ∷ cs) cmd named,
  extract_u64-decimal sid tail fits stop,
)

-- The same for a command that is given by its printed number.
pub parse_text_header-decimal :
    (cmd_names : CommandNames) (cmd sid : ℕ) (tail : List ℕ)
    → cmd < 2 ^ 16
    → sid < 2 ^ 64
    → NoDigit tail
    → parse_text_header (decimal cmd ++ (32 ∷ (decimal sid ++ tail))) cmd_names ≡ some (cmd, sid)
parse_text_header-decimal cmd_names cmd sid tail cmd_fits sid_fits stop =
    let (d, ds, e) = decimal-cons cmd in
    let digits : IsDigits (d ∷ ds) = rw e at (decimal-IsDigits cmd) in
    rw e (
      parse_text_header_reads cmd_names d ds cmd sid tail (digit-IsToken (d ∷ ds) digits)
        (inl (rw e at (from_chars-decimal cmd cmd_fits))) sid_fits stop)
