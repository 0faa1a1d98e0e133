-- ===== src/Base/Decimal.antt =====
-- Decimal numerals as bytes: what `operator<<` writes for an unsigned number, and the digits that
-- `std::from_chars` and `operator>>` consume.
use Prim.Native.Nat.{ℕ, zero, suc, ◌+◌, ◌-◌, ◌*◌, ◌/◌, ◌%◌, ◌<◌}
use mathlib.Core.Path.{◌≡◌, refl, ap, ◌∙◌}
use mathlib.Core.Bool.{Bool, true, false, ◌&&◌}
use mathlib.Core.Logic.{inl, inr}
use mathlib.Core.List.{List, [], ◌∷◌, ◌++◌}
use native.Mathlib.Omega.{arith}
use servd.Base.Lists.{All}
use servd.Base.Tests.{ltb, leb, if◌then◌else◌, Bool-cases}

abbrev pub is_digit : ℕ → Bool
is_digit c = leb 48 c && leb c 57

-- `acc` holds the digits that are already written.
unfoldable pub digits_onto : ℕ → ℕ → List ℕ → List ℕ
digits_onto zero n acc = acc
digits_onto (suc f) n acc =
    let rest = digits_onto f (n / 10) ((48 + n % 10) ∷ acc) in
    if ltb n 10 then (48 + n) ∷ acc else rest

-- The fuel is enough, since the number falls with every digit.
unfoldable pub decimal : ℕ → List ℕ
unfolding digits_onto
decimal n = digits_onto (suc n) n []

-- The value of the digits at the front, read after `acc`, and what follows them.
unfoldable pub read_digits : ℕ → List ℕ → ℕ × List ℕ
read_digits acc [] = (acc, [])
read_digits acc (c ∷ cs) =
    let rest = read_digits (acc * 10 + (c - 48)) cs in if is_digit c then rest else (acc, c ∷ cs)

read_digit :
    (acc d : ℕ) (cs : List ℕ)
    → d < 10
    → read_digits acc ((48 + d) ∷ cs) ≡ read_digits (acc * 10 + d) cs
unfolding read_digits
read_digit acc d cs h =
    let digit : is_digit (48 + d) ≡ true = ground arith in
    let value : 48 + d - 48 ≡ d = omega arith in rw (digit, value)

read_digits-digits_onto :
    (f n : ℕ) (acc : List ℕ) → n < f → read_digits 0 (digits_onto f n acc) ≡ read_digits n acc
unfolding digits_onto read_digits
read_digits-digits_onto zero n acc h = elim h [ ]
read_digits-digits_onto (suc f) n acc h = elim (Bool-cases (ltb n 10)) [
  | inl small ↦
      rw small (read_digit 0 n acc (ground arith) ∙ ap (λ (k : ℕ). read_digits k acc) (omega arith))
  | inr large ↦ rw large (
      read_digits-digits_onto f (n / 10) ((48 + n % 10) ∷ acc) (ground arith)
      ∙ read_digit (n / 10) (n % 10) acc (omega arith)
      ∙ ap (λ (k : ℕ). read_digits k acc) (omega arith))
]

digits_onto-append :
    (f n : ℕ) (acc rest : List ℕ) → digits_onto f n acc ++ rest ≡ digits_onto f n (acc ++ rest)
unfolding digits_onto
digits_onto-append zero n acc rest = refl
digits_onto-append (suc f) n acc rest = elim (Bool-cases (ltb n 10)) [
  | inl small ↦ rw small
  | inr large ↦ rw large (digits_onto-append f (n / 10) ((48 + n % 10) ∷ acc) rest)
]

-- Text whose first byte, if any, is no digit.
abbrev pub NoDigit : List ℕ → Type 0
NoDigit [] = Unit {0}
NoDigit (c ∷ cs) = is_digit c ≡ false

read_digits-NoDigit : (n : ℕ) (rest : List ℕ) → NoDigit rest → read_digits n rest ≡ (n, rest)
unfolding read_digits
read_digits-NoDigit n [] h = refl
read_digits-NoDigit n (c ∷ cs) h = rw h

-- A printed number is read back, up to the first byte that is no digit.
pub read_digits-decimal :
    (n : ℕ) (rest : List ℕ) → NoDigit rest → read_digits 0 (decimal n ++ rest) ≡ (n, rest)
unfolding decimal
read_digits-decimal n rest h =
    rw (digits_onto-append (suc n) n [] rest, read_digits-digits_onto (suc n) n rest (omega arith))
      (read_digits-NoDigit n rest h)

abbrev pub IsDigits : List ℕ → Type 0
IsDigits = All (λ c. is_digit c ≡ true)

digits_onto-IsDigits : (f n : ℕ) (acc : List ℕ) → IsDigits acc → IsDigits (digits_onto f n acc)
unfolding digits_onto
digits_onto-IsDigits zero n acc v = v
digits_onto-IsDigits (suc f) n acc v = elim (Bool-cases (ltb n 10)) [
  | inl small ↦ rw small (ground arith, v)
  | inr large ↦ rw large (digits_onto-IsDigits f (n / 10) ((48 + n % 10) ∷ acc) (ground arith, v))
]

digits_onto-cons :
    (f n : ℕ) (c : ℕ) (cs : List ℕ) → (d : ℕ) × (ds : List ℕ) × (digits_onto f n (c ∷ cs) ≡ d ∷ ds)
unfolding digits_onto
digits_onto-cons zero n c cs = (c, cs, refl)
digits_onto-cons (suc f) n c cs = elim (Bool-cases (ltb n 10)) [
  | inl small ↦ rw small (48 + n, c ∷ cs, refl)
  | inr large ↦ rw large (digits_onto-cons f (n / 10) (48 + n % 10) (c ∷ cs))
]

pub decimal-IsDigits : (n : ℕ) → IsDigits (decimal n)
unfolding decimal
decimal-IsDigits n = digits_onto-IsDigits (suc n) n [] tt

-- A number prints at least one digit.
pub decimal-cons : (n : ℕ) → (d : ℕ) × (ds : List ℕ) × (decimal n ≡ d ∷ ds)
unfolding decimal digits_onto
decimal-cons n = elim (Bool-cases (ltb n 10)) [
  | inl small ↦ rw small (48 + n, [], refl)
  | inr large ↦ rw large (digits_onto-cons n (n / 10) (48 + n % 10) [])
]
