-- ===== src/Logger/Lines.antt =====
-- Entries and lines: src/Logger.cpp.
use servd.Base.{
  ℕ, zero, suc, ◌+◌, ◌-◌, ◌%◌, ◌^◌, ◌≡◌, inl, inr, refl, subst, false, Option, none, some, List, [],
  ◌∷◌, ◌++◌, length, replicate, All-drop, ltb, ◌==◌, decimal, decimal-IsDigits, Bool-cases,
}
use servd.Result.{ok}
use servd.Text.Lines.{OneLine, OneLine-append, OneLine-digits}
use servd.Config.{LogLevel, debug, info, warn, error}
use servd.Logger.{
  level_string, level_color, location, format_file_column, sanitized_char, sanitized, after_slash,
  last_slash, or_whole, basename_of,
}

sanitized_char-OneLine : (c : ℕ) → OneLine (sanitized_char c)
unfolding sanitized_char
sanitized_char-OneLine c = elim (Bool-cases (c == 10)) [
  | inl newline ↦ rw newline (refl, (refl, tt))
  | inr other ↦ rw other (other, tt)
]

pub sanitized-OneLine : (message : List ℕ) → OneLine (sanitized message)
unfolding sanitized sanitized_char
sanitized-OneLine [] = tt
sanitized-OneLine (c ∷ cs) = elim (Bool-cases (c == 0)) [
  | inl end ↦ rw end tt
  | inr more ↦ rw more (
      OneLine-append (sanitized_char c) (sanitized cs) (sanitized_char-OneLine c)
        (sanitized-OneLine cs))
]

pub level_string-OneLine : (l : LogLevel) → OneLine (level_string l)
unfolding level_string
level_string-OneLine debug = (refl, (refl, (refl, (refl, (refl, tt)))))
level_string-OneLine info = (refl, (refl, (refl, (refl, (refl, tt)))))
level_string-OneLine warn = (refl, (refl, (refl, (refl, (refl, tt)))))
level_string-OneLine error = (refl, (refl, (refl, (refl, (refl, tt)))))

pub level_color-OneLine : (l : LogLevel) → OneLine (level_color l)
unfolding level_color
level_color-OneLine debug = (refl, (refl, (refl, (refl, (refl, tt)))))
level_color-OneLine info = (refl, (refl, (refl, (refl, (refl, tt)))))
level_color-OneLine warn = (refl, (refl, (refl, (refl, (refl, tt)))))
level_color-OneLine error = (refl, (refl, (refl, (refl, (refl, tt)))))

replicate-OneLine : (n : ℕ) → OneLine (replicate n 32)
replicate-OneLine zero = tt
replicate-OneLine (suc n) = (refl, replicate-OneLine n)

location-OneLine :
    (basename : List ℕ) (line : ℕ) → OneLine basename → OneLine (location basename line)
unfolding location
location-OneLine basename line h = (
  refl,
  OneLine-append basename (b':' ∷ (decimal line ++ (b')' ∷ []))) h (
    refl,
    OneLine-append (decimal line) (b')' ∷ [])
        (OneLine-digits (decimal line) (decimal-IsDigits line)) (refl, tt),
  ),
)

ok_injective : {a b : List ℕ} → ok a ≡ ok b → a ≡ b
ok_injective h = cc

some_injective : {a b : List ℕ} → some a ≡ some b → a ≡ b
some_injective h = cc

pub format_file_column-OneLine :
    (width : ℕ) (basename : List ℕ) (line : ℕ) (column : List ℕ)
    → OneLine basename
    → format_file_column width basename line ≡ ok column
    → OneLine column
unfolding format_file_column
format_file_column-OneLine width basename line column h e =
    let loc = location basename line in
    let start = (length loc + 2 ^ 64 - (width + 2 ^ 64 - 2) % 2 ^ 64) % 2 ^ 64 in
    let whole = location-OneLine basename line h in
    elim (Bool-cases (ltb width (length loc))) [
      | inl long ↦ elim (Bool-cases (ltb (length loc) start)) [
        | inl behind ↦ absurd (cc (rw (long, behind) at e))
        | inr inside ↦
            subst OneLine (ok_injective (rw (long, inside) at e))
              (refl, (refl, All-drop (λ c. (c == 10) ≡ false) start loc whole))
      ]
      | inr short ↦ subst OneLine (ok_injective (rw short at e)) (
          OneLine-append loc (replicate (width - length loc) 32) whole
            (replicate-OneLine (width - length loc)))
    ]

last_slash-OneLine :
    (o : Option (List ℕ)) (c : ℕ) (cs rest : List ℕ)
    → ((r : List ℕ) → o ≡ some r → OneLine r)
    → OneLine cs
    → last_slash o c cs ≡ some rest
    → OneLine rest
unfolding last_slash
last_slash-OneLine (some r) c cs rest found h e = found rest e
last_slash-OneLine none c cs rest found h e = elim (Bool-cases (c == b'/')) [
  | inl slash ↦ subst OneLine (some_injective (rw slash at e)) h
  | inr other ↦ absurd (cc (rw other at e))
]

after_slash-OneLine :
    (file rest : List ℕ) → OneLine file → after_slash file ≡ some rest → OneLine rest
unfolding after_slash
after_slash-OneLine [] rest h e = absurd (cc e)
after_slash-OneLine (c ∷ cs) rest h e =
    last_slash-OneLine (after_slash cs) c cs rest (λ r. after_slash-OneLine cs r h.1) h.1 e

or_whole-OneLine :
    (o : Option (List ℕ)) (file : List ℕ)
    → ((r : List ℕ) → o ≡ some r → OneLine r)
    → OneLine file
    → OneLine (or_whole o file)
unfolding or_whole
or_whole-OneLine none file found h = h
or_whole-OneLine (some r) file found h = found r refl

pub basename_of-OneLine : (file : List ℕ) → OneLine file → OneLine (basename_of file)
unfolding basename_of
basename_of-OneLine file h =
    or_whole-OneLine (after_slash file) file (λ r. after_slash-OneLine file r h) h
