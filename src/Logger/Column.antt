-- ===== src/Logger/Column.antt =====
-- The column of the source position: Logger::format_file_column in src/Logger.cpp.
use servd.Base.{
  ℕ, ◌+◌, ◌-◌, ◌%◌, ◌^◌, ◌≤◌, ◌<◌, ◌≡◌, inl, inr, Bool-cases, true, false, List, [], ◌∷◌, ◌++◌,
  length, length-append, length-drop, length-replicate, drop, replicate, arith, ltb, decimal,
}
use servd.Result.{ok, err, out_of_range}
use servd.Logger.{location, format_file_column}

module _ (width : ℕ) (basename : List ℕ) (line : ℕ)
    (small : length (location basename line) < 2 ^ 63) where
  -- With room for the two dots, the column has exactly the width that is set, whatever the name and
  -- the line.
  pub length-format_file_column :
      2 ≤ width
      → width < 2 ^ 63
      → (column : List ℕ) × (format_file_column width basename line ≡ ok column)
        × (length column ≡ width)
  unfolding format_file_column
  length-format_file_column dots fits =
      let loc = location basename line in
      let start = (length loc + 2 ^ 64 - (width + 2 ^ 64 - 2) % 2 ^ 64) % 2 ^ 64 in
      elim (Bool-cases (ltb width (length loc))) [
        | inl long ↦
            let inside : ltb (length loc) start ≡ false = ground arith in
            (b'.' ∷ b'.' ∷ drop start loc, rw (long, inside), ground (arith, length-drop start loc))
        | inr short ↦ (
          loc ++ replicate (width - length loc) 32,
          rw short,
          ground (
            arith,
            length-append loc (replicate (width - length loc) 32),
            length-replicate {A = ℕ} (width - length loc) 32,
          ),
        )
      ]

  -- With a width of 0 or 1 it throws.
  pub format_file_column_throws :
      width < 2 → format_file_column width basename line ≡ err out_of_range
  unfolding format_file_column location
  format_file_column_throws narrow =
      let loc = location basename line in
      let start = (length loc + 2 ^ 64 - (width + 2 ^ 64 - 2) % 2 ^ 64) % 2 ^ 64 in
      let some_text : 2 ≤ length loc = omega (
        arith,
        length-append basename (b':' ∷ (decimal line ++ (b')' ∷ []))),
        length-append (decimal line) (b')' ∷ []),
      ) in
      let long : ltb width (length loc) ≡ true = ground arith in
      let behind : ltb (length loc) start ≡ true = ground arith in rw (long, behind)
