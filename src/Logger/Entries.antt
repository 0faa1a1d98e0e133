-- ===== src/Logger/Entries.antt =====
-- What one call of the logger writes: Logger::log in src/Logger.cpp.
use servd.Base.{
  ℕ, ◌^◌, ◌≤◌, ◌<◌, ◌≡◌, ◌⊎◌, inl, inr, refl, ◌∙◌, Bool, true, false, not, ◌&&◌, Option, List, [],
  ◌∷◌, ◌++◌, append_assoc, length, ltb, Bool-cases,
}
use servd.Result.{Result, ok, err}
use servd.Text.Lines.{OneLine, OneLine-append}
use servd.Logger.{
  FileStream, Logger, LogCall, level_index, level_string, level_color, color_reset, color_meta,
  escape, location, format_file_column, sanitized, basename_of, message_buffer, plain_head,
  color_head, plain_tail, color_tail, file_entry, expand_home, open_stream, set_log_file,
  write_stream, write_entry, log,
}
use servd.Logger.Column.{length-format_file_column}
use servd.Logger.Lines.{
  sanitized-OneLine, level_string-OneLine, level_color-OneLine, format_file_column-OneLine,
  basename_of-OneLine,
}

-- The text grew by one line.
abbrev pub AddsLine : List ℕ → List ℕ → Type 0
AddsLine before after = (l : List ℕ) × (after ≡ before ++ (l ++ (10 ∷ []))) × OneLine l

module _ (c : LogCall) (time : OneLine c.time_str) where
  message-OneLine : OneLine (sanitized (message_buffer c.message))
  message-OneLine = sanitized-OneLine (message_buffer c.message)

  plain_head-OneLine : OneLine (plain_head c)
  unfolding plain_head
  plain_head-OneLine = OneLine-append c.time_str _ time (
    refl,
    (
      refl,
      OneLine-append (level_string c.level) _ (level_string-OneLine c.level)
          (refl, (refl, (refl, tt))),
    ),
  )

  color_head-OneLine : OneLine (color_head c)
  unfolding color_head color_meta color_reset escape
  color_head-OneLine =
      OneLine-append color_meta _ (refl, (refl, (refl, (refl, (refl, tt)))))
        (OneLine-append c.time_str _ time (
          refl,
          OneLine-append color_reset _ (refl, (refl, (refl, (refl, tt))))
              (OneLine-append (level_color c.level) _ (level_color-OneLine c.level) (
                refl,
                OneLine-append (level_string c.level) _ (level_string-OneLine c.level) (
                  refl,
                  OneLine-append color_reset (color_meta ++ (32 ∷ []))
                      (refl, (refl, (refl, (refl, tt))))
                      (OneLine-append color_meta (32 ∷ [])
                        (refl, (refl, (refl, (refl, (refl, tt))))) (refl, tt)),
                ),
              )),
        ))

  module _ (column : List ℕ) (one : OneLine column) where
    -- A head, the column, ": ", some text and the end of the line.
    entry-AddsLine :
        (before head middle : List ℕ)
        → OneLine head
        → OneLine middle
        → AddsLine before (before ++ (head ++ (column ++ (b':' ∷ 32 ∷ (middle ++ (10 ∷ []))))))
    entry-AddsLine before head middle h m = (
      head ++ (column ++ (b':' ∷ 32 ∷ middle)),
      simp append_assoc,
      OneLine-append head (column ++ (b':' ∷ 32 ∷ middle)) h
          (OneLine-append column (b':' ∷ 32 ∷ middle) one (refl, (refl, m))),
    )

    plain-AddsLine :
        (before : List ℕ) → AddsLine before (before ++ (plain_head c ++ (column ++ plain_tail c)))
    unfolding plain_tail
    plain-AddsLine before =
        entry-AddsLine before (plain_head c) (sanitized (message_buffer c.message))
          plain_head-OneLine message-OneLine

    color-AddsLine :
        (before : List ℕ) → AddsLine before (before ++ (color_head c ++ (column ++ color_tail c)))
    unfolding color_tail color_reset
    color-AddsLine before =
        let middle = color_reset ++ sanitized (message_buffer c.message) in
        entry-AddsLine before (color_head c) middle color_head-OneLine
          (refl, (refl, (refl, (refl, message-OneLine))))

    stream-AddsLine :
        (s : FileStream)
        → ((write_stream (file_entry c column) s).contents ≡ s.contents)
          ⊎ AddsLine s.contents (write_stream (file_entry c column) s).contents
    unfolding write_stream file_entry
    stream-AddsLine s = elim (Bool-cases (s.is_open && not s.failed)) [
      | inl good ↦ inr (rw good (plain-AddsLine s.contents))
      | inr bad ↦ inl (rw bad)
    ]

    stderr-AddsLine : (s : Logger) → AddsLine s.stderr (write_entry c (ok column) s).1.stderr
    unfolding write_entry
    stderr-AddsLine s = elim (Bool-cases c.is_tty) [
      | inl tty ↦ rw tty (color-AddsLine s.stderr)
      | inr plain ↦ rw plain (plain-AddsLine s.stderr)
    ]

-- With a column of at least two characters, and no line break in the time and in the file's name:
-- a call returns, and adds to the standard error, and to the file, nothing or exactly one line,
-- whatever its message holds.
pub log-AddsLine :
    (c : LogCall) (s : Logger)
    → 2 ≤ s.file_column_width
    → s.file_column_width < 2 ^ 63
    → length (location (basename_of c.file) c.line) < 2 ^ 63
    → OneLine c.time_str
    → OneLine c.file
    → let (result, t) = log c s in
      (result ≡ ok tt)
      × ((t.stderr ≡ s.stderr) ⊎ AddsLine s.stderr t.stderr)
      × ((t.stream.contents ≡ s.stream.contents) ⊎ AddsLine s.stream.contents t.stream.contents)
unfolding log write_entry
log-AddsLine c s wide fits small time file =
    let name = basename_of c.file in
    let (column, e, size) =
      length-format_file_column s.file_column_width name c.line small wide fits in
    let one =
      format_file_column-OneLine s.file_column_width name c.line column
        (basename_of-OneLine c.file file) e in
    elim (Bool-cases (ltb (level_index c.level) (level_index s.level))) [
      | inl below ↦ rw below (refl, inl refl, inl refl)
      | inr logged ↦
          rw (logged, e)
            (
              refl,
              inr (stderr-AddsLine c time column one s),
              stream-AddsLine c time column one s.stream,
            )
    ]

stream_failed :
    (text : List ℕ) (s : FileStream) → s.failed ≡ true → (write_stream text s).contents ≡ s.contents
unfolding write_stream
stream_failed text s failed = elim (Bool-cases s.is_open) [
  | inl opened ↦ let shut : (s.is_open && not s.failed) ≡ false = rw (opened, failed) in rw shut
  | inr closed ↦ let shut : (s.is_open && not s.failed) ≡ false = rw closed in rw shut
]

entry_failed :
    (c : LogCall) (column : Result (List ℕ)) (s : Logger)
    → s.stream.failed ≡ true
    → (write_entry c column s).1.stream.contents ≡ s.stream.contents
unfolding write_entry
entry_failed c (ok column) s failed = stream_failed (file_entry c column) s.stream failed
entry_failed c (err e) s failed = refl

reopened :
    (path : List ℕ) (home : Option (List ℕ)) (path_ok : List ℕ → Bool × Bool) (s : Logger)
    → s.stream.is_open ≡ true
    → ((p : List ℕ) → (path_ok p).0 ≡ true)
    → let t = set_log_file path home path_ok s in
      (t.stream.failed ≡ true) × (t.stream.contents ≡ s.stream.contents)
unfolding set_log_file open_stream
reopened path home path_ok s opened directories =
    rw (directories (expand_home path home), opened) (refl, refl)

-- Once an operation on the log file has failed, no call writes to it.
failed_stays :
    (c : LogCall) (s : Logger)
    → s.stream.failed ≡ true
    → (log c s).1.stream.contents ≡ s.stream.contents
unfolding log
failed_stays c s failed = elim (Bool-cases (ltb (level_index c.level) (level_index s.level))) [
  | inl below ↦ rw below
  | inr logged ↦
      rw logged (
        entry_failed c (format_file_column s.file_column_width (basename_of c.file) c.line) s
          failed)
]

stream_keeps_failed :
    (text : List ℕ) (s : FileStream) → s.failed ≡ true → (write_stream text s).failed ≡ true
unfolding write_stream
stream_keeps_failed text s failed = elim (Bool-cases (s.is_open && not s.failed)) [
  | inl good ↦ rw good failed
  | inr bad ↦ rw bad failed
]

entry_keeps_failed :
    (c : LogCall) (column : Result (List ℕ)) (s : Logger)
    → s.stream.failed ≡ true
    → (write_entry c column s).1.stream.failed ≡ true
unfolding write_entry
entry_keeps_failed c (ok column) s failed =
    stream_keeps_failed (file_entry c column) s.stream failed
entry_keeps_failed c (err e) s failed = failed

log_keeps_failed :
    (c : LogCall) (s : Logger) → s.stream.failed ≡ true → (log c s).1.stream.failed ≡ true
unfolding log
log_keeps_failed c s failed = elim (Bool-cases (ltb (level_index c.level) (level_index s.level))) [
  | inl below ↦ rw below failed
  | inr logged ↦ rw logged (
      entry_keeps_failed c (format_file_column s.file_column_width (basename_of c.file) c.line) s
        failed)
]

-- The logger behind some calls, those included that end by an exception.
abbrev pub log_all : List LogCall → Logger → Logger
log_all [] s = s
log_all (c ∷ cs) s = log_all cs (log c s).1

log_all_failed :
    (cs : List LogCall) (s : Logger)
    → s.stream.failed ≡ true
    → (log_all cs s).stream.contents ≡ s.stream.contents
log_all_failed [] s failed = refl
log_all_failed (c ∷ cs) s failed =
    log_all_failed cs (log c s).1 (log_keeps_failed c s failed) ∙ failed_stays c s failed

-- Setting a log file while one is open ends logging to a file: whatever the path, if its
-- directories can be made, none of the calls of log behind it, however many, writes to the file.
pub log-set_log_file :
    (path : List ℕ) (home : Option (List ℕ)) (path_ok : List ℕ → Bool × Bool) (cs : List LogCall)
    (s : Logger)
    → s.stream.is_open ≡ true
    → ((p : List ℕ) → (path_ok p).0 ≡ true)
    → (log_all cs (set_log_file path home path_ok s)).stream.contents ≡ s.stream.contents
log-set_log_file path home path_ok cs s opened directories =
    let (failed, same) = reopened path home path_ok s opened directories in
    log_all_failed cs (set_log_file path home path_ok s) failed ∙ same
