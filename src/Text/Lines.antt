-- ===== src/Text/Lines.antt =====
-- Lines and text frames over a stream: read_text_line and read_text_frame of
-- src/UringEngine/FrameIO.cpp. A read asks for one byte, so the kernel stores one byte.
use native.Mathlib.Nat.{le_refl}
use servd.Base.{
  ℕ, zero, suc, ◌+◌, ◌^◌, ◌%◌, ◌<◌, ◌≡◌, refl, sym, ap, false, none, some, List, [], ◌∷◌, ◌++◌,
  arith, All, length, take-all, append-nil, append_assoc, length-append, ◌==◌, text_eq,
  text_eq_refl, decimal, IsDigits, decimal-IsDigits,
}
use servd.Protocol.{ClientFrame, zero_header}
use servd.Stream.{Completion, done, async_read_exact}
use servd.Stream.Segments.{received, async_read_exact-segments}
use servd.Text.{CommandNames, parse_text_header, line_loop, read_text_line, read_text_frame}
use servd.Text.Headers.{parse_text_header-decimal}

-- The completions of one-byte reads of a text, before others.
abbrev pub bytewise : List ℕ → List Completion → List Completion
bytewise [] rest = rest
bytewise (b ∷ bs) rest = received (b ∷ []) ∷ bytewise bs rest

-- A text without line feeds.
abbrev pub OneLine : List ℕ → Type 0
OneLine = All (λ c. (c == 10) ≡ false)

length-bytewise :
    (bs : List ℕ) (rest : List Completion) → length (bytewise bs rest) ≡ length bs + length rest
length-bytewise [] rest = omega arith
length-bytewise (b ∷ bs) rest = omega (arith, length-bytewise bs rest)

read_byte :
    (b : ℕ) (cs : List Completion) → async_read_exact 1 (received (b ∷ []) ∷ cs) ≡ done (b ∷ []) cs
read_byte b cs = async_read_exact-segments ((b ∷ []) ∷ []) cs (omega arith, tt) (omega arith)

is_line_feed : (b : ℕ) → (b == 10) ≡ false → text_eq (b ∷ []) (10 ∷ []) ≡ false
unfolding text_eq
is_line_feed b h = rw h

line_loop_reads :
    (fuel : ℕ) (start line : List ℕ) (rest : List Completion)
    → length line < fuel
    → OneLine line
    → line_loop fuel start (bytewise (line ++ (10 ∷ [])) rest) ≡ done (start ++ line) rest
unfolding line_loop
line_loop_reads zero start line rest h one = elim h [ ]
line_loop_reads (suc fuel) start [] rest h one =
    rw (read_byte 10 rest, line_loop, text_eq_refl (10 ∷ []))
      (ap (λ (l : List ℕ). done l rest) (sym (append-nil start)))
line_loop_reads (suc fuel) start (b ∷ bs) rest h one =
    rw
      (
        read_byte b (bytewise (bs ++ (10 ∷ [])) rest),
        line_loop,
        is_line_feed b one.0,
        line_loop_reads fuel (start ++ (b ∷ [])) bs rest (omega arith) one.1,
      )
      (ap (λ (l : List ℕ). done l rest) (append_assoc start (b ∷ []) bs))

-- A line is read up to its line feed, and what follows stays to be read.
pub read_text_line_reads :
    (line : List ℕ) (rest : List Completion)
    → OneLine line
    → read_text_line (bytewise (line ++ (10 ∷ [])) rest) ≡ done line rest
unfolding read_text_line
read_text_line_reads line rest one =
    line_loop_reads _ [] line rest
      (omega (arith, length-bytewise (line ++ (10 ∷ [])) rest, length-append {0} line (10 ∷ [])))
      one

pub OneLine-append : (xs ys : List ℕ) → OneLine xs → OneLine ys → OneLine (xs ++ ys)
OneLine-append [] ys hx hy = hy
OneLine-append (x ∷ xs) ys hx hy = (hx.0, OneLine-append xs ys hx.1 hy)

pub OneLine-digits : (cs : List ℕ) → IsDigits cs → OneLine cs
OneLine-digits [] h = tt
OneLine-digits (c ∷ cs) h = (ground arith, OneLine-digits cs h.1)

-- Two lines on the wire.
abbrev pub two_lines : List ℕ → List ℕ → List Completion → List Completion
two_lines header payload rest =
    bytewise (header ++ (10 ∷ [])) (bytewise (payload ++ (10 ∷ [])) rest)

abbrev pub text_result : ℕ → ℕ → List ℕ → ClientFrame
text_result cmd sid payload = record {
  header = record {
    command_id = cmd;
    flags = 0;
    payload_length = length payload;
    session_id = sid;
  };
  payload = payload;
}

pub read_text_frame_accepts :
    (names : CommandNames) (header payload : List ℕ) (cmd sid : ℕ) (rest : List Completion)
    → OneLine header
    → OneLine payload
    → length payload < 2 ^ 32
    → parse_text_header header names ≡ some (cmd, sid)
    → read_text_frame names (two_lines header payload rest)
      ≡ done (text_result cmd sid payload) rest
unfolding read_text_frame
read_text_frame_accepts names header payload cmd sid rest ho po fits parsed =
    let size : length payload % 2 ^ 32 ≡ length payload = omega arith in
    rw (
      read_text_line_reads header (bytewise (payload ++ (10 ∷ [])) rest) ho,
      parsed,
      read_text_line_reads payload rest po,
      size,
      take-all (length payload) payload (le_refl (length payload)),
    )

-- A text request, a printed command and session number and a payload line, is read as its frame,
-- and the stream is left at the next request.
pub read_text_frame_request :
    (names : CommandNames) (cmd sid : ℕ) (payload : List ℕ) (rest : List Completion)
    → cmd < 2 ^ 16
    → sid < 2 ^ 64
    → OneLine payload
    → length payload < 2 ^ 32
    → read_text_frame names (two_lines (decimal cmd ++ (32 ∷ decimal sid)) payload rest)
      ≡ done (text_result cmd sid payload) rest
read_text_frame_request names cmd sid payload rest cmd_fits sid_fits po fits =
    read_text_frame_accepts names (decimal cmd ++ (32 ∷ decimal sid)) payload cmd sid rest
      (OneLine-append (decimal cmd) (32 ∷ decimal sid)
        (OneLine-digits (decimal cmd) (decimal-IsDigits cmd))
        (refl, OneLine-digits (decimal sid) (decimal-IsDigits sid)))
      po fits (rw append-nil at (parse_text_header-decimal names cmd sid [] cmd_fits sid_fits tt))

-- A header line that stands for no command: the payload line is not read.
read_text_frame_invalid :
    (names : CommandNames) (header payload : List ℕ) (rest : List Completion)
    → OneLine header
    → parse_text_header header names ≡ none
    → read_text_frame names (two_lines header payload rest)
      ≡ done (record { header = zero_header; payload = [] }) (bytewise (payload ++ (10 ∷ [])) rest)
unfolding read_text_frame
read_text_frame_invalid names header payload rest ho unparsed =
    rw (read_text_line_reads header (bytewise (payload ++ (10 ∷ [])) rest) ho, unparsed)

-- A header line that stands for no command is no error: the reader returns the frame of command 0
-- on session 0 without a payload. The request's payload line is then read as the next header, so that
-- one which spells a command and a session number is taken for that command, with the line behind it
-- as its payload.
pub read_text_frame_shifts :
    (names : CommandNames) (header next : List ℕ) (cmd sid : ℕ) (rest : List Completion)
    → OneLine header
    → parse_text_header header names ≡ none
    → cmd < 2 ^ 16
    → sid < 2 ^ 64
    → OneLine next
    → length next < 2 ^ 32
    → let payload = decimal cmd ++ (32 ∷ decimal sid) in
      let between = two_lines payload next rest in
      (read_text_frame names (two_lines header payload (bytewise (next ++ (10 ∷ [])) rest))
        ≡ done (record { header = zero_header; payload = [] }) between)
      × (read_text_frame names between ≡ done (text_result cmd sid next) rest)
read_text_frame_shifts names header next cmd sid rest ho unparsed cmd_fits sid_fits po fits = (
  read_text_frame_invalid names header (decimal cmd ++ (32 ∷ decimal sid))
      (bytewise (next ++ (10 ∷ [])) rest) ho unparsed,
  read_text_frame_request names cmd sid next rest cmd_fits sid_fits po fits,
)
