-- ===== src/Logger/Tests.antt =====
-- Instances of the theorems about src/Logger.cpp.
use servd.Base.{◌≡◌, ◌⊎◌, refl, true, false, none, [], ◌∷◌, decimal, arith}
use servd.Result.{ok}
use servd.Config.{info, warn}
use servd.Logger.{Logger, LogCall, location, basename_of, set_log_file, log}
use servd.Logger.Entries.{AddsLine, log_all, log-AddsLine, log-set_log_file}

abbrev logger : Logger
logger = record {
  level = info;
  log_file = b'l' ∷ [];
  file_column_width = 32;
  stream = record { is_open = true; failed = false; contents = [] };
  stderr = [];
}

-- The message holds a line break.
abbrev call : LogCall
call = record {
  time_str = b'1' ∷ b':' ∷ b'2' ∷ [];
  is_tty = true;
  level = warn;
  file = b's' ∷ b'/' ∷ b'a' ∷ [];
  line = 7;
  message = b'x' ∷ 10 ∷ b'y' ∷ [];
}

log-AddsLine_example :
    let (result, t) = log call logger in
    (result ≡ ok tt)
    × ((t.stderr ≡ []) ⊎ AddsLine [] t.stderr)
    × ((t.stream.contents ≡ []) ⊎ AddsLine [] t.stream.contents)
unfolding location basename_of decimal
log-AddsLine_example =
    log-AddsLine call logger (omega arith) (omega arith) (omega arith) (refl, (refl, (refl, tt)))
      (refl, (refl, (refl, tt)))

log-set_log_file_example :
    (log_all (call ∷ call ∷ []) (set_log_file [] none (λ p. (true, true)) logger)).stream.contents
    ≡ []
log-set_log_file_example =
    log-set_log_file [] none (λ p. (true, true)) (call ∷ call ∷ []) logger refl (λ p. refl)
