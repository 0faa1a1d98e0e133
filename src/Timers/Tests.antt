-- ===== src/Timers/Tests.antt =====
-- A run of periodic_timer_loop: the first call throws, the second timeout fails.
use servd.Base.{◌≡◌, refl, true, negsuc, [], ◌∷◌}
use servd.Result.{ok, err, handler_failure}
use servd.Timers.{failed, periodic_timer_loop}

failing_timeout :
    periodic_timer_loop true (
      record { res = negsuc 61; handled = err (handler_failure 1); still_running = true }
      ∷ record { res = negsuc 3; handled = ok tt; still_running = true }
      ∷ [])
    ≡ (1, failed)
unfolding periodic_timer_loop
failing_timeout = refl
