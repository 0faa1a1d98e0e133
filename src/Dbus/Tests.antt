-- ===== src/Dbus/Tests.antt =====
-- A run of bus_monitor_loop: two messages, then a poll that fails, then one that reports events.
use servd.Base.{◌≡◌, refl, true, pos, negsuc, [], ◌∷◌, total}
use servd.Dbus.{Wakeup, failed, process_loop, bus_monitor_loop}
use servd.Dbus.Monitor.{bus_monitor_loop_fails}

abbrev two_messages : Wakeup
two_messages = record { mask = pos 1; results = pos 1 ∷ pos 1 ∷ pos 0 ∷ []; still_running = true }

abbrev failing_poll : Wakeup
failing_poll = record { mask = negsuc 8; results = []; still_running = true }

bus_monitor_loop_fails_example :
    bus_monitor_loop true (two_messages ∷ failing_poll ∷ two_messages ∷ []) ≡ (2, failed)
unfolding process_loop total
bus_monitor_loop_fails_example =
    bus_monitor_loop_fails (two_messages ∷ []) (two_messages ∷ []) failing_poll 8
      (((1, refl), refl, refl), tt) refl (λ e. cc e)
