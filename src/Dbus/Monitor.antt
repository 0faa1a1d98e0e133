-- ===== src/Dbus/Monitor.antt =====
-- How long a bus is monitored: bus_monitor_loop of src/UringEngine/ClientHandlers.cpp.
use servd.Base.{ℕ, suc, ℤ, ◌+◌, ◌≡◌, ◌≢◌, true, pos, negsuc, List, [], ◌∷◌, ◌++◌, total, All, arith}
use servd.Result.{ok, err, system_error}
use servd.Connection.{await_resume}
use servd.Dbus.{Wakeup, MonitorState, failed, process_loop, processed, polled, bus_monitor_loop}

-- The poll reports events, the messages that wait can be processed to the end, and the engine runs
-- on.
abbrev pub Drains : Wakeup → Type 0
Drains w =
    ((mask : ℕ) × (w.mask ≡ pos mask))
    × ((process_loop w.results).1 ≡ true)
    × (w.still_running ≡ true)

abbrev pub messages : Wakeup → ℕ
messages w = (process_loop w.results).0

failed_poll : (n : ℕ) → n ≢ 61 → await_resume (negsuc n) ≡ err (system_error (suc n))
unfolding await_resume
failed_poll n no_timeout = ground arith

drained :
    (mask : ℕ) (results : List ℤ) (k : ℕ) (end : MonitorState)
    → (process_loop results).1 ≡ true
    → polled (ok (pos mask)) results (k, end) ≡ ((process_loop results).0 + k, end)
unfolding polled processed
drained mask results k end ends = rw ends

-- Each time a poll reports events, all the messages that wait are processed; the first poll that
-- fails, other than by a timeout, ends the loop for good, though the engine runs: whatever the polls
-- behind it would report, no message is processed any more.
pub bus_monitor_loop_fails :
    (ws more : List Wakeup) (w : Wakeup) (n : ℕ)
    → All Drains ws
    → w.mask ≡ negsuc n
    → n ≢ 61
    → bus_monitor_loop true (ws ++ (w ∷ more)) ≡ (total messages ws, failed)
unfolding bus_monitor_loop polled processed await_resume total
bus_monitor_loop_fails [] more w n drains e no_timeout = rw (e, failed_poll n no_timeout)
bus_monitor_loop_fails (x ∷ ws) more w n (((mask, m), ends, runs), drains) e no_timeout =
    rw (m, runs, bus_monitor_loop_fails ws more w n drains e no_timeout)
      (drained mask x.results (total messages ws) failed ends)
