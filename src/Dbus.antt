-- ===== src/Dbus.antt =====
-- bus_monitor_loop of src/UringEngine/ClientHandlers.cpp: the messages of a D-Bus connection are
-- processed each time its descriptor can be read.
pub mod Monitor
mod Tests
use servd.Base.{ℕ, suc, ◌+◌, ℤ, pos, negsuc, Bool, true, false, List, [], ◌∷◌, ◌==◌, if◌then◌else◌}
use servd.Result.{Result, ok, err}
use servd.Connection.{await_resume}

-- One poll: its completion, what sd_bus_process returns at each call from then on, and whether the
-- engine still runs behind them.
pub record Wakeup : Type 0 where
  pub mask : ℤ
  pub results : List ℤ
  pub still_running : Bool

-- Where the loop stands when the polls at hand are over: it waits for the next one, is inside a call
-- of sd_bus_process, has left, or was ended by an exception, which the detached coroutine drops.
pub data MonitorState : Type 0 where
  polling : MonitorState
  processing : MonitorState
  stopped : MonitorState
  failed : MonitorState

-- while (sd_bus_process(bus, nullptr) > 0) {}: how many messages it processes, and whether it ends.
pub process_loop : List ℤ → ℕ × Bool
process_loop [] = (0, false)
process_loop (negsuc n ∷ rs) = (0, true)
process_loop (pos n ∷ rs) =
    let rest = process_loop rs in if n == 0 then (0, true) else (suc rest.0, rest.1)

-- What follows the processing.
processed : ℕ × Bool → ℕ × MonitorState → ℕ × MonitorState
processed (n, ended) rest = if ended then (n + rest.0, rest.1) else (n, processing)

-- What follows the poll; a mask below 0 that does not throw starts the next round.
polled : Result ℤ → List ℤ → ℕ × MonitorState → ℕ × MonitorState
unfolding processed
polled (ok (pos mask)) results rest = processed (process_loop results) rest
polled (ok (negsuc n)) results rest = rest
polled (err e) results rest = (0, failed)

-- How many messages are processed, and where the loop stands.
pub bus_monitor_loop : Bool → List Wakeup → ℕ × MonitorState
unfolding polled await_resume
bus_monitor_loop running [] = (0, if running then polling else stopped)
bus_monitor_loop running (w ∷ ws) =
    let rest = bus_monitor_loop w.still_running ws in
    let after = polled (await_resume w.mask) w.results rest in
    if running then after else (0, stopped)
