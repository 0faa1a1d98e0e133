-- ===== src/Timers.antt =====
-- periodic_timer_loop of src/UringEngine/ClientHandlers.cpp: a task that runs each time a timeout of
-- the ring expires.
pub mod Ticks
mod Tests
use servd.Base.{ℕ, suc, ◌*◌, ◌/◌, ◌%◌, ℤ, Bool, List, [], ◌∷◌, if◌then◌else◌}
use servd.Result.{Result, ok, err}
use servd.Connection.{await_resume}

-- __kernel_timespec
pub record Timespec : Type 0 where
  pub tv_sec : ℕ
  pub tv_nsec : ℕ

-- The interval is in milliseconds.
unfoldable pub timespec_of : ℕ → Timespec
timespec_of interval = record { tv_sec = interval / 1000; tv_nsec = (interval % 1000) * 1000000 }

-- One timeout: its completion, what the task returned or threw, and whether the engine still runs
-- then.
pub record Tick : Type 0 where
  pub res : ℤ
  pub handled : Result (Unit {0})
  pub still_running : Bool

-- Where the loop stands when the timeouts at hand are over: it waits for the next one, has left, or
-- was ended by an exception, which the detached coroutine drops.
pub data TimerState : Type 0 where
  sleeping : TimerState
  stopped : TimerState
  failed : TimerState

-- An exception of the task is logged and the loop goes on.
caught : Result (Unit {0}) → ℕ × TimerState → ℕ × TimerState
caught (ok u) (calls, state) = (suc calls, state)
caught (err e) (calls, state) = (suc calls, state)

-- The wait is outside of the try block.
woken : Result ℤ → Result (Unit {0}) → ℕ × TimerState → ℕ × TimerState
woken (ok n) handled rest = caught handled rest
woken (err e) handled rest = (0, failed)

-- How often the task is called, and where the loop stands.
unfoldable pub periodic_timer_loop : Bool → List Tick → ℕ × TimerState
unfolding caught woken await_resume
periodic_timer_loop running [] = (0, if running then sleeping else stopped)
periodic_timer_loop running (t ∷ ts) =
    let rest = periodic_timer_loop t.still_running ts in
    let called = woken (await_resume t.res) t.handled rest in
    if running then called else (0, stopped)
