-- ===== src/Timers/Ticks.antt =====
-- How often a periodic task runs: periodic_timer_loop of src/UringEngine/ClientHandlers.cpp.
use servd.Base.{ℕ, suc, ◌+◌, ◌*◌, ◌<◌, ◌≡◌, refl, true, negsuc, List, [], ◌∷◌, length, All, arith}
use servd.Result.{Result, ok, err}
use servd.Timers.{timespec_of, Tick, sleeping, caught, woken, periodic_timer_loop}

-- The timeout expired (-ETIME), and the engine runs on.
abbrev pub Expires : Tick → Type 0
Expires t = (t.res ≡ negsuc 61) × (t.still_running ≡ true)

caught_lem : (r : Result (Unit {0})) (n : ℕ) → caught r (n, sleeping) ≡ (suc n, sleeping)
unfolding caught
caught_lem (ok u) n = refl
caught_lem (err e) n = refl

-- The interval is kept: the timespec is that many nanoseconds, with less than a second of them in
-- tv_nsec.
pub timespec_of_exact :
    (interval : ℕ)
    → let ts = timespec_of interval in
      (ts.tv_sec * 1000000000 + ts.tv_nsec ≡ interval * 1000000) × (ts.tv_nsec < 1000000000)
unfolding timespec_of
timespec_of_exact interval = (omega arith, omega arith)

-- As long as timeouts expire and the engine runs, the task is called at each of them, also after
-- calls that threw, and the loop waits for the next timeout.
pub periodic_timer_loop_calls :
    (ts : List Tick) → All Expires ts → periodic_timer_loop true ts ≡ (length ts, sleeping)
unfolding periodic_timer_loop woken
periodic_timer_loop_calls [] h = refl
periodic_timer_loop_calls (t ∷ ts) ((expired, runs), h) =
    rw (expired, runs, periodic_timer_loop_calls ts h) (caught_lem t.handled (length ts))
