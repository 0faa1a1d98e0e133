-- ===== src/Pool/Tests.antt =====
-- Instances of the theorems about include/servd/ThreadPool.hpp.
use servd.Base.{ℕ, ◌+◌, refl, false, [], ◌∷◌}
use servd.Result.{Result, ok}
use servd.Pool.{running, ThreadPool, thread_pool, new_job, enqueue, await_ready}
use servd.Pool.Steps.{takes, works, enqueues, asks, Reach, here, next}
use servd.Pool.Places.{IsSound}
use servd.Pool.Sound.{Reach-IsSound}

abbrev double : ℕ → Result ℕ
double i = ok (i + i)

-- One task is enqueued, and its caller asks for the result before a worker takes it.
abbrev asked : ThreadPool ℕ
asked = record {
  workers = running 0 ∷ [];
  tasks = [];
  stop = false;
  jobs = await_ready new_job ∷ [];
}

asked_reach : Reach double (thread_pool 1) asked
unfolding enqueue await_ready new_job thread_pool
asked_reach =
    next (next (next here (enqueues refl refl)) (asks 0 new_job refl refl refl))
      (works (takes 0 0 [] refl refl refl))

Reach-IsSound_example : IsSound double asked
Reach-IsSound_example = Reach-IsSound double 1 asked_reach
