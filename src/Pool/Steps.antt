-- ===== src/Pool/Steps.antt =====
-- The interleaved steps of a pool's threads and of the coroutines that use it:
-- include/servd/ThreadPool.hpp.
use servd.Base.{ℕ, ◌<◌, ◌≡◌, true, false, some, List, [], ◌∷◌, get_elem?, set}
use servd.Result.{Result}
use servd.Pool.{
  Job, asking, not_ready, suspended, resumed, waiting, running, exited, ThreadPool, enqueue,
  await_ready, await_suspend, task_ends,
}

-- `outcome i` is what the function of the i-th task returns or throws.
module _ {A : Type 0} (outcome : ℕ → Result A) where
  -- worker_loop of the worker at `w`: it takes the front task, ends the task that it runs, or
  -- leaves a stopped pool whose queue is empty.
  pub data WorkerStep (p q : ThreadPool A) : Type 0 where
    takes :
        (w i : ℕ) (rest : List ℕ)
        → get_elem? p.workers w ≡ some waiting
        → p.tasks ≡ i ∷ rest
        → q ≡ record p { workers = set p.workers w (running i); tasks = rest }
        → WorkerStep p q
    ends :
        (w i : ℕ) (j : Job A)
        → get_elem? p.workers w ≡ some (running i)
        → get_elem? p.jobs i ≡ some j
        → q ≡ record p {
          workers = set p.workers w waiting;
          jobs = set p.jobs i (task_ends (outcome i) j);
        }
        → WorkerStep p q
    exits :
        (w : ℕ)
        → get_elem? p.workers w ≡ some waiting
        → p.stop ≡ true
        → p.tasks ≡ []
        → q ≡ record p { workers = set p.workers w exited }
        → WorkerStep p q

  -- Nobody enqueues once the destructor has begun, which sets `stop`. A suspended coroutine that
  -- was posted is resumed by the engine.
  pub data Step (p q : ThreadPool A) : Type 0 where
    works : WorkerStep p q → Step p q
    enqueues : p.stop ≡ false → q ≡ enqueue p → Step p q
    asks :
        (i : ℕ) (j : Job A)
        → get_elem? p.jobs i ≡ some j
        → j.awaiter ≡ asking
        → q ≡ record p { jobs = set p.jobs i (await_ready j) }
        → Step p q
    suspends :
        (i : ℕ) (j : Job A)
        → get_elem? p.jobs i ≡ some j
        → j.awaiter ≡ not_ready
        → q ≡ record p { jobs = set p.jobs i (await_suspend j) }
        → Step p q
    resumes :
        (i : ℕ) (j : Job A)
        → get_elem? p.jobs i ≡ some j
        → j.awaiter ≡ suspended
        → 0 < j.posts
        → q ≡ record p { jobs = set p.jobs i (record j { awaiter = resumed }) }
        → Step p q
    stops : q ≡ record p { stop = true } → Step p q

  pub data Reach (p : ThreadPool A) : ThreadPool A → Type 0 where
    here : Reach p p
    next : {q r : ThreadPool A} → Reach p q → Step q r → Reach p r
