-- ===== src/Pool.antt =====
-- include/servd/ThreadPool.hpp: workers that take tasks from a shared queue, and coroutines that
-- await the results. What runs under a mutex is one step; the threads' steps interleave in any
-- order. Tasks are numbered as they are enqueued. The condition variable is not modelled: a worker may
-- go on whenever its condition holds, notified or not, which allows more than the program does.
pub mod Steps
mod Handshake
pub mod Places
pub mod Sound
mod Tests
use servd.Base.{
  ℕ, suc, ◌+◌, Bool, true, false, not, ◌&&◌, Option, none, some, List, [], ◌∷◌, ◌++◌, length,
  replicate, set, if◌then◌else◌,
}
use servd.Result.{Error, Result, ok, err}

-- The `Shared` of enqueue; a waiting coroutine's handle is only known to be there.
pub record Shared (A : Type 0) : Type 0 where
  pub result : Option A
  pub error : Option Error
  pub waiter : Bool
  pub done : Bool

-- Where the coroutine that called enqueue stands: before await_ready, between await_ready and
-- await_suspend, suspended, or behind the co_await, which it reached without being suspended
-- (`went_on`) or by being resumed.
pub data Awaiter : Type 0 where
  asking : Awaiter
  not_ready : Awaiter
  suspended : Awaiter
  went_on : Awaiter
  resumed : Awaiter

-- `posts` counts the calls of post_cb (or of resume) on the coroutine's handle.
pub record Job (A : Type 0) : Type 0 where
  pub shared : Shared A
  pub awaiter : Awaiter
  pub posts : ℕ

pub data Worker : Type 0 where
  waiting : Worker
  running : ℕ → Worker
  exited : Worker

pub record ThreadPool (A : Type 0) : Type 0 where
  pub workers : List Worker
  pub tasks : List ℕ
  pub stop : Bool
  pub jobs : List (Job A)

module _ {A : Type 0} where
  unfoldable pub thread_pool : ℕ → ThreadPool A
  thread_pool thread_count = record {
    workers = replicate thread_count waiting;
    tasks = [];
    stop = false;
    jobs = [];
  }

  unfoldable pub new_job : Job A
  new_job = record {
    shared = record { result = none; error = none; waiter = false; done = false };
    awaiter = asking;
    posts = 0;
  }

  unfoldable pub enqueue : ThreadPool A → ThreadPool A
  unfolding new_job
  enqueue p = record p { tasks = p.tasks ++ (length p.jobs ∷ []); jobs = p.jobs ++ (new_job ∷ []) }

  -- Awaiter::await_ready
  unfoldable pub await_ready : Job A → Job A
  await_ready j = record j { awaiter = if j.shared.done then went_on else not_ready }

  -- Awaiter::await_suspend; the coroutine goes on if the task is done by now.
  unfoldable pub await_suspend : Job A → Job A
  await_suspend j = record j {
    shared = record j.shared { waiter = true };
    awaiter = if not j.shared.done then suspended else went_on;
  }

  -- Awaiter::await_resume; `none` is a read of an empty result.
  fetched : Option Error → Option A → Option (Result A)
  fetched (some e) result = some (err e)
  fetched none none = none
  fetched none (some v) = some (ok v)

  unfoldable pub await_resume : Shared A → Option (Result A)
  unfolding fetched
  await_resume s = fetched s.error s.result

  stored : Result A → Shared A → Shared A
  stored (ok v) s = record s { result = some v; done = true }
  stored (err e) s = record s { error = some e; done = true }

  -- The end of a task, with what its function returned or threw.
  unfoldable pub task_ends : Result A → Job A → Job A
  unfolding stored
  task_ends r j = record j {
    shared = stored r j.shared;
    posts = if j.shared.waiter then suc j.posts else j.posts;
  }
