-- ===== src/Pool/Places.antt =====
-- Where a task is: queued, run by a worker, or done: include/servd/ThreadPool.hpp.
use servd.Base.{
  ℕ, zero, suc, ◌+◌, ◌<◌, ◌≡◌, refl, ap, true, Option, none, some, List, [], ◌∷◌, ◌++◌, length,
  arith, get_elem?, total, total-replicate, ltb, ◌==◌, if◌then◌else◌,
}
use servd.Result.{Result, ok, err}
use servd.Pool.{Job, new_job, Worker, waiting, running, exited, ThreadPool, thread_pool, task_ends}
use servd.Pool.Handshake.{IsJob}

abbrev pub holds : ℕ → Worker → ℕ
holds i (running k) = if k == i then 1 else 0
holds i waiting = 0
holds i exited = 0

abbrev pub gone : Worker → ℕ
gone exited = 1
gone waiting = 0
gone (running k) = 0

-- The task numbers from `k` on.
abbrev pub ids : ℕ → ℕ → List ℕ
ids k zero = []
ids k (suc n) = k ∷ ids (suc k) n

pub ids-snoc : (k n : ℕ) → ids k n ++ ((k + n) ∷ []) ≡ ids k (suc n)
ids-snoc k zero = let e : k + 0 ≡ k = omega arith in rw e
ids-snoc k (suc n) =
    let e : k + suc n ≡ suc k + n = omega arith in rw e (ap (◌∷◌ k) (ids-snoc (suc k) n))

pub ids-cons :
    (k n : ℕ) {i : ℕ} {rest : List ℕ}
    → ids k n ≡ i ∷ rest
    → (m : ℕ) × (n ≡ suc m) × (i ≡ k) × (rest ≡ ids (suc k) m)
ids-cons k zero h = absurd (cc h)
ids-cons k (suc n) h = (n, refl, cc, cc)

module _ {A : Type 0} where
  pub task_ends_done : (r : Result A) (j : Job A) → (task_ends r j).shared.done ≡ true
  unfolding task_ends
  task_ends_done (ok a) j = refl
  task_ends_done (err e) j = refl

  abbrev pub is_done : Option (Job A) → ℕ
  is_done none = 0
  is_done (some j) = if j.shared.done then 1 else 0

  abbrev pub done_at : List (Job A) → ℕ → ℕ
  done_at jobs i = is_done (get_elem? jobs i)

  pub done_at-snoc :
      (jobs : List (Job A)) (i : ℕ) → done_at (jobs ++ (new_job ∷ [])) i ≡ done_at jobs i
  unfolding new_job
  done_at-snoc [] zero = refl
  done_at-snoc [] (suc i) = refl
  done_at-snoc (j ∷ jobs) zero = refl
  done_at-snoc (j ∷ jobs) (suc i) = done_at-snoc jobs i

  -- The first `taken` tasks were taken, in the order of enqueue, and each of them is run by one
  -- worker or done; the others wait in the queue, in order. A worker leaves only when all is taken.
  pub record IsSound (outcome : ℕ → Result A) (p : ThreadPool A) : Type 0 where
    pub taken : ℕ
    pub left : ℕ
    pub enqueued : taken + left ≡ length p.jobs
    pub queued : p.tasks ≡ ids taken left
    pub once :
        (i : ℕ) → total (holds i) p.workers + done_at p.jobs i ≡ (if ltb i taken then 1 else 0)
    pub sound_jobs : (i : ℕ) (j : Job A) → get_elem? p.jobs i ≡ some j → IsJob (outcome i) j
    pub finished : 0 < total gone p.workers → (p.stop ≡ true) × (p.tasks ≡ [])

  module _ (outcome : ℕ → Result A) where
    pub thread_pool-IsSound : (n : ℕ) → IsSound outcome (thread_pool n)
    unfolding thread_pool
    thread_pool-IsSound n = record {
      taken = 0;
      left = 0;
      enqueued = refl;
      queued = refl;
      once = λ i. ground (arith, total-replicate (holds i) n waiting refl);
      sound_jobs = λ i j h. absurd (cc h);
      finished = λ h. absurd (omega (arith, total-replicate gone n waiting refl));
    }
