-- ===== src/Pool/Handshake.antt =====
-- One task and the coroutine that awaits it: enqueue's Shared and Awaiter in
-- include/servd/ThreadPool.hpp.
use servd.Base.{
  ℕ, suc, ◌<◌, ◌≡◌, refl, ap, subst, Bool, true, false, not, none, some, arith, if◌then◌else◌,
}
use servd.Result.{Result, ok, err}
use servd.Pool.{
  Job, new_job, Awaiter, asking, not_ready, suspended, went_on, resumed, await_ready, await_suspend,
  await_resume, task_ends,
}

-- Whether the task is done, whether a waiter is noted, and how often it was posted, for each place
-- of the awaiting coroutine.
abbrev pub Settled : Awaiter → Bool → Bool → ℕ → Type 0
Settled asking done waiter posts = (waiter ≡ false) × (posts ≡ 0)
Settled not_ready done waiter posts = (waiter ≡ false) × (posts ≡ 0)
Settled suspended done waiter posts = (waiter ≡ true) × (posts ≡ (if done then 1 else 0))
Settled went_on done waiter posts = (done ≡ true) × (posts ≡ 0)
Settled resumed done waiter posts = (done ≡ true) × (posts ≡ 1)

Settled-asked :
    (done waiter : Bool) (posts : ℕ)
    → Settled asking done waiter posts
    → Settled (if done then went_on else not_ready) done waiter posts
Settled-asked true waiter posts h = (refl, h.1)
Settled-asked false waiter posts h = h

Settled-waits :
    (done waiter : Bool) (posts : ℕ)
    → Settled not_ready done waiter posts
    → Settled (if not done then suspended else went_on) done true posts
Settled-waits true waiter posts h = (refl, h.1)
Settled-waits false waiter posts h = (refl, h.1)

Settled-resumed :
    (done waiter : Bool) (posts : ℕ)
    → Settled suspended done waiter posts
    → 0 < posts
    → Settled resumed done waiter posts
Settled-resumed true waiter posts h some_post = (refl, h.1)
Settled-resumed false waiter posts h some_post = absurd (omega (arith, h.1))

Settled-ends :
    (a : Awaiter) (waiter : Bool) (posts : ℕ)
    → Settled a false waiter posts
    → Settled a true waiter (if waiter then suc posts else posts)
Settled-ends asking waiter posts h = rw h.0 (refl, h.1)
Settled-ends not_ready waiter posts h = rw h.0 (refl, h.1)
Settled-ends suspended waiter posts h = rw h.0 (refl, ap suc h.1)
Settled-ends went_on waiter posts h = absurd (cc h.0)
Settled-ends resumed waiter posts h = absurd (cc h.0)

module _ {A : Type 0} where
  -- A coroutine is suspended for good only if its task never ends: it is posted once when the task
  -- is done, and has gone on only if it is. What it fetches then is `r`.
  pub record IsJob (r : Result A) (j : Job A) : Type 0 where
    pub settled : Settled j.awaiter j.shared.done j.shared.waiter j.posts
    pub fetches : j.shared.done ≡ true → await_resume j.shared ≡ some r
    pub unset : j.shared.done ≡ false → (j.shared.error ≡ none) × (j.shared.result ≡ none)

  pub new_job-IsJob : (r : Result A) → IsJob r new_job
  unfolding new_job
  new_job-IsJob r = ground arith

  module _ (r : Result A) (j : Job A) (v : IsJob r j) where
    at : (a : Awaiter) → j.awaiter ≡ a → Settled a j.shared.done j.shared.waiter j.posts
    at a here =
        subst (λ (x : Awaiter). Settled x j.shared.done j.shared.waiter j.posts) here v.settled

    pub await_ready-IsJob : j.awaiter ≡ asking → IsJob r (await_ready j)
    unfolding await_ready
    await_ready-IsJob here = record {
      settled = Settled-asked j.shared.done j.shared.waiter j.posts (at asking here);
      fetches = v.fetches;
      unset = v.unset;
    }

    pub await_suspend-IsJob : j.awaiter ≡ not_ready → IsJob r (await_suspend j)
    unfolding await_suspend await_resume
    await_suspend-IsJob here = record {
      settled = Settled-waits j.shared.done j.shared.waiter j.posts (at not_ready here);
      fetches = v.fetches;
      unset = v.unset;
    }

    pub resumed-IsJob :
        j.awaiter ≡ suspended → 0 < j.posts → IsJob r (record j { awaiter = resumed })
    resumed-IsJob here posted = record {
      settled = Settled-resumed j.shared.done j.shared.waiter j.posts (at suspended here) posted;
      fetches = v.fetches;
      unset = v.unset;
    }

  pub task_ends-IsJob :
      (r : Result A) (j : Job A) → IsJob r j → j.shared.done ≡ false → IsJob r (task_ends r j)
  unfolding task_ends await_resume
  task_ends-IsJob (ok a) j v todo =
      let before =
        subst (λ (d : Bool). Settled j.awaiter d j.shared.waiter j.posts) todo v.settled in
      record {
        settled = Settled-ends j.awaiter j.shared.waiter j.posts before;
        fetches = λ h. rw (v.unset todo).0;
        unset = λ h. absurd (cc h);
      }
  task_ends-IsJob (err e) j v todo =
      let before =
        subst (λ (d : Bool). Settled j.awaiter d j.shared.waiter j.posts) todo v.settled in
      record {
        settled = Settled-ends j.awaiter j.shared.waiter j.posts before;
        fetches = λ h. refl;
        unset = λ h. absurd (cc h);
      }
