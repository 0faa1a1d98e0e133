-- ===== src/Tasks/Await.antt =====
-- A task that another coroutine awaits, from the suspension to the result: Task in
-- include/servd/Task.hpp.
use servd.Base.{ℕ, ◌≡◌, refl, some}
use servd.Result.{Result, ok, err}
use servd.Tasks.{new_promise, body_ends, final_suspend, await_suspend, await_resume}

-- An awaited task runs at once; when its body has ended, the awaiting coroutine runs next, and gets
-- what the body returned or threw.
pub await_resume-await_suspend {ℓ} :
    {A : Type ℓ} (default : A) (handle caller : ℕ) (r : Result A)
    → let (p, next) = await_suspend handle caller (new_promise default) in
      let q = body_ends r p in
      (next ≡ handle) × (final_suspend q ≡ some caller) × (await_resume q ≡ r)
unfolding await_suspend new_promise body_ends final_suspend await_resume
await_resume-await_suspend default handle caller (ok v) = (refl, refl, refl)
await_resume-await_suspend default handle caller (err e) = (refl, refl, refl)
