-- ===== src/Tasks/Void.antt =====
-- Task<void> of include/servd/Task.hpp, whose promise holds no value.
use servd.Base.{ℕ, ◌≡◌, refl, Option, none, some}
use servd.Result.{Error, Result, ok, err}

-- Task<void>::promise_type
pub record VoidPromise : Type 0 where
  pub exception : Option Error
  pub continuation : Option ℕ

new_void_promise : VoidPromise
new_void_promise = record { exception = none; continuation = none }

unhandled_void : Error → VoidPromise → VoidPromise
unhandled_void e p = record p { exception = some e }

-- How a coroutine's body leaves its promise: return_void does nothing.
void_body_ends : Result (Unit {0}) → VoidPromise → VoidPromise
unfolding unhandled_void
void_body_ends (ok u) p = p
void_body_ends (err e) p = unhandled_void e p

-- Task<void>::FinalAwaiter: the coroutine that runs next, if any.
void_final_suspend : VoidPromise → Option ℕ
void_final_suspend p = p.continuation

-- The awaiting coroutine is noted, and the awaited one, `handle`, runs.
void_await_suspend : ℕ → ℕ → VoidPromise → VoidPromise × ℕ
void_await_suspend handle continuation p = (record p { continuation = some continuation }, handle)

void_await_resume : VoidPromise → Result (Unit {0})
void_await_resume p = elim p.exception [ some e ↦ err e | none ↦ ok tt ]

-- An awaited task runs at once; when its body has ended, the awaiting coroutine runs next, and gets
-- the exception that the body threw, if any.
void_await_resume_lem :
    (handle caller : ℕ) (r : Result (Unit {0}))
    → let (p, next) = void_await_suspend handle caller new_void_promise in
      let q = void_body_ends r p in
      (next ≡ handle) × (void_final_suspend q ≡ some caller) × (void_await_resume q ≡ r)
unfolding new_void_promise unhandled_void void_body_ends void_final_suspend void_await_suspend
    void_await_resume
void_await_resume_lem handle caller (ok u) = (refl, refl, refl)
void_await_resume_lem handle caller (err e) = (refl, refl, refl)
